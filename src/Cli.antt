-- ===== src/Cli.antt =====
-- cli/main.go: finding the pod and the port of the server that a command is sent to.
pub mod First
pub mod Ports
pub mod Pods
pub mod Remote
pub mod Run
pub mod HelpTexts
pub mod GateCommands
pub mod Tables
pub mod Rows
pub mod Proxy
pub mod RoundTrip
pub mod Sends
pub mod Overview
pub mod Commands
use canary_gate.Prelude.{ℕ, String, ◌++◌, Bool, Option, none, some, List, [], ◌∷◌, ◌==◌}
use canary_gate.Runtime.Dict.{Dict}
use canary_gate.Kube.Api.{ApiError, Reply, ok, err}
use canary_gate.Cli.First.{first}

-- `intstr.IntOrString`
pub data IntOrString : Type 0 where
  number : ℕ → IntOrString
  label : String → IntOrString

pub record ServicePort : Type 0 where
  pub name : String
  pub target : IntOrString

pub record Service : Type 0 where
  pub name : String
  pub selector : Dict String
  pub ports : List ServicePort

pub record ContainerPort : Type 0 where
  pub name : String
  pub container_port : ℕ

pub record Container : Type 0 where
  pub ports : List ContainerPort

pub record Pod : Type 0 where
  pub name : String
  pub phase : String
  pub containers : List Container

-- What the API server answers while a command runs, `labels.SelectorFromSet` as a text, and a number
-- as `%d` prints it.
pub record Clientset : Type 0 where
  pub list_services : String → String → Reply (List Service)
  pub get_service : String → String → Reply Service
  pub list_pods : String → String → Reply (List Pod)
  pub selector_text : Dict String → String
  pub decimal : ℕ → String

-- The errors, without their texts.
pub data FindError : Type 0 where
  no_service no_selector no_pods no_running_pod no_service_port no_named_port : FindError

pub data Found {ℓ} (A : Type ℓ) : Type ℓ where
  found : A → Found A
  lost : FindError → Found A

infixl 10 ◌>>=◌
abbrev pub ◌>>=◌ : {A B : Type 0} → Found A → (A → Found B) → Found B
found a >>= f = f a
lost e >>= f = lost e

abbrev pub service_label : String
service_label = "app=canary-gate"

abbrev pub service_port_name : String
service_port_name = "http"

abbrev pub pod_running : String
pod_running = "Running"

unfoldable pub find_service_by_label : Clientset → String → String → Found Service
find_service_by_label client namespace selector = elim (client.list_services namespace selector) [
  | err e ↦ lost no_service
  | ok [] ↦ lost no_service
  | ok (service ∷ _) ↦ found service
]

abbrev pub is_running : Pod → Bool
is_running pod = pod.phase == pod_running

abbrev pub or_lost {ℓ} : {A : Type ℓ} → FindError → Option A → Found A
or_lost e none = lost e
or_lost e (some a) = found a

-- The pods that the server lists.
abbrev pub running_pod : Reply (List Pod) → Found Pod
running_pod (err e) = lost no_pods
running_pod (ok []) = lost no_pods
running_pod (ok (pod ∷ pods)) = or_lost no_running_pod (first is_running (pod ∷ pods))

abbrev pub selected_pod : Clientset → String → Dict String → Found Pod
selected_pod client namespace [] = lost no_selector
selected_pod client namespace (entry ∷ entries) =
    running_pod (client.list_pods namespace (client.selector_text (entry ∷ entries)))

unfoldable pub find_running_pod : Clientset → String → String → Found Pod
find_running_pod client namespace service = elim (client.get_service namespace service) [
  | err e ↦ lost no_service
  | ok s ↦ selected_pod client namespace s.selector
]

-- The two loops over the containers and their ports.
unfoldable pub named_port : String → List Container → Option ContainerPort
named_port name [] = none
named_port name (container ∷ rest) =
    let later = named_port name rest in
    elim (first (λ (p : ContainerPort). p.name == name) container.ports) [
      | none ↦ later
      | some port ↦ some port
    ]

abbrev pub numbered : Found ContainerPort → Found ℕ
numbered (found port) = found port.container_port
numbered (lost e) = lost e

abbrev pub target_port : Pod → IntOrString → Found ℕ
target_port pod (number n) = found n
target_port pod (label name) = numbered (or_lost no_named_port (named_port name pod.containers))

unfoldable pub find_pod_port_from_service_port : Pod → Service → String → Found ℕ
unfolding named_port
find_pod_port_from_service_port pod service name =
    or_lost no_service_port (first (λ (p : ServicePort). p.name == name) service.ports) >>= λ port.
    target_port pod port.target

abbrev pub proxy_path : Clientset → String → Pod → ℕ → String → String
proxy_path client namespace pod port path =
    "/api/v1/namespaces/"
    ++ (namespace
        ++ ("/pods/" ++ (pod.name ++ (":" ++ (client.decimal port ++ ("/proxy" ++ path))))))

unfoldable pub find_proxy_path : Clientset → String → String → Found String
unfolding find_service_by_label find_running_pod find_pod_port_from_service_port
find_proxy_path client namespace path = do
  service ← find_service_by_label client namespace service_label
  pod ← find_running_pod client namespace service.name
  port ← find_pod_port_from_service_port pod service service_port_name
  found (proxy_path client namespace pod port path)

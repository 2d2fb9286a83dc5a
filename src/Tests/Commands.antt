-- ===== src/Tests/Commands.antt =====
-- The theorems on the command line, applied to one service with a pod that waits and one that runs.
use canary_gate.Prelude.{◌≡◌, refl, List, [], ◌∷◌, ◌↔◌, inl, inr}
use canary_gate.Kube.Api.{ok}
use canary_gate.Cli.{
  number, label, Service, Container, Pod, Clientset, found, find_running_pod,
  find_pod_port_from_service_port,
}
use canary_gate.Cli.Ports.{Resolves, find_pod_port_from_service_port-Resolves}
use canary_gate.Cli.Pods.{Selects, find_running_pod-Selects}

abbrev pub service : Service
service = record {
  name = "gate";
  selector = ("app", "gate") ∷ [];
  ports =
      record { name = "metrics"; target = number 9090 }
      ∷ record { name = "http"; target = label "web" }
      ∷ [];
}

abbrev containers : List Container
containers =
    record { ports = [] }
    ∷ record { ports = record { name = "web"; container_port = 8080 } ∷ [] }
    ∷ []

abbrev waiting_pod : Pod
waiting_pod = record { name = "gate-0"; phase = "Pending"; containers = containers }

abbrev pub pod : Pod
pod = record { name = "gate-1"; phase = "Running"; containers = containers }

abbrev pub client : Clientset
client = record {
  list_services = λ ns selector. ok (service ∷ []);
  get_service = λ ns name. ok service;
  list_pods = λ ns selector. ok (waiting_pod ∷ pod ∷ []);
  selector_text = λ selector. "app=gate";
  decimal = λ n. "8080";
}

pub service-Resolves : Resolves pod service "http" 8080
service-Resolves = (
  record { name = "http"; target = label "web" },
  inr (refl, inl (refl, refl)),
  (record { name = "web"; container_port = 8080 }, inl (refl, refl), refl),
)

pub client-Selects : Selects client "canary-gate" "gate" pod
client-Selects = (
  service,
  ("app", "gate"),
  [],
  waiting_pod ∷ pod ∷ [],
  refl,
  refl,
  refl,
  inr (refl, inl (refl, refl)),
)

find_pod_port_from_service_port-Resolves_example :
    find_pod_port_from_service_port pod service "http" ≡ found 8080
    ↔ Resolves pod service "http" 8080
find_pod_port_from_service_port-Resolves_example =
    find_pod_port_from_service_port-Resolves pod service "http" 8080

find_running_pod-Selects_example :
    find_running_pod client "canary-gate" "gate" ≡ found pod
    ↔ Selects client "canary-gate" "gate" pod
find_running_pod-Selects_example = find_running_pod-Selects client "canary-gate" "gate" pod

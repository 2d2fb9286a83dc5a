-- ===== src/Cli/Ports.antt =====
-- Which port of a pod a command is sent to.
use mathlib.Core.List.{◌++◌}
use canary_gate.Prelude.{
  ℕ, String, ◌≡◌, refl, sym, ap, ◌∙◌, Bool, Option, none, some, List, [], ◌∷◌, ◌↔◌, inl, inr, ◌==◌,
  Bool-cases, Option-cases,
}
use canary_gate.Cli.{
  IntOrString, number, label, ServicePort, Service, ContainerPort, Container, Pod, found, lost,
  no_named_port, no_service_port, or_lost, numbered, target_port, named_port,
  find_pod_port_from_service_port, ◌>>=◌,
}
use canary_gate.Cli.First.{first, First, first-First, first_found}

-- The ports of all containers, in order.
abbrev pub all_ports : List Container → List ContainerPort
all_ports [] = []
all_ports (container ∷ rest) = container.ports ++ all_ports rest

abbrev pub has_name : String → ContainerPort → Bool
has_name name port = port.name == name

abbrev pub serves : String → ServicePort → Bool
serves name port = port.name == name

abbrev or_else : {A : Type 0} → Option A → Option A → Option A
or_else none o = o
or_else (some a) o = some a

first-append :
    {A : Type 0} (t : A → Bool) (xs ys : List A)
    → first t (xs ++ ys) ≡ or_else (first t xs) (first t ys)
unfolding first
first-append t [] ys = refl
first-append t (x ∷ xs) ys = elim (Bool-cases (t x)) [
  | inl passes ↦ rw passes refl
  | inr fails ↦ rw fails (first-append t xs ys)
]

named_port-all_ports :
    (name : String) (cs : List Container)
    → named_port name cs ≡ first (has_name name) (all_ports cs)
unfolding named_port first
named_port-all_ports name [] = refl
named_port-all_ports name (c ∷ cs) =
    branch (first (has_name name) c.ports) (named_port name cs) (named_port-all_ports name cs)
    ∙ sym (first-append (has_name name) c.ports (all_ports cs))
  where
    branch :
        (o later : Option ContainerPort) {rest : Option ContainerPort}
        → later ≡ rest
        → elim o [ none ↦ later | some port ↦ some port ] ≡ or_else o rest
    branch none later e = e
    branch (some port) later e = refl

-- The number that a target stands for in a pod: itself, or the port of the first container port that
-- has its name.
abbrev pub Targets : Pod → IntOrString → ℕ → Type 0
Targets pod (number m) n = m ≡ n
Targets pod (label name) n =
    (port : ContainerPort) × First (has_name name) port (all_ports pod.containers)
    × (port.container_port ≡ n)

-- The first port of the service that has the name targets `n` in the pod.
abbrev pub Resolves : Pod → Service → String → ℕ → Type 0
Resolves pod service name n =
    (port : ServicePort) × First (serves name) port service.ports × Targets pod port.target n

pub found_inj : {A : Type 0} {a b : A} → found a ≡ found b → a ≡ b
found_inj e = cc

pub lost≢found : {A : Type 0} {a : A} {e : _} → lost e ≡ found a → ⊥
lost≢found e = cc

target_port-Targets :
    (pod : Pod) (target : IntOrString) (n : ℕ)
    → target_port pod target ≡ found n ↔ Targets pod target n
target_port-Targets pod (number m) n = (found_inj, λ e. ap found e)
target_port-Targets pod (label name) n = (forth, back)
  where
    forth : target_port pod (label name) ≡ found n → Targets pod (label name) n
    forth e = elim (Option-cases (named_port name pod.containers)) [
      | inl missing ↦
          absurd (lost≢found (sym (ap (λ o. numbered (or_lost no_named_port o)) missing) ∙ e))
      | inr (port, at) ↦ (
        port,
        first-First (has_name name) port (all_ports pod.containers)
            (sym (named_port-all_ports name pod.containers) ∙ at),
        found_inj (sym (ap (λ o. numbered (or_lost no_named_port o)) at) ∙ e),
      )
    ]

    back : Targets pod (label name) n → target_port pod (label name) ≡ found n
    back (port, at, e) =
        rw
          (
            named_port-all_ports name pod.containers,
            first_found (has_name name) port (all_ports pod.containers) at,
            e,
          )
          refl

-- The port that is found in a pod for a service port is the number that the first service port of the
-- name stands for, and it is found where there is such a number.
pub find_pod_port_from_service_port-Resolves :
    (pod : Pod) (service : Service) (name : String) (n : ℕ)
    → find_pod_port_from_service_port pod service name ≡ found n ↔ Resolves pod service name n
unfolding find_pod_port_from_service_port
find_pod_port_from_service_port-Resolves pod service name n = (forth, back)
  where
    forth : find_pod_port_from_service_port pod service name ≡ found n → Resolves pod service name n
    forth e = elim (Option-cases (first (serves name) service.ports)) [
      | inl missing ↦ absurd (
          lost≢found (
            sym (ap (λ o. or_lost no_service_port o >>= λ p. target_port pod p.target) missing)
            ∙ e))
      | inr (port, at) ↦ (
        port,
        first-First (serves name) port service.ports at,
        (target_port-Targets pod port.target n).0
            (sym (ap (λ o. or_lost no_service_port o >>= λ p. target_port pod p.target) at) ∙ e),
      )
    ]

    back : Resolves pod service name n → find_pod_port_from_service_port pod service name ≡ found n
    back (port, at, targets) =
        rw (first_found (serves name) port service.ports at)
          ((target_port-Targets pod port.target n).1 targets)

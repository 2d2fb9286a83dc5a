-- ===== src/Cli/Pods.antt =====
-- Which pod a command is sent to, and at which path.
use canary_gate.Prelude.{
  ℕ, String, ◌≡◌, refl, sym, ap, ◌∙◌, some, List, [], ◌∷◌, ◌↔◌, inl, inr, Option-cases,
}
use canary_gate.Runtime.Dict.{Dict}
use canary_gate.Kube.Api.{Reply, ok, err}
use canary_gate.Cli.{
  Service, Pod, Clientset, found, lost, no_service, no_running_pod, service_label,
  service_port_name, is_running, selected_pod, running_pod, or_lost, find_running_pod,
  find_service_by_label, proxy_path, find_proxy_path,
}
use canary_gate.Cli.First.{first, First, first-First, first_found}
use canary_gate.Cli.Ports.{
  Resolves, find_pod_port_from_service_port-Resolves, found_inj, lost≢found,
}

-- The pods that the service selects are listed, and `pod` is the first of them that is running.
abbrev pub Selects : Clientset → String → String → Pod → Type 0
Selects client namespace service pod =
    (read : Service) × (entry : String × String) × (entries : Dict String) × (pods : List Pod)
    × (client.get_service namespace service ≡ ok read)
    × (read.selector ≡ entry ∷ entries)
    × (client.list_pods namespace (client.selector_text (entry ∷ entries)) ≡ ok pods)
    × First is_running pod pods

module _ (client : Clientset) (namespace service : String) (pod : Pod) where
  of_pods :
      (read : Service) (entry : String × String) (entries : Dict String) (r : Reply (List Pod))
      → client.get_service namespace service ≡ ok read
      → read.selector ≡ entry ∷ entries
      → client.list_pods namespace (client.selector_text (entry ∷ entries)) ≡ r
      → running_pod r ≡ found pod
      → Selects client namespace service pod
  of_pods read entry entries (err e) got selector listed run = absurd (lost≢found run)
  of_pods read entry entries (ok []) got selector listed run = absurd (lost≢found run)
  of_pods read entry entries (ok (p ∷ pods)) got selector listed run =
      elim (Option-cases (first is_running (p ∷ pods))) [
        | inl missing ↦ absurd (lost≢found (sym (ap (or_lost no_running_pod) missing) ∙ run))
        | inr (q, at) ↦
            let same = found_inj (sym (ap (or_lost no_running_pod) at) ∙ run) in
            (
              read,
              entry,
              entries,
              p ∷ pods,
              got,
              selector,
              listed,
              first-First is_running pod (p ∷ pods) (at ∙ ap some same),
            )
      ]

  of_selector :
      (read : Service) (selector : Dict String)
      → client.get_service namespace service ≡ ok read
      → read.selector ≡ selector
      → selected_pod client namespace selector ≡ found pod
      → Selects client namespace service pod
  of_selector read [] got is run = absurd (lost≢found run)
  of_selector read (entry ∷ entries) got is run =
      of_pods read entry entries
        (client.list_pods namespace (client.selector_text (entry ∷ entries))) got is refl run

  of_service :
      (r : Reply Service)
      → client.get_service namespace service ≡ r
      → elim r [ err e ↦ lost no_service | ok s ↦ selected_pod client namespace s.selector ]
        ≡ found pod
      → Selects client namespace service pod
  of_service (err e) got run = absurd (lost≢found run)
  of_service (ok read) got run = of_selector read read.selector got refl run

  selected_pod-First :
      (entry : String × String) (entries : Dict String) (pods : List Pod)
      → client.list_pods namespace (client.selector_text (entry ∷ entries)) ≡ ok pods
      → First is_running pod pods
      → selected_pod client namespace (entry ∷ entries) ≡ found pod
  selected_pod-First entry entries [] listed running = absurd running
  selected_pod-First entry entries (p ∷ pods) listed running =
      rw (listed, first_found is_running pod (p ∷ pods) running) refl

  -- A pod is found for a service just where the service can be read and has a selector, the pods that
  -- it selects can be listed, and the pod is the first of them that is running.
  pub find_running_pod-Selects :
      find_running_pod client namespace service ≡ found pod ↔ Selects client namespace service pod
  unfolding find_running_pod
  find_running_pod-Selects = (
    of_service (client.get_service namespace service) refl,
    λ (read, entry, entries, pods, got, selector, listed, running).
        rw (find_running_pod, got, selector) (selected_pod-First entry entries pods listed running),
  )

-- Where the label finds services, the first of them selects a pod, and its port `http` stands for a
-- number in that pod, a command is sent to that pod, at that port, whatever its path.
pub find_proxy_path_reaches :
    (client : Clientset) (namespace path : String) (service : Service) (more : List Service)
    (pod : Pod) (n : ℕ)
    → client.list_services namespace service_label ≡ ok (service ∷ more)
    → Selects client namespace service.name pod
    → Resolves pod service service_port_name n
    → find_proxy_path client namespace path ≡ found (proxy_path client namespace pod n path)
unfolding find_proxy_path
find_proxy_path_reaches client namespace path service more pod n services selects port =
    let chosen : find_service_by_label client namespace service_label ≡ found service =
      rw (find_service_by_label, services) refl in
    rw
      (
        find_proxy_path,
        chosen,
        (find_running_pod-Selects client namespace service.name pod).1 selects,
        (find_pod_port_from_service_port-Resolves pod service service_port_name n).1 port,
      )
      refl

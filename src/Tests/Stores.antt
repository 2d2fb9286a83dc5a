-- ===== src/Tests/Stores.antt =====
-- The theorems on the stores, applied to stores over a cluster in memory.
use canary_gate.Prelude.{◌++◌, ◌≡◌, refl, true, false, List, [], ◌∷◌}
use canary_gate.Runtime.Exec.{done, panic, nil_pointer}
use canary_gate.Service.{hook_rollout}
use canary_gate.Store.Defs.{default_value, set_message}
use canary_gate.Store.Contract.{Ends, IsGateStore}
use canary_gate.Store.Book.{Answer, gate, event, answers, default_book}
use canary_gate.Store.Refinement.{Call, closes, is_open, records, last_event, accesses, run_calls}
use canary_gate.Store.Memory.{memory_store, new_memory_store}
use canary_gate.Store.Memory.Gates
use canary_gate.Store.Memory.Gates.{memory_store-IsGateStore}
use canary_gate.Store.Memory.Histories.{memory_store-answers}
use canary_gate.Store.ConfigMap
use canary_gate.Store.ConfigMap.{config_map_store}
use canary_gate.Store.ConfigMap.Fields
use canary_gate.Store.ConfigMap.Gates.{config_map_store-IsGateStore}
use canary_gate.Store.ConfigMap.Gates as MapGates
use canary_gate.Store.ConfigMap.Update as MapUpdate
use canary_gate.Store.ConfigMap.Histories.{config_map_store-answers}
use canary_gate.Store.ConfigMap.Faults.{gate_close-shared}
use canary_gate.Store.Crd
use canary_gate.Store.Crd.{canary_gate_store, new_canary_gate}
use canary_gate.Store.Crd.Changes.{no_gates}
use canary_gate.Store.GateFields.{GateField, rollout, pre_rollout}
use canary_gate.Store.Crd.Place
use canary_gate.Store.Crd.Gates as CrdGates
use canary_gate.Store.Crd.Histories.{canary_gate_store-answers}
use canary_gate.Store.Crd.Faults.{updates-unreachable, updates-missing}
use canary_gate.Tests.Cluster.{empty_cluster, cluster_client-IsReliable, five_attempts-IsBounded}
use canary_gate.Tests.Clients.{
  map_store, gate_store, gate_store-IsHealthy, down_store, managed_cluster, managed_cluster-IsValid,
}
use canary_gate.Tests.Data.{rollout_key, rollout_key-IsGate}

-- A gate is asked for, closed, and asked for again, and the event of its canary is asked for, recorded,
-- and asked for again.
abbrev history : List Call
history =
    is_open rollout_key
    ∷ closes rollout_key
    ∷ is_open rollout_key
    ∷ last_event rollout_key
    ∷ records rollout_key "Updated" "promoted"
    ∷ last_event rollout_key
    ∷ []

abbrev history_answers : List Answer
history_answers = answers default_book (accesses history)

history-answers :
    history_answers
    ≡ gate true ∷ gate false ∷ event (set_message rollout_key false) ∷ event "promoted" ∷ []
unfolding answers default_value
history-answers = refl

memory_store-answers_example :
    Ends (run_calls memory_store history) new_memory_store history_answers Gates.IsValid
memory_store-answers_example = memory_store-answers history (
  rollout_key-IsGate,
  (
    rollout_key-IsGate,
    (
      rollout_key-IsGate,
      (rollout_key-IsGate.0, (rollout_key-IsGate.0, (rollout_key-IsGate.0, tt))),
    ),
  ),
)

config_map_store-IsGateStore_example :
    IsGateStore
      (config_map_store (map_store "gates"))
      (MapGates.view (map_store "gates") cluster_client-IsReliable five_attempts-IsBounded)
config_map_store-IsGateStore_example =
    config_map_store-IsGateStore (map_store "gates") cluster_client-IsReliable
      five_attempts-IsBounded

config_map_store-answers_example :
    Ends
      (run_calls (config_map_store (map_store "")) history)
      empty_cluster
      history_answers
      (Fields.IsValid (map_store "") cluster_client-IsReliable five_attempts-IsBounded)
config_map_store-answers_example =
    config_map_store-answers (map_store "") cluster_client-IsReliable five_attempts-IsBounded
      history empty_cluster refl (λ k. refl)
      (rollout_key-IsGate.1, (rollout_key-IsGate.1, (rollout_key-IsGate.1, (tt, (tt, (tt, tt))))))

canary_gate_store-answers_example :
    Ends
      (run_calls (canary_gate_store gate_store) history)
      managed_cluster
      (answers
        (record {
          gates = CrdGates.gate_of gate_store gate_store-IsHealthy managed_cluster;
          events = CrdGates.event_of gate_store gate_store-IsHealthy managed_cluster;
        })
        (accesses history))
      (Place.IsValid gate_store gate_store-IsHealthy)
unfolding canary_gate.Store.GateFields.gate_field
canary_gate_store-answers_example =
    canary_gate_store-answers gate_store gate_store-IsHealthy history managed_cluster refl
      managed_cluster-IsValid
      (
        (rollout, refl, refl),
        ((rollout, refl, refl), ((rollout, refl, refl), (refl, (refl, (refl, tt))))),
      )

-- The repository's own schema refuses the object.
updates-missing_example :
    (Crd.update_canary_gate gate_store rollout_key true empty_cluster ≡ (done tt, empty_cluster))
    × (Crd.update_event gate_store rollout_key "Updated" "done" empty_cluster
        ≡ (done tt, empty_cluster))
    × (Crd.is_gate_open gate_store rollout_key empty_cluster
        ≡ (done (default_value rollout_key), empty_cluster))
updates-missing_example =
    updates-missing gate_store rollout_key empty_cluster empty_cluster five_attempts-IsBounded
      "invalid" true "Updated" "done" (no_gates tt) empty_cluster refl refl refl refl

gate_close-shared_example :
    Ends
      (ConfigMap.gate_close
        (map_store "gates")
        (record { namespace = "a" ++ ("-" ++ "b"); name = "c"; type = hook_rollout }))
      empty_cluster
      tt
      (λ t.
        MapUpdate.gate_of
          (map_store "gates")
          cluster_client-IsReliable
          five_attempts-IsBounded
          t
          (record { namespace = "a"; name = "b" ++ ("-" ++ "c"); type = hook_rollout })
        ≡ false)
gate_close-shared_example =
    gate_close-shared (map_store "gates") cluster_client-IsReliable five_attempts-IsBounded "a" "b"
      "c" hook_rollout empty_cluster (λ e. cc) (λ e. cc) (record { has_data = λ k. tt })

updates-unreachable_example :
    (Crd.update_canary_gate down_store rollout_key false tt ≡ (panic nil_pointer, tt))
    × (Crd.update_event down_store rollout_key "Updated" "text" tt ≡ (panic nil_pointer, tt))
updates-unreachable_example =
    updates-unreachable down_store rollout_key tt tt five_attempts-IsBounded "timeout" false
      "Updated" "text" refl

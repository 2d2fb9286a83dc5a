-- ===== src/Tests/Interference.antt =====
-- Calls on the stores of the cluster while another client writes to the same objects.
use canary_gate.Prelude.{
  false, String, ◌≡◌, refl, Option, none, some, List, [], ◌∷◌, ◌==◌, if◌then◌else◌,
}
use canary_gate.Runtime.Exec.{Outcome}
use canary_gate.Kube.Api.{ApiError}
use canary_gate.Store.ConfigMap.Accepted.{HasSet, update_gate_once-HasSet}
use canary_gate.Runtime.Dict.{Dict, lookup}
use canary_gate.Store.Refinement.{Call, closes, is_open, records, last_event, run_calls}
use canary_gate.Store.Journal.{GrewBy}
use canary_gate.Store.ConfigMap.{update_gate_once, ConfigMapStore, Data, config_map_store}
use canary_gate.Store.ConfigMap.Writes.{Writes}
use canary_gate.Store.Crd.Accepted as GateAccepted
use canary_gate.Store.Crd.Accepted.{update_canary_gate_once-HasSet}
use canary_gate.Store.Crd.{
  update_canary_gate_once, CanaryGateStore, canary_gate_store, new_canary_gate,
}
use canary_gate.Store.Crd.Writes as GateWrites
use canary_gate.Store.Crd.Interference.{canary_gate_store-GrewBy}
use canary_gate.Tests.Clients.{Gate, plain_converter}
use canary_gate.Tests.Cluster.{five_attempts, five_attempts-IsBounded}
use canary_gate.Tests.Rivals.{Shared, shared_client, shared_client-IsVersioned}
use canary_gate.Tests.Data.{rollout_key}

abbrev shared_store : ConfigMapStore (Shared Data)
shared_store = record { client = shared_client; retry = five_attempts; config_ns = "" }

-- The other client sets a field of its own between the reading and the writing of the store.
abbrev pub shared : Shared Data
shared = record {
  past = λ ns n.
      if n == "app-pod-cgate" then some (("rollout", "opened") ∷ ("owner", "a") ∷ []) ∷ [] else [];
  written = [];
  rivals =
      none ∷ some ("app", "app-pod-cgate", some (("rollout", "opened") ∷ ("owner", "b") ∷ [])) ∷ [];
}

abbrev pub calls : List Call
calls =
    closes rollout_key
    ∷ is_open rollout_key
    ∷ records rollout_key "Updated" "done"
    ∷ last_event rollout_key
    ∷ []

abbrev field_of : List Data → String → Option String
field_of [] f = none
field_of (none ∷ []) f = none
field_of (some d ∷ []) f = lookup d f
field_of (x ∷ y ∷ rest) f = field_of (y ∷ rest) f

abbrev after : Shared Data
after = (run_calls (config_map_store shared_store) calls shared).1

abbrev after_field : String → Option String
after_field f = field_of (after.past "app" "app-pod-cgate") f

-- The gate is closed, and the owner is the one that the other client has set.
kept_owner :
    (after_field "owner" ≡ some "b")
    × (after_field "rollout" ≡ some "closed")
    × (after_field "event" ≡ some "done")
unfolding run_calls lookup canary_gate.Runtime.Dict.insert canary_gate.Kube.Retry.attempts
    canary_gate.Store.ConfigMap.gate_close canary_gate.Store.ConfigMap.update_gate
    canary_gate.Store.ConfigMap.update_gate_once canary_gate.Store.ConfigMap.update_event
    canary_gate.Store.ConfigMap.update_event_once canary_gate.Store.ConfigMap.is_gate_open
    canary_gate.Store.ConfigMap.get_last_event canary_gate.Store.ConfigMap.create_config_map_and_get
    canary_gate.Store.ConfigMap.get_config_map canary_gate.Store.ConfigMap.write_map
    canary_gate.Store.ConfigMap.get_config_map_name
    canary_gate.Store.ConfigMap.get_config_map_namespace canary_gate.Store.Defs.gate_status
kept_owner = (refl, refl, refl)

abbrev closing : Outcome (Option ApiError) × Shared Data
closing = five_attempts.on_conflict (update_gate_once shared_store rollout_key false) shared

-- The first attempt meets a conflict, and the second closes the gate.
update_gate_once-HasSet_example :
    HasSet shared_store five_attempts-IsBounded shared_client-IsVersioned rollout_key false
      shared.written closing.1
unfolding update_gate_once canary_gate.Runtime.Dict.insert canary_gate.Kube.Retry.attempts
    canary_gate.Store.ConfigMap.update_event canary_gate.Store.ConfigMap.update_event_once
    canary_gate.Store.ConfigMap.create_config_map_and_get canary_gate.Store.ConfigMap.get_config_map
    canary_gate.Store.ConfigMap.write_map canary_gate.Store.ConfigMap.get_config_map_name
    canary_gate.Store.ConfigMap.get_config_map_namespace canary_gate.Store.Defs.gate_status
update_gate_once-HasSet_example =
    update_gate_once-HasSet shared_store five_attempts-IsBounded shared_client-IsVersioned
      rollout_key false shared closing.1 refl

abbrev pub shared_gates : CanaryGateStore (Shared Gate) (Unit {0}) Gate
shared_gates = record {
  client = shared_client;
  converter = plain_converter;
  retry = five_attempts;
  recorder = λ g reason message s. s;
  config_ns = "";
  no_flagger = tt;
}

abbrev pub first_gate : Gate
first_gate = (new_canary_gate shared_gates rollout_key).content

-- The other client closes another gate between the reading and the writing of the store.
abbrev pub shared_gate : Shared Gate
shared_gate = record {
  past = λ ns n. if n == "pod" then first_gate ∷ [] else [];
  written = [];
  rivals =
      none
      ∷ some (
        "app",
        "pod",
        record first_gate { spec = record (first_gate.spec) { rollback = "closed" } },
      )
      ∷ [];
}

canary_gate_store-GrewBy_example :
    GrewBy
      (GateWrites.Writes shared_gates)
      calls
      shared_gate.written
      (run_calls (canary_gate_store shared_gates) calls shared_gate).1.written
canary_gate_store-GrewBy_example =
    canary_gate_store-GrewBy shared_gates five_attempts-IsBounded shared_client-IsVersioned
      (λ g reason message s. refl) calls shared_gate

abbrev closing_gate : Outcome (Option ApiError) × Shared Gate
closing_gate =
    five_attempts.on_conflict (update_canary_gate_once shared_gates rollout_key false) shared_gate

update_canary_gate_once-HasSet_example :
    GateAccepted.HasSet shared_gates five_attempts-IsBounded shared_client-IsVersioned
      (λ g reason message s. refl)
      rollout_key
      false
      shared_gate.written
      closing_gate.1
unfolding update_canary_gate_once canary_gate.Store.Crd.update_event
    canary_gate.Store.Crd.update_event_once canary_gate.Store.Crd.create_canary_gate_and_get
    canary_gate.Store.Crd.get_canary_gate canary_gate.Store.Crd.update_gate_object
    canary_gate.Store.Crd.record_event canary_gate.Kube.Retry.attempts
    canary_gate.Store.Defs.set_message canary_gate.Store.Defs.key_text
    canary_gate.Store.Defs.gate_status canary_gate.Store.Crd.get_canary_gate_namespace
update_canary_gate_once-HasSet_example =
    update_canary_gate_once-HasSet shared_gates five_attempts-IsBounded shared_client-IsVersioned
      (λ g reason message s. refl) rollout_key false shared_gate closing_gate.1 refl

-- ===== src/Store/Crd.antt =====
-- store/canarygate.go: gates in the spec of one CanaryGate resource for each canary.
pub mod Fields
pub mod Place
pub mod Update
pub mod Gates
pub mod Faults
pub mod Contract
pub mod Histories
pub mod Requests
pub mod Changes
pub mod Writes
pub mod Interference
pub mod Accepted
use canary_gate.Prelude.{String, ◌++◌, Bool, true, false, Option, none, some, ◌==◌, if◌then◌else◌}
use canary_gate.Runtime.Exec.{Exec, pure, raise, modify, ◌>>=◌, ◌>>◌, nil_pointer}
use canary_gate.Api.{CanaryGate}
use canary_gate.Kube.Api.{
  ApiError, Reply, ok, err, Object, Resource, is_not_found, is_status_error, error_of, call,
}
use canary_gate.Kube.Retry.{Retry}
use canary_gate.Store.GateFields.{gate_field, set_field, get_field}
use canary_gate.Store.Defs.{
  Store, StoreKey, default_value, gate_status, gate_bool_status, set_message,
}

-- `runtime.DefaultUnstructuredConverter`, between the typed content and `U`.
pub record Converter (F U : Type 0) : Type 0 where
  pub to_unstructured : CanaryGate F → Reply U
  pub from_unstructured : U → Reply (CanaryGate F)

-- The dynamic client, the retry loop, the event recorder, `CANARY_GATE_NAMESPACE`, and the empty
-- Flagger spec.
pub record CanaryGateStore (S F U : Type 0) : Type 0 where
  pub client : Resource S U
  pub converter : Converter F U
  pub retry : Retry S
  pub recorder : Object (CanaryGate F) → String → String → S → S
  pub config_ns : String
  pub no_flagger : F

unfoldable pub target_name : String → String → String
target_name namespace name = namespace ++ ("/" ++ name)

-- An object with other content.
abbrev pub with_content : {A B : Type 0} → Object A → B → Object B
with_content o b = record {
  namespace = o.namespace;
  name = o.name;
  version = o.version;
  content = b;
}

abbrev pub convert : {A B : Type 0} → Object A → Reply B → Reply (Object B)
convert o (ok b) = ok (with_content o b)
convert o (err e) = err e

unfoldable pub gate_value : StoreKey → String → Bool
gate_value key status = if status == "" then default_value key else gate_bool_status status

module _ {S F U : Type 0} (st : CanaryGateStore S F U) where
  unfoldable pub get_canary_gate_namespace : StoreKey → String
  get_canary_gate_namespace key = if st.config_ns == "" then key.namespace else st.config_ns

  unfoldable pub new_canary_gate : StoreKey → Object (CanaryGate F)
  new_canary_gate key = record {
    namespace = get_canary_gate_namespace key;
    name = key.name;
    version = 0;
    content = record {
      api_version = "piggysec.com/v1alpha1";
      kind = "CanaryGate";
      spec = record {
        confirm_rollout = "";
        pre_rollout = "";
        rollout = "";
        confirm_traffic_increase = "";
        confirm_promotion = "";
        post_rollout = "";
        rollback = "";
        target = record { name = ""; namespace = "" };
        flagger = st.no_flagger;
      };
      status = record { name = ""; namespace = ""; status = ""; message = ""; target = "" };
    };
  }

  -- An error of the conversion ends the call, and one of the client is only logged.
  unfoldable pub create_canary_gate : StoreKey → Exec S (Object (CanaryGate F))
  unfolding new_canary_gate
  create_canary_gate key =
      let gate = new_canary_gate key in
      elim (st.converter.to_unstructured gate.content) [
        | err e ↦ pure gate
        | ok u ↦ do
          _ ← call (st.client.create (get_canary_gate_namespace key) (with_content gate u))
          pure gate
      ]

  unfoldable pub get_canary_gate : StoreKey → Exec S (Reply (Object (CanaryGate F)))
  get_canary_gate key = do
    r ← call (st.client.get (get_canary_gate_namespace key) key.name)
    elim r [
      | err e ↦ pure (err e)
      | ok o ↦ pure (convert o (st.converter.from_unstructured o.content))
    ]

  abbrev pub non_nil : Reply (Object (CanaryGate F)) → Reply (Option (Object (CanaryGate F)))
  non_nil (ok o) = ok (some o)
  non_nil (err e) = err e

  -- A nil gate with a nil error is `ok none`: what an error gives that is no `*StatusError`.
  unfoldable pub create_canary_gate_and_get :
      StoreKey → Exec S (Reply (Option (Object (CanaryGate F))))
  unfolding get_canary_gate create_canary_gate
  create_canary_gate_and_get key = do
    r ← get_canary_gate key
    elim r [
      | ok conf ↦ pure (ok (some conf))
      | err e ↦
          if is_not_found e
          then (do _ ← create_canary_gate key; again ← get_canary_gate key; pure (non_nil again))
          else if is_status_error e
          then pure (err e)
          else pure (ok none)
    ]

  -- Writing back the gate that was loaded.
  unfoldable pub update_gate_object :
      StoreKey → Object (CanaryGate F) → CanaryGate F → Exec S (Unit {0}) → Exec S (Option ApiError)
  update_gate_object key conf gate and_then = elim (st.converter.to_unstructured gate) [
    | err e ↦ pure (some e)
    | ok u ↦ do
      r ← call (st.client.update (get_canary_gate_namespace key) (with_content conf u))
      and_then
      pure (error_of r)
  ]

  -- The recorder is called where there is a message and the gate can be loaded again.
  unfoldable pub record_event : StoreKey → String → String → Exec S (Unit {0})
  unfolding get_canary_gate
  record_event key status message = if message == "" then pure tt else (do
    r ← get_canary_gate key
    elim r [ ok gate ↦ modify (st.recorder gate status message) | err e ↦ pure tt ])

  unfoldable pub event_gate : StoreKey → String → String → CanaryGate F → CanaryGate F
  event_gate key status message gate = record gate {
    status = record {
      name = key.name;
      namespace = key.namespace;
      status = status;
      message = message;
      target = target_name key.namespace key.name;
    };
  }

  -- The function that `UpdateEvent` retries.
  unfoldable pub update_event_once : StoreKey → String → String → Exec S (Option ApiError)
  unfolding create_canary_gate_and_get update_gate_object record_event
  update_event_once key status message = do
    r ← create_canary_gate_and_get key
    elim r [
      | err e ↦ pure (some e)
      | ok none ↦ raise nil_pointer
      | ok (some conf) ↦
          update_gate_object key conf (event_gate key status message conf.content)
            (record_event key status message)
    ]

  unfoldable pub update_event : StoreKey → String → String → Exec S (Unit {0})
  update_event key status message = do
    _ ← st.retry.on_conflict (update_event_once key status message)
    pure tt

  unfoldable pub set_gate : StoreKey → Bool → CanaryGate F → CanaryGate F
  set_gate key val gate = record gate {
    spec = set_field gate.spec (gate_field key.type) (gate_status val);
    status = record (gate.status) {
      name = key.name;
      namespace = key.namespace;
      target = target_name key.namespace key.name;
    };
  }

  -- The function that `UpdateCanaryGate` retries.
  unfoldable pub update_canary_gate_once : StoreKey → Bool → Exec S (Option ApiError)
  unfolding create_canary_gate_and_get update_gate_object
  update_canary_gate_once key val = do
    r ← create_canary_gate_and_get key
    elim r [
      | err e ↦ pure (some e)
      | ok none ↦ raise nil_pointer
      | ok (some conf) ↦
          update_gate_object key conf (set_gate key val conf.content)
            (update_event key "Updated" (set_message key val))
    ]

  unfoldable pub update_canary_gate : StoreKey → Bool → Exec S (Unit {0})
  update_canary_gate key val = do
    _ ← st.retry.on_conflict (update_canary_gate_once key val)
    pure tt

  unfoldable pub get_last_event : StoreKey → Exec S String
  unfolding get_canary_gate
  get_last_event key = do
    r ← get_canary_gate key
    elim r [ err e ↦ pure "" | ok gate ↦ pure gate.content.status.message ]

  unfoldable pub gate_open : StoreKey → Exec S (Unit {0})
  gate_open key = update_canary_gate key true

  unfoldable pub gate_close : StoreKey → Exec S (Unit {0})
  gate_close key = update_canary_gate key false

  unfoldable pub is_gate_open : StoreKey → Exec S Bool
  unfolding create_canary_gate_and_get
  is_gate_open key = do
    r ← create_canary_gate_and_get key
    elim r [
      | err e ↦ pure (default_value key)
      | ok none ↦ pure (gate_value key "")
      | ok (some conf) ↦ pure (gate_value key (get_field conf.content.spec (gate_field key.type)))
    ]

  -- The event broadcaster is shut down.
  unfoldable pub shutdown : Exec S (Option String)
  shutdown = pure none

  abbrev pub canary_gate_store : Store S
  canary_gate_store = record {
    gate_open = gate_open;
    gate_close = gate_close;
    is_gate_open = is_gate_open;
    shutdown = shutdown;
    update_event = update_event;
    get_last_event = get_last_event;
  }

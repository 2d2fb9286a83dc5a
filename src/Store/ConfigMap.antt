-- ===== src/Store/ConfigMap.antt =====
-- store/configmap.go: gates in the data of one ConfigMap for each canary.
pub mod Naming
pub mod Fields
pub mod Update
pub mod Gates
pub mod Faults
pub mod Conflicts
pub mod Histories
pub mod Requests
pub mod Writes
pub mod Interference
pub mod Accepted
use canary_gate.Prelude.{
  String, ◌++◌, Bool, true, false, Option, none, some, [], ◌∷◌, ◌==◌, if◌then◌else◌,
}
use canary_gate.Runtime.Exec.{Exec, pure, raise, ◌>>=◌, ◌>>◌, nil_map_write}
use canary_gate.Runtime.Dict.{Dict, lookup, insert}
use canary_gate.Service.{hook_event}
use canary_gate.Kube.Api.{
  ApiError, Reply, ok, err, Object, Resource, is_not_found, is_status_error, error_of, call,
}
use canary_gate.Kube.Retry.{Retry}
use canary_gate.Store.Defs.{
  Store, StoreKey, gate_open_text, default_value, gate_status, set_message,
}

-- The field `Data`, which is a nil map where the ConfigMap was written without data.
abbrev pub Data : Type 0
Data = Option (Dict String)

abbrev pub ConfigMap : Type 0
ConfigMap = Object Data

-- `m[k]` and `m[k] = v` of Go: a nil map is read as an empty one, and cannot be written.
unfoldable pub read_map : Data → String → Option String
read_map none k = none
read_map (some d) k = lookup d k

unfoldable pub write_map : {S : Type 0} → Data → String → String → Exec S Data
write_map none k v = raise nil_map_write
write_map (some d) k v = pure (some (insert d k v))

abbrev pub config_map_suffix : String
config_map_suffix = "cgate"

-- The client, the retry loop of client-go, and `CANARY_GATE_NAMESPACE`.
pub record ConfigMapStore (S : Type 0) : Type 0 where
  pub client : Resource S Data
  pub retry : Retry S
  pub config_ns : String

unfoldable pub get_config_map_name : StoreKey → String
get_config_map_name key = key.namespace ++ ("-" ++ (key.name ++ ("-" ++ config_map_suffix)))

-- `m[k]` of a map of texts: the zero value where the key is missing.
abbrev pub or_empty : Option String → String
or_empty none = ""
or_empty (some m) = m

-- What a field of the data says of a gate.
unfoldable pub gate_value : StoreKey → Option String → Bool
gate_value key none = default_value key
gate_value key (some val) = val == gate_open_text

module _ {S : Type 0} (st : ConfigMapStore S) where
  unfoldable pub get_config_map_namespace : StoreKey → String
  get_config_map_namespace key = if st.config_ns == "" then key.namespace else st.config_ns

  unfoldable pub new_config_map : StoreKey → ConfigMap
  new_config_map key = record {
    namespace = "";
    name = get_config_map_name key;
    version = 0;
    content = some ((key.type, gate_status (default_value key)) ∷ []);
  }

  -- An error of the call is only logged.
  unfoldable pub create_config_map : StoreKey → Exec S ConfigMap
  unfolding new_config_map
  create_config_map key = do
    _ ← call (st.client.create (get_config_map_namespace key) (new_config_map key))
    pure (new_config_map key)

  unfoldable pub get_config_map : StoreKey → Exec S (Reply ConfigMap)
  get_config_map key = call (st.client.get (get_config_map_namespace key) (get_config_map_name key))

  unfoldable pub create_config_map_and_get : StoreKey → Exec S (Reply ConfigMap)
  unfolding get_config_map create_config_map
  create_config_map_and_get key = do
    r ← get_config_map key
    elim r [
      | ok conf ↦ pure (ok conf)
      | err e ↦
          if is_not_found e
          then (do create_config_map key; get_config_map key)
          else if is_status_error e
          then pure (err e)
          else pure (err e)
    ]

  -- The function that `UpdateEvent` retries.
  unfoldable pub update_event_once : StoreKey → String → Exec S (Option ApiError)
  unfolding create_config_map_and_get write_map
  update_event_once key message = do
    r ← create_config_map_and_get key
    elim r [
      | err e ↦ pure (some e)
      | ok conf ↦ do
        written ← write_map conf.content hook_event message
        u ← call (st.client.update conf.namespace (record conf { content = written }))
        pure (error_of u)
    ]

  unfoldable pub update_event : StoreKey → String → String → Exec S (Unit {0})
  update_event key status message = do
    _ ← st.retry.on_conflict (update_event_once key message)
    pure tt

  -- The function that `updateGate` retries: the event is recorded also where the update failed.
  unfoldable pub update_gate_once : StoreKey → Bool → Exec S (Option ApiError)
  unfolding create_config_map_and_get write_map
  update_gate_once key val = do
    r ← create_config_map_and_get key
    elim r [
      | err e ↦ pure (some e)
      | ok conf ↦ do
        written ← write_map conf.content key.type (gate_status val)
        u ← call (st.client.update conf.namespace (record conf { content = written }))
        update_event key "Updated" (set_message key val)
        pure (error_of u)
    ]

  unfoldable pub update_gate : StoreKey → Bool → Exec S (Unit {0})
  update_gate key val = do _ ← st.retry.on_conflict (update_gate_once key val); pure tt

  unfoldable pub gate_open : StoreKey → Exec S (Unit {0})
  gate_open key = update_gate key true

  unfoldable pub gate_close : StoreKey → Exec S (Unit {0})
  gate_close key = update_gate key false

  unfoldable pub is_gate_open : StoreKey → Exec S Bool
  unfolding create_config_map_and_get
  is_gate_open key = do
    r ← create_config_map_and_get key
    elim r [
      | err e ↦ pure (default_value key)
      | ok conf ↦ pure (gate_value key (read_map conf.content key.type))
    ]

  unfoldable pub shutdown : Exec S (Option String)
  shutdown = pure none

  unfoldable pub get_last_event : StoreKey → Exec S String
  unfolding get_config_map
  get_last_event key = do
    r ← get_config_map key
    elim r [ err e ↦ pure "" | ok conf ↦ pure (or_empty (read_map conf.content hook_event)) ]

  abbrev pub config_map_store : Store S
  config_map_store = record {
    gate_open = gate_open;
    gate_close = gate_close;
    is_gate_open = is_gate_open;
    shutdown = shutdown;
    update_event = update_event;
    get_last_event = get_last_event;
  }

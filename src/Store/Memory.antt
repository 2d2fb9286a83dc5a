-- ===== src/Store/Memory.antt =====
-- store/memory.go: gates in a `sync.Map` whose values are of any type, with no persistence.
pub mod Naming
pub mod Gates
pub mod Histories
pub mod Threads
pub mod Interleavings
pub mod Races
pub mod Progress
use canary_gate.Prelude.{String, ◌++◌, Bool, true, false, Option, none, some, []}
use canary_gate.Runtime.Exec.{Exec, pure, raise, modify, gets, ◌>>=◌, ◌>>◌, type_assertion}
use canary_gate.Runtime.Dict.{Dict, lookup, insert}
use canary_gate.Service.{hook_event}
use canary_gate.Store.Defs.{Store, StoreKey, default_value, set_message}

-- A value of type `any`: the code stores Booleans and texts.
pub data Any : Type 0 where
  bool : Bool → Any
  text : String → Any

-- The field `data` of `MemoryStore`.
abbrev pub SyncMap : Type 0
SyncMap = Dict Any

abbrev pub new_memory_store : SyncMap
new_memory_store = []

unfoldable pub get_key : StoreKey → String
get_key key = key.namespace ++ (":" ++ (key.name ++ (":" ++ key.type)))

unfoldable pub get_event_key : StoreKey → String
get_event_key key = key.namespace ++ (":" ++ (key.name ++ (":" ++ hook_event)))

-- `sync.Map.Store`
unfoldable pub put : String → Any → Exec SyncMap (Unit {0})
put k v = modify (λ d. insert d k v)

-- `sync.Map.LoadOrStore`: the value that is there, with true, or the given one, with false.
unfoldable pub load_or_store : String → Any → Exec SyncMap (Any × Bool)
load_or_store k v d = elim (lookup d k) [
  | some w ↦ pure (w, true) d
  | none ↦ pure (v, false) (insert d k v)
]

-- `val.(bool)` and `v.(string)`
abbrev pub as_bool : Any → Exec SyncMap Bool
as_bool (bool b) = pure b
as_bool (text t) = raise type_assertion

abbrev pub as_string : Any → Exec SyncMap String
as_string (text t) = pure t
as_string (bool b) = raise type_assertion

unfoldable pub update_event : StoreKey → String → String → Exec SyncMap (Unit {0})
unfolding put
update_event key status message = put (get_event_key key) (text message)

unfoldable pub gate_open : StoreKey → Exec SyncMap (Unit {0})
unfolding put update_event
gate_open key = do put (get_key key) (bool true); update_event key "Updated" (set_message key true)

unfoldable pub gate_close : StoreKey → Exec SyncMap (Unit {0})
unfolding put update_event
gate_close key = do
  put (get_key key) (bool false)
  update_event key "Updated" (set_message key false)

abbrev loaded : StoreKey → Any × Bool → Exec SyncMap Bool
loaded key (val, true) = as_bool val
loaded key (val, false) = pure (default_value key)

unfoldable pub is_gate_open : StoreKey → Exec SyncMap Bool
unfolding load_or_store
is_gate_open key = do r ← load_or_store (get_key key) (bool (default_value key)); loaded key r

unfoldable pub shutdown : Exec SyncMap (Option String)
shutdown = pure none

unfoldable pub get_last_event : StoreKey → Exec SyncMap String
get_last_event key = do
  v ← gets (λ d. lookup d (get_event_key key))
  elim v [ some w ↦ as_string w | none ↦ pure "" ]

abbrev pub memory_store : Store SyncMap
memory_store = record {
  gate_open = gate_open;
  gate_close = gate_close;
  is_gate_open = is_gate_open;
  shutdown = shutdown;
  update_event = update_event;
  get_last_event = get_last_event;
}

-- ===== src/Store/Defs.antt =====
-- store/store.go: the key of a gate, the default of a gate, and the interface of the stores.
use canary_gate.Prelude.{
  String, ◌++◌, ◌≡◌, Bool, true, false, refl, not, Option, ◌==◌, if◌then◌else◌,
}
use canary_gate.Runtime.Exec.{Exec}
use canary_gate.Service.{HookType, hook_rollback}

abbrev pub gate_open_text : String
gate_open_text = "opened"

abbrev pub gate_close_text : String
gate_close_text = "closed"

pub record StoreKey : Type 0 where
  pub namespace : String
  pub name : String
  pub type : HookType

pub StoreKey-ext :
    (k j : StoreKey) → k.namespace ≡ j.namespace → k.name ≡ j.name → k.type ≡ j.type → k ≡ j
StoreKey-ext k j p q r i = record { namespace = p i; name = q i; type = r i }

-- The methods of the interface, as actions on the state `S` of what implements it. The error that
-- `Shutdown` returns is a text.
pub record Store (S : Type 0) : Type 0 where
  pub gate_open : StoreKey → Exec S (Unit {0})
  pub gate_close : StoreKey → Exec S (Unit {0})
  pub is_gate_open : StoreKey → Exec S Bool
  pub shutdown : Exec S (Option String)
  pub update_event : StoreKey → String → String → Exec S (Unit {0})
  pub get_last_event : StoreKey → Exec S String

unfoldable pub default_value : StoreKey → Bool
default_value key = not (key.type == hook_rollback)

unfoldable pub default_text : StoreKey → String
default_text key = if default_value key then gate_open_text else gate_close_text

unfoldable pub gate_status : Bool → String
gate_status val = if val then gate_open_text else gate_close_text

unfoldable pub gate_bool_status : String → Bool
gate_bool_status val = val == gate_open_text

-- `(*StoreKey).String`
unfoldable pub key_text : StoreKey → String
key_text k = k.namespace ++ ("/" ++ (k.name ++ ("=" ++ k.type)))

pub gate_bool_status-gate_status : (b : Bool) → gate_bool_status (gate_status b) ≡ b
unfolding gate_bool_status gate_status
gate_bool_status-gate_status true = refl
gate_bool_status-gate_status false = refl

-- The message that a store records after a gate is set.
unfoldable pub set_message : StoreKey → Bool → String
set_message key val = "Gate [" ++ (key_text key ++ ("] is set to [" ++ (gate_status val ++ "]")))

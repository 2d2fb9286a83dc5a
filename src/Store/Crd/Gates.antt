-- ===== src/Store/Crd/Gates.antt =====
-- The gates of the CanaryGate store (store/canarygate.go), and how a state of it is seen.
use canary_gate.Prelude.{
  String, ◌≡◌, refl, ap₂, subst, Bool, true, false, ◌&&◌, Option, none, some, ◌==◌,
}
use canary_gate.Runtime.Exec.{done}
use canary_gate.Service.{HookType}
use canary_gate.Api.{CanaryGate}
use canary_gate.Kube.Api.{ok, Object, same-true}
use canary_gate.Store.Defs.{StoreKey}
use canary_gate.Store.Contract.{View}
use canary_gate.Store.Crd.{CanaryGateStore, with_content, create_canary_gate_and_get, gate_value}
use canary_gate.Store.GateFields.{GateField, gate_field, get_field}
use canary_gate.Store.Crd.Place
use canary_gate.Store.Crd.Place.{IsHealthy, IsValid, Put, stored_for, gate_at, same_gate}

module _ {S F U : Type 0} (st : CanaryGateStore S F U) (h : IsHealthy st) where
  abbrev pub field_in : Option (CanaryGate F) → HookType → String
  field_in none t = ""
  field_in (some g) t = get_field g.spec (gate_field t)

  abbrev pub message_in : Option (CanaryGate F) → String
  message_in none = ""
  message_in (some g) = g.status.message

  -- Whether a gate is open: what its field says, or the default of its type where it is empty.
  abbrev pub gate_of : S → StoreKey → Bool
  gate_of s k = gate_value k (field_in (gate_at st h s k) k.type)

  -- The last event of the canary of `k`.
  abbrev pub event_of : S → StoreKey → String
  event_of s k = message_in (gate_at st h s k)

  -- The view of a state: the gates are the seven with a field of their own in a managed resource, and
  -- two are apart where they are kept in different fields, or in different resources.
  abbrev pub view : View S
  view = record {
    IsValid = IsValid st h;
    IsGate = λ k. (f : GateField) × (gate_field k.type ≡ some f) × h.Managed k;
    IsCanary = λ k. h.Managed k;
    Aside = λ k j. same_gate st h k j ≡ false;
    Apart = λ k j. (same_gate st h k j && (k.type == j.type)) ≡ false;
    gates = gate_of;
    events = event_of;
  }

  -- The gate of the canary of `k` is loaded from `s`, in the state `u`.
  pub record Loaded (s : S) (k : StoreKey) : Type 0 where
    pub after : S
    pub object : Object U
    pub gate : CanaryGate F
    pub run :
        create_canary_gate_and_get st k s ≡ (done (ok (some (with_content object gate))), after)
    pub valid : IsValid st h after
    pub found : stored_for st h after k ≡ some object
    pub content : st.converter.from_unstructured object.content ≡ ok gate
    pub same_gates : (j : StoreKey) → gate_of after j ≡ gate_of s j
    pub same_events : (j : StoreKey) → event_of after j ≡ event_of s j

  pub same_place :
      (s : S) (k j : StoreKey)
      → same_gate st h k j ≡ true
      → stored_for st h s k ≡ stored_for st h s j
  same_place s k j e = let at = same-true _ _ _ _ e in ap₂ (h.server.stored s) at.0 at.1

  pub load : (s : S) (k : StoreKey) → IsValid st h s → h.Managed k → Loaded s k
  load s k v managed =
      let (o, found) = v.is_there k managed in
      let (g, content) = subst (Place.HasGate st h) found (v.has_gate k) in
      record {
        after = s;
        object = o;
        gate = g;
        run = Place.load_found st h s k o g found content;
        valid = v;
        found = found;
        content = content;
        same_gates = λ j. refl;
        same_events = λ j. refl;
      }

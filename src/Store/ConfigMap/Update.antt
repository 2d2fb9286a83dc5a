-- ===== src/Store/ConfigMap/Update.antt =====
-- What setting a gate of the ConfigMap store writes, while the API server is reliable.
use canary_gate.Prelude.{
  String, ◌≡◌, refl, sym, subst, ap, ap₂, ◌∙◌, Bool, false, not, and_true, ◌&&◌, none, some, inl,
  inr, ◌==◌, eq_iff, Option-cases, Bool-cases,
}
use canary_gate.Runtime.Exec.{done}
use canary_gate.Service.{hook_event, hook_rollback}
use canary_gate.Kube.Api.{ok, IsReliable, same-true}
use canary_gate.Kube.Retry.{IsBounded, settle_done}
use canary_gate.Store.Defs.{
  StoreKey, default_value, gate_status, gate_bool_status, set_message, gate_bool_status-gate_status,
}
use canary_gate.Store.Contract.{Ends}
use canary_gate.Store.ConfigMap.{
  ConfigMapStore, ConfigMap, write_map, or_empty, gate_value, create_config_map_and_get,
  update_event_once, update_event, update_gate_once, update_gate,
}
use canary_gate.Store.ConfigMap.Fields
use canary_gate.Store.ConfigMap.Fields.{HasData, IsValid, Wrote, stored_for, field, same_map}

module _ {S : Type 0} (st : ConfigMapStore S) (rel : IsReliable st.client)
    (bound : IsBounded st.retry) where
  -- Whether a gate is open: what its field says, or the default of its type.
  abbrev pub gate_of : S → StoreKey → Bool
  gate_of s k = gate_value k (field st rel bound s k k.type)

  -- The last event of the canary of `k`.
  abbrev pub event_of : S → StoreKey → String
  event_of s k = or_empty (field st rel bound s k hook_event)

  -- The event of a canary whose ConfigMap was loaded in `u`.
  pub event_loaded :
      (s u : S) (k : StoreKey) (o : ConfigMap) (status m : String)
      → create_config_map_and_get st k s ≡ (done (ok o), u)
      → IsValid st rel bound u
      → stored_for st rel bound u k ≡ some o
      → Ends (update_event st k status m) s tt (λ t. Wrote st rel bound u t k hook_event m)
  unfolding update_event
  event_loaded s u k o status m load v found =
      let (d, content) = subst HasData found (v.has_data k) in
      let t : S = Fields.updated st rel bound u k o d hook_event m v found content in
      let once : update_event_once st k m s ≡ (done none, t) =
        unfold update_event_once write_map in
        rw
          (
            load,
            content,
            write_map,
            Fields.update_accepted st rel bound u k o d hook_event m v found content,
          )
          refl in
      (
        t,
        rw (settle_done st.retry bound (update_event_once st k m) s once) refl,
        Fields.updated-Wrote st rel bound u k o d hook_event m v found content,
      )

  -- A write is not seen in another ConfigMap.
  pub Wrote-aside :
      {s t : S} {k : StoreKey} {f v : String}
      → Wrote st rel bound s t k f v
      → (j : StoreKey) (g : String) → same_map st rel bound k j ≡ false
      → field st rel bound t j g ≡ field st rel bound s j g
  Wrote-aside w j g aside = rw (w.fields j g, aside) refl

  abbrev pub AllGates : S → S → Type 0
  AllGates s t = (j : StoreKey) → gate_of t j ≡ gate_of s j

  pub default-value_of_type : (k j : StoreKey) → k.type ≡ j.type → default_value k ≡ default_value j
  unfolding default_value
  default-value_of_type k j e = ap (λ (t : String). not (t == hook_rollback)) e

  -- A new ConfigMap has the default of its gate, so no gate changes.
  pub created-AllGates :
      (s : S) (k : StoreKey) (v : IsValid st rel bound s)
      (missing : stored_for st rel bound s k ≡ none)
      → AllGates s (Fields.created st rel bound s k v missing)
  unfolding gate_value gate_status gate_bool_status
  created-AllGates s k v missing j =
      elim (Bool-cases (same_map st rel bound k j && (k.type == j.type))) [
        | inl here ↦
            let (place, type) = and_true (same_map st rel bound k j) (k.type == j.type) here in
            let at = same-true _ _ _ _ place in
            let gone : stored_for st rel bound s j ≡ none =
              sym (ap₂ (rel.stored s) at.0 at.1) ∙ missing in
            rw ((Fields.created-Wrote st rel bound s k v missing).fields j j.type, here, gone)
              (gate_bool_status-gate_status (default_value k)
                ∙ default-value_of_type k j ((eq_iff k.type j.type).0 type))
        | inr other ↦
            rw ((Fields.created-Wrote st rel bound s k v missing).fields j j.type, other) refl
      ]

  -- The gate of `k` is set to `b`, and the event of its canary recorded.
  pub record SetGate (s t : S) (k : StoreKey) (b : Bool) : Type 0 where
    pub loaded : S
    pub set : S
    pub same_gates : AllGates s loaded
    pub same_aside :
        (j : StoreKey) → same_map st rel bound k j ≡ false → event_of loaded j ≡ event_of s j
    pub gate_wrote : Wrote st rel bound loaded set k k.type (gate_status b)
    pub event_wrote : Wrote st rel bound set t k hook_event (set_message k b)

  update_loaded :
      (s u : S) (k : StoreKey) (b : Bool) (o : ConfigMap)
      → create_config_map_and_get st k s ≡ (done (ok o), u)
      → stored_for st rel bound u k ≡ some o
      → IsValid st rel bound u
      → AllGates s u
      → ((j : StoreKey) → same_map st rel bound k j ≡ false → event_of u j ≡ event_of s j)
      → Ends (update_gate st k b) s tt (λ t. SetGate s t k b)
  unfolding update_gate
  update_loaded s u k b o load found v same aside =
      let (d, content) = subst HasData found (v.has_data k) in
      let w : S = Fields.updated st rel bound u k o d k.type (gate_status b) v found content in
      let wrote =
        Fields.updated-Wrote st rel bound u k o d k.type (gate_status b) v found content in
      let (t, event, event_wrote) =
        let at = Fields.updated_at st rel bound u k o d k.type (gate_status b) v found content in
        event_loaded w w k _ "Updated" (set_message k b) (Fields.load_found st rel bound w k _ at)
          wrote.valid at in
      let once : update_gate_once st k b s ≡ (done none, t) =
        unfold update_gate_once write_map in
        rw
          (
            load,
            content,
            write_map,
            event,
            Fields.update_accepted st rel bound u k o d k.type (gate_status b) v found content,
          )
          refl in
      (
        t,
        rw (settle_done st.retry bound (update_gate_once st k b) s once) refl,
        record {
          loaded = u;
          set = w;
          same_gates = same;
          same_aside = aside;
          gate_wrote = wrote;
          event_wrote = event_wrote;
        },
      )

  pub update_gate_sets :
      (s : S) (k : StoreKey) (b : Bool)
      → IsValid st rel bound s
      → Ends (update_gate st k b) s tt (λ t. SetGate s t k b)
  update_gate_sets s k b v = elim (Option-cases (stored_for st rel bound s k)) [
    | inl missing ↦
        let c = Fields.created-Wrote st rel bound s k v missing in
        update_loaded s (Fields.created st rel bound s k v missing) k b
          (Fields.created_map st rel bound s k v missing)
          (Fields.load_missing st rel bound s k v missing)
          (Fields.created_at st rel bound s k v missing) c.valid (created-AllGates s k v missing)
          (λ j aside. ap or_empty (Wrote-aside c j hook_event aside))
    | inr (o, found) ↦
        update_loaded s s k b o (Fields.load_found st rel bound s k o found) found v (λ j. refl)
          (λ j aside. refl)
  ]

-- ===== src/Store/Crd/Contract.antt =====
-- The methods of the CanaryGate store (store/canarygate.go) against the contract of the stores.
use canary_gate.Prelude.{
  String, ◌≡◌, ◌≢◌, refl, sym, ap, ◌∙◌, subst, false≢true, Bool, true, false, ◌&&◌, none, some, inl,
  inr, ◌==◌, eq_iff, Bool-cases, and_false_left,
}
use canary_gate.Runtime.Exec.{done}
use canary_gate.Api.{CanaryGate}
use canary_gate.Kube.Api.{Object, same_self}
use canary_gate.Kube.Retry.{settle_done}
use canary_gate.Store.Defs.{StoreKey, gate_status, gate_bool_status, set_message}
use canary_gate.Store.Contract.{Ends, IsGateStore, GateSet, SameGates, SameEvents, SameAside}
use canary_gate.Store.Crd.{
  CanaryGateStore, event_gate, set_gate, update_event, update_canary_gate_once, update_canary_gate,
  get_last_event, gate_open, gate_close, gate_value, is_gate_open, canary_gate_store, convert,
}
use canary_gate.Store.GateFields.{GateField, gate_field, get_field}
use canary_gate.Store.Crd.Fields.{
  set_field-target, set_field-flagger, field_name, gate_field-name, get_field-set_self,
  get_field-set_ne,
}
use canary_gate.Store.Crd.Place
use canary_gate.Store.Crd.Place.{IsHealthy, IsValid, Put, stored_for, gate_at, same_gate}
use canary_gate.Store.Crd.Update
use canary_gate.Store.Crd.Update.{event_loaded}
use canary_gate.Store.Crd.Gates.{
  field_in, message_in, gate_of, event_of, view, Loaded, load, same_place,
}

gate_value-gate_status : (k : StoreKey) (b : Bool) → gate_value k (gate_status b) ≡ b
unfolding gate_value gate_status gate_bool_status
gate_value-gate_status k true = refl
gate_value-gate_status k false = refl

module _ {S F U : Type 0} (st : CanaryGateStore S F U) (h : IsHealthy st) where
  set_gate-target :
      (k : StoreKey) (b : Bool) (g : CanaryGate F) → (set_gate st k b g).spec.target ≡ g.spec.target
  unfolding set_gate
  set_gate-target k b g = set_field-target g.spec (gate_status b) (gate_field k.type)

  set_gate-flagger :
      (k : StoreKey) (b : Bool) (g : CanaryGate F)
      → (set_gate st k b g).spec.flagger ≡ g.spec.flagger
  unfolding set_gate
  set_gate-flagger k b g = set_field-flagger g.spec (gate_status b) (gate_field k.type)

  update_ends :
      (s : S) (k : StoreKey) (b : Bool) (l : Loaded st h s k)
      → Ends (update_canary_gate st k b) s tt (λ t.
        (w : S) × Put st h l.after w k (set_gate st k b l.gate)
        × Put st h w t k (event_gate st k "Updated" (set_message k b) (set_gate st k b l.gate)))
  unfolding update_canary_gate
  update_ends s k b l =
      let g : CanaryGate F = set_gate st k b l.gate in
      let target = set_gate-target k b l.gate in
      let flagger = set_gate-flagger k b l.gate in
      let w : S =
        Update.updated st h l.after k l.object l.gate g l.valid l.found l.content target flagger in
      let o : Object U =
        Update.stored_object st h l.after k l.object l.gate g l.valid l.found l.content target
          flagger in
      let at =
        Update.updated_at st h l.after k l.object l.gate g l.valid l.found l.content target
          flagger in
      let p =
        Update.updated-Put st h l.after k l.object l.gate g l.valid l.found l.content target
          flagger in
      let (t, run, q) =
        event_loaded st h w w k o g "Updated" (set_message k b)
          (Place.load_found st h w k o g at (h.faithful.from_encode g)) p.valid at
          (h.faithful.from_encode g) in
      let once : update_canary_gate_once st k b s ≡ (done none, t) =
        unfold update_canary_gate_once in
        rw (l.run) (
          Update.update_run st h l.after k l.object l.gate g l.valid l.found l.content target
            flagger (update_event st k "Updated" (set_message k b)) t run) in
      (t, rw (settle_done st.retry h.bound (update_canary_gate_once st k b) s once) refl, (w, p, q))

  -- What the two writes of an update leave at the key `j`.
  module _ (u w t : S) (k j : StoreKey) (g g' : CanaryGate F) (p : Put st h u w k g)
      (q : Put st h w t k g') where
    two_puts_here : same_gate st h k j ≡ true → gate_at st h t j ≡ some g'
    two_puts_here e = rw (q.gates j, e) refl

    two_puts_there : same_gate st h k j ≡ false → gate_at st h t j ≡ gate_at st h u j
    two_puts_there e = rw (q.gates j, e, p.gates j, e) refl

  -- The gate that an update leaves, read at the field that it set and at any other.
  module _ (k : StoreKey) (b : Bool) (m : String) (g : CanaryGate F) (f : GateField) where
    abbrev final : CanaryGate F
    final = event_gate st k "Updated" m (set_gate st k b g)

    final_self :
        gate_field k.type ≡ some f → get_field final.spec (gate_field k.type) ≡ gate_status b
    unfolding event_gate set_gate
    final_self e = rw e (get_field-set_self g.spec (gate_status b) f)

    final_other :
        (j : StoreKey) (f' : GateField)
        → gate_field k.type ≡ some f
        → gate_field j.type ≡ some f'
        → f ≢ f'
        → get_field final.spec (gate_field j.type) ≡ get_field g.spec (gate_field j.type)
    unfolding event_gate set_gate
    final_other j f' e e' ne = rw (e, e') (get_field-set_ne g.spec (gate_status b) f f' ne)

    final_message : final.status.message ≡ m
    unfolding event_gate
    final_message = refl

  fields_ne :
      (k j : StoreKey) (f f' : GateField)
      → gate_field k.type ≡ some f
      → gate_field j.type ≡ some f'
      → (k.type == j.type) ≡ false
      → f ≢ f'
  fields_ne k j f f' e e' ne same =
      let equal : k.type ≡ j.type =
        gate_field-name k.type f e ∙ ap field_name same ∙ sym (gate_field-name j.type f' e') in
      false≢true (sym ne ∙ (eq_iff k.type j.type).1 equal)

  set_other :
      (s t w : S) (k j : StoreKey) (b : Bool) (m : String) (f f' : GateField) (l : Loaded st h s k)
      → Put st h l.after w k (set_gate st k b l.gate)
      → Put st h w t k (event_gate st k "Updated" m (set_gate st k b l.gate))
      → gate_field k.type ≡ some f
      → gate_field j.type ≡ some f'
      → (same_gate st h k j && (k.type == j.type)) ≡ false
      → gate_of st h t j ≡ gate_of st h s j
  set_other s t w k j b m f f' l p q e e' apart = elim (Bool-cases (same_gate st h k j)) [
    | inl here ↦
        let ne = fields_ne k j f f' e e' (and_false_left _ _ apart here) in
        let before : gate_at st h l.after j ≡ some l.gate =
          rw (← same_place st h l.after k j here, l.found, l.content) refl in
        ap (λ o. gate_value j (field_in st h o j.type)) (two_puts_here l.after w t k j _ _ p q here)
        ∙ ap (gate_value j) (final_other k b m l.gate f j f' e e' ne)
        ∙ sym (ap (λ o. gate_value j (field_in st h o j.type)) before)
        ∙ l.same_gates j
    | inr there ↦
        ap (λ o. gate_value j (field_in st h o j.type))
          (two_puts_there l.after w t k j _ _ p q there)
        ∙ l.same_gates j
  ]

  set_ends :
      (s : S) (k : StoreKey) (b : Bool) (f : GateField)
      → IsValid st h s
      → gate_field k.type ≡ some f
      → h.Managed k
      → Ends (update_canary_gate st k b) s tt (GateSet (view st h) k b s)
  set_ends s k b f v e managed =
      let l = load st h s k v managed in
      let m = set_message k b in
      let (t, run, (w, p, q)) = update_ends s k b l in
      let at = two_puts_here l.after w t k k _ _ p q (same_self (Place.ns_of st h k) k.name) in
      (
        t,
        run,
        (
          q.valid,
          ap (λ o. gate_value k (field_in st h o k.type)) at
              ∙ ap (gate_value k) (final_self k b m l.gate f e)
              ∙ gate_value-gate_status k b,
          (λ j (f', e', _) apart. set_other s t w k j b m f f' l p q e e' apart),
          ap (message_in st h) at ∙ final_message k b m l.gate f,
          (λ j _ aside.
              ap (message_in st h) (two_puts_there l.after w t k j _ _ p q aside)
              ∙ l.same_events j),
        ),
      )

  reads :
      (s : S) (k : StoreKey)
      → IsValid st h s
      → h.Managed k
      → Ends
          (is_gate_open st k)
          s
          (gate_of st h s k)
          (λ t. IsValid st h t × SameGates (view st h) s t × SameEvents (view st h) s t)
  unfolding is_gate_open
  reads s k v managed =
      let l = load st h s k v managed in
      (
        l.after,
        rw (← l.same_gates k) (rw (l.run, l.found, l.content) refl),
        (l.valid, (λ j _. l.same_gates j), (λ j _. l.same_events j)),
      )

  last_event :
      (s : S) (k : StoreKey)
      → IsValid st h s
      → h.Managed k
      → Ends (get_last_event st k) s (event_of st h s k) (λ t. t ≡ s)
  unfolding get_last_event
  last_event s k v managed =
      let (o, found) = v.is_there k managed in
      let (g, content) = subst (Place.HasGate st h) found (v.has_gate k) in
      (
        s,
        rw (h.server.get_stored s (Place.ns_of st h k) k.name o found, found, content, convert)
            refl,
        refl,
      )

  event_ends :
      (s : S) (k : StoreKey) (status m : String)
      → IsValid st h s
      → h.Managed k
      → Ends (update_event st k status m) s tt (λ t.
        IsValid st h t
        × (event_of st h t k ≡ m)
        × SameGates (view st h) s t
        × SameAside (view st h) k s t)
  event_ends s k status m v managed =
      let l = load st h s k v managed in
      let (t, run, p) =
        event_loaded st h s l.after k l.object l.gate status m l.run l.valid l.found l.content in
      (
        t,
        run,
        (
          p.valid,
          rw (p.gates k, same_self (Place.ns_of st h k) k.name) (unfold event_gate in refl),
          (λ j _. elim (Bool-cases (same_gate st h k j)) [
            | inl here ↦
                rw (p.gates j, here)
                  (unfold event_gate in
                    rw (← l.same_gates j, ← same_place st h l.after k j here, l.found, l.content)
                      refl)
            | inr there ↦ rw (p.gates j, there) (l.same_gates j)
          ]),
          (λ j _ aside. rw (p.gates j, aside) (l.same_events j)),
        ),
      )

  pub canary_gate_store-IsGateStore : IsGateStore (canary_gate_store st) (view st h)
  unfolding gate_open gate_close
  canary_gate_store-IsGateStore = record {
    is_gate_open_reads = λ s k v g. reads s k v g.2;
    gate_open_sets = λ s k v g. set_ends s k true g.0 v g.1 g.2;
    gate_close_sets = λ s k v g. set_ends s k false g.0 v g.1 g.2;
    get_last_event_reads = λ s k v g. last_event s k v g;
    update_event_sets = λ s k status m v g. event_ends s k status m v g;
  }

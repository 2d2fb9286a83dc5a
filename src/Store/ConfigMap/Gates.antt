-- ===== src/Store/ConfigMap/Gates.antt =====
-- The gates of the ConfigMap store (store/configmap.go), seen as the contract of the stores wants.
use canary_gate.Prelude.{
  String, ◌≡◌, ◌≢◌, refl, sym, ap, ◌∙◌, Bool, true, false, and_false_right, eq-false, ◌&&◌, some,
  inl, inr, ◌==◌, eq_refl, Option-cases,
}
use canary_gate.Service.{hook_event}
use canary_gate.Kube.Api.{IsReliable, same_self}
use canary_gate.Kube.Retry.{IsBounded}
use canary_gate.Store.Defs.{StoreKey, gate_status, gate_bool_status, gate_bool_status-gate_status}
use canary_gate.Store.Contract.{Ends, IsGateStore, View, GateSet, SameGates, SameEvents, SameAside}
use canary_gate.Store.ConfigMap.{
  ConfigMapStore, or_empty, gate_value, get_config_map_name, get_config_map_namespace, update_event,
  update_gate, gate_open, gate_close, is_gate_open, get_last_event, config_map_store,
}
use canary_gate.Store.ConfigMap.Fields
use canary_gate.Store.ConfigMap.Fields.{HasData, IsValid, Wrote, stored_for, field, same_map}
use canary_gate.Store.ConfigMap.Update.{
  gate_of, event_of, SetGate, created-AllGates, event_loaded, update_gate_sets, Wrote-aside,
}

module _ {S : Type 0} (st : ConfigMapStore S) (rel : IsReliable st.client)
    (bound : IsBounded st.retry) where
  -- The type is not the one that events are stored under.
  abbrev pub IsGate : StoreKey → Type 0
  IsGate k = k.type ≢ hook_event

  -- The view of a state: two gates are apart where they are kept in different fields, or in different
  -- ConfigMaps.
  abbrev pub view : View S
  view = record {
    IsValid = IsValid st rel bound;
    IsGate = IsGate;
    IsCanary = λ k. Unit {0};
    Aside = λ k j. same_map st rel bound k j ≡ false;
    Apart = λ k j. (same_map st rel bound k j && (k.type == j.type)) ≡ false;
    gates = gate_of st rel bound;
    events = event_of st rel bound;
  }

  -- A write of an event is seen at no gate, and a write of a gate at no event.
  module _ {s t : S} {k : StoreKey} {v : String} where
    gate_after_event :
        Wrote st rel bound s t k hook_event v
        → (j : StoreKey) → IsGate j
        → field st rel bound t j j.type ≡ field st rel bound s j j.type
    gate_after_event w j g =
        rw
          (
            w.fields j j.type,
            and_false_right (same_map st rel bound k j) (hook_event == j.type)
                (eq-false hook_event j.type (λ e. g (sym e))),
          )
          refl

    event_after_gate :
        Wrote st rel bound s t k k.type v
        → IsGate k
        → (j : StoreKey) → field st rel bound t j hook_event ≡ field st rel bound s j hook_event
    event_after_gate w g j =
        rw
          (
            w.fields j hook_event,
            and_false_right (same_map st rel bound k j) (k.type == hook_event)
                (eq-false k.type hook_event g),
          )
          refl

    at_written : (f : String) → Wrote st rel bound s t k f v → field st rel bound t k f ≡ some v
    at_written f w =
        rw
          (
            w.fields k f,
            same_self (get_config_map_namespace st k) (get_config_map_name k),
            eq_refl f,
          )
          refl

  SetGate-GateSet :
      (s t : S) (k : StoreKey) (b : Bool)
      → SetGate st rel bound s t k b
      → IsGate k
      → GateSet view k b s t
  unfolding gate_value gate_status gate_bool_status
  SetGate-GateSet s t k b h g = (
    h.event_wrote.valid,
    rw (gate_after_event h.event_wrote k g, at_written k.type h.gate_wrote)
        (gate_bool_status-gate_status b),
    (λ j gj a.
        rw (gate_after_event h.event_wrote j gj, h.gate_wrote.fields j j.type, a) (h.same_gates j)),
    rw (at_written hook_event h.event_wrote) refl,
    (λ j _ aside.
        ap or_empty (Wrote-aside st rel bound h.event_wrote j hook_event aside)
        ∙ ap or_empty (event_after_gate h.gate_wrote g j)
        ∙ h.same_aside j aside),
  )

  set_ends :
      (s : S) (k : StoreKey) (b : Bool)
      → IsValid st rel bound s
      → IsGate k
      → Ends (update_gate st k b) s tt (GateSet view k b s)
  set_ends s k b v g =
      let (t, run, h) = update_gate_sets st rel bound s k b v in
      (t, run, SetGate-GateSet s t k b h g)

  reads :
      (s : S) (k : StoreKey)
      → IsValid st rel bound s
      → IsGate k
      → Ends
          (is_gate_open st k)
          s
          (gate_of st rel bound s k)
          (λ t. IsValid st rel bound t × SameGates view s t × SameEvents view s t)
  unfolding is_gate_open
  reads s k v g = elim (Option-cases (stored_for st rel bound s k)) [
    | inl missing ↦
        let t : S = Fields.created st rel bound s k v missing in
        let same = created-AllGates st rel bound s k v missing in
        let w = Fields.created-Wrote st rel bound s k v missing in
        (
          t,
          rw (← same k) (
              rw
                (
                  Fields.load_missing st rel bound s k v missing,
                  Fields.created_at st rel bound s k v missing,
                )
                refl),
          (w.valid, (λ j _. same j), (λ j _. ap or_empty (event_after_gate w g j))),
        )
    | inr (o, found) ↦ (
      s,
      rw (Fields.load_found st rel bound s k o found, found) refl,
      (v, (λ j _. refl), (λ j _. refl)),
    )
  ]

  last_event :
      (s : S) (k : StoreKey) → Ends (get_last_event st k) s (event_of st rel bound s k) (λ t. t ≡ s)
  unfolding get_last_event
  last_event s k =
      let place = get_config_map_namespace st k in
      elim (Option-cases (stored_for st rel bound s k)) [
        | inl missing ↦
            (s, rw (rel.get_missing s place (get_config_map_name k) missing, missing) refl, refl)
        | inr (o, found) ↦
            (s, rw (rel.get_stored s place (get_config_map_name k) o found, found) refl, refl)
      ]

  event_ends :
      (s : S) (k : StoreKey) (status m : String)
      → IsValid st rel bound s
      → Ends (update_event st k status m) s tt (λ t.
        IsValid st rel bound t
        × (event_of st rel bound t k ≡ m)
        × SameGates view s t
        × SameAside view k s t)
  event_ends s k status m v = elim (Option-cases (stored_for st rel bound s k)) [
    | inl missing ↦
        let (t, run, w) =
          event_loaded st rel bound s _ k _ status m
            (Fields.load_missing st rel bound s k v missing)
            (Fields.created-Wrote st rel bound s k v missing).valid
            (Fields.created_at st rel bound s k v missing) in
        (
          t,
          run,
          (
            w.valid,
            ap or_empty (at_written hook_event w),
            (λ j g.
                ap (gate_value j) (gate_after_event w j g)
                ∙ created-AllGates st rel bound s k v missing j),
            (λ j _ aside.
                ap or_empty (Wrote-aside st rel bound w j hook_event aside)
                ∙ ap or_empty (
                    Wrote-aside st rel bound (Fields.created-Wrote st rel bound s k v missing) j
                      hook_event aside)),
          ),
        )
    | inr (o, found) ↦
        let (t, run, w) =
          event_loaded st rel bound s s k o status m (Fields.load_found st rel bound s k o found) v
            found in
        (
          t,
          run,
          (
            w.valid,
            ap or_empty (at_written hook_event w),
            (λ j g. ap (gate_value j) (gate_after_event w j g)),
            (λ j _ aside. ap or_empty (Wrote-aside st rel bound w j hook_event aside)),
          ),
        )
  ]

  -- While the API server is reliable, and no ConfigMap of a gate was written without data, the
  -- ConfigMap store keeps the contract of the stores, for keys whose type is not `event`: a gate
  -- reads as it was last set, or as the default of its type, setting or reading one changes no
  -- other that is kept in another ConfigMap or field, reading changes no gate and no event, and
  -- after an event is recorded or a gate set, the event reads as that one, or as the message of the
  -- change, and no event that is kept in another ConfigMap has changed.
  pub config_map_store-IsGateStore : IsGateStore (config_map_store st) view
  unfolding gate_open gate_close
  config_map_store-IsGateStore = record {
    is_gate_open_reads = reads;
    gate_open_sets = λ s k v g. set_ends s k true v g;
    gate_close_sets = λ s k v g. set_ends s k false v g;
    get_last_event_reads = λ s k v g. last_event s k;
    update_event_sets = λ s k status m v g. event_ends s k status m v;
  }

-- ===== src/Store/Crd/Writes.antt =====
-- What the store of CanaryGate resources writes while other clients write to its resources.
use canary_gate.Prelude.{
  String, ◌≡◌, sym, subst, if◌then◌else◌, Bool, Bool-cases, true, false, Option, none, some, List,
  ◌⊎◌, inl, inr, ◌==◌,
}
use canary_gate.Runtime.Exec.{Exec, done}
use canary_gate.Runtime.Safe.{Safe, Keeps, Keeps-cases, Any}
use canary_gate.Api.{CanaryGate}
use canary_gate.Kube.Api.{
  ApiError, Reply, ok, err, Reply-cases, Object, is_not_found, is_status_error,
}
use canary_gate.Kube.Retry.{IsBounded}
use canary_gate.Kube.Journal
use canary_gate.Kube.Journal.{Change, created, replaced, Grew, IsVersioned}
use canary_gate.Store.Defs.{StoreKey, set_message}
use canary_gate.Store.Refinement.{Call, opens, closes, is_open, records, last_event}
use canary_gate.Store.Crd.Changes.{with_gate, with_event, no_gates, new_canary_gate-no_gates}
use canary_gate.Store.Crd.{
  CanaryGateStore, with_content, get_canary_gate_namespace, new_canary_gate, create_canary_gate,
  get_canary_gate, create_canary_gate_and_get, update_gate_object, record_event, event_gate,
  update_event_once, update_event, set_gate, update_canary_gate_once, update_canary_gate,
  is_gate_open,
}

module _ {F : Type 0} where
  -- What a call makes of a gate: with the gate set, or with an event.
  abbrev pub SetsGate : StoreKey → Bool → CanaryGate F → CanaryGate F → Type 0
  SetsGate k b g g' = (g' ≡ with_gate k b g) ⊎ (g' ≡ with_event k "Updated" (set_message k b) g)

module _ {S F U : Type 0} (st : CanaryGateStore S F U) where
  -- The writes to the resource of a key: it is created with no gate set, or what it holds at that moment,
  -- read as a gate, is changed as said.
  pub data GateWrite (k : StoreKey) (Sets : CanaryGate F → CanaryGate F → Type 0)
      : Change U → Type 0 where
    new_gate :
        (u : U)
        → st.converter.to_unstructured (no_gates st.no_flagger) ≡ ok u
        → GateWrite k Sets (created (get_canary_gate_namespace st k) (k.name) u)
    gate_set :
        (u u' : U) (g g' : CanaryGate F)
        → st.converter.from_unstructured u ≡ ok g
        → st.converter.to_unstructured g' ≡ ok u'
        → Sets g g'
        → GateWrite k Sets (replaced (get_canary_gate_namespace st k) (k.name) u u')

  abbrev pub Writes : Call → Change U → Type 0
  Writes (opens k) c = GateWrite k (SetsGate k true) c
  Writes (closes k) c = GateWrite k (SetsGate k false) c
  Writes (is_open k) c = GateWrite k (λ g g'. ⊥) c
  Writes (records k status message) c = GateWrite k (λ g g'. g' ≡ with_event k status message g) c
  Writes (last_event k) c = ⊥

  module _ (bound : IsBounded st.retry) (ver : IsVersioned st.client)
      (quiet : (g : Object (CanaryGate F)) (reason message : String) (s : S)
        → ver.journal (st.recorder g reason message s) ≡ ver.journal s)
      (k : StoreKey) (Sets : CanaryGate F → CanaryGate F → Type 0) (l : List (Change U)) where
    abbrev pub I : S → Type 0
    I = Journal.Wrote st.client ver (GateWrite k Sets) l

    abbrev pub ns : String
    ns = get_canary_gate_namespace st k

    -- The gate that was read is what its version stands for, converted.
    abbrev pub Read : Object (CanaryGate F) → S → Type 0
    Read o t =
        (o.name ≡ k.name)
        × ((u : U) × ver.Was t ns k.name o.version u
            × (st.converter.from_unstructured u ≡ ok o.content))

    abbrev pub Got : Reply (Object (CanaryGate F)) → S → Type 0
    Got (ok o) t = Read o t
    Got (err e) t = Unit {0}

    abbrev pub Loaded : Reply (Option (Object (CanaryGate F))) → S → Type 0
    Loaded (ok (some o)) t = Read o t
    Loaded (ok none) t = Unit {0}
    Loaded (err e) t = Unit {0}

    Keeps-create_canary_gate : Keeps I Any (create_canary_gate st k)
    unfolding create_canary_gate
    Keeps-create_canary_gate s i =
        let gate = new_canary_gate st k in
        elim (Reply-cases (st.converter.to_unstructured gate.content)) [
          | inl (u, e) ↦
              rw (Safe, e, create_canary_gate)
                (Journal.Keeps-create st.client ver (GateWrite k Sets) l ns (with_content gate u)
                  (new_gate u (
                    subst (λ g. st.converter.to_unstructured g ≡ ok u)
                      (new_canary_gate-no_gates st k) e))
                  s i)
          | inr (x, e) ↦ rw (Safe, e, create_canary_gate) (i, tt)
        ]

    Keeps-get_canary_gate : Keeps I Got (get_canary_gate st k)
    unfolding get_canary_gate
    Keeps-get_canary_gate s i =
        let (j, got) = Journal.Keeps-get st.client ver (GateWrite k Sets) l ns k.name s i in
        elim (Reply-cases (st.client.get ns k.name s).0) [
          | inr (x, e) ↦ rw e (j, tt)
          | inl (o, e) ↦
              let was =
                subst
                  (λ r.
                    Journal.Got st.client ver (GateWrite k Sets) l ns k.name r
                      (st.client.get ns k.name s).1)
                  e got in
              elim (Reply-cases (st.converter.from_unstructured o.content)) [
                | inl (g, e') ↦ rw (e, e') (j, (was.1, (o.content, was.2, e')))
                | inr (x, e') ↦ rw (e, e') (j, tt)
              ]
        ]

    load_missing :
        (x : ApiError) (s t : S)
        → get_canary_gate st k s ≡ (done (err x), t)
        → is_not_found x ≡ true
        → I t
        → Safe I Loaded (create_canary_gate_and_get st k s)
    unfolding create_canary_gate_and_get
    load_missing x s t e missing i =
        elim (Keeps-cases I Any (create_canary_gate st k) t Keeps-create_canary_gate i) [
          | inr (p, u, e', j) ↦ rw (e, missing, if◌then◌else◌, e') j
          | inl (a, u, e', j, _) ↦
              elim (Keeps-cases I Got (get_canary_gate st k) u Keeps-get_canary_gate j) [
                | inl (ok o, w, e'', j', got) ↦ rw (e, missing, if◌then◌else◌, e', e'') (j', got)
                | inl (err y, w, e'', j', got) ↦ rw (e, missing, if◌then◌else◌, e', e'') (j', tt)
                | inr (p, w, e'', j') ↦ rw (e, missing, if◌then◌else◌, e', e'') j'
              ]
        ]

    -- Loading a gate gives what it was at its version.
    pub Keeps-load : Keeps I Loaded (create_canary_gate_and_get st k)
    unfolding create_canary_gate_and_get
    Keeps-load s i = elim (Keeps-cases I Got (get_canary_gate st k) s Keeps-get_canary_gate i) [
      | inl (ok o, t, e, j, got) ↦ rw (e, create_canary_gate_and_get) (j, got)
      | inl (err x, t, e, j, got) ↦ elim (Bool-cases (is_not_found x)) [
        | inl missing ↦ load_missing x s t e missing j
        | inr failed ↦ elim (Bool-cases (is_status_error x)) [
          | inl b ↦ rw (e, failed, b, if◌then◌else◌) (j, tt)
          | inr b ↦ rw (e, failed, b, if◌then◌else◌) (j, tt)
        ]
      ]
      | inr (p, t, e, j) ↦ rw e j
    ]

    pub Keeps-update_gate_object :
        (o : Object (CanaryGate F)) (g : CanaryGate F) (and_then : Exec S (Unit {0})) (s : S)
        → Sets o.content g
        → Keeps I Any and_then
        → Read o s
        → I s
        → Safe I Any (update_gate_object st k o g and_then s)
    unfolding update_gate_object
    Keeps-update_gate_object o g and_then s sets keeps (name, (u, was, e)) i =
        elim (Reply-cases (st.converter.to_unstructured g)) [
          | inr (x, e') ↦ rw (Safe, e', update_gate_object) (i, tt)
          | inl (u', e') ↦
              let j =
                (Journal.Keeps-update st.client ver (GateWrite k Sets) l s ns (with_content o u') u
                  (subst (λ a. ver.Was s ns a o.version u) (sym name) was)
                  (subst (λ a. GateWrite k Sets (replaced ns a u u')) (sym name)
                    (gate_set u u' o.content g e e' sets))
                  i).0 in
              elim (Keeps-cases I Any and_then (st.client.update ns (with_content o u') s).1 keeps
                j) [
                  | inl (a, t, run, j', _) ↦ rw (Safe, e', update_gate_object, run) (j', tt)
                  | inr (p, t, run, j') ↦ rw (Safe, e', update_gate_object, run) j'
                ]
        ]

    Keeps-record_event : (status message : String) → Keeps I Any (record_event st k status message)
    unfolding record_event
    Keeps-record_event status message s i = elim (Bool-cases (message == "")) [
      | inl silent ↦ rw (Safe, silent, if◌then◌else◌) (i, tt)
      | inr loud ↦ elim (Keeps-cases I Got (get_canary_gate st k) s Keeps-get_canary_gate i) [
        | inl (ok o, t, e, j, got) ↦
            rw (Safe, loud, if◌then◌else◌, e)
              (subst (Grew (GateWrite k Sets) l) (sym (quiet o status message t)) j, tt)
        | inl (err x, t, e, j, got) ↦ rw (Safe, loud, if◌then◌else◌, e) (j, tt)
        | inr (p, t, e, j) ↦ rw (Safe, loud, if◌then◌else◌, e) j
      ]
    ]

    Keeps-update_event_once :
        (status message : String)
        → ((g : CanaryGate F) → Sets g (event_gate st k status message g))
        → Keeps I Any (update_event_once st k status message)
    unfolding update_event_once
    Keeps-update_event_once status message sets s i =
        elim (Keeps-cases I Loaded (create_canary_gate_and_get st k) s Keeps-load i) [
          | inl (ok (some o), t, e, j, got) ↦ rw e (
              Keeps-update_gate_object o (event_gate st k status message o.content)
                (record_event st k status message) t (sets o.content)
                (Keeps-record_event status message) got j)
          | inl (ok none, t, e, j, got) ↦ rw e j
          | inl (err x, t, e, j, got) ↦ rw e (j, tt)
          | inr (p, t, e, j) ↦ rw e j
        ]

    pub Keeps-update_event :
        (status message : String)
        → ((g : CanaryGate F) → Sets g (event_gate st k status message g))
        → Keeps I Any (update_event st k status message)
    unfolding update_event
    Keeps-update_event status message sets s i =
        let once = update_event_once st k status message in
        elim (Keeps-cases I Any (st.retry.on_conflict once) s
          (Journal.Keeps-on_conflict I Any st.retry bound once
            (Keeps-update_event_once status message sets))
          i) [ inl (a, t, e, j, _) ↦ rw e (j, tt) | inr (p, t, e, j) ↦ rw e j ]

    module _ (b : Bool) (gate : (g : CanaryGate F) → Sets g (set_gate st k b g))
        (told : (g : CanaryGate F) → Sets g (event_gate st k "Updated" (set_message k b) g)) where
      Keeps-update_canary_gate_once : Keeps I Any (update_canary_gate_once st k b)
      unfolding update_canary_gate_once
      Keeps-update_canary_gate_once s i =
          elim (Keeps-cases I Loaded (create_canary_gate_and_get st k) s Keeps-load i) [
            | inl (ok (some o), t, e, j, got) ↦ rw e (
                Keeps-update_gate_object o (set_gate st k b o.content)
                  (update_event st k "Updated" (set_message k b)) t (gate o.content)
                  (Keeps-update_event "Updated" (set_message k b) told) got j)
            | inl (ok none, t, e, j, got) ↦ rw e j
            | inl (err x, t, e, j, got) ↦ rw e (j, tt)
            | inr (p, t, e, j) ↦ rw e j
          ]

      pub Keeps-update_canary_gate : Keeps I Any (update_canary_gate st k b)
      unfolding update_canary_gate
      Keeps-update_canary_gate s i =
          let once = update_canary_gate_once st k b in
          elim (Keeps-cases I Any (st.retry.on_conflict once) s
            (Journal.Keeps-on_conflict I Any st.retry bound once Keeps-update_canary_gate_once) i) [
              | inl (a, t, e, j, _) ↦ rw e (j, tt)
              | inr (p, t, e, j) ↦ rw e j
            ]

    pub Keeps-is_gate_open : Keeps I Any (is_gate_open st k)
    unfolding is_gate_open
    Keeps-is_gate_open s i =
        elim (Keeps-cases I Loaded (create_canary_gate_and_get st k) s Keeps-load i) [
          | inl (ok (some o), t, e, j, got) ↦ rw e (j, tt)
          | inl (ok none, t, e, j, got) ↦ rw e (j, tt)
          | inl (err x, t, e, j, got) ↦ rw e (j, tt)
          | inr (p, t, e, j) ↦ rw e j
        ]

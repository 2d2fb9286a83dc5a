-- ===== src/Store/Crd/Accepted.antt =====
-- Where setting a gate of the store of CanaryGate resources succeeds, the server has accepted it, whatever
-- other clients write in the meantime.
use canary_gate.Prelude.{
  String, ◌≡◌, refl, sym, subst, Bool, Option, none, some, List, ◌∷◌, inl, inr, ◌∙◌, ap,
}
use canary_gate.Runtime.Exec.{done}
use canary_gate.Runtime.Safe.{Safe, Keeps, Keeps-cases, Any}
use canary_gate.Api.{CanaryGate}
use canary_gate.Kube.Api.{ApiError, Reply, ok, err, Reply-cases, error_of, Object}
use canary_gate.Kube.Retry.{IsBounded}
use canary_gate.Kube.Journal
use canary_gate.Kube.Journal.{Change, replaced, Grew, Grew-trans, unchanged, wrote, IsVersioned}
use canary_gate.Store.Defs.{StoreKey, set_message}
use canary_gate.Store.Crd.{
  CanaryGateStore, with_content, get_canary_gate_namespace, create_canary_gate_and_get,
  update_gate_object, set_gate, update_event, update_canary_gate_once,
}
use canary_gate.Store.Crd.Changes.{with_gate, set_gate-with_gate, event_gate-with_event}
use canary_gate.Store.Crd.Writes
use canary_gate.Store.Crd.Writes.{GateWrite, SetsGate, gate_set}

module _ {S F U : Type 0} (st : CanaryGateStore S F U) (bound : IsBounded st.retry)
    (ver : IsVersioned st.client)
    (quiet : (g : Object (CanaryGate F)) (reason message : String) (s : S)
      → ver.journal (st.recorder g reason message s) ≡ ver.journal s)
    (k : StoreKey) (b : Bool) where
  abbrev pub P : Change U → Type 0
  P = GateWrite st k (SetsGate k b)

  abbrev pub change : U → U → Change U
  change u u' = replaced (get_canary_gate_namespace st k) k.name u u'

  -- Among the writes since the journal was `l`, one sets the gate in what the resource held.
  pub record HasSet (l : List (Change U)) (t : S) : Type 0 where
    pub held : U
    pub gate : CanaryGate F
    pub written : U
    pub before : List (Change U)
    pub read : st.converter.from_unstructured held ≡ ok gate
    pub made : st.converter.to_unstructured (with_gate k b gate) ≡ ok written
    pub writes_before : Grew P l before
    pub writes_after : Grew P (change held written ∷ before) (ver.journal t)

  module _ (l : List (Change U)) where
    abbrev Success : Option ApiError → S → Type 0
    Success none t = HasSet l t
    Success (some e) t = Unit {0}

    abbrev I : S → Type 0
    I = Writes.I st bound ver quiet k (SetsGate k b) l

    abbrev ns : String
    ns = get_canary_gate_namespace st k

    -- An update that gives no error was accepted.
    accepted :
        (o : Object (CanaryGate F)) (u u' : U) (t : S)
        → o.name ≡ k.name
        → ver.Was t ns k.name o.version u
        → error_of (st.client.update ns (with_content o u') t).0 ≡ none
        → ver.journal (st.client.update ns (with_content o u') t).1 ≡ change u u' ∷ ver.journal t
    accepted o u u' t name was fine =
        let w : S = (st.client.update ns (with_content o u') t).1 in
        elim (ver.update_writes t ns (with_content o u')) [
          | inl (same, failed) ↦ absurd (failed fine)
          | inr (e, was', more) ↦
              let was_here : ver.Was w ns o.name o.version u =
                ver.Was-update t ns (with_content o u') ns o.name o.version u
                  (subst (λ a. ver.Was t ns a o.version u) (sym name) was) in
              let same : e ≡ u = ver.Was-unique w ns o.name o.version e u was' was_here in
              more
              ∙ ap (λ x. replaced ns o.name x u' ∷ ver.journal t) same
              ∙ ap (λ a. replaced ns a u u' ∷ ver.journal t) name
        ]

    -- What an attempt gives where the event that follows the update has been recorded.
    Success-reply :
        (r : Reply (Object U)) (u u' : U) (g : CanaryGate F) (t w v : S)
        → I t
        → st.converter.from_unstructured u ≡ ok g
        → st.converter.to_unstructured (with_gate k b g) ≡ ok u'
        → (error_of r ≡ none → ver.journal w ≡ change u u' ∷ ver.journal t)
        → Grew P (ver.journal w) (ver.journal v)
        → Success (error_of r) v
    Success-reply (err e) u u' g t w v i read made set grew = tt
    Success-reply (ok o) u u' g t w v i read made set grew = record {
      held = u;
      gate = g;
      written = u';
      before = ver.journal t;
      read = read;
      made = made;
      writes_before = i;
      writes_after = subst (λ j. Grew P j (ver.journal v)) (set refl) grew;
    }

    Keeps-attempt_object :
        (o : Object (CanaryGate F)) (t : S)
        → I t
        → Writes.Read st bound ver quiet k (SetsGate k b) l o t
        → Safe I Success (
            update_gate_object st k o
              (set_gate st k b o.content)
              (update_event st k "Updated" (set_message k b))
              t)
    unfolding update_gate_object
    Keeps-attempt_object o t i (name, (u, was, e)) =
        let event = update_event st k "Updated" (set_message k b) in
        elim (Reply-cases (st.converter.to_unstructured (set_gate st k b o.content))) [
          | inr (x, e') ↦ rw (Safe, e', update_gate_object) (i, tt)
          | inl (u', e') ↦
              let r = (st.client.update ns (with_content o u') t).0 in
              let w = (st.client.update ns (with_content o u') t).1 in
              let place : P (replaced ns o.name u u') =
                subst (λ a. P (replaced ns a u u')) (sym name)
                  (gate_set u u' o.content (set_gate st k b o.content) e e'
                    (inl (set_gate-with_gate st k b o.content))) in
              let set : I w =
                (Journal.Keeps-update st.client ver P l t ns (with_content o u') u
                  (subst (λ a. ver.Was t ns a o.version u) (sym name) was) place i).0 in
              elim (Keeps-cases (Writes.I st bound ver quiet k (SetsGate k b) (ver.journal w)) Any
                event w
                (Writes.Keeps-update_event st bound ver quiet k (SetsGate k b) (ver.journal w)
                  "Updated" (set_message k b)
                  (λ g. inr (event_gate-with_event st k "Updated" (set_message k b) g)))
                (unchanged (ver.journal w))) [
                  | inl (a, v, run, grew, _) ↦
                      rw (Safe, e', update_gate_object, run)
                        (
                          Grew-trans l (ver.journal w) (ver.journal v) set grew,
                          Success-reply r u u' o.content t w v i e
                              (subst (λ g. st.converter.to_unstructured g ≡ ok u')
                                (set_gate-with_gate st k b o.content) e')
                              (accepted o u u' t name was) grew,
                        )
                  | inr (p, v, run, grew) ↦
                      rw (Safe, e', update_gate_object, run)
                        (Grew-trans l (ver.journal w) (ver.journal v) set grew)
                ]
        ]

    Keeps-attempt : Keeps I Success (update_canary_gate_once st k b)
    unfolding update_canary_gate_once
    Keeps-attempt s i =
        elim (Keeps-cases I (Writes.Loaded st bound ver quiet k (SetsGate k b) l)
          (create_canary_gate_and_get st k) s
          (Writes.Keeps-load st bound ver quiet k (SetsGate k b) l) i) [
            | inl (ok (some o), t, e, j, got) ↦ rw e (Keeps-attempt_object o t j got)
            | inl (ok none, t, e, j, got) ↦ rw e j
            | inl (err x, t, e, j, got) ↦ rw e (j, tt)
            | inr (p, t, e, j) ↦ rw e j
          ]

  -- Where the retry loop that sets a gate of the store of CanaryGate resources ends without an error, one
  -- of the writes that the server has accepted since it began has written back what the resource held at
  -- that moment with the field of the gate set to `opened` or `closed`, the other fields of the spec and
  -- the event kept, and the canary named in the status, whatever other clients wrote before and between the requests and
  -- where recording an event writes no resource; the writes before it and after it are writes of the call
  -- too.
  pub update_canary_gate_once-HasSet :
      (s t : S)
      → st.retry.on_conflict (update_canary_gate_once st k b) s ≡ (done none, t)
      → HasSet (ver.journal s) t
  update_canary_gate_once-HasSet s t e =
      let l = ver.journal s in
      let safe =
        Journal.Keeps-on_conflict (I l) (Success l) st.retry bound (update_canary_gate_once st k b)
          (Keeps-attempt l) s (unchanged l) in
      (subst (Safe (I l) (Success l)) e safe).1

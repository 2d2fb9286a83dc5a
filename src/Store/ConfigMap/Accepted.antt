-- ===== src/Store/ConfigMap/Accepted.antt =====
-- Where setting a gate of the ConfigMap store succeeds, the server has accepted it, whatever other
-- clients write in the meantime.
use canary_gate.Prelude.{
  String, ◌≡◌, refl, sym, subst, Bool, Option, Option-cases, none, some, List, ◌∷◌, inl, inr, ◌∙◌,
  ap,
}
use canary_gate.Runtime.Exec.{done}
use canary_gate.Runtime.Safe.{Safe, Keeps, Keeps-cases, Any}
use canary_gate.Runtime.Dict.{Dict, insert}
use canary_gate.Kube.Api.{ApiError, Reply, ok, err, error_of}
use canary_gate.Kube.Retry.{IsBounded}
use canary_gate.Kube.Journal
use canary_gate.Kube.Journal.{Change, replaced, Grew, Grew-trans, unchanged, wrote, IsVersioned}
use canary_gate.Store.Defs.{StoreKey, gate_status, set_message}
use canary_gate.Store.ConfigMap.{
  ConfigMapStore, Data, ConfigMap, write_map, get_config_map_name, get_config_map_namespace,
  create_config_map_and_get, update_event, update_gate_once,
}
use canary_gate.Store.ConfigMap.Writes
use canary_gate.Store.ConfigMap.Writes.{MapWrite, SetsGate, field_set}

module _ {S : Type 0} (st : ConfigMapStore S) (bound : IsBounded st.retry)
    (ver : IsVersioned st.client) (k : StoreKey) (b : Bool) where
  -- The field of the gate is set in what the ConfigMap holds.
  abbrev pub gate_change : Dict String → Change Data
  gate_change d =
      replaced (get_config_map_namespace st k) (get_config_map_name k) (some d)
        (some (insert d k.type (gate_status b)))

  abbrev pub P : Change Data → Type 0
  P = MapWrite st k (SetsGate k b)

  -- Among the writes since the journal was `l`, one sets the gate.
  pub record HasSet (l : List (Change Data)) (t : S) : Type 0 where
    pub held : Dict String
    pub before : List (Change Data)
    pub writes_before : Grew P l before
    pub writes_after : Grew P (gate_change held ∷ before) (ver.journal t)

  module _ (l : List (Change Data)) where
    abbrev Success : Option ApiError → S → Type 0
    Success none t = HasSet l t
    Success (some e) t = Unit {0}

    abbrev I : S → Type 0
    I = Writes.I st bound ver k (SetsGate k b) l

    -- An update that gives no error was accepted.
    accepted :
        (o : ConfigMap) (d : Dict String) (t : S)
        → I t
        → Writes.Got st bound ver k (SetsGate k b) l (ok o) t
        → o.content ≡ some d
        → error_of
            (st.client.update o.namespace
              (record o { content = some (insert d k.type (gate_status b)) })
              t).0
          ≡ none
        → ver.journal
            (st.client.update o.namespace
              (record o { content = some (insert d k.type (gate_status b)) })
              t).1
          ≡ gate_change d ∷ ver.journal t
    accepted o d t i (ns, n, was) content fine =
        let o' : ConfigMap = record o { content = some (insert d k.type (gate_status b)) } in
        let u : S = (st.client.update o.namespace o' t).1 in
        elim (ver.update_writes t o.namespace o') [
          | inl (same, failed) ↦ absurd (failed fine)
          | inr (e, was', more) ↦
              let was_here : ver.Was u o.namespace o.name o.version (some d) =
                ver.Was-update t o.namespace o' o.namespace o.name o.version (some d) (
                  subst (λ a. ver.Was t a o.name o.version (some d)) (sym ns)
                    (subst (λ a. ver.Was t (get_config_map_namespace st k) a o.version (some d))
                      (sym n)
                      (subst
                        (λ c.
                          ver.Was t (get_config_map_namespace st k) (get_config_map_name k)
                            o.version c)
                        content was))) in
              let same : e ≡ some d =
                ver.Was-unique u o.namespace o.name o.version e (some d) was' was_here in
              more
              ∙ ap (λ x. replaced o.namespace o.name x o'.content ∷ ver.journal t) same
              ∙ ap (λ a. replaced a o.name (some d) o'.content ∷ ver.journal t) ns
              ∙ ap
                  (λ a.
                    replaced (get_config_map_namespace st k) a (some d) o'.content ∷ ver.journal t)
                  n
        ]

    -- What an attempt gives where the event that follows the update has been recorded.
    Success-reply :
        (r : Reply ConfigMap) (d : Dict String) (t u w : S)
        → I t
        → (error_of r ≡ none → ver.journal u ≡ gate_change d ∷ ver.journal t)
        → Grew P (ver.journal u) (ver.journal w)
        → Success (error_of r) w
    Success-reply (err e) d t u w i set grew = tt
    Success-reply (ok o) d t u w i set grew = record {
      held = d;
      before = ver.journal t;
      writes_before = i;
      writes_after = subst (λ j. Grew P j (ver.journal w)) (set refl) grew;
    }

    Keeps-attempt : Keeps I Success (update_gate_once st k b)
    unfolding update_gate_once write_map
    Keeps-attempt s i =
        elim (Keeps-cases I (Writes.Got st bound ver k (SetsGate k b) l)
          (create_config_map_and_get st k) s (Writes.Keeps-load st bound ver k (SetsGate k b) l)
          i) [
            | inl (ok o, t, e, j, got) ↦ elim (Option-cases o.content) [
              | inl nil ↦ rw (e, nil, write_map) j
              | inr (d, content) ↦
                  let o' : ConfigMap = record o {
                    content = some (insert d k.type (gate_status b));
                  } in
                  let r = (st.client.update o.namespace o' t).0 in
                  let u = (st.client.update o.namespace o' t).1 in
                  let set =
                    Writes.Keeps-set st bound ver k (SetsGate k b) l o d k.type (gate_status b) t j
                      got content (inl (refl, refl)) in
                  elim (Keeps-cases (Writes.I st bound ver k (SetsGate k b) (ver.journal u)) Any
                    (update_event st k "Updated" (set_message k b)) u
                    (Writes.Keeps-update_event st bound ver k (SetsGate k b) (ver.journal u)
                      "Updated" (set_message k b) (inr (refl, refl)))
                    (unchanged (ver.journal u))) [
                      | inl (a, w, e', grew, _) ↦
                          rw (e, content, write_map, e')
                            (
                              Grew-trans l (ver.journal u) (ver.journal w) set grew,
                              Success-reply r d t u w j (accepted o d t j got content) grew,
                            )
                      | inr (p, w, e', grew) ↦
                          rw (e, content, write_map, e')
                            (Grew-trans l (ver.journal u) (ver.journal w) set grew)
                    ]
            ]
            | inl (err x, t, e, j, got) ↦ rw e (j, tt)
            | inr (p, t, e, j) ↦ rw e j
          ]

  -- Where the retry loop that sets a gate of the ConfigMap store ends without an error, one of the writes
  -- that the server has accepted since it began has set the field of the gate in what the ConfigMap held
  -- at that moment, whatever other clients wrote before and between the requests; the writes before it
  -- and after it are writes of the call too.
  pub update_gate_once-HasSet :
      (s t : S)
      → st.retry.on_conflict (update_gate_once st k b) s ≡ (done none, t)
      → HasSet (ver.journal s) t
  update_gate_once-HasSet s t e =
      let l = ver.journal s in
      let safe =
        Journal.Keeps-on_conflict (I l) (Success l) st.retry bound (update_gate_once st k b)
          (Keeps-attempt l) s (unchanged l) in
      (subst (Safe (I l) (Success l)) e safe).1

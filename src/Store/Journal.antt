-- ===== src/Store/Journal.antt =====
-- What the calls on a store of the cluster write (`Store` in store/store.go), while other clients write
-- to the same objects.
use canary_gate.Prelude.{String, ◌≡◌, refl, sym, subst, List, [], ◌∷◌}
use canary_gate.Runtime.Exec.{Exec, Outcome, done, panic, continue}
use canary_gate.Kube.Journal.{Change, Grew, unchanged}
use canary_gate.Store.Defs.{Store, StoreKey}
use canary_gate.Store.Book.{gate, event}
use canary_gate.Store.Refinement.{Call, opens, closes, is_open, records, last_event, run_calls}

module _ {D : Type 0} (Writes : Call → Change D → Type 0) where
  -- A journal grows by the writes of some calls in their order, each of them any number of times.
  abbrev pub GrewBy : List Call → List (Change D) → List (Change D) → Type 0
  GrewBy [] l l' = l ≡ l'
  GrewBy (c ∷ calls) l l'' = (l' : List (Change D)) × Grew (Writes c) l l' × GrewBy calls l' l''

  GrewBy-unchanged : (calls : List Call) (l : List (Change D)) → GrewBy calls l l
  GrewBy-unchanged [] l = refl
  GrewBy-unchanged (c ∷ calls) l = (l, unchanged l, GrewBy-unchanged calls l)

  -- No call of the store makes another write than those of its kind, also where it panics.
  pub record WritesOnly {S : Type 0} (st : Store S) (journal : S → List (Change D)) : Type 0 where
    pub gate_open_writes :
        (k : StoreKey) (s : S) → Grew (Writes (opens k)) (journal s) (journal (st.gate_open k s).1)
    pub gate_close_writes :
        (k : StoreKey) (s : S)
        → Grew (Writes (closes k)) (journal s) (journal (st.gate_close k s).1)
    pub is_gate_open_writes :
        (k : StoreKey) (s : S)
        → Grew (Writes (is_open k)) (journal s) (journal (st.is_gate_open k s).1)
    pub update_event_writes :
        (k : StoreKey) (status message : String) (s : S)
        → Grew
            (Writes (records k status message))
            (journal s)
            (journal (st.update_event k status message s).1)
    pub get_last_event_writes :
        (k : StoreKey) (s : S)
        → Grew (Writes (last_event k)) (journal s) (journal (st.get_last_event k s).1)

  module _ {S : Type 0} (st : Store S) (journal : S → List (Change D))
      (w : WritesOnly st journal) where
    -- One call, and then others that are made where it has not panicked.
    GrewBy-continue :
        {A B : Type 0} (c : Call) (calls : List Call) (l : List (Change D)) (x : Outcome A × S)
        (f : A → Exec S B)
        → Grew (Writes c) l (journal x.1)
        → ((a : A) (t : S) → GrewBy calls (journal t) (journal (f a t).1))
        → GrewBy (c ∷ calls) l (journal (continue x f).1)
    GrewBy-continue c calls l (done a, t) f grew next = (journal t, grew, next a t)
    GrewBy-continue c calls l (panic p, t) f grew next =
        (journal t, grew, GrewBy-unchanged calls (journal t))

    -- The answers of the calls do not change the state.
    answered :
        {A B : Type 0} (m : Outcome A × S) (f : A → B)
        → (continue m (λ a t. (done (f a), t))).1 ≡ m.1
    answered (done a, t) f i = t
    answered (panic p, t) f i = t

    pub run_calls-GrewBy :
        (calls : List Call) (s : S) → GrewBy calls (journal s) (journal (run_calls st calls s).1)
    unfolding run_calls
    run_calls-GrewBy [] s = refl
    run_calls-GrewBy (opens k ∷ calls) s =
        GrewBy-continue (opens k) calls (journal s) (st.gate_open k s) _ (w.gate_open_writes k s)
          (λ a t. run_calls-GrewBy calls t)
    run_calls-GrewBy (closes k ∷ calls) s =
        GrewBy-continue (closes k) calls (journal s) (st.gate_close k s) _ (w.gate_close_writes k s)
          (λ a t. run_calls-GrewBy calls t)
    run_calls-GrewBy (is_open k ∷ calls) s =
        GrewBy-continue (is_open k) calls (journal s) (st.is_gate_open k s) _
          (w.is_gate_open_writes k s)
          (λ b t.
            subst (λ u. GrewBy calls (journal t) (journal u))
              (sym (answered (run_calls st calls t) (λ rest. gate b ∷ rest)))
              (run_calls-GrewBy calls t))
    run_calls-GrewBy (records k status message ∷ calls) s =
        GrewBy-continue (records k status message) calls (journal s)
          (st.update_event k status message s) _ (w.update_event_writes k status message s)
          (λ a t. run_calls-GrewBy calls t)
    run_calls-GrewBy (last_event k ∷ calls) s =
        GrewBy-continue (last_event k) calls (journal s) (st.get_last_event k s) _
          (w.get_last_event_writes k s)
          (λ m t.
            subst (λ u. GrewBy calls (journal t) (journal u))
              (sym (answered (run_calls st calls t) (λ rest. event m ∷ rest)))
              (run_calls-GrewBy calls t))

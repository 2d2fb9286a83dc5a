-- ===== src/Store/Requests.antt =====
-- How many requests the calls on a store of the cluster send (`Store` in store/store.go).
use canary_gate.Prelude.{String, ℕ, ◌+◌, ◌≤◌, arith, List, [], ◌∷◌}
use canary_gate.Runtime.Exec.{Exec, Outcome, done, panic, continue, ◌>>=◌, pure}
use canary_gate.Runtime.Cost.{Costs}
use canary_gate.Store.Defs.{Store, StoreKey}
use canary_gate.Store.Book.{gate, event}
use canary_gate.Store.Refinement.{Call, opens, closes, is_open, records, last_event, run_calls}

abbrev pub total : (Call → ℕ) → List Call → ℕ
total cost [] = 0
total cost (c ∷ calls) = cost c + total cost calls

module _ {S : Type 0} (st : Store S) (asked : S → ℕ) (cost : Call → ℕ) where
  -- Each call of the store costs so many requests at most.
  pub record IsFrugal : Type 0 where
    pub gate_open_costs : (k : StoreKey) → Costs asked (cost (opens k)) (st.gate_open k)
    pub gate_close_costs : (k : StoreKey) → Costs asked (cost (closes k)) (st.gate_close k)
    pub is_gate_open_costs : (k : StoreKey) → Costs asked (cost (is_open k)) (st.is_gate_open k)
    pub update_event_costs :
        (k : StoreKey) (status message : String)
        → Costs asked (cost (records k status message)) (st.update_event k status message)
    pub get_last_event_costs :
        (k : StoreKey) → Costs asked (cost (last_event k)) (st.get_last_event k)

  Costs-continue :
      {A B : Type 0} (c d n : ℕ) (x : Outcome A × S) (f : A → Exec S B)
      → asked x.1 ≤ c + n
      → ((a : A) → Costs asked d (f a))
      → asked (continue x f).1 ≤ (c + d) + n
  Costs-continue c d n (done a, t) f le costs = let more = costs a t in omega arith
  Costs-continue c d n (panic p, t) f le costs = omega arith

  -- The rest of the calls, and then an answer.
  Costs-answer :
      {A B : Type 0} (d : ℕ) (m : Exec S A) (f : A → B)
      → Costs asked d m
      → Costs asked d (m >>= λ a. pure (f a))
  Costs-answer d m f costs s =
      let all =
        Costs-continue d 0 (asked s) (m s) (λ a. pure (f a)) (costs s) (λ a t. omega arith) in
      omega arith

  pub Costs-run_calls :
      IsFrugal → (calls : List Call) → Costs asked (total cost calls) (run_calls st calls)
  unfolding run_calls
  Costs-run_calls frugal [] s = omega arith
  Costs-run_calls frugal (opens k ∷ calls) s =
      Costs-continue (cost (opens k)) (total cost calls) (asked s) (st.gate_open k s)
        (λ _. run_calls st calls) (frugal.gate_open_costs k s) (λ a. Costs-run_calls frugal calls)
  Costs-run_calls frugal (closes k ∷ calls) s =
      Costs-continue (cost (closes k)) (total cost calls) (asked s) (st.gate_close k s)
        (λ _. run_calls st calls) (frugal.gate_close_costs k s) (λ a. Costs-run_calls frugal calls)
  Costs-run_calls frugal (is_open k ∷ calls) s =
      Costs-continue (cost (is_open k)) (total cost calls) (asked s) (st.is_gate_open k s)
        (λ b. run_calls st calls >>= λ rest. pure (gate b ∷ rest)) (frugal.is_gate_open_costs k s)
        (λ b.
          Costs-answer (total cost calls) (run_calls st calls) (λ rest. gate b ∷ rest)
            (Costs-run_calls frugal calls))
  Costs-run_calls frugal (records k status message ∷ calls) s =
      Costs-continue (cost (records k status message)) (total cost calls) (asked s)
        (st.update_event k status message s) (λ _. run_calls st calls)
        (frugal.update_event_costs k status message s) (λ a. Costs-run_calls frugal calls)
  Costs-run_calls frugal (last_event k ∷ calls) s =
      Costs-continue (cost (last_event k)) (total cost calls) (asked s) (st.get_last_event k s)
        (λ m. run_calls st calls >>= λ rest. pure (event m ∷ rest))
        (frugal.get_last_event_costs k s)
        (λ m.
          Costs-answer (total cost calls) (run_calls st calls) (λ rest. event m ∷ rest)
            (Costs-run_calls frugal calls))

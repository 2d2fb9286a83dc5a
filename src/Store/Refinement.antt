-- ===== src/Store/Refinement.antt =====
-- Sequences of calls on a store (`Store` in store/store.go), and the accesses that they stand for.
use canary_gate.Prelude.{
  String, ◌≡◌, ◌≢◌, refl, sym, ap, ◌∙◌, Bool, true, false, List, [], ◌∷◌, inl, inr, Bool-cases,
}
use canary_gate.Runtime.Exec.{Exec, done, pure, ◌>>=◌, ◌>>◌}
use canary_gate.Store.Defs.{Store, StoreKey, set_message}
use canary_gate.Store.Contract.{View, IsGateStore, GateSet, Ends, canary_eq}
use canary_gate.Store.Book.{
  Access, sets, asks, tells, hears, Answer, gate, event, Book, set_gate, set_event, key_eq, answers,
  key_eq-true, key_eq-false,
}

-- The calls of a client of the store.
pub data Call : Type 0 where
  opens closes is_open : StoreKey → Call
  records : StoreKey → String → String → Call
  last_event : StoreKey → Call

-- The calls one after the other, with the answers to those that ask.
unfoldable pub run_calls : {S : Type 0} → Store S → List Call → Exec S (List Answer)
run_calls st [] = pure []
run_calls st (opens k ∷ calls) = do st.gate_open k; run_calls st calls
run_calls st (closes k ∷ calls) = do st.gate_close k; run_calls st calls
run_calls st (is_open k ∷ calls) = do
  b ← st.is_gate_open k
  rest ← run_calls st calls
  pure (gate b ∷ rest)
run_calls st (records k status message ∷ calls) = do
  st.update_event k status message
  run_calls st calls
run_calls st (last_event k ∷ calls) = do
  m ← st.get_last_event k
  rest ← run_calls st calls
  pure (event m ∷ rest)

-- Setting a gate sets the event of its canary too.
abbrev pub accesses : List Call → List Access
accesses [] = []
accesses (opens k ∷ calls) = sets k true ∷ tells k (set_message k true) ∷ accesses calls
accesses (closes k ∷ calls) = sets k false ∷ tells k (set_message k false) ∷ accesses calls
accesses (is_open k ∷ calls) = asks k ∷ accesses calls
accesses (records k status message ∷ calls) = tells k message ∷ accesses calls
accesses (last_event k ∷ calls) = hears k ∷ accesses calls

-- The calls are about gates and canaries of the store.
abbrev pub AllFit : (StoreKey → Type 0) → (StoreKey → Type 0) → List Call → Type 0
AllFit G C [] = Unit {0}
AllFit G C (opens k ∷ calls) = G k × AllFit G C calls
AllFit G C (closes k ∷ calls) = G k × AllFit G C calls
AllFit G C (is_open k ∷ calls) = G k × AllFit G C calls
AllFit G C (records k status message ∷ calls) = C k × AllFit G C calls
AllFit G C (last_event k ∷ calls) = C k × AllFit G C calls

-- The store keeps all of its gates apart, and the events of all of its canaries.
pub record Separates {S : Type 0} (v : View S) : Type 0 where
  pub apart : (k j : StoreKey) → v.IsGate k → v.IsGate j → k ≢ j → v.Apart k j
  pub aside : (k j : StoreKey) → canary_eq k j ≡ false → v.Aside k j
  pub shared : (s : S) (k j : StoreKey) → canary_eq k j ≡ true → v.events s k ≡ v.events s j

module _ {S : Type 0} (st : Store S) (v : View S) (c : IsGateStore st v) (sep : Separates v) where
  -- The state is seen as the book.
  pub record Sees (s : S) (book : Book) : Type 0 where
    pub gates : (j : StoreKey) → v.IsGate j → v.gates s j ≡ book.gates j
    pub events : (j : StoreKey) → v.IsCanary j → v.events s j ≡ book.events j

  gates_set :
      (s t : S) (book : Book) (k : StoreKey) (b : Bool)
      → v.IsGate k
      → Sees s book
      → GateSet v k b s t
      → (j : StoreKey) → v.IsGate j
      → v.gates t j ≡ (set_gate book k b).gates j
  gates_set s t book k b is_gate sees (_, at_k, others, _, _) j is_gate' =
      elim (Bool-cases (key_eq k j)) [
        | inl here ↦ rw here (ap (v.gates t) (sym (key_eq-true k j here)) ∙ at_k)
        | inr there ↦ rw there (
            others j is_gate' (sep.apart k j is_gate is_gate' (key_eq-false k j there))
            ∙ sees.gates j is_gate')
      ]

  pub events_set :
      (s t : S) (book : Book) (k : StoreKey) (m : String)
      → Sees s book
      → v.events t k ≡ m
      → ((j : StoreKey) → v.IsCanary j → v.Aside k j → v.events t j ≡ v.events s j)
      → (j : StoreKey) → v.IsCanary j
      → v.events t j ≡ (set_event book k m).events j
  events_set s t book k m sees at_k others j names = elim (Bool-cases (canary_eq k j)) [
    | inl here ↦ rw here (sym (sep.shared t k j here) ∙ at_k)
    | inr there ↦ rw there (others j names (sep.aside k j there) ∙ sees.events j names)
  ]

  Sees-set :
      (s t : S) (book : Book) (k : StoreKey) (b : Bool)
      → v.IsGate k
      → Sees s book
      → GateSet v k b s t
      → Sees t (set_event (set_gate book k b) k (set_message k b))
  Sees-set s t book k b is_gate sees set = record {
    gates = gates_set s t book k b is_gate sees set;
    events = events_set s t book k (set_message k b) sees set.3 set.4;
  }

  -- Over a store that keeps the contract and keeps its gates and its canaries apart, any calls on them
  -- end, and their answers are those of a map of gates and a map of events that start as the state is
  -- seen.
  pub run_calls-answers :
      (calls : List Call) (s : S) (book : Book)
      → v.IsValid s
      → Sees s book
      → AllFit v.IsGate v.IsCanary calls
      → Ends (run_calls st calls) s (answers book (accesses calls)) (λ t. v.IsValid t)
  unfolding run_calls answers
  run_calls-answers [] s book valid sees all = (s, refl, valid)
  run_calls-answers (opens k ∷ calls) s book valid sees all =
      let (u, run, set) = c.gate_open_sets s k valid all.0 in
      let (t, run', valid') =
        run_calls-answers calls u (set_event (set_gate book k true) k (set_message k true)) set.0
          (Sees-set s u book k true all.0 sees set) all.1 in
      (t, rw (run, run') refl, valid')
  run_calls-answers (closes k ∷ calls) s book valid sees all =
      let (u, run, set) = c.gate_close_sets s k valid all.0 in
      let (t, run', valid') =
        run_calls-answers calls u (set_event (set_gate book k false) k (set_message k false)) set.0
          (Sees-set s u book k false all.0 sees set) all.1 in
      (t, rw (run, run') refl, valid')
  run_calls-answers (is_open k ∷ calls) s book valid sees all =
      let (u, run, (valid', gates, events)) = c.is_gate_open_reads s k valid all.0 in
      let sees' : Sees u book = record {
        gates = λ j g. gates j g ∙ sees.gates j g;
        events = λ j n. events j n ∙ sees.events j n;
      } in
      let (t, run', valid'') = run_calls-answers calls u book valid' sees' all.1 in
      (
        t,
        rw (run, run')
            (ap (λ b. (done (gate b ∷ answers book (accesses calls)), t)) (sees.gates k all.0)),
        valid'',
      )
  run_calls-answers (records k status message ∷ calls) s book valid sees all =
      let (u, run, (valid', at_k, gates, others)) =
        c.update_event_sets s k status message valid all.0 in
      let sees' : Sees u (set_event book k message) = record {
        gates = λ j g. gates j g ∙ sees.gates j g;
        events = events_set s u book k message sees at_k others;
      } in
      let (t, run', valid'') =
        run_calls-answers calls u (set_event book k message) valid' sees' all.1 in
      (t, rw (run, run') refl, valid'')
  run_calls-answers (last_event k ∷ calls) s book valid sees all =
      let (u, run, same) = c.get_last_event_reads s k valid all.0 in
      let (t, run', valid') = run_calls-answers calls s book valid sees all.1 in
      (
        t,
        rw (run, same, run')
            (ap (λ m. (done (event m ∷ answers book (accesses calls)), t)) (sees.events k all.0)),
        valid',
      )

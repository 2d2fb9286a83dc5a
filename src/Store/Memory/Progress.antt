-- ===== src/Store/Memory/Progress.antt =====
-- Every request on the in-memory store ends, however the accesses of the others come.
use canary_gate.Prelude.{
  nat_eq, ℕ, suc, ◌≡◌, refl, subst, true, false, List, [], ◌∷◌, ◌≤◌, arith, inl, inr, Bool-cases,
  if◌then◌else◌,
}
use canary_gate.Runtime.Exec.{Outcome, done, panic}
use canary_gate.Store.Book.{Access, sets, asks, tells, hears, Answer, gate, event}
use canary_gate.Store.Defs.{set_message}
use canary_gate.Store.Memory.{SyncMap, is_gate_open, get_last_event, update_event}
use canary_gate.Store.Memory.Threads.{
  Pc, idle, calling, recording, panicked, World, update, update_self, answered, told, access,
  Choice, begins, moves, act, run_schedule, is_idle,
}
use canary_gate.Store.Memory.Interleavings.{
  IsFit, IsLinear, AllMethods, new_world, run_schedule_keeps, access-IsLinear, begins-IsLinear,
  new_world-IsLinear,
}

-- The accesses that a thread has still to make.
abbrev rank : Pc → ℕ
rank idle = 0
rank (panicked p) = 0
rank (recording k m) = 1
rank (calling (sets k b)) = 2
rank (calling (asks k)) = 1
rank (calling (tells k m)) = 1
rank (calling (hears k)) = 1

-- How often the thread is chosen to move.
abbrev pub moves_of : ℕ → List Choice → ℕ
moves_of i [] = 0
moves_of i (begins j m ∷ cs) = moves_of i cs
moves_of i (moves j ∷ cs) = let n = moves_of i cs in if nat_eq i j then suc n else n

-- The thread begins no method.
abbrev pub BeginsNone : ℕ → List Choice → Type 0
BeginsNone i [] = Unit {0}
BeginsNone i (begins j m ∷ cs) = (nat_eq i j ≡ false) × BeginsNone i cs
BeginsNone i (moves j ∷ cs) = BeginsNone i cs

rank_two : (p : Pc) → rank p ≤ 2
rank_two idle = omega arith
rank_two (panicked p) = omega arith
rank_two (recording k m) = omega arith
rank_two (calling (sets k b)) = omega arith
rank_two (calling (asks k)) = omega arith
rank_two (calling (tells k m)) = omega arith
rank_two (calling (hears k)) = omega arith

idle_of_rank : (p : Pc) → IsFit p → rank p ≤ 0 → p ≡ idle
idle_of_rank idle fit le = refl
idle_of_rank (panicked p) fit le = absurd fit
idle_of_rank (recording k m) fit le = absurd (omega arith)
idle_of_rank (calling (sets k b)) fit le = absurd (omega arith)
idle_of_rank (calling (asks k)) fit le = absurd (omega arith)
idle_of_rank (calling (tells k m)) fit le = absurd (omega arith)
idle_of_rank (calling (hears k)) fit le = absurd (omega arith)

rank-answered :
    {A : Type 0} (f : A → Answer) (x : Outcome A × SyncMap) (i : ℕ) (a : Access) (w : World)
    → rank ((answered f x i a w).pc i) ≡ 0
rank-answered f (done b, d) i a w = rw (update_self w.pc i idle) refl
rank-answered f (panic p, d) i a w = rw (update_self w.pc i (panicked p)) refl

rank-told :
    (x : Outcome (Unit {0}) × SyncMap) (i : ℕ) (a : Access) (w : World)
    → rank ((told x i a w).pc i) ≡ 0
rank-told (done _, d) i a w = rw (update_self w.pc i idle) refl
rank-told (panic p, d) i a w = rw (update_self w.pc i (panicked p)) refl

rank-access :
    (i n : ℕ) (p : Pc) (w : World) → w.pc i ≡ p → rank p ≤ suc n → rank ((access i p w).pc i) ≤ n
unfolding access
rank-access i n idle w at le = rw at (omega arith)
rank-access i n (panicked p) w at le = rw at (omega arith)
rank-access i n (calling (sets k b)) w at le =
    rw (update_self w.pc i (recording k (set_message k b))) (omega arith)
rank-access i n (recording k m) w at le =
    rw (rank-told (update_event k "Updated" m w.map) i (tells k m) w) (omega arith)
rank-access i n (calling (tells k m)) w at le =
    rw (rank-told (update_event k "" m w.map) i (tells k m) w) (omega arith)
rank-access i n (calling (asks k)) w at le =
    rw (rank-answered gate (is_gate_open k w.map) i (asks k) w) (omega arith)
rank-access i n (calling (hears k)) w at le =
    rw (rank-answered event (get_last_event k w.map) i (hears k) w) (omega arith)

update_other : (pc : ℕ → Pc) (i j : ℕ) (p : Pc) → nat_eq i j ≡ false → update pc j p i ≡ pc i
update_other pc i j p other = ground arith

answered_other :
    {A : Type 0} (f : A → Answer) (x : Outcome A × SyncMap) (i j : ℕ) (a : Access) (w : World)
    → nat_eq i j ≡ false
    → (answered f x j a w).pc i ≡ w.pc i
answered_other f (done b, d) i j a w other = update_other w.pc i j idle other
answered_other f (panic p, d) i j a w other = update_other w.pc i j (panicked p) other

told_other :
    (x : Outcome (Unit {0}) × SyncMap) (i j : ℕ) (a : Access) (w : World)
    → nat_eq i j ≡ false
    → (told x j a w).pc i ≡ w.pc i
told_other (done _, d) i j a w other = update_other w.pc i j idle other
told_other (panic p, d) i j a w other = update_other w.pc i j (panicked p) other

-- An access of another thread.
access_other : (i j : ℕ) (p : Pc) (w : World) → nat_eq i j ≡ false → (access j p w).pc i ≡ w.pc i
unfolding access
access_other i j idle w other = refl
access_other i j (panicked p) w other = refl
access_other i j (calling (sets k b)) w other =
    update_other w.pc i j (recording k (set_message k b)) other
access_other i j (recording k m) w other =
    told_other (update_event k "Updated" m w.map) i j (tells k m) w other
access_other i j (calling (tells k m)) w other =
    told_other (update_event k "" m w.map) i j (tells k m) w other
access_other i j (calling (asks k)) w other =
    answered_other gate (is_gate_open k w.map) i j (asks k) w other
access_other i j (calling (hears k)) w other =
    answered_other event (get_last_event k w.map) i j (hears k) w other

begins_other :
    (i j : ℕ) (m : Access) (w : World) → nat_eq i j ≡ false → (act (begins j m) w).pc i ≡ w.pc i
unfolding act
begins_other i j m w other = elim (Bool-cases (is_idle (w.pc j))) [
  | inl free ↦ rw free (update_other w.pc i j (calling m) other)
  | inr busy ↦ rw busy refl
]

nat_eq-true : (i j : ℕ) → nat_eq i j ≡ true → i ≡ j
nat_eq-true i j e = ground arith

-- An access of any thread.
rank_moved :
    (i j n : ℕ) (w : World)
    → rank (w.pc i) ≤ (if nat_eq i j then suc n else n)
    → rank ((access j (w.pc j) w).pc i) ≤ n
rank_moved i j n w le = elim (Bool-cases (nat_eq i j)) [
  | inl own ↦
      subst (λ x. rank ((access x (w.pc x) w).pc i) ≤ n) (nat_eq-true i j own)
        (rank-access i n (w.pc i) w refl
          (subst (λ b. rank (w.pc i) ≤ (if b then suc n else n)) own le))
  | inr other ↦
      rw (access_other i j (w.pc j) w other)
        (subst (λ b. rank (w.pc i) ≤ (if b then suc n else n)) other le)
]

finishes :
    (i : ℕ) (cs : List Choice) (w : World)
    → IsLinear w
    → AllMethods cs
    → BeginsNone i cs
    → rank (w.pc i) ≤ moves_of i cs
    → (run_schedule cs w).pc i ≡ idle
unfolding run_schedule act
finishes i [] w h all none le = idle_of_rank (w.pc i) (h.fit i) le
finishes i (begins j m ∷ cs) w h all none le =
    finishes i cs (act (begins j m) w) (begins-IsLinear j m w all.0 h) all.1 none.1
      (rw (begins_other i j m w none.0) le)
finishes i (moves j ∷ cs) w h all none le =
    finishes i cs (act (moves j) w) (access-IsLinear w h j (w.pc j) (h.fit j)) all none
      (rank_moved i j (moves_of i cs) w le)

-- From any world that a schedule leads to, a thread that begins no other method, and is chosen to move
-- at least twice, has no method left to run, however the accesses of the other threads come between:
-- every request on a gate or a canary ends after at most two accesses of its own.
pub run_schedule_finishes :
    (i : ℕ) (cs ds : List Choice)
    → AllMethods cs
    → AllMethods ds
    → BeginsNone i ds
    → 2 ≤ moves_of i ds
    → (run_schedule ds (run_schedule cs new_world)).pc i ≡ idle
run_schedule_finishes i cs ds before all none enough =
    let w = run_schedule cs new_world in
    let le = rank_two (w.pc i) in
    finishes i ds w (run_schedule_keeps cs new_world before new_world-IsLinear) all none
      (omega arith)

-- ===== src/Tests/Threads.antt =====
-- The theorems on requests at the same time, applied to two threads of the in-memory store.
use canary_gate.Prelude.{arith, ◌≡◌, refl, true, false, List, [], ◌∷◌}
use canary_gate.Store.Defs.{set_message}
use canary_gate.Store.Book.{sets, asks, hears}
use canary_gate.Store.Memory.{new_memory_store}
use canary_gate.Store.Memory.Gates.{gate_of, event_of}
use canary_gate.Store.Memory.Threads.{idle, Choice, begins, moves, run_schedule}
use canary_gate.Store.Memory.Interleavings.{IsLinear, new_world, run_schedule-IsLinear}
use canary_gate.Store.Memory.Races.{crossing, run_schedule_stale}
use canary_gate.Store.Memory.Progress.{run_schedule_finishes}
use canary_gate.Tests.Data.{rollout_key, rollout_key-IsGate}

-- Thread 1 asks for a gate and its event while thread 0 closes it.
abbrev schedule : List Choice
schedule =
    begins 0 (sets rollout_key false)
    ∷ begins 1 (asks rollout_key)
    ∷ moves 0
    ∷ moves 1
    ∷ begins 1 (hears rollout_key)
    ∷ moves 1
    ∷ moves 0
    ∷ []

run_schedule-IsLinear_example : IsLinear (run_schedule schedule new_world)
run_schedule-IsLinear_example =
    run_schedule-IsLinear schedule
      (rollout_key-IsGate, (rollout_key-IsGate, (rollout_key-IsGate.0, tt)))

run_schedule_stale_example :
    (gate_of (run_schedule (crossing rollout_key) new_world).map rollout_key ≡ false)
    × (event_of (run_schedule (crossing rollout_key) new_world).map rollout_key
        ≡ set_message rollout_key true)
run_schedule_stale_example = run_schedule_stale rollout_key new_memory_store rollout_key-IsGate

-- Thread 0 has set its gate, and thread 1 goes on in between.
run_schedule_finishes_example :
    (run_schedule
        (moves 0 ∷ begins 1 (hears rollout_key) ∷ moves 1 ∷ moves 0 ∷ [])
        (run_schedule (begins 0 (sets rollout_key true) ∷ []) new_world)).pc
      0
    ≡ idle
run_schedule_finishes_example =
    run_schedule_finishes 0 (begins 0 (sets rollout_key true) ∷ [])
      (moves 0 ∷ begins 1 (hears rollout_key) ∷ moves 1 ∷ moves 0 ∷ []) (rollout_key-IsGate, tt)
      (rollout_key-IsGate.0, tt) (refl, tt) (omega arith)

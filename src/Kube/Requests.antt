-- ===== src/Kube/Requests.antt =====
-- How many requests a client sends to the API server.
use canary_gate.Prelude.{ℕ, zero, suc, String, ◌+◌, ◌≤◌, ◌≡◌, arith, sym, subst, Option, none, some}
use Prim.Native.Nat.{◌*◌}
use canary_gate.Runtime.Exec.{Exec, Outcome, done, panic}
use canary_gate.Runtime.Cost.{Costs}
use canary_gate.Kube.Api.{ApiError, conflict, Object, Resource}
use canary_gate.Kube.Retry.{Retry, IsBounded, attempts, again}

-- The requests so far: each call sends one.
pub record IsCounted {S D : Type 0} (r : Resource S D) : Type 0 where
  pub asked : S → ℕ
  pub get_asks : (s : S) (ns n : String) → asked (r.get ns n s).1 ≡ suc (asked s)
  pub create_asks : (s : S) (ns : String) (o : Object D) → asked (r.create ns o s).1 ≡ suc (asked s)
  pub update_asks : (s : S) (ns : String) (o : Object D) → asked (r.update ns o s).1 ≡ suc (asked s)

module _ {S : Type 0} (asked : S → ℕ) where
  Costs-again :
      (x : Outcome (Option ApiError) × S) (next : Exec S (Option ApiError)) (c d n : ℕ)
      → asked x.1 ≤ c + n
      → Costs asked d next
      → asked (again x next).1 ≤ (c + d) + n
  Costs-again (done none, s) next c d n le costs = omega arith
  Costs-again (done (some conflict), s) next c d n le costs = let more = costs s in omega arith
  Costs-again (done (some e), s) next c d n le costs = omega arith
  Costs-again (panic p, s) next c d n le costs = omega arith

  Costs-attempts :
      (n c : ℕ) (m : Exec S (Option ApiError))
      → Costs asked c m
      → Costs asked (suc n * c) (attempts n m)
  unfolding attempts
  Costs-attempts zero c m costs s = let once = costs s in omega arith
  Costs-attempts (suc n) c m costs s =
      let all =
        Costs-again (m s) (attempts n m) c (suc n * c) (asked s) (costs s)
          (Costs-attempts n c m costs) in
      omega arith

  -- The function that is retried costs as much as often as it is tried at most.
  pub Costs-on_conflict :
      (r : Retry S) (b : IsBounded r) (c : ℕ) (m : Exec S (Option ApiError))
      → Costs asked c m
      → Costs asked (suc b.more * c) (r.on_conflict m)
  Costs-on_conflict r b c m costs s =
      subst (λ x. asked x.1 ≤ suc b.more * c + asked s) (sym (b.runs m s))
        (Costs-attempts b.more c m costs s)

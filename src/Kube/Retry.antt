-- ===== src/Kube/Retry.antt =====
-- `retry.RetryOnConflict` of client-go.
use canary_gate.Prelude.{ℕ, zero, suc, String, ◌≡◌, refl, ◌∙◌, Option, none, some}
use canary_gate.Runtime.Exec.{Exec, Outcome, done, panic, Panic}
use canary_gate.Kube.Api.{ApiError, not_found, conflict, status}

pub record Retry (S : Type 0) : Type 0 where
  pub on_conflict : Exec S (Option ApiError) → Exec S (Option ApiError)

module _ {S : Type 0} where
  abbrev pub again :
      Outcome (Option ApiError) × S → Exec S (Option ApiError) → Outcome (Option ApiError) × S
  again (done (some conflict), s) next = next s
  again x next = x

  -- The function runs once, and again after a conflict, at most so many times more.
  unfoldable pub attempts : ℕ → Exec S (Option ApiError) → Exec S (Option ApiError)
  attempts zero m s = m s
  attempts (suc n) m s = again (m s) (attempts n m)

  -- What the documentation says: the function runs again while it returns a conflict, for a fixed
  -- number of attempts; any other result, or a panic, ends it.
  pub record IsBounded (r : Retry S) : Type 0 where
    pub more : ℕ
    pub runs : (m : Exec S (Option ApiError)) (s : S) → r.on_conflict m s ≡ attempts more m s

  attempts_settle :
      (n : ℕ) (m : Exec S (Option ApiError)) (s : S) (x : Outcome (Option ApiError) × S)
      → m s ≡ x
      → ((next : Exec S (Option ApiError)) → again x next ≡ x)
      → attempts n m s ≡ x
  unfolding attempts
  attempts_settle zero m s x e final = e
  attempts_settle (suc n) m s x e final = rw e (final (attempts n m))

  module _ (r : Retry S) (b : IsBounded r) (m : Exec S (Option ApiError)) (s : S) {t : S} where
    pub settle_done : m s ≡ (done none, t) → r.on_conflict m s ≡ (done none, t)
    settle_done e = b.runs m s ∙ attempts_settle b.more m s _ e (λ next. refl)

    pub settle_panic : (p : Panic) → m s ≡ (panic p, t) → r.on_conflict m s ≡ (panic p, t)
    settle_panic p e = b.runs m s ∙ attempts_settle b.more m s _ e (λ next. refl)

    pub settle_missing :
        m s ≡ (done (some not_found), t) → r.on_conflict m s ≡ (done (some not_found), t)
    settle_missing e = b.runs m s ∙ attempts_settle b.more m s _ e (λ next. refl)

    pub settle_status :
        (text : String)
        → m s ≡ (done (some (status text)), t)
        → r.on_conflict m s ≡ (done (some (status text)), t)
    settle_status text e = b.runs m s ∙ attempts_settle b.more m s _ e (λ next. refl)

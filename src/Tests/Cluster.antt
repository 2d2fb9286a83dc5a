-- ===== src/Tests/Cluster.antt =====
-- A small API server in memory, a retry loop with a bound, and what is documented of both.
use canary_gate.Prelude.{
  ℕ, zero, suc, String, ◌≡◌, refl, sym, Bool, true, false, Option, none, some, inl, inr, Bool-cases,
  some≢none, some_inj, ap, if◌then◌else◌,
}
use canary_gate.Kube.Api.{
  not_found, conflict, already_exists, Reply, ok, err, Object, Resource, IsReliable, IsServing,
  status, same, same-true,
}
use canary_gate.Kube.Retry.{Retry, IsBounded, attempts}

-- At each namespace and name, the version and the content that are stored.
pub record Cluster (D : Type 0) : Type 0 where
  pub entries : String → String → Option (ℕ × D)
  pub next : ℕ

abbrev pub empty_cluster : {D : Type 0} → Cluster D
empty_cluster = record { entries = λ ns n. none; next = 1 }

abbrev pub nat_eq : ℕ → ℕ → Bool
nat_eq zero zero = true
nat_eq zero (suc n) = false
nat_eq (suc m) zero = false
nat_eq (suc m) (suc n) = nat_eq m n

pub nat_eq_self : (m n : ℕ) → m ≡ n → nat_eq m n ≡ true
nat_eq_self zero zero e = refl
nat_eq_self zero (suc n) e = cc
nat_eq_self (suc m) zero e = cc
nat_eq_self (suc m) (suc n) e = nat_eq_self m n cc

module _ {D : Type 0} where
  abbrev pub entry_object : String → String → Option (ℕ × D) → Option (Object D)
  entry_object ns n none = none
  entry_object ns n (some (v, d)) =
      some (record { namespace = ns; name = n; version = v; content = d })

  abbrev pub stored : Cluster D → String → String → Option (Object D)
  stored s ns n = entry_object ns n (s.entries ns n)

  abbrev pub place : String → Object D → Cluster D → Cluster D
  place ns o s = record {
    entries =
        λ ns' n'. if same ns o.name ns' n' then some (s.next, o.content) else s.entries ns' n';
    next = suc s.next;
  }

  abbrev pub answer_get : Option (Object D) → Reply (Object D)
  answer_get none = err not_found
  answer_get (some o) = ok o

  abbrev pub do_get : String → String → Cluster D → Reply (Object D) × Cluster D
  do_get ns n s = (answer_get (stored s ns n), s)

  abbrev pub create_at :
      Option (Object D) → String → Object D → Cluster D → Reply (Object D) × Cluster D
  create_at none ns o s = (ok o, place ns o s)
  create_at (some old) ns o s = (err already_exists, s)

  abbrev pub update_at :
      Option (Object D) → String → Object D → Cluster D → Reply (Object D) × Cluster D
  update_at none ns o s = (err not_found, s)
  update_at (some old) ns o s =
      if nat_eq o.version old.version then (ok o, place ns o s) else (err conflict, s)

  abbrev pub cluster_client : Resource (Cluster D) D
  cluster_client = record {
    get = do_get;
    create = λ ns o s. create_at (stored s ns o.name) ns o s;
    update = λ ns o s. update_at (stored s ns o.name) ns o s;
  }

  pub stored_at_lem :
      (e : Option (ℕ × D)) (ns n : String) (o : Object D)
      → entry_object ns n e ≡ some o
      → (o.namespace ≡ ns) × (o.name ≡ n)
  stored_at_lem none ns n o h = absurd (some≢none (sym h))
  stored_at_lem (some (v, d)) ns n o h = (
    sym (ap (λ (x : Object D). x.namespace) (some_inj h)),
    sym (ap (λ (x : Object D). x.name) (some_inj h)),
  )

  pub stored-place :
      (s : Cluster D) (ns : String) (o : Object D) (ns' n' : String)
      → stored (place ns o s) ns' n' ≡ (
          if same ns o.name ns' n'
          then some (record o { namespace = ns; version = s.next })
          else stored s ns' n')
  stored-place s ns o ns' n' = elim (Bool-cases (same ns o.name ns' n')) [
    | inl here ↦
        let (p, q) = same-true ns o.name ns' n' here in
        rw here (λ i.
          some
            (record { namespace = sym p i; name = sym q i; version = s.next; content = o.content }))
    | inr there ↦ rw there refl
  ]

  abbrev pub cluster_client-IsReliable : IsReliable cluster_client
  cluster_client-IsReliable = record {
    stored = stored;
    next_version = λ s. s.next;
    stored_at = λ s ns n. stored_at_lem (s.entries ns n) ns n;
    get_stored = λ s ns n o h. rw h refl;
    get_missing = λ s ns n h. rw h refl;
    create_accepted = λ s ns o h. rw h refl;
    create_stored = λ s ns o h ns' n'. rw h (stored-place s ns o ns' n');
    update_accepted = λ s ns o old h e. rw (h, nat_eq_self o.version old.version e) refl;
    update_stored = λ s ns o old h e ns' n'.
        rw (h, nat_eq_self o.version old.version e) (stored-place s ns o ns' n');
  }

-- A server that creates nothing.
abbrev pub strict_client : {D : Type 0} → Resource (Cluster D) D
strict_client = record {
  get = do_get;
  create = λ ns o s. (err (status "invalid"), s);
  update = λ ns o s. update_at (stored s ns o.name) ns o s;
}

abbrev pub strict_client-IsServing :
    {D : Type 0} (Keeps : D → D → Type 0) → IsServing strict_client Keeps
strict_client-IsServing Keeps = record {
  stored = stored;
  next_version = λ s. s.next;
  stored_at = λ s ns n. stored_at_lem (s.entries ns n) ns n;
  get_stored = λ s ns n o h. rw h refl;
  update_accepted = λ s ns o old h e keeps. rw (h, nat_eq_self o.version old.version e) refl;
  update_stored = λ s ns o old h e keeps ns' n'.
      rw (h, nat_eq_self o.version old.version e) (stored-place s ns o ns' n');
}

-- At most five attempts, the default of client-go.
abbrev pub five_attempts : {S : Type 0} → Retry S
five_attempts = record { on_conflict = attempts 4 }

abbrev pub five_attempts-IsBounded : {S : Type 0} → IsBounded (five_attempts {S = S})
five_attempts-IsBounded = record { more = 4; runs = λ m s. refl }

-- ===== src/Tests/Rivals.antt =====
-- An API server that another client writes to before every call, and what is documented of it.
use canary_gate.Prelude.{
  ℕ, zero, suc, String, ◌≡◌, ◌≢◌, refl, Bool, true, false, Option, none, some, List, [], ◌∷◌, ◌⊎◌,
  inl, inr, append, nat_eq, get_elem?, if◌then◌else◌, some_inj, some≢none, sym, subst, ◌∙◌,
  Bool-cases,
}
use canary_gate.Kube.Api.{
  not_found, conflict, already_exists, Reply, ok, err, Object, Resource, error_of, same,
}
use canary_gate.Kube.Journal.{Change, created, replaced, IsVersioned}

-- All that an object has held, the oldest first, so that a version is a position; what the client has
-- written; and what the other client still writes, one write or none before each call.
pub record Shared (D : Type 0) : Type 0 where
  pub past : String → String → List D
  pub written : List (Change D)
  pub rivals : List (Option (String × String × D))

-- The position of the newest entry.
abbrev newest : {A : Type 0} → List A → ℕ
newest [] = 0
newest (x ∷ []) = 0
newest (x ∷ y ∷ xs) = suc (newest (y ∷ xs))

pub append-get_elem? :
    {A : Type 0} (xs : List A) (y x : A) (v : ℕ)
    → get_elem? xs v ≡ some x
    → get_elem? (append xs y) v ≡ some x
append-get_elem? [] y x v e = absurd (some≢none (sym e))
append-get_elem? (z ∷ xs) y x zero e = e
append-get_elem? (z ∷ xs) y x (suc v) e = append-get_elem? xs y x v e

module _ {D : Type 0} where
  abbrev pub put : String → String → D → Shared D → Shared D
  put ns n d s = record s {
    past = λ ns' n'. if same ns n ns' n' then append (s.past ns' n') d else s.past ns' n';
  }

  abbrev interfere : List (Option (String × String × D)) → Shared D → Shared D
  interfere [] s = s
  interfere (none ∷ rest) s = record s { rivals = rest }
  interfere (some (ns, n, d) ∷ rest) s = put ns n d (record s { rivals = rest })

  -- The other client writes first.
  abbrev rival : Shared D → Shared D
  rival s = interfere s.rivals s

  abbrev object_of : String → String → ℕ → Option D → Reply (Object D)
  object_of ns n v none = err not_found
  object_of ns n v (some d) = ok (record { namespace = ns; name = n; version = v; content = d })

  abbrev write : Change D → String → Object D → Shared D → Reply (Object D) × Shared D
  write c ns o s = (ok o, record (put ns o.name o.content s) { written = c ∷ s.written })

  abbrev create_in : String → Object D → Option D → Shared D → Reply (Object D) × Shared D
  create_in ns o none s = write (created ns o.name o.content) ns o s
  create_in ns o (some d) s = (err already_exists, s)

  -- The object is still at the version that is sent, or it is not.
  abbrev replace_in : String → Object D → Bool → Option D → Shared D → Reply (Object D) × Shared D
  replace_in ns o b none s = (err not_found, s)
  replace_in ns o true (some d) s = write (replaced ns o.name d o.content) ns o s
  replace_in ns o false (some d) s = (err conflict, s)

  abbrev update_in : String → Object D → List D → Shared D → Reply (Object D) × Shared D
  update_in ns o xs s = replace_in ns o (nat_eq (newest xs) o.version) (get_elem? xs o.version) s

  abbrev pub shared_client : Resource (Shared D) D
  shared_client = record {
    get = λ ns n s.
        let t = rival s in
        (object_of ns n (newest (t.past ns n)) (get_elem? (t.past ns n) (newest (t.past ns n))), t);
    create = λ ns o s.
        let t = rival s in
        create_in ns o (get_elem? (t.past ns o.name) (newest (t.past ns o.name))) t;
    update = λ ns o s. let t = rival s in update_in ns o (t.past ns o.name) t;
  }

  abbrev Was : Shared D → String → String → ℕ → D → Type 0
  Was s ns n v d = get_elem? (s.past ns n) v ≡ some d

  Was-put :
      (s : Shared D) (ns n : String) (d : D) (ns' n' : String) (v : ℕ) (e : D)
      → Was s ns' n' v e
      → Was (put ns n d s) ns' n' v e
  Was-put s ns n d ns' n' v e was = elim (Bool-cases (same ns n ns' n')) [
    | inl here ↦ rw (here, if◌then◌else◌) (append-get_elem? (s.past ns' n') d e v was)
    | inr there ↦ rw (there, if◌then◌else◌) was
  ]

  pub Was-interfere :
      (l : List (Option (String × String × D))) (s : Shared D) (ns n : String) (v : ℕ) (d : D)
      → Was s ns n v d
      → Was (interfere l s) ns n v d
  Was-interfere [] s ns n v d was = was
  Was-interfere (none ∷ rest) s ns n v d was = was
  Was-interfere (some (ns', n', e) ∷ rest) s ns n v d was =
      Was-put (record s { rivals = rest }) ns' n' e ns n v d was

  pub interfere-written :
      (l : List (Option (String × String × D))) (s : Shared D) → (interfere l s).written ≡ s.written
  interfere-written [] s = refl
  interfere-written (none ∷ rest) s = refl
  interfere-written (some x ∷ rest) s = refl

  pub Was-replace_in :
      (ns : String) (o : Object D) (b : Bool) (x : Option D) (s : Shared D) (ns' n' : String)
      (v : ℕ) (d : D)
      → Was s ns' n' v d
      → Was (replace_in ns o b x s).1 ns' n' v d
  Was-replace_in ns o b none s ns' n' v d was = was
  Was-replace_in ns o true (some e) s ns' n' v d was = Was-put s ns o.name o.content ns' n' v d was
  Was-replace_in ns o false (some e) s ns' n' v d was = was

  ok_inj : {o o' : Object D} → ◌≡◌ {A = Reply (Object D)} (ok o) (ok o') → o ≡ o'
  ok_inj e = cc

  pub Was-object_of :
      (s : Shared D) (ns n : String) (v : ℕ) (x : Option D) (o : Object D)
      → get_elem? (s.past ns n) v ≡ x
      → object_of ns n v x ≡ ok o
      → (o.namespace ≡ ns) × (o.name ≡ n) × Was s ns n o.version o.content
  Was-object_of s ns n v none o at e = cc
  Was-object_of s ns n v (some d) o at e =
      subst (λ o. (o.namespace ≡ ns) × (o.name ≡ n) × Was s ns n o.version o.content) (ok_inj e)
        (refl, refl, at)

  pub create_in-written :
      (ns : String) (o : Object D) (x : Option D) (s : Shared D)
      → ((create_in ns o x s).1.written ≡ s.written)
        ⊎ ((create_in ns o x s).1.written ≡ created ns o.name o.content ∷ s.written)
  create_in-written ns o none s = inr refl
  create_in-written ns o (some d) s = inl refl

  pub replace_in-written :
      (ns : String) (o : Object D) (b : Bool) (x : Option D) (s : Shared D)
      → get_elem? (s.past ns o.name) o.version ≡ x
      → (((replace_in ns o b x s).1.written ≡ s.written)
          × (error_of (replace_in ns o b x s).0 ≢ none))
        ⊎ ((d : D) × Was (replace_in ns o b x s).1 ns o.name o.version d
            × ((replace_in ns o b x s).1.written ≡ replaced ns o.name d o.content ∷ s.written))
  replace_in-written ns o b none s at = inl (refl, λ e. some≢none e)
  replace_in-written ns o true (some d) s at =
      inr (d, Was-put s ns o.name o.content ns o.name o.version d at, refl)
  replace_in-written ns o false (some d) s at = inl (refl, λ e. some≢none e)

  abbrev pub shared_client-IsVersioned : IsVersioned shared_client
  shared_client-IsVersioned = record {
    Was = Was;
    journal = λ s. s.written;
    Was-unique = λ s ns n v d e at at'. some_inj (sym at ∙ at');
    Was-update = λ s ns o ns' n' v d was.
        let t = rival s in
        Was-replace_in ns o (nat_eq (newest (t.past ns o.name)) o.version)
          (get_elem? (t.past ns o.name) o.version) t ns' n' v d
          (Was-interfere s.rivals s ns' n' v d was);
    get_was = λ s ns n o e. Was-object_of (rival s) ns n (newest ((rival s).past ns n)) _ o refl e;
    get_reads = λ s ns n. interfere-written s.rivals s;
    create_writes = λ s ns o.
        let t = rival s in
        let same = interfere-written s.rivals s in
        subst
          (λ l.
            ((shared_client.create ns o s).1.written ≡ l)
            ⊎ ((shared_client.create ns o s).1.written ≡ created ns o.name o.content ∷ l))
          same
          (create_in-written ns o (get_elem? (t.past ns o.name) (newest (t.past ns o.name))) t);
    update_writes = λ s ns o.
        let t = rival s in
        let u = (shared_client.update ns o s).1 in
        subst
          (λ l.
            ((u.written ≡ l) × (error_of (shared_client.update ns o s).0 ≢ none))
            ⊎ ((d : D) × Was u ns o.name o.version d
                × (u.written ≡ replaced ns o.name d o.content ∷ l)))
          (interfere-written s.rivals s)
          (replace_in-written ns o (nat_eq (newest (t.past ns o.name)) o.version)
            (get_elem? (t.past ns o.name) o.version) t refl);
  }

-- ===== src/Kube/Api.antt =====
-- One kind of resource of the Kubernetes API server, as the clients of client-go give it.
use canary_gate.Prelude.{
  ℕ, String, ◌≡◌, refl, Bool, true, false, ◌&&◌, Option, none, some, ◌==◌, text_tests, eq_refl,
  if◌then◌else◌, ◌⊎◌, inl, inr,
}
use canary_gate.Runtime.Exec.{Exec, done}

-- An error of a call. All but `other` are of the type `*StatusError`: an API server that cannot be
-- reached, or an object that cannot be converted, gives `other`.
pub data ApiError : Type 0 where
  not_found conflict already_exists : ApiError
  status other : String → ApiError

pub data Reply {ℓ} (A : Type ℓ) : Type ℓ where
  ok : A → Reply A
  err : ApiError → Reply A

-- `k8serrors.IsNotFound`
abbrev pub is_not_found : ApiError → Bool
is_not_found not_found = true
is_not_found _ = false

-- `err.(*k8serrors.StatusError)`
abbrev pub is_status_error : ApiError → Bool
is_status_error (other message) = false
is_status_error _ = true

abbrev pub error_of {ℓ} : {A : Type ℓ} → Reply A → Option ApiError
error_of (ok a) = none
error_of (err e) = some e

pub Reply-cases {ℓ} :
    {A : Type ℓ} (r : Reply A) → ((a : A) × (r ≡ ok a)) ⊎ ((e : ApiError) × (r ≡ err e))
Reply-cases (ok a) = inl (a, refl)
Reply-cases (err e) = inr (e, refl)

-- An object is its metadata and its content.
pub record Object (D : Type 0) : Type 0 where
  pub namespace : String
  pub name : String
  pub version : ℕ
  pub content : D

-- The calls on one kind of resource. `S` is the state of the world that they read and change, what
-- other clients do to the server included. A call does not panic.
pub record Resource (S D : Type 0) : Type 0 where
  pub get : String → String → S → Reply (Object D) × S
  pub create : String → Object D → S → Reply (Object D) × S
  pub update : String → Object D → S → Reply (Object D) × S

-- A call as an action.
abbrev pub call : {S A : Type 0} → (S → A × S) → Exec S A
call f s = (done (f s).0, (f s).1)

-- The same place in the server.
abbrev pub same : String → String → String → String → Bool
same ns n ns' n' = (ns == ns') && (n == n')

pub same-true : (ns n ns' n' : String) → same ns n ns' n' ≡ true → (ns ≡ ns') × (n ≡ n')
same-true ns n ns' n' h = grind text_tests

pub same_self : (ns n : String) → same ns n ns n ≡ true
same_self ns n = rw (eq_refl ns, eq_refl n) refl

-- What the server documents, while it can be reached and no other client writes: `get` reads what is
-- stored, `create` stores a new object, and `update` replaces one of the same version. Both set the
-- namespace and a new version.
pub record IsReliable {S D : Type 0} (r : Resource S D) : Type 0 where
  pub stored : S → String → String → Option (Object D)
  pub next_version : S → ℕ
  pub stored_at :
      (s : S) (ns n : String) (o : Object D)
      → stored s ns n ≡ some o
      → (o.namespace ≡ ns) × (o.name ≡ n)
  pub get_stored :
      (s : S) (ns n : String) (o : Object D) → stored s ns n ≡ some o → r.get ns n s ≡ (ok o, s)
  pub get_missing :
      (s : S) (ns n : String) → stored s ns n ≡ none → r.get ns n s ≡ (err not_found, s)
  pub create_accepted :
      (s : S) (ns : String) (o : Object D)
      → stored s ns o.name ≡ none
      → error_of (r.create ns o s).0 ≡ none
  pub create_stored :
      (s : S) (ns : String) (o : Object D)
      → stored s ns o.name ≡ none
      → (ns' n' : String)
      → stored (r.create ns o s).1 ns' n' ≡ (
          if same ns o.name ns' n'
          then some (record o { namespace = ns; version = next_version s })
          else stored s ns' n')
  pub update_accepted :
      (s : S) (ns : String) (o old : Object D)
      → stored s ns o.name ≡ some old
      → o.version ≡ old.version
      → error_of (r.update ns o s).0 ≡ none
  pub update_stored :
      (s : S) (ns : String) (o old : Object D)
      → stored s ns o.name ≡ some old
      → o.version ≡ old.version
      → (ns' n' : String)
      → stored (r.update ns o s).1 ns' n' ≡ (
          if same ns o.name ns' n'
          then some (record o { namespace = ns; version = next_version s })
          else stored s ns' n')

-- What the server documents of objects that are there already, while it can be reached and no other
-- client writes: `get` reads what is stored, and `update` replaces an object of the same version by one
-- that keeps what the schema of the kind asks for, `Keeps`. Nothing is said of `create`.
pub record IsServing {S D : Type 0} (r : Resource S D) (Keeps : D → D → Type 0) : Type 0 where
  pub stored : S → String → String → Option (Object D)
  pub next_version : S → ℕ
  pub stored_at :
      (s : S) (ns n : String) (o : Object D)
      → stored s ns n ≡ some o
      → (o.namespace ≡ ns) × (o.name ≡ n)
  pub get_stored :
      (s : S) (ns n : String) (o : Object D) → stored s ns n ≡ some o → r.get ns n s ≡ (ok o, s)
  pub update_accepted :
      (s : S) (ns : String) (o old : Object D)
      → stored s ns o.name ≡ some old
      → o.version ≡ old.version
      → Keeps old.content o.content
      → error_of (r.update ns o s).0 ≡ none
  pub update_stored :
      (s : S) (ns : String) (o old : Object D)
      → stored s ns o.name ≡ some old
      → o.version ≡ old.version
      → Keeps old.content o.content
      → (ns' n' : String)
      → stored (r.update ns o s).1 ns' n' ≡ (
          if same ns o.name ns' n'
          then some (record o { namespace = ns; version = next_version s })
          else stored s ns' n')

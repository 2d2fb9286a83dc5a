-- ===== src/Kube/Journal.antt =====
-- What a client writes to the API server while other clients read and write it too.
use canary_gate.Prelude.{
  ℕ, zero, suc, String, ◌≡◌, ◌≢◌, sym, subst, refl, Option, none, some, List, ◌∷◌, ◌⊎◌, inl, inr,
}
use canary_gate.Runtime.Exec.{Exec, Outcome, done, panic}
use canary_gate.Runtime.Safe.{Safe, Keeps, Any}
use canary_gate.Kube.Api.{ApiError, Reply, ok, err, Object, Resource, conflict, call, error_of}
use canary_gate.Kube.Retry.{Retry, IsBounded, attempts, again}

-- A write that the server has accepted: the namespace and the name of the object, and what it held
-- just before and holds just after.
pub data Change (D : Type 0) : Type 0 where
  created : String → String → D → Change D
  replaced : String → String → D → D → Change D

-- Writes of a kind are added to a journal, the newest first.
pub data Grew {D : Type 0} (P : Change D → Type 0)
    : List (Change D) → List (Change D) → Type 0 where
  unchanged : (l : List (Change D)) → Grew P l l
  wrote : (l l' : List (Change D)) (c : Change D) → Grew P l l' → P c → Grew P l (c ∷ l')

module _ {D : Type 0} {P : Change D → Type 0} where
  pub Grew-trans : (l l' l'' : List (Change D)) → Grew P l l' → Grew P l' l'' → Grew P l l''
  Grew-trans l _ _ g (unchanged l') = g
  Grew-trans l l' _ g (wrote _ l'' c h p) = wrote l l'' c (Grew-trans l l' l'' g h) p

  pub Grew-weaken :
      {Q : Change D → Type 0} (l l' : List (Change D))
      → ((c : Change D) → P c → Q c)
      → Grew P l l'
      → Grew Q l l'
  Grew-weaken l _ w (unchanged _) = unchanged l
  Grew-weaken l _ w (wrote _ l' c g p) = wrote l l' c (Grew-weaken l l' w g) (w c p)

-- What the server documents of the writes of one client, whatever other clients write before and during
-- a call. A version stands for one content of an object for ever: `Was s ns n v d` says that until `s`
-- the object was `d` at the version `v`. `get` gives an object with the version that it was read at, and
-- an `update` is accepted, if at all, while the object is still at the version that is sent. One that is
-- not accepted gives an error; one that gives an error may have been accepted.
pub record IsVersioned {S D : Type 0} (r : Resource S D) : Type 1 where
  pub Was : S → String → String → ℕ → D → Type 0
  pub journal : S → List (Change D)
  pub Was-unique :
      (s : S) (ns n : String) (v : ℕ) (d e : D) → Was s ns n v d → Was s ns n v e → d ≡ e
  pub Was-update :
      (s : S) (ns : String) (o : Object D) (ns' n' : String) (v : ℕ) (d : D)
      → Was s ns' n' v d
      → Was (r.update ns o s).1 ns' n' v d
  pub get_was :
      (s : S) (ns n : String) (o : Object D)
      → (r.get ns n s).0 ≡ ok o
      → (o.namespace ≡ ns) × (o.name ≡ n) × Was (r.get ns n s).1 ns n o.version o.content
  pub get_reads : (s : S) (ns n : String) → journal (r.get ns n s).1 ≡ journal s
  pub create_writes :
      (s : S) (ns : String) (o : Object D)
      → (journal (r.create ns o s).1 ≡ journal s)
        ⊎ (journal (r.create ns o s).1 ≡ created ns o.name o.content ∷ journal s)
  pub update_writes :
      (s : S) (ns : String) (o : Object D)
      → ((journal (r.update ns o s).1 ≡ journal s) × (error_of (r.update ns o s).0 ≢ none))
        ⊎ ((d : D) × Was (r.update ns o s).1 ns o.name o.version d
            × (journal (r.update ns o s).1 ≡ replaced ns o.name d o.content ∷ journal s))

module _ {S D : Type 0} (r : Resource S D) (ver : IsVersioned r) (P : Change D → Type 0)
    (l : List (Change D)) where
  -- Since the journal was `l`, the client has only made writes of the kind `P`.
  abbrev pub Wrote : S → Type 0
  Wrote s = Grew P l (ver.journal s)

  -- The object that was read is at its place, and was what its version stands for.
  abbrev pub Read : String → String → Object D → S → Type 0
  Read ns n o t = (o.namespace ≡ ns) × (o.name ≡ n) × ver.Was t ns n o.version o.content

  abbrev pub Got : String → String → Reply (Object D) → S → Type 0
  Got ns n (ok o) t = Read ns n o t
  Got ns n (err e) t = Unit {0}

  Got-reply :
      (s : S) (ns n : String) (x : Reply (Object D))
      → (r.get ns n s).0 ≡ x
      → Got ns n x (r.get ns n s).1
  Got-reply s ns n (ok o) e = ver.get_was s ns n o e
  Got-reply s ns n (err x) e = tt

  pub Keeps-get : (ns n : String) → Keeps Wrote (Got ns n) (call (r.get ns n))
  Keeps-get ns n s w =
      (subst (Grew P l) (sym (ver.get_reads s ns n)) w, Got-reply s ns n (r.get ns n s).0 refl)

  pub Keeps-create :
      (ns : String) (o : Object D)
      → P (created ns o.name o.content)
      → Keeps Wrote Any (call (r.create ns o))
  Keeps-create ns o p s w = elim (ver.create_writes s ns o) [
    | inl same ↦ (subst (Grew P l) (sym same) w, tt)
    | inr more ↦ (subst (Grew P l) (sym more) (wrote l _ _ w p), tt)
  ]

  -- An update of what an object was at its version.
  pub Keeps-update :
      (s : S) (ns : String) (o : Object D) (d : D)
      → ver.Was s ns o.name o.version d
      → P (replaced ns o.name d o.content)
      → Wrote s
      → Safe Wrote Any (call (r.update ns o) s)
  Keeps-update s ns o d was p w = elim (ver.update_writes s ns o) [
    | inl (same, failed) ↦ (subst (Grew P l) (sym same) w, tt)
    | inr (e, was', more) ↦
        let same : d ≡ e =
          ver.Was-unique _ ns o.name o.version d e (ver.Was-update s ns o ns o.name o.version d was)
            was' in
        (
          subst (Grew P l) (sym more)
              (wrote l _ _ w (subst (λ x. P (replaced ns o.name x o.content)) same p)),
          tt,
        )
  ]

module _ {S : Type 0} (I : S → Type 0) (Q : Option ApiError → S → Type 0) where
  Safe-again :
      (x : Outcome (Option ApiError) × S) (next : Exec S (Option ApiError))
      → Safe I Q x
      → Keeps I Q next
      → Safe I Q (again x next)
  Safe-again (done none, s) next safe keeps = safe
  Safe-again (done (some conflict), s) next safe keeps = keeps s safe.0
  Safe-again (done (some e), s) next safe keeps = safe
  Safe-again (panic p, s) next safe keeps = safe

  Keeps-attempts : (n : ℕ) (m : Exec S (Option ApiError)) → Keeps I Q m → Keeps I Q (attempts n m)
  unfolding attempts
  Keeps-attempts zero m keeps s i = keeps s i
  Keeps-attempts (suc n) m keeps s i =
      Safe-again (m s) (attempts n m) (keeps s i) (Keeps-attempts n m keeps)

  pub Keeps-on_conflict :
      (r : Retry S) (b : IsBounded r) (m : Exec S (Option ApiError))
      → Keeps I Q m
      → Keeps I Q (r.on_conflict m)
  Keeps-on_conflict r b m keeps s i =
      subst (Safe I Q) (sym (b.runs m s)) (Keeps-attempts b.more m keeps s i)

-- ===== src/Runtime/Dict.antt =====
-- Go's `map[string]V` and `sync.Map` with texts for keys. The code never depends on the order in
-- which a map is walked, so an association list with one entry a key stands for it.
use canary_gate.Prelude.{
  String, ◌≡◌, refl, Option, none, some, List, [], ◌∷◌, text_tests, ◌==◌, eq_refl, if◌then◌else◌,
}

abbrev pub Dict {ℓ} : Type ℓ → Type ℓ
Dict V = List (String × V)

module _ {ℓ} {V : Type ℓ} where
  unfoldable pub lookup : Dict V → String → Option V
  lookup [] k = none
  lookup ((j, v) ∷ d) k = if j == k then some v else lookup d k

  unfoldable pub insert : Dict V → String → V → Dict V
  insert [] k v = (k, v) ∷ []
  insert ((j, w) ∷ d) k v = if j == k then (k, v) ∷ d else (j, w) ∷ insert d k v

  pub lookup-insert :
      (d : Dict V) (k j : String) (v : V)
      → lookup (insert d k v) j ≡ (if k == j then some v else lookup d j)
  unfolding lookup insert
  lookup-insert [] k j v = refl
  lookup-insert ((i, w) ∷ d) k j v = grind (text_tests, lookup-insert d k j v)

  pub lookup-insert_self : (d : Dict V) (k : String) (v : V) → lookup (insert d k v) k ≡ some v
  lookup-insert_self d k v = simp (lookup-insert, eq_refl)

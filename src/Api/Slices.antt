-- ===== src/Api/Slices.antt =====
-- Deep copies of slices and through pointers, which may be nil.
use canary_gate.Prelude.{
  ◌≡◌, refl, sym, ap, ap₂, subst, ◌∙◌, Option, none, some, List, [], ◌∷◌, ◌⊎◌, inl, inr,
}
use canary_gate.Api.Copies.{Copy, Heap, Layout, IsDeep, IsLive, IsLive-later}

-- A pointer to an object, or a slice with its array: nil, or a cell and what is in it.
abbrev pub Pointer : Type 0 → Type 0 → Type 0
Pointer Loc A = Option (Loc × A)

module _ {H : Type 0} where
  -- `for i := range *in { (*in)[i].DeepCopyInto(&(*out)[i]) }`
  unfoldable pub slice_copy : {A : Type 0} → Copy H A → Copy H (List A)
  slice_copy copy [] h = ([], h)
  slice_copy copy (x ∷ xs) h =
      let (a, h') = copy x h in let (rest, h'') = slice_copy copy xs h' in (a ∷ rest, h'')

  -- Nil is copied to nil. For what a pointer or a slice leads to, `new` or `make` allocates a cell, and
  -- then what is in the cell of the original is copied into it.
  unfoldable pub nil_copy : {Loc A : Type 0} → (H → Loc × H) → Copy H A → Copy H (Pointer Loc A)
  nil_copy allocate copy none h = (none, h)
  nil_copy allocate copy (some (l, x)) h =
      let (l', h') = allocate h in let (a, h'') = copy x h' in (some (l', a), h'')

module _ {H A : Type 0} (heap : Heap H) (lay : Layout heap A) where
  abbrev pub slice_value : H → List A → List lay.Value
  slice_value h [] = []
  slice_value h (x ∷ xs) = lay.value h x ∷ slice_value h xs

  abbrev pub SliceCell : H → List A → heap.Loc → Type 0
  SliceCell h [] l = ⊥
  SliceCell h (x ∷ xs) l = lay.Cell h x l ⊎ SliceCell h xs l

  pub slice_value_stays :
      (h h' : H) (xs : List A)
      → heap.Extends h h'
      → ((l : heap.Loc) → SliceCell h xs l → heap.Live h l)
      → slice_value h' xs ≡ slice_value h xs
  slice_value_stays h h' [] more live = refl
  slice_value_stays h h' (x ∷ xs) more live =
      ap₂ (λ v vs. v ∷ vs) (lay.value_stays h h' x more (λ l c. live l (inl c)))
        (slice_value_stays h h' xs more (λ l c. live l (inr c)))

  pub slice_cells_stay :
      (h h' : H) (xs : List A)
      → heap.Extends h h'
      → ((l : heap.Loc) → SliceCell h xs l → heap.Live h l)
      → (l : heap.Loc) → SliceCell h' xs l
      → SliceCell h xs l
  slice_cells_stay h h' [] more live l cell = cell
  slice_cells_stay h h' (x ∷ xs) more live l (inl c) =
      inl (lay.cells_stay h h' x more (λ l c. live l (inl c)) l c)
  slice_cells_stay h h' (x ∷ xs) more live l (inr c) =
      inr (slice_cells_stay h h' xs more (λ l c. live l (inr c)) l c)

  abbrev pub slice : Layout heap (List A)
  slice = record {
    Value = List lay.Value;
    value = slice_value;
    Cell = SliceCell;
    value_stays = slice_value_stays;
    cells_stay = slice_cells_stay;
  }

  module _ (copy : Copy H A) (deep : IsDeep heap lay copy) where
    slice_grows : (xs : List A) (h : H) → heap.Extends h (slice_copy copy xs h).1
    unfolding slice_copy
    slice_grows [] h = heap.extends_refl h
    slice_grows (x ∷ xs) h =
        heap.extends_trans h (copy x h).1 _ (deep.grows x h) (slice_grows xs (copy x h).1)

    slice_same_value :
        (xs : List A) (h : H)
        → IsLive heap slice h xs
        → slice_value (slice_copy copy xs h).1 (slice_copy copy xs h).0 ≡ slice_value h xs
    unfolding slice_copy
    slice_same_value [] h live = refl
    slice_same_value (x ∷ xs) h live =
        let h' = (copy x h).1 in
        let rest : IsLive heap slice h xs = λ l c. live l (inr c) in
        ap₂ (λ v vs. v ∷ vs)
          (lay.value_stays h' _ (copy x h).0 (slice_grows xs h') (deep.copy_live x h)
            ∙ deep.same_value x h (λ l c. live l (inl c)))
          (slice_same_value xs h' (IsLive-later heap slice h h' xs (deep.grows x h) rest)
            ∙ slice_value_stays h h' xs (deep.grows x h) rest)

    slice_copy-IsLive :
        (xs : List A) (h : H) → IsLive heap slice (slice_copy copy xs h).1 (slice_copy copy xs h).0
    unfolding slice_copy
    slice_copy-IsLive [] h l cell = absurd cell
    slice_copy-IsLive (x ∷ xs) h l (inl c) =
        IsLive-later heap lay (copy x h).1 _ (copy x h).0 (slice_grows xs (copy x h).1)
          (deep.copy_live x h) l c
    slice_copy-IsLive (x ∷ xs) h l (inr c) = slice_copy-IsLive xs (copy x h).1 l c

    slice_fresh :
        (xs : List A) (h : H) (l : heap.Loc)
        → SliceCell (slice_copy copy xs h).1 (slice_copy copy xs h).0 l
        → heap.Live h l
        → ⊥
    unfolding slice_copy
    slice_fresh [] h l cell was = cell
    slice_fresh (x ∷ xs) h l (inl c) was =
        deep.fresh x h l
          (lay.cells_stay (copy x h).1 _ (copy x h).0 (slice_grows xs (copy x h).1)
            (deep.copy_live x h) l c)
          was
    slice_fresh (x ∷ xs) h l (inr c) was =
        slice_fresh xs (copy x h).1 l c (heap.live h (copy x h).1 l (deep.grows x h) was)

    pub slice_copy-IsDeep : IsDeep heap slice (slice_copy copy)
    slice_copy-IsDeep = record {
      grows = slice_grows;
      same_value = slice_same_value;
      copy_live = slice_copy-IsLive;
      fresh = slice_fresh;
    }

  abbrev pub nil_value : H → Pointer heap.Loc A → Option lay.Value
  nil_value h none = none
  nil_value h (some (p, x)) = some (lay.value h x)

  -- The cell that is pointed to, and the cells that are reached from it.
  abbrev pub NilCell : H → Pointer heap.Loc A → heap.Loc → Type 0
  NilCell h none l = ⊥
  NilCell h (some (p, x)) l = (l ≡ p) ⊎ lay.Cell h x l

  pub nil_value_stays :
      (h h' : H) (x : Pointer heap.Loc A)
      → heap.Extends h h'
      → ((l : heap.Loc) → NilCell h x l → heap.Live h l)
      → nil_value h' x ≡ nil_value h x
  nil_value_stays h h' none more live = refl
  nil_value_stays h h' (some (p, x)) more live =
      ap (λ v. some v) (lay.value_stays h h' x more (λ l c. live l (inr c)))

  pub nil_cells_stay :
      (h h' : H) (x : Pointer heap.Loc A)
      → heap.Extends h h'
      → ((l : heap.Loc) → NilCell h x l → heap.Live h l)
      → (l : heap.Loc) → NilCell h' x l
      → NilCell h x l
  nil_cells_stay h h' none more live l cell = cell
  nil_cells_stay h h' (some (p, x)) more live l (inl e) = inl e
  nil_cells_stay h h' (some (p, x)) more live l (inr c) =
      inr (lay.cells_stay h h' x more (λ l c. live l (inr c)) l c)

  abbrev pub or_nil : Layout heap (Pointer heap.Loc A)
  or_nil = record {
    Value = Option lay.Value;
    value = nil_value;
    Cell = NilCell;
    value_stays = nil_value_stays;
    cells_stay = nil_cells_stay;
  }

  module _ (copy : Copy H A) (deep : IsDeep heap lay copy) where
    abbrev copy_pointer : Copy H (Pointer heap.Loc A)
    copy_pointer = nil_copy heap.allocate copy

    nil_grows : (x : Pointer heap.Loc A) (h : H) → heap.Extends h (copy_pointer x h).1
    unfolding nil_copy
    nil_grows none h = heap.extends_refl h
    nil_grows (some (p, x)) h =
        heap.extends_trans h (heap.allocate h).1 _ (heap.allocate_extends h)
          (deep.grows x (heap.allocate h).1)

    nil_same_value :
        (x : Pointer heap.Loc A) (h : H)
        → IsLive heap or_nil h x
        → nil_value (copy_pointer x h).1 (copy_pointer x h).0 ≡ nil_value h x
    unfolding nil_copy
    nil_same_value none h live = refl
    nil_same_value (some (p, x)) h live =
        let h' = (heap.allocate h).1 in
        let more = heap.allocate_extends h in
        let reached : IsLive heap lay h x = λ l c. live l (inr c) in
        ap (λ v. some v)
          (deep.same_value x h' (IsLive-later heap lay h h' x more reached)
            ∙ lay.value_stays h h' x more reached)

    nil_copy-IsLive :
        (x : Pointer heap.Loc A) (h : H)
        → IsLive heap or_nil (copy_pointer x h).1 (copy_pointer x h).0
    unfolding nil_copy
    nil_copy-IsLive none h l cell = absurd cell
    nil_copy-IsLive (some (p, x)) h l (inl e) =
        let h' = (heap.allocate h).1 in
        heap.live h' (copy x h').1 l (deep.grows x h')
          (subst (heap.Live h') (sym e) (heap.allocate_live h))
    nil_copy-IsLive (some (p, x)) h l (inr c) = deep.copy_live x (heap.allocate h).1 l c

    nil_fresh :
        (x : Pointer heap.Loc A) (h : H) (l : heap.Loc)
        → NilCell (copy_pointer x h).1 (copy_pointer x h).0 l
        → heap.Live h l
        → ⊥
    unfolding nil_copy
    nil_fresh none h l cell was = cell
    nil_fresh (some (p, x)) h l (inl e) was = heap.allocate_fresh h (subst (heap.Live h) e was)
    nil_fresh (some (p, x)) h l (inr c) was =
        let h' = (heap.allocate h).1 in
        deep.fresh x h' l c (heap.live h h' l (heap.allocate_extends h) was)

    pub nil_copy-IsDeep : IsDeep heap or_nil copy_pointer
    nil_copy-IsDeep = record {
      grows = nil_grows;
      same_value = nil_same_value;
      copy_live = nil_copy-IsLive;
      fresh = nil_fresh;
    }

-- ===== src/Api/Copies.antt =====
-- Deep copies: what it means that a copy has the value of the original and shares no memory with it.
use canary_gate.Prelude.{◌≡◌, refl, sym, ap₂, ◌∙◌, subst, ◌⊎◌, inl, inr}

-- `in.DeepCopyInto(&out)`: what `out` holds after it, and the heap.
abbrev pub Copy : Type 0 → Type 0 → Type 0
Copy H A = A → H → A × H

-- A heap: the cells that are allocated, what allocation does to it, and the allocation of one cell, which
-- was not allocated before.
pub record Heap (H : Type 0) : Type 1 where
  pub Loc : Type 0
  pub Live : H → Loc → Type 0
  pub Extends : H → H → Type 0
  pub extends_refl : (h : H) → Extends h h
  pub extends_trans : (h h' h'' : H) → Extends h h' → Extends h' h'' → Extends h h''
  pub live : (h h' : H) (l : Loc) → Extends h h' → Live h l → Live h' l
  pub allocate : H → Loc × H
  pub allocate_extends : (h : H) → Extends h (allocate h).1
  pub allocate_live : (h : H) → Live (allocate h).1 (allocate h).0
  pub allocate_fresh : (h : H) → Live h (allocate h).0 → ⊥

module _ {H : Type 0} (heap : Heap H) where
  -- How objects lie in the heap: what their value is, and by which cells it is reached. What is
  -- allocated later changes neither.
  pub record Layout (A : Type 0) : Type 1 where
    pub Value : Type 0
    pub value : H → A → Value
    pub Cell : H → A → heap.Loc → Type 0
    pub value_stays :
        (h h' : H) (a : A)
        → heap.Extends h h'
        → ((l : heap.Loc) → Cell h a l → heap.Live h l)
        → value h' a ≡ value h a
    pub cells_stay :
        (h h' : H) (a : A)
        → heap.Extends h h'
        → ((l : heap.Loc) → Cell h a l → heap.Live h l)
        → (l : heap.Loc) → Cell h' a l
        → Cell h a l

  module _ {A : Type 0} (lay : Layout A) where
    abbrev pub IsLive : H → A → Type 0
    IsLive h a = (l : heap.Loc) → lay.Cell h a l → heap.Live h l

    -- Only cells are allocated, the value is that of the original, and every cell of the copy is new.
    pub record IsDeep (copy : Copy H A) : Type 0 where
      pub grows : (a : A) (h : H) → heap.Extends h (copy a h).1
      pub same_value :
          (a : A) (h : H) → IsLive h a → lay.value (copy a h).1 (copy a h).0 ≡ lay.value h a
      pub copy_live : (a : A) (h : H) → IsLive (copy a h).1 (copy a h).0
      pub fresh :
          (a : A) (h : H) (l : heap.Loc) → lay.Cell (copy a h).1 (copy a h).0 l → heap.Live h l → ⊥

    pub IsLive-later : (h h' : H) (a : A) → heap.Extends h h' → IsLive h a → IsLive h' a
    IsLive-later h h' a more live l cell =
        heap.live h h' l more (live l (lay.cells_stay h h' a more live l cell))

  -- What has no pointers.
  abbrev pub plain : (R : Type 0) → Layout R
  plain R = record {
    Value = R;
    value = λ h r. r;
    Cell = λ h r l. ⊥;
    value_stays = λ h h' r more live. refl;
    cells_stay = λ h h' r more live l cell. cell;
  }

  abbrev pub plain_copy : {R : Type 0} → Copy H R
  plain_copy r h = (r, h)

  pub plain-IsDeep : (R : Type 0) → IsDeep (plain R) plain_copy
  plain-IsDeep R = record {
    grows = λ r h. heap.extends_refl h;
    same_value = λ r h live. refl;
    copy_live = λ r h l cell. absurd cell;
    fresh = λ r h l cell was. cell;
  }

  module _ {A B : Type 0} (lay : Layout A) (lay' : Layout B) where
    abbrev pub pair : Layout (A × B)
    pair = record {
      Value = lay.Value × lay'.Value;
      value = λ h x. (lay.value h x.0, lay'.value h x.1);
      Cell = λ h x l. lay.Cell h x.0 l ⊎ lay'.Cell h x.1 l;
      value_stays = λ h h' x more live.
          ap₂ (λ v w. (v, w)) (lay.value_stays h h' x.0 more (λ l c. live l (inl c)))
            (lay'.value_stays h h' x.1 more (λ l c. live l (inr c)));
      cells_stay = λ h h' x more live l cell. elim cell [
        | inl c ↦ inl (lay.cells_stay h h' x.0 more (λ l c. live l (inl c)) l c)
        | inr c ↦ inr (lay'.cells_stay h h' x.1 more (λ l c. live l (inr c)) l c)
      ];
    }

    -- One after the other.
    abbrev pub pair_copy : Copy H A → Copy H B → Copy H (A × B)
    pair_copy copy copy' x h =
        let (a, h') = copy x.0 h in let (b, h'') = copy' x.1 h' in ((a, b), h'')

    pub pair-IsDeep :
        (copy : Copy H A) (copy' : Copy H B)
        → IsDeep lay copy
        → IsDeep lay' copy'
        → IsDeep pair (pair_copy copy copy')
    pair-IsDeep copy copy' deep deep' = record {
      grows = λ x h.
          heap.extends_trans h (copy x.0 h).1 _ (deep.grows x.0 h) (deep'.grows x.1 (copy x.0 h).1);
      same_value = λ x h live.
          let h' = (copy x.0 h).1 in
          let more = deep.grows x.0 h in
          ap₂ (λ v w. (v, w))
            (lay.value_stays h' _ (copy x.0 h).0 (deep'.grows x.1 h') (deep.copy_live x.0 h)
              ∙ deep.same_value x.0 h (λ l c. live l (inl c)))
            (deep'.same_value x.1 h' (IsLive-later lay' h h' x.1 more (λ l c. live l (inr c)))
              ∙ lay'.value_stays h h' x.1 more (λ l c. live l (inr c)));
      copy_live = λ x h l cell.
          let h' = (copy x.0 h).1 in
          elim cell [
            | inl c ↦
                IsLive-later lay h' (copy' x.1 h').1 (copy x.0 h).0 (deep'.grows x.1 h')
                  (deep.copy_live x.0 h) l c
            | inr c ↦ deep'.copy_live x.1 h' l c
          ];
      fresh = λ x h l cell was.
          let h' = (copy x.0 h).1 in
          elim cell [
            | inl c ↦
                deep.fresh x.0 h l
                  (lay.cells_stay h' (copy' x.1 h').1 (copy x.0 h).0 (deep'.grows x.1 h')
                    (deep.copy_live x.0 h) l c)
                  was
            | inr c ↦ deep'.fresh x.1 h' l c (heap.live h h' l (deep.grows x.0 h) was)
          ];
    }

  -- An object that is laid out as what it consists of, `parts`, and copied as they are.
  module _ {A G : Type 0} (lay : Layout A) (parts : G → A) where
    abbrev pub laid_as : Layout G
    laid_as = record {
      Value = lay.Value;
      value = λ h g. lay.value h (parts g);
      Cell = λ h g l. lay.Cell h (parts g) l;
      value_stays = λ h h' g more live. lay.value_stays h h' (parts g) more live;
      cells_stay = λ h h' g more live l cell. lay.cells_stay h h' (parts g) more live l cell;
    }

    pub laid_as-IsDeep :
        (copy : Copy H A) (copy_whole : Copy H G)
        → ((g : G) (h : H)
            → ◌≡◌ {A = A × H} (parts (copy_whole g h).0, (copy_whole g h).1) (copy (parts g) h))
        → IsDeep lay copy
        → IsDeep laid_as copy_whole
    laid_as-IsDeep copy copy_whole same deep = record {
      grows = λ g h. subst (λ x. heap.Extends h x.1) (sym (same g h)) (deep.grows (parts g) h);
      same_value = λ g h live.
          subst (λ x. lay.value x.1 x.0 ≡ lay.value h (parts g)) (sym (same g h))
            (deep.same_value (parts g) h live);
      copy_live =
          λ g h. subst (λ x. IsLive lay x.1 x.0) (sym (same g h)) (deep.copy_live (parts g) h);
      fresh = λ g h l cell was.
          deep.fresh (parts g) h l (subst (λ x. lay.Cell x.1 x.0 l) (same g h) cell) was;
    }

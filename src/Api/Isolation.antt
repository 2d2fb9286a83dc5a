-- ===== src/Api/Isolation.antt =====
-- The copies of the custom resource share no memory with the original
-- (api/v1alpha1/zz_generated.deepcopy.go).
use canary_gate.Prelude.{String, ◌≡◌, refl, Option, none, some, List}
use canary_gate.Api.{CanaryGate}
use canary_gate.Api.Copies.{
  Copy, Heap, Layout, IsDeep, plain, plain_copy, plain-IsDeep, pair, pair_copy, pair-IsDeep,
  laid_as, laid_as-IsDeep,
}
use canary_gate.Api.Slices.{
  Pointer, slice_copy, nil_copy, slice, or_nil, slice_copy-IsDeep, nil_copy-IsDeep,
}
use canary_gate.Api.DeepCopy.{
  GateResource, CanaryGateList, as_object, gate_deep_copy, gate_deep_copy_object, list_deep_copy,
  list_deep_copy_object, spec_deep_copy_into, gate_deep_copy_into, list_deep_copy_into,
}

as_object_lem : {H A : Type 0} (x : Option A × H) → as_object x ≡ x
as_object_lem (none, h) = refl
as_object_lem (some g, h) = refl

module _ {H : Type 0} (heap : Heap H) where
  as_object-IsDeep :
      {A : Type 0} (lay : Layout heap A) (copy : Copy H A)
      → IsDeep heap lay copy
      → IsDeep heap (or_nil heap lay) (λ x h. as_object (nil_copy heap.allocate copy x h))
  as_object-IsDeep lay copy deep =
      laid_as-IsDeep heap (or_nil heap lay) (λ x. x) (nil_copy heap.allocate copy)
        (λ x h. as_object (nil_copy heap.allocate copy x h))
        (λ x h. as_object_lem (nil_copy heap.allocate copy x h))
        (nil_copy-IsDeep heap lay copy deep)

  -- The layout of a resource: its metadata, its raw Flagger spec, and all the rest, which is plain.
  module _ {M F : Type 0} (meta_layout : Layout heap M) (raw_layout : Layout heap F) where
    abbrev pub Rest : Type 0
    Rest = CanaryGate (Unit {0})

    abbrev pub rest_of : GateResource M F → Rest
    rest_of g = record {
      api_version = g.content.api_version;
      kind = g.content.kind;
      spec = record {
        confirm_rollout = g.content.spec.confirm_rollout;
        pre_rollout = g.content.spec.pre_rollout;
        rollout = g.content.spec.rollout;
        confirm_traffic_increase = g.content.spec.confirm_traffic_increase;
        confirm_promotion = g.content.spec.confirm_promotion;
        post_rollout = g.content.spec.post_rollout;
        rollback = g.content.spec.rollback;
        target = g.content.spec.target;
        flagger = tt;
      };
      status = g.content.status;
    }

    abbrev pub gate_layout : Layout heap (GateResource M F)
    gate_layout =
        laid_as heap (pair heap (pair heap meta_layout raw_layout) (plain heap Rest))
          (λ g. ((g.meta, g.content.spec.flagger), rest_of g))

    module _ {L : Type 0} (list_layout : Layout heap L) where
      abbrev pub items_layout : Layout heap (Pointer heap.Loc (List (GateResource M F)))
      items_layout = or_nil heap (slice heap gate_layout)

      abbrev pub gate_list_layout : Layout heap (CanaryGateList heap.Loc M L F)
      gate_list_layout =
          laid_as heap
            (pair heap (pair heap list_layout items_layout) (plain heap (String × String)))
            (λ g. ((g.list_meta, g.items), (g.api_version, g.kind)))

    module _ (metas : Copy H M) (raws : Copy H F) (meta_deep : IsDeep heap meta_layout metas)
        (raw_deep : IsDeep heap raw_layout raws) where
      gate_deep_copy_into-IsDeep :
          IsDeep heap gate_layout (gate_deep_copy_into heap.allocate raws metas)
      unfolding gate_deep_copy_into spec_deep_copy_into
      gate_deep_copy_into-IsDeep =
          laid_as-IsDeep heap (pair heap (pair heap meta_layout raw_layout) (plain heap Rest))
            (λ g. ((g.meta, g.content.spec.flagger), rest_of g))
            (pair_copy heap (pair heap meta_layout raw_layout) (plain heap Rest)
              (pair_copy heap meta_layout raw_layout metas raws) (plain_copy heap))
            (gate_deep_copy_into heap.allocate raws metas) (λ g h. refl)
            (pair-IsDeep heap (pair heap meta_layout raw_layout) (plain heap Rest)
              (pair_copy heap meta_layout raw_layout metas raws) (plain_copy heap)
              (pair-IsDeep heap meta_layout raw_layout metas raws meta_deep raw_deep)
              (plain-IsDeep heap Rest))

      module _ {L : Type 0} (list_layout : Layout heap L) (list_metas : Copy H L)
          (list_deep : IsDeep heap list_layout list_metas) where
        list_deep_copy_into-IsDeep :
            IsDeep heap
              (gate_list_layout list_layout)
              (list_deep_copy_into heap.allocate raws metas list_metas)
        unfolding list_deep_copy_into
        list_deep_copy_into-IsDeep =
            let items_copy =
              nil_copy heap.allocate (slice_copy (gate_deep_copy_into heap.allocate raws metas)) in
            laid_as-IsDeep heap
              (pair heap (pair heap list_layout (items_layout list_layout))
                (plain heap (String × String)))
              (λ g. ((g.list_meta, g.items), (g.api_version, g.kind)))
              (pair_copy heap (pair heap list_layout (items_layout list_layout))
                (plain heap (String × String))
                (pair_copy heap list_layout (items_layout list_layout) list_metas items_copy)
                (plain_copy heap))
              (list_deep_copy_into heap.allocate raws metas list_metas) (λ g h. refl)
              (pair-IsDeep heap (pair heap list_layout (items_layout list_layout))
                (plain heap (String × String))
                (pair_copy heap list_layout (items_layout list_layout) list_metas items_copy)
                (plain_copy heap)
                (pair-IsDeep heap list_layout (items_layout list_layout) list_metas items_copy
                  list_deep
                  (nil_copy-IsDeep heap (slice heap gate_layout)
                    (slice_copy (gate_deep_copy_into heap.allocate raws metas))
                    (slice_copy-IsDeep heap gate_layout
                      (gate_deep_copy_into heap.allocate raws metas) gate_deep_copy_into-IsDeep)))
                (plain-IsDeep heap (String × String)))

        -- Where the library copies metadata and raw specs deeply, `DeepCopyObject` of a gate and of a
        -- list of gates does: it only allocates, nil is copied to nil, the copy of an allocated object has
        -- the value of that object in every part, and each of these cells of the copy is allocated and
        -- was not allocated before: the cell of the object itself, that of the array of the items, and
        -- every cell by which metadata and raw specs are reached.
        pub gate_objects-IsDeep :
            IsDeep heap (or_nil heap gate_layout) (gate_deep_copy_object heap.allocate raws metas)
            × IsDeep heap
                (or_nil heap (gate_list_layout list_layout))
                (list_deep_copy_object heap.allocate raws metas list_metas)
        unfolding gate_deep_copy_object gate_deep_copy list_deep_copy_object list_deep_copy
        gate_objects-IsDeep = (
          as_object-IsDeep gate_layout (gate_deep_copy_into heap.allocate raws metas)
              gate_deep_copy_into-IsDeep,
          as_object-IsDeep (gate_list_layout list_layout)
              (list_deep_copy_into heap.allocate raws metas list_metas) list_deep_copy_into-IsDeep,
        )

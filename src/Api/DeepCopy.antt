-- ===== src/Api/DeepCopy.antt =====
-- api/v1alpha1/zz_generated.deepcopy.go: the copies of the custom resource. The copies of the metadata
-- and of the raw Flagger spec, which are the library's, are parameters, as is the allocation of a cell for an object or an array.
use canary_gate.Prelude.{String, Option, none, some, List}
use canary_gate.Api.{Target, CanaryGateSpec, CanaryGateStatus, CanaryGate}
use canary_gate.Api.Copies.{Copy}
use canary_gate.Api.Slices.{Pointer, slice_copy, nil_copy}

-- `CanaryGate` with its metadata, and `CanaryGateList`.
pub record GateResource (M F : Type 0) : Type 0 where
  pub meta : M
  pub content : CanaryGate F

pub record CanaryGateList (Loc M L F : Type 0) : Type 0 where
  pub api_version : String
  pub kind : String
  pub list_meta : L
  pub items : Pointer Loc (List (GateResource M F))

-- What `DeepCopy` gives, or a nil interface for a nil pointer.
abbrev pub as_object : {H A : Type 0} → Option A × H → Option A × H
as_object (c, h) = (elim c [ some g ↦ some g | none ↦ none ], h)

module _ {H Loc : Type 0} (allocate : H → Loc × H) where
  -- `*out = *in`
  unfoldable pub target_deep_copy_into : Copy H Target
  target_deep_copy_into in_target h = (in_target, h)

  unfoldable pub status_deep_copy_into : Copy H CanaryGateStatus
  status_deep_copy_into in_status h = (in_status, h)

  unfoldable pub target_deep_copy : Copy H (Pointer Loc Target)
  unfolding target_deep_copy_into
  target_deep_copy = nil_copy allocate target_deep_copy_into

  unfoldable pub status_deep_copy : Copy H (Pointer Loc CanaryGateStatus)
  unfolding status_deep_copy_into
  status_deep_copy = nil_copy allocate status_deep_copy_into

  module _ {F : Type 0} (raws : Copy H F) where
    unfoldable pub spec_deep_copy_into : Copy H (CanaryGateSpec F)
    spec_deep_copy_into in_spec h =
        let (flagger, h') = raws in_spec.flagger h in
        (record in_spec { target = in_spec.target; flagger = flagger }, h')

    unfoldable pub spec_deep_copy : Copy H (Pointer Loc (CanaryGateSpec F))
    spec_deep_copy = nil_copy allocate spec_deep_copy_into

    module _ {M : Type 0} (metas : Copy H M) where
      unfoldable pub gate_deep_copy_into : Copy H (GateResource M F)
      unfolding spec_deep_copy_into
      gate_deep_copy_into in_gate h =
          let (meta, h') = metas in_gate.meta h in
          let (spec, h'') = spec_deep_copy_into in_gate.content.spec h' in
          (
            record {
              meta = meta;
              content = record (in_gate.content) { spec = spec; status = in_gate.content.status };
            },
            h'',
          )

      unfoldable pub gate_deep_copy : Copy H (Pointer Loc (GateResource M F))
      gate_deep_copy = nil_copy allocate gate_deep_copy_into

      unfoldable pub gate_deep_copy_object : Copy H (Pointer Loc (GateResource M F))
      unfolding gate_deep_copy
      gate_deep_copy_object x h = as_object (gate_deep_copy x h)

      module _ {L : Type 0} (list_metas : Copy H L) where
        unfoldable pub list_deep_copy_into : Copy H (CanaryGateList Loc M L F)
        unfolding gate_deep_copy_into
        list_deep_copy_into in_list h =
            let (meta, h') = list_metas in_list.list_meta h in
            let (items, h'') =
              nil_copy allocate (slice_copy gate_deep_copy_into) in_list.items h' in
            (record in_list { list_meta = meta; items = items }, h'')

        unfoldable pub list_deep_copy : Copy H (Pointer Loc (CanaryGateList Loc M L F))
        list_deep_copy = nil_copy allocate list_deep_copy_into

        unfoldable pub list_deep_copy_object : Copy H (Pointer Loc (CanaryGateList Loc M L F))
        unfolding list_deep_copy
        list_deep_copy_object x h = as_object (list_deep_copy x h)

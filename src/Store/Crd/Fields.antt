-- ===== src/Store/Crd/Fields.antt =====
-- The seven gate fields of the spec (the two switches on `key.Type`).
use canary_gate.Prelude.{String, ◌≡◌, ◌≢◌, Option, some, arith, eq_iff}
use canary_gate.Service.{
  HookType, hook_confirm_rollout, hook_pre_rollout, hook_rollout, hook_confirm_traffic_increase,
  hook_post_rollout, hook_confirm_promotion, hook_rollback,
}
use canary_gate.Api.{CanaryGateSpec}
use canary_gate.Store.GateFields.{
  GateField, confirm_rollout, pre_rollout, rollout, confirm_traffic_increase, post_rollout,
  confirm_promotion, rollback, gate_field, set_field, get_field,
}

abbrev pub field_name : GateField → HookType
field_name confirm_rollout = hook_confirm_rollout
field_name pre_rollout = hook_pre_rollout
field_name rollout = hook_rollout
field_name confirm_traffic_increase = hook_confirm_traffic_increase
field_name post_rollout = hook_post_rollout
field_name confirm_promotion = hook_confirm_promotion
field_name rollback = hook_rollback

-- A hook type has a field only if it is the field's name.
pub gate_field-name : (t : HookType) (f : GateField) → gate_field t ≡ some f → t ≡ field_name f
unfolding gate_field
gate_field-name t f e = ground (
  arith,
  eq_iff t hook_confirm_rollout,
  eq_iff t hook_pre_rollout,
  eq_iff t hook_rollout,
  eq_iff t hook_confirm_traffic_increase,
  eq_iff t hook_post_rollout,
  eq_iff t hook_confirm_promotion,
  eq_iff t hook_rollback,
)

module _ {F : Type 0} (spec : CanaryGateSpec F) (v : String) where
  pub set_field-target : (f : Option GateField) → (set_field spec f v).target ≡ spec.target
  unfolding set_field
  set_field-target f = ground arith

  pub set_field-flagger : (f : Option GateField) → (set_field spec f v).flagger ≡ spec.flagger
  unfolding set_field
  set_field-flagger f = ground arith

  pub get_field-set_self : (f : GateField) → get_field (set_field spec (some f) v) (some f) ≡ v
  unfolding get_field set_field
  get_field-set_self f = ground arith

  pub get_field-set_ne :
      (f g : GateField)
      → f ≢ g
      → get_field (set_field spec (some f) v) (some g) ≡ get_field spec (some g)
  unfolding get_field set_field
  get_field-set_ne f g h = ground arith

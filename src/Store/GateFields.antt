-- ===== src/Store/GateFields.antt =====
-- store/canarygate.go: the fields of the spec of a CanaryGate, one for each type of gate.
use canary_gate.Prelude.{String, Option, none, some, ◌==◌, if◌then◌else◌}
use canary_gate.Service.{
  HookType, hook_confirm_rollout, hook_pre_rollout, hook_rollout, hook_confirm_traffic_increase,
  hook_post_rollout, hook_confirm_promotion, hook_rollback,
}
use canary_gate.Api.{CanaryGateSpec}

-- The cases of the two switches on `key.Type`.
pub data GateField : Type 0 where
  confirm_rollout pre_rollout rollout confirm_traffic_increase : GateField
  post_rollout confirm_promotion rollback : GateField

unfoldable pub gate_field : HookType → Option GateField
gate_field t =
    if t == hook_confirm_rollout
    then some confirm_rollout
    else if t == hook_pre_rollout
    then some pre_rollout
    else if t == hook_rollout
    then some rollout
    else if t == hook_confirm_traffic_increase
    then some confirm_traffic_increase
    else if t == hook_post_rollout
    then some post_rollout
    else if t == hook_confirm_promotion
    then some confirm_promotion
    else if t == hook_rollback
    then some rollback
    else none

module _ {F : Type 0} where
  unfoldable pub set_field : CanaryGateSpec F → Option GateField → String → CanaryGateSpec F
  set_field spec none v = spec
  set_field spec (some confirm_rollout) v = record spec { confirm_rollout = v }
  set_field spec (some pre_rollout) v = record spec { pre_rollout = v }
  set_field spec (some rollout) v = record spec { rollout = v }
  set_field spec (some confirm_traffic_increase) v = record spec { confirm_traffic_increase = v }
  set_field spec (some post_rollout) v = record spec { post_rollout = v }
  set_field spec (some confirm_promotion) v = record spec { confirm_promotion = v }
  set_field spec (some rollback) v = record spec { rollback = v }

  unfoldable pub get_field : CanaryGateSpec F → Option GateField → String
  get_field spec none = ""
  get_field spec (some confirm_rollout) = spec.confirm_rollout
  get_field spec (some pre_rollout) = spec.pre_rollout
  get_field spec (some rollout) = spec.rollout
  get_field spec (some confirm_traffic_increase) = spec.confirm_traffic_increase
  get_field spec (some post_rollout) = spec.post_rollout
  get_field spec (some confirm_promotion) = spec.confirm_promotion
  get_field spec (some rollback) = spec.rollback

-- ===== src/Api.antt =====
-- api/v1alpha1/canarygate_types.go: the custom resource. The raw Flagger spec is a parameter `F`.
pub mod Copies
pub mod Slices
pub mod DeepCopy
pub mod Isolation
use canary_gate.Prelude.{String}

pub record Target : Type 0 where
  pub name : String
  pub namespace : String

pub record CanaryGateSpec (F : Type 0) : Type 0 where
  pub confirm_rollout : String
  pub pre_rollout : String
  pub rollout : String
  pub confirm_traffic_increase : String
  pub confirm_promotion : String
  pub post_rollout : String
  pub rollback : String
  pub target : Target
  pub flagger : F

pub record CanaryGateStatus : Type 0 where
  pub name : String
  pub namespace : String
  pub status : String
  pub message : String
  pub target : String

-- The content of a `CanaryGate`, whose metadata stands beside it.
pub record CanaryGate (F : Type 0) : Type 0 where
  pub api_version : String
  pub kind : String
  pub spec : CanaryGateSpec F
  pub status : CanaryGateStatus

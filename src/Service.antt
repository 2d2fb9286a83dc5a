-- ===== src/Service.antt =====
-- service/flagger.go: the hook types and the phases of a Flagger canary, which are Go strings.
use canary_gate.Prelude.{String}

-- A hook type is any text: a request can carry one that is none of the constants.
abbrev pub HookType : Type 0
HookType = String

abbrev pub hook_rollout : HookType
hook_rollout = "rollout"

abbrev pub hook_pre_rollout : HookType
hook_pre_rollout = "pre-rollout"

abbrev pub hook_post_rollout : HookType
hook_post_rollout = "post-rollout"

abbrev pub hook_confirm_rollout : HookType
hook_confirm_rollout = "confirm-rollout"

abbrev pub hook_confirm_promotion : HookType
hook_confirm_promotion = "confirm-promotion"

abbrev pub hook_event : HookType
hook_event = "event"

abbrev pub hook_rollback : HookType
hook_rollback = "rollback"

abbrev pub hook_confirm_traffic_increase : HookType
hook_confirm_traffic_increase = "confirm-traffic-increase"

abbrev pub hook_all : HookType
hook_all = "all"

abbrev pub Phase : Type 0
Phase = String

abbrev pub phase_initializing : Phase
phase_initializing = "Initializing"

abbrev pub phase_initialized : Phase
phase_initialized = "Initialized"

abbrev pub phase_waiting : Phase
phase_waiting = "Waiting"

abbrev pub phase_progressing : Phase
phase_progressing = "Progressing"

abbrev pub phase_waiting_promotion : Phase
phase_waiting_promotion = "WaitingPromotion"

abbrev pub phase_promoting : Phase
phase_promoting = "Promoting"

abbrev pub phase_finalising : Phase
phase_finalising = "Finalising"

abbrev pub phase_succeeded : Phase
phase_succeeded = "Succeeded"

abbrev pub phase_failed : Phase
phase_failed = "Failed"

abbrev pub phase_terminating : Phase
phase_terminating = "Terminating"

abbrev pub phase_terminated : Phase
phase_terminated = "Terminated"

-- The keys of the metadata of a notification.
abbrev pub meta_name : String
meta_name = "name"

abbrev pub meta_namespace : String
meta_namespace = "namespace"

abbrev pub meta_cluster : String
meta_cluster = "cluster"

abbrev pub meta_user : String
meta_user = "user"

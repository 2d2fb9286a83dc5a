-- ===== src/Noti.antt =====
-- noti/: the notification clients.
pub mod Slack
use canary_gate.Prelude.{String, Option, none, [], ◌==◌, if◌then◌else◌}
use canary_gate.Runtime.Dict.{Dict}
use canary_gate.Service.{
  HookType, hook_confirm_promotion, hook_confirm_traffic_increase, hook_confirm_rollout,
  hook_post_rollout, hook_pre_rollout, hook_rollback, hook_rollout,
}

-- The messages that were sent, by channel, or the text of an error.
pub data Sent : Type 0 where
  sent : Dict String → Sent
  failed : String → Sent

-- `noti.Client`, over the state `N` of what it reaches. The error of the other two methods is a text.
pub record NotiClient (N : Type 0) : Type 0 where
  pub send_messages : String → HookType → Dict String → N → Sent × N
  pub update_messages : Dict String → String → String → N → Option String × N
  pub add_file_to_threads : Dict String → String → String → N → Option String × N

unfoldable pub quiet_noti : {N : Type 0} → NotiClient N
quiet_noti = record {
  send_messages = λ text hook meta n. (sent [], n);
  update_messages = λ messages text context n. (none, n);
  add_file_to_threads = λ messages name content n. (none, n);
}

unfoldable pub slack_header : HookType → String
slack_header hook =
    if hook == hook_confirm_promotion
    then "Confirm Promotion"
    else if hook == hook_confirm_traffic_increase
    then "Confirm Traffic Increase"
    else if hook == hook_confirm_rollout
    then "Confirm Rollout"
    else if hook == hook_post_rollout
    then "Post Rollout"
    else if hook == hook_pre_rollout
    then "Pre- ollout"
    else if hook == hook_rollback
    then "Rollback"
    else if hook == hook_rollout
    then "Rollout"
    else "Event"

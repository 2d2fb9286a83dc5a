-- ===== src/Cli/GateCommands.antt =====
-- cli/main.go: the commands below `open`, `close` and `status`.
use canary_gate.Prelude.{String, Bool, true, false, List, [], ◌∷◌}
use canary_gate.Service.{
  hook_rollout, hook_pre_rollout, hook_post_rollout, hook_confirm_rollout, hook_confirm_promotion,
  hook_rollback, hook_confirm_traffic_increase,
}
use canary_gate.Cli.Remote.{Run, Machine}
use canary_gate.Cli.Run.{Flags, Row, run}

abbrev pub open_name : String
open_name = "open"

abbrev pub close_name : String
close_name = "close"

abbrev pub status_name : String
status_name = "status"

-- A command below `open`, `close` or `status`: its action is `run` with the text of the field `action`.
pub record GateCommand : Type 0 where
  pub name : String
  pub usage : String
  pub hidden : Bool
  pub action : String

abbrev pub open_gates : List GateCommand
open_gates =
    record {
      name = hook_confirm_rollout;
      usage = "Enable the rollout of a new version.";
      hidden = false;
      action = open_name;
    }
    ∷ record {
      name = hook_pre_rollout;
      usage = "Allow the canary gate to adavance from pre-rollout state.";
      hidden = true;
      action = open_name;
    }
    ∷ record {
      name = hook_rollout;
      usage = "Allow rollout to be continued.";
      hidden = false;
      action = open_name;
    }
    ∷ record {
      name = hook_confirm_traffic_increase;
      usage = "Confirm the traffic increase after a rollout.";
      hidden = false;
      action = open_name;
    }
    ∷ record {
      name = hook_confirm_promotion;
      usage = "Allow to promote the canary version to production.";
      hidden = false;
      action = open_name;
    }
    ∷ record {
      name = hook_post_rollout;
      usage = "Confirm the post-rollout tasks.";
      hidden = true;
      action = open_name;
    }
    ∷ record {
      name = hook_rollback;
      usage =
          "Tell the canary gate to rollback the canary version. This gate can be opened during analysis or while waiting for a confirmation";
      hidden = false;
      action = open_name;
    }
    ∷ []

abbrev pub close_gates : List GateCommand
close_gates =
    record {
      name = hook_confirm_rollout;
      usage = "Halt the rollout of a new version until confirm-rollout gate is opened again.";
      hidden = false;
      action = close_name;
    }
    ∷ record {
      name = hook_pre_rollout;
      usage = "The canary advancement is paused if a pre-rollout gate is closed.";
      hidden = true;
      action = close_name;
    }
    ∷ record {
      name = hook_rollout;
      usage = "Pause the rollout process and rollback if metrics check fails.";
      hidden = false;
      action = close_name;
    }
    ∷ record {
      name = hook_confirm_traffic_increase;
      usage = "Pause the traffic increase after a rollout.";
      hidden = false;
      action = close_name;
    }
    ∷ record {
      name = hook_confirm_promotion;
      usage =
          "Halt the promotion of the canary version to production. While the promotion is paused, it will continue to run the metrics checks and rollout gate.";
      hidden = false;
      action = close_name;
    }
    ∷ record {
      name = hook_post_rollout;
      usage = "Halt the post-rollout tasks";
      hidden = true;
      action = close_name;
    }
    ∷ record {
      name = hook_rollback;
      usage = "Close the rollback gate. The rollback is still allowed if metrics check fails.";
      hidden = false;
      action = close_name;
    }
    ∷ []

abbrev pub status_gates : List GateCommand
status_gates =
    record {
      name = "all";
      usage = "View status of all gates.";
      hidden = false;
      action = status_name;
    }
    ∷ record {
      name = hook_confirm_rollout;
      usage = "View the status of the confirm-rollout gate.";
      hidden = false;
      action = status_name;
    }
    ∷ record {
      name = hook_pre_rollout;
      usage = "View the status of the pre-rollout gate.";
      hidden = true;
      action = status_name;
    }
    ∷ record {
      name = hook_rollout;
      usage = "View the status of the rollout gate.";
      hidden = false;
      action = status_name;
    }
    ∷ record {
      name = hook_confirm_traffic_increase;
      usage = "View the status of the confirm-traffic-increase gate.";
      hidden = false;
      action = status_name;
    }
    ∷ record {
      name = hook_confirm_promotion;
      usage = "View the status of the confirm-promotion gate.";
      hidden = false;
      action = status_name;
    }
    ∷ record {
      name = hook_post_rollout;
      usage = "View the status of the post-rollout gate.";
      hidden = true;
      action = status_name;
    }
    ∷ record {
      name = hook_rollback;
      usage = "View the status of the rollback gate.";
      hidden = false;
      action = status_name;
    }
    ∷ []

-- The action of a command for a gate.
abbrev pub invoke : {K W : Type 0} → Machine K W → GateCommand → Flags → Run W (List Row)
invoke m command flags = run m flags command.name command.action

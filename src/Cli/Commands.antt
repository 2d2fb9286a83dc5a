-- ===== src/Cli/Commands.antt =====
-- cli/main.go: the commands of the command line.
use canary_gate.Prelude.{ℕ, zero, suc, String, Bool, true, false, List, [], ◌∷◌}
use canary_gate.Cli.HelpTexts.{
  app_usage_text, app_description, open_usage_text, close_usage_text, status_usage_text,
  explain_description,
}
use canary_gate.Cli.GateCommands.{
  GateCommand, open_name, close_name, status_name, open_gates, close_gates, status_gates,
}

-- `cli.StringFlag`, and `cli.BoolFlag` with a count.
pub data FlagKind : Type 0 where
  string_flag count_flag : FlagKind

pub record Flag : Type 0 where
  pub kind : FlagKind
  pub name : String
  pub alias : String
  pub usage : String
  pub required : Bool

-- A command has commands for gates, or shows its help, or shows the versions.
pub data CommandKind : Type 0 where
  gates : List GateCommand → CommandKind
  explains shows_version : CommandKind

-- A text that is not given is empty.
pub record Command : Type 0 where
  pub name : String
  pub usage : String
  pub usage_text : String
  pub description : String
  pub flags : List Flag
  pub kind : CommandKind

abbrev pub cluster_flag : Flag
cluster_flag = record {
  kind = string_flag;
  name = "cluster";
  alias = "c";
  usage = "The alias of the Kubernetes cluster to use (as defined in your kubeconfig)";
  required = false;
}

abbrev pub namespace_flag : Flag
namespace_flag = record {
  kind = string_flag;
  name = "namespace";
  alias = "n";
  usage = "The namespace where the CanaryGate resources is located";
  required = false;
}

abbrev pub deployment_flag : Flag
deployment_flag = record {
  kind = string_flag;
  name = "deployment";
  alias = "d";
  usage = "The name of the deployment to target";
  required = false;
}

abbrev pub verbose_flag : Flag
verbose_flag = record {
  kind = count_flag;
  name = "verbose";
  alias = "v";
  usage = "Enable verbose logging";
  required = false;
}

abbrev pub gate_flags : List Flag
gate_flags = cluster_flag ∷ namespace_flag ∷ deployment_flag ∷ verbose_flag ∷ []

pub record App : Type 0 where
  pub name : String
  pub usage : String
  pub usage_text : String
  pub description : String
  pub use_short_option_handling : Bool
  pub commands : List Command
  pub flags : List Flag

abbrev pub open_command : Command
open_command = record {
  name = open_name;
  usage = "Open a canary gate.";
  usage_text = open_usage_text;
  description = "";
  flags = gate_flags;
  kind = gates open_gates;
}

abbrev pub close_command : Command
close_command = record {
  name = close_name;
  usage = "Close a canary gate.";
  usage_text = close_usage_text;
  description = "";
  flags = gate_flags;
  kind = gates close_gates;
}

abbrev pub status_command : Command
status_command = record {
  name = status_name;
  usage = "Check status of a canary gate.";
  usage_text = status_usage_text;
  description = "";
  flags = gate_flags;
  kind = gates status_gates;
}

abbrev pub explain_command : Command
explain_command = record {
  name = "explain";
  usage = "View the diagram and explain how of canary gate work";
  usage_text = "View the diagram and explain how of canary gate work";
  description = explain_description;
  flags = [];
  kind = explains;
}

abbrev pub version_command : Command
version_command = record {
  name = "version";
  usage = "Display the version of the canary-gate CLI and exit";
  usage_text = "Display the version of the canary-gate CLI and exit";
  description = "";
  flags = cluster_flag ∷ namespace_flag ∷ [];
  kind = shows_version;
}

abbrev pub create_cli_app : App
create_cli_app = record {
  name = "canary-gate";
  usage = "A CLI tool to interact with canary gate in the Flagger";
  usage_text = app_usage_text;
  description = app_description;
  use_short_option_handling = true;
  commands = open_command ∷ close_command ∷ status_command ∷ explain_command ∷ version_command ∷ [];
  flags = verbose_flag ∷ [];
}

-- The levels of zerolog that the code sets.
pub data LogLevel : Type 0 where
  info_level debug_level trace_level : LogLevel

-- `setLogLevel`, for a count of flags.
unfoldable pub set_log_level : ℕ → LogLevel
set_log_level zero = info_level
set_log_level (suc zero) = info_level
set_log_level (suc (suc zero)) = debug_level
set_log_level (suc (suc (suc n))) = trace_level

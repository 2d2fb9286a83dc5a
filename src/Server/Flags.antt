-- ===== src/Server/Flags.antt =====
-- main.go: the command of the server and its flags.
use canary_gate.Prelude.{String, ◌++◌, Bool, true, false, List, [], ◌∷◌}

abbrev pub default_address : String
default_address = ":8080"

abbrev pub default_controller_address : String
default_controller_address = ":8081"

abbrev pub default_metrics_address : String
default_metrics_address = ":9090"

abbrev pub flag_verbose : String
flag_verbose = "verbose"

abbrev pub flag_listen_address : String
flag_listen_address = "listen-address"

abbrev pub flag_controller_address : String
flag_controller_address = "controller-address"

abbrev pub flag_metrics_address : String
flag_metrics_address = "metrics-address"

abbrev pub flag_slack_token : String
flag_slack_token = "slack-token"

abbrev pub flag_slack_channel : String
flag_slack_channel = "slack-channel"

-- No flag has this name.
abbrev pub flag_kubernetes_client : String
flag_kubernetes_client = "kubernetes-client"

-- `cli.BoolFlag`, which is false unless it is given, and `cli.StringFlag` with its default.
pub data FlagValue : Type 0 where
  count_flag : FlagValue
  string_flag : String → FlagValue

-- A flag, its aliases, and the variable of the environment that sets it too.
pub record ServerFlag : Type 0 where
  pub name : String
  pub aliases : List String
  pub usage : String
  pub value : FlagValue
  pub source : String
  pub hidden : Bool

abbrev pub verbose_flag : ServerFlag
verbose_flag = record {
  name = flag_verbose;
  aliases = "v" ∷ [];
  usage = "Print debugging messages. Multiple -v options increase the verbosity. The maximum is 2.";
  value = count_flag;
  source = "VERBOSE";
  hidden = false;
}

abbrev pub listen_address_flag : ServerFlag
listen_address_flag = record {
  name = flag_listen_address;
  aliases = [];
  usage = "Set server port. Default is " ++ default_address;
  value = string_flag default_address;
  source = "LISTEN_ADDRESS";
  hidden = false;
}

abbrev pub controller_address_flag : ServerFlag
controller_address_flag = record {
  name = flag_controller_address;
  aliases = [];
  usage = "Set controller port. Default is " ++ default_controller_address;
  value = string_flag default_controller_address;
  source = "LISTEN_CONTROLLER_ADDRESS";
  hidden = false;
}

abbrev pub metrics_address_flag : ServerFlag
metrics_address_flag = record {
  name = flag_metrics_address;
  aliases = [];
  usage = "Set metrics port. Default is " ++ default_metrics_address;
  value = string_flag default_metrics_address;
  source = "LISTEN_METRICS_ADDRESS";
  hidden = false;
}

-- The notifications to Slack are not complete, so that their flags are hidden.
abbrev pub slack_token_flag : ServerFlag
slack_token_flag = record {
  name = flag_slack_token;
  aliases = [];
  usage = "Set Slack Bot User OAuth Token";
  value = string_flag "";
  source = "SLACK_TOKEN";
  hidden = true;
}

abbrev pub slack_channel_flag : ServerFlag
slack_channel_flag = record {
  name = flag_slack_channel;
  aliases = [];
  usage = "Set Slack Channel";
  value = string_flag "";
  source = "SLACK_CHANNEL";
  hidden = true;
}

abbrev pub server_flags : List ServerFlag
server_flags =
    verbose_flag ∷ listen_address_flag ∷ controller_address_flag ∷ metrics_address_flag
    ∷ slack_token_flag ∷ slack_channel_flag ∷ []

-- `cli.Command`, whose action is `launchServer`.
pub record ServerCommand : Type 0 where
  pub name : String
  pub usage : String
  pub hide_version : Bool
  pub use_short_option_handling : Bool
  pub flags : List ServerFlag

abbrev pub main_command : ServerCommand
main_command = record {
  name = "canary-gate";
  usage = "Launches Canary Gate for Flagger";
  hide_version = true;
  use_short_option_handling = true;
  flags = server_flags;
}

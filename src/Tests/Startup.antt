-- ===== src/Tests/Startup.antt =====
-- The theorems on the start of the server, applied to a machine that is in no cluster.
use canary_gate.Prelude.{String, ◌≡◌, refl, false, some, [], ◌∷◌, inl, inr}
use canary_gate.Runtime.Int.{ℤ, pos, negsuc}
use canary_gate.Noti.Slack.{SlackApi}
use canary_gate.Server.Startup.{
  Setting, ClientSource, NewStore, LogLevel, info_level, debug_level, trace_level, logging_of,
  launch_server,
}
use canary_gate.Server.Launch.{HasNoClient, started, launch_server-HasNoClient}
use canary_gate.Controller.Logs.{lines, logging_of-silent}

abbrev no_cluster : ClientSource (Unit {0}) (Unit {0})
no_cluster = record { get_config = inr tt; new_for_config = λ k. inl "no certificate" }

abbrev setting : Setting (Unit {0}) (Unit {0}) (Unit {0})
setting = record {
  store_name = "";
  config_ns = "gates";
  verbose = 2;
  listen_address = ":8080";
  controller_address = ":8081";
  metrics_address = ":9090";
  slack = record { token = ""; channel = ""; debug = false };
  clients = no_cluster;
  dynamic_clients = no_cluster;
}

abbrev slack_api : SlackApi (Unit {0}) (Unit {0})
slack_api = record {
  new = λ token debug. tt;
  send_message = λ c channel blocks n. (inl "offline", n);
  upload_file = λ c upload n. (some "offline", n);
  sorted = λ l. l;
}

launch_server-HasNoClient_example :
    (stor : NewStore (Unit {0}) (Unit {0})) × HasNoClient stor
    × (launch_server setting slack_api ≡ started setting slack_api stor)
launch_server-HasNoClient_example =
    launch_server-HasNoClient setting slack_api tt tt "no certificate" "no certificate" refl refl
      refl refl (λ e. cc)

-- The numbers of the levels of zerolog.
abbrev number : LogLevel → ℤ
number trace_level = negsuc 0
number debug_level = pos 0
number info_level = pos 1

logging_of-silent_example :
    lines {V = String} (number (logging_of 2).level) (pos 0) "reconciled" ("gate" ∷ []) ≡ []
unfolding logging_of
logging_of-silent_example = logging_of-silent number 2 0 "reconciled" ("gate" ∷ []) refl refl

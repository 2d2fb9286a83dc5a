-- ===== src/Cli/Run.antt =====
-- cli/main.go: what `canary-gate open`, `close`, `status` and `version` do.
use canary_gate.Prelude.{String, ◌++◌, List, [], ◌∷◌, ◌==◌, if◌then◌else◌}
use canary_gate.Service.{hook_event}
use canary_gate.Handler.Payload.{CanaryGatePayload, CanaryGateStatus, StatusMap}
use canary_gate.Cli.{find_proxy_path}
use canary_gate.Cli.Remote.{
  Run, Result, Machine, no_cluster, no_deployment, pure, stop, lift, lift_found, ◌>>=◌,
  load_kubernetes_config, request_and_read,
}

abbrev pub default_namespace : String
default_namespace = "canary-gate"

-- The flags of a command: a flag that is not given is empty.
pub record Flags : Type 0 where
  pub cluster : String
  pub namespace : String
  pub deployment : String

abbrev pub namespace_of : Flags → String
namespace_of flags = if flags.namespace == "" then default_namespace else flags.namespace

abbrev pub payload_of : Flags → String → CanaryGatePayload
payload_of flags name = record {
  type = name;
  name = flags.deployment;
  namespace = namespace_of flags;
}

-- `FormatFieldValue` of the writer of the logs, for a text: the two statuses have a colour.
unfoldable pub format_field_value : String → String
format_field_value s =
    if s == "opened"
    then "\u{1b}[32m ✅ " ++ (s ++ "\u{1b}[0m")
    else if s == "closed"
    then "\u{1b}[31m 🔒 " ++ (s ++ "\u{1b}[0m")
    else s

-- The lines that are printed, before their colours: the gate, its status and its canary, the last
-- event of a canary, the version of the command line or of the server, and a text.
pub data Row : Type 0 where
  gate_row : String → String → String → Row
  event_row : String → String → Row
  version_row : String → Row
  text_row : String → Row

abbrev pub row_of : (String → String) → CanaryGateStatus → Row
row_of pad s =
    if s.type == hook_event
    then event_row s.status s.name
    else gate_row (pad s.type) s.status s.name

-- A status that stands alone is not padded.
abbrev pub pad_of : (String → String) → List CanaryGateStatus → String → String
pad_of pad (s ∷ []) t = t
pad_of pad [] t = pad t
pad_of pad (s ∷ s' ∷ more) t = pad t

-- The rows of one canary, before those of the others.
abbrev pub print_canary : (String → String) → List CanaryGateStatus → List Row → List Row
print_canary pad [] rest = rest
print_canary pad (s ∷ more) rest = row_of pad s ∷ print_canary pad more rest

unfoldable pub print_statuses : (String → String) → StatusMap → List Row
print_statuses pad [] = []
print_statuses pad ((key, v) ∷ rest) = print_canary (pad_of pad v) v (print_statuses pad rest)

module _ {K W : Type 0} (m : Machine K W) where
  -- `run`, for a command with the name of a gate, below the command `gate`.
  unfoldable pub run : Flags → String → String → Run W (List Row)
  run flags name gate =
      if flags.cluster == ""
      then stop no_cluster
      else if flags.deployment == ""
      then stop no_deployment
      else do
        client ← lift (load_kubernetes_config m flags.cluster)
        path ← lift_found (find_proxy_path client (namespace_of flags) ("/" ++ gate))
        statuses ←
            request_and_read m client "POST" path (m.write_gate (payload_of flags name))
              m.read_statuses
        pure (print_statuses m.pad statuses)

  unfoldable pub server_version : Flags → Run W (List Row)
  server_version flags = if flags.cluster == "" then stop no_cluster else do
    client ← lift (load_kubernetes_config m flags.cluster)
    path ← lift_found (find_proxy_path client (namespace_of flags) "/version")
    v ← request_and_read m client "GET" path (m.write_text "") m.read_version
    pure (version_row v.version ∷ [])

abbrev pub cli_version : String
cli_version = "0.1.3"

-- The action of the command `version`: two lines come before the version of the server.
abbrev pub show_version :
    {K W : Type 0} → Machine K W → Flags → W → List Row × (Result (List Row) × W)
show_version m flags w = (
  text_row "For more information, visit https://github.com/KongZ/canary-gate"
      ∷ version_row cli_version
      ∷ [],
  server_version m flags w,
)

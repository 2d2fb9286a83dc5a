-- ===== src/Cli/HelpTexts.antt =====
-- cli/main.go: the texts of help.
use canary_gate.Prelude.{String, ◌++◌, List, [], ◌∷◌}

-- The lines of a text.
abbrev text_of : List String → String
text_of [] = ""
text_of (line ∷ []) = line
text_of (line ∷ next ∷ more) = line ++ ("\n" ++ text_of (next ∷ more))

abbrev pub diagram : String
diagram = text_of (
    "   .─.        ┌───────────────┐                                 ┌──────────┐                     "
    ∷ "  (   )──────▶│confirm-rollout│───────open─────────────────────▶│ rollout  │◀───────┐            "
    ∷ "   `─'        └───────────────┘                 ┌──close────────└──────────┘        │            "
    ∷ "  deploy              │                         │                     │             │            "
    ∷ "                    close                       ▼                     │             │            "
    ∷ "                      │                        .─.                  open            │            "
    ∷ "                      ▼                       (   )                   │             │            "
    ∷ "                     .─.                       `─'                    ▼             │            "
    ∷ "                    (   )                     pause                  .─.            │            "
    ∷ "                     `─'     ┌──────────────────────────────────────(   )           │            "
    ∷ "                    pause    │                                       `─'            │            "
    ∷ "                           errors                                   check          .─.           "
    ∷ "                             │                                     metrics        (   ) increase "
    ∷ "                             │                                        │            `─'  traffic  "
    ∷ "                             │                                        │             ▲            "
    ∷ "                             │                                        ▼             │            "
    ∷ "                             │                               ┌────────────────┐     │            "
    ∷ "                             │            .─.                │confirm-traffic-│     │            "
    ∷ "                             │           (   )◀────close─────│    increase    │     │            "
    ∷ "                             │            `─'                └────────────────┘     │            "
    ∷ "                             │           pause                        │           close          "
    ∷ "                             │                                      open            │            "
    ∷ "                             │                                        │             │            "
    ∷ "                             ▼                                        ▼             │            "
    ∷ "                            .─.                                ┌────────────┐       │            "
    ∷ "                 rollback  ( ● )◀───────────────────open───────│  rollback  │───────┘            "
    ∷ "                            `─'                                └────────────┘                    "
    ∷ "                             ▲                                        │                          "
    ∷ "                             │                                    promoting                      "
    ∷ "                             │                                        │                          "
    ∷ "                             │                                        ▼                          "
    ∷ "                            .─.              .─.             ┌─────────────────┐                 "
    ∷ "                           (   )◀──errors───(   )◀──close────│confirm-promotion│                 "
    ∷ "                            `─'              `─'             └─────────────────┘                 "
    ∷ "                           check            pause                     │                          "
    ∷ "                          metrics                                   open                         "
    ∷ "                                                                      │                          "
    ∷ "                                                                      ▼                          "
    ∷ "                                                                     .─.                         "
    ∷ "                                                                    ( ● )                        "
    ∷ "                                                                     `─'                         "
    ∷ "                                                                   promote                       "
    ∷ "" ∷ [])

abbrev pub app_usage_text : String
app_usage_text = text_of (
    "canary-gate [command] <gate-name> <global-options>" ∷ "" ∷ "\t\tExample: "
    ∷ "# CanaryGate is located within the 'gate-namespace' namespace, with the name 'my-deployment' on the 'my-cluster' cluster."
    ∷ "" ∷ "# Open the confirm-rollout gate. "
    ∷ "canary-gate open confirm-rollout --cluster my-cluster --namespace gate-namespace --deployment my-deployment"
    ∷ "" ∷ "# Close the confirm-promotion gate. "
    ∷ "canary-gate close confirm-promotion --cluster my-cluster --namespace gate-namespace --deployment my-deployment"
    ∷ "" ∷ "# Check the status of the confirm-traffic-increase gate."
    ∷ "canary-gate status confirm-traffic-increase --cluster my-cluster --namespace gate-namespace --deployment my-deployment"
    ∷ "" ∷ "# Check the status of all gates."
    ∷ "canary-gate status all --cluster my-cluster --namespace gate-namespace --deployment my-deployment"
    ∷ [])

abbrev pub app_description : String
app_description = text_of (
    "This tool allows you to open, close, and check the status of canary gate in the Flagger."
    ∷ "It interacts with the canary-gate service running in the cluster to manage canary deployments."
    ∷ "Visits https://github.com/KongZ/canary-gate for more information." ∷ [])

abbrev pub open_usage_text : String
open_usage_text = text_of (
    "canary-gate open <gate-name> <global-options>" ∷ "" ∷ "Example: "
    ∷ "# CanaryGate is located within the 'gate-namespace' namespace, with the name 'my-deployment' on the 'my-cluster' cluster."
    ∷ "" ∷ "# Open the confirm-rollout gate. "
    ∷ "canary-gate open confirm-rollout --cluster my-cluster --namespace gate-namespace --deployment my-deployment"
    ∷ [])

abbrev pub close_usage_text : String
close_usage_text = text_of (
    "canary-gate close <gate-name> <global-options>" ∷ "" ∷ "Example: "
    ∷ "# CanaryGate is located within the 'gate-namespace' namespace, with the name 'my-deployment' on the 'my-cluster' cluster."
    ∷ "" ∷ "# Close the confirm-rollout gate. "
    ∷ "canary-gate close confirm-rollout --cluster my-cluster --namespace gate-namespace --deployment my-deployment"
    ∷ [])

abbrev pub status_usage_text : String
status_usage_text = text_of (
    "canary-gate status <gate-name> <global-options>" ∷ "" ∷ "Example: "
    ∷ "# CanaryGate is located within the 'gate-namespace' namespace, with the name 'my-deployment' on the 'my-cluster' cluster.."
    ∷ "" ∷ "# Check the status of a specific gate. "
    ∷ "canary-gate status confirm-rollout --cluster my-cluster --namespace gate-namespace --deployment my-deployment"
    ∷ "" ∷ "# Check the status of a all gates"
    ∷ "canary-gate status all --cluster my-cluster --namespace gate-namespace --deployment my-deployment"
    ∷ [])

abbrev pub explanation : String
explanation = text_of (
    "" ∷ "Each gate controls the flow of the Flagger Canary process." ∷ ""
    ∷ "1. When a new version is detected, it will check the <confirm-rollout> gate."
    ∷ "   * If the gate is open, it will proceed to the next stage."
    ∷ "   * If the gate is closed, it will halt the process and wait until the gate is opened." ∷ ""
    ∷ "2. Next, it will check the <pre-rollout> gate. This stage is not depicted in the diagram."
    ∷ "   * If the gate is open, it will proceed to the next stage."
    ∷ "   * If the gate is closed, it will halt the process and wait until the gate is opened." ∷ ""
    ∷ "3. Flagger will begin increasing traffic based on the configuration in CanaryGate. Before each traffic increase, it will check the <rollout> and <confirm-traffic-increase> gates."
    ∷ "   * If <rollout> is open, it will proceed to the next stage."
    ∷ "   * If <rollout> is closed, it will halt the process and continue monitoring metrics. If metrics indicate failure, it will initiate a rollback."
    ∷ "   * If <confirm-traffic-increase> is open, it will continue to increase traffic and proceed to the next stage."
    ∷ "   * If <confirm-traffic-increase> is closed, it will halt the process." ∷ ""
    ∷ "4. After increasing traffic until it reaches the maximum weight, it will check the <confirm-promotion> gate."
    ∷ "   * If the gate is open, it will proceed to promote to the new version."
    ∷ "   * If the gate is closed, it will halt the process and continue monitoring metrics. If metrics indicate failure, it will initiate a rollback."
    ∷ ""
    ∷ "5. Flagger will copy the canary deployment specification template over to the primary. After promotion is finalized, the <post-rollout> gate is checked. This stage is not depicted in the diagram."
    ∷ "   * If the gate is open, the process is completed."
    ∷ "   * If the gate is closed, the process is pending finalization." ∷ ""
    ∷ "6. The <rollback> gate is continuously monitored throughout the process."
    ∷ "   * If the gate is open, the rollback process is initiated."
    ∷ "   * If the gate is closed, the rollout process continues." ∷ ""
    ∷ "Example of canarygate CRD file:" ∷ "" ∷ "apiVersion: piggysec.com/v1alpha1"
    ∷ "kind: CanaryGate" ∷ "metadata:" ∷ "  name: demo" ∷ "\tnamespace: gate-namespace" ∷ "spec:"
    ∷ "  confirm-rollout: opened" ∷ "  target:" ∷ "    namespace: demons" ∷ "    name: demo"
    ∷ "  flagger:" ∷ "    targetRef:" ∷ "      apiVersion: apps/v1" ∷ "      kind: Deployment"
    ∷ "      name: demo" ∷ "    skipAnalysis: false" ∷ "    analysis:" ∷ "      interval: 10s"
    ∷ "      threshold: 2" ∷ "      maxWeight: 50" ∷ "      stepWeight: 10" ∷ ""
    ∷ "The configuration described will set up the Flagger Canary within the 'demons' namespace, identified by the name 'demo'. It will duplicate all configurations located under the 'flagger' field to the Flagger Canary. Following this, the Flagger Canary will be managed by the canary-gate controller; if the CanaryGate is altered, the controller will adjust the Flagger Canary as needed."
    ∷ "" ∷ [])

abbrev pub explain_description : String
explain_description =
    "Displays the diagram of the canary gate workflow, showing how each gate work with open/close command.\n\n"
    ++ (diagram ++ explanation)

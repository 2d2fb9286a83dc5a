-- ===== src/Tests/RoundTrip.antt =====
-- The theorem on two commands, applied to a server over the in-memory store.
use mathlib.Core.List.Memᴰ.{head, tail}
use canary_gate.Prelude.{◌↔◌, ◌≡◌, refl, false, List, [], ◌∷◌}
use canary_gate.Service.{hook_rollout}
use canary_gate.Store.Defs.{set_message}
use canary_gate.Store.Memory.Gates as MemoryGates
use canary_gate.Store.Memory.Gates.{memory_store-IsGateStore, event_of}
use canary_gate.Store.Memory.Histories.{new_memory_store-IsValid, view-Separates}
use canary_gate.Handler.Flagger.{FlaggerHandler}
use canary_gate.Cli.Remote.{got}
use canary_gate.Cli.Run.{Row, gate_row, run}
use canary_gate.Cli.Sends.{Sends, run-Sends}
use canary_gate.Cli.GateCommands.{GateCommand}
use canary_gate.Cli.RoundTrip.{Agrees, SetThenShown, set-status}
use canary_gate.Tests.Data.{memory_value, memory_state, rollout_key-IsGate}
use canary_gate.Tests.Commands.{client, pod}
use canary_gate.Tests.Machine.{
  flags, handler, machine, machine-IsConfigured, client-IsDeployed, machine-IsProxied,
}

abbrev close_command : GateCommand
close_command = record {
  name = hook_rollout;
  usage = "Pause the rollout process and rollback if metrics check fails.";
  hidden = false;
  action = "close";
}

abbrev status_command : GateCommand
status_command = record {
  name = hook_rollout;
  usage = "View the status of the rollout gate.";
  hidden = false;
  action = "status";
}

machine-Agrees :
    Agrees handler memory_value refl MemoryGates.view memory_store-IsGateStore view-Separates.shared
      machine client flags pod 8080 machine-IsConfigured client-IsDeployed machine-IsProxied
      hook_rollout false
unfolding canary_gate.Handler.Flagger.create_response canary_gate.Handler.Flagger.create_key
    canary_gate.Runtime.Dict.lookup canary_gate.Runtime.Dict.insert
    canary_gate.Store.Defs.gate_status
machine-Agrees = record {
  body = "gate";
  encoded = refl;
  decoded = refl;
  set_readable = ("closed alone", refl, refl);
  all_readable = ("closed with event", refl, refl);
}

set-status_example :
    SetThenShown handler memory_value refl MemoryGates.view memory_store-IsGateStore
      view-Separates.shared machine client flags pod 8080 machine-IsConfigured client-IsDeployed
      machine-IsProxied close_command status_command false memory_state
set-status_example =
    set-status handler memory_value refl MemoryGates.view memory_store-IsGateStore
      view-Separates.shared machine client flags pod 8080 machine-IsConfigured client-IsDeployed
      machine-IsProxied close_command status_command memory_state new_memory_store-IsValid
      rollout_key-IsGate rollout_key-IsGate.0 false (tail (tail (head refl)))
      (tail (tail (tail (head refl)))) refl machine-Agrees

abbrev close_rows : List Row
close_rows = gate_row hook_rollout "closed" "pod" ∷ []

run-Sends_example :
    run machine flags hook_rollout "close" memory_state
      ≡ (got close_rows, (run machine flags hook_rollout "close" memory_state).1)
    ↔ Sends machine flags hook_rollout "close" memory_state close_rows
        (run machine flags hook_rollout "close" memory_state).1
run-Sends_example =
    run-Sends machine flags hook_rollout "close" memory_state close_rows
      (run machine flags hook_rollout "close" memory_state).1

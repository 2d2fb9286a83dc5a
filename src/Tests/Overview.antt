-- ===== src/Tests/Overview.antt =====
-- The theorem on `status all`, applied to a server over a new in-memory store.
use mathlib.Core.List.Memᴰ.{head}
use canary_gate.Prelude.{◌≡◌, refl, false, [], ◌∷◌}
use canary_gate.Service.{hook_all}
use canary_gate.Store.Memory.{SyncMap, new_memory_store}
use canary_gate.Store.Memory.Gates as MemoryGates
use canary_gate.Store.Memory.Gates.{memory_store-IsGateStore, event_of}
use canary_gate.Store.Memory.Histories.{new_memory_store-IsValid}
use canary_gate.Handler.Http.{HandlerState}
use canary_gate.Cli.Remote.{got}
use canary_gate.Cli.GateCommands.{GateCommand}
use canary_gate.Tests.Data.{
  memory_value, memory_state, gate_payload, rollout_key, rollout_key-IsGate,
}
use canary_gate.Tests.Commands.{client, pod}
use canary_gate.Store.Memory.Gates.{gate_of}
use canary_gate.Cli.Run.{event_row}
use canary_gate.Cli.GateCommands.{invoke}
use canary_gate.Cli.Overview.{gate_rows, status_all_shows}
use canary_gate.Handler.Statuses.{all_gates}
use canary_gate.Handler.GateApi.{AllGates}
use canary_gate.Store.Contract.{SameGates, SameEvents}
use canary_gate.Tests.Machine.{
  flags, handler, machine, machine-IsConfigured, client-IsDeployed, machine-IsProxied,
}

abbrev all_command : GateCommand
all_command = record {
  name = hook_all;
  usage = "View status of all gates.";
  hidden = false;
  action = "status";
}

all-AllGates : AllGates MemoryGates.view (record gate_payload { type = hook_all }) all_gates
all-AllGates =
    let names = rollout_key-IsGate.0 in
    (
      (names, λ e. cc),
      (
        (names, λ e. cc),
        (
          (names, λ e. cc),
          ((names, λ e. cc), ((names, λ e. cc), ((names, λ e. cc), ((names, λ e. cc), tt)))),
        ),
      ),
    )

status_all_shows_example :
    (u : HandlerState SyncMap (Unit {0})) × (invoke machine all_command flags memory_state ≡ (
      got (
          gate_rows "pod"
            (λ t. gate_of new_memory_store (record rollout_key { type = t }))
            machine.pad
            all_gates
            (event_row "" "pod" ∷ [])),
      u,
    ))
    × SameGates MemoryGates.view new_memory_store u.store
    × SameEvents MemoryGates.view new_memory_store u.store
unfolding canary_gate.Runtime.Dict.lookup
status_all_shows_example =
    status_all_shows handler memory_value refl MemoryGates.view memory_store-IsGateStore machine
      client flags pod 8080 machine-IsConfigured client-IsDeployed machine-IsProxied all_command
      memory_state "all gates" (head refl) refl new_memory_store-IsValid all-AllGates
      rollout_key-IsGate.0 refl refl ("overview", refl, refl)

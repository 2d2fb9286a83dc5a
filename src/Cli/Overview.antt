-- ===== src/Cli/Overview.antt =====
-- `canary-gate status all`: what is printed for all of the gates of a canary.
use canary_gate.Prelude.{
  ℕ, String, ◌≡◌, refl, ap, ◌∙◌, Bool, false, some, List, [], ◌∷◌, if◌then◌else◌,
}
use mathlib.Core.List.{Memᴰ}
use canary_gate.Service.{HookType, hook_all}
use canary_gate.Store.Defs.{StoreKey}
use canary_gate.Store.Contract.{View, IsGateStore, SameGates, SameEvents}
use canary_gate.Handler.Http.{HandlerState, new_writer}
use canary_gate.Handler.Payload.{StatusMap}
use canary_gate.Handler.Flagger.{StoreValue, FlaggerHandler, gate_key, status_gate}
use canary_gate.Handler.GateApi.{AllGates, encoded_response}
use canary_gate.Handler.Statuses.{all_gates, shown_statuses, status_gate_shows}
use canary_gate.Server.{mux, handler_of, status_route}
use canary_gate.Cli.{Pod, Clientset}
use canary_gate.Cli.Remote.{Machine, got}
use canary_gate.Cli.Run.{Flags, Row, gate_row, event_row, namespace_of, payload_of, print_statuses}
use canary_gate.Cli.GateCommands.{GateCommand, status_gates, invoke}
use canary_gate.Cli.Proxy.{IsConfigured, IsDeployed, IsProxied, Readable, run_reaches}
use canary_gate.Cli.Tables.{status_gates_action}

module _ (name : String) (is_open : HookType → Bool) where
  -- The rows of gates, before other rows.
  abbrev pub gate_rows : (String → String) → List HookType → List Row → List Row
  gate_rows pad [] rest = rest
  gate_rows pad (t ∷ types) rest =
      gate_row (pad t) (if is_open t then "opened" else "closed") name ∷ gate_rows pad types rest

print_overview :
    (ns name : String) (is_open : HookType → Bool) (pad : String → String) (event : String)
    → print_statuses pad (shown_statuses ns name is_open event all_gates)
      ≡ gate_rows name is_open pad all_gates (event_row event name ∷ [])
unfolding print_statuses
print_overview ns name is_open pad event = refl

module _ {S N K : Type 0} (h : FlaggerHandler S N) (val : StoreValue S) (there : h.store ≡ some val)
    (v : View S) (c : IsGateStore val.methods v) (m : Machine K (HandlerState S N))
    (client : Clientset) (flags : Flags) (pod : Pod) (n : ℕ)
    (configured : IsConfigured m client flags)
    (deployed : IsDeployed client (namespace_of flags) pod n)
    (proxied : IsProxied h m client (namespace_of flags) pod n) where
  abbrev pub key_for : HookType → StoreKey
  key_for t = record (gate_key (payload_of flags hook_all)) { type = t }

  -- What the server sends for all of the gates.
  abbrev pub all_statuses : S → StatusMap
  all_statuses s =
      shown_statuses (namespace_of flags) flags.deployment (λ t. v.gates s (key_for t))
        (v.events s (key_for "")) all_gates

  -- Over a store that keeps the contract, from a valid state, for a canary whose gates and events the
  -- store keeps, where the command line is configured and finds the pod of the server, the proxy
  -- forwards its requests, and the two sides read what the other writes: the command `all` below
  -- `status` prints each of the seven gates of the canary, `opened` or `closed` as it is, then the last event, and changes no
  -- gate and no event.
  pub status_all_shows :
      (g : GateCommand) (s : HandlerState S N) (body : String)
      → Memᴰ g status_gates
      → g.name ≡ hook_all
      → v.IsValid s.store
      → AllGates v (payload_of flags hook_all) all_gates
      → v.IsCanary (key_for "")
      → m.write_gate (payload_of flags hook_all) ≡ some body
      → h.json.read_gate body ≡ some (payload_of flags hook_all)
      → Readable h m (all_statuses s.store)
      → (u : HandlerState S N) × (invoke m g flags s ≡ (
        got (
            gate_rows flags.deployment
              (λ t. v.gates s.store (key_for t))
              m.pad
              all_gates
              (event_row (v.events s.store (key_for "")) flags.deployment ∷ [])),
        u,
      ))
        × SameGates v s.store u.store
        × SameEvents v s.store u.store
  unfolding mux handler_of
  status_all_shows g s body at name valid all names encoded decoded (text, written, read) =
      let gate = payload_of flags hook_all in
      let (u, run', (_, gates, events, sent)) =
        status_gate_shows h val there v c gate (record { body = some body })
          (record s { writer = new_writer false }) false decoded valid all names refl in
      (
        u,
        rw (status_gates_action g at, name)
              (run_reaches h m client flags pod n hook_all "status" body text status_route
                (status_gate h) s u (all_statuses s.store) configured deployed proxied refl refl
                encoded run' (sent ∙ ap (λ x. encoded_response x false) written) read)
            ∙ ap (λ rows. (got rows, u))
                (print_overview (namespace_of flags) flags.deployment
                  (λ t. v.gates s.store (key_for t)) m.pad (v.events s.store (key_for ""))),
        gates,
        events,
      )

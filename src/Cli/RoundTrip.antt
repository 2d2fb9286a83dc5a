-- ===== src/Cli/RoundTrip.antt =====
-- A gate is set by one command and shown by the next.
use canary_gate.Prelude.{
  ℕ, String, ◌++◌, ◌≡◌, refl, sym, ap, ◌∙◌, subst, Bool, true, false, some, [], ◌∷◌, eq_refl, ◌==◌,
}
use mathlib.Core.List.{Memᴰ}
use canary_gate.Runtime.Exec.{Exec, done}
use canary_gate.Service.{hook_event}
use canary_gate.Store.Defs.{StoreKey, gate_status, set_message}
use canary_gate.Store.Contract.{View, IsGateStore, GateSet, SameGates, SameEvents, canary_eq}
use canary_gate.Handler.Http.{HandlerState, Request, new_writer}
use canary_gate.Handler.Payload.{StatusMap}
use canary_gate.Handler.Flagger.{
  StoreValue, FlaggerHandler, gate_key, create_response, open_gate, close_gate, status_gate,
}
use canary_gate.Handler.GateApi.{
  AllGates, encoded_response, open_gate_opens, close_gate_closes, status_gate_ends,
}
use canary_gate.Server.{Route, mux, handler_of, open_route, close_route, status_route}
use canary_gate.Cli.{Pod, Clientset}
use canary_gate.Cli.Remote.{Machine, got}
use canary_gate.Cli.Run.{Flags, gate_row, event_row, namespace_of, payload_of, run}
use canary_gate.Cli.GateCommands.{GateCommand, status_gates, invoke}
use canary_gate.Cli.Proxy.{IsConfigured, IsDeployed, IsProxied, Readable, run_reaches}
use canary_gate.Cli.Tables.{
  IsAction, set_gates, set_action, set_gates-IsAction, status_gates_action,
}
use canary_gate.Cli.Rows.{print_statuses_one, print_statuses_two}

module _ {S N K : Type 0} (h : FlaggerHandler S N) (val : StoreValue S) (there : h.store ≡ some val)
    (v : View S) (c : IsGateStore val.methods v)
    (shared : (s : S) (k j : StoreKey) → canary_eq k j ≡ true → v.events s k ≡ v.events s j)
    (m : Machine K (HandlerState S N)) (client : Clientset) (flags : Flags) (pod : Pod) (n : ℕ)
    (configured : IsConfigured m client flags)
    (deployed : IsDeployed client (namespace_of flags) pod n)
    (proxied : IsProxied h m client (namespace_of flags) pod n) where
  abbrev pub key_of : String → StoreKey
  key_of name = gate_key (payload_of flags name)

  -- The statuses that the server sends after a gate is set, and where it is asked for.
  abbrev pub set_statuses : String → Bool → StatusMap
  set_statuses name o =
      create_response [] (namespace_of flags) flags.deployment name (gate_status o)

  abbrev pub all_statuses : String → Bool → StatusMap
  all_statuses name o =
      create_response (set_statuses name o) (namespace_of flags) flags.deployment hook_event
        (set_message (key_of name) o)

  -- The command line and the server read what the other writes about the gate.
  pub record Agrees (name : String) (o : Bool) : Type 0 where
    pub body : String
    pub encoded : m.write_gate (payload_of flags name) ≡ some body
    pub decoded : h.json.read_gate body ≡ some (payload_of flags name)
    pub set_readable : Readable h m (set_statuses name o)
    pub all_readable : Readable h m (all_statuses name o)

  -- Setting the gate, then asking for it.
  abbrev pub SetThenShown : GateCommand → GateCommand → Bool → HandlerState S N → Type 0
  SetThenShown g g' o s =
      (t u : HandlerState S N) × (invoke m g flags s
        ≡ (got (gate_row g.name (gate_status o) flags.deployment ∷ []), t))
      × GateSet v (key_of g.name) o s.store t.store
      × (invoke m g' flags t ≡ (
        got (
            gate_row (m.pad g.name) (gate_status o) flags.deployment
            ∷ event_row (set_message (key_of g.name) o) flags.deployment
            ∷ []),
        u,
      ))
      × SameGates v t.store u.store
      × SameEvents v t.store u.store

  module _ (g g' : GateCommand) (s : HandlerState S N) (valid : v.IsValid s.store)
      (is_gate : v.IsGate (key_of g.name))
      (names : v.IsCanary (record (key_of g.name) { type = "" })) where
    -- What the command prints where the handler of its path ends with the statuses of the gate.
    set_shown :
        (o : Bool) (a : Agrees g.name o) (action : String) (route : Route)
        (handle : (Request → Exec (HandlerState S N) (Unit {0}))) (t : HandlerState S N)
        → g.action ≡ action
        → (g.name == hook_event) ≡ false
        → mux ("/" ++ action) ≡ some route
        → handler_of h route ≡ some handle
        → handle (record { body = some a.body }) (record s { writer = new_writer false })
          ≡ (done tt, t)
        → t.writer ≡ encoded_response (h.json.write_statuses (set_statuses g.name o)) false
        → invoke m g flags s ≡ (got (gate_row g.name (gate_status o) flags.deployment ∷ []), t)
    set_shown o a action route handle t named other routed handled run' sent =
        let (text, written, read) = a.set_readable in
        rw named (
          run_reaches h m client flags pod n g.name action a.body text route handle s t
            (set_statuses g.name o) configured deployed proxied routed handled a.encoded run'
            (sent ∙ ap (λ x. encoded_response x false) written) read)
        ∙ ap (λ rows. (got rows, t))
            (print_statuses_one (namespace_of flags) flags.deployment g.name other m.pad
              (gate_status o))

    set_ends :
        (o : Bool) (a : Agrees g.name o)
        → IsAction (set_action o) g
        → (t : HandlerState S N) × (invoke m g flags s
            ≡ (got (gate_row g.name (gate_status o) flags.deployment ∷ []), t))
          × GateSet v (key_of g.name) o s.store t.store
    unfolding mux handler_of gate_status
    set_ends true a (action, other, types) =
        let (t, run', (set, sent)) =
          open_gate_opens h val there v c (payload_of flags g.name) (record { body = some a.body })
            (record s { writer = new_writer false }) false a.decoded valid is_gate refl in
        (
          t,
          set_shown true a "open" open_route (open_gate h) t action other refl refl run' sent,
          set,
        )
    set_ends false a (action, other, types) =
        let (t, run', (set, sent)) =
          close_gate_closes h val there v c (payload_of flags g.name)
            (record { body = some a.body }) (record s { writer = new_writer false }) false a.decoded
            valid is_gate refl in
        (
          t,
          set_shown false a "close" close_route (close_gate h) t action other refl refl run' sent,
          set,
        )

    status_ends :
        (o : Bool) (a : Agrees g.name o) (t : HandlerState S N)
        → IsAction (set_action o) g
        → g'.action ≡ "status"
        → g'.name ≡ g.name
        → GateSet v (key_of g.name) o s.store t.store
        → (u : HandlerState S N) × (invoke m g' flags t ≡ (
          got (
              gate_row (m.pad g.name) (gate_status o) flags.deployment
              ∷ event_row (set_message (key_of g.name) o) flags.deployment
              ∷ []),
          u,
        ))
          × SameGates v t.store u.store
          × SameEvents v t.store u.store
    unfolding mux handler_of
    status_ends o a t (_, other, types) action name (valid', at_k, _, event, _) =
        let (text, written, read) = a.all_readable in
        let gate = payload_of flags g.name in
        let same : v.events t.store (record (key_of g.name) { type = "" })
            ≡ set_message (key_of g.name) o =
          shared t.store (record (key_of g.name) { type = "" }) (key_of g.name)
            (rw (eq_refl, eq_refl) refl)
          ∙ event in
        let (u, run', (_, gates, events, sent)) =
          status_gate_ends h val there v c gate (record { body = some a.body })
            (record t { writer = new_writer false }) false a.decoded valid'
            (subst (AllGates v gate) (sym types) (is_gate, tt)) names refl in
        (
          u,
          rw (action, name)
                (run_reaches h m client flags pod n g.name "status" a.body text status_route
                  (status_gate h) t u (all_statuses g.name o) configured deployed proxied refl refl
                  a.encoded run'
                  (sent ∙ rw (types, at_k, same) refl ∙ ap (λ x. encoded_response x false) written)
                  read)
              ∙ ap (λ rows. (got rows, u))
                  (print_statuses_two (namespace_of flags) flags.deployment g.name other m.pad
                    (gate_status o) (set_message (key_of g.name) o)),
          gates,
          events,
        )

    -- Over a store that keeps the contract and has one event for each canary, from a valid state, for a
    -- gate and a canary that the store keeps, where the command line is configured and finds the pod of
    -- the server, the proxy forwards its requests, and the two sides read what the other writes about
    -- the gate: every command below `open` (`o` is true) or `close` prints its gate as set and sets it,
    -- and the command of that gate below `status` then prints the gate as it was set, and the message
    -- of the change as the last event, and changes no gate and no event.
    pub set-status :
        (o : Bool)
        → Memᴰ g (set_gates o)
        → Memᴰ g' status_gates
        → g'.name ≡ g.name
        → Agrees g.name o
        → SetThenShown g g' o s
    set-status o at at' name a =
        let is = set_gates-IsAction o g at in
        let (t, run, set) = set_ends o a is in
        let (u, run', gates, events) = status_ends o a t is (status_gates_action g' at') name set in
        (t, u, run, set, run', gates, events)

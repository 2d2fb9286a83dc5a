-- ===== src/Handler/Statuses.antt =====
-- The response to a status request, written out.
use canary_gate.Prelude.{
  String, ◌++◌, ◌≡◌, refl, sym, ap, subst, ◌∙◌, Bool, some, List, [], ◌∷◌, append, eq_refl, ◌==◌,
  if◌then◌else◌,
}
use canary_gate.Runtime.Dict.{lookup, insert}
use canary_gate.Service.{HookType, hook_event}
use canary_gate.Store.Defs.{gate_status}
use canary_gate.Store.Contract.{View, IsGateStore, SameGates, SameEvents, Ends}
use canary_gate.Handler.Http.{HandlerState, Request, new_writer}
use canary_gate.Handler.Payload.{CanaryGatePayload, CanaryGateStatus, StatusMap}
use canary_gate.Handler.Flagger.{
  StoreValue, FlaggerHandler, gate_key, gate_types, create_key, create_response, status_gate,
}
use canary_gate.Handler.Steps.{decode}
use canary_gate.Handler.GateApi.{AllGates, encoded_response, statuses, status_gate_ends}

-- The seven gates of a canary, in the order of a rollout.
abbrev pub all_gates : List HookType
all_gates =
    "confirm-rollout" ∷ "pre-rollout" ∷ "rollout" ∷ "confirm-traffic-increase" ∷ "confirm-promotion"
    ∷ "post-rollout" ∷ "rollback" ∷ []

-- The gates that a request of a type asks for.
abbrev pub shown_types : HookType → List HookType
shown_types t = if t == "all" then all_gates else t ∷ []

gate_types-shown : (t : HookType) → gate_types t ≡ shown_types t
unfolding gate_types
gate_types-shown t = refl

module _ (ns name : String) where
  abbrev pub entry : HookType → String → CanaryGateStatus
  entry t status = record { type = t; name = name; namespace = ns; status = status }

  -- One entry for each gate, then one with the last event.
  abbrev pub entries : (HookType → Bool) → String → List HookType → List CanaryGateStatus
  entries is_open event [] = entry "event" event ∷ []
  entries is_open event (t ∷ rest) =
      entry t (if is_open t then "opened" else "closed") ∷ entries is_open event rest

  -- All entries stand under the namespace and the name of the canary.
  abbrev pub shown_statuses : (HookType → Bool) → String → List HookType → StatusMap
  shown_statuses is_open event types = (ns ++ ("/" ++ name), entries is_open event types) ∷ []

  abbrev joined : List CanaryGateStatus → List CanaryGateStatus → List CanaryGateStatus
  joined [] rest = rest
  joined (x ∷ l) rest = x ∷ joined l rest

  joined-append :
      (l rest : List CanaryGateStatus) (x : CanaryGateStatus)
      → joined (append l x) rest ≡ joined l (x ∷ rest)
  joined-append [] rest x = refl
  joined-append (y ∷ l) rest x = ap (λ r. y ∷ r) (joined-append l rest x)

  append-joined :
      (l : List CanaryGateStatus) (x : CanaryGateStatus) → append l x ≡ joined l (x ∷ [])
  append-joined [] x = refl
  append-joined (y ∷ l) x = ap (λ r. y ∷ r) (append-joined l x)

  module _ (is_open : HookType → Bool) (event : String) where
    -- The entries that follow those that stand under the key already.
    shown_after :
        (types : List HookType) (l : List CanaryGateStatus)
        → create_response
            (statuses ns name is_open types ((create_key ns name, l) ∷ []))
            ns
            name
            hook_event
            event
          ≡ (create_key ns name, joined l (entries is_open event types)) ∷ []
    unfolding create_response lookup insert gate_status
    shown_after [] l =
        rw eq_refl (ap (λ r. (create_key ns name, r) ∷ []) (append-joined l (entry "event" event)))
    shown_after (t ∷ rest) l =
        let x = entry t (gate_status (is_open t)) in
        rw eq_refl (shown_after rest (append l x))
        ∙ ap (λ r. (create_key ns name, r) ∷ []) (joined-append l (entries is_open event rest) x)

    pub create_response-shown :
        (types : List HookType)
        → create_response (statuses ns name is_open types []) ns name hook_event event
          ≡ shown_statuses is_open event types
    unfolding create_response lookup insert create_key gate_status
    create_response-shown [] = refl
    create_response-shown (t ∷ rest) = shown_after rest (entry t (gate_status (is_open t)) ∷ [])

module _ {S N : Type 0} (h : FlaggerHandler S N) (val : StoreValue S) (there : h.store ≡ some val)
    (v : View S) (c : IsGateStore val.methods v) where
  -- Over a store that keeps the contract, from a valid state and a response that is not begun, a status
  -- request that can be read, and asks for the type `all` or for that of one gate, is answered with the
  -- encoding of one entry for each of the seven gates, or for the one, `opened` or `closed` as the gate
  -- is, and of an entry with the last event of the canary, under its namespace and name (with 500 where
  -- they cannot be encoded); it changes no gate and no event.
  pub status_gate_shows :
      (gate : CanaryGatePayload) (r : Request) (s : HandlerState S N) (b : Bool)
      → decode h.json.read_gate r ≡ some gate
      → v.IsValid s.store
      → AllGates v gate (shown_types gate.type)
      → v.IsCanary (record (gate_key gate) { type = "" })
      → s.writer ≡ new_writer b
      → Ends (status_gate h r) s tt (λ t.
        v.IsValid t.store
        × SameGates v s.store t.store
        × SameEvents v s.store t.store
        × (t.writer
            ≡ encoded_response
                (h.json.write_statuses (
                  shown_statuses gate.namespace gate.name
                    (λ x. v.gates s.store (record (gate_key gate) { type = x }))
                    (v.events s.store (record (gate_key gate) { type = "" }))
                    (shown_types gate.type)))
                b))
  status_gate_shows gate r s b e valid all names w =
      let (t, run, (valid', gates, events, sent)) =
        status_gate_ends h val there v c gate r s b e valid
          (subst (AllGates v gate) (sym (gate_types-shown gate.type)) all) names w in
      let shown =
        create_response-shown gate.namespace gate.name
          (λ x. v.gates s.store (record (gate_key gate) { type = x }))
          (v.events s.store (record (gate_key gate) { type = "" })) (gate_types gate.type) in
      (
        t,
        run,
        (
          valid',
          gates,
          events,
          sent
              ∙ ap (λ m. encoded_response (h.json.write_statuses m) b)
                  (shown
                    ∙ ap
                        (shown_statuses gate.namespace gate.name
                          (λ x. v.gates s.store (record (gate_key gate) { type = x }))
                          (v.events s.store (record (gate_key gate) { type = "" })))
                        (gate_types-shown gate.type)),
        ),
      )

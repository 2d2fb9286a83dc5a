-- ===== src/Handler/GateApi.antt =====
-- What the API that opens, closes and shows gates does, over any store that keeps the contract.
use canary_gate.Prelude.{
  String, ◌≡◌, refl, sym, ap, subst, ◌∙◌, Bool, true, false, Option, none, some, List, [], ◌∷◌,
}
use canary_gate.Runtime.Exec.{done}
use canary_gate.Service.{HookType, hook_event}
use canary_gate.Store.Defs.{gate_status, gate_open_text, gate_close_text}
use canary_gate.Store.Contract.{View, IsGateStore, GateSet, SameGates, SameEvents, Ends}
use canary_gate.Handler.Http.{
  HandlerState, Request, ResponseWriter, new_writer, status_ok, header_once,
  status_internal_server_error,
}
use canary_gate.Handler.Payload.{CanaryGatePayload, StatusMap, write_encoded}
use canary_gate.Handler.Flagger.{
  StoreValue, FlaggerHandler, gate_key, gate_types, create_response, open_gate, close_gate,
  collect_statuses, status_gate,
}
use canary_gate.Handler.Steps.{decode, response, read_payload-some, write_bytes_lem}

-- The response that carries the encoded text, or 500 where it could not be encoded.
abbrev pub encoded_response : Option String → Bool → ResponseWriter
encoded_response none b = record {
  status = some status_internal_server_error;
  body = "";
  broken = b;
}
encoded_response (some text) b = response status_ok text b

write_encoded_lem :
    {S N : Type 0} (o : Option String) (s : HandlerState S N) (b : Bool)
    → s.writer ≡ new_writer b
    → write_encoded o status_ok s ≡ (done tt, record s { writer = encoded_response o b })
unfolding write_encoded
write_encoded_lem none s b w = λ i. (
  done tt,
  record s {
    writer = record {
      status = header_once (w i).status status_internal_server_error;
      body = (w i).body;
      broken = (w i).broken;
    };
  },
)
write_encoded_lem (some text) s b w = write_bytes_lem text status_ok s b w

-- The statuses that are shown for a gate: one for each type asked for, then the last event.
abbrev pub statuses : String → String → (HookType → Bool) → List HookType → StatusMap → StatusMap
statuses ns name is_open [] m = m
statuses ns name is_open (t ∷ rest) m =
    statuses ns name is_open rest (create_response m ns name t (gate_status (is_open t)))

-- All of the types asked for name a gate.
abbrev pub AllGates : {S : Type 0} → View S → CanaryGatePayload → List HookType → Type 0
AllGates v gate [] = Unit {0}
AllGates v gate (t ∷ rest) = v.IsGate (record (gate_key gate) { type = t }) × AllGates v gate rest

-- The response to a request that sets a gate.
abbrev pub shown :
    {S N : Type 0}
    → FlaggerHandler S N
    → HandlerState S N
    → CanaryGatePayload
    → String
    → Bool
    → ResponseWriter
shown h s gate text b =
    encoded_response
      (h.json.write_statuses (create_response [] gate.namespace gate.name gate.type text)) b

module _ {S N : Type 0} (h : FlaggerHandler S N) (val : StoreValue S) (there : h.store ≡ some val)
    (v : View S) (c : IsGateStore val.methods v) where
  -- Over a store that keeps the contract, from a valid state and a response that is not begun, a
  -- request to open a gate that can be read opens that gate, changes no gate that is kept apart from
  -- it, records the message of the change, and shows the gate as opened.
  pub open_gate_opens :
      (gate : CanaryGatePayload) (r : Request) (s : HandlerState S N) (b : Bool)
      → decode h.json.read_gate r ≡ some gate
      → v.IsValid s.store
      → v.IsGate (gate_key gate)
      → s.writer ≡ new_writer b
      → Ends (open_gate h r) s tt (λ t.
        GateSet v (gate_key gate) true s.store t.store
        × (t.writer ≡ shown h s gate gate_open_text b))
  unfolding open_gate
  open_gate_opens gate r s b e valid is_gate w =
      let (t, run, set) = c.gate_open_sets s.store (gate_key gate) valid is_gate in
      (
        record s { store = t; writer = shown h s gate gate_open_text b },
        rw (read_payload-some h.json.read_gate r gate s e, there, run)
            (write_encoded_lem _ (record s { store = t }) b w),
        (set, refl),
      )

  -- Over a store that keeps the contract, from a valid state and a response that is not begun, a
  -- request to close a gate that can be read closes that gate, changes no gate that is kept apart from
  -- it, records the message of the change, and shows the gate as closed.
  pub close_gate_closes :
      (gate : CanaryGatePayload) (r : Request) (s : HandlerState S N) (b : Bool)
      → decode h.json.read_gate r ≡ some gate
      → v.IsValid s.store
      → v.IsGate (gate_key gate)
      → s.writer ≡ new_writer b
      → Ends (close_gate h r) s tt (λ t.
        GateSet v (gate_key gate) false s.store t.store
        × (t.writer ≡ shown h s gate gate_close_text b))
  unfolding close_gate
  close_gate_closes gate r s b e valid is_gate w =
      let (t, run, set) = c.gate_close_sets s.store (gate_key gate) valid is_gate in
      (
        record s { store = t; writer = shown h s gate gate_close_text b },
        rw (read_payload-some h.json.read_gate r gate s e, there, run)
            (write_encoded_lem _ (record s { store = t }) b w),
        (set, refl),
      )

  statuses_cong :
      (gate : CanaryGatePayload) (f g : HookType → Bool) (types : List HookType) (m : StatusMap)
      → AllGates v gate types
      → ((x : HookType) → v.IsGate (record (gate_key gate) { type = x }) → f x ≡ g x)
      → statuses gate.namespace gate.name f types m ≡ statuses gate.namespace gate.name g types m
  statuses_cong gate f g [] m all same = refl
  statuses_cong gate f g (x ∷ rest) m all same =
      ap
        (λ b.
          statuses gate.namespace gate.name f rest
            (create_response m gate.namespace gate.name x (gate_status b)))
        (same x all.0)
      ∙ statuses_cong gate f g rest _ all.1 same

  abbrev gates_of : CanaryGatePayload → S → HookType → Bool
  gates_of gate s x = v.gates s (record (gate_key gate) { type = x })

  collect_ends :
      (gate : CanaryGatePayload) (types : List HookType) (m : StatusMap) (s : HandlerState S N)
      → v.IsValid s.store
      → AllGates v gate types
      → (t : S) × (collect_statuses h gate types m s ≡ (
        done (statuses gate.namespace gate.name (gates_of gate s.store) types m),
        record s { store = t },
      ))
        × v.IsValid t
        × SameGates v s.store t
        × SameEvents v s.store t
  unfolding collect_statuses
  collect_ends gate [] m s valid all = (s.store, refl, valid, (λ j g. refl), (λ j g. refl))
  collect_ends gate (x ∷ rest) m s valid all =
      let (u, run, (valid', gates, events)) =
        c.is_gate_open_reads s.store (record (gate_key gate) { type = x }) valid all.0 in
      let m' =
        create_response m gate.namespace gate.name x (gate_status (gates_of gate s.store x)) in
      let (t, run', valid'', gates', events') =
        collect_ends gate rest m' (record s { store = u }) valid' all.1 in
      let same =
        statuses_cong gate (gates_of gate u) (gates_of gate s.store) rest m' all.1
          (λ y g. gates (record (gate_key gate) { type = y }) g) in
      (
        t,
        rw (there, run, run') (ap (λ r. (done r, record s { store = t })) same),
        valid'',
        (λ j g. gates' j g ∙ gates j g),
        (λ j g. events' j g ∙ events j g),
      )

  -- How a status request ends, in terms of the steps of the handler.
  pub status_gate_ends :
      (gate : CanaryGatePayload) (r : Request) (s : HandlerState S N) (b : Bool)
      → decode h.json.read_gate r ≡ some gate
      → v.IsValid s.store
      → AllGates v gate (gate_types gate.type)
      → v.IsCanary (record (gate_key gate) { type = "" })
      → s.writer ≡ new_writer b
      → Ends (status_gate h r) s tt (λ t.
        v.IsValid t.store
        × SameGates v s.store t.store
        × SameEvents v s.store t.store
        × (t.writer
            ≡ encoded_response
                (h.json.write_statuses (
                  create_response
                    (statuses gate.namespace gate.name
                      (gates_of gate s.store)
                      (gate_types gate.type)
                      [])
                    gate.namespace
                    gate.name
                    hook_event
                    (v.events s.store (record (gate_key gate) { type = "" }))))
                b))
  unfolding status_gate
  status_gate_ends gate r s b e valid all names w =
      let (t, run, valid', gates, events) =
        collect_ends gate (gate_types gate.type) [] s valid all in
      let key = record (gate_key gate) { type = "" } in
      let (t', run', same) = c.get_last_event_reads t key valid' names in
      let m = statuses gate.namespace gate.name (gates_of gate s.store) (gate_types gate.type) [] in
      let show = λ (e : String).
        encoded_response
          (h.json.write_statuses (create_response m gate.namespace gate.name hook_event e)) b in
      (
        record s { store = t'; writer = show (v.events t key) },
        rw (read_payload-some h.json.read_gate r gate s e, run, there, run')
            (write_encoded_lem _ (record s { store = t' }) b w),
        (
          subst v.IsValid (sym same) valid',
          (λ j g. ap (λ u. v.gates u j) same ∙ gates j g),
          (λ j g. ap (λ u. v.events u j) same ∙ events j g),
          ap show (events key names),
        ),
      )

-- ===== src/Store/Crd/Requests.antt =====
-- How many requests the store of CanaryGate resources sends to the API server.
use canary_gate.Prelude.{
  ℕ, suc, ◌+◌, ◌≤◌, arith, List, String, ◌≡◌, if◌then◌else◌, Bool, true, false, Bool-cases, none,
  some, inl, inr, ◌==◌,
}
use Prim.Native.Nat.{◌*◌}
use canary_gate.Runtime.Exec.{Exec}
use canary_gate.Runtime.Cost.{Costs, Costs-cases}
use canary_gate.Api.{CanaryGate}
use canary_gate.Kube.Api.{ok, err, Reply-cases, Object, is_not_found, is_status_error}
use canary_gate.Kube.Retry.{IsBounded}
use canary_gate.Kube.Requests.{IsCounted, Costs-on_conflict}
use canary_gate.Store.Defs.{StoreKey, set_message}
use canary_gate.Store.Refinement.{Call, opens, closes, is_open, records, last_event, run_calls}
use canary_gate.Store.Requests.{IsFrugal, Costs-run_calls, total}
use canary_gate.Store.Crd.{
  CanaryGateStore, canary_gate_store, with_content, get_canary_gate_namespace, new_canary_gate,
  create_canary_gate, get_canary_gate, create_canary_gate_and_get, update_gate_object, record_event,
  event_gate, update_event_once, update_event, set_gate, update_canary_gate_once,
  update_canary_gate, is_gate_open, get_last_event, gate_open, gate_close,
}

-- Recording an event of a gate is no request on a resource.
abbrev pub IsQuiet : {S F U : Type 0} (st : CanaryGateStore S F U) → (S → ℕ) → Type 0
IsQuiet {S} {F} {U} st asked =
    (g : Object (CanaryGate F)) (reason message : String) (s : S)
    → asked (st.recorder g reason message s) ≡ asked s

module _ {S F U : Type 0} (st : CanaryGateStore S F U) (counted : IsCounted st.client)
    (bound : IsBounded st.retry) (quiet : IsQuiet st counted.asked) (k : StoreKey) where
  abbrev ns : String
  ns = get_canary_gate_namespace st k

  Costs-create_canary_gate : Costs counted.asked 1 (create_canary_gate st k)
  unfolding create_canary_gate
  Costs-create_canary_gate s =
      let gate = new_canary_gate st k in
      elim (Reply-cases (st.converter.to_unstructured gate.content)) [
        | inl (u, e) ↦
            let asks = counted.create_asks s ns (with_content gate u) in
            rw (e, create_canary_gate) (omega arith)
        | inr (x, e) ↦ rw (e, create_canary_gate) (omega arith)
      ]

  Costs-get_canary_gate : Costs counted.asked 1 (get_canary_gate st k)
  unfolding get_canary_gate
  Costs-get_canary_gate s =
      let asks = counted.get_asks s ns k.name in
      elim (Reply-cases (st.client.get ns k.name s).0) [
        | inl (o, e) ↦ rw e (omega arith)
        | inr (x, e) ↦ rw e (omega arith)
      ]

  Costs-load : Costs counted.asked 3 (create_canary_gate_and_get st k)
  unfolding create_canary_gate_and_get
  Costs-load s = elim (Costs-cases counted.asked 1 (get_canary_gate st k) s Costs-get_canary_gate) [
    | inl (ok o, t, e, le) ↦ rw e (omega arith)
    | inl (err x, t, e, le) ↦ elim (Bool-cases (is_not_found x)) [
      | inl missing ↦
          elim (Costs-cases counted.asked 1 (create_canary_gate st k) t Costs-create_canary_gate) [
            | inl (a, u, e', le') ↦
                elim (Costs-cases counted.asked 1 (get_canary_gate st k) u Costs-get_canary_gate) [
                  | inl (r, w, e'', le'') ↦ rw (e, missing, if◌then◌else◌, e', e'') (omega arith)
                  | inr (p, w, e'', le'') ↦ rw (e, missing, if◌then◌else◌, e', e'') (omega arith)
                ]
            | inr (p, u, e', le') ↦ rw (e, missing, if◌then◌else◌, e') (omega arith)
          ]
      | inr failed ↦ elim (Bool-cases (is_status_error x)) [
        | inl b ↦ rw (e, failed, b, if◌then◌else◌) (omega arith)
        | inr b ↦ rw (e, failed, b, if◌then◌else◌) (omega arith)
      ]
    ]
    | inr (p, t, e, le) ↦ rw e (omega arith)
  ]

  Costs-update_gate_object :
      (c : ℕ) (o : Object (CanaryGate F)) (g : CanaryGate F) (and_then : Exec S (Unit {0}))
      → Costs counted.asked c and_then
      → Costs counted.asked (1 + c) (update_gate_object st k o g and_then)
  unfolding update_gate_object
  Costs-update_gate_object c o g and_then costs s =
      elim (Reply-cases (st.converter.to_unstructured g)) [
        | inr (x, e) ↦ rw (e, update_gate_object) (omega arith)
        | inl (u, e) ↦
            let asks = counted.update_asks s ns (with_content o u) in
            elim (Costs-cases counted.asked c and_then (st.client.update ns (with_content o u) s).1
              costs) [
                | inl (a, t, e', le) ↦ rw (e, update_gate_object, e') (omega arith)
                | inr (p, t, e', le) ↦ rw (e, update_gate_object, e') (omega arith)
              ]
      ]

  Costs-record_event : (status m : String) → Costs counted.asked 1 (record_event st k status m)
  unfolding record_event
  Costs-record_event status m s = elim (Bool-cases (m == "")) [
    | inl silent ↦ rw (silent, if◌then◌else◌) (omega arith)
    | inr loud ↦ elim (Costs-cases counted.asked 1 (get_canary_gate st k) s Costs-get_canary_gate) [
      | inl (ok o, t, e, le) ↦
          let same = quiet o status m t in rw (loud, if◌then◌else◌, e) (omega arith)
      | inl (err x, t, e, le) ↦ rw (loud, if◌then◌else◌, e) (omega arith)
      | inr (p, t, e, le) ↦ rw (loud, if◌then◌else◌, e) (omega arith)
    ]
  ]

  Costs-update_event_once :
      (status m : String) → Costs counted.asked 5 (update_event_once st k status m)
  unfolding update_event_once
  Costs-update_event_once status m s =
      elim (Costs-cases counted.asked 3 (create_canary_gate_and_get st k) s Costs-load) [
        | inl (ok (some o), t, e, le) ↦
            let rest =
              Costs-update_gate_object 1 o (event_gate st k status m o.content)
                (record_event st k status m) (Costs-record_event status m) t in
            rw e (omega arith)
        | inl (ok none, t, e, le) ↦ rw e (omega arith)
        | inl (err x, t, e, le) ↦ rw e (omega arith)
        | inr (p, t, e, le) ↦ rw e (omega arith)
      ]

  Costs-update_event :
      (status m : String) → Costs counted.asked (suc bound.more * 5) (update_event st k status m)
  unfolding update_event
  Costs-update_event status m s =
      let once = update_event_once st k status m in
      elim (Costs-cases counted.asked (suc bound.more * 5) (st.retry.on_conflict once) s (
        Costs-on_conflict counted.asked st.retry bound 5 once (Costs-update_event_once status m))) [
          | inl (a, t, e, le) ↦ rw e le
          | inr (p, t, e, le) ↦ rw e le
        ]

  module _ (b : Bool) where
    Costs-update_canary_gate_once :
        Costs counted.asked (4 + suc bound.more * 5) (update_canary_gate_once st k b)
    unfolding update_canary_gate_once
    Costs-update_canary_gate_once s =
        elim (Costs-cases counted.asked 3 (create_canary_gate_and_get st k) s Costs-load) [
          | inl (ok (some o), t, e, le) ↦
              let rest =
                Costs-update_gate_object (suc bound.more * 5) o (set_gate st k b o.content)
                  (update_event st k "Updated" (set_message k b))
                  (Costs-update_event "Updated" (set_message k b)) t in
              rw e (omega arith)
          | inl (ok none, t, e, le) ↦ rw e (omega arith)
          | inl (err x, t, e, le) ↦ rw e (omega arith)
          | inr (p, t, e, le) ↦ rw e (omega arith)
        ]

    Costs-update_canary_gate :
        Costs counted.asked (suc bound.more * (4 + suc bound.more * 5)) (update_canary_gate st k b)
    unfolding update_canary_gate
    Costs-update_canary_gate s =
        let once = update_canary_gate_once st k b in
        let c = 4 + suc bound.more * 5 in
        elim (Costs-cases counted.asked (suc bound.more * c) (st.retry.on_conflict once) s
          (Costs-on_conflict counted.asked st.retry bound c once Costs-update_canary_gate_once)) [
            | inl (a, t, e, le) ↦ rw e le
            | inr (p, t, e, le) ↦ rw e le
          ]

  Costs-is_gate_open : Costs counted.asked 3 (is_gate_open st k)
  unfolding is_gate_open
  Costs-is_gate_open s =
      elim (Costs-cases counted.asked 3 (create_canary_gate_and_get st k) s Costs-load) [
        | inl (ok (some o), t, e, le) ↦ rw e le
        | inl (ok none, t, e, le) ↦ rw e le
        | inl (err x, t, e, le) ↦ rw e le
        | inr (p, t, e, le) ↦ rw e le
      ]

  Costs-get_last_event : Costs counted.asked 1 (get_last_event st k)
  unfolding get_last_event
  Costs-get_last_event s =
      elim (Costs-cases counted.asked 1 (get_canary_gate st k) s Costs-get_canary_gate) [
        | inl (ok o, t, e, le) ↦ rw e le
        | inl (err x, t, e, le) ↦ rw e le
        | inr (p, t, e, le) ↦ rw e le
      ]

-- The most requests of a call, where the retry loop runs its function `tries` times at most.
abbrev pub cost_of : ℕ → Call → ℕ
cost_of tries (opens k) = tries * (4 + tries * 5)
cost_of tries (closes k) = tries * (4 + tries * 5)
cost_of tries (is_open k) = 3
cost_of tries (records k status message) = tries * 5
cost_of tries (last_event k) = 1

module _ {S F U : Type 0} (st : CanaryGateStore S F U) (counted : IsCounted st.client)
    (bound : IsBounded st.retry) (quiet : IsQuiet st counted.asked) where
  canary_gate_store-IsFrugal :
      IsFrugal (canary_gate_store st) counted.asked (cost_of (suc bound.more))
  unfolding gate_open gate_close
  canary_gate_store-IsFrugal = record {
    gate_open_costs = λ k. Costs-update_canary_gate st counted bound quiet k true;
    gate_close_costs = λ k. Costs-update_canary_gate st counted bound quiet k false;
    is_gate_open_costs = Costs-is_gate_open st counted bound quiet;
    update_event_costs = Costs-update_event st counted bound quiet;
    get_last_event_costs = Costs-get_last_event st counted bound quiet;
  }

  -- Whatever the API server answers, and also where a call panics, any calls on the store of CanaryGate
  -- resources send no more requests on resources than the sum over the calls of: three to ask for a
  -- gate, one to ask for the last event, five for each try of the retry loop to record an event, and
  -- four and those of an event for each try to set a gate. The requests of the recorder are not counted.
  pub canary_gate_store_costs :
      (calls : List Call) (s : S)
      → counted.asked (run_calls (canary_gate_store st) calls s).1
        ≤ total (cost_of (suc bound.more)) calls + counted.asked s
  canary_gate_store_costs calls s =
      Costs-run_calls (canary_gate_store st) counted.asked (cost_of (suc bound.more))
        canary_gate_store-IsFrugal calls s

-- ===== src/Store/ConfigMap/Requests.antt =====
-- How many requests the ConfigMap store sends to the API server.
use canary_gate.Prelude.{
  ℕ, suc, ◌+◌, ◌≤◌, arith, List, String, if◌then◌else◌, Bool, true, false, Bool-cases, Option-cases,
  some, inl, inr,
}
use Prim.Native.Nat.{◌*◌}
use canary_gate.Runtime.Cost.{Costs, Costs-cases}
use canary_gate.Runtime.Dict.{insert}
use canary_gate.Service.{hook_event}
use canary_gate.Kube.Api.{ok, err, Reply-cases, is_not_found, is_status_error}
use canary_gate.Kube.Retry.{IsBounded}
use canary_gate.Kube.Requests.{IsCounted, Costs-on_conflict}
use canary_gate.Store.Defs.{StoreKey, gate_status, set_message}
use canary_gate.Store.Refinement.{Call, opens, closes, is_open, records, last_event, run_calls}
use canary_gate.Store.Requests.{IsFrugal, Costs-run_calls, total}
use canary_gate.Store.ConfigMap.{
  gate_open, gate_close, config_map_store, ConfigMapStore, write_map, get_config_map_name,
  get_config_map_namespace, new_config_map, create_config_map, get_config_map,
  create_config_map_and_get, update_event_once, update_event, update_gate_once, update_gate,
  is_gate_open, get_last_event,
}

module _ {S : Type 0} (st : ConfigMapStore S) (counted : IsCounted st.client)
    (bound : IsBounded st.retry) (k : StoreKey) where
  Costs-load : Costs counted.asked 3 (create_config_map_and_get st k)
  unfolding create_config_map_and_get get_config_map create_config_map
  Costs-load s =
      let ns = get_config_map_namespace st k in
      let n = get_config_map_name k in
      let t = (st.client.get ns n s).1 in
      let u = (st.client.create ns (new_config_map st k) t).1 in
      let first = counted.get_asks s ns n in
      let second = counted.create_asks t ns (new_config_map st k) in
      let third = counted.get_asks u ns n in
      elim (Reply-cases (st.client.get ns n s).0) [
        | inl (o, e) ↦ rw e (omega arith)
        | inr (x, e) ↦ elim (Bool-cases (is_not_found x)) [
          | inl missing ↦ rw (e, missing, if◌then◌else◌) (omega arith)
          | inr failed ↦ elim (Bool-cases (is_status_error x)) [
            | inl b ↦ rw (e, failed, b, if◌then◌else◌) (omega arith)
            | inr b ↦ rw (e, failed, b, if◌then◌else◌) (omega arith)
          ]
        ]
      ]

  Costs-update_event_once : (m : String) → Costs counted.asked 4 (update_event_once st k m)
  unfolding update_event_once write_map
  Costs-update_event_once m s =
      elim (Costs-cases counted.asked 3 (create_config_map_and_get st k) s Costs-load) [
        | inl (ok o, t, e, le) ↦ elim (Option-cases o.content) [
          | inl nil ↦ rw (e, nil, write_map) (omega arith)
          | inr (d, content) ↦
              let last =
                counted.update_asks t o.namespace
                  (record o { content = some (insert d hook_event m) }) in
              rw (e, content, write_map) (omega arith)
        ]
        | inl (err x, t, e, le) ↦ rw e (omega arith)
        | inr (p, t, e, le) ↦ rw e (omega arith)
      ]

  -- Recording an event sends at most four requests for each time that the retry loop runs its function.
  Costs-update_event :
      (status m : String) → Costs counted.asked (suc bound.more * 4) (update_event st k status m)
  unfolding update_event
  Costs-update_event status m s =
      elim (Costs-cases counted.asked (suc bound.more * 4)
        (st.retry.on_conflict (update_event_once st k m)) s
        (Costs-on_conflict counted.asked st.retry bound 4 (update_event_once st k m)
          (Costs-update_event_once m))) [
            | inl (a, t, e, le) ↦ rw e le
            | inr (p, t, e, le) ↦ rw e le
          ]

  module _ (b : Bool) where
    Costs-update_gate_once : Costs counted.asked (4 + suc bound.more * 4) (update_gate_once st k b)
    unfolding update_gate_once write_map
    Costs-update_gate_once s =
        elim (Costs-cases counted.asked 3 (create_config_map_and_get st k) s Costs-load) [
          | inl (ok o, t, e, le) ↦ elim (Option-cases o.content) [
            | inl nil ↦ rw (e, nil, write_map) (omega arith)
            | inr (d, content) ↦
                let set = record o { content = some (insert d k.type (gate_status b)) } in
                let u = (st.client.update o.namespace set t).1 in
                let asks = counted.update_asks t o.namespace set in
                elim (Costs-cases counted.asked (suc bound.more * 4)
                  (update_event st k "Updated" (set_message k b)) u
                  (Costs-update_event "Updated" (set_message k b))) [
                    | inl (a, w, e', le') ↦ rw (e, content, write_map, e') (omega arith)
                    | inr (p, w, e', le') ↦ rw (e, content, write_map, e') (omega arith)
                  ]
          ]
          | inl (err x, t, e, le) ↦ rw e (omega arith)
          | inr (p, t, e, le) ↦ rw e (omega arith)
        ]

    Costs-update_gate :
        Costs counted.asked (suc bound.more * (4 + suc bound.more * 4)) (update_gate st k b)
    unfolding update_gate
    Costs-update_gate s =
        let once = update_gate_once st k b in
        let c = 4 + suc bound.more * 4 in
        elim (Costs-cases counted.asked (suc bound.more * c) (st.retry.on_conflict once) s
          (Costs-on_conflict counted.asked st.retry bound c once Costs-update_gate_once)) [
            | inl (a, t, e, le) ↦ rw e le
            | inr (p, t, e, le) ↦ rw e le
          ]

  Costs-is_gate_open : Costs counted.asked 3 (is_gate_open st k)
  unfolding is_gate_open
  Costs-is_gate_open s =
      elim (Costs-cases counted.asked 3 (create_config_map_and_get st k) s Costs-load) [
        | inl (ok o, t, e, le) ↦ rw e le
        | inl (err x, t, e, le) ↦ rw e le
        | inr (p, t, e, le) ↦ rw e le
      ]

  Costs-get_last_event : Costs counted.asked 1 (get_last_event st k)
  unfolding get_last_event get_config_map
  Costs-get_last_event s =
      let ns = get_config_map_namespace st k in
      let n = get_config_map_name k in
      let asks = counted.get_asks s ns n in
      elim (Reply-cases (st.client.get ns n s).0) [
        | inl (o, e) ↦ rw e (omega arith)
        | inr (x, e) ↦ rw e (omega arith)
      ]

-- The most requests of a call, where the retry loop runs its function `tries` times at most.
abbrev pub cost_of : ℕ → Call → ℕ
cost_of tries (opens k) = tries * (4 + tries * 4)
cost_of tries (closes k) = tries * (4 + tries * 4)
cost_of tries (is_open k) = 3
cost_of tries (records k status message) = tries * 4
cost_of tries (last_event k) = 1

module _ {S : Type 0} (st : ConfigMapStore S) (counted : IsCounted st.client)
    (bound : IsBounded st.retry) where
  config_map_store-IsFrugal :
      IsFrugal (config_map_store st) counted.asked (cost_of (suc bound.more))
  unfolding gate_open gate_close
  config_map_store-IsFrugal = record {
    gate_open_costs = λ k. Costs-update_gate st counted bound k true;
    gate_close_costs = λ k. Costs-update_gate st counted bound k false;
    is_gate_open_costs = Costs-is_gate_open st counted bound;
    update_event_costs = Costs-update_event st counted bound;
    get_last_event_costs = Costs-get_last_event st counted bound;
  }

  -- Whatever the API server answers, and also where a call panics, any calls on the ConfigMap store send
  -- no more requests than the sum over the calls of: three to ask for a gate, one to ask for the last
  -- event, four for each try of the retry loop to record an event, and four and those of an event for
  -- each try to set a gate.
  pub config_map_store_costs :
      (calls : List Call) (s : S)
      → counted.asked (run_calls (config_map_store st) calls s).1
        ≤ total (cost_of (suc bound.more)) calls + counted.asked s
  config_map_store_costs calls s =
      Costs-run_calls (config_map_store st) counted.asked (cost_of (suc bound.more))
        config_map_store-IsFrugal calls s

-- ===== src/Tests/Requests.antt =====
-- The requests of the stores of the cluster while another client writes to the same objects.
use canary_gate.Prelude.{ℕ, suc, refl, ◌+◌, ◌≤◌}
use canary_gate.Kube.Api.{Object, Reply, Resource}
use canary_gate.Kube.Requests.{IsCounted}
use canary_gate.Store.Refinement.{run_calls}
use canary_gate.Store.Requests.{total}
use canary_gate.Store.ConfigMap.{ConfigMapStore, Data, config_map_store}
use canary_gate.Store.ConfigMap.Requests as MapRequests
use canary_gate.Store.ConfigMap.Requests.{config_map_store_costs}
use canary_gate.Store.Crd.{CanaryGateStore, canary_gate_store}
use canary_gate.Store.Crd.Requests as GateRequests
use canary_gate.Store.Crd.Requests.{canary_gate_store_costs}
use canary_gate.Tests.Clients.{Gate, plain_converter}
use canary_gate.Tests.Cluster.{five_attempts, five_attempts-IsBounded}
use canary_gate.Tests.Rivals.{Shared, shared_client}
use canary_gate.Tests.Interference.{shared, shared_gate, calls}

-- A world and the number of requests that it has answered.
record Counted (S : Type 0) : Type 0 where
  world : S
  asked : ℕ

module _ {S D : Type 0} where
  abbrev counting : (S → Reply (Object D) × S) → Counted S → Reply (Object D) × Counted S
  counting f s = ((f s.world).0, record { world = (f s.world).1; asked = suc s.asked })

  abbrev counted_client : Resource S D → Resource (Counted S) D
  counted_client r = record {
    get = λ ns n. counting (r.get ns n);
    create = λ ns o. counting (r.create ns o);
    update = λ ns o. counting (r.update ns o);
  }

  abbrev counted_client-IsCounted : (r : Resource S D) → IsCounted (counted_client r)
  counted_client-IsCounted r = record {
    asked = λ s. s.asked;
    get_asks = λ s ns n. refl;
    create_asks = λ s ns o. refl;
    update_asks = λ s ns o. refl;
  }

abbrev counted_maps : ConfigMapStore (Counted (Shared Data))
counted_maps = record {
  client = counted_client shared_client;
  retry = five_attempts;
  config_ns = "";
}

abbrev map_start : Counted (Shared Data)
map_start = record { world = shared; asked = 0 }

config_map_store_costs_example :
    (run_calls (config_map_store counted_maps) calls map_start).1.asked
    ≤ total (MapRequests.cost_of 5) calls + 0
config_map_store_costs_example =
    config_map_store_costs counted_maps (counted_client-IsCounted shared_client)
      five_attempts-IsBounded calls map_start

abbrev counted_gates : CanaryGateStore (Counted (Shared Gate)) (Unit {0}) Gate
counted_gates = record {
  client = counted_client shared_client;
  converter = plain_converter;
  retry = five_attempts;
  recorder = λ g reason message s. s;
  config_ns = "";
  no_flagger = tt;
}

abbrev gate_start : Counted (Shared Gate)
gate_start = record { world = shared_gate; asked = 0 }

canary_gate_store_costs_example :
    (run_calls (canary_gate_store counted_gates) calls gate_start).1.asked
    ≤ total (GateRequests.cost_of 5) calls + 0
canary_gate_store_costs_example =
    canary_gate_store_costs counted_gates (counted_client-IsCounted shared_client)
      five_attempts-IsBounded (λ g reason message s. refl) calls gate_start

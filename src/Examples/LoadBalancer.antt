-- ===== src/Examples/LoadBalancer.antt =====
-- The theorems on the choice of a node at concrete inputs: three nodes, of which the first is ill.
use zero_frameworks.Base.{ℕ, ◌≡◌, refl, true, false, List, [], ◌∷◌, some, arith}
use zero_frameworks.Base.Bytes.{codes}
use zero_frameworks.Base.Int.{pos}
use zero_frameworks.Rpc.LoadBalancer.{
  RpcNode, RpcLbContext, RpcLoadBalancer, canary, healthy_at, select_node, select_round_robin,
  select_least_connections,
}
use zero_frameworks.Rpc.LoadBalancer.Choice.{Healthy, select_node-Healthy}
use zero_frameworks.Rpc.LoadBalancer.Round.{NextHealthy, select_round_robin-NextHealthy}
use zero_frameworks.Rpc.LoadBalancer.Least.{Fewest, select_least_connections-Fewest}

abbrev nodes : List RpcNode
nodes =
    record {
      id = codes "a";
      host = codes "10.0.0.1";
      port = pos 80;
      weight = pos 1;
      healthy = false;
      active_requests = 0;
      total_requests = 9;
      failed_requests = 9;
      metadata = [];
    }
    ∷ record {
      id = codes "b";
      host = codes "10.0.0.2";
      port = pos 80;
      weight = pos 1;
      healthy = true;
      active_requests = 5;
      total_requests = 9;
      failed_requests = 0;
      metadata = (codes "canary", codes "true") ∷ [];
    }
    ∷ record {
      id = codes "c";
      host = codes "10.0.0.3";
      port = pos 80;
      weight = pos 2;
      healthy = true;
      active_requests = 3;
      total_requests = 9;
      failed_requests = 0;
      metadata = [];
    }
    ∷ []

abbrev balancer : RpcLoadBalancer
balancer = record { strategy = canary; nodes = nodes; rr_index = 6; wrr_index = 0 }

abbrev context : RpcLbContext
context = record { source_key = codes "user"; zone = []; canary = true; canary_tag = [] }

select_node-Healthy_example : Healthy nodes (select_node context 4 balancer).1
select_node-Healthy_example = select_node-Healthy context 4 balancer

second_healthy : healthy_at nodes 1 ≡ true
unfolding healthy_at
second_healthy = refl

select_round_robin-NextHealthy_example :
    NextHealthy nodes 6 3 (select_round_robin balancer).1
    × ((select_round_robin balancer).0 ≡ record balancer { rr_index = 7 })
select_round_robin-NextHealthy_example =
    select_round_robin-NextHealthy balancer 1 (omega arith) second_healthy

select_least_connections-Fewest_example :
    (k : ℕ) × (select_least_connections nodes ≡ some k) × Fewest nodes k
select_least_connections-Fewest_example =
    select_least_connections-Fewest nodes 1 second_healthy (omega arith)

-- ===== src/Rpc/LoadBalancer.antt =====
-- zero/rpc/rpc_load_balancer.h and .cc: `RpcLoadBalancer`. A choice is the number of a node, or `none`
-- for -1. What `rand` returns is an argument.
pub mod Indices
pub mod Choice
pub mod Round
pub mod Least
use Prim.Native.Nat.{bit_xor}
use zero_frameworks.Base.{
  ℕ, zero, suc, ◌+◌, ◌-◌, ◌*◌, ◌%◌, ◌^◌, Bool, true, false, not, ◌&&◌, ◌||◌, List, [], ◌∷◌, map,
  if◌then◌else◌, Option, none, some, ◌==◌, ltb, leb, length, get_elem?,
}
use zero_frameworks.Base.Bytes.{Bytes, codes, beq}
use zero_frameworks.Base.Assoc.{Assoc, lookup, bytes_eq}
use zero_frameworks.Base.Int.{ℤ, pos, negsuc, pos_part, ◌+ℤ◌, leb_ℤ, ltb_ℤ, wrap32}

pub record RpcNode : Type 0 where
  pub id : Bytes
  pub host : Bytes
  pub port : ℤ
  pub weight : ℤ
  pub healthy : Bool
  pub active_requests : ℕ
  pub total_requests : ℕ
  pub failed_requests : ℕ
  pub metadata : Assoc Bytes Bytes

pub record RpcLbContext : Type 0 where
  pub source_key : Bytes
  pub zone : Bytes
  pub canary : Bool
  pub canary_tag : Bytes

pub data LoadBalanceStrategy : Type 0 where
  round_robin random least_connections weighted_round_robin weighted_random consistent_hash :
      LoadBalanceStrategy
  canary same_zone : LoadBalanceStrategy

pub record RpcLoadBalancer : Type 0 where
  pub strategy : LoadBalanceStrategy
  pub nodes : List RpcNode
  pub rr_index : ℕ
  pub wrr_index : ℕ

-- The counts of the requests begin anew.
abbrev uncounted : RpcNode → RpcNode
uncounted n = record n { active_requests = 0; total_requests = 0; failed_requests = 0 }

unfoldable pub update_nodes : List RpcNode → RpcLoadBalancer → RpcLoadBalancer
update_nodes nodes lb = record lb { nodes = map uncounted nodes }

-- The numbers of the nodes that pass a test, from a number on.
unfoldable pub indices : (RpcNode → Bool) → ℕ → List RpcNode → List ℕ
indices test i [] = []
indices test i (n ∷ nodes) =
    let rest = indices test (suc i) nodes in if test n then i ∷ rest else rest

-- `candidates[hash % candidates.size()]`
unfoldable pub pick : List ℕ → ℕ → Option ℕ
pick [] hash = none
pick (c ∷ candidates) hash = get_elem? (c ∷ candidates) (hash % length (c ∷ candidates))

unfoldable pub healthy_at : List RpcNode → ℕ → Bool
healthy_at [] i = false
healthy_at (n ∷ nodes) zero = n.healthy
healthy_at (n ∷ nodes) (suc i) = healthy_at nodes i

-- The loop of `selectRoundRobin`, by the number of its rounds.
unfoldable pub rr_loop : List RpcNode → ℕ → ℕ → Option ℕ
unfolding healthy_at
rr_loop nodes at zero = none
rr_loop nodes at (suc rounds) =
    let rest = rr_loop nodes ((at + 1) % 2 ^ 64) rounds in
    if healthy_at nodes (at % length nodes) then some (at % length nodes) else rest

unfoldable pub select_round_robin : RpcLoadBalancer → RpcLoadBalancer × Option ℕ
unfolding rr_loop
select_round_robin lb = if length lb.nodes == 0 then (lb, none) else (
  record lb { rr_index = (lb.rr_index + 1) % 2 ^ 64 },
  rr_loop lb.nodes lb.rr_index (length lb.nodes),
)

unfoldable pub select_random : List RpcNode → ℕ → Option ℕ
unfolding indices pick
select_random nodes drawn = pick (indices (λ n. n.healthy) 0 nodes) drawn

-- The loop of `selectLeastConnections`: the choice so far, and its number of requests.
unfoldable pub least_loop : List RpcNode → ℕ → Option ℕ → ℕ → Option ℕ
least_loop [] i best min_active = best
least_loop (n ∷ nodes) i best min_active =
    if n.healthy && ltb n.active_requests min_active
    then least_loop nodes (suc i) (some i) n.active_requests
    else least_loop nodes (suc i) best min_active

unfoldable pub select_least_connections : List RpcNode → Option ℕ
unfolding least_loop
select_least_connections nodes = least_loop nodes 0 none (2 ^ 64 - 1)

unfoldable pub total_weight : ℤ → List RpcNode → ℤ
total_weight sum [] = sum
total_weight sum (n ∷ nodes) =
    total_weight (if n.healthy then wrap32 (sum +ℤ n.weight) else sum) nodes

unfoldable pub weight_loop : List RpcNode → ℕ → ℤ → ℤ → Option ℕ
weight_loop [] i current target = none
weight_loop (n ∷ nodes) i current target =
    let current' = if n.healthy then wrap32 (current +ℤ n.weight) else current in
    let rest = weight_loop nodes (suc i) current' target in
    if n.healthy && leb_ℤ target current' then some i else rest

-- Both weighted choices, by the number that picks the target.
unfoldable pub select_weighted : List RpcNode → ℕ → Option ℕ
unfolding total_weight weight_loop
select_weighted nodes number =
    let total = total_weight (pos 0) nodes in
    if leb_ℤ total (pos 0)
    then none
    else weight_loop nodes 0 (pos 0) (pos (number % pos_part total + 1))

unfoldable pub select_weighted_round_robin : RpcLoadBalancer → RpcLoadBalancer × Option ℕ
unfolding select_weighted
select_weighted_round_robin lb =
    if length lb.nodes == 0 || leb_ℤ (total_weight (pos 0) lb.nodes) (pos 0) then (lb, none) else (
      record lb { wrr_index = (lb.wrr_index + 1) % 2 ^ 64 },
      select_weighted lb.nodes lb.wrr_index,
    )

unfoldable pub fnv1a_loop : ℕ → Bytes → ℕ
fnv1a_loop h [] = h
fnv1a_loop h (c ∷ s) = fnv1a_loop (bit_xor h c * 1099511628211 % 2 ^ 64) s

unfoldable pub fnv1a_hash : Bytes → ℕ
unfolding fnv1a_loop
fnv1a_hash s = fnv1a_loop 14695981039346656037 s

unfoldable pub select_consistent_hash : RpcLbContext → List RpcNode → Option ℕ
unfolding fnv1a_hash indices pick
select_consistent_hash ctx nodes =
    pick (indices (λ n. n.healthy) 0 nodes) (fnv1a_hash ctx.source_key)

unfoldable pub has_value : Bytes → Bytes → RpcNode → Bool
has_value name value n = elim (lookup name n.metadata) [ none ↦ false | some v ↦ beq v value ]

unfoldable pub select_canary : RpcLbContext → List RpcNode → Option ℕ
unfolding fnv1a_hash indices pick has_value
select_canary ctx nodes =
    let is_canary = has_value (codes "canary") (codes "true") in
    let canaries = indices (λ n. n.healthy && is_canary n) 0 nodes in
    let stable = indices (λ n. n.healthy && not (is_canary n)) 0 nodes in
    if ctx.canary && not (length canaries == 0)
    then pick canaries
        (fnv1a_hash (if beq ctx.canary_tag [] then ctx.source_key else ctx.canary_tag))
    else (if length stable == 0
        then get_elem? canaries 0
        else pick stable (fnv1a_hash ctx.source_key))

unfoldable pub select_same_zone : RpcLbContext → List RpcNode → Option ℕ
unfolding fnv1a_hash indices pick has_value
select_same_zone ctx nodes =
    let in_zone = has_value (codes "zone") ctx.zone in
    let same = indices (λ n. n.healthy && in_zone n) 0 nodes in
    let other = indices (λ n. n.healthy && not (in_zone n)) 0 nodes in
    pick (if length same == 0 then other else same) (fnv1a_hash ctx.source_key)

unfoldable pub select_by :
    LoadBalanceStrategy → RpcLbContext → ℕ → RpcLoadBalancer → RpcLoadBalancer × Option ℕ
unfolding select_round_robin select_random select_least_connections select_weighted_round_robin
    select_weighted select_consistent_hash select_canary select_same_zone
select_by LoadBalanceStrategy.round_robin ctx drawn lb = select_round_robin lb
select_by LoadBalanceStrategy.random ctx drawn lb = (lb, select_random lb.nodes drawn)
select_by LoadBalanceStrategy.least_connections ctx drawn lb =
    (lb, select_least_connections lb.nodes)
select_by LoadBalanceStrategy.weighted_round_robin ctx drawn lb = select_weighted_round_robin lb
select_by LoadBalanceStrategy.weighted_random ctx drawn lb = (lb, select_weighted lb.nodes drawn)
select_by LoadBalanceStrategy.consistent_hash ctx drawn lb =
    (lb, select_consistent_hash ctx lb.nodes)
select_by LoadBalanceStrategy.canary ctx drawn lb = (lb, select_canary ctx lb.nodes)
select_by LoadBalanceStrategy.same_zone ctx drawn lb = (lb, select_same_zone ctx lb.nodes)

unfoldable pub select_node : RpcLbContext → ℕ → RpcLoadBalancer → RpcLoadBalancer × Option ℕ
unfolding select_by
select_node ctx drawn lb = select_by lb.strategy ctx drawn lb

unfoldable pub change_at : ℕ → (RpcNode → RpcNode) → List RpcNode → List RpcNode
change_at i f [] = []
change_at zero f (n ∷ nodes) = f n ∷ nodes
change_at (suc i) f (n ∷ nodes) = n ∷ change_at i f nodes

unfoldable pub change_node : ℤ → (RpcNode → RpcNode) → RpcLoadBalancer → RpcLoadBalancer
unfolding change_at
change_node (negsuc i) f lb = lb
change_node (pos i) f lb = record lb { nodes = change_at i f lb.nodes }

unfoldable pub mark_request_start : ℤ → RpcLoadBalancer → RpcLoadBalancer
unfolding change_node
mark_request_start index = change_node index λ n. record n {
  active_requests = (n.active_requests + 1) % 2 ^ 64;
  total_requests = (n.total_requests + 1) % 2 ^ 64;
}

unfoldable pub mark_request_end : ℤ → Bool → RpcLoadBalancer → RpcLoadBalancer
unfolding change_node
mark_request_end index success = change_node index λ n. record n {
  active_requests = if ltb 0 n.active_requests then n.active_requests - 1 else n.active_requests;
  failed_requests = if success then n.failed_requests else (n.failed_requests + 1) % 2 ^ 64;
}

unfoldable pub set_node_healthy : ℤ → Bool → RpcLoadBalancer → RpcLoadBalancer
unfolding change_node
set_node_healthy index healthy = change_node index λ n. record n { healthy = healthy }

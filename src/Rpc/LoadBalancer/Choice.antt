-- ===== src/Rpc/LoadBalancer/Choice.antt =====
-- Every strategy chooses a healthy node, and all but the weighted ones find one.
use zero_frameworks.Base.{
  ℕ, zero, suc, ◌+◌, ◌-◌, ◌%◌, ◌^◌, ◌≡◌, refl, sym, Bool, true, false, not, ◌&&◌, ◌||◌, List, [],
  ◌∷◌, if◌then◌else◌, Option, none, some, ◌==◌, ltb, length, get_elem?, arith, inl, inr, Bool-cases,
}
use zero_frameworks.Base.Bytes.{codes, beq}
use zero_frameworks.Base.Int.{ℤ, pos, leb_ℤ, wrap32, ◌+ℤ◌}
use zero_frameworks.Rpc.LoadBalancer.{
  RpcNode, RpcLbContext, LoadBalanceStrategy, RpcLoadBalancer, indices, pick, healthy_at, rr_loop,
  select_round_robin, select_random, least_loop, select_least_connections, total_weight,
  weight_loop, select_weighted, select_weighted_round_robin, select_consistent_hash, select_canary,
  select_same_zone, has_value, select_by, select_node, fnv1a_hash,
}
use zero_frameworks.Rpc.LoadBalancer.Indices.{
  HealthyFrom, OfHealthy, later, here, indices-HealthyFrom, get_elem?-All,
}

-- What holds of a choice, if there is one.
abbrev pub Holds : (ℕ → Type 0) → Option ℕ → Type 0
Holds Q none = Unit {0}
Holds Q (some j) = Q j

abbrev pub Healthy : List RpcNode → Option ℕ → Type 0
Healthy nodes = Holds (λ j. healthy_at nodes j ≡ true)

HealthyFrom-zero :
    (nodes : List RpcNode) (j : ℕ) → HealthyFrom 0 nodes j → healthy_at nodes j ≡ true
HealthyFrom-zero nodes j (low, well) = let all : j - 0 ≡ j = omega arith in rw (sym all) well

found-Healthy :
    (nodes : List RpcNode) (test : RpcNode → Bool) (k : ℕ)
    → OfHealthy test
    → Healthy nodes (get_elem? (indices test 0 nodes) k)
found-Healthy nodes test k only = go (get_elem? (indices test 0 nodes) k) refl
  where
    go : (o : Option ℕ) → get_elem? (indices test 0 nodes) k ≡ o → Healthy nodes o
    go none e = tt
    go (some j) e = HealthyFrom-zero nodes j (
        get_elem?-All (HealthyFrom 0 nodes) (indices test 0 nodes) k j
          (indices-HealthyFrom test 0 nodes only) e)

pick-get :
    (candidates : List ℕ) (hash : ℕ) → (k : ℕ) × (pick candidates hash ≡ get_elem? candidates k)
unfolding pick
pick-get [] hash = (0, refl)
pick-get (c ∷ candidates) hash = (hash % length (c ∷ candidates), refl)

picked-Healthy :
    (nodes : List RpcNode) (test : RpcNode → Bool) (hash : ℕ)
    → OfHealthy test
    → Healthy nodes (pick (indices test 0 nodes) hash)
picked-Healthy nodes test hash only =
    let (k, same) = pick-get (indices test 0 nodes) hash in
    rw same (found-Healthy nodes test k only)

both : (a b : Bool) → (a && b) ≡ true → a ≡ true
both true b h = refl
both false b h = h

rr_loop-Healthy : (nodes : List RpcNode) (at rounds : ℕ) → Healthy nodes (rr_loop nodes at rounds)
unfolding rr_loop
rr_loop-Healthy nodes at zero = tt
rr_loop-Healthy nodes at (suc rounds) = elim (Bool-cases (healthy_at nodes (at % length nodes))) [
  | inl well ↦ rw (well) well
  | inr ill ↦ rw ill (rr_loop-Healthy nodes ((at + 1) % 2 ^ 64) rounds)
]

-- What the choices by comparison keep: `Q` of the best node so far and of every healthy node.
module _ (Q : ℕ → Type 0) where
  least_loop-Holds :
      (nodes : List RpcNode) (i : ℕ) (best : Option ℕ) (min_active : ℕ)
      → ((j : ℕ) → HealthyFrom i nodes j → Q j)
      → Holds Q best
      → Holds Q (least_loop nodes i best min_active)
  unfolding least_loop
  least_loop-Holds [] i best min_active all holds = holds
  least_loop-Holds (n ∷ nodes) i best min_active all holds =
      elim (Bool-cases (n.healthy && ltb n.active_requests min_active)) [
        | inl better ↦ rw better (
            least_loop-Holds nodes (suc i) (some i) n.active_requests
              (λ j h. all j (later i j n nodes h))
              (all i (here i n nodes (both n.healthy _ better))))
        | inr worse ↦ rw worse (
            least_loop-Holds nodes (suc i) best min_active (λ j h. all j (later i j n nodes h))
              holds)
      ]

  weight_loop-Holds :
      (nodes : List RpcNode) (i : ℕ) (current target : ℤ)
      → ((j : ℕ) → HealthyFrom i nodes j → Q j)
      → Holds Q (weight_loop nodes i current target)
  unfolding weight_loop
  weight_loop-Holds [] i current target all = tt
  weight_loop-Holds (n ∷ nodes) i current target all =
      let current' = if n.healthy then wrap32 (current +ℤ n.weight) else current in
      elim (Bool-cases (n.healthy && leb_ℤ target current')) [
        | inl reached ↦ rw reached (all i (here i n nodes (both n.healthy _ reached)))
        | inr short ↦
            rw short
              (weight_loop-Holds nodes (suc i) current' target (λ j h. all j (later i j n nodes h)))
      ]

select_weighted-Healthy :
    (nodes : List RpcNode) (number : ℕ) → Healthy nodes (select_weighted nodes number)
unfolding select_weighted
select_weighted-Healthy nodes number =
    elim (Bool-cases (leb_ℤ (total_weight (pos 0) nodes) (pos 0))) [
      | inl idle ↦ rw idle tt
      | inr positive ↦ rw positive (
          weight_loop-Holds (λ j. healthy_at nodes j ≡ true) nodes 0 (pos 0) _
            (HealthyFrom-zero nodes))
    ]

if-Healthy :
    (nodes : List RpcNode) (b : Bool) (x y : Option ℕ)
    → Healthy nodes x
    → Healthy nodes y
    → Healthy nodes (if b then x else y)
if-Healthy nodes true x y hx hy = hx
if-Healthy nodes false x y hx hy = hy

round_robin-Healthy : (lb : RpcLoadBalancer) → Healthy lb.nodes (select_round_robin lb).1
unfolding select_round_robin
round_robin-Healthy lb = elim (Bool-cases (length lb.nodes == 0)) [
  | inl nobody ↦ rw nobody tt
  | inr somebody ↦ rw somebody (rr_loop-Healthy lb.nodes lb.rr_index (length lb.nodes))
]

weighted-Healthy : (lb : RpcLoadBalancer) → Healthy lb.nodes (select_weighted_round_robin lb).1
unfolding select_weighted_round_robin
weighted-Healthy lb =
    elim (Bool-cases (length lb.nodes == 0 || leb_ℤ (total_weight (pos 0) lb.nodes) (pos 0))) [
      | inl nobody ↦ rw nobody tt
      | inr somebody ↦ rw somebody (select_weighted-Healthy lb.nodes lb.wrr_index)
    ]

picked_of-Healthy :
    (nodes : List RpcNode) (b : Bool) (test test' : RpcNode → Bool) (hash : ℕ)
    → OfHealthy test
    → OfHealthy test'
    → Healthy nodes (pick (if b then indices test 0 nodes else indices test' 0 nodes) hash)
picked_of-Healthy nodes true test test' hash only only' = picked-Healthy nodes test hash only
picked_of-Healthy nodes false test test' hash only only' = picked-Healthy nodes test' hash only'

first_of : (test : RpcNode → Bool) → OfHealthy (λ n. n.healthy && test n)
first_of test n passed = both n.healthy (test n) passed

canary-Healthy :
    (ctx : RpcLbContext) (nodes : List RpcNode) → Healthy nodes (select_canary ctx nodes)
unfolding select_canary
canary-Healthy ctx nodes =
    let is_canary = has_value (codes "canary") (codes "true") in
    let canaries = indices (λ n. n.healthy && is_canary n) 0 nodes in
    let stable = indices (λ n. n.healthy && not (is_canary n)) 0 nodes in
    let by_key = fnv1a_hash ctx.source_key in
    let by_tag = fnv1a_hash (if beq ctx.canary_tag [] then ctx.source_key else ctx.canary_tag) in
    if-Healthy nodes (ctx.canary && not (length canaries == 0)) (pick canaries by_tag)
      (if length stable == 0 then get_elem? canaries 0 else pick stable by_key)
      (picked-Healthy nodes (λ n. n.healthy && is_canary n) by_tag (first_of is_canary))
      (if-Healthy nodes (length stable == 0) (get_elem? canaries 0) (pick stable by_key)
        (found-Healthy nodes (λ n. n.healthy && is_canary n) 0 (first_of is_canary))
        (picked-Healthy nodes (λ n. n.healthy && not (is_canary n)) by_key
          (first_of λ n. not (is_canary n))))

zone-Healthy :
    (ctx : RpcLbContext) (nodes : List RpcNode) → Healthy nodes (select_same_zone ctx nodes)
unfolding select_same_zone
zone-Healthy ctx nodes =
    let in_zone = has_value (codes "zone") ctx.zone in
    picked_of-Healthy nodes (length (indices (λ n. n.healthy && in_zone n) 0 nodes) == 0)
      (λ n. n.healthy && not (in_zone n)) (λ n. n.healthy && in_zone n) (fnv1a_hash ctx.source_key)
      (first_of λ n. not (in_zone n)) (first_of in_zone)

select_by-Healthy :
    (strategy : LoadBalanceStrategy) (ctx : RpcLbContext) (drawn : ℕ) (lb : RpcLoadBalancer)
    → Healthy lb.nodes (select_by strategy ctx drawn lb).1
unfolding select_by select_round_robin select_random select_least_connections
    select_weighted_round_robin select_consistent_hash select_canary select_same_zone
select_by-Healthy LoadBalanceStrategy.round_robin ctx drawn lb = round_robin-Healthy lb
select_by-Healthy LoadBalanceStrategy.random ctx drawn lb =
    picked-Healthy lb.nodes (λ n. n.healthy) drawn (λ n well. well)
select_by-Healthy LoadBalanceStrategy.least_connections ctx drawn lb =
    least_loop-Holds (λ j. healthy_at lb.nodes j ≡ true) lb.nodes 0 none _
      (HealthyFrom-zero lb.nodes) tt
select_by-Healthy LoadBalanceStrategy.weighted_round_robin ctx drawn lb = weighted-Healthy lb
select_by-Healthy LoadBalanceStrategy.weighted_random ctx drawn lb =
    select_weighted-Healthy lb.nodes drawn
select_by-Healthy LoadBalanceStrategy.consistent_hash ctx drawn lb =
    picked-Healthy lb.nodes (λ n. n.healthy) (fnv1a_hash ctx.source_key) (λ n well. well)
select_by-Healthy LoadBalanceStrategy.canary ctx drawn lb = canary-Healthy ctx lb.nodes
select_by-Healthy LoadBalanceStrategy.same_zone ctx drawn lb = zone-Healthy ctx lb.nodes

-- Whatever the strategy, the context and the random number, the node that is chosen is healthy.
pub select_node-Healthy :
    (ctx : RpcLbContext) (drawn : ℕ) (lb : RpcLoadBalancer)
    → Healthy lb.nodes (select_node ctx drawn lb).1
unfolding select_node
select_node-Healthy ctx drawn lb = select_by-Healthy lb.strategy ctx drawn lb

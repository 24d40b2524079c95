-- ===== src/Rpc/LoadBalancer/Least.antt =====
-- The choice of the least connections.
use zero_frameworks.Base.{
  ℕ, zero, suc, ◌+◌, ◌-◌, ◌^◌, ◌≤◌, ◌<◌, ◌≡◌, refl, ◌∙◌, ap, true, false, ◌&&◌, List, [], ◌∷◌,
  Option, none, some, ltb, arith, inl, inr, ◌⊎◌, Bool-cases,
}
use zero_frameworks.Rpc.LoadBalancer.{RpcNode, healthy_at, least_loop, select_least_connections}

abbrev pub active_at : List RpcNode → ℕ → ℕ
active_at [] k = 0
active_at (n ∷ nodes) zero = n.active_requests
active_at (n ∷ nodes) (suc k) = active_at nodes k

-- No healthy node has fewer requests than a number.
abbrev pub AtLeast : List RpcNode → ℕ → Type 0
AtLeast nodes bound = (k : ℕ) → healthy_at nodes k ≡ true → bound ≤ active_at nodes k

-- A healthy node that has the fewest requests of all healthy nodes.
pub record Fewest (nodes : List RpcNode) (k : ℕ) : Type 0 where
  pub healthy : healthy_at nodes k ≡ true
  pub fewest : AtLeast nodes (active_at nodes k)

Outcome : List RpcNode → ℕ → Option ℕ → ℕ → Option ℕ → Type 0
Outcome nodes i best bound choice =
    ((choice ≡ best) × AtLeast nodes bound)
    ⊎ ((k : ℕ) × (choice ≡ some (i + k)) × (active_at nodes k < bound) × Fewest nodes k)

module _ (n : RpcNode) (nodes : List RpcNode) (i : ℕ) (best : Option ℕ) (bound : ℕ) where
  at_least :
      (b : ℕ) → (n.healthy ≡ true → b ≤ n.active_requests) → AtLeast nodes b → AtLeast (n ∷ nodes) b
  unfolding healthy_at
  at_least b first rest zero well = first well
  at_least b first rest (suc k) well = rest k well

  chosen_behind :
      (choice : Option ℕ) (k : ℕ) → choice ≡ some (suc i + k) → choice ≡ some (i + suc k)
  chosen_behind choice k chosen = chosen ∙ ap some (omega arith)

  better-Outcome :
      (choice : Option ℕ)
      → n.healthy ≡ true
      → n.active_requests < bound
      → Outcome nodes (suc i) (some i) n.active_requests choice
      → Outcome (n ∷ nodes) i best bound choice
  unfolding Outcome healthy_at
  better-Outcome choice well fewer (inl (same, all)) = inr (
    0,
    same ∙ ap some (omega arith),
    fewer,
    record { healthy = well; fewest = at_least n.active_requests (λ _. omega arith) all },
  )
  better-Outcome choice well fewer (inr (k, chosen, less, f)) = inr (
    suc k,
    chosen_behind choice k chosen,
    omega (arith, less, fewer),
    record {
      healthy = f.healthy;
      fewest = at_least (active_at nodes k) (λ _. omega (arith, less)) f.fewest;
    },
  )

  worse-Outcome :
      (choice : Option ℕ)
      → (n.healthy && ltb n.active_requests bound) ≡ false
      → Outcome nodes (suc i) best bound choice
      → Outcome (n ∷ nodes) i best bound choice
  unfolding Outcome healthy_at
  worse-Outcome choice worse (inl (same, all)) =
      inl (same, at_least bound (λ well. ground (arith, worse, well)) all)
  worse-Outcome choice worse (inr (k, chosen, less, f)) = inr (
    suc k,
    chosen_behind choice k chosen,
    less,
    record {
      healthy = f.healthy;
      fewest = at_least (active_at nodes k) (λ well. ground (arith, worse, well, less)) f.fewest;
    },
  )

least_loop-Outcome :
    (nodes : List RpcNode) (i : ℕ) (best : Option ℕ) (bound : ℕ)
    → Outcome nodes i best bound (least_loop nodes i best bound)
unfolding least_loop Outcome healthy_at
least_loop-Outcome [] i best bound = inl (refl, λ k well. cc)
least_loop-Outcome (n ∷ nodes) i best bound =
    elim (Bool-cases (n.healthy && ltb n.active_requests bound)) [
      | inl better ↦ rw better (
          better-Outcome n nodes i best bound _ (ground (arith, better)) (ground (arith, better))
            (least_loop-Outcome nodes (suc i) (some i) n.active_requests))
      | inr worse ↦
          rw worse (
            worse-Outcome n nodes i best bound _ worse
              (least_loop-Outcome nodes (suc i) best bound))
    ]

-- Where a healthy node has fewer requests than a `uint64_t` can count, a healthy node is chosen that
-- has the fewest.
pub select_least_connections-Fewest :
    (nodes : List RpcNode) (j : ℕ)
    → healthy_at nodes j ≡ true
    → active_at nodes j < 2 ^ 64 - 1
    → (k : ℕ) × (select_least_connections nodes ≡ some k) × Fewest nodes k
unfolding select_least_connections Outcome
select_least_connections-Fewest nodes j well counted =
    elim (least_loop-Outcome nodes 0 none (2 ^ 64 - 1)) [
      | inl (_, all) ↦ absurd (omega (arith, counted, all j well))
      | inr (k, chosen, _, f) ↦ (k, chosen ∙ ap some (omega arith), f)
    ]

-- ===== src/Rpc/LoadBalancer/Round.antt =====
-- The round robin: the next healthy node in the circle.
use native.Mathlib.Nat.{mod-lt, mod-eq_of_lt, mul-add-mod_self_left, div-add-mod}
use zero_frameworks.Base.{
  ℕ, zero, suc, ◌+◌, ◌-◌, ◌*◌, ◌/◌, ◌%◌, ◌^◌, ◌<◌, ◌≡◌, ◌≢◌, refl, sym, ◌∙◌, ap, true, false, List,
  [], ◌∷◌, Option, some, ◌==◌, leb, leb→le, length, arith, inl, inr, ◌⊎◌, Bool-cases,
}
use zero_frameworks.Rpc.LoadBalancer.{
  RpcNode, RpcLoadBalancer, healthy_at, rr_loop, select_round_robin,
}

-- The node that stands `i` behind the given number in the circle.
abbrev pub behind : List RpcNode → ℕ → ℕ → ℕ
behind nodes at i = (at + i) % length nodes

-- The first healthy node of the next ones.
pub record NextHealthy (nodes : List RpcNode) (at rounds : ℕ) (choice : Option ℕ) : Type 0 where
  pub steps : ℕ
  pub within : steps < rounds
  pub chosen : choice ≡ some (behind nodes at steps)
  pub healthy : healthy_at nodes (behind nodes at steps) ≡ true
  pub skipped : (i : ℕ) → i < steps → healthy_at nodes (behind nodes at i) ≡ false

AllIll : List RpcNode → ℕ → ℕ → Type 0
AllIll nodes at rounds = (i : ℕ) → i < rounds → healthy_at nodes (behind nodes at i) ≡ false

module _ (nodes : List RpcNode) where
  at_once : (at : ℕ) → behind nodes at 0 ≡ at % length nodes
  at_once at = ap (λ k. k % length nodes) (omega arith)

  one_on : (at i : ℕ) → behind nodes (at + 1) i ≡ behind nodes at (suc i)
  one_on at i = ap (λ k. k % length nodes) (omega arith)

  also_ill :
      (at rounds : ℕ)
      → healthy_at nodes (at % length nodes) ≡ false
      → AllIll nodes (at + 1) rounds
      → AllIll nodes at (suc rounds)
  unfolding AllIll
  also_ill at rounds ill rest zero inside = rw (at_once at) ill
  also_ill at rounds ill rest (suc i) inside =
      rw (sym (one_on at i)) (rest i (omega (arith, inside)))

  next_on :
      (at rounds : ℕ) (choice : Option ℕ)
      → healthy_at nodes (at % length nodes) ≡ false
      → NextHealthy nodes (at + 1) rounds choice
      → NextHealthy nodes at (suc rounds) choice
  next_on at rounds choice ill n = record {
    steps = suc n.steps;
    within = omega (arith, n.within);
    chosen = n.chosen ∙ ap some (one_on at n.steps);
    healthy = rw (sym (one_on at n.steps)) n.healthy;
    skipped = unfold AllIll in also_ill at n.steps ill n.skipped;
  }

  rr_loop_next :
      (at rounds : ℕ)
      → at + rounds < 2 ^ 64
      → AllIll nodes at rounds ⊎ NextHealthy nodes at rounds (rr_loop nodes at rounds)
  rr_loop_next at zero counted = unfold AllIll in inl (λ i inside. absurd (omega (arith, inside)))
  rr_loop_next at (suc rounds) counted = elim (Bool-cases (healthy_at nodes (at % length nodes))) [
    | inl well ↦ inr (record {
      steps = 0;
      within = omega arith;
      chosen = unfold rr_loop in rw (well, at_once at) refl;
      healthy = rw (at_once at) well;
      skipped = λ i before. absurd (omega (arith, before));
    })
    | inr ill ↦
        let unwrapped : (at + 1) % 2 ^ 64 ≡ at + 1 = omega (arith, counted) in
        elim (rr_loop_next (at + 1) rounds (omega (arith, counted))) [
          | inl all_ill ↦ inl (also_ill at rounds ill all_ill)
          | inr next ↦ inr (next_on at rounds _ ill (unfold rr_loop in rw (ill, unwrapped) next))
        ]
  ]

  -- Every node is one of the next ones.
  turn_comes :
      (at j : ℕ) → j < length nodes → (i : ℕ) × (i < length nodes) × (behind nodes at i ≡ j)
  turn_comes at j inside =
      let n = length nodes in
      let s = at % n in
      let parts = div-add-mod at n in
      let below : s < n = mod-lt at (omega (arith, inside)) in
      elim (Bool-cases (leb s j)) [
        | inl ahead ↦
            let low = leb→le s j ahead in
            let reach : at + (j - s) ≡ n * (at / n) + j = omega (arith, parts, low) in
            (
              j - s,
              omega (arith, inside),
              ap (λ k. k % n) reach ∙ mul-add-mod_self_left n (at / n) j ∙ mod-eq_of_lt inside,
            )
        | inr back ↦
            let high : j < s = ground (arith, back) in
            let reach : at + (n - s + j) ≡ n * (at / n + 1) + j = omega (arith, parts, below) in
            (
              n - s + j,
              omega (arith, high, below),
              ap (λ k. k % n) reach ∙ mul-add-mod_self_left n (at / n + 1) j ∙ mod-eq_of_lt inside,
            )
      ]

true-false : true ≢ false
true-false same = cc

healthy_inside : (nodes : List RpcNode) (j : ℕ) → healthy_at nodes j ≡ true → j < length nodes
unfolding healthy_at
healthy_inside [] j well = cc
healthy_inside (n ∷ nodes) zero well = omega arith
healthy_inside (n ∷ nodes) (suc j) well = omega (arith, healthy_inside nodes j well)

-- Where there is a healthy node and the index is further from where a `size_t` wraps around than
-- there are nodes, the round robin chooses the first healthy node in the circle from its index on,
-- and moves the index by one.
pub select_round_robin-NextHealthy :
    (lb : RpcLoadBalancer) (j : ℕ)
    → lb.rr_index + length lb.nodes < 2 ^ 64
    → healthy_at lb.nodes j ≡ true
    → NextHealthy lb.nodes lb.rr_index (length lb.nodes) (select_round_robin lb).1
      × ((select_round_robin lb).0 ≡ record lb { rr_index = lb.rr_index + 1 })
unfolding select_round_robin AllIll
select_round_robin-NextHealthy lb j counted well =
    let inside = healthy_inside lb.nodes j well in
    let somebody : (length lb.nodes == 0) ≡ false = ground (arith, inside) in
    let unwrapped : (lb.rr_index + 1) % 2 ^ 64 ≡ lb.rr_index + 1 = omega (arith, counted, inside) in
    let (i, near, there) = turn_comes lb.nodes lb.rr_index j inside in
    elim (rr_loop_next lb.nodes lb.rr_index (length lb.nodes) counted) [
      | inl all_ill ↦
          absurd (true-false (sym well ∙ ap (healthy_at lb.nodes) (sym there) ∙ all_ill i near))
      | inr next ↦ rw (somebody, unwrapped) (next, refl)
    ]

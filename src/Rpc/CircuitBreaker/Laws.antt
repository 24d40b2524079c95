-- ===== src/Rpc/CircuitBreaker/Laws.antt =====
-- The states that a breaker can reach, when it opens, and what it lets through while half open.
use Prim.Native.Nat.{min, max}
use zero_frameworks.Base.{
  ℕ, zero, suc, ◌-◌, ◌^◌, ◌≤◌, ◌<◌, ◌≡◌, refl, ap, true, false, List, [], ◌∷◌, length, inl, inr,
  if◌then◌else◌, arith, Bool-cases,
}
use zero_frameworks.Base.Int.{ℤ, pos, ◌≤ℤ◌, ◌<ℤ◌, leb_ℤ, wrap32, wrap32_id}
use zero_frameworks.Rpc.CircuitBreaker.{
  RpcCircuitState, Config, Breaker, new_breaker, transition_to, elapsed, allow_request,
  record_success, count_failure, record_failure,
}

-- A call on a breaker, with what it reads from the clock.
pub data Call : Type 0 where
  allow success failure : ℕ → Call

unfoldable pub perform : Config → Call → Breaker → Breaker
perform c (Call.allow now) b = (allow_request c now b).0
perform c (Call.success now) b = record_success c now b
perform c (Call.failure now) b = record_failure c now b

pub data Reachable (c : Config) : Breaker → Type 0 where
  start : Reachable c new_breaker
  next : (call : Call) (b : Breaker) → Reachable c b → Reachable c (perform c call b)

-- Thresholds of at least 1, and numbers that their types hold.
pub record Sensible (c : Config) : Type 0 where
  pub failures_needed : pos 0 <ℤ c.failure_threshold
  pub failures_fit : c.failure_threshold <ℤ pos (2 ^ 31)
  pub successes_needed : pos 0 <ℤ c.success_threshold
  pub successes_fit : c.success_threshold <ℤ pos (2 ^ 31)
  pub calls_fit : c.half_open_max_calls < 2 ^ 64

-- The counters of a breaker in each of its states.
abbrev pub Counted : Config → RpcCircuitState → ℤ → ℤ → ℕ → Type 0
Counted c RpcCircuitState.closed failures successes calls =
    (pos 0 ≤ℤ failures) × (failures <ℤ c.failure_threshold) × (successes ≡ pos 0) × (calls ≡ 0)
Counted c RpcCircuitState.opened failures successes calls = (successes ≡ pos 0) × (calls ≡ 0)
Counted c RpcCircuitState.half_open failures successes calls =
    (failures ≡ pos 0)
    × (pos 0 ≤ℤ successes)
    × (successes <ℤ c.success_threshold)
    × (1 ≤ calls)
    × (calls ≤ max 1 c.half_open_max_calls)

abbrev pub WellFormed : Config → Breaker → Type 0
WellFormed c b = Counted c b.state b.failures b.successes b.half_open_calls

module _ (c : Config) (ok : Sensible c) where
  perform-WellFormed :
      (call : Call) (b : Breaker) → WellFormed c b → WellFormed c (perform c call b)
  unfolding perform allow_request record_success record_failure count_failure transition_to wrap32
  perform-WellFormed (Call.allow now) b w = ground (arith, ok.calls_fit)
  perform-WellFormed (Call.success now) b w =
      ground (arith, ok.successes_needed, ok.successes_fit, ok.failures_needed, ok.failures_fit)
  perform-WellFormed (Call.failure now) b w = ground (arith, ok.failures_needed, ok.failures_fit)

  -- In every state that a breaker reaches, its counters are within their limits: a closed one has
  -- seen fewer failures than open it, a half-open one has fewer successes than close it and has
  -- admitted at least one call and no more than it may (or one), and none is left over from
  -- another state. The configuration is sensible.
  pub Reachable-WellFormed : (b : Breaker) → Reachable c b → WellFormed c b
  Reachable-WellFormed _ Reachable.start = ground (arith, ok.failures_needed)
  Reachable-WellFormed _ (Reachable.next call b r) =
      perform-WellFormed call b (Reachable-WellFormed b r)

-- A sequence of calls, and of requests for leave with the number of those that were let through.
unfoldable pub failures_from : Config → ℕ → (ℕ → ℕ) → Breaker → Breaker
failures_from c zero clock b = b
failures_from c (suc n) clock b = record_failure c (clock n) (failures_from c n clock b)

unfoldable pub admitted : Config → List ℕ → Breaker → Breaker × ℕ
admitted c [] b = (b, 0)
admitted c (now ∷ later) b =
    let (b', passed) = allow_request c now b in
    let (b'', n) = admitted c later b' in (b'', if passed then suc n else n)

module _ (c : Config) (ok : Sensible c) (clock : ℕ → ℕ) where
  failures_count :
      (n : ℕ)
      → pos n <ℤ c.failure_threshold
      → failures_from c n clock new_breaker ≡ record new_breaker { failures = pos n }
  unfolding failures_from record_failure count_failure
  failures_count zero small = refl
  failures_count (suc n) small =
      ground (arith, ok.failures_fit, failures_count n, wrap32_id (suc n))

  stays_open :
      (b : Breaker) (now : ℕ)
      → b.state ≡ RpcCircuitState.opened
      → (record_failure c now b).state ≡ RpcCircuitState.opened
  unfolding record_failure count_failure transition_to
  stays_open b now h = ground arith

  opens :
      (n : ℕ)
      → c.failure_threshold ≤ℤ pos n
      → (failures_from c n clock new_breaker).state ≡ RpcCircuitState.opened
  unfolding failures_from
  opens zero enough = absurd (omega (arith, ok.failures_needed))
  opens (suc n) enough = elim (Bool-cases (leb_ℤ c.failure_threshold (pos n))) [
    | inl before ↦
        stays_open (failures_from c n clock new_breaker) (clock n)
          (opens n (ground (arith, before)))
    | inr now ↦ rw (failures_count n (ground (arith, now))) (
        unfold record_failure count_failure transition_to in
        ground (arith, wrap32_id (suc n), ok.failures_fit))
  ]

  -- A new breaker that sees n failures and nothing else is closed while n is less than the failure
  -- threshold, and open from there on. The configuration is sensible.
  opens_at_threshold :
      (n : ℕ)
      → (failures_from c n clock new_breaker).state ≡ (
          if leb_ℤ c.failure_threshold (pos n)
          then RpcCircuitState.opened
          else RpcCircuitState.closed)
  opens_at_threshold n = elim (Bool-cases (leb_ℤ c.failure_threshold (pos n))) [
    | inl enough ↦ rw (enough) (opens n (ground (arith, enough)))
    | inr few ↦ rw (few) (ap (λ b. b.state) (failures_count n (ground (arith, few))))
  ]

module _ (c : Config) where
  trials :
      (times : List ℕ) (b : Breaker)
      → b.state ≡ RpcCircuitState.half_open
      → c.half_open_max_calls < 2 ^ 64
      → (admitted c times b).1 ≡ min (length times) (c.half_open_max_calls - b.half_open_calls)
  unfolding admitted allow_request
  trials [] b half fits = ground arith
  trials (now ∷ later) b half fits = ground (arith, trials later (allow_request c now b).0)

  -- An open breaker refuses every request until its time has passed. The first request after that
  -- makes it half open, and of the requests that follow it without a recorded outcome exactly the
  -- first `halfOpenMaxCalls - 1` are let through.
  open_then_trials :
      (b : Breaker) (now : ℕ) (times : List ℕ)
      → b.state ≡ RpcCircuitState.opened
      → c.half_open_max_calls < 2 ^ 64
      → (elapsed now b < c.open_duration_ms → allow_request c now b ≡ (b, false))
        × (c.open_duration_ms ≤ elapsed now b
            → (allow_request c now b).1 ≡ true
              × ((admitted c times (allow_request c now b).0).1
                  ≡ min (length times) (c.half_open_max_calls - 1)))
  unfolding allow_request transition_to
  open_then_trials b now times is_open fits = (
    λ early. ground arith,
    λ late. (ground arith, ground (arith, trials times (allow_request c now b).0)),
  )

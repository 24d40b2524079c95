-- ===== src/Rpc/CircuitBreaker.antt =====
-- zero/rpc/rpc_circuit_breaker.h and .cc: one breaker, and the manager that keeps one for each key.
-- A call takes the reading of the steady clock that it makes as an argument.
pub mod Laws
pub mod Keys
use zero_frameworks.Base.{
  ℕ, suc, ◌+◌, ◌-◌, ◌%◌, ◌^◌, Bool, true, false, List, [], ◌∷◌, if◌then◌else◌, Option, none, some,
  ltb, leb,
}
use zero_frameworks.Base.Bytes.{Bytes}
use zero_frameworks.Base.Assoc.{Assoc, lookup, insert, bytes_eq}
use zero_frameworks.Base.Int.{ℤ, pos, negsuc, ◌+ℤ◌, ◌-ℤ◌, leb_ℤ, ltb_ℤ, wrap32}

pub data RpcCircuitState : Type 0 where
  closed opened half_open : RpcCircuitState

-- The thresholds are of type `int`, the other two `uint64_t`.
pub record Config : Type 0 where
  pub failure_threshold : ℤ
  pub success_threshold : ℤ
  pub open_duration_ms : ℕ
  pub half_open_max_calls : ℕ

pub record Breaker : Type 0 where
  pub state : RpcCircuitState
  pub failures : ℤ
  pub successes : ℤ
  pub half_open_calls : ℕ
  pub opened_at : ℕ

abbrev pub new_breaker : Breaker
new_breaker = record {
  state = RpcCircuitState.closed;
  failures = pos 0;
  successes = pos 0;
  half_open_calls = 0;
  opened_at = 0;
}

-- `transitionTo`; only the opening reads the clock.
unfoldable pub transition_to : RpcCircuitState → ℕ → Breaker → Breaker
transition_to RpcCircuitState.closed now b = record b {
  state = RpcCircuitState.closed;
  failures = pos 0;
  successes = pos 0;
  half_open_calls = 0;
}
transition_to RpcCircuitState.opened now b = record b {
  state = RpcCircuitState.opened;
  opened_at = now;
  successes = pos 0;
  half_open_calls = 0;
}
transition_to RpcCircuitState.half_open now b = record b {
  state = RpcCircuitState.half_open;
  failures = pos 0;
  successes = pos 0;
  half_open_calls = 0;
}

-- The milliseconds since the opening, in 64 bits without sign.
abbrev pub elapsed : ℕ → Breaker → ℕ
elapsed now b = (now + 2 ^ 64 - b.opened_at) % 2 ^ 64

unfoldable pub allow_request : Config → ℕ → Breaker → Breaker × Bool
unfolding transition_to
allow_request c now b = elim b.state [
  | RpcCircuitState.closed ↦ (b, true)
  | RpcCircuitState.opened ↦
      if leb c.open_duration_ms (elapsed now b)
      then (record (transition_to RpcCircuitState.half_open now b) { half_open_calls = 1 }, true)
      else (b, false)
  | RpcCircuitState.half_open ↦
      if ltb b.half_open_calls c.half_open_max_calls
      then (record b { half_open_calls = (b.half_open_calls + 1) % 2 ^ 64 }, true)
      else (b, false)
]

unfoldable pub record_success : Config → ℕ → Breaker → Breaker
unfolding transition_to
record_success c now b = elim b.state [
  | RpcCircuitState.closed ↦
      if ltb_ℤ (pos 0) b.failures then record b { failures = wrap32 (b.failures -ℤ pos 1) } else b
  | RpcCircuitState.opened ↦ b
  | RpcCircuitState.half_open ↦
      let b' = record b { successes = wrap32 (b.successes +ℤ pos 1) } in
      if leb_ℤ c.success_threshold b'.successes
      then transition_to RpcCircuitState.closed now b'
      else b'
]

-- What `recordFailure` does to a breaker that is not half open.
unfoldable pub count_failure : Config → ℕ → Breaker → Breaker
unfolding transition_to
count_failure c now b =
    let b' = record b { failures = wrap32 (b.failures +ℤ pos 1) } in
    if leb_ℤ c.failure_threshold b'.failures
    then transition_to RpcCircuitState.opened now b'
    else b'

unfoldable pub record_failure : Config → ℕ → Breaker → Breaker
unfolding transition_to count_failure
record_failure c now b = elim b.state [
  | RpcCircuitState.closed ↦ count_failure c now b
  | RpcCircuitState.opened ↦ count_failure c now b
  | RpcCircuitState.half_open ↦ transition_to RpcCircuitState.opened now b
]

-- `RpcCircuitBreakerManager`
pub record Manager : Type 0 where
  pub default_config : Config
  pub breakers : Assoc Bytes (Config × Breaker)
  pub configs : Assoc Bytes Config

abbrev pub config_or : Config → Option Config → Config
config_or d none = d
config_or d (some c) = c

-- `get`: the breaker of a key, which is made on the first request for it.
unfoldable pub get : Manager → Bytes → Manager × (Config × Breaker)
get m key = elim (lookup key m.breakers) [
  | none ↦
      let made : Config × Breaker =
        (config_or m.default_config (lookup key m.configs), new_breaker) in
      (record m { breakers = insert key made m.breakers }, made)
  | some b ↦ (m, b)
]

-- A method of the shared breaker, called through its key.
unfoldable pub at_key :
    {R : Type 0} → Manager → Bytes → (Config → Breaker → Breaker × R) → Manager × R
unfolding get
at_key m key method =
    let (m', b) = get m key in
    let (b', r) = method b.0 b.1 in (record m' { breakers = insert key (b.0, b') m'.breakers }, r)

unfoldable pub manager_allow_request : Manager → Bytes → ℕ → Manager × Bool
unfolding at_key
manager_allow_request m key now = at_key m key (λ c b. allow_request c now b)

unfoldable pub manager_record_success : Manager → Bytes → ℕ → Manager
unfolding at_key
manager_record_success m key now = (at_key m key (λ c b. (record_success c now b, c))).0

unfoldable pub manager_record_failure : Manager → Bytes → ℕ → Manager
unfolding at_key
manager_record_failure m key now = (at_key m key (λ c b. (record_failure c now b, c))).0

unfoldable pub set_config : Manager → Bytes → Config → Manager
set_config m key c = record m { configs = insert key c m.configs }

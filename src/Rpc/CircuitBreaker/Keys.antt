-- ===== src/Rpc/CircuitBreaker/Keys.antt =====
-- The manager keeps the breakers of different keys apart.
use zero_frameworks.Base.{◌≡◌, refl, if◌then◌else◌, some, arith, inl, inr, Option-cases}
use zero_frameworks.Base.Bytes.{Bytes}
use zero_frameworks.Base.Assoc.{lookup, bytes_eq, lookup-insert}
use zero_frameworks.Rpc.CircuitBreaker.{Config, Breaker, Manager, get, at_key, set_config}

-- The breaker that a key has or would get.
unfoldable pub breaker_of : Manager → Bytes → Config × Breaker
breaker_of m key = (get m key).1

module _ (m : Manager) (key j : Bytes) where
  lookup-get :
      lookup j (get m key).0.breakers
      ≡ (if bytes_eq.test key j then some (breaker_of m key) else lookup j m.breakers)
  unfolding get breaker_of
  lookup-get = elim (Option-cases (lookup key m.breakers)) [
    | inl missing ↦ rw (missing, get, breaker_of) (lookup-insert key j _ m.breakers)
    | inr (b, found) ↦ rw (found, get, breaker_of) (ground (arith, found, bytes_eq.test_iff key j))
  ]

  module _ {R : Type 0} (method : Config → Breaker → Breaker × R) where
    after_method : Config × Breaker
    after_method = ((breaker_of m key).0, (method (breaker_of m key).0 (breaker_of m key).1).0)

    lookup-at_key :
        lookup j (at_key m key method).0.breakers
        ≡ (if bytes_eq.test key j then some after_method else lookup j m.breakers)
    unfolding at_key breaker_of after_method
    lookup-at_key =
        ground (arith, lookup-insert key j after_method (get m key).0.breakers, lookup-get)

-- A call through one key changes the breaker of that key alone, as the breaker's own method does; the
-- other keys keep theirs. A new configuration leaves every breaker that there is as it was.
calls_stay_apart :
    {R : Type 0} (m : Manager) (key j : Bytes) (method : Config → Breaker → Breaker × R)
    (c : Config)
    → (lookup j (at_key m key method).0.breakers ≡ (
        if bytes_eq.test key j
        then some ((breaker_of m key).0, (method (breaker_of m key).0 (breaker_of m key).1).0)
        else lookup j m.breakers))
      × (lookup j (set_config m key c).breakers ≡ lookup j m.breakers)
unfolding set_config after_method
calls_stay_apart m key j method c = (lookup-at_key m key j method, refl)

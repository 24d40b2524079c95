-- ===== src/Blocking/Reach/Queues.antt =====
-- What the operations of the hub do to its queues, by membership.
use zero_frameworks.Base.{
  ℕ, ◌≡◌, refl, Bool, true, false, not, ◌&&◌, ◌||◌, List, [], ◌∷◌, ◌++◌, if◌then◌else◌, ◌==◌, arith,
}
use zero_frameworks.Blocking.{ListWaiter, put_waiter, without, cancel_loop}

unfoldable pub has : ℕ → List ℕ → Bool
has b [] = false
has b (a ∷ q) = a == b || has b q

abbrev pub NoRepeat : List ℕ → Type 0
NoRepeat [] = Unit {0}
NoRepeat (a ∷ q) = (has a q ≡ false) × NoRepeat q

pub has-append : (b : ℕ) (p q : List ℕ) → has b (p ++ q) ≡ (has b p || has b q)
unfolding has
has-append b [] q = refl
has-append b (a ∷ p) q = ground (arith, has-append b p q)

pub has-without : (b a : ℕ) (q : List ℕ) → has b (without a q) ≡ (has b q && not (a == b))
unfolding has without
has-without b a [] = refl
has-without b a (c ∷ q) = ground (arith, has-without b a q)

pub NoRepeat-without : (a : ℕ) (q : List ℕ) → NoRepeat q → NoRepeat (without a q)
unfolding without
NoRepeat-without a [] u = tt
NoRepeat-without a (c ∷ q) (new, u) = ground (arith, NoRepeat-without a q u, has-without c a q)

pub NoRepeat-push : (a : ℕ) (q : List ℕ) → has a q ≡ false → NoRepeat q → NoRepeat (q ++ a ∷ [])
unfolding has
NoRepeat-push a [] new u = (refl, tt)
NoRepeat-push a (c ∷ q) new (first, u) = ground (arith, NoRepeat-push a q, has-append c q (a ∷ []))

pub has_inserted : (b a : ℕ) (p q : List ℕ) → has b (p ++ q) ≡ true → has b (p ++ a ∷ q) ≡ true
unfolding has
has_inserted b a p q there = ground (arith, has-append b p q, has-append b p (a ∷ q))

module _ (a : ℕ) (q : List ℕ) where
  pub has-between :
      (b : ℕ) (p : List ℕ)
      → NoRepeat (p ++ a ∷ q)
      → has b (p ++ q) ≡ (has b (p ++ a ∷ q) && not (a == b))
  unfolding has
  has-between b [] (new, u) = ground (arith, new)
  has-between b (c ∷ p) (new, u) = ground (arith, has-between b p u, has-append c p (a ∷ q))

  pub NoRepeat-between : (p : List ℕ) → NoRepeat (p ++ a ∷ q) → NoRepeat (p ++ q)
  unfolding has
  NoRepeat-between [] (new, u) = u
  NoRepeat-between (c ∷ p) (new, u) =
      (ground (arith, has-append c p (a ∷ q), has-append c p q), NoRepeat-between p u)

module _ (session : ℕ) where
  abbrev of_session : (ℕ → ListWaiter) → ℕ → Bool
  of_session at b = (at b).session == session

  marked : (ℕ → ListWaiter) → ℕ → ℕ → ListWaiter
  unfolding put_waiter
  marked at a = if of_session at a then put_waiter a (record (at a) { done = true }) at else at

  marked_session : (at : ℕ → ListWaiter) (a b : ℕ) → (marked at a b).session ≡ (at b).session
  unfolding marked put_waiter
  marked_session at a b = ground arith

  pub has-cancel :
      (b : ℕ) (q : List ℕ) (at : ℕ → ListWaiter)
      → has b (cancel_loop session q at).0 ≡ (has b q && not (of_session at b))
  unfolding has cancel_loop marked
  has-cancel b [] at = refl
  has-cancel b (a ∷ q) at = ground (arith, has-cancel b q (marked at a), marked_session at a b)

  pub woken-cancel :
      (b : ℕ) (q : List ℕ) (at : ℕ → ListWaiter)
      → has b (cancel_loop session q at).2 ≡ (has b q && of_session at b)
  unfolding has cancel_loop marked
  woken-cancel b [] at = refl
  woken-cancel b (a ∷ q) at = ground (arith, woken-cancel b q (marked at a), marked_session at a b)

  pub at-cancel :
      (b : ℕ) (q : List ℕ) (at : ℕ → ListWaiter)
      → ((cancel_loop session q at).1 b).done ≡ ((at b).done || has b q && of_session at b)
  unfolding has cancel_loop marked put_waiter
  at-cancel b [] at = ground arith
  at-cancel b (a ∷ q) at = ground (arith, at-cancel b q (marked at a), marked_session at a b)

  pub NoRepeat-cancel :
      (q : List ℕ) (at : ℕ → ListWaiter) → NoRepeat q → NoRepeat (cancel_loop session q at).0
  unfolding cancel_loop marked
  NoRepeat-cancel [] at u = tt
  NoRepeat-cancel (a ∷ q) at (new, u) =
      ground (arith, NoRepeat-cancel q (marked at a) u, has-cancel a q (marked at a))

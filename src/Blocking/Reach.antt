-- ===== src/Blocking/Reach.antt =====
-- What every history of a `BlockingListHub` keeps, and what it means for the loop of `tryBlockingPop`.
pub mod Queues
use zero_frameworks.Base.{
  ℕ, ◌≡◌, ◌≢◌, sym, ◌∙◌, Bool, true, false, List, [], Option, ==_iff, Bool-cases,
}
use zero_frameworks.Base.Bytes.{Bytes}
use zero_frameworks.Base.Int.{ℤ}
use zero_frameworks.Store.{KvStore, StdHash, Env}
use zero_frameworks.Blocking.{
  ListWaiter, BlockingListHub, Wanted, without, cancel_loop, cancel_waiters, on_push, new_waiter,
  start_waiting, poll,
}
use zero_frameworks.Blocking.Reach.Queues.{has, NoRepeat, woken-cancel, has_inserted}

-- The hubs that calls lead to. When the scheduler resumes a fiber is not modelled: its list may become
-- any other at any time, and any fiber may run a round of its loop at any time. A fiber that begins
-- to wait is running, so it does not wait already.
pub data Reachable ⦃h : StdHash⦄ : BlockingListHub → Type 0 where
  start :
      (at : ℕ → ListWaiter) → Reachable (record { waiters = []; waiter_at = at; scheduled = [] })
  pushed :
      {hub : BlockingListHub} (db : ℕ) (key : Bytes) (s : KvStore) (env : Env)
      → Reachable hub
      → Reachable (on_push db key s hub env).1
  waits :
      {hub : BlockingListHub} (a : ℕ) (wanted : Wanted) (deadline : ℤ)
      → has a hub.waiters ≡ false
      → Reachable hub
      → Reachable (start_waiting a (new_waiter wanted deadline) hub)
  cancelled :
      {hub : BlockingListHub} (session : ℕ) → Reachable hub → Reachable (cancel_waiters session hub)
  taken :
      {hub : BlockingListHub} (rest : List ℕ)
      → Reachable hub
      → Reachable (record hub { scheduled = rest })
  polled : {hub : BlockingListHub} (a : ℕ) (now : ℤ) → Reachable hub → Reachable (poll a now hub).0

pub record Orderly (hub : BlockingListHub) : Type 0 where
  pub once : NoRepeat hub.waiters
  pub waiting : (b : ℕ) → has b hub.waiters ≡ true → (hub.waiter_at b).done ≡ false

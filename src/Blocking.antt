-- ===== src/Blocking.antt =====
-- zero/kv/blocking/blocking_list_hub.h and blocking_list_hub.cc: `BlockingListHub`, the queue of the
-- clients that wait for an element; and from zero/kv/command_dispatch.cc what LPUSH, RPUSH, BLPOP
-- and BRPOP do once their arguments are read. The waiter is a local variable of the fiber that
-- waits, so the number of the fiber stands for its address. One command reads the clock once, but
-- for the waits of BLPOP.
pub mod Offers
pub mod Fair
pub mod Deliver
pub mod Reach
use zero_frameworks.Base.{
  ℕ, Bool, true, false, not, ◌&&◌, ◌||◌, List, [], ◌∷◌, ◌++◌, if◌then◌else◌, Option, none, some,
  ◌==◌,
}
use zero_frameworks.Base.Bytes.{Bytes, beq}
use zero_frameworks.Base.Int.{ℤ, pos, leb_ℤ, ◌+ℤ◌}
use zero_frameworks.Store.{KvStore, StdHash, Env, Error, Result, ok, err}
use zero_frameworks.Store.Lists.{list_push, list_pop}

-- `scheduler` and `fiber` are always there: BLPOP waits on a scheduler only.
pub record ListWaiter : Type 0 where
  pub session : ℕ
  pub db : ℕ
  pub keys : List Bytes
  pub pop_right : Bool
  pub deadline_ms : ℤ
  pub done : Bool
  pub result_key : Bytes
  pub result_value : Bytes

-- The hub, the waiters that its pointers lead to, and the fibers that `schedule` was called for.
pub record BlockingListHub : Type 0 where
  pub waiters : List ℕ
  pub waiter_at : ℕ → ListWaiter
  pub scheduled : List ℕ

unfoldable pub put_waiter : ℕ → ListWaiter → (ℕ → ListWaiter) → ℕ → ListWaiter
put_waiter a w at b = if a == b then w else at b

unfoldable pub without : ℕ → List ℕ → List ℕ
without a [] = []
without a (b ∷ bs) = let rest = without a bs in if b == a then rest else b ∷ rest

unfoldable pub add_waiter : ℕ → BlockingListHub → BlockingListHub
add_waiter a hub = record hub { waiters = hub.waiters ++ a ∷ [] }

unfoldable pub remove_waiter : ℕ → BlockingListHub → BlockingListHub
unfolding without
remove_waiter a hub = record hub { waiters = without a hub.waiters }

-- The loop of `cancelWaiters`, and after it the calls of `schedule`.
unfoldable pub cancel_loop : ℕ → List ℕ → (ℕ → ListWaiter) → List ℕ × (ℕ → ListWaiter) × List ℕ
unfolding put_waiter
cancel_loop session [] at = ([], at, [])
cancel_loop session (a ∷ q) at =
    let same = (at a).session == session in
    let (kept, at', wake) =
      cancel_loop session q
        (if same then put_waiter a (record (at a) { done = true }) at else at) in
    if same then (kept, at', a ∷ wake) else (a ∷ kept, at', wake)

unfoldable pub cancel_waiters : ℕ → BlockingListHub → BlockingListHub
unfolding cancel_loop
cancel_waiters session hub =
    let (kept, at, wake) = cancel_loop session hub.waiters hub.waiter_at in
    record hub { waiters = kept; waiter_at = at; scheduled = hub.scheduled ++ wake }

unfoldable pub watches : Bytes → List Bytes → Bool
watches key [] = false
watches key (k ∷ ks) = beq k key || watches key ks

unfoldable pub fulfilled : ListWaiter → Bytes → Bytes → ListWaiter
fulfilled w key value = record w { result_key = key; result_value = value; done = true }

-- What `tryFulfill` makes of the waiter that takes something.
unfoldable pub served_with : ListWaiter → Option (Bytes × Bytes) → Option ListWaiter
unfolding fulfilled
served_with w none = none
served_with w (some (key, value)) = some (fulfilled w key value)

module _ ⦃h : StdHash⦄ where
  -- The loop of `tryFulfill`: what it takes, and from which key. An error moves on to the next key.
  unfoldable pub try_keys : KvStore → ℕ → Bool → List Bytes → Env → KvStore × Option (Bytes × Bytes)
  try_keys s db left [] env = (s, none)
  try_keys s db left (key ∷ keys) env =
      let (s', r) = list_pop s db key left env in
      let rest = try_keys s' db left keys env in
      elim r [ err e ↦ rest | ok none ↦ rest | ok (some value) ↦ (s', some (key, value)) ]

  unfoldable pub try_fulfill : KvStore → ListWaiter → Env → KvStore × Option ListWaiter
  unfolding try_keys served_with
  try_fulfill s w env =
      let (s', taken) = try_keys s w.db (not w.pop_right) w.keys env in (s', served_with w taken)

  -- One round of the loop of `onPush`, up to the test of `tryFulfill`.
  unfoldable pub consider : KvStore → ListWaiter → ℕ → Bytes → Env → KvStore × Option ListWaiter
  unfolding watches try_fulfill
  consider s w db key env =
      if w.db == db && watches key w.keys then try_fulfill s w env else (s, none)

  -- The loop of `onPush`: the queue that it leaves, and the waiter that it has served.
  unfoldable pub serve :
      KvStore
      → (ℕ → ListWaiter)
      → ℕ
      → Bytes
      → List ℕ
      → Env
      → KvStore × List ℕ × Option (ℕ × ListWaiter)
  unfolding consider
  serve s at db key [] env = (s, [], none)
  serve s at db key (a ∷ q) env =
      let (s', taken) = consider s (at a) db key env in
      let (s'', q', served) = serve s' at db key q env in
      elim taken [ none ↦ (s'', a ∷ q', served) | some w ↦ (s', q, some (a, w)) ]

  unfoldable pub finish : BlockingListHub → List ℕ → Option (ℕ × ListWaiter) → BlockingListHub
  unfolding put_waiter
  finish hub q none = record hub { waiters = q }
  finish hub q (some (a, w)) = record {
    waiters = q;
    waiter_at = put_waiter a w hub.waiter_at;
    scheduled = hub.scheduled ++ a ∷ [];
  }

  unfoldable pub on_push : ℕ → Bytes → KvStore → BlockingListHub → Env → KvStore × BlockingListHub
  unfolding serve finish
  on_push db key s hub env =
      let (s', q, served) = serve s hub.waiter_at db key hub.waiters env in
      (s', finish hub q served)

  -- LPUSH and RPUSH: `listPush`, then `notifyListPush` when it has not failed.
  unfoldable pub push_command :
      Bool
      → ℕ
      → Bytes
      → List Bytes
      → KvStore
      → BlockingListHub
      → Env
      → KvStore × BlockingListHub × Result ℕ
  push_command left db key values s hub env =
      let (s', n) = list_push s db key values left env in
      elim n [
        | err e ↦ (s', hub, err e)
        | ok k ↦ let (s'', hub') = on_push db key s' hub env in (s'', hub', ok k)
      ]

-- What BLPOP answers: an error, nothing, or a key and an element.
pub data PopReply : Type 0 where
  pop_error : Error → PopReply
  null_bulk : PopReply
  element : Bytes → Bytes → PopReply

-- The reply once the waiter is done.
unfoldable pub waiter_reply : ListWaiter → PopReply
waiter_reply w =
    if beq w.result_key [] then PopReply.null_bulk else PopReply.element w.result_key w.result_value

-- One round of the loop of `tryBlockingPop`: `none` when the fiber yields.
unfoldable pub poll : ℕ → ℤ → BlockingListHub → BlockingListHub × Option PopReply
unfolding remove_waiter waiter_reply
poll a now hub =
    let w = hub.waiter_at a in
    if w.done
    then (remove_waiter a hub, some (waiter_reply w))
    else (if leb_ℤ (pos 0) w.deadline_ms && leb_ℤ w.deadline_ms now
        then (remove_waiter a hub, some PopReply.null_bulk)
        else (hub, none))

-- What BLPOP takes from its request: the database, the keys, the end, and the positive timeout in
-- milliseconds, or `none` for a timeout of 0.
pub record Wanted : Type 0 where
  pub session : ℕ
  pub db : ℕ
  pub keys : List Bytes
  pub right : Bool
  pub timeout_ms : Option ℤ

unfoldable pub new_waiter : Wanted → ℤ → ListWaiter
new_waiter wanted deadline = record {
  session = wanted.session;
  db = wanted.db;
  keys = wanted.keys;
  pop_right = wanted.right;
  deadline_ms = deadline;
  done = false;
  result_key = [];
  result_value = [];
}

unfoldable pub start_waiting : ℕ → ListWaiter → BlockingListHub → BlockingListHub
unfolding add_waiter put_waiter
start_waiting a w hub = add_waiter a (record hub { waiter_at = put_waiter a w hub.waiter_at })

module _ ⦃h : StdHash⦄ where
  -- The attempts before the wait. An error ends them.
  unfoldable pub pop_now : KvStore → ℕ → Bool → List Bytes → Env → KvStore × Option PopReply
  pop_now s db left [] env = (s, none)
  pop_now s db left (key ∷ keys) env =
      let (s', r) = list_pop s db key left env in
      let rest = pop_now s' db left keys env in
      elim r [
        | err e ↦ (s', some (PopReply.pop_error e))
        | ok none ↦ rest
        | ok (some value) ↦ (s', some (PopReply.element key value))
      ]

  -- `tryBlockingPop` by the fiber `a`, up to its reply or its first yield. The clock shows `env.now`
  -- when the deadline is set and `later` when the loop begins.
  unfoldable pub try_blocking_pop :
      ℕ → Wanted → KvStore → BlockingListHub → Env → ℤ → KvStore × BlockingListHub × Option PopReply
  unfolding pop_now new_waiter start_waiting poll
  try_blocking_pop a wanted s hub env later =
      let (s', reply) = pop_now s wanted.db (not wanted.right) wanted.keys env in
      elim reply [
        | some r ↦ (s', hub, some r)
        | none ↦ elim wanted.timeout_ms [
          | none ↦ (s', hub, some PopReply.null_bulk)
          | some ms ↦
              let hub' = start_waiting a (new_waiter wanted (env.now +ℤ ms)) hub in
              let (hub'', answer) = poll a later hub' in (s', hub'', answer)
        ]
      ]

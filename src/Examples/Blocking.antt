-- ===== src/Examples/Blocking.antt =====
-- The theorems on the clients that wait for an element at concrete inputs: three clients, of which
-- the last two wait for the list that is pushed to.
use zero_frameworks.Base.{
  ℕ, ◌≡◌, refl, ap, true, false, List, [], ◌∷◌, if◌then◌else◌, some, none, ◌==◌, length, arith, ◌≢◌,
}
use zero_frameworks.Base.Bytes.{Bytes, codes, beq}
use zero_frameworks.Base.Assoc.{lookup}
use zero_frameworks.Base.Int.{pos}
use zero_frameworks.Store.{KvStore, Env, StdHash, ok, db_of}
use zero_frameworks.Blocking.{
  ListWaiter, BlockingListHub, put_waiter, fulfilled, on_push, push_command, watches, Wanted,
  start_waiting, new_waiter,
}
use zero_frameworks.Blocking.Offers.{seen, offered}
use zero_frameworks.Blocking.Fair.{Fair, on_push-Fair}
use zero_frameworks.Blocking.Deliver.{WaitsFor, push_delivers}
use zero_frameworks.Store.Lists.Locals.{pop_reply}
use zero_frameworks.Store.View.{live, entry_at}

instance abbrev by_length : StdHash
by_length = record { hash = λ key. length key }

abbrev at_time : ℕ → Env
at_time t = record { now = pos t; draw = λ n. n }

abbrev empty_store : KvStore
empty_store = record {
  shards = λ i. record {
    dbs = [];
    watch_versions = λ d k. 0;
    db_watch_epoch = λ d. 0;
    has_watches = false;
  };
  maxmemory = pos 0;
  maxmemory_policy = codes "noeviction";
}

abbrev waiter : List Bytes → ListWaiter
waiter keys = record {
  session = 5;
  db = 0;
  keys = keys;
  pop_right = true;
  deadline_ms = pos 100;
  done = false;
  result_key = [];
  result_value = [];
}

abbrev waiters_at : ℕ → ListWaiter
waiters_at a =
    if a == 1
    then waiter (codes "jobs" ∷ [])
    else waiter (codes "others" ∷ codes "queue" ∷ codes "jobs" ∷ [])

abbrev hub : BlockingListHub
hub = record { waiters = 1 ∷ 2 ∷ 3 ∷ []; waiter_at = waiters_at; scheduled = [] }

on_push-Fair_example :
    Fair 0
      (codes "jobs")
      (at_time 7)
      empty_store
      hub
      (on_push 0 (codes "jobs") empty_store hub (at_time 7))
on_push-Fair_example = on_push-Fair 0 (codes "jobs") (at_time 7) empty_store hub

other_key : codes "queue" ≢ codes "others"
other_key same = omega (arith, ap length same)

absent : seen (pos 7) empty_store 0 (codes "queue") ≡ none
unfolding live entry_at lookup db_of
absent = refl

queue_waits : WaitsFor (seen (pos 7) empty_store) 0 (codes "queue") waiters_at (1 ∷ 2 ∷ 3 ∷ []) 2
unfolding watches offered pop_reply live entry_at beq lookup db_of
queue_waits = record {
  before = 1 ∷ [];
  after = 3 ∷ [];
  split = refl;
  others = (refl, tt);
  database = refl;
  ahead = codes "others" ∷ [];
  behind = codes "jobs" ∷ [];
  keys = refl;
  nothing_ahead = ((other_key, refl), tt);
}

push_delivers_example :
    ((push_command false 0 (codes "queue") (codes "x" ∷ []) empty_store hub (at_time 7)).1
      ≡ record {
        waiters = 1 ∷ 3 ∷ [];
        waiter_at = put_waiter 2 (fulfilled (waiters_at 2) (codes "queue") (codes "x")) waiters_at;
        scheduled = 2 ∷ [];
      })
    × ((push_command false 0 (codes "queue") (codes "x" ∷ []) empty_store hub (at_time 7)).2 ≡ ok 1)
    × (seen
          (pos 7)
          (push_command false 0 (codes "queue") (codes "x" ∷ []) empty_store hub (at_time 7)).0
        ≡ seen (pos 7) empty_store)
unfolding queue_waits
push_delivers_example =
    push_delivers empty_store 0 (codes "queue") (codes "x") false (at_time 7) absent hub 2
      queue_waits

abbrev no_hub : BlockingListHub
no_hub = record { waiters = []; waiter_at = waiters_at; scheduled = [] }

abbrev wanted : Wanted
wanted = record {
  session = 5;
  db = 0;
  keys = codes "jobs" ∷ [];
  right = true;
  timeout_ms = some (pos 93);
}

abbrev one_waits : BlockingListHub
one_waits = start_waiting 1 (new_waiter wanted (pos 100)) no_hub

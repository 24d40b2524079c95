-- ===== src/Examples.antt =====
-- The theorems on the store at concrete inputs: a store with one number in it.
pub mod Protocol
pub mod Slowlog
pub mod Keyspace
pub mod Flat
pub mod PubSub
pub mod Http
pub mod Collections
pub mod Blocking
pub mod ByteArray
pub mod LoadBalancer
pub mod DbCache
use zero_frameworks.Base.{
  ℕ, ◌+◌, ◌-◌, ◌*◌, ◌%◌, ◌^◌, ◌≤◌, ◌<◌, ◌≡◌, ◌≢◌, ◌↔◌, ◌⊎◌, inl, inr, refl, Bool, true, false, not,
  ◌&&◌, ◌||◌, List, [], ◌∷◌, ◌++◌, if◌then◌else◌, Option, none, some, ◌==◌, leb, length, take,
  get_or, arith,
}
use zero_frameworks.Base.Bytes.{Bytes, codes, beq}
use zero_frameworks.Base.Assoc.{lookup, insert, bytes_eq, nat_eq}
use zero_frameworks.Base.Int.{ℤ, pos, negsuc, wrap64, ◌+ℤ◌, ◌≤ℤ◌}
use zero_frameworks.Base.Decimal.{to_string, strtoll}
use zero_frameworks.Store.{
  KvStore, Shard, Entry, ObjType, Env, StdHash, new_entry, ok, err, with_entry, db_of, shard_idx,
  watch_token,
}
use zero_frameworks.Store.View.{Apart, entry_at, live}
use zero_frameworks.Store.Evict.{evict_if_needed}
use zero_frameworks.Store.Evict.Laws.{KeptOrGone}
use zero_frameworks.Store.Strings.{
  get, set, setex, set_opt, del_many, del, incr_by, is_some, incr_body, parse_integer_value,
}
use zero_frameworks.Store.Strings.Laws.{get-setex, set_opt_conditions, Written, lifetime}
use zero_frameworks.Store.Strings.Counting.{incr_by_wraps}
use zero_frameworks.Store.Strings.Deletion.{del_many_exact, mem}
use zero_frameworks.Store.Expiry.{expire, pexpire, pttl}
use zero_frameworks.Store.Expiry.Laws.{pttl-pexpire}
use zero_frameworks.Store.Watch.{version_at, watched}
use zero_frameworks.Store.Flush.{flushdb, flushall, max_db}

-- A hash that spreads the keys by their lengths.
instance abbrev by_length : StdHash
by_length = record { hash = λ key. length key }

abbrev key : Bytes
key = codes "k"

abbrev other : Bytes
other = codes "other"

abbrev at_time : ℕ → Env
at_time t = record { now = pos t; draw = λ n. n }

abbrev number : ℕ → Entry
number n = record new_entry { value = to_string (pos n) }

-- A store whose database 0 holds one number.
abbrev holding : ℤ → ℕ → KvStore
holding limit n = record {
  shards = λ i. record {
    dbs = if i == 1 then (0, (key, number n) ∷ []) ∷ [] else [];
    watch_versions = λ db k. 0;
    db_watch_epoch = λ db. 0;
    has_watches = true;
  };
  maxmemory = limit;
  maxmemory_policy = codes "allkeys-lru";
}

abbrev store : KvStore
store = holding (pos 0) 5

set_opt_conditions_example :
    let seen = live (pos 7) (entry_at store 0 key) in
    let r = set_opt store 0 key (codes "v") false true (pos 2) (negsuc 0) (at_time 7) in
    (r.1 ≡ not ((false && is_some seen) || (true && not (is_some seen))))
    × (r.1 ≡ true
        → (w : Entry) × (entry_at r.0 0 key ≡ some w)
          × Written 7 (codes "v") (lifetime (pos 2) (negsuc 0)) seen w)
    × (r.1 ≡ false → entry_at r.0 0 key ≡ seen)
    × ((d : ℕ) (j : Bytes) → Apart 0 key d j → entry_at r.0 d j ≡ entry_at store d j)
set_opt_conditions_example =
    set_opt_conditions store 0 key (codes "v") false true (pos 2) (negsuc 0) 7 (λ n. n)
      (omega arith) (omega arith)

get-setex_example :
    (get (setex store 0 key (codes "v") (pos 2) (at_time 7)) 0 key (at_time 2006)).1
    ≡ ok (some (codes "v"))
get-setex_example =
    get-setex store 0 key (codes "v") 7 2006 2 (λ n. n) (λ n. n) (omega arith) (omega arith)

pttl-pexpire_example :
    (pttl (pexpire store 0 key (pos 100) (at_time 7)).0 0 key (at_time 50)).1 ≡ pos 57
unfolding live entry_at lookup db_of beq
pttl-pexpire_example =
    pttl-pexpire store 0 key 7 50 100 (λ n. n) (λ n. n) refl (omega arith) (omega arith)

first_answer : (incr_by store 0 key (pos 2) (at_time 7)).1 ≡ ok (pos 7)
unfolding incr_by with_entry incr_body lookup beq parse_integer_value to_string strtoll wrap64
first_answer = refl

incr_by_wraps_example :
    (incr_by (holding (pos 0) 9223372036854775807) 0 key (pos 1) (at_time 7)).1
    ≡ ok (negsuc (18446744073709551616 - (9223372036854775807 + 1) - 1))
unfolding live entry_at lookup db_of beq parse_integer_value to_string strtoll
incr_by_wraps_example =
    incr_by_wraps (holding (pos 0) 9223372036854775807) 0 key 9223372036854775807 1
      (number 9223372036854775807) (at_time 7) refl refl refl (omega arith) (omega arith)
      (omega arith)

del_many_exact_example :
    ((d : ℕ) (j : Bytes)
      → entry_at (del_many store 0 (key ∷ other ∷ []) (at_time 7)).0 d j
        ≡ (if 0 == d && mem j (key ∷ other ∷ []) then none else entry_at store d j))
    × ((k : Bytes) → (del store 0 k (at_time 7)).1 ≡ is_some (live (pos 7) (entry_at store 0 k)))
del_many_exact_example = del_many_exact store 0 (key ∷ other ∷ []) (at_time 7)

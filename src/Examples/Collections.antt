-- ===== src/Examples/Collections.antt =====
-- The theorems on lists, hashes and sets at concrete inputs.
use zero_frameworks.Base.{ℕ, ◌≡◌, refl, false, List, [], ◌∷◌, if◌then◌else◌, some, ◌==◌, arith}
use zero_frameworks.Base.Bytes.{Bytes, codes, beq}
use zero_frameworks.Base.Assoc.{lookup, bytes_eq, nat_eq}
use zero_frameworks.Base.Int.{pos, negsuc}
use zero_frameworks.Store.{KvStore, Entry, ObjType, Env, StdHash, new_entry, ok, db_of}
use zero_frameworks.Store.View.{entry_at, live}
use zero_frameworks.Store.Lists.{list_range, list_rpop_lpush, popped}
use zero_frameworks.Store.Lists.Locals.{kept_list}
use zero_frameworks.Store.Lists.Laws.{list_range_elements, list_rpop_lpush_loses}
use zero_frameworks.Store.Lists.Remove.{
  remove_from, occurrences, removable, Takes, FromEnd, remove_from-Takes,
}

-- Every key goes to the same shard.
instance abbrev to_one_shard : StdHash
to_one_shard = record { hash = λ key. 0 }

abbrev at_time : ℕ → Env
at_time t = record { now = pos t; draw = λ n. n }

abbrev elements : List Bytes
elements = codes "a" ∷ codes "b" ∷ codes "a" ∷ []

abbrev queue : Entry
queue = record new_entry { type = ObjType.list; list = elements }

abbrev user : Entry
user = record new_entry {
  type = ObjType.hash;
  hash = (codes "name", codes "x") ∷ (codes "age", codes "7") ∷ [];
}

abbrev tags : Entry
tags = record new_entry { type = ObjType.set; set = (codes "red", tt) ∷ [] }

-- A store with a list, a hash and a set in database 0.
abbrev store : KvStore
store = record {
  shards = λ i. record {
    dbs =
        if i == 0
        then (0, (codes "q", queue) ∷ (codes "u", user) ∷ (codes "t", tags) ∷ []) ∷ []
        else [];
    watch_versions = λ db k. 0;
    db_watch_epoch = λ db. 0;
    has_watches = false;
  };
  maxmemory = pos 0;
  maxmemory_policy = codes "noeviction";
}

list_range_elements_example :
    (list_range store 0 (codes "q") (negsuc 1) (pos 10) (at_time 7)).1
    ≡ ok (some (codes "b" ∷ codes "a" ∷ []))
unfolding live entry_at lookup db_of beq
list_range_elements_example =
    list_range_elements store 0 (codes "q") queue (negsuc 1) (pos 10) (at_time 7) refl refl

list_rpop_lpush_loses_example :
    let r = list_rpop_lpush store 0 (codes "q") (codes "u") (at_time 7) (at_time 7) in
    (r.1 ≡ false)
    × (entry_at r.0 0 (codes "q")
        ≡ kept_list queue (popped false (codes "a") (codes "b" ∷ codes "a" ∷ [])).0)
    × (entry_at r.0 0 (codes "u") ≡ some user)
unfolding live entry_at lookup db_of beq
list_rpop_lpush_loses_example =
    list_rpop_lpush_loses store 0 (codes "q") (codes "u") queue user (codes "a")
      (codes "b" ∷ codes "a" ∷ []) (at_time 7) (at_time 7) (λ e. absurd (ground (arith, e))) refl
      refl refl refl refl

remove_from-Takes_example :
    let r = remove_from (negsuc 0) (codes "a") elements in
    (t : Takes (codes "a") elements r) × FromEnd (negsuc 0) t.front t.back
    × (r.1 ≡ removable (negsuc 0) (occurrences (codes "a") elements))
remove_from-Takes_example =
    remove_from-Takes (negsuc 0) (codes "a") elements (λ e. absurd (ground (arith, e)))

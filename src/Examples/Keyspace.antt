-- ===== src/Examples/Keyspace.antt =====
-- The theorems on key patterns, on whole databases and on renaming at concrete inputs: a store that
-- was filled by commands.
use zero_frameworks.Base.{
  subst, Bool, none, if◌then◌else◌, ◌==◌, ℕ, suc, ◌≡◌, refl, true, false, ◌&&◌, List, [], ◌∷◌, some,
  length, arith,
}
use zero_frameworks.Base.Bytes.{codes, beq}
use zero_frameworks.Base.Assoc.{Unique, lookup, bytes_eq, nat_eq}
use zero_frameworks.Base.Int.{pos, negsuc}
use zero_frameworks.Glob.{match_glob}
use zero_frameworks.Glob.Matches.{matches}
use zero_frameworks.Glob.Laws.{match_glob-matches}
use zero_frameworks.Store.{DbMap, KvStore, Entry, Env, StdHash, new_entry, db_of, watch_token}
use zero_frameworks.Store.View.{entry_at, live}
use zero_frameworks.Store.Strings.{is_some}
use zero_frameworks.Store.Strings.Deletion.{mem}
use zero_frameworks.Store.Flat.{Step, run_all, set_it}
use zero_frameworks.Store.Evict.{evict_if_needed}
use zero_frameworks.Store.Evict.Stored.{NoRepeats}
use zero_frameworks.Store.Evict.Enough.{Ended, evict_if_needed-Ended}
use zero_frameworks.Store.Placed.{Placed}
use zero_frameworks.Store.Placed.Histories.{run_all-Placed}
use zero_frameworks.Store.Scan.{keys}
use zero_frameworks.Store.Scan.Keys.{mem-keys}
use zero_frameworks.Store.Scan.Pages.{scan_all, scan_all-keys}
use zero_frameworks.Store.Rename.{rename_key}
use zero_frameworks.Store.Rename.Laws.{Moves, rename_key-Moves}
use zero_frameworks.Store.Rename.Unnoticed.{rename_unnoticed}

-- A hash that spreads the keys by their lengths.
instance abbrev by_length : StdHash
by_length = record { hash = λ key. length key }

abbrev at_time : ℕ → Env
at_time t = record { now = pos t; draw = λ n. n }

abbrev empty_store : KvStore
empty_store = record {
  shards = λ i. record {
    dbs = [];
    watch_versions = λ d k. 0;
    db_watch_epoch = λ d. 0;
    has_watches = false;
  };
  maxmemory = pos 0;
  maxmemory_policy = codes "noeviction";
}

abbrev steps : List Step
steps =
    record {
      db = 0;
      key = codes "apple";
      command = set_it (codes "1") false false (negsuc 0) (negsuc 0);
      env = at_time 7;
    }
    ∷ record {
      db = 0;
      key = codes "fig";
      command = set_it (codes "2") false false (negsuc 0) (pos 9);
      env = at_time 8;
    }
    ∷ []

empty-Placed : Placed empty_store
unfolding db_of lookup
empty-Placed i db = record { unique = tt; own = λ key e found. ground (arith, found) }

run_all-Placed_example : Placed (run_all empty_store steps).0
run_all-Placed_example = run_all-Placed empty_store steps empty-Placed

abbrev store : KvStore
store = (run_all empty_store steps).0

mem-keys_example : mem (codes "apple") (keys store 0 (codes "a*") (at_time 10)).1 ≡ (
    match_glob (codes "a*") (codes "apple")
    && is_some (live (pos 10) (entry_at store 0 (codes "apple"))))
mem-keys_example =
    mem-keys store 0 (codes "apple") (codes "a*") (at_time 10)
      (run_all-Placed empty_store steps empty-Placed)

scan_all-keys_example :
    scan_all
      (suc (length (keys store 0 (codes "*") (at_time 10)).1))
      store
      0
      0
      (codes "*")
      (pos 1)
      (at_time 10)
    ≡ some (keys store 0 (codes "*") (at_time 10)).1
scan_all-keys_example = scan_all-keys store 0 (codes "*") (pos 1) (at_time 10)

match_glob-matches_example :
    match_glob (codes "a*c?") (codes "abcbcd") ≡ matches (codes "a*c?") (codes "abcbcd")
match_glob-matches_example =
    match_glob-matches (codes "a*c?") (codes "abcbcd")
      (refl, (refl, (refl, (refl, (refl, (refl, tt))))))

abbrev apple : Entry
apple = record new_entry { value = codes "1" }

abbrev small_store : KvStore
small_store = record empty_store {
  shards = λ i. record {
    dbs = (0, (codes "apple", apple) ∷ []) ∷ [];
    watch_versions = λ d k. 0;
    db_watch_epoch = λ d. 0;
    has_watches = true;
  };
}

rename_key-Moves_example :
    Moves small_store 0
      (codes "apple")
      (codes "pear")
      apple
      (pos 7)
      (rename_key small_store 0 (codes "apple") (codes "pear") true (at_time 7))
unfolding entry_at live lookup db_of beq
rename_key-Moves_example =
    rename_key-Moves small_store 0 (codes "apple") (codes "pear") true apple (at_time 7)
      (λ h. ground (arith, h)) refl refl

rename_unnoticed_example :
    (entry_at
        (rename_key small_store 0 (codes "apple") (codes "lemon") false (at_time 7)).0
        0
        (codes "lemon")
      ≡ some (record apple { lru_ms = pos 7 }))
    × ((watch_token
          (rename_key small_store 0 (codes "apple") (codes "lemon") false (at_time 7)).0
          0
          (codes "lemon")).1
        ≡ (watch_token small_store 0 (codes "lemon")).1)
unfolding entry_at live lookup db_of beq
rename_unnoticed_example =
    rename_unnoticed 0 (codes "lemon") small_store (codes "apple") false apple (at_time 7)
      (λ h. ground (arith, h)) refl refl refl

abbrev full_store : KvStore
full_store = record small_store { maxmemory = pos 10; maxmemory_policy = codes "allkeys-lru" }

apples-Unique :
    (b : Bool) (m : DbMap)
    → (if b then some ((codes "apple", apple) ∷ []) else none) ≡ some m
    → Unique m
unfolding lookup
apples-Unique false m h = ground (arith, h)
apples-Unique true m h =
    subst Unique {x = (codes "apple", apple) ∷ []} (ground (arith, h)) (refl, tt)

full-NoRepeats : NoRepeats full_store
unfolding lookup
full-NoRepeats = record {
  dbs = λ i. (refl, tt);
  maps = λ i db m there. apples-Unique (0 == db) m there;
}

evict_if_needed-Ended_example : Ended (pos 7) (evict_if_needed (at_time 7) full_store)
unfolding beq
evict_if_needed-Ended_example = evict_if_needed-Ended (at_time 7) full_store full-NoRepeats refl

-- ===== src/Examples/Flat.antt =====
-- The theorems on histories of commands at a concrete one: a number that is set, counted up and gone.
use zero_frameworks.Base.{ℕ, ◌≡◌, false, List, [], ◌∷◌, length, arith}
use zero_frameworks.Base.Bytes.{codes}
use zero_frameworks.Base.Assoc.{nat_eq}
use zero_frameworks.Base.Int.{pos, negsuc}
use zero_frameworks.Store.{KvStore, Env, StdHash}
use zero_frameworks.Store.View.{entry_at}
use zero_frameworks.Store.Flat.{Step, run_all, flat_run, get_it, set_it, incr_it}
use zero_frameworks.Store.Flat.Laws.{run_all-flat_run}

abbrev at_time : ℕ → Env
at_time t = record { now = pos t; draw = λ n. n }

abbrev steps : List Step
steps =
    record {
      db = 0;
      key = codes "n";
      command = set_it (codes "1") false false (negsuc 0) (pos 50);
      env = at_time 7;
    }
    ∷ record { db = 0; key = codes "n"; command = incr_it (pos 4); env = at_time 8 }
    ∷ record { db = 0; key = codes "n"; command = get_it; env = at_time 57 }
    ∷ []

abbrev empty_store : KvStore
empty_store = record {
  shards = λ i. record {
    dbs = [];
    watch_versions = λ d k. 0;
    db_watch_epoch = λ d. 0;
    has_watches = false;
  };
  maxmemory = pos 0;
  maxmemory_policy = codes "noeviction";
}

abbrev spread : StdHash
spread = record { hash = λ key. length key }

run_all-flat_run_example :
    (entry_at ⦃h = spread⦄ (run_all ⦃h = spread⦄ empty_store steps).0
      ≡ (flat_run (entry_at ⦃h = spread⦄ empty_store) steps).0)
    × ((run_all ⦃h = spread⦄ empty_store steps).1
        ≡ (flat_run (entry_at ⦃h = spread⦄ empty_store) steps).1)
run_all-flat_run_example = run_all-flat_run ⦃h = spread⦄ empty_store steps (omega arith)

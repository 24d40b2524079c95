-- ===== src/Examples/DbCache.antt =====
-- The theorem on the cache at a concrete history: a value that is set for two seconds and read twice.
use zero_frameworks.Base.{ℕ, ◌≡◌, List, [], ◌∷◌, none, arith}
use zero_frameworks.Base.Bytes.{codes}
use zero_frameworks.Base.Assoc.{bytes_eq}
use zero_frameworks.Base.Int.{pos}
use zero_frameworks.DbCache.{get}
use zero_frameworks.DbCache.History.{Call, run, latest, seen, get-latest}

abbrev calls : List (ℕ × Call)
calls =
    (5, Call.set_it (codes "k") (codes "v") (pos 2))
    ∷ (6, Call.get_it (codes "k"))
    ∷ (2000000006, Call.get_it (codes "k"))
    ∷ (2000000007, Call.remove_it (codes "j"))
    ∷ []

get-latest_example :
    (get (codes "k") (pos 2000000009) (run calls [])).1
    ≡ seen 2000000009 (latest (codes "k") calls none)
get-latest_example =
    get-latest (codes "k") 2000000009 calls
      (omega arith, (omega arith, (omega arith, (omega arith, tt))))

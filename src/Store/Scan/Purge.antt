-- ===== src/Store/Scan/Purge.antt =====
-- `purgeExpiredDb` and `collectKeys` on one map, and the sort.
use zero_frameworks.Base.{
  ◌+◌, ◌≡◌, ◌∙◌, refl, ap, ◌&&◌, ◌||◌, List, [], ◌∷◌, ◌++◌, Option, none, some, length, arith,
}
use zero_frameworks.Base.Bytes.{Bytes, beq}
use zero_frameworks.Base.Assoc.{lookup, bytes_eq, Unique}
use zero_frameworks.Base.Int.{ℤ}
use zero_frameworks.Glob.{match_glob}
use zero_frameworks.Store.{Entry, DbMap}
use zero_frameworks.Store.View.{live}
use zero_frameworks.Store.Strings.{is_some}
use zero_frameworks.Store.Strings.Deletion.{mem}
use zero_frameworks.Store.Scan.{put_in, sort, purge_expired_db, matching, collect_keys}

pub mem-append : (k : Bytes) (xs ys : List Bytes) → mem k (xs ++ ys) ≡ (mem k xs || mem k ys)
unfolding mem
mem-append k [] ys = refl
mem-append k (x ∷ xs) ys = ground (arith, mem-append k xs ys)

mem-put_in : (k x : Bytes) (ys : List Bytes) → mem k (put_in x ys) ≡ (beq x k || mem k ys)
unfolding mem put_in
mem-put_in k x [] = refl
mem-put_in k x (y ∷ ys) = ground (arith, mem-put_in k x ys)

pub mem-sort : (k : Bytes) (xs : List Bytes) → mem k (sort xs) ≡ mem k xs
unfolding mem sort
mem-sort k [] = refl
mem-sort k (x ∷ xs) = mem-put_in k x (sort xs) ∙ ground (arith, mem-sort k xs)

length-put_in : (x : Bytes) (ys : List Bytes) → length (put_in x ys) ≡ length ys + 1
unfolding put_in
length-put_in x [] = refl
length-put_in x (y ∷ ys) = ground (arith, length-put_in x ys)

pub length-sort : (xs : List Bytes) → length (sort xs) ≡ length xs
unfolding sort
length-sort [] = refl
length-sort (x ∷ xs) = length-put_in x (sort xs) ∙ ground (arith, length-sort xs)

pub live-live : (now : ℤ) (e : Option Entry) → live now (live now e) ≡ live now e
unfolding live
live-live now none = refl
live-live now (some e) = ground arith

live-nothing : (now : ℤ) (e : Option Entry) → e ≡ none → live now e ≡ none
unfolding live
live-nothing now none h = refl
live-nothing now (some e) h = cc

pub lookup-purge :
    (now : ℤ) (key : Bytes) (m : DbMap)
    → Unique m
    → lookup key (purge_expired_db now m) ≡ live now (lookup key m)
unfolding lookup purge_expired_db live
lookup-purge now key [] u = refl
lookup-purge now key ((j, e) ∷ m) u =
    ground
      (arith, lookup-purge now key m u.1, bytes_eq.test_iff j key, live-nothing now (lookup key m))

pub purge-Unique : (now : ℤ) (m : DbMap) → Unique m → Unique (purge_expired_db now m)
unfolding purge_expired_db
purge-Unique now [] u = tt
purge-Unique now ((j, e) ∷ m) u =
    ground (arith, purge-Unique now m u.1, lookup-purge now j m u.1, live-nothing now (lookup j m))

pub purge_again :
    (now : ℤ) (m : DbMap) → purge_expired_db now (purge_expired_db now m) ≡ purge_expired_db now m
unfolding purge_expired_db
purge_again now [] = refl
purge_again now ((j, e) ∷ m) = ground (arith, purge_again now m)

pub mem-matching :
    (now : ℤ) (pattern key : Bytes) (m : DbMap)
    → Unique m
    → mem key (matching now pattern m)
      ≡ (match_glob pattern key && is_some (live now (lookup key m)))
unfolding mem matching lookup live
mem-matching now pattern key [] u = ground arith
mem-matching now pattern key ((j, e) ∷ m) u = ground (
  arith,
  mem-matching now pattern key m u.1,
  bytes_eq.test_iff j key,
  live-nothing now (lookup key m),
)

pub mem-collect_keys :
    (now : ℤ) (pattern key : Bytes) (m : DbMap) (out : List Bytes)
    → Unique m
    → mem key (collect_keys m now pattern out)
      ≡ (mem key out || (match_glob pattern key && is_some (live now (lookup key m))))
unfolding collect_keys
mem-collect_keys now pattern key m out u =
    mem-sort key (out ++ matching now pattern m)
    ∙ mem-append key out (matching now pattern m)
    ∙ ap (λ b. mem key out || b) (mem-matching now pattern key m u)

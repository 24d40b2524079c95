-- ===== src/Store/Scan.antt =====
-- zero/kv/store/kv_store.cc: the operations on all keys of a database, under the locks of all shards:
-- `existsMany`, `dbsize`, `expireCount`, `keys`, `scan` and `purgeExpiredActive`.
pub mod Purge
pub mod Keys
pub mod Pages
use zero_frameworks.Base.{
  ℕ, zero, suc, ◌+◌, ◌-◌, ◌%◌, ◌^◌, Bool, true, false, not, ◌&&◌, ◌||◌, List, [], ◌∷◌, ◌++◌,
  if◌then◌else◌, Option, none, some, ◌==◌, ltb, leb, length, take, drop,
}
use zero_frameworks.Base.Bytes.{Bytes}
use zero_frameworks.Base.Assoc.{Assoc, lookup, insert, nat_eq, bytes_eq}
use zero_frameworks.Base.Int.{ℤ, pos, ltb_ℤ, leb_ℤ}
use zero_frameworks.Glob.{match_glob}
use zero_frameworks.Store.{
  KvStore, Shard, Entry, DbMap, Env, StdHash, is_expired, find_entry, put_db, set_shard, shard_idx,
}
use zero_frameworks.Store.Evict.{shard_ids}

-- `<` of `std::string`
unfoldable pub less : Bytes → Bytes → Bool
less x [] = false
less [] (b ∷ y) = true
less (a ∷ x) (b ∷ y) = ltb a b || (a == b && less x y)

unfoldable pub put_in : Bytes → List Bytes → List Bytes
unfolding less
put_in x [] = x ∷ []
put_in x (y ∷ ys) = let rest = put_in x ys in if less y x then y ∷ rest else x ∷ y ∷ ys

-- `std::sort` of strings
unfoldable pub sort : List Bytes → List Bytes
unfolding put_in
sort [] = []
sort (x ∷ xs) = put_in x (sort xs)

-- `purgeExpiredDb`
unfoldable pub purge_expired_db : ℤ → DbMap → DbMap
purge_expired_db now [] = []
purge_expired_db now ((key, e) ∷ m) =
    let rest = purge_expired_db now m in if is_expired e now then rest else (key, e) ∷ rest

-- The loop of `collectKeys`.
unfoldable pub matching : ℤ → Bytes → DbMap → List Bytes
matching now pattern [] = []
matching now pattern ((key, e) ∷ m) =
    let rest = matching now pattern m in
    if is_expired e now then rest else if match_glob pattern key then key ∷ rest else rest

-- `collectKeys`
unfoldable pub collect_keys : DbMap → ℤ → Bytes → List Bytes → List Bytes
unfolding matching sort
collect_keys m now pattern out = sort (out ++ matching now pattern m)

-- The loop that `keys` and `scan` share, over the shards of the list.
unfoldable pub collect_shards : ℤ → ℕ → Bytes → List ℕ → KvStore → List Bytes → KvStore × List Bytes
unfolding purge_expired_db collect_keys put_db set_shard
collect_shards now db pattern [] s out = (s, out)
collect_shards now db pattern (i ∷ is) s out = elim (lookup db (s.shards i).dbs) [
  | none ↦ collect_shards now db pattern is s out
  | some m ↦
      let m' = purge_expired_db now m in
      collect_shards now db pattern is (set_shard i (put_db db m' (s.shards i)) s)
        (collect_keys m' now pattern out)
]

unfoldable pub keys : KvStore → ℕ → Bytes → Env → KvStore × List Bytes
unfolding collect_shards sort
keys s db pattern env =
    let (s', out) = collect_shards env.now db pattern shard_ids s [] in (s', sort out)

pub record ScanResult : Type 0 where
  pub cursor : ℕ
  pub keys : List Bytes

-- The part of `scan` behind the sort, for a count above 0.
unfoldable pub page : List Bytes → ℕ → ℕ → ScanResult
page all cursor count =
    let end = if leb (cursor + count) (length all) then cursor + count else length all in
    if leb (length all) cursor then record { cursor = 0; keys = [] } else record {
      cursor = if leb (length all) end then 0 else end;
      keys = take (end - cursor) (drop cursor all);
    }

abbrev pub count_or_10 : ℤ → ℕ
count_or_10 (pos zero) = 10
count_or_10 (pos (suc n)) = suc n
count_or_10 (ℤ.negsuc n) = 10

unfoldable pub scan : KvStore → ℕ → ℕ → Bytes → ℤ → Env → KvStore × ScanResult
unfolding collect_shards sort page
scan s db cursor pattern count env =
    let (s', all) = collect_shards env.now db pattern shard_ids s [] in
    (s', page (sort all) cursor (count_or_10 count))

-- The loop of `dbsize`.
unfoldable pub size_of_shards : ℤ → ℕ → List ℕ → KvStore → KvStore × ℕ
unfolding purge_expired_db put_db set_shard
size_of_shards now db [] s = (s, 0)
size_of_shards now db (i ∷ is) s = elim (lookup db (s.shards i).dbs) [
  | none ↦ size_of_shards now db is s
  | some m ↦
      let m' = purge_expired_db now m in
      let (s', total) = size_of_shards now db is (set_shard i (put_db db m' (s.shards i)) s) in
      (s', length m' + total)
]

unfoldable pub dbsize : KvStore → ℕ → Env → KvStore × ℕ
unfolding size_of_shards
dbsize s db env = size_of_shards env.now db shard_ids s

-- The entries that have a deadline.
unfoldable pub with_deadline : DbMap → ℕ
with_deadline [] = 0
with_deadline ((key, e) ∷ m) =
    let rest = with_deadline m in if ltb_ℤ (pos 0) e.expire_at_ms then rest + 1 else rest

-- The loop of `expireCount`, which drops the expired entries on its way.
unfoldable pub expire_count_shards : ℤ → ℕ → List ℕ → KvStore → KvStore × ℕ
unfolding purge_expired_db put_db set_shard with_deadline
expire_count_shards now db [] s = (s, 0)
expire_count_shards now db (i ∷ is) s = elim (lookup db (s.shards i).dbs) [
  | none ↦ expire_count_shards now db is s
  | some m ↦
      let m' = purge_expired_db now m in
      let (s', total) = expire_count_shards now db is (set_shard i (put_db db m' (s.shards i)) s) in
      (s', with_deadline m' + total)
]

unfoldable pub expire_count : KvStore → ℕ → Env → KvStore × ℕ
unfolding expire_count_shards
expire_count s db env = expire_count_shards env.now db shard_ids s

-- The inner loop of `purgeExpiredActive`: what it keeps of a map, and how many entries it removed.
unfoldable pub purge_first : ℤ → ℕ → DbMap → DbMap × ℕ
purge_first now zero m = (m, 0)
purge_first now (suc left) [] = ([], 0)
purge_first now (suc left) ((key, e) ∷ m) =
    let (kept, removed) = purge_first now left m in
    if is_expired e now then (kept, removed + 1) else ((key, e) ∷ kept, removed)

unfoldable pub purge_dbs : ℤ → ℕ → Assoc ℕ DbMap → Assoc ℕ DbMap × ℕ
unfolding purge_first
purge_dbs now max_scan [] = ([], 0)
purge_dbs now max_scan ((db, m) ∷ dbs) =
    let (kept, removed) = purge_first now max_scan m in
    let (rest, more) = purge_dbs now max_scan dbs in ((db, kept) ∷ rest, removed + more)

unfoldable pub purge_shards : ℤ → ℕ → List ℕ → KvStore → KvStore × ℕ
unfolding purge_dbs set_shard
purge_shards now max_scan [] s = (s, 0)
purge_shards now max_scan (i ∷ is) s =
    let (dbs, removed) = purge_dbs now max_scan (s.shards i).dbs in
    let (s', more) =
      purge_shards now max_scan is (set_shard i (record (s.shards i) { dbs = dbs }) s) in
    (s', removed + more)

unfoldable pub purge_expired_active : KvStore → ℤ → Env → KvStore × ℕ
unfolding purge_shards
purge_expired_active s (pos zero) env = (s, 0)
purge_expired_active s (ℤ.negsuc n) env = (s, 0)
purge_expired_active s (pos (suc n)) env = purge_shards env.now (suc n) shard_ids s

module _ ⦃h : StdHash⦄ where
  -- The loop of `existsMany`; a look-up drops the entry if it has expired.
  unfoldable pub exists_many : KvStore → ℕ → List Bytes → Env → KvStore × ℕ
  unfolding find_entry put_db set_shard
  exists_many s db [] env = (s, 0)
  exists_many s db (key ∷ rest) env =
      let i = shard_idx key in
      elim (lookup db (s.shards i).dbs) [
        | none ↦ exists_many s db rest env
        | some m ↦
            let (m', e) = find_entry m key env.now in
            let (s', n) = exists_many (set_shard i (put_db db m' (s.shards i)) s) db rest env in
            elim e [ none ↦ (s', n) | some x ↦ (s', n + 1) ]
      ]

-- ===== src/Store/Flush/Laws.antt =====
-- What a flush leaves, and that watchers notice it.
use zero_frameworks.Base.{
  ℕ, zero, suc, ◌+◌, ◌%◌, ◌^◌, ◌<◌, ◌≡◌, refl, ◌∙◌, ap, [], if◌then◌else◌, none, ◌==◌, ltb, arith,
}
use zero_frameworks.Base.Bytes.{Bytes}
use zero_frameworks.Base.Assoc.{nat_eq, bytes_eq, lookup-nil}
use zero_frameworks.Store.{
  KvStore, Shard, DbMap, StdHash, shard_count, shard_idx, db_of, put_db, set_shard, bump_watch_db,
}
use zero_frameworks.Store.View.{entry_at, db_of-put_db, db_of_missing}
use zero_frameworks.Store.Flush.{
  each_shard, flush_shard, flushdb, max_db, bump_all, clear_shard, flushall,
}

shards-each_shard :
    (n : ℕ) (change : Shard → Shard) (s : KvStore) (i : ℕ)
    → (each_shard n change s).shards i ≡ (if ltb i n then change (s.shards i) else s.shards i)
unfolding each_shard set_shard
shards-each_shard zero change s i = ground arith
shards-each_shard (suc n) change s i =
    ground (arith, shards-each_shard n change s i, shards-each_shard n change s n)

db_of-flush_shard :
    (db d : ℕ) (sh : Shard) → db_of (flush_shard db sh) d ≡ (if db == d then [] else db_of sh d)
unfolding flush_shard bump_watch_db db_of
db_of-flush_shard db d sh = unfold db_of in db_of-put_db db d [] sh

abbrev no_entries : DbMap
no_entries = []

module _ ⦃h : StdHash⦄ where
  own_shard :
      (change : Shard → Shard) (s : KvStore) (key : Bytes)
      → (each_shard shard_count change s).shards (shard_idx key) ≡ change (s.shards (shard_idx key))
  own_shard change s key = ground (arith, shards-each_shard shard_count change s (shard_idx key))

  -- FLUSHDB leaves no entry in its database and every entry of the other databases as it is, and the
  -- epoch that watchers of a key in it compare goes up by one, in 64 bits.
  flushdb_exact :
      (s : KvStore) (db d : ℕ) (key : Bytes)
      → (entry_at (flushdb s db) d key ≡ (if db == d then none else entry_at s d key))
        × (((flushdb s db).shards (shard_idx key)).db_watch_epoch db
            ≡ ((s.shards (shard_idx key)).db_watch_epoch db + 1) % 2 ^ 64)
  unfolding flushdb entry_at
  flushdb_exact s db d key = (
    rw (own_shard (flush_shard db) s key, db_of-flush_shard db d (s.shards (shard_idx key)))
        (ground (arith, lookup-nil key no_entries)),
    rw (own_shard (flush_shard db) s key) (unfold flush_shard bump_watch_db put_db in ground arith),
  )

  dbs-bump_all :
      (n : ℕ) (s : KvStore) (key : Bytes)
      → ((bump_all n s).shards (shard_idx key)).dbs ≡ (s.shards (shard_idx key)).dbs
  unfolding bump_all bump_watch_db
  dbs-bump_all zero s key = refl
  dbs-bump_all (suc n) s key =
      rw (own_shard (bump_watch_db n) (bump_all n s) key) (dbs-bump_all n s key)

  epoch-bump_all :
      (n : ℕ) (s : KvStore) (key : Bytes) (d : ℕ)
      → ((bump_all n s).shards (shard_idx key)).db_watch_epoch d ≡ (
          if ltb d n
          then ((s.shards (shard_idx key)).db_watch_epoch d + 1) % 2 ^ 64
          else (s.shards (shard_idx key)).db_watch_epoch d)
  unfolding bump_all bump_watch_db
  epoch-bump_all zero s key d = ground arith
  epoch-bump_all (suc n) s key d =
      rw (own_shard (bump_watch_db n) (bump_all n s) key) (ground (arith, epoch-bump_all n s key d))

  dbs-flushall : (s : KvStore) (key : Bytes) → ((flushall s).shards (shard_idx key)).dbs ≡ []
  unfolding flushall clear_shard
  dbs-flushall s key =
      dbs-bump_all max_db (each_shard shard_count clear_shard s) key
      ∙ ap (λ sh. sh.dbs) (own_shard clear_shard s key)

  epoch-flushall :
      (s : KvStore) (key : Bytes) (d : ℕ)
      → ((flushall s).shards (shard_idx key)).db_watch_epoch d ≡ (
          if ltb d max_db
          then ((s.shards (shard_idx key)).db_watch_epoch d + 1) % 2 ^ 64
          else (s.shards (shard_idx key)).db_watch_epoch d)
  unfolding flushall clear_shard
  epoch-flushall s key d =
      epoch-bump_all max_db (each_shard shard_count clear_shard s) key d
      ∙ ap (λ sh. if ltb d max_db then (sh.db_watch_epoch d + 1) % 2 ^ 64 else sh.db_watch_epoch d)
          (own_shard clear_shard s key)

  entry_at_cleared :
      (s : KvStore) (d : ℕ) (key : Bytes)
      → (s.shards (shard_idx key)).dbs ≡ []
      → entry_at s d key ≡ none
  unfolding entry_at
  entry_at_cleared s d key gone =
      lookup-nil key (db_of (s.shards (shard_idx key)) d)
        (db_of_missing d (s.shards (shard_idx key)) (lookup-nil d _ gone))

  -- FLUSHALL leaves no entry in any database, and the epoch of each of the sixteen databases goes up by
  -- one, in 64 bits.
  flushall_exact :
      (s : KvStore) (d : ℕ) (key : Bytes)
      → (entry_at (flushall s) d key ≡ none)
        × (d < max_db
            → ((flushall s).shards (shard_idx key)).db_watch_epoch d
              ≡ ((s.shards (shard_idx key)).db_watch_epoch d + 1) % 2 ^ 64)
  flushall_exact s d key = (
    entry_at_cleared (flushall s) d key (dbs-flushall s key),
    λ small. ground (arith, epoch-flushall s key d),
  )

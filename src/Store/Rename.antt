-- ===== src/Store/Rename.antt =====
-- zero/kv/store/kv_store.cc: `renameKey`, under the locks of all shards.
pub mod Laws
pub mod Unnoticed
use zero_frameworks.Base.{
  ℕ, Bool, true, false, not, List, [], ◌∷◌, if◌then◌else◌, Option, none, some, ◌==◌,
}
use zero_frameworks.Base.Bytes.{Bytes, beq}
use zero_frameworks.Base.Assoc.{lookup, insert, erase, bytes_eq, nat_eq}
use zero_frameworks.Base.Int.{ℤ, pos, negsuc}
use zero_frameworks.Store.{
  KvStore, Shard, Entry, Env, StdHash, find_entry, db_of, put_db, set_shard, bump_watch_key,
  shard_idx,
}

-- What it returns: 1, 0 or, with "ERR no such key", -2.
pub data Renamed : Type 0 where
  renamed kept missing : Renamed

module _ ⦃h : StdHash⦄ where
  unfoldable pub on_shard : ℕ → (Shard → Shard) → KvStore → KvStore
  on_shard i change s = set_shard i (change (s.shards i)) s

  -- From `Entry moved` on. The versions that move are those of the source, and of the destination if
  -- it lies in another shard.
  unfoldable pub move_entry : KvStore → ℕ → Bytes → Bytes → Entry → ℤ → KvStore
  unfolding on_shard
  move_entry s db src dst e now =
      let i = shard_idx src in
      let j = shard_idx dst in
      let taken = on_shard i (λ sh. put_db db (erase src (db_of sh db)) sh) s in
      let put =
        on_shard j (λ sh. put_db db (insert dst (record e { lru_ms = now }) (db_of sh db)) sh)
          taken in
      let bumped = on_shard i (bump_watch_key db src) put in
      if i == j then bumped else on_shard j (bump_watch_key db dst) bumped

  -- With the entry of the source at hand: the destination is looked up, and goes if it may.
  unfoldable pub rename_to : KvStore → ℕ → Bytes → Bytes → Bool → Entry → ℤ → KvStore × Renamed
  unfolding move_entry on_shard
  rename_to s db src dst nx e now =
      let j = shard_idx dst in
      elim (lookup db (s.shards j).dbs) [
        | none ↦ (move_entry s db src dst e now, renamed)
        | some m ↦
            let looked = on_shard j (put_db db (find_entry m dst now).0) s in
            elim (find_entry m dst now).1 [
              | none ↦ (move_entry looked db src dst e now, renamed)
              | some old ↦
                  let erased =
                    on_shard j
                      (λ sh. bump_watch_key db dst (put_db db (erase dst (db_of sh db)) sh))
                      looked in
                  if nx then (looked, kept) else (move_entry erased db src dst e now, renamed)
            ]
      ]

  unfoldable pub rename_key : KvStore → ℕ → Bytes → Bytes → Bool → Env → KvStore × Renamed
  unfolding rename_to on_shard
  rename_key s db src dst nx env =
      let i = shard_idx src in
      if beq src dst then (s, renamed) else elim (lookup db (s.shards i).dbs) [
        | none ↦ (s, missing)
        | some m ↦
            let looked = on_shard i (put_db db (find_entry m src env.now).0) s in
            elim (find_entry m src env.now).1 [
              | none ↦ (looked, missing)
              | some e ↦ rename_to looked db src dst nx e env.now
            ]
      ]

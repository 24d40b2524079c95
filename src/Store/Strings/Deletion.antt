-- ===== src/Store/Strings/Deletion.antt =====
-- zero/kv/store/kv_store.cc: what `delMany` and `del` take out.
use zero_frameworks.Base.{
  ℕ, ◌≡◌, refl, ◌∙◌, inl, inr, Bool, false, ◌&&◌, ◌||◌, List, [], ◌∷◌, if◌then◌else◌, none, ◌==◌,
  arith, Option-cases,
}
use zero_frameworks.Base.Bytes.{Bytes, beq}
use zero_frameworks.Base.Assoc.{lookup, erase, bytes_eq, nat_eq, lookup-erase, lookup-nil}
use zero_frameworks.Base.Int.{ℤ}
use zero_frameworks.Store.{KvStore, Env, StdHash, set_shard, put_db, find_entry, db_of, shard_idx}
use zero_frameworks.Store.View.{
  entry_at, live, find_entry-live, lookup-find_entry, db_of_found, db_of_missing, db_of-put_db,
  db_of-bump,
}
use zero_frameworks.Store.Strings.{is_some, del_key, del_many, del}

-- Whether a key is among those listed.
unfoldable pub mem : Bytes → List Bytes → Bool
mem j [] = false
mem j (key ∷ keys) = beq key j || mem j keys

live-none : (now : ℤ) → live now none ≡ none
unfolding live
live-none now = refl

module _ ⦃h : StdHash⦄ where
  -- One round of DEL: the key is gone, other keys are as before.
  entry_at-del_key :
      (s : KvStore) (db d : ℕ) (key j : Bytes) (now : ℤ)
      → entry_at (del_key s db key now).0 d j
        ≡ (if db == d && bytes_eq.test key j then none else entry_at s d j)
  unfolding del_key entry_at set_shard
  entry_at-del_key s db d key j now =
      let i = shard_idx key in
      let sh = s.shards i in
      elim (Option-cases (lookup db sh.dbs)) [
        | inl missing ↦
            rw (missing, del_key)
              (ground (
                arith,
                lookup-nil j (db_of sh db) (db_of_missing db sh missing),
                bytes_eq.test_iff key j,
              ))
        | inr (m, found) ↦ elim (Option-cases (find_entry m key now).1) [
          | inl gone ↦
              rw (found, gone, del_key)
                (ground (
                  arith,
                  db_of_found db sh m found,
                  db_of-put_db db d (find_entry m key now).0 sh,
                  lookup-find_entry m key j now,
                  find_entry-live m key now,
                  bytes_eq.test_iff key j,
                  gone,
                ))
          | inr (e, there) ↦
              rw (found, there, del_key)
                (ground (
                  arith,
                  db_of_found db sh m found,
                  db_of-bump db d key (put_db db (erase key m) sh),
                  db_of-put_db db d (erase key m) sh,
                  lookup-erase key j m,
                  bytes_eq.test_iff key j,
                ))
        ]
      ]

  del_key_count :
      (s : KvStore) (db : ℕ) (key : Bytes) (now : ℤ)
      → (del_key s db key now).1 ≡ (if is_some (live now (entry_at s db key)) then 1 else 0)
  unfolding del_key entry_at
  del_key_count s db key now =
      let sh = s.shards (shard_idx key) in
      elim (Option-cases (lookup db sh.dbs)) [
        | inl missing ↦
            rw (missing, del_key)
              (ground
                (arith, lookup-nil key (db_of sh db) (db_of_missing db sh missing), live-none now))
        | inr (m, found) ↦ elim (Option-cases (find_entry m key now).1) [
          | inl gone ↦
              rw (found, gone, del_key)
                (ground (arith, db_of_found db sh m found, find_entry-live m key now, gone))
          | inr (e, there) ↦
              rw (found, there, del_key)
                (ground (arith, db_of_found db sh m found, find_entry-live m key now, there))
        ]
      ]

  pub entry_at-del_many :
      (s : KvStore) (db : ℕ) (keys : List Bytes) (d : ℕ) (j : Bytes) (env : Env)
      → entry_at (del_many s db keys env).0 d j
        ≡ (if db == d && mem j keys then none else entry_at s d j)
  unfolding del_many mem
  entry_at-del_many s db [] d j env = ground arith
  entry_at-del_many s db (key ∷ keys) d j env = ground (
    arith,
    entry_at-del_key s db d key j env.now,
    entry_at-del_many (del_key s db key env.now).0 db keys d j env,
  )

  -- DEL takes out exactly the listed keys of its database: afterwards none of them has an entry, and
  -- every other entry is as before. Of a single key it answers whether that was live.
  pub del_many_exact :
      (s : KvStore) (db : ℕ) (keys : List Bytes) (env : Env)
      → ((d : ℕ) (j : Bytes)
          → entry_at (del_many s db keys env).0 d j
            ≡ (if db == d && mem j keys then none else entry_at s d j))
        × ((key : Bytes) → (del s db key env).1 ≡ is_some (live env.now (entry_at s db key)))
  del_many_exact s db keys env = (
    λ d j. entry_at-del_many s db keys d j env,
    λ key. unfold del del_many in ground (arith, del_key_count s db key env.now),
  )

  maxmemory-del_key :
      (s : KvStore) (db : ℕ) (key : Bytes) (now : ℤ)
      → (del_key s db key now).0.maxmemory ≡ s.maxmemory
  unfolding del_key set_shard
  maxmemory-del_key s db key now = ground arith

  pub maxmemory-del_many :
      (s : KvStore) (db : ℕ) (keys : List Bytes) (env : Env)
      → (del_many s db keys env).0.maxmemory ≡ s.maxmemory
  unfolding del_many
  maxmemory-del_many s db [] env = refl
  maxmemory-del_many s db (key ∷ keys) env =
      maxmemory-del_many (del_key s db key env.now).0 db keys env
      ∙ maxmemory-del_key s db key env.now

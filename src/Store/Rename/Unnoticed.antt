-- ===== src/Store/Rename/Unnoticed.antt =====
-- A rename that WATCH does not see.
use zero_frameworks.Base.{
  ℕ, ◌≡◌, ◌≢◌, ◌∙◌, refl, ap, Bool, false, List, none, some, arith, Option-cases, inl, inr,
}
use zero_frameworks.Base.Bytes.{Bytes, beq, beq_iff}
use zero_frameworks.Base.Assoc.{lookup, insert, erase, bytes_eq, nat_eq}
use zero_frameworks.Base.Int.{ℤ}
use zero_frameworks.Store.{
  KvStore, Shard, Entry, Env, StdHash, find_entry, db_of, put_db, set_shard, bump_watch_key,
  shard_idx, watch_token, shard_watch_token,
}
use zero_frameworks.Store.View.{live, entry_at}
use zero_frameworks.Store.Rename.{on_shard, move_entry, rename_to, rename_key}
use zero_frameworks.Store.Rename.Laws.{
  found-entry_at, entry_at-looked, entry_at-no_map, live-none, rename_key-Moves,
}

module _ ⦃h : StdHash⦄ (db : ℕ) (key : Bytes) where
  token : KvStore → ℕ
  token s = (watch_token s db key).1

  -- A change that leaves a key's version and its database's epoch.
  record Quiet (change : Shard → Shard) : Type 0 where
    versions : (sh : Shard) → (change sh).watch_versions db key ≡ sh.watch_versions db key
    epochs : (sh : Shard) → (change sh).db_watch_epoch db ≡ sh.db_watch_epoch db

  token-on_shard :
      (i : ℕ) (change : Shard → Shard) (s : KvStore)
      → Quiet change
      → token (on_shard i change s) ≡ token s
  unfolding token on_shard set_shard watch_token shard_watch_token
  token-on_shard i change s quiet =
      let sh = s.shards (shard_idx key) in
      ground (arith, quiet.versions sh, quiet.epochs sh, ap s.shards {x = i} {y = shard_idx key})

  put-Quiet : (d : ℕ) (m : Shard → List (Bytes × Entry)) → Quiet (λ sh. put_db d (m sh) sh)
  unfolding put_db
  put-Quiet d m = record { versions = λ sh. refl; epochs = λ sh. refl }

  bump-Quiet : (d : ℕ) (other : Bytes) → beq other key ≡ false → Quiet (bump_watch_key d other)
  unfolding bump_watch_key
  bump-Quiet d other apart = record {
    versions = λ sh. ground (arith, apart);
    epochs = λ sh. ground (arith, apart);
  }

  token-move_entry :
      (s : KvStore) (src : Bytes) (e : Entry) (now : ℤ)
      → beq src key ≡ false
      → shard_idx src ≡ shard_idx key
      → token (move_entry s db src key e now) ≡ token s
  unfolding move_entry
  token-move_entry s src e now apart same =
      let i = shard_idx src in
      let j = shard_idx key in
      let x = record e { lru_ms = now } in
      let taken = on_shard i (λ sh. put_db db (erase src (db_of sh db)) sh) s in
      let put = on_shard j (λ sh. put_db db (insert key x (db_of sh db)) sh) taken in
      ground (
        arith,
        same,
        token-on_shard i (λ sh. put_db db (erase src (db_of sh db)) sh) s
            (put-Quiet db (λ sh. erase src (db_of sh db))),
        token-on_shard j (λ sh. put_db db (insert key x (db_of sh db)) sh) taken
            (put-Quiet db (λ sh. insert key x (db_of sh db))),
        token-on_shard i (bump_watch_key db src) put (bump-Quiet db src apart),
      )

  token-rename_to :
      (s : KvStore) (src : Bytes) (nx : Bool) (e : Entry) (now : ℤ)
      → beq src key ≡ false
      → shard_idx src ≡ shard_idx key
      → live now (entry_at s db key) ≡ none
      → token (rename_to s db src key nx e now).0 ≡ token s
  unfolding rename_to
  token-rename_to s src nx e now apart same free =
      elim (Option-cases (lookup db (s.shards (shard_idx key)).dbs)) [
        | inl absent ↦ rw (absent, rename_to) (token-move_entry s src e now apart same)
        | inr (m, found) ↦
            let looked = on_shard (shard_idx key) (put_db db (find_entry m key now).0) s in
            rw (found, found-entry_at s db key now m found ∙ free, rename_to)
              (token-move_entry looked src e now apart same
                ∙ token-on_shard (shard_idx key) (put_db db (find_entry m key now).0) s
                    (put-Quiet db (λ sh. (find_entry m key now).0)))
      ]

  -- RENAME of a live key to one that is free and lies in the same shard: the destination has an entry
  -- afterwards, and the token that a WATCH of the destination compares is the same as before.
  pub rename_unnoticed :
      (s : KvStore) (src : Bytes) (nx : Bool) (e : Entry) (env : Env)
      → src ≢ key
      → shard_idx src ≡ shard_idx key
      → live env.now (entry_at s db src) ≡ some e
      → live env.now (entry_at s db key) ≡ none
      → let t = (rename_key s db src key nx env).0 in
        (entry_at t db key ≡ some (record e { lru_ms = env.now }))
        × ((watch_token t db key).1 ≡ (watch_token s db key).1)
  unfolding rename_key
  rename_unnoticed s src nx e env apart same there free =
      let differ : beq src key ≡ false = ground (arith, beq_iff src key, apart) in
      let moves = rename_key-Moves s db src key nx e env apart there (ground (arith, free)) in
      (
        moves.1 db key ∙ ground (arith, bytes_eq.test_iff key key),
        elim (Option-cases (lookup db (s.shards (shard_idx src)).dbs)) [
          | inl absent ↦
              absurd (ground (arith, there, entry_at-no_map s db src absent, live-none env.now))
          | inr (m, found) ↦
              let got = found-entry_at s db src env.now m found ∙ there in
              let looked = on_shard (shard_idx src) (put_db db (find_entry m src env.now).0) s in
              let seen = entry_at-looked s db src env.now m found db key in
              rw (differ, found, got, rename_key)
                (unfold token in
                  token-rename_to looked src nx e env.now differ same
                    (ground (arith, seen, free, differ))
                  ∙ token-on_shard (shard_idx src) (put_db db (find_entry m src env.now).0) s
                      (put-Quiet db (λ sh. (find_entry m src env.now).0)))
        ],
      )

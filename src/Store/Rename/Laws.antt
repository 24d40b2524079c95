-- ===== src/Store/Rename/Laws.antt =====
-- Where a rename leaves the entries, and whether watchers notice it.
use zero_frameworks.Base.{
  ℕ, ◌≡◌, ◌≢◌, ◌∙◌, refl, sym, ap, Bool, false, ◌&&◌, if◌then◌else◌, Option, none, some, ◌==◌,
  arith, Option-cases, inl, inr,
}
use zero_frameworks.Base.Bytes.{Bytes, beq, beq_iff}
use zero_frameworks.Base.Assoc.{
  lookup, insert, erase, bytes_eq, nat_eq, lookup-insert, lookup-erase,
}
use zero_frameworks.Base.Int.{ℤ}
use zero_frameworks.Store.{
  KvStore, Shard, Entry, DbMap, Env, StdHash, find_entry, db_of, put_db, set_shard, bump_watch_key,
  shard_idx,
}
use zero_frameworks.Store.View.{
  live, entry_at, find_entry-live, lookup-find_entry, db_of_found, db_of_missing, db_of-put_db,
  db_of-bump,
}
use zero_frameworks.Store.Strings.{is_some}
use zero_frameworks.Store.Rename.{Renamed, renamed, on_shard, move_entry, rename_to, rename_key}

module _ ⦃h : StdHash⦄ where
  entry_at-on_shard :
      (i : ℕ) (change : Shard → Shard) (s : KvStore) (d : ℕ) (j : Bytes)
      → entry_at (on_shard i change s) d j ≡ (
          if i == shard_idx j
          then lookup j (db_of (change (s.shards (shard_idx j))) d)
          else entry_at s d j)
  unfolding entry_at on_shard set_shard
  entry_at-on_shard i change s d j = ground (arith, ap s.shards {x = i} {y = shard_idx j})

  -- A shard's map of one database, replaced.
  entry_at-put :
      (key : Bytes) (db : ℕ) (s : KvStore) (change : DbMap → DbMap) (v : Option Entry) (d : ℕ)
      (j : Bytes)
      → ((m : DbMap) → lookup j (change m) ≡ (if bytes_eq.test key j then v else lookup j m))
      → entry_at (on_shard (shard_idx key) (λ sh. put_db db (change (db_of sh db)) sh) s) d j
        ≡ (if db == d && bytes_eq.test key j then v else entry_at s d j)
  entry_at-put key db s change v d j changes =
      let sh = s.shards (shard_idx j) in
      entry_at-on_shard (shard_idx key) (λ sh. put_db db (change (db_of sh db)) sh) s d j
      ∙ unfold entry_at in
        ground (
          arith,
          db_of-put_db db d (change (db_of sh db)) sh,
          changes (db_of sh db),
          bytes_eq.test_iff key j,
        )

  entry_at-bumped :
      (key : Bytes) (db : ℕ) (i : ℕ) (s : KvStore) (d : ℕ) (j : Bytes)
      → entry_at (on_shard i (bump_watch_key db key) s) d j ≡ entry_at s d j
  entry_at-bumped key db i s d j =
      entry_at-on_shard i (bump_watch_key db key) s d j
      ∙ unfold entry_at in ground (arith, db_of-bump db d key (s.shards (shard_idx j)))

  entry_at-taken :
      (key : Bytes) (db : ℕ) (s : KvStore) (d : ℕ) (j : Bytes)
      → entry_at
          (on_shard
            (shard_idx key)
            (λ sh. bump_watch_key db key (put_db db (erase key (db_of sh db)) sh))
            s)
          d
          j
        ≡ (if db == d && bytes_eq.test key j then none else entry_at s d j)
  entry_at-taken key db s d j =
      let sh = s.shards (shard_idx j) in
      entry_at-on_shard (shard_idx key)
        (λ sh. bump_watch_key db key (put_db db (erase key (db_of sh db)) sh)) s d j
      ∙ unfold entry_at in
        ground (
          arith,
          db_of-bump db d key (put_db db (erase key (db_of sh db)) sh),
          db_of-put_db db d (erase key (db_of sh db)) sh,
          lookup-erase key j (db_of sh db),
          bytes_eq.test_iff key j,
        )

  -- What a move leaves.
  abbrev moved_to :
      ℕ → Bytes → Bytes → Entry → ℤ → (ℕ → Bytes → Option Entry) → ℕ → Bytes → Option Entry
  moved_to db src dst e now before d j =
      if db == d && bytes_eq.test dst j
      then some (record e { lru_ms = now })
      else if db == d && bytes_eq.test src j
      then none
      else before d j

  entry_at-move_entry :
      (s : KvStore) (db : ℕ) (src dst : Bytes) (e : Entry) (now : ℤ) (d : ℕ) (j : Bytes)
      → entry_at (move_entry s db src dst e now) d j ≡ moved_to db src dst e now (entry_at s) d j
  unfolding move_entry
  entry_at-move_entry s db src dst e now d j =
      let taken = on_shard (shard_idx src) (λ sh. put_db db (erase src (db_of sh db)) sh) s in
      let x = record e { lru_ms = now } in
      let put = on_shard (shard_idx dst) (λ sh. put_db db (insert dst x (db_of sh db)) sh) taken in
      let bumped = on_shard (shard_idx src) (bump_watch_key db src) put in
      ground (
        arith,
        entry_at-bumped dst db (shard_idx dst) bumped d j,
        entry_at-bumped src db (shard_idx src) put d j,
        entry_at-put dst db taken (insert dst x) (some x) d j (lookup-insert dst j x),
        entry_at-put src db s (erase src) none d j (lookup-erase src j),
      )

  module _ (s : KvStore) (db : ℕ) (key : Bytes) (now : ℤ) (m : DbMap)
      (found : lookup db (s.shards (shard_idx key)).dbs ≡ some m) where
    found_map : m ≡ db_of (s.shards (shard_idx key)) db
    found_map = sym (db_of_found db (s.shards (shard_idx key)) m found)

    pub found-entry_at : (find_entry m key now).1 ≡ live now (entry_at s db key)
    unfolding entry_at
    found-entry_at = find_entry-live m key now ∙ ap (λ x. live now (lookup key x)) found_map

    -- The look-up takes an expired entry out.
    pub entry_at-looked :
        (d : ℕ) (j : Bytes)
        → entry_at (on_shard (shard_idx key) (put_db db (find_entry m key now).0) s) d j ≡ (
            if db == d && bytes_eq.test key j then live now (entry_at s db key) else entry_at s d j)
    entry_at-looked d j =
        let sh = s.shards (shard_idx j) in
        entry_at-on_shard (shard_idx key) (put_db db (find_entry m key now).0) s d j
        ∙ unfold entry_at in
          ground (
            arith,
            db_of-put_db db d (find_entry m key now).0 sh,
            lookup-find_entry m key j now,
            found_map,
            bytes_eq.test_iff key j,
            ap (λ i. db_of (s.shards i) db) {x = shard_idx key} {y = shard_idx j},
          )

  pub entry_at-no_map :
      (s : KvStore) (db : ℕ) (key : Bytes)
      → lookup db (s.shards (shard_idx key)).dbs ≡ none
      → entry_at s db key ≡ none
  unfolding entry_at lookup
  entry_at-no_map s db key absent = rw (db_of_missing db (s.shards (shard_idx key)) absent) refl

  pub live-none : (now : ℤ) → live now none ≡ none
  unfolding live
  live-none now = refl

  -- Where each entry is afterwards, if the source is there and the destination free or to be overwritten.
  abbrev pub Moves : KvStore → ℕ → Bytes → Bytes → Entry → ℤ → KvStore × Renamed → Type 0
  Moves s db src dst e now (t, r) =
      (r ≡ renamed)
      × ((d : ℕ) (j : Bytes) → entry_at t d j ≡ moved_to db src dst e now (entry_at s) d j)

  rename_to-Moves :
      (s : KvStore) (db : ℕ) (src dst : Bytes) (nx : Bool) (e : Entry) (now : ℤ)
      → (nx && is_some (live now (entry_at s db dst))) ≡ false
      → Moves s db src dst e now (rename_to s db src dst nx e now)
  unfolding rename_to
  rename_to-Moves s db src dst nx e now free =
      elim (Option-cases (lookup db (s.shards (shard_idx dst)).dbs)) [
        | inl absent ↦
            rw (absent, rename_to) (refl, λ d j. entry_at-move_entry s db src dst e now d j)
        | inr (m, found) ↦
            let looked = on_shard (shard_idx dst) (put_db db (find_entry m dst now).0) s in
            elim (Option-cases (find_entry m dst now).1) [
              | inl gone ↦
                  rw (found, gone, rename_to)
                    (
                      refl,
                      λ d j.
                          entry_at-move_entry looked db src dst e now d j
                          ∙ ground (arith, entry_at-looked s db dst now m found d j),
                    )
              | inr (old, there) ↦
                  let off : nx ≡ false =
                    ground (arith, free, there, found-entry_at s db dst now m found) in
                  let erased =
                    on_shard (shard_idx dst)
                      (λ sh. bump_watch_key db dst (put_db db (erase dst (db_of sh db)) sh))
                      looked in
                  rw (found, there, off, rename_to)
                    (
                      refl,
                      λ d j.
                          entry_at-move_entry erased db src dst e now d j
                          ∙ ground (
                            arith,
                            entry_at-taken dst db looked d j,
                            entry_at-looked s db dst now m found d j,
                          ),
                    )
            ]
      ]

  -- RENAME of a live key to another one, where RENAMENX finds none there: the destination holds the
  -- entry of the source, with its deadline and its last use now, the source holds none, and every
  -- other entry is as before.
  pub rename_key-Moves :
      (s : KvStore) (db : ℕ) (src dst : Bytes) (nx : Bool) (e : Entry) (env : Env)
      → src ≢ dst
      → live env.now (entry_at s db src) ≡ some e
      → (nx && is_some (live env.now (entry_at s db dst))) ≡ false
      → Moves s db src dst e env.now (rename_key s db src dst nx env)
  unfolding rename_key
  rename_key-Moves s db src dst nx e env apart there free =
      let differ : beq src dst ≡ false = ground (arith, beq_iff src dst, apart) in
      elim (Option-cases (lookup db (s.shards (shard_idx src)).dbs)) [
        | inl absent ↦
            absurd (ground (arith, there, entry_at-no_map s db src absent, live-none env.now))
        | inr (m, found) ↦
            let looked = on_shard (shard_idx src) (put_db db (find_entry m src env.now).0) s in
            let got = found-entry_at s db src env.now m found ∙ there in
            let same = entry_at-looked s db src env.now m found in
            let moves =
              rename_to-Moves looked db src dst nx e env.now
                (ground (arith, free, same db dst, differ)) in
            rw (differ, found, got, rename_key)
              (moves.0, λ d j. moves.1 d j ∙ ground (arith, same d j))
      ]

-- ===== src/Store/Scan/Keys.antt =====
-- What `keys` and `dbsize` answer.
use zero_frameworks.Base.{
  ℕ, ◌<◌, ◌≡◌, ◌∙◌, sym, refl, ap, subst, fun_ext, Bool, true, false, ◌&&◌, ◌||◌, List, [], ◌∷◌,
  none, some, ◌==◌, arith, Option-cases, inl, inr,
}
use zero_frameworks.Base.Bytes.{Bytes}
use zero_frameworks.Base.Assoc.{lookup, nat_eq, bytes_eq}
use zero_frameworks.Base.Int.{ℤ}
use zero_frameworks.Glob.{match_glob}
use zero_frameworks.Store.{KvStore, DbMap, Env, StdHash, shard_idx, db_of, put_db, set_shard}
use zero_frameworks.Store.View.{live, entry_at, db_of_found, db_of_missing, db_of-put_db}
use zero_frameworks.Store.Evict.{shard_ids}
use zero_frameworks.Store.Strings.{is_some}
use zero_frameworks.Store.Strings.Deletion.{mem}
use zero_frameworks.Store.Placed.{Placed, Kept, set_shard-Placed, live-some}
use zero_frameworks.Store.Scan.{purge_expired_db, collect_keys, collect_shards, keys}
use zero_frameworks.Store.Scan.Purge.{
  mem-sort, mem-collect_keys, lookup-purge, purge-Unique, live-live,
}

unfoldable pub any : (ℕ → Bool) → List ℕ → Bool
any f [] = false
any f (i ∷ is) = f i || any f is

unfoldable pub among : ℕ → List ℕ → Bool
among i [] = false
among i (j ∷ js) = i == j || among i js

any-only :
    (f : ℕ → Bool) (a : ℕ) (is : List ℕ)
    → ((i : ℕ) → f i ≡ true → a ≡ i)
    → any f is ≡ (among a is && f a)
unfolding any among
any-only f a [] only = refl
any-only f a (i ∷ is) only = ground (arith, any-only f a is only, only i, ap f {x = i} {y = a})

among-shard_ids : (i : ℕ) → i < 16 → among i shard_ids ≡ true
unfolding among shard_ids
among-shard_ids i h = ground arith

-- Whether a shard shows a key of a database.
unfoldable pub shows : ℤ → ℕ → Bytes → KvStore → ℕ → Bool
shows now db key s i = is_some (live now (lookup key (db_of (s.shards i) db)))

module _ ⦃h : StdHash⦄ where
  purge-Kept : (now : ℤ) (i : ℕ) (m : DbMap) → Kept i m → Kept i (purge_expired_db now m)
  purge-Kept now i m k = record {
    unique = purge-Unique now m k.unique;
    own = λ key e found.
        k.own key e
          (live-some now (lookup key m) e (sym (lookup-purge now key m k.unique) ∙ found));
  }

  -- One round of a loop over the shards: the shard with its map purged.
  abbrev purged : ℤ → ℕ → ℕ → DbMap → KvStore → KvStore
  purged now db i m s = set_shard i (put_db db (purge_expired_db now m) (s.shards i)) s

  module _ (now : ℤ) (db i : ℕ) (m : DbMap) (s : KvStore) (placed : Placed s)
      (found : lookup db (s.shards i).dbs ≡ some m) where
    kept : Kept i m
    kept = subst (Kept i) (db_of_found db (s.shards i) m found) (placed i db)

    purged-Placed : Placed (purged now db i m s)
    purged-Placed =
        set_shard-Placed s i db (purge_expired_db now m) _ placed
          (λ d. db_of-put_db db d (purge_expired_db now m) (s.shards i)) (purge-Kept now i m kept)

    shows-purged :
        (key : Bytes) (j : ℕ) → shows now db key (purged now db i m s) j ≡ shows now db key s j
    unfolding shows set_shard
    shows-purged key j = ground (
      arith,
      db_of-put_db db db (purge_expired_db now m) (s.shards i),
      db_of_found db (s.shards i) m found,
      lookup-purge now key m kept.unique,
      live-live now (lookup key m),
      ap s.shards {x = i} {y = j},
    )

    mem-found :
        (key pattern : Bytes) (out : List Bytes)
        → mem key (collect_keys (purge_expired_db now m) now pattern out)
          ≡ (mem key out || (match_glob pattern key && shows now db key s i))
    unfolding shows
    mem-found key pattern out =
        mem-collect_keys now pattern key (purge_expired_db now m) out
          (purge-Unique now m kept.unique)
        ∙ ground (
          arith,
          lookup-purge now key m kept.unique,
          live-live now (lookup key m),
          db_of_found db (s.shards i) m found,
        )

  shows-missing :
      (now : ℤ) (db i : ℕ) (key : Bytes) (s : KvStore)
      → lookup db (s.shards i).dbs ≡ none
      → shows now db key s i ≡ false
  unfolding shows live lookup
  shows-missing now db i key s missing = rw (db_of_missing db (s.shards i) missing) refl

  shows-own :
      (now : ℤ) (db : ℕ) (key : Bytes) (s : KvStore)
      → Placed s
      → (i : ℕ) → shows now db key s i ≡ true
      → shard_idx key ≡ i
  unfolding shows live
  shows-own now db key s placed i shown = elim (Option-cases (lookup key (db_of (s.shards i) db))) [
    | inl missing ↦ ground (arith, missing, shown)
    | inr (e, found) ↦ (placed i db).own key e found
  ]

  shows-anywhere :
      (now : ℤ) (db : ℕ) (key : Bytes) (s : KvStore)
      → Placed s
      → any (shows now db key s) shard_ids ≡ is_some (live now (entry_at s db key))
  unfolding shows entry_at
  shows-anywhere now db key s placed =
      any-only (shows now db key s) (shard_idx key) shard_ids (shows-own now db key s placed)
      ∙ ground (arith, among-shard_ids (shard_idx key) (omega arith))

  mem-collect_shards :
      (now : ℤ) (db : ℕ) (key pattern : Bytes) (is : List ℕ) (s : KvStore) (out : List Bytes)
      → Placed s
      → mem key (collect_shards now db pattern is s out).1
        ≡ (mem key out || (match_glob pattern key && any (shows now db key s) is))
  unfolding collect_shards any
  mem-collect_shards now db key pattern [] s out placed = ground arith
  mem-collect_shards now db key pattern (i ∷ is) s out placed =
      elim (Option-cases (lookup db (s.shards i).dbs)) [
        | inl missing ↦
            rw (missing, collect_shards)
              (mem-collect_shards now db key pattern is s out placed
                ∙ ground (arith, shows-missing now db i key s missing))
        | inr (m, found) ↦
            let out' = collect_keys (purge_expired_db now m) now pattern out in
            let s' = purged now db i m s in
            let same : shows now db key s' ≡ shows now db key s =
              fun_ext (shows-purged now db i m s placed found key) in
            rw (found, collect_shards)
              (mem-collect_shards now db key pattern is s' out'
                  (purged-Placed now db i m s placed found)
                ∙ ap (λ f. mem key out' || (match_glob pattern key && any f is)) same
                ∙ ground (arith, mem-found now db i m s placed found key pattern out))
      ]

  -- KEYS lists exactly the keys of its database that match the pattern and have not expired. Every key
  -- lies in its shard, as any history of commands keeps it.
  pub mem-keys :
      (s : KvStore) (db : ℕ) (key pattern : Bytes) (env : Env)
      → Placed s
      → mem key (keys s db pattern env).1
        ≡ (match_glob pattern key && is_some (live env.now (entry_at s db key)))
  unfolding keys mem
  mem-keys s db key pattern env placed =
      mem-sort key (collect_shards env.now db pattern shard_ids s []).1
      ∙ mem-collect_shards env.now db key pattern shard_ids s [] placed
      ∙ ap (λ b. match_glob pattern key && b) (shows-anywhere env.now db key s placed)

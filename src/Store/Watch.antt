-- ===== src/Store/Watch.antt =====
-- zero/kv/store/kv_store.h and kv_store.cc: the versions that WATCH compares, and which operations
-- move them.
use zero_frameworks.Base.{
  ℕ, ◌+◌, ◌%◌, ◌^◌, ◌≡◌, refl, ◌∙◌, Bool, true, false, ◌&&◌, if◌then◌else◌, Option, none, some,
  ◌==◌, arith,
}
use zero_frameworks.Base.Bytes.{Bytes}
use zero_frameworks.Base.Assoc.{bytes_eq, nat_eq, test_refl}
use zero_frameworks.Base.Int.{ℤ, pos, negsuc, leb_ℤ, wrap64, scale, ◌+ℤ◌}
use zero_frameworks.Store.{
  KvStore, Entry, DbMap, Body, Env, StdHash, shard_idx, find_entry, db_of, put_db, set_shard,
  bump_watch_key, with_entry, watch_token, shard_watch_token,
}
use zero_frameworks.Store.View.{entry_at, live, entry_at_after}
use zero_frameworks.Store.Evict.{evict_if_needed}
use zero_frameworks.Store.Strings.{set_body, set_opt, set}
use zero_frameworks.Store.Expiry.{expire_body, expire}
use zero_frameworks.Store.Expiry.Laws.{after_expire, expire-Local}

module _ ⦃h : StdHash⦄ where
  unfoldable pub version_at : KvStore → ℕ → Bytes → ℕ
  version_at s db key = (s.shards (shard_idx key)).watch_versions db key

  unfoldable pub watched : KvStore → Bytes → Bool
  watched s key = (s.shards (shard_idx key)).has_watches

  module _ {R : Type 0} (s : KvStore) (db : ℕ) (key : Bytes) (now : ℤ) (body : Body R) where
    seen : DbMap × Option Entry
    seen = find_entry (db_of (s.shards (shard_idx key)) db) key now

    version-with_entry : version_at (with_entry s db key now body).0 db key ≡ (
        if (body seen.0 seen.1).1 && watched s key
        then (version_at s db key + 1) % 2 ^ 64
        else version_at s db key)
    unfolding version_at watched with_entry set_shard bump_watch_key put_db seen
    version-with_entry = ground (arith, test_refl key)

    epoch-with_entry :
        ((with_entry s db key now body).0.shards (shard_idx key)).db_watch_epoch db
        ≡ (s.shards (shard_idx key)).db_watch_epoch db
    unfolding with_entry set_shard bump_watch_key put_db
    epoch-with_entry = ground arith

  token-parts :
      (s t : KvStore) (db : ℕ) (key : Bytes)
      → version_at t db key ≡ version_at s db key
      → (t.shards (shard_idx key)).db_watch_epoch db ≡ (s.shards (shard_idx key)).db_watch_epoch db
      → (watch_token t db key).1 ≡ (watch_token s db key).1
  unfolding watch_token shard_watch_token version_at
  token-parts s t db key v e = rw (v, e) refl

  set_bumps :
      (now : ℤ) (key value : Bytes) (m : DbMap) (e : Option Entry)
      → (set_body now key value false false (negsuc 0) (negsuc 0) m e).1 ≡ true
  unfolding set_body
  set_bumps now key value m e = refl

  expire_quiet :
      (key : Bytes) (seconds at : ℤ) (m : DbMap) (e : Option Entry)
      → (expire_body key seconds at m e).1 ≡ false
  unfolding expire_body
  expire_quiet key seconds at m none = refl
  expire_quiet key seconds at m (some e) = ground arith

  expired_goes :
      (seconds at : ℤ) (e : Option Entry)
      → leb_ℤ seconds (pos 0) ≡ true
      → (db : ℕ) (key : Bytes) → (other : Option Entry)
      → (if db == db && bytes_eq.test key key then after_expire seconds at e else other) ≡ none
  unfolding after_expire
  expired_goes seconds at none over db key other = ground (arith, test_refl key)
  expired_goes seconds at (some e) over db key other = ground (arith, test_refl key)

  -- SET of a watched key moves its version on by one, in 64 bits. Whether the key is watched and its
  -- version are those after the eviction.
  set-version :
      (s : KvStore) (db : ℕ) (key value : Bytes) (env : Env)
      → let t = evict_if_needed env s in
        watched t key ≡ true
        → version_at (set s db key value env) db key ≡ (version_at t db key + 1) % 2 ^ 64
  unfolding set set_opt
  set-version s db key value env watching =
      version-with_entry (evict_if_needed env s) db key env.now
        (set_body env.now key value false false (negsuc 0) (negsuc 0))
      ∙ rw (set_bumps env.now key value, watching) refl

  -- EXPIRE with a lifetime of 0 or less takes a live key out, and the token that WATCH compares is the
  -- same as before.
  expire_unnoticed :
      (s : KvStore) (db : ℕ) (key : Bytes) (seconds : ℤ) (env : Env)
      → leb_ℤ seconds (pos 0) ≡ true
      → let t = (expire s db key seconds env).0 in
        (entry_at t db key ≡ none) × ((watch_token t db key).1 ≡ (watch_token s db key).1)
  unfolding expire
  expire_unnoticed s db key seconds env over =
      let at = wrap64 (env.now +ℤ wrap64 (scale 1000 seconds)) in
      (
        entry_at_after s db key env.now _ (expire-Local key seconds at) db key
            ∙ expired_goes seconds at (live env.now (entry_at s db key)) over db key
                (entry_at s db key),
        token-parts s (with_entry s db key env.now (expire_body key seconds at)).0 db key
            (version-with_entry s db key env.now (expire_body key seconds at)
              ∙ rw (expire_quiet key seconds at) refl)
            (epoch-with_entry s db key env.now (expire_body key seconds at)),
      )

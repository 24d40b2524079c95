-- ===== src/Store/Expiry.antt =====
-- zero/kv/store/kv_store.cc: `expire`, `pexpire`, `expireAt`, `pexpireAt`, `ttl` and `pttl`.
pub mod Laws
use zero_frameworks.Base.{
  ℕ, zero, suc, ◌+◌, ◌-◌, ◌/◌, Bool, true, false, List, [], ◌∷◌, if◌then◌else◌, Option, none, some,
}
use zero_frameworks.Base.Bytes.{Bytes}
use zero_frameworks.Base.Assoc.{lookup, insert, erase, nat_eq, bytes_eq}
use zero_frameworks.Base.Int.{ℤ, pos, negsuc, ltb_ℤ, leb_ℤ, ◌-ℤ◌, ◌+ℤ◌, scale, wrap64}
use zero_frameworks.Store.{
  KvStore, Entry, DbMap, Env, Body, StdHash, with_entry, find_entry, put_db, set_shard, shard_idx,
}

-- The body that `expire` and `pexpire` share: the deadline is some milliseconds from now.
unfoldable pub expire_body : Bytes → ℤ → ℤ → Body ℤ
expire_body key amount at m none = (m, false, pos 0)
expire_body key amount at m (some e) =
    if leb_ℤ amount (pos 0)
    then (erase key m, false, pos 1)
    else (insert key (record e { expire_at_ms = at }) m, false, pos 1)

-- The body that `expireAt` and `pexpireAt` share: the answer says whether the deadline is ahead.
unfoldable pub expire_at_body : Bytes → ℤ → ℤ → ℤ → Body ℤ
expire_at_body key now amount at m none = (m, false, pos 0)
expire_at_body key now amount at m (some e) =
    if leb_ℤ amount (pos 0) then (erase key m, false, pos 1) else (
      insert key (record e { expire_at_ms = at }) m,
      false,
      if ltb_ℤ now at then pos 1 else pos 0,
    )

-- `/ 1000` on `int64_t`, which rounds towards 0.
thousandth : ℤ → ℤ
thousandth (pos n) = pos (n / 1000)
thousandth (negsuc k) = pos 0 -ℤ pos ((k + 1) / 1000)

unfoldable pub is_zero : ℤ → Bool
is_zero n = if ltb_ℤ n (pos 0) then false else leb_ℤ n (pos 0)

-- The body of `pttl`, and with `in_seconds` that of `ttl`.
unfoldable pub ttl_body : Bytes → ℤ → (ℤ → ℤ) → Body ℤ
unfolding is_zero
ttl_body key now unit m none = (m, false, negsuc 1)
ttl_body key now unit m (some e) =
    let remain = wrap64 (e.expire_at_ms -ℤ now) in
    if is_zero e.expire_at_ms
    then (m, false, negsuc 0)
    else if leb_ℤ remain (pos 0)
    then (erase key m, false, negsuc 1)
    else (m, false, unit remain)

unfoldable pub in_seconds : ℤ → ℤ
unfolding thousandth
in_seconds remain = thousandth (wrap64 (remain +ℤ pos 999))

module _ ⦃h : StdHash⦄ where
  -- The prologue of the operations that do not create a database that is not there.
  unfoldable pub with_existing : {R : Type 0} → KvStore → ℕ → Bytes → ℤ → R → Body R → KvStore × R
  unfolding with_entry
  with_existing s db key now missing body = elim (lookup db (s.shards (shard_idx key)).dbs) [
    | none ↦ (s, missing)
    | some m ↦ with_entry s db key now body
  ]

  unfoldable pub expire : KvStore → ℕ → Bytes → ℤ → Env → KvStore × ℤ
  expire s db key seconds env =
      with_entry s db key env.now
        (expire_body key seconds (wrap64 (env.now +ℤ wrap64 (scale 1000 seconds))))

  unfoldable pub pexpire : KvStore → ℕ → Bytes → ℤ → Env → KvStore × ℤ
  pexpire s db key milliseconds env =
      with_entry s db key env.now (expire_body key milliseconds (wrap64 (env.now +ℤ milliseconds)))

  unfoldable pub expire_at : KvStore → ℕ → Bytes → ℤ → Env → KvStore × ℤ
  expire_at s db key unix_sec env =
      with_entry s db key env.now
        (expire_at_body key env.now unix_sec (wrap64 (scale 1000 unix_sec)))

  unfoldable pub pexpire_at : KvStore → ℕ → Bytes → ℤ → Env → KvStore × ℤ
  pexpire_at s db key unix_ms env =
      with_entry s db key env.now (expire_at_body key env.now unix_ms unix_ms)

  unfoldable pub ttl : KvStore → ℕ → Bytes → Env → KvStore × ℤ
  ttl s db key env = with_existing s db key env.now (negsuc 1) (ttl_body key env.now in_seconds)

  unfoldable pub pttl : KvStore → ℕ → Bytes → Env → KvStore × ℤ
  pttl s db key env =
      with_existing s db key env.now (negsuc 1) (ttl_body key env.now (λ remain. remain))

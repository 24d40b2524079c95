-- ===== src/Store/Hashes.antt =====
-- zero/kv/store/kv_store.cc: the operations on hashes, from `hset` to `hmget`, and `hincrby`.
pub mod Laws
use zero_frameworks.Base.{
  ℕ, zero, suc, ◌+◌, Bool, true, false, not, List, [], ◌∷◌, if◌then◌else◌, Option, none, some,
  length,
}
use zero_frameworks.Base.Bytes.{Bytes}
use zero_frameworks.Base.Assoc.{Assoc, lookup, insert, erase, bytes_eq}
use zero_frameworks.Base.Int.{ℤ, pos, ◌+ℤ◌, wrap64}
use zero_frameworks.Base.Decimal.{to_string}
use zero_frameworks.Store.{
  KvStore, Entry, ObjType, DbMap, Env, Body, StdHash, new_entry, Error, wrong_type,
  hash_not_integer, Result, ok, err, with_entry,
}
use zero_frameworks.Store.Evict.{evict_if_needed}
use zero_frameworks.Store.Strings.{has_type, is_some, parse_integer_value}

-- `hset`: whether the field is new.
unfoldable pub hset_body : Bytes → Bytes → Bytes → Body (Result Bool)
hset_body key field value m none = (
  insert key (record new_entry { type = ObjType.hash; hash = (field, value) ∷ [] }) m,
  true,
  ok true,
)
hset_body key field value m (some e) =
    if not (has_type ObjType.hash e) then (m, false, err wrong_type) else (
      insert key (record e { hash = insert field value e.hash }) m,
      true,
      ok (not (is_some (lookup field e.hash))),
    )

unfoldable pub hget_body : Bytes → Body (Result (Option Bytes))
hget_body field m none = (m, false, ok none)
hget_body field m (some e) =
    if not (has_type ObjType.hash e)
    then (m, false, err wrong_type)
    else (m, false, ok (lookup field e.hash))

-- A hash that has become empty goes with its key.
unfoldable pub keep_hash : Bytes → Entry → Assoc Bytes Bytes → DbMap → DbMap
keep_hash key e [] m = erase key m
keep_hash key e (f ∷ fs) m = insert key (record e { hash = f ∷ fs }) m

-- `hdel`: whether the field was there.
unfoldable pub hdel_body : Bytes → Bytes → Body (Result Bool)
unfolding keep_hash
hdel_body key field m none = (m, false, ok false)
hdel_body key field m (some e) =
    if not (has_type ObjType.hash e)
    then (m, false, err wrong_type)
    else (keep_hash key e (erase field e.hash) m, true, ok (is_some (lookup field e.hash)))

unfoldable pub hexists_body : Bytes → Body (Result Bool)
hexists_body field m none = (m, false, ok false)
hexists_body field m (some e) =
    if not (has_type ObjType.hash e)
    then (m, false, err wrong_type)
    else (m, false, ok (is_some (lookup field e.hash)))

unfoldable pub hlen_body : Body (Result (Option ℕ))
hlen_body m none = (m, false, ok none)
hlen_body m (some e) =
    if not (has_type ObjType.hash e)
    then (m, false, err wrong_type)
    else (m, false, ok (some (length e.hash)))

-- The number that `hincrby` counts from: 0 where there is no such field.
current : Option Bytes → Option ℤ
current none = some (pos 0)
current (some text) = parse_integer_value text

add_to_field : ℤ → Bytes → Bytes → ℤ → DbMap → Entry → Option ℤ → DbMap × Bool × Result ℤ
add_to_field now key field delta m e none = (m, false, err hash_not_integer)
add_to_field now key field delta m e (some cur) =
    let next = wrap64 (cur +ℤ delta) in
    (
      insert key (record e { hash = insert field (to_string next) e.hash; lru_ms = now }) m,
      true,
      ok next,
    )

unfoldable pub hincrby_body : ℤ → Bytes → Bytes → ℤ → Body (Result ℤ)
unfolding add_to_field current
hincrby_body now key field delta m none = (
  insert key
      (record new_entry { type = ObjType.hash; hash = (field, to_string delta) ∷ []; lru_ms = now })
      m,
  true,
  ok delta,
)
hincrby_body now key field delta m (some e) =
    if not (has_type ObjType.hash e)
    then (m, false, err wrong_type)
    else add_to_field now key field delta m e (current (lookup field e.hash))

module _ ⦃h : StdHash⦄ where
  unfoldable pub hset : KvStore → ℕ → Bytes → Bytes → Bytes → Env → KvStore × Result Bool
  hset s db key field value env = with_entry s db key env.now (hset_body key field value)

  unfoldable pub hget : KvStore → ℕ → Bytes → Bytes → Env → KvStore × Result (Option Bytes)
  hget s db key field env = with_entry s db key env.now (hget_body field)

  unfoldable pub hdel : KvStore → ℕ → Bytes → Bytes → Env → KvStore × Result Bool
  hdel s db key field env = with_entry s db key env.now (hdel_body key field)

  unfoldable pub hexists : KvStore → ℕ → Bytes → Bytes → Env → KvStore × Result Bool
  hexists s db key field env = with_entry s db key env.now (hexists_body field)

  unfoldable pub hlen : KvStore → ℕ → Bytes → Env → KvStore × Result (Option ℕ)
  hlen s db key env = with_entry s db key env.now hlen_body

  -- `hmset`, which stops at the first field that fails. The clock is read for each field.
  unfoldable pub hmset : KvStore → ℕ → Bytes → List (Bytes × Bytes) → (ℕ → Env) → KvStore × Bool
  unfolding hset
  hmset s db key [] env = (s, true)
  hmset s db key ((field, value) ∷ fields) env =
      let (s', r) = hset s db key field value (env 0) in
      let later = hmset s' db key fields (λ n. env (n + 1)) in
      elim r [ err e ↦ (s', false) | ok fresh ↦ later ]

  -- `hmget`
  unfoldable pub hmget :
      KvStore → ℕ → Bytes → List Bytes → (ℕ → Env) → KvStore × Result (List (Option Bytes))
  unfolding hget
  hmget s db key [] env = (s, ok [])
  hmget s db key (field ∷ fields) env =
      let (s', r) = hget s db key field (env 0) in
      let (s'', rs) = hmget s' db key fields (λ n. env (n + 1)) in
      elim r [
        | err e ↦ (s', err e)
        | ok value ↦ elim rs [ err e ↦ (s'', err e) | ok values ↦ (s'', ok (value ∷ values)) ]
      ]

  unfoldable pub hincrby : KvStore → ℕ → Bytes → Bytes → ℤ → Env → KvStore × Result ℤ
  hincrby s db key field delta env =
      with_entry (evict_if_needed env s) db key env.now (hincrby_body env.now key field delta)

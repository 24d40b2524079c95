-- ===== src/Store/Strings.antt =====
-- zero/kv/store/kv_store.cc: the operations on strings and on keys of any type. The body of each is
-- what it does once the entry has been looked up.
pub mod Locals
pub mod Laws
pub mod Counting
pub mod Deletion
use zero_frameworks.Base.{
  ℕ, zero, suc, ◌+◌, ◌*◌, ◌%◌, ◌^◌, Bool, true, false, not, ◌&&◌, ◌||◌, List, [], ◌∷◌, ◌++◌,
  if◌then◌else◌, Option, none, some, ◌==◌, length,
}
use zero_frameworks.Base.Bytes.{Bytes, codes, beq}
use zero_frameworks.Base.Assoc.{Assoc, lookup, insert, erase, nat_eq, bytes_eq}
use zero_frameworks.Base.Int.{ℤ, pos, negsuc, ltb_ℤ, leb_ℤ, ◌-ℤ◌, ◌+ℤ◌, scale, wrap64}
use zero_frameworks.Base.Decimal.{to_string, strtoll}
use zero_frameworks.Store.{
  KvStore, Shard, Entry, ObjType, DbMap, Env, Body, StdHash, new_entry, Error, wrong_type,
  not_integer, Result, ok, err, with_entry, find_entry, put_db, set_shard, bump_watch_key,
  shard_idx,
}
use zero_frameworks.Store.Evict.{evict_if_needed}

abbrev pub type_code : ObjType → ℕ
type_code ObjType.string = 0
type_code ObjType.hash = 1
type_code ObjType.list = 2
type_code ObjType.set = 3
type_code ObjType.zset = 4
type_code ObjType.stream = 5

abbrev pub has_type : ObjType → Entry → Bool
has_type t e = type_code e.type == type_code t

abbrev pub is_some {ℓ} : {A : Type ℓ} → Option A → Bool
is_some none = false
is_some (some a) = true

-- `parseIntegerValue`: the whole text is one conversion of `strtoll`.
whole_number : Option (ℤ × Bytes) → Option ℤ
whole_number none = none
whole_number (some (n, [])) = some n
whole_number (some (n, c ∷ rest)) = none

unfoldable pub parse_integer_value : Bytes → Option ℤ
unfolding whole_number
parse_integer_value s = if beq s [] then none else whole_number (strtoll s)

-- `get`: `none` in the result is `found = false`.
unfoldable pub get_body : Body (Result (Option Bytes))
get_body m none = (m, false, ok none)
get_body m (some e) =
    if not (has_type ObjType.string e)
    then (m, false, err wrong_type)
    else (m, false, ok (some e.value))

unfoldable pub exists_body : Body Bool
exists_body m e = (m, false, is_some e)

pub type_name : ObjType → Bytes
type_name ObjType.hash = codes "hash"
type_name ObjType.list = codes "list"
type_name ObjType.set = codes "set"
type_name ObjType.zset = codes "zset"
type_name ObjType.stream = codes "stream"
type_name ObjType.string = codes "string"

unfoldable pub type_body : Body Bytes
unfolding type_name
type_body m none = (m, false, codes "none")
type_body m (some e) = (m, false, type_name e.type)

-- The deadline that `setOpt` stores; 0 is none.
unfoldable pub deadline : ℤ → ℤ → ℤ → ℤ
deadline now ex px =
    if leb_ℤ (pos 0) ex
    then wrap64 (now +ℤ wrap64 (scale 1000 ex))
    else if leb_ℤ (pos 0) px
    then wrap64 (now +ℤ px)
    else pos 0

-- The clearing of `setOpt` when the type changes; the stream's groups stay.
cleared : Entry → Entry
cleared e =
    if not (has_type ObjType.string e)
    then record e {
      hash = [];
      list = [];
      set = [];
      zset = [];
      stream = [];
      stream_last_ms = 0;
      stream_last_seq = 0;
      type = ObjType.string;
    }
    else e

unfoldable pub overwritten : ℤ → Bytes → ℤ → ℤ → Option Entry → Entry
unfolding cleared deadline
overwritten now value ex px (some e) = record (cleared (record e { value = value })) {
  expire_at_ms = deadline now ex px;
}
overwritten now value ex px none = record new_entry {
  value = value;
  expire_at_ms = deadline now ex px;
}

-- `setOpt` past the eviction.
unfoldable pub set_body : ℤ → Bytes → Bytes → Bool → Bool → ℤ → ℤ → Body Bool
unfolding overwritten
set_body now key value nx xx ex px m e =
    if nx && is_some e
    then (m, false, false)
    else if xx && not (is_some e)
    then (m, false, false)
    else (insert key (overwritten now value ex px e) m, true, true)

unfoldable pub persist_body : Bytes → Body ℤ
persist_body key m none = (m, false, pos 0)
persist_body key m (some e) = (insert key (record e { expire_at_ms = pos 0 }) m, false, pos 1)

-- `incrBy`. The signed sum wraps around, as it does on two's complement hardware.
unfoldable pub incr_string : Bytes → ℤ → DbMap → Entry → Option ℤ → DbMap × Bool × Result ℤ
incr_string key delta m e none = (m, false, err not_integer)
incr_string key delta m e (some cur) =
    let next = wrap64 (cur +ℤ delta) in
    (insert key (record e { value = to_string next }) m, true, ok next)

unfoldable pub incr_body : Bytes → ℤ → Body (Result ℤ)
unfolding incr_string
incr_body key delta m none =
    (insert key (record new_entry { value = to_string delta }) m, true, ok delta)
incr_body key delta m (some e) =
    if not (has_type ObjType.string e)
    then (m, false, err wrong_type)
    else incr_string key delta m e (parse_integer_value e.value)

-- `append` past the eviction: the new length.
unfoldable pub append_body : ℤ → Bytes → Bytes → Body (Result ℕ)
append_body now key value m none =
    (insert key (record new_entry { value = value; lru_ms = now }) m, true, ok (length value))
append_body now key value m (some e) =
    if not (has_type ObjType.string e) then (m, false, err wrong_type) else (
      insert key (record e { value = e.value ++ value; lru_ms = now }) m,
      true,
      ok (length (e.value ++ value)),
    )

-- `strlen`
unfoldable pub strlen_body : ℤ → Bytes → Body (Result (Option ℕ))
strlen_body now key m none = (m, false, ok none)
strlen_body now key m (some e) =
    if not (has_type ObjType.string e)
    then (m, false, err wrong_type)
    else (insert key (record e { lru_ms = now }) m, false, ok (some (length e.value)))

module _ ⦃h : StdHash⦄ where
  unfoldable pub get : KvStore → ℕ → Bytes → Env → KvStore × Result (Option Bytes)
  unfolding get_body
  get s db key env = with_entry s db key env.now get_body

  unfoldable pub exists : KvStore → ℕ → Bytes → Env → KvStore × Bool
  unfolding exists_body
  exists s db key env = with_entry s db key env.now exists_body

  unfoldable pub type : KvStore → ℕ → Bytes → Env → KvStore × Bytes
  unfolding type_body
  type s db key env = with_entry s db key env.now type_body

  unfoldable pub set_opt : KvStore → ℕ → Bytes → Bytes → Bool → Bool → ℤ → ℤ → Env → KvStore × Bool
  set_opt s db key value nx xx ex px env =
      with_entry (evict_if_needed env s) db key env.now (set_body env.now key value nx xx ex px)

  unfoldable pub set : KvStore → ℕ → Bytes → Bytes → Env → KvStore
  unfolding set_opt
  set s db key value env = (set_opt s db key value false false (negsuc 0) (negsuc 0) env).0

  unfoldable pub setex : KvStore → ℕ → Bytes → Bytes → ℤ → Env → KvStore
  unfolding set_opt
  setex s db key value ttl env = (set_opt s db key value false false ttl (negsuc 0) env).0

  -- One round of the loop of `delMany`.
  unfoldable pub del_key : KvStore → ℕ → Bytes → ℤ → KvStore × ℕ
  del_key s db key now =
      let i = shard_idx key in
      let sh = s.shards i in
      elim (lookup db sh.dbs) [
        | none ↦ (s, 0)
        | some m ↦ elim (find_entry m key now).1 [
          | none ↦ (set_shard i (put_db db (find_entry m key now).0 sh) s, 0)
          | some e ↦ (set_shard i (bump_watch_key db key (put_db db (erase key m) sh)) s, 1)
        ]
      ]

  unfoldable pub del_many : KvStore → ℕ → List Bytes → Env → KvStore × ℕ
  unfolding del_key
  del_many s db [] env = (s, 0)
  del_many s db (key ∷ keys) env =
      let (s', n) = del_key s db key env.now in
      let (s'', k) = del_many s' db keys env in (s'', n + k)

  unfoldable pub del : KvStore → ℕ → Bytes → Env → KvStore × Bool
  unfolding del_many
  del s db key env = let (s', n) = del_many s db (key ∷ []) env in (s', not (n == 0))

  unfoldable pub persist : KvStore → ℕ → Bytes → Env → KvStore × ℤ
  unfolding persist_body
  persist s db key env = with_entry s db key env.now (persist_body key)

  -- `getset` reads the clock in `get` and again in `set`.
  unfoldable pub getset : KvStore → ℕ → Bytes → Bytes → Env → Env → KvStore × Result (Option Bytes)
  unfolding get set
  getset s db key value env env' =
      let (s', r) = get s db key env in
      elim r [ err e ↦ (s', err e) | ok old ↦ (set s' db key value env', ok old) ]

  unfoldable pub getdel : KvStore → ℕ → Bytes → Env → Env → KvStore × Result (Option Bytes)
  unfolding get del
  getdel s db key env env' =
      let (s', r) = get s db key env in
      elim r [
        | err e ↦ (s', err e)
        | ok none ↦ (s', ok none)
        | ok (some v) ↦ ((del s' db key env').0, ok (some v))
      ]

  unfoldable pub incr_by : KvStore → ℕ → Bytes → ℤ → Env → KvStore × Result ℤ
  incr_by s db key delta env = with_entry s db key env.now (incr_body key delta)

  unfoldable pub append : KvStore → ℕ → Bytes → Bytes → Env → KvStore × Result ℕ
  unfolding append_body
  append s db key value env =
      with_entry (evict_if_needed env s) db key env.now (append_body env.now key value)

  unfoldable pub strlen : KvStore → ℕ → Bytes → Env → KvStore × Result (Option ℕ)
  unfolding strlen_body
  strlen s db key env = with_entry s db key env.now (strlen_body env.now key)

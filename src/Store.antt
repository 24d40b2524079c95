-- ===== src/Store.antt =====
-- zero/kv/store/kv_store.h and kv_store.cc: the data of `KvStore`, and what every operation does
-- first: pick the shard of the key, take the map of the database, drop the entry if it has expired.
pub mod View
pub mod Evict
pub mod Strings
pub mod Expiry
pub mod Lists
pub mod Hashes
pub mod Sets
pub mod Flush
pub mod Watch
pub mod Flat
pub mod Rename
pub mod Placed
pub mod Scan
use Prim.Native.Nat.{bit_xor}
use zero_frameworks.Base.{
  ℕ, zero, suc, ◌+◌, ◌*◌, ◌%◌, ◌^◌, Bool, true, false, ◌&&◌, List, [], ◌∷◌, if◌then◌else◌, Option,
  none, some, ◌==◌, ltb,
}
use zero_frameworks.Base.Bytes.{Bytes, codes}
use zero_frameworks.Base.Assoc.{Assoc, lookup, insert, erase, nat_eq, bytes_eq}
use zero_frameworks.Base.Int.{ℤ, pos, negsuc, ltb_ℤ, leb_ℤ}

pub data ObjType : Type 0 where
  string hash list set zset stream : ObjType

-- The bit pattern of a `double`.
abbrev pub Double : Type 0
Double = ℕ

pub record StreamEntry : Type 0 where
  pub id : Bytes
  pub fields : Assoc Bytes Bytes

pub record StreamPendingMeta : Type 0 where
  pub delivery_ms : ℤ
  pub delivery_count : ℤ

pub record StreamConsumerState : Type 0 where
  pub last_id : Bytes
  pub pending : List Bytes
  pub pending_meta : Assoc Bytes StreamPendingMeta

pub record StreamGroupState : Type 0 where
  pub last_id : Bytes
  pub consumers : Assoc Bytes StreamConsumerState

-- An `unordered_set` is a map to the unit type.
pub record Entry : Type 0 where
  pub type : ObjType
  pub value : Bytes
  pub hash : Assoc Bytes Bytes
  pub list : List Bytes
  pub set : Assoc Bytes (Unit {0})
  pub zset : Assoc Bytes Double
  pub stream : List StreamEntry
  pub stream_last_ms : ℕ
  pub stream_last_seq : ℕ
  pub stream_groups : Assoc Bytes StreamGroupState
  pub lru_ms : ℤ
  pub expire_at_ms : ℤ

-- What `dbmap[key]` puts in for a new key.
abbrev pub new_entry : Entry
new_entry = record {
  type = ObjType.string;
  value = [];
  hash = [];
  list = [];
  set = [];
  zset = [];
  stream = [];
  stream_last_ms = 0;
  stream_last_seq = 0;
  stream_groups = [];
  lru_ms = pos 0;
  expire_at_ms = pos 0;
}

abbrev pub DbMap : Type 0
DbMap = Assoc Bytes Entry

-- A version or an epoch that is not in its map counts as 0, as it does in `watchToken`.
pub record Shard : Type 0 where
  pub dbs : Assoc ℕ DbMap
  pub watch_versions : ℕ → Bytes → ℕ
  pub db_watch_epoch : ℕ → ℕ
  pub has_watches : Bool

pub record KvStore : Type 0 where
  pub shards : ℕ → Shard
  pub maxmemory : ℤ
  pub maxmemory_policy : Bytes

abbrev pub shard_count : ℕ
shard_count = 16

-- `std::hash<std::string>`
pub record StdHash : Type 0 where
  pub hash : Bytes → ℕ

-- What a call takes from outside: `nowMs()`, and the numbers that the random engine draws.
pub record Env : Type 0 where
  pub now : ℤ
  pub draw : ℕ → ℕ

pub data Error : Type 0 where
  wrong_type not_integer no_such_key index_out_of_range hash_not_integer : Error

pub data Result (A : Type 0) : Type 0 where
  ok : A → Result A
  err : Error → Result A

unfoldable pub is_expired : Entry → ℤ → Bool
is_expired e now = ltb_ℤ (pos 0) e.expire_at_ms && leb_ℤ e.expire_at_ms now

-- `findEntry`: the map afterwards, and the entry that it points to.
unfoldable pub find_entry : DbMap → Bytes → ℤ → DbMap × Option Entry
unfolding is_expired
find_entry m key now = elim (lookup key m) [
  | none ↦ (m, none)
  | some e ↦ if is_expired e now then (erase key m, none) else (m, some e)
]

abbrev pub or_empty : Option DbMap → DbMap
or_empty none = []
or_empty (some m) = m

-- The map that `m_dbs[db]` refers to.
unfoldable pub db_of : Shard → ℕ → DbMap
db_of sh db = or_empty (lookup db sh.dbs)

unfoldable pub put_db : ℕ → DbMap → Shard → Shard
put_db db m sh = record sh { dbs = insert db m sh.dbs }

-- `Shard::bumpWatchKey`
unfoldable pub bump_watch_key : ℕ → Bytes → Shard → Shard
bump_watch_key db key sh =
    if sh.has_watches
    then record sh {
      watch_versions = λ d k.
          if d == db && bytes_eq.test key k
          then (sh.watch_versions d k + 1) % 2 ^ 64
          else sh.watch_versions d k;
    }
    else sh

-- `Shard::bumpWatchDb`
unfoldable pub bump_watch_db : ℕ → Shard → Shard
bump_watch_db db sh = record sh {
  db_watch_epoch = λ d. if d == db then (sh.db_watch_epoch d + 1) % 2 ^ 64 else sh.db_watch_epoch d;
}

-- `Shard::watchToken`
unfoldable pub shard_watch_token : Shard → ℕ → Bytes → ℕ
shard_watch_token sh db key =
    bit_xor (sh.db_watch_epoch db * 2 ^ 32 % 2 ^ 64) (sh.watch_versions db key)

unfoldable pub set_shard : ℕ → Shard → KvStore → KvStore
set_shard i sh s = record s { shards = λ j. if i == j then sh else s.shards j }

-- What the body of an operation leaves: the map, whether it called `bumpWatchKey`, its result.
abbrev pub Body : Type 0 → Type 0
Body R = DbMap → Option Entry → DbMap × Bool × R

module _ ⦃h : StdHash⦄ where
  abbrev pub shard_idx : Bytes → ℕ
  shard_idx key = h.hash key % shard_count

  -- The prologue that the operations on one key share, round the body of one of them.
  unfoldable pub with_entry : {R : Type 0} → KvStore → ℕ → Bytes → ℤ → Body R → KvStore × R
  unfolding find_entry db_of put_db set_shard bump_watch_key
  with_entry s db key now body =
      let i = shard_idx key in
      let sh = s.shards i in
      let (m, e) = find_entry (db_of sh db) key now in
      let (m', bumped, r) = body m e in
      let sh' = put_db db m' sh in
      (set_shard i (if bumped then bump_watch_key db key sh' else sh') s, r)

  -- `watchToken`: it also turns the counting of versions on.
  unfoldable pub watch_token : KvStore → ℕ → Bytes → KvStore × ℕ
  unfolding shard_watch_token set_shard
  watch_token s db key =
      let i = shard_idx key in
      let sh = record (s.shards i) { has_watches = true } in
      (set_shard i sh s, shard_watch_token sh db key)

-- ===== src/Store/Evict.antt =====
-- zero/kv/store/kv_store.cc: `estimateEntryBytes`, `usedMemoryApprox` and `evictIfNeededLocked`.
-- Sizes are unbounded numbers: they count bytes that are in memory. Maps are walked in the order of
-- the model's lists, and of equal candidates `std::sort` is taken to put the first one in front.
pub mod Laws
pub mod Kept
pub mod Stored
pub mod Enough
use zero_frameworks.Base.{
  ℕ, zero, suc, ◌+◌, ◌-◌, ◌%◌, ◌^◌, Bool, true, false, not, ◌&&◌, ◌||◌, List, [], ◌∷◌, ◌++◌, map,
  if◌then◌else◌, Option, none, some, ◌==◌, ltb, length, take, get_or,
}
use zero_frameworks.Base.Bytes.{Bytes, codes, beq}
use zero_frameworks.Base.Assoc.{Assoc, lookup, insert, erase, nat_eq, bytes_eq}
use zero_frameworks.Base.Int.{ℤ, pos, negsuc, ltb_ℤ, leb_ℤ, ◌-ℤ◌}
use zero_frameworks.Store.{
  KvStore, Shard, Entry, ObjType, DbMap, Env, StreamEntry, shard_count, is_expired, put_db,
  set_shard, bump_watch_key,
}

pub sum_by {ℓ} : {A : Type ℓ} → (A → ℕ) → List A → ℕ
sum_by f [] = 0
sum_by f (x ∷ xs) = f x + sum_by f xs

pub gather {ℓ κ} : {A : Type ℓ} {B : Type κ} → (A → List B) → List A → List B
gather f [] = []
gather f (x ∷ xs) = f x ++ gather f xs

pub keep {ℓ} : {A : Type ℓ} → (A → Bool) → List A → List A
keep p [] = []
keep p (x ∷ xs) = let rest = keep p xs in if p x then x ∷ rest else rest

-- `for(int i = 0; i < kShardCount; ++i)`, as the list of the values of `i`.
count_up : ℕ → ℕ → List ℕ
count_up zero i = []
count_up (suc n) i = i ∷ count_up n (i + 1)

unfoldable pub shard_ids : List ℕ
unfolding count_up
shard_ids = count_up shard_count 0

stream_entry_bytes : StreamEntry → ℕ
unfolding sum_by
stream_entry_bytes entry =
    length entry.id + 16 + sum_by (λ f. length f.0 + length f.1 + 16) entry.fields

contents_bytes : ObjType → Entry → ℕ
unfolding sum_by stream_entry_bytes
contents_bytes ObjType.hash e = sum_by (λ f. length f.0 + length f.1 + 16) e.hash
contents_bytes ObjType.list e = sum_by (λ v. length v + 8) e.list
contents_bytes ObjType.set e = sum_by (λ m. length m.0 + 8) e.set
contents_bytes ObjType.zset e = sum_by (λ z. length z.0 + 16) e.zset
contents_bytes ObjType.stream e = sum_by stream_entry_bytes e.stream
contents_bytes ObjType.string e = length e.value

unfoldable pub estimate_entry_bytes : Bytes → Entry → ℕ
unfolding contents_bytes
estimate_entry_bytes key e = length key + 64 + contents_bytes e.type e

-- A stored entry with its place: shard, database, key.
pub record Place : Type 0 where
  pub shard : ℕ
  pub db : ℕ
  pub key : Bytes
  pub entry : Entry

places_in : ℕ → ℕ × DbMap → List Place
unfolding gather
places_in i (db, m) = map (λ kv. record { shard = i; db = db; key = kv.0; entry = kv.1 }) m

-- Every entry of the store, shard by shard and database by database.
unfoldable pub places : KvStore → List Place
unfolding gather places_in shard_ids
places s = gather (λ i. gather (places_in i) (s.shards i).dbs) shard_ids

abbrev pub is_fresh : ℤ → Place → Bool
is_fresh now p = not (is_expired p.entry now)

-- `usedMemoryApprox`, and the sum that the eviction loop starts each round with.
unfoldable pub used_memory_approx : KvStore → ℤ → ℕ
unfolding sum_by keep places estimate_entry_bytes is_expired
used_memory_approx s now =
    sum_by (λ p. estimate_entry_bytes p.key p.entry) (keep (is_fresh now) (places s))

volatile_only : Bytes → Bool
volatile_only policy =
    beq policy (codes "volatile-lru")
    || beq policy (codes "volatile-random")
    || beq policy (codes "volatile-ttl")

use_random : Bytes → Bool
use_random policy = beq policy (codes "allkeys-random") || beq policy (codes "volatile-random")

use_ttl : Bytes → Bool
use_ttl policy = beq policy (codes "volatile-ttl")

use_lru : Bytes → Bool
use_lru policy = beq policy (codes "allkeys-lru") || beq policy (codes "volatile-lru")

is_candidate : Bytes → ℤ → Place → Bool
unfolding volatile_only
is_candidate policy now p =
    is_fresh now p && not (volatile_only policy && leb_ℤ p.entry.expire_at_ms (pos 0))

-- The nested loops stop when sixteen candidates are found.
unfoldable pub sample : KvStore → ℤ → List Place
unfolding keep places is_candidate
sample s now = take 16 (keep (is_candidate s.maxmemory_policy now) (places s))

ttl_left : ℤ → Place → ℤ
ttl_left now p =
    if ltb_ℤ (pos 0) p.entry.expire_at_ms then p.entry.expire_at_ms -ℤ now else pos (2 ^ 63 - 1)

-- The front of the list after sorting by `measure`.
least : (Place → ℤ) → Place → List Place → Place
least measure best [] = best
least measure best (p ∷ ps) =
    least measure (if ltb_ℤ (measure p) (measure best) then p else best) ps

pub choose : Bytes → Env → ℕ → Place → List Place → Place
unfolding use_random use_ttl use_lru ttl_left least
choose policy env round first rest =
    if use_random policy
    then get_or (first ∷ rest) (env.draw round % length (first ∷ rest)) first
    else if use_ttl policy
    then least (ttl_left env.now) first rest
    else if use_lru policy
    then least (λ p. p.entry.lru_ms) first rest
    else first

unfoldable pub evict_place : Place → KvStore → KvStore
unfolding put_db set_shard bump_watch_key
evict_place p s =
    let sh = s.shards p.shard in
    elim (lookup p.db sh.dbs) [
      | none ↦ s
      | some m ↦ set_shard p.shard (bump_watch_key p.db p.key (put_db p.db (erase p.key m) sh)) s
    ]

-- `while(true)`: the number of rounds that are left, and of the round.
pub evict_loop : Env → ℕ → ℕ → KvStore → KvStore
unfolding used_memory_approx sample choose evict_place
evict_loop env zero round s = s
evict_loop env (suc left) round s = elim (leb_ℤ (pos (used_memory_approx s env.now)) s.maxmemory) [
  | true ↦ s
  | false ↦ elim (sample s env.now) [
    | [] ↦ s
    | p ∷ ps ↦
        let victim = choose s.maxmemory_policy env round p ps in
        elim (lookup victim.db (s.shards victim.shard).dbs) [
          | none ↦ s
          | some m ↦ evict_loop env left (round + 1) (evict_place victim s)
        ]
  ]
]

-- Each round that goes on takes an entry out.
unfoldable pub evict_if_needed : Env → KvStore → KvStore
unfolding evict_loop
evict_if_needed env s =
    if leb_ℤ s.maxmemory (pos 0) || beq s.maxmemory_policy (codes "noeviction")
    then s
    else evict_loop env (length (places s) + 1) 0 s

unfoldable pub set_max_memory : KvStore → ℤ → KvStore
set_max_memory s bytes = record s { maxmemory = if ltb_ℤ (pos 0) bytes then bytes else pos 0 }

unfoldable pub set_max_memory_policy : KvStore → Bytes → KvStore
set_max_memory_policy s policy = record s {
  maxmemory_policy = if beq policy [] then codes "noeviction" else policy;
}

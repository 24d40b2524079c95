-- ===== src/Store/Placed.antt =====
-- The invariant of the sharded store: every key lies in the shard that its hash names, and no map
-- has a key twice.
pub mod Bodies
pub mod Histories
use zero_frameworks.Base.{
  ℕ, ◌≡◌, ◌∙◌, sym, refl, ap, subst, Bool, true, false, not, ◌&&◌, ◌||◌, List, [], ◌∷◌,
  if◌then◌else◌, Option, none, some, ◌==◌, arith, Bool-cases, Option-cases, inl, inr, ==_iff,
}
use zero_frameworks.Base.Bytes.{Bytes}
use zero_frameworks.Base.Assoc.{lookup, erase, bytes_eq, nat_eq, Unique, erase-Unique, lookup-erase}
use zero_frameworks.Base.Int.{ℤ}
use zero_frameworks.Store.{
  KvStore, Shard, Entry, DbMap, StdHash, Body, is_expired, find_entry, db_of, put_db, set_shard,
  bump_watch_key, with_entry, shard_idx,
}
use zero_frameworks.Store.View.{
  live, Local, lookup-find_entry, find_entry-live, db_of-put_db, db_of-bump,
}

pub find_entry-Unique :
    (m : DbMap) (key : Bytes) (now : ℤ) → Unique m → Unique (find_entry m key now).0
unfolding find_entry
find_entry-Unique m key now u = elim (Option-cases (lookup key m)) [
  | inl missing ↦ rw (missing, find_entry) u
  | inr (e, found) ↦ rw (found, find_entry) (ground (arith, erase-Unique key m u))
]

-- What a body does to a map without repeated keys has none.
abbrev pub Tidy : {R : Type 0} → Body R → Type 0
Tidy body = (m : DbMap) (e : Option Entry) → Unique m → Unique (body m e).0

module _ ⦃h : StdHash⦄ where
  -- A map that may stand in a shard.
  pub record Kept (i : ℕ) (m : DbMap) : Type 0 where
    pub unique : Unique m
    pub own : (key : Bytes) (e : Entry) → lookup key m ≡ some e → shard_idx key ≡ i

  abbrev pub Placed : KvStore → Type 0
  Placed s = (i db : ℕ) → Kept i (db_of (s.shards i) db)

  if-Kept :
      (b : Bool) (i j : ℕ) (m m' : DbMap)
      → (b ≡ true → i ≡ j)
      → Kept i m
      → Kept j m'
      → Kept j (if b then m else m')
  if-Kept true i j m m' same k k' = subst (λ n. Kept n m) (same refl) k
  if-Kept false i j m m' same k k' = k'

  -- A shard whose map for one database is replaced.
  pub set_shard-Placed :
      (s : KvStore) (i db : ℕ) (m : DbMap) (sh : Shard)
      → Placed s
      → ((d : ℕ) → db_of sh d ≡ (if db == d then m else db_of (s.shards i) d))
      → Kept i m
      → Placed (set_shard i sh s)
  unfolding set_shard
  set_shard-Placed s i db m sh p dbs k j d =
      let same = (i == j) && (db == d) in
      let map_of : db_of (if i == j then sh else s.shards j) d
          ≡ (if same then m else db_of (s.shards j) d) =
        ground (arith, dbs d) in
      subst (Kept j) (sym map_of)
        (if-Kept same i j m (db_of (s.shards j) d) (λ b. ground arith) k (p j d))

  pub live-some : (now : ℤ) (o : Option Entry) (e : Entry) → live now o ≡ some e → o ≡ some e
  unfolding live
  live-some now none e found = found
  live-some now (some x) e found = ground (arith, found)

  pub find_entry-Kept :
      (i : ℕ) (m : DbMap) (key : Bytes) (now : ℤ) → Kept i m → Kept i (find_entry m key now).0
  find_entry-Kept i m key now k = record {
    unique = find_entry-Unique m key now k.unique;
    own = λ j e found. ground (
      arith,
      lookup-find_entry m key j now,
      live-some now (lookup key m) e,
      bytes_eq.test_iff key j,
      k.own j e,
      found,
    );
  }

  pub erase-Kept : (i : ℕ) (m : DbMap) (key : Bytes) → Kept i m → Kept i (erase key m)
  erase-Kept i m key k = record {
    unique = erase-Unique key m k.unique;
    own = λ j e found. ground (arith, lookup-erase key j m, k.own j e, found);
  }

  -- A body that changes its key's entry alone.
  body-Kept :
      {R : Type 0} (key : Bytes) (body : Body R) (after : Option Entry → Option Entry)
      (reply : Option Entry → R) (m : DbMap) (e : Option Entry)
      → Local key body after reply
      → Tidy body
      → lookup key m ≡ e
      → Kept (shard_idx key) m
      → Kept (shard_idx key) (body m e).0
  body-Kept key body after reply m e l tidy seen k = record {
    unique = tidy m e k.unique;
    own =
        λ j x found. ground (arith, l.stores m e j seen, k.own j x, found, bytes_eq.test_iff key j);
  }

  db_of-after :
      (db d : ℕ) (key : Bytes) (m : DbMap) (bumped : Bool) (sh : Shard)
      → db_of (if bumped then bump_watch_key db key (put_db db m sh) else put_db db m sh) d
        ≡ (if db == d then m else db_of sh d)
  db_of-after db d key m bumped sh =
      ground (arith, db_of-bump db d key (put_db db m sh), db_of-put_db db d m sh)

  pub with_entry-Placed :
      {R : Type 0} (s : KvStore) (db : ℕ) (key : Bytes) (now : ℤ) (body : Body R)
      (after : Option Entry → Option Entry) (reply : Option Entry → R)
      → Local key body after reply
      → Tidy body
      → Placed s
      → Placed (with_entry s db key now body).0
  unfolding with_entry
  with_entry-Placed s db key now body after reply l tidy p =
      let i = shard_idx key in
      let before = db_of (s.shards i) db in
      let found = find_entry before key now in
      set_shard-Placed s i db (body found.0 found.1).0 _ p
        (λ d. db_of-after db d key (body found.0 found.1).0 (body found.0 found.1).1 (s.shards i))
        (body-Kept key body after reply found.0 found.1 l tidy
          (ground (
            arith,
            lookup-find_entry before key key now,
            find_entry-live before key now,
            bytes_eq.test_iff key key,
          ))
          (find_entry-Kept i before key now (p i db)))

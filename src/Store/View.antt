-- ===== src/Store/View.antt =====
-- The flat map that the sixteen shards stand for, and how an operation on one key changes it.
use zero_frameworks.Base.{
  ℕ, [], ◌≡◌, refl, ◌∙◌, ap, Bool, false, ◌&&◌, if◌then◌else◌, Option, none, some, ◌==◌, arith,
  Option-cases, ◌≢◌, ◌⊎◌, inl, inr,
}
use zero_frameworks.Base.Bytes.{Bytes}
use zero_frameworks.Base.Assoc.{lookup, nat_eq, bytes_eq, lookup-insert, lookup-erase}
use zero_frameworks.Base.Int.{ℤ}
use zero_frameworks.Store.{
  KvStore, Shard, Entry, DbMap, StdHash, Body, is_expired, find_entry, db_of, put_db, set_shard,
  bump_watch_key, with_entry, shard_idx, or_empty,
}

-- An entry as an operation sees it.
unfoldable pub live : ℤ → Option Entry → Option Entry
unfolding is_expired
live now none = none
live now (some e) = if is_expired e now then none else some e

pub find_entry-live :
    (m : DbMap) (key : Bytes) (now : ℤ) → (find_entry m key now).1 ≡ live now (lookup key m)
unfolding find_entry live
find_entry-live m key now = ground arith

pub lookup-find_entry :
    (m : DbMap) (key j : Bytes) (now : ℤ)
    → lookup j (find_entry m key now).0
      ≡ (if bytes_eq.test key j then live now (lookup key m) else lookup j m)
unfolding find_entry live
lookup-find_entry m key j now = elim (Option-cases (lookup key m)) [
  | inl missing ↦ rw (missing, find_entry) (ground (arith, bytes_eq.test_iff key j, missing))
  | inr (e, found) ↦
      rw (found, find_entry) (ground (arith, bytes_eq.test_iff key j, found, lookup-erase key j m))
]

pub db_of_found : (db : ℕ) (sh : Shard) (m : DbMap) → lookup db sh.dbs ≡ some m → db_of sh db ≡ m
unfolding db_of
db_of_found db sh m h = ap or_empty h

pub db_of_missing : (db : ℕ) (sh : Shard) → lookup db sh.dbs ≡ none → db_of sh db ≡ []
unfolding db_of
db_of_missing db sh h = ap or_empty h

pub db_of-put_db :
    (db d : ℕ) (m : DbMap) (sh : Shard)
    → db_of (put_db db m sh) d ≡ (if db == d then m else db_of sh d)
unfolding db_of put_db
db_of-put_db db d m sh = rw (lookup-insert db d m sh.dbs) (ground arith)

pub db_of-bump :
    (db d : ℕ) (key : Bytes) (sh : Shard) → db_of (bump_watch_key db key sh) d ≡ db_of sh d
unfolding db_of bump_watch_key
db_of-bump db d key sh = ground arith

-- Another place of the flat map.
abbrev pub Apart : ℕ → Bytes → ℕ → Bytes → Type 0
Apart db key d j = (db ≢ d) ⊎ (key ≢ j)

pub Apart-test :
    (db d : ℕ) (key j : Bytes) → Apart db key d j → (db == d && bytes_eq.test key j) ≡ false
Apart-test db d key j apart = ground (arith, bytes_eq.test_iff key j)

module _ ⦃h : StdHash⦄ where
  -- The entry stored under a key, expired or not.
  unfoldable pub entry_at : KvStore → ℕ → Bytes → Option Entry
  entry_at s db key = lookup key (db_of (s.shards (shard_idx key)) db)

  -- What `body` does to the map and what it answers, from the entry of the key alone.
  pub record Local {R : Type 0} (key : Bytes) (body : Body R) (after : Option Entry → Option Entry)
      (reply : Option Entry → R) : Type 0 where
    pub stores :
        (m : DbMap) (e : Option Entry) (j : Bytes)
        → lookup key m ≡ e
        → lookup j (body m e).0 ≡ (if bytes_eq.test key j then after e else lookup j m)
    pub replies : (m : DbMap) (e : Option Entry) → (body m e).2 ≡ reply e

  entry_at-set_shard :
      (s : KvStore) (db d : ℕ) (key j : Bytes) (m : DbMap) (bumped : Bool)
      → let sh = put_db db m (s.shards (shard_idx key)) in
        entry_at (set_shard (shard_idx key) (if bumped then bump_watch_key db key sh else sh) s) d j
        ≡ (if db == d && shard_idx key == shard_idx j then lookup j m else entry_at s d j)
  unfolding entry_at set_shard
  entry_at-set_shard s db d key j m bumped = ground (
    arith,
    db_of-bump db d key (put_db db m (s.shards (shard_idx key))),
    db_of-put_db db d m (s.shards (shard_idx key)),
  )

  module _ {R : Type 0} (s : KvStore) (db : ℕ) (key : Bytes) (now : ℤ) (body : Body R) where
    before : DbMap
    before = db_of (s.shards (shard_idx key)) db

    entry_at-with_entry :
        (d : ℕ) (j : Bytes)
        → entry_at (with_entry s db key now body).0 d j ≡ (
            if db == d && shard_idx key == shard_idx j
            then lookup j (body (find_entry before key now).0 (find_entry before key now).1).0
            else entry_at s d j)
    unfolding with_entry before
    entry_at-with_entry d j =
        entry_at-set_shard s db d key j
          (body (find_entry before key now).0 (find_entry before key now).1).0 _

    found_entry : lookup key (find_entry before key now).0 ≡ (find_entry before key now).1
    found_entry = ground (
      arith,
      lookup-find_entry before key key now,
      find_entry-live before key now,
      bytes_eq.test_iff key key,
    )

    before-entry_at : lookup key before ≡ entry_at s db key
    unfolding before entry_at
    before-entry_at = refl

    before_other : (j : Bytes) → shard_idx key ≡ shard_idx j → lookup j before ≡ entry_at s db j
    unfolding before entry_at
    before_other j e = ap (λ i. lookup j (db_of (s.shards i) db)) e

    pub answer_by :
        (reply : Option Entry → R)
        → ((m : DbMap) (e : Option Entry) → (body m e).2 ≡ reply e)
        → (with_entry s db key now body).1 ≡ reply (live now (entry_at s db key))
    unfolding with_entry before
    answer_by reply replies =
        replies _ _ ∙ ap reply (find_entry-live before key now ∙ ap (live now) before-entry_at)

    module _ {after : Option Entry → Option Entry} {reply : Option Entry → R}
        (l : Local key body after reply) where
      -- The operation is a point update of the flat map.
      pub entry_at_after :
          (d : ℕ) (j : Bytes)
          → entry_at (with_entry s db key now body).0 d j ≡ (
              if db == d && bytes_eq.test key j
              then after (live now (entry_at s db key))
              else entry_at s d j)
      entry_at_after d j = ground (
        arith,
        entry_at-with_entry d j,
        l.stores (find_entry before key now).0 (find_entry before key now).1 j found_entry,
        lookup-find_entry before key j now,
        find_entry-live before key now,
        before-entry_at,
        before_other j,
        bytes_eq.test_iff key j,
      )

      pub answer : (with_entry s db key now body).1 ≡ reply (live now (entry_at s db key))
      answer = answer_by reply l.replies

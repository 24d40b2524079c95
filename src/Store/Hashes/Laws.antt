-- ===== src/Store/Hashes/Laws.antt =====
-- What a client sees of the hashes.
use zero_frameworks.Base.{
  ℕ, ◌≡◌, ◌∙◌, Bool, true, false, not, ◌&&◌, [], ◌∷◌, if◌then◌else◌, Option, none, some, ◌==◌,
  arith, inl, inr, Bool-cases,
}
use zero_frameworks.Base.Bytes.{Bytes}
use zero_frameworks.Base.Assoc.{
  Assoc, lookup, insert, erase, bytes_eq, nat_eq, test_refl, lookup-insert, lookup-erase,
}
use zero_frameworks.Base.Int.{ℤ}
use zero_frameworks.Store.{
  KvStore, Entry, ObjType, DbMap, Env, StdHash, new_entry, wrong_type, Result, ok, err, is_expired,
}
use zero_frameworks.Store.View.{Local, entry_at, live, entry_at_after, answer_by}
use zero_frameworks.Store.Strings.{has_type, is_some}
use zero_frameworks.Store.Strings.Locals.{untouched}
use zero_frameworks.Store.Hashes.{hset_body, hget_body, keep_hash, hdel_body, hset, hget, hdel}

-- A key that holds a hash or nothing.
abbrev pub IsHash : Option Entry → Type 0
IsHash none = Unit {0}
IsHash (some e) = has_type ObjType.hash e ≡ true

unfoldable pub field_reply : Bytes → Option Entry → Result (Option Bytes)
field_reply field none = ok none
field_reply field (some e) =
    if not (has_type ObjType.hash e) then err wrong_type else ok (lookup field e.hash)

unfoldable pub after_hset : Bytes → Bytes → Option Entry → Option Entry
after_hset field value none =
    some (record new_entry { type = ObjType.hash; hash = (field, value) ∷ [] })
after_hset field value (some e) =
    if not (has_type ObjType.hash e)
    then some e
    else some (record e { hash = insert field value e.hash })

unfoldable pub hset_reply : Bytes → Option Entry → Result Bool
hset_reply field none = ok true
hset_reply field (some e) =
    if not (has_type ObjType.hash e)
    then err wrong_type
    else ok (not (is_some (lookup field e.hash)))

kept_hash : Entry → Assoc Bytes Bytes → Option Entry
kept_hash e [] = none
kept_hash e (f ∷ fs) = some (record e { hash = f ∷ fs })

unfoldable pub after_hdel : Bytes → Option Entry → Option Entry
unfolding kept_hash
after_hdel field none = none
after_hdel field (some e) =
    if not (has_type ObjType.hash e) then some e else kept_hash e (erase field e.hash)

unfoldable pub hdel_reply : Bytes → Option Entry → Result Bool
hdel_reply field none = ok false
hdel_reply field (some e) =
    if not (has_type ObjType.hash e) then err wrong_type else ok (is_some (lookup field e.hash))

lookup-keep_hash :
    (key j : Bytes) (e : Entry) (fs : Assoc Bytes Bytes) (m : DbMap)
    → lookup j (keep_hash key e fs m) ≡ (if bytes_eq.test key j then kept_hash e fs else lookup j m)
unfolding keep_hash kept_hash
lookup-keep_hash key j e [] m = lookup-erase key j m
lookup-keep_hash key j e (f ∷ fs) m = lookup-insert key j _ m

module _ ⦃h : StdHash⦄ (key field : Bytes) where
  hset-stores :
      (value : Bytes) (m : DbMap) (e : Option Entry) (j : Bytes)
      → lookup key m ≡ e
      → lookup j (hset_body key field value m e).0
        ≡ (if bytes_eq.test key j then after_hset field value e else lookup j m)
  unfolding hset_body after_hset
  hset-stores value m none j found = lookup-insert key j _ m
  hset-stores value m (some e) j found = ground (
    arith,
    untouched key j m (some e) found,
    lookup-insert key j (record e { hash = insert field value e.hash }) m,
  )

  pub hset-Local :
      (value : Bytes)
      → Local key (hset_body key field value) (after_hset field value) (hset_reply field)
  hset-Local value = record {
    stores = hset-stores value;
    replies = λ m e. unfold hset_body hset_reply in ground arith;
  }

  hdel-stores :
      (m : DbMap) (e : Option Entry) (j : Bytes)
      → lookup key m ≡ e
      → lookup j (hdel_body key field m e).0
        ≡ (if bytes_eq.test key j then after_hdel field e else lookup j m)
  unfolding hdel_body after_hdel
  hdel-stores m none j found = untouched key j m none found
  hdel-stores m (some e) j found =
      ground
        (arith, untouched key j m (some e) found, lookup-keep_hash key j e (erase field e.hash) m)

  pub hdel-Local : Local key (hdel_body key field) (after_hdel field) (hdel_reply field)
  hdel-Local = record {
    stores = hdel-stores;
    replies = λ m e. unfold hdel_body hdel_reply in ground arith;
  }

field_after_hset :
    (now : ℤ) (field other value : Bytes) (e : Option Entry)
    → IsHash (live now e)
    → field_reply other (live now (after_hset field value (live now e)))
      ≡ (if bytes_eq.test field other then ok (some value) else field_reply other (live now e))
unfolding field_reply after_hset live lookup
field_after_hset now field other value none is_hash = ground arith
field_after_hset now field other value (some e) is_hash =
    ground (arith, lookup-insert field other value e.hash)

field_of_kept :
    (now : ℤ) (other : Bytes) (e : Entry) (fs : Assoc Bytes Bytes)
    → has_type ObjType.hash e ≡ true
    → is_expired e now ≡ false
    → field_reply other (live now (kept_hash e fs)) ≡ ok (lookup other fs)
unfolding field_reply kept_hash live lookup is_expired
field_of_kept now other e [] is_hash fresh = ground arith
field_of_kept now other e (f ∷ fs) is_hash fresh = ground arith

field_after_hdel :
    (now : ℤ) (field other : Bytes) (e : Option Entry)
    → IsHash (live now e)
    → field_reply other (live now (after_hdel field (live now e)))
      ≡ (if bytes_eq.test field other then ok none else field_reply other (live now e))
unfolding after_hdel live field_reply
field_after_hdel now field other none is_hash = ground arith
field_after_hdel now field other (some e) is_hash = elim (Bool-cases (is_expired e now)) [
  | inl expired ↦ ground (arith, expired)
  | inr fresh ↦ ground (
    arith,
    fresh,
    field_of_kept now other e (erase field e.hash),
    lookup-erase field other e.hash,
  )
]

module _ ⦃h : StdHash⦄ (s : KvStore) (db : ℕ) (key field other : Bytes) (env : Env) where
  same_place : (db == db && bytes_eq.test key key) ≡ true
  same_place = ground (arith, test_refl key)

  hget_answer :
      (t : KvStore)
      → (hget t db key other env).1 ≡ field_reply other (live env.now (entry_at t db key))
  unfolding hget
  hget_answer t =
      answer_by t db key env.now (hget_body other) (field_reply other)
        (λ m e. unfold hget_body field_reply in ground arith)

  -- HGET of a field after HSET of one answers with the new value if it is the same field, and as before
  -- if it is another. The key held a hash or nothing, and the clock reads the same throughout.
  hget-hset :
      (value : Bytes)
      → IsHash (live env.now (entry_at s db key))
      → (hget (hset s db key field value env).0 db key other env).1
        ≡ (if bytes_eq.test field other then ok (some value) else (hget s db key other env).1)
  unfolding hset
  hget-hset value is_hash =
      hget_answer (hset s db key field value env).0
      ∙ rw
          (
            entry_at_after s db key env.now _ (hset-Local key field value) db key,
            same_place,
            hget_answer s,
          )
          (field_after_hset env.now field other value (entry_at s db key) is_hash)

  -- HGET of a field after HDEL of one finds nothing if it is the same field, and answers as before if it
  -- is another, also where the key goes with its last field. The key held a hash or nothing, and
  -- the clock reads the same throughout.
  hget-hdel :
      IsHash (live env.now (entry_at s db key))
      → (hget (hdel s db key field env).0 db key other env).1
        ≡ (if bytes_eq.test field other then ok none else (hget s db key other env).1)
  unfolding hdel
  hget-hdel is_hash =
      hget_answer (hdel s db key field env).0
      ∙ rw
          (
            entry_at_after s db key env.now _ (hdel-Local key field) db key,
            same_place,
            hget_answer s,
          )
          (field_after_hdel env.now field other (entry_at s db key) is_hash)

-- ===== src/Store/Expiry/Laws.antt =====
-- Deadlines that are set, asked for and taken away.
use zero_frameworks.Base.{
  ℕ, ◌+◌, ◌-◌, ◌^◌, ◌<◌, ◌≡◌, refl, ◌∙◌, inl, inr, true, List, [], if◌then◌else◌, Option, none,
  some, ◌==◌, ◌&&◌, leb, arith, Option-cases,
}
use zero_frameworks.Base.Bytes.{Bytes}
use zero_frameworks.Base.Assoc.{
  lookup, bytes_eq, nat_eq, test_refl, lookup-insert, lookup-erase, lookup-nil,
}
use zero_frameworks.Base.Int.{ℤ, pos, negsuc, ◌+ℤ◌, wrap64, wrap64_id, leb_ℤ}
use zero_frameworks.Store.{KvStore, Entry, is_expired, StdHash, db_of, shard_idx}
use zero_frameworks.Store.View.{Local, entry_at, live, entry_at_after, answer_by, db_of_missing}
use zero_frameworks.Store.Strings.{is_some}
use zero_frameworks.Store.Strings.Locals.{untouched}
use zero_frameworks.Store.Expiry.{expire_body, pexpire, ttl_body, is_zero, with_existing, pttl}

unfoldable pub after_expire : ℤ → ℤ → Option Entry → Option Entry
after_expire amount at none = none
after_expire amount at (some e) =
    if leb_ℤ amount (pos 0) then none else some (record e { expire_at_ms = at })

module _ ⦃h : StdHash⦄ (key : Bytes) where
  expire-stores :
      (amount at : ℤ) (m : List (Bytes × Entry)) (e : Option Entry) (j : Bytes)
      → lookup key m ≡ e
      → lookup j (expire_body key amount at m e).0
        ≡ (if bytes_eq.test key j then after_expire amount at e else lookup j m)
  unfolding expire_body after_expire
  expire-stores amount at m none j found = untouched key j m none found
  expire-stores amount at m (some e) j found =
      ground (arith, lookup-insert key j (record e { expire_at_ms = at }) m, lookup-erase key j m)

  pub expire-Local :
      (amount at : ℤ)
      → Local key
          (expire_body key amount at)
          (after_expire amount at)
          (λ e. if is_some e then pos 1 else pos 0)
  expire-Local amount at = record {
    stores = expire-stores amount at;
    replies = λ m e. unfold expire_body in ground arith;
  }

-- What PTTL and TTL answer from the live entry.
unfoldable pub ttl_reply : ℤ → (ℤ → ℤ) → Option Entry → ℤ
unfolding ttl_body
ttl_reply now unit e = (ttl_body [] now unit [] e).2

-- PTTL of what PEXPIRE leaves of a live entry.
left_over :
    (t t' life : ℕ) (e : Option Entry)
    → is_some (live (pos t) e) ≡ true
    → 0 < life
    → t + life < 2 ^ 63
    → ttl_reply
        (pos t')
        (λ remain. remain)
        (live (pos t') (after_expire (pos life) (wrap64 (pos t +ℤ pos life)) (live (pos t) e)))
      ≡ (if leb (t + life) t' then negsuc 1 else pos (t + life - t'))
unfolding live after_expire ttl_reply ttl_body is_zero is_expired
left_over t t' life none alive some_time fits = ground arith
left_over t t' life (some e) alive some_time fits =
    ground (
      arith,
      wrap64_id (pos (t + life)) (omega arith),
      wrap64_id (pos (t + life - t')) (omega arith),
    )

no_live : (now : ℤ) → live now none ≡ none
unfolding live
no_live now = refl

module _ ⦃h : StdHash⦄ where
  no_entry :
      (s : KvStore) (db : ℕ) (key : Bytes)
      → lookup db (s.shards (shard_idx key)).dbs ≡ none
      → entry_at s db key ≡ none
  unfolding entry_at
  no_entry s db key missing =
      lookup-nil key (db_of (s.shards (shard_idx key)) db) (db_of_missing db _ missing)

  own_place : (db : ℕ) (key : Bytes) → (db == db && bytes_eq.test key key) ≡ true
  own_place db key = ground (arith, test_refl key)

  pub ttl_answer :
      (s : KvStore) (db : ℕ) (key : Bytes) (now : ℤ) (unit : ℤ → ℤ)
      → (with_existing s db key now (negsuc 1) (ttl_body key now unit)).1
        ≡ ttl_reply now unit (live now (entry_at s db key))
  unfolding with_existing ttl_reply
  ttl_answer s db key now unit = elim (Option-cases (lookup db (s.shards (shard_idx key)).dbs)) [
    | inl missing ↦
        rw (missing, with_existing) (ground (arith, no_entry s db key missing, no_live now))
    | inr (m, found) ↦
        rw (found, with_existing)
          (answer_by s db key now (ttl_body key now unit) (ttl_reply now unit)
            (λ m e. unfold ttl_body in ground arith))
  ]

  -- PTTL after PEXPIRE with a positive lifetime, on a key that was live at time t: before the deadline
  -- it answers the milliseconds that are left, and from then on that there is no such key (-2).
  pub pttl-pexpire :
      (s : KvStore) (db : ℕ) (key : Bytes) (t t' life : ℕ) (draw draw' : ℕ → ℕ)
      → is_some (live (pos t) (entry_at s db key)) ≡ true
      → 0 < life
      → t + life < 2 ^ 63
      → (pttl
          (pexpire s db key (pos life) (record { now = pos t; draw = draw })).0
          db
          key
          (record { now = pos t'; draw = draw' })).1
        ≡ (if leb (t + life) t' then negsuc 1 else pos (t + life - t'))
  unfolding pttl pexpire
  pttl-pexpire s db key t t' life draw draw' alive some_time fits =
      ttl_answer _ db key (pos t') (λ remain. remain)
      ∙ rw
          (entry_at_after s db key (pos t) _
            (expire-Local key (pos life) (wrap64 (pos t +ℤ pos life))) db key)
          (rw (own_place db key) (left_over t t' life (entry_at s db key) alive some_time fits))

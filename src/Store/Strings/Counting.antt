-- ===== src/Store/Strings/Counting.antt =====
-- zero/kv/store/kv_store.cc: what `incrBy` leaves and answers.
use zero_frameworks.Base.{
  ℕ, ◌+◌, ◌-◌, ◌^◌, ◌≤◌, ◌<◌, ◌≡◌, ◌∙◌, inl, inr, [], Option, none, some, arith, Option-cases,
}
use zero_frameworks.Base.Bytes.{Bytes, beq_iff}
use zero_frameworks.Base.Assoc.{bytes_eq, nat_eq, test_refl}
use zero_frameworks.Base.Int.{ℤ, pos, negsuc, ◌+ℤ◌, wrap64, wrap64-IsInt64, IsInt64}
use zero_frameworks.Base.Decimal.{to_string, strtoll-to_string, to_string_nonempty}
use zero_frameworks.Store.{KvStore, Entry, ObjType, Env, StdHash, ok}
use zero_frameworks.Store.View.{entry_at, live, entry_at_after, answer}
use zero_frameworks.Store.Strings.{incr_by, parse_integer_value}
use zero_frameworks.Store.Strings.Locals.{after_incr, incr_reply, incr-Local}

-- A number that the store writes is read back as itself.
pub parse-to_string : (n : ℤ) → IsInt64 n → parse_integer_value (to_string n) ≡ some n
unfolding parse_integer_value
parse-to_string n h =
    ground (arith, beq_iff (to_string n) [], to_string_nonempty n, strtoll-to_string n h)

-- An increment does not touch the deadline.
live-after_incr :
    (a now : ℤ) (e : Option Entry)
    → live now (after_incr a (live now e)) ≡ after_incr a (live now e)
unfolding live after_incr
live-after_incr a now none = ground arith
live-after_incr a now (some e) = ground arith

incr_reply_after :
    (a b n : ℤ) (e : Option Entry)
    → IsInt64 a
    → incr_reply a e ≡ ok n
    → incr_reply b (after_incr a e) ≡ ok (wrap64 (n +ℤ b))
unfolding incr_reply after_incr
incr_reply_after a b n none fits h = ground (arith, parse-to_string a fits)
incr_reply_after a b n (some e) fits h = elim (Option-cases (parse_integer_value e.value)) [
  | inl bad ↦ ground (arith, bad)
  | inr (cur, good) ↦
      ground (arith, good, parse-to_string (wrap64 (cur +ℤ a)) (wrap64-IsInt64 (cur +ℤ a)))
]

module _ ⦃h : StdHash⦄ where
  incr_answer :
      (s : KvStore) (db : ℕ) (key : Bytes) (delta : ℤ) (env : Env)
      → (incr_by s db key delta env).1 ≡ incr_reply delta (live env.now (entry_at s db key))
  unfolding incr_by
  incr_answer s db key delta env = answer s db key env.now _ (incr-Local key delta)

  entry_at-incr_by :
      (s : KvStore) (db : ℕ) (key : Bytes) (delta : ℤ) (env : Env)
      → entry_at (incr_by s db key delta env).0 db key
        ≡ after_incr delta (live env.now (entry_at s db key))
  unfolding incr_by
  entry_at-incr_by s db key delta env =
      entry_at_after s db key env.now _ (incr-Local key delta) db key
      ∙ ground (arith, test_refl key)

  -- After an INCRBY that answered n, a second INCRBY at the same reading of the clock answers with
  -- n plus its own increment, in 64-bit arithmetic. The first increment is an `int64_t`.
  incr_by_twice :
      (s : KvStore) (db : ℕ) (key : Bytes) (a b n : ℤ) (env : Env)
      → IsInt64 a
      → (incr_by s db key a env).1 ≡ ok n
      → (incr_by (incr_by s db key a env).0 db key b env).1 ≡ ok (wrap64 (n +ℤ b))
  incr_by_twice s db key a b n env fits first =
      incr_answer _ db key b env
      ∙ rw (entry_at-incr_by s db key a env) (
          rw (live-after_incr a env.now (entry_at s db key)) (
            incr_reply_after a b n (live env.now (entry_at s db key)) fits
              (rw (incr_answer s db key a env) at first)))

  -- INCRBY does not notice an overflow: where a live string holds the number c and c + d exceeds the
  -- largest `int64_t`, the answer is c + d - 2^64, a negative number, and not an error.
  pub incr_by_wraps :
      (s : KvStore) (db : ℕ) (key : Bytes) (c d : ℕ) (e : Entry) (env : Env)
      → live env.now (entry_at s db key) ≡ some e
      → e.type ≡ ObjType.string
      → parse_integer_value e.value ≡ some (pos c)
      → c < 2 ^ 63
      → d < 2 ^ 63
      → 2 ^ 63 ≤ c + d
      → (incr_by s db key (pos d) env).1 ≡ ok (negsuc (2 ^ 64 - (c + d) - 1))
  incr_by_wraps s db key c d e env seen str num hc hd over =
      incr_answer s db key (pos d) env
      ∙ rw seen (unfold incr_reply in rw (str, num) (unfold wrap64 in ground arith))

-- ===== src/Resp/Reader/RoundTrip.antt =====
-- What the reader makes of the encoder's text.
use zero_frameworks.Base.{
  ℕ, zero, suc, ◌+◌, ◌*◌, ◌%◌, ◌≤◌, ◌<◌, ◌≡◌, ◌≢◌, ◌-◌, ltb, refl, ◌∙◌, true, [], ◌∷◌, ◌++◌, arith,
  if◌then◌else◌, none, some, drop, length, length-append, append_assoc, take-length-append,
  drop-length-append,
}
use zero_frameworks.Base.Bytes.{Bytes}
use zero_frameworks.Base.Int.{ℤ, pos, negsuc}
use zero_frameworks.Resp.{
  RespValue, simple_string, error, integer, bulk_string, null_bulk, array, null, Items, nil, cons,
  size, crlf,
}
use zero_frameworks.Resp.Number.{append_int64, read_int64, int64_max}
use zero_frameworks.Resp.Number.Laws.{read-append_pos, read-append_neg}
use zero_frameworks.Resp.Encode.{encode}
use zero_frameworks.Resp.Encode.Laws.{text, texts, encode-text}
use zero_frameworks.Resp.Reader.{
  Memory, ok, bulk_body, bulk_from, parse_value, parse_items, try_parse, fuel_for, is_resp_prefix,
  invalid,
}
use zero_frameworks.Resp.Reader.Lines.{find_crlf, read_line, starts_crlf}

find_crlf-append :
    (s rest : Bytes) → find_crlf s ≡ none → find_crlf (s ++ (crlf ++ rest)) ≡ some (length s)
unfolding find_crlf
find_crlf-append [] rest h = refl
find_crlf-append (c ∷ []) rest h = ground arith
find_crlf-append (c ∷ d ∷ s) rest h = ground (arith, find_crlf-append (d ∷ s) rest)

pub read_line-append :
    (s rest : Bytes) → find_crlf s ≡ none → read_line (s ++ (crlf ++ rest)) ≡ some (s, length s + 2)
unfolding read_line
read_line-append s rest h = rw (find_crlf-append s rest h, take-length-append s _)

-- The numbers whose text is right: not negative, or a multiple of ten above the least `int64_t`.
abbrev pub PrintsWell : ℤ → Type 0
PrintsWell (pos n) = n ≤ int64_max
PrintsWell (negsuc k) = (k + 1 ≤ int64_max) × ((k + 1) % 10 ≡ 0)

-- What the reader can be given back: lines with no CRLF inside, numbers that print well,
-- lengths that fit `int64_t`, and arrays that there is room for.
abbrev mutual
  pub Readable : ⦃memory : Memory⦄ → RespValue → Type 0
  Readable (simple_string s) = find_crlf s ≡ none
  Readable (error s) = find_crlf s ≡ none
  Readable (integer n) = PrintsWell n
  Readable (bulk_string s) = length s ≤ int64_max
  Readable null_bulk = Unit {0}
  Readable ⦃memory⦄ (array vs) =
      (size vs ≤ int64_max) × (memory.grants (size vs) ≡ true) × AllReadable vs
  Readable null = Unit {0}

  pub AllReadable : ⦃memory : Memory⦄ → Items → Type 0
  AllReadable nil = Unit {0}
  AllReadable (cons v vs) = Readable v × AllReadable vs

-- On the wire `null` is a null bulk string.
abbrev mutual
  pub on_wire : RespValue → RespValue
  on_wire (array vs) = array (all_on_wire vs)
  on_wire null = null_bulk
  on_wire (simple_string s) = simple_string s
  on_wire (error s) = error s
  on_wire (integer n) = integer n
  on_wire (bulk_string s) = bulk_string s
  on_wire null_bulk = null_bulk

  pub all_on_wire : Items → Items
  all_on_wire nil = nil
  all_on_wire (cons v vs) = cons (on_wire v) (all_on_wire vs)

read_int64-append :
    (n : ℤ) (rest : Bytes)
    → PrintsWell n
    → read_int64 (append_int64 n ++ (crlf ++ rest)) ≡ some (n, crlf ++ rest)
read_int64-append (pos n) rest h = read-append_pos n _ h refl
read_int64-append (negsuc k) rest (fits, ten) = read-append_neg k _ fits refl ∙ ground (arith, ten)

module _ ⦃memory : Memory⦄ (fuel : ℕ) (rest : Bytes) where
  parse_value-simple :
      (s : Bytes)
      → find_crlf s ≡ none
      → parse_value (suc fuel) (text (simple_string s) ++ rest)
        ≡ ok (simple_string s) (length (text (simple_string s)))
  unfolding parse_value
  parse_value-simple s h =
      rw append_assoc (ground (arith, read_line-append s rest h, length-append s crlf))

  parse_value-error :
      (s : Bytes)
      → find_crlf s ≡ none
      → parse_value (suc fuel) (text (error s) ++ rest) ≡ ok (error s) (length (text (error s)))
  unfolding parse_value
  parse_value-error s h =
      rw append_assoc (ground (arith, read_line-append s rest h, length-append s crlf))

  parse_value-integer :
      (n : ℤ)
      → PrintsWell n
      → parse_value (suc fuel) (text (integer n) ++ rest)
        ≡ ok (integer n) (length (text (integer n)))
  unfolding parse_value starts_crlf
  parse_value-integer n h =
      rw (append_assoc, read_int64-append n rest h)
        (ground (
          arith,
          length-append (append_int64 n) (crlf ++ rest),
          length-append (append_int64 n) crlf,
        ))

  parse_value-negative :
      (k : ℕ)
      → k + 1 ≤ int64_max
      → (k + 1) % 10 ≢ 0
      → parse_value (suc fuel) (text (integer (negsuc k)) ++ rest) ≡ (
          if ltb k 9
          then invalid
          else ok (integer (negsuc (k - 10))) (length (text (integer (negsuc k)))))
  unfolding parse_value starts_crlf
  parse_value-negative k fits odd =
      rw (append_assoc, read-append_neg k (crlf ++ rest) fits refl)
        (ground (
          arith,
          length-append (append_int64 (negsuc k)) (crlf ++ rest),
          length-append (append_int64 (negsuc k)) crlf,
        ))

  parse_value-null :
      parse_value (suc fuel) (text null_bulk ++ rest) ≡ ok null_bulk (length (text null_bulk))
  unfolding parse_value starts_crlf read_int64
  parse_value-null = ground arith

  drop_two : (xs ys zs : Bytes) → drop (length xs + length ys) (xs ++ (ys ++ zs)) ≡ zs
  drop_two xs ys zs =
      rw (← length-append xs ys, ← append_assoc xs ys zs) (drop-length-append (xs ++ ys) zs)

  bulk_body-append :
      (before s : Bytes)
      → bulk_body (before ++ (s ++ (crlf ++ rest))) (pos (length s)) (length before)
        ≡ ok (bulk_string s) (length before + length s + 2)
  unfolding bulk_body starts_crlf
  bulk_body-append before s = ground (
    arith,
    length-append before (s ++ (crlf ++ rest)),
    length-append s (crlf ++ rest),
    drop_two before s (crlf ++ rest),
    drop-length-append before (s ++ (crlf ++ rest)),
    take-length-append s (crlf ++ rest),
  )

  bulk_from-append :
      (digits s : Bytes)
      → let body = crlf ++ (s ++ (crlf ++ rest)) in
        bulk_from (b'$' ∷ (digits ++ body)) (some (pos (length s), body))
        ≡ ok (bulk_string s) (length (b'$' ∷ (digits ++ (crlf ++ (s ++ crlf)))))
  bulk_from-append digits s =
      unfold bulk_from in
      ground (
        arith,
        bulk_body-append (b'$' ∷ (digits ++ crlf)) s,
        append_assoc digits crlf (s ++ (crlf ++ rest)),
        length-append digits crlf,
        length-append digits (crlf ++ (s ++ (crlf ++ rest))),
        length-append digits (crlf ++ (s ++ crlf)),
        length-append s crlf,
      )

  parse_value-bulk :
      (s : Bytes)
      → length s ≤ int64_max
      → parse_value (suc fuel) (text (bulk_string s) ++ rest)
        ≡ ok (bulk_string s) (length (text (bulk_string s)))
  unfolding parse_value
  parse_value-bulk s h =
      rw
        (
          append_assoc,
          append_assoc s crlf rest,
          read_int64-append (pos (length s)) (s ++ (crlf ++ rest)) h,
        )
        (bulk_from-append (append_int64 (pos (length s))) s)

  parse_value-array :
      (vs : Items)
      → size vs ≤ int64_max
      → memory.grants (size vs) ≡ true
      → parse_items fuel (size vs) (texts vs ++ rest) ≡ ok (all_on_wire vs) (length (texts vs))
      → parse_value (suc fuel) (text (array vs) ++ rest)
        ≡ ok (array (all_on_wire vs)) (length (text (array vs)))
  unfolding parse_value starts_crlf
  parse_value-array vs h room items =
      rw (append_assoc, read_int64-append (pos (size vs)) (texts vs ++ rest) h)
        (ground (
          arith,
          room,
          items,
          length-append (append_int64 (pos (size vs))) (crlf ++ (texts vs ++ rest)),
          length-append (append_int64 (pos (size vs))) (crlf ++ texts vs),
        ))

text_nonempty : (v : RespValue) → 1 ≤ length (text v)
text_nonempty (array vs) = omega arith
text_nonempty _ = omega arith

mutual
  unfolding size parse_items

  parse_value-text :
      ⦃memory : Memory⦄ (v : RespValue) (fuel : ℕ) (rest : Bytes)
      → Readable v
      → 2 * length (text v) < fuel
      → parse_value fuel (text v ++ rest) ≡ ok (on_wire v) (length (text v))
  parse_value-text v zero rest r h = elim h [ ]
  parse_value-text (simple_string s) (suc fuel) rest r h = parse_value-simple fuel rest s r
  parse_value-text (error s) (suc fuel) rest r h = parse_value-error fuel rest s r
  parse_value-text (integer n) (suc fuel) rest r h = parse_value-integer fuel rest n r
  parse_value-text (bulk_string s) (suc fuel) rest r h = parse_value-bulk fuel rest s r
  parse_value-text null_bulk (suc fuel) rest r h = parse_value-null fuel rest
  parse_value-text null (suc fuel) rest r h = parse_value-null fuel rest
  parse_value-text (array vs) (suc fuel) rest (small, room, all) h =
      parse_value-array fuel rest vs small room (
        parse_items-texts vs fuel rest all
          (omega (arith, length-append (append_int64 (pos (size vs))) (crlf ++ texts vs))))

  parse_items-texts :
      ⦃memory : Memory⦄ (vs : Items) (fuel : ℕ) (rest : Bytes)
      → AllReadable vs
      → 2 * length (texts vs) + 1 < fuel
      → parse_items fuel (size vs) (texts vs ++ rest) ≡ ok (all_on_wire vs) (length (texts vs))
  parse_items-texts vs zero rest r h = elim h [ ]
  parse_items-texts nil (suc fuel) rest r h = refl
  parse_items-texts (cons v vs) (suc fuel) rest (r, rs) h = ground (
    arith,
    append_assoc (text v) (texts vs) rest,
    length-append (text v) (texts vs),
    text_nonempty v,
    drop-length-append (text v) (texts vs ++ rest),
    parse_value-text v fuel (texts vs ++ rest) r,
    parse_items-texts vs fuel rest rs,
  )

try_parse_prefixed :
    ⦃memory : Memory⦄ (c : ℕ) (cs : Bytes)
    → is_resp_prefix c ≡ true
    → try_parse (c ∷ cs) ≡ parse_value (fuel_for (c ∷ cs)) (c ∷ cs)
unfolding try_parse
try_parse_prefixed c cs h = rw h

try_parse-text :
    ⦃memory : Memory⦄ (v : RespValue) (rest : Bytes)
    → try_parse (text v ++ rest) ≡ parse_value (fuel_for (text v ++ rest)) (text v ++ rest)
try_parse-text (simple_string s) rest = try_parse_prefixed _ _ refl
try_parse-text _ rest = try_parse_prefixed _ _ refl

-- A value that the encoder writes, with whatever follows it in the buffer, is parsed back as one
-- complete value (a null as a null bulk string), and exactly its own bytes are consumed. The value
-- may be nested. Its lines hold no CRLF, its lengths fit `int64_t`, there is room for
-- its arrays, and its integers are at least 0 or negative multiples of ten.
pub try_parse-encode :
    ⦃memory : Memory⦄ (v : RespValue) (rest : Bytes)
    → Readable v
    → try_parse (encode v ++ rest) ≡ ok (on_wire v) (length (encode v))
try_parse-encode v rest r = rw encode-text (
    try_parse-text v rest
    ∙ parse_value-text v _ rest r (omega (arith, length-append (text v) rest)))

-- What becomes of an integer reply that is negative and no multiple of ten: from -1 to -9 the
-- reader refuses the text, and below that it delivers a number that is ten too large.
pub try_parse-encode_negative :
    ⦃memory : Memory⦄ (k : ℕ) (rest : Bytes)
    → k + 1 ≤ int64_max
    → (k + 1) % 10 ≢ 0
    → try_parse (encode (integer (negsuc k)) ++ rest) ≡ (
        if ltb k 9
        then invalid
        else ok (integer (negsuc (k - 10))) (length (encode (integer (negsuc k)))))
try_parse-encode_negative k rest fits odd =
    rw encode-text
      (try_parse-text (integer (negsuc k)) rest ∙ parse_value-negative _ rest k fits odd)

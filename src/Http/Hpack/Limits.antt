-- ===== src/Http/Hpack/Limits.antt =====
-- What the decoder does on texts that the encoder does not write.
use zero_frameworks.Base.{
  ℕ, zero, suc, ◌+◌, ◌*◌, ◌/◌, ◌%◌, ◌^◌, ◌≤◌, ◌<◌, ◌≡◌, refl, sym, ◌∙◌, ap, Bool, true, false, not,
  ◌&&◌, ◌||◌, Option, none, some, ltb, [], ◌∷◌, if◌then◌else◌, ◌==◌, length, arith, length-drop,
  Bool-cases, inl, inr, ◌≢◌,
}
use zero_frameworks.Base.Bytes.{Bytes}
use zero_frameworks.Base.Assoc.{insert, bytes_eq}
use zero_frameworks.Http.Hpack.{
  uint32_count, Decoded, ok, refused, overrun, stuck, ◌>>=◌, Headers, decode_rest, decode_integer,
  literal_body, decode_string_literal, table_row, literal_name, literal_header, decode_header,
  decode_from, decode,
}

abbrev with_value : Bytes → Bytes → Decoded (Bytes × Bytes)
with_value name rest = decode_string_literal rest >>= λ value later. ok (name, value) later

by_index : ℕ → Bytes → Decoded (Bytes × Bytes)
by_index prefix_bits text =
    decode_integer prefix_bits text >>= table_row >>= λ row rest. with_value row.0 rest

>>=-ok :
    (d : Decoded (Bytes × Bytes)) (f : Bytes → Bytes → Decoded (Bytes × Bytes))
    → (◌>>=◌ {B = Bytes} d (λ row rest. ok row.0 rest) >>= f) ≡ (d >>= λ row rest. f row.0 rest)
>>=-ok (ok row rest) f = refl
>>=-ok refused f = refl
>>=-ok overrun f = refl
>>=-ok stuck f = refl

decode_header-by_index :
    (b : ℕ) (text : Bytes) → 64 < b → b < 128 → decode_header b text ≡ by_index 6 text
unfolding decode_header literal_header literal_name by_index
decode_header-by_index b text h k =
    let low : (b / 128 % 2 == 1) ≡ false = ground arith in
    let indexed : (b / 64 % 4 == 1) ≡ true = ground arith in
    let part : (b % 64 == 0) ≡ false = ground arith in
    rw (low, indexed, part) (>>=-ok (decode_integer 6 text >>= table_row) with_value)

decode_header-by_short_index :
    (b : ℕ) (text : Bytes) → b < 32 → b % 16 ≢ 0 → decode_header b text ≡ by_index 4 text
unfolding decode_header literal_header literal_name by_index
decode_header-by_short_index b text h k =
    let low : (b / 128 % 2 == 1) ≡ false = ground arith in
    let indexed : (b / 64 % 4 == 1) ≡ false = ground arith in
    let literal : (b / 16 % 16 == 0 || b / 16 % 16 == 1) ≡ true = ground arith in
    let part : (b % 16 == 0) ≡ false = ground (arith, k) in
    rw (low, indexed, literal, part) (>>=-ok (decode_integer 4 text >>= table_row) with_value)

-- How many bits of a header's first byte hold a name index that is not 0, if the header is a literal
-- with such an index: 6 for the form 01xxxxxx, 4 for the forms 0000xxxx and 0001xxxx.
abbrev pub index_bits : ℕ → Option ℕ
index_bits b =
    if ltb 64 b && ltb b 128 then some 6 else if ltb b 32 && not (b % 16 == 0) then some 4 else none

decode_header-index_bits :
    (b n : ℕ) (text : Bytes) → index_bits b ≡ some n → decode_header b text ≡ by_index n text
decode_header-index_bits b n text h =
    ground (arith, decode_header-by_index b text, decode_header-by_short_index b text)

-- The name index of a literal header is read from the bytes behind the first one, and its own bits
-- in that byte are lost: two first bytes that hold different indices, in equally many bits, are decoded
-- alike, in each of the three forms of a literal header.
pub decode_index_lost :
    (b b' n : ℕ) (text : Bytes) (headers : Headers)
    → index_bits b ≡ some n
    → index_bits b' ≡ some n
    → decode (b ∷ text) headers ≡ decode (b' ∷ text) headers
unfolding decode decode_from
decode_index_lost b b' n text headers h h' =
    ap (λ d. d >>= λ header rest. decode_from (length text) rest (insert header.0 header.1 headers))
      (decode_header-index_bits b n text h ∙ sym (decode_header-index_bits b' n text h'))

-- What a part of the decoder leaves of its input: no more than there was.
abbrev Shrinks : {A : Type 0} → ℕ → Decoded A → Type 0
Shrinks n (ok a rest) = length rest ≤ n
Shrinks n refused = Unit {0}
Shrinks n overrun = Unit {0}
Shrinks n stuck = ⊥

>>=-Shrinks :
    {A B : Type 0} (n : ℕ) (d : Decoded A) (f : A → Bytes → Decoded B)
    → Shrinks n d
    → ((a : A) (rest : Bytes) → length rest ≤ n → Shrinks n (f a rest))
    → Shrinks n (d >>= f)
>>=-Shrinks n (ok a rest) f h k = k a rest h
>>=-Shrinks n refused f h k = tt
>>=-Shrinks n overrun f h k = tt
>>=-Shrinks n stuck f h k = h

decode_rest-Shrinks :
    (n value m : ℕ) (text : Bytes) → length text ≤ n → Shrinks n (decode_rest value m text)
unfolding decode_rest
decode_rest-Shrinks n value m [] h = omega arith
decode_rest-Shrinks n value m (byte ∷ text) h =
    ground (arith, decode_rest-Shrinks n ((value + byte % 128 * 2 ^ m) % uint32_count) (m + 7) text)

decode_integer-Shrinks :
    (n prefix_bits : ℕ) (text : Bytes)
    → length text ≤ n
    → Shrinks n (decode_integer prefix_bits text)
unfolding decode_integer
decode_integer-Shrinks n prefix_bits [] h = tt
decode_integer-Shrinks n prefix_bits (byte ∷ text) h =
    ground (arith, decode_rest-Shrinks n (byte % 2 ^ prefix_bits) 0 text)

decode_string_literal-Shrinks :
    (n : ℕ) (text : Bytes) → length text ≤ n → Shrinks n (decode_string_literal text)
unfolding decode_string_literal literal_body
decode_string_literal-Shrinks n [] h = tt
decode_string_literal-Shrinks n (byte ∷ text) h =
    >>=-Shrinks n (decode_integer 7 (byte ∷ text)) (literal_body (byte / 128 % 2 == 1))
      (decode_integer-Shrinks n 7 (byte ∷ text) h)
      (λ len rest k. ground (arith, length-drop len rest))

table_row-Shrinks : (n idx : ℕ) (text : Bytes) → length text ≤ n → Shrinks n (table_row idx text)
unfolding table_row
table_row-Shrinks n idx text h = ground arith

literal_name-Shrinks :
    (n part prefix_bits : ℕ) (text : Bytes)
    → length text ≤ n
    → Shrinks n (literal_name part prefix_bits text)
unfolding literal_name
literal_name-Shrinks n part prefix_bits text h = elim (Bool-cases (part == 0)) [
  | inl whole ↦ rw whole (decode_string_literal-Shrinks n text h)
  | inr index ↦ rw index (
      >>=-Shrinks n (decode_integer prefix_bits text >>= table_row) (λ row rest. ok row.0 rest)
        (>>=-Shrinks n (decode_integer prefix_bits text) table_row
          (decode_integer-Shrinks n prefix_bits text h) (table_row-Shrinks n))
        (λ row rest k. k))
]

literal_header-Shrinks :
    (n part prefix_bits : ℕ) (text : Bytes)
    → length text ≤ n
    → Shrinks n (literal_header part prefix_bits text)
unfolding literal_header
literal_header-Shrinks n part prefix_bits text h =
    >>=-Shrinks n (literal_name part prefix_bits text) _
      (literal_name-Shrinks n part prefix_bits text h)
      (λ name rest k.
        >>=-Shrinks n (decode_string_literal rest) (λ value later. ok (name, value) later)
          (decode_string_literal-Shrinks n rest k) (λ value later j. j))

-- An index of 7 bits starts in the first byte: what is left is less than the whole text.
decode_integer-Shrinks_first :
    (b : ℕ) (text : Bytes) → Shrinks (length text) (decode_integer 7 (b ∷ text))
unfolding decode_integer
decode_integer-Shrinks_first b text =
    ground (arith, decode_rest-Shrinks (length text) (b % 128) 0 text)

index-Shrinks :
    (b : ℕ) (text : Bytes) → Shrinks (length text) (decode_integer 7 (b ∷ text) >>= table_row)
index-Shrinks b text =
    >>=-Shrinks (length text) (decode_integer 7 (b ∷ text)) table_row
      (decode_integer-Shrinks_first b text) (table_row-Shrinks (length text))

if-Shrinks :
    {A : Type 0} (n : ℕ) (test : Bool) (d e : Decoded A)
    → Shrinks n d
    → Shrinks n e
    → Shrinks n (if test then d else e)
if-Shrinks n true d e h k = h
if-Shrinks n false d e h k = k

decode_header-Shrinks : (b : ℕ) (text : Bytes) → Shrinks (length text) (decode_header b text)
unfolding decode_header
decode_header-Shrinks b text =
    let n = length text in
    if-Shrinks n (b / 128 % 2 == 1) _ _ (index-Shrinks b text) (
      if-Shrinks n (b / 64 % 4 == 1) _ _ (literal_header-Shrinks n (b % 64) 6 text (omega arith)) (
        if-Shrinks n (b / 16 % 16 == 0 || b / 16 % 16 == 1) _ refused
          (literal_header-Shrinks n (b % 16) 4 text (omega arith)) tt))

>>=-ends :
    {A B : Type 0} (n : ℕ) (d : Decoded A) (f : A → Bytes → Decoded B)
    → Shrinks n d
    → ((a : A) (rest : Bytes) → length rest ≤ n → f a rest ≢ stuck)
    → (d >>= f) ≢ stuck
>>=-ends n (ok a rest) f h k = k a rest h
>>=-ends n refused f h k = λ e. cc
>>=-ends n overrun f h k = λ e. cc
>>=-ends n stuck f h k = absurd h

decode_from-ends :
    (fuel : ℕ) (text : Bytes) (headers : Headers)
    → length text ≤ fuel
    → decode_from fuel text headers ≢ stuck
unfolding decode_from
decode_from-ends fuel [] headers h = λ e. cc
decode_from-ends zero (b ∷ text) headers h = absurd (omega arith)
decode_from-ends (suc fuel) (b ∷ text) headers h =
    >>=-ends (length text) (decode_header b text)
      (λ header rest. decode_from fuel rest (insert header.0 header.1 headers))
      (decode_header-Shrinks b text)
      (λ header rest k. decode_from-ends fuel rest (insert header.0 header.1 headers) (omega arith))

-- The decoder comes to an answer on every text: the rounds that it is given are enough.
decode_ends : (text : Bytes) (headers : Headers) → decode text headers ≢ stuck
unfolding decode
decode_ends text headers = decode_from-ends (length text) text headers (omega arith)

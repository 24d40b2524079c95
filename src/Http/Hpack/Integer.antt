-- ===== src/Http/Hpack/Integer.antt =====
-- Integers and string literals read back what was written.
use zero_frameworks.Base.{
  ℕ, zero, suc, ◌+◌, ◌-◌, ◌*◌, ◌/◌, ◌%◌, ◌^◌, ◌<◌, ◌≡◌, refl, ap, [], ◌∷◌, ◌++◌, ltb, length, arith,
  Bool-cases, inl, inr, append_assoc, length-append, take-length-append, drop-length-append,
}
use native.Mathlib.Nat.{add-mul, mul_assoc, mul_left_comm}
use native.Mathlib.Numerals.{towards_suc}
use zero_frameworks.Base.Bytes.{Bytes}
use zero_frameworks.Http.Hpack.{
  uint32_count, encode_rest, encode_integer, ok, decode_rest, decode_integer, clear_top,
  encode_string_literal, literal_body, decode_string_literal,
}

same_digit : (n : ℕ) → n < 128 → n % 256 % 128 ≡ n
same_digit n h = omega arith

low_and_high : (n p : ℕ) → n % 128 * p + n / 128 * (128 * p) ≡ n * p
low_and_high n p =
    let parts : n ≡ n % 128 + 128 * (n / 128) = omega arith in
    omega (
      arith,
      ap (λ (t : ℕ). t * p) parts,
      add-mul (n % 128) (128 * (n / 128)) p,
      mul_assoc 128 (n / 128) p,
      mul_left_comm (n / 128) 128 p,
    )

next_power : (m : ℕ) → 2 ^ (m + 7) ≡ 128 * 2 ^ m
next_power m = simp towards_suc (omega arith)

high_fits : (rounds n : ℕ) → n < 128 ^ suc (suc rounds) → n / 128 < 128 ^ suc rounds
high_fits rounds n h = omega arith

carry :
    (value low high : ℕ)
    → ((value + low) % uint32_count + high) % uint32_count ≡ (value + (low + high)) % uint32_count
carry value low high = omega arith

decode_rest-encode_rest :
    (rounds value m n : ℕ) (rest : Bytes)
    → n < 128 ^ suc rounds
    → decode_rest value m (encode_rest rounds n ++ rest)
      ≡ ok ((value + n * 2 ^ m) % uint32_count) rest
unfolding decode_rest encode_rest
decode_rest-encode_rest zero value m n rest h = ground (arith, same_digit n)
decode_rest-encode_rest (suc rounds) value m n rest h = ground (
  arith,
  decode_rest-encode_rest rounds ((value + n % 128 * 2 ^ m) % uint32_count) (m + 7) (n / 128) rest,
  low_and_high n (2 ^ m),
  next_power m,
  high_fits rounds n,
  carry value (n % 128 * 2 ^ m) (n / 128 * (128 * 2 ^ m)),
)

-- An integer reads back with a prefix of 7 bits, whatever follows it.
pub decode_integer-encode_integer :
    (value : ℕ) (rest : Bytes)
    → value < uint32_count
    → decode_integer 7 (encode_integer value 7 ++ rest) ≡ ok value rest
unfolding decode_integer encode_integer
decode_integer-encode_integer value rest fits =
    ground (arith, decode_rest-encode_rest 5 127 0 (value - 127) rest)

pub decode_integer_top :
    (b : ℕ) (bytes rest : Bytes)
    → decode_integer 7 ((b % 128 + 128) ∷ bytes ++ rest) ≡ decode_integer 7 (b ∷ bytes ++ rest)
unfolding decode_integer
decode_integer_top b bytes rest = ground arith

pub encode_integer_head :
    (value : ℕ) → (b : ℕ) × (bytes : Bytes) × (encode_integer value 7 ≡ b ∷ bytes) × (b < 128)
unfolding encode_integer
encode_integer_head value = elim (Bool-cases (ltb value 127)) [
  | inl small ↦ (value, [], rw small, ground (arith, small))
  | inr large ↦ (127, encode_rest 5 (value - 127), rw large, omega arith)
]

clear_top-encode_integer : (value : ℕ) → clear_top (encode_integer value 7) ≡ encode_integer value 7
unfolding encode_integer
clear_top-encode_integer value = ground arith

encode_string_literal-head :
    (str : Bytes)
    → length str < uint32_count
    → encode_string_literal str ≡ encode_integer (length str) 7 ++ str
unfolding encode_string_literal
encode_string_literal-head str fits =
    let same : length str % uint32_count ≡ length str = omega arith in
    rw (same, clear_top-encode_integer (length str)) refl

read_string :
    (str rest bytes : Bytes) (b : ℕ)
    → decode_integer 7 (b ∷ bytes ++ (str ++ rest)) ≡ ok (length str) (str ++ rest)
    → b < 128
    → decode_string_literal (b ∷ bytes ++ (str ++ rest)) ≡ ok str rest
unfolding decode_string_literal literal_body
read_string str rest bytes b read small = rw read (
    ground
      (arith, length-append str rest, take-length-append str rest, drop-length-append str rest))

-- A text reads back as a string literal, whatever follows it.
pub decode_string_literal-encode :
    (str rest : Bytes)
    → length str < uint32_count
    → decode_string_literal (encode_string_literal str ++ rest) ≡ ok str rest
decode_string_literal-encode str rest fits =
    let (b, bytes, e, small) = encode_integer_head (length str) in
    rw
      (
        encode_string_literal-head str fits,
        append_assoc (encode_integer (length str) 7) str rest,
        e,
      )
      (read_string str rest bytes b
        (rw e at (decode_integer-encode_integer (length str) (str ++ rest) fits)) small)

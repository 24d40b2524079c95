-- ===== src/ByteArray/Values/Numbers.antt =====
-- The numbers come back from their bytes.
use native.Mathlib.Nat.{mod-eq_of_lt, mod-lt, pow-zero, pow-suc}
use mathlib.Core.List.{reverse-reverse}
use zero_frameworks.Base.{
  ℕ, zero, suc, ◌+◌, ◌-◌, ◌*◌, ◌/◌, ◌%◌, ◌^◌, ◌<◌, ◌≡◌, refl, ◌∙◌, ap, Bool, true, false, [], ◌∷◌,
  ◌++◌, ltb, leb, length, arith, inl, inr, Bool-cases, length-reverse, subst,
}
use zero_frameworks.Base.Bytes.{Bytes}
use zero_frameworks.Base.Int.{ℤ, pos, negsuc}
use zero_frameworks.ByteArray.{ByteArray, ok, read}
use zero_frameworks.ByteArray.Blocks.{suc_add}
use zero_frameworks.ByteArray.Progress.{Ahead, read-Ahead}
use zero_frameworks.ByteArray.Values.{
  low_bytes, of_low_bytes, in_order, encode_zigzag, decode_zigzag, groups, read_groups,
}

-- The values of a signed word.
abbrev pub IsWord : ℕ → ℤ → Type 0
IsWord half (pos n) = n < half
IsWord half (negsuc n) = n < half

pub decode_zigzag-encode_zigzag :
    (half : ℕ) (v : ℤ) → IsWord half v → decode_zigzag half (encode_zigzag half v) ≡ v
unfolding decode_zigzag encode_zigzag
decode_zigzag-encode_zigzag half (pos n) small =
    rw (mod-eq_of_lt {n = n * 2} {m = 2 * half} (omega (arith, small))) (ground (arith, small))
decode_zigzag-encode_zigzag half (negsuc n) small =
    rw (mod-eq_of_lt {n = (n + 1) * 2 - 1} {m = 2 * half} (omega (arith, small)))
      (ground (arith, small))

pub encode_zigzag_bound : (half : ℕ) (v : ℤ) → IsWord half v → encode_zigzag half v < 2 * half
unfolding encode_zigzag
encode_zigzag_bound half (pos n) small = mod-lt (n * 2) (omega (arith, small))
encode_zigzag_bound half (negsuc n) small = mod-lt ((n + 1) * 2 - 1) (omega (arith, small))

pub length-low_bytes : (k n : ℕ) → length (low_bytes k n) ≡ k
unfolding low_bytes
length-low_bytes zero n = refl
length-low_bytes (suc k) n = ap suc (length-low_bytes k (n / 256))

pub of_low_bytes-low_bytes : (k n : ℕ) → n < 256 ^ k → of_low_bytes (low_bytes k n) ≡ n
unfolding of_low_bytes low_bytes
of_low_bytes-low_bytes zero n small = omega (arith, small, pow-zero 256)
of_low_bytes-low_bytes (suc k) n small =
    omega (arith, of_low_bytes-low_bytes k (n / 256) (omega (arith, small, pow-suc 256 k)))

pub length-in_order :
    (little_endian : Bool) (bytes : Bytes) → length (in_order little_endian bytes) ≡ length bytes
unfolding in_order
length-in_order true bytes = refl
length-in_order false bytes = length-reverse bytes

pub in_order-in_order :
    (little_endian : Bool) (bytes : Bytes)
    → in_order little_endian (in_order little_endian bytes) ≡ bytes
unfolding in_order
in_order-in_order true bytes = refl
in_order-in_order false bytes = reverse-reverse bytes

module _ (w r shift result : ℕ) (a b : ByteArray) (byte : ℕ)
    (taken : read 1 a ≡ ok (byte ∷ [], b)) where
  read_groups_last :
      ltb byte 0x80 ≡ true
      → read_groups w (suc r) shift result a ≡ ok (result + byte * 2 ^ shift % 2 ^ w, b)
  unfolding read_groups
  read_groups_last small = rw (read_groups, taken, small) refl

  read_groups_more :
      ltb byte 0x80 ≡ false
      → read_groups w (suc r) shift result a
        ≡ read_groups w r (shift + 7) (result + byte % 0x80 * 2 ^ shift % 2 ^ w) b
  unfolding read_groups
  read_groups_more big = rw (read_groups, taken, big) refl

groups_last : (r v : ℕ) → leb 0x80 v ≡ false → groups (suc r) v ≡ v ∷ []
unfolding groups
groups_last r v small = rw (groups, small) refl

groups_more :
    (r v : ℕ) → leb 0x80 v ≡ true → groups (suc r) v ≡ (v % 0x80 + 0x80) ∷ groups r (v / 0x80)
unfolding groups
groups_more r v big = rw (groups, big) refl

next_shift : (shift : ℕ) → 2 ^ (shift + 7) ≡ 128 * 2 ^ shift
next_shift zero = refl
next_shift (suc shift) =
    rw (suc_add shift 7) (omega (arith, pow-suc 2 (shift + 7), pow-suc 2 shift, next_shift shift))

two_parts : (v p : ℕ) → v / 0x80 * (128 * p) + v % 0x80 * p ≡ v * p
two_parts v p =
    let parts : v ≡ v / 0x80 * 128 + v % 0x80 = omega arith in omega (arith, ap (λ x. x * p) parts)

-- What the other groups stand for fits, and so does the low group.
higher_part : (v shift : ℕ) → v / 0x80 * 2 ^ (shift + 7) + v % 0x80 * 2 ^ shift ≡ v * 2 ^ shift
higher_part v shift =
    ap (λ p. v / 0x80 * p + v % 0x80 * 2 ^ shift) (next_shift shift) ∙ two_parts v (2 ^ shift)

low_group : (v : ℕ) → (v % 0x80 + 0x80) % 0x80 ≡ v % 0x80
low_group v = omega arith

total :
    (v shift result modulus : ℕ)
    → v * 2 ^ shift < modulus
    → result + (v % 0x80 + 0x80) % 0x80 * 2 ^ shift % modulus + v / 0x80 * 2 ^ (shift + 7)
      ≡ result + v * 2 ^ shift
total v shift result modulus fits =
    let small : v % 0x80 * 2 ^ shift < modulus = omega (arith, fits, higher_part v shift) in
    rw (low_group v, mod-eq_of_lt small) (omega (arith, higher_part v shift))

-- The groups of a number are read back, and what comes behind them is left.
pub read_groups-Ahead :
    (little : Bool) (w r shift result v : ℕ) (a : ByteArray) (later : Bytes)
    → v < 128 ^ r
    → v * 2 ^ shift < 2 ^ w
    → Ahead little a (groups r v ++ later)
    → (b : ByteArray) × (read_groups w r shift result a ≡ ok (result + v * 2 ^ shift, b))
      × Ahead little b later
unfolding groups
read_groups-Ahead little w zero shift result v a later few fits s =
    let none_left : v ≡ 0 = omega (arith, few, pow-zero 128) in
    (a, unfold read_groups in rw none_left (ap (λ n. ok (n, a)) (omega arith)), s)
read_groups-Ahead little w (suc r) shift result v a later few fits s =
    elim (Bool-cases (leb 0x80 v)) [
      | inl big ↦
          let byte = v % 0x80 + 0x80 in
          let high : ltb byte 0x80 ≡ false = ground arith in
          let (b, taken, rest) =
            read-Ahead little a (byte ∷ []) (groups r (v / 0x80) ++ later)
              (subst (λ bytes. Ahead little a (bytes ++ later)) (groups_more r v big) s)
              (omega arith) in
          let (c, done, end) =
            read_groups-Ahead little w r (shift + 7) (result + byte % 0x80 * 2 ^ shift % 2 ^ w)
              (v / 0x80) b later (omega (arith, few, pow-suc 128 r))
              (omega (arith, fits, higher_part v shift)) rest in
          (
            c,
            read_groups_more w r shift result a b byte taken high
                ∙ done
                ∙ ap (λ n. ok (n, c)) (total v shift result (2 ^ w) fits),
            end,
          )
      | inr small ↦
          let low : ltb v 0x80 ≡ true = ground (arith, small) in
          let (b, taken, rest) =
            read-Ahead little a (v ∷ []) later
              (subst (λ bytes. Ahead little a (bytes ++ later)) (groups_last r v small) s)
              (omega arith) in
          (
            b,
            read_groups_last w r shift result a b v taken low
                ∙ ap (λ n. ok (result + n, b)) (mod-eq_of_lt fits),
            rest,
          )
    ]

-- ===== src/Resp/Number/Laws.antt =====
-- What `readInt64` makes of the text that `appendInt64` writes.
use native.Mathlib.Nat.{pow-suc}
use zero_frameworks.Base.{
  ℕ, zero, suc, ◌+◌, ◌-◌, ◌*◌, ◌/◌, ◌%◌, ◌^◌, ◌≤◌, ◌<◌, ◌≡◌, refl, Bool, true, false, [], ◌∷◌, ◌++◌,
  none, some, arith, ltb, ◌==◌, Bool-cases, inl, inr, if◌then◌else◌, ◌∙◌, ap,
}
use zero_frameworks.Base.Bytes.{Bytes}
use zero_frameworks.Base.Int.{pos, negsuc}
use zero_frameworks.Resp.Number.{
  append_int64, read_int64, int64_max, is_digit, push_digits, read_digits, read_magnitude, signed,
}

-- Whether the text begins with a digit.
abbrev pub starts_digit : Bytes → Bool
starts_digit [] = false
starts_digit (c ∷ cs) = is_digit c

push_digits_starts : (room n : ℕ) (buf : Bytes) → starts_digit (push_digits (suc room) n buf) ≡ true
unfolding push_digits
push_digits_starts zero n buf = ground arith
push_digits_starts (suc room) n buf =
    ground (arith, push_digits_starts room (n / 10) ((48 + n % 10) ∷ buf))

shrink : (room n : ℕ) → n < 10 ^ suc room → n / 10 < 10 ^ room
shrink room n h = omega (arith, pow-suc 10 room)

read_digits-push_digits :
    (room n : ℕ) (buf rest : Bytes)
    → n < 10 ^ suc room
    → n ≤ int64_max
    → read_digits 0 (push_digits (suc room) n buf ++ rest) ≡ read_digits n (buf ++ rest)
unfolding push_digits read_digits
read_digits-push_digits zero n buf rest h k = ground arith
read_digits-push_digits (suc room) n buf rest h k =
    ground (
      arith,
      shrink (suc room) n h,
      read_digits-push_digits room (n / 10) ((48 + n % 10) ∷ buf) rest,
    )

-- A text that does not go on with a digit.
abbrev pub EndsNumber : Bytes → Type 0
EndsNumber rest = starts_digit rest ≡ false

read_digits_end :
    (val : ℕ) (rest : Bytes) → EndsNumber rest → read_digits val rest ≡ some (val, rest)
unfolding read_digits
read_digits_end val [] h = refl
read_digits_end val (c ∷ cs) h = ground arith

starts_digit-append : (xs rest : Bytes) → starts_digit xs ≡ true → starts_digit (xs ++ rest) ≡ true
starts_digit-append [] rest h = cc
starts_digit-append (c ∷ cs) rest h = h

read_magnitude_digit : (xs : Bytes) → starts_digit xs ≡ true → read_magnitude xs ≡ read_digits 0 xs
unfolding read_magnitude
read_magnitude_digit [] h = cc
read_magnitude_digit (c ∷ cs) h = ground arith

read_int64_digit :
    (xs : Bytes) → starts_digit xs ≡ true → read_int64 xs ≡ signed false (read_digits 0 xs)
unfolding read_int64
read_int64_digit [] h = cc
read_int64_digit (c ∷ cs) h = ground arith

-- The magnitude of a run of digits that was pushed before `last`, and what follows.
read_magnitude-push_digits :
    (n last : ℕ) (rest : Bytes)
    → n * 10 + last ≤ int64_max
    → last < 10
    → EndsNumber rest
    → read_magnitude (push_digits 19 n ((48 + last) ∷ []) ++ rest) ≡ some (n * 10 + last, rest)
read_magnitude-push_digits n last rest fits small ends =
    read_magnitude_digit _
      (starts_digit-append (push_digits 19 n _) rest (push_digits_starts 18 n _))
    ∙ read_digits-push_digits 18 n _ rest (omega arith) (omega arith)
    ∙ unfold read_digits in ground (arith, read_digits_end (n * 10 + last) rest ends)

append_int64_starts : (n : ℕ) → starts_digit (append_int64 (pos n)) ≡ true
unfolding append_int64
append_int64_starts n = ground (arith, push_digits_starts 19 n [])

read_digits-append_int64 :
    (n : ℕ) (rest : Bytes)
    → n ≤ int64_max
    → read_digits 0 (append_int64 (pos n) ++ rest) ≡ read_digits n rest
unfolding append_int64
read_digits-append_int64 n rest fits = elim (Bool-cases (ltb n 10)) [
  | inl small ↦ unfold read_digits in ground arith
  | inr large ↦ ground (arith, read_digits-push_digits 19 n [] rest (omega arith) fits)
]

pub read-append_pos :
    (n : ℕ) (rest : Bytes)
    → n ≤ int64_max
    → EndsNumber rest
    → read_int64 (append_int64 (pos n) ++ rest) ≡ some (pos n, rest)
read-append_pos n rest fits ends =
    read_int64_digit _ (starts_digit-append (append_int64 (pos n)) rest (append_int64_starts n))
    ∙ ap (signed false) (read_digits-append_int64 n rest fits ∙ read_digits_end n rest ends)
    ∙ unfold signed in refl

-- A negative number: a multiple of ten reads back, any other from -11 down comes back ten too large,
-- and those from -1 to -9 do not read back at all.
pub read-append_neg :
    (k : ℕ) (rest : Bytes)
    → k + 1 ≤ int64_max
    → EndsNumber rest
    → read_int64 (append_int64 (negsuc k) ++ rest) ≡ (
        if (k + 1) % 10 == 0
        then some (negsuc k, rest)
        else if ltb k 9
        then none
        else some (negsuc (k - 10), rest))
unfolding append_int64 read_int64
read-append_neg k rest fits ends = ground (
  arith,
  read_magnitude-push_digits ((k + 1) / 10) ((k + 1) % 10) rest,
  read_magnitude-push_digits ((k + 1) / 10 - 1) ((k + 1) % 10) rest,
)

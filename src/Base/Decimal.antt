-- ===== src/Base/Decimal.antt =====
-- `std::to_string` and `std::strtoll` (base 10) on `int64_t`.
use Prim.Native.Nat.{min}
use native.Mathlib.Nat.{pow-suc}
use zero_frameworks.Base.Tests.{leb, ltb, ◌==◌, if◌then◌else◌}
use zero_frameworks.Base.Bytes.{Bytes}
use zero_frameworks.Base.Int.{ℤ, pos, negsuc, IsInt64}
use Prim.Native.Nat.{ℕ, zero, suc, ◌+◌, ◌-◌, ◌*◌, ◌/◌, ◌%◌, ◌^◌, ◌<◌}
use mathlib.Core.Path.{◌≡◌, refl, ◌∙◌}
use mathlib.Core.Logic.{◌≢◌}
use mathlib.Core.Bool.{Bool, true, false, ◌&&◌, ◌||◌}
use mathlib.Core.Option.{Option, none, some}
use mathlib.Core.List.{[], ◌∷◌}
use native.Mathlib.Omega.{arith}

-- The decimal digits of a number below 10 ^ fuel, in front of `buf`.
digits : ℕ → ℕ → Bytes → Bytes
digits zero n buf = buf
digits (suc fuel) n buf =
    let more = digits fuel (n / 10) ((48 + n % 10) ∷ buf) in
    if ltb n 10 then (48 + n) ∷ buf else more

unfoldable pub to_string : ℤ → Bytes
unfolding digits
to_string (pos n) = digits 20 n []
to_string (negsuc k) = b'-' ∷ digits 20 (k + 1) []

abbrev pub is_digit : ℕ → Bool
is_digit c = leb b'0' c && leb c b'9'

abbrev pub is_space : ℕ → Bool
is_space c = c == 32 || (leb 9 c && leb c 13)

-- The longest run of digits, after the value `acc`.
scan : ℕ → Bytes → ℕ × Bytes
scan acc [] = (acc, [])
scan acc (c ∷ cs) = if is_digit c then scan (acc * 10 + (c - 48)) cs else (acc, c ∷ cs)

-- `LLONG_MIN` and `LLONG_MAX` where the number is out of range.
saturate : Bool → ℕ → ℤ
saturate true zero = pos 0
saturate true (suc k) = negsuc (min k (2 ^ 63 - 1))
saturate false n = pos (min n (2 ^ 63 - 1))

scan_number : Bool → Bytes → Option (ℤ × Bytes)
unfolding scan saturate
scan_number neg [] = none
scan_number neg (c ∷ cs) =
    if is_digit c then some (saturate neg (scan 0 (c ∷ cs)).0, (scan 0 (c ∷ cs)).1) else none

signed_number : Bytes → Option (ℤ × Bytes)
unfolding scan_number
signed_number [] = none
signed_number (c ∷ cs) =
    if c == b'-'
    then scan_number true cs
    else if c == b'+'
    then scan_number false cs
    else scan_number false (c ∷ cs)

-- The number and the text from `end` on; `none` where no conversion is made.
unfoldable pub strtoll : Bytes → Option (ℤ × Bytes)
unfolding signed_number
strtoll [] = none
strtoll (c ∷ cs) = if is_space c then strtoll cs else signed_number (c ∷ cs)

abbrev starts_digit : Bytes → Bool
starts_digit [] = false
starts_digit (c ∷ cs) = is_digit c

digits_start : (fuel n : ℕ) (buf : Bytes) → starts_digit (digits (suc fuel) n buf) ≡ true
unfolding digits
digits_start zero n buf = ground arith
digits_start (suc fuel) n buf = ground (arith, digits_start fuel (n / 10) ((48 + n % 10) ∷ buf))

scan-digits :
    (fuel n : ℕ) (buf : Bytes) → n < 10 ^ suc fuel → scan 0 (digits (suc fuel) n buf) ≡ scan n buf
unfolding digits scan
scan-digits zero n buf h = ground arith
scan-digits (suc fuel) n buf h =
    ground (arith, pow-suc 10 (suc fuel), scan-digits fuel (n / 10) ((48 + n % 10) ∷ buf))

-- A text that starts with a digit.
scan_number_digit :
    (neg : Bool) (xs : Bytes)
    → starts_digit xs ≡ true
    → scan_number neg xs ≡ some (saturate neg (scan 0 xs).0, (scan 0 xs).1)
unfolding scan_number
scan_number_digit neg [] s = cc
scan_number_digit neg (c ∷ cs) s = rw s

scan_number-digits :
    (neg : Bool) (n : ℕ)
    → n < 10 ^ 20
    → scan_number neg (digits 20 n []) ≡ some (saturate neg n, [])
scan_number-digits neg n h =
    scan_number_digit neg _ (digits_start 19 n [])
    ∙ rw (scan-digits 19 n [] h) (unfold scan in refl)

strtoll_digit : (xs : Bytes) → starts_digit xs ≡ true → strtoll xs ≡ scan_number false xs
unfolding strtoll
strtoll_digit [] s = cc
strtoll_digit (c ∷ cs) s = ground arith

-- A number that `to_string` writes is read back, and nothing is left.
pub strtoll-to_string : (n : ℤ) → IsInt64 n → strtoll (to_string n) ≡ some (n, [])
unfolding to_string
strtoll-to_string (pos n) h =
    strtoll_digit _ (digits_start 19 n [])
    ∙ scan_number-digits false n (omega arith)
    ∙ unfold saturate in ground arith
strtoll-to_string (negsuc k) h =
    unfold strtoll in
    scan_number-digits true (k + 1) (omega arith) ∙ unfold saturate in ground arith

pub to_string_nonempty : (n : ℤ) → to_string n ≢ []
unfolding to_string
to_string_nonempty (pos n) e = ground (arith, digits_start 19 n [])
to_string_nonempty (negsuc k) e = cc

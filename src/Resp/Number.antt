-- ===== src/Resp/Number.antt =====
-- zero/kv/resp.cc `appendInt64` and zero/kv/resp_reader.cc `readInt64`.
pub mod Laws
pub mod Shorter
use zero_frameworks.Base.{
  ℕ, zero, suc, ◌+◌, ◌-◌, ◌*◌, ◌/◌, ◌%◌, ◌^◌, ◌≤◌, ◌<◌, ◌≡◌, refl, Bool, true, false, ◌&&◌, List,
  [], ◌∷◌, ◌++◌, Option, none, some, arith, ltb, leb, ◌==◌, if◌then◌else◌,
}
use zero_frameworks.Base.Bytes.{Bytes, codes}
use zero_frameworks.Base.Int.{ℤ, pos, negsuc}

-- `do { buf[pos--] = '0' + (char)(n % 10); n /= 10; } while (n > 0);` The head of the list is
-- `buf[pos + 1]`; the fuel is the room of the buffer.
push_digits : ℕ → ℕ → Bytes → Bytes
push_digits zero n buf = buf
push_digits (suc room) n buf =
    let rest = push_digits room (n / 10) ((48 + n % 10) ∷ buf) in
    if ltb 0 (n / 10) then rest else (48 + n % 10) ∷ buf

-- The same loop entered with a negative number: one round, whose digit lies below '0'.
push_signed : ℤ → Bytes → Bytes
unfolding push_digits
push_signed (pos n) buf = push_digits 19 n buf
push_signed (negsuc k) buf = (48 - (k + 1) % 10) ∷ buf

-- The number that the loop is entered with when the argument is -m: `q = n / 10; r = n % 10;
-- if (r < 0) { r = -r; q++; }`, then `n = -q`.
negated_quotient : ℕ → ℤ
negated_quotient m =
    if m % 10 == 0 then pos (m / 10) else if m / 10 == 0 then negsuc 0 else pos (m / 10 - 1)

-- What `appendInt64` adds to the output.
unfoldable pub append_int64 : ℤ → Bytes
unfolding push_digits push_signed negated_quotient
append_int64 (pos n) =
    if n == 0
    then codes "0"
    else if n == 1
    then codes "1"
    else if ltb n 10
    then (48 + n) ∷ []
    else push_digits 20 n []
append_int64 (negsuc k) = b'-' ∷ push_signed (negated_quotient (k + 1)) ((48 + (k + 1) % 10) ∷ [])

abbrev pub int64_max : ℕ
int64_max = 2 ^ 63 - 1

abbrev pub is_digit : ℕ → Bool
is_digit c = leb b'0' c && leb c b'9'

-- The loop of `readInt64` past its first digit: the value so far, and the text from `p` on.
read_digits : ℕ → Bytes → Option (ℕ × Bytes)
read_digits val [] = some (val, [])
read_digits val (c ∷ cs) =
    let more = read_digits (val * 10 + (c - 48)) cs in
    if is_digit c
    then (if ltb ((int64_max - (c - 48)) / 10) val then none else more)
    else some (val, c ∷ cs)

-- The loop runs at least once, and only on a digit.
read_magnitude : Bytes → Option (ℕ × Bytes)
unfolding read_digits
read_magnitude [] = none
read_magnitude (c ∷ cs) = if is_digit c then read_digits 0 (c ∷ cs) else none

negate : ℕ → ℤ
negate zero = pos 0
negate (suc n) = negsuc n

signed : Bool → Option (ℕ × Bytes) → Option (ℤ × Bytes)
unfolding negate
signed neg none = none
signed neg (some (val, rest)) = some (if neg then negate val else pos val, rest)

-- `readInt64`: the number, and the text behind it.
unfoldable pub read_int64 : Bytes → Option (ℤ × Bytes)
unfolding read_magnitude signed
read_int64 [] = none
read_int64 (c ∷ cs) =
    if c == b'-'
    then signed true (read_magnitude cs)
    else if c == b'+'
    then signed false (read_magnitude cs)
    else signed false (read_magnitude (c ∷ cs))

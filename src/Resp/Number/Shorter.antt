-- ===== src/Resp/Number/Shorter.antt =====
-- `readInt64` moves its pointer on by a byte at least.
use zero_frameworks.Base.{ℕ, ◌+◌, ◌-◌, ◌*◌, ◌≤◌, ◌<◌, [], ◌∷◌, arith, Option, none, some, length}
use zero_frameworks.Base.Bytes.{Bytes}
use zero_frameworks.Resp.Number.{read_int64, read_digits, read_magnitude, signed}

-- A number leaves a shorter text.
abbrev pub Shorter {ℓ} : {A : Type ℓ} → Bytes → Option (A × Bytes) → Type 0
Shorter text none = Unit {0}
Shorter text (some (n, rest)) = length rest < length text

abbrev NoLonger : Bytes → Option (ℕ × Bytes) → Type 0
NoLonger text none = Unit {0}
NoLonger text (some (n, rest)) = length rest ≤ length text

read_digits-NoLonger : (val : ℕ) (text : Bytes) → NoLonger text (read_digits val text)
unfolding read_digits
read_digits-NoLonger val [] = omega arith
read_digits-NoLonger val (c ∷ cs) = ground (arith, read_digits-NoLonger (val * 10 + (c - 48)) cs)

-- At the first digit the loop consumes it.
read_magnitude-Shorter : (text : Bytes) → Shorter text (read_magnitude text)
unfolding read_magnitude read_digits
read_magnitude-Shorter [] = tt
read_magnitude-Shorter (c ∷ cs) = ground (arith, read_digits-NoLonger (0 * 10 + (c - 48)) cs)

pub read_int64-Shorter : (text : Bytes) → Shorter text (read_int64 text)
unfolding read_int64 signed
read_int64-Shorter [] = tt
read_int64-Shorter (c ∷ cs) =
    ground (arith, read_magnitude-Shorter cs, read_magnitude-Shorter (c ∷ cs))

-- ===== src/Resp/Reader/Cuts.antt =====
-- Buffers that end inside a value.
use zero_frameworks.Base.{ℕ, ◌+◌, ◌≡◌, [], ◌∷◌, arith, some, length}
use zero_frameworks.Base.Bytes.{Bytes}
use zero_frameworks.Base.Int.{negsuc}
use zero_frameworks.Resp.{null_bulk}
use zero_frameworks.Resp.Number.{read_int64}
use zero_frameworks.Resp.Reader.{Memory, ok, parse_value, try_parse}

-- If a bulk string's header holds a negative length and exactly one more byte has arrived, the
-- reader answers with a null bulk string and consumes one byte more than the buffer holds.
pub try_parse_overrun :
    ⦃memory : Memory⦄ (k last : ℕ) (digits : Bytes)
    → read_int64 digits ≡ some (negsuc k, last ∷ [])
    → try_parse (b'$' ∷ digits) ≡ ok null_bulk (length (b'$' ∷ digits) + 1)
unfolding try_parse parse_value
try_parse_overrun k last digits h = rw h (ground arith)

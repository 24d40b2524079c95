-- ===== src/Examples/Http.antt =====
-- The theorems on HPACK at concrete inputs.
use zero_frameworks.Base.{◌≡◌, refl, [], ◌∷◌, arith}
use zero_frameworks.Base.Bytes.{codes, beq}
use zero_frameworks.Base.Assoc.{lookup, bytes_eq, Unique}
use zero_frameworks.Http.Hpack.{Headers, ok, encode, decode}
use zero_frameworks.Http.Hpack.RoundTrip.{decode-encode, Sized}
use zero_frameworks.Http.Hpack.Limits.{decode_index_lost}

-- A header of the static table, one with a name of the table, one with neither.
abbrev headers : Headers
headers =
    (codes ":method", codes "GET") ∷ (codes ":path", codes "/kv") ∷ (codes "trace", codes "a1") ∷ []

headers-Unique : Unique headers
unfolding lookup beq
headers-Unique = (refl, (refl, (refl, tt)))

headers-Sized : Sized headers
headers-Sized =
    (omega arith, omega arith, (omega arith, omega arith, (omega arith, omega arith, tt)))

decode-encode_example : decode (encode headers) [] ≡ ok headers []
decode-encode_example = decode-encode headers headers-Unique headers-Sized

decode_index_lost_example : decode (1 ∷ codes "a") [] ≡ decode (23 ∷ codes "a") []
decode_index_lost_example = decode_index_lost 1 23 4 (codes "a") [] refl refl

-- ===== src/Http/Hpack.antt =====
-- zero/http/hpack.cc: `HPack`, the header compression of HTTP/2. A position in the input is the text
-- from there on.
pub mod Table
pub mod Integer
pub mod RoundTrip
pub mod Limits
use zero_frameworks.Base.{
  ℕ, zero, suc, ◌+◌, ◌-◌, ◌*◌, ◌/◌, ◌%◌, ◌^◌, Bool, true, false, ◌||◌, List, [], ◌∷◌, ◌++◌,
  if◌then◌else◌, Option, none, some, ◌==◌, ltb, leb, length, take, drop, get_elem?,
}
use zero_frameworks.Base.Bytes.{Bytes}
use zero_frameworks.Base.Assoc.{Assoc, insert, bytes_eq}
use Table.{static_table, lookup_static_table}

abbrev pub uint32_count : ℕ
uint32_count = 2 ^ 32

-- The loop of `encodeInteger`. Five rounds shift a `uint32_t` to 0.
unfoldable pub encode_rest : ℕ → ℕ → Bytes
encode_rest zero value = value % 256 ∷ []
encode_rest (suc rounds) value =
    if leb 128 value then (value % 128 + 128) ∷ encode_rest rounds (value / 128) else value ∷ []

abbrev pub max_prefix : ℕ → ℕ
max_prefix prefix_bits = 2 ^ prefix_bits - 1

unfoldable pub encode_integer : ℕ → ℕ → Bytes
unfolding encode_rest
encode_integer value prefix_bits =
    if ltb value (max_prefix prefix_bits)
    then value ∷ []
    else max_prefix prefix_bits ∷ encode_rest 5 (value - max_prefix prefix_bits)

-- What a part of the decoder comes to: a value and the text that follows, a refusal, a read past the
-- end of the input (which C++ leaves undefined), or (in the model alone) no fuel left.
pub data Decoded (A : Type 0) : Type 0 where
  ok : A → Bytes → Decoded A
  refused : Decoded A
  overrun : Decoded A
  stuck : Decoded A

infixl 5 ◌>>=◌
abbrev pub ◌>>=◌ : {A B : Type 0} → Decoded A → (A → Bytes → Decoded B) → Decoded B
ok a rest >>= f = f a rest
refused >>= f = refused
overrun >>= f = overrun
stuck >>= f = stuck

-- The loop of `decodeInteger`, where `m` is the shift. Shifts of 32 and more, which C++ leaves
-- undefined, are taken to add nothing.
unfoldable pub decode_rest : ℕ → ℕ → Bytes → Decoded ℕ
decode_rest value m [] = ok value []
decode_rest value m (byte ∷ text) =
    let value' = (value + byte % 128 * 2 ^ m) % uint32_count in
    let later = decode_rest value' (m + 7) text in
    if byte / 128 % 2 == 0 then ok value' text else later

-- `decodeInteger`, which reads its first byte without a look at the length.
unfoldable pub decode_integer : ℕ → Bytes → Decoded ℕ
unfolding decode_rest
decode_integer prefix_bits [] = overrun
decode_integer prefix_bits (byte ∷ text) =
    let b = byte % 2 ^ prefix_bits in
    if ltb b (max_prefix prefix_bits) then ok b text else decode_rest b 0 text

-- `out[0] &= 0x7F`
abbrev pub clear_top : Bytes → Bytes
clear_top [] = []
clear_top (b ∷ bytes) = b % 128 ∷ bytes

-- `encodeStringLiteral`: the size is passed as a `uint32_t`.
unfoldable pub encode_string_literal : Bytes → Bytes
unfolding encode_integer
encode_string_literal str = clear_top (encode_integer (length str % uint32_count) 7) ++ str

-- `decodeStringLiteral`, past the length.
unfoldable pub literal_body : Bool → ℕ → Bytes → Decoded Bytes
literal_body huffman len text =
    if ltb (length text) len
    then refused
    else if huffman
    then refused
    else ok (take len text) (drop len text)

unfoldable pub decode_string_literal : Bytes → Decoded Bytes
unfolding decode_integer literal_body
decode_string_literal [] = refused
decode_string_literal (byte ∷ text) =
    decode_integer 7 (byte ∷ text) >>= literal_body (byte / 128 % 2 == 1)

abbrev pub Headers : Type 0
Headers = Assoc Bytes Bytes

-- `enc[0] |= 0x80`
abbrev pub set_top : Bytes → Bytes
set_top [] = []
set_top (b ∷ bytes) = (b % 128 + 128) ∷ bytes

-- One round of `encode`: an index into the table, or two literals.
unfoldable pub encode_header : Bytes → Bytes → Bytes
unfolding encode_integer encode_string_literal
encode_header name value =
    let idx = lookup_static_table name value in
    if ltb 0 idx
    then set_top (encode_integer idx 7)
    else 64 ∷ (encode_string_literal name ++ encode_string_literal value)

-- `encode`, on the headers in the order of their map.
unfoldable pub encode : Headers → Bytes
unfolding encode_header
encode [] = []
encode ((name, value) ∷ headers) = encode_header name value ++ encode headers

-- `idx == 0 || idx >= kStaticTableSize` refuses; else the row.
abbrev pub found_row : Option (Bytes × Bytes) → Bytes → Decoded (Bytes × Bytes)
found_row none text = refused
found_row (some row) text = ok row text

unfoldable pub table_row : ℕ → Bytes → Decoded (Bytes × Bytes)
table_row idx text = if idx == 0 then refused else found_row (get_elem? static_table idx) text

-- The name of a literal header, behind its first byte: an index is read from the bytes that follow,
-- if the first byte holds a part of one.
unfoldable pub literal_name : ℕ → ℕ → Bytes → Decoded Bytes
unfolding decode_integer table_row decode_string_literal
literal_name part prefix_bits text =
    if part == 0
    then decode_string_literal text
    else decode_integer prefix_bits text >>= table_row >>= λ row rest. ok row.0 rest

unfoldable pub literal_header : ℕ → ℕ → Bytes → Decoded (Bytes × Bytes)
unfolding literal_name decode_string_literal
literal_header part prefix_bits text = literal_name part prefix_bits text >>= λ name rest.
    (decode_string_literal rest >>= λ value later. ok (name, value) later)

-- One round of `decode`, from a first byte on.
unfoldable pub decode_header : ℕ → Bytes → Decoded (Bytes × Bytes)
unfolding literal_header decode_integer table_row
decode_header b text =
    if b / 128 % 2 == 1
    then decode_integer 7 (b ∷ text) >>= table_row
    else if b / 64 % 4 == 1
    then literal_header (b % 64) 6 text
    else if b / 16 % 16 == 0 || b / 16 % 16 == 1
    then literal_header (b % 16) 4 text
    else refused

-- The loop of `decode`; each round takes a byte at least.
unfoldable pub decode_from : ℕ → Bytes → Headers → Decoded Headers
unfolding decode_header
decode_from fuel [] headers = ok headers []
decode_from zero (b ∷ text) headers = stuck
decode_from (suc fuel) (b ∷ text) headers =
    decode_header b text >>= λ header rest. decode_from fuel rest (insert header.0 header.1 headers)

unfoldable pub decode : Bytes → Headers → Decoded Headers
decode text headers = decode_from (length text) text headers

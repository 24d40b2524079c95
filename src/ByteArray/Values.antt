-- ===== src/ByteArray/Values.antt =====
-- The numbers and texts of `ByteArray`: of a fixed length, of a variable length, and in zigzag order.
pub mod Numbers
pub mod RoundTrip
use zero_frameworks.Base.{
  ℕ, zero, suc, ◌+◌, ◌-◌, ◌*◌, ◌/◌, ◌%◌, ◌^◌, Bool, List, [], ◌∷◌, if◌then◌else◌, ◌==◌, ltb, leb,
  length, get_or, reverse,
}
use zero_frameworks.Base.Bytes.{Bytes}
use zero_frameworks.Base.Int.{ℤ, pos, negsuc}
use zero_frameworks.ByteArray.{ByteArray, Outcome, ok, ◌>>=◌, write, read}

-- The bytes of a number, the lowest first, and the number of such bytes.
unfoldable pub low_bytes : ℕ → ℕ → Bytes
low_bytes zero n = []
low_bytes (suc k) n = n % 256 ∷ low_bytes k (n / 256)

unfoldable pub of_low_bytes : Bytes → ℕ
of_low_bytes [] = 0
of_low_bytes (b ∷ bs) = b + 256 * of_low_bytes bs

-- `byteswap`, where the order of the array is not that of the machine, leaves the order of the array.
unfoldable pub in_order : Bool → Bytes → Bytes
in_order little_endian bytes = if little_endian then bytes else reverse bytes

-- `EncodeZigzag32` and `EncodeZigzag64`, by the number 2^(w-1) of their width.
unfoldable pub encode_zigzag : ℕ → ℤ → ℕ
encode_zigzag half (pos n) = n * 2 % (2 * half)
encode_zigzag half (negsuc n) = ((n + 1) * 2 - 1) % (2 * half)

-- `DecodeZigzag32` and `DecodeZigzag64`: `^ -(v & 1)` is nothing for an even number and the complement
-- for an odd one; the result is read as a signed number.
unfoldable pub decode_zigzag : ℕ → ℕ → ℤ
decode_zigzag half v =
    let bits = if v % 2 == 0 then v / 2 else 2 * half - 1 - v / 2 in
    if ltb bits half then pos bits else negsuc (2 * half - 1 - bits)

-- The groups of `writeUint32` and `writeUint64`, by the length of their buffer.
unfoldable pub groups : ℕ → ℕ → Bytes
groups zero v = []
groups (suc r) v = if leb 0x80 v then (v % 0x80 + 0x80) ∷ groups r (v / 0x80) else v ∷ []

module _ (found : ℕ → ℕ → ℕ) where
  -- `writeFuint8` to `writeFuint64`, by the length in bytes.
  unfoldable pub write_fixed : ℕ → ℕ → ByteArray → Outcome ByteArray
  unfolding low_bytes in_order write
  write_fixed k n a = write found (in_order a.little_endian (low_bytes k n)) a

  unfoldable pub write_uint32 : ℕ → ByteArray → Outcome ByteArray
  unfolding groups write
  write_uint32 v a = write found (groups 5 v) a

  unfoldable pub write_uint64 : ℕ → ByteArray → Outcome ByteArray
  unfolding groups write
  write_uint64 v a = write found (groups 10 v) a

  unfoldable pub write_int32 : ℤ → ByteArray → Outcome ByteArray
  unfolding encode_zigzag write_uint32
  write_int32 v a = write_uint32 (encode_zigzag (2 ^ 31) v) a

  unfoldable pub write_int64 : ℤ → ByteArray → Outcome ByteArray
  unfolding encode_zigzag write_uint64
  write_int64 v a = write_uint64 (encode_zigzag (2 ^ 63) v) a

  -- `writeStringF16`, `writeStringF32` and `writeStringF64`, by the length of the length.
  unfoldable pub write_string_fixed : ℕ → Bytes → ByteArray → Outcome ByteArray
  unfolding write_fixed write
  write_string_fixed k text a = do b ← write_fixed k (length text) a; write found text b

  unfoldable pub write_string_vint : Bytes → ByteArray → Outcome ByteArray
  unfolding write_uint64 write
  write_string_vint text a = do b ← write_uint64 (length text) a; write found text b

-- `readFuint8` to `readFuint64`
unfoldable pub read_fixed : ℕ → ByteArray → Outcome (ℕ × ByteArray)
unfolding of_low_bytes in_order read
read_fixed k a = do (bytes, b) ← read k a; ok (of_low_bytes (in_order a.little_endian bytes), b)

-- The loop of `readUint32` and `readUint64` on words of `w` bits. The shift is at least as large as
-- `result` is long, so `|=` adds.
unfoldable pub read_groups : ℕ → ℕ → ℕ → ℕ → ByteArray → Outcome (ℕ × ByteArray)
unfolding read
read_groups w zero shift result a = ok (result, a)
read_groups w (suc r) shift result a = do
  (bytes, b) ← read 1 a
  let byte = get_or bytes 0 0 in
      if ltb byte 0x80
      then ok (result + byte * 2 ^ shift % 2 ^ w, b)
      else read_groups w r (shift + 7) (result + byte % 0x80 * 2 ^ shift % 2 ^ w) b

unfoldable pub read_uint32 : ByteArray → Outcome (ℕ × ByteArray)
unfolding read_groups
read_uint32 a = read_groups 32 5 0 0 a

unfoldable pub read_uint64 : ByteArray → Outcome (ℕ × ByteArray)
unfolding read_groups
read_uint64 a = read_groups 64 10 0 0 a

unfoldable pub read_int32 : ByteArray → Outcome (ℤ × ByteArray)
unfolding read_uint32 decode_zigzag
read_int32 a = do (v, b) ← read_uint32 a; ok (decode_zigzag (2 ^ 31) v, b)

unfoldable pub read_int64 : ByteArray → Outcome (ℤ × ByteArray)
unfolding read_uint64 decode_zigzag
read_int64 a = do (v, b) ← read_uint64 a; ok (decode_zigzag (2 ^ 63) v, b)

unfoldable pub read_string_fixed : ℕ → ByteArray → Outcome (Bytes × ByteArray)
unfolding read_fixed read
read_string_fixed k a = do (n, b) ← read_fixed k a; read n b

unfoldable pub read_string_vint : ByteArray → Outcome (Bytes × ByteArray)
unfolding read_uint64 read
read_string_vint a = do (n, b) ← read_uint64 a; read n b

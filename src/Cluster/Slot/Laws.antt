-- ===== src/Cluster/Slot/Laws.antt =====
-- The table against the polynomial, the range of the slots, and keys that share a tag.
use Prim.Native.Nat.{bit_xor}
use zero_frameworks.Base.{
  ℕ, zero, suc, ◌+◌, ◌*◌, ◌/◌, ◌%◌, ◌^◌, ◌<◌, ◌≡◌, ◌≢◌, ◌↔◌, refl, ◌∙◌, ap, Bool, true, false, not,
  ◌&&◌, ◌||◌, [], ◌∷◌, ◌++◌, if◌then◌else◌, some, ◌==◌, ==_iff, leb, get_or, drop, length, All,
  arith, take-length-append,
}
use zero_frameworks.Base.Bytes.{Bytes}
use zero_frameworks.Base.Table.{all_below, all_below_sound}
use zero_frameworks.Cluster.Slot.{
  cluster_slot_count, crc16_table, crc16_from, crc16, find_byte, closed_at, opened_at, hashed_part,
  key_to_slot,
}

-- One step of the division by x^16 + x^12 + x^5 + 1, on a register of 16 bits.
unfoldable pub divide : ℕ → ℕ
divide r = if leb (2 ^ 15) r then bit_xor (r * 2) 4129 % 2 ^ 16 else r * 2

unfoldable pub divide_times : ℕ → ℕ → ℕ
divide_times zero r = r
divide_times (suc n) r = divide_times n (divide r)

-- The checksum without a table: each byte is divided out bit by bit.
unfoldable pub reference_from : ℕ → Bytes → ℕ
reference_from crc [] = crc
reference_from crc (c ∷ bytes) =
    reference_from
      (bit_xor (crc * 256) (divide_times 8 (bit_xor (crc / 256) c % 256 * 256)) % 2 ^ 16) bytes

wrong : ℕ → Bool
wrong i = i == 202 || i == 203

matches : ℕ → Bool
matches i = get_or crc16_table i 0 == divide_times 8 (i * 256)

flip_test : {a b : Bool} → a ≡ not b → a ≡ true → b ≡ false
flip_test h t = ground arith

right_where_due : ℕ → Bool
unfolding wrong matches
right_where_due i = if wrong i then not (matches i) else matches i

all_checked : (i : ℕ) → i < 256 → right_where_due i ≡ true
unfolding all_below divide_times divide right_where_due
all_checked i h = all_below_sound 256 right_where_due i refl h

matches_iff : (i : ℕ) → (matches i ≡ true) ↔ (get_or crc16_table i 0 ≡ divide_times 8 (i * 256))
unfolding matches
matches_iff i = ==_iff (get_or crc16_table i 0) (divide_times 8 (i * 256))

matches-wrong : (i : ℕ) → i < 256 → matches i ≡ not (wrong i)
unfolding right_where_due
matches-wrong i h = ground (arith, all_checked i h)

wrong_iff : (i : ℕ) → (wrong i ≡ false) ↔ ((i ≢ 202) × (i ≢ 203))
unfolding wrong
wrong_iff i = ground arith

-- Of the 256 entries of the table all but two are the remainder of their index under the polynomial
-- 0x1021: the entries 202 and 203 are not.
pub table_entry_iff :
    (i : ℕ)
    → i < 256
    → (get_or crc16_table i 0 ≡ divide_times 8 (i * 256)) ↔ ((i ≢ 202) × (i ≢ 203))
table_entry_iff i h = (
  λ right. (wrong_iff i).0 (flip_test (matches-wrong i h) ((matches_iff i).1 right)),
  λ clear. (matches_iff i).0 (matches-wrong i h ∙ ap not ((wrong_iff i).1 clear)),
)

-- Whether the loop on a text, from a register, stays clear of the two wrong entries.
unfoldable pub avoids : ℕ → Bytes → Bool
unfolding wrong
avoids crc [] = true
avoids crc (c ∷ bytes) =
    not (wrong (bit_xor (crc / 256) c % 256))
    && avoids (bit_xor (crc * 256) (divide_times 8 (bit_xor (crc / 256) c % 256 * 256)) % 2 ^ 16)
        bytes

next_register :
    (crc c : ℕ)
    → wrong (bit_xor (crc / 256) c % 256) ≡ false
    → get_or crc16_table (bit_xor (crc / 256) c % 256) 0
      ≡ divide_times 8 (bit_xor (crc / 256) c % 256 * 256)
unfolding wrong
next_register crc c clear =
    (table_entry_iff (bit_xor (crc / 256) c % 256) (omega arith)).1 (ground arith)

crc16_from-reference :
    (bytes : Bytes) (crc : ℕ)
    → avoids crc bytes ≡ true
    → crc16_from crc bytes ≡ reference_from crc bytes
unfolding crc16_from reference_from avoids
crc16_from-reference [] crc clear = refl
crc16_from-reference (c ∷ bytes) crc clear =
    rw (next_register crc c (ground arith)) (crc16_from-reference bytes _ (ground arith))

-- On a text that stays clear of those two entries `crc16` is the CRC-16 of XMODEM, worked out bit by
-- bit.
pub crc16_xmodem : (bytes : Bytes) → avoids 0 bytes ≡ true → crc16 bytes ≡ reference_from 0 bytes
unfolding crc16
crc16_xmodem bytes clear = crc16_from-reference bytes 0 clear

absent_then :
    (c : ℕ) (xs ys : Bytes) → All (λ x. x ≢ c) xs → find_byte c (xs ++ c ∷ ys) ≡ some (length xs)
unfolding find_byte
absent_then c [] ys h = ground (arith, ==_iff c c)
absent_then c (x ∷ xs) ys h = ground (arith, ==_iff x c, absent_then c xs ys h.1)

same_count : (n : ℕ) → suc n + 1 ≡ suc (n + 1)
same_count n = omega arith

drop_past : (c : ℕ) (xs ys : Bytes) → drop (length xs + 1) (xs ++ c ∷ ys) ≡ ys
drop_past c [] ys = refl
drop_past c (x ∷ xs) ys =
    ap (λ n. drop n (x ∷ xs ++ c ∷ ys)) (same_count (length xs)) ∙ drop_past c xs ys

tag_part :
    (before tag after : Bytes)
    → All (λ x. x ≢ 123) before
    → All (λ x. x ≢ 125) tag
    → 0 < length tag
    → hashed_part (before ++ 123 ∷ (tag ++ 125 ∷ after)) ≡ tag
unfolding hashed_part opened_at closed_at
tag_part before tag after opened closed some_tag =
    rw (absent_then 123 before (tag ++ 125 ∷ after) opened, hashed_part)
      (rw (drop_past 123 before (tag ++ 125 ∷ after), opened_at)
        (rw (absent_then 125 tag after closed) (
          ground (
            arith,
            drop_past 123 before (tag ++ 125 ∷ after),
            take-length-append tag (125 ∷ after),
          ))))

-- Every slot is below 16384, and a key with a non-empty tag in its first pair of braces has the slot of
-- the tag's checksum, whatever stands round the braces: keys with the same tag share a slot.
pub key_to_slot_tag :
    (before tag after : Bytes)
    → All (λ x. x ≢ 123) before
    → All (λ x. x ≢ 125) tag
    → 0 < length tag
    → (key_to_slot (before ++ 123 ∷ (tag ++ 125 ∷ after)) ≡ crc16 tag % cluster_slot_count)
      × ((key : Bytes) → key_to_slot key < cluster_slot_count)
unfolding key_to_slot
key_to_slot_tag before tag after opened closed some_tag =
    (rw (tag_part before tag after opened closed some_tag) refl, λ key. omega arith)

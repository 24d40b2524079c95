-- ===== src/Examples/ByteArray.antt =====
-- The theorems on `ByteArray` at concrete inputs: blocks of four bytes.
use zero_frameworks.Base.{
  ℕ, ◌≡◌, refl, false, List, [], ◌∷◌, if◌then◌else◌, ◌==◌, take, drop, arith,
}
use zero_frameworks.Base.Bytes.{codes}
use zero_frameworks.Base.Int.{negsuc}
use zero_frameworks.ByteArray.{
  ByteArray, ok, out_of_range, null_pointer, write, read, set_position, to_string,
}
use zero_frameworks.ByteArray.Flat.{WellFormed, text}
use zero_frameworks.ByteArray.Write.{Wrote, write-Wrote}
use zero_frameworks.ByteArray.Edges.{read-AtEnd, to_string_rest}
use zero_frameworks.ByteArray.Values.RoundTrip.{Value, write_all, read_all, read_all-write_all}

abbrev zeros : ℕ → ℕ → ℕ
zeros i j = 0

-- Six bytes in two blocks, with the position behind the second byte.
abbrev array : ByteArray
array = record {
  base_size = 4;
  position = 2;
  capacity = 8;
  size = 6;
  little_endian = false;
  nodes = codes "abcd" ∷ codes "ef--" ∷ [];
  cur = 0;
}

array-WellFormed : WellFormed array
array-WellFormed = record {
  some_bytes = omega arith;
  sized = (refl, (refl, tt));
  some_nodes = omega arith;
  all = refl;
  bounded = omega arith;
  reached = omega arith;
  off = 2;
  within = omega arith;
  place = refl;
  known = omega arith;
}

abbrev full : ByteArray
full = record array { position = 8; size = 8; cur = 2 }

full-WellFormed : WellFormed full
full-WellFormed = record {
  some_bytes = omega arith;
  sized = (refl, (refl, tt));
  some_nodes = omega arith;
  all = refl;
  bounded = omega arith;
  reached = omega arith;
  off = 0;
  within = omega arith;
  place = refl;
  known = omega arith;
}

abbrev values : List Value
values =
    Value.fixed 2 513
    ∷ Value.uint32 300
    ∷ Value.int64 (negsuc 200)
    ∷ Value.string_vint (codes "zero")
    ∷ []

read_all-write_all_example :
    (b c d : ByteArray) × (write_all zeros values array ≡ ok b)
    × (set_position 2 b ≡ ok c)
    × (read_all values c ≡ ok (values, d))
read_all-write_all_example =
    read_all-write_all zeros values array array-WellFormed
      ((omega arith, omega arith), (omega arith, (omega arith, ((omega arith, omega arith), tt))))

write-Wrote_example :
    (b : ByteArray) × (write zeros (codes "0123456789") array ≡ ok b)
    × Wrote array (codes "0123456789") b
write-Wrote_example = write-Wrote zeros (codes "0123456789") array array-WellFormed

read-AtEnd_example : read 0 full ≡ (if 0 == 0 then null_pointer else out_of_range)
read-AtEnd_example = read-AtEnd full full-WellFormed 0 refl

to_string_rest_example : to_string array ≡ ok (take 4 (drop 2 (text array)))
to_string_rest_example = to_string_rest array array-WellFormed (omega arith)

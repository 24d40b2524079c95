-- ===== src/ByteArray/Values/RoundTrip.antt =====
-- A sequence of values that is written to a `ByteArray` and read back from where it starts.
use zero_frameworks.Base.{
  ℕ, ◌^◌, ◌<◌, ◌≡◌, refl, sym, ◌∙◌, ap, Bool, List, [], ◌∷◌, ◌++◌, length, arith, subst,
  append_assoc, append-nil, All,
}
use zero_frameworks.Base.Bytes.{Bytes}
use zero_frameworks.Base.Int.{ℤ}
use zero_frameworks.ByteArray.{ByteArray, Outcome, ok, ◌>>=◌, read, write, set_position}
use zero_frameworks.ByteArray.Flat.{WellFormed}
use zero_frameworks.ByteArray.Progress.{
  Behind, Ahead, start-Behind, write-Behind, set_position-Ahead, read-Ahead,
}
use zero_frameworks.ByteArray.Values.{
  low_bytes, of_low_bytes, in_order, encode_zigzag, decode_zigzag, groups, write_fixed,
  write_uint32, write_uint64, write_int32, write_int64, write_string_fixed, write_string_vint,
  read_fixed, read_uint32, read_uint64, read_int32, read_int64, read_string_fixed, read_string_vint,
}
use zero_frameworks.ByteArray.Values.Numbers.{
  IsWord, decode_zigzag-encode_zigzag, encode_zigzag_bound, length-low_bytes,
  of_low_bytes-low_bytes, length-in_order, in_order-in_order, read_groups-Ahead,
}

-- What can be written; `fixed k` and `string_fixed k` take `k` bytes for the number or the length.
pub data Value : Type 0 where
  fixed : ℕ → ℕ → Value
  uint32 uint64 : ℕ → Value
  int32 int64 : ℤ → Value
  string_fixed : ℕ → Bytes → Value
  string_vint : Bytes → Value

-- The values that fit. The texts are not empty.
abbrev pub Fits : Value → Type 0
Fits (Value.fixed k n) = (0 < k) × (n < 256 ^ k)
Fits (Value.uint32 n) = n < 2 ^ 32
Fits (Value.uint64 n) = n < 2 ^ 64
Fits (Value.int32 v) = IsWord (2 ^ 31) v
Fits (Value.int64 v) = IsWord (2 ^ 63) v
Fits (Value.string_fixed k text) = (0 < k) × (0 < length text) × (length text < 256 ^ k)
Fits (Value.string_vint text) = (0 < length text) × (length text < 2 ^ 64)

unfoldable pub write_value : (ℕ → ℕ → ℕ) → Value → ByteArray → Outcome ByteArray
write_value found (Value.fixed k n) a = write_fixed found k n a
write_value found (Value.uint32 n) a = write_uint32 found n a
write_value found (Value.uint64 n) a = write_uint64 found n a
write_value found (Value.int32 v) a = write_int32 found v a
write_value found (Value.int64 v) a = write_int64 found v a
write_value found (Value.string_fixed k text) a = write_string_fixed found k text a
write_value found (Value.string_vint text) a = write_string_vint found text a

-- The read that goes with the write of a value: only the kind of the value is looked at.
unfoldable pub read_value : Value → ByteArray → Outcome (Value × ByteArray)
read_value (Value.fixed k _) a = do (n, b) ← read_fixed k a; ok (Value.fixed k n, b)
read_value (Value.uint32 _) a = do (n, b) ← read_uint32 a; ok (Value.uint32 n, b)
read_value (Value.uint64 _) a = do (n, b) ← read_uint64 a; ok (Value.uint64 n, b)
read_value (Value.int32 _) a = do (v, b) ← read_int32 a; ok (Value.int32 v, b)
read_value (Value.int64 _) a = do (v, b) ← read_int64 a; ok (Value.int64 v, b)
read_value (Value.string_fixed k _) a = do
  (text, b) ← read_string_fixed k a
  ok (Value.string_fixed k text, b)
read_value (Value.string_vint _) a = do
  (text, b) ← read_string_vint a
  ok (Value.string_vint text, b)

-- The bytes of a value.
bytes_of : Bool → Value → Bytes
bytes_of little (Value.fixed k n) = in_order little (low_bytes k n)
bytes_of little (Value.uint32 n) = groups 5 n
bytes_of little (Value.uint64 n) = groups 10 n
bytes_of little (Value.int32 v) = groups 5 (encode_zigzag (2 ^ 31) v)
bytes_of little (Value.int64 v) = groups 10 (encode_zigzag (2 ^ 63) v)
bytes_of little (Value.string_fixed k text) = in_order little (low_bytes k (length text)) ++ text
bytes_of little (Value.string_vint text) = groups 10 (length text) ++ text

module _ (found : ℕ → ℕ → ℕ) (little : Bool) (start : ℕ) where
  Writes : (ByteArray → Outcome ByteArray) → Bytes → Type 0
  Writes f bytes =
      (a : ByteArray) (sofar : Bytes)
      → Behind little start a sofar
      → (b : ByteArray) × (f a ≡ ok b) × Behind little start b (sofar ++ bytes)

  write_text : (text : Bytes) → Writes (write found text) text
  unfolding Writes
  write_text text a sofar s = write-Behind little found start a sofar text s

  write_then :
      (f g : ByteArray → Outcome ByteArray) (xs ys : Bytes)
      → Writes f xs
      → Writes g ys
      → Writes (λ a. f a >>= g) (xs ++ ys)
  unfolding Writes
  write_then f g xs ys first second a sofar s =
      let (b, done, t) = first a sofar s in
      let (c, done', u) = second b (sofar ++ xs) t in
      (
        c,
        ap (λ o. o >>= g) done ∙ done',
        subst (Behind little start c) (append_assoc sofar xs ys) u,
      )

  write_number : (k n : ℕ) → Writes (write_fixed found k n) (in_order little (low_bytes k n))
  unfolding Writes write_fixed
  write_number k n a sofar s =
      let (b, done, t) = write_text (in_order little (low_bytes k n)) a sofar s in
      (b, ap (λ order. write found (in_order order (low_bytes k n)) a) s.order ∙ done, t)

  write_value-Writes : (v : Value) → Writes (write_value found v) (bytes_of little v)
  unfolding write_value bytes_of write_uint32 write_uint64 write_int32 write_int64
      write_string_fixed write_string_vint
  write_value-Writes (Value.fixed k n) = write_number k n
  write_value-Writes (Value.uint32 n) = write_text (groups 5 n)
  write_value-Writes (Value.uint64 n) = write_text (groups 10 n)
  write_value-Writes (Value.int32 v) = write_text (groups 5 (encode_zigzag (2 ^ 31) v))
  write_value-Writes (Value.int64 v) = write_text (groups 10 (encode_zigzag (2 ^ 63) v))
  write_value-Writes (Value.string_fixed k text) =
      write_then _ _ _ _ (write_number k (length text)) (write_text text)
  write_value-Writes (Value.string_vint text) =
      write_then _ _ _ _ (write_text (groups 10 (length text))) (write_text text)

module _ (little : Bool) where
  Reads : {A : Type 0} → (ByteArray → Outcome (A × ByteArray)) → A → Bytes → Type 0
  Reads f value bytes =
      (a : ByteArray) (later : Bytes)
      → Ahead little a (bytes ++ later)
      → (b : ByteArray) × (f a ≡ ok (value, b)) × Ahead little b later

  read_then :
      {A B : Type 0} (f : ByteArray → Outcome (A × ByteArray))
      (g : A → ByteArray → Outcome (B × ByteArray)) (x : A) (y : B) (xs ys : Bytes)
      → Reads f x xs
      → Reads (g x) y ys
      → Reads (λ a. f a >>= λ (x, b). g x b) y (xs ++ ys)
  unfolding Reads
  read_then f g x y xs ys first second a later s =
      let (b, done, t) =
        first a (ys ++ later) (subst (Ahead little a) (append_assoc xs ys later) s) in
      let (c, done', u) = second b later t in (c, ap (λ o. o >>= λ (x, b). g x b) done ∙ done', u)

  read_as :
      {A B : Type 0} (f : ByteArray → Outcome (A × ByteArray)) (g : A → B) (x : A) (bytes : Bytes)
      → Reads f x bytes
      → Reads (λ a. f a >>= λ (x, b). ok (g x, b)) (g x) bytes
  unfolding Reads
  read_as f g x bytes first a later s =
      let (b, done, t) = first a later s in (b, ap (λ o. o >>= λ (x, b). ok (g x, b)) done, t)

  read_number :
      (k n : ℕ) → 0 < k → n < 256 ^ k → Reads (read_fixed k) n (in_order little (low_bytes k n))
  unfolding Reads read_fixed
  read_number k n some_bytes small a later s =
      let bytes = in_order little (low_bytes k n) in
      let long : length bytes ≡ k = length-in_order little (low_bytes k n) ∙ length-low_bytes k n in
      let (b, done, t) = read-Ahead little a bytes later s (omega (arith, long, some_bytes)) in
      (
        b,
        ap (λ o. o >>= λ (bs, c). ok (of_low_bytes (in_order a.little_endian bs), c))
              (ap (λ m. read m a) (sym long) ∙ done)
            ∙ ap (λ m. ok (m, b))
                (ap (λ order. of_low_bytes (in_order order bytes)) s.order
                  ∙ ap of_low_bytes (in_order-in_order little (low_bytes k n))
                  ∙ of_low_bytes-low_bytes k n small),
        t,
      )

  read_text : (text : Bytes) → 0 < length text → Reads (read (length text)) text text
  unfolding Reads
  read_text text some_bytes a later s = read-Ahead little a text later s some_bytes

  read_word32 : (n : ℕ) → n < 2 ^ 32 → Reads read_uint32 n (groups 5 n)
  unfolding Reads read_uint32
  read_word32 n small a later s =
      let (b, done, t) =
        read_groups-Ahead little 32 5 0 0 n a later (omega (arith, small)) (omega (arith, small))
          s in
      (b, done ∙ ap (λ m. ok (m, b)) (omega arith), t)

  read_word64 : (n : ℕ) → n < 2 ^ 64 → Reads read_uint64 n (groups 10 n)
  unfolding Reads read_uint64
  read_word64 n small a later s =
      let (b, done, t) =
        read_groups-Ahead little 64 10 0 0 n a later (omega (arith, small)) (omega (arith, small))
          s in
      (b, done ∙ ap (λ m. ok (m, b)) (omega arith), t)

  read_signed32 :
      (v : ℤ) → IsWord (2 ^ 31) v → Reads read_int32 v (groups 5 (encode_zigzag (2 ^ 31) v))
  unfolding read_int32
  read_signed32 v small =
      let code = encode_zigzag (2 ^ 31) v in
      subst (λ x. Reads read_int32 x (groups 5 code)) (decode_zigzag-encode_zigzag (2 ^ 31) v small)
        (read_as read_uint32 (decode_zigzag (2 ^ 31)) code (groups 5 code)
          (read_word32 code (omega (arith, encode_zigzag_bound (2 ^ 31) v small))))

  read_signed64 :
      (v : ℤ) → IsWord (2 ^ 63) v → Reads read_int64 v (groups 10 (encode_zigzag (2 ^ 63) v))
  unfolding read_int64
  read_signed64 v small =
      let code = encode_zigzag (2 ^ 63) v in
      subst (λ x. Reads read_int64 x (groups 10 code))
        (decode_zigzag-encode_zigzag (2 ^ 63) v small)
        (read_as read_uint64 (decode_zigzag (2 ^ 63)) code (groups 10 code)
          (read_word64 code (omega (arith, encode_zigzag_bound (2 ^ 63) v small))))

  -- Each value is read back from its bytes.
  read_value-Reads : (v : Value) → Fits v → Reads (read_value v) v (bytes_of little v)
  unfolding read_value bytes_of read_int32 read_int64 read_string_fixed read_string_vint
  read_value-Reads (Value.fixed k n) (some_bytes, small) =
      read_as (read_fixed k) (Value.fixed k) n _ (read_number k n some_bytes small)
  read_value-Reads (Value.uint32 n) small =
      read_as read_uint32 Value.uint32 n _ (read_word32 n small)
  read_value-Reads (Value.uint64 n) small =
      read_as read_uint64 Value.uint64 n _ (read_word64 n small)
  read_value-Reads (Value.int32 v) small =
      read_as read_int32 Value.int32 v _ (read_signed32 v small)
  read_value-Reads (Value.int64 v) small =
      read_as read_int64 Value.int64 v _ (read_signed64 v small)
  read_value-Reads (Value.string_fixed k text) (some_bytes, some_text, small) =
      read_as (read_string_fixed k) (Value.string_fixed k) text _ (
        read_then (read_fixed k) read (length text) text _ text
          (read_number k (length text) some_bytes small) (read_text text some_text))
  read_value-Reads (Value.string_vint text) (some_text, small) =
      read_as read_string_vint Value.string_vint text _ (
        read_then read_uint64 read (length text) text _ text (read_word64 (length text) small)
          (read_text text some_text))

unfoldable pub write_all : (ℕ → ℕ → ℕ) → List Value → ByteArray → Outcome ByteArray
unfolding write_value
write_all found [] a = ok a
write_all found (v ∷ vs) a = write_value found v a >>= write_all found vs

unfoldable pub read_all : List Value → ByteArray → Outcome (List Value × ByteArray)
unfolding read_value
read_all [] a = ok ([], a)
read_all (v ∷ vs) a = do (x, b) ← read_value v a; (xs, c) ← read_all vs b; ok (x ∷ xs, c)

bytes_of_all : Bool → List Value → Bytes
bytes_of_all little [] = []
bytes_of_all little (v ∷ vs) = bytes_of little v ++ bytes_of_all little vs

write_all-Writes :
    (found : ℕ → ℕ → ℕ) (little : Bool) (start : ℕ) (vs : List Value)
    → Writes found little start (write_all found vs) (bytes_of_all little vs)
unfolding write_all bytes_of_all Writes
write_all-Writes found little start [] a sofar s =
    (a, refl, subst (Behind little start a) (sym (append-nil sofar)) s)
write_all-Writes found little start (v ∷ vs) a sofar s =
    write_then found little start _ _ _ _ (write_value-Writes found little start v)
      (write_all-Writes found little start vs) a sofar s

read_all-Reads :
    (little : Bool) (vs : List Value)
    → All Fits vs
    → Reads little (read_all vs) vs (bytes_of_all little vs)
unfolding read_all bytes_of_all Reads
read_all-Reads little [] fit a later s = (a, refl, s)
read_all-Reads little (v ∷ vs) (fits, fit) a later s =
    read_then little (read_value v) (λ x b. read_all vs b >>= λ (xs, c). ok (x ∷ xs, c)) v (v ∷ vs)
      _ _ (read_value-Reads little v fits)
      (read_as little (read_all vs) (◌∷◌ v) vs _ (read_all-Reads little vs fit)) a later s

-- Values that fit and are written one after the other to an array that keeps the invariant are read
-- back in order from the position where the writing started, whatever the size of the blocks, the
-- order of the bytes and what the array held. The texts among them are not empty.
pub read_all-write_all :
    (found : ℕ → ℕ → ℕ) (vs : List Value) (a : ByteArray)
    → WellFormed a
    → All Fits vs
    → (b c d : ByteArray) × (write_all found vs a ≡ ok b)
      × (set_position a.position b ≡ ok c)
      × (read_all vs c ≡ ok (vs, d))
unfolding Writes Reads
read_all-write_all found vs a w fit =
    let little = a.little_endian in
    let (b, written, s) = write_all-Writes found little a.position vs a [] (start-Behind a w) in
    let (c, moved, t) = set_position-Ahead little a.position b (bytes_of_all little vs) s in
    let (d, taken, _) =
      read_all-Reads little vs fit c []
        (subst (Ahead little c) (sym (append-nil (bytes_of_all little vs))) t) in
    (b, c, d, written, moved, taken)

-- ===== src/Http/Hpack/RoundTrip.antt =====
-- Header lists read back what was encoded.
use zero_frameworks.Base.{
  ℕ, zero, suc, ◌+◌, ◌/◌, ◌%◌, ◌≤◌, ◌<◌, ◌≡◌, refl, ◌∙◌, ap, sym, true, ◌&&◌, List, [], ◌∷◌, ◌++◌,
  if◌then◌else◌, Option, none, some, ltb, length, get_elem?, arith, Bool-cases, inl, inr, ◌⊎◌,
  append_assoc, append-nil, length-append,
}
use zero_frameworks.Base.Bytes.{Bytes, beq, beq_iff}
use zero_frameworks.Base.Assoc.{Unique, insert, lookup, bytes_eq}
use zero_frameworks.Http.Hpack.{
  uint32_count, encode_integer, encode_string_literal, ok, Headers, set_top, encode_header, encode,
  table_row, literal_name, literal_header, decode_integer, decode_header, decode_from, decode,
}
use zero_frameworks.Http.Hpack.Table.{static_table, without_first, row_of, lookup_static_table}
use zero_frameworks.Http.Hpack.Integer.{
  decode_integer-encode_integer, decode_integer_top, encode_integer_head,
  decode_string_literal-encode,
}

found_here :
    (n v name value : Bytes)
    → (beq name n && beq value v) ≡ true
    → ◌≡◌ {A = Option (Bytes × Bytes)} (some (n, v)) (some (name, value))
found_here n v name value same = ground (arith, beq_iff name n, beq_iff value v)

-- A row that is found holds the header.
row_of-get_elem? :
    (i : ℕ) (rows : List (Bytes × Bytes)) (name value : Bytes)
    → 0 < i
    → (row_of i rows name value ≡ 0)
      ⊎ ((j : ℕ) × (row_of i rows name value ≡ i + j) × (get_elem? rows j ≡ some (name, value)))
unfolding row_of
row_of-get_elem? i [] name value h = inl refl
row_of-get_elem? i ((n, v) ∷ rows) name value h = elim (Bool-cases (beq name n && beq value v)) [
  | inl same ↦ inr (0, rw same (omega arith), found_here n v name value same)
  | inr other ↦ elim (row_of-get_elem? (suc i) rows name value (omega arith)) [
    | inl none_there ↦ inl (rw other none_there)
    | inr (j, at, there) ↦ inr (suc j, rw other (at ∙ omega arith), there)
  ]
]

get_elem?-lt {ℓ} :
    {A : Type ℓ} (xs : List A) (i : ℕ) (x : A) → get_elem? xs i ≡ some x → i < length xs
get_elem?-lt [] i x h = cc
get_elem?-lt (y ∷ ys) zero x h = omega arith
get_elem?-lt (y ∷ ys) (suc i) x h = omega (arith, get_elem?-lt ys i x h)

one_more : (j : ℕ) → 1 + j ≡ suc j
one_more j = omega arith

rows : List (Bytes × Bytes)
unfolding without_first
rows = without_first static_table

row_after_first :
    (j : ℕ) (row : Bytes × Bytes)
    → get_elem? rows j ≡ some row
    → (get_elem? static_table (1 + j) ≡ some row) × (1 + j < 62)
unfolding rows
row_after_first j row h =
    (ap (get_elem? static_table) (one_more j) ∙ h, omega (arith, get_elem?-lt rows j row h))

read_index :
    (idx b : ℕ) (bytes rest : Bytes) (row : Bytes × Bytes)
    → decode_integer 7 (b ∷ bytes ++ rest) ≡ ok idx rest
    → b < 128
    → 0 < idx
    → get_elem? static_table idx ≡ some row
    → decode_header (b % 128 + 128) (bytes ++ rest) ≡ ok row rest
unfolding decode_header table_row
read_index idx b bytes rest row read small some_row there =
    let top : (b % 128 + 128) / 128 % 2 ≡ 1 = omega arith in
    rw (top, decode_header) (rw (decode_integer_top b bytes rest, read) (ground (arith, there)))

read_literals :
    (name value rest : Bytes)
    → length name < uint32_count
    → length value < uint32_count
    → decode_header 64 (encode_string_literal name ++ (encode_string_literal value ++ rest))
      ≡ ok (name, value) rest
unfolding decode_header literal_header literal_name
read_literals name value rest h k =
    rw (decode_string_literal-encode name (encode_string_literal value ++ rest) h)
      (rw (decode_string_literal-encode value rest k) refl)

literal_row :
    (name value : Bytes) → row_of 1 rows name value ≡ 0 → lookup_static_table name value ≡ 0
unfolding lookup_static_table rows
literal_row name value h = h

index_row :
    (name value : Bytes) (j : ℕ)
    → row_of 1 rows name value ≡ 1 + j
    → lookup_static_table name value ≡ 1 + j
unfolding lookup_static_table rows
index_row name value j h = h

-- One header of the encoder's text, and what the decoder makes of it.
record OneRound (name value rest : Bytes) : Type 0 where
  first : ℕ
  others : Bytes
  written : encode_header name value ≡ first ∷ others
  reads : decode_header first (others ++ rest) ≡ ok (name, value) rest

positive : (j : ℕ) → ltb 0 (1 + j) ≡ true
positive j = ground arith

header_of_index :
    (name value : Bytes) (j : ℕ)
    → lookup_static_table name value ≡ 1 + j
    → encode_header name value ≡ set_top (encode_integer (1 + j) 7)
unfolding encode_header
header_of_index name value j at = rw (at, encode_header) (rw (positive j) refl)

indexed :
    (name value rest : Bytes) (j b : ℕ) (bytes : Bytes)
    → lookup_static_table name value ≡ 1 + j
    → get_elem? rows j ≡ some (name, value)
    → encode_integer (1 + j) 7 ≡ b ∷ bytes
    → b < 128
    → OneRound name value rest
indexed name value rest j b bytes at there written small =
    let (row, fits) = row_after_first j (name, value) there in
    record {
      first = b % 128 + 128;
      others = bytes;
      written = header_of_index name value j at ∙ ap set_top written;
      reads =
          read_index (1 + j) b bytes rest (name, value)
            (rw written at (decode_integer-encode_integer (1 + j) rest (omega arith))) small
            (omega arith) row;
    }

one_round :
    (name value rest : Bytes)
    → length name < uint32_count
    → length value < uint32_count
    → OneRound name value rest
unfolding encode_header rows
one_round name value rest h k = elim (row_of-get_elem? 1 rows name value (omega arith)) [
  | inl absent ↦ record {
    first = 64;
    others = encode_string_literal name ++ encode_string_literal value;
    written = rw (literal_row name value absent) refl;
    reads =
        rw (append_assoc (encode_string_literal name) (encode_string_literal value) rest)
          (read_literals name value rest h k);
  }
  | inr (j, at, there) ↦
      let (b, bytes, written, small) = encode_integer_head (1 + j) in
      indexed name value rest j b bytes (index_row name value j at) there written small
]

-- Every name and value has a length that fits `uint32_t`.
abbrev pub Sized : Headers → Type 0
Sized [] = Unit {0}
Sized ((name, value) ∷ headers) =
    (length name < uint32_count) × (length value < uint32_count) × Sized headers

-- The assignments `headers[name] = value`, one after the other.
unfoldable pub insert_all : Headers → Headers → Headers
insert_all [] acc = acc
insert_all ((name, value) ∷ headers) acc = insert_all headers (insert name value acc)

decode_from-step :
    (fuel first : ℕ) (text rest name value : Bytes) (acc : Headers)
    → decode_header first text ≡ ok (name, value) rest
    → decode_from (suc fuel) (first ∷ text) acc ≡ decode_from fuel rest (insert name value acc)
unfolding decode_from
decode_from-step fuel first text rest name value acc read = rw read refl

decode_from-encode :
    (headers acc : Headers) (fuel : ℕ)
    → Sized headers
    → length (encode headers) ≤ fuel
    → decode_from fuel (encode headers) acc ≡ ok (insert_all headers acc) []
unfolding encode insert_all
decode_from-encode [] acc fuel sized enough = unfold decode_from in refl
decode_from-encode ((name, value) ∷ headers) acc zero sized enough =
    let r = one_round name value (encode headers) sized.0 sized.1 in
    absurd (
      omega (arith, ap length r.written, length-append (encode_header name value) (encode headers)))
decode_from-encode ((name, value) ∷ headers) acc (suc fuel) sized enough =
    let r = one_round name value (encode headers) sized.0 sized.1 in
    let size = ap length r.written in
    rw r.written (
      decode_from-step fuel r.first (r.others ++ encode headers) (encode headers) name value acc
        r.reads
      ∙ decode_from-encode headers (insert name value acc) fuel sized.2
          (omega (arith, size, length-append (encode_header name value) (encode headers))))

insert-absent :
    (name value : Bytes) (acc : Headers)
    → lookup name acc ≡ none
    → insert name value acc ≡ acc ++ (name, value) ∷ []
unfolding insert lookup
insert-absent name value [] h = refl
insert-absent name value ((n, v) ∷ acc) h = ground (arith, insert-absent name value acc)

-- None of the keys is in the map that they are added to.
Fresh : Headers → Headers → Type 0
Fresh [] acc = Unit {0}
Fresh ((name, value) ∷ headers) acc = (lookup name acc ≡ none) × Fresh headers acc

lookup-snoc :
    (j name value : Bytes) (acc : Headers)
    → lookup j (acc ++ (name, value) ∷ [])
      ≡ (elim (lookup j acc) [ none ↦ if beq name j then some value else none | some v ↦ some v ])
unfolding lookup
lookup-snoc j name value [] = refl
lookup-snoc j name value ((n, v) ∷ acc) = ground (arith, lookup-snoc j name value acc)

Fresh-snoc :
    (headers acc : Headers) (name value : Bytes)
    → Fresh headers acc
    → lookup name headers ≡ none
    → Fresh headers (acc ++ (name, value) ∷ [])
unfolding Fresh lookup
Fresh-snoc [] acc name value f h = tt
Fresh-snoc ((n, v) ∷ headers) acc name value f h = ground (
  arith,
  lookup-snoc n name value acc,
  beq_iff n name,
  beq_iff name n,
  Fresh-snoc headers acc name value f.1,
)

insert_all-append :
    (headers acc : Headers)
    → Unique headers
    → Fresh headers acc
    → insert_all headers acc ≡ acc ++ headers
unfolding insert_all Fresh
insert_all-append [] acc u f = sym (append-nil acc)
insert_all-append ((name, value) ∷ headers) acc u f = rw (insert-absent name value acc f.0) (
    insert_all-append headers (acc ++ (name, value) ∷ []) u.1
      (Fresh-snoc headers acc name value f.1 u.0)
    ∙ append_assoc acc ((name, value) ∷ []) headers)

Fresh-nil : (headers : Headers) → Fresh headers []
unfolding Fresh lookup
Fresh-nil [] = tt
Fresh-nil ((name, value) ∷ headers) = (refl, Fresh-nil headers)

-- The decoder gives back the headers that the encoder was given, in their order, and reads the whole
-- text. No name occurs twice, and every name and value is shorter than 2^32 bytes.
pub decode-encode :
    (headers : Headers)
    → Unique headers
    → Sized headers
    → decode (encode headers) [] ≡ ok headers []
unfolding decode
decode-encode headers u sized =
    decode_from-encode headers [] (length (encode headers)) sized (omega arith)
    ∙ ap (λ h. ok h []) (insert_all-append headers [] u (Fresh-nil headers))

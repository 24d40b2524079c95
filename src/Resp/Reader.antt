-- ===== src/Resp/Reader.antt =====
-- zero/kv/resp_reader.cc: `RespReader`. A position is the text from there on; a parse that succeeds
-- says how many bytes it has moved the position by.
pub mod Lines
pub mod RoundTrip
pub mod Cuts
pub mod Bounds
use zero_frameworks.Base.{
  ℕ, zero, suc, ◌+◌, ◌-◌, ◌*◌, ◌<◌, Bool, true, false, not, ◌&&◌, ◌||◌, List, [], ◌∷◌, ◌++◌, leb,
  ltb, if◌then◌else◌, Option, none, some, ◌==◌, take, drop, length,
}
use zero_frameworks.Base.Bytes.{Bytes}
use zero_frameworks.Base.Int.{ℤ, pos, negsuc}
use zero_frameworks.Resp.{
  RespValue, simple_string, error, integer, bulk_string, null_bulk, array, null, Items, nil, cons,
}
use zero_frameworks.Resp.Number.{read_int64}
use Lines.{read_line, starts_crlf, split_words}

-- What `std::vector<RespValue>::reserve` is granted room for. For a number of elements above its
-- `max_size`, or when there is no memory, it throws an exception.
pub record Memory : Type 0 where
  pub grants : ℕ → Bool

-- `ParseStatus`, with what `Ok` delivers. `thrown` is the exception of `reserve`, which the reader does
-- not catch. `stuck` is no value of the source: the model's fuel ran out.
pub data Parse (A : Type 0) : Type 0 where
  ok : A → ℕ → Parse A
  need_more : Parse A
  invalid : Parse A
  thrown : Parse A
  stuck : Parse A

-- case '+' and case '-': the line behind the prefix.
parse_line : (Bytes → RespValue) → Bytes → Parse RespValue
parse_line make text = elim (read_line text) [
  | none ↦ need_more
  | some (line, n) ↦ ok (make line) (1 + n)
]

-- case ':'
integer_from : Bytes → Option (ℤ × Bytes) → Parse RespValue
integer_from text none = invalid
integer_from text (some (val, rest)) =
    if not (starts_crlf rest)
    then need_more
    else ok (integer val) (1 + (length text - length rest) + 2)

-- case '$', past the length: `p` is the position behind the two bytes that follow the number.
bulk_body : Bytes → ℤ → ℕ → Parse RespValue
bulk_body buffer (negsuc k) p = ok null_bulk p
bulk_body buffer (pos len) p =
    if ltb (length buffer) (p + len + 2)
    then need_more
    else if not (starts_crlf (drop (p + len) buffer))
    then invalid
    else ok (bulk_string (take len (drop p buffer))) (p + len + 2)

bulk_from : Bytes → Option (ℤ × Bytes) → Parse RespValue
unfolding bulk_body
bulk_from buffer none = invalid
bulk_from buffer (some (len, [])) = need_more
bulk_from buffer (some (len, c ∷ rest)) =
    bulk_body buffer len (length buffer - length (c ∷ rest) + 2)

-- case '*', with the loop over the items as a function: the room for all items is reserved first.
module _ ⦃memory : Memory⦄ where
  array_from : (ℕ → Bytes → Parse Items) → Bytes → Option (ℤ × Bytes) → Parse RespValue
  array_from items text none = invalid
  array_from items text (some (negsuc k, rest)) =
      if not (starts_crlf rest) then need_more else invalid
  array_from items text (some (pos count, rest)) =
      if not (starts_crlf rest)
      then need_more
      else if not (memory.grants count)
      then thrown
      else elim (items count (drop 2 rest)) [
        | ok vs n ↦ ok (array vs) (1 + (length text - length rest) + 2 + n)
        | need_more ↦ need_more
        | invalid ↦ invalid
        | thrown ↦ thrown
        | stuck ↦ stuck
      ]

-- One round of the loop of case '*': an item was parsed, or the array's parse ends as it did.
then_items : Parse RespValue → (ℕ → Parse Items) → Parse Items
then_items need_more more = need_more
then_items invalid more = invalid
then_items thrown more = thrown
then_items stuck more = stuck
then_items (ok v n) more = elim (more n) [
  | ok vs m ↦ ok (cons v vs) (n + m)
  | need_more ↦ need_more
  | invalid ↦ invalid
  | thrown ↦ thrown
  | stuck ↦ stuck
]

unfoldable mutual
  unfolding parse_line integer_from bulk_from array_from then_items

  -- `parseValue`, from the prefix on.
  pub parse_value : ⦃memory : Memory⦄ → ℕ → Bytes → Parse RespValue
  parse_value zero text = stuck
  parse_value (suc fuel) [] = need_more
  parse_value (suc fuel) (c ∷ text) =
      if c == b'+'
      then parse_line simple_string text
      else if c == b'-'
      then parse_line error text
      else if c == b':'
      then integer_from text (read_int64 text)
      else if c == b'$'
      then bulk_from (c ∷ text) (read_int64 text)
      else if c == b'*'
      then array_from (parse_items fuel) text (read_int64 text)
      else invalid

  -- `for (i = 0; i < count; ++i)` of case '*': the count that is left.
  pub parse_items : ⦃memory : Memory⦄ → ℕ → ℕ → Bytes → Parse Items
  parse_items zero count text = stuck
  parse_items (suc fuel) zero text = ok nil 0
  parse_items (suc fuel) (suc count) text =
      then_items (parse_value fuel text) (λ n. parse_items fuel count (drop n text))

abbrev bulk_words : List Bytes → Items
bulk_words [] = nil
bulk_words (w ∷ ws) = cons (bulk_string w) (bulk_words ws)

inline_from : Option (Bytes × ℕ) → Parse RespValue
inline_from none = need_more
inline_from (some ([], n)) = invalid
inline_from (some (c ∷ line, n)) = elim (split_words (length (c ∷ line)) (c ∷ line)) [
  | [] ↦ invalid
  | w ∷ ws ↦ ok (array (bulk_words (w ∷ ws))) n
]

-- `parseInline`
unfoldable pub parse_inline : Bytes → Parse RespValue
unfolding inline_from
parse_inline text = inline_from (read_line text)

abbrev pub is_resp_prefix : ℕ → Bool
is_resp_prefix c = c == b'*' || c == b'$' || c == b'+' || c == b'-' || c == b':'

-- Enough fuel for a text: each byte is a value's prefix or an item at most once.
abbrev pub fuel_for : Bytes → ℕ
fuel_for text = suc (2 * length text)

-- `tryParse` on a buffer; the number in `ok` is what `consumed` is set to.
unfoldable pub try_parse : ⦃memory : Memory⦄ → Bytes → Parse RespValue
unfolding parse_inline
try_parse [] = parse_value 1 []
try_parse (c ∷ text) =
    if not (is_resp_prefix c)
    then parse_inline (c ∷ text)
    else parse_value (fuel_for (c ∷ text)) (c ∷ text)

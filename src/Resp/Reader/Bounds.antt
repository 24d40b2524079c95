-- ===== src/Resp/Reader/Bounds.antt =====
-- The reader ends on every buffer, and how far it moves the position.
use zero_frameworks.Base.{
  ℕ, zero, suc, ◌+◌, ◌*◌, ◌≤◌, ◌<◌, ◌≡◌, refl, [], ◌∷◌, arith, Option, none, some, take, drop,
  length, length-drop, inl, inr, Option-cases, Bool-cases, Bool, true, false, not, ◌&&◌, ◌==◌,
  if◌then◌else◌,
}
use zero_frameworks.Base.Bytes.{Bytes}
use zero_frameworks.Base.Int.{ℤ, pos, negsuc}
use zero_frameworks.Resp.{RespValue, Items, simple_string, error}
use zero_frameworks.Resp.Number.{read_int64}
use zero_frameworks.Resp.Number.Shorter.{Shorter, read_int64-Shorter}
use zero_frameworks.Resp.Reader.{
  Memory, Parse, ok, need_more, invalid, thrown, stuck, parse_line, integer_from, bulk_body,
  bulk_from, array_from, then_items, parse_value, parse_items, try_parse, parse_inline, inline_from,
  fuel_for,
}
use zero_frameworks.Resp.Reader.Lines.{find_crlf, read_line, starts_crlf}

find_crlf-fits : (text : Bytes) {n : ℕ} → find_crlf text ≡ some n → n + 2 ≤ length text
unfolding find_crlf starts_crlf
find_crlf-fits [] h = cc
find_crlf-fits (c ∷ []) h = ground arith
find_crlf-fits (c ∷ d ∷ text) {n} h = elim (Option-cases (find_crlf (d ∷ text))) [
  | inl missing ↦ ground (arith, missing)
  | inr (k, found) ↦ ground (arith, found, find_crlf-fits (d ∷ text) found)
]

-- A parse of `text` ended, and moved the position by a byte at least and at most one past the end.
-- An exception comes only where `reserve` was not granted some room.
abbrev pub Ends : ⦃memory : Memory⦄ → Bytes → Parse RespValue → Type 0
Ends text (ok v n) = (1 ≤ n) × (n ≤ length text + 1)
Ends text need_more = Unit {0}
Ends text invalid = Unit {0}
Ends ⦃memory⦄ text thrown = (count : ℕ) × (memory.grants count ≡ false)
Ends text stuck = ⊥

-- The same of a run of items, which may be empty, and is so on an empty text.
abbrev EndsItems : ⦃memory : Memory⦄ → Bytes → Parse Items → Type 0
EndsItems text (ok vs n) = (n ≤ length text + 1) × (length text ≡ 0 → n ≡ 0)
EndsItems text need_more = Unit {0}
EndsItems text invalid = Unit {0}
EndsItems ⦃memory⦄ text thrown = (count : ℕ) × (memory.grants count ≡ false)
EndsItems text stuck = ⊥

parse_line-Ends :
    ⦃memory : Memory⦄ (make : Bytes → RespValue) (c : ℕ) (text : Bytes)
    → Ends (c ∷ text) (parse_line make text)
unfolding parse_line read_line
parse_line-Ends make c text = elim (Option-cases (find_crlf text)) [
  | inl missing ↦ rw (missing, parse_line, read_line) tt
  | inr (n, found) ↦ rw (found, parse_line, read_line) (omega (arith, find_crlf-fits text found))
]

integer_from-Ends :
    ⦃memory : Memory⦄ (c : ℕ) (text : Bytes) (r : Option (ℤ × Bytes))
    → Shorter text r
    → Ends (c ∷ text) (integer_from text r)
unfolding integer_from starts_crlf
integer_from-Ends c text none h = tt
integer_from-Ends c text (some (n, [])) h = tt
integer_from-Ends c text (some (n, a ∷ [])) h = tt
integer_from-Ends c text (some (n, a ∷ b ∷ rest)) h = ground arith

bulk_from-Ends :
    ⦃memory : Memory⦄ (c : ℕ) (text : Bytes) (r : Option (ℤ × Bytes))
    → Shorter text r
    → Ends (c ∷ text) (bulk_from (c ∷ text) r)
unfolding bulk_from bulk_body
bulk_from-Ends c text none h = tt
bulk_from-Ends c text (some (n, [])) h = tt
bulk_from-Ends c text (some (pos n, a ∷ rest)) h = ground arith
bulk_from-Ends c text (some (negsuc n, a ∷ rest)) h = ground arith

refused-Ends :
    ⦃memory : Memory⦄ (count : ℕ) (text : Bytes) (test : Bool)
    → memory.grants count ≡ false
    → Ends text (if not test then need_more else thrown)
refused-Ends count text true h = (count, h)
refused-Ends count text false h = tt

array_from-Ends :
    ⦃memory : Memory⦄ (items : ℕ → Bytes → Parse Items) (c : ℕ) (text : Bytes)
    (r : Option (ℤ × Bytes))
    → Shorter text r
    → ((count : ℕ) (rest : Bytes) → length rest ≤ length text → EndsItems rest (items count rest))
    → Ends (c ∷ text) (array_from items text r)
unfolding array_from starts_crlf
array_from-Ends items c text none h fine = tt
array_from-Ends items c text (some (negsuc n, rest)) h fine = ground arith
array_from-Ends items c text (some (pos n, [])) h fine = tt
array_from-Ends items c text (some (pos n, a ∷ [])) h fine = tt
array_from-Ends ⦃memory⦄ items c text (some (pos n, a ∷ b ∷ rest)) h fine =
    elim (Bool-cases (memory.grants n)) [
      | inl granted ↦ rw granted (ground (arith, fine n rest))
      | inr refused ↦ rw refused (refused-Ends n (c ∷ text) (a == 13 && b == 10) refused)
    ]

then_items-Ends :
    ⦃memory : Memory⦄ (text : Bytes) (r : Parse RespValue) (more : ℕ → Parse Items)
    → 1 ≤ length text
    → Ends text r
    → ((n : ℕ) → 1 ≤ n → EndsItems (drop n text) (more n))
    → EndsItems text (then_items r more)
unfolding then_items
then_items-Ends text need_more more h e k = tt
then_items-Ends text invalid more h e k = tt
then_items-Ends text thrown more h e k = e
then_items-Ends text stuck more h e k = e
then_items-Ends text (ok v n) more h e k = ground (arith, k n e.0, length-drop n text)

mutual
  unfolding parse_value

  parse_value-Ends :
      ⦃memory : Memory⦄ (fuel : ℕ) (text : Bytes)
      → 2 * length text < fuel
      → Ends text (parse_value fuel text)
  parse_value-Ends zero text h = elim h [ ]
  parse_value-Ends (suc fuel) [] h = tt
  parse_value-Ends (suc fuel) (c ∷ text) h = ground (
    arith,
    parse_line-Ends simple_string c text,
    parse_line-Ends error c text,
    integer_from-Ends c text (read_int64 text) (read_int64-Shorter text),
    bulk_from-Ends c text (read_int64 text) (read_int64-Shorter text),
    array_from-Ends (parse_items fuel) c text (read_int64 text) (read_int64-Shorter text)
        (λ count rest k. parse_items-Ends fuel count rest (omega arith)),
  )

  parse_items-Ends :
      ⦃memory : Memory⦄ (fuel count : ℕ) (text : Bytes)
      → 2 * length text + 1 < fuel
      → EndsItems text (parse_items fuel count text)
  parse_items-Ends zero count text h = elim h [ ]
  parse_items-Ends (suc fuel) zero text h = (omega arith, λ e. refl)
  parse_items-Ends (suc zero) (suc count) text h = absurd (omega arith)
  parse_items-Ends (suc (suc fuel)) (suc count) [] h = tt
  parse_items-Ends (suc fuel) (suc count) (c ∷ text) h =
      then_items-Ends (c ∷ text) (parse_value fuel (c ∷ text)) _ (omega arith)
        (parse_value-Ends fuel (c ∷ text) (omega arith))
        (λ n one.
          parse_items-Ends fuel count (drop n (c ∷ text)) (omega (arith, length-drop n (c ∷ text))))

inline_from-Ends :
    ⦃memory : Memory⦄ (text line : Bytes) (n : ℕ)
    → 1 ≤ n
    → n ≤ length text + 1
    → Ends text (inline_from (some (line, n)))
unfolding inline_from
inline_from-Ends text [] n one fits = tt
inline_from-Ends text (c ∷ line) n one fits = ground arith

parse_inline-Ends : ⦃memory : Memory⦄ (text : Bytes) → Ends text (parse_inline text)
unfolding parse_inline read_line
parse_inline-Ends text = elim (Option-cases (find_crlf text)) [
  | inl missing ↦ rw (missing, parse_inline, read_line) tt
  | inr (n, found) ↦
      let fits = find_crlf-fits text found in
      rw (found, parse_inline, read_line)
        (inline_from-Ends text (take n text) (n + 2) (omega arith) (omega arith))
]

-- Whatever room `reserve` is granted, `tryParse` ends on every buffer, so the fuel is enough: with one
-- of its three answers or, only where some room is not granted, with the exception of `reserve`. If
-- the answer is a value, at least one byte is consumed, and at most one more than the buffer holds.
pub try_parse-Ends : ⦃memory : Memory⦄ (text : Bytes) → Ends text (try_parse text)
unfolding try_parse
try_parse-Ends [] = unfold parse_value in tt
try_parse-Ends (c ∷ text) =
    ground (arith, parse_inline-Ends (c ∷ text), parse_value-Ends (fuel_for (c ∷ text)) (c ∷ text))

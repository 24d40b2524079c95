-- ===== src/Store/Lists/Range.antt =====
-- The elements between two indices, each counted from either end.
use Prim.Native.Nat.{min}
use zero_frameworks.Base.{
  ℕ, zero, suc, ◌+◌, ◌-◌, ◌≤◌, ◌<◌, ◌≡◌, refl, ◌∙◌, ap, false, List, [], ◌∷◌, if◌then◌else◌, ◌==◌,
  leb, length, get_or, take, drop, arith, length-drop, Bool-cases, inl, inr,
}
use zero_frameworks.Base.Bytes.{Bytes}
use zero_frameworks.Base.Int.{ℤ, pos, negsuc, pos_part, ltb_ℤ}
use zero_frameworks.Store.Lists.{
  range_start, range_stop, normalize_list_range, copy_range, between, range_of,
}

-- The first index of a range, and the index behind its last, for a list of a given length.
abbrev pub first : ℕ → ℤ → ℕ
first len (pos a) = a
first len (negsuc k) = len - (k + 1)

abbrev pub past : ℕ → ℤ → ℕ
past len (pos b) = b + 1
past len (negsuc k) = len - k

drop-step : (i : ℕ) (xs : List Bytes) → i < length xs → drop i xs ≡ get_or xs i [] ∷ drop (suc i) xs
drop-step i [] h = absurd (omega arith)
drop-step zero (x ∷ xs) h = refl
drop-step (suc i) (x ∷ xs) h = drop-step i xs (omega arith)

copy_range-take :
    (xs : List Bytes) (n i : ℕ) → i + n ≤ length xs → copy_range xs i n ≡ take n (drop i xs)
unfolding copy_range
copy_range-take xs zero i h = refl
copy_range-take xs (suc n) i h =
    rw (drop-step i xs (omega arith))
      (ap (◌∷◌ (get_or xs i [])) (copy_range-take xs n (suc i) (omega arith)))

take_same :
    (n k : ℕ) (xs : List Bytes) → min n (length xs) ≡ min k (length xs) → take n xs ≡ take k xs
take_same zero zero xs h = refl
take_same zero (suc k) [] h = refl
take_same zero (suc k) (x ∷ xs) h = absurd (omega (arith, h))
take_same (suc n) zero [] h = refl
take_same (suc n) zero (x ∷ xs) h = absurd (omega (arith, h))
take_same (suc n) (suc k) [] h = refl
take_same (suc n) (suc k) (x ∷ xs) h = ap (◌∷◌ x) (take_same n k xs (omega (arith, h)))

-- The number of elements in a range.
count : ℕ → ℤ → ℤ → ℕ
count len start stop = min (past len stop) len - first len start

range_start-first : (len : ℕ) (start : ℤ) → range_start len start ≡ pos (first len start)
unfolding range_start
range_start-first len (pos a) = ground arith
range_start-first len (negsuc a) = ground arith

range_stop-past :
    (len a : ℕ) (stop : ℤ)
    → 0 < len
    → ltb_ℤ (range_stop len stop) (pos a) ≡ leb (min (past len stop) len) a
unfolding range_stop
range_stop-past len a (pos b) h = ground arith
range_stop-past len a (negsuc b) h = ground arith

range_stop_inside :
    (len a : ℕ) (stop : ℤ)
    → a < min (past len stop) len
    → pos_part (range_stop len stop) ≡ min (past len stop) len - 1
unfolding range_stop
range_stop_inside len a (pos b) h = ground arith
range_stop_inside len a (negsuc b) h = ground arith

ltb_of : (n k : ℕ) → leb n k ≡ false → k < n
ltb_of n k h = ground arith

same_rounds : (top a : ℕ) → leb top a ≡ false → top - 1 - a + 1 ≡ top - a
same_rounds top a h = ground arith

between-count :
    (xs : List Bytes) (a : ℕ) (b : ℤ) (top : ℕ)
    → ltb_ℤ b (pos a) ≡ leb top a
    → (a < top → pos_part b ≡ top - 1)
    → (top ≤ length xs)
    → between xs (pos a) b ≡ (if top - a == 0 then [] else copy_range xs a (top - a))
unfolding between
between-count xs a b top order last fits = elim (Bool-cases (leb top a)) [
  | inl none_left ↦ rw (order, between) (ground (arith, none_left))
  | inr some_left ↦
      rw (order, between, last (omega (arith, ltb_of top a some_left)))
        (ground (arith, same_rounds top a, some_left))
]

not_zero : (n : ℕ) → (suc n == 0) ≡ false
not_zero n = ground arith

nonempty_range :
    (x : Bytes) (xs : List Bytes) (start stop : ℤ)
    → let len = length (x ∷ xs) in
      range_of (x ∷ xs) start stop ≡ between (x ∷ xs) (range_start len start) (range_stop len stop)
unfolding range_of normalize_list_range
nonempty_range x xs start stop = rw (not_zero (length xs), range_of, normalize_list_range) refl

empty_range : (start stop : ℤ) → range_of [] start stop ≡ []
unfolding range_of between normalize_list_range
empty_range start stop = refl

count_none : (start stop : ℤ) → count 0 start stop ≡ 0
unfolding count
count_none start stop = omega arith

by_count :
    (xs : List Bytes) (start stop : ℤ)
    → range_of xs start stop ≡ (
        if count (length xs) start stop == 0
        then []
        else copy_range xs (first (length xs) start) (count (length xs) start stop))
by_count [] start stop = rw (count_none start stop) (empty_range start stop)
by_count (x ∷ xs) start stop =
    nonempty_range x xs start stop
    ∙ rw (range_start-first (length (x ∷ xs)) start) (
        unfold count in
        between-count (x ∷ xs) (first (length (x ∷ xs)) start) (range_stop (length (x ∷ xs)) stop)
          (min (past (length (x ∷ xs)) stop) (length (x ∷ xs)))
          (range_stop-past (length (x ∷ xs)) _ stop (omega arith))
          (range_stop_inside (length (x ∷ xs)) _ stop) (omega arith))

-- LRANGE and LTRIM take the elements from `start` up to and with `stop`, where a negative index counts
-- from the end and both are cut to the list: all those from `first` on and before `past`.
pub range_of-take :
    (xs : List Bytes) (start stop : ℤ)
    → range_of xs start stop
      ≡ take (past (length xs) stop - first (length xs) start) (drop (first (length xs) start) xs)
unfolding count
range_of-take xs start stop =
    let i = first (length xs) start in
    let n = past (length xs) stop - i in
    by_count xs start stop
    ∙ ground (
      arith,
      copy_range-take xs (count (length xs) start stop) i,
      length-drop i xs,
      take_same 0 n (drop i xs),
      take_same (count (length xs) start stop) n (drop i xs),
    )

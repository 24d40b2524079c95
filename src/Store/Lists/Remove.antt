-- ===== src/Store/Lists/Remove.antt =====
-- zero/kv/store/kv_store.cc: `listRem`, which takes equal elements out from either end.
use Prim.Native.Nat.{min}
use zero_frameworks.Base.{
  ℕ, zero, suc, ◌+◌, ◌≡◌, ◌≢◌, refl, sym, subst, ◌∙◌, ap, true, false, not, List, [], ◌∷◌, ◌++◌,
  if◌then◌else◌, none, some, ◌==◌, length, get_or, arith, append-nil, append_assoc, Bool-cases, inl,
  inr,
}
use zero_frameworks.Base.Bytes.{Bytes, beq}
use zero_frameworks.Base.Int.{ℤ, pos, negsuc}
use zero_frameworks.Store.{
  KvStore, ObjType, Env, Body, StdHash, wrong_type, Result, ok, err, with_entry,
}
use zero_frameworks.Store.Strings.{has_type}
use zero_frameworks.Store.Lists.{keep_list}

-- The loop for a count of 0: what is left, and how many were removed.
unfoldable pub remove_all : Bytes → List Bytes → List Bytes × ℕ
remove_all value [] = ([], 0)
remove_all value (x ∷ xs) =
    let (rest, removed) = remove_all value xs in
    if beq x value then (rest, removed + 1) else (x ∷ rest, removed)

-- The loop for a count above 0, with the removals that it may still make.
unfoldable pub remove_first : ℕ → Bytes → List Bytes → List Bytes × ℕ
remove_first zero value xs = (xs, 0)
remove_first (suc need) value [] = ([], 0)
remove_first (suc need) value (x ∷ xs) =
    let (fewer, removed) = remove_first need value xs in
    let (rest, kept) = remove_first (suc need) value xs in
    if beq x value then (fewer, removed + 1) else (x ∷ rest, kept)

unfoldable pub erase_at : ℕ → List Bytes → List Bytes
erase_at i [] = []
erase_at zero (x ∷ xs) = xs
erase_at (suc i) (x ∷ xs) = x ∷ erase_at i xs

-- The loop for a count below 0, from the index before `i` down.
unfoldable pub remove_last : ℕ → ℕ → Bytes → List Bytes → List Bytes × ℕ
unfolding erase_at
remove_last zero need value xs = (xs, 0)
remove_last (suc i) zero value xs = (xs, 0)
remove_last (suc i) (suc need) value xs =
    let (fewer, removed) = remove_last i need value (erase_at i xs) in
    let same = remove_last i (suc need) value xs in
    if beq (get_or xs i []) value then (fewer, removed + 1) else same

-- `-count` of the least `int64_t` is taken to wrap to itself, which is no positive number.
unfoldable pub remove_from : ℤ → Bytes → List Bytes → List Bytes × ℕ
unfolding remove_all remove_first remove_last
remove_from (pos zero) value xs = remove_all value xs
remove_from (pos (suc n)) value xs = remove_first (suc n) value xs
remove_from (negsuc k) value xs =
    if k == 9223372036854775807 then (xs, 0) else remove_last (length xs) (suc k) value xs

unfoldable pub rem_body : ℤ → Bytes → ℤ → Bytes → Body (Result ℕ)
unfolding keep_list remove_from
rem_body now key count value m none = (m, false, ok 0)
rem_body now key count value m (some e) =
    let (xs, removed) = remove_from count value e.list in
    if not (has_type ObjType.list e)
    then (m, false, err wrong_type)
    else (keep_list key (record e { lru_ms = now }) xs m, true, ok removed)

module _ ⦃h : StdHash⦄ where
  unfoldable pub list_rem : KvStore → ℕ → Bytes → ℤ → Bytes → Env → KvStore × Result ℕ
  list_rem s db key count value env = with_entry s db key env.now (rem_body env.now key count value)

-- How often a list holds a value.
unfoldable pub occurrences : Bytes → List Bytes → ℕ
occurrences value [] = 0
occurrences value (x ∷ xs) =
    if beq x value then suc (occurrences value xs) else occurrences value xs

-- The elements that are not the value, in their order.
unfoldable pub others : Bytes → List Bytes → List Bytes
others value [] = []
others value (x ∷ xs) = if beq x value then others value xs else x ∷ others value xs

occurrences-append :
    (value : Bytes) (xs ys : List Bytes)
    → occurrences value (xs ++ ys) ≡ occurrences value xs + occurrences value ys
unfolding occurrences
occurrences-append value [] ys = omega arith
occurrences-append value (x ∷ xs) ys = ground (arith, occurrences-append value xs ys)

others-append :
    (value : Bytes) (xs ys : List Bytes)
    → others value (xs ++ ys) ≡ others value xs ++ others value ys
unfolding others
others-append value [] ys = refl
others-append value (x ∷ xs) ys = ground (arith, others-append value xs ys)

-- What a removal does to a list: a middle part loses all its elements that are the value, which are
-- those counted, and what stands before and behind that part stays.
pub record Takes (value : Bytes) (xs : List Bytes) (r : List Bytes × ℕ) : Type 0 where
  pub front : List Bytes
  pub middle : List Bytes
  pub back : List Bytes
  pub split : xs ≡ front ++ (middle ++ back)
  pub kept : r.0 ≡ front ++ (others value middle ++ back)
  pub count : r.1 ≡ occurrences value middle

remove_all-others :
    (value : Bytes) (xs : List Bytes)
    → ((remove_all value xs).0 ≡ others value xs) × ((remove_all value xs).1 ≡ occurrences value xs)
unfolding remove_all others occurrences
remove_all-others value [] = (refl, refl)
remove_all-others value (x ∷ xs) = ground (arith, remove_all-others value xs)

-- From the head: nothing stands before the part that the removal looks at.
FromHead : ℕ → Bytes → List Bytes → List Bytes × ℕ → Type 0
FromHead need value xs r =
    (t : Takes value xs r) × (t.front ≡ []) × (r.1 ≡ min need (occurrences value xs))

remove_first-FromHead :
    (need : ℕ) (value : Bytes) (xs : List Bytes)
    → FromHead need value xs (remove_first need value xs)
unfolding FromHead remove_first occurrences others
remove_first-FromHead zero value xs = (
  record { front = []; middle = []; back = xs; split = refl; kept = refl; count = refl },
  refl,
  omega arith,
)
remove_first-FromHead (suc need) value [] = (
  record { front = []; middle = []; back = []; split = refl; kept = refl; count = refl },
  refl,
  omega arith,
)
remove_first-FromHead (suc need) value (x ∷ xs) = elim (Bool-cases (beq x value)) [
  | inl same ↦
      let (t, at_head, enough) = remove_first-FromHead need value xs in
      rw same (
        record {
          front = [];
          middle = x ∷ t.middle;
          back = t.back;
          split = ap (◌∷◌ x) (t.split ∙ rw at_head refl);
          kept = rw same (t.kept ∙ rw at_head refl);
          count = rw same (omega (arith, t.count));
        },
        refl,
        omega (arith, enough),
      )
  | inr other ↦
      let (t, at_head, enough) = remove_first-FromHead (suc need) value xs in
      rw other (
        record {
          front = [];
          middle = x ∷ t.middle;
          back = t.back;
          split = ap (◌∷◌ x) (t.split ∙ rw at_head refl);
          kept = rw other (ap (◌∷◌ x) (t.kept ∙ rw at_head refl));
          count = rw other t.count;
        },
        refl,
        enough,
      )
]

erase_at-append :
    (i : ℕ) (xs : List Bytes) (x : Bytes) (ys : List Bytes)
    → length xs ≡ i
    → (erase_at i (xs ++ x ∷ ys) ≡ xs ++ ys) × (get_or (xs ++ x ∷ ys) i [] ≡ x)
unfolding erase_at
erase_at-append zero [] x ys h = (refl, refl)
erase_at-append (suc i) [] x ys h = absurd (omega arith)
erase_at-append zero (z ∷ xs) x ys h = absurd (omega arith)
erase_at-append (suc i) (z ∷ xs) x ys h =
    let (erased, there) = erase_at-append i xs x ys (omega arith) in (ap (◌∷◌ z) erased, there)

snoc_cases :
    (i : ℕ) (xs : List Bytes)
    → length xs ≡ suc i
    → (init : List Bytes) × (x : Bytes) × (xs ≡ init ++ x ∷ []) × (length init ≡ i)
snoc_cases i [] h = absurd (omega arith)
snoc_cases zero (x ∷ []) h = ([], x, refl, refl)
snoc_cases zero (x ∷ y ∷ xs) h = absurd (omega arith)
snoc_cases (suc i) (x ∷ xs) h =
    let (init, y, split, len) = snoc_cases i xs (omega arith) in
    (x ∷ init, y, ap (◌∷◌ x) split, omega (arith, len))

-- From the tail: the part that the removal looks at ends `xs`, and `ys` behind it stays.
record FromTail (need : ℕ) (value : Bytes) (xs ys : List Bytes) (r : List Bytes × ℕ) : Type 0 where
  front : List Bytes
  middle : List Bytes
  split : xs ≡ front ++ middle
  kept : r.0 ≡ front ++ (others value middle ++ ys)
  count : r.1 ≡ occurrences value middle
  enough : r.1 ≡ min need (occurrences value xs)

module _ (need : ℕ) (value : Bytes) (xs ys : List Bytes) (x : Bytes) (r : List Bytes × ℕ) where
  FromTail-other :
      beq x value ≡ false
      → FromTail need value xs (x ∷ ys) r
      → FromTail need value (xs ++ x ∷ []) ys r
  unfolding others occurrences
  FromTail-other other t = record {
    front = t.front;
    middle = t.middle ++ x ∷ [];
    split = rw t.split (append_assoc t.front t.middle (x ∷ []));
    kept =
        t.kept
        ∙ rw (others-append value t.middle (x ∷ []), other)
            (ap (◌++◌ t.front) (sym (append_assoc (others value t.middle) (x ∷ []) ys)));
    count = rw (occurrences-append value t.middle (x ∷ []), other) (omega (arith, t.count));
    enough = rw (occurrences-append value xs (x ∷ []), other) (omega (arith, t.enough));
  }

  FromTail-same :
      beq x value ≡ true
      → FromTail need value xs ys r
      → FromTail (suc need) value (xs ++ x ∷ []) ys (r.0, r.1 + 1)
  unfolding others occurrences
  FromTail-same same t = record {
    front = t.front;
    middle = t.middle ++ x ∷ [];
    split = rw t.split (append_assoc t.front t.middle (x ∷ []));
    kept = t.kept ∙ rw (others-append value t.middle (x ∷ []), same, append-nil) refl;
    count = rw (occurrences-append value t.middle (x ∷ []), same) (omega (arith, t.count));
    enough = rw (occurrences-append value xs (x ∷ []), same) (omega (arith, t.enough));
  }

FromTail-none :
    (need : ℕ) (value : Bytes) (xs ys : List Bytes)
    → min need (occurrences value xs) ≡ 0
    → FromTail need value xs ys (xs ++ ys, 0)
unfolding others occurrences
FromTail-none need value xs ys h = record {
  front = xs;
  middle = [];
  split = sym (append-nil xs);
  kept = refl;
  count = refl;
  enough = sym h;
}

remove_last-FromTail :
    (i need : ℕ) (value : Bytes) (xs ys : List Bytes)
    → length xs ≡ i
    → FromTail need value xs ys (remove_last i need value (xs ++ ys))
unfolding remove_last
remove_last-FromTail zero need value [] ys h =
    FromTail-none need value [] ys (unfold occurrences in omega arith)
remove_last-FromTail zero need value (x ∷ xs) ys h = absurd (omega arith)
remove_last-FromTail (suc i) zero value xs ys h = FromTail-none 0 value xs ys (omega arith)
remove_last-FromTail (suc i) (suc need) value xs ys h =
    let (init, x, split, len) = snoc_cases i xs h in
    let (erased, there) = erase_at-append i init x ys len in
    rw (split, append_assoc init (x ∷ []) ys)
      (elim (Bool-cases (beq x value)) [
        | inl same ↦
            rw (there, same, erased)
              (FromTail-same need value init ys x _ same
                (remove_last-FromTail i need value init ys len))
        | inr other ↦
            rw (there, other)
              (FromTail-other (suc need) value init ys x _ other
                (remove_last-FromTail i (suc need) value init (x ∷ ys) len))
      ])

-- How many elements LREM may remove: as many as there are for a count of 0, else the size of the count.
abbrev pub removable : ℤ → ℕ → ℕ
removable (pos zero) there = there
removable (pos (suc n)) there = min (suc n) there
removable (negsuc k) there = min (suc k) there

-- How a removal may proceed: from the head with a count above 0, from the tail with one below, and
-- over the whole list with 0.
abbrev pub FromEnd : ℤ → List Bytes → List Bytes → Type 0
FromEnd (pos zero) front back = (front ≡ []) × (back ≡ [])
FromEnd (pos (suc n)) front back = front ≡ []
FromEnd (negsuc k) front back = back ≡ []

-- LREM takes the value out of one part of the list: all elements there that are the value go, and
-- everything else stays in its place. For a count above 0 the part begins at the head, for one below 0
-- it ends at the tail, and for 0 it is the whole list. It removes as many elements as the size of the
-- count, or all that there are if they are fewer or the count is 0. The count is not the least
-- `int64_t`.
pub remove_from-Takes :
    (count : ℤ) (value : Bytes) (xs : List Bytes)
    → count ≢ negsuc 9223372036854775807
    → let r = remove_from count value xs in
      (t : Takes value xs r) × FromEnd count t.front t.back
      × (r.1 ≡ removable count (occurrences value xs))
unfolding remove_from
remove_from-Takes (pos zero) value xs h =
    let (rest, counted) = remove_all-others value xs in
    (
      record {
        front = [];
        middle = xs;
        back = [];
        split = sym (append-nil xs);
        kept = rest ∙ sym (append-nil (others value xs));
        count = counted;
      },
      (refl, refl),
      counted,
    )
remove_from-Takes (pos (suc n)) value xs h =
    unfold FromHead in remove_first-FromHead (suc n) value xs
remove_from-Takes (negsuc k) value xs h =
    let whole = append-nil xs in
    let t =
      subst (λ ys. FromTail (suc k) value xs [] (remove_last (length xs) (suc k) value ys)) whole
        (remove_last-FromTail (length xs) (suc k) value xs [] refl) in
    let below : (k == 9223372036854775807) ≡ false = ground (arith, h) in
    rw below (
      record {
        front = t.front;
        middle = t.middle;
        back = [];
        split = t.split ∙ ap (◌++◌ t.front) (sym (append-nil t.middle));
        kept = t.kept;
        count = t.count;
      },
      refl,
      t.enough,
    )

-- ===== src/ByteArray/Blocks/Copies.antt =====
-- Blocks as one text, and copies into it.
use zero_frameworks.Base.{
  ℕ, zero, suc, ◌+◌, ◌*◌, ◌≤◌, ◌≡◌, refl, ap, List, [], ◌∷◌, ◌++◌, length, take, drop,
  length-append, arith, All,
}
use zero_frameworks.Base.Bytes.{Bytes}
use zero_frameworks.ByteArray.{copy_to}

unfoldable pub joined : List Bytes → Bytes
joined [] = []
joined (node ∷ nodes) = node ++ joined nodes

abbrev pub OfSize : ℕ → List Bytes → Type 0
OfSize base = All (λ node. length node ≡ base)

pub length-joined :
    (base : ℕ) (nodes : List Bytes)
    → OfSize base nodes
    → length (joined nodes) ≡ length nodes * base
unfolding joined
length-joined base [] sized = omega arith
length-joined base (node ∷ nodes) (same, sized) =
    omega (arith, length-append node (joined nodes), length-joined base nodes sized, same)

pub length-copy_to : (i : ℕ) (cs block : Bytes) → length (copy_to i cs block) ≡ length block
unfolding copy_to
length-copy_to zero [] block = refl
length-copy_to zero (c ∷ cs) [] = refl
length-copy_to zero (c ∷ cs) (b ∷ block) = ap suc (length-copy_to zero cs block)
length-copy_to (suc i) cs [] = refl
length-copy_to (suc i) cs (b ∷ block) = ap suc (length-copy_to i cs block)

pub copy_to_front :
    (i : ℕ) (cs block rest : Bytes)
    → i + length cs ≤ length block
    → copy_to i cs (block ++ rest) ≡ copy_to i cs block ++ rest
unfolding copy_to
copy_to_front zero [] block rest fits = refl
copy_to_front zero (c ∷ cs) [] rest fits = absurd (omega (arith, fits))
copy_to_front zero (c ∷ cs) (b ∷ block) rest fits =
    ap (◌∷◌ c) (copy_to_front zero cs block rest (omega (arith, fits)))
copy_to_front (suc i) cs [] rest fits = absurd (omega (arith, fits))
copy_to_front (suc i) cs (b ∷ block) rest fits =
    ap (◌∷◌ b) (copy_to_front i cs block rest (omega (arith, fits)))

-- A copy that goes on in the next block, after `j` bytes.
pub copy_to_across :
    (i j : ℕ) (cs block rest : Bytes)
    → i + j ≡ length block
    → j ≤ length cs
    → copy_to i cs (block ++ rest) ≡ copy_to i (take j cs) block ++ copy_to 0 (drop j cs) rest
unfolding copy_to
copy_to_across zero zero cs [] rest all high = refl
copy_to_across zero zero cs (b ∷ block) rest all high = absurd (omega (arith, all))
copy_to_across zero (suc j) cs [] rest all high = absurd (omega (arith, all))
copy_to_across zero (suc j) [] (b ∷ block) rest all high = absurd (omega (arith, high))
copy_to_across zero (suc j) (c ∷ cs) (b ∷ block) rest all high =
    ap (◌∷◌ c) (copy_to_across zero j cs block rest (omega (arith, all)) (omega (arith, high)))
copy_to_across (suc i) j cs [] rest all high = absurd (omega (arith, all))
copy_to_across (suc i) j cs (b ∷ block) rest all high =
    ap (◌∷◌ b) (copy_to_across i j cs block rest (omega (arith, all)) high)

pub zero_add : (m : ℕ) → 0 + m ≡ m
zero_add m = omega arith

pub suc_add : (n m : ℕ) → suc n + m ≡ suc (n + m)
suc_add n m = omega arith

module _ {A : Type 0} where
  pub drop_front : (i : ℕ) (xs ys : List A) → i ≤ length xs → drop i (xs ++ ys) ≡ drop i xs ++ ys
  drop_front zero xs ys h = refl
  drop_front (suc i) [] ys h = absurd (omega (arith, h))
  drop_front (suc i) (x ∷ xs) ys h = drop_front i xs ys (omega (arith, h))

  pub take_front : (n : ℕ) (xs ys : List A) → n ≤ length xs → take n (xs ++ ys) ≡ take n xs
  take_front zero xs ys h = refl
  take_front (suc n) [] ys h = absurd (omega (arith, h))
  take_front (suc n) (x ∷ xs) ys h = ap (◌∷◌ x) (take_front n xs ys (omega (arith, h)))

  pub take_past : (m : ℕ) (xs ys : List A) → take (length xs + m) (xs ++ ys) ≡ xs ++ take m ys
  take_past m [] ys = rw (zero_add m) refl
  take_past m (x ∷ xs) ys = rw (suc_add (length xs) m) (ap (◌∷◌ x) (take_past m xs ys))

  pub take-append-drop : (n : ℕ) (xs : List A) → take n xs ++ drop n xs ≡ xs
  take-append-drop zero xs = refl
  take-append-drop (suc n) [] = refl
  take-append-drop (suc n) (x ∷ xs) = ap (◌∷◌ x) (take-append-drop n xs)

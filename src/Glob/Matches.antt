-- ===== src/Glob/Matches.antt =====
-- When a pattern matches a text, and what a star adds to that.
use zero_frameworks.Base.{
  ℕ, zero, suc, ◌≤◌, ◌<◌, ◌≡◌, refl, ap, Bool, true, false, ◌&&◌, ◌||◌, [], ◌∷◌, ◌++◌,
  if◌then◌else◌, ◌==◌, length, drop, All, arith, Bool-cases, inl, inr,
}
use zero_frameworks.Base.Bytes.{Bytes}
use zero_frameworks.Glob.{only_stars, rounds}

-- A pattern matches a text: '?' stands for any character, '*' for any text, another character for
-- itself.
unfoldable pub matches : Bytes → Bytes → Bool
matches [] [] = true
matches [] (c ∷ text) = false
matches (x ∷ pattern) [] = x == b'*' && matches pattern []
matches (x ∷ pattern) (c ∷ text) =
    let here = matches pattern text in
    let star = matches pattern (c ∷ text) || matches (x ∷ pattern) text in
    if x == b'*' then star else (x == b'?' || x == c) && here

abbrev pub Starless : Bytes → Type 0
Starless text = All (λ c. (c == b'*') ≡ false) text

-- The pattern matches a proper end of the text.
unfoldable pub later : Bytes → Bytes → Bool
later pattern [] = false
later pattern (c ∷ text) = matches pattern text || later pattern text

pub only_stars-matches : (p : Bytes) → only_stars p ≡ matches p []
unfolding only_stars matches
only_stars-matches [] = refl
only_stars-matches (x ∷ p) = ap (λ b. x == b'*' && b) (only_stars-matches p)

pub matches-star : (p t : Bytes) → matches (b'*' ∷ p) t ≡ (matches p t || later p t)
unfolding matches later
matches-star p [] = ground arith
matches-star p (c ∷ t) = ground (arith, matches-star p t)

-- A star takes one character more.
matches-star-drop :
    (p t : Bytes) (n : ℕ)
    → matches (b'*' ∷ p) (drop (suc n) t) ≡ true
    → matches (b'*' ∷ p) (drop n t) ≡ true
unfolding matches
matches-star-drop p [] zero h = h
matches-star-drop p [] (suc n) h = h
matches-star-drop p (c ∷ t) zero h = ground (arith, h)
matches-star-drop p (c ∷ t) (suc n) h = matches-star-drop p t n h

-- A part without stars takes as many characters as it has.
matches-fixed :
    (a q t : Bytes)
    → Starless a
    → matches (a ++ q) t ≡ true
    → (matches q (drop (length a) t) ≡ true) × (length a ≤ length t)
unfolding matches
matches-fixed [] q t s h = (h, omega arith)
matches-fixed (x ∷ a) q [] s h = ground (arith, h, s.0)
matches-fixed (x ∷ a) q (c ∷ t) s h =
    let rest : matches (a ++ q) t ≡ true = ground (arith, h, s.0) in
    let r = matches-fixed a q t s.1 rest in (r.0, omega (arith, r.1))

pub later-fixed-star :
    (a p t : Bytes)
    → Starless a
    → later (a ++ b'*' ∷ p) t ≡ true
    → matches (b'*' ∷ p) (drop (length a) t) ≡ true
unfolding later
later-fixed-star a p [] s h = absurd (ground (arith, h))
later-fixed-star a p (c ∷ t) s h =
    matches-star-drop p (c ∷ t) (length a) (elim (Bool-cases (matches (a ++ b'*' ∷ p) t)) [
      | inl here ↦ (matches-fixed a (b'*' ∷ p) t s here).0
      | inr not_here ↦ later-fixed-star a p t s (ground (arith, h, not_here))
    ])

pub later-fixed : (a q t : Bytes) → Starless a → later (a ++ q) t ≡ true → length a < length t
unfolding later
later-fixed a q [] s h = absurd (ground (arith, h))
later-fixed a q (c ∷ t) s h = elim (Bool-cases (matches (a ++ q) t)) [
  | inl here ↦ omega (arith, (matches-fixed a q t s here).1)
  | inr not_here ↦ omega (arith, later-fixed a q t s (ground (arith, h, not_here)))
]

pub rounds-drop : (k k' n : ℕ) (t : Bytes) → k ≤ k' → rounds k (drop n t) ≤ rounds k' t
unfolding rounds
rounds-drop k k' zero [] h = omega arith
rounds-drop k k' zero (c ∷ t) h = omega (arith, rounds-drop k k' zero t h, h)
rounds-drop k k' (suc n) [] h = omega arith
rounds-drop k k' (suc n) (c ∷ t) h = omega (arith, rounds-drop k k' n t h)

pub Starless-drop : (n : ℕ) (t : Bytes) → Starless t → Starless (drop n t)
Starless-drop zero t s = s
Starless-drop (suc n) [] s = s
Starless-drop (suc n) (c ∷ t) s = Starless-drop n t s.1

pub Starless-snoc : (a : Bytes) (x : ℕ) → Starless a → (x == b'*') ≡ false → Starless (a ++ x ∷ [])
Starless-snoc [] x s h = (h, tt)
Starless-snoc (y ∷ a) x s h = (s.0, Starless-snoc a x s.1 h)

pub drop-next : (n c : ℕ) (t st : Bytes) → c ∷ t ≡ drop n st → t ≡ drop (suc n) st
drop-next zero c t [] h = absurd (ground (arith, h))
drop-next (suc n) c t [] h = absurd (ground (arith, h))
drop-next zero c t (d ∷ st) h = ground (arith, h)
drop-next (suc n) c t (d ∷ st) h = drop-next n c t st h

-- ===== src/Glob/Laws.antt =====
-- What `matchGlob` decides: its loop, with what it knows of the last star.
use zero_frameworks.Base.{
  ℕ, zero, suc, ◌+◌, ◌≤◌, ◌≡◌, ◌∙◌, sym, refl, ap, subst, Bool, true, false, ◌||◌, [], ◌∷◌, ◌++◌,
  none, some, ◌==◌, length, drop, length-drop, length-append, append_assoc, arith, Bool-cases, inl,
  inr,
}
use zero_frameworks.Base.Bytes.{Bytes}
use zero_frameworks.Glob.{Star, retry, match_loop, rounds, match_glob}
use zero_frameworks.Glob.Matches.{
  matches, Starless, later, only_stars-matches, matches-star, later-fixed-star, later-fixed,
  rounds-drop, Starless-drop, Starless-snoc, drop-next,
}

-- What the loop knows: since the star it has taken a part of the pattern without stars, and as many
-- characters.
record Since (pattern text star_pattern star_text : Bytes) : Type 0 where
  part : Bytes
  fixed : Starless part
  taken : star_pattern ≡ part ++ pattern
  left : text ≡ drop (length part) star_text

Since-start : (pattern text : Bytes) → Since pattern text pattern text
Since-start pattern text = record { part = []; fixed = tt; taken = refl; left = refl }

Since-next :
    (x c : ℕ) (p t sp st : Bytes)
    → Since (x ∷ p) (c ∷ t) sp st
    → (x == b'*') ≡ false
    → Since p t sp st
Since-next x c p t sp st w plain = record {
  part = w.part ++ x ∷ [];
  fixed = Starless-snoc w.part x w.fixed plain;
  taken = w.taken ∙ sym (append_assoc w.part (x ∷ []) p);
  left =
      drop-next (length w.part) c t st w.left
      ∙ ap (λ n. drop n st) {x = suc (length w.part)}
          (omega (arith, length-append w.part (x ∷ [])));
}

retry-later :
    (again : Bytes → Bytes → Star → Bool) (sp st : Bytes)
    → ((d : ℕ) (rest : Bytes)
        → st ≡ d ∷ rest
        → again sp rest (some (sp, rest)) ≡ (matches sp rest || later sp rest))
    → retry again (some (sp, st)) ≡ later sp st
unfolding later
retry-later again sp [] next = refl
retry-later again sp (d ∷ rest) next = next d rest refl

-- With no text left, the star's text cannot give up a character.
no_later : (p sp st : Bytes) → Since p [] sp st → later sp st ≡ false
no_later p sp st w = elim (Bool-cases (later sp st)) [
  | inr cannot ↦ cannot
  | inl could ↦ absurd (
      omega (
        arith,
        later-fixed w.part p st w.fixed (subst (λ q. later q st ≡ true) w.taken could),
        length-drop (length w.part) st,
        ap length w.left,
      ))
]

-- A later star makes the earlier one's choices needless.
star_is_enough :
    (p t sp st : Bytes)
    → Since (b'*' ∷ p) t sp st
    → (matches (b'*' ∷ p) t || later sp st) ≡ matches (b'*' ∷ p) t
star_is_enough p t sp st w = elim (Bool-cases (later sp st)) [
  | inr cannot ↦ ground (arith, cannot)
  | inl could ↦
      let there : matches (b'*' ∷ p) (drop (length w.part) st) ≡ true =
        later-fixed-star w.part p st w.fixed (subst (λ q. later q st ≡ true) w.taken could) in
      ground (arith, could, there, w.left)
]

rounds-head : (k d : ℕ) (t rest : Bytes) → t ≡ d ∷ rest → rounds k t ≡ k + rounds k rest
unfolding rounds
rounds-head k d t rest h = ap (rounds k) h

match_loop-some :
    (fuel : ℕ) (p t sp st : Bytes)
    → Starless st
    → Since p t sp st
    → suc (length p) + rounds (suc (length sp)) st ≤ fuel
    → match_loop fuel p t (some (sp, st)) ≡ (matches p t || later sp st)
unfolding match_loop matches
match_loop-some zero p t sp st s w enough = absurd (omega (arith, enough))
match_loop-some (suc fuel) p [] sp st s w enough =
    ground (arith, only_stars-matches p, no_later p sp st w)
match_loop-some (suc fuel) [] (c ∷ t) sp st s w enough =
    retry-later (match_loop fuel) sp st (λ d rest e.
      match_loop-some fuel sp rest sp rest (subst Starless e s).1 (Since-start sp rest)
        (omega (arith, enough, rounds-head (suc (length sp)) d st rest e)))
match_loop-some (suc fuel) (x ∷ p) (c ∷ t) sp st s w enough =
    let plain : (c == b'*') ≡ false =
      (subst Starless (sym w.left) (Starless-drop (length w.part) st s)).0 in
    elim (Bool-cases (x == b'?' || x == c)) [
      | inl same ↦
          let fixed : (x == b'*') ≡ false = ground (arith, same, plain) in
          let next =
            match_loop-some fuel p t sp st s (Since-next x c p t sp st w fixed)
              (omega (arith, enough)) in
          ground (arith, same, fixed, next)
      | inr other ↦ elim (Bool-cases (x == b'*')) [
        | inl star ↦
            let starred =
              match_loop-some fuel p (c ∷ t) p (c ∷ t)
                (subst Starless (sym w.left) (Starless-drop (length w.part) st s))
                (Since-start p (c ∷ t))
                (omega (
                  arith,
                  enough,
                  rounds-drop (suc (length p)) (suc (length sp)) (length w.part) st
                      (omega (arith, ap length w.taken, length-append w.part (x ∷ p))),
                  ap (rounds (suc (length p))) w.left,
                )) in
            let is_star : x ≡ b'*' = ground (arith, star) in
            let w' = subst (λ y. Since (y ∷ p) (c ∷ t) sp st) is_star w in
            ground (
              arith,
              other,
              star,
              starred,
              star_is_enough p (c ∷ t) sp st w',
              matches-star p (c ∷ t),
              is_star,
            )
        | inr none_of ↦
            let back = retry-later (match_loop fuel) sp st (λ d rest e.
              match_loop-some fuel sp rest sp rest (subst Starless e s).1 (Since-start sp rest)
                (omega (arith, enough, rounds-head (suc (length sp)) d st rest e))) in
            ground (arith, other, none_of, back)
      ]
    ]

match_loop-none :
    (fuel : ℕ) (p t : Bytes)
    → Starless t
    → suc (length p) + rounds (suc (length p)) t ≤ fuel
    → match_loop fuel p t none ≡ matches p t
unfolding match_loop matches rounds
match_loop-none zero p t s enough = absurd (omega (arith, enough))
match_loop-none (suc fuel) p [] s enough = only_stars-matches p
match_loop-none (suc fuel) [] (c ∷ t) s enough = refl
match_loop-none (suc fuel) (x ∷ p) (c ∷ t) s enough =
    let fewer = rounds-drop (suc (length p)) (suc (suc (length p))) zero t (omega arith) in
    elim (Bool-cases (x == b'?' || x == c)) [
      | inl same ↦
          let fixed : (x == b'*') ≡ false = ground (arith, same, s.0) in
          let next = match_loop-none fuel p t s.1 (omega (arith, enough, fewer)) in
          ground (arith, same, fixed, next)
      | inr other ↦ elim (Bool-cases (x == b'*')) [
        | inl star ↦
            let starred =
              match_loop-some fuel p (c ∷ t) p (c ∷ t) s (Since-start p (c ∷ t))
                (omega (arith, enough, fewer)) in
            let is_star : x ≡ b'*' = ground (arith, star) in
            ground (arith, other, star, starred, matches-star p (c ∷ t), is_star)
        | inr none_of ↦ ground (arith, other, none_of)
      ]
    ]

-- On a text without '*', `matchGlob` decides whether the pattern matches it, '?' standing for any
-- character and '*' for any text; its rounds come to an end.
pub match_glob-matches : (p t : Bytes) → Starless t → match_glob p t ≡ matches p t
unfolding match_glob
match_glob-matches p t s = match_loop-none _ p t s (omega arith)

matches_any : (t : Bytes) → matches (b'*' ∷ []) t ≡ true
unfolding matches
matches_any [] = refl
matches_any (c ∷ t) = ground (arith, matches_any t)

match_loop_star_text :
    (fuel c : ℕ) (t : Bytes) → match_loop (suc (suc fuel)) (b'*' ∷ []) (b'*' ∷ c ∷ t) none ≡ false
unfolding match_loop
match_loop_star_text fuel c t = refl

-- A text of more than one character that begins with '*' is not matched by the pattern "*", which
-- matches every text.
match_glob_star_text :
    (c : ℕ) (t : Bytes)
    → (match_glob (b'*' ∷ []) (b'*' ∷ c ∷ t) ≡ false) × (matches (b'*' ∷ []) (b'*' ∷ c ∷ t) ≡ true)
unfolding match_glob rounds
match_glob_star_text c t = (
  ap (λ fuel. match_loop fuel (b'*' ∷ []) (b'*' ∷ c ∷ t) none)
        {y = suc (suc (2 + (2 + rounds 2 t)))} (omega arith)
      ∙ match_loop_star_text (2 + (2 + rounds 2 t)) c t,
  matches_any (b'*' ∷ c ∷ t),
)

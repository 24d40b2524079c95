-- ===== src/Glob.antt =====
-- `matchGlob`, which zero/kv/store/kv_store.cc and zero/kv/pubsub/pubsub_hub.cc each have a copy of.
-- An index into a text is the text from there on.
pub mod Matches
pub mod Laws
use zero_frameworks.Base.{
  ℕ, zero, suc, ◌+◌, Bool, true, false, ◌&&◌, ◌||◌, List, [], ◌∷◌, if◌then◌else◌, Option, none,
  some, ◌==◌, length,
}
use zero_frameworks.Base.Bytes.{Bytes}

-- `while(pi < pattern.size() && pattern[pi] == '*') ++pi;` and whether that reaches the end.
unfoldable pub only_stars : Bytes → Bool
only_stars [] = true
only_stars (x ∷ pattern) = x == b'*' && only_stars pattern

-- `star_pi` and `star_ti`
abbrev pub Star : Type 0
Star = Option (Bytes × Bytes)

-- What a round does when the pattern does not match by one character: back to the last star, which
-- takes one character more.
abbrev pub retry : (Bytes → Bytes → Star → Bool) → Star → Bool
retry again none = false
retry again (some (star_pattern, [])) = false
retry again (some (star_pattern, c ∷ star_text)) =
    again star_pattern star_text (some (star_pattern, star_text))

-- The first loop, on fuel. `star_text` is never empty when it is asked for: the text is a part of it.
unfoldable pub match_loop : ℕ → Bytes → Bytes → Star → Bool
unfolding only_stars
match_loop zero pattern text star = false
match_loop (suc fuel) pattern [] star = only_stars pattern
match_loop (suc fuel) [] (c ∷ text) star = retry (match_loop fuel) star
match_loop (suc fuel) (x ∷ pattern) (c ∷ text) star =
    let next = match_loop fuel pattern text star in
    let starred = match_loop fuel pattern (c ∷ text) (some (pattern, c ∷ text)) in
    let back = retry (match_loop fuel) star in
    if x == b'?' || x == c then next else if x == b'*' then starred else back

-- As many rounds for each character of a text.
unfoldable pub rounds : ℕ → Bytes → ℕ
rounds each [] = 0
rounds each (c ∷ text) = each + rounds each text

-- Between two returns to a star the pattern gets shorter, and each return shortens the text behind
-- the star.
unfoldable pub match_glob : Bytes → Bytes → Bool
unfolding rounds
match_glob pattern text =
    match_loop (suc (length pattern) + rounds (suc (length pattern)) text) pattern text none

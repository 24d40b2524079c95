-- ===== src/Resp/Reader/Lines.antt =====
-- zero/kv/resp_reader.cc: `find_crlf`, `readLine` and the words of an inline command.
use mathlib.Core.Option
use zero_frameworks.Base.{
  ℕ, zero, suc, ◌+◌, Bool, false, ◌&&◌, ◌||◌, List, [], ◌∷◌, leb, if◌then◌else◌, Option, none, some,
  ◌==◌, take,
}
use zero_frameworks.Base.Bytes.{Bytes}

-- `p[0] == '\r' && p[1] == '\n'`, both inside the buffer.
unfoldable pub starts_crlf : Bytes → Bool
starts_crlf [] = false
starts_crlf (_ ∷ []) = false
starts_crlf (a ∷ b ∷ _) = a == 13 && b == 10

-- `find_crlf`: the offset of the first CRLF. Every '\r' is looked at; the skips of `memchr` only
-- pass over other bytes.
unfoldable pub find_crlf : Bytes → Option ℕ
unfolding starts_crlf
find_crlf [] = none
find_crlf (c ∷ text) = if starts_crlf (c ∷ text) then some 0 else Option.map suc (find_crlf text)

-- `readLine`: the line, and how far the position moves.
unfoldable pub read_line : Bytes → Option (Bytes × ℕ)
unfolding find_crlf
read_line text = Option.map (λ n. (take n text, n + 2)) (find_crlf text)

-- `std::isspace` in the "C" locale.
abbrev pub is_space : ℕ → Bool
is_space c = c == 32 || (leb 9 c && leb c 13)

-- `while (i < line.size() && isspace(line[i])) ++i;`
unfoldable pub skip_spaces : Bytes → Bytes
skip_spaces [] = []
skip_spaces (c ∷ line) = if is_space c then skip_spaces line else c ∷ line

-- `while (j < line.size() && !isspace(line[j])) ++j;` The word from `i` to `j`, and the line from `j`.
unfoldable pub take_word : Bytes → Bytes × Bytes
take_word [] = ([], [])
take_word (c ∷ line) =
    let (word, rest) = take_word line in if is_space c then ([], c ∷ line) else (c ∷ word, rest)

-- The outer loop of `parseInline`. Each round but the last takes a byte at least.
unfoldable pub split_words : ℕ → Bytes → List Bytes
unfolding skip_spaces take_word
split_words zero line = []
split_words (suc fuel) line = elim (skip_spaces line) [
  | [] ↦ []
  | c ∷ rest ↦ (take_word (c ∷ rest)).0 ∷ split_words fuel (take_word (c ∷ rest)).1
]

-- ===== src/Regex.antt =====
-- The part of Go's `regexp` that the patterns of client/policy.go use: single characters,
-- repeated single characters, sequence, alternatives and the word boundary `\b`.
--
-- A star stands over one character class in every pattern, so a match is a structural recursion:
-- no fuel is needed. Capture groups and the choice between matches play no part in `MatchString`.
pub mod Sound
pub mod Context
pub mod Fold
use claude_distant.Common.{
  Bool, [], false, if◌then◌else◌, leb, not, true, ℕ, ◌&&◌, ◌+◌, ◌==◌, ◌||◌, ◌∷◌,
}
use claude_distant.Text.{Text}

-- A character class under `(?i)`: a literal, `.`, `\s`, `[a-z]` and `\w`.
pub data Class : Type 0 where
  lit : ℕ → Class
  dot white letter word_char : Class

pub data Re : Type 0 where
  one : Class → Re
  many : Class → Re
  boundary : Re
  nothing : Re
  sequence : Re → Re → Re
  alternative : Re → Re → Re

-- A position in the searched text: whether a word character stands before it, and what follows.
pub record Pos : Type 0 where
  pub after_word : Bool
  pub rest : Text

-- `\b` looks at ASCII word characters only, with or without `(?i)`.
unfoldable pub is_word : ℕ → Bool
is_word c =
    (leb b'0' c && leb c b'9')
    || (leb b'A' c && leb c b'Z')
    || c == b'_'
    || (leb b'a' c && leb c b'z')

unfoldable pub starts_word : Text → Bool
unfolding is_word
starts_word [] = false
starts_word (c ∷ s) = is_word c

abbrev pub differ : Bool → Bool → Bool
differ true b = not b
differ false b = b

abbrev pub step_over : ℕ → Text → Pos
step_over c s = record { after_word = is_word c; rest = s }

-- `unicode.SimpleFold`, as far as it reaches a lower-case ASCII letter: the upper-case letters, and
-- the long s U+017F and the Kelvin sign U+212A.
unfoldable pub fold : ℕ → ℕ
fold c =
    if leb b'A' c && leb c b'Z'
    then c + 32
    else if c == 0x17f
    then b's'
    else if c == 0x212a
    then b'k'
    else c

unfoldable pub is_letter : ℕ → Bool
is_letter c = leb b'a' c && leb c b'z'

unfoldable pub in_class : Class → ℕ → Bool
unfolding fold is_letter is_word
in_class (lit d) c = fold c == fold d
in_class dot c = not (c == b'\n')
in_class white c = c == b'\t' || c == b'\n' || c == 0x0c || c == b'\r' || c == b' '
in_class letter c = is_letter (fold c)
in_class word_char c = is_word (fold c)

unfoldable pub run_one : Class → (Pos → Bool) → Text → Bool
run_one cl k [] = false
run_one cl k (c ∷ s) = in_class cl c && k (step_over c s)

unfoldable pub run_many : Class → (Pos → Bool) → Bool → Text → Bool
run_many cl k before [] = k (record { after_word = before; rest = [] })
run_many cl k before (c ∷ s) =
    k (record { after_word = before; rest = c ∷ s })
    || (in_class cl c && run_many cl k (is_word c) s)

-- Whether `r` matches at `p` in a way that leaves a position which `k` accepts.
unfoldable pub run : Re → (Pos → Bool) → Pos → Bool
unfolding run_one run_many
run (one cl) k p = run_one cl k p.rest
run (many cl) k p = run_many cl k p.after_word p.rest
run boundary k p = differ p.after_word (starts_word p.rest) && k p
run nothing k p = k p
run (sequence r r') k p = run r (run r' k) p
run (alternative r r') k p = run r k p || run r' k p

abbrev pub accept : Pos → Bool
accept p = true

-- A match at one of the positions of the text, from the left.
unfoldable pub occurs : Re → Bool → Text → Bool
occurs r before [] = run r accept (record { after_word = before; rest = [] })
occurs r before (c ∷ s) =
    run r accept (record { after_word = before; rest = c ∷ s }) || occurs r (is_word c) s

-- `Regexp.MatchString`
unfoldable pub match_string : Re → Text → Bool
unfolding occurs
match_string r s = occurs r false s

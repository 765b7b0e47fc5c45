-- ===== src/LogLine.antt =====
-- client/commanddetail.go: what the journal says of a command.
pub mod Clean
pub mod Describe
pub mod OneLine
pub mod Fragments
use claude_distant.Common.{
  Bool, [], false, if◌then◌else◌, is_empty, leb, length, not, take, ℕ, ◌++◌, ◌-◌, ◌==◌, ◌||◌, ◌∷◌,
}
use claude_distant.Text.{Text, codes, is_control, is_space}
use claude_distant.Text.Decimal.{decimal}

-- `maxLoggedDetailRunes`
abbrev pub max_logged_detail_runes : ℕ
max_logged_detail_runes = 400

-- `lineBreakMarker`: a backslash and an n between spaces.
abbrev pub line_break_marker : Text
line_break_marker = codes " \\n "

-- The variables of the loop in `sanitizeLogLine`.
pub record Line : Type 0 where
  pub b : Text
  pub pending_space : Bool
  pub pending_break : Bool

abbrev pub rune_error : ℕ
rune_error = 0xfffd

-- What is written before the next printed character.
unfoldable pub flush_pending : Line → Text
flush_pending l =
    if l.pending_break then line_break_marker else if l.pending_space then b' ' ∷ [] else []

unfoldable pub write_rune : Line → ℕ → Line
write_rune l r = record {
  b = l.b ++ (flush_pending l ++ r ∷ []);
  pending_space = false;
  pending_break = false;
}

-- The body of the loop, for the character `r`.
unfoldable pub sanitize_step : Line → ℕ → Line
sanitize_step l r =
    if r == b'\n' || r == b'\r'
    then record l { pending_break = not (is_empty l.b) }
    else if is_space r
    then record l { pending_space = not (is_empty l.b) }
    else if r == rune_error || is_control r
    then l
    else write_rune l r

unfoldable pub sanitize_from : Line → Text → Line
sanitize_from l [] = l
sanitize_from l (r ∷ s) = sanitize_from (sanitize_step l r) s

-- `truncateRunes`; the limit is a constant that is not negative.
unfoldable pub truncate_runes : Text → ℕ → Text
truncate_runes s limit =
    if limit == 0 || leb (length s) limit
    then s
    else take limit s ++ (codes "… (+" ++ (decimal (length s - limit) ++ codes " caractères)"))

abbrev pub empty_line : Line
empty_line = record { b = []; pending_space = false; pending_break = false }

-- `sanitizeLogLine`
unfoldable pub sanitize_log_line : Text → Text
sanitize_log_line s = truncate_runes (sanitize_from empty_line s).b max_logged_detail_runes

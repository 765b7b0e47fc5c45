-- ===== src/LogLine/Fragments.antt =====
-- What `describeToolParams` of client/commanddetail.go makes of each tool's parameters is one line.
use claude_distant.Activity.Render.{OneLine}
use claude_distant.Common.{
  All, All-append, Bool, List, Option-cases, [], arith, false, if◌then◌else◌, inl, inr, is_empty,
  not, refl, true, ℕ, ◌&&◌, ◌++◌, ◌==◌, ◌∷◌, ◌≡◌, ◌≢◌,
}
use claude_distant.LogLine.{sanitize_log_line}
use claude_distant.LogLine.Clean.{AllPrintable, IsPrintable, sanitize_log_line-AllPrintable}
use claude_distant.LogLine.Describe.{
  describe_read_file, describe_run, describe_write_file, extra_if, join_extras, path_summary,
  raw_params_summary, with_extras,
}
use claude_distant.Protocol.{Json, ReadFileParams, RunParams, WriteFileParams}
use claude_distant.Text.{Text, codes, is_control}
use claude_distant.Text.Decimal.{AllDigits, decimal, decimal-AllDigits, is_digit}

IsPrintable-ne : (c : ℕ) → IsPrintable c → c ≢ b'\n'
unfolding is_control
IsPrintable-ne c h e = ground arith

AllPrintable-OneLine : (s : Text) → AllPrintable s → OneLine s
AllPrintable-OneLine [] h = tt
AllPrintable-OneLine (c ∷ s) h = (IsPrintable-ne c h.0, AllPrintable-OneLine s h.1)

sanitize_log_line-OneLine : (s : Text) → OneLine (sanitize_log_line s)
sanitize_log_line-OneLine s =
    AllPrintable-OneLine (sanitize_log_line s) (sanitize_log_line-AllPrintable s)

digits-OneLine : (s : Text) → AllDigits s → OneLine s
unfolding is_digit
digits-OneLine [] h = tt
digits-OneLine (c ∷ s) h = (ground arith, digits-OneLine s h.1)

decimal-OneLine : (n : ℕ) → OneLine (decimal n)
decimal-OneLine n = digits-OneLine (decimal n) (decimal-AllDigits n)

pub choice-OneLine : (b : Bool) (s t : Text) → OneLine s → OneLine t → OneLine (if b then s else t)
choice-OneLine true s t h k = h
choice-OneLine false s t h k = k

pub append-OneLine : (s t : Text) → OneLine s → OneLine t → OneLine (s ++ t)
append-OneLine s t h k = All-append _ s t h k

-- Every text of a list is one line.
abbrev AllOneLine : List Text → Type 0
AllOneLine = All OneLine

join_extras-OneLine : (xs : List Text) → AllOneLine xs → OneLine (join_extras xs)
unfolding join_extras
join_extras-OneLine [] h = tt
join_extras-OneLine (x ∷ []) h = h.0
join_extras-OneLine (x ∷ y ∷ xs) h =
    append-OneLine x _ h.0
      (append-OneLine (codes ", ") _ (omega arith) (join_extras-OneLine (y ∷ xs) h.1))

with_extras-OneLine :
    (s : Text) (xs : List Text) → OneLine s → AllOneLine xs → OneLine (with_extras s xs)
unfolding with_extras
with_extras-OneLine s [] h k = h
with_extras-OneLine s (x ∷ xs) h k = append-OneLine s _ h (
    append-OneLine (codes " [") _ (omega arith) (
      append-OneLine (join_extras (x ∷ xs)) (codes "]") (join_extras-OneLine (x ∷ xs) k)
        (omega arith)))

extra_if-OneLine : (b : Bool) (s : Text) → OneLine s → AllOneLine (extra_if b s)
unfolding extra_if
extra_if-OneLine true s h = (h, tt)
extra_if-OneLine false s h = tt

extras-OneLine : (xs ys : List Text) → AllOneLine xs → AllOneLine ys → AllOneLine (xs ++ ys)
extras-OneLine xs ys h k = All-append OneLine xs ys h k

path_summary-OneLine : (path : Text) → OneLine (path_summary path)
unfolding path_summary
path_summary-OneLine path =
    choice-OneLine (is_empty (sanitize_log_line path)) (codes "(chemin manquant)")
      (sanitize_log_line path) (omega arith) (sanitize_log_line-OneLine path)

pub raw_params_summary-OneLine :
    (json : Json) (params : Text) → OneLine (raw_params_summary json params)
unfolding raw_params_summary
raw_params_summary-OneLine json params = elim (Option-cases (json.compact params)) [
  | inl bad ↦ rw (bad, raw_params_summary) (sanitize_log_line-OneLine params)
  | inr (compact, ok) ↦ rw (ok, raw_params_summary) (sanitize_log_line-OneLine compact)
]

-- Whether a text holds no line break, for the fixed texts.
abbrev is_one_line : Text → Bool
is_one_line [] = true
is_one_line (c ∷ s) = not (c == b'\n') && is_one_line s

literal-OneLine : (s : Text) → is_one_line s ≡ true → OneLine s
literal-OneLine [] h = tt
literal-OneLine (c ∷ s) h = ground (arith, literal-OneLine s)

ruleset one_line_rules = (
  with_extras-OneLine, extras-OneLine, extra_if-OneLine, choice-OneLine, path_summary-OneLine,
  append-OneLine, sanitize_log_line-OneLine, decimal-OneLine, literal-OneLine, refl,
)

pub describe_run-OneLine : (is_shell : Bool) (p : RunParams) → OneLine (describe_run is_shell p)
unfolding describe_run
describe_run-OneLine is_shell p = search one_line_rules depth 10 fits 4000

pub describe_read_file-OneLine : (p : ReadFileParams) → OneLine (describe_read_file p)
unfolding describe_read_file
describe_read_file-OneLine p = search one_line_rules depth 10 fits 4000

pub describe_write_file-OneLine : (p : WriteFileParams) → OneLine (describe_write_file p)
unfolding describe_write_file
describe_write_file-OneLine p = search one_line_rules depth 10 fits 4000

-- ===== src/Shell/Quote.antt =====
-- `splitArgv` reads back a command line that is written with double quotes.
use claude_distant.Common.{
  List, [], ap, append-nil, append_assoc, arith, false, if◌then◌else◌, refl, some, true, ℕ, ◌++◌,
  ◌==◌, ◌||◌, ◌∙◌, ◌∷◌, ◌≡◌, ◌≢◌,
}
use claude_distant.Shell.{
  Quoting, Split, escapes, in_double, in_single, split_argv, split_from, split_step, unquoted,
}
use claude_distant.Text.{Text}

-- A `"` and a `\` are written behind a backslash.
unfoldable pub escape_rune : ℕ → Text
escape_rune c = if c == b'"' || c == b'\\' then b'\\' ∷ c ∷ [] else c ∷ []

unfoldable pub escape_text : Text → Text
escape_text [] = []
escape_text (c ∷ w) = escape_rune c ++ escape_text w

-- An argument between double quotes.
unfoldable pub quote_arg : Text → Text
quote_arg w = b'"' ∷ (escape_text w ++ b'"' ∷ [])

-- Quoted arguments, with a space in front of each.
unfoldable pub quote_args : List Text → Text
unfolding quote_arg
quote_args [] = []
quote_args (w ∷ ws) = b' ' ∷ (quote_arg w ++ quote_args ws)

-- The states of the loop: between arguments, inside a quoted one, and behind its closing quote.
abbrev fresh : List Text → Split
fresh args = record { args = args; cur = []; has_cur = false; quoting = unquoted }

abbrev inside : List Text → Text → Split
inside args cur = record { args = args; cur = cur; has_cur = true; quoting = in_double }

abbrev closed : List Text → Text → Split
closed args cur = record { args = args; cur = cur; has_cur = true; quoting = unquoted }

split_plain :
    (st : Split) (r : ℕ) (s : Text)
    → r ≢ b'\\'
    → split_from st (r ∷ s) ≡ split_from (split_step st.quoting st r) s
unfolding split_from
split_plain st r [] h = refl
split_plain st r (n ∷ s) h = rw (no_escape st.quoting)
  where
    no_escape : (q : Quoting) → escapes q r n ≡ false
    no_escape in_single = refl
    no_escape in_double = ground arith
    no_escape unquoted = ground arith

split-escape_rune :
    (args : List Text) (cur : Text) (c d : ℕ) (rest : Text)
    → split_from (inside args cur) (escape_rune c ++ d ∷ rest)
      ≡ split_from (inside args (cur ++ c ∷ [])) (d ∷ rest)
unfolding split_from escape_rune
split-escape_rune args cur c d rest = ground arith

split_past :
    (args : List Text) (cur : Text) (c : ℕ) (t : Text)
    → t ≢ []
    → split_from (inside args cur) (escape_rune c ++ t) ≡ split_from (inside args (cur ++ c ∷ [])) t
split_past args cur c [] h = absurd (h refl)
split_past args cur c (d ∷ rest) h = split-escape_rune args cur c d rest

append-ne-nil : (s : Text) (d : ℕ) (t : Text) → s ++ d ∷ t ≢ []
append-ne-nil [] d t = λ e. cc
append-ne-nil (c ∷ s) d t = λ e. cc

split-escape_text :
    (w : Text) (args : List Text) (cur : Text) (d : ℕ) (rest : Text)
    → split_from (inside args cur) (escape_text w ++ d ∷ rest)
      ≡ split_from (inside args (cur ++ w)) (d ∷ rest)
unfolding escape_text
split-escape_text [] args cur d rest = rw append-nil
split-escape_text (c ∷ w) args cur d rest =
    ap (split_from (inside args cur)) (append_assoc (escape_rune c) (escape_text w) (d ∷ rest))
    ∙ split_past args cur c (escape_text w ++ d ∷ rest) (append-ne-nil (escape_text w) d rest)
    ∙ split-escape_text w args (cur ++ c ∷ []) d rest
    ∙ rw append_assoc

split_open :
    (args : List Text) (s : Text)
    → split_from (fresh args) (b'"' ∷ s) ≡ split_from (inside args []) s
unfolding split_step
split_open args s = split_plain (fresh args) b'"' s (omega arith)

split_close :
    (args : List Text) (w s : Text)
    → split_from (inside args w) (b'"' ∷ s) ≡ split_from (closed args w) s
unfolding split_step
split_close args w s = split_plain (inside args w) b'"' s (omega arith)

split_space :
    (args : List Text) (w s : Text)
    → split_from (closed args w) (b' ' ∷ s) ≡ split_from (fresh (args ++ w ∷ [])) s
unfolding split_step
split_space args w s = split_plain (closed args w) b' ' s (omega arith)

split_lead :
    (args : List Text) (s : Text) → split_from (fresh args) (b' ' ∷ s) ≡ split_from (fresh args) s
unfolding split_step
split_lead args s = split_plain (fresh args) b' ' s (omega arith)

split-quote_arg :
    (w : Text) (args : List Text) (rest : Text)
    → split_from (fresh args) (quote_arg w ++ rest) ≡ split_from (closed args w) rest
unfolding quote_arg
split-quote_arg w args rest =
    split_open args _
    ∙ ap (split_from (inside args [])) (append_assoc (escape_text w) (b'"' ∷ []) rest)
    ∙ split-escape_text w args [] b'"' rest
    ∙ split_close args w rest

split-closed :
    (ws args : List Text) (cur : Text)
    → split_from (closed args cur) (quote_args ws) ≡ some (args ++ cur ∷ ws)
unfolding quote_args
split-closed [] args cur = unfold split_from in refl
split-closed (w ∷ ws) args cur =
    split_space args cur _
    ∙ split-quote_arg w (args ++ cur ∷ []) (quote_args ws)
    ∙ split-closed ws (args ++ cur ∷ []) w
    ∙ ap some (append_assoc args (cur ∷ []) (w ∷ ws))

-- `run_command` gets exactly the arguments that a command line quotes, whatever characters they
-- hold and also where one is empty.
pub split_argv-quote_args : (ws : List Text) → split_argv (quote_args ws) ≡ some ws
unfolding split_argv quote_args
split_argv-quote_args [] = refl
split_argv-quote_args (w ∷ ws) =
    split_lead [] (quote_arg w ++ quote_args ws)
    ∙ split-quote_arg w [] (quote_args ws)
    ∙ split-closed ws [] w

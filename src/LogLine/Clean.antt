-- ===== src/LogLine/Clean.antt =====
-- What `sanitizeLogLine` lets through.
use claude_distant.Common.{
  All, All-append, All-take, Bool-cases, [], arith, drop, false, inl, inr, leb, length, length-drop,
  length-take, sym, take, take-append-drop, true, ℕ, ◌++◌, ◌-◌, ◌<◌, ◌==◌, ◌||◌, ◌∷◌, ◌≡◌, ◌≢◌, ◌≤◌,
  ◌⊎◌,
}
use claude_distant.LogLine.{
  Line, empty_line, flush_pending, line_break_marker, max_logged_detail_runes, rune_error,
  sanitize_from, sanitize_log_line, sanitize_step, truncate_runes, write_rune,
}
use claude_distant.Text.{Text, codes, is_control, is_space}
use claude_distant.Text.Decimal.{AllDigits, decimal, decimal-AllDigits, is_digit}

-- A character that cannot break a line or garble a terminal; a plain space is one.
abbrev pub IsPrintable : ℕ → Type 0
IsPrintable c = (is_control c ≡ false) × (c ≢ rune_error) × ((is_space c ≡ false) ⊎ (c ≡ b' '))

abbrev pub AllPrintable : Text → Type 0
AllPrintable = All IsPrintable

marker-AllPrintable : AllPrintable line_break_marker
unfolding is_control is_space
marker-AllPrintable = ground arith

flush_pending-AllPrintable : (l : Line) → AllPrintable (flush_pending l)
unfolding flush_pending is_control is_space
flush_pending-AllPrintable l = ground (arith, marker-AllPrintable)

IsPrintable-kept :
    (r : ℕ) → is_space r ≡ false → (r == rune_error || is_control r) ≡ false → IsPrintable r
IsPrintable-kept r s c = ground arith

write_rune-AllPrintable :
    (l : Line) (r : ℕ) → AllPrintable l.b → IsPrintable r → AllPrintable (write_rune l r).b
unfolding write_rune
write_rune-AllPrintable l r h k =
    All-append _ l.b _ h (All-append _ (flush_pending l) _ (flush_pending-AllPrintable l) (k, tt))

sanitize_step-AllPrintable :
    (l : Line) (r : ℕ) → AllPrintable l.b → AllPrintable (sanitize_step l r).b
unfolding sanitize_step
sanitize_step-AllPrintable l r h = ground (arith, write_rune-AllPrintable l r h, IsPrintable-kept r)

sanitize_from-AllPrintable :
    (l : Line) (s : Text) → AllPrintable l.b → AllPrintable (sanitize_from l s).b
unfolding sanitize_from
sanitize_from-AllPrintable l [] h = h
sanitize_from-AllPrintable l (r ∷ s) h =
    sanitize_from-AllPrintable (sanitize_step l r) s (sanitize_step-AllPrintable l r h)

IsDigit-IsPrintable : (c : ℕ) → is_digit c ≡ true → IsPrintable c
unfolding is_digit is_control is_space
IsDigit-IsPrintable c h = ground arith

AllDigits-AllPrintable : (s : Text) → AllDigits s → AllPrintable s
AllDigits-AllPrintable [] h = tt
AllDigits-AllPrintable (c ∷ s) h = (IsDigit-IsPrintable c h.0, AllDigits-AllPrintable s h.1)

cut_mark : AllPrintable (codes "… (+") × AllPrintable (codes " caractères)")
unfolding is_control is_space
cut_mark = ground arith

truncate_runes-AllPrintable :
    (s : Text) (limit : ℕ) → AllPrintable s → AllPrintable (truncate_runes s limit)
unfolding truncate_runes
truncate_runes-AllPrintable s limit h = elim (Bool-cases (limit == 0 || leb (length s) limit)) [
  | inl short ↦ rw short h
  | inr long ↦
      let number = AllDigits-AllPrintable _ (decimal-AllDigits (length s - limit)) in
      rw long (
        All-append _ (take limit s) _ (All-take _ limit s h)
          (All-append _ (codes "… (+") _ cut_mark.0 (All-append _ _ _ number cut_mark.1)))
]

-- Whatever text it gets, what `sanitizeLogLine` returns holds no line break, no control character, no
-- white space but plain spaces, and no replacement character.
pub sanitize_log_line-AllPrintable : (s : Text) → AllPrintable (sanitize_log_line s)
unfolding sanitize_log_line
sanitize_log_line-AllPrintable s =
    truncate_runes-AllPrintable (sanitize_from empty_line s).b max_logged_detail_runes
      (sanitize_from-AllPrintable empty_line s tt)

-- A text is kept whole up to the limit. Past it, exactly the first `limit` characters are kept, and
-- the mark behind them says how many were dropped.
pub truncate_runes_lem :
    (s : Text) (limit : ℕ)
    → 0 < limit
    → (length s ≤ limit → truncate_runes s limit ≡ s)
      × (limit < length s
          → (kept mark rest : Text) × (s ≡ kept ++ rest)
            × (truncate_runes s limit ≡ kept ++ mark)
            × (length kept ≡ limit)
            × (mark ≡ codes "… (+" ++ (decimal (length rest) ++ codes " caractères)")))
unfolding truncate_runes
truncate_runes_lem s limit h = (
  (λ le. let short : (limit == 0 || leb (length s) limit) ≡ true = ground arith in rw short),
  (λ lt.
      let long : (limit == 0 || leb (length s) limit) ≡ false = ground arith in
      let size : length (drop limit s) ≡ length s - limit = length-drop limit s in
      (
        take limit s,
        codes "… (+" ++ (decimal (length s - limit) ++ codes " caractères)"),
        drop limit s,
        sym (take-append-drop limit s),
        rw long,
        omega (arith, length-take limit s),
        rw size,
      )),
)

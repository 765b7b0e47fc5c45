-- ===== src/Regex/Fold.antt =====
-- The patterns do not see the case of ASCII letters.
use claude_distant.Common.{
  Bool, [], ap, arith, false, if◌then◌else◌, leb, refl, ℕ, ◌&&◌, ◌+◌, ◌==◌, ◌∷◌, ◌≡◌,
}
use claude_distant.Regex.{
  Class, Pos, Re, accept, alternative, boundary, dot, fold, in_class, is_letter, is_word, letter,
  lit, many, match_string, nothing, occurs, one, run, run_many, run_one, sequence, starts_word,
  step_over, white, word_char,
}
use claude_distant.Text.{Text}

unfoldable pub ascii_lower : ℕ → ℕ
ascii_lower c = if leb b'A' c && leb c b'Z' then c + 32 else c

unfoldable pub lower_all : Text → Text
lower_all [] = []
lower_all (c ∷ s) = ascii_lower c ∷ lower_all s

abbrev lower_pos : Pos → Pos
lower_pos p = record p { rest = lower_all p.rest }

is_word-ascii_lower : (c : ℕ) → is_word (ascii_lower c) ≡ is_word c
unfolding is_word ascii_lower
is_word-ascii_lower c = ground arith

fold-ascii_lower : (c : ℕ) → fold (ascii_lower c) ≡ fold c
unfolding fold ascii_lower
fold-ascii_lower c = ground arith

in_class-ascii_lower : (cl : Class) (c : ℕ) → in_class cl (ascii_lower c) ≡ in_class cl c
in_class-ascii_lower (lit d) c = unfold in_class in ap (λ x. x == fold d) (fold-ascii_lower c)
in_class-ascii_lower dot c = unfold in_class ascii_lower in ground arith
in_class-ascii_lower white c = unfold in_class ascii_lower in ground arith
in_class-ascii_lower letter c = unfold in_class in ap is_letter (fold-ascii_lower c)
in_class-ascii_lower word_char c = unfold in_class in ap is_word (fold-ascii_lower c)

starts_word-lower_all : (s : Text) → starts_word (lower_all s) ≡ starts_word s
unfolding starts_word lower_all
starts_word-lower_all [] = refl
starts_word-lower_all (c ∷ s) = is_word-ascii_lower c

-- `k'` accepts a lowered position where `k` accepts the position itself.
abbrev SameTest : (Pos → Bool) → (Pos → Bool) → Type 0
SameTest k' k = (p : Pos) → k' (lower_pos p) ≡ k p

run_one-lower_all :
    (cl : Class) (k' k : Pos → Bool) (s : Text)
    → SameTest k' k
    → run_one cl k' (lower_all s) ≡ run_one cl k s
unfolding run_one lower_all
run_one-lower_all cl k' k [] h = refl
run_one-lower_all cl k' k (c ∷ s) h =
    rw (in_class-ascii_lower, is_word-ascii_lower) (ap (◌&&◌ (in_class cl c)) (h (step_over c s)))

run_many-lower_all :
    (cl : Class) (k' k : Pos → Bool) (before : Bool) (s : Text)
    → SameTest k' k
    → run_many cl k' before (lower_all s) ≡ run_many cl k before s
unfolding run_many lower_all
run_many-lower_all cl k' k before [] h = h (record { after_word = before; rest = [] })
run_many-lower_all cl k' k before (c ∷ s) h =
    rw (in_class-ascii_lower, is_word-ascii_lower)
      (cc (
        h (record { after_word = before; rest = c ∷ s }),
        run_many-lower_all cl k' k (is_word c) s h,
      ))

run-lower_pos : (r : Re) (k' k : Pos → Bool) → SameTest k' k → SameTest (run r k') (run r k)
unfolding run
run-lower_pos (one cl) k' k h p = run_one-lower_all cl k' k p.rest h
run-lower_pos (many cl) k' k h p = run_many-lower_all cl k' k p.after_word p.rest h
run-lower_pos boundary k' k h p = rw starts_word-lower_all (rw (h p))
run-lower_pos nothing k' k h p = h p
run-lower_pos (sequence r r') k' k h p =
    run-lower_pos r (run r' k') (run r' k) (run-lower_pos r' k' k h) p
run-lower_pos (alternative r r') k' k h p = cc (run-lower_pos r k' k h p, run-lower_pos r' k' k h p)

occurs-lower_all :
    (r : Re) (before : Bool) (s : Text) → occurs r before (lower_all s) ≡ occurs r before s
unfolding occurs lower_all
occurs-lower_all r before [] =
    run-lower_pos r accept accept (λ p. refl) (record { after_word = before; rest = [] })
occurs-lower_all r before (c ∷ s) = rw is_word-ascii_lower (
    cc (
      run-lower_pos r accept accept (λ p. refl) (record { after_word = before; rest = c ∷ s }),
      occurs-lower_all r (is_word c) s,
    ))

-- Two texts that differ in the case of ASCII letters match the same patterns.
pub match_string-lower_all : (r : Re) (s : Text) → match_string r (lower_all s) ≡ match_string r s
unfolding match_string
match_string-lower_all r s = occurs-lower_all r false s

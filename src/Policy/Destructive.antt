-- ===== src/Policy/Destructive.antt =====
-- What `IsDestructive` of client/policy.go detects.
use mathlib.Core.List.{Memᴰ}
use claude_distant.Common.{
  List, [], ap, arith, false, inl, inr, or-eq-true, refl, subst, sym, true, ◌++◌, ◌↔◌, ◌∙◌, ◌∷◌,
  ◌≡◌,
}
use claude_distant.Policy.Patterns.{any_match, destructive_patterns, is_destructive}
use claude_distant.Regex.{Re, starts_word}
use claude_distant.Regex.Context.{match_string-around, word_after}
use claude_distant.Regex.Fold.{lower_all, match_string-lower_all}
use claude_distant.Regex.Sound.{Occurs, match_string_iff}
use claude_distant.Text.{Text}

-- Some pattern of the list matches somewhere in the text.
abbrev pub SomeOccurs : List Re → Text → Type 0
SomeOccurs rs s = (r : Re) × Memᴰ r rs × Occurs r false s

any_match_sound : (rs : List Re) (s : Text) → any_match rs s ≡ true → SomeOccurs rs s
unfolding any_match
any_match_sound [] s h = cc
any_match_sound (r ∷ rs) s h = elim (or-eq-true _ _ h) [
  | inl now ↦ (r, Memᴰ.head refl, (match_string_iff r s).0 now)
  | inr more ↦ let (r', m, o) = any_match_sound rs s more in (r', Memᴰ.tail m, o)
]

any_match_complete :
    {r : Re} {rs : List Re} (s : Text) → Memᴰ r rs → Occurs r false s → any_match rs s ≡ true
unfolding any_match
any_match_complete s (Memᴰ.head e) o =
    ground (arith, (match_string_iff _ s).1 (subst (λ x. Occurs x false s) e o))
any_match_complete s (Memᴰ.tail m) o = ground (arith, any_match_complete s m o)

-- A command is flagged exactly when one of the patterns matches somewhere in it.
is_destructive_iff : (s : Text) → (is_destructive s ≡ true) ↔ SomeOccurs destructive_patterns s
unfolding is_destructive
is_destructive_iff s =
    (any_match_sound destructive_patterns s, (λ (r, m, o). any_match_complete s m o))

any_match-around :
    (rs : List Re) (u s t : Text)
    → word_after false u ≡ false
    → starts_word t ≡ false
    → any_match rs s ≡ true
    → any_match rs (u ++ (s ++ t)) ≡ true
unfolding any_match
any_match-around [] u s t hu ht h = h
any_match-around (r ∷ rs) u s t hu ht h = elim (or-eq-true _ _ h) [
  | inl now ↦ rw (match_string-around r u s t hu ht now)
  | inr more ↦ ground (arith, any_match-around rs u s t hu ht more)
]

-- A flagged command cannot be hidden in a longer command line: what holds it is flagged too, if the
-- text before it does not end in a word character (a letter, a digit or `_`) and the text behind it
-- does not begin with one.
pub is_destructive-around :
    (u s t : Text)
    → word_after false u ≡ false
    → starts_word t ≡ false
    → is_destructive s ≡ true
    → is_destructive (u ++ (s ++ t)) ≡ true
unfolding is_destructive
is_destructive-around u s t = any_match-around destructive_patterns u s t

any_match-lower_all : (rs : List Re) (s : Text) → any_match rs (lower_all s) ≡ any_match rs s
unfolding any_match
any_match-lower_all [] s = refl
any_match-lower_all (r ∷ rs) s = cc (match_string-lower_all r s, any_match-lower_all rs s)

-- Commands that differ only in the case of ASCII letters are flagged alike.
pub is_destructive_case :
    (s t : Text) → lower_all s ≡ lower_all t → is_destructive s ≡ is_destructive t
unfolding is_destructive
is_destructive_case s t e =
    sym (any_match-lower_all destructive_patterns s)
    ∙ ap (any_match destructive_patterns) e
    ∙ any_match-lower_all destructive_patterns t

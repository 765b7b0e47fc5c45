-- ===== src/Text/Laws.antt =====
-- Laws of the text functions.
use claude_distant.Common.{All, [], arith, false, refl, true, ◌++◌, ◌+◌, ◌↔◌, ◌∷◌, ◌≡◌}
use claude_distant.Text.{Text, equal, is_space, len, trim_right, trim_space}

pub equal_iff : (s t : Text) → (equal s t ≡ true) ↔ (s ≡ t)
unfolding equal
equal_iff (c ∷ s) (d ∷ t) = ground (arith, equal_iff s t)
equal_iff _ _ = ground arith

pub equal_refl : (s : Text) → equal s s ≡ true
equal_refl s = (equal_iff s s).1 refl

pub len-append : (s t : Text) → len (s ++ t) ≡ len s + len t
unfolding len
len-append [] t = omega arith
len-append (c ∷ s) t = omega (arith, len-append s t)

trim_right-plain : (s : Text) → All (λ c. is_space c ≡ false) s → trim_right s ≡ s
unfolding trim_right
trim_right-plain [] h = refl
trim_right-plain (c ∷ s) h = ground (arith, trim_right-plain s h.1)

-- A text with no white space is left as it is.
pub trim_space-plain : (s : Text) → All (λ c. is_space c ≡ false) s → trim_space s ≡ s
unfolding trim_space
trim_space-plain [] h = refl
trim_space-plain (c ∷ s) h = rw h.0 (trim_right-plain (c ∷ s) h)

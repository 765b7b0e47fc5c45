-- ===== src/Text/Decimal.antt =====
-- `%d` and `%09d` of `fmt`, and what the printed digits stand for.
use native.Mathlib.Nat.{pow-suc}
use claude_distant.Common.{
  All, All-append, Bool, [], ap, arith, if◌then◌else◌, leb, length, length-append, ltb, refl, suc,
  true, zero, ℕ, ◌%◌, ◌&&◌, ◌*◌, ◌++◌, ◌+◌, ◌-◌, ◌/◌, ◌<◌, ◌^◌, ◌∙◌, ◌∷◌, ◌≡◌, ◌≤◌,
}
use claude_distant.Text.{Text}

-- The digits of `n`, in front of `out`; `n` itself bounds the rounds.
unfoldable pub digits : ℕ → ℕ → Text → Text
digits zero n out = out
digits (suc fuel) n out =
    let rest = digits fuel (n / 10) ((b'0' + n % 10) ∷ out) in
    if ltb n 10 then (b'0' + n) ∷ out else rest

-- `%d`
unfoldable pub decimal : ℕ → Text
unfolding digits
decimal n = digits (suc n) n []

unfoldable pub zeros : ℕ → Text
zeros zero = []
zeros (suc n) = b'0' ∷ zeros n

-- `%0wd`
unfoldable pub decimal_padded : ℕ → ℕ → Text
unfolding zeros decimal
decimal_padded w n = zeros (w - length (decimal n)) ++ decimal n

unfoldable pub is_digit : ℕ → Bool
is_digit c = leb b'0' c && leb c b'9'

abbrev pub AllDigits : Text → Type 0
AllDigits = All (λ c. is_digit c ≡ true)

-- The number that a text of digits spells, after `n`.
unfoldable pub value_from : ℕ → Text → ℕ
value_from n [] = n
value_from n (c ∷ s) = value_from (n * 10 + (c - b'0')) s

digits-AllDigits : (fuel n : ℕ) (out : Text) → AllDigits out → AllDigits (digits fuel n out)
unfolding digits is_digit
digits-AllDigits zero n out h = h
digits-AllDigits (suc fuel) n out h =
    ground (arith, digits-AllDigits fuel (n / 10) ((b'0' + n % 10) ∷ out))

pub decimal-AllDigits : (n : ℕ) → AllDigits (decimal n)
unfolding decimal
decimal-AllDigits n = digits-AllDigits (suc n) n [] tt

zeros-AllDigits : (n : ℕ) → AllDigits (zeros n)
unfolding zeros is_digit
zeros-AllDigits zero = tt
zeros-AllDigits (suc n) = (refl, zeros-AllDigits n)

pub decimal_padded-AllDigits : (w n : ℕ) → AllDigits (decimal_padded w n)
unfolding decimal_padded
decimal_padded-AllDigits w n =
    All-append _ (zeros (w - length (decimal n))) (decimal n) (zeros-AllDigits _)
      (decimal-AllDigits n)

-- At most `k` digits are put before `out` for a number below 10 ^ k.
length-digits :
    (k fuel n : ℕ) (out : Text) → n < 10 ^ suc k → length (digits fuel n out) ≤ suc k + length out
unfolding digits
length-digits k zero n out h = omega arith
length-digits zero (suc fuel) n out h = ground arith
length-digits (suc k) (suc fuel) n out h =
    let below : n / 10 < 10 ^ suc k = omega (arith, pow-suc 10 (suc k)) in
    ground (arith, length-digits k fuel (n / 10) ((b'0' + n % 10) ∷ out) below)

length-zeros : (n : ℕ) → length (zeros n) ≡ n
unfolding zeros
length-zeros zero = refl
length-zeros (suc n) = ap suc (length-zeros n)

-- A number below 10 ^ w is printed in exactly `w` digits.
pub length-decimal_padded : (k n : ℕ) → n < 10 ^ suc k → length (decimal_padded (suc k) n) ≡ suc k
unfolding decimal_padded decimal
length-decimal_padded k n h = omega (
  arith,
  length-append (zeros (suc k - length (digits (suc n) n []))) (digits (suc n) n []),
  length-zeros (suc k - length (digits (suc n) n [])),
  length-digits k (suc n) n [] h,
)

value_from-digits :
    (fuel n : ℕ) (out : Text) → n < fuel → value_from 0 (digits fuel n out) ≡ value_from n out
unfolding digits value_from
value_from-digits zero n out h = elim h [ ]
value_from-digits (suc fuel) n out h =
    ground (arith, value_from-digits fuel (n / 10) ((b'0' + n % 10) ∷ out))

pub value_from-decimal : (n : ℕ) → value_from 0 (decimal n) ≡ n
unfolding decimal
value_from-decimal n = value_from-digits (suc n) n [] (omega arith) ∙ unfold value_from in refl

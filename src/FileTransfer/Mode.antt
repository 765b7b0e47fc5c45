-- ===== src/FileTransfer/Mode.antt =====
-- `parseFileMode` reads octal permissions.
use claude_distant.Common.{
  All, [], ap, arith, false, is_empty, refl, some, ℕ, ◌%◌, ◌+◌, ◌/◌, ◌<◌, ◌^◌, ◌∷◌, ◌≡◌,
}
use claude_distant.Common.Maybe.{◌>>=◌}
use claude_distant.FileTransfer.{parse_file_mode, parse_octal}
use claude_distant.Text.{Text, is_space}
use claude_distant.Text.Laws.{trim_space-plain}

-- The octal digits of a permission, three of them as in "644".
unfoldable pub octal : ℕ → Text
octal perm = (b'0' + perm / 64) ∷ (b'0' + perm / 8 % 8) ∷ (b'0' + perm % 8) ∷ []

octal_digit : (d : ℕ) → d < 8 → is_space (b'0' + d) ≡ false
unfolding is_space
octal_digit d h = ground arith

module _ (perm : ℕ) (h : perm < 2 ^ 9) where
  octal_plain : All (λ c. is_space c ≡ false) (octal perm)
  unfolding octal
  octal_plain = (
    octal_digit _ (omega arith),
    (octal_digit _ (omega arith), (octal_digit _ (omega arith), tt)),
  )

  parse_octal-octal : (n : ℕ) → n ≡ 0 → parse_octal n (octal perm) ≡ some perm
  unfolding parse_octal octal
  parse_octal-octal n e = ground arith

  zero_octal : parse_octal 0 (b'0' ∷ octal perm) ≡ some perm
  unfolding parse_octal
  zero_octal = parse_octal-octal 0 refl

  keeps_perm : perm % 2 ^ 9 ≡ perm
  keeps_perm = omega arith

read_plain :
    (s : Text) (perm : ℕ)
    → All (λ c. is_space c ≡ false) s
    → is_empty s ≡ false
    → parse_octal 0 s ≡ some perm
    → perm < 2 ^ 9
    → parse_file_mode s ≡ some perm
unfolding parse_file_mode
read_plain s perm plain e p h =
    rw (trim_space-plain s plain) (rw (e, p, ◌>>=◌) (ap some (keeps_perm perm h)))

-- Every permission is read back from its three digits, also with a leading zero.
pub parse_file_mode-octal :
    (perm : ℕ)
    → perm < 2 ^ 9
    → (parse_file_mode (octal perm) ≡ some perm) × (parse_file_mode (b'0' ∷ octal perm) ≡ some perm)
unfolding octal
parse_file_mode-octal perm h = (
  read_plain (octal perm) perm (octal_plain perm h) refl (parse_octal-octal perm h 0 refl) h,
  read_plain (b'0' ∷ octal perm) perm (octal_digit 0 (omega arith), octal_plain perm h) refl
      (zero_octal perm h) h,
)

-- A mode that is read has no bit but the nine permission bits.
pub parse_file_mode-lt : (mode : Text) {perm : ℕ} → parse_file_mode mode ≡ some perm → perm < 2 ^ 9
unfolding parse_file_mode
parse_file_mode-lt mode h = ground arith

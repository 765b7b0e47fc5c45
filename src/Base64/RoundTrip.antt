-- ===== src/Base64/RoundTrip.antt =====
-- What is encoded is decoded again.
use claude_distant.Base64.{
  Bytes, char_of, decode_groups, decode_string, digit_of, encode, strip_breaks,
}
use claude_distant.Common.{
  All, [], ap, arith, refl, some, ℕ, ◌%◌, ◌*◌, ◌+◌, ◌/◌, ◌<◌, ◌∙◌, ◌∷◌, ◌≡◌, ◌≢◌,
}
use claude_distant.Text.{Text}

abbrev pub AreBytes : Bytes → Type 0
AreBytes = All (λ x. x < 256)

digit_of-char_of : (d : ℕ) → d < 64 → digit_of (char_of d) ≡ some d
unfolding digit_of char_of
digit_of-char_of d h = ground arith

char_of_plain : (d : ℕ) → (char_of d ≢ b'=') × (char_of d ≢ b'\n') × (char_of d ≢ b'\r')
unfolding char_of
char_of_plain d = ground arith

decode_groups-encode : (s : Bytes) → AreBytes s → decode_groups (encode s) ≡ some s
unfolding decode_groups encode
decode_groups-encode [] h = refl
decode_groups-encode (x ∷ []) h =
    ground (arith, digit_of-char_of (x / 4), digit_of-char_of (x % 4 * 16))
decode_groups-encode (x ∷ y ∷ []) h = ground (
  arith,
  digit_of-char_of (x / 4),
  digit_of-char_of (x % 4 * 16 + y / 16),
  digit_of-char_of (y % 16 * 4),
  char_of_plain (y % 16 * 4),
)
decode_groups-encode (x ∷ y ∷ z ∷ s) h = ground (
  arith,
  digit_of-char_of (x / 4),
  digit_of-char_of (x % 4 * 16 + y / 16),
  digit_of-char_of (y % 16 * 4 + z / 64),
  digit_of-char_of (z % 64),
  char_of_plain (y % 16 * 4 + z / 64),
  char_of_plain (z % 64),
  decode_groups-encode s h.1.1.1,
)

char_of-kept : (d : ℕ) (s : Text) → strip_breaks (char_of d ∷ s) ≡ char_of d ∷ strip_breaks s
unfolding strip_breaks
char_of-kept d s = ground (arith, char_of_plain d)

strip_breaks-encode : (s : Bytes) → strip_breaks (encode s) ≡ encode s
unfolding encode
strip_breaks-encode [] = unfold strip_breaks in refl
strip_breaks-encode (x ∷ []) = simp char_of-kept (unfold strip_breaks in refl)
strip_breaks-encode (x ∷ y ∷ []) = simp char_of-kept (unfold strip_breaks in refl)
strip_breaks-encode (x ∷ y ∷ z ∷ s) = simp (char_of-kept, strip_breaks-encode s)

-- Every list of bytes is read back from its encoding.
pub decode_string-encode : (s : Bytes) → AreBytes s → decode_string (encode s) ≡ some s
unfolding decode_string
decode_string-encode s h = ap decode_groups (strip_breaks-encode s) ∙ decode_groups-encode s h

-- ===== src/Base64.antt =====
-- The standard, padded base64 of encoding/base64, and `base64DecodedLen` of client/filetransfer.go.
pub mod RoundTrip
pub mod Size
use claude_distant.Common.{
  List, Option, [], if◌then◌else◌, is_empty, leb, ltb, none, some, ℕ, ◌%◌, ◌&&◌, ◌*◌, ◌+◌, ◌-◌, ◌/◌,
  ◌==◌, ◌||◌, ◌∷◌,
}
use claude_distant.Common.Maybe.{◌>>=◌}
use claude_distant.Text.{Text, len}

abbrev pub Bytes : Type 0
Bytes = List ℕ

-- The character of a 6-bit digit.
unfoldable pub char_of : ℕ → ℕ
char_of d =
    if ltb d 26
    then b'A' + d
    else if ltb d 52
    then b'a' + (d - 26)
    else if ltb d 62
    then b'0' + (d - 52)
    else if d == 62
    then b'+'
    else b'/'

-- The digit of a character of the alphabet.
unfoldable pub digit_of : ℕ → Option ℕ
digit_of c =
    if leb b'A' c && leb c b'Z'
    then some (c - b'A')
    else if leb b'a' c && leb c b'z'
    then some (c - b'a' + 26)
    else if leb b'0' c && leb c b'9'
    then some (c - b'0' + 52)
    else if c == b'+'
    then some 62
    else if c == b'/'
    then some 63
    else none

-- `EncodeToString`: three bytes make four characters.
unfoldable pub encode : Bytes → Text
encode [] = []
encode (x ∷ []) = char_of (x / 4) ∷ char_of (x % 4 * 16) ∷ b'=' ∷ b'=' ∷ []
encode (x ∷ y ∷ []) =
    char_of (x / 4) ∷ char_of (x % 4 * 16 + y / 16) ∷ char_of (y % 16 * 4) ∷ b'=' ∷ []
encode (x ∷ y ∷ z ∷ s) =
    char_of (x / 4)
    ∷ char_of (x % 4 * 16 + y / 16)
    ∷ char_of (y % 16 * 4 + z / 64)
    ∷ char_of (z % 64)
    ∷ encode s

-- The decoder passes over line breaks.
unfoldable pub strip_breaks : Text → Text
strip_breaks [] = []
strip_breaks (c ∷ s) =
    let rest = strip_breaks s in if c == b'\n' || c == b'\r' then rest else c ∷ rest

-- The last group: the low bits of the digit before the padding are dropped, as they are outside the
-- decoder's strict mode.
unfoldable pub decode_one_byte : ℕ → ℕ → Option Bytes
decode_one_byte a b = do i ← digit_of a; j ← digit_of b; some ((i * 4 + j / 16) ∷ [])

unfoldable pub decode_two_bytes : ℕ → ℕ → ℕ → Option Bytes
decode_two_bytes a b c = do
  i ← digit_of a
  j ← digit_of b
  k ← digit_of c
  some ((i * 4 + j / 16) ∷ (j % 16 * 16 + k / 4) ∷ [])

unfoldable pub decode_three_bytes : ℕ → ℕ → ℕ → ℕ → Option Bytes → Option Bytes
decode_three_bytes a b c d more = do
  i ← digit_of a
  j ← digit_of b
  k ← digit_of c
  l ← digit_of d
  s ← more
  some ((i * 4 + j / 16) ∷ (j % 16 * 16 + k / 4) ∷ (k % 4 * 64 + l) ∷ s)

-- Groups of four characters; padding stands in the last group only.
unfoldable pub decode_groups : Text → Option Bytes
unfolding decode_one_byte decode_two_bytes decode_three_bytes
decode_groups [] = some []
decode_groups (a ∷ b ∷ c ∷ d ∷ rest) =
    let more = decode_groups rest in
    if c == b'='
    then if d == b'=' && is_empty rest then decode_one_byte a b else none
    else if d == b'='
    then if is_empty rest then decode_two_bytes a b c else none
    else decode_three_bytes a b c d more
decode_groups _ = none

-- `DecodeString`
unfoldable pub decode_string : Text → Option Bytes
unfolding strip_breaks decode_groups
decode_string s = decode_groups (strip_breaks s)

-- `for n > 0 && s[n-1] == '=' { n-- }`
unfoldable pub strip_padding : Text → Text
strip_padding [] = []
strip_padding (c ∷ s) =
    let rest = strip_padding s in if is_empty rest && c == b'=' then [] else c ∷ rest

-- `base64DecodedLen`
unfoldable pub base64_decoded_len : Text → ℕ
unfolding strip_padding
base64_decoded_len s = len (strip_padding s) * 6 / 8

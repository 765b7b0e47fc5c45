-- ===== src/Base64/Size.antt =====
-- `base64DecodedLen` against the decoder.
use claude_distant.Base64.{
  Bytes, base64_decoded_len, decode_groups, decode_one_byte, decode_string, decode_three_bytes,
  decode_two_bytes, digit_of, strip_breaks, strip_padding,
}
use claude_distant.Common.{
  ==_iff, Bool-cases, List, Option, [], and-eq-true, arith, inl, inr, is_empty, length, refl, some,
  true, ℕ, ◌&&◌, ◌*◌, ◌++◌, ◌+◌, ◌/◌, ◌==◌, ◌∷◌, ◌≡◌, ◌≢◌,
}
use claude_distant.Common.Maybe.{bind-eq-some}
use claude_distant.Text.{Text, codes, len, utf8_len}

-- A character that is one byte of text and no padding.
abbrev IsPlain : ℕ → Type 0
IsPlain c = (c ≢ b'=') × (utf8_len c ≡ 1)

digit_of-IsPlain : (c i : ℕ) → digit_of c ≡ some i → IsPlain c
unfolding digit_of utf8_len
digit_of-IsPlain c i h = ground arith

module _ (a b : ℕ) (bytes : Bytes) where
  one_byte : decode_one_byte a b ≡ some bytes → IsPlain a × IsPlain b × (length bytes ≡ 1)
  unfolding decode_one_byte
  one_byte h =
      let (i, ea, h₁) = bind-eq-some (digit_of a) _ h in
      let (j, eb, h₂) = bind-eq-some (digit_of b) _ h₁ in
      (digit_of-IsPlain a i ea, digit_of-IsPlain b j eb, ground arith)

  two_bytes :
      (c : ℕ)
      → decode_two_bytes a b c ≡ some bytes
      → IsPlain a × IsPlain b × IsPlain c × (length bytes ≡ 2)
  unfolding decode_two_bytes
  two_bytes c h =
      let (i, ea, h₁) = bind-eq-some (digit_of a) _ h in
      let (j, eb, h₂) = bind-eq-some (digit_of b) _ h₁ in
      let (k, ec, h₃) = bind-eq-some (digit_of c) _ h₂ in
      (digit_of-IsPlain a i ea, digit_of-IsPlain b j eb, digit_of-IsPlain c k ec, ground arith)

  three_bytes :
      (c d : ℕ) (more : Option Bytes)
      → decode_three_bytes a b c d more ≡ some bytes
      → IsPlain a
        × IsPlain b
        × IsPlain c
        × IsPlain d
        × ((s : Bytes) × (more ≡ some s) × (length bytes ≡ 3 + length s))
  unfolding decode_three_bytes
  three_bytes c d more h =
      let (i, ea, h₁) = bind-eq-some (digit_of a) _ h in
      let (j, eb, h₂) = bind-eq-some (digit_of b) _ h₁ in
      let (k, ec, h₃) = bind-eq-some (digit_of c) _ h₂ in
      let (l, ed, h₄) = bind-eq-some (digit_of d) _ h₃ in
      let (s, em, h₅) = bind-eq-some more _ h₄ in
      (
        digit_of-IsPlain a i ea,
        digit_of-IsPlain b j eb,
        digit_of-IsPlain c k ec,
        digit_of-IsPlain d l ed,
        (s, em, ground arith),
      )

strip_padding-plain : (c : ℕ) (s : Text) → c ≢ b'=' → strip_padding (c ∷ s) ≡ c ∷ strip_padding s
unfolding strip_padding
strip_padding-plain c s h = ground arith

-- The text without its padding has one more byte for a plain character in front.
len-plain : (c : ℕ) (s : Text) → IsPlain c → len (strip_padding (c ∷ s)) ≡ 1 + len (strip_padding s)
len-plain c s h = rw (strip_padding-plain c s h.0) (unfold len in omega (arith, h.1))

padding : (c : ℕ) → c ≡ b'=' → strip_padding (c ∷ []) ≡ []
unfolding strip_padding
padding c h = ground arith

two_paddings : (c d : ℕ) → c ≡ b'=' → d ≡ b'=' → strip_padding (c ∷ d ∷ []) ≡ []
unfolding strip_padding
two_paddings c d h k = ground arith

Sized : Text → Bytes → Type 0
Sized s bytes = len (strip_padding s) * 6 / 8 ≡ length bytes

module _ (a b c d : ℕ) (bytes : Bytes) where
  Sized-one :
      c ≡ b'=' → d ≡ b'=' → decode_one_byte a b ≡ some bytes → Sized (a ∷ b ∷ c ∷ d ∷ []) bytes
  unfolding Sized
  Sized-one ec ed h =
      let (pa, pb, size) = one_byte a b bytes h in
      rw (len-plain a _ pa)
        (rw (len-plain b _ pb) (rw (two_paddings c d ec ed) (unfold len in omega (arith, size))))

  Sized-two : d ≡ b'=' → decode_two_bytes a b c ≡ some bytes → Sized (a ∷ b ∷ c ∷ d ∷ []) bytes
  unfolding Sized
  Sized-two ed h =
      let (pa, pb, pc, size) = two_bytes a b bytes c h in
      rw (len-plain a _ pa) (
        rw (len-plain b _ pb)
          (rw (len-plain c _ pc) (rw (padding d ed) (unfold len in omega (arith, size)))))

  Sized-three :
      (rest : Text) (s : Bytes)
      → IsPlain a × IsPlain b × IsPlain c × IsPlain d
      → Sized rest s
      → length bytes ≡ 3 + length s
      → Sized (a ∷ b ∷ c ∷ d ∷ rest) bytes
  unfolding Sized
  Sized-three rest s (pa, pb, pc, pd) ih size = rw (len-plain a _ pa) (
      rw (len-plain b _ pb)
        (rw (len-plain c _ pc) (rw (len-plain d _ pd) (omega (arith, size, ih)))))

-- The `if` of `decode_groups`, taken apart.
data GroupCase (a b c d : ℕ) (rest : Text) (bytes : Bytes) : Type 0 where
  last_one :
      c ≡ b'='
      → d ≡ b'='
      → rest ≡ []
      → decode_one_byte a b ≡ some bytes
      → GroupCase a b c d rest bytes
  last_two :
      d ≡ b'=' → rest ≡ [] → decode_two_bytes a b c ≡ some bytes → GroupCase a b c d rest bytes
  inner :
      decode_three_bytes a b c d (decode_groups rest) ≡ some bytes → GroupCase a b c d rest bytes

is_empty-eq-true {ℓ} : {A : Type ℓ} (s : List A) → is_empty s ≡ true → s ≡ []
is_empty-eq-true [] h = refl
is_empty-eq-true (x ∷ s) h = cc

group_case :
    (a b c d : ℕ) (rest : Text) (bytes : Bytes)
    → decode_groups (a ∷ b ∷ c ∷ d ∷ rest) ≡ some bytes
    → GroupCase a b c d rest bytes
unfolding decode_groups
group_case a b c d rest bytes h = elim (Bool-cases (c == b'=')) [
  | inl pc ↦ elim (Bool-cases (d == b'=' && is_empty rest)) [
    | inl pd ↦
        let (ed, er) = and-eq-true (d == b'=') (is_empty rest) pd in
        last_one ((==_iff c b'=').0 pc) ((==_iff d b'=').0 ed) (is_empty-eq-true rest er)
          (rw (pc, pd) at h)
    | inr pd ↦ cc (rw (pc, pd) at h)
  ]
  | inr pc ↦ elim (Bool-cases (d == b'=')) [
    | inl pd ↦ elim (Bool-cases (is_empty rest)) [
      | inl er ↦ last_two ((==_iff d b'=').0 pd) (is_empty-eq-true rest er) (rw (pc, pd, er) at h)
      | inr er ↦ cc (rw (pc, pd, er) at h)
    ]
    | inr pd ↦ inner (rw (pc, pd) at h)
  ]
]

groups_size : (s : Text) {bytes : Bytes} → decode_groups s ≡ some bytes → Sized s bytes
groups_size [] h = unfold decode_groups Sized strip_padding len in ground arith
groups_size (a ∷ []) h = unfold decode_groups in cc
groups_size (a ∷ b ∷ []) h = unfold decode_groups in cc
groups_size (a ∷ b ∷ c ∷ []) h = unfold decode_groups in cc
groups_size (a ∷ b ∷ c ∷ d ∷ rest) {bytes} h =
    by_case (group_case a b c d rest bytes h) (λ (s : Bytes) e. groups_size rest {bytes = s} e)
  where
    by_case :
        GroupCase a b c d rest bytes
        → ((s : Bytes) → decode_groups rest ≡ some s → Sized rest s)
        → Sized (a ∷ b ∷ c ∷ d ∷ rest) bytes
    by_case (last_one ec ed er e) ih = rw er (Sized-one a b c d bytes ec ed e)
    by_case (last_two ed er e) ih = rw er (Sized-two a b c d bytes ed e)
    by_case (inner e) ih =
        let (pa, pb, pc, pd, (s, em, size)) = three_bytes a b bytes c d (decode_groups rest) e in
        Sized-three a b c d bytes rest s (pa, pb, pc, pd) (ih s em) size

-- For a payload that decodes, `base64DecodedLen` of it without its line breaks is the exact number
-- of bytes that it decodes to.
pub base64_decoded_len-decode_string :
    (s : Text) {bytes : Bytes}
    → decode_string s ≡ some bytes
    → base64_decoded_len (strip_breaks s) ≡ length bytes
unfolding decode_string base64_decoded_len Sized
base64_decoded_len-decode_string s h = groups_size (strip_breaks s) h

abbrev pub eight_breaks : Text
eight_breaks = codes "\n\n\n\n\n\n\n\n"

break-IsPlain : IsPlain b'\n'
unfolding utf8_len
break-IsPlain = omega arith

-- The decoder passes over line breaks, and `base64DecodedLen` counts them: eight of them in front of
-- a payload leave what it decodes to, and add six to the size that is stated for it.
pub base64_decoded_len_overstates :
    (s : Text) {bytes : Bytes}
    → strip_breaks s ≡ s
    → decode_string s ≡ some bytes
    → (decode_string (eight_breaks ++ s) ≡ some bytes)
      × (base64_decoded_len (eight_breaks ++ s) ≡ length bytes + 6)
unfolding base64_decoded_len
base64_decoded_len_overstates s {bytes} e h =
    let exact : base64_decoded_len s ≡ length bytes =
      rw e at (base64_decoded_len-decode_string s h) in
    (
      (unfold decode_string strip_breaks in h),
      simp (λ (t : Text). len-plain b'\n' t break-IsPlain) (omega (arith, exact)),
    )

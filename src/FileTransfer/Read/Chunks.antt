-- ===== src/FileTransfer/Read/Chunks.antt =====
-- The bytes that a row of `file_chunk` messages carries.
use claude_distant.Base64.{Bytes, decode_string}
use claude_distant.Common.{
  Bool-cases, List, Option, [], ap, append-nil, append_assoc, arith, if◌then◌else◌, inl, inr,
  length, none, some, sym, true, ℕ, ◌++◌, ◌+◌, ◌==◌, ◌∙◌, ◌∷◌, ◌≡◌,
}
use claude_distant.Common.Maybe.{bind-eq-some, ◌>>=◌}
use claude_distant.FileTransfer.Read.{Chunk}

-- What the receiver makes of the chunks: it refuses a gap, a reordering and bad base64.
unfoldable pub reassemble : ℕ → List Chunk → Option Bytes
reassemble k [] = some []
reassemble k (c ∷ cs) =
    let rest = reassemble (k + 1) cs in
    if c.seq == k then (do b ← decode_string c.data_base64; more ← rest; some (b ++ more)) else none

pub reassemble-concat :
    (cs : List Chunk) (k : ℕ) {b p : Bytes} (c : Chunk)
    → reassemble k cs ≡ some b
    → c.seq ≡ k + length cs
    → decode_string c.data_base64 ≡ some p
    → reassemble k (cs ++ c ∷ []) ≡ some (b ++ p)
unfolding reassemble
reassemble-concat [] k {b} {p} c e s d =
    let same : (c.seq == k) ≡ true = ground arith in rw (same, d, ◌>>=◌) (cc (e, append-nil p))
reassemble-concat (c' ∷ cs) k {b} {p} c e s d = elim (Bool-cases (c'.seq == k)) [
  | inr no_match ↦ cc (rw no_match at e)
  | inl same ↦
      let (b', decoded, e₁) = bind-eq-some (decode_string c'.data_base64) _ (rw same at e) in
      let (more, tail, e₂) = bind-eq-some (reassemble (k + 1) cs) _ e₁ in
      let step = reassemble-concat cs (k + 1) {b = more} {p = p} c tail (omega (arith, s)) d in
      rw (same, decoded, ◌>>=◌)
        (rw (step, ◌>>=◌)
          (ap some (sym (append_assoc b' more p))
            ∙ ap (λ (x : Bytes). some (x ++ p)) (ground arith)))
]

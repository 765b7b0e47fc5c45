-- ===== src/FileTransfer/Read/Slice.antt =====
-- `readFileTransfer` as a whole: the requested slice of the file, or an error.
use claude_distant.Base64.{Bytes}
use claude_distant.Base64.RoundTrip.{AreBytes}
use claude_distant.Common.{
  Bool-cases, Option-cases, [], ap, arith, drop, false, inl, inr, is_empty, refl, suc, zero, ℕ, ◌∙◌,
  ◌∷◌, ◌≡◌, ◌⊎◌,
}
use claude_distant.Common.Int.{is_negative, pos_part}
use claude_distant.FileTransfer.{done, file_chunk_bytes, transfer_path}
use claude_distant.FileTransfer.Read.{
  Emit, ReadMeta, ReadOs, ReadResult, Reader, read_at, read_file_transfer, read_limit, read_loop,
  seek_and_send, send_file, start_loop,
}
use claude_distant.FileTransfer.Read.Chunks.{reassemble}
use claude_distant.FileTransfer.Read.Loop.{Going, Outcome, read_loop-Outcome}
use claude_distant.FileTransfer.Read.Whole.{IsExact, IsTruthful, report-IsTruthful}
use claude_distant.FileTransfer.Write.{stat}
use claude_distant.Protocol.{ReadFileParams}
use claude_distant.Text.{Text, trim_space}

pub All-drop : (n : ℕ) (s : Bytes) → AreBytes s → AreBytes (drop n s)
All-drop zero s h = h
All-drop (suc n) [] h = tt
All-drop (suc n) (x ∷ s) h = All-drop n s h.1

start-Going : (limit : ℕ) (f : Reader) → Going f.rest limit (start_loop f)
start-Going limit f = record {
  so_far = record { split = refl; assembled = unfold reassemble in refl; counted = refl };
  numbered = refl;
  within = omega arith;
}

module _ (os : ReadOs) (emit : Emit) (path : Text) (limit : ℕ) where
  pub loop-Outcome :
      (f : Reader)
      → AreBytes f.rest
      → Outcome f.rest limit (read_loop emit limit file_chunk_bytes (suc limit) (start_loop f))
  loop-Outcome f valid =
      read_loop-Outcome f.rest limit valid file_chunk_bytes (omega arith) emit (suc limit)
        (start_loop f) (start-Going limit f) (omega arith)

  send_file-IsTruthful :
      (f : Reader)
      → AreBytes f.rest
      → IsTruthful os path limit f.rest (send_file os emit path limit f)
  unfolding send_file
  send_file-IsTruthful f valid = report-IsTruthful os path limit f.rest _ (loop-Outcome f valid)

  seek_and_send-IsTruthful :
      (offset : ℕ) (f : Reader)
      → AreBytes f.rest
      → IsTruthful os path limit (drop offset f.rest) (seek_and_send os emit path offset limit f)
  unfolding seek_and_send
  seek_and_send-IsTruthful zero f valid info h = send_file-IsTruthful f valid info h
  seek_and_send-IsTruthful (suc offset) f valid info h = elim (Option-cases (os.seek_error path)) [
    | inr (e, bad) ↦ cc (rw (bad, seek_and_send) at h)
    | inl ok ↦
        rw (ok, seek_and_send)
          (send_file-IsTruthful (record f { rest = drop (suc offset) f.rest })
            (All-drop (suc offset) f.rest valid) info (rw (ok, seek_and_send) at h))
  ]

-- The files that can be opened hold bytes.
abbrev pub HoldsBytes : ReadOs → Type 0
HoldsBytes os = (path : Text) (f : Reader) → os.open_file path ≡ inr f → AreBytes f.rest

-- The result reads the slice of an open file that the parameters ask for.
abbrev pub IsSlice : ReadOs → Text → ℕ → ℕ → ReadResult → Type 0
IsSlice os path offset limit r =
    (f : Reader) × (os.open_file path ≡ inr f) × IsExact os path limit (drop offset f.rest) r

Sum-cases {ℓ} : {A B : Type ℓ} (s : A ⊎ B) → ((a : A) × (s ≡ inl a)) ⊎ ((b : B) × (s ≡ inr b))
Sum-cases (inl a) = inl (a, refl)
Sum-cases (inr b) = inr (b, refl)

module _ (os : ReadOs) (emit : Emit) (path : Text) (offset limit : ℕ) (valid : HoldsBytes os) where
  opened-IsSlice :
      (info : ReadMeta)
      → os.stat_is_dir path ≡ inr false
      → (read_at os emit path offset limit).1 ≡ done info
      → IsSlice os path offset limit (read_at os emit path offset limit)
  unfolding read_at
  opened-IsSlice info stat h = elim (Sum-cases (os.open_file path)) [
    | inl (e, bad) ↦ cc (rw (stat, bad, read_at) at h)
    | inr (f, ok) ↦
        rw (stat, ok, read_at)
          (
            f,
            refl,
            seek_and_send-IsTruthful os emit path limit offset f (valid path f ok) info
                (rw (stat, ok, read_at) at h),
          )
  ]

  read_at-IsSlice :
      (info : ReadMeta)
      → (read_at os emit path offset limit).1 ≡ done info
      → IsSlice os path offset limit (read_at os emit path offset limit)
  read_at-IsSlice info h = elim (Sum-cases (os.stat_is_dir path)) [
    | inl (e, bad) ↦ unfold read_at in cc (rw (bad, read_at) at h)
    | inr (is_dir, stat) ↦ elim (Bool-cases is_dir) [
      | inl dir ↦ unfold read_at in cc (rw (stat, dir, read_at) at h)
      | inr file ↦ opened-IsSlice info (stat ∙ ap inr file) h
    ]
  ]

-- If a read succeeds, then the chunks that were sent are numbered from 0 without a gap, and decode,
-- put together, to exactly the slice of the open file that the offset and the limit ask for; the
-- report names its size and hash, and says whether the file goes on. So a dropped connection or a
-- failing disk never looks like a complete transfer.
pub read_file_transfer-IsSlice :
    (os : ReadOs) (p : ReadFileParams) (emit : Emit) (info : ReadMeta)
    → HoldsBytes os
    → (read_file_transfer os p emit).1 ≡ done info
    → IsSlice os p.path (pos_part p.offset) (read_limit p.max_bytes) (read_file_transfer os p emit)
unfolding read_file_transfer transfer_path
read_file_transfer-IsSlice os p emit info valid h =
    elim (Bool-cases (is_empty (trim_space p.path))) [
      | inl missing ↦ cc (rw (missing, read_file_transfer) at h)
      | inr named ↦ elim (Bool-cases (is_negative p.offset)) [
        | inl bad ↦ cc (rw (named, bad, read_file_transfer) at h)
        | inr from ↦ elim (Bool-cases (is_negative p.max_bytes)) [
          | inl bad ↦ cc (rw (named, from, bad, read_file_transfer) at h)
          | inr most ↦
              rw (named, from, most, read_file_transfer)
                (read_at-IsSlice os emit p.path (pos_part p.offset) (read_limit p.max_bytes) valid
                  info (rw (named, from, most, read_file_transfer) at h))
        ]
      ]
    ]

-- ===== src/FileTransfer/Read/Success.antt =====
-- With a file that can be read and a connection that accepts the chunks, `readFileTransfer` succeeds.
use claude_distant.Base64.{Bytes, encode}
use claude_distant.Base64.RoundTrip.{AreBytes}
use claude_distant.Common.{
  Bool-cases, Option, [], ap, arith, drop, false, inl, inr, is_empty, ltb, none, refl, some, suc,
  zero, ℕ, ◌∙◌, ◌∷◌, ◌≡◌, ◌≢◌,
}
use claude_distant.Common.Int.{is_negative, pos_part}
use claude_distant.FileTransfer.{OsError, file_chunk_bytes, transfer_path}
use claude_distant.FileTransfer.Read.{
  Emit, LoopEnd, ReadEnd, ReadLoop, ReadOs, Reader, after_deliver, after_read, deliver, next_size,
  read_at, read_eof, read_error, read_file_transfer, read_full, read_full_buffer, read_limit,
  read_loop, seek_and_send, send_file, start_loop,
}
use claude_distant.FileTransfer.Read.Slice.{All-drop, loop-Outcome}
use claude_distant.FileTransfer.Read.Whole.{IsExact, Unstopped, report-IsExact}
use claude_distant.Protocol.{ReadFileParams}
use claude_distant.Text.{Text, trim_space}

module _ (emit : Emit) (accepts : (seq : ℕ) (s : Text) → emit seq s ≡ none) where
  deliver_accepted :
      (bytes : Bytes) (file : Reader) (st : ReadLoop)
      → ((deliver emit bytes file st).0 ≡ none) × ((deliver emit bytes file st).1.file ≡ file)
  unfolding deliver
  deliver_accepted [] file st = (refl, refl)
  deliver_accepted (x ∷ bytes) file st =
      rw (accepts st.seq (encode (x ∷ bytes)), deliver) (refl, refl)

  broken-read_full : (n : ℕ) (f : Reader) → (read_full n f).2.broken ≡ f.broken
  unfolding read_full
  broken-read_full n f = ground arith

  read_error_broken :
      (n : ℕ) (f : Reader) (e : OsError) → f.broken ≡ none → (read_full n f).1 ≢ read_error e
  unfolding read_full
  read_error_broken n f e h = ground arith

  after_deliver-Unstopped :
      (d : Option OsError × ReadLoop) (end : ReadEnd) (again : ReadLoop → LoopEnd)
      → d.0 ≡ none
      → ((e : OsError) → end ≢ read_error e)
      → Unstopped (again d.1)
      → Unstopped (after_deliver d end again)
  unfolding after_deliver after_read
  after_deliver-Unstopped (some e, st) end again h k u = cc
  after_deliver-Unstopped (none, st) (read_error e) again h k u = absurd (k e refl)
  after_deliver-Unstopped (none, st) read_eof again h k u = tt
  after_deliver-Unstopped (none, st) read_full_buffer again h k u = u

  read_loop-Unstopped :
      (limit chunk fuel : ℕ) (st : ReadLoop)
      → st.file.broken ≡ none
      → Unstopped (read_loop emit limit chunk fuel st)
  unfolding read_loop
  read_loop-Unstopped limit chunk zero st h = tt
  read_loop-Unstopped limit chunk (suc fuel) st h = elim (Bool-cases (ltb st.sent limit)) [
    | inr reached ↦ rw (reached, read_loop) tt
    | inl more ↦
        let n = next_size limit chunk st.sent in
        let (bytes, end, file) = read_full n st.file in
        let (ok, same) = deliver_accepted bytes file st in
        rw (more, read_loop)
          (after_deliver-Unstopped (deliver emit bytes file st) end _ ok
            (λ e. read_error_broken n st.file e h)
            (read_loop-Unstopped limit chunk fuel (deliver emit bytes file st).1
              (ap (λ (f : Reader). f.broken) same ∙ broken-read_full n st.file ∙ h)))
  ]

-- What a read needs of its parameters, the file and the connection.
pub record CanRead (os : ReadOs) (p : ReadFileParams) (emit : Emit) (f : Reader) : Type 0 where
  pub named : is_empty (trim_space p.path) ≡ false
  pub offset_ok : is_negative p.offset ≡ false
  pub max_bytes_ok : is_negative p.max_bytes ≡ false
  pub is_file : os.stat_is_dir p.path ≡ inr false
  pub opens : os.open_file p.path ≡ inr f
  pub seeks : os.seek_error p.path ≡ none
  pub unbroken : f.broken ≡ none
  pub bytes : AreBytes f.rest
  pub accepts : (seq : ℕ) (s : Text) → emit seq s ≡ none

module _ (os : ReadOs) (p : ReadFileParams) (emit : Emit) (f : Reader)
    (c : CanRead os p emit f) where
  send_file-IsExact :
      (limit : ℕ) (g : Reader)
      → g.broken ≡ none
      → AreBytes g.rest
      → IsExact os p.path limit g.rest (send_file os emit p.path limit g)
  unfolding send_file
  send_file-IsExact limit g whole valid =
      report-IsExact os p.path limit g.rest _ (loop-Outcome os emit p.path limit g valid)
        (read_loop-Unstopped emit c.accepts limit file_chunk_bytes (suc limit) (start_loop g) whole)

  seek_and_send-IsExact :
      (limit offset : ℕ)
      → IsExact os p.path limit (drop offset f.rest) (seek_and_send os emit p.path offset limit f)
  unfolding seek_and_send
  seek_and_send-IsExact limit zero = send_file-IsExact limit f c.unbroken c.bytes
  seek_and_send-IsExact limit (suc offset) =
      rw (c.seeks, seek_and_send)
        (send_file-IsExact limit (record f { rest = drop (suc offset) f.rest }) c.unbroken
          (All-drop (suc offset) f.rest c.bytes))

  -- A read of a file that can be read, over a connection that accepts every chunk, always ends, and
  -- succeeds with exactly the slice that the parameters ask for.
  pub read_file_transfer-IsExact :
      IsExact os p.path
        (read_limit p.max_bytes)
        (drop (pos_part p.offset) f.rest)
        (read_file_transfer os p emit)
  unfolding read_file_transfer transfer_path read_at
  read_file_transfer-IsExact =
      rw (c.named, c.offset_ok, c.max_bytes_ok, read_file_transfer)
        (rw (c.is_file, c.opens, read_at)
          (seek_and_send-IsExact (read_limit p.max_bytes) (pos_part p.offset)))

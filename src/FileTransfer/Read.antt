-- ===== src/FileTransfer/Read.antt =====
-- `readFileTransfer`: the checks, the loop that sends a file in chunks, and its report.
pub mod Chunks
pub mod Loop
pub mod Whole
pub mod Slice
pub mod Success
use claude_distant.Base64.{Bytes, encode}
use claude_distant.Common.{
  Bool, List, Option, [], drop, false, if◌then◌else◌, inl, inr, is_empty, leb, length, ltb, none,
  not, some, suc, take, true, zero, ℕ, ◌%◌, ◌&&◌, ◌++◌, ◌+◌, ◌-◌, ◌/◌, ◌∷◌, ◌⊎◌,
}
use claude_distant.Common.Int.{is_negative, is_positive, pos_part, ℤ}
use claude_distant.FileTransfer.{
  OsError, Transfer, TransferError, done, err_other, failed, file_chunk_bytes, file_error,
  invalid_params, is_a_directory, max_file_transfer_bytes, os_error, transfer_path,
}
use claude_distant.Protocol.{ReadFileParams}
use claude_distant.Text.{Text}

-- An open file: what is left to read, and the error that stands in place of its end.
pub record Reader : Type 0 where
  pub rest : Bytes
  pub broken : Option OsError

-- The error result of `io.ReadFull`: none, an end of file (early or not), or another error.
pub data ReadEnd : Type 0 where
  read_full_buffer read_eof : ReadEnd
  read_error : OsError → ReadEnd

abbrev pub end_of : Option OsError → ReadEnd
end_of none = read_eof
end_of (some e) = read_error e

-- `io.ReadFull` into `n` bytes.
unfoldable pub read_full : ℕ → Reader → Bytes × ReadEnd × Reader
read_full n f =
    if leb n (length f.rest)
    then (take n f.rest, read_full_buffer, record f { rest = drop n f.rest })
    else (f.rest, end_of f.broken, record f { rest = [] })

-- A `file_chunk` message's own fields.
pub record Chunk : Type 0 where
  pub seq : ℕ
  pub data_base64 : Text

-- The variables of the loop, with the bytes that the hash was given and the chunks that were handed
-- to `emit`.
pub record ReadLoop : Type 0 where
  pub file : Reader
  pub hashed : Bytes
  pub sent : ℕ
  pub seq : ℕ
  pub chunks : List Chunk

pub data LoopEnd : Type 0 where
  at_limit at_eof : ReadLoop → LoopEnd
  stopped : TransferError → ReadLoop → LoopEnd
  out_of_fuel : LoopEnd

-- `emit`, by the error that it returns.
abbrev pub Emit : Type 0
Emit = ℕ → Text → Option OsError

-- `hasher.Write`, `sent +=` and the hand-over of one chunk.
unfoldable pub hand_over : Bytes → Reader → ReadLoop → ReadLoop
hand_over bytes file st = record st {
  file = file;
  hashed = st.hashed ++ bytes;
  sent = st.sent + length bytes;
  chunks = st.chunks ++ (record { seq = st.seq; data_base64 = encode bytes } ∷ []);
}

-- The `if read > 0` block: the state behind it, and the error of `emit`.
unfoldable pub deliver : Emit → Bytes → Reader → ReadLoop → Option OsError × ReadLoop
unfolding hand_over
deliver emit [] file st = (none, record st { file = file })
deliver emit (x ∷ bytes) file st =
    let st' = hand_over (x ∷ bytes) file st in
    elim (emit st.seq (encode (x ∷ bytes))) [
      | some e ↦ (some e, st')
      | none ↦ (none, record st' { seq = st.seq + 1 })
    ]

-- The `if readErr != nil` block, with the next round behind it.
unfoldable pub after_read : ReadEnd → ReadLoop → (ReadLoop → LoopEnd) → LoopEnd
after_read read_full_buffer st again = again st
after_read read_eof st again = at_eof st
after_read (read_error e) st again = stopped (os_error e) st

unfoldable pub after_deliver : Option OsError × ReadLoop → ReadEnd → (ReadLoop → LoopEnd) → LoopEnd
after_deliver (some e, st) end again = stopped (os_error e) st
after_deliver (none, st) end again = after_read end st again

-- The size of the next read.
abbrev pub next_size : ℕ → ℕ → ℕ → ℕ
next_size limit chunk sent = if ltb (limit - sent) chunk then limit - sent else chunk

-- `for sent < limit`: a round ends the loop or sends something, so a fuel above `limit` is enough.
unfoldable pub read_loop : Emit → ℕ → ℕ → ℕ → ReadLoop → LoopEnd
unfolding read_full deliver after_read after_deliver
read_loop emit limit chunk zero st = out_of_fuel
read_loop emit limit chunk (suc fuel) st = elim (ltb st.sent limit) [
  | false ↦ at_limit st
  | true ↦
      let (bytes, end, file) = read_full (next_size limit chunk st.sent) st.file in
      after_deliver (deliver emit bytes file st) end (read_loop emit limit chunk fuel)
]

-- The system calls, and the hash of crypto/sha256.
pub record ReadOs : Type 0 where
  pub stat_is_dir : Text → OsError ⊎ Bool
  pub open_file : Text → OsError ⊎ Reader
  pub seek_error : Text → Option OsError
  pub sha256 : Bytes → Bytes

unfoldable pub hex_digit : ℕ → ℕ
hex_digit d = if ltb d 10 then b'0' + d else b'a' + (d - 10)

-- `hex.EncodeToString`
unfoldable pub hex : Bytes → Text
unfolding hex_digit
hex [] = []
hex (x ∷ s) = hex_digit (x / 16) ∷ hex_digit (x % 16) ∷ hex s

-- The `meta` object of a read.
pub record ReadMeta : Type 0 where
  pub path : Text
  pub size : ℕ
  pub sha256 : Text
  pub truncated : Bool

-- The chunks that were handed to `emit`, and the result.
abbrev pub ReadResult : Type 0
ReadResult = List Chunk × Transfer ReadMeta

abbrev pub refuse : TransferError → ReadResult
refuse e = ([], failed e)

-- Behind the loop: one more byte is probed for if the loop stopped on the limit. A failed probe
-- reads nothing.
unfoldable pub report : ReadOs → Text → LoopEnd → ReadResult
report os path (at_limit st) = (
  st.chunks,
  done (record {
    path = path;
    size = st.sent;
    sha256 = hex (os.sha256 st.hashed);
    truncated = not (is_empty st.file.rest);
  }),
)
report os path (at_eof st) = (
  st.chunks,
  done (record {
    path = path;
    size = st.sent;
    sha256 = hex (os.sha256 st.hashed);
    truncated = false;
  }),
)
report os path (stopped e st) = (st.chunks, failed e)
report os path out_of_fuel = ([], failed (os_error err_other))

-- `limit`
unfoldable pub read_limit : ℤ → ℕ
read_limit max_bytes =
    if is_positive max_bytes && ltb (pos_part max_bytes) max_file_transfer_bytes
    then pos_part max_bytes
    else max_file_transfer_bytes

abbrev pub start_loop : Reader → ReadLoop
start_loop f = record { file = f; hashed = []; sent = 0; seq = 0; chunks = [] }

-- The loop from its first round on.
unfoldable pub send_file : ReadOs → Emit → Text → ℕ → Reader → ReadResult
unfolding report
send_file os emit path limit f =
    report os path (read_loop emit limit file_chunk_bytes (suc limit) (start_loop f))

-- `if p.Offset > 0 { f.Seek(…) }`
unfoldable pub seek_and_send : ReadOs → Emit → Text → ℕ → ℕ → Reader → ReadResult
seek_and_send os emit path zero limit f = send_file os emit path limit f
seek_and_send os emit path (suc offset) limit f = elim (os.seek_error path) [
  | some e ↦ refuse (os_error e)
  | none ↦ send_file os emit path limit (record f { rest = drop (suc offset) f.rest })
]

-- From the `os.Stat` on.
unfoldable pub read_at : ReadOs → Emit → Text → ℕ → ℕ → ReadResult
unfolding seek_and_send
read_at os emit path offset limit = elim (os.stat_is_dir path) [
  | inl e ↦ refuse (os_error e)
  | inr true ↦ refuse (file_error is_a_directory)
  | inr false ↦ elim (os.open_file path) [
    | inl e ↦ refuse (os_error e)
    | inr f ↦ seek_and_send os emit path offset limit f
  ]
]

-- `readFileTransfer`
unfoldable pub read_file_transfer : ReadOs → ReadFileParams → Emit → ReadResult
unfolding read_at
read_file_transfer os p emit = elim (transfer_path p.path) [
  | failed e ↦ refuse e
  | done path ↦
      if is_negative p.offset
      then refuse (file_error invalid_params)
      else if is_negative p.max_bytes
      then refuse (file_error invalid_params)
      else read_at os emit path (pos_part p.offset) (read_limit p.max_bytes)
]

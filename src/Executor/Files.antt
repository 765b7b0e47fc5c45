-- ===== src/Executor/Files.antt =====
-- `handleReadFile` and `handleWriteFile` of client/executor.go.
use claude_distant.Activity.{ActivityKind, activity_file_read, activity_file_write}
use claude_distant.Base64.{base64_decoded_len}
use claude_distant.Common.{List, [], false, inl, inr, some, true, ℕ, ◌++◌, ◌+◌, ◌∷◌, ◌⊎◌}
use claude_distant.Common.Int.{pos}
use claude_distant.Executor.{
  Decision, Effect, Env, Executor, emit_activity, opened_for_read, opened_for_write,
  passes_guard_rail, send_result, send_result_with_meta, wrote,
}
use claude_distant.Executor.Run.{count_writes, decode_params}
use claude_distant.FileTransfer.{
  Transfer, TransferError, code_text, done, failed, file_error_code, invalid_params,
}
use claude_distant.FileTransfer.Read.{Chunk, Emit, ReadMeta, read_file_transfer}
use claude_distant.FileTransfer.Write.{WriteMeta, write_file_transfer}
use claude_distant.Protocol.{
  CommandMessage, Meta, ReadFileParams, WriteFileParams, bool_value, new_file_chunk_message,
  number_value, text_value, zero_read_file_params, zero_write_file_params,
}
use claude_distant.Text.{Text, codes}
use claude_distant.Text.Decimal.{decimal}

-- `sendChunk`, by the error of its write; `n` counts the writes before the first chunk.
unfoldable pub send_chunk : Env → Text → ℕ → Emit
send_chunk env id n seq text = env.write_error (n + seq) (new_file_chunk_message id seq text)

unfoldable pub chunk_effects : Text → List Chunk → List Effect
chunk_effects id [] = []
chunk_effects id (c ∷ cs) =
    wrote (new_file_chunk_message id c.seq c.data_base64) ∷ chunk_effects id cs

unfoldable pub read_meta : ReadMeta → Meta
read_meta info =
    (codes "path", text_value info.path)
    ∷ (codes "size", number_value info.size)
    ∷ (codes "sha256", text_value info.sha256)
    ∷ (codes "truncated", bool_value info.truncated)
    ∷ []

unfoldable pub write_meta : WriteMeta → Meta
write_meta info =
    (codes "path", text_value info.path)
    ∷ (codes "bytes_written", number_value info.bytes_written)
    ∷ (codes "sha256", text_value info.sha256)
    ∷ []

-- The event and the result of a transfer that failed.
unfoldable pub report_failure : Executor → ActivityKind → Text → Text → TransferError → List Effect
unfolding send_result code_text
report_failure e kind id path err =
    let err_code = code_text (file_error_code err) in
    emit_activity e kind (codes "échec: " ++ (path ++ (codes " (" ++ (err_code ++ codes ")"))))
    ++ send_result e id (pos 1) err_code

-- The event and the result of a transfer that succeeded.
unfoldable pub report_success : Executor → ActivityKind → Text → Text → ℕ → Meta → List Effect
unfolding send_result_with_meta
report_success e kind id path size info =
    emit_activity e kind (path ++ (codes " (" ++ (decimal size ++ codes " octets)")))
    ++ send_result_with_meta e id (pos 0) [] (some info)

unfoldable pub report_read : Executor → Text → Text → Transfer ReadMeta → List Effect
unfolding report_failure report_success read_meta
report_read e id path (failed err) = report_failure e activity_file_read id path err
report_read e id path (done info) =
    report_success e activity_file_read id path info.size (read_meta info)

unfoldable pub report_write : Executor → Text → Text → Transfer WriteMeta → List Effect
unfolding report_failure report_success write_meta
report_write e id path (failed err) = report_failure e activity_file_write id path err
report_write e id path (done info) =
    report_success e activity_file_write id path info.bytes_written (write_meta info)

-- Behind the guard rail, for a read.
unfoldable pub read_if_passed : Env → Text → ReadFileParams → Decision → List Effect × Executor
unfolding send_chunk chunk_effects report_read
read_if_passed env id p (false, effects, e) = (effects, e)
read_if_passed env id p (true, effects, e) =
    let (chunks, outcome) =
      read_file_transfer env.read_os p (send_chunk env id (count_writes effects)) in
    (
      effects ++ (opened_for_read p ∷ (chunk_effects id chunks ++ report_read e id p.path outcome)),
      e,
    )

-- Behind the decoding of the params, for a read.
unfoldable pub read_decoded : Env → Executor → Text → Text ⊎ ReadFileParams → List Effect × Executor
unfolding read_if_passed
read_decoded env e id (inl err) = (send_result e id (pos 1) (code_text invalid_params), e)
read_decoded env e id (inr p) =
    read_if_passed env id p (passes_guard_rail env e id (codes "read_file " ++ p.path))

-- `handleReadFile`
unfoldable pub handle_read_file : Env → Executor → CommandMessage → List Effect × Executor
unfolding read_decoded
handle_read_file env e cmd =
    read_decoded env e cmd.request_id
      (decode_params env.json.unmarshal_read_file zero_read_file_params cmd.params)

-- Behind the guard rail, for a write.
unfoldable pub write_if_passed : Env → Text → WriteFileParams → Decision → List Effect × Executor
unfolding report_write
write_if_passed env id p (false, effects, e) = (effects, e)
write_if_passed env id p (true, effects, e) =
    let (fs', outcome) = write_file_transfer env.write_os p e.fs in
    (effects ++ (opened_for_write p ∷ report_write e id p.path outcome), record e { fs = fs' })

-- What the operator is shown of a write.
unfoldable pub write_description : WriteFileParams → Text
write_description p =
    codes "write_file "
    ++ (p.path
        ++ (codes " (" ++ (decimal (base64_decoded_len p.content_base64) ++ codes " octets)")))

-- Behind the decoding of the params, for a write.
unfoldable pub write_decoded :
    Env → Executor → Text → Text ⊎ WriteFileParams → List Effect × Executor
unfolding write_if_passed write_description
write_decoded env e id (inl err) = (send_result e id (pos 1) (code_text invalid_params), e)
write_decoded env e id (inr p) =
    write_if_passed env id p (passes_guard_rail env e id (write_description p))

-- `handleWriteFile`
unfoldable pub handle_write_file : Env → Executor → CommandMessage → List Effect × Executor
unfolding write_decoded
handle_write_file env e cmd =
    write_decoded env e cmd.request_id
      (decode_params env.json.unmarshal_write_file zero_write_file_params cmd.params)

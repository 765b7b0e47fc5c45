-- ===== src/Executor/Granted.antt =====
-- `Handle` of client/executor.go acts on the machine only as the guard rail allows.
use claude_distant.Activity.{activity_command}
use claude_distant.Common.{
  All, All-append, Bool, List, [], false, inl, inr, refl, true, ℕ, ◌++◌, ◌∷◌, ◌≡◌, ◌⊎◌,
}
use claude_distant.Common.Int.{pos, ℤ}
use claude_distant.Executor.{
  Command, Decision, Effect, Env, Executor, guard_by, opened_for_read, opened_for_write,
  passes_guard_rail, started,
}
use claude_distant.Executor.Calm.{
  report_read-IsCalm, report_system_info-IsCalm, report_write-IsCalm, run_result-IsCalm,
}
use claude_distant.Executor.Effects.{chunk_effects-All, emit_activity-All, start_and_stream-All}
use claude_distant.Executor.Files.{
  chunk_effects, handle_read_file, handle_write_file, read_decoded, read_if_passed, report_read,
  report_write, send_chunk, write_decoded, write_description, write_if_passed,
}
use claude_distant.Executor.Gate.{
  IsCalm, IsGranted, IsSound, calm-IsGranted, guard_by-IsSound, send_result-IsCalm,
}
use claude_distant.Executor.Handle.{
  Tool, dispatch, handle, handle_system_info, tool_of, tool_read_file, tool_run_command,
  tool_run_shell, tool_system_info, tool_unknown, tool_write_file,
}
use claude_distant.Executor.Run.{
  build_and_launch, count_writes, decode_params, guard_run, launch, run_and_stream, run_decoded,
  run_if_passed, run_result, run_shell_or_command, run_unless_blank, start_and_stream,
}
use claude_distant.FileTransfer.{code_text, invalid_params}
use claude_distant.FileTransfer.Read.{read_file_transfer}
use claude_distant.FileTransfer.Write.{write_file_transfer}
use claude_distant.Policy.{get}
use claude_distant.Policy.Patterns.{is_destructive}
use claude_distant.Protocol.{
  CommandMessage, ReadFileParams, RunParams, WriteFileParams, zero_read_file_params,
  zero_run_params, zero_write_file_params,
}
use claude_distant.Text.{Text, codes}

module _ (env : Env) (e : Executor) (cmd : CommandMessage) where
  append-IsGranted :
      (xs ys : List Effect)
      → All IsCalm xs
      → All (IsGranted env e cmd) ys
      → All (IsGranted env e cmd) (xs ++ ys)
  append-IsGranted xs ys h k =
      All-append (IsGranted env e cmd) xs ys (calm-IsGranted env e cmd xs h) k

  launch-IsGranted :
      (e' : Executor) (id : Text) (n : ℕ) (timeout : ℤ) (built : Text ⊎ Command)
      → ((command : Command) → IsGranted env e cmd (started command))
      → All (IsGranted env e cmd) (launch env e' id n timeout built)
  unfolding launch run_and_stream
  launch-IsGranted e' id n timeout (inl err) h =
      calm-IsGranted env e cmd _ (send_result-IsCalm e' id (pos 1) err)
  launch-IsGranted e' id n timeout (inr command) h =
      let proc = env.run_process command timeout in
      let ran = start_and_stream proc.pipe_error proc.start_error env id n command proc in
      let answer = run_result e' id proc.deadline_passed ran.0 ran.1 in
      All-append (IsGranted env e cmd) ran.2 answer
        (start_and_stream-All (IsGranted env e cmd) proc.pipe_error proc.start_error env id n
          command proc (h command) tt (λ kind text. tt))
        (calm-IsGranted env e cmd answer (run_result-IsCalm e' id proc.deadline_passed ran.0 ran.1))

  run_if_passed-IsGranted :
      (id : Text) (use_shell : Bool) (p : RunParams) (d : Decision)
      → All IsCalm d.1
      → (d.0 ≡ true → (command : Command) → IsGranted env e cmd (started command))
      → All (IsGranted env e cmd) (run_if_passed env id use_shell p d).0
  unfolding run_if_passed build_and_launch
  run_if_passed-IsGranted id use_shell p (true, es, e') h k =
      append-IsGranted es _ h (launch-IsGranted e' id _ _ _ (k refl))
  run_if_passed-IsGranted id use_shell p (false, es, e') h k = calm-IsGranted env e cmd es h

  guard_run-IsGranted :
      (id : Text) (use_shell destructive : Bool) (p : RunParams)
      → decode_params env.json.unmarshal_run zero_run_params cmd.params ≡ inr p
      → is_destructive p.command ≡ destructive
      → All
          (IsGranted env e cmd)
          (run_if_passed env id use_shell p (guard_run destructive env e id p.command)).0
  unfolding guard_run passes_guard_rail
  guard_run-IsGranted id use_shell true p h k =
      let s = guard_by-IsSound (get e.policy) env e id p.command in
      run_if_passed-IsGranted id use_shell p (guard_by (get e.policy) env e id p.command) s.calm
        (λ passed command. (p, h, inr (s.rightful passed)))
  guard_run-IsGranted id use_shell false p h k =
      run_if_passed-IsGranted id use_shell p (true, [], e) tt (λ passed command. (p, h, inl k))

  run_unless_blank-IsGranted :
      (id : Text) (blank use_shell : Bool) (p : RunParams)
      → decode_params env.json.unmarshal_run zero_run_params cmd.params ≡ inr p
      → All (IsGranted env e cmd) (run_unless_blank blank env e id use_shell p).0
  unfolding run_unless_blank
  run_unless_blank-IsGranted id true use_shell p h =
      calm-IsGranted env e cmd _ (send_result-IsCalm e id (pos 1) (codes "params.command manquant"))
  run_unless_blank-IsGranted id false use_shell p h =
      guard_run-IsGranted id use_shell (is_destructive p.command) p h refl

  run_decoded-IsGranted :
      (id : Text) (use_shell : Bool) (params : Text ⊎ RunParams)
      → decode_params env.json.unmarshal_run zero_run_params cmd.params ≡ params
      → All (IsGranted env e cmd) (run_decoded env e id use_shell params).0
  unfolding run_decoded
  run_decoded-IsGranted id use_shell (inl err) h =
      calm-IsGranted env e cmd _
        (send_result-IsCalm e id (pos 1) (codes "params invalides: " ++ err))
  run_decoded-IsGranted id use_shell (inr p) h = run_unless_blank-IsGranted id _ use_shell p h

  read_if_passed-IsGranted :
      (id : Text) (p : ReadFileParams) (d : Decision)
      → decode_params env.json.unmarshal_read_file zero_read_file_params cmd.params ≡ inr p
      → IsSound (get e.policy) env e (codes "read_file " ++ p.path) d
      → All (IsGranted env e cmd) (read_if_passed env id p d).0
  unfolding read_if_passed
  read_if_passed-IsGranted id p (false, es, e') h s = calm-IsGranted env e cmd es s.calm
  read_if_passed-IsGranted id p (true, es, e') h s =
      let (chunks, outcome) =
        read_file_transfer env.read_os p (send_chunk env id (count_writes es)) in
      let sent = chunk_effects id chunks in
      let answer = report_read e' id p.path outcome in
      append-IsGranted es (opened_for_read p ∷ (sent ++ answer)) s.calm (
        (h, s.rightful refl),
        append-IsGranted sent answer (chunk_effects-All IsCalm id chunks (λ seq text. tt))
            (calm-IsGranted env e cmd answer (report_read-IsCalm e' id p.path outcome)),
      )

  write_if_passed-IsGranted :
      (id : Text) (p : WriteFileParams) (d : Decision)
      → decode_params env.json.unmarshal_write_file zero_write_file_params cmd.params ≡ inr p
      → IsSound (get e.policy) env e (write_description p) d
      → All (IsGranted env e cmd) (write_if_passed env id p d).0
  unfolding write_if_passed
  write_if_passed-IsGranted id p (false, es, e') h s = calm-IsGranted env e cmd es s.calm
  write_if_passed-IsGranted id p (true, es, e') h s =
      let outcome = (write_file_transfer env.write_os p e'.fs).1 in
      let answer = report_write e' id p.path outcome in
      append-IsGranted es (opened_for_write p ∷ answer) s.calm (
        (h, s.rightful refl),
        calm-IsGranted env e cmd answer (report_write-IsCalm e' id p.path outcome),
      )

  read_decoded-IsGranted :
      (id : Text) (params : Text ⊎ ReadFileParams)
      → decode_params env.json.unmarshal_read_file zero_read_file_params cmd.params ≡ params
      → All (IsGranted env e cmd) (read_decoded env e id params).0
  unfolding read_decoded passes_guard_rail
  read_decoded-IsGranted id (inl err) h =
      calm-IsGranted env e cmd _ (send_result-IsCalm e id (pos 1) (code_text invalid_params))
  read_decoded-IsGranted id (inr p) h =
      read_if_passed-IsGranted id p _ h (guard_by-IsSound (get e.policy) env e id _)

  write_decoded-IsGranted :
      (id : Text) (params : Text ⊎ WriteFileParams)
      → decode_params env.json.unmarshal_write_file zero_write_file_params cmd.params ≡ params
      → All (IsGranted env e cmd) (write_decoded env e id params).0
  unfolding write_decoded passes_guard_rail
  write_decoded-IsGranted id (inl err) h =
      calm-IsGranted env e cmd _ (send_result-IsCalm e id (pos 1) (code_text invalid_params))
  write_decoded-IsGranted id (inr p) h =
      write_if_passed-IsGranted id p _ h (guard_by-IsSound (get e.policy) env e id _)

  dispatch-IsGranted : (t : Tool) → All (IsGranted env e cmd) (dispatch t env e cmd).0
  unfolding dispatch run_shell_or_command handle_system_info handle_read_file handle_write_file
  dispatch-IsGranted tool_run_shell = run_decoded-IsGranted cmd.request_id true _ refl
  dispatch-IsGranted tool_run_command = run_decoded-IsGranted cmd.request_id false _ refl
  dispatch-IsGranted tool_system_info =
      calm-IsGranted env e cmd _ (report_system_info-IsCalm e cmd.request_id env.collected_info)
  dispatch-IsGranted tool_read_file = read_decoded-IsGranted cmd.request_id _ refl
  dispatch-IsGranted tool_write_file = write_decoded-IsGranted cmd.request_id _ refl
  dispatch-IsGranted tool_unknown =
      calm-IsGranted env e cmd _
        (send_result-IsCalm e cmd.request_id (pos 1) (codes "outil inconnu: " ++ cmd.tool))

-- Every effect of a handled command is within its rights. A process starts only if the command
-- matches no destructive pattern, or the policy lets it pass: `auto` always does, `confirm` if the
-- operator approved this very command now or for always, `deny` never. A file is opened, to read or
-- to write, only if the policy lets that pass in the same way, whatever the path.
pub handle-IsGranted :
    (env : Env) (e : Executor) (cmd : CommandMessage)
    → All (IsGranted env e cmd) (handle env e cmd).0
unfolding handle
handle-IsGranted env e cmd =
    append-IsGranted env e cmd _ _ (emit_activity-All IsCalm e activity_command _ tt)
      (dispatch-IsGranted env e cmd (tool_of cmd.tool))

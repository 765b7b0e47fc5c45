-- ===== src/Executor/OneResult.antt =====
-- `Handle` of client/executor.go answers a command exactly once.
use claude_distant.Activity.{
  ActivityKind, activity_command, activity_file_read, activity_file_write,
}
use claude_distant.Common.{Bool, Option, [], false, inl, inr, none, some, true, ℕ, ◌++◌, ◌∷◌, ◌⊎◌}
use claude_distant.Common.Int.{pos, ℤ}
use claude_distant.Executor.{Command, Decision, Env, Executor, passes_guard_rail}
use claude_distant.Executor.Answering.{
  Answers, AnswersOnce, IsNoResult, behind, guard_by-Answers, send_result-AnswersOnce,
  send_result_with_meta-AnswersOnce,
}
use claude_distant.Executor.Effects.{chunk_effects-All, emit_activity-All, start_and_stream-All}
use claude_distant.Executor.Files.{
  handle_read_file, handle_write_file, read_decoded, read_if_passed, report_failure, report_read,
  report_success, report_write, write_decoded, write_if_passed,
}
use claude_distant.Executor.Handle.{
  Tool, dispatch, handle, handle_system_info, report_system_info, tool_of, tool_read_file,
  tool_run_command, tool_run_shell, tool_system_info, tool_unknown, tool_write_file,
}
use claude_distant.Executor.Run.{
  build_and_launch, guard_run, launch, run_and_stream, run_decoded, run_if_passed, run_result,
  run_shell_or_command, run_unless_blank,
}
use claude_distant.FileTransfer.{Transfer, TransferError, code_text, done, failed, invalid_params}
use claude_distant.FileTransfer.Read.{ReadMeta}
use claude_distant.FileTransfer.Write.{WriteMeta}
use claude_distant.Policy.{get}
use claude_distant.Policy.Patterns.{is_destructive}
use claude_distant.Protocol.{CommandMessage, Meta, ReadFileParams, RunParams, WriteFileParams}
use claude_distant.Text.{Text, codes}

run_result-AnswersOnce :
    (e : Executor) (id : Text) (late : Bool) (exit_code : ℤ) (err : Option Text)
    → AnswersOnce id (run_result e id late exit_code err)
unfolding run_result
run_result-AnswersOnce e id true exit_code err = send_result-AnswersOnce e id exit_code _
run_result-AnswersOnce e id false exit_code (some err) = send_result-AnswersOnce e id exit_code err
run_result-AnswersOnce e id false exit_code none = send_result-AnswersOnce e id exit_code []

launch-AnswersOnce :
    (env : Env) (e : Executor) (id : Text) (n : ℕ) (timeout : ℤ) (built : Text ⊎ Command)
    → AnswersOnce id (launch env e id n timeout built)
unfolding launch run_and_stream
launch-AnswersOnce env e id n timeout (inl err) = send_result-AnswersOnce e id (pos 1) err
launch-AnswersOnce env e id n timeout (inr command) =
    behind _ (start_and_stream-All IsNoResult _ _ env id n command _ tt tt (λ kind text. tt))
      (run_result-AnswersOnce e id _ _ _)

run_if_passed-AnswersOnce :
    (env : Env) (id : Text) (use_shell : Bool) (p : RunParams) (d : Decision)
    → Answers id d
    → AnswersOnce id (run_if_passed env id use_shell p d).0
unfolding run_if_passed build_and_launch
run_if_passed-AnswersOnce env id use_shell p (true, es, e) h =
    behind es h (launch-AnswersOnce env e id _ _ _)
run_if_passed-AnswersOnce env id use_shell p (false, es, e) h = h

guard_run-Answers :
    (destructive : Bool) (env : Env) (e : Executor) (id d : Text)
    → Answers id (guard_run destructive env e id d)
unfolding guard_run passes_guard_rail
guard_run-Answers true env e id d = guard_by-Answers (get e.policy) env e id d
guard_run-Answers false env e id d = tt

module _ (env : Env) (e : Executor) (id : Text) where
  run_unless_blank-AnswersOnce :
      (blank use_shell : Bool) (p : RunParams)
      → AnswersOnce id (run_unless_blank blank env e id use_shell p).0
  unfolding run_unless_blank
  run_unless_blank-AnswersOnce true use_shell p =
      send_result-AnswersOnce e id (pos 1) (codes "params.command manquant")
  run_unless_blank-AnswersOnce false use_shell p =
      run_if_passed-AnswersOnce env id use_shell p _
        (guard_run-Answers (is_destructive p.command) env e id p.command)

  run_decoded-AnswersOnce :
      (use_shell : Bool) (params : Text ⊎ RunParams)
      → AnswersOnce id (run_decoded env e id use_shell params).0
  unfolding run_decoded
  run_decoded-AnswersOnce use_shell (inl err) =
      send_result-AnswersOnce e id (pos 1) (codes "params invalides: " ++ err)
  run_decoded-AnswersOnce use_shell (inr p) = run_unless_blank-AnswersOnce _ use_shell p

  report_system_info-AnswersOnce :
      (collected : Text ⊎ Text) → AnswersOnce id (report_system_info e id collected)
  unfolding report_system_info
  report_system_info-AnswersOnce (inl err) = send_result-AnswersOnce e id (pos 1) err
  report_system_info-AnswersOnce (inr payload) =
      behind (_ ∷ []) (tt, tt) (send_result-AnswersOnce e id (pos 0) [])

  report_failure-AnswersOnce :
      (kind : ActivityKind) (path : Text) (err : TransferError)
      → AnswersOnce id (report_failure e kind id path err)
  unfolding report_failure
  report_failure-AnswersOnce kind path err =
      behind _ (emit_activity-All IsNoResult e kind _ tt) (send_result-AnswersOnce e id (pos 1) _)

  report_success-AnswersOnce :
      (kind : ActivityKind) (path : Text) (size : ℕ) (info : Meta)
      → AnswersOnce id (report_success e kind id path size info)
  unfolding report_success
  report_success-AnswersOnce kind path size info =
      behind _ (emit_activity-All IsNoResult e kind _ tt)
        (send_result_with_meta-AnswersOnce e id (pos 0) [] (some info))

  report_read-AnswersOnce :
      (path : Text) (t : Transfer ReadMeta) → AnswersOnce id (report_read e id path t)
  unfolding report_read
  report_read-AnswersOnce path (failed err) = report_failure-AnswersOnce activity_file_read path err
  report_read-AnswersOnce path (done info) = report_success-AnswersOnce activity_file_read path _ _

  report_write-AnswersOnce :
      (path : Text) (t : Transfer WriteMeta) → AnswersOnce id (report_write e id path t)
  unfolding report_write
  report_write-AnswersOnce path (failed err) =
      report_failure-AnswersOnce activity_file_write path err
  report_write-AnswersOnce path (done info) =
      report_success-AnswersOnce activity_file_write path _ _

module _ (env : Env) (id : Text) where
  read_if_passed-AnswersOnce :
      (p : ReadFileParams) (d : Decision)
      → Answers id d
      → AnswersOnce id (read_if_passed env id p d).0
  unfolding read_if_passed
  read_if_passed-AnswersOnce p (false, es, e) h = h
  read_if_passed-AnswersOnce p (true, es, e) h = behind es h (
      behind (_ ∷ []) (tt, tt)
        (behind _ (chunk_effects-All IsNoResult id _ (λ seq text. tt))
          (report_read-AnswersOnce env e id p.path _)))

  write_if_passed-AnswersOnce :
      (p : WriteFileParams) (d : Decision)
      → Answers id d
      → AnswersOnce id (write_if_passed env id p d).0
  unfolding write_if_passed
  write_if_passed-AnswersOnce p (false, es, e) h = h
  write_if_passed-AnswersOnce p (true, es, e) h =
      behind es h (behind (_ ∷ []) (tt, tt) (report_write-AnswersOnce env e id p.path _))

  read_decoded-AnswersOnce :
      (e : Executor) (params : Text ⊎ ReadFileParams)
      → AnswersOnce id (read_decoded env e id params).0
  unfolding read_decoded passes_guard_rail
  read_decoded-AnswersOnce e (inl err) =
      send_result-AnswersOnce e id (pos 1) (code_text invalid_params)
  read_decoded-AnswersOnce e (inr p) =
      read_if_passed-AnswersOnce p _ (guard_by-Answers (get e.policy) env e id _)

  write_decoded-AnswersOnce :
      (e : Executor) (params : Text ⊎ WriteFileParams)
      → AnswersOnce id (write_decoded env e id params).0
  unfolding write_decoded passes_guard_rail
  write_decoded-AnswersOnce e (inl err) =
      send_result-AnswersOnce e id (pos 1) (code_text invalid_params)
  write_decoded-AnswersOnce e (inr p) =
      write_if_passed-AnswersOnce p _ (guard_by-Answers (get e.policy) env e id _)

dispatch-AnswersOnce :
    (t : Tool) (env : Env) (e : Executor) (cmd : CommandMessage)
    → AnswersOnce cmd.request_id (dispatch t env e cmd).0
unfolding dispatch run_shell_or_command handle_system_info handle_read_file handle_write_file
dispatch-AnswersOnce tool_run_shell env e cmd = run_decoded-AnswersOnce env e cmd.request_id true _
dispatch-AnswersOnce tool_run_command env e cmd =
    run_decoded-AnswersOnce env e cmd.request_id false _
dispatch-AnswersOnce tool_system_info env e cmd =
    report_system_info-AnswersOnce env e cmd.request_id env.collected_info
dispatch-AnswersOnce tool_read_file env e cmd = read_decoded-AnswersOnce env cmd.request_id e _
dispatch-AnswersOnce tool_write_file env e cmd = write_decoded-AnswersOnce env cmd.request_id e _
dispatch-AnswersOnce tool_unknown env e cmd =
    send_result-AnswersOnce e cmd.request_id (pos 1) (codes "outil inconnu: " ++ cmd.tool)

-- Whatever the tool, the parameters, the policy and the operator's answer, and whatever goes wrong
-- outside, a handled command is answered exactly once: the last effect writes a result for its
-- request, and no effect before it writes a result of any request.
pub handle-AnswersOnce :
    (env : Env) (e : Executor) (cmd : CommandMessage)
    → AnswersOnce cmd.request_id (handle env e cmd).0
unfolding handle
handle-AnswersOnce env e cmd =
    behind _ (emit_activity-All IsNoResult e activity_command _ tt)
      (dispatch-AnswersOnce (tool_of cmd.tool) env e cmd)

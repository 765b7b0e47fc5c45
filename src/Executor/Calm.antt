-- ===== src/Executor/Calm.antt =====
-- What the handlers of client/executor.go report touches nothing on the machine.
use claude_distant.Activity.{ActivityKind, activity_file_read, activity_file_write}
use claude_distant.Common.{
  All, All-append, Bool, Option, [], false, inl, inr, none, some, true, ℕ, ◌⊎◌,
}
use claude_distant.Common.Int.{pos, ℤ}
use claude_distant.Executor.{Executor}
use claude_distant.Executor.Effects.{emit_activity-All}
use claude_distant.Executor.Files.{report_failure, report_read, report_success, report_write}
use claude_distant.Executor.Gate.{IsCalm, send_result-IsCalm, send_result_with_meta-IsCalm}
use claude_distant.Executor.Handle.{report_system_info}
use claude_distant.Executor.Run.{run_result}
use claude_distant.FileTransfer.{Transfer, TransferError, done, failed}
use claude_distant.FileTransfer.Read.{ReadMeta}
use claude_distant.FileTransfer.Write.{WriteMeta}
use claude_distant.Protocol.{Meta}
use claude_distant.Text.{Text}

module _ (e : Executor) (id : Text) where
  report_failure-IsCalm :
      (kind : ActivityKind) (path : Text) (err : TransferError)
      → All IsCalm (report_failure e kind id path err)
  unfolding report_failure
  report_failure-IsCalm kind path err =
      All-append IsCalm _ _ (emit_activity-All IsCalm e kind _ tt)
        (send_result-IsCalm e id (pos 1) _)

  report_success-IsCalm :
      (kind : ActivityKind) (path : Text) (size : ℕ) (info : Meta)
      → All IsCalm (report_success e kind id path size info)
  unfolding report_success
  report_success-IsCalm kind path size info =
      All-append IsCalm _ _ (emit_activity-All IsCalm e kind _ tt)
        (send_result_with_meta-IsCalm e id (pos 0) [] (some info))

  pub report_read-IsCalm :
      (path : Text) (t : Transfer ReadMeta) → All IsCalm (report_read e id path t)
  unfolding report_read
  report_read-IsCalm path (failed err) = report_failure-IsCalm activity_file_read path err
  report_read-IsCalm path (done info) = report_success-IsCalm activity_file_read path _ _

  pub report_write-IsCalm :
      (path : Text) (t : Transfer WriteMeta) → All IsCalm (report_write e id path t)
  unfolding report_write
  report_write-IsCalm path (failed err) = report_failure-IsCalm activity_file_write path err
  report_write-IsCalm path (done info) = report_success-IsCalm activity_file_write path _ _

  pub run_result-IsCalm :
      (late : Bool) (exit_code : ℤ) (err : Option Text)
      → All IsCalm (run_result e id late exit_code err)
  unfolding run_result
  run_result-IsCalm true exit_code err = send_result-IsCalm e id exit_code _
  run_result-IsCalm false exit_code (some err) = send_result-IsCalm e id exit_code err
  run_result-IsCalm false exit_code none = send_result-IsCalm e id exit_code []

  pub report_system_info-IsCalm :
      (collected : Text ⊎ Text) → All IsCalm (report_system_info e id collected)
  unfolding report_system_info
  report_system_info-IsCalm (inl err) = send_result-IsCalm e id (pos 1) err
  report_system_info-IsCalm (inr payload) = (tt, send_result-IsCalm e id (pos 0) [])

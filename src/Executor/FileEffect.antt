-- ===== src/Executor/FileEffect.antt =====
-- The files that the handlers of client/executor.go change themselves; what a started process does is
-- not their doing.
-- One write of the payload that the command's parameters hold, which may pass.
use claude_distant.Common.{Bool, ap, false, inl, inr, refl, true, ◌++◌, ◌≡◌, ◌⊎◌}
use claude_distant.Executor.{Decision, Env, Executor, guard_by, passes_guard_rail}
use claude_distant.Executor.Files.{
  handle_read_file, handle_write_file, read_decoded, read_if_passed, write_decoded,
  write_description, write_if_passed,
}
use claude_distant.Executor.Gate.{IsSound, MayPass, guard_by-IsSound}
use claude_distant.Executor.Handle.{
  Tool, dispatch, handle, tool_of, tool_read_file, tool_run_command, tool_run_shell,
  tool_system_info, tool_unknown, tool_write_file,
}
use claude_distant.Executor.Run.{
  decode_params, guard_run, run_decoded, run_if_passed, run_shell_or_command, run_unless_blank,
}
use claude_distant.FileTransfer.Write.{Fs, write_file_transfer}
use claude_distant.Policy.{get}
use claude_distant.Policy.Patterns.{is_destructive}
use claude_distant.Protocol.{
  CommandMessage, ReadFileParams, RunParams, WriteFileParams, zero_write_file_params,
}
use claude_distant.Text.{Text, codes}

pub record Written (env : Env) (e : Executor) (cmd : CommandMessage) (after : Fs) : Type 0 where
  pub params : WriteFileParams
  pub decoded :
      decode_params env.json.unmarshal_write_file zero_write_file_params cmd.params ≡ inr params
  pub passes : MayPass (get e.policy) env e (write_description params)
  pub written : after ≡ (write_file_transfer env.write_os params e.fs).0

abbrev pub IsFileEffect : Env → Executor → CommandMessage → Fs → Type 0
IsFileEffect env e cmd after = (after ≡ e.fs) ⊎ Written env e cmd after

run_if_passed-fs :
    (env : Env) (id : Text) (use_shell : Bool) (p : RunParams) (d : Decision)
    → (run_if_passed env id use_shell p d).1 ≡ d.2
unfolding run_if_passed
run_if_passed-fs env id use_shell p (true, es, e) = refl
run_if_passed-fs env id use_shell p (false, es, e) = refl

read_if_passed-fs :
    (env : Env) (id : Text) (p : ReadFileParams) (d : Decision)
    → (read_if_passed env id p d).1 ≡ d.2
unfolding read_if_passed
read_if_passed-fs env id p (true, es, e) = refl
read_if_passed-fs env id p (false, es, e) = refl

module _ (env : Env) (e : Executor) (cmd : CommandMessage) (id : Text) where
  guard_run-fs : (destructive : Bool) (d : Text) → (guard_run destructive env e id d).2.fs ≡ e.fs
  unfolding guard_run passes_guard_rail
  guard_run-fs true d = (guard_by-IsSound (get e.policy) env e id d).files
  guard_run-fs false d = refl

  run_unless_blank-fs :
      (blank use_shell : Bool) (p : RunParams)
      → (run_unless_blank blank env e id use_shell p).1.fs ≡ e.fs
  unfolding run_unless_blank
  run_unless_blank-fs true use_shell p = refl
  run_unless_blank-fs false use_shell p =
      rw run_if_passed-fs (guard_run-fs (is_destructive p.command) p.command)

  run_decoded-fs :
      (use_shell : Bool) (params : Text ⊎ RunParams)
      → (run_decoded env e id use_shell params).1.fs ≡ e.fs
  unfolding run_decoded
  run_decoded-fs use_shell (inl err) = refl
  run_decoded-fs use_shell (inr p) = run_unless_blank-fs _ use_shell p

  read_decoded-fs : (params : Text ⊎ ReadFileParams) → (read_decoded env e id params).1.fs ≡ e.fs
  unfolding read_decoded passes_guard_rail
  read_decoded-fs (inl err) = refl
  read_decoded-fs (inr p) =
      rw read_if_passed-fs
        (guard_by-IsSound (get e.policy) env e id (codes "read_file " ++ p.path)).files

  write_if_passed-IsFileEffect :
      (p : WriteFileParams) (d : Decision)
      → decode_params env.json.unmarshal_write_file zero_write_file_params cmd.params ≡ inr p
      → IsSound (get e.policy) env e (write_description p) d
      → IsFileEffect env e cmd (write_if_passed env id p d).1.fs
  unfolding write_if_passed
  write_if_passed-IsFileEffect p (false, es, e') h s = inl s.files
  write_if_passed-IsFileEffect p (true, es, e') h s = inr (record {
    params = p;
    decoded = h;
    passes = s.rightful refl;
    written = ap (λ fs. (write_file_transfer env.write_os p fs).0) s.files;
  })

  write_decoded-IsFileEffect :
      (params : Text ⊎ WriteFileParams)
      → decode_params env.json.unmarshal_write_file zero_write_file_params cmd.params ≡ params
      → IsFileEffect env e cmd (write_decoded env e id params).1.fs
  unfolding write_decoded passes_guard_rail
  write_decoded-IsFileEffect (inl err) h = inl refl
  write_decoded-IsFileEffect (inr p) h =
      write_if_passed-IsFileEffect p (guard_by (get e.policy) env e id (write_description p)) h
        (guard_by-IsSound (get e.policy) env e id (write_description p))

dispatch-IsFileEffect :
    (t : Tool) (env : Env) (e : Executor) (cmd : CommandMessage)
    → IsFileEffect env e cmd (dispatch t env e cmd).1.fs
unfolding dispatch run_shell_or_command handle_read_file handle_write_file
dispatch-IsFileEffect tool_run_shell env e cmd =
    inl (run_decoded-fs env e cmd cmd.request_id true _)
dispatch-IsFileEffect tool_run_command env e cmd =
    inl (run_decoded-fs env e cmd cmd.request_id false _)
dispatch-IsFileEffect tool_system_info env e cmd = inl refl
dispatch-IsFileEffect tool_read_file env e cmd = inl (read_decoded-fs env e cmd cmd.request_id _)
dispatch-IsFileEffect tool_write_file env e cmd =
    write_decoded-IsFileEffect env e cmd cmd.request_id _ refl
dispatch-IsFileEffect tool_unknown env e cmd = inl refl

-- The client itself changes the files in one way only: by one atomic write of the payload that the
-- command's parameters decode to, which the policy lets pass, or the operator approved, under a
-- description that names its path and size. In every other case the files are as before.
pub handle-IsFileEffect :
    (env : Env) (e : Executor) (cmd : CommandMessage)
    → IsFileEffect env e cmd (handle env e cmd).1.fs
unfolding handle
handle-IsFileEffect env e cmd = dispatch-IsFileEffect (tool_of cmd.tool) env e cmd

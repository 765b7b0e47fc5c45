-- ===== src/Executor/Handle.antt =====
-- `Handle` of client/executor.go: the dispatch on the tool.
use claude_distant.Activity.{activity_command}
use claude_distant.Common.{List, [], false, if◌then◌else◌, inl, inr, true, ◌++◌, ◌∷◌, ◌⊎◌}
use claude_distant.Common.Int.{pos}
use claude_distant.Executor.{Effect, Env, Executor, emit_activity, send_result, wrote}
use claude_distant.Executor.Files.{handle_read_file, handle_write_file}
use claude_distant.Executor.Run.{run_shell_or_command}
use claude_distant.LogLine.Describe.{describe_command}
use claude_distant.Protocol.{CommandMessage, new_stream_message, stream_stdout}
use claude_distant.Text.{Text, codes, equal}

-- `handleSystemInfo`, by the error or the JSON of `GetSystemInfo`.
unfoldable pub report_system_info : Executor → Text → Text ⊎ Text → List Effect
unfolding send_result
report_system_info e id (inl err) = send_result e id (pos 1) err
report_system_info e id (inr payload) =
    wrote (new_stream_message id stream_stdout (payload ++ codes "\n"))
    ∷ send_result e id (pos 0) []

-- `handleSystemInfo`
unfoldable pub handle_system_info : Env → Executor → CommandMessage → List Effect
unfolding report_system_info
handle_system_info env e cmd = report_system_info e cmd.request_id env.collected_info

-- The `switch` on the tool's name.
pub data Tool : Type 0 where
  tool_run_shell tool_run_command tool_system_info : Tool
  tool_read_file tool_write_file tool_unknown : Tool

unfoldable pub tool_of : Text → Tool
tool_of name =
    if equal name (codes "run_shell")
    then tool_run_shell
    else if equal name (codes "run_command")
    then tool_run_command
    else if equal name (codes "system_info")
    then tool_system_info
    else if equal name (codes "read_file")
    then tool_read_file
    else if equal name (codes "write_file")
    then tool_write_file
    else tool_unknown

unfoldable pub dispatch : Tool → Env → Executor → CommandMessage → List Effect × Executor
unfolding run_shell_or_command handle_system_info handle_read_file handle_write_file
dispatch tool_run_shell env e cmd = run_shell_or_command env e cmd true
dispatch tool_run_command env e cmd = run_shell_or_command env e cmd false
dispatch tool_system_info env e cmd = (handle_system_info env e cmd, e)
dispatch tool_read_file env e cmd = handle_read_file env e cmd
dispatch tool_write_file env e cmd = handle_write_file env e cmd
dispatch tool_unknown env e cmd =
    (send_result e cmd.request_id (pos 1) (codes "outil inconnu: " ++ cmd.tool), e)

-- `Handle`
unfoldable pub handle : Env → Executor → CommandMessage → List Effect × Executor
unfolding dispatch tool_of
handle env e cmd =
    let (effects, e') = dispatch (tool_of cmd.tool) env e cmd in
    (emit_activity e activity_command (describe_command env.json cmd) ++ effects, e')

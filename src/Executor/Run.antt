-- ===== src/Executor/Run.antt =====
-- `runShellOrCommand` of client/executor.go and what it calls.
use claude_distant.Common.{
  Bool, List, Option, [], false, if◌then◌else◌, inl, inr, is_empty, none, some, suc, true, ℕ, ◌++◌,
  ◌∷◌, ◌⊎◌,
}
use claude_distant.Common.Int.{pos, ℤ}
use claude_distant.Executor.{
  Command, Decision, Effect, Env, Executor, Process, ProcessEnd, context_done, exited, killed,
  passes_guard_rail, send_result, started, wait_failed, wrote,
}
use claude_distant.Executor.Timeout.{command_timeout}
use claude_distant.FileTransfer.{OsError}
use claude_distant.Policy.Patterns.{is_destructive}
use claude_distant.Protocol.{
  CommandMessage, RunParams, StreamKind, new_stream_message, stream_stderr, stream_stdout,
  zero_run_params,
}
use claude_distant.Protocol.Struct.{unmarshal}
use claude_distant.Shell.{
  build_shell_argv, resolve_shell, split_argv, style_posix, style_power_shell,
}
use claude_distant.Text.{Text, codes, trim_space}

-- `buildShellCommand`
unfoldable pub build_shell_command : Env → Executor → Text → Text → Text ⊎ Command
build_shell_command env e command shell = elim (resolve_shell env.goos shell env.look_path) [
  | inl err ↦ inl err
  | inr (bin, style) ↦ inr (record {
    bin = bin;
    args = build_shell_argv style command;
    extra_env = elim style [
      | style_posix ↦ codes "LANG=C.UTF-8" ∷ codes "LC_ALL=C.UTF-8" ∷ []
      | style_power_shell ↦ []
    ];
    dir = e.work_dir;
  })
]

-- `buildPlainCommand`, behind the split.
unfoldable pub plain_command : Env → Executor → Option (List Text) → Text ⊎ Command
plain_command env e none = inl (codes "guillemets non fermés dans la commande")
plain_command env e (some []) = inl (codes "commande vide")
plain_command env e (some (bin ∷ args)) = elim (env.look_path bin) [
  | some err ↦ inl (codes "exécutable introuvable: " ++ bin)
  | none ↦ inr (record { bin = bin; args = args; extra_env = []; dir = e.work_dir })
]

-- `buildPlainCommand`
unfoldable pub build_plain_command : Env → Executor → Text → Text ⊎ Command
unfolding plain_command
build_plain_command env e command = plain_command env e (split_argv command)

-- The number of messages that were written.
unfoldable pub count_writes : List Effect → ℕ
count_writes [] = 0
count_writes (wrote m ∷ es) = suc (count_writes es)
count_writes (_ ∷ es) = count_writes es

-- Which of the two pumps still run.
pub record Pumps : Type 0 where
  pub stdout_runs : Bool
  pub stderr_runs : Bool

abbrev pub runs : Pumps → StreamKind → Bool
runs p stream_stdout = p.stdout_runs
runs p stream_stderr = p.stderr_runs

abbrev pub stop_pump : Pumps → StreamKind → Pumps
stop_pump p stream_stdout = record p { stdout_runs = false }
stop_pump p stream_stderr = record p { stderr_runs = false }

-- A pump stops at the first write that fails.
unfoldable pub pump_after : Pumps → StreamKind → Option OsError → Pumps
pump_after p kind none = p
pump_after p kind (some err) = stop_pump p kind

-- Both `pump` goroutines over what they read; `n` counts the writes so far.
unfoldable pub pump : Env → Text → ℕ → Pumps → List (StreamKind × Text) → List Effect
unfolding pump_after
pump env id n p [] = []
pump env id n p ((kind, text) ∷ output) =
    let m = new_stream_message id kind text in
    let sent = pump env id (suc n) (pump_after p kind (env.write_error n m)) output in
    let skipped = pump env id n p output in if runs p kind then wrote m ∷ sent else skipped

abbrev pub both_run : Pumps
both_run = record { stdout_runs = true; stderr_runs = true }

-- The `select` of `runAndStream`: the exit code and the error, with the kill of the process tree if
-- the context ends first.
unfoldable pub process_end : ProcessEnd → ℤ × Option Text × List Effect
process_end (exited exit_code) = (exit_code, none, [])
process_end (wait_failed err) = (pos 1, some err, [])
process_end (context_done err) = (pos 124, some err, killed ∷ [])

-- `runAndStream`, by the errors of the pipes and of `cmd.Start`.
unfoldable pub start_and_stream :
    Option Text → Option Text → Env → Text → ℕ → Command → Process → ℤ × Option Text × List Effect
unfolding pump process_end
start_and_stream (some err) start env id n command proc = (pos 1, some err, [])
start_and_stream none (some err) env id n command proc = (pos 1, some err, [])
start_and_stream none none env id n command proc =
    let (exit_code, err, ending) = process_end proc.ended in
    (exit_code, err, started command ∷ (pump env id n both_run proc.output ++ ending))

-- `runAndStream`
unfoldable pub run_and_stream : Env → Text → ℕ → Command → Process → ℤ × Option Text × List Effect
unfolding start_and_stream
run_and_stream env id n command proc =
    start_and_stream proc.pipe_error proc.start_error env id n command proc

-- The result behind `runAndStream`.
unfoldable pub run_result : Executor → Text → Bool → ℤ → Option Text → List Effect
run_result e id true exit_code err = send_result e id exit_code (codes "timeout")
run_result e id false exit_code (some err) = send_result e id exit_code err
run_result e id false exit_code none = send_result e id exit_code []

-- From the time limit on, with the effects so far.
unfoldable pub launch : Env → Executor → Text → ℕ → ℤ → Text ⊎ Command → List Effect
unfolding run_and_stream run_result
launch env e id n timeout (inl err) = send_result e id (pos 1) err
launch env e id n timeout (inr command) =
    let proc = env.run_process command timeout in
    let (exit_code, err, effects) = run_and_stream env id n command proc in
    effects ++ run_result e id proc.deadline_passed exit_code err

-- What runs once the guard rail has let it pass.
unfoldable pub build_and_launch : Env → Executor → Text → Bool → RunParams → ℕ → List Effect
unfolding launch
build_and_launch env e id use_shell p n = launch env e id n (command_timeout p.timeout) (
    if use_shell
    then build_shell_command env e p.command p.shell
    else build_plain_command env e p.command)

-- Behind a decision of the guard rail.
unfoldable pub run_if_passed : Env → Text → Bool → RunParams → Decision → List Effect × Executor
unfolding build_and_launch count_writes
run_if_passed env id use_shell p (true, effects, e) =
    (effects ++ build_and_launch env e id use_shell p (count_writes effects), e)
run_if_passed env id use_shell p (false, effects, e) = (effects, e)

-- Only a destructive command meets the guard rail.
unfoldable pub guard_run : Bool → Env → Executor → Text → Text → Decision
unfolding passes_guard_rail
guard_run true env e id command = passes_guard_rail env e id command
guard_run false env e id command = (true, [], e)

-- Behind the decoding of the params, by whether the command is blank.
unfoldable pub run_unless_blank :
    Bool → Env → Executor → Text → Bool → RunParams → List Effect × Executor
unfolding run_if_passed guard_run
run_unless_blank true env e id use_shell p =
    (send_result e id (pos 1) (codes "params.command manquant"), e)
run_unless_blank false env e id use_shell p =
    run_if_passed env id use_shell p (guard_run (is_destructive p.command) env e id p.command)

-- `if len(cmd.Params) > 0 { json.Unmarshal(…) }`
unfoldable pub decode_params {ℓ} : {A : Type ℓ} → (Text → Text ⊎ A) → A → Text → Text ⊎ A
decode_params unmarshal zero_params [] = inr zero_params
decode_params unmarshal zero_params (c ∷ params) = unmarshal (c ∷ params)

-- Behind the decoding, with its error.
unfoldable pub run_decoded :
    Env → Executor → Text → Bool → Text ⊎ RunParams → List Effect × Executor
unfolding run_unless_blank
run_decoded env e id use_shell (inl err) =
    (send_result e id (pos 1) (codes "params invalides: " ++ err), e)
run_decoded env e id use_shell (inr p) =
    run_unless_blank (is_empty (trim_space p.command)) env e id use_shell p

-- `runShellOrCommand`
unfoldable pub run_shell_or_command :
    Env → Executor → CommandMessage → Bool → List Effect × Executor
unfolding run_decoded decode_params
run_shell_or_command env e cmd use_shell =
    run_decoded env e cmd.request_id use_shell
      (decode_params env.json.unmarshal_run zero_run_params cmd.params)

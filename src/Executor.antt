-- ===== src/Executor.antt =====
-- client/executor.go: the executor's state, what it does to the world, and its guard rail.
-- The handlers of the tools are in Executor/Run, Executor/Files and Executor/Handle.
--
-- A handler returns the list of its effects, in order, with the executor behind them. Commands run
-- concurrently in the client; a handler is read here as one run of `Handle`.
pub mod Timeout
pub mod Effects
pub mod Run
pub mod ProcessTree
pub mod Shared
pub mod Files
pub mod Handle
pub mod Answering
pub mod OneResult
pub mod Gate
pub mod Calm
pub mod Granted
pub mod FileEffect
pub mod Denied
pub mod Concurrent
pub mod Memory
pub mod Remembered
use claude_distant.Activity.{ActivityKind, activity_approval, activity_result}
use claude_distant.Common.{
  Bool, List, Option, [], false, if◌then◌else◌, is_empty, none, some, suc, true, ℕ, ◌&&◌, ◌++◌, ◌∷◌,
  ◌⊎◌,
}
use claude_distant.Common.Int.{negsuc, pos, ℤ}
use claude_distant.FileTransfer.{OsError}
use claude_distant.FileTransfer.Read.{ReadOs}
use claude_distant.FileTransfer.Write.{Fs, WriteOs}
use claude_distant.Policy.{Policy, PolicyController, get, policy_auto, policy_confirm, policy_deny}
use claude_distant.Policy.Prompt.{Answer, is_one_of}
use claude_distant.Protocol.{
  Json, Message, Meta, ReadFileParams, StreamKind, WriteFileParams, new_approval_response_message,
  new_result_message_with_meta,
}
use claude_distant.Shell.{LookPath}
use claude_distant.Text.{Text, codes}
use claude_distant.Text.Decimal.{decimal}

-- A prepared `exec.Cmd`: the binary, its arguments, the variables added to the environment, and the
-- working directory.
pub record Command : Type 0 where
  pub bin : Text
  pub args : List Text
  pub extra_env : List Text
  pub dir : Text

pub data Effect : Type 0 where
  event : ActivityKind → Text → Effect
  wrote : Message → Effect
  asked : Text → Effect
  started : Command → Effect
  killed : Effect
  opened_for_read : ReadFileParams → Effect
  opened_for_write : WriteFileParams → Effect

-- How a process ended: `wait_failed` is an error that is no `ExitError`, and `context_done` is the
-- end of the context, with its error, before the process.
pub data ProcessEnd : Type 0 where
  exited : ℤ → ProcessEnd
  wait_failed : Text → ProcessEnd
  context_done : Text → ProcessEnd

-- A run of a command: errors before it starts, what the two pumps read, in the order in which they
-- read it, its end, and whether the deadline has passed when the handler looks.
pub record Process : Type 0 where
  pub pipe_error : Option Text
  pub start_error : Option Text
  pub output : List (StreamKind × Text)
  pub ended : ProcessEnd
  pub deadline_passed : Bool

-- What the executor does not compute itself. `write_error` is the error of `conn.WriteJSON`, for the
-- number of earlier writes of this handler and the message. `confirm` may be nil.
pub record Env : Type 0 where
  pub json : Json
  pub goos : Text
  pub look_path : LookPath
  pub run_process : Command → ℤ → Process
  pub collected_info : Text ⊎ Text
  pub confirm : Option (Text → Answer)
  pub read_os : ReadOs
  pub write_os : WriteOs
  pub write_error : ℕ → Message → Option OsError

-- `Executor`; `has_events` says whether the sink is set. The files stand beside it.
pub record Executor : Type 0 where
  pub policy : PolicyController
  pub work_dir : Text
  pub has_events : Bool
  pub always_allowed : List Text
  pub fs : Fs

-- `NewExecutor`
unfoldable pub new_executor : PolicyController → Text → Bool → Fs → Executor
new_executor policy work_dir has_events fs = record {
  policy = policy;
  work_dir = work_dir;
  has_events = has_events;
  always_allowed = [];
  fs = fs;
}

-- `emit`; a nil sink does nothing.
unfoldable pub emit_activity : Executor → ActivityKind → Text → List Effect
emit_activity e kind detail = if e.has_events then event kind detail ∷ [] else []

-- `%d` of an `int`
unfoldable pub int_text : ℤ → Text
int_text (pos n) = decimal n
int_text (negsuc n) = b'-' ∷ decimal (suc n)

-- `sendResultWithMeta`; a failed write is ignored.
unfoldable pub send_result_with_meta : Executor → Text → ℤ → Text → Option Meta → List Effect
unfolding emit_activity int_text
send_result_with_meta e id exit_code err_msg info =
    emit_activity e activity_result (
      codes "request "
      ++ (id
          ++ (codes ": exit="
              ++ (int_text exit_code
                  ++ (if is_empty err_msg then [] else codes " error=" ++ err_msg)))))
    ++ wrote (new_result_message_with_meta id exit_code err_msg info) ∷ []

-- `sendResult`
unfoldable pub send_result : Executor → Text → ℤ → Text → List Effect
unfolding send_result_with_meta
send_result e id exit_code err_msg = send_result_with_meta e id exit_code err_msg none

-- `sendApprovalResponse`
unfoldable pub send_approval_response : Text → Bool → List Effect
send_approval_response id approved = wrote (new_approval_response_message id approved) ∷ []

-- `isAlwaysAllowed`
unfoldable pub is_always_allowed : Executor → Text → Bool
unfolding is_one_of
is_always_allowed e command = is_one_of command e.always_allowed

-- `rememberAlwaysAllowed`
unfoldable pub remember_always_allowed : Executor → Text → Executor
remember_always_allowed e command = record e { always_allowed = command ∷ e.always_allowed }

-- `approvalWord`
unfoldable pub approval_word : Bool → Text
approval_word true = codes "autorisée"
approval_word false = codes "refusée"

-- The executor once the operator has answered.
unfoldable pub after_answer : Executor → Text → Answer → Executor
unfolding remember_always_allowed
after_answer e command a = if a.approved && a.always then remember_always_allowed e command else e

-- What a decision of the guard rail leaves: whether to go on, the effects, and the executor.
abbrev pub Decision : Type 0
Decision = Bool × List Effect × Executor

-- The prompt itself.
unfoldable pub ask : Executor → Text → Answer → Decision
unfolding emit_activity after_answer approval_word
ask e command a = (
  a.approved,
  emit_activity e activity_approval (codes "demande: " ++ command)
      ++ (asked command
          ∷ emit_activity e activity_approval (
              codes "décision: "
              ++ (approval_word a.approved ++ (codes " (" ++ (command ++ codes ")"))))),
  after_answer e command a,
)

-- `resolveApproval`, by whether the description is always allowed and by the prompt, which may be nil.
unfoldable pub approval_by : Bool → Option (Text → Answer) → Executor → Text → Decision
unfolding ask
approval_by true prompt e command = (true, [], e)
approval_by false none e command = (false, [], e)
approval_by false (some confirm) e command = ask e command (confirm command)

-- `resolveApproval`
unfoldable pub resolve_approval : Env → Executor → Text → Decision
unfolding is_always_allowed approval_by
resolve_approval env e command = approval_by (is_always_allowed e command) env.confirm e command

-- `case PolicyConfirm`, behind the approval.
unfoldable pub confirmed : Text → Decision → Decision
unfolding send_approval_response send_result
confirmed id (true, effects, e) = (true, effects ++ send_approval_response id true, e)
confirmed id (false, effects, e) = (
  false,
  effects
      ++ (send_approval_response id false ++ send_result e id (pos 126) (codes "refused_by_user")),
  e,
)

-- The `switch` of `passesGuardRail` on the policy.
unfoldable pub guard_by : Policy → Env → Executor → Text → Text → Decision
unfolding confirmed resolve_approval
guard_by policy_deny env e id description = (
  false,
  send_approval_response id false ++ send_result e id (pos 126) (codes "refused_by_policy"),
  e,
)
guard_by policy_confirm env e id description = confirmed id (resolve_approval env e description)
guard_by policy_auto env e id description = (true, [], e)

-- `passesGuardRail`
unfoldable pub passes_guard_rail : Env → Executor → Text → Text → Decision
unfolding guard_by get
passes_guard_rail env e id description = guard_by (get e.policy) env e id description

-- ===== src/Session/Answers.antt =====
-- A whole session: `runSession` of client/main.go with the handlers that it starts, each by
-- `go executor.Handle(…)`.
use claude_distant.Common.{
  Bool, List, [], if◌then◌else◌, leb, length, none, suc, take, ℕ, ◌&&◌, ◌∷◌, ◌≡◌,
}
use claude_distant.Executor.{Effect}
use claude_distant.Executor.Concurrent.{Merged, Task, effects_of_task}
use claude_distant.Protocol.{CommandMessage, Message}
use claude_distant.Session.{Inbound, InboundJson, handles, run_session}
use claude_distant.Text.{Text, equal}

-- A handler that a session started, and how many of its effects happen before the connection is lost to
-- it: the session closes the connection when it ends, a write that fails breaks it, and the process may
-- exit, and none of these waits for a handler.
pub record Running : Type 0 where
  pub task : Task
  pub reached : ℕ

abbrev pub effects_reached : List Running → List (List Effect)
effects_reached [] = []
effects_reached (h ∷ hs) = take h.reached (effects_of_task h.task) ∷ effects_reached hs

-- The commands of handlers.
abbrev pub commands_of : List Running → List CommandMessage
commands_of [] = []
commands_of (h ∷ hs) = h.task.command ∷ commands_of hs

-- How many of the commands have the request's id.
unfoldable pub count_commands : Text → List CommandMessage → ℕ
count_commands id [] = 0
count_commands id (cmd ∷ cmds) =
    let n = count_commands id cmds in if equal cmd.request_id id then suc n else n

-- Whether a handler got to its end in time, and how many with the request's id did.
abbrev pub is_finished : Running → Bool
is_finished h = leb (length (effects_of_task h.task)) h.reached

unfoldable pub count_finished : Text → List Running → ℕ
count_finished id [] = 0
count_finished id (h ∷ hs) =
    let n = count_finished id hs in
    if is_finished h && equal h.task.command.request_id id then suc n else n

-- A session that got through to its loop: there is a handler for each command that it starts, whatever
-- the state that the handler finds and however far it comes, and what the handlers do happens in some
-- interleaving.
pub record SessionRun (json : InboundJson) (register : Message) (inbox : List Inbound)
    : Type 0 where
  pub handlers : List Running
  pub effects : List Effect
  pub one_each : commands_of handlers ≡ handles (run_session json none none register inbox).0
  pub interleaved : Merged (effects_reached handlers) effects

-- ===== src/Executor/Shared.antt =====
-- The guard rail of client/executor.go between handlers that run beside each other: they share the policy
-- and the list of what is always allowed, and each lock makes one method a step. Between two steps of one
-- handler the others go on, the operator answers, and the window may change the policy.
pub mod Words
pub mod Justified
pub mod Alone
pub mod Heard
pub mod SwitchedOff
use claude_distant.Common.{Bool, List, Option, [], false, none, some, suc, true, zero, ℕ, ◌++◌, ◌∷◌}
use claude_distant.Executor.{Executor, after_answer, is_always_allowed, new_executor}
use claude_distant.FileTransfer.Write.{Fs}
use claude_distant.Policy.{Policy, get, policy_auto, policy_confirm, policy_deny, set}
use claude_distant.Policy.Prompt.{Answer}
use claude_distant.Text.{Text}

-- Where a handler stands in `passesGuardRail`: before it reads the policy, before it looks the description
-- up, before the prompt, behind the answer, and at its two ends.
pub data Gate : Type 0 where
  at_policy at_list at_prompt let_through turned_down : Gate
  at_answer : Answer → Gate

-- What the operator has said: an answer to a prompt, and a policy.
pub data Word : Type 0 where
  gave : Text → Answer → Word
  chose : Policy → Word

-- The `switch` of `passesGuardRail`.
unfoldable pub gate_of : Policy → Gate
gate_of policy_deny = turned_down
gate_of policy_confirm = at_list
gate_of policy_auto = let_through

-- The two returns of `resolveApproval` behind `isAlwaysAllowed` and behind the answer.
unfoldable pub behind_list : Bool → Gate
behind_list true = let_through
behind_list false = at_prompt

unfoldable pub behind_answer : Bool → Gate
behind_answer true = let_through
behind_answer false = turned_down

abbrev pub Moved : Type 0
Moved = Executor × Gate × List Word

-- One step of a handler, with what the operator says if it is asked; a client without a prompt refuses.
unfoldable pub gate_step : Executor → Text → Option Answer → Gate → Moved
unfolding gate_of behind_list behind_answer get is_always_allowed after_answer
gate_step e d said at_policy = (e, gate_of (get e.policy), [])
gate_step e d said at_list = (e, behind_list (is_always_allowed e d), [])
gate_step e d none at_prompt = (e, turned_down, [])
gate_step e d (some a) at_prompt = (e, at_answer a, gave d a ∷ [])
gate_step e d said (at_answer a) = (after_answer e d a, behind_answer a.approved, [])
gate_step e d said let_through = (e, let_through, [])
gate_step e d said turned_down = (e, turned_down, [])

-- A handler on its way, with the description that it asks for.
pub record Pending : Type 0 where
  pub description : Text
  pub gate : Gate

-- A step of the handler at a place of the list.
unfoldable pub step_at :
    Executor → Option Answer → ℕ → List Pending → Executor × List Pending × List Word
unfolding gate_step
step_at e said i [] = (e, [], [])
step_at e said zero (p ∷ ps) =
    let (e', gate, words) = gate_step e p.description said p.gate in
    (e', record p { gate = gate } ∷ ps, words)
step_at e said (suc i) (p ∷ ps) = let (e', ps', words) = step_at e said i ps in (e', p ∷ ps', words)

-- The handlers, what they share, and all that the operator said, the latest word first.
pub record Shared : Type 0 where
  pub executor : Executor
  pub pending : List Pending
  pub words : List Word

-- What happens: a command arrives at the guard rail, a handler makes a step, the policy is changed.
pub data Turn : Type 0 where
  arrives : Text → Turn
  goes_on : ℕ → Option Answer → Turn
  changes : Policy → Turn

unfoldable pub take_turn : Turn → Shared → Shared
unfolding step_at set
take_turn (arrives d) s = record s {
  pending = record { description = d; gate = at_policy } ∷ s.pending;
}
take_turn (goes_on i said) s =
    let (e, ps, words) = step_at s.executor said i s.pending in
    record { executor = e; pending = ps; words = words ++ s.words }
take_turn (changes p) s = record s {
  executor = record s.executor { policy = set p s.executor.policy };
  words = chose p ∷ s.words;
}

unfoldable pub take_turns : List Turn → Shared → Shared
unfolding take_turn
take_turns [] s = s
take_turns (t ∷ turns) s = take_turns turns (take_turn t s)

-- A new session under a policy.
unfoldable pub new_shared : Policy → Text → Fs → Shared
unfolding new_executor
new_shared p work_dir fs = record {
  executor = new_executor (record { p = p }) work_dir true fs;
  pending = [];
  words = chose p ∷ [];
}

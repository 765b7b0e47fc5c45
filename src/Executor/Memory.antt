-- ===== src/Executor/Memory.antt =====
-- What the executor of client/executor.go remembers of the operator's answers.
use claude_distant.Common.{
  Bool, List, Option, arith, false, inl, inr, none, refl, some, true, ◌++◌, ◌∷◌, ◌≡◌, ◌⊎◌,
}
use claude_distant.Executor.{
  Decision, Env, Executor, after_answer, approval_by, ask, confirmed, guard_by, is_always_allowed,
  passes_guard_rail, remember_always_allowed, resolve_approval,
}
use claude_distant.Executor.Files.{
  handle_read_file, handle_write_file, read_decoded, read_if_passed, write_decoded,
  write_description, write_if_passed,
}
use claude_distant.Executor.Handle.{
  Tool, dispatch, handle, tool_of, tool_read_file, tool_run_command, tool_run_shell,
  tool_system_info, tool_unknown, tool_write_file,
}
use claude_distant.Executor.Run.{
  guard_run, run_decoded, run_if_passed, run_shell_or_command, run_unless_blank,
}
use claude_distant.Policy.{Policy, get, policy_auto, policy_confirm, policy_deny}
use claude_distant.Policy.Patterns.{is_destructive}
use claude_distant.Policy.Prompt.{Answer}
use claude_distant.Protocol.{CommandMessage, ReadFileParams, RunParams, WriteFileParams}
use claude_distant.Text.{Text, codes}

-- A list of always allowed descriptions grew by one description, which the operator has just
-- approved for always, under `confirm`, and which was not on the list.
pub record Learned (policy : Policy) (env : Env) (e : Executor) (after : List Text) : Type 0 where
  pub description : Text
  pub confirm : Text → Answer
  pub asks : policy ≡ policy_confirm
  pub installed : env.confirm ≡ some confirm
  pub unknown : is_always_allowed e description ≡ false
  pub approved : (confirm description).approved ≡ true
  pub always : (confirm description).always ≡ true
  pub grown : after ≡ description ∷ e.always_allowed

abbrev pub Remembers : Policy → Env → Executor → Executor → Type 0
Remembers policy env e e' =
    ((e'.always_allowed ≡ e.always_allowed) ⊎ Learned policy env e e'.always_allowed)
    × (e'.policy ≡ e.policy)

after_answer-cases :
    (e : Executor) (d : Text) (a : Answer)
    → ((after_answer e d a).policy ≡ e.policy)
      × (((after_answer e d a).always_allowed ≡ e.always_allowed)
          ⊎ ((a.approved ≡ true)
              × (a.always ≡ true)
              × ((after_answer e d a).always_allowed ≡ d ∷ e.always_allowed)))
unfolding after_answer remember_always_allowed
after_answer-cases e d a = ground arith

approval_by-Remembers :
    (env : Env) (e : Executor) (d : Text) (b : Bool) (o : Option (Text → Answer))
    → is_always_allowed e d ≡ b
    → env.confirm ≡ o
    → Remembers policy_confirm env e (approval_by b o e d).2
unfolding approval_by ask
approval_by-Remembers env e d true o h k = (inl refl, refl)
approval_by-Remembers env e d false none h k = (inl refl, refl)
approval_by-Remembers env e d false (some confirm) h k =
    let (same, memory) = after_answer-cases e d (confirm d) in
    elim memory [
      | inl kept ↦ (inl kept, same)
      | inr (passed, for_ever, grown) ↦ (
        inr (record {
          description = d;
          confirm = confirm;
          asks = refl;
          installed = k;
          unknown = h;
          approved = passed;
          always = for_ever;
          grown = grown;
        }),
        same,
      )
    ]

pub confirmed-keeps : (id : Text) (d : Decision) → (confirmed id d).2 ≡ d.2
unfolding confirmed
confirmed-keeps id (true, es, e) = refl
confirmed-keeps id (false, es, e) = refl

guard_by-Remembers :
    (policy : Policy) (env : Env) (e : Executor) (id d : Text)
    → Remembers policy env e (guard_by policy env e id d).2
unfolding guard_by resolve_approval
guard_by-Remembers policy_auto env e id d = (inl refl, refl)
guard_by-Remembers policy_deny env e id d = (inl refl, refl)
guard_by-Remembers policy_confirm env e id d =
    rw confirmed-keeps (approval_by-Remembers env e d _ _ refl refl)

module _ (policy : Policy) (env : Env) (e : Executor) where
  run_if_passed-Remembers :
      (id : Text) (use_shell : Bool) (p : RunParams) (d : Decision)
      → Remembers policy env e d.2
      → Remembers policy env e (run_if_passed env id use_shell p d).1
  unfolding run_if_passed
  run_if_passed-Remembers id use_shell p (true, es, e') h = h
  run_if_passed-Remembers id use_shell p (false, es, e') h = h

  read_if_passed-Remembers :
      (id : Text) (p : ReadFileParams) (d : Decision)
      → Remembers policy env e d.2
      → Remembers policy env e (read_if_passed env id p d).1
  unfolding read_if_passed
  read_if_passed-Remembers id p (true, es, e') h = h
  read_if_passed-Remembers id p (false, es, e') h = h

  write_if_passed-Remembers :
      (id : Text) (p : WriteFileParams) (d : Decision)
      → Remembers policy env e d.2
      → Remembers policy env e (write_if_passed env id p d).1
  unfolding write_if_passed
  write_if_passed-Remembers id p (true, es, e') h = h
  write_if_passed-Remembers id p (false, es, e') h = h

module _ (env : Env) (e : Executor) (id : Text) where
  guard_run-Remembers :
      (destructive : Bool) (d : Text)
      → Remembers (get e.policy) env e (guard_run destructive env e id d).2
  unfolding guard_run passes_guard_rail
  guard_run-Remembers true d = guard_by-Remembers (get e.policy) env e id d
  guard_run-Remembers false d = (inl refl, refl)

  run_unless_blank-Remembers :
      (blank use_shell : Bool) (p : RunParams)
      → Remembers (get e.policy) env e (run_unless_blank blank env e id use_shell p).1
  unfolding run_unless_blank
  run_unless_blank-Remembers true use_shell p = (inl refl, refl)
  run_unless_blank-Remembers false use_shell p =
      run_if_passed-Remembers (get e.policy) env e id use_shell p
        (guard_run (is_destructive p.command) env e id p.command)
        (guard_run-Remembers (is_destructive p.command) p.command)

  run_decoded-Remembers :
      (use_shell : Bool) (params : Text ⊎ RunParams)
      → Remembers (get e.policy) env e (run_decoded env e id use_shell params).1
  unfolding run_decoded
  run_decoded-Remembers use_shell (inl err) = (inl refl, refl)
  run_decoded-Remembers use_shell (inr p) = run_unless_blank-Remembers _ use_shell p

  read_decoded-Remembers :
      (params : Text ⊎ ReadFileParams)
      → Remembers (get e.policy) env e (read_decoded env e id params).1
  unfolding read_decoded passes_guard_rail
  read_decoded-Remembers (inl err) = (inl refl, refl)
  read_decoded-Remembers (inr p) =
      let d = codes "read_file " ++ p.path in
      read_if_passed-Remembers (get e.policy) env e id p (guard_by (get e.policy) env e id d)
        (guard_by-Remembers (get e.policy) env e id d)

  write_decoded-Remembers :
      (params : Text ⊎ WriteFileParams)
      → Remembers (get e.policy) env e (write_decoded env e id params).1
  unfolding write_decoded passes_guard_rail
  write_decoded-Remembers (inl err) = (inl refl, refl)
  write_decoded-Remembers (inr p) =
      let d = write_description p in
      write_if_passed-Remembers (get e.policy) env e id p (guard_by (get e.policy) env e id d)
        (guard_by-Remembers (get e.policy) env e id d)

dispatch-Remembers :
    (t : Tool) (env : Env) (e : Executor) (cmd : CommandMessage)
    → Remembers (get e.policy) env e (dispatch t env e cmd).1
unfolding dispatch run_shell_or_command handle_read_file handle_write_file
dispatch-Remembers tool_run_shell env e cmd = run_decoded-Remembers env e cmd.request_id true _
dispatch-Remembers tool_run_command env e cmd = run_decoded-Remembers env e cmd.request_id false _
dispatch-Remembers tool_system_info env e cmd = (inl refl, refl)
dispatch-Remembers tool_read_file env e cmd = read_decoded-Remembers env e cmd.request_id _
dispatch-Remembers tool_write_file env e cmd = write_decoded-Remembers env e cmd.request_id _
dispatch-Remembers tool_unknown env e cmd = (inl refl, refl)

-- A handled command changes what is always allowed in one way only: under `confirm`, it adds a
-- description that was not on the list and that the operator has just approved for always. It never
-- removes one, and it never changes the policy.
pub handle-Remembers :
    (env : Env) (e : Executor) (cmd : CommandMessage)
    → Remembers (get e.policy) env e (handle env e cmd).1
unfolding handle
handle-Remembers env e cmd = dispatch-Remembers (tool_of cmd.tool) env e cmd

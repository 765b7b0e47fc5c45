-- ===== src/Executor/Gate.antt =====
-- The guard rail of client/executor.go: what lets a command act on the machine.
use claude_distant.Activity.{activity_approval, activity_result}
use claude_distant.Common.{
  All, All-append, Bool, List, Option, [], arith, false, inl, inr, none, refl, some, true, ◌++◌,
  ◌∷◌, ◌≡◌, ◌⊎◌,
}
use claude_distant.Common.Int.{pos, ℤ}
use claude_distant.Executor.{
  Decision, Effect, Env, Executor, after_answer, approval_by, ask, asked, confirmed, event,
  guard_by, is_always_allowed, killed, opened_for_read, opened_for_write, remember_always_allowed,
  resolve_approval, send_approval_response, send_result, send_result_with_meta, started, wrote,
}
use claude_distant.Executor.Effects.{emit_activity-All}
use claude_distant.Executor.Files.{write_description}
use claude_distant.Executor.Run.{decode_params}
use claude_distant.Policy.{Policy, get, policy_auto, policy_confirm, policy_deny}
use claude_distant.Policy.Patterns.{is_destructive}
use claude_distant.Policy.Prompt.{Answer}
use claude_distant.Protocol.{
  CommandMessage, Meta, RunParams, zero_read_file_params, zero_run_params, zero_write_file_params,
}
use claude_distant.Text.{Text, codes}

-- The operator approved the description when the handler asked.
pub record Approved (env : Env) (description : Text) : Type 0 where
  pub confirm : Text → Answer
  pub installed : env.confirm ≡ some confirm
  pub approves : (confirm description).approved ≡ true

-- What must hold for the guard rail to let a description pass.
abbrev pub MayPass : Policy → Env → Executor → Text → Type 0
MayPass policy_auto env e description = Unit
MayPass policy_confirm env e description =
    (is_always_allowed e description ≡ true) ⊎ Approved env description
MayPass policy_deny env e description = ⊥

-- The right of each effect. A process starts if its command is not destructive or may pass; a file
-- is opened only if the read or the write may pass. The other effects touch nothing.
abbrev pub IsGranted : Env → Executor → CommandMessage → Effect → Type 0
IsGranted env e cmd (started command) =
    (p : RunParams) × (decode_params env.json.unmarshal_run zero_run_params cmd.params ≡ inr p)
    × ((is_destructive p.command ≡ false) ⊎ MayPass (get e.policy) env e p.command)
IsGranted env e cmd (opened_for_read p) =
    (decode_params env.json.unmarshal_read_file zero_read_file_params cmd.params ≡ inr p)
    × MayPass (get e.policy) env e (codes "read_file " ++ p.path)
IsGranted env e cmd (opened_for_write p) =
    (decode_params env.json.unmarshal_write_file zero_write_file_params cmd.params ≡ inr p)
    × MayPass (get e.policy) env e (write_description p)
IsGranted env e cmd _ = Unit

-- An effect that does not touch the machine.
abbrev pub IsCalm : Effect → Type 0
IsCalm (started command) = ⊥
IsCalm (opened_for_read p) = ⊥
IsCalm (opened_for_write p) = ⊥
IsCalm _ = Unit

module _ (env : Env) (e : Executor) (cmd : CommandMessage) where
  pub calm-IsGranted : (es : List Effect) → All IsCalm es → All (IsGranted env e cmd) es
  calm-IsGranted [] h = tt
  calm-IsGranted (x ∷ es) (h, hs) = (calm_one x h, calm-IsGranted es hs)
    where
      calm_one : (x : Effect) → IsCalm x → IsGranted env e cmd x
      calm_one (event kind detail) h = tt
      calm_one (wrote m) h = tt
      calm_one (asked d) h = tt
      calm_one (started c) h = absurd h
      calm_one killed h = tt
      calm_one (opened_for_read p) h = absurd h
      calm_one (opened_for_write p) h = absurd h

pub send_result_with_meta-IsCalm :
    (e : Executor) (id : Text) (exit_code : ℤ) (err_msg : Text) (info : Option Meta)
    → All IsCalm (send_result_with_meta e id exit_code err_msg info)
unfolding send_result_with_meta
send_result_with_meta-IsCalm e id exit_code err_msg info =
    All-append IsCalm _ _ (emit_activity-All IsCalm e activity_result _ tt) (tt, tt)

pub send_result-IsCalm :
    (e : Executor) (id : Text) (exit_code : ℤ) (err_msg : Text)
    → All IsCalm (send_result e id exit_code err_msg)
unfolding send_result
send_result-IsCalm e id exit_code err_msg = send_result_with_meta-IsCalm e id exit_code err_msg none

-- A decision of the guard rail touches nothing, passes only what may pass, and leaves the files.
pub record IsSound (policy : Policy) (env : Env) (e : Executor) (description : Text) (d : Decision)
    : Type 0 where
  pub calm : All IsCalm d.1
  pub rightful : d.0 ≡ true → MayPass policy env e description
  pub files : d.2.fs ≡ e.fs

after_answer-fs :
    (e : Executor) (description : Text) (a : Answer) → (after_answer e description a).fs ≡ e.fs
unfolding after_answer remember_always_allowed
after_answer-fs e description a = ground arith

ask-IsSound :
    (env : Env) (e : Executor) (description : Text) (confirm : Text → Answer)
    → env.confirm ≡ some confirm
    → IsSound policy_confirm env e description (ask e description (confirm description))
unfolding ask
ask-IsSound env e description confirm h = record {
  calm =
      All-append IsCalm _ _ (emit_activity-All IsCalm e activity_approval _ tt)
        (tt, emit_activity-All IsCalm e activity_approval _ tt);
  rightful = λ passed. inr (record { confirm = confirm; installed = h; approves = passed });
  files = after_answer-fs e description (confirm description);
}

approval_by-IsSound :
    (env : Env) (e : Executor) (description : Text) (b : Bool) (o : Option (Text → Answer))
    → is_always_allowed e description ≡ b
    → env.confirm ≡ o
    → IsSound policy_confirm env e description (approval_by b o e description)
unfolding approval_by
approval_by-IsSound env e description true o h k = record {
  calm = tt;
  rightful = λ passed. inl h;
  files = refl;
}
approval_by-IsSound env e description false none h k = record {
  calm = tt;
  rightful = λ passed. cc;
  files = refl;
}
approval_by-IsSound env e description false (some confirm) h k =
    ask-IsSound env e description confirm k

confirmed-IsSound :
    (env : Env) (e : Executor) (id description : Text) (d : Decision)
    → IsSound policy_confirm env e description d
    → IsSound policy_confirm env e description (confirmed id d)
unfolding confirmed send_approval_response
confirmed-IsSound env e id description (true, es, e') s = record {
  calm = All-append IsCalm es _ s.calm (tt, tt);
  rightful = s.rightful;
  files = s.files;
}
confirmed-IsSound env e id description (false, es, e') s = record {
  calm =
      All-append IsCalm es _ s.calm
        (tt, send_result-IsCalm e' id (pos 126) (codes "refused_by_user"));
  rightful = λ passed. cc;
  files = s.files;
}

pub guard_by-IsSound :
    (policy : Policy) (env : Env) (e : Executor) (id description : Text)
    → IsSound policy env e description (guard_by policy env e id description)
unfolding guard_by send_approval_response resolve_approval
guard_by-IsSound policy_auto env e id description = record {
  calm = tt;
  rightful = λ passed. tt;
  files = refl;
}
guard_by-IsSound policy_confirm env e id description =
    confirmed-IsSound env e id description _ (approval_by-IsSound env e description _ _ refl refl)
guard_by-IsSound policy_deny env e id description = record {
  calm = (tt, send_result-IsCalm e id (pos 126) (codes "refused_by_policy"));
  rightful = λ passed. cc;
  files = refl;
}

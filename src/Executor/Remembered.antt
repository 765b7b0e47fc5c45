-- ===== src/Executor/Remembered.antt =====
-- A description that was approved for always, in `passesGuardRail` of client/executor.go.
use claude_distant.Common.{Bool, ap, false, refl, some, true, ◌∙◌, ◌≡◌}
use claude_distant.Executor.{
  Env, Executor, after_answer, approval_by, ask, confirmed, guard_by, is_always_allowed,
  passes_guard_rail, remember_always_allowed, resolve_approval, send_approval_response,
}
use claude_distant.Executor.Memory.{confirmed-keeps}
use claude_distant.Policy.{Policy, get, policy_confirm}
use claude_distant.Policy.Prompt.{Answer}
use claude_distant.Text.{Text}
use claude_distant.Text.Laws.{equal_refl}

-- The executor behind an answer "toujours", or one that needed none.
remembered_after :
    (e : Executor) (d : Text) (b : Bool) (confirm : Text → Answer)
    → is_always_allowed e d ≡ b
    → (confirm d).approved ≡ true
    → (confirm d).always ≡ true
    → let e' = (approval_by b (some confirm) e d).2 in
      (is_always_allowed e' d ≡ true) × (e'.policy ≡ e.policy)
unfolding approval_by ask after_answer remember_always_allowed is_always_allowed
remembered_after e d true confirm h y a = (h, refl)
remembered_after e d false confirm h y a = rw (y, a) (rw equal_refl (refl, refl))

guard_by_known :
    (policy : Policy) (env : Env) (e : Executor) (id d : Text)
    → policy ≡ policy_confirm
    → is_always_allowed e d ≡ true
    → guard_by policy env e id d ≡ (true, send_approval_response id true, e)
unfolding guard_by resolve_approval confirmed approval_by
guard_by_known policy env e id d h k = rw (h, guard_by, k) refl

-- The guard rail under `confirm`, by the two values that it looks up.
confirm_rail :
    (env : Env) (e : Executor) (id d : Text)
    → get e.policy ≡ policy_confirm
    → (passes_guard_rail env e id d).2 ≡ (approval_by (is_always_allowed e d) env.confirm e d).2
unfolding passes_guard_rail guard_by resolve_approval
confirm_rail env e id d h =
    ap (λ (policy : Policy). (guard_by policy env e id d).2) h ∙ confirmed-keeps id _

-- Once the operator has approved a description for always, the guard rail lets it pass for any
-- later request under `confirm`, even when no prompt is left, without asking: it only tells the
-- relay that the request is approved.
pub passes_guard_rail_remembered :
    (env later : Env) (e : Executor) (id id' description : Text) (confirm : Text → Answer)
    → get e.policy ≡ policy_confirm
    → env.confirm ≡ some confirm
    → confirm description ≡ record { approved = true; always = true }
    → let e' = (passes_guard_rail env e id description).2 in
      passes_guard_rail later e' id' description ≡ (true, send_approval_response id' true, e')
unfolding passes_guard_rail
passes_guard_rail_remembered env later e id id' description confirm h k answer =
    let e' = (passes_guard_rail env e id description).2 in
    let same =
      confirm_rail env e id description h
      ∙ ap (λ o. (approval_by (is_always_allowed e description) o e description).2) k in
    let known =
      remembered_after e description _ confirm refl (ap (λ (a : Answer). a.approved) answer)
        (ap (λ (a : Answer). a.always) answer) in
    guard_by_known (get e'.policy) later e' id' description
      (ap (λ (x : Executor). get x.policy) same ∙ ap get known.1 ∙ h)
      (ap (λ (x : Executor). is_always_allowed x description) same ∙ known.0)

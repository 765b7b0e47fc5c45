-- ===== src/Executor/Shared/Alone.antt =====
-- A handler that nobody disturbs takes the steps of `passesGuardRail`.
use claude_distant.Common.{Bool, Option, false, none, refl, some, suc, sym, true, zero, ℕ, ◌∙◌, ◌≡◌}
use claude_distant.Executor.{
  Decision, Env, Executor, after_answer, approval_by, ask, confirmed, guard_by, is_always_allowed,
  passes_guard_rail, resolve_approval,
}
use claude_distant.Executor.Shared.{Gate, at_list, at_policy, behind_answer, gate_of, gate_step}
use claude_distant.Policy.{Policy, get, policy_auto, policy_confirm, policy_deny}
use claude_distant.Policy.Prompt.{Answer}
use claude_distant.Text.{Text}

pub gate_steps : ℕ → Executor → Text → Option Answer → Gate → Executor × Gate
unfolding gate_step
gate_steps zero e d said gate = (e, gate)
gate_steps (suc n) e d said gate =
    let (e', gate', words) = gate_step e d said gate in gate_steps n e' d said gate'

abbrev pub answer_to : Option (Text → Answer) → Text → Option Answer
answer_to none d = none
answer_to (some confirm) d = some (confirm d)

confirmed_parts :
    (id : Text) (r : Decision) → ((confirmed id r).2 ≡ r.2) × ((confirmed id r).0 ≡ r.0)
unfolding confirmed
confirmed_parts id (true, es, e) = (refl, refl)
confirmed_parts id (false, es, e) = (refl, refl)

-- Behind the policy `confirm`, by whether the list has the description.
listed_alone :
    (b : Bool) (prompt : Option (Text → Answer)) (e : Executor) (d : Text)
    → is_always_allowed e d ≡ b
    → gate_steps 3 e d (answer_to prompt d) at_list
      ≡ ((approval_by b prompt e d).2, behind_answer (approval_by b prompt e d).0)
unfolding gate_steps approval_by ask
listed_alone true prompt e d h = rw h
listed_alone false none e d h = rw h
listed_alone false (some confirm) e d h = rw h (answered (confirm d).approved)
  where
    answered :
        (b : Bool)
        → gate_steps 0 (after_answer e d (confirm d)) d (some (confirm d)) (behind_answer b)
          ≡ (after_answer e d (confirm d), behind_answer b)
    answered b = refl

by_policy :
    (policy : Policy) (env : Env) (e : Executor) (id d : Text)
    → gate_steps 3 e d (answer_to env.confirm d) (gate_of policy)
      ≡ ((guard_by policy env e id d).2, behind_answer (guard_by policy env e id d).0)
unfolding gate_steps guard_by resolve_approval
by_policy policy_deny env e id d = refl
by_policy policy_auto env e id d = refl
by_policy policy_confirm env e id d =
    let r = resolve_approval env e d in
    let (state, outcome) = confirmed_parts id r in
    listed_alone (is_always_allowed e d) env.confirm e d refl
    ∙ sym (λ i. (state i, behind_answer (outcome i)))

-- Four steps without a step of another in between do what `passesGuardRail` does: they pass and refuse
-- alike, and leave the same executor.
gate_steps_alone :
    (env : Env) (e : Executor) (id d : Text)
    → let r = passes_guard_rail env e id d in
      gate_steps 4 e d (answer_to env.confirm d) at_policy ≡ (r.2, behind_answer r.0)
unfolding gate_steps passes_guard_rail
gate_steps_alone env e id d = by_policy (get e.policy) env e id d

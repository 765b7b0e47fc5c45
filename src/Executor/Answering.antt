-- ===== src/Executor/Answering.antt =====
-- What it is to answer a command exactly once, and the guard rail of client/executor.go.
use claude_distant.Activity.{activity_approval, activity_result}
use claude_distant.Common.{
  All, All-append, Bool, List, Option, [], ap, false, none, refl, some, sym, true, ◌++◌, ◌∙◌, ◌∷◌,
  ◌≡◌,
}
use claude_distant.Common.Int.{pos, ℤ}
use claude_distant.Executor.{
  Decision, Effect, Env, Executor, approval_by, ask, confirmed, emit_activity, guard_by,
  resolve_approval, send_approval_response, send_result, send_result_with_meta, wrote,
}
use claude_distant.Executor.Effects.{emit_activity-All}
use claude_distant.Policy.{Policy, policy_auto, policy_confirm, policy_deny}
use claude_distant.Policy.Prompt.{Answer}
use claude_distant.Protocol.{Meta, new_result_message_with_meta, result_message}
use claude_distant.Text.{Text, codes}

-- An effect that is not the writing of a result.
abbrev pub IsNoResult : Effect → Type 0
IsNoResult (wrote (result_message id exit_code err info)) = ⊥
IsNoResult _ = Unit

-- The last effect writes a result for the request, and no other effect writes one.
pub record AnswersOnce (id : Text) (es : List Effect) : Type 0 where
  pub before : List Effect
  pub exit_code : ℤ
  pub err : Option Text
  pub info : Option Meta
  pub shape : es ≡ before ++ (wrote (result_message id exit_code err info) ∷ [])
  pub quiet : All IsNoResult before

append_assoc {ℓ} : {A : Type ℓ} (xs ys zs : List A) → (xs ++ ys) ++ zs ≡ xs ++ (ys ++ zs)
append_assoc [] ys zs = refl
append_assoc (x ∷ xs) ys zs = ap (◌∷◌ x) (append_assoc xs ys zs)

pub behind :
    {id : Text} (xs : List Effect) {ys : List Effect}
    → All IsNoResult xs
    → AnswersOnce id ys
    → AnswersOnce id (xs ++ ys)
behind xs h a = record {
  before = xs ++ a.before;
  exit_code = a.exit_code;
  err = a.err;
  info = a.info;
  shape = ap (◌++◌ xs) a.shape ∙ sym (append_assoc xs a.before _);
  quiet = All-append IsNoResult xs a.before h a.quiet;
}

pub send_result_with_meta-AnswersOnce :
    (e : Executor) (id : Text) (exit_code : ℤ) (err_msg : Text) (info : Option Meta)
    → AnswersOnce id (send_result_with_meta e id exit_code err_msg info)
unfolding send_result_with_meta new_result_message_with_meta
send_result_with_meta-AnswersOnce e id exit_code err_msg info = record {
  before = emit_activity e activity_result _;
  exit_code = exit_code;
  err = _;
  info = info;
  shape = refl;
  quiet = emit_activity-All IsNoResult e activity_result _ tt;
}

pub send_result-AnswersOnce :
    (e : Executor) (id : Text) (exit_code : ℤ) (err_msg : Text)
    → AnswersOnce id (send_result e id exit_code err_msg)
unfolding send_result
send_result-AnswersOnce e id exit_code err_msg =
    send_result_with_meta-AnswersOnce e id exit_code err_msg none

-- A decision that stops has answered; one that goes on has not.
abbrev pub Answers : Text → Decision → Type 0
Answers id (true, es, e) = All IsNoResult es
Answers id (false, es, e) = AnswersOnce id es

ask_quiet : (e : Executor) (d : Text) (a : Answer) → All IsNoResult (ask e d a).1
unfolding ask
ask_quiet e d a =
    All-append IsNoResult _ _ (emit_activity-All IsNoResult e activity_approval _ tt)
      (tt, emit_activity-All IsNoResult e activity_approval _ tt)

approval_by_quiet :
    (b : Bool) (o : Option (Text → Answer)) (e : Executor) (d : Text)
    → All IsNoResult (approval_by b o e d).1
unfolding approval_by
approval_by_quiet true o e d = tt
approval_by_quiet false none e d = tt
approval_by_quiet false (some confirm) e d = ask_quiet e d (confirm d)

confirmed-Answers : (id : Text) (d : Decision) → All IsNoResult d.1 → Answers id (confirmed id d)
unfolding confirmed send_approval_response
confirmed-Answers id (true, es, e) h = All-append IsNoResult es _ h (tt, tt)
confirmed-Answers id (false, es, e) h =
    behind es h
      (behind (_ ∷ []) (tt, tt) (send_result-AnswersOnce e id (pos 126) (codes "refused_by_user")))

pub guard_by-Answers :
    (policy : Policy) (env : Env) (e : Executor) (id d : Text)
    → Answers id (guard_by policy env e id d)
unfolding guard_by send_approval_response resolve_approval
guard_by-Answers policy_deny env e id d =
    behind (_ ∷ []) (tt, tt) (send_result-AnswersOnce e id (pos 126) (codes "refused_by_policy"))
guard_by-Answers policy_confirm env e id d = confirmed-Answers id _ (approval_by_quiet _ _ e d)
guard_by-Answers policy_auto env e id d = tt

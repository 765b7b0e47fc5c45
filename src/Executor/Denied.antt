-- ===== src/Executor/Denied.antt =====
-- The policy `deny` of client/policy.go, over a whole run of `Handle`.
-- An effect that leaves the machine alone: no file is opened, and a process starts only for a command
-- that matches no destructive pattern.
use claude_distant.Common.{All, List, [], false, inl, inr, ◌∷◌, ◌≡◌}
use claude_distant.Executor.{
  Effect, Env, Executor, asked, event, killed, opened_for_read, opened_for_write, started, wrote,
}
use claude_distant.Executor.FileEffect.{handle-IsFileEffect}
use claude_distant.Executor.Files.{write_description}
use claude_distant.Executor.Gate.{IsGranted, MayPass}
use claude_distant.Executor.Granted.{handle-IsGranted}
use claude_distant.Executor.Handle.{handle}
use claude_distant.Executor.Memory.{handle-Remembers}
use claude_distant.Executor.Run.{decode_params}
use claude_distant.Policy.{Policy, get, policy_auto, policy_confirm, policy_deny}
use claude_distant.Policy.Patterns.{is_destructive}
use claude_distant.Protocol.{CommandMessage, RunParams, zero_run_params}
use claude_distant.Text.{Text}

abbrev pub IsHarmless : Env → CommandMessage → Effect → Type 0
IsHarmless env cmd (started command) =
    (p : RunParams) × (decode_params env.json.unmarshal_run zero_run_params cmd.params ≡ inr p)
    × (is_destructive p.command ≡ false)
IsHarmless env cmd (opened_for_read p) = ⊥
IsHarmless env cmd (opened_for_write p) = ⊥
IsHarmless env cmd _ = Unit

nothing_passes :
    (policy : Policy) (env : Env) (e : Executor) (d : Text)
    → policy ≡ policy_deny
    → ¬ MayPass policy env e d
nothing_passes policy_auto env e d h passed = cc
nothing_passes policy_confirm env e d h passed = cc
nothing_passes policy_deny env e d h passed = passed

module _ (env : Env) (e : Executor) (cmd : CommandMessage)
    (denied : get e.policy ≡ policy_deny) where
  granted-IsHarmless : (x : Effect) → IsGranted env e cmd x → IsHarmless env cmd x
  granted-IsHarmless (event kind detail) g = tt
  granted-IsHarmless (wrote m) g = tt
  granted-IsHarmless (asked d) g = tt
  granted-IsHarmless (started command) (p, h, inl safe) = (p, h, safe)
  granted-IsHarmless (started command) (p, h, inr passed) =
      absurd (nothing_passes (get e.policy) env e p.command denied passed)
  granted-IsHarmless killed g = tt
  granted-IsHarmless (opened_for_read p) (h, passed) =
      absurd (nothing_passes (get e.policy) env e _ denied passed)
  granted-IsHarmless (opened_for_write p) (h, passed) =
      absurd (nothing_passes (get e.policy) env e _ denied passed)

  All-IsHarmless : (es : List Effect) → All (IsGranted env e cmd) es → All (IsHarmless env cmd) es
  All-IsHarmless [] g = tt
  All-IsHarmless (x ∷ es) (g, gs) = (granted-IsHarmless x g, All-IsHarmless es gs)

  -- Under `deny` no handled command opens a file or starts a process for a destructive command, and
  -- the files and the list of what is always allowed stay as they are, even for a description that
  -- was approved for always before.
  pub handle_denied :
      All (IsHarmless env cmd) (handle env e cmd).0
      × ((handle env e cmd).1.fs ≡ e.fs)
      × ((handle env e cmd).1.always_allowed ≡ e.always_allowed)
  handle_denied = (
    All-IsHarmless _ (handle-IsGranted env e cmd),
    elim (handle-IsFileEffect env e cmd) [
      | inl same ↦ same
      | inr w ↦
          absurd (nothing_passes (get e.policy) env e (write_description w.params) denied w.passes)
    ],
    elim (handle-Remembers env e cmd).0 [ inl same ↦ same | inr l ↦ cc (l.asks, denied) ],
  )

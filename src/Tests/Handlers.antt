-- ===== src/Tests/Handlers.antt =====
-- Runs of `Handle`.
use claude_distant.Common.{All, List, [], map, none, refl, some, ◌∷◌, ◌≡◌}
use claude_distant.Executor.{new_executor}
use claude_distant.Executor.Answering.{AnswersOnce}
use claude_distant.Executor.Denied.{IsHarmless, handle_denied}
use claude_distant.Executor.FileEffect.{IsFileEffect, handle-IsFileEffect}
use claude_distant.Executor.Gate.{IsGranted}
use claude_distant.Executor.Granted.{handle-IsGranted}
use claude_distant.Executor.Handle.{handle}
use claude_distant.Executor.Memory.{Remembers, handle-Remembers}
use claude_distant.Executor.OneResult.{handle-AnswersOnce}
use claude_distant.Executor.Shared.{
  Pending, Shared, Turn, arrives, changes, goes_on, let_through, new_shared, take_turns,
}
use claude_distant.Executor.Shared.Justified.{IsJustified, take_turns-IsJustified}
use claude_distant.Executor.Shared.SwitchedOff.{IsAsked, take_turns_switched_off}
use claude_distant.Policy.{get, policy_auto, policy_confirm, policy_deny}
use claude_distant.Tests.Setting.{
  client_with, machine, no_files, remove_all, says_always, write_note,
}
use claude_distant.Text.{codes, equal}

handle-AnswersOnce_example :
    AnswersOnce (codes "r1") (handle machine (client_with policy_confirm) remove_all).0
handle-AnswersOnce_example = handle-AnswersOnce machine (client_with policy_confirm) remove_all

handle-IsGranted_example :
    All
      (IsGranted machine (client_with policy_confirm) remove_all)
      (handle machine (client_with policy_confirm) remove_all).0
handle-IsGranted_example = handle-IsGranted machine (client_with policy_confirm) remove_all

handle-IsFileEffect_example :
    IsFileEffect machine
      (client_with policy_auto)
      write_note
      (handle machine (client_with policy_auto) write_note).1.fs
handle-IsFileEffect_example = handle-IsFileEffect machine (client_with policy_auto) write_note

handle_denied_example :
    All (IsHarmless machine write_note) (handle machine (client_with policy_deny) write_note).0
    × ((handle machine (client_with policy_deny) write_note).1.fs ≡ (client_with policy_deny).fs)
    × ((handle machine (client_with policy_deny) write_note).1.always_allowed
        ≡ (client_with policy_deny).always_allowed)
handle_denied_example =
    handle_denied machine (client_with policy_deny) write_note (unfold get new_executor in refl)

handle-Remembers_example :
    Remembers
      (get (client_with policy_confirm).policy)
      machine
      (client_with policy_confirm)
      (handle machine (client_with policy_confirm) remove_all).1
handle-Remembers_example = handle-Remembers machine (client_with policy_confirm) remove_all

-- Two handlers ask for the same command: the first is answered with "toujours" while the other waits, and
-- the policy is changed before the other goes on.
abbrev two_handlers : List Turn
two_handlers =
    arrives (codes "reboot")
    ∷ arrives (codes "reboot")
    ∷ goes_on 0 none
    ∷ goes_on 1 none
    ∷ goes_on 0 none
    ∷ goes_on 0 (some (says_always (codes "reboot")))
    ∷ goes_on 0 none
    ∷ changes policy_deny
    ∷ goes_on 1 none
    ∷ []

take_turns-IsJustified_example :
    IsJustified (take_turns two_handlers (new_shared policy_confirm (codes "/tmp/ws") no_files))
take_turns-IsJustified_example =
    take_turns-IsJustified policy_confirm (codes "/tmp/ws") no_files two_handlers

both_passed :
    map
      (λ (p : Pending). p.gate)
      (take_turns two_handlers (new_shared policy_confirm (codes "/tmp/ws") no_files)).pending
    ≡ let_through ∷ let_through ∷ []
unfolding take_turns new_shared equal
both_passed = refl

-- The policy `auto` is switched off while a handler that has not read it yet is on its way.
abbrev just_off : Shared
just_off =
    take_turns (arrives (codes "reboot") ∷ changes policy_confirm ∷ [])
      (new_shared policy_auto (codes "/tmp/ws") no_files)

just_off-IsJustified : IsJustified just_off
just_off-IsJustified =
    take_turns-IsJustified policy_auto (codes "/tmp/ws") no_files
      (arrives (codes "reboot") ∷ changes policy_confirm ∷ [])

abbrev asked_turns : List Turn
asked_turns =
    goes_on 0 none
    ∷ arrives (codes "ls")
    ∷ goes_on 1 none
    ∷ goes_on 1 (some (says_always (codes "reboot")))
    ∷ goes_on 1 none
    ∷ []

take_turns_switched_off_example :
    All (IsAsked (take_turns asked_turns just_off).words) (take_turns asked_turns just_off).pending
unfolding take_turns new_shared get
take_turns_switched_off_example =
    take_turns_switched_off asked_turns just_off just_off-IsJustified refl (tt, tt) refl

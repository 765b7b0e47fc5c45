-- ===== src/Gui/Run/Delivered.antt =====
-- The events that the journal of client/gui.go gets while `runUI` runs, and those that reach its log panel.
use mathlib.Core.List.{Perm, perm_middle}
use mathlib.Core.List.Perm
use claude_distant.Activity.{ActivityEvent}
use claude_distant.Common.{
  Bool, List, [], ap, append-nil, append_assoc, drop_at, false, get_elem?, maybe_list, none, refl,
  suc, sym, true, zero, ℕ, ◌++◌, ◌∙◌, ◌∷◌, ◌≡◌,
}
use claude_distant.Gui.Run.{
  UiStep, by_background, by_widget, closer_woke, event_of, handed_over, loop_returned,
  operator_closed, signalled,
}

-- The events that the journal gets, in its order.
abbrev pub appended_in : List UiStep → List ActivityEvent
appended_in [] = []
appended_in (by_background b ∷ steps) = event_of b ++ appended_in steps
appended_in (by_widget s ∷ steps) = appended_in steps
appended_in (signalled ∷ steps) = appended_in steps
appended_in (closer_woke ∷ steps) = appended_in steps
appended_in (operator_closed ∷ steps) = appended_in steps
appended_in (loop_returned stop ∷ steps) = appended_in steps
appended_in (handed_over i ∷ steps) = appended_in steps

-- The events that reach the panel, in the order in which they do, beside those that are pending at first.
abbrev pub reaching_in : List ActivityEvent → List UiStep → List ActivityEvent
reaching_in pending [] = []
reaching_in pending (by_background b ∷ steps) = reaching_in (pending ++ event_of b) steps
reaching_in pending (handed_over i ∷ steps) =
    maybe_list (get_elem? pending i) ++ reaching_in (drop_at i pending) steps
reaching_in pending (by_widget s ∷ steps) = reaching_in pending steps
reaching_in pending (signalled ∷ steps) = reaching_in pending steps
reaching_in pending (closer_woke ∷ steps) = reaching_in pending steps
reaching_in pending (operator_closed ∷ steps) = reaching_in pending steps
reaching_in pending (loop_returned stop ∷ steps) = reaching_in pending steps

-- The events that are pending behind the steps.
abbrev pub pending_behind : List ActivityEvent → List UiStep → List ActivityEvent
pending_behind pending [] = pending
pending_behind pending (by_background b ∷ steps) = pending_behind (pending ++ event_of b) steps
pending_behind pending (handed_over i ∷ steps) = pending_behind (drop_at i pending) steps
pending_behind pending (by_widget s ∷ steps) = pending_behind pending steps
pending_behind pending (signalled ∷ steps) = pending_behind pending steps
pending_behind pending (closer_woke ∷ steps) = pending_behind pending steps
pending_behind pending (operator_closed ∷ steps) = pending_behind pending steps
pending_behind pending (loop_returned stop ∷ steps) = pending_behind pending steps

pub drop_at-none : (xs : List ActivityEvent) (i : ℕ) → get_elem? xs i ≡ none → drop_at i xs ≡ xs
drop_at-none [] i h = refl
drop_at-none (x ∷ xs) zero h = cc
drop_at-none (x ∷ xs) (suc i) h = ap (◌∷◌ x) (drop_at-none xs i h)

-- An element that is taken out of a list is what the list has more.
taken_out :
    (xs : List ActivityEvent) (i : ℕ) → Perm xs (maybe_list (get_elem? xs i) ++ drop_at i xs)
taken_out [] i = Perm.rfl
taken_out (x ∷ xs) zero = Perm.rfl
taken_out (x ∷ xs) (suc i) =
    Perm.trans (Perm.cons x (taken_out xs i))
      (Perm.symm (perm_middle (maybe_list (get_elem? xs i)) (drop_at i xs)))

-- No event is lost on the way to the panel, and none reaches it twice.
pub reaching_in-complete :
    (pending : List ActivityEvent) (steps : List UiStep)
    → Perm
        (pending ++ appended_in steps)
        (reaching_in pending steps ++ pending_behind pending steps)
reaching_in-complete pending [] = rw append-nil Perm.rfl
reaching_in-complete pending (by_background b ∷ steps) =
    rw (sym (append_assoc pending (event_of b) (appended_in steps)))
      (reaching_in-complete (pending ++ event_of b) steps)
reaching_in-complete pending (handed_over i ∷ steps) =
    let taken = maybe_list (get_elem? pending i) in
    let left = drop_at i pending in
    rw (append_assoc taken (reaching_in left steps) (pending_behind left steps)) (
      Perm.trans (Perm.append_right (appended_in steps) (taken_out pending i)) (
        rw (append_assoc taken left (appended_in steps))
          (Perm.append_left taken (reaching_in-complete left steps))))
reaching_in-complete pending (by_widget s ∷ steps) = reaching_in-complete pending steps
reaching_in-complete pending (signalled ∷ steps) = reaching_in-complete pending steps
reaching_in-complete pending (closer_woke ∷ steps) = reaching_in-complete pending steps
reaching_in-complete pending (operator_closed ∷ steps) = reaching_in-complete pending steps
reaching_in-complete pending (loop_returned stop ∷ steps) = reaching_in-complete pending steps

-- The events reach the panel in the order of the journal.
abbrev pub in_order : List UiStep → Bool
in_order [] = true
in_order (handed_over zero ∷ steps) = in_order steps
in_order (handed_over (suc i) ∷ steps) = false
in_order (by_widget s ∷ steps) = in_order steps
in_order (by_background b ∷ steps) = in_order steps
in_order (signalled ∷ steps) = in_order steps
in_order (closer_woke ∷ steps) = in_order steps
in_order (operator_closed ∷ steps) = in_order steps
in_order (loop_returned stop ∷ steps) = in_order steps

-- In that order the journal's first events have reached the panel, and its others are pending.
pub reaching_in_order :
    (pending : List ActivityEvent) (steps : List UiStep)
    → in_order steps ≡ true
    → reaching_in pending steps ++ pending_behind pending steps ≡ pending ++ appended_in steps
reaching_in_order pending [] h = sym (append-nil pending)
reaching_in_order pending (by_background b ∷ steps) h =
    reaching_in_order (pending ++ event_of b) steps h
    ∙ append_assoc pending (event_of b) (appended_in steps)
reaching_in_order [] (handed_over zero ∷ steps) h = reaching_in_order [] steps h
reaching_in_order (x ∷ pending) (handed_over zero ∷ steps) h =
    ap (◌∷◌ x) (reaching_in_order pending steps h)
reaching_in_order pending (handed_over (suc i) ∷ steps) h = cc
reaching_in_order pending (by_widget s ∷ steps) h = reaching_in_order pending steps h
reaching_in_order pending (signalled ∷ steps) h = reaching_in_order pending steps h
reaching_in_order pending (closer_woke ∷ steps) h = reaching_in_order pending steps h
reaching_in_order pending (operator_closed ∷ steps) h = reaching_in_order pending steps h
reaching_in_order pending (loop_returned stop ∷ steps) h = reaching_in_order pending steps h

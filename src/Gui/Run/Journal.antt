-- ===== src/Gui/Run/Journal.antt =====
-- The log panel of client/gui.go beside the journal, while `runUI` runs.
use mathlib.Core.List.{Perm}
use claude_distant.Activity.{ActivityEvent, ActivityLog, events_of, new_activity_log}
use claude_distant.Activity.History.{take_last}
use claude_distant.Activity.Render.{TimeFormat, render_activity_line}
use claude_distant.Common.{
  Bool, List, [], ap, append-nil, false, map, refl, some, sym, true, ◌++◌, ◌∙◌, ◌≡◌,
}
use claude_distant.Common.Int.{is_positive, pos}
use claude_distant.Gui.{activity_log_capacity, rebuild_log_lines, shown_of}
use claude_distant.Gui.Run.{UiStep, start_ui, ui_run}
use claude_distant.Gui.Run.Callbacks.{are_callbacks}
use claude_distant.Gui.Run.Delivered.{
  appended_in, in_order, pending_behind, reaching_in, reaching_in-complete, reaching_in_order,
}
use claude_distant.Gui.Run.Fed.{IsFed}
use claude_distant.Gui.Run.Settled.{IsSettled, ui_run-IsSettled}
use claude_distant.Gui.Window.{
  Window, build, build_log, build_widgets, new_gui_state, open_window, seed_auto, set_auto,
}
use claude_distant.Gui.Window.Consistent.{IsConsistent, open_window-IsConsistent}
use claude_distant.Policy.{Policy, policy_auto, policy_confirm, policy_deny}

abbrev new_log : ActivityLog
new_log = new_activity_log (pos activity_log_capacity)

start_ui-IsFed :
    (calls_back : Bool) (f : TimeFormat) (policy : Policy)
    → IsFed [] [] (start_ui calls_back f policy).window
unfolding start_ui open_window build build_log build_widgets seed_auto set_auto new_gui_state
    new_activity_log events_of rebuild_log_lines is_positive
start_ui-IsFed true f policy_auto = record {
  log = new_log;
  kept_log = refl;
  sized = refl;
  logged_newest = refl;
  held = refl;
}
start_ui-IsFed true f policy_confirm = record {
  log = new_log;
  kept_log = refl;
  sized = refl;
  logged_newest = refl;
  held = refl;
}
start_ui-IsFed true f policy_deny = record {
  log = new_log;
  kept_log = refl;
  sized = refl;
  logged_newest = refl;
  held = refl;
}
start_ui-IsFed false f policy = record {
  log = new_log;
  kept_log = refl;
  sized = refl;
  logged_newest = refl;
  held = refl;
}

started-IsSettled :
    (calls_back : Bool) (f : TimeFormat) (policy : Policy) (steps : List UiStep)
    → are_callbacks steps ≡ true
    → IsSettled f
        (appended_in steps)
        (reaching_in [] steps)
        (pending_behind [] steps)
        (ui_run f steps (start_ui calls_back f policy))
unfolding start_ui
started-IsSettled calls_back f policy steps c =
    ui_run-IsSettled f steps [] [] [] (start_ui calls_back f policy) c (
      start_ui-IsFed calls_back f policy,
      open_window-IsConsistent calls_back f policy
          (some (new_activity_log (pos activity_log_capacity))),
      refl,
    )

-- The rows are the lines of the events that the panel holds and the filter shows.
rows_shown :
    (f : TimeFormat) (w : Window) (es : List ActivityEvent)
    → IsConsistent f w
    → w.panel.log_events ≡ es
    → w.panel.log_lines ≡ map (render_activity_line f) (shown_of w.panel.commands_only es)
rows_shown f w es h held =
    h.panelled.aligned
    ∙ ap (map (render_activity_line f))
        (h.panelled.filtered ∙ ap (shown_of w.panel.commands_only) held)

-- The panel gets what the journal gets. Whatever the connection and the operator do, in whatever order the
-- events of the journal reach the window, and as long as each widget only does what it calls back: the
-- journal holds the newest of the events that it got, and the panel, of the same capacity, the newest of
-- those that have reached it; these and the ones that are pending are the journal's, each as often, though
-- perhaps in another order; and the rows are the lines of exactly those held events that the filter
-- shows, in order.
pub ui_run_delivers :
    (calls_back : Bool) (f : TimeFormat) (policy : Policy) (steps : List UiStep)
    → are_callbacks steps ≡ true
    → let u = ui_run f steps (start_ui calls_back f policy) in
      let reached = reaching_in [] steps in
      (events_of u.window.activity_log ≡ take_last activity_log_capacity (appended_in steps))
      × (u.window.panel.log_events ≡ take_last activity_log_capacity reached)
      × Perm (appended_in steps) (reached ++ u.pending)
      × (u.window.panel.log_lines
          ≡ map
              (render_activity_line f)
              (shown_of u.window.panel.commands_only (take_last activity_log_capacity reached)))
unfolding events_of
ui_run_delivers calls_back f policy steps c =
    let (fed, shown, left) = started-IsSettled calls_back f policy steps c in
    (
      ap events_of fed.kept_log ∙ fed.logged_newest,
      fed.held,
      rw left (reaching_in-complete [] steps),
      rows_shown f _ _ shown fed.held,
    )

-- The panel is the journal where its events come in order: while each widget only does what it calls
-- back, the events reach the panel in the order in which the journal got them, and none is pending in the
-- end, the panel holds the events of the journal, and its rows are the lines of exactly those that the
-- filter shows, in order; so both have dropped the same events where the journal was full.
pub ui_run_shows_journal :
    (calls_back : Bool) (f : TimeFormat) (policy : Policy) (steps : List UiStep)
    → are_callbacks steps ≡ true
    → in_order steps ≡ true
    → (ui_run f steps (start_ui calls_back f policy)).pending ≡ []
    → let w = (ui_run f steps (start_ui calls_back f policy)).window in
      (w.panel.log_events ≡ events_of w.activity_log)
      × (w.panel.log_lines
          ≡ map
              (render_activity_line f)
              (shown_of w.panel.commands_only (events_of w.activity_log)))
unfolding events_of
ui_run_shows_journal calls_back f policy steps c o none_left =
    let (fed, shown, left) = started-IsSettled calls_back f policy steps c in
    let arrived : reaching_in [] steps ≡ appended_in steps =
      sym (append-nil (reaching_in [] steps))
      ∙ ap (◌++◌ (reaching_in [] steps)) (sym none_left ∙ left)
      ∙ reaching_in_order [] steps o in
    let same =
      fed.held
      ∙ ap (take_last activity_log_capacity) arrived
      ∙ sym (ap events_of fed.kept_log ∙ fed.logged_newest) in
    (same, rows_shown f _ _ shown same)

-- ===== src/Gui/Run/Operator.antt =====
-- What only the operator changes of the window of client/gui.go.
use claude_distant.Activity.{ActivityEvent}
use claude_distant.Activity.Render.{TimeFormat}
use claude_distant.Common.{
  Bool, List, Option, [], arith, drop_at, false, get_elem?, none, refl, some, sym, true, ℕ, ◌++◌,
  ◌∙◌, ◌∷◌, ◌≡◌,
}
use claude_distant.Gui.{rebuild_log_lines, set_filter}
use claude_distant.Gui.Run.{
  Ui, UiStep, background_steps, by_background, by_widget, close_window, closer_woke, event_of,
  hand_event, handed_over, loop_returned, operator_closed, signalled, start_ui, touch, ui_run,
  ui_step, wake_closer,
}
use claude_distant.Gui.Run.Untouched.{
  Untouched, append_log_event-filter, background_steps-Untouched, copy_code-Untouched,
  panel_got-Untouched, show_log_entry-Untouched,
}
use claude_distant.Gui.Window.{
  Window, WindowStep, close_detail, copied_code, copy_detail, panel_got, set_auto,
  set_identity_label, set_status_label, show_session_code, tapped_row, ticked_auto,
  ticked_commands_only, toggle_full_screen, toggled_full_screen, window_run, window_step,
}
use claude_distant.Policy.{Policy, set}

-- Two states of `runUI` that agree on the policy, on the warning, on the size of the window, on the
-- filter of the panel, on the contexts, and on whether the window is open.
pub record Agree (u v : Ui) : Type 0 where
  pub same_policy : u.window.policy ≡ v.window.policy
  pub same_warning : u.window.warning_hidden ≡ v.window.warning_hidden
  pub same_size : u.window.full_screen ≡ v.window.full_screen
  pub same_filter : u.window.panel.commands_only ≡ v.window.panel.commands_only
  pub same_ctx : u.ctx_done ≡ v.ctx_done
  pub same_ui_ctx : u.ui_done ≡ v.ui_done
  pub same_open : u.is_open ≡ v.is_open

-- The steps without those of the connection.
abbrev pub operator_steps : List UiStep → List UiStep
operator_steps [] = []
operator_steps (by_background b ∷ steps) = operator_steps steps
operator_steps (loop_returned stop ∷ steps) = operator_steps steps
operator_steps (handed_over i ∷ steps) = operator_steps steps
operator_steps (by_widget s ∷ steps) = by_widget s ∷ operator_steps steps
operator_steps (signalled ∷ steps) = signalled ∷ operator_steps steps
operator_steps (closer_woke ∷ steps) = closer_woke ∷ operator_steps steps
operator_steps (operator_closed ∷ steps) = operator_closed ∷ operator_steps steps

changed_elsewhere :
    (w : Window) (pending : List ActivityEvent) (u v : Ui)
    → Untouched u.window w
    → Agree u v
    → Agree (record u { window = w; pending = pending }) v
changed_elsewhere w pending u v kept h = record {
  same_policy = kept.kept_policy ∙ h.same_policy;
  same_warning = kept.kept_warning ∙ h.same_warning;
  same_size = kept.kept_size ∙ h.same_size;
  same_filter = kept.kept_filter ∙ h.same_filter;
  same_ctx = h.same_ctx;
  same_ui_ctx = h.same_ui_ctx;
  same_open = h.same_open;
}

hand_event-Agree :
    (f : TimeFormat) (i : ℕ) (o : Option ActivityEvent) (u v : Ui)
    → Agree u v
    → Agree (hand_event f i o u) v
unfolding hand_event
hand_event-Agree f i none u v h = h
hand_event-Agree f i (some e) u v h =
    changed_elsewhere (window_step f (panel_got e) u.window) (drop_at i u.pending) u v
      (panel_got-Untouched f e u.window) h

-- A widget does the same to both.
record Alike (w w' : Window) : Type 0 where
  alike_policy : w.policy ≡ w'.policy
  alike_warning : w.warning_hidden ≡ w'.warning_hidden
  alike_size : w.full_screen ≡ w'.full_screen
  alike_filter : w.panel.commands_only ≡ w'.panel.commands_only

both_kept : {w w' u u' : Window} → Untouched w u → Untouched w' u' → Alike w w' → Alike u u'
both_kept k k' h = record {
  alike_policy = k.kept_policy ∙ h.alike_policy ∙ sym k'.kept_policy;
  alike_warning = k.kept_warning ∙ h.alike_warning ∙ sym k'.kept_warning;
  alike_size = k.kept_size ∙ h.alike_size ∙ sym k'.kept_size;
  alike_filter = k.kept_filter ∙ h.alike_filter ∙ sym k'.kept_filter;
}

set_auto-Alike :
    (checked : Bool) (w w' : Window) → Alike w w' → Alike (set_auto checked w) (set_auto checked w')
unfolding set_auto set
set_auto-Alike true w w' h = ground arith
set_auto-Alike false w w' h = ground arith

window_step-Alike :
    (f : TimeFormat) (s : WindowStep) (w w' : Window)
    → Alike w w'
    → Alike (window_step f s w) (window_step f s w')
unfolding window_step copy_detail close_detail set_status_label set_identity_label show_session_code
    set_filter rebuild_log_lines toggle_full_screen
window_step-Alike f (ticked_auto checked) w w' h = set_auto-Alike checked w w' h
window_step-Alike f (ticked_commands_only checked) w w' h = ground arith
window_step-Alike f toggled_full_screen w w' h = ground arith
window_step-Alike f copied_code w w' h =
    both_kept (copy_code-Untouched w) (copy_code-Untouched w') h
window_step-Alike f (tapped_row id) w w' h =
    both_kept (show_log_entry-Untouched f id w) (show_log_entry-Untouched f id w') h
window_step-Alike f (panel_got e) w w' h =
    let keeps = append_log_event-filter f e in
    record {
      alike_policy = h.alike_policy;
      alike_warning = h.alike_warning;
      alike_size = h.alike_size;
      alike_filter = keeps w.panel ∙ h.alike_filter ∙ sym (keeps w'.panel);
    }
window_step-Alike f s w w' h = record {
  alike_policy = h.alike_policy;
  alike_warning = h.alike_warning;
  alike_size = h.alike_size;
  alike_filter = h.alike_filter;
}

close_window-Agree : (u v : Ui) → Agree u v → Agree (close_window u) (close_window v)
unfolding close_window
close_window-Agree u v h = ground arith

wake_closer-Agree : (u v : Ui) → Agree u v → Agree (wake_closer u) (wake_closer v)
unfolding wake_closer close_window
wake_closer-Agree u v h = ground arith

touch-Agree :
    (f : TimeFormat) (s : WindowStep) (u v : Ui) → Agree u v → Agree (touch f s u) (touch f s v)
unfolding touch
touch-Agree f s u v h =
    let alike = window_step-Alike f s u.window v.window (record {
      alike_policy = h.same_policy;
      alike_warning = h.same_warning;
      alike_size = h.same_size;
      alike_filter = h.same_filter;
    }) in
    ground (arith, alike.alike_policy, alike.alike_warning, alike.alike_size, alike.alike_filter)

run-Agree :
    (f : TimeFormat) (steps : List UiStep) (u v : Ui)
    → Agree u v
    → Agree (ui_run f steps u) (ui_run f (operator_steps steps) v)
unfolding ui_run ui_step
run-Agree f [] u v h = h
run-Agree f (by_background b ∷ steps) u v h = run-Agree f steps (ui_step f (by_background b) u) v (
    changed_elsewhere (window_run f (background_steps b) u.window) (u.pending ++ event_of b) u v
      (background_steps-Untouched f b u.window) h)
run-Agree f (handed_over i ∷ steps) u v h =
    run-Agree f steps (ui_step f (handed_over i) u) v
      (hand_event-Agree f i (get_elem? u.pending i) u v h)
run-Agree f (loop_returned stop ∷ steps) u v h =
    run-Agree f steps (ui_step f (loop_returned stop) u) v (ground arith)
run-Agree f (by_widget s ∷ steps) u v h =
    run-Agree f steps (touch f s u) (touch f s v) (touch-Agree f s u v h)
run-Agree f (signalled ∷ steps) u v h =
    run-Agree f steps (ui_step f signalled u) (ui_step f signalled v) (ground arith)
run-Agree f (closer_woke ∷ steps) u v h =
    run-Agree f steps (wake_closer u) (wake_closer v) (wake_closer-Agree u v h)
run-Agree f (operator_closed ∷ steps) u v h =
    run-Agree f steps (close_window u) (close_window v) (close_window-Agree u v h)

-- The relay decides nothing of this: whatever the connection does and however it interleaves with the
-- operator, the policy in force, the warning, the size of the window, the filter of the panel, the two
-- contexts and whether the window is open are what the steps of the widgets, of the signal and of the
-- closing alone would have made of them.
pub ui_run_operator_decides :
    (calls_back : Bool) (f : TimeFormat) (policy : Policy) (steps : List UiStep)
    → Agree
        (ui_run f steps (start_ui calls_back f policy))
        (ui_run f (operator_steps steps) (start_ui calls_back f policy))
ui_run_operator_decides calls_back f policy steps =
    run-Agree f steps (start_ui calls_back f policy) (start_ui calls_back f policy) (record {
      same_policy = refl;
      same_warning = refl;
      same_size = refl;
      same_filter = refl;
      same_ctx = refl;
      same_ui_ctx = refl;
      same_open = refl;
    })

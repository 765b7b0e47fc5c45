-- ===== src/Gui/Window/Consistent.antt =====
-- What the window of client/gui.go always shows.
use claude_distant.Activity.{ActivityEvent, ActivityLog, events_of}
use claude_distant.Activity.Render.{TimeFormat, render_activity_line}
use claude_distant.Common.{
  Bool, List, Option, [], ap, arith, drop, false, inr, length, map, none, not, refl, some, sym,
  true, ℕ, ◌++◌, ◌-◌, ◌∙◌, ◌∷◌, ◌≡◌, ◌⊎◌,
}
use claude_distant.Common.Int.{negsuc, pos}
use claude_distant.Gui.{
  LogPanel, activity_log_capacity, add_line, append_by, append_log_event, append_within,
  empty_panel, rebuild_log_lines, set_filter, shown_of, shows_event,
}
use claude_distant.Gui.Mirror.{map-append, shown_of-concat}
use claude_distant.Gui.Window.{
  Window, WindowStep, build, build_log, build_widgets, close_detail, closed_detail, copied_code,
  copied_detail, copy_code, copy_detail, expand_label, got_identity, got_session_code, got_status,
  is_auto, journal_grew, new_gui_state, no_code, open_detail, open_window, panel_got, seed_auto,
  set_auto, set_identity_label, set_status_label, show_log_entry, show_session_code, tapped_row,
  ticked_auto, ticked_commands_only, toggle_full_screen, toggled_full_screen, window_run,
  window_step,
}
use claude_distant.Policy.{
  Policy, PolicyController, get, policy_auto, policy_confirm, policy_deny, set,
}
use claude_distant.Session.Code.{format_session_code}
use claude_distant.Text.{Text}

-- The shown events are those that the filter lets through, and the rows are theirs, one by one.
pub record IsAligned (f : TimeFormat) (p : LogPanel) : Type 0 where
  pub filtered : p.log_shown ≡ shown_of p.commands_only p.log_events
  pub aligned : p.log_lines ≡ map (render_activity_line f) p.log_shown

-- The warning stands exactly if nothing is confirmed any more; the code is the one that the relay gave,
-- in its groups; the button says what it will do; and the rows are aligned.
pub record IsConsistent (f : TimeFormat) (w : Window) : Type 0 where
  pub warned : w.warning_hidden ≡ not (is_auto (get w.policy))
  pub coded :
      (w.code_text ≡ format_session_code w.raw_code) ⊎ ((w.raw_code ≡ []) × (w.code_text ≡ no_code))
  pub framed : w.window_full_screen ≡ w.full_screen
  pub labelled : w.expand_text ≡ expand_label w.full_screen
  pub panelled : IsAligned f w.panel

rebuild_log_lines-IsAligned : (f : TimeFormat) (p : LogPanel) → IsAligned f (rebuild_log_lines f p)
unfolding rebuild_log_lines
rebuild_log_lines-IsAligned f p = record { filtered = refl; aligned = refl }

add_line-IsAligned :
    (shows : Bool) (f : TimeFormat) (e : ActivityEvent) (p : LogPanel)
    → shows_event p.commands_only e ≡ shows
    → IsAligned f p
    → IsAligned f (add_line shows f e (record p { log_events = p.log_events ++ e ∷ [] }))
unfolding add_line
add_line-IsAligned true f e p s h = record {
  filtered =
      ap (λ (es : List ActivityEvent). es ++ e ∷ []) h.filtered
      ∙ sym (shown_of-concat true p.commands_only p.log_events e s);
  aligned =
      ap (λ (ls : List Text). ls ++ render_activity_line f e ∷ []) h.aligned
      ∙ sym (map-append (render_activity_line f) p.log_shown (e ∷ []));
}
add_line-IsAligned false f e p s h = record {
  filtered = h.filtered ∙ sym (shown_of-concat false p.commands_only p.log_events e s);
  aligned = h.aligned;
}

append_by-IsAligned :
    (over : Bool) (f : TimeFormat) (capacity : ℕ) (e : ActivityEvent) (p : LogPanel)
    → IsAligned f p
    → IsAligned f (append_by over f capacity e p)
unfolding append_by
append_by-IsAligned true f capacity e p h = rebuild_log_lines-IsAligned f (record p {
  log_events = drop (length (p.log_events ++ e ∷ []) - capacity) (p.log_events ++ e ∷ []);
})
append_by-IsAligned false f capacity e p h = add_line-IsAligned _ f e p refl h

append_log_event-IsAligned :
    (f : TimeFormat) (e : ActivityEvent) (p : LogPanel)
    → IsAligned f p
    → IsAligned f (append_log_event f e p)
unfolding append_log_event append_within
append_log_event-IsAligned f e p h = append_by-IsAligned _ f activity_log_capacity e p h

set_filter-IsAligned : (f : TimeFormat) (b : Bool) (p : LogPanel) → IsAligned f (set_filter f b p)
unfolding set_filter
set_filter-IsAligned f b p = rebuild_log_lines-IsAligned f (record p { commands_only = b })

open_detail-IsConsistent :
    (f : TimeFormat) (o : Option ActivityEvent) (w : Window)
    → IsConsistent f w
    → IsConsistent f (open_detail f o w)
unfolding open_detail
open_detail-IsConsistent f none w h = h
open_detail-IsConsistent f (some e) w h = ground arith

set_auto-IsConsistent :
    (f : TimeFormat) (checked : Bool) (w : Window)
    → IsConsistent f w
    → IsConsistent f (set_auto checked w)
unfolding set_auto set get
set_auto-IsConsistent f true w h = ground arith
set_auto-IsConsistent f false w h = ground arith

copy_code-IsConsistent :
    (f : TimeFormat) (w : Window) → IsConsistent f w → IsConsistent f (copy_code w)
unfolding copy_code
copy_code-IsConsistent f w h = ground arith

toggle_full_screen-IsConsistent :
    (f : TimeFormat) (w : Window) → IsConsistent f w → IsConsistent f (toggle_full_screen w)
unfolding toggle_full_screen
toggle_full_screen-IsConsistent f w h = ground arith

pub window_step-IsConsistent :
    (f : TimeFormat) (s : WindowStep) (w : Window)
    → IsConsistent f w
    → IsConsistent f (window_step f s w)
unfolding window_step show_log_entry copy_detail close_detail set_status_label set_identity_label
    show_session_code
window_step-IsConsistent f copied_code w h = copy_code-IsConsistent f w h
window_step-IsConsistent f toggled_full_screen w h = toggle_full_screen-IsConsistent f w h
window_step-IsConsistent f copied_detail w h = ground arith
window_step-IsConsistent f closed_detail w h = ground arith
window_step-IsConsistent f (ticked_auto checked) w h = set_auto-IsConsistent f checked w h
window_step-IsConsistent f (ticked_commands_only checked) w h =
    ground (arith, set_filter-IsAligned f checked w.panel)
window_step-IsConsistent f (got_status status) w h = ground arith
window_step-IsConsistent f (got_identity hostname os_name) w h = ground arith
window_step-IsConsistent f (got_session_code session_code) w h = ground arith
window_step-IsConsistent f (tapped_row (negsuc n)) w h = h
window_step-IsConsistent f (tapped_row (pos n)) w h = open_detail-IsConsistent f _ w h
window_step-IsConsistent f (journal_grew e) w h = ground arith
window_step-IsConsistent f (panel_got e) w h =
    ground (arith, append_log_event-IsAligned f e w.panel h.panelled)

pub window_run_from-IsConsistent :
    (f : TimeFormat) (steps : List WindowStep) (w : Window)
    → IsConsistent f w
    → IsConsistent f (window_run f steps w)
unfolding window_run
window_run_from-IsConsistent f [] w h = h
window_run_from-IsConsistent f (s ∷ steps) w h =
    window_run_from-IsConsistent f steps (window_step f s w) (window_step-IsConsistent f s w h)

filled_panel-IsAligned :
    (f : TimeFormat) (es : List ActivityEvent)
    → IsAligned f (rebuild_log_lines f (record empty_panel { log_events = es }))
filled_panel-IsAligned f es = rebuild_log_lines-IsAligned f (record empty_panel { log_events = es })

-- The window behind `build`, by what the switch left of the policy and of the warning.
abbrev built : TimeFormat → PolicyController → Bool → Option ActivityLog → Window
built f policy hidden l =
    build_log f (record (build_widgets false (new_gui_state policy l)) { warning_hidden = hidden })

built-IsConsistent :
    (f : TimeFormat) (policy : PolicyController) (hidden : Bool) (l : Option ActivityLog)
    → hidden ≡ not (is_auto (get policy))
    → IsConsistent f (built f policy hidden l)
unfolding build_log build_widgets new_gui_state
built-IsConsistent f policy hidden l h = record {
  warned = h;
  coded = inr (refl, refl);
  framed = refl;
  labelled = refl;
  panelled = filled_panel-IsAligned f (events_of l);
}

pub open_window-IsConsistent :
    (calls_back : Bool) (f : TimeFormat) (policy : Policy) (l : Option ActivityLog)
    → IsConsistent f (open_window calls_back f policy l)
unfolding open_window build build_widgets build_log seed_auto set_auto new_gui_state get set
open_window-IsConsistent true f policy_auto l =
    built-IsConsistent f (record { p = policy_auto }) false l refl
open_window-IsConsistent true f policy_confirm l =
    built-IsConsistent f (record { p = policy_confirm }) true l refl
open_window-IsConsistent true f policy_deny l =
    built-IsConsistent f (record { p = policy_confirm }) true l refl
open_window-IsConsistent false f policy l =
    built-IsConsistent f (record { p = policy }) (not (is_auto policy)) l refl

-- Whatever policy the client starts with, whatever the operator does and whatever arrives: the window
-- warns exactly while the policy in force is `auto`; the code on show is the one that the copy button
-- has, in its groups, or dashes where there is none; the button tells the state of the window; and the
-- rows of the panel are the shown events, one by one.
pub window_run-IsConsistent :
    (calls_back : Bool) (f : TimeFormat) (policy : Policy) (l : Option ActivityLog)
    (steps : List WindowStep)
    → IsConsistent f (window_run f steps (open_window calls_back f policy l))
window_run-IsConsistent calls_back f policy l steps =
    window_run_from-IsConsistent f steps (open_window calls_back f policy l)
      (open_window-IsConsistent calls_back f policy l)

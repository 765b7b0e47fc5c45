-- ===== src/Gui/Run/Untouched.antt =====
-- The steps of the window of client/gui.go that leave alone what the operator decides.
use claude_distant.Activity.{ActivityEvent}
use claude_distant.Activity.Render.{TimeFormat}
use claude_distant.Common.{Option, arith, none, refl, some, ℕ, ◌≡◌}
use claude_distant.Common.Int.{negsuc, pos, ℤ}
use claude_distant.Gui.{
  LogPanel, add_line, append_by, append_log_event, append_within, rebuild_log_lines,
}
use claude_distant.Gui.Connection.{GuiEffect, journaled}
use claude_distant.Gui.Run.{Background, background_steps, by_executor, by_loop, loop_steps}
use claude_distant.Gui.Window.{
  Window, copy_code, open_detail, panel_got, set_identity_label, set_status_label, show_log_entry,
  show_session_code, window_run, window_step,
}

-- What the connection leaves alone.
pub record Untouched (w w' : Window) : Type 0 where
  pub kept_policy : w'.policy ≡ w.policy
  pub kept_warning : w'.warning_hidden ≡ w.warning_hidden
  pub kept_size : w'.full_screen ≡ w.full_screen
  pub kept_filter : w'.panel.commands_only ≡ w.panel.commands_only

pub append_log_event-filter :
    (f : TimeFormat) (e : ActivityEvent) (p : LogPanel)
    → (append_log_event f e p).commands_only ≡ p.commands_only
unfolding append_log_event append_within append_by add_line rebuild_log_lines
append_log_event-filter f e p = ground arith

pub panel_got-Untouched :
    (f : TimeFormat) (e : ActivityEvent) (w : Window) → Untouched w (window_step f (panel_got e) w)
unfolding window_step
panel_got-Untouched f e w = record {
  kept_policy = refl;
  kept_warning = refl;
  kept_size = refl;
  kept_filter = append_log_event-filter f e w.panel;
}

pub loop_steps-Untouched :
    (f : TimeFormat) (now : ℕ) (x : GuiEffect) (w : Window)
    → Untouched w (window_run f (loop_steps now x) w)
unfolding loop_steps window_run window_step set_identity_label show_session_code set_status_label
loop_steps-Untouched f now (journaled detail) w = record {
  kept_policy = refl;
  kept_warning = refl;
  kept_size = refl;
  kept_filter = refl;
}
loop_steps-Untouched f now x w = record {
  kept_policy = refl;
  kept_warning = refl;
  kept_size = refl;
  kept_filter = refl;
}

pub background_steps-Untouched :
    (f : TimeFormat) (b : Background) (w : Window)
    → Untouched w (window_run f (background_steps b) w)
unfolding background_steps window_run window_step
background_steps-Untouched f (by_loop now x) w = loop_steps-Untouched f now x w
background_steps-Untouched f (by_executor e) w = record {
  kept_policy = refl;
  kept_warning = refl;
  kept_size = refl;
  kept_filter = refl;
}

pub open_detail-Untouched :
    (f : TimeFormat) (o : Option ActivityEvent) (w : Window) → Untouched w (open_detail f o w)
unfolding open_detail
open_detail-Untouched f none w = record {
  kept_policy = refl;
  kept_warning = refl;
  kept_size = refl;
  kept_filter = refl;
}
open_detail-Untouched f (some e) w = record {
  kept_policy = refl;
  kept_warning = refl;
  kept_size = refl;
  kept_filter = refl;
}

pub show_log_entry-Untouched :
    (f : TimeFormat) (id : ℤ) (w : Window) → Untouched w (show_log_entry f id w)
unfolding show_log_entry
show_log_entry-Untouched f (negsuc n) w = record {
  kept_policy = refl;
  kept_warning = refl;
  kept_size = refl;
  kept_filter = refl;
}
show_log_entry-Untouched f (pos n) w = open_detail-Untouched f _ w

pub copy_code-Untouched : (w : Window) → Untouched w (copy_code w)
unfolding copy_code
copy_code-Untouched w = ground arith

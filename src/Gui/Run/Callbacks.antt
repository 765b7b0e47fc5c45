-- ===== src/Gui/Run/Callbacks.antt =====
-- What the widgets of client/gui.go call back leaves the journal and the events of the panel alone.
use claude_distant.Activity.{ActivityEvent}
use claude_distant.Activity.Render.{TimeFormat}
use claude_distant.Common.{
  Bool, List, Option, [], arith, false, none, refl, some, true, ◌&&◌, ◌∷◌, ◌≡◌,
}
use claude_distant.Common.Int.{negsuc, pos}
use claude_distant.Gui.{rebuild_log_lines, set_filter}
use claude_distant.Gui.Run.{
  UiStep, by_background, by_widget, closer_woke, handed_over, loop_returned, operator_closed,
  signalled,
}
use claude_distant.Gui.Run.Fed.{KeepsEvents}
use claude_distant.Gui.Window.{
  Window, WindowStep, close_detail, closed_detail, copied_code, copied_detail, copy_code,
  copy_detail, got_identity, got_session_code, got_status, journal_grew, open_detail, panel_got,
  set_auto, show_log_entry, tapped_row, ticked_auto, ticked_commands_only, toggle_full_screen,
  toggled_full_screen, window_step,
}

-- What a widget calls back.
abbrev pub is_callback : WindowStep → Bool
is_callback (journal_grew e) = false
is_callback (panel_got e) = false
is_callback (got_status status) = false
is_callback (got_identity hostname os_name) = false
is_callback (got_session_code session_code) = false
is_callback _ = true

-- The widgets do what they call back, and nothing else.
abbrev pub are_callbacks : List UiStep → Bool
are_callbacks [] = true
are_callbacks (by_widget s ∷ steps) = is_callback s && are_callbacks steps
are_callbacks (by_background b ∷ steps) = are_callbacks steps
are_callbacks (signalled ∷ steps) = are_callbacks steps
are_callbacks (closer_woke ∷ steps) = are_callbacks steps
are_callbacks (operator_closed ∷ steps) = are_callbacks steps
are_callbacks (loop_returned stop ∷ steps) = are_callbacks steps
are_callbacks (handed_over i ∷ steps) = are_callbacks steps

open_detail-KeepsEvents :
    (f : TimeFormat) (o : Option ActivityEvent) (w : Window) → KeepsEvents w (open_detail f o w)
unfolding open_detail
open_detail-KeepsEvents f none w = (refl, refl)
open_detail-KeepsEvents f (some e) w = (refl, refl)

pub window_step-KeepsEvents :
    (f : TimeFormat) (s : WindowStep) (w : Window)
    → is_callback s ≡ true
    → KeepsEvents w (window_step f s w)
unfolding window_step copy_code copy_detail close_detail set_auto set_filter rebuild_log_lines
    toggle_full_screen show_log_entry
window_step-KeepsEvents f copied_code w h = ground arith
window_step-KeepsEvents f (ticked_auto true) w h = (refl, refl)
window_step-KeepsEvents f (ticked_auto false) w h = (refl, refl)
window_step-KeepsEvents f (tapped_row (pos n)) w h = open_detail-KeepsEvents f _ w
window_step-KeepsEvents f (tapped_row (negsuc n)) w h = (refl, refl)
window_step-KeepsEvents f toggled_full_screen w h = (refl, refl)
window_step-KeepsEvents f copied_detail w h = (refl, refl)
window_step-KeepsEvents f closed_detail w h = (refl, refl)
window_step-KeepsEvents f (ticked_commands_only checked) w h = (refl, refl)
window_step-KeepsEvents f (journal_grew e) w h = cc
window_step-KeepsEvents f (panel_got e) w h = cc
window_step-KeepsEvents f (got_status status) w h = cc
window_step-KeepsEvents f (got_identity hostname os_name) w h = cc
window_step-KeepsEvents f (got_session_code session_code) w h = cc

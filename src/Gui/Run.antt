-- ===== src/Gui/Run.antt =====
-- `runUI` of client/gui.go: the window, the goroutine of the connection beside it, and the contexts that
-- tie the two together.
pub mod Untouched
pub mod Operator
pub mod Callbacks
pub mod Delivered
pub mod Fed
pub mod Settled
pub mod Journal
use claude_distant.Activity.{ActivityEvent, activity_connection, new_activity_log}
use claude_distant.Activity.Render.{TimeFormat}
use claude_distant.Common.{
  Bool, List, Option, [], drop_at, false, get_elem?, if◌then◌else◌, none, some, true, ℕ, ◌++◌, ◌∷◌,
}
use claude_distant.Common.Int.{pos}
use claude_distant.Gui.{activity_log_capacity}
use claude_distant.Gui.Connection.{
  GuiEffect, gui_logged, gui_ran_session, gui_sent_register, gui_started_handle, gui_waited,
  journaled, set_identity, set_session_code, set_status,
}
use claude_distant.Gui.Window.{
  Window, WindowStep, got_identity, got_session_code, got_status, journal_grew, open_window,
  panel_got, window_run, window_step,
}
use claude_distant.Policy.{Policy}
use claude_distant.Session.Reconnect.{Stop, context_cancelled, killed_by_relay, still_running}
use claude_distant.Text.{Text, codes}

-- What the goroutines of the connection do that reaches the window: an effect of `guiRunForever` at the
-- time of `time.Now()`, or an event that an `Executor` emits.
pub data Background : Type 0 where
  by_loop : ℕ → GuiEffect → Background
  by_executor : ActivityEvent → Background

abbrev pub loop_event : ℕ → Text → ActivityEvent
loop_event now detail = record { time = now; kind = activity_connection; detail = detail }

-- What an effect of the loop does to the window; the event of an `Append` is in the journal at once.
unfoldable pub loop_steps : ℕ → GuiEffect → List WindowStep
loop_steps now (set_identity hostname os_name) = got_identity hostname os_name ∷ []
loop_steps now (set_session_code session_code) = got_session_code session_code ∷ []
loop_steps now (set_status status) = got_status status ∷ []
loop_steps now (journaled detail) = journal_grew (loop_event now detail) ∷ []
loop_steps now (gui_sent_register message) = []
loop_steps now (gui_started_handle cmd) = []
loop_steps now (gui_logged line) = []
loop_steps now gui_ran_session = []
loop_steps now (gui_waited d) = []

unfoldable pub background_steps : Background → List WindowStep
unfolding loop_steps
background_steps (by_loop now x) = loop_steps now x
background_steps (by_executor e) = journal_grew e ∷ []

-- The event that `notify` has to hand to the window.
abbrev pub event_of_effect : ℕ → GuiEffect → List ActivityEvent
event_of_effect now (journaled detail) = loop_event now detail ∷ []
event_of_effect now _ = []

abbrev pub event_of : Background → List ActivityEvent
event_of (by_loop now x) = event_of_effect now x
event_of (by_executor e) = e ∷ []

-- The state of `runUI` while `ShowAndRun` runs: the window, whether `ctx` and `uiCtx` are done, whether
-- the window is open, the lines that went to the log, and the events that are in the journal and have
-- not reached the panel: `notify` runs behind the lock of `Append`, and hands an event to the goroutine
-- of the window, so that of two goroutines the later one may be first.
pub record Ui : Type 0 where
  pub window : Window
  pub ctx_done : Bool
  pub ui_done : Bool
  pub is_open : Bool
  pub log_output : List Text
  pub pending : List ActivityEvent

-- `w.Close()` and the callback of `SetOnClosed`.
unfoldable pub close_window : Ui → Ui
close_window u = if u.is_open then record u { is_open = false; ui_done = true } else u

-- The text of the error with which `guiRunForever` returns, unless it is the one of a cancelled context.
unfoldable pub stop_lines : Stop → List Text
stop_lines still_running = []
stop_lines context_cancelled = []
stop_lines killed_by_relay =
    codes
      "claude-distant-client: session terminée par le relay (kill-switch) : arrêt du client, pas de reconnexion"
    ∷ []

-- What happens while the window runs: a callback of its widgets, something that the connection does, a
-- signal that ends `ctx`, the goroutine that waits for it, the operator who closes the window, the
-- return of `guiRunForever`, and an event that reaches the panel, by its place among the pending ones.
pub data UiStep : Type 0 where
  by_widget : WindowStep → UiStep
  by_background : Background → UiStep
  signalled closer_woke operator_closed : UiStep
  loop_returned : Stop → UiStep
  handed_over : ℕ → UiStep

-- The goroutine that waits for `ctx` closes the window only once it is done.
unfoldable pub wake_closer : Ui → Ui
unfolding close_window
wake_closer u = if u.ctx_done then close_window u else u

-- A widget of a closed window is not touched any more.
unfoldable pub touch : TimeFormat → WindowStep → Ui → Ui
touch f s u = if u.is_open then record u { window = window_step f s u.window } else u

-- `appendLogEvent` for the event at a place, if there is one.
unfoldable pub hand_event : TimeFormat → ℕ → Option ActivityEvent → Ui → Ui
hand_event f i none u = u
hand_event f i (some e) u = record u {
  window = window_step f (panel_got e) u.window;
  pending = drop_at i u.pending;
}

unfoldable pub ui_step : TimeFormat → UiStep → Ui → Ui
unfolding background_steps wake_closer touch stop_lines hand_event
ui_step f (by_widget s) u = touch f s u
ui_step f (by_background b) u = record u {
  window = window_run f (background_steps b) u.window;
  pending = u.pending ++ event_of b;
}
ui_step f signalled u = record u { ctx_done = true; ui_done = true }
ui_step f closer_woke u = wake_closer u
ui_step f operator_closed u = close_window u
ui_step f (loop_returned stop) u = record u { log_output = u.log_output ++ stop_lines stop }
ui_step f (handed_over i) u = hand_event f i (get_elem? u.pending i) u

unfoldable pub ui_run : TimeFormat → List UiStep → Ui → Ui
unfolding ui_step
ui_run f [] u = u
ui_run f (s ∷ steps) u = ui_run f steps (ui_step f s u)

-- `runUI` up to `ShowAndRun`; the first argument is whether the toolkit calls the callback of
-- `SetChecked`.
unfoldable pub start_ui : Bool → TimeFormat → Policy → Ui
unfolding open_window
start_ui calls_back f policy = record {
  window = open_window calls_back f policy (some (new_activity_log (pos activity_log_capacity)));
  ctx_done = false;
  ui_done = false;
  is_open = true;
  log_output = [];
  pending = [];
}

-- ===== src/Gui/Window.antt =====
-- client/gui.go: the state of the window behind its widgets, and their callbacks. The layout of the
-- widgets is not modelled. All of this runs on the one goroutine of the window.
pub mod Consistent
pub mod Rows
use claude_distant.Activity.{ActivityEvent, ActivityLog, append, events_of}
use claude_distant.Activity.Render.{TimeFormat, render, render_activity_line_full}
use claude_distant.Common.{
  Bool, List, Option, [], false, get_elem?, if◌then◌else◌, is_empty, none, not, some, true, ◌++◌,
  ◌∷◌,
}
use claude_distant.Common.Int.{negsuc, pos, ℤ}
use claude_distant.FileTransfer.{code_text}
use claude_distant.Gui.{LogPanel, append_log_event, empty_panel, rebuild_log_lines, set_filter}
use claude_distant.Gui.Connection.{status_disconnected}
use claude_distant.Policy.{Policy, PolicyController, policy_auto, policy_confirm, policy_deny, set}
use claude_distant.Session.Code.{format_session_code}
use claude_distant.Text.{Text, codes}

-- The fields of `guiState`, with what its widgets show.
pub record Window : Type 0 where
  pub policy : PolicyController
  pub activity_log : Option ActivityLog
  pub code_text : Text
  pub raw_code : Text
  pub status_label : Text
  pub identity_label : Text
  pub warning_hidden : Bool
  pub panel : LogPanel
  pub full_screen : Bool
  pub window_full_screen : Bool
  pub expand_text : Text
  pub clipboard : Option Text
  pub detail : Option Text

-- `cfg.policy == PolicyAuto`
abbrev pub is_auto : Policy → Bool
is_auto policy_auto = true
is_auto policy_confirm = false
is_auto policy_deny = false

-- The callback of the switch "Mode automatique".
unfoldable pub set_auto : Bool → Window → Window
unfolding set
set_auto true w = record w { policy = set policy_auto w.policy; warning_hidden = false }
set_auto false w = record w { policy = set policy_confirm w.policy; warning_hidden = true }

-- `autoCheck.SetChecked(initialAuto)`, by whether the toolkit calls the callback for it.
unfoldable pub seed_auto : Bool → Bool → Window → Window
unfolding set_auto
seed_auto true checked w = set_auto checked w
seed_auto false checked w = w

-- `newGUIState`; the widgets are not made yet.
unfoldable pub new_gui_state : PolicyController → Option ActivityLog → Window
new_gui_state policy l = record {
  policy = policy;
  activity_log = l;
  code_text = [];
  raw_code = [];
  status_label = [];
  identity_label = [];
  warning_hidden = false;
  panel = empty_panel;
  full_screen = false;
  window_full_screen = false;
  expand_text = [];
  clipboard = none;
  detail = none;
}

abbrev pub no_code : Text
no_code = codes "--- --- ---"

abbrev pub expand_label : Bool → Text
expand_label true = codes "Réduire"
expand_label false = codes "Agrandir"

-- The part of `build` that sets what the widgets show.
unfoldable pub build_widgets : Bool → Window → Window
build_widgets initial_auto w = record w {
  code_text = no_code;
  status_label = status_disconnected;
  identity_label = codes "—";
  warning_hidden = not initial_auto;
  expand_text = codes "Agrandir";
}

-- The part of `build` that fills the panel with what the journal holds.
unfoldable pub build_log : TimeFormat → Window → Window
build_log f w = record w {
  panel =
      rebuild_log_lines f
        (record w.panel { log_events = w.panel.log_events ++ events_of w.activity_log });
}

-- `build`; the first argument is whether the toolkit calls the callback of `SetChecked`.
unfoldable pub build : Bool → TimeFormat → Bool → Window → Window
unfolding build_widgets seed_auto build_log
build calls_back f initial_auto w =
    build_log f (seed_auto calls_back initial_auto (build_widgets initial_auto w))

-- The window that `runUI` makes for a policy.
unfoldable pub open_window : Bool → TimeFormat → Policy → Option ActivityLog → Window
unfolding build new_gui_state
open_window calls_back f policy l =
    build calls_back f (is_auto policy) (new_gui_state (record { p = policy }) l)

-- The callback of "Copier" beside the code.
unfoldable pub copy_code : Window → Window
copy_code w = if is_empty w.raw_code then w else record w { clipboard = some w.raw_code }

-- The callback of "Agrandir".
unfoldable pub toggle_full_screen : Window → Window
toggle_full_screen w =
    let b = not w.full_screen in
    record w { full_screen = b; window_full_screen = b; expand_text = expand_label b }

-- `setStatus`
unfoldable pub set_status_label : Text → Window → Window
set_status_label status w = record w { status_label = status }

-- `setIdentity`
unfoldable pub set_identity_label : Text → Text → Window → Window
set_identity_label hostname os_name w = record w {
  identity_label = hostname ++ (codes " (" ++ (os_name ++ codes ")"));
}

-- `setSessionCode`
unfoldable pub show_session_code : Text → Window → Window
show_session_code session_code w = record w {
  raw_code = session_code;
  code_text = format_session_code session_code;
}

-- The line that `showLogEntry` shows, for an event that is there.
unfoldable pub open_detail : TimeFormat → Option ActivityEvent → Window → Window
open_detail f none w = w
open_detail f (some e) w = record w { detail = some (render_activity_line_full f e) }

-- `showLogEntry`
unfoldable pub show_log_entry : TimeFormat → ℤ → Window → Window
unfolding open_detail
show_log_entry f (negsuc n) w = w
show_log_entry f (pos n) w = open_detail f (get_elem? w.panel.log_shown n) w

-- The buttons of that dialog: "Copier" and "Fermer".
unfoldable pub copy_detail : Window → Window
copy_detail w = record w { clipboard = elim w.detail [ none ↦ w.clipboard | some l ↦ some l ] }

unfoldable pub close_detail : Window → Window
close_detail w = record w { detail = none }

-- What the file dialog of `saveLog` gives: an error, a cancel, or a writer, whose write may fail; and
-- what comes of it: the bytes that went to the writer, and the error that is shown.
pub data SaveChoice : Type 0 where
  dialog_failed : Text → SaveChoice
  cancelled_save : SaveChoice
  chose_file : Option Text → SaveChoice

pub record Saved : Type 0 where
  pub written : Option Text
  pub shown_error : Option Text
  pub closed : Bool

-- `saveLog`
unfoldable pub save_log : TimeFormat → SaveChoice → Window → Saved
save_log f (dialog_failed err) w = record { written = none; shown_error = some err; closed = false }
save_log f cancelled_save w = record { written = none; shown_error = none; closed = false }
save_log f (chose_file write_error) w = record {
  written = some (render f w.activity_log);
  shown_error = write_error;
  closed = true;
}

-- What happens to the window. An event reaches the journal when it is emitted, and the panel when the
-- goroutine of the window takes its turn.
pub data WindowStep : Type 0 where
  copied_code toggled_full_screen copied_detail closed_detail : WindowStep
  ticked_auto ticked_commands_only : Bool → WindowStep
  got_status : Text → WindowStep
  got_identity : Text → Text → WindowStep
  got_session_code : Text → WindowStep
  tapped_row : ℤ → WindowStep
  journal_grew panel_got : ActivityEvent → WindowStep

unfoldable pub window_step : TimeFormat → WindowStep → Window → Window
window_step f copied_code w = copy_code w
window_step f toggled_full_screen w = toggle_full_screen w
window_step f copied_detail w = copy_detail w
window_step f closed_detail w = close_detail w
window_step f (ticked_auto checked) w = set_auto checked w
window_step f (ticked_commands_only checked) w = record w { panel = set_filter f checked w.panel }
window_step f (got_status status) w = set_status_label status w
window_step f (got_identity hostname os_name) w = set_identity_label hostname os_name w
window_step f (got_session_code session_code) w = show_session_code session_code w
window_step f (tapped_row id) w = show_log_entry f id w
window_step f (journal_grew e) w = record w { activity_log = (append w.activity_log e).0 }
window_step f (panel_got e) w = record w { panel = append_log_event f e w.panel }

unfoldable pub window_run : TimeFormat → List WindowStep → Window → Window
window_run f [] w = w
window_run f (s ∷ steps) w = window_run f steps (window_step f s w)

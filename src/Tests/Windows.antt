-- ===== src/Tests/Windows.antt =====
-- Runs of the window, and of `main`.
use mathlib.Core.List.{Perm}
use claude_distant.Activity.{
  ActivityEvent, ActivityLog, activity_command, append, events_of, new_activity_log,
}
use claude_distant.Activity.History.{take_last}
use claude_distant.Activity.Render.{TimeFormat, render_activity_line}
use claude_distant.Common.{
  List, Option, [], false, get_elem?, inr, length, map, none, refl, some, true, ◌++◌, ◌∷◌, ◌≡◌,
}
use claude_distant.Common.Int.{is_positive, negsuc, pos}
use claude_distant.Gui.{activity_log_capacity, append_log_event, shown_of}
use claude_distant.Gui.Connection.{journaled, set_session_code, set_status, status_connecting}
use claude_distant.Gui.Run.{
  UiStep, by_background, by_executor, by_loop, by_widget, closer_woke, handed_over, loop_returned,
  signalled, start_ui, ui_run,
}
use claude_distant.Gui.Run.Delivered.{appended_in, reaching_in}
use claude_distant.Gui.Run.Journal.{ui_run_delivers, ui_run_shows_journal}
use claude_distant.Gui.Run.Operator.{Agree, operator_steps, ui_run_operator_decides}
use claude_distant.Gui.Window.{
  WindowStep, got_session_code, journal_grew, open_window, panel_got, set_status_label,
  show_log_entry, show_session_code, tapped_row, ticked_auto, ticked_commands_only,
  toggled_full_screen, window_run, window_step,
}
use claude_distant.Gui.Window.Consistent.{IsConsistent, window_run-IsConsistent}
use claude_distant.Gui.Window.Rows.{Opens, show_log_entry-Opens}
use claude_distant.Policy.{get, parse_policy, policy_auto, policy_confirm, policy_deny}
use claude_distant.Session.Config.{Flags, parse_config_with_defaults, remove_on_exit_enabled}
use claude_distant.Session.Reconnect.{context_cancelled}
use claude_distant.Shutdown.{panicked, removed_tree, returned_canceled}
use claude_distant.Startup.{MainOs, banner, made_dir, main, printed, set_mode, shut_down}
use claude_distant.Startup.Residue.{IsResidueFree, main-IsResidueFree}
use claude_distant.Text.{codes, equal, to_lower, trim_space}

abbrev stamps : TimeFormat
stamps = record { rfc3339 = λ t. codes "2026-01-01T00:00:00Z"; clock = λ t. codes "00:00:00" }

abbrev got : ActivityEvent
got = record { time = 0; kind = activity_command; detail = codes "run_shell: ls" }

abbrev clicks : List WindowStep
clicks =
    journal_grew got
    ∷ panel_got got
    ∷ ticked_auto true
    ∷ got_session_code (codes "784123678")
    ∷ ticked_commands_only true
    ∷ toggled_full_screen
    ∷ tapped_row (pos 0)
    ∷ []

abbrev journal : Option ActivityLog
journal = some (new_activity_log (pos activity_log_capacity))

window_run-IsConsistent_example :
    IsConsistent stamps (window_run stamps clicks (open_window true stamps policy_deny journal))
window_run-IsConsistent_example = window_run-IsConsistent true stamps policy_deny journal clicks

show_log_entry-Opens_example :
    let w = window_run stamps clicks (open_window false stamps policy_auto journal) in
    Opens stamps 0 w (get_elem? w.panel.log_lines 0) × (show_log_entry stamps (negsuc 0) w ≡ w)
show_log_entry-Opens_example = show_log_entry-Opens false stamps policy_auto journal clicks 0

abbrev built_flags : Flags
built_flags = record {
  url = [];
  token = [];
  policy = [];
  insecure = false;
  remove_on_exit = false;
  ephemeral_code = false;
}

abbrev host : MainOs
host = record {
  goos = codes "linux";
  goarch = codes "amd64";
  build = record { url = codes "wss://r"; token = codes "t"; identity_secret = [] };
  parse_flags = λ args. inr built_flags;
  getenv = λ name. [];
  mkdir_temp = inr (codes "/tmp/claude-distant-1");
  bytes_of = λ t. t;
  remove_os = record {
    goos = codes "linux";
    executable = inr (codes "/opt/client");
    resolved_link = λ p. none;
    temp_path = λ name. name;
    pid = 42;
    remove_all_error = λ d. none;
    remove_error = none;
    write_error = none;
    start_error = none;
  };
}

main-IsResidueFree_example : IsResidueFree (main host [] (panicked (codes "boom")))
main-IsResidueFree_example = main-IsResidueFree host [] (panicked (codes "boom")) (refl, refl)

warned_and_cleaned :
    (main host [] returned_canceled).0
    ≡ made_dir (codes "/tmp/claude-distant-1")
      ∷ set_mode (codes "/tmp/claude-distant-1") 448
      ∷ (banner (codes "linux") (codes "amd64") policy_auto
          ++ shut_down (removed_tree (codes "/tmp/claude-distant-1") none)
            ∷ printed (codes "Arrêt propre du client.")
            ∷ [])
unfolding main parse_config_with_defaults trim_space parse_policy equal to_lower
    remove_on_exit_enabled
warned_and_cleaned = refl

-- The operator switches the automatic mode on while a session starts, and a signal ends it all.
abbrev busy : List UiStep
busy =
    by_background (by_loop 1 (set_status status_connecting))
    ∷ by_widget (ticked_auto true)
    ∷ by_background (by_loop 2 (set_session_code (codes "784123678")))
    ∷ by_background (by_loop 2 (journaled (codes "connecté, code de session 784123678")))
    ∷ by_background (by_executor got)
    ∷ handed_over 0
    ∷ signalled
    ∷ loop_returned context_cancelled
    ∷ handed_over 0
    ∷ closer_woke
    ∷ by_widget (ticked_auto false)
    ∷ []

ui_run_operator_decides_example :
    Agree
      (ui_run stamps busy (start_ui true stamps policy_confirm))
      (ui_run stamps (operator_steps busy) (start_ui true stamps policy_confirm))
ui_run_operator_decides_example = ui_run_operator_decides true stamps policy_confirm busy

ui_run_shows_journal_example :
    let w = (ui_run stamps busy (start_ui true stamps policy_confirm)).window in
    (w.panel.log_events ≡ events_of w.activity_log)
    × (w.panel.log_lines
        ≡ map
            (render_activity_line stamps)
            (shown_of w.panel.commands_only (events_of w.activity_log)))
unfolding ui_run start_ui
ui_run_shows_journal_example = ui_run_shows_journal true stamps policy_confirm busy refl refl refl

busy_end :
    let u = ui_run stamps busy (start_ui true stamps policy_confirm) in
    (get u.window.policy ≡ policy_auto)
    × (u.is_open ≡ false)
    × (length (events_of u.window.activity_log) ≡ 2)
unfolding ui_run start_ui get events_of window_run window_step show_session_code append
    set_status_label new_activity_log is_positive
busy_end = (refl, refl, refl)

-- Two commands whose events reach the panel in the other order.
abbrev then_got : ActivityEvent
then_got = record { time = 1; kind = activity_command; detail = codes "run_shell: pwd" }

abbrev crossed : List UiStep
crossed =
    by_background (by_executor got)
    ∷ by_background (by_executor then_got)
    ∷ handed_over 1
    ∷ handed_over 0
    ∷ []

crossed_end :
    let w = (ui_run stamps crossed (start_ui true stamps policy_auto)).window in
    (w.panel.log_events ≡ then_got ∷ got ∷ []) × (events_of w.activity_log ≡ got ∷ then_got ∷ [])
unfolding ui_run start_ui events_of window_run window_step append new_activity_log is_positive
    append_log_event
crossed_end = (refl, refl)

ui_run_delivers_example :
    let u = ui_run stamps crossed (start_ui true stamps policy_auto) in
    let reached = reaching_in [] crossed in
    (events_of u.window.activity_log ≡ take_last activity_log_capacity (appended_in crossed))
    × (u.window.panel.log_events ≡ take_last activity_log_capacity reached)
    × Perm (appended_in crossed) (reached ++ u.pending)
    × (u.window.panel.log_lines
        ≡ map
            (render_activity_line stamps)
            (shown_of u.window.panel.commands_only (take_last activity_log_capacity reached)))
unfolding start_ui
ui_run_delivers_example = ui_run_delivers true stamps policy_auto crossed refl

-- ===== src/Gui.antt =====
-- client/gui.go: the log panel of the window, and the answer of its confirmation dialog. Widgets are
-- not modelled. All of this runs on the one goroutine of the window, so that each callback is a step.
pub mod Mirror
pub mod Dialog
pub mod Connection
pub mod SameLoops
pub mod Window
pub mod Run
use claude_distant.Activity.{ActivityEvent, ActivityKind, activity_command}
use claude_distant.Activity.Render.{TimeFormat, render_activity_line}
use claude_distant.Common.{
  Bool, List, [], drop, false, if◌then◌else◌, length, ltb, map, not, true, ℕ, ◌++◌, ◌-◌, ◌||◌, ◌∷◌,
}
use claude_distant.Text.{Text}

-- `activityLogCapacity`
abbrev pub activity_log_capacity : ℕ
activity_log_capacity = 5000

-- The fields of `guiState` that the panel has.
pub record LogPanel : Type 0 where
  pub log_events : List ActivityEvent
  pub log_shown : List ActivityEvent
  pub log_lines : List Text
  pub commands_only : Bool

abbrev pub is_command : ActivityKind → Bool
is_command activity_command = true
is_command _ = false

-- `showsEvent`, by the filter.
unfoldable pub shows_event : Bool → ActivityEvent → Bool
shows_event commands_only e = not commands_only || is_command e.kind

-- The loop of `rebuildLogLines`: the events that the filter shows.
unfoldable pub shown_of : Bool → List ActivityEvent → List ActivityEvent
unfolding shows_event
shown_of commands_only [] = []
shown_of commands_only (e ∷ es) =
    if shows_event commands_only e then e ∷ shown_of commands_only es else shown_of commands_only es

-- `rebuildLogLines`
unfoldable pub rebuild_log_lines : TimeFormat → LogPanel → LogPanel
unfolding shown_of
rebuild_log_lines f p =
    let shown = shown_of p.commands_only p.log_events in
    record p { log_shown = shown; log_lines = map (render_activity_line f) shown }

-- The end of `appendLogEvent`, by whether the filter shows the event.
unfoldable pub add_line : Bool → TimeFormat → ActivityEvent → LogPanel → LogPanel
add_line true f e p = record p {
  log_shown = p.log_shown ++ e ∷ [];
  log_lines = p.log_lines ++ render_activity_line f e ∷ [];
}
add_line false f e p = p

-- `appendLogEvent`, by whether the capacity is passed.
unfoldable pub append_by : Bool → TimeFormat → ℕ → ActivityEvent → LogPanel → LogPanel
unfolding rebuild_log_lines add_line
append_by true f capacity e p =
    let events = p.log_events ++ e ∷ [] in
    rebuild_log_lines f (record p { log_events = drop (length events - capacity) events })
append_by false f capacity e p =
    add_line (shows_event p.commands_only e) f e (record p { log_events = p.log_events ++ e ∷ [] })

unfoldable pub append_within : TimeFormat → ℕ → ActivityEvent → LogPanel → LogPanel
unfolding append_by
append_within f capacity e p =
    append_by (ltb capacity (length (p.log_events ++ e ∷ []))) f capacity e p

-- `appendLogEvent`
unfoldable pub append_log_event : TimeFormat → ActivityEvent → LogPanel → LogPanel
unfolding append_within
append_log_event f = append_within f activity_log_capacity

-- The callback of the checkbox "commandes du harnais uniquement".
unfoldable pub set_filter : TimeFormat → Bool → LogPanel → LogPanel
unfolding rebuild_log_lines
set_filter f checked p = rebuild_log_lines f (record p { commands_only = checked })

abbrev pub empty_panel : LogPanel
empty_panel = record { log_events = []; log_shown = []; log_lines = []; commands_only = false }

-- What happens to the panel.
pub data PanelStep : Type 0 where
  got_event : ActivityEvent → PanelStep
  ticked : Bool → PanelStep

abbrev pub panel_step : TimeFormat → PanelStep → LogPanel → LogPanel
panel_step f (got_event e) p = append_log_event f e p
panel_step f (ticked b) p = set_filter f b p

unfoldable pub panel_run : TimeFormat → List PanelStep → LogPanel → LogPanel
panel_run f [] p = p
panel_run f (s ∷ steps) p = panel_run f steps (panel_step f s p)

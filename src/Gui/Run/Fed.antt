-- ===== src/Gui/Run/Fed.antt =====
-- The journal and the events of the panel of client/gui.go grow together.
use claude_distant.Activity.{ActivityEvent, ActivityLog, append, evict}
use claude_distant.Activity.History.{evict-eq-take_last, take_last, take_last_concat}
use claude_distant.Activity.Render.{TimeFormat}
use claude_distant.Common.{
  Bool, List, [], ap, append-nil, arith, false, length, ltb, refl, some, true, ℕ, ◌++◌, ◌-◌, ◌∙◌,
  ◌∷◌, ◌≡◌,
}
use claude_distant.Gui.{
  LogPanel, activity_log_capacity, add_line, append_by, append_log_event, append_within,
  rebuild_log_lines, shows_event,
}
use claude_distant.Gui.Connection.{GuiEffect, journaled}
use claude_distant.Gui.Run.{
  Background, background_steps, by_executor, by_loop, event_of, event_of_effect, loop_steps,
}
use claude_distant.Gui.Window.{
  Window, journal_grew, panel_got, set_identity_label, set_status_label, show_session_code,
  window_run, window_step,
}

-- The journal of the window is there and has the capacity of the panel; it holds the newest of the events
-- that it got, and the panel the newest of those that have reached it.
pub record IsFed (appended reached : List ActivityEvent) (w : Window) : Type 0 where
  pub log : ActivityLog
  pub kept_log : w.activity_log ≡ some log
  pub sized : log.capacity ≡ activity_log_capacity
  pub logged_newest : log.events ≡ take_last activity_log_capacity appended
  pub held : w.panel.log_events ≡ take_last activity_log_capacity reached

-- What leaves the journal and the events of the panel alone.
abbrev pub KeepsEvents : Window → Window → Type 0
KeepsEvents w w' = (w'.activity_log ≡ w.activity_log) × (w'.panel.log_events ≡ w.panel.log_events)

pub kept-IsFed :
    (appended reached : List ActivityEvent) (w w' : Window)
    → KeepsEvents w w'
    → IsFed appended reached w
    → IsFed appended reached w'
kept-IsFed appended reached w w' k h = record {
  log = h.log;
  kept_log = k.0 ∙ h.kept_log;
  sized = h.sized;
  logged_newest = h.logged_newest;
  held = k.1 ∙ h.held;
}

add_line-events :
    (shows : Bool) (f : TimeFormat) (e : ActivityEvent) (p : LogPanel)
    → (add_line shows f e p).log_events ≡ p.log_events
unfolding add_line
add_line-events true f e p = refl
add_line-events false f e p = refl

left_over : (capacity n : ℕ) (b : Bool) → ltb capacity n ≡ b → ltb 0 (n - capacity) ≡ b
left_over capacity n true h = ground arith
left_over capacity n false h = ground arith

append_by-events :
    (f : TimeFormat) (capacity : ℕ) (e : ActivityEvent) (p : LogPanel) (over : Bool)
    → ltb capacity (length (p.log_events ++ e ∷ [])) ≡ over
    → (append_by over f capacity e p).log_events ≡ evict capacity (p.log_events ++ e ∷ [])
unfolding append_by add_line rebuild_log_lines evict
append_by-events f capacity e p true o = rw (left_over capacity _ true o) refl
append_by-events f capacity e p false o = rw (left_over capacity _ false o) (
    add_line-events (shows_event p.commands_only e) f e
      (record p { log_events = p.log_events ++ e ∷ [] }))

append_log_event-events :
    (f : TimeFormat) (e : ActivityEvent) (p : LogPanel)
    → (append_log_event f e p).log_events ≡ evict activity_log_capacity (p.log_events ++ e ∷ [])
unfolding append_log_event append_within
append_log_event-events f e p = append_by-events f activity_log_capacity e p _ refl

-- The newest of a history and one more event.
evict_newest :
    (capacity : ℕ) (es history : List ActivityEvent) (e : ActivityEvent)
    → capacity ≡ activity_log_capacity
    → es ≡ take_last activity_log_capacity history
    → evict capacity (es ++ e ∷ []) ≡ take_last activity_log_capacity (history ++ e ∷ [])
evict_newest capacity es history e size h =
    ap (λ c. evict c (es ++ e ∷ [])) size
    ∙ evict-eq-take_last activity_log_capacity (es ++ e ∷ [])
    ∙ ap (λ (xs : List ActivityEvent). take_last activity_log_capacity (xs ++ e ∷ [])) h
    ∙ take_last_concat activity_log_capacity history e (omega arith)

journal_grew-IsFed :
    (f : TimeFormat) (e : ActivityEvent) (appended reached : List ActivityEvent) (w : Window)
    → IsFed appended reached w
    → IsFed (appended ++ e ∷ []) reached (window_step f (journal_grew e) w)
unfolding window_step append
journal_grew-IsFed f e appended reached w h = record {
  log = record h.log { events = evict h.log.capacity (h.log.events ++ e ∷ []) };
  kept_log = rw h.kept_log refl;
  sized = h.sized;
  logged_newest = evict_newest h.log.capacity h.log.events appended e h.sized h.logged_newest;
  held = h.held;
}

pub panel_got-IsFed :
    (f : TimeFormat) (e : ActivityEvent) (appended reached : List ActivityEvent) (w : Window)
    → IsFed appended reached w
    → IsFed appended (reached ++ e ∷ []) (window_step f (panel_got e) w)
unfolding window_step
panel_got-IsFed f e appended reached w h = record {
  log = h.log;
  kept_log = h.kept_log;
  sized = h.sized;
  logged_newest = h.logged_newest;
  held =
      append_log_event-events f e w.panel
      ∙ evict_newest activity_log_capacity w.panel.log_events reached e refl h.held;
}

unjournaled-IsFed :
    (appended reached : List ActivityEvent) (w w' : Window)
    → KeepsEvents w w'
    → IsFed appended reached w
    → IsFed (appended ++ []) reached w'
unjournaled-IsFed appended reached w w' k h = rw append-nil (kept-IsFed appended reached w w' k h)

loop_steps-IsFed :
    (f : TimeFormat) (now : ℕ) (x : GuiEffect) (appended reached : List ActivityEvent) (w : Window)
    → IsFed appended reached w
    → IsFed (appended ++ event_of_effect now x) reached (window_run f (loop_steps now x) w)
unfolding loop_steps window_run window_step set_identity_label show_session_code set_status_label
loop_steps-IsFed f now (journaled detail) appended reached w h =
    journal_grew-IsFed f _ appended reached w h
loop_steps-IsFed f now x appended reached w h =
    unjournaled-IsFed appended reached w _ (refl, refl) h

pub background_steps-IsFed :
    (f : TimeFormat) (b : Background) (appended reached : List ActivityEvent) (w : Window)
    → IsFed appended reached w
    → IsFed (appended ++ event_of b) reached (window_run f (background_steps b) w)
unfolding background_steps window_run
background_steps-IsFed f (by_loop now x) appended reached w h =
    loop_steps-IsFed f now x appended reached w h
background_steps-IsFed f (by_executor e) appended reached w h =
    journal_grew-IsFed f e appended reached w h

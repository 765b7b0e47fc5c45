-- ===== src/Gui/Mirror.antt =====
-- The log panel of client/gui.go shows what the journal holds.
use claude_distant.Activity.{ActivityEvent, append_all, events_of, new_activity_log}
use claude_distant.Activity.History.{append_all_newest, drop_zero, take_last, take_last_concat}
use claude_distant.Activity.Render.{TimeFormat, render_activity_line}
use claude_distant.Common.{
  Bool, List, [], ap, append-nil, append_assoc, arith, false, if◌then◌else◌, length, ltb, ltb→ge,
  map, refl, some, sym, true, ℕ, ◌++◌, ◌<◌, ◌∙◌, ◌∷◌, ◌≡◌, ◌≤◌,
}
use claude_distant.Common.Int.{pos}
use claude_distant.Gui.{
  LogPanel, PanelStep, activity_log_capacity, add_line, append_by, append_log_event, append_within,
  empty_panel, got_event, panel_run, rebuild_log_lines, set_filter, shown_of, shows_event, ticked,
}
use claude_distant.Text.{Text}

shown_of-append :
    (b : Bool) (xs ys : List ActivityEvent) → shown_of b (xs ++ ys) ≡ shown_of b xs ++ shown_of b ys
unfolding shown_of
shown_of-append b [] ys = refl
shown_of-append b (x ∷ xs) ys = ground (arith, shown_of-append b xs ys)

shown_one :
    (shows b : Bool) (e : ActivityEvent)
    → shows_event b e ≡ shows
    → shown_of b (e ∷ []) ≡ (if shows then e ∷ [] else [])
unfolding shown_of
shown_one shows b e s = rw s refl

pub shown_of-concat :
    (shows b : Bool) (es : List ActivityEvent) (e : ActivityEvent)
    → shows_event b e ≡ shows
    → shown_of b (es ++ e ∷ []) ≡ (if shows then shown_of b es ++ e ∷ [] else shown_of b es)
shown_of-concat true b es e s =
    shown_of-append b es (e ∷ []) ∙ ap (◌++◌ (shown_of b es)) (shown_one true b e s)
shown_of-concat false b es e s =
    shown_of-append b es (e ∷ [])
    ∙ ap (◌++◌ (shown_of b es)) (shown_one false b e s)
    ∙ append-nil (shown_of b es)

pub map-append {ℓ κ} :
    {A : Type ℓ} {B : Type κ} (g : A → B) (xs ys : List A) → map g (xs ++ ys) ≡ map g xs ++ map g ys
map-append g [] ys = refl
map-append g (x ∷ xs) ys = ap (◌∷◌ (g x)) (map-append g xs ys)

-- The panel mirrors a history: it holds the newest events of it, shows those that the filter lets
-- through, and has one line for each of them.
pub record IsMirror (f : TimeFormat) (capacity : ℕ) (history : List ActivityEvent) (p : LogPanel)
    : Type 0 where
  pub newest : p.log_events ≡ take_last capacity history
  pub filtered : p.log_shown ≡ shown_of p.commands_only p.log_events
  pub rendered : p.log_lines ≡ map (render_activity_line f) p.log_shown

module _ (f : TimeFormat) (capacity : ℕ) (room : 0 < capacity) where
  rebuild-IsMirror :
      (history : List ActivityEvent) (p : LogPanel)
      → p.log_events ≡ take_last capacity history
      → IsMirror f capacity history (rebuild_log_lines f p)
  unfolding rebuild_log_lines
  rebuild-IsMirror history p h = record { newest = h; filtered = refl; rendered = refl }

  newest_after :
      (history : List ActivityEvent) (p : LogPanel) (e : ActivityEvent)
      → p.log_events ≡ take_last capacity history
      → take_last capacity (p.log_events ++ e ∷ []) ≡ take_last capacity (history ++ e ∷ [])
  newest_after history p e h =
      ap (λ (es : List ActivityEvent). take_last capacity (es ++ e ∷ [])) h
      ∙ take_last_concat capacity history e room

  add_line-IsMirror :
      (shows : Bool) (history : List ActivityEvent) (e : ActivityEvent) (p : LogPanel)
      → shows_event p.commands_only e ≡ shows
      → IsMirror f capacity history p
      → length (p.log_events ++ e ∷ []) ≤ capacity
      → IsMirror f capacity
          (history ++ e ∷ [])
          (add_line shows f e (record p { log_events = p.log_events ++ e ∷ [] }))
  unfolding add_line
  add_line-IsMirror true history e p s m fits = record {
    newest =
        sym (drop_zero (p.log_events ++ e ∷ []) _ (omega arith))
        ∙ newest_after history p e m.newest;
    filtered =
        ap (λ (es : List ActivityEvent). es ++ e ∷ []) m.filtered
        ∙ sym (shown_of-concat true p.commands_only p.log_events e s);
    rendered =
        ap (λ (ls : List Text). ls ++ render_activity_line f e ∷ []) m.rendered
        ∙ sym (map-append (render_activity_line f) p.log_shown (e ∷ []));
  }
  add_line-IsMirror false history e p s m fits = record {
    newest =
        sym (drop_zero (p.log_events ++ e ∷ []) _ (omega arith))
        ∙ newest_after history p e m.newest;
    filtered = m.filtered ∙ sym (shown_of-concat false p.commands_only p.log_events e s);
    rendered = m.rendered;
  }

  append_by-IsMirror :
      (over : Bool) (history : List ActivityEvent) (e : ActivityEvent) (p : LogPanel)
      → ltb capacity (length (p.log_events ++ e ∷ [])) ≡ over
      → IsMirror f capacity history p
      → IsMirror f capacity (history ++ e ∷ []) (append_by over f capacity e p)
  unfolding append_by
  append_by-IsMirror true history e p o m =
      rebuild-IsMirror (history ++ e ∷ [])
        (record p { log_events = take_last capacity (p.log_events ++ e ∷ []) })
        (newest_after history p e m.newest)
  append_by-IsMirror false history e p o m =
      add_line-IsMirror (shows_event p.commands_only e) history e p refl m (ltb→ge _ _ o)

-- The events among the steps.
abbrev pub events_in : List PanelStep → List ActivityEvent
events_in [] = []
events_in (got_event e ∷ steps) = e ∷ events_in steps
events_in (ticked b ∷ steps) = events_in steps

abbrev Mirrors : TimeFormat → List ActivityEvent → LogPanel → Type 0
Mirrors f = IsMirror f activity_log_capacity

panel_run_from :
    (f : TimeFormat) (history : List ActivityEvent) (steps : List PanelStep) (p : LogPanel)
    → Mirrors f history p
    → Mirrors f (history ++ events_in steps) (panel_run f steps p)
unfolding panel_run append_log_event append_within set_filter
panel_run_from f history [] p m = rw append-nil m
panel_run_from f history (got_event e ∷ steps) p m =
    rw (← append_assoc history (e ∷ []) (events_in steps)) (
      panel_run_from f (history ++ e ∷ []) steps _
        (append_by-IsMirror f activity_log_capacity (omega arith) _ history e p refl m))
panel_run_from f history (ticked b ∷ steps) p m = panel_run_from f history steps _ (
    rebuild-IsMirror f activity_log_capacity (omega arith) history (record p { commands_only = b })
      m.newest)

-- Whatever arrives and however the filter is ticked in between, the panel holds the same events as a
-- journal of its capacity that got them, which are the newest 5000; it shows exactly those of them
-- that the filter lets through, in order, and its lines are theirs.
panel_run-IsMirror :
    (f : TimeFormat) (steps : List PanelStep)
    → IsMirror f activity_log_capacity (events_in steps) (panel_run f steps empty_panel)
      × ((panel_run f steps empty_panel).log_events
          ≡ events_of
              (append_all
                (some (new_activity_log (pos activity_log_capacity)))
                (events_in steps)).0)
unfolding shown_of
panel_run-IsMirror f steps =
    let start : Mirrors f [] empty_panel = record {
      newest = refl;
      filtered = refl;
      rendered = refl;
    } in
    let m = panel_run_from f [] steps empty_panel start in
    (m, m.newest ∙ sym (append_all_newest (pos activity_log_capacity) (events_in steps)))

-- ===== src/Gui/Run/Settled.antt =====
-- What each step of `runUI` of client/gui.go keeps of the journal and the log panel.
use claude_distant.Activity.{ActivityEvent}
use claude_distant.Activity.Render.{TimeFormat}
use claude_distant.Common.{
  Bool, List, Option, [], and-eq-true, ap, append-nil, append_assoc, drop_at, false, get_elem?,
  if◌then◌else◌, maybe_list, none, refl, some, subst, sym, true, ℕ, ◌++◌, ◌∙◌, ◌∷◌, ◌≡◌,
}
use claude_distant.Gui.Run.{
  Ui, UiStep, background_steps, by_background, by_widget, close_window, closer_woke, event_of,
  hand_event, handed_over, loop_returned, operator_closed, signalled, touch, ui_run, ui_step,
  wake_closer,
}
use claude_distant.Gui.Run.Callbacks.{are_callbacks, is_callback, window_step-KeepsEvents}
use claude_distant.Gui.Run.Delivered.{appended_in, drop_at-none, pending_behind, reaching_in}
use claude_distant.Gui.Run.Fed.{IsFed, background_steps-IsFed, kept-IsFed, panel_got-IsFed}
use claude_distant.Gui.Window.{WindowStep, panel_got, window_step}
use claude_distant.Gui.Window.Consistent.{
  IsConsistent, window_run_from-IsConsistent, window_step-IsConsistent,
}

-- The window is fed, and shows what it should, and these events are pending.
abbrev pub IsSettled : TimeFormat → (appended reached pending : List ActivityEvent) → Ui → Type 0
IsSettled f appended reached pending u =
    IsFed appended reached u.window × IsConsistent f u.window × (u.pending ≡ pending)

module _ (f : TimeFormat) (appended reached pending : List ActivityEvent) where
  either-IsSettled :
      (b : Bool) (u v : Ui)
      → IsSettled f appended reached pending u
      → IsSettled f appended reached pending v
      → IsSettled f appended reached pending (if b then u else v)
  either-IsSettled true u v h k = h
  either-IsSettled false u v h k = k

  touch-IsSettled :
      (s : WindowStep) (u : Ui)
      → is_callback s ≡ true
      → IsSettled f appended reached pending u
      → IsSettled f appended reached pending (touch f s u)
  unfolding touch
  touch-IsSettled s u c h =
      either-IsSettled u.is_open (record u { window = window_step f s u.window }) u
        (
          kept-IsFed appended reached u.window _ (window_step-KeepsEvents f s u.window c) h.0,
          window_step-IsConsistent f s u.window h.1,
          h.2,
        )
        h

  close_window-IsSettled :
      (u : Ui)
      → IsSettled f appended reached pending u
      → IsSettled f appended reached pending (close_window u)
  unfolding close_window
  close_window-IsSettled u h =
      either-IsSettled u.is_open (record u { is_open = false; ui_done = true }) u h h

  wake_closer-IsSettled :
      (u : Ui)
      → IsSettled f appended reached pending u
      → IsSettled f appended reached pending (wake_closer u)
  unfolding wake_closer
  wake_closer-IsSettled u h =
      either-IsSettled u.ctx_done (close_window u) u (close_window-IsSettled u h) h

  hand_event-IsSettled :
      (i : ℕ) (u : Ui) (o : Option ActivityEvent)
      → get_elem? pending i ≡ o
      → IsSettled f appended reached pending u
      → IsSettled f appended (reached ++ maybe_list o) (drop_at i pending) (hand_event f i o u)
  unfolding hand_event
  hand_event-IsSettled i u none e h = (rw append-nil h.0, h.1, h.2 ∙ sym (drop_at-none pending i e))
  hand_event-IsSettled i u (some x) e h = (
    panel_got-IsFed f x appended reached u.window h.0,
    window_step-IsConsistent f (panel_got x) u.window h.1,
    ap (drop_at i) h.2,
  )

  handed_over-IsSettled :
      (i : ℕ) (u : Ui)
      → IsSettled f appended reached pending u
      → IsSettled f appended
          (reached ++ maybe_list (get_elem? pending i))
          (drop_at i pending)
          (ui_step f (handed_over i) u)
  unfolding ui_step
  handed_over-IsSettled i u h =
      subst
        (λ o.
          IsSettled f appended (reached ++ maybe_list (get_elem? pending i)) (drop_at i pending)
            (hand_event f i o u))
        (ap (λ (xs : List ActivityEvent). get_elem? xs i) (sym h.2))
        (hand_event-IsSettled i u (get_elem? pending i) refl h)

pub ui_run-IsSettled :
    (f : TimeFormat) (steps : List UiStep) (appended reached pending : List ActivityEvent) (u : Ui)
    → are_callbacks steps ≡ true
    → IsSettled f appended reached pending u
    → IsSettled f
        (appended ++ appended_in steps)
        (reached ++ reaching_in pending steps)
        (pending_behind pending steps)
        (ui_run f steps u)
unfolding ui_run ui_step
ui_run-IsSettled f [] appended reached pending u c h = rw (append-nil, append-nil) h
ui_run-IsSettled f (by_widget s ∷ steps) appended reached pending u c h =
    let (c0, more) = and-eq-true (is_callback s) (are_callbacks steps) c in
    ui_run-IsSettled f steps appended reached pending (touch f s u) more
      (touch-IsSettled f appended reached pending s u c0 h)
ui_run-IsSettled f (by_background b ∷ steps) appended reached pending u c h =
    rw (sym (append_assoc appended (event_of b) (appended_in steps))) (
      ui_run-IsSettled f steps (appended ++ event_of b) reached (pending ++ event_of b)
        (ui_step f (by_background b) u) c
        (
          background_steps-IsFed f b appended reached u.window h.0,
          window_run_from-IsConsistent f (background_steps b) u.window h.1,
          ap (λ (xs : List ActivityEvent). xs ++ event_of b) h.2,
        ))
ui_run-IsSettled f (signalled ∷ steps) appended reached pending u c h =
    ui_run-IsSettled f steps appended reached pending (ui_step f signalled u) c h
ui_run-IsSettled f (closer_woke ∷ steps) appended reached pending u c h =
    ui_run-IsSettled f steps appended reached pending (wake_closer u) c
      (wake_closer-IsSettled f appended reached pending u h)
ui_run-IsSettled f (operator_closed ∷ steps) appended reached pending u c h =
    ui_run-IsSettled f steps appended reached pending (close_window u) c
      (close_window-IsSettled f appended reached pending u h)
ui_run-IsSettled f (loop_returned stop ∷ steps) appended reached pending u c h =
    ui_run-IsSettled f steps appended reached pending (ui_step f (loop_returned stop) u) c h
ui_run-IsSettled f (handed_over i ∷ steps) appended reached pending u c h =
    let taken = maybe_list (get_elem? pending i) in
    rw (sym (append_assoc reached taken (reaching_in (drop_at i pending) steps))) (
      ui_run-IsSettled f steps appended (reached ++ taken) (drop_at i pending)
        (ui_step f (handed_over i) u) c (handed_over-IsSettled f appended reached pending i u h))

-- ===== src/Gui/Window/Rows.antt =====
-- A tap on a row of the log panel of client/gui.go.
use claude_distant.Activity.{ActivityEvent, ActivityLog}
use claude_distant.Activity.Render.{TimeFormat, render_activity_line, render_activity_line_full}
use claude_distant.Common.{
  Bool, List, Option, [], ap, get_elem?, map, none, refl, some, subst, suc, sym, zero, ℕ, ◌∙◌, ◌∷◌,
  ◌≡◌,
}
use claude_distant.Common.Int.{negsuc, pos}
use claude_distant.Gui.Window.{
  Window, WindowStep, copy_detail, open_detail, open_window, show_log_entry, window_run,
}
use claude_distant.Gui.Window.Consistent.{IsAligned, window_run-IsConsistent}
use claude_distant.Policy.{Policy}
use claude_distant.Text.{Text}

get_elem?-map {ℓ κ} :
    {A : Type ℓ} {B : Type κ} (g : A → B) (xs : List A) (n : ℕ)
    → get_elem? (map g xs) n ≡ (elim (get_elem? xs n) [ none ↦ none | some a ↦ some (g a) ])
get_elem?-map g [] n = refl
get_elem?-map g (x ∷ xs) zero = refl
get_elem?-map g (x ∷ xs) (suc n) = get_elem?-map g xs n

-- What a tap on a row does, by the line that the row shows: where there is none it does nothing; else
-- it opens the full line of an event whose short line the row shows, and the copy button of the dialog
-- puts that full line on the clipboard.
abbrev pub Opens : TimeFormat → ℕ → Window → Option Text → Type 0
Opens f n w none = show_log_entry f (pos n) w ≡ w
Opens f n w (some l) =
    (e : ActivityEvent) × (get_elem? w.panel.log_shown n ≡ some e)
    × (l ≡ render_activity_line f e)
    × ((copy_detail (show_log_entry f (pos n) w)).clipboard ≡ some (render_activity_line_full f e))

open_detail-Opens :
    (f : TimeFormat) (n : ℕ) (w : Window) (o : Option ActivityEvent)
    → get_elem? w.panel.log_shown n ≡ o
    → Opens f n w (elim o [ none ↦ none | some e ↦ some (render_activity_line f e) ])
unfolding show_log_entry open_detail copy_detail
open_detail-Opens f n w none h = rw h
open_detail-Opens f n w (some e) h = (e, h, refl, rw h)

-- At any moment, whatever was filtered, evicted or logged before: a tap on a row opens and copies the
-- dated line of the very event that the row shows, and a tap on a row that is no longer there, or on a
-- negative one, does nothing.
pub show_log_entry-Opens :
    (calls_back : Bool) (f : TimeFormat) (policy : Policy) (l : Option ActivityLog)
    (steps : List WindowStep) (n : ℕ)
    → let w = window_run f steps (open_window calls_back f policy l) in
      Opens f n w (get_elem? w.panel.log_lines n) × (show_log_entry f (negsuc n) w ≡ w)
unfolding show_log_entry
show_log_entry-Opens calls_back f policy l steps n =
    let w = window_run f steps (open_window calls_back f policy l) in
    let h : IsAligned f w.panel = (window_run-IsConsistent calls_back f policy l steps).panelled in
    let lines : get_elem? w.panel.log_lines n ≡ (elim (get_elem? w.panel.log_shown n) [
      | none ↦ none
      | some e ↦ some (render_activity_line f e)
    ]) =
      ap (λ (ls : List Text). get_elem? ls n) h.aligned
      ∙ get_elem?-map (render_activity_line f) w.panel.log_shown n in
    (subst (Opens f n w) (sym lines) (open_detail-Opens f n w _ refl), refl)

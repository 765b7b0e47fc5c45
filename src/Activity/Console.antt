-- ===== src/Activity/Console.antt =====
-- client/consolelog.go: the journal on the console.
use claude_distant.Activity.{ActivityEvent}
use claude_distant.Activity.Render.{
  OneLineDetails, OneLineStamps, TimeFormat, bracketed-OneLine, lines_from, lines_from-append,
  render_activity_line,
}
use claude_distant.Common.{
  Bool, List, [], ap, append_assoc, false, map, refl, true, ◌++◌, ◌∙◌, ◌∷◌, ◌≡◌,
}
use claude_distant.Text.{Text}

-- `ConsoleActivityLog.Append`, by whether there is a log with a writer: what it prints.
unfoldable pub console_append : Bool → TimeFormat → ActivityEvent → Text
console_append false f e = []
console_append true f e = render_activity_line f e ++ b'\n' ∷ []

-- What a row of events prints.
unfoldable pub console_text : TimeFormat → List ActivityEvent → Text
unfolding console_append
console_text f [] = []
console_text f (e ∷ es) = console_append true f e ++ console_text f es

-- The console shows one line for each event, in order, and it is the event's short form, if the details
-- and the time formats hold no line break.
pub lines_from-console_text :
    (f : TimeFormat) (es : List ActivityEvent)
    → OneLineStamps f
    → OneLineDetails es
    → lines_from [] (console_text f es) ≡ map (render_activity_line f) es
unfolding console_text render_activity_line
lines_from-console_text f [] hf h = unfold lines_from in refl
lines_from-console_text f (e ∷ es) hf h =
    ap (lines_from []) (append_assoc (render_activity_line f e) (b'\n' ∷ []) (console_text f es))
    ∙ lines_from-append [] (render_activity_line f e) (console_text f es)
        (bracketed-OneLine (f.clock e.time) e (hf e.time).1 h.0)
    ∙ ap (◌∷◌ (render_activity_line f e)) (lines_from-console_text f es hf h.1)

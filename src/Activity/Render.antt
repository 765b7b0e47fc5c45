-- ===== src/Activity/Render.antt =====
-- `Render`, and the two forms of a journal line. The time formats are the library's.
use claude_distant.Activity.{
  ActivityEvent, ActivityKind, ActivityLog, activity_approval, activity_command,
  activity_connection, activity_file_read, activity_file_write, activity_result, events_of,
  kind_name,
}
use claude_distant.Common.{
  All, All-append, List, Option, [], ap, append-nil, append_assoc, arith, if◌then◌else◌, length,
  map, refl, suc, sym, ℕ, ◌++◌, ◌+◌, ◌==◌, ◌∙◌, ◌∷◌, ◌≡◌, ◌≢◌,
}
use claude_distant.Text.{Text, codes}

-- `time.Format` with RFC 3339 and with "15:04:05".
pub record TimeFormat : Type 0 where
  pub rfc3339 : ℕ → Text
  pub clock : ℕ → Text

abbrev pub bracketed : Text → ActivityEvent → Text
bracketed stamp e = stamp ++ (codes " [" ++ (kind_name e.kind ++ (codes "] " ++ e.detail)))

-- `renderActivityLineFull`
unfoldable pub render_activity_line_full : TimeFormat → ActivityEvent → Text
unfolding kind_name
render_activity_line_full f e = bracketed (f.rfc3339 e.time) e

-- `renderActivityLine`
unfoldable pub render_activity_line : TimeFormat → ActivityEvent → Text
unfolding kind_name
render_activity_line f e = bracketed (f.clock e.time) e

unfoldable pub render_events : TimeFormat → List ActivityEvent → Text
unfolding render_activity_line_full
render_events f [] = []
render_events f (e ∷ es) = render_activity_line_full f e ++ (b'\n' ∷ render_events f es)

-- `Render`; the empty journal renders as the empty text.
unfoldable pub render : TimeFormat → Option ActivityLog → Text
unfolding render_events
render f l = render_events f (events_of l)

-- `strings.Split(s, "\n")` without the part behind the last line break.
unfoldable pub lines_from : Text → Text → List Text
lines_from line [] = []
lines_from line (c ∷ s) =
    let ended = lines_from [] s in
    let more = lines_from (line ++ c ∷ []) s in if c == b'\n' then line ∷ ended else more

abbrev pub OneLine : Text → Type 0
OneLine = All (λ c. c ≢ b'\n')

pub lines_from-append :
    (line s rest : Text)
    → OneLine s
    → lines_from line (s ++ (b'\n' ∷ rest)) ≡ (line ++ s) ∷ lines_from [] rest
unfolding lines_from
lines_from-append line [] rest h = ap (λ (x : Text). x ∷ lines_from [] rest) (sym (append-nil line))
lines_from-append line (c ∷ s) rest h =
    ground (arith, lines_from-append (line ++ c ∷ []) s rest h.1, append_assoc line (c ∷ []) s)

kind_name-OneLine : (k : ActivityKind) → OneLine (kind_name k)
unfolding kind_name
kind_name-OneLine activity_connection = omega arith
kind_name-OneLine activity_command = omega arith
kind_name-OneLine activity_file_read = omega arith
kind_name-OneLine activity_file_write = omega arith
kind_name-OneLine activity_approval = omega arith
kind_name-OneLine activity_result = omega arith

module _ (stamp : Text) (e : ActivityEvent) where
  pub bracketed-OneLine : OneLine stamp → OneLine e.detail → OneLine (bracketed stamp e)
  bracketed-OneLine hs hd =
      let tail : OneLine (codes "] " ++ e.detail) =
        All-append _ (codes "] ") e.detail (omega arith) hd in
      let named : OneLine (kind_name e.kind ++ (codes "] " ++ e.detail)) =
        All-append _ (kind_name e.kind) _ (kind_name-OneLine e.kind) tail in
      All-append _ stamp _ hs (All-append _ (codes " [") _ (omega arith) named)

-- The time formats print no line break.
abbrev pub OneLineStamps : TimeFormat → Type 0
OneLineStamps f = (t : ℕ) → OneLine (f.rfc3339 t) × OneLine (f.clock t)

abbrev pub OneLineDetails : List ActivityEvent → Type 0
OneLineDetails = All (λ (e : ActivityEvent). OneLine e.detail)

lines_from-render_events :
    (f : TimeFormat) (es : List ActivityEvent)
    → OneLineStamps f
    → OneLineDetails es
    → lines_from [] (render_events f es) ≡ map (render_activity_line_full f) es
unfolding render_events
lines_from-render_events f [] hf h = unfold lines_from in refl
lines_from-render_events f (e ∷ es) hf h =
    lines_from-append [] (render_activity_line_full f e) (render_events f es)
      (bracketed-OneLine (f.rfc3339 e.time) e (hf e.time).0 h.0)
    ∙ ap (◌∷◌ (render_activity_line_full f e)) (lines_from-render_events f es hf h.1)

-- The saved journal splits into exactly one line for each event, in order, and each line is the
-- event's full form, if the details and the time formats hold no line break.
lines_from-render :
    (f : TimeFormat) (l : Option ActivityLog)
    → OneLineStamps f
    → OneLineDetails (events_of l)
    → lines_from [] (render f l) ≡ map (render_activity_line_full f) (events_of l)
unfolding render
lines_from-render f l hf h = lines_from-render_events f (events_of l) hf h

-- The line breaks of a text, and of the details of events.
unfoldable pub breaks : Text → ℕ
breaks [] = 0
breaks (c ∷ s) = let n = breaks s in if c == b'\n' then suc n else n

unfoldable pub detail_breaks : List ActivityEvent → ℕ
detail_breaks [] = 0
detail_breaks (e ∷ es) = breaks e.detail + detail_breaks es

length-lines_from : (line s : Text) → length (lines_from line s) ≡ breaks s
unfolding lines_from breaks
length-lines_from line [] = refl
length-lines_from line (c ∷ s) =
    ground (arith, length-lines_from [] s, length-lines_from (line ++ c ∷ []) s)

breaks-append : (s t : Text) → breaks (s ++ t) ≡ breaks s + breaks t
unfolding breaks
breaks-append [] t = omega arith
breaks-append (c ∷ s) t = ground (arith, breaks-append s t)

breaks-OneLine : (s : Text) → OneLine s → breaks s ≡ 0
unfolding breaks
breaks-OneLine [] h = refl
breaks-OneLine (c ∷ s) h = let rest = breaks-OneLine s h.1 in let other = h.0 in ground arith

breaks-bracketed :
    (stamp : Text) (e : ActivityEvent)
    → OneLine stamp
    → breaks (bracketed stamp e) ≡ breaks e.detail
breaks-bracketed stamp e h =
    let kind = kind_name e.kind in
    let opened : breaks (codes " [") ≡ 0 = breaks-OneLine (codes " [") (omega arith) in
    let closed : breaks (codes "] ") ≡ 0 = breaks-OneLine (codes "] ") (omega arith) in
    let named : breaks kind ≡ 0 = breaks-OneLine kind (kind_name-OneLine e.kind) in
    omega (
      arith,
      breaks-append stamp (codes " [" ++ (kind ++ (codes "] " ++ e.detail))),
      breaks-append (codes " [") (kind ++ (codes "] " ++ e.detail)),
      breaks-append kind (codes "] " ++ e.detail),
      breaks-append (codes "] ") e.detail,
      breaks-OneLine stamp h,
      opened,
      closed,
      named,
    )

breaks-render_events :
    (f : TimeFormat) (es : List ActivityEvent)
    → OneLineStamps f
    → breaks (render_events f es) ≡ length es + detail_breaks es
unfolding render_events detail_breaks breaks
breaks-render_events f [] h = refl
breaks-render_events f (e ∷ es) h = omega (
  arith,
  breaks-append (render_activity_line_full f e) (b'\n' ∷ render_events f es),
  breaks-bracketed (f.rfc3339 e.time) e (h e.time).0,
  breaks-render_events f es h,
)

-- Where the time formats hold no line break, the saved journal has one line for each event, and one more
-- for each line break that stands in a detail, whatever the details are.
pub length-lines_from-render :
    (f : TimeFormat) (l : Option ActivityLog)
    → OneLineStamps f
    → length (lines_from [] (render f l)) ≡ length (events_of l) + detail_breaks (events_of l)
unfolding render
length-lines_from-render f l h =
    length-lines_from [] (render_events f (events_of l)) ∙ breaks-render_events f (events_of l) h

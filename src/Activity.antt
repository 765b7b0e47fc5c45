-- ===== src/Activity.antt =====
-- client/activitylog.go: the bounded activity journal. Its lock makes each method one step.
pub mod History
pub mod Render
pub mod Console
use claude_distant.Common.{
  List, Option, [], drop, if◌then◌else◌, length, ltb, none, some, ℕ, ◌++◌, ◌-◌, ◌∷◌,
}
use claude_distant.Common.Int.{is_positive, pos_part, ℤ}
use claude_distant.Text.{Text, codes}

-- `ActivityKind`
pub data ActivityKind : Type 0 where
  activity_connection activity_command activity_file_read : ActivityKind
  activity_file_write activity_approval activity_result : ActivityKind

unfoldable pub kind_name : ActivityKind → Text
kind_name activity_connection = codes "connection"
kind_name activity_command = codes "command"
kind_name activity_file_read = codes "file_read"
kind_name activity_file_write = codes "file_write"
kind_name activity_approval = codes "approval"
kind_name activity_result = codes "result"

-- `ActivityEvent`; a time is a number of seconds.
pub record ActivityEvent : Type 0 where
  pub time : ℕ
  pub kind : ActivityKind
  pub detail : Text

-- `ActivityLog`. A subscriber is a number; a call of it is a pair of it and the event.
pub record ActivityLog : Type 0 where
  pub events : List ActivityEvent
  pub capacity : ℕ
  pub subscribers : List ℕ

-- `NewActivityLog`
unfoldable pub new_activity_log : ℤ → ActivityLog
new_activity_log capacity = record {
  events = [];
  capacity = if is_positive capacity then pos_part capacity else 1;
  subscribers = [];
}

-- The eviction: what is over the capacity is cut off the front.
unfoldable pub evict : ℕ → List ActivityEvent → List ActivityEvent
evict capacity events =
    let over = length events - capacity in if ltb 0 over then drop over events else events

-- `notify`: the calls that it makes, in order.
unfoldable pub notify : List ℕ → ActivityEvent → List (ℕ × ActivityEvent)
notify [] e = []
notify (fn ∷ subs) e = (fn, e) ∷ notify subs e

-- `Append`; a nil log does nothing.
unfoldable pub append :
    Option ActivityLog → ActivityEvent → Option ActivityLog × List (ℕ × ActivityEvent)
unfolding evict
append none e = (none, [])
append (some l) e =
    (some (record l { events = evict l.capacity (l.events ++ e ∷ []) }), notify l.subscribers e)

-- `Events`: the slice is a copy, which a value is anyway.
unfoldable pub events_of : Option ActivityLog → List ActivityEvent
events_of none = []
events_of (some l) = l.events

-- `Subscribe`; a nil function is ignored.
unfoldable pub subscribe : Option ℕ → Option ActivityLog → Option ActivityLog
subscribe fn none = none
subscribe none (some l) = some l
subscribe (some fn) (some l) = some (record l { subscribers = l.subscribers ++ fn ∷ [] })

-- The journal after a row of `Append` calls, and the calls that it made.
unfoldable pub append_all :
    Option ActivityLog → List ActivityEvent → Option ActivityLog × List (ℕ × ActivityEvent)
append_all l [] = (l, [])
append_all l (e ∷ es) =
    let (l', calls) = append l e in let (l'', more) = append_all l' es in (l'', calls ++ more)

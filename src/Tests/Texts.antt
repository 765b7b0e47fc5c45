-- ===== src/Tests/Texts.antt =====
-- The pattern, shell, journal, encoding and log-line code on concrete inputs.
use mathlib.Core.List.{Memᴰ}
use claude_distant.Activity.{
  ActivityEvent, ActivityLog, activity_command, append_all, events_of, new_activity_log,
}
use claude_distant.Activity.History.{append_all_newest, take_last}
use claude_distant.Activity.Render.{
  TimeFormat, detail_breaks, length-lines_from-render, lines_from, render,
}
use claude_distant.Base64.{
  base64_decoded_len, decode_groups, decode_string, digit_of, encode, strip_breaks,
}
use claude_distant.Base64.RoundTrip.{decode_string-encode}
use claude_distant.Base64.Size.{base64_decoded_len-decode_string}
use claude_distant.Common.{
  List, Option, [], arith, false, if◌then◌else◌, length, max, none, refl, some, true, ℕ, ◌++◌, ◌+◌,
  ◌∷◌, ◌≡◌,
}
use claude_distant.Common.Int.{is_negative, pos, pos_part}
use claude_distant.Executor.Timeout.{command_timeout, command_timeout_wraps}
use claude_distant.LogLine.{sanitize_log_line}
use claude_distant.LogLine.Clean.{AllPrintable, sanitize_log_line-AllPrintable}
use claude_distant.Policy.Dangerous.{is_destructive-phrase}
use claude_distant.Policy.Patterns.{any_match, is_destructive, text_re}
use claude_distant.Regex.{in_class, is_word, match_string, occurs, run, starts_word}
use claude_distant.Regex.Context.{word_after}
use claude_distant.Regex.Fold.{ascii_lower, lower_all}
use claude_distant.Shell.{LookPath, split_argv}
use claude_distant.Shell.Quote.{quote_args, split_argv-quote_args}
use claude_distant.Text.{Text, codes, equal}

is_destructive_hits : is_destructive (codes "sudo rm -rf /home") ≡ true
unfolding is_destructive any_match match_string occurs run in_class starts_word text_re
is_destructive_hits = refl

is_destructive_misses : is_destructive (codes "ls -la") ≡ false
unfolding is_destructive any_match match_string occurs run in_class starts_word text_re
is_destructive_misses = refl

-- The two flags apart from each other are not seen.
is_destructive_apart : is_destructive (codes "rm -r -f /home") ≡ false
unfolding is_destructive any_match match_string occurs run in_class starts_word text_re
is_destructive_apart = refl

is_destructive-phrase_example :
    is_destructive (codes "sudo " ++ (codes "RM -rf" ++ codes " /home")) ≡ true
unfolding lower_all starts_word is_word word_after ascii_lower
is_destructive-phrase_example =
    is_destructive-phrase (codes "sudo ") (codes "RM -rf") (codes " /home") (codes "rm -rf")
      (Memᴰ.head refl) refl refl refl

abbrev arguments : List Text
arguments = codes "echo" ∷ [] ∷ codes "a \"b\" \\c" ∷ []

split_argv-quote_args_example : split_argv (quote_args arguments) ≡ some arguments
split_argv-quote_args_example = split_argv-quote_args arguments

abbrev only_bash : LookPath
only_bash bin = if equal bin (codes "bash") then none else some (codes "not found")

abbrev event_at : ℕ → ActivityEvent
event_at t = record { time = t; kind = activity_command; detail = codes "ls" }

abbrev three_events : List ActivityEvent
three_events = event_at 1 ∷ event_at 2 ∷ event_at 3 ∷ []

append_all_newest_example :
    events_of (append_all (some (new_activity_log (pos 2))) three_events).0
    ≡ take_last (max 1 (pos_part (pos 2))) three_events
append_all_newest_example = append_all_newest (pos 2) three_events

abbrev dates : TimeFormat
dates = record { rfc3339 = λ t. codes "2025-01-01T00:00:00Z"; clock = λ t. codes "00:00:00" }

abbrev journal : Option ActivityLog
journal = some (record { events = three_events; capacity = 5; subscribers = [] })

length-lines_from-render_example :
    length (lines_from [] (render dates journal))
    ≡ length (events_of journal) + detail_breaks (events_of journal)
length-lines_from-render_example =
    length-lines_from-render dates journal (λ t. (omega arith, omega arith))

sanitize_log_line-AllPrintable_example : AllPrintable (sanitize_log_line (codes "a\n b\tc"))
sanitize_log_line-AllPrintable_example = sanitize_log_line-AllPrintable (codes "a\n b\tc")

decode_string-encode_example :
    decode_string (encode (0 ∷ 255 ∷ 16 ∷ 7 ∷ [])) ≡ some (0 ∷ 255 ∷ 16 ∷ 7 ∷ [])
decode_string-encode_example = decode_string-encode (0 ∷ 255 ∷ 16 ∷ 7 ∷ []) (omega arith)

base64_decoded_len-decode_string_example :
    base64_decoded_len (strip_breaks (codes "AP8Q\nBw==")) ≡ 4
base64_decoded_len-decode_string_example =
    base64_decoded_len-decode_string (codes "AP8Q\nBw==") {bytes = 0 ∷ 255 ∷ 16 ∷ 7 ∷ []}
      (unfold decode_string strip_breaks decode_groups digit_of in refl)

command_timeout_wraps_example : is_negative (command_timeout (pos 10000000000)) ≡ true
command_timeout_wraps_example = command_timeout_wraps 10000000000 (omega arith) (omega arith)

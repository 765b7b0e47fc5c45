-- ===== src/Tests/Connections.antt =====
-- Runs of the connection, of a whole session, of the decoders, and of the window.
use claude_distant.Common.{
  List, Option, [], arith, false, ge→ltb, if◌then◌else◌, inl, inr, ltb, lt→ltb, none, refl, some,
  true, ℕ, ◌++◌, ◌+◌, ◌==◌, ◌||◌, ◌↔◌, ◌∷◌, ◌≡◌, ◌⊎◌,
}
use claude_distant.Common.Int.{pos}
use claude_distant.Connection.{
  Arrival, ReadError, Socket, dial_relay, dialed, failed_with, read_all, read_timeout,
}
use claude_distant.Connection.Deadline.{
  IsDeadlined, Timed, announces, arrivals_of, heard, read_all_silence,
}
use claude_distant.Connection.KillSwitch.{closing, serve-closing_iff}
use claude_distant.Executor.Timeout.{second}
use claude_distant.Policy.{policy_confirm}
use claude_distant.Protocol.{
  CommandMessage, Message, WriteFileParams, close_code_session_terminated, result_message,
  type_command, type_heartbeat_ack, type_session_terminated, zero_write_file_params,
}
use claude_distant.Protocol.Decode.{
  decode_command, decode_envelope, decode_write_file, inbound_json_of,
}
use claude_distant.Protocol.Decode.Fields.{
  decode_command_fieldwise, decode_write_file_fieldwise, last_bool, last_pointer, last_raw,
  last_text,
}
use claude_distant.Protocol.Struct.{Shape, Syntax, bool_shape, object_shape, text_shape}
use claude_distant.Protocol.Wire.{to_wire}
use claude_distant.Protocol.Wire.RoundTrip.{normal, of_wire, of_wire-to_wire}
use claude_distant.Session.{Inbound, lost, received, serve, session_failed, session_terminated}
use claude_distant.Session.Answers.{Running}
use claude_distant.Tests.Setting.{client_with, machine}
use claude_distant.Text.{Text, codes, equal}

-- A syntax of JSON that knows a few texts.
abbrev command_fields : List (Text × Text)
command_fields = (codes "TOOL", codes "\"system_info\"") ∷ (codes "request_id", codes "\"r1\"") ∷ []

abbrev write_fields : List (Text × Text)
write_fields = (codes "path", codes "\"r1\"") ∷ (codes "overwrite", codes "false") ∷ []

unfoldable pub shape_of : Text → Text ⊎ Shape
unfolding equal
shape_of s =
    if equal s (codes "C")
    then inr (object_shape command_fields)
    else if equal s (codes "W")
    then inr (object_shape write_fields)
    else if equal s (codes "A")
    then inr (object_shape ((codes "type", codes "a") ∷ []))
    else if equal s (codes "a")
    then inr (text_shape (codes "heartbeat_ack"))
    else if equal s (codes "\"r1\"")
    then inr (text_shape (codes "r1"))
    else if equal s (codes "\"system_info\"")
    then inr (text_shape (codes "system_info"))
    else if equal s (codes "false")
    then inr (bool_shape false)
    else inl (codes "invalid character")

abbrev pub few_texts : Syntax
few_texts = record { shape_of = shape_of; type_error = λ key shape. key }

abbrev order : CommandMessage
order = record { request_id = codes "r1"; tool = codes "system_info"; params = [] }

order-decoded : decode_command few_texts (codes "C") ≡ inr order
unfolding decode_command shape_of
order-decoded = refl

decode_command_fieldwise_example :
    (order.request_id ≡ last_text few_texts (codes "request_id") [] command_fields)
    × (order.tool ≡ last_text few_texts (codes "tool") [] command_fields)
    × (order.params ≡ last_raw few_texts (codes "params") [] command_fields)
unfolding shape_of
decode_command_fieldwise_example =
    decode_command_fieldwise few_texts (codes "C") command_fields order refl order-decoded

abbrev no_overwrite : WriteFileParams
no_overwrite = record zero_write_file_params { path = codes "r1"; overwrite = some false }

no_overwrite-decoded : decode_write_file few_texts (codes "W") ≡ inr no_overwrite
unfolding decode_write_file shape_of
no_overwrite-decoded = refl

decode_write_file_fieldwise_example :
    (no_overwrite.path ≡ last_text few_texts (codes "path") [] write_fields)
    × (no_overwrite.content_base64 ≡ last_text few_texts (codes "content_base64") [] write_fields)
    × (no_overwrite.mode ≡ last_text few_texts (codes "mode") [] write_fields)
    × (no_overwrite.create_dirs ≡ last_bool few_texts (codes "create_dirs") false write_fields)
    × (no_overwrite.overwrite ≡ last_pointer few_texts (codes "overwrite") none write_fields)
unfolding shape_of
decode_write_file_fieldwise_example =
    decode_write_file_fieldwise few_texts (codes "W") write_fields no_overwrite refl
      no_overwrite-decoded

-- A connection that reads what comes in time.
abbrev timeout_text : Text
timeout_text = codes "i/o timeout"

abbrev read_in_time : ℕ → Arrival → ReadError ⊎ Text
read_in_time deadline a = if ltb deadline a.time then inl (failed_with timeout_text) else a.frame

abbrev pub wire : Socket
wire = record {
  read_message = read_in_time;
  read_silence = λ deadline. failed_with timeout_text;
  read_deadline_error = λ t. none;
  unmarshal_envelope = decode_envelope few_texts;
}

pub wire-IsDeadlined : IsDeadlined wire timeout_text
wire-IsDeadlined = record {
  in_time = λ deadline a h. rw (ge→ltb deadline a.time h);
  too_late = λ deadline a h. rw (lt→ltb deadline a.time h);
  silent = λ deadline. refl;
  settable = λ t. refl;
}

pub ack_known : decode_envelope few_texts (codes "A") ≡ inr type_heartbeat_ack
unfolding decode_envelope shape_of
ack_known = refl

abbrev pub one_ack : List Timed
one_ack = record { came = 50; kind = type_heartbeat_ack; payload = codes "A" } ∷ []

abbrev too_late_ack : List Arrival
too_late_ack = record { time = 50 + read_timeout + 1; frame = inr (codes "A") } ∷ []

read_all_silence_example :
    let now = 50 + read_timeout + 1 in
    let inbox = read_all wire now (0 + read_timeout) (arrivals_of one_ack ++ too_late_ack) in
    (inbox
      ≡ heard one_ack (if ltb (50 + read_timeout) now then lost false timeout_text ∷ [] else []))
    × ((serve (inbound_json_of few_texts) inbox).1 ≡ (
        if announces one_ack
        then some session_terminated
        else if ltb (50 + read_timeout) now
        then some (session_failed timeout_text)
        else none))
read_all_silence_example =
    read_all_silence wire-IsDeadlined (50 + read_timeout + 1) (inbound_json_of few_texts) dialed
      none 0 (0 + read_timeout) (codes "wss://r") (codes "t") false one_ack too_late_ack
      (unfold dial_relay in refl) (ack_known, omega arith, tt) (omega arith, omega arith)

abbrev one_then_4402 : List Arrival
one_then_4402 = arrivals_of one_ack ++ closing 60 4402 (codes "close 4402") ∷ []

serve-closing_iff_example :
    ((serve (inbound_json_of few_texts) (read_all wire 60 (0 + read_timeout) one_then_4402)).1
      ≡ some session_terminated)
    ↔ ((4402 == close_code_session_terminated || announces one_ack) ≡ true)
serve-closing_iff_example =
    serve-closing_iff wire-IsDeadlined (inbound_json_of few_texts) 60 0 one_ack 60 4402
      (codes "close 4402") [] (ack_known, omega arith, tt) (omega arith)

abbrev some_lost : List (Option ℕ)
some_lost = none ∷ some second ∷ none ∷ none ∷ none ∷ some 5 ∷ []

-- A session that gets one order, and is killed before the next.
abbrev orders : List Inbound
orders =
    received type_command (codes "C")
    ∷ received type_session_terminated []
    ∷ received type_command (codes "C")
    ∷ []

abbrev order_handler : Running
order_handler = record {
  task = record { env = machine; executor = client_with policy_confirm; command = order };
  reached = 9;
}

-- Messages on the wire.
abbrev answer : Message
answer = result_message (codes "r1") (pos 0) none (some [])

of_wire-to_wire_example : of_wire (to_wire answer) ≡ some (normal answer)
of_wire-to_wire_example = of_wire-to_wire answer

-- ===== src/Protocol/Decode.antt =====
-- client/protocol.go: the types that the client decodes, by the tags of their fields.
pub mod Fields
use claude_distant.Common.{Bool, Option, [], false, if◌then◌else◌, inl, inr, none, some, ◌∷◌, ◌⊎◌}
use claude_distant.Common.Int.{pos, ℤ}
use claude_distant.Protocol.{
  CommandMessage, InboundType, Json, ReadFileParams, RunParams, WriteFileParams, type_command,
  type_heartbeat_ack, type_other, type_registered, type_session_terminated,
}
use claude_distant.Protocol.Struct.{
  Slot, Struct, Syntax, bool_slot, int_slot, pointer_slot, raw_slot, slot_of, text_slot, unmarshal,
}
use claude_distant.Session.{InboundJson}
use claude_distant.Text.{Text, codes, equal}

-- The fields of a struct, by their names.
unfoldable pub text_of : Option Slot → Text
text_of (some (text_slot t)) = t
text_of _ = []

unfoldable pub raw_of : Option Slot → Text
raw_of (some (raw_slot t)) = t
raw_of _ = []

unfoldable pub int_of : Option Slot → ℤ
int_of (some (int_slot n)) = n
int_of _ = pos 0

unfoldable pub bool_of : Option Slot → Bool
bool_of (some (bool_slot b)) = b
bool_of _ = false

unfoldable pub pointer_of : Option Slot → Option Bool
pointer_of (some (pointer_slot b)) = b
pointer_of _ = none

-- The zero values of the structs.
abbrev pub envelope_struct : Struct
envelope_struct = (codes "type", text_slot []) ∷ []

abbrev pub registered_struct : Struct
registered_struct = (codes "type", text_slot []) ∷ (codes "session_code", text_slot []) ∷ []

abbrev pub command_struct : Struct
command_struct =
    (codes "type", text_slot [])
    ∷ (codes "request_id", text_slot [])
    ∷ (codes "tool", text_slot [])
    ∷ (codes "params", raw_slot [])
    ∷ []

abbrev pub run_struct : Struct
run_struct =
    (codes "command", text_slot [])
    ∷ (codes "shell", text_slot [])
    ∷ (codes "timeout", int_slot (pos 0))
    ∷ []

abbrev pub read_file_struct : Struct
read_file_struct =
    (codes "path", text_slot [])
    ∷ (codes "offset", int_slot (pos 0))
    ∷ (codes "max_bytes", int_slot (pos 0))
    ∷ []

abbrev pub write_file_struct : Struct
write_file_struct =
    (codes "path", text_slot [])
    ∷ (codes "content_base64", text_slot [])
    ∷ (codes "mode", text_slot [])
    ∷ (codes "create_dirs", bool_slot false)
    ∷ (codes "overwrite", pointer_slot none)
    ∷ []

unfoldable pub command_from : Struct → CommandMessage
unfolding text_of raw_of slot_of
command_from st = record {
  request_id = text_of (slot_of (codes "request_id") st);
  tool = text_of (slot_of (codes "tool") st);
  params = raw_of (slot_of (codes "params") st);
}

unfoldable pub run_params_from : Struct → RunParams
unfolding text_of int_of slot_of
run_params_from st = record {
  command = text_of (slot_of (codes "command") st);
  shell = text_of (slot_of (codes "shell") st);
  timeout = int_of (slot_of (codes "timeout") st);
}

unfoldable pub read_file_params_from : Struct → ReadFileParams
unfolding text_of int_of slot_of
read_file_params_from st = record {
  path = text_of (slot_of (codes "path") st);
  offset = int_of (slot_of (codes "offset") st);
  max_bytes = int_of (slot_of (codes "max_bytes") st);
}

unfoldable pub write_file_params_from : Struct → WriteFileParams
unfolding text_of bool_of pointer_of slot_of
write_file_params_from st = record {
  path = text_of (slot_of (codes "path") st);
  content_base64 = text_of (slot_of (codes "content_base64") st);
  mode = text_of (slot_of (codes "mode") st);
  create_dirs = bool_of (slot_of (codes "create_dirs") st);
  overwrite = pointer_of (slot_of (codes "overwrite") st);
}

-- The `switch` on the type of a message.
unfoldable pub inbound_type : Text → InboundType
inbound_type name =
    if equal name (codes "session_terminated")
    then type_session_terminated
    else if equal name (codes "registered")
    then type_registered
    else if equal name (codes "command")
    then type_command
    else if equal name (codes "heartbeat_ack")
    then type_heartbeat_ack
    else type_other name

abbrev pub with_right {ℓ} : {A : Type ℓ} → (Struct → A) → Text ⊎ Struct → Text ⊎ A
with_right f (inl err) = inl err
with_right f (inr st) = inr (f st)

abbrev pub if_decoded {ℓ} : {A : Type ℓ} → Text ⊎ A → Option A
if_decoded (inl err) = none
if_decoded (inr a) = some a

module _ (j : Syntax) where
  unfoldable pub decode_envelope : Text → Text ⊎ InboundType
  unfolding unmarshal slot_of text_of inbound_type
  decode_envelope s =
      with_right (λ st. inbound_type (text_of (slot_of (codes "type") st)))
        (unmarshal j envelope_struct s)

  unfoldable pub decode_command : Text → Text ⊎ CommandMessage
  unfolding unmarshal command_from
  decode_command s = with_right command_from (unmarshal j command_struct s)

  unfoldable pub decode_write_file : Text → Text ⊎ WriteFileParams
  unfolding unmarshal write_file_params_from
  decode_write_file s = with_right write_file_params_from (unmarshal j write_file_struct s)

  -- The decoders of the two interfaces that the session and the executor take.
  abbrev pub inbound_json_of : InboundJson
  inbound_json_of = record {
    unmarshal_registered = λ s. if_decoded (
        with_right (λ st. text_of (slot_of (codes "session_code") st))
          (unmarshal j registered_struct s));
    unmarshal_command = λ s. if_decoded (decode_command s);
  }

  abbrev pub json_of : (Text → Option Text) → Json
  json_of compact = record {
    unmarshal_run = λ s. with_right run_params_from (unmarshal j run_struct s);
    unmarshal_read_file = λ s. with_right read_file_params_from (unmarshal j read_file_struct s);
    unmarshal_write_file = decode_write_file;
    compact = compact;
  }

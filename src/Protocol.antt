-- ===== src/Protocol.antt =====
-- client/protocol.go: the messages between the client and the relay.
pub mod Wire
pub mod Struct
pub mod Decode
use claude_distant.Common.{
  Bool, List, Option, [], false, if◌then◌else◌, is_empty, none, some, ℕ, ◌∷◌, ◌⊎◌,
}
use claude_distant.Common.Int.{pos, ℤ}
use claude_distant.Text.{Text, codes, equal}

-- `StreamKind`
pub data StreamKind : Type 0 where
  stream_stdout stream_stderr : StreamKind

-- The values of the `meta` object of a `result`, with their keys.
pub data MetaValue : Type 0 where
  text_value : Text → MetaValue
  number_value : ℕ → MetaValue
  bool_value : Bool → MetaValue

abbrev pub Meta : Type 0
Meta = List (Text × MetaValue)

-- `m[key]`, with `none` for a missing key.
unfoldable pub meta_get : Text → Meta → Option MetaValue
meta_get key [] = none
meta_get key ((k, v) ∷ m) = if equal k key then some v else meta_get key m

-- The messages that the client sends, a constructor for each Go type.
pub data Message : Type 0 where
  register_message : Text → Text → Text → List Text → Text → Message
  heartbeat_message : Message
  stream_message : Text → StreamKind → Text → Message
  file_chunk_message : Text → ℕ → Text → Message
  result_message : Text → ℤ → Option Text → Option Meta → Message
  approval_response_message : Text → Bool → Message

-- `CapabilityFileTransfer`, `ClientCapabilities`
abbrev pub client_capabilities : List Text
client_capabilities = codes "file_transfer" ∷ []

-- `NewRegisterMessage`
abbrev pub new_register_message : Text → Text → Text → List Text → Text → Message
new_register_message = register_message

-- `NewHeartbeatMessage`
abbrev pub new_heartbeat_message : Message
new_heartbeat_message = heartbeat_message

-- `NewStreamMessage`
abbrev pub new_stream_message : Text → StreamKind → Text → Message
new_stream_message = stream_message

-- `NewFileChunkMessage`
abbrev pub new_file_chunk_message : Text → ℕ → Text → Message
new_file_chunk_message = file_chunk_message

-- `NewResultMessageWithMeta`: an empty error text becomes a null.
unfoldable pub new_result_message_with_meta : Text → ℤ → Text → Option Meta → Message
new_result_message_with_meta id exit_code err_msg info =
    result_message id exit_code (if is_empty err_msg then none else some err_msg) info

-- `NewResultMessage`
unfoldable pub new_result_message : Text → ℤ → Text → Message
unfolding new_result_message_with_meta
new_result_message id exit_code err_msg = new_result_message_with_meta id exit_code err_msg none

-- `NewApprovalResponseMessage`
abbrev pub new_approval_response_message : Text → Bool → Message
new_approval_response_message = approval_response_message

-- The `type` of a message that the relay sends; `type_other` is any further one.
pub data InboundType : Type 0 where
  type_registered type_command type_heartbeat_ack type_session_terminated : InboundType
  type_other : Text → InboundType

-- `CloseCodeSessionTerminated`
abbrev pub close_code_session_terminated : ℕ
close_code_session_terminated = 4402

-- `CommandMessage`; `params` is the raw JSON text, empty if the message has none.
pub record CommandMessage : Type 0 where
  pub request_id : Text
  pub tool : Text
  pub params : Text

pub record RunParams : Type 0 where
  pub command : Text
  pub shell : Text
  pub timeout : ℤ

pub record ReadFileParams : Type 0 where
  pub path : Text
  pub offset : ℤ
  pub max_bytes : ℤ

-- `overwrite` is a `*bool`: `none` is an absent field.
pub record WriteFileParams : Type 0 where
  pub path : Text
  pub content_base64 : Text
  pub mode : Text
  pub create_dirs : Bool
  pub overwrite : Option Bool

-- The zero values, which stand where a command carries no params at all.
abbrev pub zero_run_params : RunParams
zero_run_params = record { command = []; shell = []; timeout = pos 0 }

abbrev pub zero_read_file_params : ReadFileParams
zero_read_file_params = record { path = []; offset = pos 0; max_bytes = pos 0 }

abbrev pub zero_write_file_params : WriteFileParams
zero_write_file_params = record {
  path = [];
  content_base64 = [];
  mode = [];
  create_dirs = false;
  overwrite = none;
}

-- `json.Unmarshal` into each type of the protocol, with the text of its error, and `json.Compact`.
pub record Json : Type 0 where
  pub unmarshal_run : Text → Text ⊎ RunParams
  pub unmarshal_read_file : Text → Text ⊎ ReadFileParams
  pub unmarshal_write_file : Text → Text ⊎ WriteFileParams
  pub compact : Text → Option Text

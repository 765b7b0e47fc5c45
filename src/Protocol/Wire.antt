-- ===== src/Protocol/Wire.antt =====
-- client/protocol.go: the JSON object that each message of the client is written as, by the tags of its
-- Go type. How encoding/json spells a value as text is not modelled.
pub mod RoundTrip
use claude_distant.Common.{Bool, List, Option, [], none, some, ◌++◌, ◌∷◌}
use claude_distant.Common.Int.{pos, ℤ}
use claude_distant.Protocol.{
  Message, Meta, StreamKind, approval_response_message, file_chunk_message, heartbeat_message,
  register_message, result_message, stream_message, stream_stderr, stream_stdout,
}
use claude_distant.Text.{Text, codes}

-- A value of such an object.
pub data WireValue : Type 0 where
  wire_text : Text → WireValue
  wire_int : ℤ → WireValue
  wire_bool : Bool → WireValue
  wire_texts : List Text → WireValue
  wire_meta : Meta → WireValue
  wire_null : WireValue

abbrev pub WireObject : Type 0
WireObject = List (Text × WireValue)

-- `TypeRegister` to `TypeFileChunk`
unfoldable pub message_type : Message → Text
message_type (register_message os_name hostname version capabilities desired_code) =
    codes "register"
message_type heartbeat_message = codes "heartbeat"
message_type (stream_message id kind chunk) = codes "stream"
message_type (file_chunk_message id seq chunk) = codes "file_chunk"
message_type (result_message id exit_code err info) = codes "result"
message_type (approval_response_message id approved) = codes "approval_response"

-- `StreamStdout`, `StreamStderr`
unfoldable pub stream_name : StreamKind → Text
stream_name stream_stdout = codes "stdout"
stream_name stream_stderr = codes "stderr"

-- `omitempty` on a slice of strings, a string and a map.
abbrev pub texts_field : Text → List Text → WireObject
texts_field key [] = []
texts_field key (t ∷ ts) = (key, wire_texts (t ∷ ts)) ∷ []

abbrev pub text_field : Text → Text → WireObject
text_field key [] = []
text_field key (c ∷ t) = (key, wire_text (c ∷ t)) ∷ []

abbrev pub meta_field : Text → Option Meta → WireObject
meta_field key none = []
meta_field key (some []) = []
meta_field key (some (v ∷ info)) = (key, wire_meta (v ∷ info)) ∷ []

-- A `*string`.
abbrev pub text_or_null : Option Text → WireValue
text_or_null none = wire_null
text_or_null (some t) = wire_text t

-- The fields behind `type`.
unfoldable pub wire_fields : Message → WireObject
unfolding stream_name
wire_fields (register_message os_name hostname version capabilities desired_code) =
    (codes "os", wire_text os_name)
    ∷ (codes "hostname", wire_text hostname)
    ∷ (codes "version", wire_text version)
    ∷ (texts_field (codes "capabilities") capabilities
        ++ text_field (codes "desired_code") desired_code)
wire_fields heartbeat_message = []
wire_fields (stream_message id kind chunk) =
    (codes "request_id", wire_text id)
    ∷ (codes "stream", wire_text (stream_name kind))
    ∷ (codes "data", wire_text chunk)
    ∷ []
wire_fields (file_chunk_message id seq chunk) =
    (codes "request_id", wire_text id)
    ∷ (codes "seq", wire_int (pos seq))
    ∷ (codes "data", wire_text chunk)
    ∷ []
wire_fields (result_message id exit_code err info) =
    (codes "request_id", wire_text id)
    ∷ (codes "exit_code", wire_int exit_code)
    ∷ (codes "error", text_or_null err)
    ∷ meta_field (codes "meta") info
wire_fields (approval_response_message id approved) =
    (codes "request_id", wire_text id) ∷ (codes "approved", wire_bool approved) ∷ []

-- What `WriteJSON` writes.
unfoldable pub to_wire : Message → WireObject
unfolding wire_fields message_type
to_wire m = (codes "type", wire_text (message_type m)) ∷ wire_fields m

-- ===== src/Protocol/Wire/RoundTrip.antt =====
-- What a reader gets out of the objects that client/protocol.go defines.
use claude_distant.Common.{
  Bool, List, Option, [], false, if◌then◌else◌, map, none, refl, some, true, ℕ, ◌↔◌, ◌∷◌, ◌≡◌,
}
use claude_distant.Common.Int.{pos, ℤ}
use claude_distant.Common.Maybe.{◌>>=◌}
use claude_distant.Protocol.{
  Message, Meta, StreamKind, approval_response_message, file_chunk_message, heartbeat_message,
  register_message, result_message, stream_message, stream_stderr, stream_stdout,
}
use claude_distant.Protocol.Wire.{
  WireObject, WireValue, to_wire, wire_bool, wire_int, wire_meta, wire_null, wire_text, wire_texts,
}
use claude_distant.Text.{Text, codes, equal}

-- The reader: it looks fields up by their keys, in any order.
pub wire_get : Text → WireObject → Option WireValue
wire_get key [] = none
wire_get key ((k, v) ∷ fields) =
    let rest = wire_get key fields in if equal k key then some v else rest

as_text : WireValue → Option Text
as_text (wire_text t) = some t
as_text _ = none

as_int : WireValue → Option ℤ
as_int (wire_int n) = some n
as_int _ = none

as_count : WireValue → Option ℕ
as_count (wire_int (pos n)) = some n
as_count _ = none

as_bool : WireValue → Option Bool
as_bool (wire_bool b) = some b
as_bool _ = none

as_text_or_null : WireValue → Option (Option Text)
as_text_or_null (wire_text t) = some (some t)
as_text_or_null wire_null = some none
as_text_or_null _ = none

-- An optional key that is missing stands for the empty value.
as_texts : Option WireValue → Option (List Text)
as_texts none = some []
as_texts (some (wire_texts ts)) = some ts
as_texts _ = none

as_optional_text : Option WireValue → Option Text
as_optional_text none = some []
as_optional_text (some (wire_text t)) = some t
as_optional_text _ = none

as_meta : Option WireValue → Option (Option Meta)
as_meta none = some none
as_meta (some (wire_meta info)) = some (some info)
as_meta _ = none

as_stream : Text → Option StreamKind
as_stream name =
    if equal name (codes "stdout")
    then some stream_stdout
    else if equal name (codes "stderr")
    then some stream_stderr
    else none

read_register : WireObject → Option Message
unfolding wire_get as_text as_texts as_optional_text
read_register o = do
  os_name ← wire_get (codes "os") o >>= as_text
  hostname ← wire_get (codes "hostname") o >>= as_text
  version ← wire_get (codes "version") o >>= as_text
  capabilities ← as_texts (wire_get (codes "capabilities") o)
  desired_code ← as_optional_text (wire_get (codes "desired_code") o)
  some (register_message os_name hostname version capabilities desired_code)

read_stream : WireObject → Option Message
unfolding wire_get as_text as_stream
read_stream o = do
  id ← wire_get (codes "request_id") o >>= as_text
  kind ← wire_get (codes "stream") o >>= as_text >>= as_stream
  chunk ← wire_get (codes "data") o >>= as_text
  some (stream_message id kind chunk)

read_file_chunk : WireObject → Option Message
unfolding wire_get as_text as_count
read_file_chunk o = do
  id ← wire_get (codes "request_id") o >>= as_text
  seq ← wire_get (codes "seq") o >>= as_count
  chunk ← wire_get (codes "data") o >>= as_text
  some (file_chunk_message id seq chunk)

read_result : WireObject → Option Message
unfolding wire_get as_text as_int as_text_or_null as_meta
read_result o = do
  id ← wire_get (codes "request_id") o >>= as_text
  exit_code ← wire_get (codes "exit_code") o >>= as_int
  err ← wire_get (codes "error") o >>= as_text_or_null
  info ← as_meta (wire_get (codes "meta") o)
  some (result_message id exit_code err info)

read_approval : WireObject → Option Message
unfolding wire_get as_text as_bool
read_approval o = do
  id ← wire_get (codes "request_id") o >>= as_text
  approved ← wire_get (codes "approved") o >>= as_bool
  some (approval_response_message id approved)

read_typed : Text → WireObject → Option Message
unfolding read_register read_stream read_file_chunk read_result read_approval
read_typed name o =
    if equal name (codes "register")
    then read_register o
    else if equal name (codes "heartbeat")
    then some heartbeat_message
    else if equal name (codes "stream")
    then read_stream o
    else if equal name (codes "file_chunk")
    then read_file_chunk o
    else if equal name (codes "result")
    then read_result o
    else if equal name (codes "approval_response")
    then read_approval o
    else none

pub of_wire : WireObject → Option Message
unfolding read_typed wire_get as_text
of_wire o = do name ← wire_get (codes "type") o >>= as_text; read_typed name o

-- An empty `meta` is as good as none.
abbrev pub normal : Message → Message
normal (result_message id exit_code err (some [])) = result_message id exit_code err none
normal m = m

read_register-to_wire :
    (os_name hostname version : Text) (capabilities : List Text) (desired_code : Text)
    → let m = register_message os_name hostname version capabilities desired_code in
      of_wire (to_wire m) ≡ some m
unfolding of_wire to_wire equal
read_register-to_wire os_name hostname version [] [] = refl
read_register-to_wire os_name hostname version [] (c ∷ desired_code) = refl
read_register-to_wire os_name hostname version (t ∷ ts) [] = refl
read_register-to_wire os_name hostname version (t ∷ ts) (c ∷ desired_code) = refl

read_result-to_wire :
    (id : Text) (exit_code : ℤ) (err : Option Text) (info : Option Meta)
    → let m = result_message id exit_code err info in of_wire (to_wire m) ≡ some (normal m)
unfolding of_wire to_wire equal
read_result-to_wire id exit_code none none = refl
read_result-to_wire id exit_code none (some []) = refl
read_result-to_wire id exit_code none (some (v ∷ info)) = refl
read_result-to_wire id exit_code (some t) none = refl
read_result-to_wire id exit_code (some t) (some []) = refl
read_result-to_wire id exit_code (some t) (some (v ∷ info)) = refl

-- What the client writes can be read back: a reader that looks the fields up by their keys, in any
-- order, gets the very message from its object, its kind by the `type` key, with an optional key that is
-- missing read as empty. The one thing lost is an empty `meta`, which comes back as none.
pub of_wire-to_wire : (m : Message) → of_wire (to_wire m) ≡ some (normal m)
unfolding of_wire to_wire equal
of_wire-to_wire (register_message os_name hostname version capabilities desired_code) =
    read_register-to_wire os_name hostname version capabilities desired_code
of_wire-to_wire heartbeat_message = refl
of_wire-to_wire (stream_message id stream_stdout chunk) = refl
of_wire-to_wire (stream_message id stream_stderr chunk) = refl
of_wire-to_wire (file_chunk_message id seq chunk) = refl
of_wire-to_wire (result_message id exit_code err info) = read_result-to_wire id exit_code err info
of_wire-to_wire (approval_response_message id approved) = refl

capabilities_omitted :
    (os_name hostname version : Text) (capabilities : List Text) (desired_code : Text)
    → let r = to_wire (register_message os_name hostname version capabilities desired_code) in
      ((wire_get (codes "capabilities") r ≡ none) ↔ (capabilities ≡ []))
      × ((wire_get (codes "desired_code") r ≡ none) ↔ (desired_code ≡ []))
unfolding to_wire wire_get equal
capabilities_omitted os_name hostname version [] [] =
    ((λ h. refl, λ h. refl), (λ h. refl, λ h. refl))
capabilities_omitted os_name hostname version [] (c ∷ desired_code) =
    ((λ h. refl, λ h. refl), (λ h. cc, λ h. cc))
capabilities_omitted os_name hostname version (t ∷ ts) [] =
    ((λ h. cc, λ h. cc), (λ h. refl, λ h. refl))
capabilities_omitted os_name hostname version (t ∷ ts) (c ∷ desired_code) =
    ((λ h. cc, λ h. cc), (λ h. cc, λ h. cc))

-- A `meta` that holds nothing.
abbrev pub is_bare : Option Meta → Bool
is_bare none = true
is_bare (some []) = true
is_bare (some (v ∷ info)) = false

meta_omitted :
    (id : Text) (exit_code : ℤ) (err : Option Text) (info : Option Meta)
    → (wire_get (codes "meta") (to_wire (result_message id exit_code err info)) ≡ none)
      ↔ (is_bare info ≡ true)
unfolding to_wire wire_get equal
meta_omitted id exit_code err none = (λ h. refl, λ h. refl)
meta_omitted id exit_code err (some []) = (λ h. refl, λ h. refl)
meta_omitted id exit_code err (some (v ∷ info)) = (λ h. cc, λ h. cc)

-- The three extensions of the protocol are invisible to an older relay: `capabilities`, `desired_code`
-- and `meta` are keys of the object exactly where they carry something, and a `register` and a `result`
-- with nothing in them are the objects of the first version of the protocol, key by key.
to_wire-omits :
    (os_name hostname version : Text) (capabilities : List Text) (desired_code id : Text)
    (exit_code : ℤ) (err : Option Text) (info : Option Meta)
    → let r = to_wire (register_message os_name hostname version capabilities desired_code) in
      ((wire_get (codes "capabilities") r ≡ none) ↔ (capabilities ≡ []))
      × ((wire_get (codes "desired_code") r ≡ none) ↔ (desired_code ≡ []))
      × ((wire_get (codes "meta") (to_wire (result_message id exit_code err info)) ≡ none)
          ↔ (is_bare info ≡ true))
      × (map
            (λ (f : Text × WireValue). f.0)
            (to_wire (register_message os_name hostname version [] []))
          ≡ codes "type" ∷ codes "os" ∷ codes "hostname" ∷ codes "version" ∷ [])
      × (map (λ (f : Text × WireValue). f.0) (to_wire (result_message id exit_code err none))
          ≡ codes "type" ∷ codes "request_id" ∷ codes "exit_code" ∷ codes "error" ∷ [])
unfolding to_wire
to_wire-omits os_name hostname version capabilities desired_code id exit_code err info =
    let o = capabilities_omitted os_name hostname version capabilities desired_code in
    (o.0, o.1, meta_omitted id exit_code err info, refl, refl)

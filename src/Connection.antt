-- ===== src/Connection.antt =====
-- client/wsconn.go: the connection to the relay. gorilla/websocket and encoding/json are parameters.
-- A time is a number of nanoseconds; the write lock makes `WriteJSON` and `Close` one step each.
pub mod Deadline
pub mod Heartbeat
pub mod KillSwitch
pub mod Return
use claude_distant.Common.{
  Bool, List, Option, [], false, if◌then◌else◌, inl, inr, ltb, none, some, true, ℕ, ◌*◌, ◌++◌, ◌+◌,
  ◌==◌, ◌∷◌, ◌⊎◌,
}
use claude_distant.Executor.Timeout.{second}
use claude_distant.Protocol.{
  InboundType, Message, close_code_session_terminated, type_command, type_heartbeat_ack, type_other,
  type_registered, type_session_terminated,
}
use claude_distant.Session.{Inbound, lost, received}
use claude_distant.Text.{Text, codes}

abbrev pub handshake_timeout : ℕ
handshake_timeout = 15 * second

abbrev pub write_timeout : ℕ
write_timeout = 10 * second

abbrev pub read_timeout : ℕ
read_timeout = 90 * second

-- What `DialRelay` hands to the dialer.
pub record DialRequest : Type 0 where
  pub dial_timeout : ℕ
  pub proxy_from_environment : Bool
  pub insecure_skip_verify : Bool
  pub url : Text
  pub authorization : Text

-- What the dialer gives: a connection, or an error and the status of the response, if there was one.
pub data DialOutcome : Type 0 where
  dialed : DialOutcome
  dial_failed : Text → Option Text → DialOutcome

-- What is done to the connection of gorilla/websocket.
pub data ConnEffect : Type 0 where
  dialing : DialRequest → ConnEffect
  set_read_deadline set_write_deadline : ℕ → ConnEffect
  wrote_frame : Message → ConnEffect
  wrote_close_frame closed_socket : ConnEffect

abbrev pub dial_failure : Text → Option Text → Text
dial_failure err none = codes "connexion au relay: " ++ err
dial_failure err (some status) =
    codes "connexion au relay: " ++ (err ++ (codes " (statut http " ++ (status ++ codes ")")))

-- Behind the dial, by the error of `SetReadDeadline`.
unfoldable pub open_conn : DialOutcome → Option Text → ℕ → List ConnEffect × (Text ⊎ ℕ)
open_conn (dial_failed err status) deadline_error now = ([], inl (dial_failure err status))
open_conn dialed (some err) now =
    (set_read_deadline (now + read_timeout) ∷ closed_socket ∷ [], inl err)
open_conn dialed none now = (set_read_deadline (now + read_timeout) ∷ [], inr (now + read_timeout))

-- `DialRelay`: the error, or the read deadline of the new connection.
unfoldable pub dial_relay :
    DialOutcome → Option Text → ℕ → Text → Text → Bool → List ConnEffect × (Text ⊎ ℕ)
unfolding open_conn
dial_relay outcome deadline_error now url token insecure_skip_verify =
    let request : DialRequest = record {
      dial_timeout = handshake_timeout;
      proxy_from_environment = true;
      insecure_skip_verify = insecure_skip_verify;
      url = url;
      authorization = codes "Bearer " ++ token;
    } in
    let (effects, result) = open_conn outcome deadline_error now in
    (dialing request ∷ effects, result)

-- `WriteJSON`, by the errors of `SetWriteDeadline` and of the write itself.
unfoldable pub write_json : Option Text → Option Text → ℕ → Message → List ConnEffect × Option Text
write_json (some err) write_error now m = (set_write_deadline (now + write_timeout) ∷ [], some err)
write_json none write_error now m =
    (set_write_deadline (now + write_timeout) ∷ wrote_frame m ∷ [], write_error)

-- `Close`; what it returns is dropped by its callers.
unfoldable pub close_conn : ℕ → List ConnEffect
close_conn now = set_write_deadline (now + write_timeout) ∷ wrote_close_frame ∷ closed_socket ∷ []

-- The errors of a read: `websocket.CloseError` with its code, or another one.
pub data ReadError : Type 0 where
  closed_with : ℕ → Text → ReadError
  failed_with : Text → ReadError

-- `isSessionTerminatedClose`
unfoldable pub is_session_terminated_close : ReadError → Bool
is_session_terminated_close (closed_with close_code err) =
    close_code == close_code_session_terminated
is_session_terminated_close (failed_with err) = false

abbrev pub error_text : ReadError → Text
error_text (closed_with close_code err) = err
error_text (failed_with err) = err

-- What comes from the relay: when, and a frame that can be read or the error that reading it gives,
-- such as that of a close frame.
pub record Arrival : Type 0 where
  pub time : ℕ
  pub frame : ReadError ⊎ Text

-- What `ReadMessage` gives for the next arrival under a read deadline, and at the deadline where nothing
-- came, `SetReadDeadline`, and `json.Unmarshal` into an `Envelope`.
pub record Socket : Type 0 where
  pub read_message : ℕ → Arrival → ReadError ⊎ Text
  pub read_silence : ℕ → ReadError
  pub read_deadline_error : ℕ → Option Text
  pub unmarshal_envelope : Text → Text ⊎ InboundType

-- `ReadEnvelope` behind `ReadMessage` and `SetReadDeadline`.
unfoldable pub open_envelope : Text → Text ⊎ InboundType → ReadError ⊎ (InboundType × Text)
open_envelope payload (inl err) = inl (failed_with (codes "décodage message: " ++ err))
open_envelope payload (inr kind) = inr (kind, payload)

unfoldable pub after_deadline : Socket → Text → Option Text → ReadError ⊎ (InboundType × Text)
unfolding open_envelope
after_deadline s payload (some err) = inl (failed_with err)
after_deadline s payload none = open_envelope payload (s.unmarshal_envelope payload)

unfoldable pub after_message : Socket → ℕ → ReadError ⊎ Text → ReadError ⊎ (InboundType × Text)
unfolding after_deadline
after_message s now (inl err) = inl err
after_message s now (inr payload) =
    after_deadline s payload (s.read_deadline_error (now + read_timeout))

-- `ReadEnvelope`, under the read deadline in force; one that succeeds moves it to `read_timeout` after
-- the arrival, which it takes up at once.
unfoldable pub read_envelope : Socket → ℕ → Arrival → (ReadError ⊎ (InboundType × Text)) × ℕ
unfolding after_message
read_envelope s deadline a =
    (after_message s a.time (s.read_message deadline a), a.time + read_timeout)

-- The one type of message behind which the loop of `runSession` returns.
abbrev pub ends_loop : InboundType → Bool
ends_loop type_session_terminated = true
ends_loop type_registered = false
ends_loop type_command = false
ends_loop type_heartbeat_ack = false
ends_loop (type_other name) = false

-- What the loop makes of a read, and of the reads that follow a good one.
unfoldable pub then_read : ReadError ⊎ (InboundType × Text) → List Inbound → List Inbound
unfolding is_session_terminated_close
then_read (inl err) later = lost (is_session_terminated_close err) (error_text err) ∷ []
then_read (inr (kind, payload)) later =
    received kind payload ∷ (if ends_loop kind then [] else later)

-- The read for which nothing arrives: at the deadline it fails, and up to it the loop waits.
unfoldable pub read_nothing : Socket → ℕ → ℕ → List Inbound
unfolding then_read
read_nothing s now deadline =
    if ltb deadline now then then_read (inl (s.read_silence deadline)) [] else []

-- What the loop has read at the time `now`, where the list has all that arrived by then: one
-- `ReadEnvelope` for each arrival, up to the first error or the message that ends the loop.
unfoldable pub read_all : Socket → ℕ → ℕ → List Arrival → List Inbound
unfolding then_read read_envelope read_nothing
read_all s now deadline [] = read_nothing s now deadline
read_all s now deadline (a ∷ arrivals) =
    let (result, deadline') = read_envelope s deadline a in
    then_read result (read_all s now deadline' arrivals)

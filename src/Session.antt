-- ===== src/Session.antt =====
-- client/main.go: how one connection to the relay is served. The reconnects are in Session/Reconnect,
-- the session code in Session/Code, and the configuration in Session/Config.
pub mod Reconnect
pub mod Pace
pub mod Code
pub mod Machine
pub mod Registry
pub mod Config
pub mod Resolved
pub mod Answers
use claude_distant.Common.{
  Bool, List, Option, [], ap, false, none, refl, some, true, ◌++◌, ◌∙◌, ◌∷◌, ◌≡◌,
}
use claude_distant.Protocol.{
  CommandMessage, InboundType, Message, type_command, type_heartbeat_ack, type_other,
  type_registered, type_session_terminated,
}
use claude_distant.Text.{Text, codes}

-- How `runSession` ends: the kill-switch, or another error with its text.
pub data SessionEnd : Type 0 where
  session_terminated : SessionEnd
  session_failed : Text → SessionEnd

-- What `ReadEnvelope` gives: an error, with whether `isSessionTerminatedClose` holds of it, or the
-- type and the data of a message.
pub data Inbound : Type 0 where
  lost : Bool → Text → Inbound
  received : InboundType → Text → Inbound

-- `json.Unmarshal` into the two messages that the loop decodes; `none` is an error.
pub record InboundJson : Type 0 where
  pub unmarshal_registered : Text → Option Text
  pub unmarshal_command : Text → Option CommandMessage

-- What the loop does: the session code that it prints, the note of the kill-switch, the commands that
-- it starts in goroutines of their own, and what it logs.
pub data SessionEffect : Type 0 where
  sent_register : Message → SessionEffect
  printed_code : Text → SessionEffect
  printed_termination : SessionEffect
  started_handle : CommandMessage → SessionEffect
  logged : Text → SessionEffect

abbrev pub SessionResult : Type 0
SessionResult = List SessionEffect × Option SessionEnd

unfoldable pub with_effect : Option SessionEffect → SessionResult → SessionResult
with_effect none r = r
with_effect (some x) (xs, end) = (x ∷ xs, end)

abbrev pub read_failure : Bool → Text → SessionEnd
read_failure true err = session_terminated
read_failure false err = session_failed err

abbrev pub on_registered : Option Text → Option SessionEffect
on_registered none = none
on_registered (some session_code) = some (printed_code session_code)

abbrev pub on_command : Option CommandMessage → SessionEffect
on_command none = logged (codes "message command invalide")
on_command (some cmd) = started_handle cmd

-- The loop over what is read. No end at all means that the loop still waits for a message.
unfoldable pub serve : InboundJson → List Inbound → SessionResult
unfolding with_effect
serve json [] = ([], none)
serve json (lost terminated err ∷ inbox) = ([], some (read_failure terminated err))
serve json (received type_session_terminated payload ∷ inbox) =
    (printed_termination ∷ [], some session_terminated)
serve json (received type_registered payload ∷ inbox) =
    with_effect (on_registered (json.unmarshal_registered payload)) (serve json inbox)
serve json (received type_command payload ∷ inbox) =
    with_effect (some (on_command (json.unmarshal_command payload))) (serve json inbox)
serve json (received type_heartbeat_ack payload ∷ inbox) = serve json inbox
serve json (received (type_other name) payload ∷ inbox) =
    with_effect (some (logged (codes "message inconnu reçu du relay: " ++ name))) (serve json inbox)

-- `runSession`, by the errors of `DialRelay` and of the write of the `register` message.
unfoldable pub run_session :
    InboundJson → Option Text → Option Text → Message → List Inbound → SessionResult
unfolding serve
run_session json (some err) register_error register inbox = ([], some (session_failed err))
run_session json none (some err) register inbox =
    (sent_register register ∷ [], some (session_failed (codes "envoi register: " ++ err)))
run_session json none none register inbox =
    with_effect (some (sent_register register)) (serve json inbox)

-- The end that one thing read makes, if it does.
abbrev pub end_by : Inbound → Option SessionEnd
end_by (lost terminated err) = some (read_failure terminated err)
end_by (received type_session_terminated payload) = some session_terminated
end_by (received _ payload) = none

-- What is read before the first end, and that end.
abbrev pub before_end : List Inbound → List Inbound
before_end [] = []
before_end (i ∷ inbox) = elim (end_by i) [ some end ↦ [] | none ↦ i ∷ before_end inbox ]

abbrev pub first_end : List Inbound → Option SessionEnd
first_end [] = none
first_end (i ∷ inbox) = elim (end_by i) [ some end ↦ some end | none ↦ first_end inbox ]

-- The commands that a list of messages holds and that can be decoded.
abbrev when_decoded : Option CommandMessage → List CommandMessage
when_decoded none = []
when_decoded (some cmd) = cmd ∷ []

abbrev pub commands_in : InboundJson → List Inbound → List CommandMessage
commands_in json [] = []
commands_in json (received type_command payload ∷ inbox) =
    when_decoded (json.unmarshal_command payload) ++ commands_in json inbox
commands_in json (_ ∷ inbox) = commands_in json inbox

-- The commands that were started.
abbrev pub handles : List SessionEffect → List CommandMessage
handles [] = []
handles (started_handle cmd ∷ xs) = cmd ∷ handles xs
handles (_ ∷ xs) = handles xs

on_command-handles :
    (o : Option CommandMessage) (r : SessionResult)
    → handles (with_effect (some (on_command o)) r).0 ≡ when_decoded o ++ handles r.0
unfolding with_effect
on_command-handles none r = refl
on_command-handles (some cmd) r = refl

on_registered-handles :
    (o : Option Text) (r : SessionResult)
    → (handles (with_effect (on_registered o) r).0 ≡ handles r.0)
      × ((with_effect (on_registered o) r).1 ≡ r.1)
unfolding with_effect
on_registered-handles none r = (refl, refl)
on_registered-handles (some c) r = (refl, refl)

-- A session starts exactly the commands that arrive, and can be decoded, before its first end, each
-- once and in order; and it ends as that first end says, so with the kill-switch exactly if the first
-- end is a `session_terminated` message or the close code of one. Nothing that arrives behind a
-- kill-switch is run.
pub serve_lem :
    (json : InboundJson) (inbox : List Inbound)
    → (handles (serve json inbox).0 ≡ commands_in json (before_end inbox))
      × ((serve json inbox).1 ≡ first_end inbox)
unfolding serve
serve_lem json [] = (refl, refl)
serve_lem json (lost terminated err ∷ inbox) = (refl, refl)
serve_lem json (received type_session_terminated payload ∷ inbox) = (refl, refl)
serve_lem json (received type_registered payload ∷ inbox) =
    let (ran, end) = serve_lem json inbox in
    let (same, end_same) =
      on_registered-handles (json.unmarshal_registered payload) (serve json inbox) in
    (same ∙ ran, end_same ∙ end)
serve_lem json (received type_command payload ∷ inbox) =
    let (ran, end) = serve_lem json inbox in
    (
      on_command-handles (json.unmarshal_command payload) (serve json inbox)
          ∙ ap (◌++◌ (when_decoded (json.unmarshal_command payload))) ran,
      unfold with_effect in end,
    )
serve_lem json (received type_heartbeat_ack payload ∷ inbox) = serve_lem json inbox
serve_lem json (received (type_other name) payload ∷ inbox) =
    unfold with_effect in serve_lem json inbox

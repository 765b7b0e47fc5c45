-- ===== src/Connection/Deadline.antt =====
-- The read deadline of client/wsconn.go: how long a silent relay is waited for.
use claude_distant.Common.{
  Bool, Bool-cases, List, Option, [], ap, arith, false, if◌then◌else◌, inl, inr, ltb, lt→ltb, none,
  refl, some, true, ℕ, ◌++◌, ◌+◌, ◌<◌, ◌||◌, ◌∙◌, ◌∷◌, ◌≡◌, ◌≤◌,
}
use claude_distant.Connection.{
  Arrival, DialOutcome, Socket, dial_failed, dial_relay, dialed, ends_loop, failed_with, read_all,
  read_timeout,
}
use claude_distant.Executor.Answering.{behind}
use claude_distant.Protocol.{
  InboundType, type_command, type_heartbeat_ack, type_other, type_registered,
  type_session_terminated,
}
use claude_distant.Session.{
  Inbound, InboundJson, SessionEnd, first_end, lost, received, serve, serve_lem, session_failed,
  session_terminated,
}
use claude_distant.Text.{Text}

-- What the library documents: an arrival up to the deadline is read as it is; a read fails at the
-- deadline, also where something arrives later or nothing does; to set a deadline succeeds.
pub record IsDeadlined (s : Socket) (timeout_text : Text) : Type 0 where
  pub in_time :
      (deadline : ℕ) (a : Arrival) → a.time ≤ deadline → s.read_message deadline a ≡ a.frame
  pub too_late :
      (deadline : ℕ) (a : Arrival)
      → deadline < a.time
      → s.read_message deadline a ≡ inl (failed_with timeout_text)
  pub silent : (deadline : ℕ) → s.read_silence deadline ≡ failed_with timeout_text
  pub settable : (t : ℕ) → s.read_deadline_error t ≡ none

-- A message: when it comes, its type and its text.
pub record Timed : Type 0 where
  pub came : ℕ
  pub kind : InboundType
  pub payload : Text

abbrev pub arrival_of : Timed → Arrival
arrival_of m = record { time = m.came; frame = inr m.payload }

abbrev pub arrivals_of : List Timed → List Arrival
arrivals_of [] = []
arrivals_of (m ∷ ms) = arrival_of m ∷ arrivals_of ms

-- The messages up to the first `session_terminated`, that one included, and what follows if there is
-- none.
abbrev pub heard : List Timed → List Inbound → List Inbound
heard [] behind = behind
heard (m ∷ ms) behind =
    received m.kind m.payload ∷ (if ends_loop m.kind then [] else heard ms behind)

-- Whether one of the messages is a `session_terminated`.
unfoldable pub announces : List Timed → Bool
announces [] = false
announces (m ∷ ms) = ends_loop m.kind || announces ms

-- Each message can be decoded and comes at most `read_timeout` after the one before it.
abbrev pub IsTimely : Socket → ℕ → List Timed → Type 0
IsTimely s last [] = Unit
IsTimely s last (m ∷ ms) =
    (s.unmarshal_envelope m.payload ≡ inr m.kind)
    × (m.came ≤ last + read_timeout)
    × IsTimely s m.came ms

abbrev pub last_of : ℕ → List Timed → ℕ
last_of last [] = last
last_of last (m ∷ ms) = last_of m.came ms

-- What comes next by the time `now`, if anything does, comes more than `read_timeout` later.
abbrev pub IsSilence : ℕ → ℕ → List Arrival → Type 0
IsSilence last now [] = Unit
IsSilence last now (a ∷ arrivals) = (last + read_timeout < a.time) × (a.time ≤ now)

pub dial_relay_deadline :
    (outcome : DialOutcome) (deadline_error : Option Text) (now : ℕ) (url token : Text)
    (insecure_skip_verify : Bool) {deadline : ℕ}
    → (dial_relay outcome deadline_error now url token insecure_skip_verify).1 ≡ inr deadline
    → deadline ≡ now + read_timeout
unfolding dial_relay
dial_relay_deadline (dial_failed err status) deadline_error now url token b h = cc
dial_relay_deadline dialed (some err) now url token b h = cc
dial_relay_deadline dialed none now url token b h = cc

first_end_by_kind :
    (k : InboundType) (payload : Text) (inbox : List Inbound)
    → first_end (received k payload ∷ inbox)
      ≡ (if ends_loop k then some session_terminated else first_end inbox)
first_end_by_kind type_session_terminated payload inbox = refl
first_end_by_kind type_registered payload inbox = refl
first_end_by_kind type_command payload inbox = refl
first_end_by_kind type_heartbeat_ack payload inbox = refl
first_end_by_kind (type_other name) payload inbox = refl

heard_choice :
    (b rest : Bool) (inbox behind : List Inbound)
    → first_end inbox ≡ (if rest then some session_terminated else first_end behind)
    → (if b then some session_terminated else first_end (if b then [] else inbox))
      ≡ (if b || rest then some session_terminated else first_end behind)
heard_choice true rest inbox behind h = refl
heard_choice false rest inbox behind h = h

first_end-heard :
    (ms : List Timed) (behind : List Inbound)
    → first_end (heard ms behind)
      ≡ (if announces ms then some session_terminated else first_end behind)
unfolding announces
first_end-heard [] behind = refl
first_end-heard (m ∷ ms) behind =
    first_end_by_kind m.kind m.payload (if ends_loop m.kind then [] else heard ms behind)
    ∙ heard_choice (ends_loop m.kind) (announces ms) (heard ms behind) behind
        (first_end-heard ms behind)

-- How a session ends that reads this.
pub serve-heard :
    (json : InboundJson) (ms : List Timed) (behind : List Inbound)
    → (serve json (heard ms behind)).1
      ≡ (if announces ms then some session_terminated else first_end behind)
serve-heard json ms behind = (serve_lem json (heard ms behind)).1 ∙ first_end-heard ms behind

module _ {s : Socket} {timeout_text : Text} (ws : IsDeadlined s timeout_text) (now : ℕ) where
  pub read_all_next :
      (deadline : ℕ) (m : Timed) (arrivals : List Arrival)
      → s.unmarshal_envelope m.payload ≡ inr m.kind
      → m.came ≤ deadline
      → read_all s now deadline (arrival_of m ∷ arrivals)
        ≡ received m.kind m.payload
          ∷ (if ends_loop m.kind then [] else read_all s now (m.came + read_timeout) arrivals)
  unfolding read_all
  read_all_next deadline m arrivals decoded timely =
      rw (ws.in_time deadline (arrival_of m) timely)
        (rw (ws.settable (m.came + read_timeout)) (rw decoded))

  pub read_all-heard :
      (last : ℕ) (ms : List Timed) (arrivals : List Arrival)
      → IsTimely s last ms
      → read_all s now (last + read_timeout) (arrivals_of ms ++ arrivals)
        ≡ heard ms (read_all s now (last_of last ms + read_timeout) arrivals)
  read_all-heard last [] arrivals timely = refl
  read_all-heard last (m ∷ ms) arrivals timely =
      read_all_next (last + read_timeout) m (arrivals_of ms ++ arrivals) timely.0 timely.1
      ∙ ap (λ (l : List Inbound). received m.kind m.payload ∷ (if ends_loop m.kind then [] else l))
          (read_all-heard m.came ms arrivals timely.2)

  -- What a silent relay gives: at the deadline a timeout, and nothing before.
  abbrev pub timeout_at : ℕ → List Inbound
  timeout_at deadline = if ltb deadline now then lost false timeout_text ∷ [] else []

  pub read_all_late :
      (last : ℕ) (arrivals : List Arrival)
      → IsSilence last now arrivals
      → read_all s now (last + read_timeout) arrivals ≡ timeout_at (last + read_timeout)
  unfolding read_all
  read_all_late last [] h = rw (ws.silent (last + read_timeout)) refl
  read_all_late last (a ∷ arrivals) h =
      let over : ltb (last + read_timeout) now ≡ true =
        lt→ltb (last + read_timeout) now (omega arith) in
      rw over (rw (ws.too_late (last + read_timeout) a h.0))

  first_end-timeout_at :
      (deadline : ℕ)
      → first_end (timeout_at deadline)
        ≡ (if ltb deadline now then some (session_failed timeout_text) else none)
  first_end-timeout_at deadline = elim (Bool-cases (ltb deadline now)) [
    | inl over ↦ rw over refl
    | inr waiting ↦ rw waiting refl
  ]

  -- A relay is waited for exactly ninety seconds, the first time from the dial: as long as each message
  -- comes within that time of the one before it, every one is read, in order, up to a
  -- `session_terminated`; and where nothing comes in the ninety seconds behind the last, or only later,
  -- the session has ended by a timeout as soon as they are over, which is no kill-switch, and goes on
  -- until then.
  pub read_all_silence :
      (json : InboundJson) (outcome : DialOutcome) (deadline_error : Option Text)
      (dialed_at deadline : ℕ) (url token : Text) (insecure_skip_verify : Bool) (ms : List Timed)
      (arrivals : List Arrival)
      → (dial_relay outcome deadline_error dialed_at url token insecure_skip_verify).1
        ≡ inr deadline
      → IsTimely s dialed_at ms
      → IsSilence (last_of dialed_at ms) now arrivals
      → (read_all s now deadline (arrivals_of ms ++ arrivals)
          ≡ heard ms (
              if ltb (last_of dialed_at ms + read_timeout) now
              then lost false timeout_text ∷ []
              else []))
        × ((serve json (read_all s now deadline (arrivals_of ms ++ arrivals))).1 ≡ (
            if announces ms
            then some session_terminated
            else if ltb (last_of dialed_at ms + read_timeout) now
            then some (session_failed timeout_text)
            else none))
  read_all_silence json outcome deadline_error dialed_at deadline url token b ms arrivals opened
        timely silence =
      let last = last_of dialed_at ms in
      let read : read_all s now deadline (arrivals_of ms ++ arrivals)
          ≡ heard ms (timeout_at (last + read_timeout)) =
        ap (λ d. read_all s now d (arrivals_of ms ++ arrivals))
          (dial_relay_deadline outcome deadline_error dialed_at url token b opened)
        ∙ read_all-heard dialed_at ms arrivals timely
        ∙ ap (heard ms) (read_all_late last arrivals silence) in
      (
        read,
        ap (λ i. (serve json i).1) read
            ∙ serve-heard json ms (timeout_at (last + read_timeout))
            ∙ ap (λ (o : Option SessionEnd). if announces ms then some session_terminated else o)
                (first_end-timeout_at (last + read_timeout)),
      )

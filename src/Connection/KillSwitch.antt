-- ===== src/Connection/KillSwitch.antt =====
-- The two ways in which the relay ends a session for good: `isSessionTerminatedClose` of client/wsconn.go,
-- and the `session_terminated` message that the loop of `runSession` takes.
use claude_distant.Common.{
  Bool, List, [], ap, false, if◌then◌else◌, inl, refl, some, true, ℕ, ◌++◌, ◌+◌, ◌==◌, ◌||◌, ◌↔◌,
  ◌∙◌, ◌∷◌, ◌≡◌, ◌≤◌,
}
use claude_distant.Connection.{
  Arrival, ReadError, Socket, closed_with, error_text, is_session_terminated_close, read_all,
  read_timeout,
}
use claude_distant.Connection.Deadline.{
  IsDeadlined, IsTimely, Timed, announces, arrivals_of, heard, last_of, read_all-heard, serve-heard,
}
use claude_distant.Protocol.{close_code_session_terminated}
use claude_distant.Session.{InboundJson, lost, read_failure, serve, session_terminated}
use claude_distant.Text.{Text}

-- A frame that closes the connection.
abbrev pub closing : ℕ → ℕ → Text → Arrival
closing time close_code err = record { time = time; frame = inl (closed_with close_code err) }

-- An error of a read that ends the session, behind the messages.
pub read_all-broken :
    {s : Socket} {timeout_text : Text} (ws : IsDeadlined s timeout_text) (now last : ℕ)
    (ms : List Timed) (time : ℕ) (e : ReadError) (later : List Arrival)
    → IsTimely s last ms
    → time ≤ last_of last ms + read_timeout
    → read_all s now
        (last + read_timeout)
        (arrivals_of ms ++ record { time = time; frame = inl e } ∷ later)
      ≡ heard ms (lost (is_session_terminated_close e) (error_text e) ∷ [])
unfolding read_all
read_all-broken {s} ws now last ms time e later timely soon =
    read_all-heard ws now last ms (record { time = time; frame = inl e } ∷ later) timely
    ∙ ap (heard ms) (
        rw
          (ws.in_time (last_of last ms + read_timeout) (record { time = time; frame = inl e }) soon)
          refl)

end_choice :
    (announced terminated : Bool) (err : Text)
    → (if announced then some session_terminated else some (read_failure terminated err))
      ≡ some (read_failure (terminated || announced) err)
end_choice true true err = refl
end_choice true false err = refl
end_choice false true err = refl
end_choice false false err = refl

-- How such a session ends.
pub serve-lost :
    (json : InboundJson) (ms : List Timed) (terminated : Bool) (err : Text)
    → (serve json (heard ms (lost terminated err ∷ []))).1
      ≡ some (read_failure (terminated || announces ms) err)
serve-lost json ms terminated err =
    serve-heard json ms (lost terminated err ∷ []) ∙ end_choice (announces ms) terminated err

read_failure_iff :
    (b : Bool) (err : Text) → (some (read_failure b err) ≡ some session_terminated) ↔ (b ≡ true)
read_failure_iff true err = (λ h. refl, λ h. refl)
read_failure_iff false err = (λ h. cc, λ h. cc)

-- The relay's kill-switch is heard in either form, and nothing else is taken for one: a session whose
-- messages come in time, and whose connection is then closed with some code, ends as terminated exactly
-- if the code is 4402 or a `session_terminated` message came before, so that no other close keeps the
-- client from coming back.
pub serve-closing_iff :
    {s : Socket} {timeout_text : Text} (ws : IsDeadlined s timeout_text) (json : InboundJson)
    (now last : ℕ) (ms : List Timed) (time close_code : ℕ) (err : Text) (later : List Arrival)
    → IsTimely s last ms
    → time ≤ last_of last ms + read_timeout
    → ((serve json (
          read_all s now
            (last + read_timeout)
            (arrivals_of ms ++ closing time close_code err ∷ later))).1
        ≡ some session_terminated)
      ↔ ((close_code == close_code_session_terminated || announces ms) ≡ true)
unfolding is_session_terminated_close
serve-closing_iff ws json now last ms time close_code err later timely soon =
    rw
      (ap (λ i. (serve json i).1)
          (read_all-broken ws now last ms time (closed_with close_code err) later timely soon)
        ∙ serve-lost json ms (close_code == close_code_session_terminated) err)
      (read_failure_iff (close_code == close_code_session_terminated || announces ms) err)

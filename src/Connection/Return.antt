-- ===== src/Connection/Return.antt =====
-- The reconnects of `runForever` in client/main.go over what the connections of its sessions carry.
use claude_distant.Common.{
  Bool, List, Option, [], ap, append-nil, false, if◌then◌else◌, inl, inr, ltb, lt→ltb, none, refl,
  some, suc, sym, true, ℕ, ◌++◌, ◌+◌, ◌<◌, ◌==◌, ◌||◌, ◌∙◌, ◌∷◌, ◌≡◌, ◌≤◌,
}
use claude_distant.Connection.{
  Arrival, ReadError, Socket, closed_with, error_text, failed_with, is_session_terminated_close,
  read_all, read_timeout,
}
use claude_distant.Connection.Deadline.{
  IsDeadlined, IsTimely, Timed, announces, arrivals_of, heard, last_of, read_all-heard,
  read_all_late,
}
use claude_distant.Connection.KillSwitch.{read_all-broken, serve-lost}
use claude_distant.Protocol.{Message}
use claude_distant.Session.{
  Inbound, InboundJson, SessionEnd, lost, read_failure, run_session, serve, with_effect,
}
use claude_distant.Session.Pace.{sessions_in}
use claude_distant.Session.Reconnect.{
  LoopResult, Round, after_session, killed_by_relay, min_backoff, next_backoff, run_forever,
  run_round, run_rounds, still_running, wait_for,
}
use claude_distant.Text.{Text, codes}

-- A round's way to the relay: it cannot be reached, the registration cannot be written, or the session
-- reads messages and ends: by a read that fails, by a message that is no JSON, or because nothing comes
-- any more for ninety seconds, which are over at the time of the last.
pub data Visit : Type 0 where
  unreachable unregistered : Text → Visit
  broken_off : (opened : ℕ) → List Timed → (time : ℕ) → ReadError → Visit
  garbled : (opened : ℕ) → List Timed → (time : ℕ) → (payload err : Text) → Visit
  fell_silent : (opened : ℕ) → List Timed → (now : ℕ) → Visit

-- Whether an error is the relay's last word: the close code 4402, and nothing else.
abbrev pub is_last_word : ReadError → Bool
is_last_word (closed_with close_code err) = close_code == 4402
is_last_word (failed_with err) = false

-- Whether the relay ends the session for good.
abbrev pub is_final : Visit → Bool
is_final (unreachable err) = false
is_final (unregistered err) = false
is_final (broken_off opened ms time e) = is_last_word e || announces ms
is_final (garbled opened ms time payload err) = false || announces ms
is_final (fell_silent opened ms now) = false || announces ms

-- The sessions up to the first that the relay ends for good, that one included.
abbrev pub sessions_until : List Visit → ℕ
sessions_until [] = 0
sessions_until (v ∷ visits) = if is_final v then 1 else suc (sessions_until visits)

abbrev pub some_final : List Visit → Bool
some_final [] = false
some_final (v ∷ visits) = is_final v || some_final visits

-- How the session of a visit ends.
abbrev pub end_of : Socket → InboundJson → Message → Visit → Option SessionEnd
end_of s json register (unreachable err) = (run_session json (some err) none register []).1
end_of s json register (unregistered err) = (run_session json none (some err) register []).1
end_of s json register (broken_off opened ms time e) =
    (run_session json none none register (
      read_all s time (opened + read_timeout)
        (arrivals_of ms ++ record { time = time; frame = inl e } ∷ []))).1
end_of s json register (garbled opened ms time payload err) =
    (run_session json none none register (
      read_all s time (opened + read_timeout)
        (arrivals_of ms ++ record { time = time; frame = inr payload } ∷ []))).1
end_of s json register (fell_silent opened ms now) =
    (run_session json none none register
      (read_all s now (opened + read_timeout) (arrivals_of ms))).1

-- What comes, comes in time, and a silence lasts longer than that.
abbrev pub IsPrompt : Socket → Visit → Type 0
IsPrompt s (unreachable err) = Unit
IsPrompt s (unregistered err) = Unit
IsPrompt s (broken_off opened ms time e) =
    IsTimely s opened ms × (time ≤ last_of opened ms + read_timeout)
IsPrompt s (garbled opened ms time payload err) =
    IsTimely s opened ms
    × (time ≤ last_of opened ms + read_timeout)
    × (s.unmarshal_envelope payload ≡ inl err)
IsPrompt s (fell_silent opened ms now) =
    IsTimely s opened ms × (last_of opened ms + read_timeout < now)

-- The rounds of a client that nobody stops, visit by visit.
pub data AreRounds (s : Socket) (json : InboundJson) (register : Message)
    : List Visit → List Round → Type 0 where
  no_rounds : AreRounds s json register [] []
  next_round :
      {v : Visit} {visits : List Visit} {r : Round} {rounds : List Round}
      → IsPrompt s v
      → some r.session ≡ end_of s json register v
      → r.done_before ≡ false
      → r.done_after ≡ false
      → r.done_waiting ≡ false
      → AreRounds s json register visits rounds
      → AreRounds s json register (v ∷ visits) (r ∷ rounds)

-- What the client says of a session that is not ended for good.
abbrev error_of : Text → Visit → Text
error_of timeout_text (unreachable err) = err
error_of timeout_text (unregistered err) = codes "envoi register: " ++ err
error_of timeout_text (broken_off opened ms time e) = error_text e
error_of timeout_text (garbled opened ms time payload err) = codes "décodage message: " ++ err
error_of timeout_text (fell_silent opened ms now) = timeout_text

last_word : (e : ReadError) → is_session_terminated_close e ≡ is_last_word e
unfolding is_session_terminated_close
last_word (closed_with close_code err) = refl
last_word (failed_with err) = refl

module _ {s : Socket} {timeout_text : Text} (ws : IsDeadlined s timeout_text) (json : InboundJson)
    (register : Message) where
  session_end :
      (ms : List Timed) (terminated : Bool) (err : Text) (inbox : List Inbound)
      → inbox ≡ heard ms (lost terminated err ∷ [])
      → (run_session json none none register inbox).1
        ≡ some (read_failure (terminated || announces ms) err)
  unfolding run_session with_effect
  session_end ms terminated err inbox h =
      ap (λ i. (serve json i).1) h ∙ serve-lost json ms terminated err

  end_of-failure :
      (v : Visit)
      → IsPrompt s v
      → end_of s json register v ≡ some (read_failure (is_final v) (error_of timeout_text v))
  unfolding run_session read_all
  end_of-failure (unreachable err) prompt = refl
  end_of-failure (unregistered err) prompt = refl
  end_of-failure (broken_off opened ms time e) prompt =
      session_end ms (is_last_word e) (error_text e) _ (
        read_all-broken ws time opened ms time e [] prompt.0 prompt.1
        ∙ ap (λ b. heard ms (lost b (error_text e) ∷ [])) (last_word e))
  end_of-failure (garbled opened ms time payload err) prompt =
      let a : Arrival = record { time = time; frame = inr payload } in
      session_end ms false (codes "décodage message: " ++ err) _ (
        read_all-heard ws time opened ms (a ∷ []) prompt.0
        ∙ ap (heard ms) (
            rw (ws.in_time (last_of opened ms + read_timeout) a prompt.1)
              (rw (ws.settable (time + read_timeout)) (rw prompt.2 refl))))
  end_of-failure (fell_silent opened ms now) prompt =
      let over : ltb (last_of opened ms + read_timeout) now ≡ true = lt→ltb _ now prompt.1 in
      session_end ms false timeout_text _ (
        ap (read_all s now (opened + read_timeout)) (sym (append-nil (arrivals_of ms)))
        ∙ read_all-heard ws now opened ms [] prompt.0
        ∙ ap (heard ms) (read_all_late ws now (last_of opened ms) [] tt ∙ rw over refl))

-- What the loop makes of the rounds that follow.
abbrev Returns : List Visit → LoopResult → Type 0
Returns visits l =
    (sessions_in l.0 ≡ sessions_until visits)
    × (l.1 ≡ (if some_final visits then killed_by_relay else still_running))

round-Returns :
    (final : Bool) (err : Text) (visits : List Visit) (backoff : ℕ) (r : Round) (later : LoopResult)
    → r.session ≡ read_failure final err
    → r.done_before ≡ false
    → r.done_after ≡ false
    → r.done_waiting ≡ false
    → Returns visits later
    → let l = run_round r.done_before backoff r later in
      (sessions_in l.0 ≡ (if final then 1 else suc (sessions_until visits)))
      × (l.1 ≡ (if final || some_final visits then killed_by_relay else still_running))
unfolding run_round after_session wait_for
round-Returns true err visits backoff r later e before after waiting h =
    rw (before, after, e) (refl, refl)
round-Returns false err visits backoff r later e before after waiting h =
    rw (before, after, e, waiting) (ap suc h.0, h.1)

rounds-Returns :
    {s : Socket} {timeout_text : Text} (ws : IsDeadlined s timeout_text) (json : InboundJson)
    (register : Message) (backoff : ℕ) (visits : List Visit) (rounds : List Round)
    → AreRounds s json register visits rounds
    → Returns visits (run_rounds backoff rounds)
unfolding run_rounds
rounds-Returns ws json register backoff [] [] no_rounds = (refl, refl)
rounds-Returns ws json register backoff [] (r ∷ rounds) h = elim h [ ]
rounds-Returns ws json register backoff (v ∷ visits) [] h = elim h [ ]
rounds-Returns {timeout_text = timeout_text} ws json register backoff (v ∷ visits) (r ∷ rounds)
      (next_round prompt end before after waiting more) =
    round-Returns (is_final v) (error_of timeout_text v) visits backoff r _
      (cc (end, end_of-failure ws json register v prompt)) before after waiting
      (rounds-Returns ws json register (next_backoff backoff) visits rounds more)

-- The client comes back to a relay that it lost, and never after a kill-switch. While nobody stops it, and
-- whether the relay cannot be reached, cannot be registered with, breaks a connection off, sends what is
-- no JSON or falls silent for more than ninety seconds, it runs one session for each round up to the first
-- that the relay ends with the close code 4402 or behind a `session_terminated` message; there it stops
-- for good, and without such a round it is still running.
pub run_forever_returns :
    {s : Socket} {timeout_text : Text} (ws : IsDeadlined s timeout_text) (json : InboundJson)
    (register : Message) (visits : List Visit) (rounds : List Round)
    → AreRounds s json register visits rounds
    → (sessions_in (run_forever rounds).0 ≡ sessions_until visits)
      × ((run_forever rounds).1 ≡ (if some_final visits then killed_by_relay else still_running))
unfolding run_forever
run_forever_returns ws json register visits rounds =
    rounds-Returns ws json register min_backoff visits rounds

-- ===== src/Tests/Returns.antt =====
-- A run of the reconnects over what the connections carry.
use claude_distant.Common.{List, [], arith, false, if◌then◌else◌, refl, ◌+◌, ◌∷◌, ◌≡◌}
use claude_distant.Connection.{
  closed_with, failed_with, is_session_terminated_close, read_all, read_timeout,
}
use claude_distant.Connection.Return.{
  AreRounds, Visit, broken_off, fell_silent, garbled, next_round, no_rounds, run_forever_returns,
  sessions_until, some_final, unreachable, unregistered,
}
use claude_distant.Protocol.{heartbeat_message}
use claude_distant.Protocol.Decode.{decode_envelope, inbound_json_of}
use claude_distant.Session.{SessionEnd, run_session, session_failed, session_terminated}
use claude_distant.Session.Pace.{sessions_in}
use claude_distant.Session.Reconnect.{Round, killed_by_relay, run_forever, still_running}
use claude_distant.Tests.Connections.{
  ack_known, few_texts, one_ack, shape_of, wire, wire-IsDeadlined,
}
use claude_distant.Text.{codes}

-- The relay is away at first, then loses the connection, and then ends the session for good.
abbrev visits : List Visit
visits =
    unreachable (codes "refused")
    ∷ broken_off 0 one_ack 60 (failed_with (codes "reset"))
    ∷ fell_silent 0 one_ack (50 + read_timeout + 1)
    ∷ garbled 0 one_ack 60 (codes "?") (codes "invalid character")
    ∷ unregistered (codes "EOF")
    ∷ broken_off 0 one_ack 60 (closed_with 4402 (codes "close 4402"))
    ∷ unreachable (codes "refused")
    ∷ []

abbrev round_with : SessionEnd → Round
round_with end = record {
  done_before = false;
  session = end;
  done_after = false;
  random = λ n. 0;
  done_waiting = false;
}

abbrev visit_rounds : List Round
visit_rounds =
    round_with (session_failed (codes "refused"))
    ∷ round_with (session_failed (codes "reset"))
    ∷ round_with (session_failed (codes "i/o timeout"))
    ∷ round_with (session_failed (codes "décodage message: invalid character"))
    ∷ round_with (session_failed (codes "envoi register: EOF"))
    ∷ round_with session_terminated
    ∷ round_with (session_failed (codes "refused"))
    ∷ []

visit_rounds-AreRounds :
    AreRounds wire (inbound_json_of few_texts) heartbeat_message visits visit_rounds
unfolding run_session read_all decode_envelope shape_of is_session_terminated_close
visit_rounds-AreRounds = next_round tt refl refl refl refl (
    next_round ((ack_known, omega arith, tt), omega arith) refl refl refl refl
      (next_round ((ack_known, omega arith, tt), omega arith) refl refl refl refl
        (next_round ((ack_known, omega arith, tt), omega arith, refl) refl refl refl refl
          (next_round tt refl refl refl refl (
            next_round ((ack_known, omega arith, tt), omega arith) refl refl refl refl
              (next_round tt refl refl refl refl no_rounds))))))

run_forever_returns_example :
    (sessions_in (run_forever visit_rounds).0 ≡ sessions_until visits)
    × ((run_forever visit_rounds).1
        ≡ (if some_final visits then killed_by_relay else still_running))
run_forever_returns_example =
    run_forever_returns wire-IsDeadlined (inbound_json_of few_texts) heartbeat_message visits
      visit_rounds visit_rounds-AreRounds

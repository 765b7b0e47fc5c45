-- ===== src/Connection/Heartbeat.antt =====
-- `heartbeatLoop` of client/main.go, and what it does for the read deadline of client/wsconn.go.
use claude_distant.Common.{List, Option, [], inr, none, some, suc, zero, ℕ, ◌*◌, ◌+◌, ◌<◌, ◌∷◌, ◌≤◌}
use claude_distant.Connection.{Arrival}
use claude_distant.Executor.Timeout.{second}
use claude_distant.Protocol.{Message, new_heartbeat_message, type_heartbeat_ack}
use claude_distant.Session.{Inbound, received}
use claude_distant.Text.{Text}

abbrev pub heartbeat_interval : ℕ
heartbeat_interval = 20 * second

-- What the `select` of the loop takes.
pub data Tick : Type 0 where
  tick_came cancelled : Tick

-- A heartbeat that was written, and when.
pub record Beat : Type 0 where
  pub sent : ℕ
  pub message : Message

-- `heartbeatLoop`, from the time of the last tick, or of the start of the ticker.
unfoldable pub heartbeat_loop : ℕ → List Tick → List Beat
heartbeat_loop now [] = []
heartbeat_loop now (cancelled ∷ ticks) = []
heartbeat_loop now (tick_came ∷ ticks) =
    let now' = now + heartbeat_interval in
    record { sent = now'; message = new_heartbeat_message } ∷ heartbeat_loop now' ticks

-- A ticker that nobody stops, for as many ticks as there are answers.
abbrev pub ticks_for : List (Option ℕ) → List Tick
ticks_for [] = []
ticks_for (answer ∷ answers) = tick_came ∷ ticks_for answers

-- What the relay makes of each heartbeat that it gets: an answer that comes after a while, or none.
abbrev pub acks_of : Text → List Beat → List (Option ℕ) → List Arrival
acks_of ack [] answers = []
acks_of ack (b ∷ beats) [] = []
acks_of ack (b ∷ beats) (none ∷ answers) = acks_of ack beats answers
acks_of ack (b ∷ beats) (some delay ∷ answers) =
    record { time = b.sent + delay; frame = inr ack } ∷ acks_of ack beats answers

-- No more than three heartbeats on end are lost, and every answer comes within ten seconds; `missed`
-- is how many on end were lost so far.
abbrev pub IsResponsive : ℕ → List (Option ℕ) → Type 0
IsResponsive missed [] = Unit
IsResponsive missed (none ∷ answers) = (missed < 3) × IsResponsive (suc missed) answers
IsResponsive missed (some delay ∷ answers) = (delay ≤ 10 * second) × IsResponsive 0 answers

-- How many of the heartbeats are answered.
abbrev pub answered : List (Option ℕ) → ℕ
answered [] = 0
answered (none ∷ answers) = answered answers
answered (some delay ∷ answers) = suc (answered answers)

-- That many answers, read.
abbrev pub acks_read : Text → ℕ → List Inbound
acks_read ack zero = []
acks_read ack (suc n) = received type_heartbeat_ack ack ∷ acks_read ack n

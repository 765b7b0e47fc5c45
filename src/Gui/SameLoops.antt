-- ===== src/Gui/SameLoops.antt =====
-- The window's loops of client/gui.go do what the console's loops of client/main.go do.
use claude_distant.Common.{Bool, List, Option, [], ap, false, none, refl, some, true, ℕ, ◌∷◌, ◌≡◌}
use claude_distant.Gui.Connection.{
  GuiEffect, GuiLoop, behind_effects, gui_after_end, gui_after_session, gui_on_command,
  gui_on_registered, gui_run_forever, gui_run_round, gui_run_rounds, gui_run_session, gui_serve,
  gui_started_handle, gui_wait_for, gui_waited,
}
use claude_distant.Protocol.{
  CommandMessage, Message, type_command, type_heartbeat_ack, type_other, type_registered,
  type_session_terminated,
}
use claude_distant.Session.{
  Inbound, InboundJson, SessionEnd, SessionResult, handles, lost, on_command, on_registered,
  received, run_session, serve, session_failed, session_terminated, with_effect,
}
use claude_distant.Session.Pace.{waits}
use claude_distant.Session.Reconnect.{
  LoopResult, Round, after_session, jitter, min_backoff, next_backoff, run_forever, run_round,
  run_rounds, wait_for,
}
use claude_distant.Text.{Text}

-- The commands that a session of the window starts.
abbrev pub gui_handles : List GuiEffect → List CommandMessage
gui_handles [] = []
gui_handles (gui_started_handle cmd ∷ xs) = cmd ∷ gui_handles xs
gui_handles (_ ∷ xs) = gui_handles xs

-- The waits of the window's loop.
abbrev pub gui_waits : List GuiEffect → List ℕ
gui_waits [] = []
gui_waits (gui_waited d ∷ xs) = d ∷ gui_waits xs
gui_waits (_ ∷ xs) = gui_waits xs

-- A session of the window and one of the console have started the same commands and end alike.
abbrev pub SameSession : List GuiEffect × Option SessionEnd → SessionResult → Type 0
SameSession g s = (gui_handles g.0 ≡ handles s.0) × (g.1 ≡ s.1)

registered_same :
    (o : Option Text) (g : List GuiEffect × Option SessionEnd) (s : SessionResult)
    → SameSession g s
    → SameSession (behind_effects (gui_on_registered o) g) (with_effect (on_registered o) s)
unfolding with_effect
registered_same none g s h = h
registered_same (some c) g s h = h

command_same :
    (o : Option CommandMessage) (g : List GuiEffect × Option SessionEnd) (s : SessionResult)
    → SameSession g s
    → SameSession (behind_effects (gui_on_command o ∷ []) g) (with_effect (some (on_command o)) s)
unfolding with_effect
command_same none g s h = h
command_same (some cmd) g s h = (ap (◌∷◌ cmd) h.0, h.1)

serve_same :
    (json : InboundJson) (inbox : List Inbound)
    → SameSession (gui_serve json inbox) (serve json inbox)
unfolding gui_serve serve
serve_same json [] = (refl, refl)
serve_same json (lost terminated err ∷ inbox) = (refl, refl)
serve_same json (received type_session_terminated payload ∷ inbox) = (refl, refl)
serve_same json (received type_registered payload ∷ inbox) =
    registered_same (json.unmarshal_registered payload) _ _ (serve_same json inbox)
serve_same json (received type_command payload ∷ inbox) =
    command_same (json.unmarshal_command payload) _ _ (serve_same json inbox)
serve_same json (received type_heartbeat_ack payload ∷ inbox) = serve_same json inbox
serve_same json (received (type_other name) payload ∷ inbox) =
    unfold with_effect in serve_same json inbox

-- The window and the console serve a connection alike: with the same errors of the dial and of the
-- registration, and the same messages, they start the same commands in the same order, and their
-- sessions end in the same way, the kill-switch included.
pub gui_run_session_same :
    (json : InboundJson) (host goos : Text) (dial_error register_error : Option Text)
    (register : Message) (inbox : List Inbound)
    → SameSession
        (gui_run_session json host goos dial_error register_error register inbox)
        (run_session json dial_error register_error register inbox)
unfolding gui_run_session run_session
gui_run_session_same json host goos (some err) register_error register inbox = (refl, refl)
gui_run_session_same json host goos none (some err) register inbox = (refl, refl)
gui_run_session_same json host goos none none register inbox =
    unfold with_effect in serve_same json inbox

abbrev pub SameLoop : GuiLoop → LoopResult → Type 0
SameLoop g l = (gui_waits g.0 ≡ waits l.0) × (g.1 ≡ l.1)

wait_same :
    (done_waiting : Bool) (d : ℕ) (g : GuiLoop) (l : LoopResult)
    → SameLoop g l
    → SameLoop (gui_wait_for done_waiting d g) (wait_for done_waiting d l)
unfolding gui_wait_for wait_for
wait_same true d g l h = (refl, refl)
wait_same false d g l h = (ap (◌∷◌ d) h.0, h.1)

after_same :
    (done_after : Bool) (end : SessionEnd) (backoff : ℕ) (r : Round) (g : GuiLoop) (l : LoopResult)
    → SameLoop g l
    → SameLoop
        (gui_after_session done_after end backoff r g)
        (after_session done_after end backoff r l)
unfolding gui_after_session gui_after_end after_session
after_same true end backoff r g l h = (refl, refl)
after_same false session_terminated backoff r g l h = (refl, refl)
after_same false (session_failed err) backoff r g l h =
    wait_same r.done_waiting (jitter r.random backoff) g l h

round_same :
    (done_before : Bool) (backoff : ℕ) (r : Round) (g : GuiLoop) (l : LoopResult)
    → SameLoop g l
    → SameLoop (gui_run_round done_before backoff r g) (run_round done_before backoff r l)
unfolding gui_run_round run_round
round_same true backoff r g l h = (refl, refl)
round_same false backoff r g l h = after_same r.done_after r.session backoff r g l h

rounds_same :
    (backoff : ℕ) (rounds : List Round)
    → SameLoop (gui_run_rounds backoff rounds) (run_rounds backoff rounds)
unfolding gui_run_rounds run_rounds
rounds_same backoff [] = (refl, refl)
rounds_same backoff (r ∷ rounds) =
    round_same r.done_before backoff r _ _ (rounds_same (next_backoff backoff) rounds)

-- The window reconnects as the console does: over the same rounds it waits the same times and stops for
-- the same reason, so that its kill-switch is as final.
pub gui_run_forever_same :
    (rounds : List Round) → SameLoop (gui_run_forever rounds) (run_forever rounds)
unfolding gui_run_forever run_forever
gui_run_forever_same rounds = rounds_same min_backoff rounds

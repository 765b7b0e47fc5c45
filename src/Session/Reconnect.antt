-- ===== src/Session/Reconnect.antt =====
-- `runForever` and `jitter` of client/main.go: the reconnects. (`guiRunForever` of client/gui.go has
-- the same loop.) A duration is a number of nanoseconds.
use claude_distant.Common.{
  Bool, List, [], ap, false, if◌then◌else◌, ltb, refl, true, ℕ, ◌*◌, ◌++◌, ◌+◌, ◌/◌, ◌==◌, ◌∷◌, ◌≡◌,
}
use claude_distant.Executor.Timeout.{second}
use claude_distant.Session.{SessionEnd, session_failed, session_terminated}
use claude_distant.Text.{Text}

abbrev pub min_backoff : ℕ
min_backoff = 1 * second

abbrev pub max_backoff : ℕ
max_backoff = 30 * second

-- `jitter`; `random` is `rand.Int63n`.
unfoldable pub jitter : (ℕ → ℕ) → ℕ → ℕ
jitter random d = let half = d / 2 in if half == 0 then d else half + random half

-- The doubling and its cap.
unfoldable pub next_backoff : ℕ → ℕ
next_backoff backoff =
    let doubled = backoff * 2 in if ltb max_backoff doubled then max_backoff else doubled

-- One round: whether the context is done before it, how the session ends and whether the context is
-- done then, what the generator draws, and whether the context ends while the loop waits.
pub record Round : Type 0 where
  pub done_before : Bool
  pub session : SessionEnd
  pub done_after : Bool
  pub random : ℕ → ℕ
  pub done_waiting : Bool

-- Why the loop returned; `still_running` is a loop that wants another round.
pub data Stop : Type 0 where
  context_cancelled killed_by_relay still_running : Stop

pub data LoopEffect : Type 0 where
  ran_session : LoopEffect
  reported_loss : Text → ℕ → LoopEffect
  waited : ℕ → LoopEffect

abbrev pub LoopResult : Type 0
LoopResult = List LoopEffect × Stop

abbrev pub then_do : LoopEffect → LoopResult → LoopResult
then_do x (xs, stop) = (x ∷ xs, stop)

-- The `select` on the wait.
unfoldable pub wait_for : Bool → ℕ → LoopResult → LoopResult
wait_for true d later = ([], context_cancelled)
wait_for false d later = then_do (waited d) later

-- Behind the session, with the backoff of this round and the rounds that follow it.
unfoldable pub after_session : Bool → SessionEnd → ℕ → Round → LoopResult → LoopResult
unfolding wait_for
after_session true end backoff r later = ([], context_cancelled)
after_session false session_terminated backoff r later = ([], killed_by_relay)
after_session false (session_failed err) backoff r later =
    then_do (reported_loss err backoff) (wait_for r.done_waiting (jitter r.random backoff) later)

unfoldable pub run_round : Bool → ℕ → Round → LoopResult → LoopResult
unfolding after_session
run_round true backoff r later = ([], context_cancelled)
run_round false backoff r later =
    then_do ran_session (after_session r.done_after r.session backoff r later)

-- `runForever`, over the rounds that come, with the backoff of the first.
unfoldable pub run_rounds : ℕ → List Round → LoopResult
unfolding run_round
run_rounds backoff [] = ([], still_running)
run_rounds backoff (r ∷ rounds) =
    run_round r.done_before backoff r (run_rounds (next_backoff backoff) rounds)

unfoldable pub run_forever : List Round → LoopResult
unfolding run_rounds
run_forever = run_rounds min_backoff

killed_round :
    (done_before done_after : Bool) (end : SessionEnd) (backoff : ℕ) (r : Round)
    (later later' : LoopResult)
    → end ≡ session_terminated
    → (run_round done_before backoff (record r { session = end; done_after = done_after }) later)
      ≡ run_round done_before backoff (record r { session = end; done_after = done_after }) later'
unfolding run_round after_session
killed_round true done_after end backoff r later later' h = refl
killed_round false true end backoff r later later' h = refl
killed_round false false session_terminated backoff r later later' h = refl
killed_round false false (session_failed err) backoff r later later' h = cc

run_rounds_final :
    (backoff : ℕ) (before : List Round) (r : Round) (later : List Round)
    → r.session ≡ session_terminated
    → run_rounds backoff (before ++ r ∷ later) ≡ run_rounds backoff (before ++ r ∷ [])
unfolding run_rounds
run_rounds_final backoff [] r later h =
    killed_round r.done_before r.done_after r.session backoff r _ _ h
run_rounds_final backoff (b ∷ before) r later h =
    ap (run_round b.done_before backoff b)
      (run_rounds_final (next_backoff backoff) before r later h)

-- The kill-switch is final: once a session ends by it, the loop does nothing more, whatever rounds
-- could follow, so that the client never comes back by itself.
run_forever_final :
    (before : List Round) (r : Round) (later : List Round)
    → r.session ≡ session_terminated
    → run_forever (before ++ r ∷ later) ≡ run_forever (before ++ r ∷ [])
unfolding run_forever
run_forever_final = run_rounds_final min_backoff

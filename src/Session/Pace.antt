-- ===== src/Session/Pace.antt =====
-- How long `runForever` of client/main.go waits between its sessions.
use native.Mathlib.Nat.{pow-suc}
use claude_distant.Common.{
  All, Bool, List, [], ap, arith, false, if◌then◌else◌, min, not, refl, subst, suc, sym, true, zero,
  ℕ, ◌&&◌, ◌*◌, ◌/◌, ◌<◌, ◌^◌, ◌∷◌, ◌≡◌, ◌≤◌,
}
use claude_distant.Executor.Timeout.{second}
use claude_distant.Session.{SessionEnd, session_failed, session_terminated}
use claude_distant.Session.Reconnect.{
  LoopEffect, LoopResult, Round, after_session, jitter, max_backoff, min_backoff, next_backoff,
  ran_session, reported_loss, run_forever, run_round, run_rounds, wait_for, waited,
}

-- The backoff of each round: a second, doubled each time, up to thirty seconds.
abbrev pub nominal : ℕ → ℕ
nominal i = min (2 ^ i * second) max_backoff

-- The waits of a loop, in order.
abbrev pub waits : List LoopEffect → List ℕ
waits [] = []
waits (waited d ∷ xs) = d ∷ waits xs
waits (_ ∷ xs) = waits xs

-- What the loop does from the round `i` on: a session; and if another one follows, then one report and
-- one wait stand between the two, and the wait is between a half and the whole of the round's backoff.
abbrev pub IsPaced : ℕ → List LoopEffect → Type 0
IsPaced i [] = Unit
IsPaced i (ran_session ∷ []) = Unit
IsPaced i (ran_session ∷ reported_loss err backoff ∷ []) = backoff ≡ nominal i
IsPaced i (ran_session ∷ reported_loss err backoff ∷ waited d ∷ xs) =
    (backoff ≡ nominal i) × (nominal i / 2 ≤ d) × (d < nominal i) × IsPaced (suc i) xs
IsPaced i _ = ⊥

-- The sessions that the loop ran.
abbrev pub sessions_in : List LoopEffect → ℕ
sessions_in [] = 0
sessions_in (ran_session ∷ xs) = suc (sessions_in xs)
sessions_in (reported_loss err d ∷ xs) = sessions_in xs
sessions_in (waited d ∷ xs) = sessions_in xs

-- Whether another round follows: the session did not end for good, and the context is not done behind it.
abbrev pub goes_on : SessionEnd → Bool → Bool → Bool
goes_on session_terminated done_after done_waiting = false
goes_on (session_failed err) done_after done_waiting = not done_after && not done_waiting

-- The sessions that are due: one for each round, up to the first that is stopped before its session, or
-- behind which no other follows.
abbrev pub sessions_due : List Round → ℕ
sessions_due [] = 0
sessions_due (r ∷ rounds) =
    if r.done_before
    then 0
    else if goes_on r.session r.done_after r.done_waiting
    then suc (sessions_due rounds)
    else 1

-- `rand.Int63n` draws a number below its argument.
abbrev pub IsRandom : Round → Type 0
IsRandom r = (n : ℕ) → 0 < n → r.random n < n

two_pow_pos : (i : ℕ) → 0 < 2 ^ i
two_pow_pos zero = omega arith
two_pow_pos (suc i) = omega (arith, pow-suc 2 i, two_pow_pos i)

nominal-suc : (i : ℕ) → next_backoff (nominal i) ≡ nominal (suc i)
unfolding next_backoff
nominal-suc i = ground (arith, pow-suc 2 i)

jitter_lem :
    (random : ℕ → ℕ) (d : ℕ)
    → second ≤ d
    → random (d / 2) < d / 2
    → (d / 2 ≤ jitter random d) × (jitter random d < d)
unfolding jitter
jitter_lem random d h k = ground arith

nominal_ge : (i : ℕ) → second ≤ nominal i
nominal_ge i = omega (arith, two_pow_pos i)

run_round-IsPaced :
    (i : ℕ) (done_before done_after done_waiting : Bool) (end : SessionEnd) (r : Round)
    (later : LoopResult)
    → IsRandom r
    → IsPaced (suc i) later.0
    → IsPaced i
        (run_round done_before
          (nominal i)
          (record r { session = end; done_after = done_after; done_waiting = done_waiting })
          later).0
unfolding run_round after_session wait_for
run_round-IsPaced i true done_after done_waiting end r later h p = tt
run_round-IsPaced i false true done_waiting end r later h p = tt
run_round-IsPaced i false false done_waiting session_terminated r later h p = tt
run_round-IsPaced i false false true (session_failed err) r later h p = refl
run_round-IsPaced i false false false (session_failed err) r later h p =
    let (low, high) =
      jitter_lem r.random (nominal i) (nominal_ge i)
        (h (nominal i / 2) (omega (arith, nominal_ge i))) in
    (refl, low, high, p)

run_rounds-IsPaced :
    (i : ℕ) (rounds : List Round)
    → All IsRandom rounds
    → IsPaced i (run_rounds (nominal i) rounds).0
unfolding run_rounds
run_rounds-IsPaced i [] h = tt
run_rounds-IsPaced i (r ∷ rounds) h =
    run_round-IsPaced i r.done_before r.done_after r.done_waiting r.session r _ h.0 (
      subst (λ b. IsPaced (suc i) (run_rounds b rounds).0) (sym (nominal-suc i))
        (run_rounds-IsPaced (suc i) rounds h.1))

run_round-sessions :
    (done_before done_after done_waiting : Bool) (end : SessionEnd) (backoff : ℕ) (r : Round)
    (later : LoopResult) (due : ℕ)
    → sessions_in later.0 ≡ due
    → sessions_in
        (run_round done_before backoff
          (record r { session = end; done_after = done_after; done_waiting = done_waiting })
          later).0
      ≡ (if done_before then 0 else if goes_on end done_after done_waiting then suc due else 1)
unfolding run_round after_session wait_for
run_round-sessions true done_after done_waiting end backoff r later due h = refl
run_round-sessions false true done_waiting session_terminated backoff r later due h = refl
run_round-sessions false true done_waiting (session_failed err) backoff r later due h = refl
run_round-sessions false false done_waiting session_terminated backoff r later due h = refl
run_round-sessions false false true (session_failed err) backoff r later due h = refl
run_round-sessions false false false (session_failed err) backoff r later due h = ap suc h

run_rounds-sessions :
    (backoff : ℕ) (rounds : List Round)
    → sessions_in (run_rounds backoff rounds).0 ≡ sessions_due rounds
unfolding run_rounds
run_rounds-sessions backoff [] = refl
run_rounds-sessions backoff (r ∷ rounds) =
    run_round-sessions r.done_before r.done_after r.done_waiting r.session backoff r _ _
      (run_rounds-sessions (next_backoff backoff) rounds)

-- However long the relay is away, the client tries again, and there is no storm of reconnects: the loop
-- runs a session for each round until it is stopped or told not to come back; between two sessions stand
-- one report of the loss and one wait; and if the generator draws below its bound, the wait behind the
-- round `i`, counted from 0, is at least half and less than the whole of `2 ^ i` seconds, or of thirty
-- seconds where that is less, which is what the report says.
pub run_forever-IsPaced :
    (rounds : List Round)
    → All IsRandom rounds
    → (sessions_in (run_forever rounds).0 ≡ sessions_due rounds) × IsPaced 0 (run_forever rounds).0
unfolding run_forever
run_forever-IsPaced rounds h =
    (run_rounds-sessions min_backoff rounds, run_rounds-IsPaced 0 rounds h)

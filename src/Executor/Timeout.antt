-- ===== src/Executor/Timeout.antt =====
-- The time limit of a command in `runShellOrCommand`, in nanoseconds and in 64 bits.
use claude_distant.Common.{
  arith, if◌then◌else◌, ltb, min, true, ℕ, ◌%◌, ◌*◌, ◌-◌, ◌<◌, ◌==◌, ◌^◌, ◌≡◌, ◌≤◌,
}
use claude_distant.Common.Int.{is_negative, is_positive, negsuc, pos, pos_part, ℤ}

abbrev pub second : ℕ
second = 10 ^ 9

-- `defaultCommandTimeout`, `maxCommandTimeout`
abbrev pub default_command_timeout : ℕ
default_command_timeout = 5 * 60 * second

abbrev pub max_command_timeout : ℕ
max_command_timeout = 30 * 60 * second

-- An `int64` by its bit pattern.
unfoldable pub int64 : ℕ → ℤ
int64 n = let r = n % 2 ^ 64 in if ltb r (2 ^ 63) then pos r else negsuc (2 ^ 64 - 1 - r)

-- `time.Duration(p.Timeout) * time.Second`, and the cap on it. The product wraps around.
unfoldable pub command_timeout : ℤ → ℤ
unfolding int64 is_positive
command_timeout (pos n) =
    if ltb 0 n
    then (let timeout = int64 (n * second) in
        if ltb max_command_timeout (pos_part timeout) then pos max_command_timeout else timeout)
    else pos default_command_timeout
command_timeout (negsuc n) = pos default_command_timeout

-- Below 2 ^ 63 nanoseconds the limit is the asked time, thirty minutes at most, and the default of
-- five minutes where none is asked for.
pub command_timeout_capped :
    (n : ℕ)
    → n * second < 2 ^ 63
    → command_timeout (pos n)
      ≡ pos (if n == 0 then default_command_timeout else min (n * second) max_command_timeout)
unfolding command_timeout
command_timeout_capped n h = ground arith

-- Past that the product wraps around before the cap is applied: for every time from 9223372037 to
-- 18446744073 seconds the limit is negative, so that the context has expired when it is made.
pub command_timeout_wraps :
    (n : ℕ) → 9223372037 ≤ n → n ≤ 18446744073 → is_negative (command_timeout (pos n)) ≡ true
unfolding command_timeout is_negative
command_timeout_wraps n h k = ground arith

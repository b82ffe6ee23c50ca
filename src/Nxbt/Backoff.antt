-- ===== src/Nxbt/Backoff.antt =====
-- playgate-host/internal/input/nxbt/target.go, `Run`: the delays between attempts to connect.
use playgate.Common.{List, [], ◌∷◌, All, arith}
use playgate.Common.Int.{ℤ, ◌≤ℤ◌, ◌+ℤ◌, add64, wrap64, of_bits}
use playgate.Nxbt.{
  Target, status_connecting, status_disconnected, emit_status, reconnect_base, reconnect_max,
  min_duration,
}

-- How an attempt goes: the dial fails, or a session is run until it ends.
pub data Attempt : Type 0 where
  dial_fails session_ends : Attempt

-- The delay after an attempt, and the backoff that it leaves.
unfoldable pub delay_of : ℤ → Attempt → ℤ
delay_of backoff dial_fails = backoff
delay_of backoff session_ends = reconnect_base

unfoldable pub next_backoff : ℤ → Attempt → ℤ
unfolding delay_of min_duration add64
next_backoff backoff a =
    let delay = delay_of backoff a in min_duration (add64 delay delay) reconnect_max

-- The loop of `Run` over attempts, until the context is cancelled: the target, and the delays.
unfoldable pub run_attempts :
    {Axis : Type 0} → Target Axis → ℤ → List Attempt → Target Axis × List ℤ
unfolding delay_of next_backoff emit_status
run_attempts t backoff [] = (emit_status t status_connecting, [])
run_attempts t backoff (a ∷ rest) =
    let waits = emit_status (emit_status t status_connecting) status_disconnected in
    let r = run_attempts waits (next_backoff backoff a) rest in (r.0, delay_of backoff a ∷ r.1)

-- `Run`.
unfoldable pub run : {Axis : Type 0} → Target Axis → List Attempt → Target Axis × List ℤ
unfolding run_attempts
run t attempts = run_attempts t reconnect_base attempts

abbrev pub InRange : ℤ → Type 0
InRange d = (reconnect_base ≤ℤ d) × (d ≤ℤ reconnect_max)

delay_of-InRange : (b : ℤ) (a : Attempt) → InRange b → InRange (delay_of b a)
unfolding delay_of
delay_of-InRange b dial_fails h = h
delay_of-InRange b session_ends h = (omega arith, omega arith)

double-InRange : (d : ℤ) → InRange d → InRange (min_duration (add64 d d) reconnect_max)
unfolding min_duration add64 wrap64 of_bits ◌+ℤ◌
double-InRange d h = ground arith

next_backoff-InRange : (b : ℤ) (a : Attempt) → InRange b → InRange (next_backoff b a)
unfolding next_backoff
next_backoff-InRange b a h = double-InRange (delay_of b a) (delay_of-InRange b a h)

run_attempts-InRange :
    {Axis : Type 0} (t : Target Axis) (b : ℤ) (attempts : List Attempt)
    → InRange b
    → All InRange (run_attempts t b attempts).1
unfolding run_attempts
run_attempts-InRange t b [] h = tt
run_attempts-InRange t b (a ∷ rest) h = (
  delay_of-InRange b a h,
  run_attempts-InRange (emit_status (emit_status t status_connecting) status_disconnected)
      (next_backoff b a) rest (next_backoff-InRange b a h),
)

-- Whatever the attempts, each delay is from half a second to thirty seconds.
run-InRange :
    {Axis : Type 0} (t : Target Axis) (attempts : List Attempt) → All InRange (run t attempts).1
unfolding run
run-InRange t attempts = run_attempts-InRange t reconnect_base attempts (omega arith, omega arith)

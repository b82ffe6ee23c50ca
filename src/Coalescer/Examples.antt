-- ===== src/Coalescer/Examples.antt =====
-- The limiter at 100 commands a second, with numbers for commands.
use playgate.Common.{ℕ, ◌+◌, ◌*◌, ◌≤◌, ◌≡◌, refl, none, some, [], ◌∷◌, if◌then◌else◌, arith}
use playgate.Common.Int.{pos, pos_part, ltb_ℤ}
use playgate.Common.Time.{time_sub, saturate}
use playgate.Coalescer.{
  Coalescer, interval_of, new_coalescer, push, is_limited, poll_with, poll, until_ready,
}
use playgate.Coalescer.Rate.{pushes, polls, run, sends_fit, until_ready-poll}

abbrev fresh : Coalescer ℕ
fresh = new_coalescer (pos 100)

abbrev start : ℕ
start = 63_000_000_000_000_000_000

run_open : ℕ
unfolding new_coalescer interval_of push is_limited poll_with poll
run_open = 0

-- One command sent, another pending.
abbrev busy : Coalescer ℕ
busy = push (poll (push fresh 1) start).0 2

sends_fit_example :
    (run fresh (pushes 1 ∷ polls start ∷ [])).1 * pos_part fresh.interval + fresh.last_sent
    ≤ (run fresh (pushes 1 ∷ polls start ∷ [])).0.last_sent
unfolding run_open
sends_fit_example = sends_fit fresh (pushes 1 ∷ polls start ∷ []) (omega arith)

until_ready-poll_example :
    (poll busy (start + 5)).1 ≡ (if ltb_ℤ (pos 5) (until_ready busy start) then none else some 2)
unfolding run_open time_sub saturate
until_ready-poll_example =
    until_ready-poll busy 2 start 5 refl (omega arith) (omega arith) (omega arith)

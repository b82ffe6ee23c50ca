-- ===== src/Nxbt/Examples.antt =====
-- A target at 100 commands a second, with numbers for axes.
use playgate.Common.{ℕ, ◌*◌, ◌+◌, ◌≤◌, ◌≡◌, refl, true, none, some, List, [], ◌∷◌, length, arith}
use playgate.Common.Int.{pos, add64, wrap64, of_bits, ◌+ℤ◌}
use playgate.Common.Channel.{offer}
use playgate.Coalescer.{Coalescer, new_coalescer}
use playgate.Nxbt.{Target, emit_status, min_duration}
use playgate.Nxbt.Flush.{Flushed, flush, flush-Ended}
use playgate.Nxbt.Backoff.{
  Attempt, dial_fails, session_ends, delay_of, next_backoff, run_attempts, run,
}

run_open : ℕ
unfolding emit_status min_duration delay_of next_backoff run_attempts run offer add64 wrap64 of_bits
    ◌+ℤ◌
run_open = 0

-- A command sent at 1 s, and another pending.
abbrev busy : Coalescer ℕ
busy = record {
  pending = some 2;
  interval = pos 10_000_000;
  last_sent = 1_000_000_000;
  notify = true;
}

abbrev clock : ℕ → ℕ
clock i = 1_000_000_001 + i * 20_000_000

flush-Ended_example : (r : Flushed ℕ) × (flush 3 busy clock 0 ≡ some r) × (length r.written ≤ 1)
flush-Ended_example =
    flush-Ended busy clock (omega arith) (omega arith) (λ i. omega arith) (λ i. omega arith)

abbrev target : Target ℕ
target = record {
  statuses = [];
  coalescer = new_coalescer (pos 100);
  latency = none;
  daemon_latency = none;
}

abbrev attempts : List Attempt
attempts = dial_fails ∷ dial_fails ∷ session_ends ∷ dial_fails ∷ []

delays :
    (run target attempts).1
    ≡ pos 500_000_000 ∷ pos 1_000_000_000 ∷ pos 500_000_000 ∷ pos 1_000_000_000 ∷ []
unfolding run_open
delays = refl

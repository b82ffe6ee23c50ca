-- ===== src/Metrics/Examples.antt =====
-- A histogram with three observations.
use playgate.Common.{ℕ, ◌≤◌, ◌<◌, ◌+◌, ◌*◌, ◌/◌, ◌≡◌, refl, List, [], ◌∷◌, ltb, leb, length, get_or}
use playgate.Common.Int.{ℤ, pos, pos_part, ◌≤ℤ◌}
use playgate.Common.Float.{Float64}
use playgate.Metrics.{
  new_histogram, observe, observe_all, samples_from, insert, sort, percentile, stats_of, snapshot,
  ring_size,
}
use playgate.Metrics.Window.{retained}
use playgate.Metrics.Maximum.{observe_all-snapshot}

abbrev milli : Float64
milli = record {
  Carrier = ℕ;
  lt = ltb;
  le = leb;
  mul = λ a b. a * b / 1000;
  of_int = λ n. pos_part n * 1000;
  to_int = λ x. pos (x / 1000);
  lit = λ m n. m * 1000 / n;
}

abbrev delays : List ℤ
delays = pos 30 ∷ pos 90 ∷ pos 20 ∷ []

run_open : ℕ
unfolding observe observe_all samples_from insert sort percentile stats_of snapshot
run_open = 0

summary :
    snapshot milli (observe_all new_histogram delays)
    ≡ record { count = 3; p50 = pos 30; p95 = pos 30; max = pos 90 }
unfolding run_open
summary = refl

observe_all-snapshot_example :
    ((snapshot milli (observe_all new_histogram delays)).count ≡ retained (length delays))
    × ((j : ℕ)
        → j < length delays
        → length delays ≤ j + ring_size
        → get_or delays j (pos 0) ≤ℤ pos 90)
unfolding run_open
observe_all-snapshot_example = observe_all-snapshot milli delays

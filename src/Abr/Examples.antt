-- ===== src/Abr/Examples.antt =====
-- The controller at concrete samples, with thousandths in place of `float64`.
use playgate.Common.{ℕ, ◌+◌, ◌*◌, ◌/◌, ◌≤◌, refl, ◌≢◌, List, [], ◌∷◌, arith, ltb, leb}
use playgate.Common.Int.{◌≤ℤ◌, pos, pos_part, add64, sub64, wrap64, ◌+ℤ◌, ◌-ℤ◌}
use playgate.Common.Time.{time_sub}
use playgate.Common.Float.{Float64}
use playgate.Abr.{
  Sample, Config, Controller, clamp, or_default, default_config, normalise, new, note_loss, commit,
  decide, observe, observe_all, increase,
}
use playgate.Abr.Bounds.{InBounds, observe_all-InBounds}
use playgate.Abr.Pace.{cooldowns_fit, count_changed}
use playgate.Abr.Direction.{observe_stalls}

abbrev milli : Float64
milli = record {
  Carrier = ℕ;
  lt = ltb;
  le = leb;
  mul = λ a b. a * b / 1000;
  of_int = λ n. pos_part n * 1000;
  to_int = λ x. pos (x / 1000);
  lit = λ m n. m * 1000 / n;
}

abbrev clean : Sample milli
clean = record { loss_fraction = 0; rtt = pos 0 }

abbrev lossy : Sample milli
lossy = record { loss_fraction = 200; rtt = pos 0 }

abbrev climb : List (Sample milli × ℕ)
climb = (clean, 1_000_000_000) ∷ []

run_open : ℕ
unfolding normalise new observe_all observe note_loss decide commit clamp or_default default_config
    time_sub add64 sub64 wrap64 ◌+ℤ◌ ◌-ℤ◌
run_open = 0

-- A controller with the default configuration that has seen one clean sample.
abbrev warm : Controller milli
warm = (observe_all (new default_config 0) climb).0

warm-InBounds : InBounds warm
warm-InBounds = observe_all-InBounds default_config 0 climb

cooldowns_fit_example :
    count_changed (observe_all warm ((clean, 11_000_000_000) ∷ (lossy, 12_000_000_000) ∷ [])).1
        * pos_part warm.cfg.cooldown
      + warm.last_change
    ≤ (observe_all warm ((clean, 11_000_000_000) ∷ (lossy, 12_000_000_000) ∷ [])).0.last_change
unfolding run_open
cooldowns_fit_example =
    cooldowns_fit warm ((clean, 11_000_000_000) ∷ (lossy, 12_000_000_000) ∷ []) (omega arith)

abbrev high_config : Config milli
high_config = let d : Config milli = default_config in record d { start = pos 5_500_000 }

observe_stalls_example :
    ((observe (new high_config 0) clean 11_000_000_000).0.target ≤ℤ (new high_config 0).target)
    × ((observe (new high_config 0) clean 11_000_000_000).1.reason ≢ increase)
unfolding run_open
observe_stalls_example =
    observe_stalls (new high_config 0) clean 11_000_000_000 (observe_all-InBounds high_config 0 [])
      (omega arith) (omega arith) refl (λ d x h k. ground arith)

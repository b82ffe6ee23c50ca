-- ===== src/Host/BitrateExamples.antt =====
-- The default configuration with adaptive bitrate on, with thousandths in place of `float64`.
use playgate.Common.{ℕ, ◌*◌, ◌/◌, ◌≡◌, refl, true, some, List, [], ◌∷◌, All, ltb, leb}
use playgate.Common.Int.{pos, pos_part, ◌≤ℤ◌}
use playgate.Common.Float.{Float64}
use playgate.Config.{
  HostConfig, default, validate_capture, validate_encoder, validate_audio, validate_abr,
  validate_rest, validate,
}
use playgate.Host.Sampling.{
  StatsEntry, remote_inbound, other_stats, AbrRunner, new_abr_runner, ticks,
}
use playgate.Host.Bitrates.{ticks-bounds}

abbrev milli : Float64
milli = record {
  Carrier = ℕ;
  lt = ltb;
  le = leb;
  mul = λ a b. a * b / 1000;
  of_int = λ n. pos_part n * 1000;
  to_int = λ x. pos (x / 1000);
  lit = λ m n. m * 1000 / n;
}

abbrev adaptive : HostConfig milli
adaptive =
    let c : HostConfig milli = default milli in record c { abr = record c.abr { enabled = true } }

abbrev reports : List (List (StatsEntry milli) × ℕ)
reports =
    (other_stats ∷ remote_inbound 200 (pos 5) ∷ [], 11_000_000_000) ∷ ([], 12_000_000_000) ∷ []

ticks-bounds_example :
    (r : AbrRunner milli) × (new_abr_runner adaptive 0 ≡ some r)
    × All (λ b. (pos 1_000_000 ≤ℤ b) × (b ≤ℤ pos 8_000_000)) (ticks r reports).applied
unfolding default validate_capture validate_encoder validate_audio validate_abr validate_rest
    validate
ticks-bounds_example = ticks-bounds adaptive 0 reports refl refl

-- ===== src/Host/Sampling.antt =====
-- playgate-host/internal/host/abr.go and playgate-host/internal/rtc/stats.go: the samples of the
-- connection's quality, their way to the bitrate controller, and from there to the encoder. The
-- library's statistics and the conversion of a time in seconds are parameters.
use playgate.Common.{
  ℕ, ◌*◌, Bool, true, false, not, ◌||◌, Option, none, some, List, [], ◌∷◌, ◌++◌, if◌then◌else◌,
}
use playgate.Common.Int.{ℤ, pos, leb_ℤ}
use playgate.Common.Time.{second, seconds, times_unit}
use playgate.Common.Float.{Float64}
use playgate.Config.{HostConfig}
use playgate.Abr.{Sample, Controller, Decision, new, observe}
use playgate.Abr as Abr

-- `StatsSample`.
pub record StatsSample (F : Float64) : Type 0 where
  pub loss_fraction : F.Carrier
  pub rtt : ℤ
  pub is_valid : Bool

-- A `RemoteInboundRTPStreamStats`, with its time as a duration, or another entry of the report.
pub data StatsEntry (F : Float64) : Type 0 where
  remote_inbound : F.Carrier → ℤ → StatsEntry F
  other_stats : StatsEntry F

unfoldable pub clamp_loss : (F : Float64) → F.Carrier → F.Carrier
clamp_loss F x =
    let low = if F.lt x (F.lit 0 1) then F.lit 0 1 else x in
    if F.lt (F.lit 1 1) low then F.lit 1 1 else low

-- `abrRunner`, with the bitrates that its encoder was given.
pub record AbrRunner (F : Float64) : Type 0 where
  pub ctrl : Controller F
  pub interval : ℤ
  pub applied : List ℤ

module _ {F : Float64} where
  open F use {lt, lit}

  unfoldable pub note_entry : StatsSample F → StatsEntry F → StatsSample F
  unfolding clamp_loss
  note_entry out other_stats = out
  note_entry out (remote_inbound fraction rtt) =
      let loss = clamp_loss F fraction in
      if not out.is_valid || lt out.loss_fraction loss
      then record { loss_fraction = loss; rtt = rtt; is_valid = true }
      else out

  unfoldable pub note_entries : StatsSample F → List (StatsEntry F) → StatsSample F
  unfolding note_entry
  note_entries out [] = out
  note_entries out (e ∷ es) = note_entries (note_entry out e) es

  -- `sampleFromReport`.
  unfoldable pub sample_from_report : List (StatsEntry F) → StatsSample F
  unfolding note_entries
  sample_from_report report =
      note_entries (record { loss_fraction = lit 0 1; rtt = pos 0; is_valid = false }) report

  -- `newABRRunnerWith`.
  unfoldable pub new_abr_runner_with : Controller F → ℤ → AbrRunner F
  new_abr_runner_with ctrl interval = record {
    ctrl = ctrl;
    interval = if leb_ℤ interval (pos 0) then pos (2 * second) else interval;
    applied = [];
  }

  -- The controller's configuration of `newABRRunner`.
  unfoldable pub abr_config : HostConfig F → Abr.Config F
  unfolding seconds
  abr_config c = record {
    min = c.abr.min_bitrate;
    max = c.abr.max_bitrate;
    start = c.encoder.bitrate;
    loss_threshold = c.abr.loss_threshold;
    decrease_factor = lit 0 1;
    increase_step = pos 0;
    cooldown = seconds c.abr.cooldown_seconds;
    clean_window = pos 0;
    min_change_fraction = lit 0 1;
  }

  -- `newABRRunner`.
  unfoldable pub new_abr_runner : HostConfig F → ℕ → Option (AbrRunner F)
  unfolding new_abr_runner_with abr_config times_unit
  new_abr_runner c now =
      let ms = times_unit 1_000_000 c.abr.sample_interval_ms in
      let interval = if leb_ℤ ms (pos 0) then pos (2 * second) else ms in
      if not c.abr.enabled
      then none
      else some (new_abr_runner_with (new (abr_config c) now) interval)

  unfoldable pub apply : AbrRunner F → Controller F × Decision → AbrRunner F
  apply r (ctrl, d) = record r {
    ctrl = ctrl;
    applied = if d.changed then r.applied ++ d.target ∷ [] else r.applied;
  }

  -- `tick`, on what `Stats` gives.
  unfoldable pub tick : AbrRunner F → StatsSample F → ℕ → AbrRunner F
  unfolding apply
  tick r s now =
      if not s.is_valid
      then r
      else apply r (observe r.ctrl (record { loss_fraction = s.loss_fraction; rtt = s.rtt }) now)

  unfoldable pub ticks : AbrRunner F → List (List (StatsEntry F) × ℕ) → AbrRunner F
  unfolding tick sample_from_report
  ticks r [] = r
  ticks r ((report, now) ∷ rest) = ticks (tick r (sample_from_report report) now) rest

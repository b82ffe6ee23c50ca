-- ===== src/Host/Bitrates.antt =====
-- The bitrates that the encoder is given, against the configuration.
use playgate.Common.{
  ℕ, ◌*◌, ◌≡◌, ◌∙◌, refl, sym, subst, ap, Bool, true, false, not, ◌||◌, some, List, [], ◌∷◌,
  if◌then◌else◌, if_cases, All, All-append, arith,
}
use playgate.Common.Int.{ℤ, pos, ◌≤ℤ◌, leb_ℤ, ltb_ℤ}
use playgate.Common.Time.{second, times_unit}
use playgate.Common.Float.{Float64}
use playgate.Common.Result.{Result, ok, err, guard, ◌>>◌}
use playgate.Config.{
  HostConfig, AbrConfig, validate, validate_abr, validate_capture, validate_encoder, validate_audio,
  validate_rest, abr_not_positive, abr_max_below_min, abr_loss_threshold,
}
use playgate.Abr.{Sample, Controller, Decision, new, observe}
use playgate.Abr.Bounds.{InBounds, new_range, new-InBounds, observe-InBounds}
use playgate.Abr.Pace.{observe-Paced}
use playgate.Host.Sampling.{
  StatsSample, StatsEntry, AbrRunner, sample_from_report, new_abr_runner_with, abr_config,
  new_abr_runner, apply, tick, ticks,
}

seq-ok : {E : Type 0} (m k : Result E (Unit {0})) → (m >> k) ≡ ok tt → (m ≡ ok tt) × (k ≡ ok tt)
seq-ok (ok tt) k e = (refl, e)
seq-ok (err x) k e = absurd cc

guard-ok : {E : Type 0} (b : Bool) (x : E) → guard b x ≡ ok tt → b ≡ true
guard-ok true x e = refl
guard-ok false x e = absurd cc

range_of :
    (lo hi : ℤ)
    → not (leb_ℤ lo (pos 0) || leb_ℤ hi (pos 0)) ≡ true
    → not (ltb_ℤ hi lo) ≡ true
    → (pos 1 ≤ℤ lo) × (lo ≤ℤ hi)
range_of lo hi p o = (ground arith, ground arith)

module _ {F : Float64} where
  -- The controller keeps to the bounds of a configuration, and so did all bitrates so far.
  record Bounded (c : AbrConfig F) (r : AbrRunner F) : Type 0 where
    pub in_bounds : InBounds r.ctrl
    pub min_same : r.ctrl.cfg.min ≡ c.min_bitrate
    pub max_same : r.ctrl.cfg.max ≡ c.max_bitrate
    pub all_applied : All (λ b. (c.min_bitrate ≤ℤ b) × (b ≤ℤ c.max_bitrate)) r.applied

  validate_abr-ok :
      (c : AbrConfig F)
      → c.enabled ≡ true
      → validate_abr c ≡ ok tt
      → (pos 1 ≤ℤ c.min_bitrate) × (c.min_bitrate ≤ℤ c.max_bitrate)
  unfolding validate_abr
  validate_abr-ok c on e =
      let positive = leb_ℤ c.min_bitrate (pos 0) || leb_ℤ c.max_bitrate (pos 0) in
      let bad_loss = F.lt c.loss_threshold (F.lit 0 1) || F.le (F.lit 1 1) c.loss_threshold in
      let checks =
        guard (not positive) abr_not_positive
        >> guard (not (ltb_ℤ c.max_bitrate c.min_bitrate)) abr_max_below_min in
      let all : (checks >> guard (not bad_loss) abr_loss_threshold) ≡ ok tt =
        sym
          (ap (λ b. if not b then ok tt else checks >> guard (not bad_loss) abr_loss_threshold) on)
        ∙ e in
      let two = seq-ok (guard (not positive) abr_not_positive) _ (seq-ok checks _ all).0 in
      range_of c.min_bitrate c.max_bitrate (guard-ok _ _ two.0) (guard-ok _ _ two.1)

  validate-abr : (c : HostConfig F) → validate c ≡ ok tt → validate_abr c.abr ≡ ok tt
  unfolding validate
  validate-abr c e =
      (seq-ok (validate_capture c.capture >> validate_encoder c.encoder >> validate_audio c.audio)
        (validate_abr c.abr) (seq-ok _ (validate_rest c) e).0).1

  new-Bounded :
      (c : HostConfig F) (now : ℕ) (interval : ℤ)
      → (pos 1 ≤ℤ c.abr.min_bitrate) × (c.abr.min_bitrate ≤ℤ c.abr.max_bitrate)
      → Bounded c.abr (new_abr_runner_with (new (abr_config c) now) interval)
  unfolding new_abr_runner_with abr_config
  new-Bounded c now interval h = record {
    in_bounds = new-InBounds (abr_config c) now;
    min_same = (new_range (abr_config c) now h.0 h.1).0;
    max_same = (new_range (abr_config c) now h.0 h.1).1;
    all_applied = tt;
  }

  apply-Bounded :
      (c : AbrConfig F) (r : AbrRunner F) (o : Controller F × Decision)
      → Bounded c r
      → InBounds o.0
      → o.1.target ≡ o.0.target
      → o.0.cfg ≡ r.ctrl.cfg
      → Bounded c (apply r o)
  unfolding apply
  apply-Bounded c r (ctrl, d) b i t same =
      let lo : ctrl.cfg.min ≡ c.min_bitrate = ap (λ k. k.min) same ∙ b.min_same in
      let hi : ctrl.cfg.max ≡ c.max_bitrate = ap (λ k. k.max) same ∙ b.max_same in
      record {
        in_bounds = i;
        min_same = lo;
        max_same = hi;
        all_applied =
            if_cases (All (λ b. (c.min_bitrate ≤ℤ b) × (b ≤ℤ c.max_bitrate))) d.changed _ r.applied
              (λ _. All-append _ r.applied (d.target ∷ []) b.all_applied (
                (
                  subst (λ x. c.min_bitrate ≤ℤ x) (sym t) (subst (λ x. x ≤ℤ ctrl.target) lo i.low),
                  subst (λ x. x ≤ℤ c.max_bitrate) (sym t) (subst (λ x. ctrl.target ≤ℤ x) hi i.high),
                ),
                tt,
              ))
              (λ _. b.all_applied);
      }

  tick-Bounded :
      (c : AbrConfig F) (r : AbrRunner F) (s : StatsSample F) (now : ℕ)
      → Bounded c r
      → Bounded c (tick r s now)
  unfolding tick
  tick-Bounded c r s now b =
      let sample : Sample F = record { loss_fraction = s.loss_fraction; rtt = s.rtt } in
      let paced = observe-Paced r.ctrl sample now b.in_bounds.normal.cooldown_pos in
      if_cases (Bounded c) (not s.is_valid) r _ (λ _. b)
        (λ _.
          apply-Bounded c r (observe r.ctrl sample now) b
            (observe-InBounds r.ctrl sample now b.in_bounds) paced.0 paced.1)

  ticks-Bounded :
      (c : AbrConfig F) (r : AbrRunner F) (ss : List (List (StatsEntry F) × ℕ))
      → Bounded c r
      → Bounded c (ticks r ss)
  unfolding ticks
  ticks-Bounded c r [] b = b
  ticks-Bounded c r ((report, now) ∷ ss) b =
      ticks-Bounded c (tick r (sample_from_report report) now) ss
        (tick-Bounded c r (sample_from_report report) now b)

  -- A configuration that passes its checks, with adaptive bitrate on: a runner is made, and over any
  -- reports at any instants each bitrate that it gives to the encoder is between the configured
  -- minimum and maximum.
  pub ticks-bounds :
      (c : HostConfig F) (now : ℕ) (ss : List (List (StatsEntry F) × ℕ))
      → validate c ≡ ok tt
      → c.abr.enabled ≡ true
      → (r : AbrRunner F) × (new_abr_runner c now ≡ some r)
        × All (λ b. (c.abr.min_bitrate ≤ℤ b) × (b ≤ℤ c.abr.max_bitrate)) (ticks r ss).applied
  unfolding new_abr_runner
  ticks-bounds c now ss valid on =
      let range = validate_abr-ok c.abr on (validate-abr c valid) in
      let ms = times_unit 1_000_000 c.abr.sample_interval_ms in
      let interval = if leb_ℤ ms (pos 0) then pos (2 * second) else ms in
      let runner = new_abr_runner_with (new (abr_config c) now) interval in
      (
        runner,
        rw on refl,
        (ticks-Bounded c.abr runner ss (new-Bounded c now interval range)).all_applied,
      )

-- ===== src/Abr/Direction.antt =====
-- What an increase and a decrease do to the target, and what they need.
use playgate.Common.{ℕ, ◌-◌, ◌≡◌, sym, subst, ◌∙◌, ◌≢◌, true, false, arith}
use playgate.Common.Int.{
  ℤ, pos, negsuc, ◌≤ℤ◌, ◌<ℤ◌, leb_ℤ, ◌+ℤ◌, add64, sub64, IsInt64, wrap64_of_IsInt64, ◌-ℤ◌, +ℤ_parts,
  -ℤ_parts, half_word,
}
use playgate.Common.Time.{time_sub}
use playgate.Common.Float.{Float64}
use playgate.Abr.{
  Sample, Controller, Decision, Reason, none_reason, decrease, increase, clamp, note_loss, commit,
  observe,
}
use playgate.Abr.Cases.{kept, lowered, raised, decide_cases}
use playgate.Abr.Bounds.{InBounds, clamp_bounds}

time_sub_self : (t : ℕ) → time_sub t t ≡ pos 0
unfolding time_sub
time_sub_self t = ground arith

clamp_above_lo : (v lo hi t : ℤ) → lo ≤ℤ t → v ≤ℤ t → clamp v lo hi ≤ℤ t
unfolding clamp
clamp_above_lo v lo hi t l h = ground arith

clamp_between :
    (v lo hi t : ℤ) → t ≤ℤ hi → t ≤ℤ v → lo ≤ℤ t → (t ≤ℤ clamp v lo hi) × (clamp v lo hi ≤ℤ v)
unfolding clamp
clamp_between v lo hi t l h k = ground arith

lt_of_le_ne : (a b : ℤ) → a ≤ℤ b → a ≢ b → a <ℤ b
lt_of_le_ne a b h n = ground arith

IsInt64-of_range : (a : ℤ) → pos 0 ≤ℤ a → a ≤ℤ pos (half_word - 1) → IsInt64 a
IsInt64-of_range (pos n) l h = omega arith
IsInt64-of_range (negsuc n) l h = absurd (omega arith)

module _ {F : Float64} where
  open F use {Carrier, lt, mul, of_int, to_int}

  note_loss_same :
      (c : Controller F) (loss : Carrier) (now : ℕ)
      → ((note_loss c loss now).cfg ≡ c.cfg) × ((note_loss c loss now).target ≡ c.target)
  unfolding note_loss
  note_loss_same c loss now = ground arith

  -- A window that has run since the noted start was open before this sample.
  window_was_open :
      (c : Controller F) (loss : Carrier) (now : ℕ)
      → pos 1 ≤ℤ c.cfg.clean_window
      → lt c.cfg.loss_threshold loss ≡ false
      → leb_ℤ c.cfg.clean_window (time_sub now (note_loss c loss now).clean_since) ≡ true
      → (c.have_clean_ts ≡ true) × (leb_ℤ c.cfg.clean_window (time_sub now c.clean_since) ≡ true)
  unfolding note_loss
  window_was_open c loss now h low w = ground (arith, time_sub_self now)

  commit_of_reason :
      (c : Controller F) (now : ℕ) (v : ℤ) (r : Reason)
      → (commit c now v r).1.reason ≢ none_reason
      → ((commit c now v r).1.reason ≡ r) × ((commit c now v r).0.target ≡ v) × (v ≢ c.target)
  unfolding commit
  commit_of_reason c now v r h = ground arith

  -- A sample at which the target is raised.
  pub record Raised (c : Controller F) (s : Sample F) (now : ℕ) (r : Controller F × Decision)
      : Type 0 where
    pub clean : lt c.cfg.loss_threshold s.loss_fraction ≡ false
    pub open_window : c.have_clean_ts ≡ true
    pub whole_window : leb_ℤ c.cfg.clean_window (time_sub now c.clean_since) ≡ true
    pub grows : c.target <ℤ r.0.target
    pub by_step : r.0.target ≤ℤ c.target +ℤ c.cfg.increase_step
    pub capped : r.0.target ≤ℤ c.cfg.max

  raised_same : (n c : Controller F) → (n.cfg ≡ c.cfg) × (n.target ≡ c.target) → raised n ≡ raised c
  raised_same n c same =
      λ i. clamp (add64 (same.1 i) (same.0 i).increase_step) (same.0 i).min (same.0 i).max

  lowered_same :
      (n c : Controller F) → (n.cfg ≡ c.cfg) × (n.target ≡ c.target) → lowered n ≡ lowered c
  lowered_same n c same = λ i.
      clamp (to_int (mul (of_int (same.1 i)) (same.0 i).decrease_factor)) (same.0 i).min
        (same.0 i).max

  raised_bounds :
      (c : Controller F)
      → InBounds c
      → IsInt64 (c.target +ℤ c.cfg.increase_step)
      → (c.target ≤ℤ raised c) × (raised c ≤ℤ c.target +ℤ c.cfg.increase_step)
  unfolding add64
  raised_bounds c b fits = rw (wrap64_of_IsInt64 _ fits) (
      clamp_between (c.target +ℤ c.cfg.increase_step) c.cfg.min c.cfg.max c.target b.high
        (omega (arith, +ℤ_parts, b.normal.step_pos)) b.low)

  commit-Raised :
      (c : Controller F) (s : Sample F) (now : ℕ)
      → InBounds c
      → IsInt64 (c.target +ℤ c.cfg.increase_step)
      → lt c.cfg.loss_threshold s.loss_fraction ≡ false
      → (c.have_clean_ts ≡ true) × (leb_ℤ c.cfg.clean_window (time_sub now c.clean_since) ≡ true)
      → (n : Controller F) (v : ℤ) → v ≡ raised c
      → (n.cfg ≡ c.cfg) × (n.target ≡ c.target)
      → (commit n now v increase).1.reason ≡ increase
      → Raised c s now (commit n now v increase)
  commit-Raised c s now b fits low w n v u same k =
      let (_, e, ne) = commit_of_reason n now v increase (rw k (λ z. cc)) in
      let (grow, step) = raised_bounds c b fits in
      record {
        clean = low;
        open_window = w.0;
        whole_window = w.1;
        grows = rw (e, u) (lt_of_le_ne _ _ grow (λ z. ne (u ∙ sym z ∙ sym same.1)));
        by_step = rw (e, u) step;
        capped = rw (e, u) (clamp_bounds _ _ _ b.normal.ordered).1;
      }

  -- An increase comes only at a sample within the loss threshold, when the link has been clean for
  -- a whole window; it raises the target by at most the step and not above the maximum, provided
  -- that the target is within its bounds and target plus step does not overflow.
  observe-Raised :
      (c : Controller F) (s : Sample F) (now : ℕ)
      → InBounds c
      → IsInt64 (c.target +ℤ c.cfg.increase_step)
      → (observe c s now).1.reason ≡ increase
      → Raised c s now (observe c s now)
  unfolding observe
  observe-Raised c s now b fits e =
      let n = note_loss c s.loss_fraction now in
      let same = note_loss_same c s.loss_fraction now in
      decide_cases (λ r. r.1.reason ≡ increase → Raised c s now r) n s.loss_fraction now (λ _ k. cc)
        (λ _ k. cc) (λ _ _ k. absurd (ground (arith, commit_of_reason n now (lowered n) decrease)))
        (λ _ low _ window k.
          let low' = rw same.0 at low in
          commit-Raised c s now b fits low'
            (window_was_open c s.loss_fraction now b.normal.window_pos low' (rw same.0 at window)) n
            (raised n) (raised_same n c same) same k)
        e

  -- A sample at which the target is lowered.
  pub record Lowered (c : Controller F) (s : Sample F) (r : Controller F × Decision) : Type 0 where
    pub lossy : lt c.cfg.loss_threshold s.loss_fraction ≡ true
    pub falls : r.0.target <ℤ c.target
    pub floored : c.cfg.min ≤ℤ r.0.target
    pub restarts_window : r.0.have_clean_ts ≡ false

  lowered_bounds :
      (c : Controller F)
      → InBounds c
      → to_int (mul (of_int c.target) c.cfg.decrease_factor) ≤ℤ c.target
      → (c.cfg.min ≤ℤ lowered c) × (lowered c ≤ℤ c.target)
  lowered_bounds c b h = (
    (clamp_bounds _ _ _ b.normal.ordered).0,
    clamp_above_lo _ c.cfg.min c.cfg.max c.target b.low h,
  )

  commit_window :
      (c : Controller F) (loss : Carrier) (now : ℕ) (v : ℤ)
      → lt c.cfg.loss_threshold loss ≡ true
      → (commit (note_loss c loss now) now v decrease).0.have_clean_ts ≡ false
  unfolding commit note_loss
  commit_window c loss now v h = ground arith

  -- A decrease comes only at a sample above the loss threshold, lowers the target but not below the
  -- minimum, and restarts the clean window, provided that the target is within its bounds and
  -- multiplication by the factor does not raise the target.
  observe-Lowered :
      (c : Controller F) (s : Sample F) (now : ℕ)
      → InBounds c
      → to_int (mul (of_int c.target) c.cfg.decrease_factor) ≤ℤ c.target
      → (observe c s now).1.reason ≡ decrease
      → Lowered c s (observe c s now)
  unfolding observe
  observe-Lowered c s now b shrinks e =
      let n = note_loss c s.loss_fraction now in
      let same = note_loss_same c s.loss_fraction now in
      decide_cases (λ r. r.1.reason ≡ decrease → Lowered c s r) n s.loss_fraction now (λ _ k. cc)
        (λ _ k. cc)
        (λ _ lossy k.
          let (_, f, ne) = commit_of_reason n now (lowered n) decrease (rw k (λ z. cc)) in
          let f' = f ∙ lowered_same n c same in
          let down = lowered_bounds c b shrinks in
          record {
            lossy = rw same.0 at lossy;
            falls =
                rw f' (lt_of_le_ne _ _ down.1 (λ z. ne (lowered_same n c same ∙ z ∙ sym same.1)));
            floored = rw f' down.0;
            restarts_window = commit_window c s.loss_fraction now (lowered n) (rw same.0 at lossy);
          })
        (λ _ _ _ _ k. absurd (ground (arith, commit_of_reason n now (raised n) increase))) e

  commit_gated :
      (n : Controller F) (now : ℕ) (v d : ℤ) (r : Reason)
      → sub64 v n.target ≡ d
      → pos 0 ≤ℤ d
      → lt (of_int d) (mul n.cfg.min_change_fraction (of_int n.target)) ≡ true
      → commit n now v r ≡ kept n
  unfolding commit
  commit_gated n now v d r e p h = ground arith

  -- The size of a change by at most a step.
  step_size :
      (c : Controller F) (v : ℤ)
      → InBounds c
      → IsInt64 (c.target +ℤ c.cfg.increase_step)
      → c.target ≤ℤ v
      → v ≤ℤ c.target +ℤ c.cfg.increase_step
      → (sub64 v c.target ≡ v -ℤ c.target)
        × (pos 0 ≤ℤ v -ℤ c.target)
        × (v -ℤ c.target ≤ℤ c.cfg.increase_step)
  unfolding sub64
  step_size c v b fits l h = (
    wrap64_of_IsInt64 (v -ℤ c.target) (
        IsInt64-of_range _ (omega (arith, -ℤ_parts))
          (omega (arith, -ℤ_parts, +ℤ_parts, b.normal.min_pos))),
    omega (arith, -ℤ_parts, +ℤ_parts),
    omega (arith, -ℤ_parts, +ℤ_parts),
  )

  -- What a committed target is: the one asked for, or the old one.
  commit_target :
      (c : Controller F) (now : ℕ) (v : ℤ) (r : Reason)
      → v ≤ℤ c.target
      → (commit c now v r).0.target ≤ℤ c.target
  unfolding commit
  commit_target c now v r h = ground arith

  -- Where a whole step is smaller than the least fraction of the target that counts as a change,
  -- the target is within its bounds, its sum with the step does not overflow, and multiplication by
  -- the decrease factor does not raise it: no sample at any instant raises the target or gives an
  -- increase as its reason, however clean the link, if what is below such a step on the integers is
  -- below it for `float64` too.
  pub observe_stalls :
      (c : Controller F) (s : Sample F) (now : ℕ)
      → InBounds c
      → IsInt64 (c.target +ℤ c.cfg.increase_step)
      → to_int (mul (of_int c.target) c.cfg.decrease_factor) ≤ℤ c.target
      → lt (of_int c.cfg.increase_step) (mul c.cfg.min_change_fraction (of_int c.target)) ≡ true
      → ((d : ℤ) (x : Carrier)
          → d ≤ℤ c.cfg.increase_step
          → lt (of_int c.cfg.increase_step) x ≡ true
          → lt (of_int d) x ≡ true)
      → ((observe c s now).0.target ≤ℤ c.target) × ((observe c s now).1.reason ≢ increase)
  unfolding observe
  observe_stalls c s now b fits shrinks small mono =
      let n = note_loss c s.loss_fraction now in
      let same = note_loss_same c s.loss_fraction now in
      let (grow, step) = raised_bounds c b fits in
      let (size, nonneg, le_step) = step_size c (raised c) b fits grow step in
      let still : n.target ≤ℤ c.target = subst (λ t. t ≤ℤ c.target) (sym same.1) (omega arith) in
      decide_cases (λ r. (r.0.target ≤ℤ c.target) × (r.1.reason ≢ increase)) n s.loss_fraction now
        (λ _. (still, (λ k. cc))) (λ _. (still, (λ k. cc)))
        (λ _ _. (
          subst (λ t. (commit n now (lowered n) decrease).0.target ≤ℤ t) same.1
              (commit_target n now (lowered n) decrease
                (rw (lowered_same n c same, same.1) (lowered_bounds c b shrinks).1)),
          (λ k. ground (arith, commit_of_reason n now (lowered n) decrease)),
        ))
        (λ _ _ _ _.
          let gated =
            commit_gated n now (raised n) (raised c -ℤ c.target) increase
              (rw (raised_same n c same, same.1) size) nonneg
              (rw (same.0, same.1) (mono _ _ le_step small)) in
          rw gated (still, (λ k. cc)))

-- ===== src/Abr/Pace.antt =====
-- When the target changes, and how often.
use playgate.Common.{
  ℕ, suc, if◌then◌else◌, ◌+◌, ◌*◌, ◌≤◌, ◌≡◌, refl, ◌≢◌, ◌⊎◌, inl, inr, true, false, List, [], ◌∷◌,
  arith,
}
use playgate.Common.Int.{ℤ, pos, pos_part, ◌≤ℤ◌}
use playgate.Common.Time.{time_sub_reaches}
use playgate.Common.Float.{Float64}
use playgate.Abr.{
  Sample, Controller, Decision, Reason, none_reason, decrease, increase, note_loss, commit, decide,
  observe, observe_all,
}
use playgate.Abr.Cases.{kept, lowered, raised, decide_cases}

abbrev pub count_changed : List Decision → ℕ
count_changed [] = 0
count_changed (d ∷ ds) = if d.changed then suc (count_changed ds) else count_changed ds

module _ {F : Float64} where
  -- A committed change and a decision to stay, as seen from the controller before the sample.
  pub record Moved (c : Controller F) (now : ℕ) (r : Controller F × Decision) : Type 0 where
    pub changed : r.1.changed ≡ true
    pub target_ne : r.0.target ≢ c.target
    pub recorded : r.0.last_change ≡ now
    pub cooled : c.last_change + pos_part c.cfg.cooldown ≤ now
    pub reason_ne : r.1.reason ≢ none_reason

  pub record Stayed (c : Controller F) (r : Controller F × Decision) : Type 0 where
    pub unchanged : r.1.changed ≡ false
    pub target_eq : r.0.target ≡ c.target
    pub last_change_eq : r.0.last_change ≡ c.last_change
    pub no_reason : r.1.reason ≡ none_reason

  abbrev pub Paced : Controller F → ℕ → Controller F × Decision → Type 0
  Paced c now r = (r.1.target ≡ r.0.target) × (r.0.cfg ≡ c.cfg) × (Moved c now r ⊎ Stayed c r)

  commit-Paced :
      (c : Controller F) (now : ℕ) (v : ℤ) (r : Reason)
      → r ≢ none_reason
      → c.last_change + pos_part c.cfg.cooldown ≤ now
      → Paced c now (commit c now v r)
  unfolding commit
  commit-Paced c now v r h cool = ground arith

  kept-Paced : (c : Controller F) (now : ℕ) → Paced c now (kept c)
  kept-Paced c now = (
    refl,
    refl,
    inr (record { unchanged = refl; target_eq = refl; last_change_eq = refl; no_reason = refl }),
  )

  decide-Paced :
      (c : Controller F) (loss : F.Carrier) (now : ℕ)
      → pos 1 ≤ℤ c.cfg.cooldown
      → Paced c now (decide c loss now)
  decide-Paced c loss now h =
      decide_cases (Paced c now) c loss now (λ _. kept-Paced c now) (λ _. kept-Paced c now)
        (λ late _.
          commit-Paced c now (lowered c) decrease (λ e. cc) (time_sub_reaches now _ _ h late))
        (λ late _ _ _.
          commit-Paced c now (raised c) increase (λ e. cc) (time_sub_reaches now _ _ h late))

  -- With a positive cooldown, `changed` is reported exactly when the target moves. Then the change
  -- before it is at least a cooldown ago, a reason is given and the instant is recorded. Otherwise
  -- the target and the instant of the last change stay and there is no reason. The decision always
  -- names the controller's target.
  pub observe-Paced :
      (c : Controller F) (s : Sample F) (now : ℕ)
      → pos 1 ≤ℤ c.cfg.cooldown
      → Paced c now (observe c s now)
  unfolding observe note_loss
  observe-Paced c s now h =
      ground (arith, decide-Paced (note_loss c s.loss_fraction now) s.loss_fraction now)

  -- With a positive cooldown, over any run of samples the cooldowns of all its changes fit between
  -- the instants of the last change before the run and of the last change in it.
  pub cooldowns_fit :
      (c : Controller F) (ss : List (Sample F × ℕ))
      → pos 1 ≤ℤ c.cfg.cooldown
      → count_changed (observe_all c ss).1 * pos_part c.cfg.cooldown + c.last_change
        ≤ (observe_all c ss).0.last_change
  unfolding observe_all
  cooldowns_fit c [] h = omega arith
  cooldowns_fit c ((s, now) ∷ ss) h = step (observe-Paced c s now h).2 (
      rw (observe-Paced c s now h).1 at
        (cooldowns_fit (observe c s now).0 ss (rw (observe-Paced c s now h).1 h)))
    where
      step :
          Moved c now (observe c s now) ⊎ Stayed c (observe c s now)
          → count_changed (observe_all (observe c s now).0 ss).1 * pos_part c.cfg.cooldown
              + (observe c s now).0.last_change
            ≤ (observe_all (observe c s now).0 ss).0.last_change
          → (if (observe c s now).1.changed
                  then suc (count_changed (observe_all (observe c s now).0 ss).1)
                  else count_changed (observe_all (observe c s now).0 ss).1)
                * pos_part c.cfg.cooldown
              + c.last_change
            ≤ (observe_all (observe c s now).0 ss).0.last_change
      step (inl m) rest = rw m.changed (omega (arith, m.recorded, m.cooled))
      step (inr n) rest = rw n.unchanged (omega (arith, n.last_change_eq))

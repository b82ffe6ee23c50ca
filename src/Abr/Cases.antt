-- ===== src/Abr/Cases.antt =====
-- The branches of `Observe`, each with the tests that lead to it.
use playgate.Common.{ℕ, ◌≡◌, true, false, arith, if_cases}
use playgate.Common.Int.{ℤ, leb_ℤ, ltb_ℤ, add64}
use playgate.Common.Time.{time_sub}
use playgate.Common.Float.{Float64}
use playgate.Abr.{Controller, Decision, none_reason, decrease, increase, clamp, commit, decide}

module _ {F : Float64} where
  open F use {Carrier, lt, mul, of_int, to_int}

  abbrev pub kept : Controller F → Controller F × Decision
  kept c = (c, record { target = c.target; changed = false; reason = none_reason })

  abbrev pub lowered : Controller F → ℤ
  lowered c = clamp (to_int (mul (of_int c.target) c.cfg.decrease_factor)) c.cfg.min c.cfg.max

  abbrev pub raised : Controller F → ℤ
  raised c = clamp (add64 c.target c.cfg.increase_step) c.cfg.min c.cfg.max

  -- Too early; neither; a decrease; an increase.
  pub decide_cases {ℓ} :
      (P : Controller F × Decision → Type ℓ) (c : Controller F) (loss : Carrier) (now : ℕ)
      → (ltb_ℤ (time_sub now c.last_change) c.cfg.cooldown ≡ true → P (kept c))
      → (lt c.cfg.loss_threshold loss ≡ false → P (kept c))
      → (ltb_ℤ (time_sub now c.last_change) c.cfg.cooldown ≡ false
          → lt c.cfg.loss_threshold loss ≡ true
          → P (commit c now (lowered c) decrease))
      → (ltb_ℤ (time_sub now c.last_change) c.cfg.cooldown ≡ false
          → lt c.cfg.loss_threshold loss ≡ false
          → c.have_clean_ts ≡ true
          → leb_ℤ c.cfg.clean_window (time_sub now c.clean_since) ≡ true
          → P (commit c now (raised c) increase))
      → P (decide c loss now)
  unfolding decide
  decide_cases P c loss now early steady down up = if_cases P _ _ _ early (λ late.
      if_cases P _ _ _ (down late) (λ clean.
        if_cases P _ _ _ (λ w. up late clean (ground arith) (ground arith)) (λ _. steady clean)))

-- ===== src/Abr/Bounds.antt =====
-- The target and the configured bounds.
use playgate.Common.{ℕ, ◌≡◌, List, [], ◌∷◌, arith}
use playgate.Common.Int.{ℤ, pos, ◌≤ℤ◌}
use playgate.Common.Float.{Float64}
use playgate.Abr.Cases.{decide_cases}
use playgate.Abr.{
  Sample, Config, Controller, Reason, decrease, increase, clamp, or_default, normalise, new,
  note_loss, commit, decide, observe, observe_all,
}

pub clamp_bounds : (v lo hi : ℤ) → lo ≤ℤ hi → (lo ≤ℤ clamp v lo hi) × (clamp v lo hi ≤ℤ hi)
unfolding clamp
clamp_bounds v lo hi h = ground arith

or_default_pos : (x d : ℤ) → pos 1 ≤ℤ d → pos 1 ≤ℤ or_default x d
unfolding or_default
or_default_pos x d h = ground arith

module _ {F : Float64} where
  -- What `normalise` gives: positive bounds in order, and a start between them.
  pub record IsNormal (c : Config F) : Type 0 where
    pub min_pos : pos 1 ≤ℤ c.min
    pub ordered : c.min ≤ℤ c.max
    pub start_low : c.min ≤ℤ c.start
    pub start_high : c.start ≤ℤ c.max
    pub step_pos : pos 1 ≤ℤ c.increase_step
    pub cooldown_pos : pos 1 ≤ℤ c.cooldown
    pub window_pos : pos 1 ≤ℤ c.clean_window

  -- Whatever configuration is given, the normalised one has positive bounds in order, a start
  -- between them, and a positive step, cooldown and window.
  pub normalise-IsNormal : (c : Config F) → IsNormal (normalise c)
  unfolding normalise
  normalise-IsNormal c = record {
    min_pos = or_default_pos c.min _ (omega arith);
    ordered = ground arith;
    start_low = (clamp_bounds _ _ _ (ground arith)).0;
    start_high = (clamp_bounds _ _ _ (ground arith)).1;
    step_pos = or_default_pos c.increase_step _ (omega arith);
    cooldown_pos = or_default_pos c.cooldown _ (omega arith);
    window_pos = or_default_pos c.clean_window _ (omega arith);
  }

  pub record InBounds (c : Controller F) : Type 0 where
    pub normal : IsNormal c.cfg
    pub low : c.cfg.min ≤ℤ c.target
    pub high : c.target ≤ℤ c.cfg.max

  pub new-InBounds : (c : Config F) (now : ℕ) → InBounds (new c now)
  unfolding new
  new-InBounds c now =
      let n = normalise-IsNormal c in record { normal = n; low = n.start_low; high = n.start_high }

  -- A positive range in order is the controller's own.
  pub new_range :
      (c : Config F) (now : ℕ)
      → pos 1 ≤ℤ c.min
      → c.min ≤ℤ c.max
      → ((new c now).cfg.min ≡ c.min) × ((new c now).cfg.max ≡ c.max)
  unfolding new normalise or_default
  new_range c now lo hi = (ground arith, ground arith)

  commit-InBounds :
      (c : Controller F) (now : ℕ) (v : ℤ) (r : Reason)
      → InBounds c
      → c.cfg.min ≤ℤ v
      → v ≤ℤ c.cfg.max
      → InBounds (commit c now v r).0
  unfolding commit
  commit-InBounds c now v r h lo hi = ground arith

  note_loss-InBounds :
      (c : Controller F) (loss : F.Carrier) (now : ℕ) → InBounds c → InBounds (note_loss c loss now)
  unfolding note_loss
  note_loss-InBounds c loss now h = ground arith

  decide-InBounds :
      (c : Controller F) (loss : F.Carrier) (now : ℕ) → InBounds c → InBounds (decide c loss now).0
  decide-InBounds c loss now h =
      let bounds = λ (v : ℤ). clamp_bounds v c.cfg.min c.cfg.max h.normal.ordered in
      decide_cases (λ r. InBounds r.0) c loss now (λ _. h) (λ _. h)
        (λ _ _. commit-InBounds c now _ decrease h (bounds _).0 (bounds _).1)
        (λ _ _ _ _. commit-InBounds c now _ increase h (bounds _).0 (bounds _).1)

  -- No sample takes the target out of its bounds.
  pub observe-InBounds :
      (c : Controller F) (s : Sample F) (now : ℕ) → InBounds c → InBounds (observe c s now).0
  unfolding observe
  observe-InBounds c s now h =
      decide-InBounds _ s.loss_fraction now (note_loss-InBounds c s.loss_fraction now h)

  run-InBounds :
      (c : Controller F) (ss : List (Sample F × ℕ)) → InBounds c → InBounds (observe_all c ss).0
  unfolding observe_all
  run-InBounds c [] h = h
  run-InBounds c ((s, now) ∷ ss) h =
      run-InBounds (observe c s now).0 ss (observe-InBounds c s now h)

  -- Every controller made by `new` from any configuration, fed any samples at any instants, has its
  -- target within the bounds of its normalised configuration, which are positive and in order.
  pub observe_all-InBounds :
      (cfg : Config F) (start : ℕ) (ss : List (Sample F × ℕ))
      → InBounds (observe_all (new cfg start) ss).0
  observe_all-InBounds cfg start ss = run-InBounds _ ss (new-InBounds cfg start)

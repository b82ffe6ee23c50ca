-- ===== src/Abr.antt =====
-- playgate-host/internal/abr/abr.go: the adaptive bitrate controller. `float64` is a parameter, an
-- `int` is an integer with Go's wrap-around, and the clock's reading is an argument of each call.
pub mod Cases
pub mod Bounds
pub mod Pace
pub mod Direction
mod Examples
use playgate.Common.{
  ℕ, ◌≡◌, Bool, true, false, not, ◌&&◌, ◌||◌, Option, none, some, List, [], ◌∷◌, if◌then◌else◌,
}
use playgate.Common.Int.{ℤ, pos, ltb_ℤ, leb_ℤ, eqb_ℤ, add64, sub64}
use playgate.Common.Time.{time_sub, second}
use playgate.Common.Float.{Float64}

pub data Reason : Type 0 where
  none_reason decrease increase : Reason

pub data ConfigError : Type 0 where
  not_positive max_below_min bad_loss_threshold : ConfigError

pub record Decision : Type 0 where
  pub target : ℤ
  pub changed : Bool
  pub reason : Reason

-- `clamp(v, lo, hi)`.
pub clamp : ℤ → ℤ → ℤ → ℤ
clamp v lo hi = if ltb_ℤ v lo then lo else if ltb_ℤ hi v then hi else v

-- `if x <= 0 { x = d }` on an `int`.
or_default : ℤ → ℤ → ℤ
or_default x d = if leb_ℤ x (pos 0) then d else x

module _ (F : Float64) where
  open F use {Carrier}

  pub record Sample : Type 0 where
    pub loss_fraction : Carrier
    pub rtt : ℤ

  pub record Config : Type 0 where
    pub min : ℤ
    pub max : ℤ
    pub start : ℤ
    pub loss_threshold : Carrier
    pub decrease_factor : Carrier
    pub increase_step : ℤ
    pub cooldown : ℤ
    pub clean_window : ℤ
    pub min_change_fraction : Carrier

  pub record Controller : Type 0 where
    pub cfg : Config
    pub target : ℤ
    pub last_change : ℕ
    pub clean_since : ℕ
    pub have_clean_ts : Bool

module _ {F : Float64} where
  open F use {Carrier, lt, le, mul, of_int, to_int, lit}

  pub default_config : Config F
  default_config = record {
    min = pos 1_000_000;
    max = pos 8_000_000;
    start = pos 4_000_000;
    loss_threshold = lit 5 100;
    decrease_factor = lit 8 10;
    increase_step = pos 500_000;
    cooldown = pos 10_000_000_000;
    clean_window = pos 5_000_000_000;
    min_change_fraction = lit 1 10;
  }

  pub normalise : Config F → Config F
  unfolding default_config
  normalise c =
      let d : Config F = default_config in
      let lo = or_default c.min d.min in
      let hi = or_default c.max d.max in
      let hi' = if ltb_ℤ hi lo then lo else hi in
      let f = c.decrease_factor in
      record {
        min = lo;
        max = hi';
        start = clamp (or_default c.start d.start) lo hi';
        loss_threshold =
            if le c.loss_threshold (lit 0 1) then d.loss_threshold else c.loss_threshold;
        decrease_factor = if le f (lit 0 1) || le (lit 1 1) f then d.decrease_factor else f;
        increase_step = or_default c.increase_step d.increase_step;
        cooldown = or_default c.cooldown d.cooldown;
        clean_window = or_default c.clean_window d.clean_window;
        min_change_fraction =
            if lt c.min_change_fraction (lit 0 1)
            then d.min_change_fraction
            else c.min_change_fraction;
      }

  -- `Config.Validate`: the error, if there is one.
  pub validate : Config F → Option ConfigError
  validate c =
      if leb_ℤ c.min (pos 0) || leb_ℤ c.max (pos 0)
      then some not_positive
      else if ltb_ℤ c.max c.min
      then some max_below_min
      else if le c.loss_threshold (lit 0 1) || le (lit 1 1) c.loss_threshold
      then some bad_loss_threshold
      else none

  -- `New(cfg, now)`, constructed at the instant `now`.
  pub new : Config F → ℕ → Controller F
  new c now =
      let cfg : Config F = normalise c in
      record {
        cfg = cfg;
        target = cfg.start;
        last_change = now;
        clean_since = 0;
        have_clean_ts = false;
      }

  -- The clean-window timer, kept whether or not a change is committed.
  pub note_loss : Controller F → Carrier → ℕ → Controller F
  note_loss c loss now =
      if lt c.cfg.loss_threshold loss
      then record c { have_clean_ts = false }
      else if not c.have_clean_ts
      then record c { clean_since = now; have_clean_ts = true }
      else c

  abbrev keep : Controller F → Controller F × Decision
  keep c = (c, record { target = c.target; changed = false; reason = none_reason })

  -- The min-change gate and the commit of a clamped candidate.
  pub commit : Controller F → ℕ → ℤ → Reason → Controller F × Decision
  commit c now candidate reason =
      let delta = sub64 candidate c.target in
      let size = if ltb_ℤ delta (pos 0) then sub64 (pos 0) delta else delta in
      if eqb_ℤ candidate c.target
        || lt (of_int size) (mul c.cfg.min_change_fraction (of_int c.target))
      then keep c
      else (
        record c {
          target = candidate;
          last_change = now;
          clean_since = elim reason [ increase ↦ now | _ ↦ c.clean_since ];
        },
        record { target = candidate; changed = true; reason = reason },
      )

  -- The part of `Observe` that follows the clean-window timer.
  pub decide : Controller F → Carrier → ℕ → Controller F × Decision
  decide c loss now =
      if ltb_ℤ (time_sub now c.last_change) c.cfg.cooldown
      then keep c
      else if lt c.cfg.loss_threshold loss
      then commit c now
          (clamp (to_int (mul (of_int c.target) c.cfg.decrease_factor)) c.cfg.min c.cfg.max)
          decrease
      else if c.have_clean_ts && leb_ℤ c.cfg.clean_window (time_sub now c.clean_since)
      then commit c now (clamp (add64 c.target c.cfg.increase_step) c.cfg.min c.cfg.max) increase
      else keep c

  -- `Observe(s)`, at the instant `now`.
  pub observe : Controller F → Sample F → ℕ → Controller F × Decision
  observe c s now = decide (note_loss c s.loss_fraction now) s.loss_fraction now

  -- A run of samples, each with its instant; the decisions come out in order.
  pub observe_all : Controller F → List (Sample F × ℕ) → Controller F × List Decision
  observe_all c [] = (c, [])
  observe_all c ((s, now) ∷ rest) =
      let (c', d) = observe c s now in let (c'', ds) = observe_all c' rest in (c'', d ∷ ds)

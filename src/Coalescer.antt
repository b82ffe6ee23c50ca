-- ===== src/Coalescer.antt =====
-- playgate-host/internal/input/nxbt/ratelimit.go: the limiter of the rate of input commands. Instants
-- are nanoseconds from Go's zero time, which `lastSent` starts at. `notify` is whether the channel of
-- one signal holds it. `InputCommand` is a parameter.
pub mod Rate
pub mod Poll
mod Examples
use playgate.Common.{
  ℕ, suc, ◌/◌, Bool, true, false, ◌&&◌, Option, none, some, List, [], ◌∷◌, if◌then◌else◌,
}
use playgate.Common.Int.{ℤ, pos, negsuc, ltb_ℤ, leb_ℤ, sub64}
use playgate.Common.Time.{second, time_sub}

pub record Coalescer (Cmd : Type 0) : Type 0 where
  pub pending : Option Cmd
  pub interval : ℤ
  pub last_sent : ℕ
  pub notify : Bool

-- `time.Second / time.Duration(rateHz)` of a positive rate.
pub interval_of : ℤ → ℤ
interval_of (pos n) = if ltb_ℤ (pos 0) (pos n) then pos (second / n) else pos 0
interval_of (negsuc n) = pos 0

module _ {Cmd : Type 0} where
  -- `newCoalescer`.
  pub new_coalescer : ℤ → Coalescer Cmd
  new_coalescer rate_hz = record {
    pending = none;
    interval = interval_of rate_hz;
    last_sent = 0;
    notify = false;
  }

  -- `push`.
  pub push : Coalescer Cmd → Cmd → Coalescer Cmd
  push c cmd = record c { pending = some cmd; notify = true }

  -- Whether the interval since the last command is not over.
  pub is_limited : Coalescer Cmd → ℕ → Bool
  is_limited c now = ltb_ℤ (pos 0) c.interval && ltb_ℤ (time_sub now c.last_sent) c.interval

  pub poll_with : Option Cmd → Coalescer Cmd → ℕ → Coalescer Cmd × Option Cmd
  poll_with none c now = (c, none)
  poll_with (some cmd) c now =
      let limited = is_limited c now in
      (
        record c {
          pending = if limited then c.pending else none;
          last_sent = if limited then c.last_sent else now;
        },
        if limited then none else some cmd,
      )

  -- `poll`.
  pub poll : Coalescer Cmd → ℕ → Coalescer Cmd × Option Cmd
  poll c now = poll_with c.pending c now

  -- `untilReady`.
  pub until_ready : Coalescer Cmd → ℕ → ℤ
  until_ready c now = elim c.pending [
    | none ↦ negsuc 0
    | some _ ↦
        if leb_ℤ c.interval (pos 0)
        then pos 0
        else let remaining = sub64 c.interval (time_sub now c.last_sent) in
          if ltb_ℤ remaining (pos 0) then pos 0 else remaining
  ]

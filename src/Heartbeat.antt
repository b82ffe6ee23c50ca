-- ===== src/Heartbeat.antt =====
-- playgate-host/internal/heartbeat/heartbeat.go: the host's heartbeats to the server, and what it
-- does with the answers. HTTP is not modelled: a request arrives at the server's handler or fails.
pub mod Kicks
mod Examples
use playgate.Common.{
  ℕ, ◌*◌, String, Bool, true, false, ◌&&◌, ◌==◌, Option, none, some, if◌then◌else◌, str_eq,
}
use playgate.Common.Int.{ℤ, pos, leb_ℤ}
use playgate.Common.Time.{second, seconds}
use playgate.Session.{Manager, current_viewer_id}
use playgate.Session.Control.{kick}
use playgate.Server.Api.{Response, Body, heartbeat_body}

-- The interval of `New`.
unfoldable pub heartbeat_interval : ℤ → ℤ
unfolding seconds
heartbeat_interval n = let d = seconds n in if leb_ℤ d (pos 0) then pos (30 * second) else d

unfoldable pub viewer_field : String → Option String
viewer_field vid = if str_eq vid "" then none else some vid

-- `heartbeatResponse.KickRequested` of a decoded body.
unfoldable pub kick_requested : Body → Bool
kick_requested (heartbeat_body status asked) = asked
kick_requested other = false

module _ {Cmd : Type 0} where
  -- `heartbeatRequest` as `beat` fills it; with no session manager there is no viewer.
  unfoldable pub heartbeat_request : Option (Manager Cmd) → Bool × Option String
  unfolding viewer_field
  heartbeat_request none = (true, none)
  heartbeat_request (some m) = (true, viewer_field (current_viewer_id m))

  -- What `beat` does when its request has come back, or failed. `MakeKickFunc` gives the kick.
  unfoldable pub act : Manager Cmd → Option Response → ℕ → Manager Cmd
  unfolding kick_requested
  act m none now = m
  act m (some resp) now = if resp.status == 200 && kick_requested resp.body then kick m now else m

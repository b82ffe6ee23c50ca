-- ===== src/Heartbeat/Kicks.antt =====
-- A kick at the server, and the heartbeats of the host behind it.
use playgate.Common.{ℕ, String, Bool, some, List}
use playgate.Session.{Manager}
use playgate.Server.Api.{Server}
use playgate.Server.Api.Rooms.{heartbeat_among}
use playgate.Heartbeat.{heartbeat_request, act}

module _ {Cmd : Type 0} where
  -- `beat`, with the request served among those of others, and the status of its answer.
  unfoldable pub served_beat :
      (ℕ → Server → Server)
      → (ℕ → Bool)
      → Server
      → List ℕ
      → String
      → Manager Cmd
      → ℕ
      → Server × Manager Cmd × ℕ
  served_beat others fails s auth id m now =
      let r = heartbeat_among others fails s auth id (some (heartbeat_request (some m))) now in
      (r.0, act m (some r.1) now, r.1.status)

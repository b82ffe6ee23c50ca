-- ===== src/Heartbeat/Examples.antt =====
-- The server and the manager of the server's examples.
use playgate.Common.{ℕ, true, false, none, ◌∷◌}
use playgate.Common.Int.{pos}
use playgate.Server.Examples.{server, fine, auth}
use playgate.Server.Api.{Server, bearer_token, found, respond, write, require_host, require_room}
use playgate.Server.Api.Rooms.{report_kick, own_room, beat_read, heartbeat_among, kick_among}
use playgate.Server.Db.{
  Room, find_first, bytes_eq, query_row, exec, host_by_key, get_host_by_api_key, room_row,
  get_room_by_id_and_host_id, update_room_heartbeat, heartbeat_row, set_room_kick_requested,
  kick_row,
}
use playgate.Heartbeat.{act, heartbeat_request, viewer_field, kick_requested}
use playgate.Heartbeat.Kicks.{served_beat}

run_open : ℕ
unfolding bearer_token found respond write require_host require_room report_kick own_room beat_read
    heartbeat_among kick_among find_first bytes_eq query_row exec host_by_key get_host_by_api_key
    room_row get_room_by_id_and_host_id update_room_heartbeat heartbeat_row set_room_kick_requested
    kick_row served_beat heartbeat_request viewer_field kick_requested act
run_open = 0

-- Another room is stored by each of the other requests.
abbrev attic : Room
attic = record {
  id = "attic";
  host_id = "host";
  name = "a";
  session_seconds = pos 60;
  online = true;
  current_viewer = none;
  kick_requested = false;
  created_at = 0;
  updated_at = 0;
}

abbrev builds : ℕ → Server → Server
builds i s = record s { db = record (s.db) { rooms = attic ∷ s.db.rooms } }

abbrev kicked : Server
kicked = (kick_among builds fine server auth "room" 5).0

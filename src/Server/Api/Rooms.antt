-- ===== src/Server/Api/Rooms.antt =====
-- playgate-server/internal/api/server.go: the handlers of hosts and rooms, and of a kick.
use playgate.Common.{
  ℕ, suc, String, Bool, true, false, Option, none, some, List, [], ◌∷◌, if◌then◌else◌, str_eq,
}
use playgate.Common.Int.{ℤ, pos, leb_ℤ}
use playgate.Common.Result.{Result, ok, ◌>>=◌, or_fail}
use playgate.Server.Db.{
  Host, Room, Db, Sqlite, create_host, create_room, get_room, list_rooms_by_host_id,
  get_room_by_id_and_host_id, update_room_heartbeat, set_room_kick_requested,
  count_active_sessions_in_room,
}
use playgate.Server.Api.{
  RoomInfo, Response, Server, failure, success, found, found_any, respond, write, require_host,
  require_room, host_body, room_body, rooms_body, heartbeat_body, status_body,
}

abbrev non_empty : Option String → Option String
non_empty none = none
non_empty (some s) = if str_eq s "" then none else some s

-- `handleRegisterHost`.
unfoldable pub handle_register_host :
    (ℕ → Bool) → Server → Option String → String → List ℕ → ℕ → Server × Response
handle_register_host fails s req host_id api_key now =
    respond s (or_fail (non_empty req) (failure 400 "name is required")) (λ name.
      let h : Host = record { id = host_id; api_key = api_key; name = name; created_at = now } in
      write s (create_host (fails 0) s.db h) "create host failed"
        (λ s'. (s', success 201 (host_body host_id api_key))))

pub record CreateRoomRequest : Type 0 where
  pub name : String
  pub session_seconds : ℤ

-- The default of a request's session time.
unfoldable pub or_minute : ℤ → ℤ
or_minute n = if leb_ℤ n (pos 0) then pos 60 else n

unfoldable pub new_room : String → String → CreateRoomRequest → ℕ → Room
new_room id host_id req now = record {
  id = id;
  host_id = host_id;
  name = req.name;
  session_seconds = or_minute req.session_seconds;
  online = false;
  current_viewer = none;
  kick_requested = false;
  created_at = now;
  updated_at = now;
}

abbrev room_info : Room → ℕ → RoomInfo
room_info r depth = record {
  id = r.id;
  name = r.name;
  session_seconds = r.session_seconds;
  online = r.online;
  current_viewer = r.current_viewer;
  queue_depth = depth;
}

unfoldable pub named : Option CreateRoomRequest → Option CreateRoomRequest
named none = none
named (some r) = if str_eq r.name "" then none else some r

-- `handleCreateRoom`.
unfoldable pub handle_create_room :
    (ℕ → Bool) → Server → List ℕ → Option CreateRoomRequest → String → ℕ → Server × Response
handle_create_room fails s auth req id now =
    respond s
      (do
        host ← require_host fails s auth
        r ← or_fail (named req) (failure 400 "name is required")
        ok (new_room id host.id r now))
      (λ room.
        write s (create_room (fails 1) s.db room) "create room failed"
          (λ s'. (s', success 201 (room_body (room_info room 0)))))

-- `count` is the number of calls made before the loop.
unfoldable pub room_infos : Sqlite → (ℕ → Bool) → Db → ℕ → List Room → ℕ → List RoomInfo
room_infos q fails d now [] count = []
room_infos q fails d now (r ∷ rs) count =
    room_info r (count_active_sessions_in_room q (fails count) d r.id now)
    ∷ room_infos q fails d now rs (suc count)

-- `handleListRooms`.
unfoldable pub handle_list_rooms : Sqlite → (ℕ → Bool) → Server → List ℕ → ℕ → Server × Response
handle_list_rooms q fails s auth now =
    respond s
      (do
        host ← require_host fails s auth
        found_any (failure 500 "db error") (list_rooms_by_host_id q (fails 1) s.db host.id))
      (λ rooms. (s, success 200 (rooms_body (room_infos q fails s.db now rooms 2))))

-- `handleGetRoom`.
unfoldable pub handle_get_room : Sqlite → (ℕ → Bool) → Server → String → ℕ → Server × Response
handle_get_room q fails s id now =
    respond s (found (failure 404 "room not found") (get_room (fails 0) s.db id)) (λ room. (
      s,
      success 200
          (room_body (room_info room (count_active_sessions_in_room q (fails 1) s.db id now))),
    ))

-- The report of a pending kick, which clears it.
unfoldable pub report_kick : (ℕ → Bool) → Server → String → Bool → ℕ → Server × Response
report_kick fails s id false now = (s, success 200 (heartbeat_body "ok" false))
report_kick fails s id true now =
    write s (set_room_kick_requested (fails 3) s.db id false now) "clear kick failed"
      (λ s'. (s', success 200 (heartbeat_body "ok" true)))

-- `handleHeartbeat` up to its first write: the body is `online` and `current_viewer`.
unfoldable pub heartbeat_read :
    (ℕ → Bool)
    → Server
    → List ℕ
    → String
    → Option (Bool × Option String)
    → Result Response (Room × (Bool × Option String))
heartbeat_read fails s auth id req = do
  (host, room) ← require_room fails s auth id
  r ← or_fail req (failure 400 "invalid request body")
  ok (room, r)

-- `handleHeartbeat` from that write on.
unfoldable pub heartbeat_write :
    (ℕ → Bool) → Server → String → ℕ → Room × (Bool × Option String) → Server × Response
heartbeat_write fails s id now (room, (online, viewer)) =
    write s (update_room_heartbeat (fails 2) s.db id online viewer now) "update failed"
      (λ s'. report_kick fails s' id room.kick_requested now)

-- `handleHeartbeat`.
unfoldable pub handle_heartbeat :
    (ℕ → Bool) → Server → List ℕ → String → Option (Bool × Option String) → ℕ → Server × Response
handle_heartbeat fails s auth id req now =
    respond s (heartbeat_read fails s auth id req) (heartbeat_write fails s id now)

-- `handleKick`.
unfoldable pub handle_kick : (ℕ → Bool) → Server → List ℕ → String → ℕ → Server × Response
handle_kick fails s auth id now = respond s (require_room fails s auth id) (λ _.
    write s (set_room_kick_requested (fails 2) s.db id true now) "set kick failed"
      (λ s'. (s', success 200 (status_body "kick_requested"))))

-- The second statement of `handleHeartbeat` and of `handleKick`.
unfoldable pub own_room : (ℕ → Bool) → Server → String → Host → Result Response Room
own_room fails s id host =
    found (failure 404 "room not found") (get_room_by_id_and_host_id (fails 1) s.db id host.id)

-- That statement of `handleHeartbeat`, and its body.
unfoldable pub beat_read :
    (ℕ → Bool)
    → Server
    → String
    → Option (Bool × Option String)
    → Host
    → Result Response (Room × (Bool × Option String))
unfolding own_room
beat_read fails s id req host = do
  room ← own_room fails s id host
  r ← or_fail req (failure 400 "invalid request body")
  ok (room, r)

-- `handleHeartbeat`, where `others i` is what other requests do to the server before its i-th
-- statement.
unfoldable pub heartbeat_among :
    (ℕ → Server → Server)
    → (ℕ → Bool)
    → Server
    → List ℕ
    → String
    → Option (Bool × Option String)
    → ℕ
    → Server × Response
unfolding beat_read report_kick
heartbeat_among others fails s auth id req now =
    let s0 = others 0 s in
    respond s0 (require_host fails s0 auth) (λ host.
      let s1 = others 1 s0 in
      respond s1 (beat_read fails s1 id req host) (λ (room, (online, viewer)).
        let s2 = others 2 s1 in
        write s2 (update_room_heartbeat (fails 2) s2.db id online viewer now) "update failed"
          (λ s'. report_kick fails (others 3 s') id room.kick_requested now)))

-- `handleKick`, likewise.
unfoldable pub kick_among :
    (ℕ → Server → Server) → (ℕ → Bool) → Server → List ℕ → String → ℕ → Server × Response
unfolding own_room
kick_among others fails s auth id now =
    let s0 = others 0 s in
    respond s0 (require_host fails s0 auth) (λ host.
      let s1 = others 1 s0 in
      respond s1 (own_room fails s1 id host) (λ _.
        let s2 = others 2 s1 in
        write s2 (set_room_kick_requested (fails 2) s2.db id true now) "set kick failed"
          (λ s'. (s', success 200 (status_body "kick_requested")))))

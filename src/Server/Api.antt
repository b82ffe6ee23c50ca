-- ===== src/Server/Api.antt =====
-- playgate-server/internal/api/server.go and helpers.go: what the handlers share. A request carries
-- the bytes of its Authorization header, its path value, and its body as encoding/json reads it
-- (none: an error). `fails n` says whether the n-th database call of the request meets a driver
-- error. The random ids, secrets and codes and the clock are arguments. A handler is a request
-- between whose statements no other request runs one; the functions with `_among` in their names
-- have what others do there. A signing that fails is left out, since json.Marshal has no error on
-- the claims.
pub mod Rooms
pub mod Tokens
use playgate.Common.{
  ℕ, zero, suc, ◌+◌, ◌/◌, String, Bool, true, false, not, ◌&&◌, Option, none, some, List, [], ◌∷◌,
  ◌++◌, map, if◌then◌else◌, length, take, drop, str_eq, ltb,
}
use playgate.Common.Int.{ℤ, pos, negsuc, ◌+ℤ◌, ltb_ℤ, leb_ℤ, pos_part}
use playgate.Common.Time.{second, seconds}
use playgate.Common.Result.{Result, ok, err, ◌>>=◌, ◌>>◌, guard, or_fail}
use playgate.Jwt.{Claims, Packages, issue_jwt}
use playgate.Server.Queue as Queue
use playgate.Server.Db.{
  Host, Room, Token, Session, Db, DbError, no_rows, failed, Sqlite, bytes_eq, create_host,
  get_host_by_api_key, create_room, get_room, get_room_by_id_and_host_id, list_rooms_by_host_id,
  update_room_heartbeat, set_room_kick_requested, new_token, create_token, get_token, redeem_token,
  revoke_token, list_tokens_by_room_id, get_token_by_code_and_host_id, create_session,
  count_active_sessions_in_room,
}

pub record RoomInfo : Type 0 where
  pub id : String
  pub name : String
  pub session_seconds : ℤ
  pub online : Bool
  pub current_viewer : Option String
  pub queue_depth : ℕ

pub record TokenInfo : Type 0 where
  pub code : String
  pub status : String
  pub redeemed : Bool
  pub revoked : Bool

pub record RedeemResponse : Type 0 where
  pub session_token : List ℕ
  pub queue_position : ℤ
  pub expires_at : ℤ
  pub room_id : String
  pub viewer_id : String

pub data Body : Type 0 where
  no_content : Body
  error : String → Body
  host_body : String → List ℕ → Body
  room_body : RoomInfo → Body
  rooms_body : List RoomInfo → Body
  heartbeat_body : String → Bool → Body
  status_body : String → Body
  codes_body : List String → Body
  tokens_body : List TokenInfo → Body
  redeem_body : RedeemResponse → Body

pub record Response : Type 0 where
  pub status : ℕ
  pub body : Body

pub record Server : Type 0 where
  pub db : Db
  pub queue : Queue.Counters

-- `writeError`.
abbrev pub failure : ℕ → String → Response
failure status msg = record { status = status; body = error msg }

abbrev pub success : ℕ → Body → Response
success status b = record { status = status; body = b }

abbrev bearer_prefix : List ℕ
bearer_prefix = b'B' ∷ b'e' ∷ b'a' ∷ b'r' ∷ b'e' ∷ b'r' ∷ b' ' ∷ []

-- `bearerToken`.
unfoldable pub bearer_token : List ℕ → List ℕ
bearer_token auth =
    if ltb 7 (length auth) && bytes_eq (take 7 auth) bearer_prefix then drop 7 auth else []

-- A query whose missing row is answered by `missing`, and an error by "db error".
unfoldable pub found {ℓ} : {A : Type ℓ} → Response → Result DbError A → Result Response A
found missing (ok a) = ok a
found missing (err no_rows) = err missing
found missing (err failed) = err (failure 500 "db error")

-- A query whose every error is answered alike.
unfoldable pub found_any {ℓ} : {A : Type ℓ} → Response → Result DbError A → Result Response A
found_any r (ok a) = ok a
found_any r (err _) = err r

-- A read phase that ends the request, or hands over to what writes.
unfoldable pub respond {ℓ} :
    {A : Type ℓ} → Server → Result Response A → (A → Server × Response) → Server × Response
respond s (err r) k = (s, r)
respond s (ok a) k = k a

-- A statement whose error ends the request.
unfoldable pub write :
    Server → Option Db → String → (Server → Server × Response) → Server × Response
write s none msg k = (s, failure 500 msg)
write s (some d) msg k = k (record s { db = d })

-- `requireHost`.
unfoldable pub require_host : (ℕ → Bool) → Server → List ℕ → Result Response Host
require_host fails s auth = do
  guard (not (bytes_eq (bearer_token auth) [])) (failure 401 "missing API key")
  found (failure 401 "invalid API key") (get_host_by_api_key (fails 0) s.db (bearer_token auth))

-- `requireHost` and the host's own room.
unfoldable pub require_room : (ℕ → Bool) → Server → List ℕ → String → Result Response (Host × Room)
require_room fails s auth id = do
  host ← require_host fails s auth
  room ← found (failure 404 "room not found") (get_room_by_id_and_host_id (fails 1) s.db id host.id)
  ok (host, room)

-- ===== src/Server/Db.antt =====
-- playgate-server/internal/db/db.go and schema.go: the tables and the statements on them. A statement
-- that breaks a PRIMARY KEY, UNIQUE or REFERENCES clause of the schema fails and changes nothing.
-- SQLite's clock is `now`, in nanoseconds; `datetime('now')` cuts it to whole seconds.
use playgate.Common.{
  ℕ, ◌*◌, ◌/◌, String, Bool, true, false, not, ◌&&◌, Option, none, some, List, [], ◌∷◌, ◌++◌, map,
  if◌then◌else◌, length, str_eq, ◌==◌,
}
use playgate.Common.Int.{ℤ}
use playgate.Common.Time.{second}
use playgate.Common.Result.{Result, ok, err}

pub record Host : Type 0 where
  pub id : String
  pub api_key : List ℕ
  pub name : String
  pub created_at : ℕ

pub record Room : Type 0 where
  pub id : String
  pub host_id : String
  pub name : String
  pub session_seconds : ℤ
  pub online : Bool
  pub current_viewer : Option String
  pub kick_requested : Bool
  pub created_at : ℕ
  pub updated_at : ℕ

pub record Token : Type 0 where
  pub code : String
  pub room_id : String
  pub host_id : String
  pub redeemed : Bool
  pub revoked : Bool
  pub viewer_id : Option String
  pub created_at : ℕ
  pub redeemed_at : Option ℕ

pub record Session : Type 0 where
  pub id : String
  pub room_id : String
  pub viewer_id : String
  pub token_code : String
  pub jwt : List ℕ
  pub queue_pos : ℤ
  pub active : Bool
  pub created_at : ℕ
  pub expires_at : ℤ

pub record Db : Type 0 where
  pub hosts : List Host
  pub rooms : List Room
  pub tokens : List Token
  pub sessions : List Session

-- sql.ErrNoRows, and any other error.
pub data DbError : Type 0 where
  no_rows failed : DbError

-- What SQLite does with the times it stores: ORDER BY created_at DESC, and
-- expires_at > datetime('now').
pub record Sqlite : Type 0 where
  pub newest_rooms : List Room → List Room
  pub newest_tokens : List Token → List Token
  pub is_later : ℤ → ℕ → Bool

unfoldable pub find_first {ℓ} : {A : Type ℓ} → (A → Bool) → List A → Option A
find_first p [] = none
find_first p (x ∷ xs) = if p x then some x else find_first p xs

abbrev pub has_some {ℓ} : {A : Type ℓ} → Option A → Bool
has_some none = false
has_some (some _) = true

unfoldable pub filter {ℓ} : {A : Type ℓ} → (A → Bool) → List A → List A
filter p [] = []
filter p (x ∷ xs) = let rest = filter p xs in if p x then x ∷ rest else rest

unfoldable pub bytes_eq : List ℕ → List ℕ → Bool
bytes_eq [] [] = true
bytes_eq (x ∷ xs) (y ∷ ys) = (x == y) && bytes_eq xs ys
bytes_eq _ _ = false

-- The first row of a query, unless the driver fails.
unfoldable pub query_row {ℓ} : {A : Type ℓ} → Bool → Option A → Result DbError A
query_row true r = err failed
query_row false none = err no_rows
query_row false (some x) = ok x

-- A statement, unless the driver fails.
unfoldable pub exec : Bool → Option Db → Option Db
exec true r = none
exec false r = r

unfoldable pub host_row : String → List Host → Option Host
host_row id hs = find_first (λ (h : Host). str_eq h.id id) hs

unfoldable pub room_row : String → List Room → Option Room
room_row id rs = find_first (λ (r : Room). str_eq r.id id) rs

unfoldable pub token_row : String → List Token → Option Token
token_row code ts = find_first (λ (t : Token). str_eq t.code code) ts

unfoldable pub session_row : String → List Session → Option Session
session_row id ss = find_first (λ (s : Session). str_eq s.id id) ss

unfoldable pub host_by_key : List ℕ → List Host → Option Host
host_by_key key hs = find_first (λ (h : Host). bytes_eq h.api_key key) hs

-- `CreateHost`.
unfoldable pub create_host : Bool → Db → Host → Option Db
unfolding exec host_row host_by_key
create_host fails d h = exec fails (
    if has_some (host_row h.id d.hosts)
    then none
    else if has_some (host_by_key h.api_key d.hosts)
    then none
    else some (record d { hosts = d.hosts ++ h ∷ [] }))

-- `GetHostByAPIKey`.
unfoldable pub get_host_by_api_key : Bool → Db → List ℕ → Result DbError Host
get_host_by_api_key fails d key = query_row fails (host_by_key key d.hosts)

-- `CreateRoom`: the columns that it does not name have their defaults.
unfoldable pub create_room : Bool → Db → Room → Option Db
create_room fails d r = exec fails (
    if has_some (room_row r.id d.rooms)
    then none
    else if not (has_some (host_row r.host_id d.hosts))
    then none
    else some (record d { rooms = d.rooms ++ (record r { kick_requested = false }) ∷ [] }))

-- `GetRoom`.
unfoldable pub get_room : Bool → Db → String → Result DbError Room
get_room fails d id = query_row fails (room_row id d.rooms)

-- `GetRoomByIDAndHostID`.
unfoldable pub get_room_by_id_and_host_id : Bool → Db → String → String → Result DbError Room
get_room_by_id_and_host_id fails d id host_id =
    query_row fails (find_first (λ (r : Room). str_eq r.id id && str_eq r.host_id host_id) d.rooms)

-- `ListRoomsByHostID`.
unfoldable pub list_rooms_by_host_id : Sqlite → Bool → Db → String → Result DbError (List Room)
list_rooms_by_host_id q fails d host_id =
    if fails
    then err failed
    else ok (q.newest_rooms (filter (λ (r : Room). str_eq r.host_id host_id) d.rooms))

abbrev pub whole_seconds : ℕ → ℕ
whole_seconds now = now / second * second

unfoldable pub heartbeat_row : String → Bool → Option String → ℕ → Room → Room
heartbeat_row id online viewer now r =
    let hit = str_eq r.id id in
    record r {
      online = if hit then online else r.online;
      current_viewer = if hit then viewer else r.current_viewer;
      updated_at = if hit then whole_seconds now else r.updated_at;
    }

-- `UpdateRoomHeartbeat`.
unfoldable pub update_room_heartbeat : Bool → Db → String → Bool → Option String → ℕ → Option Db
update_room_heartbeat fails d id online viewer now =
    exec fails (some (record d { rooms = map (heartbeat_row id online viewer now) d.rooms }))

unfoldable pub kick_row : String → Bool → ℕ → Room → Room
kick_row id requested now r =
    let hit = str_eq r.id id in
    record r {
      kick_requested = if hit then requested else r.kick_requested;
      updated_at = if hit then whole_seconds now else r.updated_at;
    }

-- `SetRoomKickRequested`.
unfoldable pub set_room_kick_requested : Bool → Db → String → Bool → ℕ → Option Db
set_room_kick_requested fails d id requested now =
    exec fails (some (record d { rooms = map (kick_row id requested now) d.rooms }))

unfoldable pub new_token : String → String → String → ℕ → Token
new_token code room_id host_id now = record {
  code = code;
  room_id = room_id;
  host_id = host_id;
  redeemed = false;
  revoked = false;
  viewer_id = none;
  created_at = now;
  redeemed_at = none;
}

-- `CreateToken`.
unfoldable pub create_token : Bool → Db → Token → Option Db
create_token fails d t = exec fails (
    if has_some (token_row t.code d.tokens)
    then none
    else if not (has_some (room_row t.room_id d.rooms))
    then none
    else if not (has_some (host_row t.host_id d.hosts))
    then none
    else some
        (record d { tokens = d.tokens ++ new_token t.code t.room_id t.host_id t.created_at ∷ [] }))

-- `GetToken`.
unfoldable pub get_token : Bool → Db → String → Result DbError Token
get_token fails d code = query_row fails (token_row code d.tokens)

unfoldable pub redeem_row : String → String → ℕ → Token → Token
redeem_row code viewer now t =
    let hit = str_eq t.code code && (not t.redeemed && not t.revoked) in
    record t {
      redeemed = if hit then true else t.redeemed;
      viewer_id = if hit then some viewer else t.viewer_id;
      redeemed_at = if hit then some (whole_seconds now) else t.redeemed_at;
    }

-- `RedeemToken`.
unfoldable pub redeem_token : Bool → Db → String → String → ℕ → Option Db
redeem_token fails d code viewer now =
    exec fails (some (record d { tokens = map (redeem_row code viewer now) d.tokens }))

unfoldable pub revoke_row : String → Token → Token
revoke_row code t = record t {
  revoked = if str_eq t.code code && not t.redeemed then true else t.revoked;
}

-- `RevokeToken`.
unfoldable pub revoke_token : Bool → Db → String → Option Db
revoke_token fails d code = exec fails (some (record d { tokens = map (revoke_row code) d.tokens }))

-- `ListTokensByRoomID`.
unfoldable pub list_tokens_by_room_id : Sqlite → Bool → Db → String → Result DbError (List Token)
list_tokens_by_room_id q fails d room_id =
    if fails
    then err failed
    else ok (q.newest_tokens (filter (λ (t : Token). str_eq t.room_id room_id) d.tokens))

-- `GetTokenByCodeAndHostID`.
unfoldable pub get_token_by_code_and_host_id : Bool → Db → String → String → Result DbError Token
get_token_by_code_and_host_id fails d code host_id =
    query_row fails
      (find_first (λ (t : Token). str_eq t.code code && str_eq t.host_id host_id) d.tokens)

-- `CreateSession`.
unfoldable pub create_session : Bool → Db → Session → Option Db
create_session fails d s = exec fails (
    if has_some (session_row s.id d.sessions)
    then none
    else if not (has_some (room_row s.room_id d.rooms))
    then none
    else if not (has_some (token_row s.token_code d.tokens))
    then none
    else some (record d { sessions = d.sessions ++ s ∷ [] }))

-- `CountActiveSessionsInRoom`: with a driver error the count is 0.
unfoldable pub count_active_sessions_in_room : Sqlite → Bool → Db → String → ℕ → ℕ
count_active_sessions_in_room q fails d room_id now =
    if fails
    then 0
    else length (
        filter
          (λ (s : Session). str_eq s.room_id room_id && (s.active && q.is_later s.expires_at now))
          d.sessions)

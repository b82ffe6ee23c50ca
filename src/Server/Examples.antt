-- ===== src/Server/Examples.antt =====
-- A server with one host, one room of its and one code, and the toy packages of the tokens.
use playgate.Common.{
  ℕ, zero, suc, ◌≡◌, not, ◌&&◌, if◌then◌else◌, refl, String, Bool, true, false, none, some, List,
  [], ◌∷◌, map, eq_iff, arith,
}
use playgate.Common.Int.{pos, ◌+ℤ◌, wrap64}
use playgate.Common.Time.{seconds}
use playgate.Jwt.Examples.{toy, key, claims, toy-Documented}
use playgate.Session.{Manager, policy_queue, new_manager, new_waiting}
use playgate.Server.Queue as Queue
use playgate.Server.Db.{
  Host, Room, Token, Db, Sqlite, find_first, bytes_eq, query_row, exec, host_row, room_row,
  token_row, session_row, host_by_key, get_host_by_api_key, get_room, get_room_by_id_and_host_id,
  update_room_heartbeat, heartbeat_row, set_room_kick_requested, kick_row, new_token, create_token,
  get_token, redeem_token, redeem_row, revoke_token, revoke_row, get_token_by_code_and_host_id,
  create_session,
}
use playgate.Server.Lifecycle.{Run, done, first, revokes, redeems, Unique, OneFate, Run-settled}
use playgate.Server.Requests.{kick, Request-tokens}
use playgate.Server.Redeem.{Open, Redeemed}
use playgate.Server.Interleaved.{RunsStatements, before_mark, redeem_again, revoke-redeem}
use playgate.Server.Race.{redeem_race}
use playgate.Server.Access.{TurnedAway, foreign_refused}
use playgate.Server.Verified.{Welcome, redeem-claim}
use playgate.Server.Api.{
  Response, Server, failure, bearer_token, found, found_any, respond, write, require_host,
  require_room,
}
use playgate.Server.Api.Tokens.{
  Draw, issue_read, issue_loop, check_count, handle_issue_tokens, handle_list_tokens, revoke_read,
  handle_revoke_token, unix, expiry, session_claims, redeem_read, session_row_of, redeem_write,
  handle_redeem_token, open_token, room_of, own_token, store_session, redeem_among, revoke_among,
}
use playgate.Server.Api.Rooms.{
  report_kick, heartbeat_read, heartbeat_write, handle_heartbeat, handle_kick,
}

abbrev host : Host
host = record { id = "host"; api_key = 1 ∷ []; name = "h"; created_at = 0 }

abbrev room : Room
room = record {
  id = "room";
  host_id = "host";
  name = "r";
  session_seconds = pos 60;
  online = true;
  current_viewer = none;
  kick_requested = false;
  created_at = 0;
  updated_at = 0;
}

abbrev token : Token
token = record {
  code = "code";
  room_id = "room";
  host_id = "host";
  redeemed = false;
  revoked = false;
  viewer_id = none;
  created_at = 0;
  redeemed_at = none;
}

abbrev pub server : Server
server = record {
  db = record { hosts = host ∷ []; rooms = room ∷ []; tokens = token ∷ []; sessions = [] };
  queue = Queue.new;
}

abbrev pub fine : ℕ → Bool
fine _ = false

abbrev pub auth : List ℕ
auth = b'B' ∷ b'e' ∷ b'a' ∷ b'r' ∷ b'e' ∷ b'r' ∷ b' ' ∷ 1 ∷ []

abbrev sqlite : Sqlite
sqlite = record { newest_rooms = λ rs. rs; newest_tokens = λ ts. ts; is_later = λ _ _. true }

abbrev draw : Draw
draw = record { viewer_id = "viewer"; session_id = "s1"; now = 1000_000_000_000 }

abbrev draw_2 : Draw
draw_2 = record { viewer_id = "viewer 2"; session_id = "s2"; now = 1000_000_000_000 }

run_open : ℕ
unfolding find_first bytes_eq query_row exec host_row room_row token_row session_row host_by_key
    get_host_by_api_key get_room get_room_by_id_and_host_id update_room_heartbeat heartbeat_row
    set_room_kick_requested kick_row new_token create_token get_token redeem_token redeem_row
    revoke_token revoke_row get_token_by_code_and_host_id create_session bearer_token found
    found_any respond write require_host require_room report_kick heartbeat_read heartbeat_write
    handle_heartbeat handle_kick issue_read issue_loop check_count handle_issue_tokens revoke_read
    handle_revoke_token unix expiry session_claims redeem_read session_row_of redeem_write
    handle_redeem_token open_token room_of own_token store_session redeem_among revoke_among
    new_manager Queue.new Queue.next seconds wrap64 ◌+ℤ◌
run_open = 0

server-Open : Open server "code" token room
unfolding run_open
server-Open = record { stored = refl; fresh = refl; valid = refl; in_room = refl }

Request-tokens_example :
    Run server.db (handle_kick fine server auth "room" 5).0.db
    × Unique (handle_kick fine server auth "room" 5).0.db.tokens
    × OneFate (handle_kick fine server auth "room" 5).0.db.tokens
unfolding run_open
Request-tokens_example =
    Request-tokens toy [] [] sqlite {s = server} (kick fine auth "room" 5) (refl, tt) (refl, tt)

abbrev redeemed : Server
redeemed = (handle_redeem_token toy (3 ∷ []) [] fine server "code" draw).0

abbrev revoked_late : Db
revoked_late = record redeemed.db { tokens = map (revoke_row "code") redeemed.db.tokens }

Run-settled_example :
    token_row "code" revoked_late.tokens ≡ some (redeem_row "code" "viewer" 1000_000_000_000 token)
unfolding run_open
Run-settled_example =
    Run-settled {d = redeemed.db} {e = revoked_late} "code"
      (redeem_row "code" "viewer" 1000_000_000_000 token)
      (first {e = revoked_late} (revokes false "code" refl) done) refl refl

-- Another request revokes the code before the third statement, and redeems it in `late`.
abbrev revoked_by : Server → Server
revoked_by s = record s { db = record (s.db) { tokens = map (revoke_row "code") s.db.tokens } }

abbrev redeemed_by : Server → Server
redeemed_by s = record s {
  db = record (s.db) { tokens = map (redeem_row "code" "other" 7) s.db.tokens };
}

abbrev at_third : (Server → Server) → ℕ → Server → Server
at_third g zero s = s
at_third g (suc zero) s = s
at_third g (suc (suc zero)) s = g s
at_third g (suc (suc (suc n))) s = s

at_third-runs :
    (g : Server → Server) → ((s : Server) → Run s.db (g s).db) → RunsStatements (at_third g)
at_third-runs g r zero s = done
at_third-runs g r (suc zero) s = done
at_third-runs g r (suc (suc zero)) s = r s
at_third-runs g r (suc (suc (suc n))) s = done

revoked_by-runs : (s : Server) → Run s.db (revoked_by s).db
unfolding revoke_token exec
revoked_by-runs s = first {e = (revoked_by s).db} (revokes false "code" refl) done

redeemed_by-runs : (s : Server) → Run s.db (redeemed_by s).db
unfolding redeem_token exec
redeemed_by-runs s = first {e = (redeemed_by s).db} (redeems false "code" "other" 7 refl) done

abbrev redeemed_revoked : Server × Response
redeemed_revoked = redeem_among toy (3 ∷ []) [] (at_third revoked_by) fine server "code" draw

-- The redemption answers 200, though the code was revoked before it was marked.
answers_200 : redeemed_revoked.1.status ≡ 200
unfolding run_open
answers_200 = refl

redeem_again_example :
    (v : Token) × (token_row "code" (before_mark (at_third revoked_by) server).db.tokens ≡ some v)
    × (redeem_among toy (3 ∷ []) [] (at_third redeemed_by) fine redeemed_revoked.0 "code" draw_2 ≡ (
      redeemed_revoked.0,
      if v.revoked then failure 410 "token revoked" else failure 409 "token already redeemed",
    ))
unfolding run_open
redeem_again_example =
    redeem_again toy (3 ∷ []) [] (at_third revoked_by) (at_third redeemed_by) fine fine server
      redeemed_revoked.0 "code" draw draw_2 (at_third-runs revoked_by revoked_by-runs)
      (at_third-runs redeemed_by redeemed_by-runs) refl done refl

abbrev revoked_redeemed : Server × Response
revoked_redeemed = revoke_among (at_third redeemed_by) fine server auth "code"

revoke-redeem_example :
    (v : Token) × (token_row "code" (before_mark (at_third redeemed_by) server).db.tokens ≡ some v)
    × (redeem_among toy (3 ∷ []) [] (at_third revoked_by) fine revoked_redeemed.0 "code" draw ≡ (
      revoked_redeemed.0,
      if v.redeemed && not v.revoked
          then failure 409 "token already redeemed"
          else failure 410 "token revoked",
    ))
unfolding run_open
revoke-redeem_example =
    revoke-redeem toy (3 ∷ []) [] (at_third redeemed_by) (at_third revoked_by) fine fine server
      revoked_redeemed.0 auth "code" draw (refl, tt) (at_third-runs redeemed_by redeemed_by-runs)
      (at_third-runs revoked_by revoked_by-runs) refl done refl

redeem_race_example :
    Redeemed toy
      (3 ∷ [])
      []
      server
      "code"
      draw
      token
      room
      (redeem_write toy (3 ∷ []) [] fine server "code" draw (token, room))
    × Redeemed toy
        (3 ∷ [])
        []
        (redeem_write toy (3 ∷ []) [] fine server "code" draw (token, room)).0
        "code"
        draw_2
        token
        room
        (redeem_write toy
          (3 ∷ [])
          []
          fine
          (redeem_write toy (3 ∷ []) [] fine server "code" draw (token, room)).0
          "code"
          draw_2
          (token, room))
unfolding run_open
redeem_race_example =
    redeem_race toy (3 ∷ []) [] fine fine server "code" draw draw_2 token room refl refl
      (refl, refl, refl, refl) refl refl (λ e. ground (arith, eq_iff "s1" "s2"))

abbrev pub manager : Manager ℕ
manager =
    new_manager
      (record {
        room_id = "room";
        idle_timeout = pos 0;
        tick_interval = pos 0;
        queue_policy = policy_queue;
        max_queue_depth = pos 0;
      })
      (λ _. new_waiting claims) (λ _. record { viewer_id = ""; out = []; closed = true })

redeem-claim_example :
    Welcome toy
      (3 ∷ [])
      []
      key
      manager
      7
      1030
      (handle_redeem_token toy (3 ∷ []) [] fine server "code" draw).1.body
      (session_claims token room draw)
unfolding run_open
redeem-claim_example =
    redeem-claim toy (3 ∷ []) [] key manager fine server "code" draw token room 7 1030
      toy-Documented refl refl server-Open refl (λ e. ground (arith, eq_iff "room" ""))
      (λ e. ground (arith, eq_iff "viewer" "")) (omega arith) (omega arith)

abbrev no_codes : ℕ → String
no_codes _ = "c"

-- Another host with a room and a code.
abbrev den : Room
den = record room { id = "den"; host_id = "other" }

abbrev den_code : Token
den_code = record token { code = "den code"; room_id = "den"; host_id = "other" }

abbrev two_hosts : Server
two_hosts = record server {
  db = record {
    hosts = host ∷ record host { id = "other"; api_key = 2 ∷ [] } ∷ [];
    rooms = room ∷ den ∷ [];
    tokens = token ∷ den_code ∷ [];
    sessions = [];
  };
}

foreign_refused_example :
    TurnedAway fine two_hosts (handle_heartbeat fine two_hosts auth "den" none 5)
    × TurnedAway fine two_hosts (handle_kick fine two_hosts auth "den" 5)
    × TurnedAway fine two_hosts (handle_issue_tokens fine two_hosts auth "den" none no_codes 5)
    × TurnedAway fine two_hosts (handle_list_tokens sqlite fine two_hosts auth "den")
    × TurnedAway fine two_hosts (handle_revoke_token fine two_hosts auth "den code")
unfolding run_open
foreign_refused_example =
    foreign_refused fine two_hosts auth host sqlite "den" "den code" none none no_codes 5 refl refl
      (
        (λ e. absurd (ground (arith, eq_iff "room" "den"))),
        ((λ _ q. absurd (ground (arith, eq_iff "other" "host"))), tt),
      )
      (
        (λ e. absurd (ground (arith, eq_iff "code" "den code"))),
        ((λ _ q. absurd (ground (arith, eq_iff "other" "host"))), tt),
      )

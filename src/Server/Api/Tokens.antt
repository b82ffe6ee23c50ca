-- ===== src/Server/Api/Tokens.antt =====
-- playgate-server/internal/api/server.go: the handlers of codes, up to their redemption.
use playgate.Common.{
  ℕ, zero, suc, ◌+◌, ◌/◌, String, Bool, true, not, Option, none, some, List, [], ◌∷◌, ◌++◌, map,
  if◌then◌else◌,
}
use playgate.Common.Int.{ℤ, pos, negsuc, ◌+ℤ◌, ltb_ℤ, leb_ℤ, pos_part}
use playgate.Common.Time.{second, seconds}
use playgate.Common.Result.{Result, ok, err, ◌>>=◌, ◌>>◌, guard}
use playgate.Jwt.{Claims, Packages, issue_jwt}
use playgate.Server.Queue as Queue
use playgate.Server.Db.{
  Host, Room, Token, Session, Sqlite, get_room, new_token, create_token, get_token, redeem_token,
  revoke_token, list_tokens_by_room_id, get_token_by_code_and_host_id, create_session,
}
use playgate.Server.Api.{
  TokenInfo, Response, Server, failure, success, found, found_any, respond, write, require_host,
  require_room, no_content, codes_body, tokens_body, redeem_body,
}

-- The loop of `handleIssueTokens` with `n` rounds left: `codes` are the random codes to come, and
-- `issued` those that are in.
unfoldable pub issue_loop :
    (ℕ → Bool)
    → Server
    → String
    → String
    → (ℕ → String)
    → ℕ
    → ℕ
    → ℕ
    → List String
    → Server × Response
issue_loop fails s id host_id codes now i zero issued = (s, success 201 (codes_body issued))
issue_loop fails s id host_id codes now i (suc n) issued =
    write s (create_token (fails (2 + i)) s.db (new_token (codes i) id host_id now))
      "create token failed"
      (λ s'. issue_loop fails s' id host_id codes now (suc i) n (issued ++ codes i ∷ []))

-- The checks on `count`.
unfoldable pub check_count : Option ℤ → Result Response ℕ
check_count none = err (failure 400 "count must be > 0")
check_count (some n) =
    if leb_ℤ n (pos 0)
    then err (failure 400 "count must be > 0")
    else if ltb_ℤ (pos 100) n
    then err (failure 400 "count must be <= 100")
    else ok (pos_part n)

-- `handleIssueTokens` up to its loop.
unfoldable pub issue_read :
    (ℕ → Bool) → Server → List ℕ → String → Option ℤ → Result Response (Host × ℕ)
issue_read fails s auth id req = do
  (host, room) ← require_room fails s auth id
  n ← check_count req
  ok (host, n)

-- `handleIssueTokens`.
unfoldable pub handle_issue_tokens :
    (ℕ → Bool) → Server → List ℕ → String → Option ℤ → (ℕ → String) → ℕ → Server × Response
handle_issue_tokens fails s auth id req codes now =
    respond s (issue_read fails s auth id req)
      (λ (host, n). issue_loop fails s id host.id codes now 0 n [])

abbrev token_status : Token → String
token_status t = if t.revoked then "revoked" else if t.redeemed then "redeemed" else "issued"

unfoldable pub token_info : Token → TokenInfo
token_info t = record {
  code = t.code;
  status = token_status t;
  redeemed = t.redeemed;
  revoked = t.revoked;
}

-- `handleListTokens`.
unfoldable pub handle_list_tokens :
    Sqlite → (ℕ → Bool) → Server → List ℕ → String → Server × Response
handle_list_tokens q fails s auth id =
    respond s
      (do
        _ ← require_room fails s auth id
        found_any (failure 500 "db error") (list_tokens_by_room_id q (fails 2) s.db id))
      (λ tokens. (s, success 200 (tokens_body (map token_info tokens))))

-- The second statement of `handleRevokeToken`, and the checks on its token.
unfoldable pub own_token : (ℕ → Bool) → Server → String → Host → Result Response Token
own_token fails s code host = do
  t ←
      found (failure 404 "token not found")
        (get_token_by_code_and_host_id (fails 1) s.db code host.id)
  guard (not t.redeemed) (failure 409 "token already redeemed")
  guard (not t.revoked) (failure 409 "token already revoked")
  ok t

-- `handleRevokeToken` up to the statement that revokes.
unfoldable pub revoke_read : (ℕ → Bool) → Server → List ℕ → String → Result Response Token
unfolding own_token
revoke_read fails s auth code = do host ← require_host fails s auth; own_token fails s code host

-- `handleRevokeToken`, where no other request runs a statement meanwhile.
unfoldable pub handle_revoke_token : (ℕ → Bool) → Server → List ℕ → String → Server × Response
handle_revoke_token fails s auth code = respond s (revoke_read fails s auth code) (λ _.
    write s (revoke_token (fails 2) s.db code) "revoke failed" (λ s'. (s', success 204 no_content)))

-- `handleRevokeToken`, where `others i` is what other requests do to the server before its i-th
-- statement.
unfoldable pub revoke_among :
    (ℕ → Server → Server) → (ℕ → Bool) → Server → List ℕ → String → Server × Response
unfolding own_token
revoke_among others fails s auth code =
    let s0 = others 0 s in
    respond s0 (require_host fails s0 auth) (λ host.
      let s1 = others 1 s0 in
      respond s1 (own_token fails s1 code host) (λ _.
        let s2 = others 2 s1 in
        write s2 (revoke_token (fails 2) s2.db code) "revoke failed"
          (λ s'. (s', success 204 no_content))))

-- What a redemption draws: two ids and the time.
pub record Draw : Type 0 where
  pub viewer_id : String
  pub session_id : String
  pub now : ℕ

-- `t.Unix()` of a time in nanoseconds.
unfoldable pub unix : ℤ → ℤ
unix (pos n) = pos (n / second)
unix (negsuc n) = negsuc (n / second)

unfoldable pub expiry : Room → ℕ → ℤ
expiry room now = pos now +ℤ seconds room.session_seconds

-- The claims that `handleRedeemToken` signs.
unfoldable pub session_claims : Token → Room → Draw → Claims
session_claims t room w = record {
  issuer = "playgate-server";
  issued_at = unix (pos w.now);
  expires_at = unix (expiry room w.now);
  room_id = t.room_id;
  viewer_id = w.viewer_id;
  session_seconds = room.session_seconds;
}

-- The first statement of `handleRedeemToken`, and the checks on its token.
unfoldable pub open_token : (ℕ → Bool) → Server → String → Result Response Token
open_token fails s code = do
  t ← found (failure 404 "token not found") (get_token (fails 0) s.db code)
  guard (not t.revoked) (failure 410 "token revoked")
  guard (not t.redeemed) (failure 409 "token already redeemed")
  ok t

-- Its second statement.
unfoldable pub room_of : (ℕ → Bool) → Server → Token → Result Response Room
room_of fails s t = found_any (failure 500 "room not found") (get_room (fails 1) s.db t.room_id)

-- `handleRedeemToken` up to the statement that redeems: the token and its room.
unfoldable pub redeem_read : (ℕ → Bool) → Server → String → Result Response (Token × Room)
unfolding open_token room_of
redeem_read fails s code = do t ← open_token fails s code; room ← room_of fails s t; ok (t, room)

module _ (k : Packages) (header_json private_key : List ℕ) where
  unfoldable pub session_row_of : String → Token → Room → Draw → ℤ → Session
  session_row_of code t room w queue_pos = record {
    id = w.session_id;
    room_id = t.room_id;
    viewer_id = w.viewer_id;
    token_code = code;
    jwt = issue_jwt k header_json private_key (session_claims t room w);
    queue_pos = queue_pos;
    active = true;
    created_at = w.now;
    expires_at = expiry room w.now;
  }

  -- The end of `handleRedeemToken`, with the position drawn.
  unfoldable pub store_session :
      (ℕ → Bool) → Server → String → Draw → Token → Room → ℤ → Server × Response
  store_session fails s code w t room queue_pos =
      write s (create_session (fails 3) s.db (session_row_of code t room w queue_pos))
        "create session failed"
        (λ s'. (
          s',
          success 200 (
              redeem_body (record {
                session_token = issue_jwt k header_json private_key (session_claims t room w);
                queue_position = queue_pos;
                expires_at = unix (expiry room w.now);
                room_id = t.room_id;
                viewer_id = w.viewer_id;
              })),
        ))

  -- `handleRedeemToken` from the statement that redeems on.
  unfoldable pub redeem_write :
      (ℕ → Bool) → Server → String → Draw → Token × Room → Server × Response
  unfolding store_session
  redeem_write fails s code w (t, room) =
      write s (redeem_token (fails 2) s.db code w.viewer_id w.now) "redeem failed" (λ s'.
        let (counters, queue_pos) = Queue.next s'.queue t.room_id in
        store_session fails (record s' { queue = counters }) code w t room queue_pos)

  -- `handleRedeemToken`, where no other request runs a statement meanwhile.
  unfoldable pub handle_redeem_token : (ℕ → Bool) → Server → String → Draw → Server × Response
  handle_redeem_token fails s code w =
      respond s (redeem_read fails s code) (redeem_write fails s code w)

  -- `handleRedeemToken`, where `others i` is what other requests do to the server before its i-th
  -- statement; the queue's position is the one numbered 3.
  unfoldable pub redeem_among :
      (ℕ → Server → Server) → (ℕ → Bool) → Server → String → Draw → Server × Response
  unfolding open_token room_of store_session
  redeem_among others fails s code w =
      let s0 = others 0 s in
      respond s0 (open_token fails s0 code) (λ t.
        let s1 = others 1 s0 in
        respond s1 (room_of fails s1 t) (λ room.
          let s2 = others 2 s1 in
          write s2 (redeem_token (fails 2) s2.db code w.viewer_id w.now) "redeem failed" (λ s'.
            let s3 = others 3 s' in
            let (counters, queue_pos) = Queue.next s3.queue t.room_id in
            store_session fails (others 4 (record s3 { queue = counters })) code w t room
              queue_pos)))

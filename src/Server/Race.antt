-- ===== src/Server/Race.antt =====
-- Two redemptions of one code at the same time: SQLite runs one statement at a time, but nothing
-- joins the statements of a request.
use playgate.Common.{
  ℕ, ◌≡◌, ◌≢◌, refl, String, Bool, false, none, some, List, [], ◌∷◌, ◌++◌, map, str_eq, eq_iff,
  arith,
}
use playgate.Common.Result.{ok}
use playgate.Jwt.{Packages}
use playgate.Server.Queue as Queue
use playgate.Server.Db.{
  Room, Token, Session, find_first, token_row, room_row, session_row, exec, redeem_token,
  redeem_row, create_session,
}
use playgate.Server.Lifecycle.{find_first-map}
use playgate.Server.Redeem.{Redeemed, redeem_read-Open, redeem_write-Redeemed, redeemed_row}
use playgate.Server.Api.{Server, write}
use playgate.Server.Api.Tokens.{Draw, session_row_of, redeem_read, redeem_write}

session_row-snoc :
    (id : String) (ss : List Session) (x : Session)
    → session_row id ss ≡ none
    → x.id ≢ id
    → session_row id (ss ++ x ∷ []) ≡ none
unfolding session_row find_first
session_row-snoc id [] x h ne = ground (arith, eq_iff x.id id)
session_row-snoc id (z ∷ ss) x h ne = ground (arith, session_row-snoc id ss x, eq_iff x.id id)

token_row-redeem :
    (ts : List Token) (code : String) (w : Draw) (t : Token)
    → token_row code ts ≡ some t
    → token_row code (map (redeem_row code w.viewer_id w.now) ts)
      ≡ some (redeem_row code w.viewer_id w.now t)
unfolding token_row
token_row-redeem ts code w t h =
    find_first-map (λ (t : Token). str_eq t.code code) (redeem_row code w.viewer_id w.now) ts
      {x = t} (λ y. unfold redeem_row in refl) h

module _ (k : Packages) (header_json private_key : List ℕ) where
  -- The write phase answers 200 where the room and the code are stored and the session's id is not.
  redeem_write_ok :
      (fails : ℕ → Bool) (s : Server) (code : String) (w : Draw) (t u : Token) (room r : Room)
      → fails 2 ≡ false
      → fails 3 ≡ false
      → token_row code (map (redeem_row code w.viewer_id w.now) s.db.tokens) ≡ some u
      → room_row t.room_id s.db.rooms ≡ some r
      → session_row w.session_id s.db.sessions ≡ none
      → (redeem_write k header_json private_key fails s code w (t, room)).1.status ≡ 200
  unfolding redeem_write write redeem_token create_session exec session_row_of
  redeem_write_ok fails s code w t u room r f2 f3 tok rm fresh = ground (arith, tok, rm, fresh)

  -- Two redemptions of one code that both read before either writes, meet no driver error and draw
  -- session ids that are new and differ, both answer 200, each with a session token for its own
  -- viewer; both sessions are stored.
  pub redeem_race :
      (fails fails' : ℕ → Bool) (s : Server) (code : String) (w w' : Draw) (t : Token) (room : Room)
      → redeem_read fails s code ≡ ok (t, room)
      → redeem_read fails' s code ≡ ok (t, room)
      → (fails 2 ≡ false) × (fails 3 ≡ false) × (fails' 2 ≡ false) × (fails' 3 ≡ false)
      → session_row w.session_id s.db.sessions ≡ none
      → session_row w'.session_id s.db.sessions ≡ none
      → w.session_id ≢ w'.session_id
      → let one = redeem_write k header_json private_key fails s code w (t, room) in
        let two = redeem_write k header_json private_key fails' one.0 code w' (t, room) in
        Redeemed k header_json private_key s code w t room one
        × Redeemed k header_json private_key one.0 code w' t room two
  redeem_race fails fails' s code w w' t room read read' (f2, f3, g2, g3) new new' differ =
      let o = redeem_read-Open fails s code t room read in
      let (row, red, rev, _) = redeemed_row k header_json private_key s code w t room o in
      let a =
        redeem_write-Redeemed k header_json private_key fails s code w t room
          (redeem_write_ok fails s code w t _ room room f2 f3 row o.in_room new) in
      let one = redeem_write k header_json private_key fails s code w (t, room) in
      let u = redeem_row code w.viewer_id w.now t in
      let kept : token_row code one.0.db.tokens ≡ some u = rw a.tokens row in
      let row' = token_row-redeem one.0.db.tokens code w' u kept in
      let in_room : room_row t.room_id one.0.db.rooms ≡ some room = rw (a.others.0) o.in_room in
      let mine =
        session_row_of k header_json private_key code t room w (Queue.next s.queue t.room_id).1 in
      let fresh : session_row w'.session_id one.0.db.sessions ≡ none = rw a.sessions (
        session_row-snoc w'.session_id s.db.sessions mine new' (unfold session_row_of in differ)) in
      (
        a,
        redeem_write-Redeemed k header_json private_key fails' one.0 code w' t room
            (redeem_write_ok fails' one.0 code w' t _ room room g2 g3 row' in_room fresh),
      )

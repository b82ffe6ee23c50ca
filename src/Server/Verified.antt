-- ===== src/Server/Verified.antt =====
-- From a redemption at the server to control at the host.
use playgate.Common.{
  ℕ, ◌≡◌, ◌≢◌, refl, sym, subst, String, Bool, true, some, List, str_eq, eq_iff, arith,
}
use playgate.Common.Int.{ℤ, pos, ◌<ℤ◌}
use playgate.Common.Result.{ok}
use playgate.Jwt.{Claims, Packages, issue_jwt, parse_and_verify}
use playgate.Jwt.RoundTrip.{Documented, issue-parse_and_verify}
use playgate.Session.{Manager}
use playgate.Session.Control.{claim, claim_locked}
use playgate.Server.Db.{Room, Token, room_row}
use playgate.Server.Queue as Queue
use playgate.Server.Redeem.{Open, Redeemed, redeem-Redeemed}
use playgate.Server.Api.{Server, Body, redeem_body}
use playgate.Server.Api.Tokens.{Draw, unix, expiry, session_claims, handle_redeem_token}

module _ (k : Packages) (header_json private_key public_key : List ℕ) where
  -- What the host makes of an answer's session token, at the Unix time `later`.
  pub record Welcome {Cmd : Type 0} (m : Manager Cmd) (now later : ℕ) (b : Body) (c : Claims)
      : Type 0 where
    pub token : List ℕ
    pub position : ℤ
    pub expires : ℤ
    pub answer :
        b
        ≡ redeem_body (record {
          session_token = token;
          queue_position = position;
          expires_at = expires;
          room_id = c.room_id;
          viewer_id = c.viewer_id;
        })
    pub valid : parse_and_verify k token public_key (pos later) ≡ ok c
    pub claimed :
        claim m (parse_and_verify k token public_key (pos later)) now ≡ claim_locked m c now

  -- Where the packages do what they document, a redemption that answers 200, for a stored room and
  -- a viewer with names that are not empty and a positive session time, gives a session token that
  -- the host of that room, holding the server's public key, accepts until the expiry, if the
  -- claims' JSON reads back as it was: the claim for control goes ahead, for the viewer and the
  -- time that the server has signed.
  pub redeem-claim :
      {Cmd : Type 0} (m : Manager Cmd) (fails : ℕ → Bool) (s : Server) (code : String) (w : Draw)
      (t : Token) (room : Room) (now later : ℕ)
      → Documented k header_json private_key public_key
      → k.unmarshal_claims (k.marshal_claims (session_claims t room w))
        ≡ some (session_claims t room w)
      → (handle_redeem_token k header_json private_key fails s code w).1.status ≡ 200
      → Open s code t room
      → m.cfg.room_id ≡ t.room_id
      → t.room_id ≢ ""
      → w.viewer_id ≢ ""
      → pos 0 <ℤ room.session_seconds
      → pos later <ℤ unix (expiry room w.now)
      → Welcome m now later
          (handle_redeem_token k header_json private_key fails s code w).1.body
          (session_claims t room w)
  redeem-claim m fails s code w t room now later doc marshals h o here no_room no_viewer time
        fresh =
      let (t', room', o', r) = redeem-Redeemed k header_json private_key fails s code w h in
      let q : t' ≡ t = let a = o'.stored in let b = o.stored in cc in
      let in_room : room_row t.room_id s.db.rooms ≡ some room' =
        subst (λ (x : Token). room_row x.room_id s.db.rooms ≡ some room') q o'.in_room in
      let q' : room' ≡ room = let b = o.in_room in cc in
      let c = session_claims t room w in
      let accepted : parse_and_verify k (issue_jwt k header_json private_key c) public_key
            (pos later)
          ≡ ok c =
        issue-parse_and_verify k header_json private_key public_key doc c (pos later) marshals (
          unfold session_claims in
          record {
            has_exp = λ e. absurd (ground (arith, fresh, e));
            unexpired = fresh;
            has_room = no_room;
            has_viewer = no_viewer;
            has_time = time;
          }) in
      let u = handle_redeem_token k header_json private_key fails s code w in
      let moved : Redeemed k header_json private_key s code w t room u =
        subst (λ x. Redeemed k header_json private_key s code w t x u) q'
          (subst (λ x. Redeemed k header_json private_key s code w x room' u) q r) in
      let same_room : str_eq t.room_id m.cfg.room_id ≡ true =
        (eq_iff t.room_id m.cfg.room_id).1 (sym here) in
      record {
        token = issue_jwt k header_json private_key c;
        position = (Queue.next s.queue t.room_id).1;
        expires = unix (expiry room w.now);
        answer = unfold session_claims in moved.answer;
        valid = accepted;
        claimed = rw accepted (unfold claim session_claims in rw same_room refl);
      }

-- ===== src/Server/Redeem.antt =====
-- What a redemption does, where no other request runs a statement meanwhile.
use playgate.Common.{
  ℕ, ◌≡◌, ◌≢◌, refl, String, Bool, true, false, some, List, [], ◌∷◌, ◌++◌, map, str_eq, arith, inl,
  inr, ◌⊎◌,
}
use playgate.Common.Result.{Result, ok, err}
use playgate.Jwt.{Packages, issue_jwt}
use playgate.Server.Queue as Queue
use playgate.Server.Db.{
  Room, Token, find_first, query_row, token_row, room_row, exec, get_token, get_room, redeem_token,
  redeem_row, create_session,
}
use playgate.Server.Lifecycle.{find_first-map}
use playgate.Server.Api.{Response, Server, redeem_body, found, found_any, respond, write}
use playgate.Server.Api.Tokens.{
  Draw, expiry, unix, session_claims, session_row_of, redeem_read, redeem_write,
  handle_redeem_token,
}

pub Result-cases {ℓ κ} :
    {E : Type ℓ} {A : Type κ} (r : Result E A) → ((a : A) × (r ≡ ok a)) ⊎ ((e : E) × (r ≡ err e))
Result-cases (ok a) = inl (a, refl)
Result-cases (err e) = inr (e, refl)

pub find_first_holds {ℓ} :
    {A : Type ℓ} (p : A → Bool) (xs : List A) {x : A} → find_first p xs ≡ some x → p x ≡ true
unfolding find_first
find_first_holds p [] h = cc
find_first_holds p (z ∷ xs) {x} h = ground (arith, find_first_holds p xs {x = x})

-- A token that can be redeemed, and its room.
pub record Open (s : Server) (code : String) (t : Token) (room : Room) : Type 0 where
  pub stored : token_row code s.db.tokens ≡ some t
  pub fresh : t.redeemed ≡ false
  pub valid : t.revoked ≡ false
  pub in_room : room_row t.room_id s.db.rooms ≡ some room

pub redeem_read-Open :
    (fails : ℕ → Bool) (s : Server) (code : String) (t : Token) (room : Room)
    → redeem_read fails s code ≡ ok (t, room)
    → Open s code t room
unfolding redeem_read found found_any get_token get_room query_row
redeem_read-Open fails s code t room h = record {
  stored = ground arith;
  fresh = ground arith;
  valid = ground arith;
  in_room = ground arith;
}

redeem_read_refuses :
    (fails : ℕ → Bool) (s : Server) (code : String) (e : Response)
    → redeem_read fails s code ≡ err e
    → e.status ≢ 200
unfolding redeem_read found found_any get_token get_room query_row
redeem_read_refuses fails s code e h = ground arith

module _ (k : Packages) (header_json private_key : List ℕ) where
  -- What a redemption that succeeds has done and says, for the token `t` of the room `room`.
  pub record Redeemed (s : Server) (code : String) (w : Draw) (t : Token) (room : Room)
      (r : Server × Response) : Type 0 where
    pub status : r.1.status ≡ 200
    pub tokens : r.0.db.tokens ≡ map (redeem_row code w.viewer_id w.now) s.db.tokens
    pub sessions :
        r.0.db.sessions
        ≡ s.db.sessions
          ++ session_row_of k header_json private_key code t room w (Queue.next s.queue t.room_id).1
            ∷ []
    pub others : (r.0.db.rooms ≡ s.db.rooms) × (r.0.db.hosts ≡ s.db.hosts)
    pub queue : r.0.queue ≡ (Queue.next s.queue t.room_id).0
    pub answer :
        r.1.body
        ≡ redeem_body (record {
          session_token = issue_jwt k header_json private_key (session_claims t room w);
          queue_position = (Queue.next s.queue t.room_id).1;
          expires_at = unix (expiry room w.now);
          room_id = t.room_id;
          viewer_id = w.viewer_id;
        })

  pub redeem_write-Redeemed :
      (fails : ℕ → Bool) (s : Server) (code : String) (w : Draw) (t : Token) (room : Room)
      → (redeem_write k header_json private_key fails s code w (t, room)).1.status ≡ 200
      → Redeemed s code w t room (redeem_write k header_json private_key fails s code w (t, room))
  unfolding redeem_write write redeem_token create_session exec
  redeem_write-Redeemed fails s code w t room h = record {
    status = h;
    tokens = ground arith;
    sessions = ground arith;
    others = (ground arith, ground arith);
    queue = ground arith;
    answer = ground arith;
  }

  -- A redemption that answers 200, while no other request runs a statement, found a stored token, neither redeemed nor revoked, in a stored room;
  -- it has redeemed that token for the viewer it names, stored one session, taken one position of
  -- the room's queue, and its answer carries a session token signed over this room, viewer and time.
  pub redeem-Redeemed :
      (fails : ℕ → Bool) (s : Server) (code : String) (w : Draw)
      → let r = handle_redeem_token k header_json private_key fails s code w in
        r.1.status ≡ 200
        → (t : Token) × (room : Room) × Open s code t room × Redeemed s code w t room r
  unfolding handle_redeem_token respond
  redeem-Redeemed fails s code w = go (redeem_read fails s code) refl
    where
      go :
          (r : Result Response (Token × Room))
          → redeem_read fails s code ≡ r
          → let u = respond s r (redeem_write k header_json private_key fails s code w) in
            u.1.status ≡ 200
            → (t : Token) × (room : Room) × Open s code t room × Redeemed s code w t room u
      go (ok (t, room)) e h = (
        t,
        room,
        redeem_read-Open fails s code t room e,
        redeem_write-Redeemed fails s code w t room h,
      )
      go (err r) e h = absurd (redeem_read_refuses fails s code r e h)

  -- The row of a token just redeemed.
  pub redeemed_row :
      (s : Server) (code : String) (w : Draw) (t : Token) (room : Room)
      → Open s code t room
      → let u = redeem_row code w.viewer_id w.now t in
        (token_row code (map (redeem_row code w.viewer_id w.now) s.db.tokens) ≡ some u)
        × (u.redeemed ≡ true)
        × (u.revoked ≡ false)
        × (u.viewer_id ≡ some w.viewer_id)
  redeemed_row s code w t room o =
      let row =
        find_first-map (λ (t : Token). str_eq t.code code) (redeem_row code w.viewer_id w.now)
          s.db.tokens {x = t} (λ y. unfold redeem_row in refl) (unfold token_row in o.stored) in
      let c =
        find_first_holds (λ (t : Token). str_eq t.code code) s.db.tokens {x = t}
          (unfold token_row in o.stored) in
      (
        unfold token_row in row,
        unfold redeem_row in ground (arith, c, o.fresh, o.valid),
        unfold redeem_row in o.valid,
        unfold redeem_row in ground (arith, c, o.fresh, o.valid),
      )

-- ===== src/Server/Interleaved.antt =====
-- Redemptions and revocations between whose statements other requests run statements of their own.
use playgate.Common.{
  ℕ, ◌≡◌, ◌≢◌, refl, sym, ◌∙◌, ap, subst, String, Bool, true, false, ◌&&◌, not, some, List, [], ◌∷◌,
  ◌++◌, map, if◌then◌else◌, str_eq, arith, inl, inr, ◌⊎◌, Bool-cases,
}
use playgate.Common.Int.{ℤ}
use playgate.Common.Result.{Result, ok, err}
use playgate.Jwt.{Packages, issue_jwt}
use playgate.Server.Queue as Queue
use playgate.Server.Db.{
  Host, Room, Token, Db, find_first, query_row, get_host_by_api_key, token_row, room_row, exec,
  get_token, get_room, redeem_token, redeem_row, revoke_token, revoke_row, create_session,
  get_token_by_code_and_host_id,
}
use playgate.Server.Lifecycle.{
  Unique, Unique-row, Run, done, first, Run-settled, Run-Unique, Change, same, added, redeemed_one,
  revoked_one, Statement-Change, find_first-map, find_first-append, IsSettled,
}
use playgate.Server.Redeem.{find_first_holds}
use playgate.Server.Api.{
  Response, Server, redeem_body, failure, found, found_any, respond, write, require_host,
}
use playgate.Server.Api.Tokens.{
  Draw, expiry, unix, session_claims, session_row_of, open_token, room_of, own_token, store_session,
  redeem_among, revoke_among,
}

-- Other requests run statements of db.go.
abbrev pub RunsStatements : (ℕ → Server → Server) → Type 0
RunsStatements others = (i : ℕ) (s : Server) → Run s.db (others i s).db

redeem_row_fate :
    (c viewer : String) (now : ℕ) (t : Token)
    → (redeem_row c viewer now t ≡ t) ⊎ IsSettled (redeem_row c viewer now t)
unfolding redeem_row
redeem_row_fate c viewer now t =
    elim (Bool-cases (str_eq t.code c && (not t.redeemed && not t.revoked))) [
      | inl e ↦ inr (rw e refl)
      | inr e ↦ inl (rw e refl)
    ]

revoke_row_fate : (c : String) (t : Token) → (revoke_row c t ≡ t) ⊎ IsSettled (revoke_row c t)
unfolding revoke_row
revoke_row_fate c t = elim (Bool-cases (str_eq t.code c && not t.redeemed)) [
  | inl e ↦ inr (rw e (ground arith))
  | inr e ↦ inl (rw e refl)
]

-- A row under a statement stays, or is settled.
Change-row :
    {ts us : List Token} (code : String) (t : Token)
    → Change ts us
    → token_row code ts ≡ some t
    → (v : Token) × (token_row code us ≡ some v) × ((v ≡ t) ⊎ IsSettled v)
unfolding token_row
Change-row code t same h = (t, h, inl refl)
Change-row {ts} code t (added c room host now new) h = (t, find_first-append _ ts _ h, inl refl)
Change-row {ts} code t (redeemed_one c viewer now) h = (
  redeem_row c viewer now t,
  find_first-map (λ (t : Token). str_eq t.code code) (redeem_row c viewer now) ts
      (λ y. unfold redeem_row in refl) h,
  redeem_row_fate c viewer now t,
)
Change-row {ts} code t (revoked_one c) h = (
  revoke_row c t,
  find_first-map (λ (t : Token). str_eq t.code code) (revoke_row c) ts
      (λ y. unfold revoke_row in refl) h,
  revoke_row_fate c t,
)

-- A stored row stays, or is settled, whatever statements run.
Run-row :
    {d e : Db} (code : String) (t : Token)
    → Run d e
    → token_row code d.tokens ≡ some t
    → (v : Token) × (token_row code e.tokens ≡ some v) × ((v ≡ t) ⊎ IsSettled v)
Run-row code t done h = (t, h, inl refl)
Run-row {d} {e} code t (first {e = mid} st r) h =
    let (u, stored, fate) = Change-row code t (Statement-Change st) h in
    elim fate [
      | inl q ↦ Run-row code t r (subst (λ x. token_row code mid.tokens ≡ some x) q stored)
      | inr settled ↦ (u, Run-settled code u r stored settled, inr settled)
    ]

Run-append : {d e f : Db} → Run d e → Run e f → Run d f
Run-append done r = r
Run-append (first st q) r = first st (Run-append q r)

-- A statement that settles the row of a code, where it was stored.
redeem_row-IsSettled :
    (ts : List Token) (code viewer : String) (now : ℕ) (v : Token)
    → token_row code ts ≡ some v
    → (token_row code (map (redeem_row code viewer now) ts) ≡ some (redeem_row code viewer now v))
      × IsSettled (redeem_row code viewer now v)
unfolding token_row
redeem_row-IsSettled ts code viewer now v h =
    let c = find_first_holds (λ (t : Token). str_eq t.code code) ts {x = v} h in
    (
      find_first-map (λ (t : Token). str_eq t.code code) (redeem_row code viewer now) ts {x = v}
          (λ y. unfold redeem_row in refl) h,
      unfold redeem_row in ground (arith, c),
    )

revoke_row-IsSettled :
    (ts : List Token) (code : String) (v : Token)
    → token_row code ts ≡ some v
    → (token_row code (map (revoke_row code) ts) ≡ some (revoke_row code v))
      × IsSettled (revoke_row code v)
unfolding token_row
revoke_row-IsSettled ts code v h =
    let c = find_first_holds (λ (t : Token). str_eq t.code code) ts {x = v} h in
    (
      find_first-map (λ (t : Token). str_eq t.code code) (revoke_row code) ts {x = v}
          (λ y. unfold revoke_row in refl) h,
      unfold revoke_row in ground (arith, c),
    )

-- What a redemption says of a row after a revocation, in terms of the row before it.
revoked_answer {ℓ} :
    {A : Type ℓ} (code : String) (v : Token) (gone conflict : A)
    → str_eq v.code code ≡ true
    → (if (revoke_row code v).revoked then gone else conflict)
      ≡ (if v.redeemed && not v.revoked then conflict else gone)
unfolding revoke_row
revoked_answer code v gone conflict c = ground arith

-- The answer of a part of a handler, where the part goes on only without an error.
pub respond-success {ℓ} :
    {A : Type ℓ} (status : ℕ) (s : Server) (r : Result Response A) (k : A → Server × Response)
    → ((e : Response) → r ≡ err e → e.status ≢ status)
    → (respond s r k).1.status ≡ status
    → (a : A) × (r ≡ ok a) × (respond s r k ≡ k a)
unfolding respond
respond-success status s (ok a) k h e = (a, refl, refl)
respond-success status s (err x) k h e = absurd (h x refl e)

open_token-refuses :
    (fails : ℕ → Bool) (s : Server) (code : String) (e : Response)
    → open_token fails s code ≡ err e
    → e.status ≢ 200
unfolding open_token found get_token query_row
open_token-refuses fails s code e h = ground arith

room_of-refuses :
    (fails : ℕ → Bool) (s : Server) (t : Token) (e : Response)
    → room_of fails s t ≡ err e
    → e.status ≢ 200
unfolding room_of found_any get_room query_row
room_of-refuses fails s t e h = ground arith

open_token-found :
    (fails : ℕ → Bool) (s : Server) (code : String) (t : Token)
    → open_token fails s code ≡ ok t
    → (token_row code s.db.tokens ≡ some t) × (t.redeemed ≡ false) × (t.revoked ≡ false)
unfolding open_token found get_token query_row
open_token-found fails s code t h = (ground arith, ground arith, ground arith)

room_of-found :
    (fails : ℕ → Bool) (s : Server) (t : Token) (room : Room)
    → room_of fails s t ≡ ok room
    → room_row t.room_id s.db.rooms ≡ some room
unfolding room_of found_any get_room query_row
room_of-found fails s t room h = ground arith

-- The server as the statement that redeems finds it, and as it leaves it.
abbrev pub before_mark : (ℕ → Server → Server) → Server → Server
before_mark others s = others 2 (others 1 (others 0 s))

abbrev pub after_mark : (ℕ → Server → Server) → Server → String → Draw → Server
after_mark others s code w =
    let s2 : Server = before_mark others s in
    record s2 {
      db = record (s2.db) { tokens = map (redeem_row code w.viewer_id w.now) s2.db.tokens };
    }

-- The server as the position is drawn, and as the session is stored.
abbrev pub at_draw : (ℕ → Server → Server) → Server → String → Draw → Server
at_draw others s code w = others 3 (after_mark others s code w)

abbrev pub at_store : (ℕ → Server → Server) → Server → String → Draw → Token → Server
at_store others s code w t =
    let s3 : Server = at_draw others s code w in
    others 4 (record s3 { queue = (Queue.next s3.queue t.room_id).0 })

write-redeemed :
    (b : Bool) (s : Server) (code viewer : String) (now : ℕ) (k : Server → Server × Response)
    → (write s (redeem_token b s.db code viewer now) "redeem failed" k).1.status ≡ 200
    → write s (redeem_token b s.db code viewer now) "redeem failed" k
      ≡ k (record s {
        db = record (s.db) { tokens = map (redeem_row code viewer now) s.db.tokens };
      })
unfolding write redeem_token exec
write-redeemed true s code viewer now k h = absurd (omega (arith, h))
write-redeemed false s code viewer now k h = refl

write-revoked :
    (b : Bool) (s : Server) (code : String) (k : Server → Server × Response)
    → (write s (revoke_token b s.db code) "revoke failed" k).1.status ≡ 204
    → write s (revoke_token b s.db code) "revoke failed" k
      ≡ k (record s { db = record (s.db) { tokens = map (revoke_row code) s.db.tokens } })
unfolding write revoke_token exec
write-revoked true s code k h = absurd (omega (arith, h))
write-revoked false s code k h = refl

module _ (k : Packages) (header_json private_key : List ℕ) where
  -- What a redemption that succeeds leaves and says, for the token `t` of the room `room`.
  pub record RedeemedAmong (others : ℕ → Server → Server) (s : Server) (code : String) (w : Draw)
      (t : Token) (room : Room) (r : Server × Response) : Type 0 where
    pub stored : token_row code (others 0 s).db.tokens ≡ some t
    pub fresh : t.redeemed ≡ false
    pub valid : t.revoked ≡ false
    pub in_room : room_row t.room_id (others 1 (others 0 s)).db.rooms ≡ some room
    pub tokens : r.0.db.tokens ≡ (at_store others s code w t).db.tokens
    pub sessions :
        r.0.db.sessions
        ≡ (at_store others s code w t).db.sessions
          ++ session_row_of k header_json private_key code t room w
              (Queue.next (at_draw others s code w).queue t.room_id).1
            ∷ []
    pub rooms : r.0.db.rooms ≡ (at_store others s code w t).db.rooms
    pub hosts : r.0.db.hosts ≡ (at_store others s code w t).db.hosts
    pub queue : r.0.queue ≡ (at_store others s code w t).queue
    pub answer :
        r.1.body
        ≡ redeem_body (record {
          session_token = issue_jwt k header_json private_key (session_claims t room w);
          queue_position = (Queue.next (at_draw others s code w).queue t.room_id).1;
          expires_at = unix (expiry room w.now);
          room_id = t.room_id;
          viewer_id = w.viewer_id;
        })

  -- The last statement.
  record Stored (s : Server) (code : String) (w : Draw) (t : Token) (room : Room) (place : ℤ)
      (r : Server × Response) : Type 0 where
    pub tokens : r.0.db.tokens ≡ s.db.tokens
    pub sessions :
        r.0.db.sessions
        ≡ s.db.sessions ++ session_row_of k header_json private_key code t room w place ∷ []
    pub rooms : r.0.db.rooms ≡ s.db.rooms
    pub hosts : r.0.db.hosts ≡ s.db.hosts
    pub queue : r.0.queue ≡ s.queue
    pub answer :
        r.1.body
        ≡ redeem_body (record {
          session_token = issue_jwt k header_json private_key (session_claims t room w);
          queue_position = place;
          expires_at = unix (expiry room w.now);
          room_id = t.room_id;
          viewer_id = w.viewer_id;
        })

  store_session-Stored :
      (fails : ℕ → Bool) (s : Server) (code : String) (w : Draw) (t : Token) (room : Room)
      (place : ℤ)
      → (store_session k header_json private_key fails s code w t room place).1.status ≡ 200
      → Stored s code w t room place
          (store_session k header_json private_key fails s code w t room place)
  unfolding store_session write create_session exec
  store_session-Stored fails s code w t room place h = record {
    tokens = ground arith;
    sessions = ground arith;
    rooms = ground arith;
    hosts = ground arith;
    queue = ground arith;
    answer = ground arith;
  }

  -- The way of a redemption that answers 200.
  redeem_among-path :
      (others : ℕ → Server → Server) (fails : ℕ → Bool) (s : Server) (code : String) (w : Draw)
      → (redeem_among k header_json private_key others fails s code w).1.status ≡ 200
      → (t : Token) × (room : Room) × (open_token fails (others 0 s) code ≡ ok t)
        × (room_of fails (others 1 (others 0 s)) t ≡ ok room)
        × (redeem_among k header_json private_key others fails s code w
            ≡ store_session k header_json private_key fails
                (at_store others s code w t)
                code
                w
                t
                room
                (Queue.next (at_draw others s code w).queue t.room_id).1)
  unfolding redeem_among
  redeem_among-path others fails s code w h =
      let s0 = others 0 s in
      let s1 = others 1 s0 in
      let (t, e, p) =
        respond-success 200 s0 (open_token fails s0 code) _ (open_token-refuses fails s0 code) h in
      let h1 = sym (ap (λ (r : Server × Response). r.1.status) p) ∙ h in
      let (room, f, q) =
        respond-success 200 s1 (room_of fails s1 t) _ (room_of-refuses fails s1 t) h1 in
      let h2 = sym (ap (λ (r : Server × Response). r.1.status) q) ∙ h1 in
      let m = write-redeemed (fails 2) (before_mark others s) code w.viewer_id w.now _ h2 in
      (t, room, e, f, p ∙ (q ∙ m))

  redeem_among_found :
      (others : ℕ → Server → Server) (fails : ℕ → Bool) (s : Server) (code : String) (w : Draw)
      → (redeem_among k header_json private_key others fails s code w).1.status ≡ 200
      → (t : Token) × (room : Room) × RedeemedAmong others s code w t room
          (redeem_among k header_json private_key others fails s code w)
  redeem_among_found others fails s code w h =
      let (t, room, e, f, p) = redeem_among-path others fails s code w h in
      let (stored, fresh, valid) = open_token-found fails (others 0 s) code t e in
      let place = (Queue.next (at_draw others s code w).queue t.room_id).1 in
      let r =
        store_session-Stored fails (at_store others s code w t) code w t room place
          (sym (ap (λ (r : Server × Response). r.1.status) p) ∙ h) in
      (
        t,
        room,
        subst (RedeemedAmong others s code w t room) (sym p) (record {
          stored = stored;
          fresh = fresh;
          valid = valid;
          in_room = room_of-found fails (others 1 (others 0 s)) t room f;
          tokens = r.tokens;
          sessions = r.sessions;
          rooms = r.rooms;
          hosts = r.hosts;
          queue = r.queue;
          answer = r.answer;
        }),
      )

  -- The row of the code, from the first statement to the last.
  RedeemedAmong-row :
      (others : ℕ → Server → Server) (s : Server) (code : String) (w : Draw) (t : Token)
      (room : Room) (r : Server × Response)
      → RunsStatements others
      → RedeemedAmong others s code w t room r
      → (v : Token) × (token_row code (before_mark others s).db.tokens ≡ some v)
        × ((v ≡ t) ⊎ IsSettled v)
        × (token_row code r.0.db.tokens ≡ some (redeem_row code w.viewer_id w.now v))
        × IsSettled (redeem_row code w.viewer_id w.now v)
  RedeemedAmong-row others s code w t room r runs o =
      let s0 = others 0 s in
      let (v, row, fate) =
        Run-row code t (Run-append (runs 1 s0) (runs 2 (others 1 s0))) o.stored in
      let (marked, settled) =
        redeem_row-IsSettled (before_mark others s).db.tokens code w.viewer_id w.now v row in
      let u = redeem_row code w.viewer_id w.now v in
      let drawn = Run-settled code u (runs 3 (after_mark others s code w)) marked settled in
      let s3 : Server = at_draw others s code w in
      let last =
        Run-settled code u (runs 4 (record s3 { queue = (Queue.next s3.queue t.room_id).0 })) drawn
          settled in
      (v, row, fate, ap (token_row code) o.tokens ∙ last, settled)

  pub redeem_among-RedeemedAmong :
      (others : ℕ → Server → Server) (fails : ℕ → Bool) (s : Server) (code : String) (w : Draw)
      → RunsStatements others
      → (redeem_among k header_json private_key others fails s code w).1.status ≡ 200
      → let r = redeem_among k header_json private_key others fails s code w in
        (t : Token) × (room : Room) × RedeemedAmong others s code w t room r
        × ((v : Token) × (token_row code (before_mark others s).db.tokens ≡ some v)
            × ((v ≡ t) ⊎ IsSettled v)
            × (token_row code r.0.db.tokens ≡ some (redeem_row code w.viewer_id w.now v))
            × IsSettled (redeem_row code w.viewer_id w.now v))
  redeem_among-RedeemedAmong others fails s code w runs h =
      let (t, room, o) = redeem_among_found others fails s code w h in
      (t, room, o, RedeemedAmong-row others s code w t room _ runs o)

  open_token_settled :
      (fails : ℕ → Bool) (s : Server) (code : String) (u : Token)
      → token_row code s.db.tokens ≡ some u
      → fails 0 ≡ false
      → IsSettled u
      → open_token fails s code
        ≡ err (
            if u.revoked then failure 410 "token revoked" else failure 409 "token already redeemed")
  unfolding open_token found get_token query_row
  open_token_settled fails s code u h f0 g = ground arith

  -- A redemption of a code whose row is settled.
  settled_refuses :
      (others : ℕ → Server → Server) (fails : ℕ → Bool) (s s' : Server) (code : String) (w : Draw)
      (u : Token)
      → RunsStatements others
      → Run s.db s'.db
      → fails 0 ≡ false
      → token_row code s.db.tokens ≡ some u
      → IsSettled u
      → redeem_among k header_json private_key others fails s' code w ≡ (
        others 0 s',
        if u.revoked then failure 410 "token revoked" else failure 409 "token already redeemed",
      )
  unfolding redeem_among respond
  settled_refuses others fails s s' code w u runs run f0 row settled =
      let later = Run-settled code u (Run-append run (runs 0 s')) row settled in
      rw (open_token_settled fails (others 0 s') code u later f0 settled) refl

  -- After a redemption that answered 200, whatever statements other requests run between its own, after
  -- it, and between those of a further redemption of the code that meets no driver error: the further
  -- one changes nothing, and answers 409, or 410 where the row `v` that the first one marked was revoked
  -- by then.
  pub redeem_again :
      (others others' : ℕ → Server → Server) (fails fails' : ℕ → Bool) (s s' : Server)
      (code : String) (w w' : Draw)
      → RunsStatements others
      → RunsStatements others'
      → (redeem_among k header_json private_key others fails s code w).1.status ≡ 200
      → Run (redeem_among k header_json private_key others fails s code w).0.db s'.db
      → fails' 0 ≡ false
      → (v : Token) × (token_row code (before_mark others s).db.tokens ≡ some v)
        × (redeem_among k header_json private_key others' fails' s' code w' ≡ (
          others' 0 s',
          if v.revoked then failure 410 "token revoked" else failure 409 "token already redeemed",
        ))
  redeem_again others others' fails fails' s s' code w w' runs runs' h run f0 =
      let (t, room, o, (v, row, fate, marked, settled)) =
        redeem_among-RedeemedAmong others fails s code w runs h in
      let u = redeem_row code w.viewer_id w.now v in
      let r = redeem_among k header_json private_key others fails s code w in
      (
        v,
        row,
        settled_refuses others' fails' r.0 s' code w' u runs' run f0 marked settled
            ∙ unfold redeem_row in refl,
      )

  require_host-refuses :
      (fails : ℕ → Bool) (s : Server) (auth : List ℕ) (e : Response)
      → require_host fails s auth ≡ err e
      → e.status ≢ 204
  unfolding require_host found get_host_by_api_key query_row
  require_host-refuses fails s auth e h = ground arith

  own_token-refuses :
      (fails : ℕ → Bool) (s : Server) (code : String) (host : Host) (e : Response)
      → own_token fails s code host ≡ err e
      → e.status ≢ 204
  unfolding own_token found get_token_by_code_and_host_id query_row
  own_token-refuses fails s code host e h = ground arith

  own_token-found :
      (fails : ℕ → Bool) (s : Server) (code : String) (host : Host) (t : Token)
      → own_token fails s code host ≡ ok t
      → find_first (λ (t : Token). str_eq t.code code && str_eq t.host_id host.id) s.db.tokens
        ≡ some t
  unfolding own_token found get_token_by_code_and_host_id query_row
  own_token-found fails s code host t h = ground arith

  -- The way of a revocation that answers 204.
  revoke_among-path :
      (others : ℕ → Server → Server) (fails : ℕ → Bool) (s : Server) (auth : List ℕ) (code : String)
      → (revoke_among others fails s auth code).1.status ≡ 204
      → (t : Token) × (host : Host) × (own_token fails (others 1 (others 0 s)) code host ≡ ok t)
        × ((revoke_among others fails s auth code).0.db.tokens
            ≡ map (revoke_row code) (before_mark others s).db.tokens)
  unfolding revoke_among
  revoke_among-path others fails s auth code h =
      let s0 = others 0 s in
      let s1 = others 1 s0 in
      let status = λ (r : Server × Response). r.1.status in
      let (host, e, p) =
        respond-success 204 s0 (require_host fails s0 auth) _ (require_host-refuses fails s0 auth)
          h in
      let h1 = sym (ap status p) ∙ h in
      let (t, f, q) =
        respond-success 204 s1 (own_token fails s1 code host) _
          (own_token-refuses fails s1 code host) h1 in
      let m = write-revoked (fails 2) (before_mark others s) code _ (sym (ap status q) ∙ h1) in
      (t, host, f, ap (λ (r : Server × Response). r.0.db.tokens) (p ∙ (q ∙ m)))

  -- Where no two tokens share a code: after a revocation that answered 204, whatever statements other
  -- requests run between its own, after it, and between those of a redemption of the code that meets
  -- no driver error: the redemption changes nothing, and answers 410, or 409 where the row `v` that the
  -- revocation met was redeemed and not revoked by then.
  pub revoke-redeem :
      (others others' : ℕ → Server → Server) (fails fails' : ℕ → Bool) (s s' : Server)
      (auth : List ℕ) (code : String) (w : Draw)
      → Unique s.db.tokens
      → RunsStatements others
      → RunsStatements others'
      → (revoke_among others fails s auth code).1.status ≡ 204
      → Run (revoke_among others fails s auth code).0.db s'.db
      → fails' 0 ≡ false
      → (v : Token) × (token_row code (before_mark others s).db.tokens ≡ some v)
        × (redeem_among k header_json private_key others' fails' s' code w ≡ (
          others' 0 s',
          if v.redeemed && not v.revoked
              then failure 409 "token already redeemed"
              else failure 410 "token revoked",
        ))
  revoke-redeem others others' fails fails' s s' auth code w un runs runs' h run f0 =
      let s0 = others 0 s in
      let s1 = others 1 s0 in
      let (t, host, f, tokens) = revoke_among-path others fails s auth code h in
      let un1 = Run-Unique (Run-append (runs 0 s) (runs 1 s0)) un in
      let stored =
        Unique-row s1.db.tokens code host.id t un1 (own_token-found fails s1 code host t f) in
      let (v, row, fate) = Run-row code t (runs 2 s1) stored in
      let (marked, settled) = revoke_row-IsSettled (before_mark others s).db.tokens code v row in
      let r = revoke_among others fails s auth code in
      (
        v,
        row,
        settled_refuses others' fails' r.0 s' code w (revoke_row code v) runs' run f0
              (ap (token_row code) tokens ∙ marked) settled
            ∙ ap (λ e. (others' 0 s', e))
                (revoked_answer code v _ _ (
                  find_first_holds (λ (t : Token). str_eq t.code code)
                    (before_mark others s).db.tokens {x = v} (unfold token_row in row))),
      )

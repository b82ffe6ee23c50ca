-- ===== src/Server/Requests.antt =====
-- The handlers as sequences of the statements of db.go.
use playgate.Common.{
  ℕ, zero, suc, ◌≡◌, refl, String, Bool, true, false, Option, none, some, List, [], ◌∷◌, ◌++◌,
}
use playgate.Common.Int.{ℤ}
use playgate.Common.Result.{Result, ok, err}
use playgate.Jwt.{Packages}
use playgate.Server.Db.{Db, Room, Token, Sqlite}
use playgate.Server.Lifecycle.{
  Statement, creates_host, creates_room, heartbeats, kicks, creates_token, redeems, revokes,
  creates_session, Run, done, first, OneFate, Unique, Run-OneFate, Run-Unique,
}
use playgate.Server.Api.{Response, Server, respond, write}
use playgate.Server.Api.Rooms.{
  CreateRoomRequest, handle_register_host, handle_create_room, handle_list_rooms, handle_get_room,
  report_kick, heartbeat_write, handle_heartbeat, handle_kick,
}
use playgate.Server.Api.Tokens.{
  Draw, issue_loop, handle_issue_tokens, handle_list_tokens, handle_revoke_token, redeem_write,
  handle_redeem_token,
}

abbrev Runs : Server → Server × Response → Type 0
Runs s r = Run s.db r.0.db

respond-Run {ℓ} :
    {A : Type ℓ} (s : Server) (r : Result Response A) (k : A → Server × Response)
    → ((a : A) → Runs s (k a))
    → Runs s (respond s r k)
unfolding respond
respond-Run s (ok a) k h = h a
respond-Run s (err e) k h = done

write-Run :
    (s : Server) (o : Option Db) (msg : String) (k : Server → Server × Response)
    → ((d : Db) → o ≡ some d → Statement s.db d)
    → ((d : Db) → Run d (k (record s { db = d })).0.db)
    → Runs s (write s o msg k)
unfolding write
write-Run s none msg k st h = done
write-Run s (some d) msg k st h = first (st d refl) (h d)

report_kick-Run :
    (f : ℕ → Bool) (s : Server) (id : String) (b : Bool) (now : ℕ)
    → Runs s (report_kick f s id b now)
unfolding report_kick
report_kick-Run f s id false now = done
report_kick-Run f s id true now = write-Run s _ _ _ (λ d e. kicks _ _ _ _ e) (λ d. done)

heartbeat_write-Run :
    (f : ℕ → Bool) (s : Server) (id : String) (now : ℕ) (a : Room × (Bool × Option String))
    → Runs s (heartbeat_write f s id now a)
unfolding heartbeat_write
heartbeat_write-Run f s id now (room, (online, viewer)) =
    write-Run s _ _ _ (λ d e. heartbeats _ _ _ _ _ e)
      (λ d. report_kick-Run f (record s { db = d }) id room.kick_requested now)

issue_loop-Run :
    (f : ℕ → Bool) (s : Server) (id host_id : String) (codes : ℕ → String) (now i n : ℕ)
    (issued : List String)
    → Runs s (issue_loop f s id host_id codes now i n issued)
unfolding issue_loop
issue_loop-Run f s id host_id codes now i zero issued = done
issue_loop-Run f s id host_id codes now i (suc n) issued =
    write-Run s _ _ _ (λ d e. creates_token _ _ e)
      (λ d.
        issue_loop-Run f (record s { db = d }) id host_id codes now (suc i) n
          (issued ++ codes i ∷ []))

module _ (k : Packages) (header_json private_key : List ℕ) (q : Sqlite) where
  redeem_write-Run :
      (f : ℕ → Bool) (s : Server) (code : String) (w : Draw) (a : Token × Room)
      → Runs s (redeem_write k header_json private_key f s code w a)
  unfolding redeem_write
  redeem_write-Run f s code w (t, room) =
      write-Run s _ _ _ (λ d e. redeems _ _ _ _ e)
        (λ d. write-Run _ _ _ _ (λ d' e. creates_session _ _ e) (λ d'. done))

  -- A request and the server behind it.
  pub data Request (s : Server) : Server → Type 0 where
    register :
        (f : ℕ → Bool) (name : Option String) (id : String) (key : List ℕ) (now : ℕ)
        → Request s (handle_register_host f s name id key now).0
    create :
        (f : ℕ → Bool) (auth : List ℕ) (req : Option CreateRoomRequest) (id : String) (now : ℕ)
        → Request s (handle_create_room f s auth req id now).0
    rooms :
        (f : ℕ → Bool) (auth : List ℕ) (now : ℕ) → Request s (handle_list_rooms q f s auth now).0
    room : (f : ℕ → Bool) (id : String) (now : ℕ) → Request s (handle_get_room q f s id now).0
    heartbeat :
        (f : ℕ → Bool) (auth : List ℕ) (id : String) (req : Option (Bool × Option String)) (now : ℕ)
        → Request s (handle_heartbeat f s auth id req now).0
    kick :
        (f : ℕ → Bool) (auth : List ℕ) (id : String) (now : ℕ)
        → Request s (handle_kick f s auth id now).0
    issue :
        (f : ℕ → Bool) (auth : List ℕ) (id : String) (count : Option ℤ) (codes : ℕ → String)
        (now : ℕ)
        → Request s (handle_issue_tokens f s auth id count codes now).0
    tokens :
        (f : ℕ → Bool) (auth : List ℕ) (id : String)
        → Request s (handle_list_tokens q f s auth id).0
    revoke :
        (f : ℕ → Bool) (auth : List ℕ) (code : String)
        → Request s (handle_revoke_token f s auth code).0
    redeem :
        (f : ℕ → Bool) (code : String) (w : Draw)
        → Request s (handle_redeem_token k header_json private_key f s code w).0

  Request-Run : {s t : Server} → Request s t → Run s.db t.db
  unfolding handle_register_host handle_create_room handle_list_rooms handle_get_room
      handle_heartbeat handle_kick handle_issue_tokens handle_list_tokens handle_revoke_token
      handle_redeem_token
  Request-Run {s} (register f name id key now) =
      respond-Run s _ _ (λ a. write-Run s _ _ _ (λ d e. creates_host _ _ e) (λ d. done))
  Request-Run {s} (create f auth req id now) =
      respond-Run s _ _ (λ a. write-Run s _ _ _ (λ d e. creates_room _ _ e) (λ d. done))
  Request-Run {s} (rooms f auth now) = respond-Run s _ _ (λ a. done)
  Request-Run {s} (room f id now) = respond-Run s _ _ (λ a. done)
  Request-Run {s} (heartbeat f auth id req now) = respond-Run s _ _ (heartbeat_write-Run f s id now)
  Request-Run {s} (kick f auth id now) =
      respond-Run s _ _ (λ a. write-Run s _ _ _ (λ d e. kicks _ _ _ _ e) (λ d. done))
  Request-Run {s} (issue f auth id count codes now) =
      respond-Run s _ _ (λ a. issue_loop-Run f s id a.0.id codes now 0 a.1 [])
  Request-Run {s} (tokens f auth id) = respond-Run s _ _ (λ a. done)
  Request-Run {s} (revoke f auth code) =
      respond-Run s _ _ (λ a. write-Run s _ _ _ (λ d e. revokes _ _ e) (λ d. done))
  Request-Run {s} (redeem f code w) = respond-Run s _ _ (redeem_write-Run f s code w)

  -- Every request, on every branch of its handler and with driver errors anywhere, changes the tables by
  -- statements of db.go only. So it keeps codes unique, and lets no token be both redeemed and revoked.
  pub Request-tokens :
      {s t : Server}
      → Request s t
      → Unique s.db.tokens
      → OneFate s.db.tokens
      → Run s.db t.db × Unique t.db.tokens × OneFate t.db.tokens
  Request-tokens r u o =
      (Request-Run r, Run-Unique (Request-Run r) u, Run-OneFate (Request-Run r) o)

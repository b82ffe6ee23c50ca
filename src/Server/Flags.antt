-- ===== src/Server/Flags.antt =====
-- The flag of a pending kick, with other requests between the statements of kicks and heartbeats.
use playgate.Common.{
  ℕ, ◌≡◌, ◌≢◌, refl, sym, ◌∙◌, ap, subst, String, Bool, true, false, ◌&&◌, Option, none, some, List,
  [], ◌∷◌, map, All, str_eq, eq_iff, arith, inl, inr, Bool-cases,
}
use playgate.Common.Result.{ok, err}
use playgate.Server.Db.{
  Host, Room, find_first, query_row, exec, get_host_by_api_key, get_room_by_id_and_host_id,
  update_room_heartbeat, heartbeat_row, set_room_kick_requested, kick_row,
}
use playgate.Server.Interleaved.{respond-success}
use playgate.Server.Api.{
  Response, Server, heartbeat_body, status_body, success, found, write, require_host,
}
use playgate.Server.Api.Rooms.{report_kick, own_room, beat_read, heartbeat_among, kick_among}

-- Whether a kick is pending in the room `id`.
abbrev pub Flag : Bool → String → Server → Type 0
Flag b id s = All (λ (r : Room). r.id ≡ id → r.kick_requested ≡ b) s.db.rooms

-- Other requests neither set nor clear that flag.
abbrev pub LeavesFlag : String → (ℕ → Server → Server) → Type 0
LeavesFlag id others = (b : Bool) (i : ℕ) (s : Server) → Flag b id s → Flag b id (others i s)

All-of_map {ℓ κ} :
    {A : Type ℓ} (P Q : A → Type κ) (f : A → A) (xs : List A)
    → ((x : A) → P x → Q (f x))
    → All P xs
    → All Q (map f xs)
All-of_map P Q f [] k h = tt
All-of_map P Q f (x ∷ xs) k h = (k x h.0, All-of_map P Q f xs k h.1)

kick_row-Flag :
    (b : Bool) (id : String) (now : ℕ) (rooms : List Room)
    → All (λ (r : Room). r.id ≡ id → r.kick_requested ≡ b) (map (kick_row id b now) rooms)
unfolding kick_row
kick_row-Flag b id now [] = tt
kick_row-Flag b id now (r ∷ rooms) =
    ((λ e. rw ((eq_iff r.id id).1 e) refl), kick_row-Flag b id now rooms)

heartbeat_row-Flag :
    (b online : Bool) (id : String) (viewer : Option String) (now : ℕ) (rooms : List Room)
    → All (λ (r : Room). r.id ≡ id → r.kick_requested ≡ b) rooms
    → All
        (λ (r : Room). r.id ≡ id → r.kick_requested ≡ b)
        (map (heartbeat_row id online viewer now) rooms)
unfolding heartbeat_row
heartbeat_row-Flag b online id viewer now rooms h = All-of_map _ _ _ rooms (λ r k. k) h

found_flag :
    (b : Bool) (id host : String) (rooms : List Room) (r : Room)
    → All (λ (r : Room). r.id ≡ id → r.kick_requested ≡ b) rooms
    → find_first (λ (r : Room). str_eq r.id id && str_eq r.host_id host) rooms ≡ some r
    → r.kick_requested ≡ b
unfolding find_first
found_flag b id host [] r h e = absurd cc
found_flag b id host (x ∷ xs) r h e = elim (Bool-cases (str_eq x.id id && str_eq x.host_id host)) [
  | inl t ↦
      let same : x ≡ r = (let q = rw t at e in cc) in
      let hit : str_eq x.id id ≡ true = ground arith in
      ap (λ (r : Room). r.kick_requested) (sym same) ∙ h.0 ((eq_iff x.id id).0 hit)
  | inr f ↦ found_flag b id host xs r h.1 (rw f at e)
]

host_refuses :
    (fails : ℕ → Bool) (s : Server) (auth : List ℕ) (e : Response)
    → require_host fails s auth ≡ err e
    → e.status ≢ 200
unfolding require_host found get_host_by_api_key query_row
host_refuses fails s auth e h = ground arith

own_room-refuses :
    (fails : ℕ → Bool) (s : Server) (id : String) (host : Host) (e : Response)
    → own_room fails s id host ≡ err e
    → e.status ≢ 200
unfolding own_room found get_room_by_id_and_host_id query_row
own_room-refuses fails s id host e h = ground arith

beat_read-refuses :
    (fails : ℕ → Bool) (s : Server) (id : String) (req : Option (Bool × Option String))
    (host : Host) (e : Response)
    → beat_read fails s id req host ≡ err e
    → e.status ≢ 200
unfolding beat_read own_room found get_room_by_id_and_host_id query_row
beat_read-refuses fails s id none host e h = ground arith
beat_read-refuses fails s id (some r) host e h = ground arith

beat_read-found :
    (fails : ℕ → Bool) (s : Server) (id : String) (req : Option (Bool × Option String))
    (host : Host) (room : Room) (r : Bool × Option String)
    → beat_read fails s id req host ≡ ok (room, r)
    → find_first (λ (r : Room). str_eq r.id id && str_eq r.host_id host.id) s.db.rooms ≡ some room
unfolding beat_read own_room found get_room_by_id_and_host_id query_row
beat_read-found fails s id none host room r h = ground arith
beat_read-found fails s id (some q) host room r h = ground arith

report_kick-Flag :
    (b : Bool) (fails : ℕ → Bool) (s : Server) (id : String) (now : ℕ)
    → Flag b id s
    → (report_kick fails s id b now).1.status ≡ 200
    → ((report_kick fails s id b now).1.body ≡ heartbeat_body "ok" b)
      × Flag false id (report_kick fails s id b now).0
unfolding report_kick
report_kick-Flag false fails s id now h e = (refl, h)
report_kick-Flag true fails s id now h e = cleared (fails 3) e
  where
    cleared :
        (f : Bool)
        → (write s
            (set_room_kick_requested f s.db id false now)
            "clear kick failed"
            (λ s'. (s', success 200 (heartbeat_body "ok" true)))).1.status
          ≡ 200
        → let r =
            write s
              (set_room_kick_requested f s.db id false now)
              "clear kick failed"
              (λ s'. (s', success 200 (heartbeat_body "ok" true))) in
          (r.1.body ≡ heartbeat_body "ok" true) × Flag false id r.0
    cleared true e = absurd (unfold write set_room_kick_requested exec in omega (arith, e))
    cleared false e =
        unfold write set_room_kick_requested exec in (refl, kick_row-Flag false id now s.db.rooms)

write-kicked :
    (f : Bool) (s : Server) (id : String) (now : ℕ)
    → let r =
        write s
          (set_room_kick_requested f s.db id true now)
          "set kick failed"
          (λ s'. (s', success 200 (status_body "kick_requested"))) in
      r.1.status ≡ 200 → Flag true id r.0
unfolding write set_room_kick_requested exec
write-kicked true s id now e = absurd (omega (arith, e))
write-kicked false s id now e = kick_row-Flag true id now s.db.rooms

-- After a kick that answers 200 one is pending.
pub kick_among-Flag :
    (others : ℕ → Server → Server) (fails : ℕ → Bool) (s : Server) (auth : List ℕ) (id : String)
    (now : ℕ)
    → (kick_among others fails s auth id now).1.status ≡ 200
    → Flag true id (kick_among others fails s auth id now).0
unfolding kick_among
kick_among-Flag others fails s auth id now h =
    let s0 = others 0 s in
    let s1 = others 1 s0 in
    let status = λ (r : Server × Response). r.1.status in
    let (host, e, p) =
      respond-success 200 s0 (require_host fails s0 auth) _ (host_refuses fails s0 auth) h in
    let h1 = sym (ap status p) ∙ h in
    let (room, f, q) =
      respond-success 200 s1 (own_room fails s1 id host) _ (own_room-refuses fails s1 id host) h1 in
    let last = write-kicked (fails 2) (others 2 s1) id now (sym (ap status q) ∙ h1) in
    subst (λ (r : Server × Response). Flag true id r.0) (sym (p ∙ q)) last

write-beat :
    (f : Bool) (s : Server) (id : String) (online : Bool) (viewer : Option String) (now : ℕ)
    (k : Server → Server × Response)
    → (write s (update_room_heartbeat f s.db id online viewer now) "update failed" k).1.status ≡ 200
    → write s (update_room_heartbeat f s.db id online viewer now) "update failed" k
      ≡ k (record s {
        db = record (s.db) { rooms = map (heartbeat_row id online viewer now) s.db.rooms };
      })
unfolding write update_room_heartbeat exec
write-beat true s id online viewer now k e = absurd (omega (arith, e))
write-beat false s id online viewer now k e = refl

-- A heartbeat that answers 200 says whether a kick is pending, and leaves none.
pub heartbeat_among-Flag :
    (others : ℕ → Server → Server) (b : Bool) (fails : ℕ → Bool) (s : Server) (auth : List ℕ)
    (id : String) (req : Option (Bool × Option String)) (now : ℕ)
    → LeavesFlag id others
    → Flag b id s
    → (heartbeat_among others fails s auth id req now).1.status ≡ 200
    → ((heartbeat_among others fails s auth id req now).1.body ≡ heartbeat_body "ok" b)
      × Flag false id (heartbeat_among others fails s auth id req now).0
unfolding heartbeat_among
heartbeat_among-Flag others b fails s auth id req now leaves flag h =
    let s0 = others 0 s in
    let s1 = others 1 s0 in
    let s2 : Server = others 2 s1 in
    let status = λ (r : Server × Response). r.1.status in
    let (host, e, p) =
      respond-success 200 s0 (require_host fails s0 auth) _ (host_refuses fails s0 auth) h in
    let h1 = sym (ap status p) ∙ h in
    let ((room, (online, viewer)), f, q) =
      respond-success 200 s1 (beat_read fails s1 id req host) _
        (beat_read-refuses fails s1 id req host) h1 in
    let h2 = sym (ap status q) ∙ h1 in
    let m = write-beat (fails 2) s2 id online viewer now _ h2 in
    let flag1 = leaves b 1 s0 (leaves b 0 s flag) in
    let kr : room.kick_requested ≡ b =
      found_flag b id host.id s1.db.rooms room flag1
        (beat_read-found fails s1 id req host room (online, viewer) f) in
    let s' : Server = record s2 {
      db = record (s2.db) { rooms = map (heartbeat_row id online viewer now) s2.db.rooms };
    } in
    let flag3 =
      leaves b 3 s' (heartbeat_row-Flag b online id viewer now s2.db.rooms (leaves b 2 s1 flag1)) in
    let whole = p ∙ (q ∙ (m ∙ ap (λ c. report_kick fails (others 3 s') id c now) kr)) in
    let last = report_kick-Flag b fails (others 3 s') id now flag3 (sym (ap status whole) ∙ h) in
    subst (λ (r : Server × Response). (r.1.body ≡ heartbeat_body "ok" b) × Flag false id r.0)
      (sym whole) last

-- ===== src/Server/Kick.antt =====
-- Kicks and heartbeats, one request after the other.
use playgate.Common.{
  ℕ, ◌≡◌, ◌≢◌, refl, ap, ◌∙◌, subst, String, Bool, true, false, ◌&&◌, Option, some, List, map,
  if◌then◌else◌, str_eq, arith, inl, inr,
}
use playgate.Common.Result.{Result, ok, err}
use playgate.Server.Db.{
  Host, Room, find_first, query_row, exec, get_host_by_api_key, get_room_by_id_and_host_id,
  update_room_heartbeat, heartbeat_row, set_room_kick_requested, kick_row,
}
use playgate.Server.Lifecycle.{find_first-map}
use playgate.Server.Redeem.{Result-cases, find_first_holds}
use playgate.Server.Api.{
  Response, Server, heartbeat_body, status_body, success, found, respond, write, require_host,
  require_room,
}
use playgate.Server.Api.Rooms.{
  report_kick, heartbeat_read, heartbeat_write, handle_heartbeat, handle_kick,
}

-- The room `id` of the host `host_id`.
abbrev own_room : String → String → List Room → Option Room
own_room id host_id rs = find_first (λ (r : Room). str_eq r.id id && str_eq r.host_id host_id) rs

-- Whoever gets through is the same for every request on the same hosts.
require_host_same :
    (f g : ℕ → Bool) (s s' : Server) (auth : List ℕ) (h h' : Host)
    → s'.db.hosts ≡ s.db.hosts
    → require_host f s auth ≡ ok h
    → require_host g s' auth ≡ ok h'
    → h' ≡ h
unfolding require_host found get_host_by_api_key query_row
require_host_same f g s s' auth h h' e a b = ground arith

pub require_room_ok :
    (f : ℕ → Bool) (s : Server) (auth : List ℕ) (id : String) (h : Host) (r : Room)
    → require_room f s auth id ≡ ok (h, r)
    → (require_host f s auth ≡ ok h) × (own_room id h.id s.db.rooms ≡ some r)
unfolding require_room found get_room_by_id_and_host_id query_row
require_room_ok f s auth id h r e = elim (Result-cases (require_host f s auth)) [
  | inl (h', e') ↦ (ground (arith, e'), ground (arith, e'))
  | inr (x, e') ↦ absurd (ground (arith, e'))
]

require_room_refuses :
    (f : ℕ → Bool) (s : Server) (auth : List ℕ) (id : String) (e : Response)
    → require_room f s auth id ≡ err e
    → e.status ≢ 200
unfolding require_room require_host found get_host_by_api_key get_room_by_id_and_host_id query_row
require_room_refuses f s auth id e h = ground arith

-- A kick that answers 200.
record Kicked (f : ℕ → Bool) (s : Server) (auth : List ℕ) (id : String) (now : ℕ) (t : Server)
    : Type 0 where
  owner : Host
  room : Room
  allowed : require_host f s auth ≡ ok owner
  stored : own_room id owner.id s.db.rooms ≡ some room
  hosts : t.db.hosts ≡ s.db.hosts
  rooms : t.db.rooms ≡ map (kick_row id true now) s.db.rooms

kick_ok :
    (f : ℕ → Bool) (s : Server) (auth : List ℕ) (id : String) (now : ℕ)
    → (handle_kick f s auth id now).1.status ≡ 200
    → Kicked f s auth id now (handle_kick f s auth id now).0
unfolding handle_kick respond
kick_ok f s auth id now = go (require_room f s auth id) refl
  where
    go :
        (r : Result Response (Host × Room))
        → require_room f s auth id ≡ r
        → let u = respond s r (λ _.
          write s
            (set_room_kick_requested (f 2) s.db id true now)
            "set kick failed"
            (λ s'. (s', success 200 (status_body "kick_requested")))) in
          u.1.status ≡ 200 → Kicked f s auth id now u.0
    go (ok (h, r)) e k =
        let (allowed, stored) = require_room_ok f s auth id h r e in
        record {
          owner = h;
          room = r;
          allowed = allowed;
          stored = stored;
          hosts = unfold write set_room_kick_requested exec in ground arith;
          rooms = unfold write set_room_kick_requested exec in ground arith;
        }
    go (err r) e k = absurd (require_room_refuses f s auth id r e k)

-- A heartbeat that answers 200.
record Beaten (f : ℕ → Bool) (s : Server) (auth : List ℕ) (id : String) (now : ℕ)
    (u : Server × Response) : Type 0 where
  owner : Host
  room : Room
  online : Bool
  viewer : Option String
  allowed : require_host f s auth ≡ ok owner
  stored : own_room id owner.id s.db.rooms ≡ some room
  answer : u.1.body ≡ heartbeat_body "ok" room.kick_requested
  hosts : u.0.db.hosts ≡ s.db.hosts
  rooms : u.0.db.rooms ≡ (
      if room.kick_requested
      then map (kick_row id false now) (map (heartbeat_row id online viewer now) s.db.rooms)
      else map (heartbeat_row id online viewer now) s.db.rooms)

heartbeat_read_ok :
    (f : ℕ → Bool) (s : Server) (auth : List ℕ) (id : String) (req : Option (Bool × Option String))
    (r : Room) (b : Bool × Option String)
    → heartbeat_read f s auth id req ≡ ok (r, b)
    → (h : Host) × (require_host f s auth ≡ ok h) × (own_room id h.id s.db.rooms ≡ some r)
unfolding heartbeat_read
heartbeat_read_ok f s auth id req r b e = elim (Result-cases (require_room f s auth id)) [
  | inl ((h, r'), e') ↦
      let same : r' ≡ r = ground (arith, e') in
      let (allowed, stored) = require_room_ok f s auth id h r (e' ∙ ap (λ x. ok (h, x)) same) in
      (h, allowed, stored)
  | inr (x, e') ↦ absurd (ground (arith, e'))
]

heartbeat_read_refuses :
    (f : ℕ → Bool) (s : Server) (auth : List ℕ) (id : String) (req : Option (Bool × Option String))
    (e : Response)
    → heartbeat_read f s auth id req ≡ err e
    → e.status ≢ 200
unfolding heartbeat_read
heartbeat_read_refuses f s auth id req e h = elim (Result-cases (require_room f s auth id)) [
  | inl (hr, e') ↦ ground (arith, e')
  | inr (x, e') ↦ let n = require_room_refuses f s auth id x e' in ground (arith, e', n)
]

heartbeat_ok :
    (f : ℕ → Bool) (s : Server) (auth : List ℕ) (id : String) (req : Option (Bool × Option String))
    (now : ℕ)
    → (handle_heartbeat f s auth id req now).1.status ≡ 200
    → Beaten f s auth id now (handle_heartbeat f s auth id req now)
unfolding handle_heartbeat respond
heartbeat_ok f s auth id req now = go (heartbeat_read f s auth id req) refl
  where
    go :
        (r : Result Response (Room × (Bool × Option String)))
        → heartbeat_read f s auth id req ≡ r
        → let u = respond s r (heartbeat_write f s id now) in
          u.1.status ≡ 200 → Beaten f s auth id now u
    go (ok (r, (on, v))) e k =
        let (h, allowed, stored) = heartbeat_read_ok f s auth id req r (on, v) e in
        record {
          owner = h;
          room = r;
          online = on;
          viewer = v;
          allowed = allowed;
          stored = stored;
          answer =
              unfold heartbeat_write report_kick write update_room_heartbeat set_room_kick_requested
                exec in
              ground arith;
          hosts =
              unfold heartbeat_write report_kick write update_room_heartbeat set_room_kick_requested
                exec in
              ground arith;
          rooms =
              unfold heartbeat_write report_kick write update_room_heartbeat set_room_kick_requested
                exec in
              ground arith;
        }
    go (err r) e k = absurd (heartbeat_read_refuses f s auth id req r e k)

own_room-map :
    (g : Room → Room) (id host_id : String) (rs : List Room) (r : Room)
    → ((y : Room) → ((g y).id ≡ y.id) × ((g y).host_id ≡ y.host_id))
    → own_room id host_id rs ≡ some r
    → own_room id host_id (map g rs) ≡ some (g r)
own_room-map g id host_id rs r k h =
    find_first-map (λ (r : Room). str_eq r.id id && str_eq r.host_id host_id) g rs {x = r}
      (λ y. rw ((k y).0, (k y).1) refl) h

own_room-id :
    (id host_id : String) (rs : List Room) (r : Room)
    → own_room id host_id rs ≡ some r
    → str_eq r.id id ≡ true
own_room-id id host_id rs r h =
    let p =
      find_first_holds (λ (r : Room). str_eq r.id id && str_eq r.host_id host_id) rs {x = r} h in
    ground (arith, p)

kick_row_sets :
    (id : String) (b : Bool) (now : ℕ) (r : Room)
    → str_eq r.id id ≡ true
    → (kick_row id b now r).kick_requested ≡ b
unfolding kick_row
kick_row_sets id b now r h = rw h refl

found_again :
    (g : Room → Room) (id host_id host_id' : String) (rs rs' : List Room) (r r' : Room)
    → ((y : Room) → ((g y).id ≡ y.id) × ((g y).host_id ≡ y.host_id))
    → own_room id host_id rs ≡ some r
    → rs' ≡ map g rs
    → host_id' ≡ host_id
    → own_room id host_id' rs' ≡ some r'
    → r' ≡ g r
found_again g id host_id host_id' rs rs' r r' k h e f h' =
    let m = own_room-map g id host_id rs r k h in
    let q : own_room id host_id (map g rs) ≡ some r' =
      subst (λ x. own_room id host_id x ≡ some r') e
        (subst (λ x. own_room id x rs' ≡ some r') f h') in
    cc

-- A kick that answers 200 is reported by the next heartbeat of the room that answers 200, and not by
-- the one after it.
kick-heartbeat :
    (f g h : ℕ → Bool) (s : Server) (auth : List ℕ) (id : String)
    (req req' : Option (Bool × Option String)) (now : ℕ)
    → let one = handle_kick f s auth id now in
      let two = handle_heartbeat g one.0 auth id req now in
      let three = handle_heartbeat h two.0 auth id req' now in
      one.1.status ≡ 200
      → two.1.status ≡ 200
      → three.1.status ≡ 200
      → (two.1.body ≡ heartbeat_body "ok" true) × (three.1.body ≡ heartbeat_body "ok" false)
kick-heartbeat f g h s auth id req req' now a b c =
    let one = handle_kick f s auth id now in
    let two = handle_heartbeat g one.0 auth id req now in
    let three = handle_heartbeat h two.0 auth id req' now in
    let k = kick_ok f s auth id now a in
    let u = heartbeat_ok g one.0 auth id req now b in
    let v = heartbeat_ok h two.0 auth id req' now c in
    let same : u.owner ≡ k.owner =
      require_host_same f g s one.0 auth k.owner u.owner k.hosts k.allowed u.allowed in
    let same' : v.owner ≡ u.owner =
      require_host_same g h one.0 two.0 auth u.owner v.owner u.hosts u.allowed v.allowed in
    let asked =
      found_again (kick_row id true now) id k.owner.id u.owner.id s.db.rooms one.0.db.rooms k.room
        u.room (λ y. unfold kick_row in (refl, refl)) k.stored k.rooms
        (ap (λ (x : Host). x.id) same) u.stored in
    let pending : u.room.kick_requested ≡ true =
      ap (λ (x : Room). x.kick_requested) asked
      ∙ kick_row_sets id true now k.room (own_room-id id k.owner.id s.db.rooms k.room k.stored) in
    let beat = heartbeat_row id u.online u.viewer now in
    let beaten =
      own_room-map beat id u.owner.id one.0.db.rooms u.room
        (λ y. unfold heartbeat_row in (refl, refl)) u.stored in
    let cleared =
      found_again (kick_row id false now) id u.owner.id v.owner.id (map beat one.0.db.rooms)
        two.0.db.rooms (beat u.room) v.room (λ y. unfold kick_row in (refl, refl)) beaten
        (u.rooms ∙ rw pending refl) (ap (λ (x : Host). x.id) same') v.stored in
    let nothing : v.room.kick_requested ≡ false =
      ap (λ (x : Room). x.kick_requested) cleared
      ∙ kick_row_sets id false now (beat u.room)
          (own_room-id id u.owner.id (map beat one.0.db.rooms) (beat u.room) beaten) in
    (u.answer ∙ ap (heartbeat_body "ok") pending, v.answer ∙ ap (heartbeat_body "ok") nothing)

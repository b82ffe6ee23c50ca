-- ===== src/Server/Access.antt =====
-- Requests without a known API key, and requests on another host's room or token.
use playgate.Common.{
  ℕ, ◌≡◌, ◌≢◌, refl, String, Bool, true, false, ◌&&◌, ◌||◌, Option, none, some, List, [], ◌∷◌,
  str_eq, eq_iff, All, All-map, if◌then◌else◌, Bool-cases, inl, inr,
}
use playgate.Common.Int.{ℤ}
use playgate.Common.Result.{ok, err}
use playgate.Server.Db.{
  Host, Room, Token, Sqlite, bytes_eq, find_first, query_row, host_by_key, get_host_by_api_key,
  get_room_by_id_and_host_id, get_token_by_code_and_host_id,
}
use playgate.Server.Api.{
  Response, Server, failure, bearer_token, found, respond, require_host, require_room,
}
use playgate.Server.Api.Rooms.{heartbeat_read, handle_heartbeat, handle_kick}
use playgate.Server.Api.Tokens.{
  issue_read, handle_issue_tokens, handle_list_tokens, own_token, revoke_read, handle_revoke_token,
}

-- What a request is refused with that meets nothing of its host: a driver error at its first two
-- statements, or that there is no such row.
pub record TurnedAway (f : ℕ → Bool) (s : Server) (r : Server × Response) : Type 0 where
  pub unchanged : r.0 ≡ s
  pub status : r.1.status ≡ (if f 0 || f 1 then 500 else 404)

-- A search that asks for a host finds no row of other hosts.
no_own {ℓ} :
    {A : Type ℓ} (hit : A → Bool) (owner : A → String) (host : String) (xs : List A)
    → All (λ x. (hit x ≡ true) → owner x ≢ host) xs
    → find_first (λ x. hit x && str_eq (owner x) host) xs ≡ none
unfolding find_first
no_own hit owner host [] h = refl
no_own hit owner host (x ∷ xs) h =
    let rest = no_own hit owner host xs h.1 in
    elim (Bool-cases (hit x)) [
      | inl e ↦ elim (Bool-cases (str_eq (owner x) host)) [
        | inl q ↦ absurd (h.0 e ((eq_iff (owner x) host).0 q))
        | inr q ↦ rw (e, q) rest
      ]
      | inr e ↦ rw e rest
    ]

-- The host of a key.
known_key :
    (f : ℕ → Bool) (s : Server) (auth : List ℕ) (h : Host)
    → bytes_eq (bearer_token auth) [] ≡ false
    → host_by_key (bearer_token auth) s.db.hosts ≡ some h
    → require_host f s auth ≡ (if f 0 then err (failure 500 "db error") else ok h)
unfolding require_host found get_host_by_api_key query_row
known_key f s auth h given known = elim (Bool-cases (f 0)) [
  | inl e ↦ rw (given, e) refl
  | inr e ↦ rw (given, e, known) refl
]

module _ (f : ℕ → Bool) (s : Server) (auth : List ℕ) (h : Host) where
  foreign_room :
      (id : String)
      → bytes_eq (bearer_token auth) [] ≡ false
      → host_by_key (bearer_token auth) s.db.hosts ≡ some h
      → All (λ (r : Room). r.id ≡ id → r.host_id ≢ h.id) s.db.rooms
      → (e : Response) × (require_room f s auth id ≡ err e)
        × (e.status ≡ (if f 0 || f 1 then 500 else 404))
  unfolding require_room found get_room_by_id_and_host_id query_row
  foreign_room id given known others =
      let host = known_key f s auth h given known in
      let none_own =
        no_own (λ (r : Room). str_eq r.id id) (λ (r : Room). r.host_id) h.id s.db.rooms
          (All-map _ _ (λ r k e. k ((eq_iff r.id id).0 e)) s.db.rooms others) in
      elim (Bool-cases (f 0)) [
        | inl e ↦ (failure 500 "db error", rw host (rw e refl), rw e refl)
        | inr e ↦ elim (Bool-cases (f 1)) [
          | inl e' ↦ (failure 500 "db error", rw host (rw (e, e') refl), rw (e, e') refl)
          | inr e' ↦
              (failure 404 "room not found", rw host (rw (e, e', none_own) refl), rw (e, e') refl)
        ]
      ]

  foreign_token :
      (code : String)
      → bytes_eq (bearer_token auth) [] ≡ false
      → host_by_key (bearer_token auth) s.db.hosts ≡ some h
      → All (λ (t : Token). t.code ≡ code → t.host_id ≢ h.id) s.db.tokens
      → (e : Response) × (revoke_read f s auth code ≡ err e)
        × (e.status ≡ (if f 0 || f 1 then 500 else 404))
  unfolding revoke_read own_token found get_token_by_code_and_host_id query_row
  foreign_token code given known others =
      let host = known_key f s auth h given known in
      let none_own =
        no_own (λ (t : Token). str_eq t.code code) (λ (t : Token). t.host_id) h.id s.db.tokens
          (All-map _ _ (λ t k e. k ((eq_iff t.code code).0 e)) s.db.tokens others) in
      elim (Bool-cases (f 0)) [
        | inl e ↦ (failure 500 "db error", rw host (rw e refl), rw e refl)
        | inr e ↦ elim (Bool-cases (f 1)) [
          | inl e' ↦ (failure 500 "db error", rw host (rw (e, e') refl), rw (e, e') refl)
          | inr e' ↦
              (failure 404 "token not found", rw host (rw (e, e', none_own) refl), rw (e, e') refl)
        ]
      ]

  -- A request with the key of a host, on a room and a code that belong to other hosts or to none: every
  -- handler of a room or of a code changes nothing, and answers 500 where one of its first two statements
  -- meets a driver error, and 404 else, whatever the request asks for.
  pub foreign_refused :
      (q : Sqlite) (id code : String) (beat : Option (Bool × Option String)) (count : Option ℤ)
      (codes : ℕ → String) (now : ℕ)
      → bytes_eq (bearer_token auth) [] ≡ false
      → host_by_key (bearer_token auth) s.db.hosts ≡ some h
      → All (λ (r : Room). r.id ≡ id → r.host_id ≢ h.id) s.db.rooms
      → All (λ (t : Token). t.code ≡ code → t.host_id ≢ h.id) s.db.tokens
      → TurnedAway f s (handle_heartbeat f s auth id beat now)
        × TurnedAway f s (handle_kick f s auth id now)
        × TurnedAway f s (handle_issue_tokens f s auth id count codes now)
        × TurnedAway f s (handle_list_tokens q f s auth id)
        × TurnedAway f s (handle_revoke_token f s auth code)
  unfolding handle_heartbeat heartbeat_read handle_kick issue_read handle_issue_tokens
      handle_list_tokens handle_revoke_token respond
  foreign_refused q id code beat count codes now given known rooms tokens =
      let (e, r, st) = foreign_room id given known rooms in
      let (e', r', st') = foreign_token code given known tokens in
      (
        rw r (record { unchanged = refl; status = st }),
        rw r (record { unchanged = refl; status = st }),
        rw r (record { unchanged = refl; status = st }),
        rw r (record { unchanged = refl; status = st }),
        rw r' (record { unchanged = refl; status = st' }),
      )

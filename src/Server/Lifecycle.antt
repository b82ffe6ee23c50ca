-- ===== src/Server/Lifecycle.antt =====
-- The life of a token under the statements of db.go, in any order: those of several requests may
-- interleave.
use playgate.Common.{
  eq_iff, ℕ, ◌≡◌, refl, ◌∙◌, ap, subst, String, Bool, true, false, not, ◌&&◌, ◌||◌, Option, none,
  some, List, [], ◌∷◌, ◌++◌, map, if◌then◌else◌, str_eq, arith, All, All-append, Bool-cases, inl,
  inr,
}
use playgate.Server.Db.{
  Host, Room, Token, Session, Db, find_first, token_row, exec, has_some, host_row, room_row,
  session_row, create_host, create_room, update_room_heartbeat, set_room_kick_requested, new_token,
  create_token, redeem_token, redeem_row, revoke_token, revoke_row, create_session,
}

-- One statement that succeeds.
pub data Statement (d e : Db) : Type 0 where
  creates_host : (f : Bool) (h : Host) → create_host f d h ≡ some e → Statement d e
  creates_room : (f : Bool) (r : Room) → create_room f d r ≡ some e → Statement d e
  heartbeats :
      (f : Bool) (id : String) (online : Bool) (viewer : Option String) (now : ℕ)
      → update_room_heartbeat f d id online viewer now ≡ some e
      → Statement d e
  kicks :
      (f : Bool) (id : String) (b : Bool) (now : ℕ)
      → set_room_kick_requested f d id b now ≡ some e
      → Statement d e
  creates_token : (f : Bool) (t : Token) → create_token f d t ≡ some e → Statement d e
  redeems :
      (f : Bool) (code viewer : String) (now : ℕ)
      → redeem_token f d code viewer now ≡ some e
      → Statement d e
  revokes : (f : Bool) (code : String) → revoke_token f d code ≡ some e → Statement d e
  creates_session : (f : Bool) (s : Session) → create_session f d s ≡ some e → Statement d e

pub data Run : Db → Db → Type 0 where
  done : {d : Db} → Run d d
  first : {d e f : Db} → Statement d e → Run e f → Run d f

exec-some : (f : Bool) (o : Option Db) {e : Db} → exec f o ≡ some e → o ≡ some e
unfolding exec
exec-some true o h = cc
exec-some false o h = h

unless : (b : Bool) (o : Option Db) {e : Db} → (if b then none else o) ≡ some e → o ≡ some e
unless true o h = cc
unless false o h = h

unused :
    (o : Option Token) (r : Option Db) {e : Db}
    → (if has_some o then none else r) ≡ some e
    → o ≡ none
unused none r h = refl
unused (some t) r h = cc

-- What a statement does to the table of tokens.
pub data Change (ts : List Token) : List Token → Type 0 where
  same : Change ts ts
  added :
      (code room host : String) (now : ℕ)
      → token_row code ts ≡ none
      → Change ts (ts ++ new_token code room host now ∷ [])
  redeemed_one : (code viewer : String) (now : ℕ) → Change ts (map (redeem_row code viewer now) ts)
  revoked_one : (code : String) → Change ts (map (revoke_row code) ts)

Change-to : (d x e : Db) → Change d.tokens x.tokens → some x ≡ some e → Change d.tokens e.tokens
Change-to d x e c h = let q : x ≡ e = cc in subst (λ (y : Db). Change d.tokens y.tokens) q c

pub Statement-Change : {d e : Db} → Statement d e → Change d.tokens e.tokens
unfolding create_host create_room update_room_heartbeat set_room_kick_requested create_token
    redeem_token revoke_token create_session
Statement-Change {d} {e} (creates_host f h p) =
    Change-to d _ e same (unless _ _ (unless _ _ (exec-some f _ p)))
Statement-Change {d} {e} (creates_room f r p) =
    Change-to d _ e same (unless _ _ (unless _ _ (exec-some f _ p)))
Statement-Change {d} {e} (heartbeats f id online viewer now p) =
    Change-to d _ e same (exec-some f _ p)
Statement-Change {d} {e} (kicks f id b now p) = Change-to d _ e same (exec-some f _ p)
Statement-Change {d} {e} (creates_token f t p) =
    let grown = record d {
      tokens = d.tokens ++ new_token t.code t.room_id t.host_id t.created_at ∷ [];
    } in
    Change-to d grown e
      (added t.code t.room_id t.host_id t.created_at (unused _ _ (exec-some f _ p)))
      (unless (not (has_some (host_row t.host_id d.hosts))) _ (
        unless (not (has_some (room_row t.room_id d.rooms))) _
          (unless (has_some (token_row t.code d.tokens)) _ (exec-some f _ p))))
Statement-Change {d} {e} (redeems f code viewer now p) =
    Change-to d _ e (redeemed_one code viewer now) (exec-some f _ p)
Statement-Change {d} {e} (revokes f code p) = Change-to d _ e (revoked_one code) (exec-some f _ p)
Statement-Change {d} {e} (creates_session f s p) =
    Change-to d (record d { sessions = d.sessions ++ s ∷ [] }) e same
      (unless (not (has_some (token_row s.token_code d.tokens))) _ (
        unless (not (has_some (room_row s.room_id d.rooms))) _
          (unless (has_some (session_row s.id d.sessions)) _ (exec-some f _ p))))

pub find_first-append {ℓ} :
    {A : Type ℓ} (p : A → Bool) (xs ys : List A) {x : A}
    → find_first p xs ≡ some x
    → find_first p (xs ++ ys) ≡ some x
unfolding find_first
find_first-append p [] ys h = cc
find_first-append p (z ∷ xs) ys {x} h = ground (arith, find_first-append p xs ys {x = x})

-- A row found in a table, found again after an update that keeps what the search tests.
pub find_first-map {ℓ} :
    {A : Type ℓ} (p : A → Bool) (f : A → A) (xs : List A) {x : A}
    → ((y : A) → p (f y) ≡ p y)
    → find_first p xs ≡ some x
    → find_first p (map f xs) ≡ some (f x)
unfolding find_first
find_first-map p f [] k h = cc
find_first-map p f (z ∷ xs) {x} k h = ground (arith, k z, find_first-map p f xs {x = x} k)

-- A token that was redeemed or revoked.
abbrev pub IsSettled : Token → Type 0
IsSettled t = (t.redeemed || t.revoked) ≡ true

redeem_row_settled :
    (code viewer : String) (now : ℕ) (t : Token) → IsSettled t → redeem_row code viewer now t ≡ t
unfolding redeem_row
redeem_row_settled code viewer now t h = ground arith

revoke_row_settled : (code : String) (t : Token) → IsSettled t → revoke_row code t ≡ t
unfolding revoke_row
revoke_row_settled code t h = ground arith

Change-settled :
    {ts us : List Token} (code : String) {t : Token}
    → Change ts us
    → token_row code ts ≡ some t
    → IsSettled t
    → token_row code us ≡ some t
unfolding token_row
Change-settled code same h s = h
Change-settled {ts} code (added c room host now new) h s = find_first-append _ ts _ h
Change-settled {ts} code (redeemed_one c viewer now) h s =
    find_first-map (λ (t : Token). str_eq t.code code) (redeem_row c viewer now) ts
      (λ y. unfold redeem_row in refl) h
    ∙ ap some (redeem_row_settled c viewer now _ s)
Change-settled {ts} code (revoked_one c) h s =
    find_first-map (λ (t : Token). str_eq t.code code) (revoke_row c) ts
      (λ y. unfold revoke_row in refl) h
    ∙ ap some (revoke_row_settled c _ s)

-- The row of a token that was redeemed or revoked never changes again, whatever statements follow.
pub Run-settled :
    {d e : Db} (code : String) (t : Token)
    → Run d e
    → token_row code d.tokens ≡ some t
    → IsSettled t
    → token_row code e.tokens ≡ some t
Run-settled code t done h s = h
Run-settled code t (first st r) h s =
    Run-settled code t r (Change-settled code (Statement-Change st) h s) s

-- No token is both redeemed and revoked.
abbrev pub OneFate : List Token → Type 0
OneFate = All (λ (t : Token). (t.redeemed && t.revoked) ≡ false)

All-map_of :
    (f : Token → Token) (ts : List Token)
    → ((t : Token) → (t.redeemed && t.revoked) ≡ false → ((f t).redeemed && (f t).revoked) ≡ false)
    → OneFate ts
    → OneFate (map f ts)
All-map_of f [] k h = tt
All-map_of f (t ∷ ts) k h = (k t h.0, All-map_of f ts k h.1)

Change-OneFate : {ts us : List Token} → Change ts us → OneFate ts → OneFate us
Change-OneFate same h = h
Change-OneFate {ts} (added c room host now new) h =
    All-append _ ts _ h (unfold new_token in (refl, tt))
Change-OneFate {ts} (redeemed_one c viewer now) h =
    All-map_of (redeem_row c viewer now) ts (λ t k. unfold redeem_row in ground arith) h
Change-OneFate {ts} (revoked_one c) h =
    All-map_of (revoke_row c) ts (λ t k. unfold revoke_row in ground arith) h

-- Whatever statements run, in any order, no token comes to be both redeemed and revoked.
pub Run-OneFate : {d e : Db} → Run d e → OneFate d.tokens → OneFate e.tokens
Run-OneFate done h = h
Run-OneFate (first st r) h = Run-OneFate r (Change-OneFate (Statement-Change st) h)

-- No two tokens share a code: the PRIMARY KEY of their table.
abbrev pub Unique : List Token → Type 0
Unique [] = Unit
Unique (t ∷ ts) = (token_row t.code ts ≡ none) × Unique ts

none_with_host :
    (ts : List Token) (code host : String)
    → token_row code ts ≡ none
    → find_first (λ (t : Token). str_eq t.code code && str_eq t.host_id host) ts ≡ none
unfolding token_row find_first
none_with_host [] code host h = refl
none_with_host (z ∷ ts) code host h = ground (arith, none_with_host ts code host)

-- The row with a code and a host is the row with the code.
pub Unique-row :
    (ts : List Token) (code host : String) (t : Token)
    → Unique ts
    → find_first (λ (t : Token). str_eq t.code code && str_eq t.host_id host) ts ≡ some t
    → token_row code ts ≡ some t
unfolding token_row find_first
Unique-row [] code host t u h = cc
Unique-row (z ∷ ts) code host t u h = elim (Bool-cases (str_eq z.code code)) [
  | inl e ↦
      let same : z.code ≡ code = (eq_iff z.code code).0 e in
      let absent =
        none_with_host ts code host
          (unfold token_row find_first in subst (λ c. token_row c ts ≡ none) same u.0) in
      ground (arith, e, absent)
  | inr e ↦ ground (arith, e, Unique-row ts code host t u.1)
]

token_row-snoc :
    (c : String) (ts : List Token) (t : Token)
    → token_row c ts ≡ none
    → str_eq t.code c ≡ false
    → token_row c (ts ++ t ∷ []) ≡ none
unfolding token_row find_first
token_row-snoc c [] t h e = rw e refl
token_row-snoc c (z ∷ ts) t h e = ground (arith, token_row-snoc c ts t)

token_row-map :
    (f : Token → Token) (c : String) (ts : List Token)
    → ((t : Token) → (f t).code ≡ t.code)
    → token_row c ts ≡ none
    → token_row c (map f ts) ≡ none
unfolding token_row find_first
token_row-map f c [] k h = refl
token_row-map f c (z ∷ ts) k h = ground (arith, k z, token_row-map f c ts k)

Unique-map :
    (f : Token → Token) (ts : List Token)
    → ((t : Token) → (f t).code ≡ t.code)
    → Unique ts
    → Unique (map f ts)
Unique-map f [] k u = tt
Unique-map f (t ∷ ts) k u = (rw (k t) (token_row-map f t.code ts k u.0), Unique-map f ts k u.1)

Unique-snoc :
    (ts : List Token) (t : Token) → token_row t.code ts ≡ none → Unique ts → Unique (ts ++ t ∷ [])
unfolding token_row find_first
Unique-snoc [] t h u = (refl, tt)
Unique-snoc (z ∷ ts) t h u = (
  token_row-snoc z.code ts t u.0 (ground (arith, eq_iff t.code z.code, eq_iff z.code t.code)),
  Unique-snoc ts t (ground arith) u.1,
)

Change-Unique : {ts us : List Token} → Change ts us → Unique ts → Unique us
Change-Unique same u = u
Change-Unique {ts} (added c room host now new) u =
    unfold new_token in Unique-snoc ts (new_token c room host now) new u
Change-Unique {ts} (redeemed_one c viewer now) u =
    Unique-map _ ts (λ t. unfold redeem_row in refl) u
Change-Unique {ts} (revoked_one c) u = Unique-map _ ts (λ t. unfold revoke_row in refl) u

-- Whatever statements run, in any order, codes stay unique.
pub Run-Unique : {d e : Db} → Run d e → Unique d.tokens → Unique e.tokens
Run-Unique done u = u
Run-Unique (first st r) u = Run-Unique r (Change-Unique (Statement-Change st) u)

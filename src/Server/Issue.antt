-- ===== src/Server/Issue.antt =====
-- What a request for tokens stores and answers.
use playgate.Common.{
  ℕ, zero, suc, ◌+◌, ◌≤◌, ◌≡◌, ◌≢◌, refl, sym, ap, ◌∙◌, String, Bool, Option, none, some, List, [],
  ◌∷◌, ◌++◌, map, append_assoc, append-nil, arith, inl, inr, length,
}
use playgate.Common.Int.{ℤ, pos, negsuc}
use playgate.Common.Result.{Result, ok, err}
use playgate.Server.Db.{
  Host, Token, Db, query_row, get_host_by_api_key, get_room_by_id_and_host_id, exec, new_token,
  create_token,
}
use playgate.Server.Redeem.{Result-cases}
use playgate.Server.Kick.{require_room_ok}
use playgate.Server.Api.{
  Response, Server, codes_body, found, respond, write, require_host, require_room,
}
use playgate.Server.Api.Tokens.{check_count, issue_loop, issue_read, handle_issue_tokens}

-- The random codes from the i-th on, n of them.
pub drawn : (ℕ → String) → ℕ → ℕ → List String
drawn codes i zero = []
drawn codes i (suc n) = codes i ∷ drawn codes (suc i) n

length-drawn : (codes : ℕ → String) (i n : ℕ) → length (drawn codes i n) ≡ n
unfolding drawn
length-drawn codes i zero = refl
length-drawn codes i (suc n) = omega (arith, length-drawn codes (suc i) n)

-- The tokens of a room and host with these codes.
pub fresh_tokens : String → String → ℕ → List String → List Token
fresh_tokens id host_id now cs = map (λ c. new_token c id host_id now) cs

create_token_adds :
    (f : Bool) (d e : Db) (t : Token)
    → create_token f d t ≡ some e
    → e.tokens ≡ d.tokens ++ new_token t.code t.room_id t.host_id t.created_at ∷ []
unfolding create_token exec
create_token_adds f d e t h = ground arith

-- A loop that answers 201.
record Stored (s : Server) (id host_id : String) (now : ℕ) (cs issued : List String)
    (u : Server × Response) : Type 0 where
  answer : u.1.body ≡ codes_body (issued ++ cs)
  tokens : u.0.db.tokens ≡ s.db.tokens ++ fresh_tokens id host_id now cs

issue_loop-Stored :
    (f : ℕ → Bool) (s : Server) (id host_id : String) (codes : ℕ → String) (now i n : ℕ)
    (issued : List String)
    → (issue_loop f s id host_id codes now i n issued).1.status ≡ 201
    → Stored s id host_id now
        (drawn codes i n)
        issued
        (issue_loop f s id host_id codes now i n issued)
unfolding issue_loop drawn fresh_tokens write new_token
issue_loop-Stored f s id host_id codes now i zero issued h = record {
  answer = ap codes_body (sym (append-nil issued));
  tokens = sym (append-nil s.db.tokens);
}
issue_loop-Stored f s id host_id codes now i (suc n) issued h =
    go (create_token (f (2 + i)) s.db (new_token (codes i) id host_id now)) refl
      (λ d.
        issue_loop-Stored f (record s { db = d }) id host_id codes now (suc i) n
          (issued ++ codes i ∷ []))
      h
  where
    go :
        (o : Option Db)
        → create_token (f (2 + i)) s.db (new_token (codes i) id host_id now) ≡ o
        → ((d : Db)
            → let v =
                issue_loop f
                  (record s { db = d })
                  id
                  host_id
                  codes
                  now
                  (suc i)
                  n
                  (issued ++ codes i ∷ []) in
              v.1.status ≡ 201
              → Stored
                  (record s { db = d })
                  id
                  host_id
                  now
                  (drawn codes (suc i) n)
                  (issued ++ codes i ∷ [])
                  v)
        → let u =
            write s o "create token failed"
              (λ s'. issue_loop f s' id host_id codes now (suc i) n (issued ++ codes i ∷ [])) in
          u.1.status ≡ 201 → Stored s id host_id now (codes i ∷ drawn codes (suc i) n) issued u
    go none e k h = absurd (ground arith)
    go (some d) e k h =
        let rest = k d h in
        let here = create_token_adds (f (2 + i)) s.db d (new_token (codes i) id host_id now) e in
        record {
          answer =
              rest.answer
              ∙ ap codes_body (append_assoc issued (codes i ∷ []) (drawn codes (suc i) n));
          tokens =
              rest.tokens
              ∙ ap (λ x. x ++ fresh_tokens id host_id now (drawn codes (suc i) n)) here
              ∙ append_assoc s.db.tokens (new_token (codes i) id host_id now ∷ [])
                  (fresh_tokens id host_id now (drawn codes (suc i) n));
        }

-- The bounds on the count, as the request has it.
check_count_ok :
    (req : Option ℤ) (n : ℕ) → check_count req ≡ ok n → (req ≡ some (pos n)) × (1 ≤ n) × (n ≤ 100)
unfolding check_count
check_count_ok none n h = cc
check_count_ok (some (pos m)) n h = ground arith
check_count_ok (some (negsuc m)) n h = ground arith

require_room_refuses :
    (f : ℕ → Bool) (s : Server) (auth : List ℕ) (id : String) (e : Response)
    → require_room f s auth id ≡ err e
    → e.status ≢ 201
unfolding require_room require_host found get_host_by_api_key get_room_by_id_and_host_id query_row
require_room_refuses f s auth id e h = ground arith

check_count_refuses : (req : Option ℤ) (e : Response) → check_count req ≡ err e → e.status ≢ 201
unfolding check_count
check_count_refuses none e h = ground arith
check_count_refuses (some (pos n)) e h = ground arith
check_count_refuses (some (negsuc n)) e h = ground arith

issue_read_ok :
    (f : ℕ → Bool) (s : Server) (auth : List ℕ) (id : String) (req : Option ℤ) (h : Host) (n : ℕ)
    → issue_read f s auth id req ≡ ok (h, n)
    → (require_host f s auth ≡ ok h) × (check_count req ≡ ok n)
unfolding issue_read
issue_read_ok f s auth id req h n e = elim (Result-cases (require_room f s auth id)) [
  | inl ((h', r), e') ↦ elim (Result-cases (check_count req)) [
    | inl (n', q) ↦
        let host : h' ≡ h = ground (arith, e', q) in
        let same : n' ≡ n = ground (arith, e', q) in
        ((require_room_ok f s auth id h' r e').0 ∙ ap ok host, q ∙ ap ok same)
    | inr (y, q) ↦ absurd (ground (arith, e', q))
  ]
  | inr (x, e') ↦ absurd (ground (arith, e'))
]

issue_read_refuses :
    (f : ℕ → Bool) (s : Server) (auth : List ℕ) (id : String) (req : Option ℤ) (e : Response)
    → issue_read f s auth id req ≡ err e
    → e.status ≢ 201
unfolding issue_read
issue_read_refuses f s auth id req e h = elim (Result-cases (require_room f s auth id)) [
  | inl (x, e') ↦ elim (Result-cases (check_count req)) [
    | inl (n, q) ↦ ground (arith, e', q)
    | inr (y, q) ↦ let r = check_count_refuses req y q in ground (arith, e', q, r)
  ]
  | inr (x, e') ↦ let r = require_room_refuses f s auth id x e' in ground (arith, e', r)
]

-- What a request for tokens that answers 201 has done, for the host and the count it found.
pub record Issued (f : ℕ → Bool) (s : Server) (auth : List ℕ) (id : String) (req : Option ℤ)
    (codes : ℕ → String) (now : ℕ) (u : Server × Response) : Type 0 where
  pub host : Host
  pub count : ℕ
  pub allowed : require_host f s auth ≡ ok host
  pub asked : req ≡ some (pos count)
  pub at_least : 1 ≤ count
  pub at_most : count ≤ 100
  pub all_drawn : length (drawn codes 0 count) ≡ count
  pub answer : u.1.body ≡ codes_body (drawn codes 0 count)
  pub tokens : u.0.db.tokens ≡ s.db.tokens ++ fresh_tokens id host.id now (drawn codes 0 count)

-- A request for tokens that answers 201 came from the known host, for 1 to 100 tokens; it has answered
-- with that many codes, the ones drawn in turn, and added to the table one token for each, in that
-- order, neither redeemed nor revoked.
issue-Issued :
    (f : ℕ → Bool) (s : Server) (auth : List ℕ) (id : String) (req : Option ℤ) (codes : ℕ → String)
    (now : ℕ)
    → (handle_issue_tokens f s auth id req codes now).1.status ≡ 201
    → Issued f s auth id req codes now (handle_issue_tokens f s auth id req codes now)
unfolding handle_issue_tokens respond
issue-Issued f s auth id req codes now = go (issue_read f s auth id req) refl
  where
    go :
        (r : Result Response (Host × ℕ))
        → issue_read f s auth id req ≡ r
        → let u = respond s r (λ x. issue_loop f s id x.0.id codes now 0 x.1 []) in
          u.1.status ≡ 201 → Issued f s auth id req codes now u
    go (ok (h, n)) e k =
        let (allowed, counted) = issue_read_ok f s auth id req h n e in
        let (asked, low, high) = check_count_ok req n counted in
        let stored = issue_loop-Stored f s id h.id codes now 0 n [] k in
        record {
          host = h;
          count = n;
          allowed = allowed;
          asked = asked;
          at_least = low;
          at_most = high;
          all_drawn = length-drawn codes 0 n;
          answer = stored.answer;
          tokens = stored.tokens;
        }
    go (err r) e k = absurd (issue_read_refuses f s auth id req r e k)

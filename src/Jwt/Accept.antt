-- ===== src/Jwt/Accept.antt =====
-- The host's check of a token, against a description of the tokens.
use playgate.Common.{
  ==_iff, ℕ, ◌≡◌, refl, ap, ◌∙◌, ◌≢◌, ◌↔◌, Bool, true, false, ◌&&◌, Option, none, some, List,
  length, arith, str_eq, eq_iff,
}
use playgate.Common.Int.{ℤ, pos, ◌<ℤ◌}
use playgate.Common.Result.{Result, ok, ◌>>=◌, ◌>>◌, guard, or_fail}
use playgate.Jwt.{
  Claims, Header, Packages, Parts, three_parts, split_dots, signing_input, public_key_size,
  base64_url_decode, check_claims, parse_and_verify,
}

or_fail-eq-ok {ℓ κ λ'} :
    {E : Type ℓ} {A : Type κ} {B : Type λ'} (o : Option A) (e : E) (f : A → Result E B) {b : B}
    → (or_fail o e >>= f) ≡ ok b
    → (a : A) × (o ≡ some a) × (f a ≡ ok b)
or_fail-eq-ok none e f h = cc
or_fail-eq-ok (some a) e f h = (a, refl, h)

guard-eq-ok {ℓ κ} :
    {E : Type ℓ} {B : Type κ} (t : Bool) (e : E) (m : Result E B) {b : B}
    → (guard t e >> m) ≡ ok b
    → (t ≡ true) × (m ≡ ok b)
guard-eq-ok true e m h = (refl, h)
guard-eq-ok false e m h = cc

-- Claims that the host acts on at the Unix time `now`.
pub record IsUsable (c : Claims) (now : ℤ) : Type 0 where
  pub has_exp : c.expires_at ≢ pos 0
  pub unexpired : now <ℤ c.expires_at
  pub has_room : c.room_id ≢ ""
  pub has_viewer : c.viewer_id ≢ ""
  pub has_time : pos 0 <ℤ c.session_seconds

module _ (k : Packages) where
  check_claims_sound :
      (c d : Claims) (now : ℤ) → check_claims k c now ≡ ok d → (c ≡ d) × IsUsable d now
  unfolding check_claims
  check_claims_sound c d now h = ground (arith, eq_iff c.room_id "", eq_iff c.viewer_id "")

  check_claims_complete : (c : Claims) (now : ℤ) → IsUsable c now → check_claims k c now ≡ ok c
  unfolding check_claims
  check_claims_complete c now u = ground (arith, eq_iff c.room_id "", eq_iff c.viewer_id "")

  -- The evidence behind an accepted token.
  pub record Accepted (token key : List ℕ) (now : ℤ) (c : Claims) : Type 0 where
    pub parts : Parts
    pub header_json : List ℕ
    pub payload_json : List ℕ
    pub sig : List ℕ
    pub split : three_parts (split_dots token) ≡ some parts
    pub header : base64_url_decode k parts.header ≡ some header_json
    pub alg : k.unmarshal_header header_json ≡ some (record { alg = "EdDSA"; typ = "JWT" })
    pub payload : base64_url_decode k parts.payload ≡ some payload_json
    pub signature : base64_url_decode k parts.signature ≡ some sig
    pub key_size : length key ≡ public_key_size
    pub signed : k.verify key (signing_input parts.header parts.payload) sig ≡ true
    pub claims : k.unmarshal_claims payload_json ≡ some c
    pub usable : IsUsable c now

  eddsa_header :
      (h : Header)
      → (str_eq h.alg "EdDSA" && str_eq h.typ "JWT") ≡ true
      → h ≡ record { alg = "EdDSA"; typ = "JWT" }
  eddsa_header h e = ground (arith, eq_iff h.alg "EdDSA", eq_iff h.typ "JWT")

  Accepted-of_ok :
      (token key : List ℕ) (now : ℤ) (c : Claims)
      → parse_and_verify k token key now ≡ ok c
      → Accepted token key now c
  unfolding parse_and_verify
  Accepted-of_ok token key now c h =
      let (parts, e1, h1) = or_fail-eq-ok _ _ _ h in
      let (hj, e2, h2) = or_fail-eq-ok _ _ _ h1 in
      let (hdr, e3, h3) = or_fail-eq-ok _ _ _ h2 in
      let (alg, h4) = guard-eq-ok _ _ _ h3 in
      let (pj, e5, h5) = or_fail-eq-ok _ _ _ h4 in
      let (sig, e6, h6) = or_fail-eq-ok _ _ _ h5 in
      let (size, h7) = guard-eq-ok _ _ _ h6 in
      let (signed, h8) = guard-eq-ok _ _ _ h7 in
      let (c', e9, h9) = or_fail-eq-ok _ _ _ h8 in
      let (same, usable) = check_claims_sound c' c now h9 in
      record {
        parts = parts;
        header_json = hj;
        payload_json = pj;
        sig = sig;
        split = e1;
        header = e2;
        alg = e3 ∙ ap some (eddsa_header hdr alg);
        payload = e5;
        signature = e6;
        key_size = (==_iff _ _).0 size;
        signed = signed;
        claims = e9 ∙ ap some same;
        usable = usable;
      }

  ok_of_Accepted :
      (token key : List ℕ) (now : ℤ) (c : Claims)
      → Accepted token key now c
      → parse_and_verify k token key now ≡ ok c
  unfolding parse_and_verify
  ok_of_Accepted token key now c a = rw (a.split) (
      rw a.header (
        rw a.alg (
          rw a.payload (
            rw a.signature
              (rw a.key_size (rw a.signed (rw a.claims (check_claims_complete c now a.usable))))))))

  -- The host accepts a token with claims `c` exactly when it has three parts, its header names EdDSA
  -- and JWT, its signature verifies over the first two parts under a key of 32 bytes, its payload
  -- parses to `c`, and `c` is unexpired with a room, a viewer and a positive session time.
  pub parse_and_verify_iff :
      (token key : List ℕ) (now : ℤ) (c : Claims)
      → (parse_and_verify k token key now ≡ ok c) ↔ Accepted token key now c
  parse_and_verify_iff token key now c =
      (Accepted-of_ok token key now c, ok_of_Accepted token key now c)

-- ===== src/Jwt/RoundTrip.antt =====
-- Tokens of the server, at the host.
use playgate.Common.{
  ℕ, ◌≡◌, refl, true, false, some, List, [], ◌∷◌, ◌++◌, append_assoc, length, All, ◌==◌,
}
use playgate.Common.Int.{ℤ}
use playgate.Common.Result.{ok}
use playgate.Jwt.{
  Claims, Packages, Parts, dot, three_parts, split_dots, signing_input, public_key_size,
  base64_url_decode, issue_jwt, parse_and_verify,
}
use playgate.Jwt.Accept.{IsUsable, Accepted, parse_and_verify_iff}

-- No dot.
abbrev pub NoDot : List ℕ → Type 0
NoDot = All (λ x. (x == dot) ≡ false)

split_dots-NoDot : (xs : List ℕ) → NoDot xs → split_dots xs ≡ xs ∷ []
unfolding split_dots
split_dots-NoDot [] h = refl
split_dots-NoDot (x ∷ xs) h = rw (h.0, split_dots-NoDot xs h.1)

split_dots-append : (xs ys : List ℕ) → NoDot xs → split_dots (xs ++ dot ∷ ys) ≡ xs ∷ split_dots ys
unfolding split_dots
split_dots-append [] ys h = refl
split_dots-append (x ∷ xs) ys h = rw (h.0, split_dots-append xs ys h.1)

-- What the packages document: base64 of any bytes has no dot and decodes to them once padded,
-- the header parses, and a signature by a private key
-- verifies under its public key, which has 32 bytes.
pub record Documented (k : Packages) (header_json private_key public_key : List ℕ) : Type 0 where
  pub no_dot : (xs : List ℕ) → NoDot (k.raw_url_encode xs)
  pub decodes : (xs : List ℕ) → base64_url_decode k (k.raw_url_encode xs) ≡ some xs
  pub raw_decodes : (xs : List ℕ) → k.raw_url_decode (k.raw_url_encode xs) ≡ some xs
  pub header : k.unmarshal_header header_json ≡ some (record { alg = "EdDSA"; typ = "JWT" })
  pub verifies : (msg : List ℕ) → k.verify public_key msg (k.sign private_key msg) ≡ true
  pub key_size : length public_key ≡ public_key_size

module _ (k : Packages) (header_json private_key public_key : List ℕ)
    (doc : Documented k header_json private_key public_key) where
  issued_parts : Claims → Parts
  issued_parts c = record {
    header = k.raw_url_encode header_json;
    payload = k.raw_url_encode (k.marshal_claims c);
    signature = k.raw_url_encode (
        k.sign private_key
          (signing_input (k.raw_url_encode header_json) (k.raw_url_encode (k.marshal_claims c))));
  }

  split_issued :
      (c : Claims)
      → three_parts (split_dots (issue_jwt k header_json private_key c)) ≡ some (issued_parts c)
  unfolding issue_jwt issued_parts signing_input three_parts
  split_issued c = rw (append_assoc (k.raw_url_encode header_json)) (
      rw (split_dots-append _ _ (doc.no_dot header_json)) (
        rw (split_dots-append _ _ (doc.no_dot (k.marshal_claims c)))
          (rw (split_dots-NoDot _ (doc.no_dot _)))))

  -- Where the packages do what they document, a token that the server issues for usable claims is
  -- accepted by the host, with those claims, if their JSON reads back as it was.
  pub issue-parse_and_verify :
      (c : Claims) (now : ℤ)
      → k.unmarshal_claims (k.marshal_claims c) ≡ some c
      → IsUsable c now
      → parse_and_verify k (issue_jwt k header_json private_key c) public_key now ≡ ok c
  issue-parse_and_verify c now marshals u = (parse_and_verify_iff k _ public_key now c).1 accepted
    where
      accepted : Accepted k (issue_jwt k header_json private_key c) public_key now c
      accepted = record {
        parts = issued_parts c;
        header_json = header_json;
        payload_json = k.marshal_claims c;
        sig =
            k.sign private_key (
              signing_input (k.raw_url_encode header_json) (k.raw_url_encode (k.marshal_claims c)));
        split = split_issued c;
        header = unfold issued_parts in doc.decodes header_json;
        alg = doc.header;
        payload = unfold issued_parts in doc.decodes (k.marshal_claims c);
        signature = unfold issued_parts in doc.decodes _;
        key_size = doc.key_size;
        signed = unfold issued_parts in doc.verifies _;
        claims = marshals;
        usable = u;
      }

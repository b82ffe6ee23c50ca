-- ===== src/Jwt.antt =====
-- Session tokens: playgate-host/internal/session/jwt.go checks them and
-- playgate-server/internal/auth/jwt.go issues them. A token is its bytes. Base64, JSON and ed25519
-- are the packages' own: an interface.
pub mod Accept
pub mod RoundTrip
pub mod Examples
use playgate.Common.{
  ℕ, ◌%◌, String, Bool, true, false, not, ◌&&◌, ◌||◌, Option, none, some, List, [], ◌∷◌, ◌++◌, ltb,
  leb, ◌==◌, if◌then◌else◌, length, str_eq,
}
use playgate.Common.Int.{ℤ, pos, ltb_ℤ, leb_ℤ, eqb_ℤ}
use playgate.Common.Result.{Result, ok, err, ◌>>=◌, ◌>>◌, guard, or_fail}

pub record Claims : Type 0 where
  pub issuer : String
  pub issued_at : ℤ
  pub expires_at : ℤ
  pub room_id : String
  pub viewer_id : String
  pub session_seconds : ℤ

pub record Header : Type 0 where
  pub alg : String
  pub typ : String

-- One constructor for each `return` of an error, in the order of the code.
pub data JwtError : Type 0 where
  malformed bad_header_encoding bad_header unsupported_alg bad_payload_encoding
        bad_signature_encoding :
      JwtError
  bad_key_size bad_signature bad_claims missing_exp expired missing_room_id missing_viewer_id :
      JwtError
  bad_session_seconds : JwtError

-- encoding/base64, encoding/json and crypto/ed25519.
pub record Packages : Type 0 where
  -- base64.URLEncoding.DecodeString and base64.RawURLEncoding.
  pub url_decode : List ℕ → Option (List ℕ)
  pub raw_url_decode : List ℕ → Option (List ℕ)
  pub raw_url_encode : List ℕ → List ℕ
  -- json.Unmarshal at the two types, and json.Marshal.
  pub unmarshal_header : List ℕ → Option Header
  pub unmarshal_claims : List ℕ → Option Claims
  pub marshal_claims : Claims → List ℕ
  -- ed25519.Verify(key, msg, sig) and ed25519.Sign(key, msg).
  pub verify : List ℕ → List ℕ → List ℕ → Bool
  pub sign : List ℕ → List ℕ → List ℕ

abbrev pub dot : ℕ
dot = b'.'

abbrev pub public_key_size : ℕ
public_key_size = 32

cons_head : ℕ → List (List ℕ) → List (List ℕ)
cons_head x [] = (x ∷ []) ∷ []
cons_head x (p ∷ ps) = (x ∷ p) ∷ ps

-- strings.Split(s, "."): always at least one part.
pub split_dots : List ℕ → List (List ℕ)
unfolding cons_head
split_dots [] = [] ∷ []
split_dots (x ∷ xs) = let rest = split_dots xs in if x == dot then [] ∷ rest else cons_head x rest

pub record Parts : Type 0 where
  pub header : List ℕ
  pub payload : List ℕ
  pub signature : List ℕ

-- `len(parts) != 3`.
pub three_parts : List (List ℕ) → Option Parts
three_parts (h ∷ p ∷ s ∷ []) = some (record { header = h; payload = p; signature = s })
three_parts _ = none

-- The ASCII of `header.payload`.
pub signing_input : List ℕ → List ℕ → List ℕ
signing_input h p = h ++ dot ∷ p

-- The padding that `base64URLDecode` adds.
pub add_padding : List ℕ → List ℕ
add_padding s =
    if length s % 4 == 2
    then s ++ b'=' ∷ b'=' ∷ []
    else if length s % 4 == 3
    then s ++ b'=' ∷ []
    else s

module _ (k : Packages) where
  open k use {url_decode, unmarshal_header, unmarshal_claims, verify}

  -- `base64URLDecode`.
  pub base64_url_decode : List ℕ → Option (List ℕ)
  base64_url_decode s = url_decode (add_padding s)

  -- The checks on the parsed claims, `now` in Unix seconds.
  pub check_claims : Claims → ℤ → Result JwtError Claims
  check_claims c now = do
    guard (not (eqb_ℤ c.expires_at (pos 0))) missing_exp
    guard (ltb_ℤ now c.expires_at) expired
    guard (not (str_eq c.room_id "")) missing_room_id
    guard (not (str_eq c.viewer_id "")) missing_viewer_id
    guard (ltb_ℤ (pos 0) c.session_seconds) bad_session_seconds
    ok c

  -- `ParseAndVerify`.
  pub parse_and_verify : List ℕ → List ℕ → ℤ → Result JwtError Claims
  parse_and_verify token pub_key now = do
    parts ← or_fail (three_parts (split_dots token)) malformed
    header_json ← or_fail (base64_url_decode parts.header) bad_header_encoding
    hdr ← or_fail (unmarshal_header header_json) bad_header
    guard (str_eq hdr.alg "EdDSA" && str_eq hdr.typ "JWT") unsupported_alg
    payload_json ← or_fail (base64_url_decode parts.payload) bad_payload_encoding
    sig ← or_fail (base64_url_decode parts.signature) bad_signature_encoding
    guard (length pub_key == public_key_size) bad_key_size
    guard (verify pub_key (signing_input parts.header parts.payload) sig) bad_signature
    c ← or_fail (unmarshal_claims payload_json) bad_claims
    check_claims c now

  -- The server's `IssueJWT`, over the bytes of its constant header.
  pub issue_jwt : List ℕ → List ℕ → Claims → List ℕ
  issue_jwt header_json private_key c =
      let sig_input =
        signing_input (k.raw_url_encode header_json) (k.raw_url_encode (k.marshal_claims c)) in
      sig_input ++ dot ∷ k.raw_url_encode (k.sign private_key sig_input)

  -- The server's `VerifyJWT`.
  pub verify_jwt : List ℕ → List ℕ → ℤ → Result JwtError Claims
  verify_jwt token pub_key now = do
    parts ← or_fail (three_parts (split_dots token)) malformed
    sig ← or_fail (k.raw_url_decode parts.signature) bad_signature_encoding
    guard (verify pub_key (signing_input parts.header parts.payload) sig) bad_signature
    payload_json ← or_fail (k.raw_url_decode parts.payload) bad_payload_encoding
    c ← or_fail (unmarshal_claims payload_json) bad_claims
    guard (not (ltb_ℤ c.expires_at now)) expired
    ok c

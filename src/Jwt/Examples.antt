-- ===== src/Jwt/Examples.antt =====
-- A token issued and accepted, with a toy encoding in place of base64, JSON and ed25519.
use playgate.Common.{
  ℕ, zero, suc, eq_iff, ◌+◌, ◌-◌, ◌≡◌, ◌↔◌, refl, ap, some, List, [], ◌∷◌, ◌++◌, append-nil, arith,
  length, ltb, if◌then◌else◌, ◌==◌,
}
use playgate.Common.Int.{pos}
use playgate.Common.Result.{ok}
use playgate.Jwt.{Claims, Packages, add_padding, base64_url_decode, issue_jwt, parse_and_verify}
use playgate.Jwt.Accept.{IsUsable, Accepted, parse_and_verify_iff}
use playgate.Jwt.RoundTrip.{NoDot, Documented, issue-parse_and_verify}

-- Every byte is moved past `=`, which decoding skips.
pub shift : List ℕ → List ℕ
shift [] = []
shift (x ∷ xs) = (x + 62) ∷ shift xs

pub unshift : List ℕ → List ℕ
unshift [] = []
unshift (x ∷ xs) = let rest = unshift xs in if ltb x 62 then rest else (x - 62) ∷ rest

unshift-shift-append : (xs ys : List ℕ) → unshift (shift xs ++ ys) ≡ xs ++ unshift ys
unfolding shift unshift
unshift-shift-append [] ys = refl
unshift-shift-append (x ∷ xs) ys = ground (arith, unshift-shift-append xs ys)

unshift-shift : (xs : List ℕ) → unshift (shift xs) ≡ xs
unfolding shift unshift
unshift-shift [] = refl
unshift-shift (x ∷ xs) = ground (arith, unshift-shift xs)

abbrev pub claims : Claims
claims = record {
  issuer = "playgate-server";
  issued_at = pos 1000;
  expires_at = pos 1060;
  room_id = "room";
  viewer_id = "viewer";
  session_seconds = pos 60;
}

abbrev pub toy : Packages
toy = record {
  url_decode = λ s. some (unshift s);
  raw_url_decode = λ s. some (unshift s);
  raw_url_encode = shift;
  unmarshal_header = λ _. some (record { alg = "EdDSA"; typ = "JWT" });
  unmarshal_claims = λ _. some claims;
  marshal_claims = λ _. 1 ∷ 2 ∷ [];
  verify = λ _ msg sig. length msg == length sig;
  sign = λ _ msg. msg;
}

abbrev pub key : List ℕ
key = go 32
  where
    go : ℕ → List ℕ
    go = elim [ zero ↦ [] | suc (n → ih) ↦ 0 ∷ ih ]

shift-NoDot : (xs : List ℕ) → NoDot (shift xs)
unfolding shift
shift-NoDot [] = tt
shift-NoDot (x ∷ xs) = (ground arith, shift-NoDot xs)

padded : (xs : List ℕ) → unshift (add_padding (shift xs)) ≡ xs
unfolding add_padding
padded xs = ground (
  arith,
  unshift-shift xs,
  unshift-shift-append xs (b'=' ∷ b'=' ∷ []),
  unshift-shift-append xs (b'=' ∷ []),
  append-nil xs,
  pad2,
  pad1,
)
  where
    pad2 : unshift (b'=' ∷ b'=' ∷ []) ≡ []
    pad2 = unfold unshift in refl

    pad1 : unshift (b'=' ∷ []) ≡ []
    pad1 = unfold unshift in refl

pub toy-Documented : Documented toy (3 ∷ []) [] key
toy-Documented = record {
  no_dot = shift-NoDot;
  decodes = λ xs. unfold base64_url_decode in ap some (padded xs);
  raw_decodes = λ xs. ap some (unshift-shift xs);
  header = refl;
  verifies = λ msg. ground arith;
  key_size = refl;
}

claims-IsUsable : IsUsable claims (pos 1030)
claims-IsUsable = record {
  has_exp = λ e. absurd (ground arith);
  unexpired = omega arith;
  has_room = λ e. ground (arith, eq_iff claims.room_id "");
  has_viewer = λ e. ground (arith, eq_iff claims.viewer_id "");
  has_time = omega arith;
}

issue-parse_and_verify_example :
    parse_and_verify toy (issue_jwt toy (3 ∷ []) [] claims) key (pos 1030) ≡ ok claims
issue-parse_and_verify_example =
    issue-parse_and_verify toy (3 ∷ []) [] key toy-Documented claims (pos 1030) refl claims-IsUsable

parse_and_verify_iff_example :
    (parse_and_verify toy (issue_jwt toy (3 ∷ []) [] claims) key (pos 1030) ≡ ok claims)
    ↔ Accepted toy (issue_jwt toy (3 ∷ []) [] claims) key (pos 1030) claims
parse_and_verify_iff_example =
    parse_and_verify_iff toy (issue_jwt toy (3 ∷ []) [] claims) key (pos 1030) claims

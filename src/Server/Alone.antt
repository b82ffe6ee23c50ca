-- ===== src/Server/Alone.antt =====
-- About the redemption and the revocation with other requests between their statements.
use playgate.Common.{ℕ, ◌≡◌, refl, String, Bool, List, inl, inr}
use playgate.Jwt.{Packages}
use playgate.Server.Redeem.{Result-cases}
use playgate.Server.Api.{Server, respond, require_host}
use playgate.Server.Api.Tokens.{
  Draw, open_token, room_of, redeem_read, redeem_write, redeem_among, handle_redeem_token,
  own_token, revoke_read, revoke_among, handle_revoke_token,
}

abbrev nobody : ℕ → Server → Server
nobody i s = s

-- Where nobody else does anything, a redemption is that of the handler alone.
redeem_among-alone :
    (k : Packages) (header_json private_key : List ℕ) (fails : ℕ → Bool) (s : Server)
    (code : String) (w : Draw)
    → redeem_among k header_json private_key nobody fails s code w
      ≡ handle_redeem_token k header_json private_key fails s code w
unfolding redeem_among handle_redeem_token redeem_read redeem_write respond
redeem_among-alone k header_json private_key fails s code w =
    elim (Result-cases (open_token fails s code)) [
      | inl (t, p) ↦ elim (Result-cases (room_of fails s t)) [
        | inl (room, q) ↦ rw p (rw q refl)
        | inr (e, q) ↦ rw p (rw q refl)
      ]
      | inr (e, p) ↦ rw p refl
    ]

-- So is a revocation.
revoke_among-alone :
    (fails : ℕ → Bool) (s : Server) (auth : List ℕ) (code : String)
    → revoke_among nobody fails s auth code ≡ handle_revoke_token fails s auth code
unfolding revoke_among handle_revoke_token revoke_read respond
revoke_among-alone fails s auth code = elim (Result-cases (require_host fails s auth)) [
  | inl (host, p) ↦ elim (Result-cases (own_token fails s code host)) [
    | inl (t, q) ↦ rw p (rw q refl)
    | inr (e, q) ↦ rw p (rw q refl)
  ]
  | inr (e, p) ↦ rw p refl
]

-- ===== src/AdminJwt/Acceptance.antt =====
-- Which tokens `Validate` of internal/adminjwt/jwt.go accepts after a `Rotate`.
use rpc_node_gateway.Prelude.{
  ℕ, ◌+◌, ◌≡◌, ◌≤◌, ◌<◌, refl, ◌∙◌, String, Bool, true, false, some, to_ℕ, str_eq, eq_refl, eq_iff,
  Option-cases, inl, inr, arith,
}
use rpc_node_gateway.AdminJwt.{Claims, Jwt, Record, Issuer, claims_of}
use rpc_node_gateway.AdminJwt.Store.{Store}
use rpc_node_gateway.AdminJwt.Rotator.{RotatorConfig, Turn, Validator, rotate, check, validate}
use rpc_node_gateway.AdminJwt.Rotation.{rotate-is_active, rotate_issued}

-- The validator that the admin pages are given beside the rotator.
abbrev pub validator_of : Issuer → Validator
validator_of i = record { secret = i.secret; issuer = i.issuer; subject = i.subject }

module _ {S : Type 0} (store : Store S) where
  check-some :
      (checked_at : ℕ) (fails : Bool) (claims c : Claims) (s : S)
      → check store checked_at fails claims s ≡ some c
      → (claims ≡ c) × (store.is_active fails checked_at claims.id s ≡ some true)
  unfolding check
  check-some checked_at fails claims c s e =
      elim (Option-cases (store.is_active fails checked_at claims.id s)) [
        | inl absent ↦ ground arith
        | inr (active, found) ↦ ground arith
      ]

  validate-parsed :
      (jwt : Jwt) (v : Validator) (parsed_at checked_at : ℕ) (fails : Bool) (raw : String) (s : S)
      (c : Claims)
      → validate store jwt v parsed_at checked_at fails raw s ≡ some c
      → store.is_active fails checked_at c.id s ≡ some true
  unfolding validate
  validate-parsed jwt v parsed_at checked_at fails raw s c e =
      elim (Option-cases (jwt.parse v.secret v.issuer v.subject parsed_at raw)) [
        | inl fails ↦ ground arith
        | inr (claims, parsed) ↦ ground (arith, check-some checked_at fails claims c s)
      ]

  validate-accepts :
      (jwt : Jwt) (v : Validator) (parsed_at checked_at : ℕ) (raw : String) (s : S) (c : Claims)
      → str_eq raw "" ≡ false
      → jwt.parse v.secret v.issuer v.subject parsed_at raw ≡ some c
      → str_eq c.id "" ≡ false
      → store.is_active false checked_at c.id s ≡ some true
      → validate store jwt v parsed_at checked_at false raw s ≡ some c
  unfolding validate check
  validate-accepts jwt v parsed_at checked_at raw s c e e' e'' e''' = rw (e, e', e'', e''') refl

  -- The token that a successful rotation issues is accepted by the validator with the same secret,
  -- issuer and subject, with the claims that were signed: for a jti that is not empty, a parse at or
  -- after the issue and before the expiry cut to seconds, and a look-up, which does not fail, after
  -- the revocation and clean-up of the rotation and before the expiry in the precision of the store.
  pub validate-rotate :
      (jwt : Jwt) (issuer : Issuer) (cfg : RotatorConfig) (turn : Turn) (rec : Record) (s : S)
      (parsed_at checked_at : ℕ)
      → store.IsValid s
      → (rotate store jwt issuer cfg turn s).1 ≡ some rec
      → str_eq turn.jti "" ≡ false
      → turn.issued_at ≤ parsed_at
      → parsed_at < jwt.numeric_date (turn.issued_at + to_ℕ issuer.ttl)
      → turn.revoked_at ≤ checked_at
      → turn.cleaned_at ≤ checked_at
      → checked_at < store.cut (turn.issued_at + to_ℕ issuer.ttl)
      → validate store jwt
          (validator_of issuer)
          parsed_at
          checked_at
          false
          rec.token
          (rotate store jwt issuer cfg turn s).0
        ≡ some (claims_of jwt issuer turn.issued_at turn.jti)
  validate-rotate jwt issuer cfg turn rec s parsed_at checked_at v e named from till le le' before =
      let (fresh, same, _, expires, signed) = rotate_issued store jwt issuer cfg turn rec s e in
      validate-accepts jwt (validator_of issuer) parsed_at checked_at rec.token
        (rotate store jwt issuer cfg turn s).0 (claims_of jwt issuer turn.issued_at turn.jti)
        (jwt.sign_nonempty issuer.secret rec.token _ signed)
        (jwt.parse-sign issuer.secret rec.token parsed_at _ signed
          (let le'' = jwt.numeric_date-le turn.issued_at in omega arith) till)
        named
        (rotate-is_active store jwt issuer cfg turn rec s checked_at turn.jti v e le le'
          ∙ ground (arith, eq_refl turn.jti))

  -- After a successful rotation of a valid store that revokes the tokens before it, a validator that
  -- looks up later than the revocation and the clean-up accepts only a token with the jti of the new
  -- record, and that only before the record expires, in the precision of the store.
  pub validate-rotate_only :
      (jwt : Jwt) (issuer : Issuer) (cfg : RotatorConfig) (turn : Turn) (rec : Record) (s : S)
      (v : Validator) (parsed_at checked_at : ℕ) (raw : String) (c : Claims)
      → store.IsValid s
      → cfg.revoke_previous ≡ true
      → (rotate store jwt issuer cfg turn s).1 ≡ some rec
      → turn.revoked_at ≤ checked_at
      → turn.cleaned_at ≤ checked_at
      → validate store jwt v parsed_at checked_at false raw (rotate store jwt issuer cfg turn s).0
        ≡ some c
      → (c.id ≡ rec.jti) × (checked_at < store.cut rec.expires_at)
  validate-rotate_only jwt issuer cfg turn rec s v parsed_at checked_at raw c valid revokes e le le'
        accepted =
      let looked = validate-parsed jwt v parsed_at checked_at false raw _ c accepted in
      let answer =
        rotate-is_active store jwt issuer cfg turn rec s checked_at c.id valid e le le' in
      ground (arith, eq_iff rec.jti c.id)

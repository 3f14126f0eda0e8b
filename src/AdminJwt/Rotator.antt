-- ===== src/AdminJwt/Rotator.antt =====
-- internal/adminjwt/rotator.go and the `Validator` of internal/adminjwt/jwt.go, over a `Store`. Each
-- reading of the clock is an argument; a failure of the store is a flag.
use rpc_node_gateway.Prelude.{
  ℕ, ◌-◌, String, Bool, Option, none, some, List, [], ◌∷◌, ℤ, is_nonpos, to_ℕ, if◌then◌else◌,
  str_eq,
}
use rpc_node_gateway.AdminJwt.{Claims, Jwt, Record, Issuer, issue}
use rpc_node_gateway.AdminJwt.Store.{Store}

pub record RotatorConfig : Type 0 where
  pub every : ℤ
  pub on_start : Bool
  pub revoke_previous : Bool
  pub cleanup_retention : ℤ

-- What one call of `Rotate` meets: the clock, the UUIDs that it draws and the failures of the store.
pub record Turn : Type 0 where
  pub revoked_at : ℕ
  pub issued_at : ℕ
  pub cleaned_at : ℕ
  pub jti : String
  pub id : String
  pub revoke_fails : Bool
  pub save_fails : Bool
  pub cleanup_fails : Bool

pub record Validator : Type 0 where
  pub secret : String
  pub issuer : String
  pub subject : String

module _ {S : Type 0} (store : Store S) where
  -- The end of `Rotate`, whose failure is only logged. No time is before 0.
  unfoldable pub clean : RotatorConfig → Turn → S → S
  clean cfg turn s =
      if is_nonpos cfg.cleanup_retention
      then s
      else (store.cleanup_expired (turn.cleaned_at - to_ℕ cfg.cleanup_retention) turn.cleanup_fails
          s).0

  -- From `Save` on.
  unfoldable pub keep : RotatorConfig → Turn → Record → S → S × Option Record
  keep cfg turn rec s =
      let result = store.save rec turn.save_fails s in
      if result.1 then (clean cfg turn result.0, some rec) else (result.0, none)

  -- From `Issue` on.
  unfoldable pub renew : Jwt → Issuer → RotatorConfig → Turn → S → S × Option Record
  renew jwt issuer cfg turn s = elim (issue jwt issuer turn.issued_at turn.jti turn.id) [
    | none ↦ (s, none)
    | some rec ↦ keep cfg turn rec s
  ]

  -- `Rotate`, with the record that it logs; `none` is an error.
  unfoldable pub rotate : Jwt → Issuer → RotatorConfig → Turn → S → S × Option Record
  rotate jwt issuer cfg turn s =
      if cfg.revoke_previous
      then (let result = store.revoke_all_active turn.revoked_at turn.revoke_fails s in
          if result.1 then renew jwt issuer cfg turn result.0 else (result.0, none))
      else renew jwt issuer cfg turn s

  -- The ticks: one `Rotate` each, whose error is only logged.
  unfoldable pub rotate_ticks : Jwt → Issuer → RotatorConfig → List Turn → S → S
  rotate_ticks jwt issuer cfg [] s = s
  rotate_ticks jwt issuer cfg (turn ∷ turns) s =
      rotate_ticks jwt issuer cfg turns (rotate jwt issuer cfg turn s).0

  -- `Start`, up to the last of the ticks.
  unfoldable pub start : Jwt → Issuer → RotatorConfig → Turn → List Turn → S → S
  start jwt issuer cfg first turns s =
      let started = if cfg.on_start then (rotate jwt issuer cfg first s).0 else s in
      if is_nonpos cfg.every then started else rotate_ticks jwt issuer cfg turns started

  -- `Validate`, from the test of the jti on.
  unfoldable pub check : ℕ → Bool → Claims → S → Option Claims
  check checked_at fails claims s =
      if str_eq claims.id "" then none else elim (store.is_active fails checked_at claims.id s) [
        | none ↦ none
        | some active ↦ if active then some claims else none
      ]

  -- `Validate`: the token is parsed at one time and looked up at another.
  unfoldable pub validate : Jwt → Validator → ℕ → ℕ → Bool → String → S → Option Claims
  validate jwt v parsed_at checked_at fails raw s =
      if str_eq raw "" then none else elim (jwt.parse v.secret v.issuer v.subject parsed_at raw) [
        | none ↦ none
        | some claims ↦ check checked_at fails claims s
      ]

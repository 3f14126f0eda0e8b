-- ===== src/AdminJwt/Rotation.antt =====
-- What a rotation leaves in the store, and which tokens the validator then accepts.
mod Steps
use rpc_node_gateway.Prelude.{
  ℕ, ◌+◌, ◌-◌, ◌≡◌, ◌≤◌, ◌<◌, refl, ◌∙◌, ap, sym, String, Bool, true, false, not, ◌&&◌, Option,
  none, some, ltb, leb, is_nonpos, to_ℕ, if◌then◌else◌, str_eq, eq_iff, if_elim, Bool-cases,
  Option-cases, inl, inr, ◌⊎◌, arith,
}
use rpc_node_gateway.AdminJwt.{Jwt, Record, Issuer, claims_of, issue}
use rpc_node_gateway.AdminJwt.Store.{
  Entry, Table, entry, live, saved, revoke, revoke_if_any, revoked_all, drop_expired, cleaned,
  live_if_any, active_in, Implements, Store,
}
use rpc_node_gateway.AdminJwt.Rotator.{RotatorConfig, Turn, clean, keep, renew, rotate}
use rpc_node_gateway.AdminJwt.Rotation.Steps.{
  revoked_dead, issue_fields, renew-some, renew-active_in, renew-none,
}

module _ {S : Type 0} (store : Store S) where
  -- The state that `Issue` starts from, when `Rotate` gets there.
  abbrev prepared : RotatorConfig → Turn → S → S
  prepared cfg turn s =
      if cfg.revoke_previous
      then (store.revoke_all_active turn.revoked_at turn.revoke_fails s).0
      else s

  prepared-IsValid :
      (cfg : RotatorConfig) (turn : Turn) (s : S)
      → store.IsValid s
      → store.IsValid (prepared cfg turn s)
  prepared-IsValid cfg turn s v =
      if_elim store.IsValid cfg.revoke_previous _ _
        ((store.revoke_all_active_lem _).valid turn.revoke_fails s v) v

  rotate-some :
      (jwt : Jwt) (issuer : Issuer) (cfg : RotatorConfig) (turn : Turn) (rec : Record) (s : S)
      → (rotate store jwt issuer cfg turn s).1 ≡ some rec
      → (rotate store jwt issuer cfg turn s ≡ renew store jwt issuer cfg turn (prepared cfg turn s))
        × ((cfg.revoke_previous ≡ true)
            → (store.revoke_all_active turn.revoked_at turn.revoke_fails s).1 ≡ true)
  unfolding rotate
  rotate-some jwt issuer cfg turn rec s e = ground arith

  revoked_active_in :
      (turn : Turn) (s : S) (later : ℕ) (j : String)
      → store.IsValid s
      → (store.revoke_all_active turn.revoked_at turn.revoke_fails s).1 ≡ true
      → turn.revoked_at ≤ later
      → active_in later j
          (store.table (store.revoke_all_active turn.revoked_at turn.revoke_fails s).0)
        ≡ false
  revoked_active_in turn s later j v works le =
      ap (live_if_any later) ((store.revoke_all_active_lem _).changes turn.revoke_fails s v works j)
      ∙ revoked_dead turn.revoked_at later (store.table s j) le

  prepared-active_in :
      (cfg : RotatorConfig) (turn : Turn) (s : S)
      → store.IsValid s
      → ((cfg.revoke_previous ≡ true)
          → (store.revoke_all_active turn.revoked_at turn.revoke_fails s).1 ≡ true)
      → (later : ℕ) (j : String) → turn.revoked_at ≤ later
      → active_in later j (store.table (prepared cfg turn s))
        ≡ not cfg.revoke_previous && active_in later j (store.table s)
  prepared-active_in cfg turn s v works later j le = elim (Bool-cases cfg.revoke_previous) [
    | inl e ↦ rw e (revoked_active_in turn s later j v (works e) le)
    | inr e ↦ rw e refl
  ]

  pub rotate_issued :
      (jwt : Jwt) (issuer : Issuer) (cfg : RotatorConfig) (turn : Turn) (rec : Record) (s : S)
      → (rotate store jwt issuer cfg turn s).1 ≡ some rec
      → (rec.revoked ≡ false)
        × (rec.jti ≡ turn.jti)
        × (rec.issued_at ≡ turn.issued_at)
        × (rec.expires_at ≡ turn.issued_at + to_ℕ issuer.ttl)
        × (jwt.sign issuer.secret (claims_of jwt issuer turn.issued_at turn.jti) ≡ some rec.token)
  rotate_issued jwt issuer cfg turn rec s e =
      let (same, _) = rotate-some jwt issuer cfg turn rec s e in
      issue_fields jwt issuer turn.issued_at turn.jti turn.id rec
        (renew-some store jwt issuer cfg turn rec (prepared cfg turn s)
          (ap (λ x. x.1) (sym same) ∙ e)).0

  -- After a rotation that succeeds, in a valid store: from the times of its revocation and of its
  -- clean-up on, the store answers for the jti of the new record that it is active exactly until the
  -- record expires, in the precision of the store, and for each other jti what its table said before or, if the rotation revokes the
  -- tokens before it, that it is not active.
  pub rotate-is_active :
      (jwt : Jwt) (issuer : Issuer) (cfg : RotatorConfig) (turn : Turn) (rec : Record) (s : S)
      (later : ℕ) (j : String)
      → store.IsValid s
      → (rotate store jwt issuer cfg turn s).1 ≡ some rec
      → turn.revoked_at ≤ later
      → turn.cleaned_at ≤ later
      → store.is_active false later j (rotate store jwt issuer cfg turn s).0
        ≡ some (
            if str_eq rec.jti j
            then ltb later (store.cut rec.expires_at)
            else not cfg.revoke_previous && active_in later j (store.table s))
  rotate-is_active jwt issuer cfg turn rec s later j v e le le' =
      let (same, works) = rotate-some jwt issuer cfg turn rec s e in
      let (valid, answers) =
        renew-active_in store jwt issuer cfg turn rec (prepared cfg turn s)
          (prepared-IsValid cfg turn s v) (ap (λ x. x.1) (sym same) ∙ e) in
      rw same (
        store.is_active_lem later j _ valid
        ∙ ap some
            (answers later j le' ∙ rw (prepared-active_in cfg turn s v works later j le) refl))

  -- Where a call that failed stopped.
  rotate-none :
      (jwt : Jwt) (issuer : Issuer) (cfg : RotatorConfig) (turn : Turn) (s : S)
      → (rotate store jwt issuer cfg turn s).1 ≡ none
      → ((rotate store jwt issuer cfg turn s).0 ≡ s)
        ⊎ (((store.revoke_all_active turn.revoked_at turn.revoke_fails s).1 ≡ true)
            × ((rotate store jwt issuer cfg turn s).0
                ≡ (store.revoke_all_active turn.revoked_at turn.revoke_fails s).0))
  unfolding rotate
  rotate-none jwt issuer cfg turn s e = elim (Bool-cases cfg.revoke_previous) [
    | inr p ↦ inl (simp p (renew-none store jwt issuer cfg turn s (ground arith)))
    | inl p ↦ elim (Bool-cases (store.revoke_all_active turn.revoked_at turn.revoke_fails s).1) [
      | inl works ↦ inr (
        works,
        simp (p, works)
            (renew-none store jwt issuer cfg turn
              (store.revoke_all_active turn.revoked_at turn.revoke_fails s).0 (ground arith)),
      )
      | inr fails ↦
          inl (rw (p, fails) ((store.revoke_all_active_lem _).undone turn.revoke_fails s fails))
    ]
  ]

  -- A rotation that fails in a valid store leaves the store as it was, or it leaves it with no token
  -- that is active at the time of the revocation or later.
  pub rotate_failed :
      (jwt : Jwt) (issuer : Issuer) (cfg : RotatorConfig) (turn : Turn) (s : S)
      → store.IsValid s
      → (rotate store jwt issuer cfg turn s).1 ≡ none
      → ((rotate store jwt issuer cfg turn s).0 ≡ s)
        ⊎ ((later : ℕ) (j : String)
            → turn.revoked_at ≤ later
            → store.is_active false later j (rotate store jwt issuer cfg turn s).0 ≡ some false)
  rotate_failed jwt issuer cfg turn s v e = elim (rotate-none jwt issuer cfg turn s e) [
    | inl same ↦ inl same
    | inr (works, same) ↦ inr (λ later j le. rw same (
        store.is_active_lem later j _ ((store.revoke_all_active_lem _).valid turn.revoke_fails s v)
        ∙ ap some (revoked_active_in turn s later j v works le)))
  ]

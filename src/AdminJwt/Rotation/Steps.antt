-- ===== src/AdminJwt/Rotation/Steps.antt =====
-- The steps of `Rotate` of internal/adminjwt/rotator.go, and what each leaves in the store.
use rpc_node_gateway.Prelude.{
  ℕ, ◌+◌, ◌-◌, ◌≡◌, ◌≤◌, refl, ◌∙◌, ap, String, Bool, true, false, Option, none, some, ltb,
  is_nonpos, to_ℕ, if◌then◌else◌, str_eq, if_elim, Bool-cases, Option-cases, inl, inr, arith,
}
use rpc_node_gateway.AdminJwt.{Jwt, Record, Issuer, claims_of, issue}
use rpc_node_gateway.AdminJwt.Store.{
  Entry, Table, stored, saved, revoke_if_any, drop_expired, live_if_any, active_in, Implements,
  Store,
}
use rpc_node_gateway.AdminJwt.Rotator.{RotatorConfig, Turn, clean, keep, renew}

pub revoked_dead :
    (now later : ℕ) (e : Option Entry)
    → now ≤ later
    → live_if_any later (revoke_if_any now e) ≡ false
revoked_dead now later none le = refl
revoked_dead now later (some e) le = ground arith

cleaned_live :
    (before later : ℕ) (e : Option Entry)
    → before ≤ later
    → live_if_any later (drop_expired before e) ≡ live_if_any later e
cleaned_live before later none le = refl
cleaned_live before later (some e) le = ground arith

pub issue_fields :
    (jwt : Jwt) (issuer : Issuer) (now : ℕ) (jti id : String) (rec : Record)
    → issue jwt issuer now jti id ≡ some rec
    → (rec.revoked ≡ false)
      × (rec.jti ≡ jti)
      × (rec.issued_at ≡ now)
      × (rec.expires_at ≡ now + to_ℕ issuer.ttl)
      × (jwt.sign issuer.secret (claims_of jwt issuer now jti) ≡ some rec.token)
unfolding issue
issue_fields jwt issuer now jti id rec e = ground arith

saved_live :
    (rec : Record) (t : Table) (later : ℕ) (j : String)
    → rec.revoked ≡ false
    → active_in later j (saved rec t)
      ≡ (if str_eq rec.jti j then ltb later rec.expires_at else active_in later j t)
saved_live rec t later j fresh = ground arith

module _ {S : Type 0} (store : Store S) where
  -- An operation that changes no answer when it works changes none when it fails.
  attempt-active_in :
      {op : Bool → S → S × Bool} {effect : Table → Table} (later : ℕ) (j : String) (fails : Bool)
      (s : S)
      → Implements store.IsValid store.table op effect
      → store.IsValid s
      → active_in later j (effect (store.table s)) ≡ active_in later j (store.table s)
      → active_in later j (store.table (op fails s).0) ≡ active_in later j (store.table s)
  attempt-active_in {op = op} later j fails s imp v same = elim (Bool-cases (op fails s).1) [
    | inl e ↦ ap (live_if_any later) (imp.changes fails s v e j) ∙ same
    | inr e ↦ ap (λ x. active_in later j (store.table x)) (imp.undone fails s e)
  ]

  -- What the store answers for a valid state, as the table has it.
  clean-IsValid :
      (cfg : RotatorConfig) (turn : Turn) (s : S)
      → store.IsValid s
      → store.IsValid (clean store cfg turn s)
  unfolding clean
  clean-IsValid cfg turn s v =
      if_elim store.IsValid (is_nonpos cfg.cleanup_retention) _ _ v
        ((store.cleanup_expired_lem _).valid turn.cleanup_fails s v)

  clean-active_in :
      (cfg : RotatorConfig) (turn : Turn) (s : S) (later : ℕ) (j : String)
      → store.IsValid s
      → turn.cleaned_at ≤ later
      → active_in later j (store.table (clean store cfg turn s)) ≡ active_in later j (store.table s)
  unfolding clean
  clean-active_in cfg turn s later j v le =
      if_elim (λ x. active_in later j (store.table x) ≡ active_in later j (store.table s))
        (is_nonpos cfg.cleanup_retention) _ _ refl
        (attempt-active_in later j turn.cleanup_fails s (store.cleanup_expired_lem _) v (
          cleaned_live (store.cut before) later (store.table s j)
            (omega (arith, store.cut_le before))))
    where
      before : ℕ
      before = turn.cleaned_at - to_ℕ cfg.cleanup_retention

  keep-some :
      (cfg : RotatorConfig) (turn : Turn) (r rec : Record) (s : S)
      → (keep store cfg turn r s).1 ≡ some rec
      → ((store.save r turn.save_fails s).1 ≡ true)
        × (r ≡ rec)
        × ((keep store cfg turn r s).0 ≡ clean store cfg turn (store.save r turn.save_fails s).0)
  unfolding keep
  keep-some cfg turn r rec s e = elim (Bool-cases (store.save r turn.save_fails s).1) [
    | inl works ↦ (works, ground arith, rw works refl)
    | inr fails ↦ ground arith
  ]

  pub renew-some :
      (jwt : Jwt) (issuer : Issuer) (cfg : RotatorConfig) (turn : Turn) (rec : Record) (s : S)
      → (renew store jwt issuer cfg turn s).1 ≡ some rec
      → (issue jwt issuer turn.issued_at turn.jti turn.id ≡ some rec)
        × ((store.save rec turn.save_fails s).1 ≡ true)
        × ((renew store jwt issuer cfg turn s).0
            ≡ clean store cfg turn (store.save rec turn.save_fails s).0)
  unfolding renew
  renew-some jwt issuer cfg turn rec s e =
      elim (Option-cases (issue jwt issuer turn.issued_at turn.jti turn.id)) [
        | inl fails ↦ ground arith
        | inr (r, issued) ↦ ground (arith, keep-some cfg turn r rec s)
      ]

  pub renew-active_in :
      (jwt : Jwt) (issuer : Issuer) (cfg : RotatorConfig) (turn : Turn) (rec : Record) (s : S)
      → store.IsValid s
      → (renew store jwt issuer cfg turn s).1 ≡ some rec
      → store.IsValid (renew store jwt issuer cfg turn s).0
        × ((later : ℕ) (j : String)
            → turn.cleaned_at ≤ later
            → active_in later j (store.table (renew store jwt issuer cfg turn s).0) ≡ (
                if str_eq rec.jti j
                then ltb later (store.cut rec.expires_at)
                else active_in later j (store.table s)))
  renew-active_in jwt issuer cfg turn rec s v e =
      let (issued, works, same) = renew-some jwt issuer cfg turn rec s e in
      let saves = store.save_lem rec in
      let kept = saves.valid turn.save_fails s v in
      let fresh = (issue_fields jwt issuer turn.issued_at turn.jti turn.id rec issued).0 in
      rw same (
        clean-IsValid cfg turn (store.save rec turn.save_fails s).0 kept,
        λ later j le.
            clean-active_in cfg turn (store.save rec turn.save_fails s).0 later j kept le
            ∙ ap (live_if_any later) (saves.changes turn.save_fails s v works j)
            ∙ saved_live (stored store.cut rec) (store.table s) later j fresh,
      )

  keep-none :
      (cfg : RotatorConfig) (turn : Turn) (r : Record) (s : S)
      → (keep store cfg turn r s).1 ≡ none
      → (keep store cfg turn r s).0 ≡ s
  unfolding keep
  keep-none cfg turn r s e = elim (Bool-cases (store.save r turn.save_fails s).1) [
    | inl works ↦ ground arith
    | inr fails ↦ rw fails ((store.save_lem r).undone turn.save_fails s fails)
  ]

  pub renew-none :
      (jwt : Jwt) (issuer : Issuer) (cfg : RotatorConfig) (turn : Turn) (s : S)
      → (renew store jwt issuer cfg turn s).1 ≡ none
      → (renew store jwt issuer cfg turn s).0 ≡ s
  unfolding renew
  renew-none jwt issuer cfg turn s e =
      elim (Option-cases (issue jwt issuer turn.issued_at turn.jti turn.id)) [
        | inl fails ↦ ground arith
        | inr (r, issued) ↦ ground (arith, keep-none cfg turn r s)
      ]

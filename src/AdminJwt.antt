-- ===== src/AdminJwt.antt =====
-- internal/adminjwt: the tokens of the admin pages. Times have the unit of durations. golang-jwt is a parameter
-- (`Jwt`), with what its documentation says of it as fields; so are the two UUIDs of a token.
pub mod Store
pub mod MemoryStore
pub mod PostgresStore
pub mod Rotator
pub mod Rotation
pub mod Acceptance
pub mod Agreement
pub mod Latest
use rpc_node_gateway.Prelude.{
  ℕ, ◌+◌, ◌≤◌, ◌<◌, ◌≡◌, String, Bool, true, false, not, ◌&&◌, ◌||◌, Option, none, some, ℤ,
  is_nonpos, to_ℕ, ltb, if◌then◌else◌, str_eq,
}

-- `RegisteredClaims`, as far as the code sets it.
pub record Claims : Type 0 where
  pub id : String
  pub issuer : String
  pub subject : String
  pub issued_at : ℕ
  pub expires_at : ℕ
  pub not_before : ℕ

-- golang-jwt: the dates of claims are cut to seconds; what was signed parses with the same secret,
-- issuer and subject, while it is valid.
pub record Jwt : Type 0 where
  pub numeric_date : ℕ → ℕ
  pub sign : String → Claims → Option String
  pub parse : String → String → String → ℕ → String → Option Claims
  pub numeric_date-le : (t : ℕ) → numeric_date t ≤ t
  pub parse-sign :
      (secret raw : String) (now : ℕ) (c : Claims)
      → sign secret c ≡ some raw
      → c.not_before ≤ now
      → now < c.expires_at
      → parse secret c.issuer c.subject now raw ≡ some c
  pub sign_nonempty :
      (secret raw : String) (c : Claims) → sign secret c ≡ some raw → str_eq raw "" ≡ false

pub record Record : Type 0 where
  pub id : String
  pub jti : String
  pub token : String
  pub subject : String
  pub issued_at : ℕ
  pub expires_at : ℕ
  pub revoked : Bool

pub record Issuer : Type 0 where
  pub secret : String
  pub issuer : String
  pub subject : String
  pub ttl : ℤ

abbrev pub claims_of : Jwt → Issuer → ℕ → String → Claims
claims_of jwt i now jti = record {
  id = jti;
  issuer = i.issuer;
  subject = i.subject;
  issued_at = jwt.numeric_date now;
  expires_at = jwt.numeric_date (now + to_ℕ i.ttl);
  not_before = jwt.numeric_date now;
}

-- `Issue`, with the ids that it draws.
unfoldable pub issue : Jwt → Issuer → ℕ → String → String → Option Record
issue jwt i now jti id =
    if str_eq i.secret "" || is_nonpos i.ttl
    then none
    else elim (jwt.sign i.secret (claims_of jwt i now jti)) [
      | none ↦ none
      | some signed ↦ some (record {
        id = id;
        jti = jti;
        token = signed;
        subject = i.subject;
        issued_at = now;
        expires_at = now + to_ℕ i.ttl;
        revoked = false;
      })
    ]

-- `!rec.Revoked && now.Before(rec.ExpiresAt)`
abbrev pub is_live : ℕ → Record → Bool
is_live now r = not r.revoked && ltb now r.expires_at

-- ===== src/AdminJwt/MemoryStore/Tests.antt =====
-- A rotation of a store in memory that holds a live token.
use rpc_node_gateway.Prelude.{
  ℕ, ◌/◌, ◌*◌, ◌≡◌, ◌≤◌, ◌<◌, refl, ap, sym, String, Bool, true, false, ◌&&◌, not, lookup, insert,
  List, Option, none, some, ◌∷◌, [], ltb, leb, ◌==◌, pos, if◌then◌else◌, str_eq, eq_iff, arith,
}
use rpc_node_gateway.AdminJwt.{Claims, Jwt, Record, Issuer, claims_of, issue}
use rpc_node_gateway.AdminJwt.Store.{active_in}
use rpc_node_gateway.AdminJwt.MemoryStore.{
  MemoryStore, new_memory_store, memory, save, revoke_loop, revoke_all_active, cleanup_loop,
  cleanup_expired, latest_active,
}
use rpc_node_gateway.AdminJwt.PostgresStore.{micros, postgres, empty_table, latest_row}
use rpc_node_gateway.AdminJwt.Rotator.{RotatorConfig, Turn, clean, keep, renew, rotate, validate}
use rpc_node_gateway.AdminJwt.Rotation.{rotate-is_active}
use rpc_node_gateway.AdminJwt.Acceptance.{validator_of, validate-rotate}
use rpc_node_gateway.AdminJwt.Latest.{IsLatest, issue_time, run-latest_active}
use rpc_node_gateway.AdminJwt.Agreement.{
  Call, save_call, revoke_call, cleanup_call, run, cut_calls, final_table,
}

abbrev pub signed_claims : Claims
signed_claims = record {
  id = "j2";
  issuer = "gateway";
  subject = "admin";
  issued_at = 1000;
  expires_at = 61000;
  not_before = 1000;
}

abbrev pub is_signed : String → Claims → Bool
is_signed secret c =
    str_eq secret "s"
    && str_eq c.id "j2"
    && str_eq c.issuer "gateway"
    && str_eq c.subject "admin"
    && c.issued_at == 1000
    && c.expires_at == 61000
    && c.not_before == 1000

pub is_signed-claims :
    (secret : String) (c : Claims) → is_signed secret c ≡ true → c ≡ signed_claims
is_signed-claims secret c e =
    ground (arith, eq_iff c.id "j2", eq_iff c.issuer "gateway", eq_iff c.subject "admin")

-- A library that signs one set of claims.
abbrev pub parse_one : String → String → String → ℕ → String → Option Claims
parse_one secret issuer subject now raw =
    if str_eq secret "s"
      && str_eq issuer "gateway"
      && str_eq subject "admin"
      && str_eq raw "signed"
      && leb 1000 now
      && ltb now 61000
    then some signed_claims
    else none

pub parse_one-signed :
    (secret raw : String) (now : ℕ) (c : Claims)
    → (if is_signed secret c then some "signed" else none) ≡ some raw
    → c.not_before ≤ now
    → now < c.expires_at
    → parse_one secret c.issuer c.subject now raw ≡ some c
parse_one-signed secret raw now c e from till = ground (
  arith,
  eq_iff secret "s",
  eq_iff c.id "j2",
  eq_iff c.issuer "gateway",
  eq_iff c.subject "admin",
  eq_iff raw "signed",
)

pub sign_one-nonempty :
    (signs : Bool) (raw : String)
    → (if signs then some "signed" else none) ≡ some raw
    → str_eq raw "" ≡ false
sign_one-nonempty true raw e =
    ap (λ (o : Option String). elim o [ none ↦ false | some x ↦ str_eq x "" ]) (sym e)
sign_one-nonempty false raw e = ground arith

abbrev pub jwt : Jwt
jwt = record {
  numeric_date = λ t. t / 1000 * 1000;
  sign = λ secret c. if is_signed secret c then some "signed" else none;
  parse = parse_one;
  numeric_date-le = λ t. omega arith;
  parse-sign = parse_one-signed;
  sign_nonempty = λ secret raw c e. sign_one-nonempty (is_signed secret c) raw e;
}

abbrev pub issuer : Issuer
issuer = record { secret = "s"; issuer = "gateway"; subject = "admin"; ttl = pos 60000 }

abbrev pub cfg : RotatorConfig
cfg = record {
  every = pos 30000;
  on_start = true;
  revoke_previous = true;
  cleanup_retention = pos 1000;
}

abbrev pub turn : Turn
turn = record {
  revoked_at = 1400;
  issued_at = 1500;
  cleaned_at = 1600;
  jti = "j2";
  id = "i2";
  revoke_fails = false;
  save_fails = false;
  cleanup_fails = false;
}

-- The token of the rotation before.
abbrev pub old : Record
old = record {
  id = "i1";
  jti = "j1";
  token = "old";
  subject = "admin";
  issued_at = 100;
  expires_at = 60100;
  revoked = false;
}

abbrev pub issued : Record
issued = record {
  id = "i2";
  jti = "j2";
  token = "signed";
  subject = "admin";
  issued_at = 1500;
  expires_at = 61500;
  revoked = false;
}

abbrev pub holding : MemoryStore
holding = record { by_jti = ("j1", old) ∷ [] }

pub rotate-holding : (rotate memory jwt issuer cfg turn holding).1 ≡ some issued
unfolding memory rotate renew keep clean issue save revoke_all_active cleanup_expired revoke_loop
    cleanup_loop insert
rotate-holding = refl

pub holding-IsValid : memory.IsValid holding
unfolding memory lookup
holding-IsValid = (refl, tt)

rotate-is_active_example :
    memory.is_active false 2000 "j1" (rotate memory jwt issuer cfg turn holding).0
    ≡ some (
        if str_eq "j2" "j1"
        then ltb 2000 61500
        else not true && active_in 2000 "j1" (memory.table holding))
unfolding memory
rotate-is_active_example =
    rotate-is_active memory jwt issuer cfg turn issued holding 2000 "j1" holding-IsValid
      rotate-holding (omega arith) (omega arith)

validate-rotate_example :
    validate memory jwt
      (validator_of issuer)
      2000
      2000
      false
      "signed"
      (rotate memory jwt issuer cfg turn holding).0
    ≡ some (claims_of jwt issuer 1500 "j2")
unfolding memory
validate-rotate_example =
    validate-rotate memory jwt issuer cfg turn issued holding 2000 2000 holding-IsValid
      rotate-holding refl (omega arith) (omega arith) (omega arith) (omega arith) (omega arith)

abbrev calls : List Call
calls = save_call old ∷ revoke_call 1400 ∷ save_call issued ∷ cleanup_call 600 ∷ []

run-latest_active_example :
    ((j : String)
      → memory.is_active false 2000 j (run memory (cut_calls micros calls) new_memory_store)
        ≡ postgres.is_active false 2000 j (run postgres calls empty_table))
    × IsLatest 2000
        (final_table calls)
        (latest_active 2000 (run memory (cut_calls micros calls) new_memory_store))
    × IsLatest 2000 (final_table calls) (latest_row 2000 (run postgres calls empty_table).rows)
    × (issue_time (latest_active 2000 (run memory (cut_calls micros calls) new_memory_store))
        ≡ issue_time (latest_row 2000 (run postgres calls empty_table).rows))
run-latest_active_example = run-latest_active calls 2000

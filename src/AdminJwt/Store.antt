-- ===== src/AdminJwt/Store.antt =====
-- The interface `Store` of internal/adminjwt/store.go, with its contract: an implementation shows a
-- table of records by their jti, and each operation changes the table as said here, or fails and
-- leaves the store as it was. The flag of an operation lets it fail. A store may cut the times that it
-- is given to its own precision.
use rpc_node_gateway.Prelude.{
  ℕ, ◌≡◌, ◌≤◌, String, Bool, true, false, not, ◌&&◌, Option, none, some, ltb, leb, if◌then◌else◌,
  str_eq,
}
use rpc_node_gateway.AdminJwt.{Record}

-- What the table shows of a record: all but the `id`, which no operation reads.
pub record Entry : Type 0 where
  pub token : String
  pub subject : String
  pub issued_at : ℕ
  pub expires_at : ℕ
  pub revoked : Bool

abbrev pub Table : Type 0
Table = String → Option Entry

abbrev pub entry : Record → Entry
entry r = record {
  token = r.token;
  subject = r.subject;
  issued_at = r.issued_at;
  expires_at = r.expires_at;
  revoked = r.revoked;
}

abbrev pub live : ℕ → Entry → Bool
live now e = not e.revoked && ltb now e.expires_at

-- A record as a store with this precision keeps it.
abbrev pub stored : (ℕ → ℕ) → Record → Record
stored cut r = record r { issued_at = cut r.issued_at; expires_at = cut r.expires_at }

abbrev pub saved : Record → Table → Table
saved r t j = if str_eq r.jti j then some (entry r) else t j

abbrev pub revoke : ℕ → Entry → Entry
revoke now e = if live now e then record e { revoked = true } else e

abbrev pub revoke_if_any : ℕ → Option Entry → Option Entry
revoke_if_any now none = none
revoke_if_any now (some e) = some (revoke now e)

abbrev pub revoked_all : ℕ → Table → Table
revoked_all now t j = revoke_if_any now (t j)

abbrev pub drop_expired : ℕ → Option Entry → Option Entry
drop_expired before none = none
drop_expired before (some e) = if leb e.expires_at before then none else some e

abbrev pub cleaned : ℕ → Table → Table
cleaned before t j = drop_expired before (t j)

abbrev pub live_if_any : ℕ → Option Entry → Bool
live_if_any now none = false
live_if_any now (some e) = live now e

abbrev pub active_in : ℕ → String → Table → Bool
active_in now j t = live_if_any now (t j)

-- An operation that gives the new store and whether it succeeded, against its effect on the table.
pub record Implements {S : Type 0} (IsValid : S → Type 0) (table : S → Table)
    (op : Bool → S → S × Bool) (effect : Table → Table) : Type 0 where
  pub valid : (fails : Bool) (s : S) → IsValid s → IsValid (op fails s).0
  pub works : (s : S) → (op false s).1 ≡ true
  pub undone : (fails : Bool) (s : S) → (op fails s).1 ≡ false → (op fails s).0 ≡ s
  pub changes :
      (fails : Bool) (s : S)
      → IsValid s
      → (op fails s).1 ≡ true
      → (j : String) → table (op fails s).0 j ≡ effect (table s) j

pub record Store (S : Type 0) : Type 1 where
  pub IsValid : S → Type 0
  pub table : S → Table
  pub cut : ℕ → ℕ
  pub cut_le : (t : ℕ) → cut t ≤ t
  pub save : Record → Bool → S → S × Bool
  pub is_active : Bool → ℕ → String → S → Option Bool
  pub revoke_all_active : ℕ → Bool → S → S × Bool
  pub cleanup_expired : ℕ → Bool → S → S × Bool
  pub save_lem : (r : Record) → Implements IsValid table (save r) (saved (stored cut r))
  pub revoke_all_active_lem :
      (now : ℕ) → Implements IsValid table (revoke_all_active now) (revoked_all now)
  pub cleanup_expired_lem :
      (before : ℕ) → Implements IsValid table (cleanup_expired before) (cleaned (cut before))
  pub is_active_lem :
      (now : ℕ) (j : String) (s : S)
      → IsValid s
      → is_active false now j s ≡ some (active_in now j (table s))

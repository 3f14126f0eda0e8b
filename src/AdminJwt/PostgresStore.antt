-- ===== src/AdminJwt/PostgresStore.antt =====
-- internal/adminjwt/postgres_store.go: the rows of the table admin_jwt_tokens, whose jti is unique.
-- A statement is a pass over the rows, done as a whole or, when it fails, not at all; `now()` of the
-- database is the time that the caller gives.
use rpc_node_gateway.Prelude.{
  ℕ, ◌*◌, ◌/◌, ◌≤◌, ◌≡◌, refl, ◌∙◌, ap, String, Bool, true, false, ◌&&◌, ◌||◌, Option, none, some,
  List, [], ◌∷◌, leb, if◌then◌else◌, Bool-cases, inl, inr, str_eq, eq_iff, arith,
}
use rpc_node_gateway.AdminJwt.{Record, is_live}
use rpc_node_gateway.AdminJwt.Store.{
  Entry, Table, revoke_if_any, live_if_any, entry, stored, saved, revoked_all, drop_expired,
  cleaned, Implements, Store,
}

pub record PostgresStore : Type 0 where
  pub rows : List Record

-- A statement of `Pool.Exec`, with what the code does of its error: the rows are as they were.
unfoldable pub exec : (List Record → List Record) → Bool → PostgresStore → PostgresStore × Bool
exec statement fails s = if fails then (s, false) else (record { rows = statement s.rows }, true)

-- pgx sends a time to a column TIMESTAMPTZ, or to a comparison with one, as whole microseconds.
unfoldable pub micros : ℕ → ℕ
micros t = t / 1000 * 1000

-- INSERT ... ON CONFLICT (jti) DO UPDATE, which keeps the id of the row that is there.
unfoldable pub upsert : Record → List Record → List Record
upsert rec [] = rec ∷ []
upsert rec (r ∷ rest) =
    if str_eq r.jti rec.jti then record rec { id = r.id } ∷ rest else r ∷ upsert rec rest

unfoldable pub save : Record → Bool → PostgresStore → PostgresStore × Bool
save rec = exec (upsert (stored micros rec))

-- SELECT EXISTS
unfoldable pub exists_live : ℕ → String → List Record → Bool
exists_live now jti [] = false
exists_live now jti (r ∷ rest) = (str_eq r.jti jti && is_live now r) || exists_live now jti rest

unfoldable pub is_active : Bool → ℕ → String → PostgresStore → Option Bool
is_active fails now jti s = if fails then none else some (exists_live now jti s.rows)

unfoldable pub revoke_rows : ℕ → List Record → List Record
revoke_rows now [] = []
revoke_rows now (r ∷ rest) =
    (if is_live now r then record r { revoked = true } else r) ∷ revoke_rows now rest

unfoldable pub revoke_all_active : ℕ → Bool → PostgresStore → PostgresStore × Bool
revoke_all_active now = exec (revoke_rows now)

-- ORDER BY issued_at DESC LIMIT 1, among the rows that are live.
unfoldable pub latest_row : ℕ → List Record → Option Record
latest_row now [] = none
latest_row now (r ∷ rest) =
    let best = latest_row now rest in
    if is_live now r && elim best [ none ↦ true | some b ↦ leb b.issued_at r.issued_at ]
    then some r
    else best

unfoldable pub delete_rows : ℕ → List Record → List Record
delete_rows before [] = []
delete_rows before (r ∷ rest) =
    let kept = delete_rows before rest in if leb r.expires_at before then kept else r ∷ kept

unfoldable pub cleanup_expired : ℕ → Bool → PostgresStore → PostgresStore × Bool
cleanup_expired before = exec (delete_rows (micros before))

abbrev pub find : String → List Record → Option Entry
find j [] = none
find j (r ∷ rest) = if str_eq r.jti j then some (entry r) else find j rest

-- The constraint UNIQUE (jti).
abbrev pub UniqueJtis : List Record → Type 0
UniqueJtis [] = Unit {0}
UniqueJtis (r ∷ rest) = (find r.jti rest ≡ none) × UniqueJtis rest

find-upsert :
    (r : Record) (j : String) (rows : List Record)
    → find j (upsert r rows) ≡ (if str_eq r.jti j then some (entry r) else find j rows)
unfolding upsert
find-upsert r j [] = refl
find-upsert r j (x ∷ rows) =
    ground (arith, find-upsert r j rows, eq_iff x.jti r.jti, eq_iff x.jti j, eq_iff r.jti j)

find-revoke_rows :
    (now : ℕ) (j : String) (rows : List Record)
    → find j (revoke_rows now rows) ≡ revoke_if_any now (find j rows)
unfolding revoke_rows
find-revoke_rows now j [] = refl
find-revoke_rows now j (r ∷ rows) = ground (arith, find-revoke_rows now j rows)

find-delete_rows :
    (before : ℕ) (j : String) (rows : List Record)
    → UniqueJtis rows
    → find j (delete_rows before rows) ≡ drop_expired before (find j rows)
unfolding delete_rows
find-delete_rows before j [] u = refl
find-delete_rows before j (r ∷ rows) (new, u) =
    ground (arith, find-delete_rows before j rows u, eq_iff r.jti j)

find-exists_live :
    (now : ℕ) (j : String) (rows : List Record)
    → UniqueJtis rows
    → exists_live now j rows ≡ live_if_any now (find j rows)
unfolding exists_live
find-exists_live now j [] u = refl
find-exists_live now j (r ∷ rows) (new, u) =
    ground (arith, find-exists_live now j rows u, eq_iff r.jti j)

find-upsert_ne :
    (r : Record) (k : String) (rows : List Record)
    → str_eq r.jti k ≡ false
    → find k rows ≡ none
    → find k (upsert r rows) ≡ none
find-upsert_ne r k rows ne e = find-upsert r k rows ∙ rw ne e

upsert-UniqueJtis : (r : Record) (rows : List Record) → UniqueJtis rows → UniqueJtis (upsert r rows)
unfolding upsert
upsert-UniqueJtis r [] u = (refl, tt)
upsert-UniqueJtis r (x ∷ rows) (new, u) = elim (Bool-cases (str_eq x.jti r.jti)) [
  | inl e ↦ rw e (ap (λ j. find j rows) (ground (arith, eq_iff x.jti r.jti)) ∙ new, u)
  | inr e ↦ rw e (
    find-upsert_ne r x.jti rows (ground (arith, eq_iff x.jti r.jti, eq_iff r.jti x.jti)) new,
    upsert-UniqueJtis r rows u,
  )
]

revoke_rows-UniqueJtis :
    (now : ℕ) (rows : List Record) → UniqueJtis rows → UniqueJtis (revoke_rows now rows)
unfolding revoke_rows
revoke_rows-UniqueJtis now [] u = u
revoke_rows-UniqueJtis now (r ∷ rows) (new, u) = elim (Bool-cases (is_live now r)) [
  | inl e ↦ rw e (find-revoke_rows now r.jti rows ∙ rw new refl, revoke_rows-UniqueJtis now rows u)
  | inr e ↦ rw e (find-revoke_rows now r.jti rows ∙ rw new refl, revoke_rows-UniqueJtis now rows u)
]

delete_rows-UniqueJtis :
    (before : ℕ) (rows : List Record) → UniqueJtis rows → UniqueJtis (delete_rows before rows)
unfolding delete_rows
delete_rows-UniqueJtis before [] u = u
delete_rows-UniqueJtis before (r ∷ rows) (new, u) = elim (Bool-cases (leb r.expires_at before)) [
  | inl e ↦ rw e (delete_rows-UniqueJtis before rows u)
  | inr e ↦
      rw e
        (find-delete_rows before r.jti rows u ∙ rw new refl, delete_rows-UniqueJtis before rows u)
]

abbrev pub table : PostgresStore → Table
table s j = find j s.rows

exec_valid :
    (statement : List Record → List Record)
    → ((rows : List Record) → UniqueJtis rows → UniqueJtis (statement rows))
    → (fails : Bool) (s : PostgresStore) → UniqueJtis s.rows
    → UniqueJtis (exec statement fails s).0.rows
unfolding exec
exec_valid statement keeps true s u = u
exec_valid statement keeps false s u = keeps s.rows u

exec_changes :
    (statement : List Record → List Record) (effect : Table → Table)
    → ((rows : List Record)
        → UniqueJtis rows
        → (j : String) → find j (statement rows) ≡ effect (λ k. find k rows) j)
    → (fails : Bool) (s : PostgresStore) → UniqueJtis s.rows
    → (exec statement fails s).1 ≡ true
    → (j : String) → table (exec statement fails s).0 j ≡ effect (table s) j
unfolding exec
exec_changes statement effect does true s u e j = ground arith
exec_changes statement effect does false s u e j = does s.rows u j

exec-Implements :
    (statement : List Record → List Record) (effect : Table → Table)
    → ((rows : List Record) → UniqueJtis rows → UniqueJtis (statement rows))
    → ((rows : List Record)
        → UniqueJtis rows
        → (j : String) → find j (statement rows) ≡ effect (λ k. find k rows) j)
    → Implements (λ s. UniqueJtis s.rows) table (exec statement) effect
unfolding exec
exec-Implements statement effect keeps does = record {
  valid = exec_valid statement keeps;
  works = λ _. refl;
  undone = λ fails s e. ground arith;
  changes = exec_changes statement effect does;
}

micros-le : (t : ℕ) → micros t ≤ t
unfolding micros
micros-le t = omega arith

instance pub postgres : Store PostgresStore
unfolding save revoke_all_active cleanup_expired is_active
postgres = record {
  IsValid = λ s. UniqueJtis s.rows;
  table = table;
  cut = micros;
  cut_le = micros-le;
  save = save;
  is_active = is_active;
  revoke_all_active = revoke_all_active;
  cleanup_expired = cleanup_expired;
  save_lem = λ r.
      exec-Implements (upsert (stored micros r)) (saved (stored micros r))
        (upsert-UniqueJtis (stored micros r)) (λ rows _ j. find-upsert (stored micros r) j rows);
  revoke_all_active_lem = λ now.
      exec-Implements (revoke_rows now) (revoked_all now) (revoke_rows-UniqueJtis now)
        (λ rows _ j. find-revoke_rows now j rows);
  cleanup_expired_lem = λ before.
      exec-Implements (delete_rows (micros before)) (cleaned (micros before))
        (delete_rows-UniqueJtis (micros before))
        (λ rows u j. find-delete_rows (micros before) j rows u);
  is_active_lem = λ now j s u. ap some (find-exists_live now j s.rows u);
}

-- The table as the migration creates it.
abbrev pub empty_table : PostgresStore
empty_table = record { rows = [] }

pub empty_table-IsValid : postgres.IsValid empty_table
unfolding postgres
empty_table-IsValid = tt

pub empty_table-none : (j : String) → postgres.table empty_table j ≡ none
unfolding postgres
empty_table-none j = refl

pub postgres-find : (s : PostgresStore) (j : String) → postgres.table s j ≡ find j s.rows
unfolding postgres
postgres-find s j = refl

pub postgres-cut : postgres.cut ≡ micros
unfolding postgres
postgres-cut = refl

pub postgres-UniqueJtis : (s : PostgresStore) → postgres.IsValid s → UniqueJtis s.rows
unfolding postgres
postgres-UniqueJtis s u = u

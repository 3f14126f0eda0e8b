-- ===== src/AdminJwt/MemoryStore.antt =====
-- internal/adminjwt/memory_store.go: a map from jti to record, which never fails. A `range` loop that
-- writes or deletes the entry at hand is a pass over the association list, with one reading of the
-- clock. How many entries a clean-up deletes, which is only logged, is left out.
pub mod Tests
use rpc_node_gateway.Prelude.{
  ℕ, ◌≡◌, refl, ◌∙◌, ap, String, Bool, true, false, ◌&&◌, Option, none, some, [], ◌∷◌, ltb, leb,
  if◌then◌else◌, Bool-cases, inl, inr, str_eq, eq_iff, Assoc, lookup, insert, lookup-insert,
  Bool-cases, inl, inr, arith,
}
use rpc_node_gateway.AdminJwt.{Record, is_live}
use rpc_node_gateway.AdminJwt.Store.{
  Table, entry, stored, saved, revoked_all, cleaned, active_in, Store,
}

pub record MemoryStore : Type 0 where
  pub by_jti : Assoc Record

unfoldable pub new_memory_store : MemoryStore
new_memory_store = record { by_jti = [] }

unfoldable pub save : Record → MemoryStore → MemoryStore
save rec s = record { by_jti = insert rec.jti rec s.by_jti }

unfoldable pub is_active : ℕ → String → MemoryStore → Bool
is_active now jti s = elim (lookup jti s.by_jti) [
  | none ↦ false
  | some rec ↦ if rec.revoked then false else ltb now rec.expires_at
]

unfoldable pub revoke_loop : ℕ → Assoc Record → Assoc Record
revoke_loop now [] = []
revoke_loop now ((k, rec) ∷ rest) =
    (k, if is_live now rec then record rec { revoked = true } else rec) ∷ revoke_loop now rest

unfoldable pub revoke_all_active : ℕ → MemoryStore → MemoryStore
revoke_all_active now s = record { by_jti = revoke_loop now s.by_jti }

-- The loop of `LatestActive`, with the best record so far.
unfoldable pub latest_loop : ℕ → Option Record → Assoc Record → Option Record
latest_loop now best [] = best
latest_loop now best ((k, r) ∷ rest) =
    let later : Bool = elim best [ none ↦ true | some b ↦ ltb b.issued_at r.issued_at ] in
    latest_loop now (if is_live now r && later then some r else best) rest

unfoldable pub latest_active : ℕ → MemoryStore → Option Record
latest_active now s = latest_loop now none s.by_jti

unfoldable pub cleanup_loop : ℕ → Assoc Record → Assoc Record
cleanup_loop before [] = []
cleanup_loop before ((k, rec) ∷ rest) =
    let kept = cleanup_loop before rest in
    if leb rec.expires_at before then kept else (k, rec) ∷ kept

unfoldable pub cleanup_expired : ℕ → MemoryStore → MemoryStore
cleanup_expired before s = record { by_jti = cleanup_loop before s.by_jti }

-- Every key stands once.
abbrev pub UniqueKeys : Assoc Record → Type 0
UniqueKeys [] = Unit {0}
UniqueKeys ((k, r) ∷ rest) = (lookup k rest ≡ none) × UniqueKeys rest

abbrev pub table : MemoryStore → Table
table s j = elim (lookup j s.by_jti) [ none ↦ none | some r ↦ some (entry r) ]

lookup-insert_ne :
    (k j : String) (r : Record) (m : Assoc Record)
    → str_eq j k ≡ false
    → lookup k m ≡ none
    → lookup k (insert j r m) ≡ none
lookup-insert_ne k j r m ne e = lookup-insert j k r m ∙ rw ne e

insert-UniqueKeys :
    (j : String) (r : Record) (m : Assoc Record) → UniqueKeys m → UniqueKeys (insert j r m)
unfolding insert lookup
insert-UniqueKeys j r [] u = (refl, tt)
insert-UniqueKeys j r ((k, v) ∷ m) (new, u) = elim (Bool-cases (str_eq k j)) [
  | inl e ↦ rw e (ap (λ x. lookup x m) (ground (arith, eq_iff k j)) ∙ new, u)
  | inr e ↦ rw e (
    lookup-insert_ne k j r m (ground (arith, eq_iff k j, eq_iff j k)) new,
    insert-UniqueKeys j r m u,
  )
]

lookup-revoke_loop :
    (now : ℕ) (j : String) (m : Assoc Record)
    → lookup j (revoke_loop now m) ≡ elim (lookup j m) [
      | none ↦ none
      | some r ↦ some (if is_live now r then record r { revoked = true } else r)
    ]
unfolding lookup revoke_loop
lookup-revoke_loop now j [] = refl
lookup-revoke_loop now j ((k, v) ∷ m) = ground (arith, lookup-revoke_loop now j m)

lookup-cleanup_loop :
    (before : ℕ) (j : String) (m : Assoc Record)
    → UniqueKeys m
    → lookup j (cleanup_loop before m) ≡ elim (lookup j m) [
      | none ↦ none
      | some r ↦ if leb r.expires_at before then none else some r
    ]
unfolding lookup cleanup_loop
lookup-cleanup_loop before j [] u = refl
lookup-cleanup_loop before j ((k, v) ∷ m) (new, u) =
    ground (arith, lookup-cleanup_loop before j m u, eq_iff k j)

revoke_loop-UniqueKeys :
    (now : ℕ) (m : Assoc Record) → UniqueKeys m → UniqueKeys (revoke_loop now m)
unfolding revoke_loop
revoke_loop-UniqueKeys now [] u = u
revoke_loop-UniqueKeys now ((k, v) ∷ m) (new, u) =
    (lookup-revoke_loop now k m ∙ rw new refl, revoke_loop-UniqueKeys now m u)

cleanup_loop-UniqueKeys :
    (before : ℕ) (m : Assoc Record) → UniqueKeys m → UniqueKeys (cleanup_loop before m)
unfolding cleanup_loop
cleanup_loop-UniqueKeys before [] u = u
cleanup_loop-UniqueKeys before ((k, v) ∷ m) (new, u) = elim (Bool-cases (leb v.expires_at before)) [
  | inl e ↦ rw e (cleanup_loop-UniqueKeys before m u)
  | inr e ↦
      rw e (lookup-cleanup_loop before k m u ∙ rw new refl, cleanup_loop-UniqueKeys before m u)
]

lookup-save : (r : Record) (s : MemoryStore) (j : String) → table (save r s) j ≡ saved r (table s) j
unfolding save
lookup-save r s j = ground (arith, lookup-insert r.jti j r s.by_jti)

lookup-revoke :
    (now : ℕ) (s : MemoryStore) (j : String)
    → table (revoke_all_active now s) j ≡ revoked_all now (table s) j
unfolding revoke_all_active
lookup-revoke now s j = ground (arith, lookup-revoke_loop now j s.by_jti)

lookup-cleanup :
    (before : ℕ) (s : MemoryStore)
    → UniqueKeys s.by_jti
    → (j : String) → table (cleanup_expired before s) j ≡ cleaned before (table s) j
unfolding cleanup_expired
lookup-cleanup before s u j = ground (arith, lookup-cleanup_loop before j s.by_jti u)

is_active_agrees :
    (now : ℕ) (j : String) (s : MemoryStore) → is_active now j s ≡ active_in now j (table s)
unfolding is_active
is_active_agrees now j s = ground arith

-- The operations of this store as the interface has them: they return no error.
instance pub memory : Store MemoryStore
unfolding save revoke_all_active cleanup_expired
memory = record {
  IsValid = λ s. UniqueKeys s.by_jti;
  table = table;
  cut = λ t. t;
  cut_le = λ t. omega arith;
  save = λ r _ s. (save r s, true);
  is_active = λ _ now j s. some (is_active now j s);
  revoke_all_active = λ now _ s. (revoke_all_active now s, true);
  cleanup_expired = λ before _ s. (cleanup_expired before s, true);
  save_lem = λ r. record {
    valid = λ _ s u. insert-UniqueKeys r.jti r s.by_jti u;
    works = λ _. refl;
    undone = λ _ s e. ground arith;
    changes = λ _ s _ _ j. lookup-save r s j;
  };
  revoke_all_active_lem = λ now. record {
    valid = λ _ s u. revoke_loop-UniqueKeys now s.by_jti u;
    works = λ _. refl;
    undone = λ _ s e. ground arith;
    changes = λ _ s _ _ j. lookup-revoke now s j;
  };
  cleanup_expired_lem = λ before. record {
    valid = λ _ s u. cleanup_loop-UniqueKeys before s.by_jti u;
    works = λ _. refl;
    undone = λ _ s e. ground arith;
    changes = λ _ s u _ j. lookup-cleanup before s u j;
  };
  is_active_lem = λ now j s _. ap some (is_active_agrees now j s);
}

pub new_memory_store-IsValid : memory.IsValid new_memory_store
unfolding memory new_memory_store
new_memory_store-IsValid = tt

pub new_memory_store-table : (j : String) → memory.table new_memory_store j ≡ none
unfolding memory new_memory_store lookup
new_memory_store-table j = refl

pub memory-lookup :
    (s : MemoryStore) (j : String)
    → memory.table s j ≡ elim (lookup j s.by_jti) [ none ↦ none | some r ↦ some (entry r) ]
unfolding memory
memory-lookup s j = refl

-- It keeps the times as they are.
pub memory-cut : (t : ℕ) → memory.cut t ≡ t
unfolding memory
memory-cut t = refl

pub memory-stored : (r : Record) → stored memory.cut r ≡ r
unfolding memory
memory-stored r = refl

pub memory-UniqueKeys : (s : MemoryStore) → memory.IsValid s → UniqueKeys s.by_jti
unfolding memory
memory-UniqueKeys s u = u

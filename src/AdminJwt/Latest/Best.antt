-- ===== src/AdminJwt/Latest/Best.antt =====
-- What the loop of `LatestActive` (internal/adminjwt/memory_store.go) and the query of the same name
-- (internal/adminjwt/postgres_store.go) find among the records.
use rpc_node_gateway.Prelude.{
  ℕ, ◌≡◌, ◌⊎◌, inl, inr, refl, ◌∙◌, ap, sym, String, Bool, true, false, ◌&&◌, Option, none, some,
  List, [], ◌∷◌, ltb, leb, if◌then◌else◌, Bool-cases, str_eq, eq_iff, Assoc, lookup, arith,
}
use rpc_node_gateway.AdminJwt.{Record, is_live}
use rpc_node_gateway.AdminJwt.Store.{Entry, entry, live}
use rpc_node_gateway.AdminJwt.MemoryStore.{UniqueKeys, latest_loop, memory}
use rpc_node_gateway.AdminJwt.PostgresStore.{find, UniqueJtis, latest_row, postgres}

-- There is a record, and it was issued at the instant or later.
abbrev pub reaches : ℕ → Option Record → Bool
reaches n none = false
reaches n (some b) = leb n b.issued_at

if-held :
    (alive later : Bool) (best : Option Record) (r b : Record)
    → (if alive && later then some r else best) ≡ some b
    → (best ≡ some b) ⊎ ((some r ≡ some b) × (alive ≡ true))
if-held true true best r b e = inr (e, refl)
if-held true false best r b e = inl e
if-held false later best r b e = inl e

live-same : (now : ℕ) (r b : Record) → some r ≡ some b → is_live now r ≡ true → is_live now b ≡ true
live-same now r b same alive = let found : r ≡ b = cc in ap (is_live now) (sym found) ∙ alive

-- A record was issued after the best one.
abbrev is_later : Option Record → Record → Bool
is_later best r = elim best [ none ↦ true | some b ↦ ltb b.issued_at r.issued_at ]

-- The best record after one more.
abbrev next_best : ℕ → Option Record → Record → Option Record
next_best now best r = if is_live now r && is_later best r then some r else best

next_best-reaches :
    (now n : ℕ) (best : Option Record) (r : Record)
    → reaches n best ≡ true
    → reaches n (next_best now best r) ≡ true
next_best-reaches now n none r e = ground arith
next_best-reaches now n (some b) r e = ground arith

next_best-last :
    (now : ℕ) (best : Option Record) (r : Record)
    → is_live now r ≡ true
    → reaches r.issued_at (next_best now best r) ≡ true
next_best-last now none r alive = ground arith
next_best-last now (some b) r alive = ground arith

latest_loop-reaches :
    (now n : ℕ) (best : Option Record) (m : Assoc Record)
    → reaches n best ≡ true
    → reaches n (latest_loop now best m) ≡ true
unfolding latest_loop
latest_loop-reaches now n best [] e = e
latest_loop-reaches now n best ((k, r) ∷ m) e =
    latest_loop-reaches now n (next_best now best r) m (next_best-reaches now n best r e)

pub latest_loop-last :
    (now : ℕ) (j : String) (r : Record) (best : Option Record) (m : Assoc Record)
    → lookup j m ≡ some r
    → is_live now r ≡ true
    → reaches r.issued_at (latest_loop now best m) ≡ true
unfolding latest_loop lookup
latest_loop-last now j r best [] e alive = ground arith
latest_loop-last now j r best ((k, x) ∷ m) e alive = elim (Bool-cases (str_eq k j)) [
  | inl same ↦
      let found : x ≡ r = ground arith in
      latest_loop-reaches now r.issued_at (next_best now best x) m (
        ap (λ y. reaches y.issued_at (next_best now best x)) (sym found)
        ∙ next_best-last now best x (ap (is_live now) found ∙ alive))
  | inr other ↦ latest_loop-last now j r (next_best now best x) m (ground arith) alive
]

pub latest_loop-held :
    (now : ℕ) (best : Option Record) (m : Assoc Record) (b : Record)
    → UniqueKeys m
    → latest_loop now best m ≡ some b
    → (best ≡ some b) ⊎ ((j : String) × (lookup j m ≡ some b) × (is_live now b ≡ true))
unfolding latest_loop lookup
latest_loop-held now best [] b u e = inl e
latest_loop-held now best ((k, r) ∷ m) b (new, u) e =
    elim (latest_loop-held now (next_best now best r) m b u e) [
      | inl here ↦ elim (if-held (is_live now r) (is_later best r) best r b here) [
        | inl before ↦ inl before
        | inr (same, alive) ↦ inr (k, ground (arith, eq_iff k k), live-same now r b same alive)
      ]
      | inr (j, there, alive) ↦ inr (j, ground (arith, eq_iff k j), alive)
    ]

-- No record was issued after this one.
abbrev is_last : Option Record → Record → Bool
is_last best r = elim best [ none ↦ true | some b ↦ leb b.issued_at r.issued_at ]

abbrev row_best : ℕ → Option Record → Record → Option Record
row_best now best r = if is_live now r && is_last best r then some r else best

row_best-reaches :
    (now n : ℕ) (best : Option Record) (r : Record)
    → reaches n best ≡ true
    → reaches n (row_best now best r) ≡ true
row_best-reaches now n none r e = ground arith
row_best-reaches now n (some b) r e = ground arith

row_best-last :
    (now : ℕ) (best : Option Record) (r : Record)
    → is_live now r ≡ true
    → reaches r.issued_at (row_best now best r) ≡ true
row_best-last now none r alive = ground arith
row_best-last now (some b) r alive = ground arith

pub latest_row-last :
    (now : ℕ) (j : String) (x : Entry) (rows : List Record)
    → find j rows ≡ some x
    → live now x ≡ true
    → reaches x.issued_at (latest_row now rows) ≡ true
unfolding latest_row
latest_row-last now j x [] e alive = ground arith
latest_row-last now j x (r ∷ rows) e alive = elim (Bool-cases (str_eq r.jti j)) [
  | inl same ↦
      let found : entry r ≡ x = ground arith in
      ap (λ y. reaches y.issued_at (row_best now (latest_row now rows) r)) (sym found)
      ∙ row_best-last now (latest_row now rows) r (ap (live now) found ∙ alive)
  | inr other ↦
      row_best-reaches now x.issued_at (latest_row now rows) r
        (latest_row-last now j x rows (ground arith) alive)
]

pub latest_row-held :
    (now : ℕ) (rows : List Record) (b : Record)
    → UniqueJtis rows
    → latest_row now rows ≡ some b
    → (j : String) × (find j rows ≡ some (entry b)) × (live now (entry b) ≡ true)
unfolding latest_row
latest_row-held now [] b u e = ground arith
latest_row-held now (r ∷ rows) b (new, u) e =
    elim (if-held (is_live now r) (is_last (latest_row now rows) r) (latest_row now rows) r b e) [
      | inl before ↦
          let (j, there, alive) = latest_row-held now rows b u before in
          (j, ground (arith, eq_iff r.jti j), alive)
      | inr (same, alive) ↦
          let found : r ≡ b = cc in
          let here : str_eq r.jti r.jti ≡ true = ground (arith, eq_iff r.jti r.jti) in
          (r.jti, rw here (ap (λ y. some (entry y)) found), live-same now r b same alive)
    ]

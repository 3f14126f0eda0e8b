-- ===== src/Stats/Sums.antt =====
-- Sums and properties over the values of a map.
use mathlib.Core.Path.{subst}
use rpc_node_gateway.Prelude.{
  ℕ, ◌+◌, ◌≡◌, String, Option, none, some, [], ◌∷◌, str_eq, Assoc, lookup, insert, Bool-cases, inl,
  inr, arith,
}

-- The sum of a number over the values of a map.
unfoldable pub sum_of {ℓ} : {V : Type ℓ} → (V → ℕ) → Assoc V → ℕ
sum_of f [] = 0
sum_of f ((k, v) ∷ m) = f v + sum_of f m

abbrev pub at_key {ℓ} : {V : Type ℓ} → (V → ℕ) → Option V → ℕ
at_key f none = 0
at_key f (some v) = f v

-- A write replaces the number of its key.
pub sum_of-insert {ℓ} :
    {V : Type ℓ} (f : V → ℕ) (k : String) (v : V) (m : Assoc V)
    → sum_of f (insert k v m) + at_key f (lookup k m) ≡ sum_of f m + f v
unfolding sum_of insert lookup
sum_of-insert f k v [] = omega arith
sum_of-insert f k v ((j, w) ∷ m) = ground (arith, sum_of-insert f k v m)

-- Every value of a map.
abbrev pub Every {ℓ κ} : {V : Type ℓ} → (V → Type κ) → Assoc V → Type κ
Every P [] = Unit
Every P ((k, v) ∷ m) = P v × Every P m

pub Every-insert {ℓ κ} :
    {V : Type ℓ} (P : V → Type κ) (k : String) (v : V) (m : Assoc V)
    → Every P m
    → P v
    → Every P (insert k v m)
unfolding insert
Every-insert P k v [] h p = (p, tt)
Every-insert P k v ((j, w) ∷ m) h p = elim (Bool-cases (str_eq j k)) [
  | inl e ↦ rw e (p, h.1)
  | inr e ↦ rw e (h.0, Every-insert P k v m h.1 p)
]

pub Every-lookup {ℓ κ} :
    {V : Type ℓ} (P : V → Type κ) (k : String) (m : Assoc V) {v : V}
    → Every P m
    → lookup k m ≡ some v
    → P v
unfolding lookup
Every-lookup P k [] h e = cc
Every-lookup P k ((j, w) ∷ m) {v} h e = elim (Bool-cases (str_eq j k)) [
  | inl hit ↦ let found : some w ≡ some v = rw hit at e in let same : w ≡ v = cc in subst P same h.0
  | inr miss ↦ Every-lookup P k m h.1 (rw miss at e)
]

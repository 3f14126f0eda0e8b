-- ===== src/Prelude/Maps.antt =====
-- Go's `map[string]V` as an association list; the list order is the order of a `range` loop, which
-- Go leaves open.
use mathlib.Core.Path.{◌≡◌, refl}
use mathlib.Core.List.{List, [], ◌∷◌}
use mathlib.Core.Option.{Option, none, some}
use Prim.Native.String.{String}
use native.Mathlib.Omega.{arith}
use text.Mathlib.Text.{◌==◌ as str_eq}
use text.Mathlib.TextEquality.{eq_iff}
use rpc_node_gateway.Prelude.Tests.{if◌then◌else◌}

-- A map from texts, entry by entry.
abbrev pub Assoc {κ} : (Value : Type κ) → Type κ
Assoc Value = List (String × Value)

module _ {κ} {Value : Type κ} where
  -- `m[key]`, with `none` for a key that is missing.
  unfoldable pub lookup : (key : String) → Assoc Value → Option Value
  lookup key [] = none
  lookup key ((name, here) ∷ rest) = if str_eq name key then some here else lookup key rest

  -- `m[key] = value`, which keeps the place of a key that is there.
  unfoldable pub insert : (key : String) → Value → Assoc Value → Assoc Value
  insert key value [] = (key, value) ∷ []
  insert key value ((name, here) ∷ rest) =
      if str_eq name key then (key, value) ∷ rest else (name, here) ∷ insert key value rest

  -- `delete(m, key)`
  unfoldable pub remove : (key : String) → Assoc Value → Assoc Value
  remove key [] = []
  remove key ((name, here) ∷ rest) =
      let others = remove key rest in if str_eq name key then others else (name, here) ∷ others

  pub lookup-remove :
      (key other : String) (entries : Assoc Value)
      → lookup other (remove key entries)
        ≡ (if str_eq key other then none else lookup other entries)
  unfolding lookup remove
  lookup-remove key other [] = ground arith
  lookup-remove key other ((name, here) ∷ rest) =
      let ih = lookup-remove key other rest in
      ground (arith, eq_iff name key, eq_iff name other, eq_iff key other)

  pub lookup-insert :
      (key other : String) (value : Value) (entries : Assoc Value)
      → lookup other (insert key value entries)
        ≡ (if str_eq key other then some value else lookup other entries)
  unfolding lookup insert
  lookup-insert key other value [] = refl
  lookup-insert key other value ((name, here) ∷ rest) =
      let ih = lookup-insert key other value rest in
      ground (arith, eq_iff name key, eq_iff name other, eq_iff key other)

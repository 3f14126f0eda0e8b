-- ===== src/Filter.antt =====
-- internal/filter/method.go. The middlewares always have a token, so its nil test is left out.
use rpc_node_gateway.Prelude.{
  ◌≡◌, refl, ◌≢◌, String, Bool, true, false, ◌||◌, Option, none, some, List, [], ◌∷◌, if◌then◌else◌,
  str_eq, All, Bool-cases, inl, inr, arith,
}
use mathlib.Core.Path.{subst}
use mathlib.Core.Logic.{◌⊎◌}
use rpc_node_gateway.Model.{Token}

-- `_, ok := token.DeniedMethods[m]`
unfoldable pub is_denied : List String → String → Bool
is_denied [] m = false
is_denied (d ∷ ds) m = str_eq d m || is_denied ds m

unfoldable pub denied_among : List String → List String → List String
denied_among set [] = []
denied_among set (m ∷ ms) =
    let rest = denied_among set ms in if is_denied set m then m ∷ rest else rest

-- The denied methods, where there is one.
unfoldable pub check_methods : Token → List String → Option (List String)
unfolding denied_among
check_methods token methods = elim (denied_among token.denied_methods methods) [
  | [] ↦ none
  | d ∷ ds ↦ some (d ∷ ds)
]

none_denied :
    (set ms : List String) → denied_among set ms ≡ [] → All (λ m. is_denied set m ≡ false) ms
unfolding denied_among
none_denied set [] e = tt
none_denied set (m ∷ ms) e = elim (Bool-cases (is_denied set m)) [
  | inl d ↦ absurd (ground arith)
  | inr f ↦ (f, none_denied set ms (ground arith))
]

-- What the filter says of the methods of a request.
abbrev pub Checked : Token → List String → Option (List String) → Type 0
Checked token ms none = All (λ m. is_denied token.denied_methods m ≡ false) ms
Checked token ms (some ds) = (ds ≢ []) × All (λ d. is_denied token.denied_methods d ≡ true) ds

All-denied : (set ms : List String) → All (λ m. is_denied set m ≡ true) (denied_among set ms)
unfolding denied_among
All-denied set [] = tt
All-denied set (m ∷ ms) = elim (Bool-cases (is_denied set m)) [
  | inl d ↦ rw d (d, All-denied set ms)
  | inr f ↦ rw f (All-denied set ms)
]

List-cases : (xs : List String) → (xs ≡ []) ⊎ ((x : String) × (r : List String) × (xs ≡ x ∷ r))
List-cases [] = inl refl
List-cases (x ∷ xs) = inr (x, xs, refl)

-- The filter lets a request pass only if none of its methods is denied to the token, and otherwise
-- names methods that are.
pub check_methods-Checked :
    (token : Token) (methods : List String) → Checked token methods (check_methods token methods)
unfolding check_methods
check_methods-Checked token methods =
    elim (List-cases (denied_among token.denied_methods methods)) [
      | inl e ↦ rw (e, check_methods) (none_denied token.denied_methods methods e)
      | inr (d, ds, e) ↦
          rw (e, check_methods)
            (
              (λ c. cc),
              subst (All (λ m. is_denied token.denied_methods m ≡ true)) e
                  (All-denied token.denied_methods methods),
            )
    ]

pub check_methods-none :
    (token : Token) (methods : List String)
    → check_methods token methods ≡ none
    → All (λ d. is_denied token.denied_methods d ≡ false) methods
check_methods-none token methods c =
    subst (Checked token methods) c (check_methods-Checked token methods)

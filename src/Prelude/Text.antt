-- ===== src/Prelude/Text.antt =====
-- Go's `strings.HasPrefix`, `strings.TrimPrefix` and the `%d` of `fmt.Sprintf`.
pub mod Decimal
use Prim.Native.Nat.{ℕ, zero, suc, ◌/◌, ◌%◌}
use Prim.Native.Char.{code}
use Prim.Native.String.{String, ◌++◌}
use mathlib.Core.Path.{◌≡◌}
use mathlib.Core.Bool.{Bool, true, false, ◌&&◌, ◌||◌}
use mathlib.Core.Option.{Option, none, some}
use native.Mathlib.Omega.{arith}
use rpc_node_gateway.Prelude.Tests.{◌==◌, ltb, leb, if◌then◌else◌}
use text.Mathlib.Text.{◌==◌ as str_eq}
use text.Mathlib.TextLemmas.{nil-append, cons-append}

-- The rest of a text behind a prefix.
unfoldable pub strip_prefix : String → String → Option String
strip_prefix String.[] s = some s
strip_prefix (String.◌∷◌ c p) String.[] = none
strip_prefix (String.◌∷◌ c p) (String.◌∷◌ d s) = if code c == code d then strip_prefix p s else none

unfoldable pub has_prefix : String → String → Bool
unfolding strip_prefix
has_prefix s p = elim (strip_prefix p s) [ none ↦ false | some r ↦ true ]

unfoldable pub trim_prefix : String → String → String
unfolding strip_prefix
trim_prefix s p = elim (strip_prefix p s) [ none ↦ s | some r ↦ r ]

pub strip_prefix-append : (p s : String) → strip_prefix p (p ++ s) ≡ some s
unfolding strip_prefix
strip_prefix-append String.[] s = rw nil-append
strip_prefix-append (String.◌∷◌ c p) s = rw cons-append (ground (arith, strip_prefix-append p s))

-- Two texts differ at a character that both have.
abbrev pub differ : String → String → Bool
differ String.[] q = false
differ (String.◌∷◌ c p) String.[] = false
differ (String.◌∷◌ c p) (String.◌∷◌ d q) = if code d == code c then differ p q else true

strip_prefix-differ : (p q s : String) → differ p q ≡ true → strip_prefix q (p ++ s) ≡ none
unfolding strip_prefix
strip_prefix-differ String.[] q s h = cc
strip_prefix-differ (String.◌∷◌ c p) String.[] s h = cc
strip_prefix-differ (String.◌∷◌ c p) (String.◌∷◌ d q) s h =
    rw cons-append (ground (arith, strip_prefix-differ p q s))

pub has_prefix-append : (p s : String) → has_prefix (p ++ s) p ≡ true
unfolding has_prefix
has_prefix-append p s = rw (strip_prefix-append p s, has_prefix)

pub trim_prefix-append : (p s : String) → trim_prefix (p ++ s) p ≡ s
unfolding trim_prefix
trim_prefix-append p s = rw (strip_prefix-append p s, trim_prefix)

pub has_prefix-differ : (p q s : String) → differ p q ≡ true → has_prefix (p ++ s) q ≡ false
unfolding has_prefix
has_prefix-differ p q s h = rw (strip_prefix-differ p q s h, has_prefix)

digit : ℕ → String
digit zero = "0"
digit (suc zero) = "1"
digit (suc (suc zero)) = "2"
digit (suc (suc (suc zero))) = "3"
digit (suc (suc (suc (suc zero)))) = "4"
digit (suc (suc (suc (suc (suc zero))))) = "5"
digit (suc (suc (suc (suc (suc (suc zero)))))) = "6"
digit (suc (suc (suc (suc (suc (suc (suc zero))))))) = "7"
digit (suc (suc (suc (suc (suc (suc (suc (suc zero)))))))) = "8"
digit _ = "9"

-- A number has fewer digits than its value plus one, so the fuel suffices.
decimal_fuel : ℕ → ℕ → String
unfolding digit
decimal_fuel zero n = ""
decimal_fuel (suc fuel) n =
    let high = decimal_fuel fuel (n / 10) in if ltb n 10 then digit n else high ++ digit (n % 10)

unfoldable pub decimal : ℕ → String
unfolding decimal_fuel
decimal n = decimal_fuel (suc n) n

-- `unicode.IsSpace`.
is_space : ℕ → Bool
is_space c =
    (leb 9 c && leb c 13)
    || (c == 32)
    || (c == 133)
    || (c == 160)
    || (c == 5760)
    || (leb 8192 c && leb c 8202)
    || (c == 8232)
    || (c == 8233)
    || (c == 8239)
    || (c == 8287)
    || (c == 12288)

-- A cut of the characters that a test finds, on the left and on the right.
trim_left : (ℕ → Bool) → String → String
trim_left cut String.[] = ""
trim_left cut (String.◌∷◌ c s) =
    let rest = trim_left cut s in if cut (code c) then rest else String.◌∷◌ c s

trim_right : (ℕ → Bool) → String → String
trim_right cut String.[] = ""
trim_right cut (String.◌∷◌ c s) =
    let rest = trim_right cut s in if str_eq rest "" && cut (code c) then "" else String.◌∷◌ c rest

-- `strings.TrimSpace` and `bytes.TrimSpace`.
unfoldable pub trim_space : String → String
unfolding trim_left trim_right is_space
trim_space s = trim_left is_space (trim_right is_space s)

-- `strings.Trim` of double quotes.
unfoldable pub trim_quotes : String → String
unfolding trim_left trim_right
trim_quotes s = trim_left (λ c. c == 34) (trim_right (λ c. c == 34) s)

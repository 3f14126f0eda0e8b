-- ===== src/Prelude/Text/Decimal.antt =====
-- That the fuel of `decimal` suffices: its digits stand for the number.
use Prim.Native.Nat.{ℕ, zero, suc, ◌+◌, ◌-◌, ◌*◌, ◌/◌, ◌%◌, ◌<◌, ◌≤◌}
use Prim.Native.Char.{code}
use Prim.Native.String.{String, ◌++◌}
use mathlib.Core.Path.{◌≡◌, refl, ap, ◌∙◌}
use mathlib.Core.Logic.{inl, inr}
use native.Mathlib.Omega.{arith}
use text.Mathlib.TextLemmas.{nil-append, cons-append}
use rpc_node_gateway.Prelude.Tests.{ltb, Bool-cases, ltb→lt, ltb_false→le}
use rpc_node_gateway.Prelude.Text.{digit, decimal_fuel, decimal}

-- The number that digits stand for, behind those read before.
unfoldable pub read_digits : ℕ → String → ℕ
read_digits n String.[] = n
read_digits n (String.◌∷◌ c s) = read_digits (n * 10 + (code c - 48)) s

read_digits-append :
    (n : ℕ) (s t : String) → read_digits n (s ++ t) ≡ read_digits (read_digits n s) t
unfolding read_digits
read_digits-append n String.[] t = rw nil-append refl
read_digits-append n (String.◌∷◌ c s) t =
    rw cons-append (read_digits-append (n * 10 + (code c - 48)) s t)

read_digits-digit : (n d : ℕ) → d < 10 → read_digits n (digit d) ≡ n * 10 + d
unfolding read_digits digit
read_digits-digit n zero lt = omega arith
read_digits-digit n (suc zero) lt = omega arith
read_digits-digit n (suc (suc zero)) lt = omega arith
read_digits-digit n (suc (suc (suc zero))) lt = omega arith
read_digits-digit n (suc (suc (suc (suc zero)))) lt = omega arith
read_digits-digit n (suc (suc (suc (suc (suc zero))))) lt = omega arith
read_digits-digit n (suc (suc (suc (suc (suc (suc zero)))))) lt = omega arith
read_digits-digit n (suc (suc (suc (suc (suc (suc (suc zero))))))) lt = omega arith
read_digits-digit n (suc (suc (suc (suc (suc (suc (suc (suc zero)))))))) lt = omega arith
read_digits-digit n (suc (suc (suc (suc (suc (suc (suc (suc (suc zero))))))))) lt = omega arith
read_digits-digit n (suc (suc (suc (suc (suc (suc (suc (suc (suc (suc d)))))))))) lt =
    absurd (omega arith)

read_digits-decimal_fuel : (fuel n : ℕ) → n < fuel → read_digits 0 (decimal_fuel fuel n) ≡ n
unfolding decimal_fuel
read_digits-decimal_fuel zero n lt = absurd (omega arith)
read_digits-decimal_fuel (suc fuel) n lt = elim (Bool-cases (ltb n 10)) [
  | inl small ↦ rw small (read_digits-digit 0 n (ltb→lt n 10 small) ∙ omega arith)
  | inr large ↦
      let ten : 10 ≤ n = ltb_false→le n 10 large in
      rw large (
        read_digits-append 0 (decimal_fuel fuel (n / 10)) (digit (n % 10))
        ∙ ap (λ k. read_digits k (digit (n % 10)))
            (read_digits-decimal_fuel fuel (n / 10) (omega arith))
        ∙ read_digits-digit (n / 10) (n % 10) (omega arith)
        ∙ omega arith)
]

pub read_digits-decimal : (n : ℕ) → read_digits 0 (decimal n) ≡ n
unfolding decimal
read_digits-decimal n = read_digits-decimal_fuel (suc n) n (omega arith)

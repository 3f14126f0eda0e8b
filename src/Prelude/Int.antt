-- ===== src/Prelude/Int.antt =====
-- Go's signed `int` values as they come from the configuration and the database, and `int32`
-- counters with their wrap-around.
use Prim.Native.Nat.{ℕ, zero, suc, ◌+◌, ◌-◌, ◌%◌, ◌^◌, ◌<◌}
use mathlib.Core.Path.{◌≡◌}
use mathlib.Core.Bool.{Bool, true, false}
use native.Mathlib.Omega.{arith}
use rpc_node_gateway.Prelude.Tests.{ltb, leb, if◌then◌else◌}

-- `negsuc n` is -(n + 1).
pub data ℤ : Type 0 where
  pos : ℕ → ℤ
  negsuc : ℕ → ℤ

-- `x <= 0`
abbrev pub is_nonpos : ℤ → Bool
is_nonpos (pos zero) = true
is_nonpos (pos (suc n)) = false
is_nonpos (negsuc n) = true

-- The number that a value stands for where it is known to be positive; 0 below.
abbrev pub to_ℕ : ℤ → ℕ
to_ℕ (pos n) = n
to_ℕ (negsuc n) = 0

abbrev pub i32_limit : ℕ
i32_limit = 2 ^ 31

-- Go's `atomic.Int32.Add(1)`: the largest value wraps to the smallest.
abbrev pub i32_succ : ℤ → ℤ
i32_succ (pos n) = if ltb (n + 1) i32_limit then pos (n + 1) else negsuc (i32_limit - 1)
i32_succ (negsuc zero) = pos 0
i32_succ (negsuc (suc n)) = negsuc n

-- `a >= t`
abbrev pub geb_ℤ : ℤ → ℤ → Bool
geb_ℤ (pos a) (pos t) = leb t a
geb_ℤ (pos a) (negsuc t) = true
geb_ℤ (negsuc a) (pos t) = false
geb_ℤ (negsuc a) (negsuc t) = leb a t

pub is_nonpos-to_ℕ : (z : ℤ) → is_nonpos z ≡ false → 0 < to_ℕ z
is_nonpos-to_ℕ (pos zero) h = cc
is_nonpos-to_ℕ (pos (suc n)) h = omega arith
is_nonpos-to_ℕ (negsuc n) h = cc

-- Go's conversion `int32(x)`.
abbrev pub to_i32 : ℤ → ℤ
to_i32 (pos n) = let m = n % 2 ^ 32 in if ltb m i32_limit then pos m else negsuc (2 ^ 32 - m - 1)
to_i32 (negsuc n) = let m = n % 2 ^ 32 in if ltb m i32_limit then negsuc m else pos (2 ^ 32 - m - 1)

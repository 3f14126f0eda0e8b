-- ===== src/Prelude/Sums.antt =====
-- Sums of a function over a range, and over one turn of a cycle.
use native.Mathlib.Nat.{mod-eq_of_lt, add-mod_right, add-zero, zero-add, suc-add}
use native.Mathlib.Numerals.{add-one}
use rpc_node_gateway.Prelude.{
  ℕ, zero, suc, ◌+◌, ◌-◌, ◌*◌, ◌%◌, ◌≤◌, ◌<◌, ◌≡◌, ◌≢◌, refl, ap, ◌∙◌, arith,
}

pub suc-add_eq : (a b : ℕ) → suc a + b ≡ a + suc b
suc-add_eq a b = omega arith

-- f a + f (a + 1) + … + f (a + n - 1)
unfoldable pub sum_from : (ℕ → ℕ) → ℕ → ℕ → ℕ
sum_from f a zero = 0
sum_from f a (suc n) = f a + sum_from f (suc a) n

pub sum_from_head : (f : ℕ → ℕ) (a n : ℕ) → f a + sum_from f (suc a) n ≡ sum_from f a (suc n)
unfolding sum_from
sum_from_head f a n = refl

pub sum_from-add :
    (f : ℕ → ℕ) (a m n : ℕ) → sum_from f a (m + n) ≡ sum_from f a m + sum_from f (a + m) n
unfolding sum_from
sum_from-add f a zero n = rw (zero-add n, add-zero a, zero-add)
sum_from-add f a (suc m) n =
    rw (suc-add m n, ← suc-add_eq a m) (omega (arith, sum_from-add f (suc a) m n))

-- Two ranges on which the functions agree step by step.
pub sum_from_congr :
    (f g : ℕ → ℕ) (a b n : ℕ)
    → ((k : ℕ) → k < n → f (a + k) ≡ g (b + k))
    → sum_from f a n ≡ sum_from g b n
unfolding sum_from
sum_from_congr f g a b zero h = refl
sum_from_congr f g a b (suc n) h =
    let rest =
      sum_from_congr f g (suc a) (suc b) n
        (λ k lt. rw (suc-add_eq a k, suc-add_eq b k) (h (suc k) (omega arith))) in
    let first : f a ≡ g b = rw (add-zero a, add-zero b) at (h 0 (omega arith)) in omega arith

pub sum_from_const :
    (f : ℕ → ℕ) (v a n : ℕ) → ((k : ℕ) → k < n → f (a + k) ≡ v) → sum_from f a n ≡ n * v
unfolding sum_from
sum_from_const f v a zero h = omega arith
sum_from_const f v a (suc n) h =
    let rest =
      sum_from_const f v (suc a) n (λ k lt. rw (suc-add_eq a k) (h (suc k) (omega arith))) in
    let first : f a ≡ v = rw (add-zero a) at (h 0 (omega arith)) in omega arith

sum_from-move : (f : ℕ → ℕ) (a n : ℕ) → f a + sum_from f (suc a) n ≡ sum_from f a n + f (a + n)
unfolding sum_from
sum_from-move f a n =
    let turned = sum_from-add f a n 1 in omega (arith, ap (sum_from f a) (add-one n), turned)

-- One turn of a cycle has the same sum wherever it starts.
pub sum_from_periodic :
    (f : ℕ → ℕ) (n : ℕ) → ((k : ℕ) → f (k + n) ≡ f k) → (a : ℕ) → sum_from f a n ≡ sum_from f 0 n
sum_from_periodic f n h zero = refl
sum_from_periodic f n h (suc a) =
    let rest = sum_from_periodic f n h a in omega (arith, h a, rest, sum_from-move f a n)

-- A function of the remainder, over one turn.
pub sum_from-mod : (g : ℕ → ℕ) (a n : ℕ) → 0 < n → sum_from (λ m. g (m % n)) a n ≡ sum_from g 0 n
sum_from-mod g a n pos =
    sum_from_periodic (λ m. g (m % n)) n (λ k. ap g (add-mod_right k n)) a
    ∙ sum_from_congr (λ m. g (m % n)) g 0 0 n (λ k lt. rw zero-add (ap g (mod-eq_of_lt lt)))

-- A function that is 1 at one place and 0 elsewhere.
pub sum_from_single :
    (f : ℕ → ℕ) (i a n : ℕ)
    → ((k : ℕ) → k ≢ i → f k ≡ 0)
    → f i ≡ 1
    → a ≤ i
    → i < a + n
    → sum_from f a n ≡ 1
sum_from_single f i a n zeros one le lt =
    let before = sum_from_const f 0 a (i - a) (λ k h. zeros (a + k) (omega arith)) in
    let after =
      sum_from_const f 0 (suc i) (a + n - suc i) (λ k h. zeros (suc i + k) (omega arith)) in
    let first = sum_from-add f a (i - a) (suc (a + n - suc i)) in
    let at = sum_from_head f i (a + n - suc i) in
    omega (
      arith,
      first,
      before,
      after,
      at,
      one,
      ap (sum_from f a) (split n lt),
      ap (λ b. sum_from f b (suc (a + n - suc i))) start,
    )
  where
    split : (n : ℕ) → i < a + n → i - a + suc (a + n - suc i) ≡ n
    split n lt = omega arith

    start : a + (i - a) ≡ i
    start = omega arith

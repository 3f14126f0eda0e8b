-- ===== src/WsProxy/Guard.antt =====
-- `ConnGuard` of internal/wsproxy/handler.go: the connections that each token holds. Every handler
-- that acquires one releases it by `defer`, so the open handlers are the connections held.
pub mod Limit
use rpc_node_gateway.Prelude.{
  ℕ, zero, suc, ◌+◌, ◌-◌, ◌≤◌, ◌<◌, ◌≡◌, ◌≢◌, refl, sym, ap, ◌∙◌, String, Bool, true, false, not,
  ◌&&◌, Option, none, some, List, [], ◌∷◌, ◌++◌, ℤ, pos, is_nonpos, to_ℕ, ltb, leb, ◌==◌,
  if◌then◌else◌, str_eq, eq_iff, eq_refl, Assoc, lookup, insert, remove, lookup-insert,
  lookup-remove, Bool-cases, inl, inr, arith,
}

pub record ConnGuard : Type 0 where
  pub count : Assoc ℕ
  pub max : ℤ

unfoldable pub new_conn_guard : ℤ → ConnGuard
new_conn_guard max = record { count = []; max = max }

abbrev pub number : Option ℕ → ℕ
number none = 0
number (some n) = n

-- `g.count[token]`
unfoldable pub held : ConnGuard → String → ℕ
held g token = number (lookup token g.count)

-- `g.count[token] = n`
abbrev pub set_count : ConnGuard → String → ℕ → ConnGuard
set_count g token n = record g { count = insert token n g.count }

unfoldable pub acquire : ConnGuard → String → ConnGuard × Bool
acquire g token =
    if not (is_nonpos g.max) && leb (to_ℕ g.max) (held g token)
    then (g, false)
    else (set_count g token (held g token + 1), true)

-- The two tests of `Release`.
unfoldable pub decrement : ConnGuard → String → ConnGuard
decrement g token = if ltb 0 (held g token) then set_count g token (held g token - 1) else g

unfoldable pub drop_zero : ConnGuard → String → ConnGuard
drop_zero g token = if held g token == 0 then record g { count = remove token g.count } else g

unfoldable pub release : ConnGuard → String → ConnGuard
unfolding decrement drop_zero
release g token = drop_zero (decrement g token) token

held-set_count :
    (g : ConnGuard) (t u : String) (n : ℕ)
    → held (set_count g t n) u ≡ (if str_eq t u then n else held g u)
unfolding held
held-set_count g t u n = rw (lookup-insert t u n g.count) (ground arith)

pub held-acquire :
    (g : ConnGuard) (t u : String)
    → held (acquire g t).0 u ≡ (if (acquire g t).1 && str_eq t u then held g t + 1 else held g u)
unfolding acquire
held-acquire g t u = ground (arith, held-set_count g t u (held g t + 1))

held-decrement :
    (g : ConnGuard) (t u : String)
    → held (decrement g t) u ≡ (if str_eq t u then held g t - 1 else held g u)
unfolding decrement
held-decrement g t u = ground (arith, held-set_count g t u (held g t - 1), eq_iff t u)

held-remove :
    (g : ConnGuard) (t u : String)
    → held (record g { count = remove t g.count }) u ≡ (if str_eq t u then 0 else held g u)
unfolding held
held-remove g t u = rw (lookup-remove t u g.count) (ground arith)

held-drop_zero : (g : ConnGuard) (t u : String) → held (drop_zero g t) u ≡ held g u
unfolding drop_zero
held-drop_zero g t u = elim (Bool-cases (held g t == 0)) [
  | inl e ↦ rw (e, drop_zero) (removed e)
  | inr e ↦ rw (e, drop_zero)
]
  where
    removed : (held g t == 0) ≡ true → held (record g { count = remove t g.count }) u ≡ held g u
    removed e = rw (held-remove g t u) (ground (arith, eq_iff t u))

pub held-release :
    (g : ConnGuard) (t u : String)
    → held (release g t) u ≡ (if str_eq t u then held g t - 1 else held g u)
unfolding release
held-release g t u = held-drop_zero (decrement g t) t u ∙ held-decrement g t u

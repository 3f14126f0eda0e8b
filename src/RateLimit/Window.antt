-- ===== src/RateLimit/Window.antt =====
-- How many calls one bucket of the Lua script allows over a window of time.
use rpc_node_gateway.Prelude.{
  ℕ, ◌+◌, ◌-◌, ◌*◌, ◌≤◌, ◌≡◌, Option, none, some, List, [], ◌∷◌, arith, if◌then◌else◌,
}
use rpc_node_gateway.RateLimit.{Cell, unexpired, refill, take_token, script}
use rpc_node_gateway.RateLimit.Bucket.{refill-le, refill-unexpired}

-- The calls that pass, of calls that come the given times after one another, from the time `now`.
pub passes : ℕ → ℕ → ℕ → Option Cell → List ℕ → ℕ
passes rate burst now c [] = 0
passes rate burst now c (gap ∷ gaps) =
    let (cell, ok) = script rate burst (now + gap) (unexpired (now + gap) c) in
    (if ok then 1 else 0) + passes rate burst (now + gap) (some cell) gaps

pub total : List ℕ → ℕ
total [] = 0
total (x ∷ xs) = x + total xs

abbrev pub NotAfter : ℕ → Option Cell → Type 0
NotAfter now none = Unit {0}
NotAfter now (some c) = c.ts ≤ now

-- A later refill brings at most the rate for the time between.
refill-later :
    (rate burst now gap : ℕ) (c : Option Cell)
    → NotAfter now c
    → refill rate burst (now + gap) c ≤ refill rate burst now c + rate * gap
unfolding refill
refill-later rate burst now gap none h = omega arith
refill-later rate burst now gap (some c) h =
    let d = now - c.ts in let e : now + gap - c.ts ≡ d + gap = omega arith in rw e (omega arith)

-- What a call passes and what it leaves are together what it found.
take_token-refill :
    (rate burst now tokens : ℕ)
    → tokens ≤ burst * 1000
    → (if (take_token now tokens).1 then 1 else 0) * 1000
        + refill rate burst now (some (take_token now tokens).0)
      ≡ tokens
unfolding take_token refill
take_token-refill rate burst now tokens h = ground arith

ts-take_token : (now tokens : ℕ) → (take_token now tokens).0.ts ≤ now
unfolding take_token
ts-take_token now tokens = ground arith

-- With a burst of at most twice the rate, the calls that pass over a window are at most what the
-- bucket holds at its start and the rate for its length.
pub passes-bound :
    (rate burst now : ℕ) (c : Option Cell) (gaps : List ℕ)
    → burst ≤ 2 * rate
    → NotAfter now c
    → passes rate burst now c gaps * 1000 ≤ refill rate burst now c + rate * total gaps
unfolding passes total script
passes-bound rate burst now c [] h t = omega arith
passes-bound rate burst now c (gap ∷ gaps) h t =
    let later = now + gap in
    let tokens = refill rate burst later (unexpired later c) in
    let kept = refill-unexpired rate burst later c h in
    let spent =
      take_token-refill rate burst later tokens (refill-le rate burst later (unexpired later c)) in
    let rest =
      passes-bound rate burst later (some (take_token later tokens).0) gaps h
        (ts-take_token later tokens) in
    omega (arith, kept, spent, rest, refill-later rate burst now gap c t)

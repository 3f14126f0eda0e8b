-- ===== src/RateLimit/Bucket.antt =====
-- One bucket of the Lua script: what its expiry after two seconds changes.
use native.Mathlib.Nat.{mul-le-mul_right}
use rpc_node_gateway.Prelude.{
  ℕ, ◌+◌, ◌-◌, ◌*◌, ◌≤◌, ◌<◌, ◌≡◌, refl, ap, true, Option, none, some, leb, Bool-cases, inl, inr,
  arith,
}
use rpc_node_gateway.RateLimit.{Cell, unexpired, refill, take_token, script}

pub refill-le : (rate burst now : ℕ) (c : Option Cell) → refill rate burst now c ≤ burst * 1000
unfolding refill
refill-le rate burst now none = omega arith
refill-le rate burst now (some c) = omega arith

-- Enough time to fill the bucket.
fills : (rate burst d : ℕ) → burst ≤ 2 * rate → 2000 ≤ d → burst * 1000 ≤ d * rate
fills rate burst d b h = let time : 2000 * rate ≤ d * rate = mul-le-mul_right rate h in omega arith

pub refill-unexpired :
    (rate burst now : ℕ) (c : Option Cell)
    → burst ≤ 2 * rate
    → refill rate burst now (unexpired now c) ≡ refill rate burst now c
unfolding refill unexpired
refill-unexpired rate burst now none h = refl
refill-unexpired rate burst now (some c) h = elim (Bool-cases (leb (c.ts + 2000) now)) [
  | inl e ↦ let full = fills rate burst (now - c.ts) h (ground arith) in rw e (omega arith)
  | inr e ↦ rw e
]

-- Where the burst is at most twice the rate, a bucket that has expired would be full anyway: the
-- script allows and stores the same as if Redis kept the bucket for ever.
pub script-unexpired :
    (rate burst now : ℕ) (c : Option Cell)
    → burst ≤ 2 * rate
    → script rate burst now (unexpired now c) ≡ script rate burst now c
unfolding script
script-unexpired rate burst now c h = ap (take_token now) (refill-unexpired rate burst now c h)

-- Where it is more than twice the rate, the script finds a bucket that has been idle for two seconds
-- or longer full and allows the call, and leaves more in it than if Redis had kept the bucket,
-- whatever the bucket held, as long as the refill alone would not have filled it.
pub script_after_idle :
    (rate burst now : ℕ) (c : Cell)
    → 0 < rate
    → 2 * rate < burst
    → c.ts + 2000 ≤ now
    → c.tokens + (now - c.ts) * rate < burst * 1000
    → (script rate burst now (unexpired now (some c)) ≡ script rate burst now none)
      × ((script rate burst now none).1 ≡ true)
      × ((script rate burst now (some c)).0.tokens
          < (script rate burst now (unexpired now (some c))).0.tokens)
unfolding script refill unexpired take_token
script_after_idle rate burst now c pos_rate large idle below =
    (ground arith, ground arith, ground arith)

-- ===== src/RateLimit.antt =====
-- internal/ratelimit/limiter.go, with the keys of internal/store/redis.go. The maps are never
-- ranged over, so they are functions. What is not under src/ is a parameter: the library limiter of
-- the fallback (`Lib`), and which Redis commands fail (`Env`). The Lua script counts in thousandths
-- of a token, which its milliseconds make exact. Redis drops a bucket two seconds after its last
-- write, by the clock that the gateway passes. A daily counter is read on its own day alone, so its
-- expiry after 48 hours is not modelled. Counters stay below 2^63.
pub mod Bucket
pub mod Window
pub mod Decision
pub mod Keys
pub mod Tests
use rpc_node_gateway.Prelude.{
  ℕ, ◌+◌, ◌-◌, ◌*◌, ◌/◌, ◌≡◌, String, Bool, true, false, not, ◌&&◌, Option, none, some, List, [],
  ◌∷◌, ℤ, is_nonpos, to_ℕ, leb, ◌==◌, min, if◌then◌else◌, str_eq, str_append,
}
use rpc_node_gateway.Model.{Token, RateLimitLog}

unfoldable pub daily_success_key : String → String → String
daily_success_key token_key day =
    str_append "rpc:success:" (str_append token_key (str_append ":" day))

unfoldable pub rate_limit_token_key : String → String
rate_limit_token_key token_key = str_append "rpc:ratelimit:token:" token_key

unfoldable pub rate_limit_token_ip_key : String → String → String
rate_limit_token_ip_key token_key ip =
    str_append "rpc:ratelimit:tokenip:" (str_append token_key (str_append ":" ip))

-- A bucket in Redis: thousandths of a token, and the time of the last call.
pub record Cell : Type 0 where
  pub tokens : ℕ
  pub ts : ℕ

-- `EXPIRE key 2`
unfoldable pub unexpired : ℕ → Option Cell → Option Cell
unexpired now none = none
unexpired now (some c) = if leb (c.ts + 2000) now then none else some c

-- The tokens after the refill of the script.
unfoldable pub refill : ℕ → ℕ → ℕ → Option Cell → ℕ
refill rate burst now none = burst * 1000
refill rate burst now (some c) = min (burst * 1000) (c.tokens + (now - c.ts) * rate)

-- The test for a whole token, and the write-back.
unfoldable pub take_token : ℕ → ℕ → Cell × Bool
take_token now tokens =
    if leb 1000 tokens
    then (record { tokens = tokens - 1000; ts = now }, true)
    else (record { tokens = tokens; ts = now }, false)

unfoldable pub script : ℕ → ℕ → ℕ → Option Cell → Cell × Bool
script rate burst now c = take_token now (refill rate burst now c)

-- golang.org/x/time/rate
pub record Lib : Type 1 where
  pub Limiter : Type 0
  pub new_limiter : ℕ → ℕ → Limiter
  pub allow : ℕ → Limiter → Bool × Limiter

-- One request: its time, its day, and which of its Redis commands fail.
pub record Env : Type 0 where
  pub now : ℕ
  pub day : String
  pub get_fails : Bool
  pub token_eval_fails : Bool
  pub ip_eval_fails : Bool

pub data Reason : Type 0 where
  daily_quota token_rate_limit token_ip_rate_limit : Reason

abbrev pub reason_text : Reason → String
reason_text daily_quota = "daily_quota"
reason_text token_rate_limit = "token_rate_limit"
reason_text token_ip_rate_limit = "token_ip_rate_limit"

pub data Verdict : Type 0 where
  allowed : Verdict
  denied : Reason → Verdict

abbrev pub put {ℓ} : {A : Type ℓ} → (String → A) → String → A → String → A
put m k v j = if str_eq k j then v else m j

module _ (lib : Lib) where
  -- `available` is `rdb.Available()`. `log` holds what `onReject` was given, the newest first.
  pub record Limiter : Type 0 where
    pub available : Bool
    pub buckets : String → Option Cell
    pub counters : String → Option ℕ
    pub local : String → Option lib.Limiter
    pub daily : String → ℕ
    pub log : List RateLimitLog

  unfoldable pub daily_used : Env → Limiter → String → Option ℕ
  daily_used env l token_key =
      if l.available
      then (if env.get_fails
          then none
          else elim (l.counters (daily_success_key token_key env.day)) [
            | none ↦ some 0
            | some n ↦ some n
          ])
      else some (l.daily (str_append token_key (str_append ":" env.day)))

  unfoldable pub local_allow : ℕ → Limiter → String → ℕ → ℕ → Bool × Limiter
  local_allow now l key rps burst =
      let lim : lib.Limiter = elim (l.local key) [
        | none ↦ lib.new_limiter rps burst
        | some lim ↦ lim
      ] in
      let (ok, lim') = lib.allow now lim in (ok, record l { local = put l.local key (some lim') })

  unfoldable pub redis_allow : ℕ → Limiter → String → ℕ → ℕ → Bool × Limiter
  redis_allow now l key rps burst =
      let (cell, ok) = script rps burst now (unexpired now (l.buckets key)) in
      (ok, record l { buckets = put l.buckets key (some cell) })

  unfoldable pub allow_bucket : ℕ → Bool → Limiter → String → ℤ → ℤ → Bool × Limiter
  allow_bucket now fails l key rps burst =
      let size = to_ℕ (if is_nonpos burst then rps else burst) in
      if is_nonpos rps
      then (true, l)
      else if l.available && not fails
      then redis_allow now l key (to_ℕ rps) size
      else local_allow now l key (to_ℕ rps) size

  unfoldable pub reject : Env → Limiter → Token → String → String → Reason → Limiter
  reject env l token chain_id client_ip reason = record l { log = entry ∷ l.log }
    where
      entry : RateLimitLog
      entry = record {
        token_key = token.key;
        token_name = token.name;
        chain_id = chain_id;
        client_ip = client_ip;
        reason = reason_text reason;
        at_ms = env.now;
      }

  -- `err == nil && token.DailyQuota > 0 && used >= token.DailyQuota`
  abbrev pub over_quota : ℤ → Option ℕ → Bool
  over_quota quota none = false
  over_quota quota (some used) = not (is_nonpos quota) && leb (to_ℕ quota) used

  abbrev pub token_bucket : Env → Limiter → Token → Bool × Limiter
  token_bucket env l token =
      allow_bucket env.now env.token_eval_fails l (rate_limit_token_key token.key)
        token.token_rate_limit_per_second token.token_rate_limit_burst

  abbrev pub ip_bucket : Env → Limiter → Token → String → Bool × Limiter
  ip_bucket env l token client_ip =
      allow_bucket env.now env.ip_eval_fails l (rate_limit_token_ip_key token.key client_ip)
        token.token_ip_rate_limit_per_second token.token_ip_rate_limit_burst

  unfoldable pub allow : Env → Limiter → Token → String → String → Verdict × Limiter
  allow env l token chain_id client_ip =
      if over_quota token.daily_quota (daily_used env l token.key)
      then (denied daily_quota, reject env l token chain_id client_ip daily_quota)
      else (let (token_ok, l₁) = token_bucket env l token in
          if not token_ok
          then (denied token_rate_limit, reject env l₁ token chain_id client_ip token_rate_limit)
          else (let (ip_ok, l₂) = ip_bucket env l₁ token client_ip in
              if not ip_ok
              then (
                denied token_ip_rate_limit,
                reject env l₂ token chain_id client_ip token_ip_rate_limit,
              )
              else (allowed, l₂)))

  -- `IncrSuccess`; `fails` says that `INCRBY` fails, which the code ignores.
  unfoldable pub incr_success : String → Bool → Limiter → String → ℕ → Limiter
  incr_success day fails l token_key n =
      let key = daily_success_key token_key day in
      let used : ℕ = elim (l.counters key) [ none ↦ 0 | some m ↦ m ] in
      let local_key = str_append token_key (str_append ":" day) in
      if n == 0
      then l
      else if l.available
      then (if fails then l else record l { counters = put l.counters key (some (used + n)) })
      else record l { daily = put l.daily local_key (l.daily local_key + n) }

-- ===== src/RateLimit/Decision.antt =====
-- `Limiter.Allow` and `IncrSuccess`: what a verdict logs, what it leaves alone, and the daily quota.
use rpc_node_gateway.Prelude.{
  ℕ, zero, suc, ◌+◌, ◌*◌, ◌≤◌, ◌<◌, ◌≡◌, refl, String, Bool, true, false, none, some, List, [], ◌∷◌,
  ℤ, pos, if◌then◌else◌, str_append, All, eq_refl, arith,
}
use native.Mathlib.Nat.{mul-le-mul_right}
use mathlib.Core.Path.{subst, sym, ap, ◌∙◌}
use rpc_node_gateway.Model.{Token, RateLimitLog}
use rpc_node_gateway.RateLimit.{
  Lib, Env, Limiter, Reason, reason_text, Verdict, allowed, denied, daily_success_key, daily_used,
  local_allow, redis_allow, allow_bucket, reject, rate_limit_token_key, rate_limit_token_ip_key,
  over_quota, token_bucket, allow, incr_success,
}

-- A request comes, or one is answered: the day, whether its INCRBY fails, and its successes.
pub data Step : Type 0 where
  asks : Env → String → String → Step
  answers : String → Bool → ℕ → Step

module _ (lib : Lib) where
  -- What a call may change: the buckets. It keeps the counts, and the log.
  record KeepsCounts (l l' : Limiter lib) : Type 0 where
    pub available : l'.available ≡ l.available
    pub counters : l'.counters ≡ l.counters
    pub daily : l'.daily ≡ l.daily

  allow_bucket-KeepsCounts :
      (now : ℕ) (fails : Bool) (l : Limiter lib) (key : String) (rps burst : ℤ)
      → KeepsCounts l (allow_bucket lib now fails l key rps burst).1
  unfolding allow_bucket local_allow redis_allow
  allow_bucket-KeepsCounts now fails l key rps burst = ground arith

  allow_bucket-log :
      (now : ℕ) (fails : Bool) (l : Limiter lib) (key : String) (rps burst : ℤ)
      → (allow_bucket lib now fails l key rps burst).1.log ≡ l.log
  unfolding allow_bucket local_allow redis_allow
  allow_bucket-log now fails l key rps burst = ground arith

  abbrev log_entry : Env → Token → String → String → Reason → RateLimitLog
  log_entry env token chain_id client_ip reason = record {
    token_key = token.key;
    token_name = token.name;
    chain_id = chain_id;
    client_ip = client_ip;
    reason = reason_text reason;
    at_ms = env.now;
  }

  abbrev pub logged :
      Env → Token → String → String → Verdict → List RateLimitLog → List RateLimitLog
  logged env token chain_id client_ip allowed log = log
  logged env token chain_id client_ip (denied reason) log =
      log_entry env token chain_id client_ip reason ∷ log

  module _ (env : Env) (l : Limiter lib) (token : Token) (chain_id client_ip : String) where
    abbrev result : Verdict × Limiter lib
    result = allow lib env l token chain_id client_ip

    abbrev after_token : Limiter lib
    after_token = (token_bucket lib env l token).1

    -- A denied request logs one entry, with its reason and its own token, chain and address, and an
    -- allowed one logs nothing.
    pub allow-log : result.1.log ≡ logged env token chain_id client_ip result.0 l.log
    unfolding allow reject
    allow-log = ground (
      arith,
      allow_bucket-log env.now env.token_eval_fails l (rate_limit_token_key token.key)
          token.token_rate_limit_per_second token.token_rate_limit_burst,
      allow_bucket-log env.now env.ip_eval_fails after_token
          (rate_limit_token_ip_key token.key client_ip) token.token_ip_rate_limit_per_second
          token.token_ip_rate_limit_burst,
    )

    -- Neither verdict changes a daily count.
    allow-KeepsCounts : KeepsCounts l result.1
    unfolding allow reject
    allow-KeepsCounts =
        let first =
          allow_bucket-KeepsCounts env.now env.token_eval_fails l (rate_limit_token_key token.key)
            token.token_rate_limit_per_second token.token_rate_limit_burst in
        let second =
          allow_bucket-KeepsCounts env.now env.ip_eval_fails after_token
            (rate_limit_token_ip_key token.key client_ip) token.token_ip_rate_limit_per_second
            token.token_ip_rate_limit_burst in
        record {
          available = ground (arith, first.available, second.available);
          counters = ground (arith, first.counters, second.counters);
          daily = ground (arith, first.daily, second.daily);
        }

    allow_under_quota :
        result.0 ≡ allowed
        → over_quota lib token.daily_quota (daily_used lib env l token.key) ≡ false
    unfolding allow
    allow_under_quota e = ground arith

  -- The successes of a token on a day.
  unfoldable pub used_on : String → Limiter lib → String → ℕ
  used_on day l token_key =
      if l.available
      then elim (l.counters (daily_success_key token_key day)) [ none ↦ 0 | some n ↦ n ]
      else l.daily (str_append token_key (str_append ":" day))

  daily_used-used_on :
      (env : Env) (l : Limiter lib) (token_key : String)
      → env.get_fails ≡ false
      → daily_used lib env l token_key ≡ some (used_on env.day l token_key)
  unfolding daily_used used_on
  daily_used-used_on env l token_key h = ground arith

  used_on_kept :
      (day : String) (l l' : Limiter lib) (token_key : String)
      → KeepsCounts l l'
      → used_on day l' token_key ≡ used_on day l token_key
  unfolding used_on
  used_on_kept day l l' token_key k = rw (k.available, k.counters, k.daily)

  -- A call of `Allow` changes no daily count.
  pub used_on-allow :
      (env : Env) (l : Limiter lib) (token : Token) (chain_id client_ip day key : String)
      → used_on day (allow lib env l token chain_id client_ip).1 key ≡ used_on day l key
  used_on-allow env l token chain_id client_ip day key =
      used_on_kept day l (allow lib env l token chain_id client_ip).1 key
        (allow-KeepsCounts env l token chain_id client_ip)

  pub used_on-incr_success :
      (day : String) (l : Limiter lib) (token_key : String) (n : ℕ)
      → used_on day (incr_success lib day false l token_key n) token_key
        ≡ used_on day l token_key + n
  unfolding used_on incr_success
  used_on-incr_success day l token_key n = ground (
    arith,
    eq_refl (daily_success_key token_key day),
    eq_refl (str_append token_key (str_append ":" day)),
  )

  -- The limiter, and how many requests of the token it let through that are not answered.
  pub record Traffic : Type 0 where
    pub limiter : Limiter lib
    pub in_flight : ℕ

  abbrev ask_verdict : Verdict → Limiter lib → Traffic → Traffic
  ask_verdict allowed l t = record { limiter = l; in_flight = t.in_flight + 1 }
  ask_verdict (denied reason) l t = record t { limiter = l }

  abbrev close_one : ℕ → Limiter lib → Traffic → Traffic
  close_one zero l t = t
  close_one (suc n) l t = record { limiter = l; in_flight = n }

  -- The middleware, or the handler of a session, asks the limiter; the answer of one of the requests in
  -- flight is counted.
  unfoldable pub take_step : Token → Traffic → Step → Traffic
  take_step token t (asks env chain_id client_ip) =
      let (verdict, l) = allow lib env t.limiter token chain_id client_ip in ask_verdict verdict l t
  take_step token t (answers day fails n) =
      close_one t.in_flight (incr_success lib day fails t.limiter token.key n) t

  pub take_steps : Token → Traffic → List Step → Traffic
  take_steps token t [] = t
  take_steps token t (s ∷ steps) = take_steps token (take_step token t s) steps

  -- Never more than so many requests are in flight.
  unfoldable pub NeverOver : Token → ℕ → Traffic → List Step → Type 0
  NeverOver token k t [] = Unit {0}
  NeverOver token k t (s ∷ steps) =
      ((take_step token t s).in_flight ≤ k) × NeverOver token k (take_step token t s) steps

  -- The step is on the day, the quota can be read, and an answer counts at most so many successes.
  abbrev pub OnDay : String → ℕ → Step → Type 0
  OnDay day m (asks env chain_id client_ip) = (env.day ≡ day) × (env.get_fails ≡ false)
  OnDay day m (answers d fails n) = (d ≡ day) × (n ≤ m)

  -- An increment that Redis loses, or that the gateway keeps itself.
  used_on-lost :
      (day : String) (l : Limiter lib) (token_key : String) (n : ℕ)
      → used_on day (incr_success lib day true l token_key n) token_key
        ≤ used_on day l token_key + n
  unfolding used_on incr_success
  used_on-lost day l token_key n =
      ground (arith, eq_refl (str_append token_key (str_append ":" day)))

  used_on-incr_success_le :
      (day : String) (fails : Bool) (l : Limiter lib) (token_key : String) (n : ℕ)
      → used_on day (incr_success lib day fails l token_key n) token_key
        ≤ used_on day l token_key + n
  used_on-incr_success_le day false l token_key n =
      omega (arith, used_on-incr_success day l token_key n)
  used_on-incr_success_le day true l token_key n = used_on-lost day l token_key n

  below_quota :
      (quota : ℕ) (z : ℤ) (used : ℕ)
      → z ≡ pos quota
      → 0 < quota
      → over_quota lib z (some used) ≡ false
      → used < quota
  below_quota (suc quota) z used e qpos h = ground arith
  below_quota zero z used e qpos h = absurd (omega arith)

  -- What the day has counted, and what the requests in flight can still add.
  abbrev Bounded : String → String → ℕ → ℕ → ℕ → Traffic → Type 0
  Bounded day key quota m k t = used_on day t.limiter key + t.in_flight * m < quota + k * m

  ask_verdict-Bounded :
      (day key : String) (quota m k : ℕ) (v : Verdict) (l : Limiter lib) (t : Traffic)
      → used_on day l key ≡ used_on day t.limiter key
      → (v ≡ allowed → used_on day t.limiter key < quota)
      → (ask_verdict v l t).in_flight ≤ k
      → Bounded day key quota m k t
      → Bounded day key quota m k (ask_verdict v l t)
  ask_verdict-Bounded day key quota m k allowed l t same under few b =
      let full = mul-le-mul_right m few in let low = under refl in omega (arith, same, full, low)
  ask_verdict-Bounded day key quota m k (denied reason) l t same under few b = omega (arith, same)

  close_one-Bounded :
      (day key : String) (quota m k i n : ℕ) (l : Limiter lib) (t : Traffic)
      → t.in_flight ≡ i
      → used_on day l key ≤ used_on day t.limiter key + n
      → n ≤ m
      → Bounded day key quota m k t
      → Bounded day key quota m k (close_one i l t)
  close_one-Bounded day key quota m k zero n l t e more few b = b
  close_one-Bounded day key quota m k (suc i) n l t e more few b =
      let one : t.in_flight * m ≡ i * m + m = ap (λ x. x * m) e ∙ omega arith in omega (arith, one)

  take_step-Bounded :
      (token : Token) (t : Traffic) (s : Step) (day : String) (quota m k : ℕ)
      → token.daily_quota ≡ pos quota
      → 0 < quota
      → OnDay day m s
      → (take_step token t s).in_flight ≤ k
      → Bounded day token.key quota m k t
      → Bounded day token.key quota m k (take_step token t s)
  unfolding take_step
  take_step-Bounded token t (asks env chain_id client_ip) day quota m k q qpos (d, g) few b =
      let r = allow lib env t.limiter token chain_id client_ip in
      ask_verdict-Bounded day token.key quota m k r.0 r.1 t
        (used_on-allow env t.limiter token chain_id client_ip day token.key)
        (λ e.
          subst (λ day'. used_on day' t.limiter token.key < quota) d
            (below_quota quota token.daily_quota (used_on env.day t.limiter token.key) q qpos (
              rw (daily_used-used_on env t.limiter token.key g) at
                (allow_under_quota env t.limiter token chain_id client_ip e))))
        few b
  take_step-Bounded token t (answers d fails n) day quota m k q qpos (same, small) few b =
      close_one-Bounded day token.key quota m k t.in_flight n
        (incr_success lib d fails t.limiter token.key n) t refl
        (subst
          (λ d'.
            used_on day (incr_success lib d' fails t.limiter token.key n) token.key
            ≤ used_on day t.limiter token.key + n)
          (sym same) (used_on-incr_success_le day fails t.limiter token.key n))
        small b

  -- On a day on which the counts can be read, take a token with a quota that never has more than `k`
  -- requests in flight, whose answers count at most `m` successes each, and which counts nothing else
  -- (a push of a subscription is counted without a look at the quota). Whatever the order of requests and
  -- answers, and whichever increments Redis loses, the count stays below the quota and `k * m`: it is
  -- passed by no more than what the requests in flight bring.
  pub take_steps-used_on :
      (token : Token) (day : String) (t : Traffic) (steps : List Step) (quota m k : ℕ)
      → token.daily_quota ≡ pos quota
      → 0 < quota
      → All (OnDay day m) steps
      → NeverOver token k t steps
      → used_on day t.limiter token.key + t.in_flight * m < quota + k * m
      → used_on day (take_steps token t steps).limiter token.key
          + (take_steps token t steps).in_flight * m
        < quota + k * m
  unfolding take_steps NeverOver
  take_steps-used_on token day t [] quota m k q qpos on few b = b
  take_steps-used_on token day t (s ∷ steps) quota m k q qpos (o, on) (f, few) b =
      take_steps-used_on token day (take_step token t s) steps quota m k q qpos on few
        (take_step-Bounded token t s day quota m k q qpos o f b)

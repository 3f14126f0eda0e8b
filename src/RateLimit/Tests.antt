-- ===== src/RateLimit/Tests.antt =====
-- Runs of limiter.go. The library limiter of the tests counts down from its burst.
use rpc_node_gateway.Prelude.{
  ℕ, ◌+◌, ◌-◌, ◌*◌, ◌≤◌, ◌<◌, ◌≡◌, refl, true, false, List, none, some, [], ◌∷◌, pos, ltb,
  str_append, arith,
}
use rpc_node_gateway.Model.{Token}
use rpc_node_gateway.RateLimit.{
  Lib, Env, Cell, Limiter, rate_limit_token_key, incr_success, rate_limit_token_ip_key, script,
  unexpired, refill, allow, daily_used, allow_bucket, local_allow,
}
use rpc_node_gateway.RateLimit.Bucket.{script-unexpired, script_after_idle}
use rpc_node_gateway.RateLimit.Window.{passes, total, passes-bound}
use rpc_node_gateway.RateLimit.Decision.{
  used_on, Traffic, Step, asks, answers, take_step, take_steps, NeverOver, take_steps-used_on,
}
use rpc_node_gateway.RateLimit.Keys.{rate_limit_token_ip_key_shared}

abbrev pub counting_lib : Lib
counting_lib = record {
  Limiter = ℕ;
  new_limiter = λ rps burst. burst;
  allow = λ now n. (ltb 0 n, n - 1);
}

abbrev pub limiter : Limiter counting_lib
limiter = record {
  available = false;
  buckets = λ k. none;
  counters = λ k. none;
  local = λ k. none;
  daily = λ k. 0;
  log = [];
}

abbrev pub token : Token
token = record {
  key = "k";
  name = "n";
  plan = "free";
  user_id = "u";
  price_per_success_cents = pos 2;
  enabled = true;
  billing_free = false;
  token_rate_limit_per_second = pos 5;
  token_rate_limit_burst = pos 10;
  token_ip_rate_limit_per_second = pos 0;
  token_ip_rate_limit_burst = pos 0;
  daily_quota = pos 2;
  denied_methods = "eth_sendRawTransaction" ∷ [];
}

abbrev pub env : Env
env = record {
  now = 1000;
  day = "d";
  get_fails = false;
  token_eval_fails = false;
  ip_eval_fails = false;
}

abbrev traffic : Traffic counting_lib
traffic = record { limiter = limiter; in_flight = 0 }

abbrev steps : List Step
steps = asks env "eth" "ip" ∷ asks env "eth" "ip" ∷ answers "d" false 1 ∷ answers "d" true 1 ∷ []

abbrev cell : Cell
cell = record { tokens = 1000; ts = 500 }

passes-bound_example :
    passes 1 2 1000 (some cell) (0 ∷ 1000 ∷ []) * 1000
    ≤ refill 1 2 1000 (some cell) + 1 * total (0 ∷ 1000 ∷ [])
passes-bound_example = passes-bound 1 2 1000 (some cell) (0 ∷ 1000 ∷ []) (omega arith) (omega arith)

script-unexpired_example :
    script 1 2 5000 (unexpired 5000 (some cell)) ≡ script 1 2 5000 (some cell)
script-unexpired_example = script-unexpired 1 2 5000 (some cell) (omega arith)

abbrev drained : Cell
drained = record { tokens = 0; ts = 500 }

script_after_idle_example :
    (script 1 10 2600 (unexpired 2600 (some drained)) ≡ script 1 10 2600 none)
    × ((script 1 10 2600 none).1 ≡ true)
    × ((script 1 10 2600 (some drained)).0.tokens
        < (script 1 10 2600 (unexpired 2600 (some drained))).0.tokens)
script_after_idle_example =
    script_after_idle 1 10 2600 drained (omega arith) (omega arith) (omega arith) (omega arith)

none_used : used_on counting_lib "d" limiter "k" + 0 * 1 < 2 + 2 * 1
unfolding used_on
none_used = omega arith

two_in_flight : NeverOver counting_lib token 2 traffic steps
unfolding NeverOver take_step allow daily_used allow_bucket local_allow rate_limit_token_key
    rate_limit_token_ip_key incr_success
two_in_flight = (omega arith, (omega arith, (omega arith, (omega arith, tt))))

take_steps-used_on_example :
    used_on counting_lib "d" (take_steps counting_lib token traffic steps).limiter "k"
      + (take_steps counting_lib token traffic steps).in_flight * 1
    < 2 + 2 * 1
take_steps-used_on_example =
    take_steps-used_on counting_lib token "d" traffic steps 2 1 2 refl (omega arith)
      ((refl, refl), ((refl, refl), ((refl, omega arith), ((refl, omega arith), tt)))) two_in_flight
      none_used

rate_limit_token_ip_key_shared_example :
    rate_limit_token_ip_key "a" (str_append "b" (str_append ":" "ip"))
    ≡ rate_limit_token_ip_key (str_append "a" (str_append ":" "b")) "ip"
rate_limit_token_ip_key_shared_example = rate_limit_token_ip_key_shared "a" "b" "ip"

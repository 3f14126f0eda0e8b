-- ===== src/Stats.antt =====
-- internal/stats/collector.go. The counters of one call are added at one moment: the sums are those
-- that the program shows once the calls in flight have ended. Counters stay below 2^63. The order
-- of `tokens` and of `chains` is the one in which Go happens to range over the maps.
pub mod Fields
mod Sums
pub mod Balance
mod Consistency
mod Deltas
pub mod Calls
pub mod Keeping
pub mod Totals
pub mod Views
pub mod Tests
use rpc_node_gateway.Prelude.{
  ℕ, ◌+◌, ◌≡◌, String, Bool, true, false, Option, none, some, List, [], ◌∷◌, ltb, ◌==◌,
  if◌then◌else◌, str_eq, Assoc, lookup, insert,
}

pub record Metrics : Type 0 where
  pub requests : ℕ
  pub proxied : ℕ
  pub success_calls : ℕ
  pub rpc_errors : ℕ
  pub upstream_errors : ℕ
  pub auth_failed : ℕ
  pub method_denied : ℕ
  pub rate_limited : ℕ
  pub domain_rejected : ℕ
  pub billable_calls : ℕ
  pub free_calls : ℕ
  pub ws_connections : ℕ
  pub ws_notifications : ℕ
  pub last_at : ℕ

abbrev pub no_metrics : Metrics
no_metrics = record {
  requests = 0;
  proxied = 0;
  success_calls = 0;
  rpc_errors = 0;
  upstream_errors = 0;
  auth_failed = 0;
  method_denied = 0;
  rate_limited = 0;
  domain_rejected = 0;
  billable_calls = 0;
  free_calls = 0;
  ws_connections = 0;
  ws_notifications = 0;
  last_at = 0;
}

pub record TokenMeta : Type 0 where
  pub key : String
  pub name : String
  pub plan : String
  pub billing_free : Bool
  pub enabled : Bool

pub record TokenState : Type 0 where
  pub meta : TokenMeta
  pub metrics : Metrics
  pub chains : Assoc Metrics

pub record Collector : Type 0 where
  pub global : Metrics
  pub tokens : Assoc TokenState

abbrev pub new_collector : Collector
new_collector = record { global = no_metrics; tokens = [] }

-- The state that `ensureToken` returns, with its meta data brought up to date.
unfoldable pub token_state : Collector → TokenMeta → TokenState
token_state c meta = elim (lookup meta.key c.tokens) [
  | none ↦ record { meta = meta; metrics = no_metrics; chains = [] }
  | some st ↦ record st { meta = meta }
]

-- `ensureToken`, and a change of the state that it returns.
unfoldable pub with_token : TokenMeta → (TokenState → TokenState) → Collector → Collector
with_token meta f c = record c { tokens = insert meta.key (f (token_state c meta)) c.tokens }

unfoldable pub ensure_token : Collector → TokenMeta → Collector
ensure_token c meta = with_token meta (λ st. st) c

unfoldable pub register_tokens : Collector → List TokenMeta → Collector
register_tokens c [] = c
register_tokens c (m ∷ ms) = register_tokens (ensure_token c m) ms

-- `chainMetrics`, and a change of the counters that it returns.
unfoldable pub with_chain : String → (Metrics → Metrics) → TokenState → TokenState
with_chain chain_id f st =
    let id = if str_eq chain_id "" then "_" else chain_id in
    let m : Metrics = elim (lookup id st.chains) [ none ↦ no_metrics | some m ↦ m ] in
    record st { chains = insert id (f m) st.chains }

abbrev pub on_global : (Metrics → Metrics) → Collector → Collector
on_global f c = record c { global = f c.global }

abbrev pub on_metrics : (Metrics → Metrics) → TokenState → TokenState
on_metrics f st = record st { metrics = f st.metrics }

-- The additions of one call, which the code writes out for the global counters, the token's and
-- the chain's; `now` is what `touch` stores.
pub domain_rejects : ℕ → Metrics → Metrics
domain_rejects now m = record m { domain_rejected = m.domain_rejected + 1; last_at = now }

pub auth_fails : ℕ → Metrics → Metrics
auth_fails now m = record m {
  auth_failed = m.auth_failed + 1;
  requests = m.requests + 1;
  last_at = now;
}

pub method_denies : ℕ → Metrics → Metrics
method_denies now m = record m {
  method_denied = m.method_denied + 1;
  requests = m.requests + 1;
  last_at = now;
}

pub rate_limits : ℕ → Metrics → Metrics
rate_limits now m = record m {
  rate_limited = m.rate_limited + 1;
  requests = m.requests + 1;
  last_at = now;
}

pub connects : ℕ → Metrics → Metrics
connects now m = record m { ws_connections = m.ws_connections + 1; last_at = now }

-- `BillableCalls` or `FreeCalls`, with `SuccessCalls`.
succeeds : ℕ → Bool → Metrics → Metrics
succeeds n billable m =
    if billable
    then record m { success_calls = m.success_calls + n; billable_calls = m.billable_calls + n }
    else record m { success_calls = m.success_calls + n; free_calls = m.free_calls + n }

pub proxies : ℕ → ℕ → ℕ → Bool → Bool → Metrics → Metrics
unfolding succeeds
proxies now success_calls rpc_errors upstream_err billable m =
    let m₁ : Metrics = record m {
      requests = m.requests + 1;
      proxied = m.proxied + 1;
      last_at = now;
    } in
    let m₂ : Metrics = if ltb 0 success_calls then succeeds success_calls billable m₁ else m₁ in
    if upstream_err
    then record m₁ { upstream_errors = m₁.upstream_errors + 1 }
    else if ltb 0 rpc_errors
    then record m₂ { rpc_errors = m₂.rpc_errors + rpc_errors }
    else m₂

pub notifies : ℕ → ℕ → ℕ → Bool → Metrics → Metrics
unfolding succeeds
notifies now raw_count bill_units billable m =
    succeeds bill_units billable
      (record m { ws_notifications = m.ws_notifications + raw_count; last_at = now })

unfoldable pub inc_domain_rejected : ℕ → Collector → Collector
unfolding domain_rejects
inc_domain_rejected now c = on_global (domain_rejects now) c

unfoldable pub inc_auth_failed : ℕ → Collector → Collector
unfolding auth_fails
inc_auth_failed now c = on_global (auth_fails now) c

unfoldable pub inc_method_denied : ℕ → TokenMeta → Collector → Collector
unfolding method_denies
inc_method_denied now meta c =
    with_token meta (on_metrics (method_denies now)) (on_global (method_denies now) c)

unfoldable pub inc_rate_limited : ℕ → TokenMeta → Collector → Collector
unfolding rate_limits
inc_rate_limited now meta c =
    with_token meta (on_metrics (rate_limits now)) (on_global (rate_limits now) c)

-- One call on all three levels.
unfoldable pub on_all : TokenMeta → String → (Metrics → Metrics) → Collector → Collector
on_all meta chain_id f c =
    with_token meta (λ st. with_chain chain_id f (on_metrics f st)) (on_global f c)

unfoldable pub record_proxy : ℕ → TokenMeta → String → ℕ → ℕ → Bool → Bool → Collector → Collector
unfolding proxies
record_proxy now meta chain_id success_calls rpc_errors upstream_err billable c =
    on_all meta chain_id (proxies now success_calls rpc_errors upstream_err billable) c

unfoldable pub record_ws_connect : ℕ → TokenMeta → String → Collector → Collector
unfolding connects
record_ws_connect now meta chain_id c = on_all meta chain_id (connects now) c

unfoldable pub record_ws_notification :
    ℕ → TokenMeta → String → ℕ → ℕ → Bool → Collector → Collector
unfolding notifies
record_ws_notification now meta chain_id raw_count bill_units billable c =
    let units = if bill_units == 0 then raw_count else bill_units in
    if raw_count == 0 then c else on_all meta chain_id (notifies now raw_count units billable) c

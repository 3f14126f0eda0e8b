-- ===== src/Stats/Fields.antt =====
-- The counters by name, and what each call adds to each.
use rpc_node_gateway.Prelude.{ℕ, ◌+◌, ◌≡◌, Bool, if◌then◌else◌, arith}
use rpc_node_gateway.Stats.{
  Metrics, domain_rejects, auth_fails, method_denies, rate_limits, connects, proxies, notifies,
}

pub data Field : Type 0 where
  requests proxied success_calls rpc_errors upstream_errors auth_failed method_denied : Field
  rate_limited domain_rejected billable_calls free_calls ws_connections ws_notifications : Field

unfoldable pub get : Field → Metrics → ℕ
get requests m = m.requests
get proxied m = m.proxied
get success_calls m = m.success_calls
get rpc_errors m = m.rpc_errors
get upstream_errors m = m.upstream_errors
get auth_failed m = m.auth_failed
get method_denied m = m.method_denied
get rate_limited m = m.rate_limited
get domain_rejected m = m.domain_rejected
get billable_calls m = m.billable_calls
get free_calls m = m.free_calls
get ws_connections m = m.ws_connections
get ws_notifications m = m.ws_notifications

abbrev pub Delta : Type 0
Delta = Field → ℕ

-- `f` adds `d`.
abbrev pub Adds : (Metrics → Metrics) → Delta → Type 0
Adds f d = (k : Field) (m : Metrics) → get k (f m) ≡ get k m + d k

unfoldable pub refused : Field → Delta
refused auth_failed requests = 1
refused auth_failed auth_failed = 1
refused method_denied requests = 1
refused method_denied method_denied = 1
refused rate_limited requests = 1
refused rate_limited rate_limited = 1
refused domain_rejected domain_rejected = 1
refused ws_connections ws_connections = 1
refused j k = 0

unfoldable pub succeeded : ℕ → Bool → Delta
succeeded n billable success_calls = n
succeeded n billable billable_calls = if billable then n else 0
succeeded n billable free_calls = if billable then 0 else n
succeeded n billable k = 0

unfoldable pub sent : ℕ → ℕ → Bool → Bool → Delta
unfolding succeeded
sent s e upstream_err billable requests = 1
sent s e upstream_err billable proxied = 1
sent s e upstream_err billable upstream_errors = if upstream_err then 1 else 0
sent s e upstream_err billable rpc_errors = if upstream_err then 0 else e
sent s e upstream_err billable k = if upstream_err then 0 else succeeded s billable k

unfoldable pub pushed : ℕ → ℕ → Bool → Delta
unfolding succeeded
pushed raw units billable ws_notifications = raw
pushed raw units billable k = succeeded units billable k

pub proxies-Adds : (now s e : ℕ) (up b : Bool) → Adds (proxies now s e up b) (sent s e up b)
unfolding get sent proxies
proxies-Adds now s e up b requests m = ground arith
proxies-Adds now s e up b k m = ground arith

pub notifies-Adds :
    (now raw units : ℕ) (b : Bool) → Adds (notifies now raw units b) (pushed raw units b)
unfolding get pushed notifies
notifies-Adds now raw units b requests m = ground arith
notifies-Adds now raw units b k m = ground arith

pub auth_fails-Adds : (now : ℕ) → Adds (auth_fails now) (refused auth_failed)
unfolding get refused auth_fails
auth_fails-Adds now requests m = ground arith
auth_fails-Adds now k m = ground arith

pub method_denies-Adds : (now : ℕ) → Adds (method_denies now) (refused method_denied)
unfolding get refused method_denies
method_denies-Adds now requests m = ground arith
method_denies-Adds now k m = ground arith

pub rate_limits-Adds : (now : ℕ) → Adds (rate_limits now) (refused rate_limited)
unfolding get refused rate_limits
rate_limits-Adds now requests m = ground arith
rate_limits-Adds now k m = ground arith

pub domain_rejects-Adds : (now : ℕ) → Adds (domain_rejects now) (refused domain_rejected)
unfolding get refused domain_rejects
domain_rejects-Adds now requests m = ground arith
domain_rejects-Adds now k m = ground arith

pub connects-Adds : (now : ℕ) → Adds (connects now) (refused ws_connections)
unfolding get refused connects
connects-Adds now requests m = ground arith
connects-Adds now k m = ground arith

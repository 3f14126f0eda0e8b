-- ===== src/Stats/Keeping.antt =====
-- Each call of the collector keeps its counters consistent.
use rpc_node_gateway.Prelude.{ℕ, String, Bool, List, [], ◌∷◌}
use rpc_node_gateway.Stats.{
  TokenMeta, Collector, register_tokens, ensure_token, inc_domain_rejected, inc_auth_failed,
  inc_method_denied, inc_rate_limited, record_proxy, record_ws_connect, record_ws_notification,
}
use rpc_node_gateway.Stats.Balance.{IsConsistent}
use rpc_node_gateway.Stats.Calls.{
  domain_rejected_at, auth_failed_at, method_denied_at, rate_limited_at, proxied_at,
  ws_connected_at, ws_notified_at, step, step-IsConsistent, ensure_token-IsConsistent,
}

abbrev pub Kept : Collector → Collector → Type 0
Kept c c' = IsConsistent c → IsConsistent c'

module _ (now : ℕ) (c : Collector) where
  pub inc_domain_rejected-Kept : Kept c (inc_domain_rejected now c)
  unfolding step
  inc_domain_rejected-Kept h = step-IsConsistent c (domain_rejected_at now) h

  pub inc_auth_failed-Kept : Kept c (inc_auth_failed now c)
  unfolding step
  inc_auth_failed-Kept h = step-IsConsistent c (auth_failed_at now) h

  module _ (meta : TokenMeta) where
    pub inc_method_denied-Kept : Kept c (inc_method_denied now meta c)
    unfolding step
    inc_method_denied-Kept h = step-IsConsistent c (method_denied_at now meta) h

    pub inc_rate_limited-Kept : Kept c (inc_rate_limited now meta c)
    unfolding step
    inc_rate_limited-Kept h = step-IsConsistent c (rate_limited_at now meta) h

    pub record_ws_connect-Kept : (id : String) → Kept c (record_ws_connect now meta id c)
    unfolding step
    record_ws_connect-Kept id h = step-IsConsistent c (ws_connected_at now meta id) h

    pub record_proxy-Kept :
        (id : String) (s e : ℕ) (up b : Bool) → Kept c (record_proxy now meta id s e up b c)
    unfolding step
    record_proxy-Kept id s e up b h = step-IsConsistent c (proxied_at now meta id s e up b) h

    pub record_ws_notification-Kept :
        (id : String) (raw units : ℕ) (b : Bool)
        → Kept c (record_ws_notification now meta id raw units b c)
    unfolding step
    record_ws_notification-Kept id raw units b h =
        step-IsConsistent c (ws_notified_at now meta id raw units b) h

pub register_tokens-IsConsistent :
    (c : Collector) (known : List TokenMeta)
    → IsConsistent c
    → IsConsistent (register_tokens c known)
unfolding register_tokens
register_tokens-IsConsistent c [] h = h
register_tokens-IsConsistent c (m ∷ ms) h =
    register_tokens-IsConsistent (ensure_token c m) ms (ensure_token-IsConsistent c m h)

-- ===== src/Stats/Calls.antt =====
-- The calls of the collector, and what holds after any of them.
use rpc_node_gateway.Prelude.{ℕ, ◌≡◌, String, Bool, List, [], ◌∷◌, ◌==◌, if◌then◌else◌, if_elim}
use rpc_node_gateway.Stats.{
  Metrics, TokenMeta, Collector, new_collector, with_token, ensure_token, with_chain, on_all,
  on_metrics, inc_domain_rejected, inc_auth_failed, inc_method_denied, inc_rate_limited,
  record_proxy, record_ws_connect, record_ws_notification, domain_rejects, auth_fails,
  method_denies, rate_limits, connects, proxies, notifies,
}
use rpc_node_gateway.Stats.Fields.{
  Field, Delta, Adds, auth_failed, method_denied, rate_limited, domain_rejected, ws_connections,
  refused, sent, pushed, proxies-Adds, notifies-Adds, auth_fails-Adds, method_denies-Adds,
  rate_limits-Adds, domain_rejects-Adds, connects-Adds,
}
use rpc_node_gateway.Stats.Balance.{
  own, direct, IsBalanced, no_metrics-IsBalanced, new_by_token, IsConsistent,
}
use rpc_node_gateway.Stats.Deltas.{
  sent-IsBalanced, pushed-IsBalanced, sent-own, sent-direct, pushed-own, pushed-direct,
  auth_failed-IsBalanced, domain_rejected-IsBalanced, method_denied-IsBalanced,
  rate_limited-IsBalanced, ws_connections-IsBalanced, auth_failed-own, domain_rejected-own,
  method_denied-own, rate_limited-own, ws_connections-own, method_denied-direct,
  rate_limited-direct, ws_connections-direct, nothing, nothing-IsBalanced, nothing-Adds,
  nothing-own,
}
use rpc_node_gateway.Stats.Consistency.{
  on_global-IsConsistent, on_token-IsConsistent, on_metrics-IsConsistentToken,
  with_chain-IsConsistentToken,
}

-- The calls of the handlers, each with the time that `touch` reads.
pub data Call : Type 0 where
  domain_rejected_at : ℕ → Call
  auth_failed_at : ℕ → Call
  method_denied_at : ℕ → TokenMeta → Call
  rate_limited_at : ℕ → TokenMeta → Call
  proxied_at : ℕ → TokenMeta → String → ℕ → ℕ → Bool → Bool → Call
  ws_connected_at : ℕ → TokenMeta → String → Call
  ws_notified_at : ℕ → TokenMeta → String → ℕ → ℕ → Bool → Call
  registered : TokenMeta → Call

unfoldable pub step : Collector → Call → Collector
step c (domain_rejected_at now) = inc_domain_rejected now c
step c (auth_failed_at now) = inc_auth_failed now c
step c (method_denied_at now meta) = inc_method_denied now meta c
step c (rate_limited_at now meta) = inc_rate_limited now meta c
step c (proxied_at now meta chain_id s e up b) = record_proxy now meta chain_id s e up b c
step c (ws_connected_at now meta chain_id) = record_ws_connect now meta chain_id c
step c (ws_notified_at now meta chain_id raw units b) =
    record_ws_notification now meta chain_id raw units b c
step c (registered meta) = ensure_token c meta

pub run : Collector → List Call → Collector
run c [] = c
run c (e ∷ es) = run (step c e) es

on_all-IsConsistent :
    (meta : TokenMeta) (chain_id : String) (f : Metrics → Metrics) (d : Delta) (c : Collector)
    → Adds f d
    → IsBalanced d
    → ((k : Field) → own d k ≡ 0)
    → ((k : Field) → direct d k ≡ 0)
    → IsConsistent c
    → IsConsistent (on_all meta chain_id f c)
unfolding on_all
on_all-IsConsistent meta chain_id f d c adds bal owns sends h =
    on_token-IsConsistent f d meta (λ st. with_chain chain_id f (on_metrics f st)) c adds bal owns
      (λ k st. unfold with_chain in adds k st.metrics)
      (λ st v. with_chain-IsConsistentToken chain_id f d st adds bal sends v) h

refuse-IsConsistent :
    (meta : TokenMeta) (f : Metrics → Metrics) (d : Delta) (c : Collector)
    → Adds f d
    → IsBalanced d
    → ((k : Field) → own d k ≡ 0)
    → ((k : Field) → d k ≡ direct d k)
    → IsConsistent c
    → IsConsistent (with_token meta (on_metrics f) (record c { global = f c.global }))
refuse-IsConsistent meta f d c adds bal owns refuses h =
    on_token-IsConsistent f d meta (on_metrics f) c adds bal owns (λ k st. adds k st.metrics)
      (λ st v. on_metrics-IsConsistentToken f d st adds bal refuses v) h

pub step-IsConsistent : (c : Collector) (e : Call) → IsConsistent c → IsConsistent (step c e)
unfolding step inc_auth_failed inc_domain_rejected inc_method_denied inc_rate_limited record_proxy
    record_ws_connect record_ws_notification ensure_token
step-IsConsistent c (domain_rejected_at now) h =
    on_global-IsConsistent (domain_rejects now) (refused domain_rejected) c
      (domain_rejects-Adds now) domain_rejected-IsBalanced domain_rejected-own h
step-IsConsistent c (auth_failed_at now) h =
    on_global-IsConsistent (auth_fails now) (refused auth_failed) c (auth_fails-Adds now)
      auth_failed-IsBalanced auth_failed-own h
step-IsConsistent c (method_denied_at now meta) h =
    refuse-IsConsistent meta (method_denies now) (refused method_denied) c (method_denies-Adds now)
      method_denied-IsBalanced method_denied-own method_denied-direct h
step-IsConsistent c (rate_limited_at now meta) h =
    refuse-IsConsistent meta (rate_limits now) (refused rate_limited) c (rate_limits-Adds now)
      rate_limited-IsBalanced rate_limited-own rate_limited-direct h
step-IsConsistent c (proxied_at now meta chain_id s e up b) h =
    on_all-IsConsistent meta chain_id (proxies now s e up b) (sent s e up b) c
      (proxies-Adds now s e up b) (sent-IsBalanced s e up b) (sent-own s e up b)
      (sent-direct s e up b) h
step-IsConsistent c (ws_connected_at now meta chain_id) h =
    on_all-IsConsistent meta chain_id (connects now) (refused ws_connections) c (connects-Adds now)
      ws_connections-IsBalanced ws_connections-own ws_connections-direct h
step-IsConsistent c (ws_notified_at now meta chain_id raw units b) h =
    let n = if units == 0 then raw else units in
    if_elim IsConsistent (raw == 0) c (on_all meta chain_id (notifies now raw n b) c) h (
      on_all-IsConsistent meta chain_id (notifies now raw n b) (pushed raw n b) c
        (notifies-Adds now raw n b) (pushed-IsBalanced raw n b) (pushed-own raw n b)
        (pushed-direct raw n b) h)
step-IsConsistent c (registered meta) h =
    on_token-IsConsistent (λ m. m) nothing meta (λ st. st) c nothing-Adds nothing-IsBalanced
      nothing-own (λ k st. nothing-Adds k st.metrics) (λ st v. v) h

pub ensure_token-IsConsistent :
    (c : Collector) (meta : TokenMeta) → IsConsistent c → IsConsistent (ensure_token c meta)
unfolding step
ensure_token-IsConsistent c meta h = step-IsConsistent c (registered meta) h

pub run-IsConsistent : (c : Collector) (es : List Call) → IsConsistent c → IsConsistent (run c es)
unfolding run
run-IsConsistent c [] h = h
run-IsConsistent c (e ∷ es) h = run-IsConsistent (step c e) es (step-IsConsistent c e h)

pub new_collector-IsConsistent : IsConsistent new_collector
new_collector-IsConsistent = record {
  by_token = new_by_token;
  balanced = no_metrics-IsBalanced;
  tokens = tt;
}

-- After any calls the totals agree on every level. Each global counter is the sum of the tokens'
-- counters, with the requests that failed authentication and the rejected hosts besides; each
-- counter of a token is the sum of its chains', with the denied and limited requests besides; and on
-- each level every request is counted once, as refused or as sent on, every success once, as
-- billable or free, and no more upstream errors than requests sent on.
pub run-new_collector-IsConsistent : (es : List Call) → IsConsistent (run new_collector es)
run-new_collector-IsConsistent es = run-IsConsistent new_collector es new_collector-IsConsistent

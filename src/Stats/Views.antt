-- ===== src/Stats/Views.antt =====
-- The views of the collector that the admin pages show: `snapshot`, `lastAt`, `Snapshot` and
-- `TokenSnapshot` of internal/stats/collector.go. `sort.Slice` is an insertion by the key; no two
-- tokens have one. The time of an overview is left out.
pub mod Totals
use rpc_node_gateway.Prelude.{
  ℕ, ◌+◌, ◌≡◌, refl, sym, ap, ◌∙◌, String, Bool, true, false, Option, none, some, List, [], ◌∷◌,
  ◌==◌, if◌then◌else◌, length, All, Assoc, lookup, Bool-cases, inl, inr, arith,
}
use Prim.Native.String.{compare}
use Prim.Native.Nat.{Ordering}
use rpc_node_gateway.Stats.{
  Metrics, TokenMeta, TokenState, Collector, new_collector, ensure_token, register_tokens,
}
use rpc_node_gateway.Stats.Fields.{
  Field, Delta, get, requests, proxied, success_calls, rpc_errors, upstream_errors, auth_failed,
  method_denied, rate_limited, domain_rejected, billable_calls, free_calls, ws_connections,
  ws_notifications,
}
use rpc_node_gateway.Stats.Sums.{sum_of, Every}
use rpc_node_gateway.Stats.Balance.{counts, own, direct, IsConsistentToken, IsConsistent}
use rpc_node_gateway.Stats.Calls.{
  Call, registered, step, run, run-IsConsistent, new_collector-IsConsistent,
}

-- `Metrics`: the counters without their time.
pub record MetricsView : Type 0 where
  pub requests : ℕ
  pub proxied : ℕ
  pub success_calls : ℕ
  pub rpc_errors : ℕ
  pub upstream_errors : ℕ
  pub auth_failed : ℕ
  pub method_denied : ℕ
  pub rate_limited : ℕ
  pub domain_rejected : ℕ
  pub billable_calls : ℕ
  pub free_calls : ℕ
  pub ws_connections : ℕ
  pub ws_notifications : ℕ

pub record TokenView : Type 0 where
  pub token_key : String
  pub token_name : String
  pub plan : String
  pub billing_free : Bool
  pub enabled : Bool
  pub last_request : Option ℕ
  pub metrics : MetricsView
  pub by_chain : Assoc MetricsView

pub record Overview : Type 0 where
  pub total : MetricsView
  pub token_count : ℕ
  pub tokens : List TokenView

unfoldable pub view : Metrics → MetricsView
view m = record {
  requests = m.requests;
  proxied = m.proxied;
  success_calls = m.success_calls;
  rpc_errors = m.rpc_errors;
  upstream_errors = m.upstream_errors;
  auth_failed = m.auth_failed;
  method_denied = m.method_denied;
  rate_limited = m.rate_limited;
  domain_rejected = m.domain_rejected;
  billable_calls = m.billable_calls;
  free_calls = m.free_calls;
  ws_connections = m.ws_connections;
  ws_notifications = m.ws_notifications;
}

-- `lastAt`
abbrev pub last_request : Metrics → Option ℕ
last_request m = if m.last_at == 0 then none else some m.last_at

unfoldable pub view_chains : Assoc Metrics → Assoc MetricsView
view_chains [] = []
view_chains ((id, m) ∷ rest) = (id, view m) ∷ view_chains rest

unfoldable pub view_token : TokenState → TokenView
view_token st = record {
  token_key = st.meta.key;
  token_name = st.meta.name;
  plan = st.meta.plan;
  billing_free = st.meta.billing_free;
  enabled = st.meta.enabled;
  last_request = last_request st.metrics;
  metrics = view st.metrics;
  by_chain = view_chains st.chains;
}

-- `<` on texts.
abbrev pub str_lt : String → String → Bool
str_lt a b = elim (compare a b) [ Ordering.lt ↦ true | _ ↦ false ]

unfoldable pub insert_view : TokenView → List TokenView → List TokenView
insert_view v [] = v ∷ []
insert_view v (w ∷ ws) =
    let rest = insert_view v ws in if str_lt v.token_key w.token_key then v ∷ w ∷ ws else w ∷ rest

unfoldable pub view_tokens : Assoc TokenState → List TokenView
view_tokens [] = []
view_tokens ((key, st) ∷ rest) = insert_view (view_token st) (view_tokens rest)

-- `Snapshot`, with the collector, which by then has the known tokens.
unfoldable pub snapshot : List TokenMeta → Collector → Overview × Collector
snapshot known c =
    let c' = register_tokens c known in
    let tokens = view_tokens c'.tokens in
    (record { total = view c'.global; token_count = length tokens; tokens = tokens }, c')

-- `TokenSnapshot`
unfoldable pub token_snapshot : String → Collector → Option TokenView
token_snapshot key c = elim (lookup key c.tokens) [ none ↦ none | some st ↦ some (view_token st) ]

-- ===== src/Stats/Views/Totals.antt =====
-- That the numbers of an overview add up.
use rpc_node_gateway.Prelude.{
  ℕ, ◌+◌, ◌≡◌, refl, List, [], ◌∷◌, All, Assoc, Bool-cases, inl, inr, arith,
}
use rpc_node_gateway.Stats.{Metrics, TokenMeta, TokenState, new_collector, register_tokens}
use rpc_node_gateway.Stats.Fields.{
  Field, Delta, get, requests, proxied, success_calls, rpc_errors, upstream_errors, auth_failed,
  method_denied, rate_limited, domain_rejected, billable_calls, free_calls, ws_connections,
  ws_notifications,
}
use rpc_node_gateway.Stats.Sums.{sum_of, Every}
use rpc_node_gateway.Stats.Keeping.{register_tokens-IsConsistent}
use rpc_node_gateway.Stats.Balance.{counts, own, direct, IsConsistentToken}
use rpc_node_gateway.Stats.Calls.{Call, run, run-IsConsistent, new_collector-IsConsistent}
use rpc_node_gateway.Stats.Views.{
  MetricsView, TokenView, view, view_chains, view_token, str_lt, insert_view, view_tokens, snapshot,
}

-- The counter of a field.
unfoldable pub shown : MetricsView → Delta
shown m requests = m.requests
shown m proxied = m.proxied
shown m success_calls = m.success_calls
shown m rpc_errors = m.rpc_errors
shown m upstream_errors = m.upstream_errors
shown m auth_failed = m.auth_failed
shown m method_denied = m.method_denied
shown m rate_limited = m.rate_limited
shown m domain_rejected = m.domain_rejected
shown m billable_calls = m.billable_calls
shown m free_calls = m.free_calls
shown m ws_connections = m.ws_connections
shown m ws_notifications = m.ws_notifications

shown-view : (m : Metrics) (k : Field) → shown (view m) k ≡ get k m
unfolding shown view get
shown-view m requests = refl
shown-view m proxied = refl
shown-view m success_calls = refl
shown-view m rpc_errors = refl
shown-view m upstream_errors = refl
shown-view m auth_failed = refl
shown-view m method_denied = refl
shown-view m rate_limited = refl
shown-view m domain_rejected = refl
shown-view m billable_calls = refl
shown-view m free_calls = refl
shown-view m ws_connections = refl
shown-view m ws_notifications = refl

abbrev pub sum_views : Field → List TokenView → ℕ
sum_views k [] = 0
sum_views k (v ∷ vs) = shown v.metrics k + sum_views k vs

-- The counters of a token are those of its chains, with what was refused before.
abbrev pub AddsUp : TokenView → Type 0
AddsUp v =
    (k : Field)
    → shown v.metrics k ≡ direct (shown v.metrics) k + sum_of (λ m. shown m k) v.by_chain

sum_views-insert_view :
    (k : Field) (v : TokenView) (vs : List TokenView)
    → sum_views k (insert_view v vs) ≡ shown v.metrics k + sum_views k vs
unfolding insert_view
sum_views-insert_view k v [] = refl
sum_views-insert_view k v (w ∷ ws) = ground (arith, sum_views-insert_view k v ws)

sum_views-view_tokens :
    (k : Field) (tokens : Assoc TokenState)
    → sum_views k (view_tokens tokens) ≡ sum_of (λ st. get k st.metrics) tokens
unfolding view_tokens sum_of view_token
sum_views-view_tokens k [] = refl
sum_views-view_tokens k ((key, st) ∷ rest) = omega (
  arith,
  sum_views-insert_view k (view_token st) (view_tokens rest),
  sum_views-view_tokens k rest,
  shown-view st.metrics k,
)

sum_of-view_chains :
    (k : Field) (chains : Assoc Metrics)
    → sum_of (λ m. shown m k) (view_chains chains) ≡ sum_of (get k) chains
unfolding view_chains sum_of
sum_of-view_chains k [] = refl
sum_of-view_chains k ((id, m) ∷ rest) = omega (arith, sum_of-view_chains k rest, shown-view m k)

-- `own` and `direct` read the counters of the view alike.
own-view : (m : Metrics) (k : Field) → own (shown (view m)) k ≡ own (counts m) k
unfolding own
own-view m requests = shown-view m auth_failed
own-view m auth_failed = shown-view m auth_failed
own-view m domain_rejected = shown-view m domain_rejected
own-view m k = refl

direct-view : (m : Metrics) (k : Field) → direct (shown (view m)) k ≡ direct (counts m) k
unfolding direct
direct-view m requests = omega (arith, shown-view m method_denied, shown-view m rate_limited)
direct-view m method_denied = shown-view m method_denied
direct-view m rate_limited = shown-view m rate_limited
direct-view m k = refl

view_token-AddsUp : (st : TokenState) → IsConsistentToken st → AddsUp (view_token st)
unfolding view_token
view_token-AddsUp st v k = omega (
  arith,
  v.by_chain k,
  shown-view st.metrics k,
  direct-view st.metrics k,
  sum_of-view_chains k st.chains,
)

All-insert_view :
    (P : TokenView → Type 0) (v : TokenView) (vs : List TokenView)
    → P v
    → All P vs
    → All P (insert_view v vs)
unfolding insert_view
All-insert_view P v [] p h = (p, tt)
All-insert_view P v (w ∷ ws) p (h, hs) = elim (Bool-cases (str_lt v.token_key w.token_key)) [
  | inl before ↦ rw before (p, (h, hs))
  | inr behind ↦ rw behind (h, All-insert_view P v ws p hs)
]

view_tokens-AddsUp :
    (tokens : Assoc TokenState) → Every IsConsistentToken tokens → All AddsUp (view_tokens tokens)
unfolding view_tokens
view_tokens-AddsUp [] h = tt
view_tokens-AddsUp ((key, st) ∷ rest) (h, hs) =
    All-insert_view AddsUp (view_token st) (view_tokens rest) (view_token-AddsUp st h)
      (view_tokens-AddsUp rest hs)

-- In an overview after any calls, each total is the sum over the tokens that it lists, with the
-- requests that failed authentication and the rejected hosts besides; and each counter of a listed
-- token is the sum over its chains, with the denied and limited requests besides.
pub snapshot-AddsUp :
    (calls : List Call) (known : List TokenMeta) (k : Field)
    → (shown (snapshot known (run new_collector calls)).0.total k
        ≡ own (shown (snapshot known (run new_collector calls)).0.total) k
          + sum_views k (snapshot known (run new_collector calls)).0.tokens)
      × All AddsUp (snapshot known (run new_collector calls)).0.tokens
unfolding snapshot
snapshot-AddsUp calls known k =
    let start = run-IsConsistent new_collector calls new_collector-IsConsistent in
    let v = register_tokens-IsConsistent (run new_collector calls) known start in
    let c = register_tokens (run new_collector calls) known in
    (
      omega (
        arith,
        v.by_token k,
        shown-view c.global k,
        own-view c.global k,
        sum_views-view_tokens k c.tokens,
      ),
      view_tokens-AddsUp c.tokens v.tokens,
    )

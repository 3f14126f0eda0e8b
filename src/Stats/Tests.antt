-- ===== src/Stats/Tests.antt =====
-- A run of the collector.
use rpc_node_gateway.Prelude.{◌+◌, ◌≡◌, All, true, false, [], ◌∷◌, List}
use rpc_node_gateway.Stats.{TokenMeta, new_collector}
use rpc_node_gateway.Stats.Balance.{IsConsistent, own}
use rpc_node_gateway.Stats.Fields.{success_calls}
use rpc_node_gateway.Stats.Views.{snapshot}
use rpc_node_gateway.Stats.Views.Totals.{shown, sum_views, AddsUp, snapshot-AddsUp}
use rpc_node_gateway.Stats.Calls.{
  Call, run, auth_failed_at, rate_limited_at, proxied_at, ws_notified_at,
  run-new_collector-IsConsistent,
}

abbrev pub meta : TokenMeta
meta = record { key = "k"; name = "n"; plan = "free"; billing_free = false; enabled = true }

abbrev calls : List Call
calls =
    auth_failed_at 1
    ∷ rate_limited_at 2 meta
    ∷ proxied_at 3 meta "eth" 2 1 false true
    ∷ ws_notified_at 4 meta "eth" 1 5 true
    ∷ []

run-new_collector-IsConsistent_example : IsConsistent (run new_collector calls)
run-new_collector-IsConsistent_example = run-new_collector-IsConsistent calls

snapshot-AddsUp_example :
    (shown (snapshot (meta ∷ []) (run new_collector calls)).0.total success_calls
      ≡ own (shown (snapshot (meta ∷ []) (run new_collector calls)).0.total) success_calls
        + sum_views success_calls (snapshot (meta ∷ []) (run new_collector calls)).0.tokens)
    × All AddsUp (snapshot (meta ∷ []) (run new_collector calls)).0.tokens
snapshot-AddsUp_example = snapshot-AddsUp calls (meta ∷ []) success_calls

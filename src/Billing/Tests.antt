-- ===== src/Billing/Tests.antt =====
-- Deliveries of one event, twice, to the sinks of a gateway with Redis and a database.
use rpc_node_gateway.Prelude.{ℕ, ◌+◌, ◌≡◌, refl, String, true, false, [], ◌∷◌, arith}
use rpc_node_gateway.Model.{BillingEvent}
use rpc_node_gateway.Billing.Ledger.{
  Db, Faults, committed, lost, has_event, row_of, record_billable_success,
}
use rpc_node_gateway.Billing.Ledger.Balance.{
  IsBalanced, success_on, record_billable_success_again, empty-IsBalanced,
}
use rpc_node_gateway.Billing.Publisher.{redis_stream_publisher, postgres_publisher, Sinks}
use rpc_node_gateway.Billing.Publisher.Delivery.{
  Delivery, deliver_all, deliver_all-IsBalanced, deliver_all-success_on, events_on,
}

abbrev day_of : ℕ → String
day_of _ = "2026-01-01"

abbrev event : String → BillingEvent
event id = record {
  event_id = id;
  token_key = "k";
  token_name = "n";
  user_id = "";
  plan = "free";
  chain_id = "eth";
  methods = "eth_call" ∷ [];
  success_n = 2;
  billable = true;
  amount_cents = 0;
  transport = "http";
  event_kind = "http";
  upstream = "node-1";
  latency_ms = 3;
  client_ip = "10.0.0.1";
  at_ms = 5;
}

abbrev smooth : Faults
smooth = record {
  begin_fails = false;
  insert_fails = false;
  usage_fails = false;
  commit = committed;
}

abbrev empty : Db
empty = record { billing_events = []; usage_daily = [] }

abbrev no_sinks : Sinks
no_sinks = record { logged = []; stream = []; db = empty }

abbrev once : Db
once = record empty { billing_events = row_of (event "e1") ∷ [] }

record_billable_success_again_example :
    (record_billable_success day_of smooth (event "e1") once).0 ≡ once
unfolding has_event
record_billable_success_again_example =
    record_billable_success_again day_of smooth (event "e1") once refl

abbrev unsure : Delivery
unsure = record { faults = record smooth { commit = lost }; add_fails = false; event = event "e1" }

abbrev sure : String → Delivery
sure id = record { faults = smooth; add_fails = false; event = event id }

deliver_all-IsBalanced_example :
    IsBalanced day_of
      (deliver_all day_of
        (redis_stream_publisher ∷ postgres_publisher ∷ [])
        (unsure ∷ sure "e1" ∷ [])
        no_sinks).db
deliver_all-IsBalanced_example =
    deliver_all-IsBalanced day_of (redis_stream_publisher ∷ postgres_publisher ∷ [])
      (unsure ∷ sure "e1" ∷ []) no_sinks (empty-IsBalanced day_of)

deliver_all-success_on_example :
    success_on "k" "2026-01-01"
      (deliver_all day_of
        (postgres_publisher ∷ [])
        (sure "e1" ∷ sure "e2" ∷ [])
        no_sinks).db.usage_daily
    ≡ success_on "k" "2026-01-01" []
      + events_on day_of "k" "2026-01-01" (sure "e1" ∷ sure "e2" ∷ [])
unfolding has_event
deliver_all-success_on_example =
    deliver_all-success_on day_of "k" "2026-01-01" (sure "e1" ∷ sure "e2" ∷ []) no_sinks
      ((refl, refl, refl, refl), ((refl, refl, refl, refl), tt))
      ((omega arith, refl, (refl, tt), (omega arith, refl, tt, tt)))

-- ===== src/Billing/Publisher.antt =====
-- internal/billing/publisher.go: the sinks that billing events go to.
pub mod Delivery
use rpc_node_gateway.Prelude.{
  ℕ, String, Bool, true, false, not, ◌&&◌, ◌||◌, Option, none, some, List, [], ◌∷◌, ◌++◌,
  if◌then◌else◌, str_eq,
}
use rpc_node_gateway.Config.{BillingConfig}
use rpc_node_gateway.Model.{BillingEvent}
use rpc_node_gateway.Billing.Ledger.{Db, Faults, record_billable_success, incr_usage_daily}

pub data Sink : Type 0 where
  log_publisher redis_stream_publisher postgres_publisher : Sink

-- What the sinks have taken: the log and the stream, the newest first, and the database.
pub record Sinks : Type 0 where
  pub logged : List BillingEvent
  pub stream : List BillingEvent
  pub db : Db

-- The sink that the configuration names.
unfoldable pub configured : BillingConfig → Bool → Bool → List Sink
configured cfg redis_available has_db =
    if str_eq cfg.publisher "redis_stream"
    then (if redis_available then redis_stream_publisher ∷ [] else log_publisher ∷ [])
    else if str_eq cfg.publisher "postgres"
    then (if has_db then [] else log_publisher ∷ [])
    else log_publisher ∷ []

-- `NewPublisher`. A list of one sink stands for the sink alone, which does the same.
unfoldable pub new_publisher : BillingConfig → Bool → Bool → List Sink
unfolding configured
new_publisher cfg redis_available has_db =
    configured cfg redis_available has_db ++ (if has_db then postgres_publisher ∷ [] else [])

module _ (day_of : ℕ → String) where
  -- `PostgresPublisher.Publish`
  unfoldable pub publish_postgres : Faults → BillingEvent → Db → Db × Bool
  publish_postgres f ev db =
      if ev.billable
      then record_billable_success day_of f ev db
      else incr_usage_daily f ev.token_key (day_of ev.at_ms) ev.success_n 0 db

  -- One sink; `add_fails` says that `XADD` fails.
  unfoldable pub publish_sink : Faults → Bool → BillingEvent → Sink → Sinks → Sinks × Bool
  publish_sink f add_fails ev log_publisher s = (record s { logged = ev ∷ s.logged }, true)
  publish_sink f add_fails ev redis_stream_publisher s =
      if add_fails then (s, false) else (record s { stream = ev ∷ s.stream }, true)
  publish_sink f add_fails ev postgres_publisher s =
      let (db, ok) = publish_postgres f ev s.db in (record s { db = db }, ok)

  -- `MultiPublisher.Publish`: the first error, by the sink that it comes from.
  unfoldable pub publish_all :
      Faults → Bool → BillingEvent → List Sink → Sinks → Sinks × Option Sink
  publish_all f add_fails ev [] s = (s, none)
  publish_all f add_fails ev (p ∷ ps) s =
      let (s', ok) = publish_sink f add_fails ev p s in
      let (s'', first_err) = publish_all f add_fails ev ps s' in
      (s'', if ok then first_err else some p)

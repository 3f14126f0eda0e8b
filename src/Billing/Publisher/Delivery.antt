-- ===== src/Billing/Publisher/Delivery.antt =====
-- Where a billing event goes, and what the database holds after any deliveries.
use rpc_node_gateway.Prelude.{
  ℕ, ◌+◌, ◌<◌, ◌≡◌, String, Bool, false, not, ◌&&◌, none, some, List, [], ◌∷◌, if◌then◌else◌,
  str_eq, if_elim, All, arith,
}
use rpc_node_gateway.Config.{BillingConfig}
use rpc_node_gateway.Model.{BillingEvent}
use rpc_node_gateway.Billing.Ledger.{
  EventRow, Db, committed, Faults, has_event, insert_event, incr_usage_daily, commit_tx, finish_tx,
  record_billable_success,
}
use rpc_node_gateway.Billing.Ledger.Balance.{
  IsBalanced, record_billable_success-IsBalanced, incr_usage_daily-IsBalanced, success_on,
  success_on-upsert_usage,
}
use rpc_node_gateway.Billing.Publisher.{
  Sink, log_publisher, redis_stream_publisher, postgres_publisher, Sinks, new_publisher,
  publish_postgres, publish_sink, publish_all,
}

-- One delivery of an event: what fails on the way, and the event.
pub record Delivery : Type 0 where
  pub faults : Faults
  pub add_fails : Bool
  pub event : BillingEvent

-- The event goes to the log: it is the default, and stands in for a sink that is not there.
abbrev pub logs : BillingConfig → Bool → Bool → Bool
logs cfg redis_available has_db =
    if str_eq cfg.publisher "redis_stream"
    then not redis_available
    else not (str_eq cfg.publisher "postgres" && has_db)

abbrev pub streams : BillingConfig → Bool → Bool
streams cfg redis_available = str_eq cfg.publisher "redis_stream" && redis_available

module _ (day_of : ℕ → String) where
  -- Each sink gets the event whatever the others do: the ledger exactly if there is a database, the
  -- stream if it is configured, Redis is there and takes it, and the log by default and where the
  -- configured sink is missing. The error is that of the stream, or else that of the ledger.
  publish_all_lem :
      (cfg : BillingConfig) (redis_available has_db : Bool) (f : Faults) (add_fails : Bool)
      (ev : BillingEvent) (s : Sinks)
      → publish_all day_of f add_fails ev (new_publisher cfg redis_available has_db) s ≡ (
        record {
          logged = if logs cfg redis_available has_db then ev ∷ s.logged else s.logged;
          stream = if streams cfg redis_available && not add_fails then ev ∷ s.stream else s.stream;
          db = if has_db then (publish_postgres day_of f ev s.db).0 else s.db;
        },
        if streams cfg redis_available && add_fails
            then some redis_stream_publisher
            else if has_db && not (publish_postgres day_of f ev s.db).1
            then some postgres_publisher
            else none,
      )
  unfolding publish_all publish_sink new_publisher
  publish_all_lem cfg redis_available has_db f add_fails ev s = ground arith

  unfoldable pub deliver : List Sink → Delivery → Sinks → Sinks
  deliver sinks d s = (publish_all day_of d.faults d.add_fails d.event sinks s).0

  unfoldable pub deliver_all : List Sink → List Delivery → Sinks → Sinks
  deliver_all sinks [] s = s
  deliver_all sinks (d ∷ ds) s = deliver_all sinks ds (deliver sinks d s)

  publish_postgres-IsBalanced :
      (f : Faults) (ev : BillingEvent) (db : Db)
      → IsBalanced day_of db
      → IsBalanced day_of (publish_postgres day_of f ev db).0
  unfolding publish_postgres
  publish_postgres-IsBalanced f ev db v =
      if_elim (λ (x : Db × Bool). IsBalanced day_of x.0) ev.billable _ _
        (record_billable_success-IsBalanced day_of f ev db v)
        (incr_usage_daily-IsBalanced day_of f ev.token_key (day_of ev.at_ms) ev.success_n db v)

  publish_all-IsBalanced :
      (f : Faults) (add_fails : Bool) (ev : BillingEvent) (sinks : List Sink) (s : Sinks)
      → IsBalanced day_of s.db
      → IsBalanced day_of (publish_all day_of f add_fails ev sinks s).0.db
  unfolding publish_all publish_sink
  publish_all-IsBalanced f add_fails ev [] s v = v
  publish_all-IsBalanced f add_fails ev (log_publisher ∷ ps) s v =
      publish_all-IsBalanced f add_fails ev ps (record s { logged = ev ∷ s.logged }) v
  publish_all-IsBalanced f add_fails ev (redis_stream_publisher ∷ ps) s v =
      publish_all-IsBalanced f add_fails ev ps
        (publish_sink day_of f add_fails ev redis_stream_publisher s).0
        (if_elim (λ (x : Sinks × Bool). IsBalanced day_of x.0.db) add_fails (s, false) _ v v)
  publish_all-IsBalanced f add_fails ev (postgres_publisher ∷ ps) s v =
      publish_all-IsBalanced f add_fails ev ps
        (record s { db = (publish_postgres day_of f ev s.db).0 })
        (publish_postgres-IsBalanced f ev s.db v)

  -- Whatever fails, and however often and in whatever order events are delivered to the sinks: in a
  -- database that starts balanced, no two rows of the ledger have one event id, the billable
  -- successes of each token and day are those of its rows in the ledger, and they are no more than
  -- its successes.
  pub deliver_all-IsBalanced :
      (sinks : List Sink) (ds : List Delivery) (s : Sinks)
      → IsBalanced day_of s.db
      → IsBalanced day_of (deliver_all sinks ds s).db
  unfolding deliver_all deliver
  deliver_all-IsBalanced sinks [] s v = v
  deliver_all-IsBalanced sinks (d ∷ ds) s v =
      deliver_all-IsBalanced sinks ds (deliver sinks d s)
        (publish_all-IsBalanced d.faults d.add_fails d.event sinks s v)

  -- Nothing of the database fails.
  abbrev pub IsSmooth : Delivery → Type 0
  IsSmooth d =
      (d.faults.begin_fails ≡ false)
      × (d.faults.insert_fails ≡ false)
      × (d.faults.usage_fails ≡ false)
      × (d.faults.commit ≡ committed)

  -- Every event has a success, and its id is new to the ledger and to the events before it.
  abbrev pub AllNew : List Delivery → List EventRow → Type 0
  AllNew [] rows = Unit {0}
  AllNew (d ∷ ds) rows =
      (0 < d.event.success_n)
      × (has_event d.event.event_id rows ≡ false)
      × All (λ e. str_eq d.event.event_id e.event.event_id ≡ false) ds
      × AllNew ds rows

  -- The successes of the events of a token on a day.
  pub events_on : String → String → List Delivery → ℕ
  events_on t d [] = 0
  events_on t d (x ∷ xs) =
      (if str_eq x.event.token_key t && str_eq (day_of x.event.at_ms) d
        then x.event.success_n
        else 0)
      + events_on t d xs

  success_on-publish_postgres :
      (t d : String) (x : Delivery) (db : Db)
      → IsSmooth x
      → 0 < x.event.success_n
      → has_event x.event.event_id db.billing_events ≡ false
      → success_on t d (publish_postgres day_of x.faults x.event db).0.usage_daily
        ≡ success_on t d db.usage_daily
          + (if str_eq x.event.token_key t && str_eq (day_of x.event.at_ms) d
              then x.event.success_n
              else 0)
  unfolding publish_postgres record_billable_success insert_event finish_tx incr_usage_daily
      commit_tx
  success_on-publish_postgres t d x db (b, i, g, c) pos new = ground (
    arith,
    success_on-upsert_usage t d x.event.token_key (day_of x.event.at_ms) x.event.success_n
        x.event.success_n db.usage_daily,
    success_on-upsert_usage t d x.event.token_key (day_of x.event.at_ms) x.event.success_n 0
        db.usage_daily,
  )

  has_event-publish_postgres :
      (x : Delivery) (id : String) (db : Db)
      → str_eq x.event.event_id id ≡ false
      → has_event id db.billing_events ≡ false
      → has_event id (publish_postgres day_of x.faults x.event db).0.billing_events ≡ false
  unfolding publish_postgres record_billable_success insert_event finish_tx incr_usage_daily
      commit_tx has_event
  has_event-publish_postgres x id db ne new = ground arith

  AllNew-after :
      (x : Delivery) (ds : List Delivery) (db : Db)
      → All (λ e. str_eq x.event.event_id e.event.event_id ≡ false) ds
      → AllNew ds db.billing_events
      → AllNew ds (publish_postgres day_of x.faults x.event db).0.billing_events
  AllNew-after x [] db ne new = tt
  AllNew-after x (d ∷ ds) db (ne, nes) (pos, new, apart, rest) = (
    pos,
    has_event-publish_postgres x d.event.event_id db ne new,
    apart,
    AllNew-after x ds db nes rest,
  )

  -- With the database as the only sink, where nothing of it fails and every event is new, the daily
  -- usage misses nothing: for each token and day its successes grow by those of its events.
  pub deliver_all-success_on :
      (t d : String) (ds : List Delivery) (s : Sinks)
      → All IsSmooth ds
      → AllNew ds s.db.billing_events
      → success_on t d (deliver_all (postgres_publisher ∷ []) ds s).db.usage_daily
        ≡ success_on t d s.db.usage_daily + events_on t d ds
  unfolding deliver_all deliver publish_all publish_sink events_on
  deliver_all-success_on t d [] s smooth new = omega arith
  deliver_all-success_on t d (x ∷ xs) s (sm, smooth) (pos, new, apart, rest) =
      let db' = (publish_postgres day_of x.faults x.event s.db).0 in
      let first = success_on-publish_postgres t d x s.db sm pos new in
      let others =
        deliver_all-success_on t d xs (record s { db = db' }) smooth
          (AllNew-after x xs s.db apart rest) in
      omega (arith, first, others)

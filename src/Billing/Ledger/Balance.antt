-- ===== src/Billing/Ledger/Balance.antt =====
-- The ledger and the daily usage agree, whatever fails and however often an event is delivered.
use rpc_node_gateway.Prelude.{
  ℕ, ◌+◌, ◌≤◌, ◌≡◌, refl, String, Bool, true, false, ◌&&◌, ◌||◌, List, [], ◌∷◌, ◌==◌, if◌then◌else◌,
  str_eq, eq_iff, if_elim, Bool-cases, inl, inr, arith,
}
use rpc_node_gateway.Model.{BillingEvent}
use rpc_node_gateway.Billing.Ledger.{
  EventRow, UsageRow, Db, Commit, committed, aborted, lost, Faults, has_event, row_of, insert_event,
  is_row, upsert_usage, incr_usage_daily, commit_tx, finish_tx, record_billable_success,
}

-- What the rows of a token and a day add up to: the successes, and the billable ones.
pub success_on : String → String → List UsageRow → ℕ
success_on t d [] = 0
success_on t d (r ∷ rs) = (if is_row t d r then r.success_count else 0) + success_on t d rs

pub billable_on : String → String → List UsageRow → ℕ
billable_on t d [] = 0
billable_on t d (r ∷ rs) = (if is_row t d r then r.billable_count else 0) + billable_on t d rs

pub success_on-upsert_usage :
    (t d token_key day : String) (s b : ℕ) (rows : List UsageRow)
    → success_on t d (upsert_usage token_key day s b rows)
      ≡ success_on t d rows + (if str_eq token_key t && str_eq day d then s else 0)
unfolding success_on upsert_usage
success_on-upsert_usage t d token_key day s b [] = ground arith
success_on-upsert_usage t d token_key day s b (r ∷ rs) = ground (
  arith,
  success_on-upsert_usage t d token_key day s b rs,
  eq_iff r.token_key t,
  eq_iff r.day d,
  eq_iff r.token_key token_key,
  eq_iff r.day day,
  eq_iff token_key t,
  eq_iff day d,
)

billable_on-upsert_usage :
    (t d token_key day : String) (s b : ℕ) (rows : List UsageRow)
    → billable_on t d (upsert_usage token_key day s b rows)
      ≡ billable_on t d rows + (if str_eq token_key t && str_eq day d then b else 0)
unfolding billable_on upsert_usage
billable_on-upsert_usage t d token_key day s b [] = ground arith
billable_on-upsert_usage t d token_key day s b (r ∷ rs) = ground (
  arith,
  billable_on-upsert_usage t d token_key day s b rs,
  eq_iff r.token_key t,
  eq_iff r.day d,
  eq_iff r.token_key token_key,
  eq_iff r.day day,
  eq_iff token_key t,
  eq_iff day d,
)

module _ (day_of : ℕ → String) where
  -- The billable successes that the ledger holds for a token and a day.
  pub billed_on : String → String → List EventRow → ℕ
  billed_on t d [] = 0
  billed_on t d (r ∷ rs) =
      (if r.billable && (str_eq r.token_key t && str_eq (day_of r.created_at) d)
        then r.success_n
        else 0)
      + billed_on t d rs

  -- No two rows have one id.
  abbrev pub UniqueIds : List EventRow → Type 0
  UniqueIds [] = Unit {0}
  UniqueIds (r ∷ rs) = (has_event r.event_id rs ≡ false) × UniqueIds rs

  pub record IsBalanced (db : Db) : Type 0 where
    pub unique : UniqueIds db.billing_events
    pub billable : (t d : String) → billable_on t d db.usage_daily ≡ billed_on t d db.billing_events
    pub within : (t d : String) → billable_on t d db.usage_daily ≤ success_on t d db.usage_daily

  -- Before the first event.
  pub empty-IsBalanced : IsBalanced (record { billing_events = []; usage_daily = [] })
  unfolding success_on billable_on billed_on
  empty-IsBalanced = record { unique = tt; billable = λ _ _. refl; within = λ _ _. omega arith }

  commit_tx-IsBalanced :
      (c : Commit) (before after : Db)
      → IsBalanced before
      → IsBalanced after
      → IsBalanced (commit_tx c before after).0
  unfolding commit_tx
  commit_tx-IsBalanced committed before after p q = q
  commit_tx-IsBalanced aborted before after p q = p
  commit_tx-IsBalanced lost before after p q = q

  -- A new row, with its usage.
  booked-IsBalanced :
      (ev : BillingEvent) (db : Db)
      → has_event ev.event_id db.billing_events ≡ false
      → IsBalanced db
      → IsBalanced (record {
        billing_events = row_of ev ∷ db.billing_events;
        usage_daily =
            upsert_usage ev.token_key
              (day_of ev.at_ms)
              ev.success_n
              (if ev.billable then ev.success_n else 0)
              db.usage_daily;
      })
  unfolding billed_on
  booked-IsBalanced ev db new v = record {
    unique = (new, v.unique);
    billable = λ t d. ground (
      arith,
      v.billable t d,
      billable_on-upsert_usage t d ev.token_key (day_of ev.at_ms) ev.success_n
          (if ev.billable then ev.success_n else 0) db.usage_daily,
    );
    within = λ t d. ground (
      arith,
      v.within t d,
      billable_on-upsert_usage t d ev.token_key (day_of ev.at_ms) ev.success_n
          (if ev.billable then ev.success_n else 0) db.usage_daily,
      success_on-upsert_usage t d ev.token_key (day_of ev.at_ms) ev.success_n
          (if ev.billable then ev.success_n else 0) db.usage_daily,
    );
  }

  -- A commit that writes the rows that are there.
  kept-IsBalanced :
      (db : Db) → IsBalanced db → IsBalanced (record db { billing_events = db.billing_events })
  kept-IsBalanced db v = v

  pub record_billable_success-IsBalanced :
      (f : Faults) (ev : BillingEvent) (db : Db)
      → IsBalanced db
      → IsBalanced (record_billable_success day_of f ev db).0
  unfolding record_billable_success insert_event finish_tx
  record_billable_success-IsBalanced f ev db v =
      if_elim (λ (x : Db × Bool). IsBalanced x.0) f.begin_fails _ _ v
        (elim (Bool-cases (f.insert_fails || ev.success_n == 0)) [
          | inl e ↦ rw e v
          | inr e ↦ elim (Bool-cases (has_event ev.event_id db.billing_events)) [
            | inl old ↦ rw (e, old) (commit_tx-IsBalanced f.commit db db v v)
            | inr new ↦
                rw (e, new)
                  (if_elim (λ (x : Db × Bool). IsBalanced x.0) f.usage_fails _ _ v
                    (commit_tx-IsBalanced f.commit db _ v (booked-IsBalanced ev db new v)))
          ]
        ])

  pub incr_usage_daily-IsBalanced :
      (f : Faults) (token_key day : String) (n : ℕ) (db : Db)
      → IsBalanced db
      → IsBalanced (incr_usage_daily f token_key day n 0 db).0
  unfolding incr_usage_daily
  incr_usage_daily-IsBalanced f token_key day n db v =
      if_elim (λ (x : Db × Bool). IsBalanced x.0) (n == 0 && 0 == 0) _ _ v
        (if_elim (λ (x : Db × Bool). IsBalanced x.0) f.usage_fails _ _ v
          (record {
            unique = v.unique;
            billable = λ t d. ground (
              arith,
              v.billable t d,
              billable_on-upsert_usage t d token_key day n 0 db.usage_daily,
            );
            within = λ t d. ground (
              arith,
              v.within t d,
              billable_on-upsert_usage t d token_key day n 0 db.usage_daily,
              success_on-upsert_usage t d token_key day n 0 db.usage_daily,
            );
          }))

  -- Once the ledger has the event, a further delivery changes nothing, whatever fails.
  pub record_billable_success_again :
      (f : Faults) (ev : BillingEvent) (db : Db)
      → has_event ev.event_id db.billing_events ≡ true
      → (record_billable_success day_of f ev db).0 ≡ db
  unfolding record_billable_success insert_event finish_tx commit_tx
  record_billable_success_again f ev db old = ground arith

  -- A delivery that succeeds leaves the event in the ledger.
  pub record_billable_success_done :
      (f : Faults) (ev : BillingEvent) (db : Db)
      → (record_billable_success day_of f ev db).1 ≡ true
      → has_event ev.event_id (record_billable_success day_of f ev db).0.billing_events ≡ true
  unfolding record_billable_success insert_event finish_tx commit_tx has_event
  record_billable_success_done f ev db ok = ground (arith, eq_iff ev.event_id ev.event_id)

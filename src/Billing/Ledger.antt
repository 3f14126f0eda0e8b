-- ===== src/Billing/Ledger.antt =====
-- internal/db/billing_repo.go, with the tables of migrations/001_init.sql that it writes. A statement
-- is what its SQL says; which statements fail, and how a commit ends, is an input (`Faults`). What
-- the columns `id` and `updated_at` hold is left out. `day_of` writes a time as its UTC day.
pub mod Balance
use rpc_node_gateway.Prelude.{
  ℕ, ◌+◌, String, Bool, true, false, ◌&&◌, ◌||◌, Option, none, some, List, [], ◌∷◌, ◌==◌,
  if◌then◌else◌, str_eq,
}
use rpc_node_gateway.Model.{BillingEvent}

-- A row of `billing_events`.
pub record EventRow : Type 0 where
  pub event_id : String
  pub token_key : String
  pub user_id : Option String
  pub plan_code : String
  pub chain_id : String
  pub methods : List String
  pub success_n : ℕ
  pub billable : Bool
  pub amount_cents : ℕ
  pub upstream : String
  pub latency_ms : ℕ
  pub client_ip : String
  pub created_at : ℕ

-- A row of `usage_daily`; its key is the token and the day.
pub record UsageRow : Type 0 where
  pub token_key : String
  pub day : String
  pub success_count : ℕ
  pub billable_count : ℕ

pub record Db : Type 0 where
  pub billing_events : List EventRow
  pub usage_daily : List UsageRow

-- A commit ends well, is undone, or is done although the caller gets an error.
pub data Commit : Type 0 where
  committed aborted lost : Commit

pub record Faults : Type 0 where
  pub begin_fails : Bool
  pub insert_fails : Bool
  pub usage_fails : Bool
  pub commit : Commit

-- `ON CONFLICT (event_id)`
unfoldable pub has_event : String → List EventRow → Bool
has_event id [] = false
has_event id (r ∷ rs) = str_eq r.event_id id || has_event id rs

abbrev pub row_of : BillingEvent → EventRow
row_of ev = record {
  event_id = ev.event_id;
  token_key = ev.token_key;
  user_id = if str_eq ev.user_id "" then none else some ev.user_id;
  plan_code = ev.plan;
  chain_id = ev.chain_id;
  methods = ev.methods;
  success_n = ev.success_n;
  billable = ev.billable;
  amount_cents = ev.amount_cents;
  upstream = ev.upstream;
  latency_ms = ev.latency_ms;
  client_ip = ev.client_ip;
  created_at = ev.at_ms;
}

-- The statement on `billing_events`, with the check on `success_n` first: `none` if it fails, or else
-- the rows and whether there is a new one.
unfoldable pub insert_event : Bool → BillingEvent → List EventRow → Option (List EventRow × Bool)
insert_event fails ev rows =
    if fails || ev.success_n == 0
    then none
    else if has_event ev.event_id rows
    then some (rows, false)
    else some (row_of ev ∷ rows, true)

-- `InsertBillingEvent`: the rows, and whether it succeeds.
unfoldable pub insert_billing_event : Faults → BillingEvent → Db → Db × Bool
insert_billing_event f ev db = elim (insert_event f.insert_fails ev db.billing_events) [
  | none ↦ (db, false)
  | some r ↦ (record db { billing_events = r.0 }, true)
]

abbrev pub is_row : String → String → UsageRow → Bool
is_row token_key day r = str_eq r.token_key token_key && str_eq r.day day

-- The statement on `usage_daily`.
unfoldable pub upsert_usage : String → String → ℕ → ℕ → List UsageRow → List UsageRow
upsert_usage token_key day s b [] =
    record { token_key = token_key; day = day; success_count = s; billable_count = b } ∷ []
upsert_usage token_key day s b (r ∷ rs) =
    let rest = upsert_usage token_key day s b rs in
    if is_row token_key day r
    then record r { success_count = r.success_count + s; billable_count = r.billable_count + b }
      ∷ rs
    else r ∷ rest

unfoldable pub incr_usage_daily : Faults → String → String → ℕ → ℕ → Db → Db × Bool
incr_usage_daily f token_key day success_n billable_n db =
    if success_n == 0 && billable_n == 0
    then (db, true)
    else if f.usage_fails
    then (db, false)
    else (
      record db { usage_daily = upsert_usage token_key day success_n billable_n db.usage_daily },
      true,
    )

-- `tx.Commit`, from the state before the transaction to the one that it leaves.
unfoldable pub commit_tx : Commit → Db → Db → Db × Bool
commit_tx committed before after = (after, true)
commit_tx aborted before after = (before, false)
commit_tx lost before after = (after, false)

module _ (day_of : ℕ → String) where
  -- What the transaction does once the first statement has succeeded.
  unfoldable pub finish_tx : Faults → BillingEvent → Db → List EventRow × Bool → Db × Bool
  finish_tx f ev db (rows, false) = commit_tx f.commit db (record db { billing_events = rows })
  finish_tx f ev db (rows, true) =
      let billable_n = if ev.billable then ev.success_n else 0 in
      let usage =
        upsert_usage ev.token_key (day_of ev.at_ms) ev.success_n billable_n db.usage_daily in
      if f.usage_fails
      then (db, false)
      else commit_tx f.commit db (record { billing_events = rows; usage_daily = usage })

  unfoldable pub record_billable_success : Faults → BillingEvent → Db → Db × Bool
  record_billable_success f ev db =
      if f.begin_fails
      then (db, false)
      else elim (insert_event f.insert_fails ev db.billing_events) [
        | none ↦ (db, false)
        | some r ↦ finish_tx f ev db r
      ]

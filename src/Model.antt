-- ===== src/Model.antt =====
-- internal/model/model.go. Instants are numbers of milliseconds; sets of methods are lists.
use rpc_node_gateway.Prelude.{ℕ, String, Bool, List, ℤ}

pub record Token : Type 0 where
  pub key : String
  pub name : String
  pub plan : String
  pub user_id : String
  pub price_per_success_cents : ℤ
  pub enabled : Bool
  pub billing_free : Bool
  pub token_rate_limit_per_second : ℤ
  pub token_rate_limit_burst : ℤ
  pub token_ip_rate_limit_per_second : ℤ
  pub token_ip_rate_limit_burst : ℤ
  pub daily_quota : ℤ
  pub denied_methods : List String

pub record BillingEvent : Type 0 where
  pub event_id : String
  pub token_key : String
  pub token_name : String
  pub user_id : String
  pub plan : String
  pub chain_id : String
  pub methods : List String
  pub success_n : ℕ
  pub billable : Bool
  pub amount_cents : ℕ
  pub transport : String
  pub event_kind : String
  pub upstream : String
  pub latency_ms : ℕ
  pub client_ip : String
  pub at_ms : ℕ

pub record RateLimitLog : Type 0 where
  pub token_key : String
  pub token_name : String
  pub chain_id : String
  pub client_ip : String
  pub reason : String
  pub at_ms : ℕ

-- ===== src/TokenStore/Tests.antt =====
-- Look-ups in a store from a file, and in one from a database with a disabled token.
use rpc_node_gateway.Prelude.{String, Bool, false, Option, some, List, [], ◌∷◌, pos}
use rpc_node_gateway.TokenStore.{ApiToken, PlanRow}

abbrev pub api_token : String → Bool → ApiToken
api_token key on = record {
  user_id = "u";
  token_key = key;
  name = "n";
  plan_code = "pro";
  enabled = on;
  billing_free = false;
}

abbrev pub plan_rows : List PlanRow
plan_rows =
    record {
      code = "pro";
      token_ip_rate_limit_per_second = pos 3;
      token_ip_rate_limit_burst = pos 6;
      token_rate_limit_per_second = pos 5;
      token_rate_limit_burst = pos 10;
      daily_quota = pos 100;
      denied_methods = "[]";
      price_per_success_cents = pos 1;
    }
    ∷ []

abbrev pub decode : String → Option (List String)
decode text = some []

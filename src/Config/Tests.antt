-- ===== src/Config/Tests.antt =====
-- A configuration as a file may hold it, before its defaults.
use rpc_node_gateway.Prelude.{
  ◌≡◌, ◌↔◌, refl, String, true, false, Option, none, some, lookup, [], ◌∷◌, pos,
}
use Prim.Native.Char.{Char}
use rpc_node_gateway.Config.{Config, Plan, Chain, NodeConfig, TokenConfig}
use rpc_node_gateway.Config.Defaults.{apply_defaults}
use rpc_node_gateway.Config.Validation.{
  validate, check_chains, check_switches, check_tokens, check_token, has_slash, loaded, load,
}
use rpc_node_gateway.Config.Validity.{IsValid, validate_iff}
use rpc_node_gateway.Config.Loading.{IsReady, load-IsReady}

abbrev pub node : NodeConfig
node = record { name = ""; url = "http://a"; ws_url = ""; weight = pos 0 }

abbrev pub chain : Chain
chain = record { name = "Ethereum"; nodes = node ∷ [] }

abbrev pub plan : Plan
plan = record {
  token_ip_rate_limit_per_second = pos 3;
  token_ip_rate_limit_burst = pos 0;
  token_rate_limit_per_second = pos 5;
  token_rate_limit_burst = pos 10;
  daily_quota = pos 100;
  denied_methods = "debug_traceCall" ∷ [];
}

abbrev pub token : TokenConfig
token = record { key = "k"; plan = "free"; name = "n"; enabled = true; billing_free = true }

abbrev pub sample : Config
sample = record {
  server = record {
    addr = "";
    read_timeout = pos 0;
    write_timeout = pos 0;
    domains = "rpc.example.com" ∷ [];
  };
  redis = record { enabled = false; addr = ""; password = ""; db = pos 0 };
  database = record {
    enabled = false;
    dsn = "";
    max_conns = pos 0;
    min_conns = pos 0;
    token_refresh = pos 0;
  };
  plans = ("free", plan) ∷ [];
  tokens = token ∷ [];
  chains = ("eth", chain) ∷ [];
  health_check = record {
    interval = pos 0;
    timeout = pos 0;
    unhealthy_threshold = pos 0;
    healthy_threshold = pos 0;
  };
  billing = record { publisher = ""; stream_key = "" };
  admin = record {
    enabled = false;
    jwt = record {
      secret = "";
      issuer = "";
      subject = "";
      ttl = pos 0;
      rotate_every = pos 0;
      rotate_on_start = true;
      revoke_previous = true;
      cleanup_retention = pos 0;
      log_token = false;
    };
  };
  web_socket = record {
    enabled = true;
    max_connections_per_token = pos 0;
    max_subscriptions_per_conn = pos 0;
    notification_bill_units = pos 0;
  };
}

abbrev pub same_char : Char → Char
same_char c = c

abbrev pub parse : String → Option Config
parse text = some sample

pub load-sample : load same_char parse (some "") ≡ loaded (apply_defaults same_char sample)
unfolding load validate check_chains check_switches check_tokens check_token has_slash lookup
load-sample = refl

validate_iff_example : (validate sample ≡ none) ↔ IsValid sample
validate_iff_example = validate_iff sample

load-IsReady_example : IsReady (apply_defaults same_char sample)
load-IsReady_example =
    load-IsReady same_char parse (some "") (apply_defaults same_char sample) load-sample

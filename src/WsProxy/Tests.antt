-- ===== src/WsProxy/Tests.antt =====
-- Runs of a session and of the guard.
use rpc_node_gateway.Prelude.{
  ◌≡◌, All, refl, none, some, String, true, false, List, [], ◌∷◌, pos, trim_space, has_prefix,
  lookup,
}
use rpc_node_gateway.Stats.{new_collector}
use rpc_node_gateway.Stats.Tests.{meta}
use rpc_node_gateway.RateLimit.{allow, daily_used, local_allow, allow_bucket}
use rpc_node_gateway.RateLimit.Tests.{counting_lib, limiter, token, env}
use rpc_node_gateway.Filter.{denied_among, is_denied, check_methods}
use rpc_node_gateway.JsonRpc.{
  Envelope, ok, request, classify, classify_envelope, parse_methods, single_method,
  parse_request_meta, normalize_id,
}
use rpc_node_gateway.JsonRpc.Tests.{codec}
use rpc_node_gateway.WsProxy.{Session, Moment, World, handle_inbound, admit, inspect, register}
use rpc_node_gateway.Config.{WebSocketConfig}
use rpc_node_gateway.Balancer.{Node}
use rpc_node_gateway.WsProxy.Serving.{Arrival, Gate, from_client, from_node, serve_http}
use rpc_node_gateway.WsProxy.Serving.Slots.{serve_http-held}
use rpc_node_gateway.WsProxy.Guard.{new_conn_guard, acquire, held}
use rpc_node_gateway.WsProxy.Guard.Limit.{
  State, accept, Reach, here, next, initial, IsCounted, Reach_initial-IsCounted,
}
use rpc_node_gateway.WsProxy.Inbound.{
  is_allowed, Answered, handle_inbound-Answered, handle_inbound-Passed, handle_inbound_unchecked,
}

abbrev session : Session
session = record {
  token = token;
  meta = meta;
  chain_id = "eth";
  client_ip = "ip";
  upstream = "wss://a";
  pending = ("1", record { method = "eth_call"; sub_kind = "" }) ∷ [];
  subs = [];
  sub_n = 0;
  bill_units = pos 1;
  max_subs = pos 2;
}

abbrev world : World counting_lib
world = record { limiter = limiter; stats = new_collector; published = []; to_client = [] }

abbrev moment : Moment
moment = record { env = env; incr_fails = false; event_id = "e" }

abbrev sent_envelope : Envelope
sent_envelope = record {
  jsonrpc = "2.0";
  method = "eth_sendRawTransaction";
  id = none;
  error = none;
  result = none;
  params = none;
}

handle_inbound-Answered_example :
    Answered session world (handle_inbound codec moment "call" session world)
handle_inbound-Answered_example = handle_inbound-Answered codec moment "call" session world

call_request : classify codec "call" ≡ request
unfolding classify classify_envelope trim_space has_prefix
call_request = refl

call_passes : (handle_inbound codec moment "call" session world).0 ≡ true
unfolding handle_inbound admit inspect register check_methods denied_among is_denied parse_methods
    single_method parse_request_meta allow daily_used allow_bucket local_allow classify
    classify_envelope trim_space has_prefix normalize_id
call_passes = refl

handle_inbound-Passed_example :
    (methods : List String) × (parse_methods codec "call" ≡ ok methods)
    × All (λ d. is_denied token.denied_methods d ≡ false) methods
handle_inbound-Passed_example =
    handle_inbound-Passed codec moment "call" session world call_request call_passes

handle_inbound_unchecked_example :
    ((handle_inbound codec moment "send" session world).0
      ≡ is_allowed (allow counting_lib env limiter token "eth" "ip").0)
    × ((handle_inbound codec moment "send" session world).1 ≡ session)
unfolding trim_space has_prefix
handle_inbound_unchecked_example =
    handle_inbound_unchecked codec moment "send" sent_envelope session world refl refl refl refl
      refl

abbrev opened : State
opened = record { guard = (acquire (initial 1).guard "k").0; open_conns = "k" ∷ [] }

accepted : (acquire (initial 1).guard "k").1 ≡ true
unfolding acquire held new_conn_guard lookup
accepted = refl

reached : Reach (initial 1) opened
reached = next here (accept "k" accepted refl)

Reach_initial-IsCounted_example : IsCounted 1 opened
Reach_initial-IsCounted_example = Reach_initial-IsCounted 0 reached

abbrev ws_config : WebSocketConfig
ws_config = record {
  enabled = true;
  max_connections_per_token = pos 1;
  max_subscriptions_per_conn = pos 2;
  notification_bill_units = pos 1;
}

abbrev ws_node : Node
ws_node = record {
  name = "a";
  url = "https://a";
  ws_url = "wss://a";
  weight = 1;
  healthy = true;
  fail_count = pos 0;
  ok_count = pos 0;
}

abbrev gate : Gate counting_lib
gate = record {
  pools =
      (
        "eth",
        record {
          chain_id = "eth";
          nodes = ws_node ∷ [];
          rr = 0;
          unhealthy_threshold = pos 3;
          healthy_threshold = pos 2;
        },
      )
      ∷ [];
  guard = new_conn_guard (pos 1);
  limiter = limiter;
  stats = new_collector;
  published = [];
}

-- A call, its answer, and a client that goes while an answer is on its way.
abbrev arrival : Arrival
arrival = record {
  token = some token;
  chain_id = "eth";
  client_ip = "ip";
  upgrade_fails = false;
  dial_fails = false;
  now = 1;
  frames =
      from_client moment (some "call") false
      ∷ from_node moment (some "answer") false
      ∷ from_client moment none false
      ∷ from_node moment (some "answer") false
      ∷ [];
}

serve_http-held_example :
    held (serve_http codec ws_config arrival gate).1.guard "k" ≡ held gate.guard "k"
serve_http-held_example = serve_http-held codec ws_config arrival gate "k"

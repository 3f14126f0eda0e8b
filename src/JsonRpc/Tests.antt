-- ===== src/JsonRpc/Tests.antt =====
-- A decoder for the tests, which reads one request, one batch and one notification.
use rpc_node_gateway.Prelude.{
  ◌≡◌, refl, String, false, none, some, [], ◌∷◌, str_eq, if◌then◌else◌, trim_space,
}
use rpc_node_gateway.JsonRpc.{Codec, Request, parse_methods}
use rpc_node_gateway.JsonRpc.Methods.{calls, NamedCalls, parse_methods-NamedCalls}

abbrev call : String → Request
call method = record { method = method; id = some "1" }

abbrev pub codec : Codec
codec = record {
  request = λ s. if str_eq s "call" then some (call "eth_call") else none;
  requests = λ s. some (call "eth_call" ∷ call "eth_chainId" ∷ []);
  response = λ s. some (record { error = none; id = some "1" });
  responses = λ s. none;
  envelope = λ s. some (record {
    jsonrpc = "2.0";
    method = "eth_sendRawTransaction";
    id = if str_eq s "call" then some "1" else none;
    error = none;
    result = none;
    params = none;
  });
  request_meta = λ s. some (record { method = "eth_call"; id = some "1"; params = none });
  response_meta = λ s. some (record { id = some "1"; error = none; result = some "0x1" });
  notification = λ s. none;
  text = λ s. none;
  number = λ s. some s;
  array = λ s. none;
}

trimmed : str_eq (trim_space "[batch]") "" ≡ false
unfolding trim_space
trimmed = refl

parse_methods-NamedCalls_example :
    NamedCalls (calls codec (trim_space "[batch]")) (parse_methods codec "[batch]")
parse_methods-NamedCalls_example = parse_methods-NamedCalls codec "[batch]" trimmed

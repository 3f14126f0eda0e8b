-- ===== src/Gateway/Tests.antt =====
-- A request on the route.
use rpc_node_gateway.Prelude.{
  ◌≡◌, refl, String, Option, none, str_eq, trim_space, not, ◌||◌, if◌then◌else◌, negsuc, some, [],
  ◌∷◌, Assoc,
}
use Prim.Native.Char.{Char}
use rpc_node_gateway.Config.Hosts.{before_colon, normalize_host, normalize_loop, binds, binds_any}
use rpc_node_gateway.Stats.{inc_domain_rejected}
use rpc_node_gateway.Gateway.ClientIp.{client_ip, forwarded_ip, peer_ip, before_comma}
use rpc_node_gateway.Gateway.Entry.{Incoming, hit_of, enter, enter-normalize_loop}
use rpc_node_gateway.Model.{Token}
use rpc_node_gateway.RateLimit.Tests.{token, env}
use rpc_node_gateway.JsonRpc.Tests.{codec}
use rpc_node_gateway.Proxy.Tests.{world, client, moment}
use rpc_node_gateway.Gateway.{Hit, refused, handle}
use rpc_node_gateway.Gateway.Screening.{Admitted, Screened, handle-Screened}

abbrev tokens : Assoc Token
tokens = ("k", token) ∷ []

abbrev hit : Hit
hit = record { path_token = "k"; chain_id = "eth"; client_ip = "ip"; body = some "call" }

handle-Screened_example :
    Screened (Admitted codec tokens hit) world (handle codec client env moment tokens hit world)
handle-Screened_example = handle-Screened codec client env moment tokens hit world

abbrev same_char : Char → Char
same_char c = c

-- The host of an address with its port.
abbrev pub split_host : String → Option String
split_host remote_addr =
    let host = before_colon remote_addr in if str_eq host remote_addr then none else some host

abbrev pub incoming : Incoming
incoming = record {
  host = "Other.example.com:80";
  origin = record {
    x_real_ip = " ";
    x_forwarded_for = "198.51.100.7 , 10.0.0.1";
    remote_addr = "10.0.0.1:5000";
  };
  path_token = "k";
  chain_id = "eth";
  body = some "call";
}

-- The first address that was forwarded counts, and without the headers that of the peer.
forwarded-client_ip : client_ip split_host incoming.origin ≡ "198.51.100.7"
unfolding client_ip forwarded_ip before_comma trim_space
forwarded-client_ip = refl

peer-client_ip : client_ip split_host (record incoming.origin { x_forwarded_for = "" }) ≡ "10.0.0.1"
unfolding client_ip forwarded_ip peer_ip before_comma before_colon trim_space
peer-client_ip = refl

-- A request for a host that is not bound.
enter-normalize_loop_example :
    enter same_char split_host
      (normalize_loop same_char [] ("rpc.example.com" ∷ []))
      codec
      client
      env
      moment
      tokens
      incoming
      world
    ≡ (if not (binds_any same_char ("rpc.example.com" ∷ []))
          || binds same_char
              ("rpc.example.com" ∷ [])
              (normalize_host same_char "Other.example.com:80")
        then handle codec client env moment tokens (hit_of split_host incoming) world
        else (
          refused 403 (negsuc 32009),
          record world {
            books = record world.books { stats = inc_domain_rejected env.now world.books.stats };
          },
        ))
enter-normalize_loop_example =
    enter-normalize_loop same_char split_host ("rpc.example.com" ∷ []) codec client env moment
      tokens incoming world

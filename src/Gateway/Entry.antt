-- ===== src/Gateway/Entry.antt =====
-- The check of the host before the route: `Domain` of internal/middleware/middleware.go with
-- `HostAllowed` of internal/config/config.go. `lower` is Go's `unicode.ToLower`.
use rpc_node_gateway.Prelude.{
  ℕ, ◌≡◌, refl, String, Option, not, ◌||◌, List, [], negsuc, if◌then◌else◌, Assoc,
}
use Prim.Native.Char.{Char}
use rpc_node_gateway.Config.Hosts.{
  normalize_host, normalize_loop, host_allowed, binds, binds_any, host_allowed-normalize_loop,
}
use rpc_node_gateway.Model.{Token}
use rpc_node_gateway.Stats.{inc_domain_rejected}
use rpc_node_gateway.RateLimit.{Lib, Env}
use rpc_node_gateway.JsonRpc.{Codec}
use rpc_node_gateway.Proxy.{Moment, Answer, World, Client}
use rpc_node_gateway.Gateway.ClientIp.{Origin, client_ip}
use rpc_node_gateway.Gateway.{Hit, refused, Next, handle}

-- A POST request to `/{token}/{chain}`; `body` is `none` if reading it fails.
pub record Incoming : Type 0 where
  pub host : String
  pub origin : Origin
  pub path_token : String
  pub chain_id : String
  pub body : Option String

unfoldable pub hit_of : (String → Option String) → Incoming → Hit
hit_of split_host r = record {
  path_token = r.path_token;
  chain_id = r.chain_id;
  client_ip = client_ip split_host r.origin;
  body = r.body;
}

-- `Domain`
unfoldable pub domain :
    {A : Type 0} {lib : Lib} → (Char → Char) → ℕ → List String → String → Next A lib → Next A lib
domain lower now domains host next w = if host_allowed lower domains host then next w else (
  refused 403 (negsuc 32009),
  record w { books = record w.books { stats = inc_domain_rejected now w.books.stats } },
)

module _ {lib : Lib} (lower : Char → Char) (split_host : String → Option String) where
  -- The POST route with its check of the host, and the address that its middlewares and the proxy use.
  unfoldable pub enter :
      List String → Codec → Client → Env → Moment → Assoc Token → Incoming → Next Answer lib
  enter domains codec client env m tokens r =
      domain lower env.now domains r.host (handle codec client env m tokens (hit_of split_host r))

  -- Behind the domains that a loaded configuration keeps, a request reaches the route exactly if one of
  -- the domains as written stands for its host, both in their normal form, or if none has a normal form
  -- that is not empty; otherwise it gets status 403, and only the counter of rejected hosts changes.
  pub enter-normalize_loop :
      (ds : List String) (codec : Codec) (client : Client) (env : Env) (m : Moment)
      (tokens : Assoc Token) (r : Incoming) (w : World lib)
      → enter (normalize_loop lower [] ds) codec client env m tokens r w ≡ (
          if not (binds_any lower ds) || binds lower ds (normalize_host lower r.host)
          then handle codec client env m tokens (hit_of split_host r) w
          else (
            refused 403 (negsuc 32009),
            record w {
              books = record w.books { stats = inc_domain_rejected env.now w.books.stats };
            },
          ))
  unfolding enter domain
  enter-normalize_loop ds codec client env m tokens r w =
      rw (host_allowed-normalize_loop lower ds r.host) refl

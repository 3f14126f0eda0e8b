-- ===== src/Gateway/ClientIp.antt =====
-- internal/httputil/clientip.go: the address of a client. `split_host` is `net.SplitHostPort`, less
-- the port; an error is `none`.
use rpc_node_gateway.Prelude.{String, Option, none, some, if◌then◌else◌, str_eq, trim_space, ◌==◌}
use Prim.Native.Char.{code}

-- What a request says of its origin; a header that is not set is empty.
pub record Origin : Type 0 where
  pub x_real_ip : String
  pub x_forwarded_for : String
  pub remote_addr : String

-- The first part of `strings.Split` at a comma.
unfoldable pub before_comma : String → String
before_comma String.[] = ""
before_comma (String.◌∷◌ c s) =
    let rest = before_comma s in if code c == 44 then "" else String.◌∷◌ c rest

module _ (split_host : String → Option String) where
  unfoldable pub peer_ip : String → String
  peer_ip remote_addr = elim (split_host remote_addr) [ none ↦ remote_addr | some host ↦ host ]

  -- From the header `X-Forwarded-For` on; where that is empty, so is its first part.
  unfoldable pub forwarded_ip : Origin → String
  forwarded_ip o =
      let ip = trim_space (before_comma o.x_forwarded_for) in
      if str_eq ip "" then peer_ip o.remote_addr else ip

  unfoldable pub client_ip : Origin → String
  client_ip o = let ip = trim_space o.x_real_ip in if str_eq ip "" then forwarded_ip o else ip

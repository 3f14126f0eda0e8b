-- ===== src/Balancer/WsUrl.antt =====
-- `DeriveWSURL`, scheme by scheme.
use rpc_node_gateway.Prelude.{
  ◌≡◌, refl, String, str_append, has_prefix-append, trim_prefix-append, has_prefix-differ,
}
use rpc_node_gateway.Balancer.{derive_ws_url}

-- Where no WebSocket URL is configured, https becomes wss and http becomes ws before the same rest,
-- and a ws or wss URL stays as it is.
pub derive_ws_url_schemes :
    (rest : String)
    → (derive_ws_url (str_append "https://" rest) "" ≡ str_append "wss://" rest)
      × (derive_ws_url (str_append "http://" rest) "" ≡ str_append "ws://" rest)
      × (derive_ws_url (str_append "wss://" rest) "" ≡ str_append "wss://" rest)
      × (derive_ws_url (str_append "ws://" rest) "" ≡ str_append "ws://" rest)
unfolding derive_ws_url
derive_ws_url_schemes rest = (
  rw (has_prefix-append "https://" rest, trim_prefix-append "https://" rest),
  rw (
    has_prefix-differ "http://" "https://" rest refl,
    has_prefix-append "http://" rest,
    trim_prefix-append "http://" rest,
  ),
  rw (
    has_prefix-differ "wss://" "https://" rest refl,
    has_prefix-differ "wss://" "http://" rest refl,
    has_prefix-append "wss://" rest,
  ),
  rw (
    has_prefix-differ "ws://" "https://" rest refl,
    has_prefix-differ "ws://" "http://" rest refl,
    has_prefix-differ "ws://" "wss://" rest refl,
    has_prefix-append "ws://" rest,
  ),
)

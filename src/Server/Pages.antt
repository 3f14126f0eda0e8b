-- ===== src/Server/Pages.antt =====
-- What the admin pages keep.
use Prim.Native.Char.{Char}
use rpc_node_gateway.Prelude.{◌<◌, String, true, Option, none, some, List, length, Assoc, inl, inr}
use rpc_node_gateway.Config.{Config, NodeConfig}
use rpc_node_gateway.Model.{Token}
use rpc_node_gateway.Balancer.{Pool, replace_nodes}
use rpc_node_gateway.Balancer.Supply.{Use, use_pool}
use rpc_node_gateway.Stats.Keeping.{Kept, register_tokens-IsConsistent}
use rpc_node_gateway.Stats.Views.{snapshot}
use rpc_node_gateway.AdminJwt.{Jwt}
use rpc_node_gateway.AdminJwt.Store.{Store}
use rpc_node_gateway.AdminJwt.Rotator.{Validator}
use rpc_node_gateway.TokenStore.{list_meta}
use rpc_node_gateway.Admin.{
  PageRequest, Page, overview, list_tokens, upstreams, token_stats, reload_nodes_page, Desk,
  show_page, serve_page,
}
use rpc_node_gateway.Admin.Access.{serve_page-cases}
use rpc_node_gateway.Start.{hang_up, reload_upstreams}
use rpc_node_gateway.Server.Pools.{KeepsPools, same-KeepsPools, hang_up-KeepsPools}

module _ (P : Pool → Type 0) (on_use : (a : Use) (p : Pool) → P p → P (use_pool a p))
    (on_replace : (p : Pool) (cfgs : List NodeConfig)
      → 0 < length cfgs
      → P p
      → P (replace_nodes p cfgs))
    (lower : Char → Char) (decode : String → Option Config) where
  -- A page changes the desk that it is given.
  abbrev pub KeepsDesk : Desk → Desk → Type 0
  KeepsDesk d d' = Kept d.stats d'.stats × KeepsPools P on_use on_replace d.registry d'.registry

  show_page-KeepsDesk :
      (tokens : Assoc Token) (p : Page) (d : Desk)
      → KeepsDesk d (show_page lower decode true tokens p d).1
  unfolding show_page
  show_page-KeepsDesk tokens overview d = (
    unfold snapshot in register_tokens-IsConsistent d.stats (list_meta tokens),
    same-KeepsPools P on_use on_replace d.registry,
  )
  show_page-KeepsDesk tokens list_tokens d = (
    unfold snapshot in register_tokens-IsConsistent d.stats (list_meta tokens),
    same-KeepsPools P on_use on_replace d.registry,
  )
  show_page-KeepsDesk tokens upstreams d = (λ h. h, same-KeepsPools P on_use on_replace d.registry)
  show_page-KeepsDesk tokens (token_stats key) d = (
    register_tokens-IsConsistent d.stats (list_meta tokens),
    same-KeepsPools P on_use on_replace d.registry,
  )
  show_page-KeepsDesk tokens (reload_nodes_page file) d = (
    λ h. h,
    unfold reload_upstreams hang_up in
        hang_up-KeepsPools P on_use on_replace lower decode file d.registry,
  )

  pub serve_page-KeepsDesk :
      {S : Type 0} (store : Store S) (jwt : Jwt) (v : Option Validator) (tokens : Assoc Token)
      (s : S) (r : PageRequest) (d : Desk)
      → KeepsDesk d (serve_page lower decode store jwt v true tokens s r d).1
  unfolding serve_page
  serve_page-KeepsDesk store jwt none tokens s r d =
      (λ h. h, same-KeepsPools P on_use on_replace d.registry)
  serve_page-KeepsDesk store jwt (some v) tokens s r d =
      elim (serve_page-cases lower decode store jwt v true tokens s r d) [
        | inl e ↦ rw e (λ h. h, same-KeepsPools P on_use on_replace d.registry)
        | inr (claims, accepted, e) ↦ rw e (show_page-KeepsDesk tokens r.page d)
      ]

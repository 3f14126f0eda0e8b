-- ===== src/Admin.antt =====
-- internal/admin/handler.go: the admin pages behind their bearer token. `Registry` is set, as main.go
-- sets it. The texts of the errors are left out.
pub mod Access
pub mod Tests
use rpc_node_gateway.Prelude.{
  ℕ, ◌+◌, String, Bool, true, false, not, ◌&&◌, Option, none, some, List, [], ◌∷◌, ◌==◌, leb,
  if◌then◌else◌, str_eq, trim_space, Assoc,
}
use Prim.Native.Char.{Char, code}
use rpc_node_gateway.Config.{Config}
use rpc_node_gateway.Model.{Token}
use rpc_node_gateway.Balancer.{Registry}
use rpc_node_gateway.Balancer.Views.{NodeView, registry_views}
use rpc_node_gateway.Stats.{Metrics, no_metrics, TokenMeta, Collector, register_tokens}
use rpc_node_gateway.Stats.Views.{TokenView, Overview, view, snapshot, token_snapshot}
use rpc_node_gateway.TokenStore.{list_meta}
use rpc_node_gateway.Start.{Reloaded, done, reload_upstreams}
use rpc_node_gateway.AdminJwt.{Claims, Jwt}
use rpc_node_gateway.AdminJwt.Store.{Store}
use rpc_node_gateway.AdminJwt.Rotator.{Validator, validate}

pub data Page : Type 0 where
  overview list_tokens upstreams : Page
  token_stats : String → Page
  reload_nodes_page : Option String → Page

-- A request for a page, with the clock that it meets and whether the store fails.
pub record PageRequest : Type 0 where
  pub authorization : String
  pub access_token : String
  pub page : Page
  pub parsed_at : ℕ
  pub checked_at : ℕ
  pub store_fails : Bool

pub data PageReply : Type 0 where
  unauthorized not_found : PageReply
  overview_of : Overview → PageReply
  tokens_of : ℕ → List TokenView → PageReply
  token_of : TokenView → PageReply
  upstreams_of : Assoc (List NodeView) → PageReply
  reload_done : Assoc (List NodeView) → PageReply
  reload_failed : Reloaded → PageReply

-- What the pages read and change.
pub record Desk : Type 0 where
  pub stats : Collector
  pub registry : Registry

-- A letter of ASCII in its lower case.
abbrev pub ascii_lower : ℕ → ℕ
ascii_lower c = if leb 65 c && leb c 90 then c + 32 else c

-- The rest behind a prefix, by `strings.EqualFold`; the prefix is ASCII in lower case, with letters
-- that no other character folds to.
unfoldable pub strip_fold : String → String → Option String
strip_fold String.[] s = some s
strip_fold (String.◌∷◌ c p) String.[] = none
strip_fold (String.◌∷◌ c p) (String.◌∷◌ d s) =
    let rest = strip_fold p s in if ascii_lower (code d) == code c then rest else none

unfoldable pub extract_bearer : String → String → String
extract_bearer authorization access_token = elim (strip_fold "bearer " authorization) [
  | some rest ↦ trim_space rest
  | none ↦ trim_space access_token
]

unfoldable pub find_meta : List TokenMeta → String → Option TokenMeta
find_meta [] key = none
find_meta (m ∷ ms) key = if str_eq m.key key then some m else find_meta ms key

-- `tokenStats`, for a token without counters.
abbrev pub blank_view : TokenMeta → TokenView
blank_view meta = record {
  token_key = meta.key;
  token_name = meta.name;
  plan = meta.plan;
  billing_free = meta.billing_free;
  enabled = meta.enabled;
  last_request = none;
  metrics = view no_metrics;
  by_chain = [];
}

unfoldable pub show_token : List TokenMeta → String → Collector → PageReply
show_token metas key c = elim (token_snapshot key c) [
  | some v ↦ token_of v
  | none ↦ elim (find_meta metas key) [ none ↦ not_found | some meta ↦ token_of (blank_view meta) ]
]

unfoldable pub reload_reply : Reloaded → Assoc (List NodeView) → PageReply
reload_reply done views = reload_done views
reload_reply e views = reload_failed e

module _ (lower : Char → Char) (decode : String → Option Config) where
  -- The pages, behind `auth`; `has_path` says that the path of the configuration is set.
  unfoldable pub show_page : Bool → Assoc Token → Page → Desk → PageReply × Desk
  show_page has_path tokens overview d =
      let r = snapshot (list_meta tokens) d.stats in (overview_of r.0, record d { stats = r.1 })
  show_page has_path tokens list_tokens d =
      let r = snapshot (list_meta tokens) d.stats in
      (tokens_of r.0.token_count r.0.tokens, record d { stats = r.1 })
  show_page has_path tokens upstreams d = (upstreams_of (registry_views d.registry), d)
  show_page has_path tokens (token_stats key) d =
      let c = register_tokens d.stats (list_meta tokens) in
      (show_token (list_meta tokens) key c, record d { stats = c })
  show_page has_path tokens (reload_nodes_page file) d =
      let r = reload_upstreams lower decode true has_path file d.registry in
      (reload_reply r.1 (registry_views r.0), record d { registry = r.0 })

  module _ {S : Type 0} (store : Store S) (jwt : Jwt) where
    -- `auth` with the page behind it; no validator means that none is configured.
    unfoldable pub serve_page :
        Option Validator → Bool → Assoc Token → S → PageRequest → Desk → PageReply × Desk
    serve_page none has_path tokens s r d = (unauthorized, d)
    serve_page (some v) has_path tokens s r d =
        let raw = extract_bearer r.authorization r.access_token in
        if str_eq raw ""
        then (unauthorized, d)
        else elim (validate store jwt v r.parsed_at r.checked_at r.store_fails raw s) [
          | none ↦ (unauthorized, d)
          | some claims ↦ show_page has_path tokens r.page d
        ]

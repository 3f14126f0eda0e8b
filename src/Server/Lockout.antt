-- ===== src/Server/Lockout.antt =====
-- A token that the database no longer grants.
use rpc_node_gateway.Prelude.{
  ℕ, ◌≡◌, refl, ap, ◌∙◌, ◌&&◌, String, Bool, true, false, Option, none, some, List, [], ◌∷◌,
  trim_space, Assoc, All, if_elim, arith,
}
use Prim.Native.Char.{Char}
use rpc_node_gateway.Config.{Config}
use rpc_node_gateway.Config.Hosts.{host_allowed}
use rpc_node_gateway.Model.{Token}
use rpc_node_gateway.Balancer.{Registry}
use rpc_node_gateway.RateLimit.{Lib, Env}
use rpc_node_gateway.Proxy.{Client}
use rpc_node_gateway.Proxy as Proxy
use rpc_node_gateway.Gateway.{Outcome, refused, answered, find_token, Next, path_auth, handle}
use rpc_node_gateway.Gateway.Cases.{path_auth-cases}
use rpc_node_gateway.Gateway.Entry.{Incoming, hit_of, domain, enter}
use rpc_node_gateway.TokenStore.{Tick, reload}
use rpc_node_gateway.TokenStore.Reloads.{active_row, model_of, reload-find_token}
use rpc_node_gateway.AdminJwt.Store.{Store}
use rpc_node_gateway.Server.{Server, Libraries}
use rpc_node_gateway.Server.Routing.{
  Upgrade, Request, health, asks, posts, upgrades, Served, is_up, no_route, shows, replies,
  upgraded, is_routed, world_of, put_world, upgrade, identify, get_ws, post_rpc, show, serve,
}
use rpc_node_gateway.Server.Life.{
  Event, requested, hung_up, checked, refreshed, rotated, refreshes, rotates, step, run,
}

-- The token that a request for a chain names.
abbrev pub key_of : Request → Option String
key_of health = none
key_of (asks r) = none
key_of (posts r client env m) = some (trim_space r.path_token)
key_of (upgrades r u) = some (trim_space r.path_token)

abbrev is_refused : {A : Type 0} → Outcome A → Bool
is_refused (refused status code) = true
is_refused (answered a) = false

-- chi has no route, or a middleware refuses.
abbrev pub turns_away : {lib : Lib} → Served lib → Bool
turns_away is_up = false
turns_away no_route = true
turns_away (shows page) = false
turns_away (replies o) = is_refused o
turns_away (upgraded o) = is_refused o

abbrev pub is_refresh : Event → Bool
is_refresh (requested r) = false
is_refresh (hung_up file) = false
is_refresh (checked id client) = false
is_refresh (refreshed t) = true
is_refresh (rotated turn) = false

-- A refusal that leaves the pools alone.
abbrev Refuses : {A : Type 0} {lib : Lib} → Registry → Outcome A × Proxy.World lib → Type 0
Refuses g (o, w) = (is_refused o ≡ true) × (w.registry ≡ g)

module _ {lib : Lib} where
  domain-Refuses :
      {A : Type 0} (lower : Char → Char) (now : ℕ) (domains : List String) (host : String)
      (next : Next A lib) (w : Proxy.World lib)
      → Refuses w.registry (next w)
      → Refuses w.registry (domain lower now domains host next w)
  unfolding domain
  domain-Refuses lower now domains host next w h =
      if_elim (Refuses w.registry) (host_allowed lower domains host) _ _ h (refl, refl)

  path_auth-Refuses :
      {A : Type 0} (now : ℕ) (tokens : Assoc Token) (key : String) (next : Token → Next A lib)
      (w : Proxy.World lib)
      → find_token tokens (trim_space key) ≡ none
      → Refuses w.registry (path_auth now tokens key next w)
  path_auth-Refuses now tokens key next w gone =
      path_auth-cases (Refuses w.registry) now tokens key next w (refl, refl)
        (λ token known. absurd (ground arith))

module _ (libs : Libraries) {lib : Lib} {S : Type 0} (store : Store S) where
  -- The answer turns the request away and the pools stay.
  abbrev IsTurnedAway : Server lib S → Served lib × Server lib S → Type 0
  IsTurnedAway s (r, s') = (turns_away r ≡ true) × (s'.registry ≡ s.registry)

  upgrade-IsTurnedAway :
      (cfg : Config) (r : Incoming) (u : Upgrade) (o : Outcome Token) (s : Server lib S)
      → is_refused o ≡ true
      → IsTurnedAway s (upgrade libs store cfg r u o s)
  unfolding upgrade
  upgrade-IsTurnedAway cfg r u (refused status code) s e = (refl, refl)
  upgrade-IsTurnedAway cfg r u (answered token) s e = cc

  get_ws-IsTurnedAway :
      (cfg : Config) (r : Incoming) (u : Upgrade) (s : Server lib S)
      → find_token s.tokens (trim_space r.path_token) ≡ none
      → IsTurnedAway s (get_ws libs store cfg r u s)
  unfolding get_ws identify
  get_ws-IsTurnedAway cfg r u s gone =
      let found = identify libs store cfg u.now r s in
      let (refuses, same) : Refuses s.registry found =
        domain-Refuses libs.lower u.now cfg.server.domains r.host
          (path_auth u.now s.tokens r.path_token (λ token w. (answered token, w))) (world_of s)
          (path_auth-Refuses u.now s.tokens r.path_token (λ token w. (answered token, w))
            (world_of s) gone) in
      let (away, same') = upgrade-IsTurnedAway cfg r u found.0 (put_world found.1 s) refuses in
      (away, same' ∙ same)

  post_rpc-IsTurnedAway :
      (cfg : Config) (r : Incoming) (client : Client) (env : Env) (m : Proxy.Moment)
      (s : Server lib S)
      → find_token s.tokens (trim_space r.path_token) ≡ none
      → IsTurnedAway s (post_rpc libs store cfg r client env m s)
  unfolding post_rpc enter handle hit_of
  post_rpc-IsTurnedAway cfg r client env m s gone =
      domain-Refuses libs.lower env.now cfg.server.domains r.host
        (handle libs.codec client env m s.tokens (hit_of libs.split_host r)) (world_of s)
        (path_auth-Refuses env.now s.tokens r.path_token _ (world_of s) gone)

  serve-IsTurnedAway :
      (cfg : Config) (r : Request) (key : String) (s : Server lib S)
      → key_of r ≡ some key
      → find_token s.tokens key ≡ none
      → IsTurnedAway s (serve libs store cfg r s)
  unfolding serve
  serve-IsTurnedAway cfg health key s e gone = cc
  serve-IsTurnedAway cfg (asks r) key s e gone = cc
  serve-IsTurnedAway cfg (posts r client env m) key s e gone =
      if_elim (IsTurnedAway s) (is_routed cfg r.chain_id) _ _
        (post_rpc-IsTurnedAway cfg r client env m s (ground arith)) (refl, refl)
  serve-IsTurnedAway cfg (upgrades r u) key s e gone =
      if_elim (IsTurnedAway s) (is_routed cfg r.chain_id && cfg.web_socket.enabled) _ _
        (get_ws-IsTurnedAway cfg r u s (ground arith)) (refl, refl)

  -- A request, a page among them, leaves the tokens as they are.
  upgrade-tokens :
      (cfg : Config) (r : Incoming) (u : Upgrade) (o : Outcome Token) (s : Server lib S)
      → (upgrade libs store cfg r u o s).1.tokens ≡ s.tokens
  unfolding upgrade
  upgrade-tokens cfg r u (refused status code) s = refl
  upgrade-tokens cfg r u (answered token) s = refl

  serve-tokens :
      (cfg : Config) (r : Request) (s : Server lib S)
      → (serve libs store cfg r s).1.tokens ≡ s.tokens
  unfolding serve get_ws post_rpc show
  serve-tokens cfg health s = refl
  serve-tokens cfg (asks r) s =
      if_elim (λ (x : Served lib × Server lib S). x.1.tokens ≡ s.tokens) cfg.admin.enabled _ _ refl
        refl
  serve-tokens cfg (posts r client env m) s =
      if_elim (λ (x : Served lib × Server lib S). x.1.tokens ≡ s.tokens) (is_routed cfg r.chain_id)
        _ _ refl refl
  serve-tokens cfg (upgrades r u) s =
      let found = identify libs store cfg u.now r s in
      if_elim (λ (x : Served lib × Server lib S). x.1.tokens ≡ s.tokens)
        (is_routed cfg r.chain_id && cfg.web_socket.enabled) _ _
        (upgrade-tokens cfg r u found.0 (put_world found.1 s)) refl

  step-tokens :
      (cfg : Config) (s : Server lib S) (e : Event)
      → is_refresh e ≡ false
      → (step libs store cfg s e).tokens ≡ s.tokens
  unfolding step
  step-tokens cfg s (requested r) h = serve-tokens cfg r s
  step-tokens cfg s (hung_up file) h = refl
  step-tokens cfg s (checked id client) h = refl
  step-tokens cfg s (refreshed t) h = cc
  step-tokens cfg s (rotated turn) h =
      if_elim (λ (x : Server lib S). x.tokens ≡ s.tokens) (rotates cfg) _ _ refl refl

  run-tokens :
      (cfg : Config) (s : Server lib S) (es : List Event)
      → All (λ e. is_refresh e ≡ false) es
      → (run libs store cfg s es).tokens ≡ s.tokens
  unfolding run
  run-tokens cfg s [] h = refl
  run-tokens cfg s (e ∷ es) (h, hs) =
      run-tokens cfg (step libs store cfg s e) es hs ∙ step-tokens cfg s e h

  -- After a reading of the tokens that succeeds, and any events up to the next one, a request for a
  -- chain, by HTTP or WebSocket, that names a token which the database does not hold as enabled is
  -- turned away, and no node is chosen for it.
  pub run-serve :
      (cfg : Config) (s : Server lib S) (t : Tick) (es : List Event) (r : Request) (key : String)
      → refreshes cfg ≡ true
      → (reload libs.decode_methods t.fails t.tokens t.plans s.tokens).1 ≡ true
      → All (λ e. is_refresh e ≡ false) es
      → key_of r ≡ some key
      → active_row key t.tokens t.plans ≡ none
      → (turns_away (serve libs store cfg r (run libs store cfg s (refreshed t ∷ es))).0 ≡ true)
        × ((serve libs store cfg r (run libs store cfg s (refreshed t ∷ es))).1.registry
            ≡ (run libs store cfg s (refreshed t ∷ es)).registry)
  unfolding run step
  run-serve cfg s t es r key ticks read none_between named gone =
      let s₁ = step libs store cfg s (refreshed t) in
      let now : s₁.tokens ≡ (reload libs.decode_methods t.fails t.tokens t.plans s.tokens).0 =
        rw ticks refl in
      serve-IsTurnedAway cfg r key (run libs store cfg s₁ es) named (
        ap (λ tokens. find_token tokens key) (run-tokens cfg s₁ es none_between ∙ now)
        ∙ reload-find_token libs.decode_methods t.fails t.tokens t.plans s.tokens key read
        ∙ ap (model_of libs.decode_methods) gone)

-- ===== src/WsProxy/Serving/Sessions.antt =====
-- What a session passes on to the node, and the whole of `ServeHTTP` for a session that came about.
use rpc_node_gateway.Prelude.{
  ℕ, ◌≡◌, refl, ◌⊎◌, inl, inr, String, false, List, ◌++◌, All, Option-cases, arith,
}
use rpc_node_gateway.Model.{Token}
use rpc_node_gateway.RateLimit.{Lib, Verdict, allowed, denied, allow}
use rpc_node_gateway.Filter.{check_methods, is_denied}
use rpc_node_gateway.JsonRpc.{
  Codec, Result, ok, err, classify, parse_methods, parse_request_meta, parse_notification,
  parse_response_meta, count_results,
}
use rpc_node_gateway.WsProxy.{
  Session, Moment, World, is_request, register, inspect, admit, handle_inbound, handle_outbound,
}
use rpc_node_gateway.WsProxy.Outbound.{resolve-token}
use rpc_node_gateway.WsProxy.Serving.{Frame, Link, Exit, served}
use rpc_node_gateway.WsProxy.Serving.Pumps.{sent, node_texts}

-- The message is no request, or its methods are known and the token may call them.
abbrev pub IsScreened : Codec → Token → String → Type 0
IsScreened codec token text =
    (is_request (classify codec text) ≡ false)
    ⊎ ((methods : List String) × (parse_methods codec text ≡ ok methods)
        × All (λ d. is_denied token.denied_methods d ≡ false) methods)

module _ {lib : Lib} (codec : Codec) where
  register-token :
      (r : Result (String × String × String)) (s : Session) (w : World lib)
      → (register r s w).1.token ≡ s.token
  unfolding register
  register-token (err e) s w = refl
  register-token (ok (id, method, sub_kind)) s w = ground arith

  inspect-token :
      (now : ℕ) (text : String) (ms : Result (List String)) (s : Session) (w : World lib)
      → (inspect codec now text ms s w).1.token ≡ s.token
  unfolding inspect
  inspect-token now text (err e) s w = refl
  inspect-token now text (ok methods) s w = elim (Option-cases (check_methods s.token methods)) [
    | inl fine ↦ ground (arith, register-token (parse_request_meta codec text) s w)
    | inr (names, refused) ↦ ground arith
  ]

  admit-token :
      (now : ℕ) (text : String) (v : Verdict) (s : Session) (w : World lib)
      → (admit codec now text v s w).1.token ≡ s.token
  unfolding admit
  admit-token now text (denied reason) s w = refl
  admit-token now text allowed s w =
      ground (arith, inspect-token now text (parse_methods codec text) s w)

  pub handle_inbound-token :
      (m : Moment) (text : String) (s : Session) (w : World lib)
      → (handle_inbound codec m text s w).1.token ≡ s.token
  unfolding handle_inbound
  handle_inbound-token m text s w =
      let r = allow lib m.env w.limiter s.token s.chain_id s.client_ip in
      admit-token m.env.now text r.0 s (record w { limiter = r.1 })

  pub handle_outbound-token :
      (m : Moment) (text : String) (s : Session) (w : World lib)
      → (handle_outbound codec m text s w).0.token ≡ s.token
  unfolding handle_outbound
  handle_outbound-token m text s w = elim (Option-cases (parse_notification codec text)) [
    | inl no_push ↦
        ground (arith, resolve-token (parse_response_meta codec text) (count_results codec text) s)
    | inr (p, is_push) ↦ ground arith
  ]

  -- The session stays that of its token, and the node was sent only what was screened.
  IsSound : Token → Link lib → Type 0
  IsSound token l = (l.session.token ≡ token) × All (IsScreened codec token) l.to_node

  -- What a session has passed on, if there was one.
  abbrev pub Fits : Token → List Frame → Exit lib → Type 0
  Fits token frames (served l) =
      ((rest : List String) × (sent l ++ rest ≡ node_texts frames))
      × All (IsScreened codec token) l.to_node
  Fits token frames exit = Unit {0}

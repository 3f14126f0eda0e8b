-- ===== src/WsProxy/Keeping.antt =====
-- A message of a session keeps the counters consistent.
use rpc_node_gateway.Prelude.{
  ℕ, ◌==◌, ◌&&◌, ◌≡◌, refl, arith, String, Bool, false, List, if_elim, Option-cases, inl, inr,
}
use rpc_node_gateway.RateLimit.{Lib, Verdict, allowed, denied, allow}
use rpc_node_gateway.JsonRpc.{
  Codec, Result, ok, err, classify, parse_methods, parse_request_meta, parse_notification,
}
use rpc_node_gateway.Filter.{check_methods}
use rpc_node_gateway.Stats.Keeping.{
  Kept, inc_rate_limited-Kept, inc_method_denied-Kept, record_proxy-Kept,
  record_ws_notification-Kept,
}
use rpc_node_gateway.WsProxy.{
  Session, Moment, World, is_single, is_request, register, inspect, admit, handle_inbound, publish,
  handle_push, settle, handle_outbound,
}

module _ {lib : Lib} where
  register-stats :
      (r : Result (String × String × String)) (s : Session) (w : World lib)
      → (register r s w).2.stats ≡ w.stats
  unfolding register
  register-stats (err e) s w = refl
  register-stats (ok (id, method, sub_kind)) s w = ground arith

  register-Kept :
      (r : Result (String × String × String)) (s : Session) (w : World lib)
      → Kept w.stats (register r s w).2.stats
  register-Kept r s w = rw (register-stats r s w) (λ h. h)

  inspect-Kept :
      (codec : Codec) (now : ℕ) (data_ : String) (r : Result (List String)) (s : Session)
      (w : World lib)
      → Kept w.stats (inspect codec now data_ r s w).2.stats
  unfolding inspect
  inspect-Kept codec now data_ (err e) s w = λ h. h
  inspect-Kept codec now data_ (ok methods) s w =
      elim (Option-cases (check_methods s.token methods)) [
        | inr (names, e) ↦ rw (e, inspect) (inc_method_denied-Kept now w.stats s.meta)
        | inl e ↦
            rw (e, inspect)
              (if_elim (λ (x : Bool × Session × World lib). Kept w.stats x.2.stats)
                (is_single methods) _ _ (register-Kept (parse_request_meta codec data_) s w)
                (λ h. h))
      ]

  admit-Kept :
      (codec : Codec) (now : ℕ) (data_ : String) (v : Verdict) (s : Session) (w : World lib)
      → Kept w.stats (admit codec now data_ v s w).2.stats
  unfolding admit
  admit-Kept codec now data_ (denied reason) s w = inc_rate_limited-Kept now w.stats s.meta
  admit-Kept codec now data_ allowed s w =
      if_elim (λ (x : Bool × Session × World lib). Kept w.stats x.2.stats)
        (is_request (classify codec data_)) _ _
        (inspect-Kept codec now data_ (parse_methods codec data_) s w) (λ h. h)

  pub handle_inbound-Kept :
      (codec : Codec) (m : Moment) (data_ : String) (s : Session) (w : World lib)
      → Kept w.stats (handle_inbound codec m data_ s w).2.stats
  unfolding handle_inbound
  handle_inbound-Kept codec m data_ s w =
      let (verdict, limiter) = allow lib m.env w.limiter s.token s.chain_id s.client_ip in
      admit-Kept codec m.env.now data_ verdict s (record w { limiter = limiter })

  publish-stats :
      (m : Moment) (s : Session) (n : ℕ) (b : Bool) (methods : List String) (kind : String)
      (w w' : World lib)
      → Kept w.stats w'.stats
      → Kept w.stats (publish m s n b methods kind w').stats
  unfolding publish
  publish-stats m s n b methods kind w w' h =
      if_elim (λ (x : World lib). Kept w.stats x.stats) (n == 0) _ _ h h

  settle-Kept :
      (m : Moment) (n : ℕ × ℕ) (s : Session) (w : World lib) → Kept w.stats (settle m n s w).stats
  unfolding settle
  settle-Kept m (n, e) s w =
      let kept = record_proxy-Kept m.env.now w.stats s.meta s.chain_id n e false _ in
      if_elim (λ (x : World lib). Kept w.stats x.stats) (n == 0 && e == 0) _ _ (λ h. h)
        (if_elim (λ (x : World lib). Kept w.stats x.stats) (n == 0) _ _ kept
          (publish-stats m s n _ _ _ w _ kept))

  handle_push-Kept :
      (m : Moment) (method sub_id : String) (s : Session) (w : World lib)
      → Kept w.stats (handle_push m method sub_id s w).stats
  unfolding handle_push
  handle_push-Kept m method sub_id s w =
      publish-stats m s _ _ _ _ w _
        (record_ws_notification-Kept m.env.now w.stats s.meta s.chain_id 1 _ _)

  pub handle_outbound-Kept :
      (codec : Codec) (m : Moment) (data_ : String) (s : Session) (w : World lib)
      → Kept w.stats (handle_outbound codec m data_ s w).1.stats
  unfolding handle_outbound
  handle_outbound-Kept codec m data_ s w = elim (Option-cases (parse_notification codec data_)) [
    | inl e ↦ rw (e, handle_outbound) (settle-Kept m _ _ w)
    | inr ((method, sub_id), e) ↦ rw (e, handle_outbound) (handle_push-Kept m method sub_id s w)
  ]

-- ===== src/WsProxy/Inbound.antt =====
-- `handleInbound`: what each of its outcomes does to the session and to the replies, and which
-- messages the filter sees.
use rpc_node_gateway.Prelude.{
  ℕ, ◌≡◌, refl, ◌∷◌, some, trim_space, List, String, Bool, true, false, not, none, ◌&&◌, leb, to_ℕ,
  is_nonpos, str_eq, Option-cases, if_elim, All, inl, inr, arith,
}
use rpc_node_gateway.RateLimit.{Lib, Verdict, allowed, denied, allow, reason_text}
use rpc_node_gateway.JsonRpc.{
  Codec, Envelope, present, is_batch, Result, ok, err, request, notification, classify,
  classify_envelope, parse_methods, parse_request_meta,
}
use rpc_node_gateway.Filter.{is_denied, check_methods, check_methods-none}
use rpc_node_gateway.WsProxy.{
  Session, Moment, World, Reply, replied, rate_limited, invalid_request, method_denied,
  too_many_subscriptions, reply, is_request, register, inspect, admit, handle_inbound, is_single,
}

classify_without_id :
    (codec : Codec) (data_ : String) (env : Envelope)
    → str_eq (trim_space data_) "" ≡ false
    → is_batch (trim_space data_) ≡ false
    → codec.envelope (trim_space data_) ≡ some env
    → str_eq env.method "" ≡ false
    → present env.id ≡ false
    → classify codec data_ ≡ notification
unfolding classify classify_envelope
classify_without_id codec data_ env not_blank not_batch decoded named no_id =
    rw (not_blank, not_batch, decoded, named, no_id) refl

abbrev pub is_allowed : Verdict → Bool
is_allowed allowed = true
is_allowed (denied reason) = false

module _ {lib : Lib} where
  -- A message goes on without a reply, or stays with one, and the session is as it was.
  abbrev pub Answered : Session → World lib → Bool × Session × World lib → Type 0
  Answered s w (true, s', w') =
      (w'.to_client ≡ w.to_client)
      × (s'.subs ≡ s.subs)
      × (s'.sub_n ≡ s.sub_n)
      × (w'.published ≡ w.published)
  Answered s w (false, s', w') =
      ((r : Reply) × (w'.to_client ≡ replied r ∷ w.to_client))
      × (s' ≡ s)
      × (w'.published ≡ w.published)

  register-Answered :
      (m : Result (String × String × String)) (s : Session) (w : World lib)
      → Answered s w (register m s w)
  unfolding register
  register-Answered (err e) s w = (refl, refl, refl, refl)
  register-Answered (ok (id, method, sub_kind)) s w =
      if_elim (Answered s w) (str_eq id "") (true, s, w) _ (refl, refl, refl, refl)
        (if_elim (Answered s w)
          (str_eq method "eth_subscribe"
            && not (is_nonpos s.max_subs)
            && leb (to_ℕ s.max_subs) s.sub_n)
          (false, s, reply too_many_subscriptions w) _ ((too_many_subscriptions, refl), refl, refl)
          (refl, refl, refl, refl))

  inspect-Answered :
      (codec : Codec) (now : ℕ) (data_ : String) (ms : Result (List String)) (s : Session)
      (w : World lib)
      → Answered s w (inspect codec now data_ ms s w)
  unfolding inspect
  inspect-Answered codec now data_ (err e) s w = ((invalid_request, refl), refl, refl)
  inspect-Answered codec now data_ (ok methods) s w =
      elim (Option-cases (check_methods s.token methods)) [
        | inl e ↦
            rw (e, inspect)
              (if_elim (Answered s w) (is_single methods) _ (true, s, w)
                (register-Answered (parse_request_meta codec data_) s w) (refl, refl, refl, refl))
        | inr (names, e) ↦ rw (e, inspect) ((method_denied names, refl), refl, refl)
      ]

  admit-Answered :
      (codec : Codec) (now : ℕ) (data_ : String) (v : Verdict) (s : Session) (w : World lib)
      → Answered s w (admit codec now data_ v s w)
  unfolding admit
  admit-Answered codec now data_ (denied reason) s w =
      ((rate_limited (reason_text reason), refl), refl, refl)
  admit-Answered codec now data_ allowed s w =
      if_elim (Answered s w) (is_request (classify codec data_)) _ (true, s, w)
        (inspect-Answered codec now data_ (parse_methods codec data_) s w) (refl, refl, refl, refl)

  -- A message that goes on to the upstream node gets no reply of the gateway's, a message that does
  -- not gets exactly one and leaves the session as it was, and in neither case does the message
  -- change the subscriptions, their number or the published events.
  pub handle_inbound-Answered :
      (codec : Codec) (m : Moment) (data_ : String) (s : Session) (w : World lib)
      → Answered s w (handle_inbound codec m data_ s w)
  unfolding handle_inbound
  handle_inbound-Answered codec m data_ s w =
      let r = allow lib m.env w.limiter s.token s.chain_id s.client_ip in
      admit-Answered codec m.env.now data_ r.0 s (record w { limiter = r.1 })

  inspect-Passed :
      (codec : Codec) (now : ℕ) (data_ : String) (ms : Result (List String)) (s : Session)
      (w : World lib)
      → (inspect codec now data_ ms s w).0 ≡ true
      → (methods : List String) × (ms ≡ ok methods) × (check_methods s.token methods ≡ none)
  unfolding inspect
  inspect-Passed codec now data_ (err e) s w t = absurd (ground arith)
  inspect-Passed codec now data_ (ok methods) s w t =
      elim (Option-cases (check_methods s.token methods)) [
        | inl e ↦ (methods, refl, e)
        | inr (names, e) ↦ absurd (ground arith)
      ]

  admit-Passed :
      (codec : Codec) (now : ℕ) (data_ : String) (v : Verdict) (s : Session) (w : World lib)
      → classify codec data_ ≡ request
      → (admit codec now data_ v s w).0 ≡ true
      → (methods : List String) × (parse_methods codec data_ ≡ ok methods)
        × (check_methods s.token methods ≡ none)
  unfolding admit
  admit-Passed codec now data_ (denied reason) s w k t = absurd (ground arith)
  admit-Passed codec now data_ allowed s w k t =
      inspect-Passed codec now data_ (parse_methods codec data_) s w (rw k at t)

  -- A request, or a batch, that goes on to the upstream node was parsed into methods, and none of
  -- these is denied to the session's token.
  pub handle_inbound-Passed :
      (codec : Codec) (m : Moment) (data_ : String) (s : Session) (w : World lib)
      → classify codec data_ ≡ request
      → (handle_inbound codec m data_ s w).0 ≡ true
      → (methods : List String) × (parse_methods codec data_ ≡ ok methods)
        × All (λ d. is_denied s.token.denied_methods d ≡ false) methods
  unfolding handle_inbound
  handle_inbound-Passed codec m data_ s w k t =
      let r = allow lib m.env w.limiter s.token s.chain_id s.client_ip in
      let (methods, p, c) =
        admit-Passed codec m.env.now data_ r.0 s (record w { limiter = r.1 }) k t in
      (methods, p, check_methods-none s.token methods c)

  admit_unchecked :
      (codec : Codec) (now : ℕ) (data_ : String) (v : Verdict) (s : Session) (w : World lib)
      → classify codec data_ ≡ notification
      → ((admit codec now data_ v s w).0 ≡ is_allowed v) × ((admit codec now data_ v s w).1 ≡ s)
  unfolding admit
  admit_unchecked codec now data_ (denied reason) s w k = (refl, refl)
  admit_unchecked codec now data_ allowed s w k = rw (k, admit) (refl, refl)

  -- A message with a method and without an id, which is neither blank nor a batch, goes on to the
  -- upstream node exactly where the limiter allows it, whatever its method and whatever methods are
  -- denied to the token, and the session stays as it was.
  pub handle_inbound_unchecked :
      (codec : Codec) (m : Moment) (data_ : String) (env : Envelope) (s : Session) (w : World lib)
      → str_eq (trim_space data_) "" ≡ false
      → is_batch (trim_space data_) ≡ false
      → codec.envelope (trim_space data_) ≡ some env
      → str_eq env.method "" ≡ false
      → present env.id ≡ false
      → ((handle_inbound codec m data_ s w).0
          ≡ is_allowed (allow lib m.env w.limiter s.token s.chain_id s.client_ip).0)
        × ((handle_inbound codec m data_ s w).1 ≡ s)
  unfolding handle_inbound
  handle_inbound_unchecked codec m data_ env s w not_blank not_batch decoded named no_id =
      let r = allow lib m.env w.limiter s.token s.chain_id s.client_ip in
      admit_unchecked codec m.env.now data_ r.0 s (record w { limiter = r.1 })
        (classify_without_id codec data_ env not_blank not_batch decoded named no_id)

-- ===== src/WsProxy/Serving/Pumps.antt =====
-- What the pumps of a session pass on, in either direction.
use rpc_node_gateway.Prelude.{
  ◌≡◌, refl, sym, ap, ◌∙◌, ◌⊎◌, inl, inr, String, Bool, true, false, ◌||◌, Option, none, some, List,
  [], ◌∷◌, ◌++◌, Bool-cases, if_elim, if◌then◌else◌, arith,
}
use mathlib.Core.Path.{subst}
use mathlib.Core.List.{append_assoc, append-nil}
use rpc_node_gateway.RateLimit.{Lib}
use rpc_node_gateway.JsonRpc.{Codec}
use rpc_node_gateway.WsProxy.{
  Session, Moment, Sent, replied, relayed, World, handle_inbound, handle_outbound, handle_push,
  settle, publish,
}
use rpc_node_gateway.WsProxy.Inbound.{Answered, handle_inbound-Answered}
use rpc_node_gateway.Config.{WebSocketConfig}
use rpc_node_gateway.Model.{Token}
use rpc_node_gateway.WsProxy.Serving.{
  Arrival, Gate, served, first_link, serve_session, Frame, from_client, from_node, Link, write_node,
  write_client, pump, pump_all,
}

-- The messages that the node sends.
abbrev pub node_texts : List Frame → List String
node_texts [] = []
node_texts (from_client m o fails ∷ fs) = node_texts fs
node_texts (from_node m none fails ∷ fs) = node_texts fs
node_texts (from_node m (some text) fails ∷ fs) = text ∷ node_texts fs

-- The messages of the node among what was written to the client, the oldest first.
unfoldable pub relayed_texts : List Sent → List String
relayed_texts [] = []
relayed_texts (replied r ∷ sent) = relayed_texts sent
relayed_texts (relayed text ∷ sent) = relayed_texts sent ++ text ∷ []

abbrev pub sent : {lib : Lib} → Link lib → List String
sent l = relayed_texts l.world.to_client

Answered-relayed_texts :
    {lib : Lib} (s : Session) (w : World lib) (r : Bool × Session × World lib)
    → Answered s w r
    → relayed_texts r.2.to_client ≡ relayed_texts w.to_client
unfolding relayed_texts
Answered-relayed_texts s w (true, s', w') (same, h, k, n) = ap relayed_texts same
Answered-relayed_texts s w (false, s', w') ((r, same), h, k) = ap relayed_texts same

handle_outbound-to_client :
    {lib : Lib} (codec : Codec) (m : Moment) (text : String) (s : Session) (w : World lib)
    → (handle_outbound codec m text s w).1.to_client ≡ w.to_client
unfolding handle_outbound handle_push settle publish
handle_outbound-to_client codec m text s w = ground arith

module _ {lib : Lib} (codec : Codec) where
  write_node-sent :
      (text : String) (fails : Bool) (r : Bool × Session × World lib) (l : Link lib)
      → relayed_texts r.2.to_client ≡ relayed_texts l.world.to_client
      → (sent (write_node text fails r l) ≡ sent l)
        × ((write_node text fails r l).outbound_done ≡ l.outbound_done)
  unfolding write_node
  write_node-sent text fails (false, s, w) l same =
      (if_elim (λ x. relayed_texts x ≡ sent l) (fails || l.closed) _ _ refl same, refl)
  write_node-sent text fails (true, s, w) l same = elim (Bool-cases (fails || l.closed)) [
    | inl broken ↦ rw broken (same, refl)
    | inr fine ↦ rw fine (same, refl)
  ]

  -- A frame of the client leaves what the client was sent of the node's messages.
  pump-to_client :
      (l : Link lib) (m : Moment) (o : Option String) (fails : Bool)
      → (sent (pump codec l (from_client m o fails)) ≡ sent l)
        × ((pump codec l (from_client m o fails)).outbound_done ≡ l.outbound_done)
  unfolding pump
  pump-to_client l m none fails =
      if_elim {A = Link lib} (λ x. (sent x ≡ sent l) × (x.outbound_done ≡ l.outbound_done))
        l.inbound_done _ _ (refl, refl) (refl, refl)
  pump-to_client l m (some text) fails =
      if_elim {A = Link lib} (λ x. (sent x ≡ sent l) × (x.outbound_done ≡ l.outbound_done))
        l.inbound_done _ _ (refl, refl)
        (write_node-sent text fails (handle_inbound codec m text l.session l.world) l (
          Answered-relayed_texts l.session l.world (handle_inbound codec m text l.session l.world)
            (handle_inbound-Answered codec m text l.session l.world)))

  -- A pump that has returned writes no more.
  pump-outbound_done :
      (l : Link lib) (f : Frame)
      → l.outbound_done ≡ true
      → (sent (pump codec l f) ≡ sent l) × ((pump codec l f).outbound_done ≡ true)
  unfolding pump
  pump-outbound_done l (from_client m o fails) d =
      let (same, still) = pump-to_client l m o fails in (same, still ∙ d)
  pump-outbound_done l (from_node m none fails) d = (ground arith, ground arith)
  pump-outbound_done l (from_node m (some text) fails) d = (ground arith, ground arith)

  pump_all-outbound_done :
      (l : Link lib) (fs : List Frame)
      → l.outbound_done ≡ true
      → sent (pump_all codec l fs) ≡ sent l
  unfolding pump_all
  pump_all-outbound_done l [] d = refl
  pump_all-outbound_done l (f ∷ fs) d =
      let (same, still) = pump-outbound_done l f d in
      pump_all-outbound_done (pump codec l f) fs still ∙ same

  write_client-sent :
      (text : String) (fails : Bool) (r : Session × World lib) (l : Link lib)
      → r.1.to_client ≡ l.world.to_client
      → (sent (write_client text fails r l) ≡ sent l ++ text ∷ [])
        ⊎ ((sent (write_client text fails r l) ≡ sent l)
            × ((write_client text fails r l).outbound_done ≡ true))
  unfolding write_client relayed_texts
  write_client-sent text fails (s, w) l same = elim (Bool-cases (fails || l.closed)) [
    | inl broken ↦ inr (rw broken (ap relayed_texts same, refl))
    | inr fine ↦ inl (rw fine (ap (λ x. relayed_texts x ++ text ∷ []) same))
  ]

  -- A message of the node is written to the client, or ends the pump.
  pump-from_node :
      (l : Link lib) (m : Moment) (text : String) (fails : Bool)
      → l.outbound_done ≡ false
      → (sent (pump codec l (from_node m (some text) fails)) ≡ sent l ++ text ∷ [])
        ⊎ ((sent (pump codec l (from_node m (some text) fails)) ≡ sent l)
            × ((pump codec l (from_node m (some text) fails)).outbound_done ≡ true))
  unfolding pump
  pump-from_node l m text fails running =
      subst (λ x. (sent x ≡ sent l ++ text ∷ []) ⊎ ((sent x ≡ sent l) × (x.outbound_done ≡ true)))
        (sym (ap (λ b. if b then l else written) running))
        (write_client-sent text fails (handle_outbound codec m text l.session l.world) l
          (handle_outbound-to_client codec m text l.session l.world))
    where
      written : Link lib
      written = write_client text fails (handle_outbound codec m text l.session l.world) l

  -- What is written to the client from some point on is an initial part of what the node sends.
  Delivered : Link lib → List Frame → Type 0
  Delivered l fs =
      (taken : List String) × (rest : List String) × (sent (pump_all codec l fs) ≡ sent l ++ taken)
      × (taken ++ rest ≡ node_texts fs)

  stopped-Delivered :
      (l : Link lib) (f : Frame) (fs : List Frame)
      → sent (pump codec l f) ≡ sent l
      → (pump codec l f).outbound_done ≡ true
      → Delivered l (f ∷ fs)
  unfolding Delivered pump_all
  stopped-Delivered l f fs same done = (
    [],
    node_texts (f ∷ fs),
    pump_all-outbound_done (pump codec l f) fs done ∙ same ∙ sym (append-nil (sent l)),
    refl,
  )

  skipped-Delivered :
      (l : Link lib) (f : Frame) (fs : List Frame)
      → sent (pump codec l f) ≡ sent l
      → node_texts (f ∷ fs) ≡ node_texts fs
      → Delivered (pump codec l f) fs
      → Delivered l (f ∷ fs)
  unfolding Delivered pump_all
  skipped-Delivered l f fs same silent (taken, rest, wrote, split) =
      (taken, rest, wrote ∙ ap (λ x. x ++ taken) same, split ∙ sym silent)

  written-Delivered :
      (l : Link lib) (m : Moment) (text : String) (fails : Bool) (fs : List Frame)
      → sent (pump codec l (from_node m (some text) fails)) ≡ sent l ++ text ∷ []
      → Delivered (pump codec l (from_node m (some text) fails)) fs
      → Delivered l (from_node m (some text) fails ∷ fs)
  unfolding Delivered pump_all
  written-Delivered l m text fails fs wrote (taken, rest, later, split) = (
    text ∷ taken,
    rest,
    later ∙ ap (λ x. x ++ taken) wrote ∙ append_assoc (sent l) (text ∷ []) taken,
    ap (λ x. text ∷ x) split,
  )

  pump-lost_node :
      (l : Link lib) (m : Moment) (fails : Bool)
      → (sent (pump codec l (from_node m none fails)) ≡ sent l)
        × ((pump codec l (from_node m none fails)).outbound_done ≡ true)
  unfolding pump
  pump-lost_node l m fails = (ground arith, ground arith)

  pump_all-Delivered : (l : Link lib) (fs : List Frame) → Delivered l fs
  unfolding Delivered pump_all
  pump_all-Delivered l [] = ([], [], sym (append-nil (sent l)), refl)
  pump_all-Delivered l (from_client m o fails ∷ fs) =
      skipped-Delivered l (from_client m o fails) fs (pump-to_client l m o fails).0 refl
        (pump_all-Delivered (pump codec l (from_client m o fails)) fs)
  pump_all-Delivered l (from_node m none fails ∷ fs) =
      let (same, done) = pump-lost_node l m fails in
      stopped-Delivered l (from_node m none fails) fs same done
  pump_all-Delivered l (from_node m (some text) fails ∷ fs) = elim (Bool-cases l.outbound_done) [
    | inl done ↦
        let (same, still) = pump-outbound_done l (from_node m (some text) fails) done in
        stopped-Delivered l (from_node m (some text) fails) fs same still
    | inr running ↦ elim (pump-from_node l m text fails running) [
      | inr (same, done) ↦ stopped-Delivered l (from_node m (some text) fails) fs same done
      | inl wrote ↦
          written-Delivered l m text fails fs wrote
            (pump_all-Delivered (pump codec l (from_node m (some text) fails)) fs)
    ]
  ]

  pub serve_session-to_client :
      (cfg : WebSocketConfig) (token : Token) (a : Arrival) (url : String) (g : Gate lib)
      (l : Link lib)
      → (serve_session codec cfg token a url g).0 ≡ served l
      → (rest : List String) × (sent l ++ rest ≡ node_texts a.frames)
  unfolding serve_session Delivered relayed_texts
  serve_session-to_client cfg token a url g l e =
      let (taken, rest, wrote, split) =
        pump_all-Delivered (first_link cfg token a url g) a.frames in
      let same : pump_all codec (first_link cfg token a url g) a.frames ≡ l = cc in
      (rest, ap (λ x. sent x ++ rest) (sym same) ∙ ap (λ x. x ++ rest) wrote ∙ split)

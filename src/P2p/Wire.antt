-- ===== src/P2p/Wire.antt =====
-- A message of the Central controller on its way through the endpoints of one connection, from one
-- node to the other.
use gossip_protocol.Base.{
  ◌≡◌, refl, ap, ◌∙◌, if◌then◌else◌, Bool, true, false, some, List, [], ◌∷◌, Bytes, lookup,
}
use gossip_protocol.Datastruct.IndexedSet
use gossip_protocol.Message.{
  Peer, Peer-Comparable, P2PEndpoint, InternalMessage, InternalMessageType, AnyMessage,
}
use gossip_protocol.Membership.State.{MembershipController, message, send}
use gossip_protocol.Membership.Handlers
use gossip_protocol.Central.State.{
  Central, PeerInfo, running, Effect, returns, emit, im, send_membership,
}
use gossip_protocol.Central.Forward.{
  find_outgoing, write_to, membership_pull_request_handler, membership_pull_reply_handler,
  incoming_p2p_handler, route_p2p, then_return,
}
use gossip_protocol.P2p.Reader.{
  Turn, reader_routine, crashed_report, translate, incoming, translate_membership_reply,
}
use gossip_protocol.P2p.Writer.{Written, writer_routine, allowed_msgs}

-- The messages of a pull, whose payloads hold no pointer.
unfoldable pub is_pull : InternalMessageType → AnyMessage → Bool
is_pull InternalMessageType.membership_pull_request_msg (AnyMessage.peer_value peer) = true
is_pull InternalMessageType.membership_pull_reply_msg (AnyMessage.membership_pull_reply to peers) =
    true
is_pull _ _ = false

-- What the decoder returns for what the encoder was given.
unfoldable pub arriving : (InternalMessage → InternalMessage) → List InternalMessage → List Turn
arriving carry [] = []
arriving carry (m ∷ ms) = Turn.decoded (carry m) ∷ arriving carry ms

-- The writer of one end and the reader of the other.
unfoldable pub cross :
    (InternalMessage → InternalMessage)
    → Bytes
    → P2PEndpoint
    → P2PEndpoint
    → List InternalMessage
    → List InternalMessage
unfolding arriving
cross carry text out into ms =
    reader_routine text into (arriving carry (writer_routine text out ms).encoded)

-- A pull from one node to the other and back: what the Central controller of the first makes of the
-- request, what of it arrives, what the Central controller and the Membership controller of the
-- second make of that, and the same for the reply.
abbrev pub Exchanged :
    {F : Type 0}
    → (InternalMessage → InternalMessage)
    → Bytes
    → Central
    → Central
    → PeerInfo
    → PeerInfo
    → MembershipController F
    → Type 0
Exchanged carry text here there asked asking c =
    (request request_in pulled answer reply reply_in : InternalMessage)
    × (membership_pull_request_handler (AnyMessage.peer_value asked.endpoint.peer) here
        ≡ returns (emit (Effect.to_p2p asked.endpoint request ∷ []) here))
    × (cross carry text asked.endpoint asking.endpoint (request ∷ []) ≡ request_in ∷ [])
    × (incoming_p2p_handler request_in.payload there
        ≡ returns (emit (Effect.to_membership pulled ∷ []) there))
    × (Handlers.incoming_pull_request_handler pulled.payload c
        ≡ Handlers.returns (send (answer ∷ []) c))
    × (membership_pull_reply_handler answer.payload there
        ≡ returns (emit (Effect.to_p2p asking.endpoint reply ∷ []) there))
    × (cross carry text asking.endpoint asked.endpoint (reply ∷ []) ≡ reply_in ∷ [])
    × (incoming_p2p_handler reply_in.payload here
        ≡ returns (
            emit
              (Effect.to_membership (
                  im InternalMessageType.membership_incoming_pull_reply_msg (
                    AnyMessage.membership_incoming_pull_reply asked.endpoint.peer
                      (IndexedSet.elements c.view_list)))
                ∷ [])
              here))

-- What the writer makes of one message that is allowed, with a connection or without.
abbrev written : Bytes → P2PEndpoint → InternalMessage → Bool → Written
written text out m b =
    if b
    then record { encoded = m ∷ []; reports = [] }
    else record { encoded = []; reports = crashed_report out false text ∷ [] }

-- `gob` carries what it encodes: the decoder returns the message that the encoder was given.
module _ (carry : InternalMessage → InternalMessage)
    (carries : (m : InternalMessage) → is_pull m.type m.payload ≡ true → carry m ≡ m)
    (text : Bytes) where
  request_crosses :
      (out into : P2PEndpoint) (peer : Peer)
      → out.has_conn ≡ true
      → into.has_conn ≡ true
      → cross carry text out into
          (im InternalMessageType.membership_pull_request_msg (AnyMessage.peer_value peer) ∷ [])
        ≡ im InternalMessageType.incoming_p2p_msg (
            AnyMessage.internal_message InternalMessageType.membership_incoming_pull_request_msg
              (AnyMessage.membership_incoming_pull_request into.peer))
          ∷ []
  unfolding cross arriving reader_routine writer_routine allowed_msgs translate incoming im is_pull
  request_crosses out into peer o i =
      let m = im InternalMessageType.membership_pull_request_msg (AnyMessage.peer_value peer) in
      let forwarded = im InternalMessageType.incoming_p2p_msg (
        AnyMessage.internal_message InternalMessageType.membership_incoming_pull_request_msg
          (AnyMessage.membership_incoming_pull_request into.peer)) in
      ap (λ b. reader_routine text into (arriving carry (written text out m b).encoded)) o
      ∙ ap (λ x. reader_routine text into (Turn.decoded x ∷ [])) (carries m refl)
      ∙ ap (λ b. if b then forwarded ∷ [] else crashed_report into true text ∷ []) i

  reply_crosses :
      (out into : P2PEndpoint) (to : Peer) (peers : List Peer)
      → out.has_conn ≡ true
      → into.has_conn ≡ true
      → cross carry text out into (
          im InternalMessageType.membership_pull_reply_msg
            (AnyMessage.membership_pull_reply to peers)
          ∷ [])
        ≡ im InternalMessageType.incoming_p2p_msg (
            AnyMessage.internal_message InternalMessageType.membership_incoming_pull_reply_msg
              (AnyMessage.membership_incoming_pull_reply into.peer peers))
          ∷ []
  unfolding cross arriving reader_routine writer_routine allowed_msgs translate incoming im is_pull
      translate_membership_reply
  reply_crosses out into to peers o i =
      let m =
        im InternalMessageType.membership_pull_reply_msg
          (AnyMessage.membership_pull_reply to peers) in
      let forwarded = im InternalMessageType.incoming_p2p_msg (
        AnyMessage.internal_message InternalMessageType.membership_incoming_pull_reply_msg
          (AnyMessage.membership_incoming_pull_reply into.peer peers)) in
      ap (λ b. reader_routine text into (arriving carry (written text out m b).encoded)) o
      ∙ ap (λ x. reader_routine text into (Turn.decoded x ∷ [])) (carries m refl)
      ∙ ap (λ b. if b then forwarded ∷ [] else crashed_report into true text ∷ []) i

  -- Between two nodes whose ends of one connection are open and listed with running writers, and whose
  -- Membership controllers exist, a pull goes through: the request is handed to the reader at the
  -- other node and to its Membership controller, the answer takes the same way back, and what reaches
  -- the controller that asked is the other's view list, under the other's address. The encoding must
  -- carry the two messages unchanged.
  pub pull_crosses :
      {F : Type 0} (here there : Central) (asked asking : PeerInfo) (c : MembershipController F)
      → find_outgoing asked.endpoint.peer here ≡ some asked
      → asked.state.writer_state ≡ running
      → lookup asking.endpoint.peer there.incoming_view_list ≡ some asking
      → asking.state.writer_state ≡ running
      → asked.endpoint.has_conn ≡ true
      → asking.endpoint.has_conn ≡ true
      → here.membership_controller ≡ true
      → there.membership_controller ≡ true
      → Exchanged carry text here there asked asking c
  unfolding membership_pull_request_handler membership_pull_reply_handler write_to
      incoming_p2p_handler route_p2p then_return send_membership
      Handlers.incoming_pull_request_handler send message im
  pull_crosses here there asked asking c finds asked_runs looks asking_runs o i has_own has_other =
      let peers = IndexedSet.elements c.view_list in
      let pulled =
        im InternalMessageType.membership_incoming_pull_request_msg
          (AnyMessage.membership_incoming_pull_request asking.endpoint.peer) in
      let replied =
        im InternalMessageType.membership_incoming_pull_reply_msg
          (AnyMessage.membership_incoming_pull_reply asked.endpoint.peer peers) in
      let answer =
        im InternalMessageType.membership_pull_reply_msg
          (AnyMessage.membership_pull_reply asking.endpoint.peer peers) in
      (
        im InternalMessageType.membership_pull_request_msg
            (AnyMessage.peer_value asked.endpoint.peer),
        im InternalMessageType.incoming_p2p_msg
            (AnyMessage.internal_message pulled.type pulled.payload),
        pulled,
        answer,
        answer,
        im InternalMessageType.incoming_p2p_msg
            (AnyMessage.internal_message replied.type replied.payload),
        rw (finds, asked_runs) refl,
        request_crosses asked.endpoint asking.endpoint asked.endpoint.peer o i,
        rw (has_other) refl,
        refl,
        rw (looks, asking_runs) refl,
        reply_crosses asking.endpoint asked.endpoint asking.endpoint.peer peers i o,
        rw (has_own) refl,
      )

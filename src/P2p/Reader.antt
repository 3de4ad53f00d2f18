-- ===== src/P2p/Reader.antt =====
-- `readerRoutine` and `recover`. A message arrives as the gob decoder returns it.
use gossip_protocol.Base.{Bool, true, List, [], ◌∷◌, Bytes, if◌then◌else◌}
use gossip_protocol.Message.{Peer, P2PEndpoint, InternalMessage, InternalMessageType, AnyMessage}

-- What the switch over the message's type makes: a message for the Central controller, nothing, or
-- the panic of a type assertion.
pub data Translation : Type 0 where
  forwarded : InternalMessage → Translation
  ignored asserted : Translation

-- An `IncomingP2PMSG` around a message.
unfoldable pub incoming : InternalMessageType → AnyMessage → Translation
incoming t payload = Translation.forwarded (record {
  type = InternalMessageType.incoming_p2p_msg;
  payload = AnyMessage.internal_message t payload;
})

unfoldable pub translate_membership_reply : Peer → AnyMessage → Translation
unfolding incoming
translate_membership_reply peer (AnyMessage.membership_pull_reply to view_list) =
    incoming InternalMessageType.membership_incoming_pull_reply_msg
      (AnyMessage.membership_incoming_pull_reply peer view_list)
translate_membership_reply peer _ = Translation.asserted

unfoldable pub translate_push : AnyMessage → Translation
unfolding incoming
translate_push (AnyMessage.gossip_push push) =
    incoming InternalMessageType.gossip_incoming_push_msg (
      AnyMessage.gossip_item_extended
        (record { item = push.item; state = push.state; counter = push.counter }))
translate_push _ = Translation.asserted

unfoldable pub translate_gossip_reply : Peer → AnyMessage → Translation
unfolding incoming
translate_gossip_reply peer (AnyMessage.gossip_pull_reply to item_list) =
    incoming InternalMessageType.gossip_incoming_pull_reply_msg
      (AnyMessage.gossip_incoming_pull_reply peer item_list)
translate_gossip_reply peer _ = Translation.asserted

-- The switch, at the endpoint's peer.
unfoldable pub translate : Peer → InternalMessageType → AnyMessage → Translation
unfolding incoming translate_membership_reply translate_push translate_gossip_reply
translate peer InternalMessageType.membership_push_request_msg payload =
    incoming InternalMessageType.membership_incoming_push_request_msg payload
translate peer InternalMessageType.membership_pull_request_msg payload =
    incoming InternalMessageType.membership_incoming_pull_request_msg
      (AnyMessage.membership_incoming_pull_request peer)
translate peer InternalMessageType.membership_pull_reply_msg payload =
    translate_membership_reply peer payload
translate peer InternalMessageType.gossip_push_msg payload = translate_push payload
translate peer InternalMessageType.gossip_pull_request_msg payload =
    incoming InternalMessageType.gossip_incoming_pull_request_msg
      (AnyMessage.gossip_incoming_pull_request peer)
translate peer InternalMessageType.gossip_pull_reply_msg payload =
    translate_gossip_reply peer payload
translate peer _ payload = Translation.ignored

-- A turn of the loop: `sigCh` is closed, or the decoder returns a message, meets the deadline, or
-- returns another error, of which the panic's text is made.
pub data Turn : Type 0 where
  signalled timed_out : Turn
  decoded : InternalMessage → Turn
  decode_error : Bytes → Turn

unfoldable pub closed_report : P2PEndpoint → Bool → InternalMessage
closed_report endp is_reader = record {
  type = InternalMessageType.p2p_endpoint_closed_msg;
  payload = AnyMessage.p2p_endpoint_closed endp is_reader;
}

unfoldable pub crashed_report : P2PEndpoint → Bool → Bytes → InternalMessage
crashed_report endp is_reader text = record {
  type = InternalMessageType.p2p_endpoint_crashed_msg;
  payload = AnyMessage.p2p_endpoint_crashed endp is_reader text;
}

-- All that the routine sends to the Central controller in some turns; `text` is that of the panic of a
-- failed type assertion, or of `SetDeadline` on a nil connection, that of an endpoint that could not be
-- dialled.
unfoldable pub reader_routine : Bytes → P2PEndpoint → List Turn → List InternalMessage
unfolding translate closed_report crashed_report
reader_routine text endp [] = []
reader_routine text endp (Turn.signalled ∷ turns) = closed_report endp true ∷ []
reader_routine text endp (Turn.timed_out ∷ turns) =
    let rest = reader_routine text endp turns in
    if endp.has_conn then rest else crashed_report endp true text ∷ []
reader_routine text endp (Turn.decode_error err ∷ turns) =
    if endp.has_conn then crashed_report endp true err ∷ [] else crashed_report endp true text ∷ []
reader_routine text endp (Turn.decoded message ∷ turns) =
    let rest = reader_routine text endp turns in
    if endp.has_conn
    then elim (translate endp.peer message.type message.payload) [
      | Translation.forwarded im ↦ im ∷ rest
      | Translation.ignored ↦ rest
      | Translation.asserted ↦ crashed_report endp true text ∷ []
    ]
    else crashed_report endp true text ∷ []

-- ===== src/Central/Forward.antt =====
-- The handlers that pass a message on to an endpoint, to the Gossiper or to the Membership
-- controller.
use gossip_protocol.Base.{Option, none, some, [], ◌∷◌, lookup}
use gossip_protocol.Datastruct.IndexedMap.{get_value}
use gossip_protocol.Message.{
  Peer, Peer-Comparable, ApiClient-Comparable, InternalMessage, InternalMessageType, AnyMessage,
  GossipNotification,
}
use gossip_protocol.Central.State.{
  Central, PeerInfo, ApiInfo, running, stopped, Effect, Outcome, returns, emit, im, send_membership,
  send_gossiper,
}

-- The peer's entry in the view list or else among those that await removal.
unfoldable pub find_outgoing : Peer → Central → Option PeerInfo
unfolding get_value
find_outgoing peer c = elim (get_value peer c.view_list) [
  | some info ↦ some info
  | none ↦ lookup peer c.awaiting_removal_view_list
]

-- Sends to an endpoint whose writer is running.
unfoldable pub write_to : InternalMessage → Option PeerInfo → Central → Central
unfolding emit
write_to m none c = c
write_to m (some info) c = elim info.state.writer_state [
  | stopped ↦ c
  | running ↦ emit (Effect.to_p2p info.endpoint m ∷ []) c
]

unfoldable pub membership_push_request_handler : AnyMessage → Central → Outcome
unfolding write_to find_outgoing im
membership_push_request_handler (AnyMessage.membership_push_request pr) c = returns (
    write_to
      (im InternalMessageType.membership_push_request_msg (AnyMessage.membership_push_request pr))
      (find_outgoing pr.to c) c)
membership_push_request_handler _ c = returns c

unfoldable pub membership_pull_request_handler : AnyMessage → Central → Outcome
unfolding write_to find_outgoing im
membership_pull_request_handler (AnyMessage.peer_value peer) c = returns (
    write_to (im InternalMessageType.membership_pull_request_msg (AnyMessage.peer_value peer))
      (find_outgoing peer c) c)
membership_pull_request_handler _ c = returns c

unfoldable pub membership_pull_reply_handler : AnyMessage → Central → Outcome
unfolding write_to im
membership_pull_reply_handler (AnyMessage.membership_pull_reply to peers) c = returns (
    write_to
      (im InternalMessageType.membership_pull_reply_msg (AnyMessage.membership_pull_reply to peers))
      (lookup to c.incoming_view_list) c)
membership_pull_reply_handler _ c = returns c

unfoldable pub notify_api : GossipNotification → Option ApiInfo → Central → Central
unfolding emit im
notify_api ntf none c = c
notify_api ntf (some info) c = elim info.state.writer_state [
  | stopped ↦ c
  | running ↦
      emit
        (Effect.to_api info.endpoint
            (im InternalMessageType.api_notification_msg (AnyMessage.api_notification ntf))
          ∷ [])
        c
]

unfoldable pub gossip_notification_handler : AnyMessage → Central → Outcome
unfolding notify_api
gossip_notification_handler (AnyMessage.gossip_notification ntf) c =
    returns (notify_api ntf (lookup ntf.who c.api_clients) c)
gossip_notification_handler _ c = returns c

unfoldable pub gossip_push_handler : AnyMessage → Central → Outcome
unfolding write_to find_outgoing im
gossip_push_handler (AnyMessage.gossip_push push) c = returns (
    write_to (im InternalMessageType.gossip_push_msg (AnyMessage.gossip_push push))
      (find_outgoing push.to c) c)
gossip_push_handler _ c = returns c

unfoldable pub gossip_pull_request_handler : AnyMessage → Central → Outcome
unfolding write_to find_outgoing im
gossip_pull_request_handler (AnyMessage.peer_value peer) c = returns (
    write_to (im InternalMessageType.gossip_pull_request_msg (AnyMessage.peer_value peer))
      (find_outgoing peer c) c)
gossip_pull_request_handler _ c = returns c

unfoldable pub gossip_pull_reply_handler : AnyMessage → Central → Outcome
unfolding write_to im
gossip_pull_reply_handler (AnyMessage.gossip_pull_reply to items) c = returns (
    write_to (im InternalMessageType.gossip_pull_reply_msg (AnyMessage.gossip_pull_reply to items))
      (lookup to c.incoming_view_list) c)
gossip_pull_reply_handler _ c = returns c

-- A send whose outcome is the handler's.
unfoldable pub then_return : Option Central → Outcome
then_return none = none
then_return (some c) = returns c

-- The switch of `incomingAPIHandler`: the payload has to be of the type that belongs to the message.
unfoldable pub route_api : InternalMessageType → AnyMessage → Central → Outcome
unfolding send_gossiper im then_return
route_api InternalMessageType.gossip_announce_msg (AnyMessage.gossip_announce a) c =
    then_return
      (send_gossiper (im InternalMessageType.gossip_announce_msg (AnyMessage.gossip_announce a)) c)
route_api InternalMessageType.gossip_notify_msg (AnyMessage.gossip_notify ntf) c =
    then_return
      (send_gossiper (im InternalMessageType.gossip_notify_msg (AnyMessage.gossip_notify ntf)) c)
route_api InternalMessageType.gossip_validation_msg (AnyMessage.gossip_validation val) c =
    then_return (
      send_gossiper
        (im InternalMessageType.gossip_validation_msg (AnyMessage.gossip_validation val)) c)
route_api _ _ c = returns c

unfoldable pub incoming_api_handler : AnyMessage → Central → Outcome
unfolding route_api
incoming_api_handler (AnyMessage.internal_message t a) c = route_api t a c
incoming_api_handler _ c = returns c

-- The switch of `incomingP2PHandler`.
unfoldable pub route_p2p : InternalMessageType → AnyMessage → Central → Outcome
unfolding send_membership send_gossiper im then_return
route_p2p InternalMessageType.membership_incoming_push_request_msg a c =
    then_return (send_membership (im InternalMessageType.membership_incoming_push_request_msg a) c)
route_p2p InternalMessageType.membership_incoming_pull_request_msg a c =
    then_return (send_membership (im InternalMessageType.membership_incoming_pull_request_msg a) c)
route_p2p InternalMessageType.membership_incoming_pull_reply_msg a c =
    then_return (send_membership (im InternalMessageType.membership_incoming_pull_reply_msg a) c)
route_p2p InternalMessageType.gossip_incoming_push_msg a c =
    then_return (send_gossiper (im InternalMessageType.gossip_incoming_push_msg a) c)
route_p2p InternalMessageType.gossip_incoming_pull_request_msg a c =
    then_return (send_gossiper (im InternalMessageType.gossip_incoming_pull_request_msg a) c)
route_p2p InternalMessageType.gossip_incoming_pull_reply_msg a c =
    then_return (send_gossiper (im InternalMessageType.gossip_incoming_pull_reply_msg a) c)
route_p2p _ a c = returns c

-- The type assertion of the message panics if it fails.
unfoldable pub incoming_p2p_handler : AnyMessage → Central → Outcome
unfolding route_p2p
incoming_p2p_handler (AnyMessage.internal_message t a) c = route_p2p t a c
incoming_p2p_handler _ c = none

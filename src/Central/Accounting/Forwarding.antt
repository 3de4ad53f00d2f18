-- ===== src/Central/Accounting/Forwarding.antt =====
-- The handlers that pass messages on keep the count.
use gossip_protocol.Base.{Option, none, some, [], ◌∷◌}
use gossip_protocol.Message.{
  Peer-Comparable, ApiClient-Comparable, AnyMessage, InternalMessage, InternalMessageType,
  GossipNotification, api_notification_msg, api_notification, gossip_announce_msg,
  gossip_notify_msg, gossip_validation_msg, membership_incoming_push_request_msg,
  membership_incoming_pull_request_msg, membership_incoming_pull_reply_msg,
  gossip_incoming_push_msg, gossip_incoming_pull_request_msg, gossip_incoming_pull_reply_msg,
}
use gossip_protocol.Central.State.{
  Central, PeerInfo, ApiInfo, GoroutineState, running, stopped, Effect, emit, im,
}
use gossip_protocol.Central.Forward.{
  write_to, notify_api, membership_push_request_handler, membership_pull_request_handler,
  membership_pull_reply_handler, gossip_notification_handler, gossip_push_handler,
  gossip_pull_request_handler, gossip_pull_reply_handler, route_api, incoming_api_handler,
  route_p2p, incoming_p2p_handler,
}
use gossip_protocol.Central.Accounting.Count.{
  Sound, Good, Each, returns-Good, then_return-Good, emit-Sound, send_membership-Sound,
  send_gossiper-Sound,
}

write_to-Sound :
    (m : InternalMessage) (o : Option PeerInfo) (c : Central) → Sound c → Sound (write_to m o c)
unfolding write_to
write_to-Sound m none c s = s
write_to-Sound m (some info) c s = by_state info.state.writer_state
  where
    by_state :
        (w : GoroutineState)
        → Sound (elim w [ stopped ↦ c | running ↦ emit (Effect.to_p2p info.endpoint m ∷ []) c ])
    by_state stopped = s
    by_state running = emit-Sound _ c s

notify_api-Sound :
    (ntf : GossipNotification) (o : Option ApiInfo) (c : Central)
    → Sound c
    → Sound (notify_api ntf o c)
unfolding notify_api
notify_api-Sound ntf none c s = s
notify_api-Sound ntf (some info) c s = by_state info.state.writer_state
  where
    by_state :
        (w : GoroutineState)
        → Sound (elim w [
          | stopped ↦ c
          | running ↦
              emit
                (Effect.to_api info.endpoint (im api_notification_msg (api_notification ntf)) ∷ [])
                c
        ])
    by_state stopped = s
    by_state running = emit-Sound _ c s

pub membership_push_request-Good :
    (a : AnyMessage) (c : Central) → Sound c → Each Good (membership_push_request_handler a c)
unfolding membership_push_request_handler
membership_push_request-Good (AnyMessage.membership_push_request pr) c s =
    returns-Good _ (write_to-Sound _ _ c s)
membership_push_request-Good _ c s = returns-Good c s

pub membership_pull_request-Good :
    (a : AnyMessage) (c : Central) → Sound c → Each Good (membership_pull_request_handler a c)
unfolding membership_pull_request_handler
membership_pull_request-Good (AnyMessage.peer_value peer) c s =
    returns-Good _ (write_to-Sound _ _ c s)
membership_pull_request-Good _ c s = returns-Good c s

pub membership_pull_reply-Good :
    (a : AnyMessage) (c : Central) → Sound c → Each Good (membership_pull_reply_handler a c)
unfolding membership_pull_reply_handler
membership_pull_reply-Good (AnyMessage.membership_pull_reply to peers) c s =
    returns-Good _ (write_to-Sound _ _ c s)
membership_pull_reply-Good _ c s = returns-Good c s

pub gossip_notification-Good :
    (a : AnyMessage) (c : Central) → Sound c → Each Good (gossip_notification_handler a c)
unfolding gossip_notification_handler
gossip_notification-Good (AnyMessage.gossip_notification ntf) c s =
    returns-Good _ (notify_api-Sound ntf _ c s)
gossip_notification-Good _ c s = returns-Good c s

pub gossip_push-Good :
    (a : AnyMessage) (c : Central) → Sound c → Each Good (gossip_push_handler a c)
unfolding gossip_push_handler
gossip_push-Good (AnyMessage.gossip_push push) c s = returns-Good _ (write_to-Sound _ _ c s)
gossip_push-Good _ c s = returns-Good c s

pub gossip_pull_request-Good :
    (a : AnyMessage) (c : Central) → Sound c → Each Good (gossip_pull_request_handler a c)
unfolding gossip_pull_request_handler
gossip_pull_request-Good (AnyMessage.peer_value peer) c s = returns-Good _ (write_to-Sound _ _ c s)
gossip_pull_request-Good _ c s = returns-Good c s

pub gossip_pull_reply-Good :
    (a : AnyMessage) (c : Central) → Sound c → Each Good (gossip_pull_reply_handler a c)
unfolding gossip_pull_reply_handler
gossip_pull_reply-Good (AnyMessage.gossip_pull_reply to items) c s =
    returns-Good _ (write_to-Sound _ _ c s)
gossip_pull_reply-Good _ c s = returns-Good c s

route_api-Good :
    (t : InternalMessageType) (a : AnyMessage) (c : Central) → Sound c → Each Good (route_api t a c)
unfolding route_api
route_api-Good gossip_announce_msg (AnyMessage.gossip_announce x) c s =
    then_return-Good _ (send_gossiper-Sound _ c s)
route_api-Good gossip_notify_msg (AnyMessage.gossip_notify x) c s =
    then_return-Good _ (send_gossiper-Sound _ c s)
route_api-Good gossip_validation_msg (AnyMessage.gossip_validation x) c s =
    then_return-Good _ (send_gossiper-Sound _ c s)
route_api-Good _ _ c s = returns-Good c s

pub incoming_api-Good :
    (a : AnyMessage) (c : Central) → Sound c → Each Good (incoming_api_handler a c)
unfolding incoming_api_handler
incoming_api-Good (AnyMessage.internal_message t a) c s = route_api-Good t a c s
incoming_api-Good _ c s = returns-Good c s

route_p2p-Good :
    (t : InternalMessageType) (a : AnyMessage) (c : Central) → Sound c → Each Good (route_p2p t a c)
unfolding route_p2p
route_p2p-Good membership_incoming_push_request_msg a c s =
    then_return-Good _ (send_membership-Sound _ c s)
route_p2p-Good membership_incoming_pull_request_msg a c s =
    then_return-Good _ (send_membership-Sound _ c s)
route_p2p-Good membership_incoming_pull_reply_msg a c s =
    then_return-Good _ (send_membership-Sound _ c s)
route_p2p-Good gossip_incoming_push_msg a c s = then_return-Good _ (send_gossiper-Sound _ c s)
route_p2p-Good gossip_incoming_pull_request_msg a c s =
    then_return-Good _ (send_gossiper-Sound _ c s)
route_p2p-Good gossip_incoming_pull_reply_msg a c s = then_return-Good _ (send_gossiper-Sound _ c s)
route_p2p-Good _ a c s = returns-Good c s

pub incoming_p2p-Good :
    (a : AnyMessage) (c : Central) → Sound c → Each Good (incoming_p2p_handler a c)
unfolding incoming_p2p_handler
incoming_p2p-Good (AnyMessage.internal_message t a) c s = route_p2p-Good t a c s
incoming_p2p-Good _ c s = λ r e. cc

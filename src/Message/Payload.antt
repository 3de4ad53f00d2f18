-- ===== src/Message/Payload.antt =====
-- `InternalMessageType`, `AnyMessage` and `InternalMessage`.
use gossip_protocol.Base.{ℕ, Bool, Option, List, Bytes}
use gossip_protocol.Message.Types.{
  Peer, ApiClient, MedianCounterState, Pointer, MembershipPushRequest, RandomPeerListRequest,
  P2PEndpoint, ApiEndpoint,
}

pub data InternalMessageType : Type 0 where
  peer_add_msg peer_remove_msg peer_disconnected_msg probe_peer_request_msg : InternalMessageType
  probe_peer_reply_msg membership_push_request_msg : InternalMessageType
  membership_incoming_push_request_msg membership_pull_request_msg : InternalMessageType
  membership_incoming_pull_request_msg membership_pull_reply_msg : InternalMessageType
  membership_incoming_pull_reply_msg membership_crashed_msg : InternalMessageType
  membership_close_msg membership_closed_msg : InternalMessageType
  random_peer_list_request_msg random_peer_list_reply_msg : InternalMessageType
  random_peer_list_release_msg gossip_announce_msg gossip_notify_msg : InternalMessageType
  gossip_unnotify_msg gossip_notification_msg gossip_validation_msg : InternalMessageType
  gossip_push_msg gossip_incoming_push_msg gossip_pull_request_msg : InternalMessageType
  gossip_incoming_pull_request_msg gossip_pull_reply_msg : InternalMessageType
  gossip_incoming_pull_reply_msg gossiper_crashed_msg gossiper_close_msg : InternalMessageType
  gossiper_closed_msg outgoing_p2p_created_msg central_probe_peer_reply_msg : InternalMessageType
  central_crash_msg central_close_msg api_listener_crashed_msg : InternalMessageType
  api_listener_closed_msg api_endpoint_created_msg api_announce_msg api_notify_msg :
      InternalMessageType
  api_notification_msg api_validation_msg api_endpoint_crashed_msg : InternalMessageType
  api_endpoint_closed_msg api_endpoint_close_msg incoming_api_msg : InternalMessageType
  p2p_listener_crashed_msg p2p_listener_closed_msg incoming_p2p_created_msg : InternalMessageType
  p2p_endpoint_crashed_msg p2p_endpoint_closed_msg p2p_endpoint_close_msg : InternalMessageType
  incoming_p2p_msg : InternalMessageType

pub record GossipAnnounce : Type 0 where
  pub item : Option Pointer
  pub ttl : ℕ

pub record GossipNotify : Type 0 where
  pub who : ApiClient
  pub what : ℕ

pub record GossipNotification : Type 0 where
  pub who : ApiClient
  pub item : Pointer
  pub id : ℕ

pub record GossipValidation : Type 0 where
  pub who : ApiClient
  pub id : ℕ
  pub valid : Bool

pub record GossipPush : Type 0 where
  pub item : Option Pointer
  pub state : MedianCounterState
  pub counter : ℕ
  pub to : Peer

pub record GossipItemExtended : Type 0 where
  pub item : Option Pointer
  pub state : MedianCounterState
  pub counter : ℕ

-- The dynamic types that a payload may have: a handler asserts one of them. The payload of an
-- unsent message type is left out.
pub data AnyMessage : Type 0 where
  peer_value : Peer → AnyMessage
  api_client_value : ApiClient → AnyMessage
  void_value : AnyMessage
  error_value : Bytes → AnyMessage
  probe_peer_reply : Peer → Bool → AnyMessage
  central_probe_peer_reply : Peer → Bool → AnyMessage
  membership_push_request : MembershipPushRequest → AnyMessage
  membership_push_request_pointer : MembershipPushRequest → AnyMessage
  membership_incoming_pull_request : Peer → AnyMessage
  membership_pull_reply membership_incoming_pull_reply : Peer → List Peer → AnyMessage
  random_peer_list_request : RandomPeerListRequest → AnyMessage
  random_peer_list_reply : Option Pointer → List Peer → AnyMessage
  random_peer_list_release : List Peer → AnyMessage
  gossip_announce : GossipAnnounce → AnyMessage
  gossip_notify : GossipNotify → AnyMessage
  gossip_notification api_notification : GossipNotification → AnyMessage
  gossip_validation : GossipValidation → AnyMessage
  gossip_push : GossipPush → AnyMessage
  gossip_item_extended : GossipItemExtended → AnyMessage
  gossip_incoming_pull_request : Peer → AnyMessage
  gossip_pull_reply gossip_incoming_pull_reply : Peer → List GossipItemExtended → AnyMessage
  api_endpoint : ApiEndpoint → AnyMessage
  p2p_endpoint : P2PEndpoint → AnyMessage
  api_endpoint_crashed : ApiEndpoint → Bool → Bytes → AnyMessage
  api_endpoint_closed : ApiEndpoint → Bool → AnyMessage
  p2p_endpoint_crashed : P2PEndpoint → Bool → Bytes → AnyMessage
  p2p_endpoint_closed : P2PEndpoint → Bool → AnyMessage
  internal_message : InternalMessageType → AnyMessage → AnyMessage

pub record InternalMessage : Type 0 where
  pub type : InternalMessageType
  pub payload : AnyMessage

-- What a handler returns: nil, `*CloseError`, or another error.
pub data HandlerError : Type 0 where
  no_error close_error other_error : HandlerError

-- ===== src/Central/Peers.antt =====
-- The handlers that add, remove and probe peers, and those of endpoints that were created.
use gossip_protocol.Base.{
  Bool, true, false, ◌||◌, Option, none, some, [], ◌∷◌, lookup, insert, erase, contains, leb,
  length, ◌>>=◌, pos, ◌+ℤ◌, leb_ℤ, if◌then◌else◌,
}
use gossip_protocol.Datastruct.IndexedMap.{get_value, put, remove, is_member}
use gossip_protocol.Message.{
  Peer, Peer-Comparable, ApiClient-Comparable, P2PEndpoint, ApiEndpoint, InternalMessageType,
  AnyMessage,
}
use gossip_protocol.Central.State.{
  Central, PeerInfo, Effect, Outcome, returns, emit, im, send_membership, both_running,
}
use gossip_protocol.Central.Forward.{then_return}
use gossip_protocol.Central.Random.{settle}

-- A peer that is neither in the view list nor awaits removal.
unfoldable pub add_unknown : Peer → Central → Central
unfolding emit
add_unknown peer c =
    if contains peer c.actively_created_peers
    then record c { actively_created_peers = insert peer false c.actively_created_peers }
    else if contains peer c.actively_probed_peers
    then record c { actively_probed_peers = insert peer true c.actively_probed_peers }
    else emit (Effect.dial peer ∷ [])
        (record c { actively_created_peers = insert peer false c.actively_created_peers })

unfoldable pub add_peer : Peer → Central → Central
unfolding add_unknown put
add_peer peer c =
    if is_member peer c.view_list then c else elim (lookup peer c.awaiting_removal_view_list) [
      | some info ↦ record c {
        awaiting_removal_view_list = erase peer c.awaiting_removal_view_list;
        view_list = put peer info c.view_list;
      }
      | none ↦ add_unknown peer c
    ]

unfoldable pub peer_add_handler : AnyMessage → Central → Outcome
unfolding add_peer
peer_add_handler (AnyMessage.peer_value peer) c = returns (add_peer peer c)
peer_add_handler _ c = returns c

-- A member of the view list is moved to those that await removal.
unfoldable pub remove_viewed : Peer → PeerInfo → Central → Option Central
unfolding remove settle
remove_viewed peer info c = do
  view ← remove peer c.view_list
  let c' = record c {
    view_list = view;
    awaiting_removal_view_list = insert peer info c.awaiting_removal_view_list;
  }
  some (if leb_ℤ info.usage_counter (pos 0) then settle peer info c' else c')

unfoldable pub remove_unknown : Peer → Central → Central
remove_unknown peer c =
    if contains peer c.actively_created_peers
    then record c { actively_created_peers = insert peer true c.actively_created_peers }
    else if contains peer c.actively_probed_peers
    then record c { actively_probed_peers = insert peer false c.actively_probed_peers }
    else c

unfoldable pub remove_peer : Peer → Central → Option Central
unfolding remove_viewed remove_unknown get_value
remove_peer peer c =
    if contains peer c.awaiting_removal_view_list
    then some c
    else elim (get_value peer c.view_list) [
      | some info ↦ remove_viewed peer info c
      | none ↦ some (remove_unknown peer c)
    ]

unfoldable pub peer_remove_handler : AnyMessage → Central → Outcome
unfolding remove_peer then_return
peer_remove_handler (AnyMessage.peer_value peer) c = then_return (remove_peer peer c)
peer_remove_handler _ c = returns c

unfoldable pub probe_peer : Peer → Central → Option Central
unfolding send_membership emit im
probe_peer peer c =
    if is_member peer c.view_list
      || contains peer c.awaiting_removal_view_list
      || contains peer c.actively_created_peers
    then send_membership
        (im InternalMessageType.probe_peer_reply_msg (AnyMessage.probe_peer_reply peer true)) c
    else some (
        emit (Effect.probe peer ∷ [])
          (record c { actively_probed_peers = insert peer false c.actively_probed_peers }))

unfoldable pub probe_peer_request_handler : AnyMessage → Central → Outcome
unfolding probe_peer then_return
probe_peer_request_handler (AnyMessage.peer_value peer) c = then_return (probe_peer peer c)
probe_peer_request_handler _ c = returns c

-- The reply of the goroutine that probed.
unfoldable pub take_probe : Peer → Bool → Central → Option Central
unfolding send_membership emit im
take_probe peer result c = elim (lookup peer c.actively_probed_peers) [
  | none ↦ some c
  | some add ↦ do
    told ←
        send_membership
          (im InternalMessageType.probe_peer_reply_msg (AnyMessage.probe_peer_reply peer result))
          (record c { actively_probed_peers = erase peer c.actively_probed_peers })
    some (
        if add
        then emit
            (Effect.to_self (im InternalMessageType.peer_add_msg (AnyMessage.peer_value peer)) ∷ [])
            told
        else told)
]

unfoldable pub central_probe_peer_reply_handler : AnyMessage → Central → Outcome
unfolding take_probe then_return
central_probe_peer_reply_handler (AnyMessage.central_probe_peer_reply peer result) c =
    then_return (take_probe peer result c)
central_probe_peer_reply_handler _ c = returns c

-- Starts the two goroutines of an endpoint.
unfoldable pub start : Effect → Central → Central
unfolding emit
start e c = emit (e ∷ []) (record c { total_goroutines = c.total_goroutines +ℤ pos 2 })

abbrev pub fresh_info : P2PEndpoint → PeerInfo
fresh_info endp = record {
  endpoint = endp;
  usage_counter = pos 0;
  state = both_running;
  has_crashed = false;
}

unfoldable pub admit_outgoing : P2PEndpoint → Bool → Central → Central
unfolding start put emit im
admit_outgoing endp to_be_removed c =
    let started =
      start (Effect.run_p2p endp)
        (record c { actively_created_peers = erase endp.peer c.actively_created_peers }) in
    let added = record started { view_list = put endp.peer (fresh_info endp) started.view_list } in
    if to_be_removed
    then emit
        (Effect.to_self (im InternalMessageType.peer_remove_msg (AnyMessage.peer_value endp.peer))
          ∷ [])
        added
    else added

unfoldable pub outgoing_created : P2PEndpoint → Central → Central
unfolding admit_outgoing emit
outgoing_created endp c = elim (lookup endp.peer c.actively_created_peers) [
  | none ↦ emit (Effect.close_p2p_conn endp ∷ []) c
  | some to_be_removed ↦ admit_outgoing endp to_be_removed c
]

unfoldable pub outgoing_p2p_created_handler : AnyMessage → Central → Outcome
unfolding outgoing_created
outgoing_p2p_created_handler (AnyMessage.p2p_endpoint endp) c = returns (outgoing_created endp c)
outgoing_p2p_created_handler _ c = returns c

unfoldable pub incoming_created : P2PEndpoint → Central → Central
unfolding start emit
incoming_created endp c =
    if leb c.incoming_view_list_max (length c.incoming_view_list)
      || contains endp.peer c.incoming_view_list
      || c.is_stopping
    then emit (Effect.close_p2p_conn endp ∷ []) c
    else start (Effect.run_p2p endp)
        (record c { incoming_view_list = insert endp.peer (fresh_info endp) c.incoming_view_list })

unfoldable pub incoming_p2p_created_handler : AnyMessage → Central → Outcome
unfolding incoming_created
incoming_p2p_created_handler (AnyMessage.p2p_endpoint endp) c = returns (incoming_created endp c)
incoming_p2p_created_handler _ c = returns c

unfoldable pub api_created : ApiEndpoint → Central → Central
unfolding start emit
api_created endp c =
    if leb c.api_clients_max (length c.api_clients)
      || contains endp.api_client c.api_clients
      || c.is_stopping
    then emit (Effect.close_api_conn endp ∷ []) c
    else start (Effect.run_api endp) (record c {
      api_clients =
          insert endp.api_client
            (record { endpoint = endp; state = both_running; has_crashed = false }) c.api_clients;
    })

unfoldable pub api_endpoint_created_handler : AnyMessage → Central → Outcome
unfolding api_created
api_endpoint_created_handler (AnyMessage.api_endpoint endp) c = returns (api_created endp c)
api_endpoint_created_handler _ c = returns c

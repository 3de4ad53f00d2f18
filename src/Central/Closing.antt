-- ===== src/Central/Closing.antt =====
-- The handlers of endpoints, listeners and controllers that closed or crashed.
use gossip_protocol.Base.{
  Bool, true, false, ◌||◌, not, Option, none, some, [], ◌∷◌, lookup, insert, erase, contains, ◌>>=◌,
  pos, leb_ℤ, if◌then◌else◌,
}
use gossip_protocol.Datastruct.IndexedMap.{get_value, put, remove}
use gossip_protocol.Message.{
  Peer, Peer-Comparable, ApiClient-Comparable, P2PEndpoint, ApiEndpoint, InternalMessageType,
  AnyMessage,
}
use gossip_protocol.Central.State.{
  Central, PeerInfo, ApiInfo, Effect, Outcome, returns, emit, im, send_membership, send_gossiper,
  no_listener, have_both_stopped, stop_goroutine, decrement, check_done,
}

-- An error that is reported is a panic of the controller.
abbrev pub crashed : AnyMessage → Central → Outcome
crashed (AnyMessage.error_value e) c = none
crashed _ c = returns c

unfoldable pub membership_crashed_handler : AnyMessage → Central → Outcome
membership_crashed_handler a c = crashed a c

unfoldable pub gossiper_crashed_handler : AnyMessage → Central → Outcome
gossiper_crashed_handler a c = crashed a c

unfoldable pub api_listener_crashed_handler : AnyMessage → Central → Outcome
api_listener_crashed_handler a c = crashed a c

unfoldable pub p2p_listener_crashed_handler : AnyMessage → Central → Outcome
p2p_listener_crashed_handler a c = crashed a c

unfoldable pub membership_closed_handler : AnyMessage → Central → Outcome
unfolding decrement check_done
membership_closed_handler AnyMessage.void_value c =
    some (check_done (decrement (record c { membership_controller = false })))
membership_closed_handler _ c = returns c

unfoldable pub gossiper_closed_handler : AnyMessage → Central → Outcome
unfolding decrement check_done
gossiper_closed_handler AnyMessage.void_value c =
    some (check_done (decrement (record c { gossiper = false })))
gossiper_closed_handler _ c = returns c

unfoldable pub api_listener_closed_handler : AnyMessage → Central → Outcome
unfolding decrement check_done
api_listener_closed_handler AnyMessage.void_value c =
    some (check_done (decrement (record c { api_listener = no_listener })))
api_listener_closed_handler _ c = returns c

unfoldable pub p2p_listener_closed_handler : AnyMessage → Central → Outcome
unfolding decrement check_done
p2p_listener_closed_handler AnyMessage.void_value c =
    some (check_done (decrement (record c { p2p_listener = no_listener })))
p2p_listener_closed_handler _ c = returns c

-- `apiEndpointClosed`, for an endpoint whose state after the closure is `info`.
unfoldable pub api_settled : ApiEndpoint → ApiInfo → Central → Outcome
unfolding have_both_stopped emit im send_gossiper check_done
api_settled endp info c =
    if have_both_stopped info.state
    then (do
      let gone =
          emit (Effect.close_api_conn endp ∷ [])
            (record c { api_clients = erase endp.api_client c.api_clients })
      told ←
          send_gossiper
            (im InternalMessageType.gossip_unnotify_msg
              (AnyMessage.api_client_value endp.api_client))
            gone
      some (check_done told))
    else if info.has_crashed
    then returns (emit (Effect.close_api info.endpoint ∷ []) c)
    else returns c

unfoldable pub api_endpoint_closed : ApiEndpoint → Bool → Bool → Central → Outcome
unfolding stop_goroutine decrement api_settled
api_endpoint_closed endp is_reader err c = elim (lookup endp.api_client c.api_clients) [
  | none ↦ returns c
  | some info ↦ elim (stop_goroutine is_reader info.state) [
    | none ↦ returns c
    | some s ↦
        let info' = record info { state = s; has_crashed = info.has_crashed || err } in
        api_settled endp info'
          (record (decrement c) { api_clients = insert endp.api_client info' c.api_clients })
  ]
]

unfoldable pub api_endpoint_crashed_handler : AnyMessage → Central → Outcome
unfolding api_endpoint_closed
api_endpoint_crashed_handler (AnyMessage.api_endpoint_crashed endp is_reader err) c =
    api_endpoint_closed endp is_reader true c
api_endpoint_crashed_handler _ c = returns c

unfoldable pub api_endpoint_closed_handler : AnyMessage → Central → Outcome
unfolding api_endpoint_closed
api_endpoint_closed_handler (AnyMessage.api_endpoint_closed endp is_reader) c =
    api_endpoint_closed endp is_reader false c
api_endpoint_closed_handler _ c = returns c

-- Where the entry of an endpoint that is completely closed is kept or deleted.
unfoldable pub drop_outgoing : PeerInfo → Bool → Central → Option Central
unfolding remove send_membership im
drop_outgoing info in_removal_list c =
    let peer = info.endpoint.peer in
    if c.is_stopping
    then (do
      view ← remove peer c.view_list
      some (record c {
        view_list = view;
        awaiting_removal_view_list = erase peer c.awaiting_removal_view_list;
      }))
    else if not in_removal_list
    then send_membership (im InternalMessageType.peer_disconnected_msg (AnyMessage.peer_value peer))
        c
    else if leb_ℤ info.usage_counter (pos 0)
    then some (record c { awaiting_removal_view_list = erase peer c.awaiting_removal_view_list })
    else some c

unfoldable pub outgoing_peer_completely_closed : PeerInfo → Bool → Central → Outcome
unfolding drop_outgoing emit check_done
outgoing_peer_completely_closed info in_removal_list c = do
  dropped ← drop_outgoing info in_removal_list c
  some (check_done (emit (Effect.close_p2p_conn info.endpoint ∷ []) dropped))

unfoldable pub outgoing_settled : PeerInfo → Bool → Central → Outcome
unfolding have_both_stopped outgoing_peer_completely_closed emit
outgoing_settled info in_removal_list c =
    if have_both_stopped info.state
    then outgoing_peer_completely_closed info in_removal_list c
    else if info.has_crashed
    then returns (emit (Effect.close_p2p info.endpoint ∷ []) c)
    else returns c

-- A write through the pointer that the view list holds, or else the other list.
unfoldable pub store_outgoing : Peer → Bool → PeerInfo → Central → Central
unfolding put
store_outgoing peer viewed info c =
    if viewed
    then record c { view_list = put peer info c.view_list }
    else record c { awaiting_removal_view_list = insert peer info c.awaiting_removal_view_list }

unfoldable pub close_outgoing : Peer → Bool → Bool → Bool → Bool → PeerInfo → Central → Outcome
unfolding stop_goroutine outgoing_settled store_outgoing decrement
close_outgoing peer viewed in_removal_list is_reader err info c =
    elim (stop_goroutine is_reader info.state) [
      | none ↦ returns c
      | some s ↦
          let info' = record info { state = s; has_crashed = info.has_crashed || err } in
          outgoing_settled info' in_removal_list (store_outgoing peer viewed info' (decrement c))
    ]

unfoldable pub outgoing_peer_closed : P2PEndpoint → Bool → Bool → Central → Outcome
unfolding close_outgoing get_value
outgoing_peer_closed endp is_reader err c = elim (get_value endp.peer c.view_list) [
  | some info ↦
      close_outgoing endp.peer true (contains endp.peer c.awaiting_removal_view_list) is_reader err
        info c
  | none ↦ elim (lookup endp.peer c.awaiting_removal_view_list) [
    | some info ↦ close_outgoing endp.peer false true is_reader err info c
    | none ↦ returns c
  ]
]

unfoldable pub incoming_settled : P2PEndpoint → PeerInfo → Central → Outcome
unfolding have_both_stopped emit check_done
incoming_settled endp info c =
    if have_both_stopped info.state
    then some (
        check_done (
          emit (Effect.close_p2p_conn endp ∷ [])
            (record c { incoming_view_list = erase endp.peer c.incoming_view_list })))
    else if info.has_crashed
    then returns (emit (Effect.close_p2p info.endpoint ∷ []) c)
    else returns c

unfoldable pub incoming_peer_closed : P2PEndpoint → Bool → Bool → Central → Outcome
unfolding stop_goroutine decrement incoming_settled
incoming_peer_closed endp is_reader err c = elim (lookup endp.peer c.incoming_view_list) [
  | none ↦ returns c
  | some info ↦ elim (stop_goroutine is_reader info.state) [
    | none ↦ returns c
    | some s ↦
        let info' = record info { state = s; has_crashed = info.has_crashed || err } in
        incoming_settled endp info' (record (decrement c) {
          incoming_view_list = insert endp.peer info' c.incoming_view_list;
        })
  ]
]

unfoldable pub p2p_closed : P2PEndpoint → Bool → Bool → Central → Outcome
unfolding outgoing_peer_closed incoming_peer_closed
p2p_closed endp is_reader err c =
    if endp.is_outgoing
    then outgoing_peer_closed endp is_reader err c
    else incoming_peer_closed endp is_reader err c

unfoldable pub p2p_endpoint_crashed_handler : AnyMessage → Central → Outcome
unfolding p2p_closed
p2p_endpoint_crashed_handler (AnyMessage.p2p_endpoint_crashed endp is_reader err) c =
    p2p_closed endp is_reader true c
p2p_endpoint_crashed_handler _ c = returns c

unfoldable pub p2p_endpoint_closed_handler : AnyMessage → Central → Outcome
unfolding p2p_closed
p2p_endpoint_closed_handler (AnyMessage.p2p_endpoint_closed endp is_reader) c =
    p2p_closed endp is_reader false c
p2p_endpoint_closed_handler _ c = returns c

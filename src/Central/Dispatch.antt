-- ===== src/Central/Dispatch.antt =====
-- The handlers of the closing command and of a crash, and the loop of `Run`.
use gossip_protocol.Base.{
  ℕ, Bool, true, false, ◌&&◌, not, Option, none, some, List, [], ◌∷◌, ◌++◌, map, Map, ◌>>=◌, pos,
  ◌+ℤ◌, if◌then◌else◌,
}
use gossip_protocol.Datastruct.IndexedMap.{new}
use gossip_protocol.Message.{InternalMessage, InternalMessageType, AnyMessage}
use gossip_protocol.Central.State.{
  Central, Listener, listening, closing, Effect, Outcome, returns, emit, im, send_membership,
  send_gossiper,
}
use gossip_protocol.Central.Forward.{
  membership_push_request_handler, membership_pull_request_handler, membership_pull_reply_handler,
  gossip_notification_handler, gossip_push_handler, gossip_pull_request_handler,
  gossip_pull_reply_handler, incoming_api_handler, incoming_p2p_handler, then_return,
}
use gossip_protocol.Central.Random.{
  random_peer_list_request_handler, random_peer_list_release_handler,
}
use gossip_protocol.Central.Peers.{
  peer_add_handler, peer_remove_handler, probe_peer_request_handler,
  central_probe_peer_reply_handler, outgoing_p2p_created_handler, incoming_p2p_created_handler,
  api_endpoint_created_handler,
}
use gossip_protocol.Central.Closing.{
  crashed, membership_crashed_handler, gossiper_crashed_handler, api_listener_crashed_handler,
  p2p_listener_crashed_handler, membership_closed_handler, gossiper_closed_handler,
  api_listener_closed_handler, p2p_listener_closed_handler, api_endpoint_crashed_handler,
  api_endpoint_closed_handler, p2p_endpoint_crashed_handler, p2p_endpoint_closed_handler,
}

unfoldable pub crash_handler : AnyMessage → Central → Outcome
crash_handler a c = crashed a c

-- `Close` of a listener: it panics on nil, and on a channel that is closed already.
unfoldable pub close_listener : Listener → Option Listener
close_listener listening = some closing
close_listener _ = none

-- `m[k] = b` for every key.
unfoldable pub mark_all : {K : Type 0} → Bool → Map K Bool → Map K Bool
mark_all b [] = []
mark_all b ((k, v) ∷ m) = (k, b) ∷ mark_all b m

-- `Close` for all endpoints, and the end of `closeHandler`.
unfoldable pub close_endpoints : Central → Central
unfolding mark_all emit
close_endpoints c =
    emit
      (map (λ e. Effect.close_p2p e.1.value.endpoint) c.view_list.m
        ++ map (λ e. Effect.close_p2p e.1.endpoint) c.awaiting_removal_view_list
        ++ map (λ e. Effect.close_p2p e.1.endpoint) c.incoming_view_list
        ++ map (λ e. Effect.close_api e.1.endpoint) c.api_clients
        ++ Effect.start_crash_timer ∷ [])
      (record c {
        actively_created_peers = mark_all true c.actively_created_peers;
        actively_probed_peers = mark_all false c.actively_probed_peers;
        is_stopping = true;
      })

unfoldable pub begin_close : Central → Option Central
unfolding close_listener close_endpoints send_membership send_gossiper im
begin_close c = do
  api ← close_listener c.api_listener
  p2p ← close_listener c.p2p_listener
  membership_told ←
      send_membership (im InternalMessageType.membership_close_msg AnyMessage.void_value)
        (record c { api_listener = api; p2p_listener = p2p })
  told ←
      send_gossiper (im InternalMessageType.gossiper_close_msg AnyMessage.void_value)
        membership_told
  some (close_endpoints told)

unfoldable pub close_handler : AnyMessage → Central → Outcome
unfolding begin_close then_return
close_handler AnyMessage.void_value c = then_return (begin_close c)
close_handler _ c = returns c

-- `centralControllerStopMessages`
unfoldable pub is_stop_message : InternalMessageType → Bool
is_stop_message InternalMessageType.peer_remove_msg = true
is_stop_message InternalMessageType.membership_crashed_msg = true
is_stop_message InternalMessageType.membership_closed_msg = true
is_stop_message InternalMessageType.gossiper_crashed_msg = true
is_stop_message InternalMessageType.gossiper_closed_msg = true
is_stop_message InternalMessageType.api_listener_crashed_msg = true
is_stop_message InternalMessageType.api_listener_closed_msg = true
is_stop_message InternalMessageType.api_endpoint_created_msg = true
is_stop_message InternalMessageType.api_endpoint_crashed_msg = true
is_stop_message InternalMessageType.api_endpoint_closed_msg = true
is_stop_message InternalMessageType.p2p_listener_crashed_msg = true
is_stop_message InternalMessageType.p2p_listener_closed_msg = true
is_stop_message InternalMessageType.incoming_p2p_created_msg = true
is_stop_message InternalMessageType.p2p_endpoint_crashed_msg = true
is_stop_message InternalMessageType.p2p_endpoint_closed_msg = true
is_stop_message InternalMessageType.outgoing_p2p_created_msg = true
is_stop_message InternalMessageType.central_crash_msg = true
is_stop_message _ = false

-- `centralControllerHandlers`; a type without a handler is the call of a nil function. `perm` is
-- `rand.Perm`.
unfoldable pub dispatch : (ℕ → List ℕ) → InternalMessageType → AnyMessage → Central → Outcome
dispatch perm InternalMessageType.peer_add_msg a c = peer_add_handler a c
dispatch perm InternalMessageType.peer_remove_msg a c = peer_remove_handler a c
dispatch perm InternalMessageType.probe_peer_request_msg a c = probe_peer_request_handler a c
dispatch perm InternalMessageType.membership_push_request_msg a c =
    membership_push_request_handler a c
dispatch perm InternalMessageType.membership_pull_request_msg a c =
    membership_pull_request_handler a c
dispatch perm InternalMessageType.membership_pull_reply_msg a c = membership_pull_reply_handler a c
dispatch perm InternalMessageType.membership_crashed_msg a c = membership_crashed_handler a c
dispatch perm InternalMessageType.membership_closed_msg a c = membership_closed_handler a c
dispatch perm InternalMessageType.random_peer_list_request_msg a c =
    random_peer_list_request_handler perm a c
dispatch perm InternalMessageType.random_peer_list_release_msg a c =
    random_peer_list_release_handler a c
dispatch perm InternalMessageType.gossip_notification_msg a c = gossip_notification_handler a c
dispatch perm InternalMessageType.gossip_push_msg a c = gossip_push_handler a c
dispatch perm InternalMessageType.gossip_pull_request_msg a c = gossip_pull_request_handler a c
dispatch perm InternalMessageType.gossip_pull_reply_msg a c = gossip_pull_reply_handler a c
dispatch perm InternalMessageType.gossiper_crashed_msg a c = gossiper_crashed_handler a c
dispatch perm InternalMessageType.gossiper_closed_msg a c = gossiper_closed_handler a c
dispatch perm InternalMessageType.api_listener_crashed_msg a c = api_listener_crashed_handler a c
dispatch perm InternalMessageType.api_listener_closed_msg a c = api_listener_closed_handler a c
dispatch perm InternalMessageType.api_endpoint_created_msg a c = api_endpoint_created_handler a c
dispatch perm InternalMessageType.api_endpoint_crashed_msg a c = api_endpoint_crashed_handler a c
dispatch perm InternalMessageType.api_endpoint_closed_msg a c = api_endpoint_closed_handler a c
dispatch perm InternalMessageType.p2p_listener_crashed_msg a c = p2p_listener_crashed_handler a c
dispatch perm InternalMessageType.p2p_listener_closed_msg a c = p2p_listener_closed_handler a c
dispatch perm InternalMessageType.incoming_p2p_created_msg a c = incoming_p2p_created_handler a c
dispatch perm InternalMessageType.p2p_endpoint_crashed_msg a c = p2p_endpoint_crashed_handler a c
dispatch perm InternalMessageType.p2p_endpoint_closed_msg a c = p2p_endpoint_closed_handler a c
dispatch perm InternalMessageType.outgoing_p2p_created_msg a c = outgoing_p2p_created_handler a c
dispatch perm InternalMessageType.central_probe_peer_reply_msg a c =
    central_probe_peer_reply_handler a c
dispatch perm InternalMessageType.central_crash_msg a c = crash_handler a c
dispatch perm InternalMessageType.central_close_msg a c = close_handler a c
dispatch perm InternalMessageType.incoming_api_msg a c = incoming_api_handler a c
dispatch perm InternalMessageType.incoming_p2p_msg a c = incoming_p2p_handler a c
dispatch perm _ a c = none

-- One turn of `Run`: while the controller is stopping, only some messages are handled.
unfoldable pub turn : (ℕ → List ℕ) → InternalMessage → Central → Outcome
unfolding is_stop_message dispatch
turn perm m c =
    if c.is_stopping && not (is_stop_message m.type)
    then returns c
    else dispatch perm m.type m.payload c

-- The state that `NewCentralController` sets up, for the capacities of the two lists.
unfoldable pub initial : ℕ → ℕ → Central
unfolding new
initial incoming_max api_max = record {
  api_listener = listening;
  p2p_listener = listening;
  view_list = new;
  awaiting_removal_view_list = [];
  actively_created_peers = [];
  actively_probed_peers = [];
  incoming_view_list = [];
  incoming_view_list_max = incoming_max;
  api_clients = [];
  api_clients_max = api_max;
  membership_controller = true;
  gossiper = true;
  is_stopping = false;
  total_goroutines = pos 0;
  effects = [];
}

-- What `Run` does before its loop: four goroutines start.
unfoldable pub begin_run : Central → Central
begin_run c = record c { total_goroutines = c.total_goroutines +ℤ pos 4 }

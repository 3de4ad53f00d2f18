-- ===== src/Central/Tests.antt =====
-- Runs of the Central controller.
use gossip_protocol.Base.{ℕ, ◌≡◌, refl, true, none, some, lookup, ◌-ℤ◌, List, [], ◌∷◌, pos}
use gossip_protocol.Message.{Peer, AnyMessage, InternalMessage, InternalMessageType, no_error}
use gossip_protocol.Central.State.{Central, Outcome}
use gossip_protocol.Central.Peers.{peer_add_handler, outgoing_p2p_created_handler}
use gossip_protocol.Central.Closing.{
  gossiper_closed_handler, api_listener_closed_handler, p2p_listener_closed_handler,
  membership_closed_handler,
}
use gossip_protocol.Central.Dispatch.{turn, initial, begin_run}
use gossip_protocol.Central.State.{im}
use gossip_protocol.Central.Draws.{pick_random_total, Answered}
use gossip_protocol.Datastruct.IndexedMap.{IsIndexed}
use gossip_protocol.Message.{RandomPeerListRequest, Peer-Comparable, Peer-discrete}
use gossip_protocol.Base.{length, ◌≤◌, arith, ◌++◌, insert}
use gossip_protocol.Central.Shutdown.{begin_close_lem, IsUp, Closes}
use gossip_protocol.Central.LateClients.{api_endpoint_closed_panics}
use gossip_protocol.Central.Peers.{api_endpoint_created_handler}
use gossip_protocol.Central.State.{both_running, returns, im}
use gossip_protocol.Base.{◌⊎◌, not, ltb_ℤ, ◌+ℤ◌}
use gossip_protocol.Central.Dispatch.{begin_close}
use gossip_protocol.Central.State.{ApiInfo}
use gossip_protocol.Message.{ApiEndpoint, ApiClient-Comparable, ApiClient-discrete}
use gossip_protocol.Base.{false}
use gossip_protocol.Central.Roster.{Roster}
use gossip_protocol.Central.Accounting.{running_count}
use gossip_protocol.Central.Accounting.Table.{Timely}
use gossip_protocol.Central.Accounting.Run.{
  Turns, begin, turned, run_counts, run_apart, run_bounded, AllStopped, run_closes,
}
use gossip_protocol.Base.{erase, inl}
use gossip_protocol.Datastruct.IndexedMap.{get_value}
use gossip_protocol.Datastruct.IndexedSet
use gossip_protocol.Datastruct.IndexedSet.{IndexedSet, new-IsListed, add-IsListed}
use gossip_protocol.Membership.State.{MembershipController}
use gossip_protocol.Membership.ViewList.{replace_view_list}
use gossip_protocol.Membership.Rounds.{push_round}
use gossip_protocol.Membership.World.{thousandths, world, down-IsPerm, draws, made}
use gossip_protocol.Central.Following.{AreApart, wanted, deliver}
use gossip_protocol.Central.Agreement.{replace_view_list-wanted, push_round-ignored}

-- The state and the error of an outcome that is no panic.
abbrev after : Outcome → Central
after none = initial 0 0
after (some r) = r.0

abbrev no_draw : ℕ → List ℕ
no_draw n = []

abbrev peer_a : Peer
peer_a = record { addr = 1 ∷ [] }

abbrev msg : InternalMessageType → AnyMessage → InternalMessage
msg t a = record { type = t; payload = a }

abbrev add_a : InternalMessage
add_a = msg InternalMessageType.peer_add_msg (AnyMessage.peer_value peer_a)

abbrev created_a : InternalMessage
created_a = msg InternalMessageType.outgoing_p2p_created_msg (
    AnyMessage.p2p_endpoint (record { id = 1; peer = peer_a; is_outgoing = true; has_conn = true }))

abbrev state_0 : Central
state_0 = begin_run (initial 2 2)

abbrev state_1 : Central
state_1 = after (turn no_draw add_a state_0)

abbrev state_2 : Central
state_2 = after (turn no_draw created_a state_1)

added-Turns : Turns state_0 state_2
unfolding Timely turn begin_run initial peer_add_handler outgoing_p2p_created_handler lookup
added-Turns =
    turned no_draw created_a no_error (turned no_draw add_a no_error begin tt refl) tt refl

run_counts_example : state_2.total_goroutines ≡ pos (running_count state_2)
run_counts_example = run_counts 2 2 state_2 added-Turns

run_apart_example :
    Roster state_2.view_list state_2.awaiting_removal_view_list state_2.actively_created_peers
run_apart_example = run_apart 2 2 state_2 added-Turns

run_bounded_example :
    (length state_2.incoming_view_list ≤ state_2.incoming_view_list_max)
    × (length state_2.api_clients ≤ state_2.api_clients_max)
run_bounded_example = run_bounded 2 2 state_2 added-Turns

abbrev closed_message : InternalMessageType → InternalMessage
closed_message t = msg t AnyMessage.void_value

abbrev close_1 : Central
close_1 = after (turn no_draw (closed_message InternalMessageType.gossiper_closed_msg) state_0)

abbrev close_2 : Central
close_2 = after (turn no_draw (closed_message InternalMessageType.api_listener_closed_msg) close_1)

abbrev close_3 : Central
close_3 = after (turn no_draw (closed_message InternalMessageType.p2p_listener_closed_msg) close_2)

abbrev close_4 : Central
close_4 = after (turn no_draw (closed_message InternalMessageType.membership_closed_msg) close_3)

closed-Turns : Turns state_0 close_3
unfolding Timely turn begin_run initial gossiper_closed_handler api_listener_closed_handler
    p2p_listener_closed_handler ◌-ℤ◌ ◌+ℤ◌
closed-Turns =
    turned no_draw (closed_message InternalMessageType.p2p_listener_closed_msg) no_error
      (turned no_draw (closed_message InternalMessageType.api_listener_closed_msg) no_error
        (turned no_draw (closed_message InternalMessageType.gossiper_closed_msg) no_error begin refl
          refl)
        refl refl)
      refl refl

run_closes_example : AllStopped close_4
unfolding Timely turn begin_run initial gossiper_closed_handler api_listener_closed_handler
    p2p_listener_closed_handler membership_closed_handler ◌-ℤ◌ ◌+ℤ◌
run_closes_example =
    run_closes 2 2 close_3 close_4 no_draw
      (closed_message InternalMessageType.membership_closed_msg) closed-Turns refl refl

abbrev ascending : ℕ → List ℕ
ascending n = 0 ∷ []

abbrev asked : RandomPeerListRequest
asked = record { related = none; num = 3 }

one_peer-IsIndexed : IsIndexed state_2.view_list
one_peer-IsIndexed = run_apart_example.is_indexed

pick_random_total_example : Answered ascending asked state_2
unfolding turn begin_run initial peer_add_handler outgoing_p2p_created_handler lookup insert
    Peer-discrete
pick_random_total_example =
    pick_random_total ascending asked state_2 one_peer-IsIndexed refl refl (omega arith, tt)

begin_close_lem_example :
    (IsUp state_2 × Closes state_2) ⊎ ((¬ IsUp state_2) × (begin_close state_2 ≡ none))
begin_close_lem_example = begin_close_lem state_2

-- In this state the command does not panic.
state_2-IsUp : IsUp state_2
unfolding turn begin_run initial peer_add_handler outgoing_p2p_created_handler lookup Peer-discrete
    insert
state_2-IsUp = (refl, refl, refl, refl)

abbrev client_endpoint : ApiEndpoint
client_endpoint = record { id = 2; api_client = record { addr = 7 ∷ [] }; has_conn = true }

abbrev client_info : ApiInfo
client_info = record { endpoint = client_endpoint; state = both_running; has_crashed = false }

-- A run in which a client connects.
abbrev with_client : Central
with_client = after (
    turn no_draw
      (msg InternalMessageType.api_endpoint_created_msg (AnyMessage.api_endpoint client_endpoint))
      state_0)

client_listed : lookup client_endpoint.api_client with_client.api_clients ≡ some client_info
unfolding turn begin_run initial api_endpoint_created_handler lookup insert ApiClient-discrete
client_listed = refl

many_left : ltb_ℤ (pos 1) with_client.total_goroutines ≡ true
unfolding turn begin_run initial api_endpoint_created_handler lookup ApiClient-discrete ◌+ℤ◌
many_left = refl

api_endpoint_closed_panics_example :
    (d e : Central) × (turn no_draw
        (im InternalMessageType.gossiper_closed_msg AnyMessage.void_value)
        with_client
      ≡ returns d)
    × (turn no_draw
          (im InternalMessageType.api_endpoint_closed_msg
            (AnyMessage.api_endpoint_closed client_endpoint true))
          d
        ≡ returns e)
    × (turn no_draw
          (im InternalMessageType.api_endpoint_closed_msg
            (AnyMessage.api_endpoint_closed client_endpoint (not true)))
          e
        ≡ none)
api_endpoint_closed_panics_example =
    api_endpoint_closed_panics no_draw client_endpoint true client_info with_client client_listed
      refl many_left

one_peer-AreApart : AreApart state_2
unfolding turn begin_run initial peer_add_handler outgoing_p2p_created_handler lookup insert erase
    Peer-discrete
one_peer-AreApart = record { roster = run_apart_example; probed_apart = λ p. inl refl }

abbrev knows_a : MembershipController ℕ
knows_a = record made { view_list = IndexedSet.add peer_a IndexedSet.new }

abbrev peer_b : Peer
peer_b = record { addr = 5 ∷ [] }

abbrev only_b : IndexedSet Peer
only_b = IndexedSet.add peer_b IndexedSet.new

wants_a : (j : Peer) → wanted j state_2 ≡ IndexedSet.is_member j knows_a.view_list
unfolding turn begin_run initial peer_add_handler outgoing_p2p_created_handler lookup insert erase
    Peer-discrete get_value IndexedSet.add IndexedSet.new
wants_a j = ground arith

not_stopping : state_2.is_stopping ≡ false
unfolding turn begin_run initial peer_add_handler outgoing_p2p_created_handler lookup insert
    Peer-discrete
not_stopping = refl

replace_view_list-wanted_example :
    (m' : MembershipController ℕ) × (sent : List InternalMessage) × (d : Central)
    × (replace_view_list only_b knows_a ≡ some m')
    × (m'.msg_out_queue ≡ knows_a.msg_out_queue ++ sent)
    × (deliver no_draw sent state_2 ≡ some d)
    × ((j : Peer) → wanted j d ≡ IndexedSet.is_member j only_b)
    × ((j : Peer) → IndexedSet.is_member j m'.view_list ≡ IndexedSet.is_member j only_b)
replace_view_list-wanted_example =
    replace_view_list-wanted no_draw only_b knows_a state_2 (add-IsListed peer_b _ new-IsListed)
      (add-IsListed peer_a _ new-IsListed) one_peer-AreApart not_stopping wants_a

push_round-ignored_example :
    (m' : MembershipController ℕ) × (sent : List InternalMessage) × (push_round thousandths
        world.hash draws knows_a
      ≡ some m')
    × (m'.msg_out_queue ≡ knows_a.msg_out_queue ++ sent)
    × (deliver no_draw sent state_2 ≡ some state_2)
push_round-ignored_example =
    push_round-ignored thousandths world.hash draws knows_a no_draw state_2 down-IsPerm
      (unfold made in omega arith)

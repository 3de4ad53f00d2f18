-- ===== src/P2p/Tests.antt =====
-- Two nodes with one connection, and the runs of an endpoint's routines.
use gossip_protocol.Base.{ℕ, ◌≡◌, refl, true, false, some, lookup, insert, List, [], ◌∷◌, ◌++◌, pos}
use gossip_protocol.Datastruct.IndexedMap
use gossip_protocol.Datastruct.IndexedMap.{get_value}
use gossip_protocol.Datastruct.IndexedSet
use gossip_protocol.Message.{
  Peer, Peer-Comparable, Peer-discrete, P2PEndpoint, InternalMessage, InternalMessageType,
  AnyMessage,
}
use gossip_protocol.Membership.State.{MembershipController}
use gossip_protocol.Membership.World.{made}
use gossip_protocol.Central.State.{Central, PeerInfo, both_running, im}
use gossip_protocol.Central.Dispatch.{initial, begin_run}
use gossip_protocol.Central.Forward.{find_outgoing}
use gossip_protocol.P2p.Reader.{Turn, reader_routine}
use gossip_protocol.P2p.Reports.{Finished, reader_routine-Finished}
use gossip_protocol.P2p.Wire.{Exchanged, is_pull, pull_crosses}

abbrev peer_a : Peer
peer_a = record { addr = 1 ∷ [] }

abbrev peer_b : Peer
peer_b = record { addr = 2 ∷ [] }

abbrev end_at_a : P2PEndpoint
end_at_a = record { id = 1; peer = peer_b; is_outgoing = true; has_conn = true }

abbrev end_at_b : P2PEndpoint
end_at_b = record { id = 1; peer = peer_a; is_outgoing = false; has_conn = true }

abbrev info_of : P2PEndpoint → PeerInfo
info_of endp = record {
  endpoint = endp;
  usage_counter = pos 0;
  state = both_running;
  has_crashed = false;
}

abbrev node_a : Central
node_a = record (begin_run (initial 2 2)) {
  view_list = IndexedMap.put peer_b (info_of end_at_a) IndexedMap.new;
  membership_controller = true;
}

abbrev node_b : Central
node_b = record (begin_run (initial 2 2)) {
  incoming_view_list = insert peer_a (info_of end_at_b) [];
  membership_controller = true;
}

abbrev members_of_b : MembershipController ℕ
members_of_b = record made { view_list = IndexedSet.add peer_a IndexedSet.new }

abbrev unchanged : InternalMessage → InternalMessage
unchanged m = m

unchanged_carries : (m : InternalMessage) → is_pull m.type m.payload ≡ true → unchanged m ≡ m
unchanged_carries m p = refl

b_found : find_outgoing peer_b node_a ≡ some (info_of end_at_a)
unfolding find_outgoing get_value lookup IndexedMap.put IndexedMap.new begin_run initial
    Peer-discrete insert
b_found = refl

a_found : lookup peer_a node_b.incoming_view_list ≡ some (info_of end_at_b)
unfolding lookup insert begin_run initial Peer-discrete
a_found = refl

reader_routine-Finished_example : Finished end_at_a (
    reader_routine [] end_at_a (
      (Turn.timed_out
        ∷ Turn.decoded
            (im InternalMessageType.membership_pull_request_msg (AnyMessage.peer_value peer_a))
        ∷ [])
      ++ (Turn.signalled ∷ [])))
reader_routine-Finished_example =
    reader_routine-Finished [] end_at_a
      (Turn.timed_out
        ∷ Turn.decoded
            (im InternalMessageType.membership_pull_request_msg (AnyMessage.peer_value peer_a))
        ∷ [])
      []

pull_crosses_example :
    Exchanged unchanged [] node_a node_b (info_of end_at_a) (info_of end_at_b) members_of_b
pull_crosses_example =
    pull_crosses unchanged unchanged_carries [] node_a node_b (info_of end_at_a) (info_of end_at_b)
      members_of_b b_found refl a_found refl refl refl refl refl

abbrev queued : List InternalMessage
queued = im InternalMessageType.membership_pull_request_msg (AnyMessage.peer_value peer_b) ∷ []

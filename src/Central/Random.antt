-- ===== src/Central/Random.antt =====
-- The handlers that lend random peers of the view list to the Gossiper and take them back.
use gossip_protocol.Base.{
  ℕ, Option, none, some, List, [], ◌∷◌, lookup, insert, erase, slice_to, min, ◌>>=◌, pos, ◌+ℤ◌,
  ◌-ℤ◌, leb_ℤ, if◌then◌else◌,
}
use gossip_protocol.Datastruct.IndexedMap.{get_value, put, key_at_index, len}
use gossip_protocol.Message.{
  Peer, Peer-Comparable, InternalMessageType, AnyMessage, RandomPeerListRequest,
}
use gossip_protocol.Central.State.{
  Central, PeerInfo, Effect, Outcome, returns, emit, im, send_gossiper, have_both_stopped,
}
use gossip_protocol.Central.Forward.{then_return}

abbrev pub count_up : PeerInfo → PeerInfo
count_up info = record info { usage_counter = info.usage_counter +ℤ pos 1 }

abbrev pub count_down : PeerInfo → PeerInfo
count_down info = record info { usage_counter = info.usage_counter -ℤ pos 1 }

-- One turn of the loop: the peer at the index is one user more. An index out of range panics at the
-- type assertion, and so does a key without a value.
unfoldable pub lend : ℕ → Central → Option (Peer × Central)
unfolding get_value put
lend i c = do
  peer ← key_at_index i c.view_list
  info ← get_value peer c.view_list
  some (peer, record c { view_list = put peer (count_up info) c.view_list })

unfoldable pub lend_all : List ℕ → Central → Option (List Peer × Central)
unfolding lend
lend_all [] c = some ([], c)
lend_all (i ∷ is) c = do
  (peer, c') ← lend i c
  (peers, c'') ← lend_all is c'
  some (peer ∷ peers, c'')

-- `perm` is `rand.Perm`, of which a prefix is taken.
unfoldable pub pick_random : (ℕ → List ℕ) → RandomPeerListRequest → Central → Option Central
unfolding lend_all send_gossiper im slice_to
pick_random perm msg c = do
  let size = len c.view_list
  random_indexes ← slice_to (min msg.num size) (perm size)
  (peers, c') ← lend_all random_indexes c
  send_gossiper
      (im InternalMessageType.random_peer_list_reply_msg
        (AnyMessage.random_peer_list_reply msg.related peers))
      c'

unfoldable pub random_peer_list_request_handler : (ℕ → List ℕ) → AnyMessage → Central → Outcome
unfolding pick_random then_return
random_peer_list_request_handler perm (AnyMessage.random_peer_list_request msg) c =
    then_return (pick_random perm msg c)
random_peer_list_request_handler perm _ c = returns c

-- An entry that awaits removal and has no user left: it goes if its goroutines have stopped, and is
-- closed otherwise.
unfoldable pub settle : Peer → PeerInfo → Central → Central
unfolding have_both_stopped emit
settle peer info c =
    if have_both_stopped info.state
    then record c { awaiting_removal_view_list = erase peer c.awaiting_removal_view_list }
    else emit (Effect.close_p2p info.endpoint ∷ []) c

unfoldable pub release_awaiting : Peer → PeerInfo → Central → Central
unfolding settle
release_awaiting peer info c =
    let less = count_down info in
    let c' = record c {
      awaiting_removal_view_list = insert peer less c.awaiting_removal_view_list;
    } in
    if leb_ℤ less.usage_counter (pos 0) then settle peer less c' else c'

unfoldable pub release : Peer → Central → Central
unfolding release_awaiting get_value put
release peer c = elim (get_value peer c.view_list) [
  | some info ↦ record c { view_list = put peer (count_down info) c.view_list }
  | none ↦ elim (lookup peer c.awaiting_removal_view_list) [
    | some info ↦ release_awaiting peer info c
    | none ↦ c
  ]
]

unfoldable pub release_all : List Peer → Central → Central
unfolding release
release_all [] c = c
release_all (peer ∷ peers) c = release_all peers (release peer c)

unfoldable pub random_peer_list_release_handler : AnyMessage → Central → Outcome
unfolding release_all
random_peer_list_release_handler (AnyMessage.random_peer_list_release peers) c =
    returns (release_all peers c)
random_peer_list_release_handler _ c = returns c

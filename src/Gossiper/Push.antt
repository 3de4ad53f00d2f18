-- ===== src/Gossiper/Push.antt =====
-- `Gossiper::pushRound`. In Go 1.14 the variable of a `range` is one variable for the whole loop, so
-- all the `&item` of a round are one pointer.
use gossip_protocol.Base.{
  ℕ, zero, suc, ◌+◌, ◌*◌, ◌%◌, Bool, true, false, Option, none, some, List, [], ◌∷◌, ◌++◌, length,
  get_elem?, lookup, insert, erase, Map, leb, ◌==◌, if◌then◌else◌, ◌>>=◌, inc_u8, dec_u8,
}
use gossip_protocol.Datastruct.Extrema.{min_int}
use gossip_protocol.Message.{
  Peer, GossipItem, GossipItem-Comparable, MedianCounterState, state_c, state_d, Pointer, Store,
  assign, allocate, InternalMessage, gossip_push_msg, gossip_push, random_peer_list_release_msg,
  random_peer_list_release,
}
use gossip_protocol.Gossiper.Item.{new_entry, GossipItemInfo}
use gossip_protocol.Gossiper.State.{Gossiper, message, send}

-- (start + i) % n for i = 0, …, k - 1, the loop that fills `peerIndexes`.
unfoldable pub indexes_from : ℕ → ℕ → ℕ → List ℕ
indexes_from start n zero = []
indexes_from start n (suc k) = start % n ∷ indexes_from (start + 1) n k

unfoldable pub peer_indexes : ℕ → GossipItemInfo → List ℕ
unfolding indexes_from min_int
peer_indexes degree info =
    indexes_from (info.s.ttl * degree) (length info.peer_list)
      (min_int degree (length info.peer_list))

-- `GossipPushMSG` to one peer.
unfoldable pub push_message : Pointer → GossipItemInfo → Peer → InternalMessage
unfolding message
push_message p info peer = message gossip_push_msg (
    gossip_push
      (record { item = some p; state = info.s.state; counter = info.s.counter; to = peer }))

-- The pushes of one item, which panic at an index out of range.
unfoldable pub push_to : Pointer → GossipItemInfo → List ℕ → Option (List InternalMessage)
unfolding push_message
push_to p info [] = some []
push_to p info (i ∷ is) = do
  peer ← get_elem? info.peer_list i
  rest ← push_to p info is
  some (push_message p info peer ∷ rest)

-- The state of an item after the round, and whether it is appended to `itemsToRemove`.
age_c : ℕ → GossipItemInfo → MedianCounterState → GossipItemInfo × Bool
age_c c_max info state_c =
    let counter = inc_u8 info.s.counter in
    (record info { s = record (info.s) { counter = counter } }, leb c_max counter)
age_c c_max info _ = (info, false)

unfoldable pub age : ℕ → GossipItemInfo → GossipItemInfo × Bool
unfolding age_c
age c_max info =
    let aged = record info { s = record (info.s) { ttl = dec_u8 info.s.ttl } } in
    if aged.s.ttl == 0 then (aged, true) else age_c c_max aged aged.s.state

pub record PushScan : Type 0 where
  pub entries : Map GossipItem GossipItemInfo
  pub sent : List InternalMessage
  pub items_to_remove : List Pointer
  pub store : Store

-- One visit of the loop, in front of what the later visits give.
unfoldable pub visit :
    Pointer → GossipItem → GossipItemInfo × Bool → List InternalMessage → PushScan → PushScan
visit p item (aged, is_due) pushes rest = record rest {
  entries = (item, aged) ∷ rest.entries;
  sent = pushes ++ rest.sent;
  items_to_remove = if is_due then p ∷ rest.items_to_remove else rest.items_to_remove;
}

-- The loop over `gossipList`; `p` is the address of the loop variable.
unfoldable pub push_items :
    ℕ → ℕ → Pointer → Map GossipItem GossipItemInfo → Store → Option PushScan
unfolding push_to peer_indexes age assign visit
push_items degree c_max p [] s =
    some (record { entries = []; sent = []; items_to_remove = []; store = s })
push_items degree c_max p ((item, info) ∷ m) s = do
  pushes ← push_to p info (peer_indexes degree info)
  rest ← push_items degree c_max p m (assign p item s)
  some (visit p item (age c_max info) pushes rest)

abbrev pub retired : ℕ → GossipItemInfo
retired ttl = new_entry state_d 0 ttl

-- The body of the loop over `itemsToRemove`: the peers are released, and the item becomes old.
unfoldable pub retire : GossipItem → GossipItemInfo → Gossiper → Gossiper
unfolding send message
retire item info g =
    let released =
      send (message random_peer_list_release_msg (random_peer_list_release info.peer_list) ∷ [])
        g in
    record released {
      gossip_list = erase item g.gossip_list;
      old_gossip_list = insert item (retired g.max_ttl) g.old_gossip_list;
    }

-- The loop over `itemsToRemove`. The entry of a missing item is a nil pointer, whose `peerList`
-- panics.
unfoldable pub remove_items : List Pointer → Gossiper → Option Gossiper
unfolding retire
remove_items [] g = some g
remove_items (p ∷ ps) g =
    let item = g.store.cell p in
    elim (lookup item g.gossip_list) [
      | none ↦ none
      | some info ↦ remove_items ps (retire item info g)
    ]

unfoldable pub push_round : Gossiper → Option Gossiper
unfolding push_items remove_items allocate send
push_round g = do
  scan ← push_items g.degree g.mc_config.c_max g.store.next g.gossip_list (allocate g.store)
  let sent = send scan.sent g
  remove_items scan.items_to_remove (record sent { gossip_list = scan.entries; store = scan.store })

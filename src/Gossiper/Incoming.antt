-- ===== src/Gossiper/Incoming.antt =====
-- The handlers of gossip that arrives from peers, of a pull request and of the closing command, and
-- the dispatch on a message.
use gossip_protocol.Base.{
  ℕ, zero, suc, ◌-◌, Option, none, some, List, [], ◌∷◌, length, lookup, insert, Map, ltb, leb,
  if◌then◌else◌, pos, ltb_ℤ,
}
use gossip_protocol.Datastruct.SetType.{remove, is_member}
use gossip_protocol.Message.{
  Peer, Peer-Comparable, GossipItem, GossipItem-Comparable, MedianCounterState, state_b, state_c,
  state_d, Pointer, allocate, AnyMessage, gossip_item_extended, gossip_incoming_pull_request,
  gossip_incoming_pull_reply, void_value, gossip_pull_reply_msg, gossip_pull_reply,
  gossiper_closed_msg, HandlerError, no_error, close_error, other_error, GossipItemExtended,
  InternalMessage, InternalMessageType, random_peer_list_reply_msg, gossip_announce_msg,
  gossip_notify_msg, gossip_unnotify_msg, gossip_validation_msg, gossip_incoming_push_msg,
  gossip_incoming_pull_request_msg, gossip_incoming_pull_reply_msg, gossiper_close_msg,
}
use gossip_protocol.Gossiper.Item.{new_entry, GossipItemInfo, cmp}
use gossip_protocol.Gossiper.State.{Gossiper, message, send}
use gossip_protocol.Gossiper.Rounds.{visit_items}
use gossip_protocol.Gossiper.Handlers.{
  random_peer_list_reply_handler, announce_handler, notify_handler, unnotify_handler,
  validation_handler,
}

-- `newInfo` of `checkAndAddIncomingGossip`, where `none` is nil.
unfoldable pub new_info : MedianCounterState → ℕ → Gossiper → Option GossipItemInfo
new_info state_b counter g =
    if ltb counter g.mc_config.b_max then some (new_entry state_b counter g.max_ttl) else none
new_info state_c counter g =
    if ltb counter g.mc_config.c_max then some (new_entry state_c 0 g.max_ttl) else none
new_info state_d counter g = none

-- Stores an accepted state if it is the first for the item or dominates the stored one. The error
-- is nil only for a first one.
unfoldable pub keep_dominant : GossipItem → GossipItemInfo → Gossiper → Gossiper × HandlerError
unfolding cmp
keep_dominant item info g = elim (lookup item g.incoming_gossips) [
  | none ↦ (record g { incoming_gossips = insert item info g.incoming_gossips }, no_error)
  | some old ↦ (
    if ltb_ℤ (cmp old.s info.s) (pos 0)
        then record g { incoming_gossips = insert item info g.incoming_gossips }
        else g,
    other_error,
  )
]

unfoldable pub check_and_add :
    Option Pointer → MedianCounterState → ℕ → Gossiper → Gossiper × HandlerError
unfolding new_info keep_dominant
check_and_add none state counter g = (g, other_error)
check_and_add (some p) state counter g = elim (new_info state counter g) [
  | none ↦ (g, other_error)
  | some info ↦ keep_dominant (g.store.cell p) info g
]

-- `checkAndAddIncomingGossip`
unfoldable pub check_and_add_incoming_gossip :
    GossipItemExtended → Gossiper → Gossiper × HandlerError
unfolding check_and_add
check_and_add_incoming_gossip e g = check_and_add e.item e.state e.counter g

unfoldable pub incoming_push_handler : AnyMessage → Gossiper → Gossiper × HandlerError
unfolding check_and_add_incoming_gossip
incoming_push_handler (gossip_item_extended e) g =
    if leb g.cache_size (length g.incoming_gossips)
    then (g, no_error)
    else check_and_add_incoming_gossip e g
incoming_push_handler _ g = (g, no_error)

-- The entries of a pull reply; each has a pointer to the one loop variable.
unfoldable pub reply_items : Pointer → Map GossipItem GossipItemInfo → List GossipItemExtended
reply_items p [] = []
reply_items p ((item, info) ∷ m) =
    record { item = some p; state = info.s.state; counter = info.s.counter } ∷ reply_items p m

unfoldable pub reply_to_pull : Peer → Gossiper → Gossiper
unfolding reply_items visit_items allocate send message
reply_to_pull from g =
    let p = g.store.next in
    let visited = visit_items p g.gossip_list (record g { store = allocate g.store }) in
    send (message gossip_pull_reply_msg (gossip_pull_reply from (reply_items p g.gossip_list)) ∷ [])
      visited

unfoldable pub incoming_pull_request_handler : AnyMessage → Gossiper → Gossiper × HandlerError
unfolding reply_to_pull
incoming_pull_request_handler (gossip_incoming_pull_request from) g =
    (reply_to_pull from g, no_error)
incoming_pull_request_handler _ g = (g, no_error)

-- One more of `upTo` is used up exactly if an item was added.
abbrev pub spend : HandlerError → ℕ → ℕ
spend no_error up_to = up_to - 1
spend _ up_to = up_to

unfoldable pub take_reply : List GossipItemExtended → ℕ → Gossiper → Gossiper
unfolding check_and_add_incoming_gossip
take_reply [] up_to g = g
take_reply (e ∷ es) zero g = g
take_reply (e ∷ es) (suc up_to) g =
    let (g', err) = check_and_add_incoming_gossip e g in take_reply es (spend err (suc up_to)) g'

unfoldable pub accept_reply : Peer → List GossipItemExtended → Gossiper → Gossiper
unfolding take_reply remove
accept_reply from items g =
    let taken = take_reply items (g.cache_size - length g.incoming_gossips) g in
    if is_member from g.pull_peers
    then record taken { pull_peers = remove from taken.pull_peers }
    else g

unfoldable pub incoming_pull_reply_handler : AnyMessage → Gossiper → Gossiper × HandlerError
unfolding accept_reply
incoming_pull_reply_handler (gossip_incoming_pull_reply from items) g =
    (accept_reply from items g, no_error)
incoming_pull_reply_handler _ g = (g, no_error)

-- The input queue is emptied, which is the caller's.
unfoldable pub close_handler : AnyMessage → Gossiper → Gossiper × HandlerError
unfolding send message
close_handler void_value g = (send (message gossiper_closed_msg void_value ∷ []) g, close_error)
close_handler _ g = (g, no_error)

-- `gossiperControllerHandlers`; `none` is the call of a nil function for a type without a handler.
unfoldable pub dispatch :
    InternalMessageType → AnyMessage → Gossiper → Option (Gossiper × HandlerError)
dispatch random_peer_list_reply_msg a g = some (random_peer_list_reply_handler a g)
dispatch gossip_announce_msg a g = some (announce_handler a g)
dispatch gossip_notify_msg a g = some (notify_handler a g)
dispatch gossip_unnotify_msg a g = some (unnotify_handler a g)
dispatch gossip_validation_msg a g = some (validation_handler a g)
dispatch gossip_incoming_push_msg a g = some (incoming_push_handler a g)
dispatch gossip_incoming_pull_request_msg a g = some (incoming_pull_request_handler a g)
dispatch gossip_incoming_pull_reply_msg a g = some (incoming_pull_reply_handler a g)
dispatch gossiper_close_msg a g = some (close_handler a g)
dispatch _ a g = none

unfoldable pub handle : InternalMessage → Gossiper → Option (Gossiper × HandlerError)
unfolding dispatch
handle im g = dispatch im.type im.payload g

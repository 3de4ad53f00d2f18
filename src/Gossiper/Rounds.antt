-- ===== src/Gossiper/Rounds.antt =====
-- `pullRound`, `notifyClients`, `updateRound`, `updateOldGossipsRound` and `gossipRound`.
use gossip_protocol.Base.{
  ℕ, zero, suc, ◌*◌, Option, none, some, List, [], ◌∷◌, map, length, lookup, insert, erase,
  contains, Map, ltb, ◌==◌, if◌then◌else◌, ◌>>=◌, inc_u8, dec_u8, inc_u16, pos, ltb_ℤ,
  Nat-Comparable,
}
use gossip_protocol.Datastruct.SetType.{elements, empty_set, is_member}
use gossip_protocol.Message.{
  ApiClient, GossipItem, GossipItem-Comparable, MedianCounterState, state_b, state_c, state_d,
  Pointer, assign, allocate, InternalMessage, gossip_pull_request_msg, peer_value,
  random_peer_list_request_msg, random_peer_list_request, gossip_notification_msg,
  gossip_notification,
}
use gossip_protocol.Gossiper.Item.{new_entry, GossipItemState, GossipItemInfo, update_item_info}
use gossip_protocol.Gossiper.State.{Gossiper, ApiClientInfo, message, send}
use gossip_protocol.Gossiper.Push.{push_round}

unfoldable pub pull_round : Gossiper → Gossiper
unfolding send message
pull_round g =
    let asked =
      send
        (map (λ peer. message gossip_pull_request_msg (peer_value peer))
          (elements g.next_round_pull_peers))
        g in
    send
      (message random_peer_list_request_msg
          (random_peer_list_request (record { related = none; num = g.degree }))
        ∷ [])
      (record asked { pull_peers = g.next_round_pull_peers; next_round_pull_peers = empty_set })

-- The body of the loop of `notifyClients`.
unfoldable pub notify_client : Pointer → ApiClient → ApiClientInfo → ApiClientInfo
notify_client p client info = record info {
  validation_map = insert info.next_available_id p info.validation_map;
  next_available_id = inc_u16 info.next_available_id;
}

unfoldable pub notify_entries :
    Pointer → ℕ → Map ApiClient ApiClientInfo → List InternalMessage × Map ApiClient ApiClientInfo
unfolding notify_client message
notify_entries p data_type [] = ([], [])
notify_entries p data_type ((client, info) ∷ m) =
    let (sent, rest) = notify_entries p data_type m in
    if is_member data_type info.notify_data_types
    then (
      message gossip_notification_msg
            (gossip_notification (record { who = client; item = p; id = info.next_available_id }))
          ∷ sent,
      (client, notify_client p client info) ∷ rest,
    )
    else (sent, (client, info) ∷ rest)

unfoldable pub notify_clients : Pointer → Gossiper → Gossiper
unfolding notify_entries send
notify_clients p g =
    let (sent, clients) = notify_entries p (g.store.cell p).data_type g.api_clients_to_notify in
    send sent (record g { api_clients_to_notify = clients })

-- A new entry for an item, and the request for the peers to gossip it with.
unfoldable pub admit_item :
    GossipItem → Pointer → MedianCounterState → ℕ → ℕ → ℕ → Gossiper → Gossiper
unfolding send message
admit_item item p state counter ttl num g =
    send
      (message random_peer_list_request_msg
          (random_peer_list_request (record { related = some p; num = num }))
        ∷ [])
      (record g { gossip_list = insert item (new_entry state counter ttl) g.gossip_list })

-- The `switch` on the state of a new item.
unfoldable pub admit_incoming : GossipItem → Pointer → MedianCounterState → Gossiper → Gossiper
unfolding admit_item
admit_incoming item p state_b g = admit_item item p state_b 1 g.max_ttl (g.degree * g.max_ttl) g
admit_incoming item p state_c g =
    admit_item item p state_c 0 g.max_ttl (g.degree * g.mc_config.c_max) g
admit_incoming item p state_d g = g

-- The body of the loop over `incomingGossips`; `p` is the address of the loop variable.
unfoldable pub update_item : Pointer → GossipItem → GossipItemInfo → Gossiper → Gossiper
unfolding assign notify_clients admit_incoming
update_item p item info g₀ =
    let g = record g₀ { store = assign p item g₀.store } in
    if contains item g.old_gossip_list then g else elim (lookup item g.gossip_list) [
      | some my_info ↦ record g {
        gossip_list = insert item (update_item_info my_info info) g.gossip_list;
      }
      | none ↦
          let notified = notify_clients p g in
          if ltb (length notified.gossip_list) notified.cache_size
          then admit_incoming item p info.s.state notified
          else notified
    ]

unfoldable pub update_items : Pointer → Map GossipItem GossipItemInfo → Gossiper → Gossiper
unfolding update_item
update_items p [] g = g
update_items p ((item, info) ∷ m) g = update_items p m (update_item p item info g)

-- The median rule for one item.
unfoldable pub apply_median : ℕ → GossipItemState → GossipItemState
apply_median b_max s =
    let counter = inc_u8 s.counter in
    let counted =
      if counter == b_max
      then record s { state = state_c; counter = 0 }
      else record s { counter = counter } in
    let voted = if ltb_ℤ (pos 0) s.median_rule then counted else s in
    elim s.state [ state_b ↦ record voted { median_rule = pos 0 } | _ ↦ s ]

unfoldable pub apply_medians : ℕ → Map GossipItem GossipItemInfo → Map GossipItem GossipItemInfo
unfolding apply_median
apply_medians b_max = map (λ e. (e.0, record (e.1) { s = apply_median b_max e.1.s }))

unfoldable pub update_round : Gossiper → Gossiper
unfolding update_items apply_medians allocate
update_round g =
    let u = update_items g.store.next g.incoming_gossips (record g { store = allocate g.store }) in
    record u { incoming_gossips = []; gossip_list = apply_medians u.mc_config.b_max u.gossip_list }

-- `updateOldGossipsRound`: the loop lowers each time to live and collects `&oldItem` at 0.
unfoldable pub age_old : Map GossipItem GossipItemInfo → Map GossipItem GossipItemInfo
age_old = map (λ e. (e.0, record (e.1) { s = record (e.1.s) { ttl = dec_u8 e.1.s.ttl } }))

unfoldable pub expired_count : Map GossipItem GossipItemInfo → ℕ
expired_count [] = 0
expired_count ((item, info) ∷ m) =
    let rest = expired_count m in if dec_u8 info.s.ttl == 0 then suc rest else rest

-- The loop variable runs through all items, and ends at the last.
unfoldable pub visit_items : Pointer → Map GossipItem GossipItemInfo → Gossiper → Gossiper
unfolding assign
visit_items p [] g = g
visit_items p ((item, info) ∷ m) g = visit_items p m (record g { store = assign p item g.store })

-- The deletions, all through the one pointer.
unfoldable pub delete_old : ℕ → Pointer → Gossiper → Gossiper
delete_old zero p g = g
delete_old (suc n) p g =
    delete_old n p (record g { old_gossip_list = erase (g.store.cell p) g.old_gossip_list })

unfoldable pub update_old_gossips_round : Gossiper → Gossiper
unfolding age_old expired_count visit_items delete_old allocate
update_old_gossips_round g =
    let p = g.store.next in
    let v = visit_items p g.old_gossip_list (record g { store = allocate g.store }) in
    delete_old (expired_count g.old_gossip_list) p
      (record v { old_gossip_list = age_old g.old_gossip_list })

unfoldable pub gossip_round : Gossiper → Option Gossiper
unfolding push_round pull_round update_round update_old_gossips_round
gossip_round g = do
  pushed ← push_round g
  some (update_old_gossips_round (update_round (pull_round pushed)))

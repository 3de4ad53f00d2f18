-- ===== src/Gossiper/OldItems.antt =====
-- `updateOldGossipsRound`: as the loop's variable is shared, all deletions are of the item visited
-- last.
use gossip_protocol.Base.{
  ℕ, zero, suc, ◌≡◌, refl, ◌≢◌, some, [], ◌∷◌, Map, lookup, erase, arith, ap, ◌∙◌, lookup-erase,
  dec_u8,
}
use gossip_protocol.Message.{GossipItem, GossipItem-Comparable, Pointer, allocate}
use gossip_protocol.Gossiper.Item.{GossipItemInfo}
use gossip_protocol.Gossiper.State.{Gossiper}
use gossip_protocol.Gossiper.Rounds.{
  age_old, expired_count, visit_items, delete_old, update_old_gossips_round,
}
use gossip_protocol.Gossiper.Aliasing.{last_item}
use gossip_protocol.Gossiper.Replies.{visit_items-cell}

-- An old item one round later.
abbrev pub aged : GossipItemInfo → GossipItemInfo
aged info = record info { s = record (info.s) { ttl = dec_u8 info.s.ttl } }

lookup-age_old :
    (j : GossipItem) (info : GossipItemInfo) (m : Map GossipItem GossipItemInfo)
    → lookup j m ≡ some info
    → lookup j (age_old m) ≡ some (aged info)
unfolding lookup age_old
lookup-age_old j info [] h = cc
lookup-age_old j info ((i, x) ∷ m) h = ground (arith, lookup-age_old j info m)

lookup-delete_old :
    (n : ℕ) (p : Pointer) (g : Gossiper) (j : GossipItem)
    → j ≢ g.store.cell p
    → lookup j (delete_old n p g).old_gossip_list ≡ lookup j g.old_gossip_list
unfolding delete_old
lookup-delete_old zero p g j other = refl
lookup-delete_old (suc n) p g j other =
    lookup-delete_old n p (record g { old_gossip_list = erase (g.store.cell p) g.old_gossip_list })
      j other
    ∙ ground (arith, lookup-erase (g.store.cell p) j g.old_gossip_list, other)

-- In a round every old item but the one that is visited last stays, with a time to live that is one
-- less and wraps around, also an item whose time to live has come to 0.
pub update_old_gossips_round_lem :
    (g : Gossiper) (first : GossipItem) (info : GossipItemInfo) (m : Map GossipItem GossipItemInfo)
    (j : GossipItem) (old : GossipItemInfo)
    → g.old_gossip_list ≡ (first, info) ∷ m
    → j ≢ last_item first m
    → lookup j g.old_gossip_list ≡ some old
    → lookup j (update_old_gossips_round g).old_gossip_list ≡ some (aged old)
unfolding update_old_gossips_round
update_old_gossips_round_lem g first info m j old list other h =
    let p = g.store.next in
    let start : Gossiper = record g { store = allocate g.store } in
    let v = visit_items p g.old_gossip_list start in
    let here : v.store.cell p ≡ last_item first m =
      visit_items-cell p g.old_gossip_list start ∙ ap (last_item (start.store.cell p)) list in
    lookup-delete_old (expired_count g.old_gossip_list) p
      (record v { old_gossip_list = age_old g.old_gossip_list }) j (λ e. other (e ∙ here))
    ∙ lookup-age_old j old g.old_gossip_list h

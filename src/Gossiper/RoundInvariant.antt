-- ===== src/Gossiper/RoundInvariant.antt =====
-- A gossip round keeps the invariant, whenever it does not panic.
use gossip_protocol.Base.{
  ℕ, zero, suc, ◌<◌, ◌≡◌, refl, ap, inl, inr, none, some, List, [], ◌∷◌, Map, keys, length, lookup,
  arith, ltb, Option-cases, Bool-cases, subst, some_cancel, lookup-erase, erase-IsMap,
  lookup-eq-none_of_keys, IsMap-of_keys,
}
use gossip_protocol.Message.{
  GossipItem, GossipItem-Comparable, MedianCounterState, state_b, state_c, state_d, Pointer, assign,
  InternalMessage, allocate,
}
use gossip_protocol.Gossiper.Item.{GossipItemInfo, update_item_info}
use gossip_protocol.Gossiper.State.{Gossiper, send}
use gossip_protocol.Gossiper.Push.{retire, push_items, remove_items, push_round}
use gossip_protocol.Gossiper.Rounds.{
  pull_round, notify_clients, admit_incoming, update_item, update_items, apply_medians,
  update_round, age_old, visit_items, delete_old, expired_count, update_old_gossips_round,
  gossip_round,
}
use gossip_protocol.Gossiper.Invariant.{
  Inv, keys-push_items, retire-Inv, admit_item-Inv, notify_clients-Inv, replace-Inv, store-Inv,
  relist-Inv,
}

pub send-Inv : (ms : List InternalMessage) (g : Gossiper) → Inv g → Inv (send ms g)
unfolding send
send-Inv ms g v = record {
  is_map = v.is_map;
  old_is_map = v.old_is_map;
  incoming_is_map = v.incoming_is_map;
  bounded = v.bounded;
  incoming_bounded = v.incoming_bounded;
  apart = v.apart;
}

remove_items-Inv : (ps : List Pointer) (g h : Gossiper) → Inv g → remove_items ps g ≡ some h → Inv h
unfolding remove_items
remove_items-Inv [] g h v e = subst Inv (some_cancel e) v
remove_items-Inv (p ∷ ps) g h v e = elim (Option-cases (lookup (g.store.cell p) g.gossip_list)) [
  | inl crash ↦ absurd (ground (arith, crash))
  | inr (info, found) ↦
      remove_items-Inv ps (retire (g.store.cell p) info g) h (retire-Inv (g.store.cell p) info g v)
        (rw (found, remove_items) at e)
]

pub push_round-Inv : (g h : Gossiper) → Inv g → push_round g ≡ some h → Inv h
unfolding push_round
push_round-Inv g h v e =
    elim (Option-cases
      (push_items g.degree g.mc_config.c_max g.store.next g.gossip_list (allocate g.store))) [
        | inl crash ↦ absurd (ground (arith, crash))
        | inr (scan, pushed) ↦
            remove_items-Inv scan.items_to_remove _ h
              (store-Inv scan.store _ (
                relist-Inv scan.entries (send scan.sent g)
                  (keys-push_items g.degree g.mc_config.c_max g.store.next g.gossip_list _ scan
                    pushed)
                  (send-Inv scan.sent g v)))
              (rw (pushed, push_round) at e)
      ]

pull_round-Inv : (g : Gossiper) → Inv g → Inv (pull_round g)
unfolding pull_round send
pull_round-Inv g v = record {
  is_map = v.is_map;
  old_is_map = v.old_is_map;
  incoming_is_map = v.incoming_is_map;
  bounded = v.bounded;
  incoming_bounded = v.incoming_bounded;
  apart = v.apart;
}

admit_incoming-Inv :
    (item : GossipItem) (p : Pointer) (state : MedianCounterState) (g : Gossiper)
    → Inv g
    → length g.gossip_list < g.cache_size
    → lookup item g.old_gossip_list ≡ none
    → Inv (admit_incoming item p state g)
unfolding admit_incoming
admit_incoming-Inv item p state_b g v room fresh = admit_item-Inv item p _ _ _ _ g v room fresh
admit_incoming-Inv item p state_c g v room fresh = admit_item-Inv item p _ _ _ _ g v room fresh
admit_incoming-Inv item p state_d g v room fresh = v

update_item-Inv :
    (p : Pointer) (item : GossipItem) (info : GossipItemInfo) (g : Gossiper)
    → Inv g
    → Inv (update_item p item info g)
unfolding update_item
update_item-Inv p item info g₀ v₀ =
    let g = record g₀ { store = assign p item g₀.store } in
    let v = store-Inv (assign p item g₀.store) g₀ v₀ in
    let n = notify_clients p g in
    elim (Option-cases (lookup item g₀.old_gossip_list)) [
      | inr (o, old) ↦ rw (old, update_item) v
      | inl fresh ↦ elim (Option-cases (lookup item g₀.gossip_list)) [
        | inr (my_info, hot) ↦
            rw (fresh, hot, update_item)
              (replace-Inv item my_info (update_item_info my_info info) g v hot)
        | inl new ↦ elim (Bool-cases (ltb (length n.gossip_list) n.cache_size)) [
          | inl room ↦
              rw (fresh, new, room, update_item)
                (admit_incoming-Inv item p info.s.state n (notify_clients-Inv p g v)
                  (ground (arith, room)) fresh)
          | inr full ↦ rw (fresh, new, full, update_item) (notify_clients-Inv p g v)
        ]
      ]
    ]

update_items-Inv :
    (p : Pointer) (m : Map GossipItem GossipItemInfo) (g : Gossiper)
    → Inv g
    → Inv (update_items p m g)
unfolding update_items
update_items-Inv p [] g v = v
update_items-Inv p ((item, info) ∷ m) g v =
    update_items-Inv p m (update_item p item info g) (update_item-Inv p item info g v)

keys-apply_medians :
    (b_max : ℕ) (m : Map GossipItem GossipItemInfo) → keys m ≡ keys (apply_medians b_max m)
unfolding apply_medians
keys-apply_medians b_max [] = refl
keys-apply_medians b_max (e ∷ m) = ap (◌∷◌ (e.0)) (keys-apply_medians b_max m)

pub update_round-Inv : (g : Gossiper) → Inv g → Inv (update_round g)
unfolding update_round
update_round-Inv g v =
    let u = update_items g.store.next g.incoming_gossips (record g { store = allocate g.store }) in
    let w = update_items-Inv g.store.next g.incoming_gossips _ (store-Inv (allocate g.store) g v) in
    let r =
      relist-Inv (apply_medians u.mc_config.b_max u.gossip_list) u (keys-apply_medians _ _) w in
    record {
      is_map = r.is_map;
      old_is_map = r.old_is_map;
      incoming_is_map = tt;
      bounded = r.bounded;
      incoming_bounded = omega arith;
      apart = r.apart;
    }

keys-age_old : (m : Map GossipItem GossipItemInfo) → keys m ≡ keys (age_old m)
unfolding age_old
keys-age_old [] = refl
keys-age_old (e ∷ m) = ap (◌∷◌ (e.0)) (keys-age_old m)

pub visit_items-Inv :
    (p : Pointer) (m : Map GossipItem GossipItemInfo) (g : Gossiper)
    → Inv g
    → Inv (visit_items p m g)
unfolding visit_items
visit_items-Inv p [] g v = v
visit_items-Inv p ((item, info) ∷ m) g v =
    visit_items-Inv p m _ (store-Inv (assign p item g.store) g v)

delete_old-Inv : (n : ℕ) (p : Pointer) (g : Gossiper) → Inv g → Inv (delete_old n p g)
unfolding delete_old
delete_old-Inv zero p g v = v
delete_old-Inv (suc n) p g v = delete_old-Inv n p _ (record {
  is_map = v.is_map;
  old_is_map = erase-IsMap (g.store.cell p) g.old_gossip_list v.old_is_map;
  incoming_is_map = v.incoming_is_map;
  bounded = v.bounded;
  incoming_bounded = v.incoming_bounded;
  apart = λ i. ground (arith, v.apart i, lookup-erase (g.store.cell p) i g.old_gossip_list);
})

-- `visit_items` only writes to memory.
visit_items_keeps :
    (p : Pointer) (m : Map GossipItem GossipItemInfo) (g : Gossiper)
    → (visit_items p m g).old_gossip_list ≡ g.old_gossip_list
unfolding visit_items
visit_items_keeps p [] g = refl
visit_items_keeps p ((item, info) ∷ m) g = visit_items_keeps p m _

pub update_old_gossips_round-Inv : (g : Gossiper) → Inv g → Inv (update_old_gossips_round g)
unfolding update_old_gossips_round
update_old_gossips_round-Inv g v =
    let start = record g { store = allocate g.store } in
    let u = visit_items g.store.next g.old_gossip_list start in
    let w =
      visit_items-Inv g.store.next g.old_gossip_list start (store-Inv (allocate g.store) g v) in
    let same = visit_items_keeps g.store.next g.old_gossip_list start in
    let aged : keys u.old_gossip_list ≡ keys (age_old g.old_gossip_list) =
      rw same (keys-age_old g.old_gossip_list) in
    delete_old-Inv (expired_count g.old_gossip_list) g.store.next _ (record {
      is_map = w.is_map;
      old_is_map = IsMap-of_keys u.old_gossip_list _ aged w.old_is_map;
      incoming_is_map = w.incoming_is_map;
      bounded = w.bounded;
      incoming_bounded = w.incoming_bounded;
      apart = λ i. elim (w.apart i) [
        | inl a ↦ inl a
        | inr b ↦ inr (lookup-eq-none_of_keys i u.old_gossip_list _ aged b)
      ];
    })

-- A gossip round that does not panic keeps the invariant.
pub gossip_round-Inv : (g h : Gossiper) → Inv g → gossip_round g ≡ some h → Inv h
unfolding gossip_round
gossip_round-Inv g h v e = elim (Option-cases (push_round g)) [
  | inl crash ↦ absurd (ground (arith, crash))
  | inr (pushed, pe) ↦ subst Inv (some_cancel (rw (pe, gossip_round) at e)) (
      update_old_gossips_round-Inv _
        (update_round-Inv _ (pull_round-Inv pushed (push_round-Inv g pushed v pe))))
]

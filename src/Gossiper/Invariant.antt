-- ===== src/Gossiper/Invariant.antt =====
-- What holds of the Gossiper between any two messages: each list is a map, the two bounded lists
-- respect the cache size, and no item is hot and old at once.
use gossip_protocol.Base.{
  ℕ, ◌≤◌, ◌<◌, ◌≡◌, refl, ◌⊎◌, inl, inr, none, some, [], ◌∷◌, Map, IsMap, keys, length, lookup,
  insert, arith, Option-cases, lookup-insert, lookup-erase, insert-IsMap, erase-IsMap,
  length-insert_old, length-insert-le, length-erase-le, lookup-eq-none_of_keys, IsMap-of_keys,
  length_of_keys,
}
use gossip_protocol.Message.{
  GossipItem, GossipItem-Comparable, MedianCounterState, Pointer, Store, assign,
}
use gossip_protocol.Gossiper.Item.{GossipItemInfo, new_entry}
use gossip_protocol.Gossiper.State.{Gossiper, send}
use gossip_protocol.Gossiper.Push.{push_to, peer_indexes, push_items, PushScan, retire, retired}
use gossip_protocol.Gossiper.Rounds.{notify_clients, admit_item}

pub record Inv (g : Gossiper) : Type 0 where
  pub is_map : IsMap g.gossip_list
  pub old_is_map : IsMap g.old_gossip_list
  pub incoming_is_map : IsMap g.incoming_gossips
  pub bounded : length g.gossip_list ≤ g.cache_size
  pub incoming_bounded : length g.incoming_gossips ≤ g.cache_size
  pub apart :
      (item : GossipItem)
      → (lookup item g.gossip_list ≡ none) ⊎ (lookup item g.old_gossip_list ≡ none)

-- The loop of `pushRound` keeps the keys.
pub keys-push_items :
    (degree c_max : ℕ) (p : Pointer) (m : Map GossipItem GossipItemInfo) (s : Store) (r : PushScan)
    → push_items degree c_max p m s ≡ some r
    → keys m ≡ keys r.entries
unfolding push_items
keys-push_items degree c_max p [] s r e = ground arith
keys-push_items degree c_max p ((item, info) ∷ m) s r e =
    elim (Option-cases (push_to p info (peer_indexes degree info))) [
      | inl crash ↦ ground (arith, crash)
      | inr (pushes, sent) ↦ elim (Option-cases (push_items degree c_max p m (assign p item s))) [
        | inl crash ↦ ground (arith, sent, crash)
        | inr (rest, pushed) ↦
            let ih = keys-push_items degree c_max p m (assign p item s) rest pushed in
            ground (arith, sent, pushed, ih)
      ]
    ]

pub retire-Inv :
    (item : GossipItem) (info : GossipItemInfo) (g : Gossiper) → Inv g → Inv (retire item info g)
unfolding retire send
retire-Inv item info g v = record {
  is_map = erase-IsMap item g.gossip_list v.is_map;
  old_is_map = insert-IsMap item (retired g.max_ttl) g.old_gossip_list v.old_is_map;
  incoming_is_map = v.incoming_is_map;
  bounded = omega (arith, v.bounded, length-erase-le item g.gossip_list);
  incoming_bounded = v.incoming_bounded;
  apart = λ i. ground (
    arith,
    v.apart i,
    lookup-erase item i g.gossip_list,
    lookup-insert item i (retired g.max_ttl) g.old_gossip_list,
  );
}

pub admit_item-Inv :
    (item : GossipItem) (p : Pointer) (state : MedianCounterState) (counter ttl num : ℕ)
    (g : Gossiper)
    → Inv g
    → length g.gossip_list < g.cache_size
    → lookup item g.old_gossip_list ≡ none
    → Inv (admit_item item p state counter ttl num g)
unfolding admit_item send
admit_item-Inv item p state counter ttl num g v room fresh = record {
  is_map = insert-IsMap item _ g.gossip_list v.is_map;
  old_is_map = v.old_is_map;
  incoming_is_map = v.incoming_is_map;
  bounded = omega (arith, length-insert-le item (new_entry state counter ttl) g.gossip_list, room);
  incoming_bounded = v.incoming_bounded;
  apart = λ i.
      ground
        (arith, v.apart i, lookup-insert item i (new_entry state counter ttl) g.gossip_list, fresh);
}

-- Notifications change neither list nor the memory.
pub notify_clients_keeps :
    (p : Pointer) (g : Gossiper)
    → ((notify_clients p g).gossip_list ≡ g.gossip_list)
      × ((notify_clients p g).old_gossip_list ≡ g.old_gossip_list)
      × ((notify_clients p g).incoming_gossips ≡ g.incoming_gossips)
      × ((notify_clients p g).cache_size ≡ g.cache_size)
      × ((notify_clients p g).store ≡ g.store)
unfolding notify_clients send
notify_clients_keeps p g = (refl, refl, refl, refl, refl)

pub notify_clients-Inv : (p : Pointer) (g : Gossiper) → Inv g → Inv (notify_clients p g)
unfolding notify_clients send
notify_clients-Inv p g v = record {
  is_map = v.is_map;
  old_is_map = v.old_is_map;
  incoming_is_map = v.incoming_is_map;
  bounded = v.bounded;
  incoming_bounded = v.incoming_bounded;
  apart = v.apart;
}

-- A new state for an item that is there.
pub replace-Inv :
    (item : GossipItem) (old info : GossipItemInfo) (g : Gossiper)
    → Inv g
    → lookup item g.gossip_list ≡ some old
    → Inv (record g { gossip_list = insert item info g.gossip_list })
replace-Inv item old info g v e = record {
  is_map = insert-IsMap item info g.gossip_list v.is_map;
  old_is_map = v.old_is_map;
  incoming_is_map = v.incoming_is_map;
  bounded = omega (arith, v.bounded, length-insert_old item info old g.gossip_list e);
  incoming_bounded = v.incoming_bounded;
  apart = λ i. ground (arith, v.apart i, lookup-insert item i info g.gossip_list, e);
}

-- A write to memory, and another list with the same keys.
pub store-Inv : (s : Store) (g : Gossiper) → Inv g → Inv (record g { store = s })
store-Inv s g v = record {
  is_map = v.is_map;
  old_is_map = v.old_is_map;
  incoming_is_map = v.incoming_is_map;
  bounded = v.bounded;
  incoming_bounded = v.incoming_bounded;
  apart = v.apart;
}

pub relist-Inv :
    (m : Map GossipItem GossipItemInfo) (g : Gossiper)
    → keys g.gossip_list ≡ keys m
    → Inv g
    → Inv (record g { gossip_list = m })
relist-Inv m g e v = record {
  is_map = IsMap-of_keys g.gossip_list m e v.is_map;
  old_is_map = v.old_is_map;
  incoming_is_map = v.incoming_is_map;
  bounded = omega (arith, v.bounded, length_of_keys g.gossip_list m e);
  incoming_bounded = v.incoming_bounded;
  apart = λ i. elim (v.apart i) [
    | inl a ↦ inl (lookup-eq-none_of_keys i g.gossip_list m e a)
    | inr b ↦ inr b
  ];
}

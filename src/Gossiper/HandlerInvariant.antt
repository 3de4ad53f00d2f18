-- ===== src/Gossiper/HandlerInvariant.antt =====
-- Every handler keeps the invariant.
use gossip_protocol.Base.{
  ℕ, zero, suc, ◌+◌, ◌-◌, ◌≤◌, ◌≡◌, refl, inl, inr, Bool, true, false, Nat-Comparable, Option, none,
  some, List, [], ◌∷◌, length, lookup, insert, arith, leb, ltb_ℤ, pos, Option-cases, Bool-cases,
  lookup-insert, lookup-erase, erase-IsMap, insert-IsMap, length-insert_new, length-insert_old,
  length-erase-le,
}
use gossip_protocol.Datastruct.SetType.{is_member}
use gossip_protocol.Message.{
  Peer, Peer-Comparable, ApiClient-Comparable, GossipItem, GossipItem-Comparable,
  MedianCounterState, state_b, Pointer, AnyMessage, GossipItemExtended, GossipValidation, allocate,
}
use gossip_protocol.Gossiper.Item.{GossipItemInfo, cmp}
use gossip_protocol.Gossiper.State.{Gossiper}
use gossip_protocol.Gossiper.Push.{retired}
use gossip_protocol.Gossiper.Rounds.{notify_clients}
use gossip_protocol.Gossiper.Handlers.{take_random_peers, announce_item, judge, validate}
use gossip_protocol.Gossiper.Incoming.{
  new_info, keep_dominant, check_and_add, check_and_add_incoming_gossip, spend,
  incoming_push_handler, reply_to_pull, take_reply, accept_reply,
}
use gossip_protocol.Gossiper.Invariant.{
  Inv, admit_item-Inv, notify_clients-Inv, replace-Inv, store-Inv,
}
use gossip_protocol.Gossiper.RoundInvariant.{send-Inv, visit_items-Inv}

-- An operation that leaves the three lists and the cache size alone.
pub same_lists-Inv :
    (g h : Gossiper)
    → h.gossip_list ≡ g.gossip_list
    → h.old_gossip_list ≡ g.old_gossip_list
    → h.incoming_gossips ≡ g.incoming_gossips
    → h.cache_size ≡ g.cache_size
    → Inv g
    → Inv h
same_lists-Inv g h a b c d v = record {
  is_map = rw a v.is_map;
  old_is_map = rw b v.old_is_map;
  incoming_is_map = rw c v.incoming_is_map;
  bounded = rw (a, d) v.bounded;
  incoming_bounded = rw (c, d) v.incoming_bounded;
  apart = λ i. rw (a, b) (v.apart i);
}

pub take_random_peers-Inv :
    (related : Option Pointer) (peers : List Peer) (g : Gossiper)
    → Inv g
    → Inv (take_random_peers related peers g)
unfolding take_random_peers
take_random_peers-Inv none peers g v = same_lists-Inv g _ refl refl refl refl v
take_random_peers-Inv (some p) peers g v =
    elim (Option-cases (lookup (g.store.cell p) g.gossip_list)) [
      | inl e ↦ rw (e, take_random_peers) (send-Inv _ g v)
      | inr (info, e) ↦
          rw (e, take_random_peers)
            (replace-Inv (g.store.cell p) info (record info { peer_list = peers }) g v e)
    ]

pub announce_item-Inv : (p : Pointer) (ttl : ℕ) (g : Gossiper) → Inv g → Inv (announce_item p ttl g)
unfolding announce_item
announce_item-Inv p ttl g₀ v₀ =
    let g = notify_clients p g₀ in
    let v = notify_clients-Inv p g₀ v₀ in
    let item = g.store.cell p in
    elim (Bool-cases (leb g.cache_size (length g.gossip_list))) [
      | inl full ↦ rw (full, announce_item) v
      | inr room ↦ elim (Option-cases (lookup item g.old_gossip_list)) [
        | inr (_, old) ↦ rw (room, old, announce_item) v
        | inl fresh ↦ elim (Option-cases (lookup item g.gossip_list)) [
          | inr (_, hot) ↦ rw (room, fresh, hot, announce_item) v
          | inl new ↦
              rw (room, fresh, new, announce_item)
                (admit_item-Inv item p state_b 1 _ _ g v (ground (arith, room)) fresh)
        ]
      ]
    ]

judge-Inv : (valid : Bool) (item : GossipItem) (g : Gossiper) → Inv g → Inv (judge valid item g)
unfolding judge
judge-Inv true item g v = v
judge-Inv false item g v = record {
  is_map = erase-IsMap item g.gossip_list v.is_map;
  old_is_map = insert-IsMap item (retired g.max_ttl) g.old_gossip_list v.old_is_map;
  incoming_is_map = erase-IsMap item g.incoming_gossips v.incoming_is_map;
  bounded = omega (arith, v.bounded, length-erase-le item g.gossip_list);
  incoming_bounded = omega (arith, v.incoming_bounded, length-erase-le item g.incoming_gossips);
  apart = λ i. ground (
    arith,
    v.apart i,
    lookup-erase item i g.gossip_list,
    lookup-insert item i (retired g.max_ttl) g.old_gossip_list,
  );
}

pub validate-Inv : (val : GossipValidation) (g : Gossiper) → Inv g → Inv (validate val g)
unfolding validate
validate-Inv val g v = elim (Option-cases (lookup val.who g.api_clients_to_notify)) [
  | inl e ↦ rw (e, validate) v
  | inr (info, e) ↦ elim (Option-cases (lookup val.id info.validation_map)) [
    | inl e' ↦ rw (e, e', validate) v
    | inr (p, e') ↦
        rw (e, e', validate)
          (same_lists-Inv (judge val.valid (g.store.cell p) g) _ refl refl refl refl
            (judge-Inv val.valid (g.store.cell p) g v))
  ]
]

-- The invariant, with room for `k` more incoming gossips.
record Room (k : ℕ) (g : Gossiper) : Type 0 where
  inv : Inv g
  room : length g.incoming_gossips + k ≤ g.cache_size

store_incoming : GossipItem → GossipItemInfo → Gossiper → Gossiper
store_incoming item info g = record g { incoming_gossips = insert item info g.incoming_gossips }

store_incoming-Inv :
    (item : GossipItem) (info : GossipItemInfo) (g : Gossiper)
    → Inv g
    → length (insert item info g.incoming_gossips) ≤ g.cache_size
    → Inv (store_incoming item info g)
unfolding store_incoming
store_incoming-Inv item info g v h = record {
  is_map = v.is_map;
  old_is_map = v.old_is_map;
  incoming_is_map = insert-IsMap item info g.incoming_gossips v.incoming_is_map;
  bounded = v.bounded;
  incoming_bounded = h;
  apart = v.apart;
}

-- An accepted gossip is added, which takes up room, or takes the place of another state.
keep_dominant-Room :
    (k : ℕ) (item : GossipItem) (info : GossipItemInfo) (g : Gossiper)
    → Room (suc k) g
    → let (h, err) = keep_dominant item info g in Room (spend err (suc k)) h
unfolding keep_dominant store_incoming
keep_dominant-Room k item info g r = elim (Option-cases (lookup item g.incoming_gossips)) [
  | inl new ↦
      let longer = length-insert_new item info g.incoming_gossips new in
      rw (new, keep_dominant)
        (record {
          inv = store_incoming-Inv item info g r.inv (omega (arith, longer, r.room));
          room = omega (arith, longer, r.room);
        })
  | inr (old, there) ↦
      let same = length-insert_old item info old g.incoming_gossips there in
      elim (Bool-cases (ltb_ℤ (cmp old.s info.s) (pos 0))) [
        | inl wins ↦
            rw (there, wins, keep_dominant)
              (record {
                inv =
                    store_incoming-Inv item info g r.inv
                      (omega (arith, same, r.inv.incoming_bounded));
                room = omega (arith, same, r.room);
              })
        | inr loses ↦ rw (there, loses, keep_dominant) r
      ]
]

check_and_add-Room :
    (k : ℕ) (item : Option Pointer) (state : MedianCounterState) (counter : ℕ) (g : Gossiper)
    → Room (suc k) g
    → let (h, err) = check_and_add item state counter g in Room (spend err (suc k)) h
unfolding check_and_add
check_and_add-Room k none state counter g r = r
check_and_add-Room k (some p) state counter g r = elim (Option-cases (new_info state counter g)) [
  | inl refused ↦ rw (refused, check_and_add) r
  | inr (info, accepted) ↦
      rw (accepted, check_and_add) (keep_dominant-Room k (g.store.cell p) info g r)
]

take_reply-Room :
    (es : List GossipItemExtended) (k : ℕ) (g : Gossiper) → Room k g → Inv (take_reply es k g)
unfolding take_reply check_and_add_incoming_gossip
take_reply-Room [] k g r = r.inv
take_reply-Room (e ∷ es) zero g r = r.inv
take_reply-Room (e ∷ es) (suc k) g r =
    let (h, err) = check_and_add e.item e.state e.counter g in
    take_reply-Room es (spend err (suc k)) h (check_and_add-Room k e.item e.state e.counter g r)

pub accept_reply-Inv :
    (from : Peer) (items : List GossipItemExtended) (g : Gossiper)
    → Inv g
    → Inv (accept_reply from items g)
unfolding accept_reply
accept_reply-Inv from items g v = elim (Bool-cases (is_member from g.pull_peers)) [
  | inl asked ↦
      rw (asked, accept_reply)
        (same_lists-Inv _ _ refl refl refl refl (
          take_reply-Room items (g.cache_size - length g.incoming_gossips) g
            (record { inv = v; room = omega (arith, v.incoming_bounded) })))
  | inr unasked ↦ rw (unasked, accept_reply) v
]

pub incoming_push-Inv :
    (e : GossipItemExtended) (g : Gossiper)
    → Inv g
    → Inv (incoming_push_handler (AnyMessage.gossip_item_extended e) g).0
unfolding incoming_push_handler check_and_add_incoming_gossip
incoming_push-Inv e g v = elim (Bool-cases (leb g.cache_size (length g.incoming_gossips))) [
  | inl full ↦ rw full v
  | inr room ↦ rw room (
      (check_and_add-Room 0 e.item e.state e.counter g
        (record { inv = v; room = ground (arith, room) })).inv)
]

pub reply_to_pull-Inv : (from : Peer) (g : Gossiper) → Inv g → Inv (reply_to_pull from g)
unfolding reply_to_pull
reply_to_pull-Inv from g v =
    send-Inv _ _ (visit_items-Inv g.store.next g.gossip_list _ (store-Inv (allocate g.store) g v))

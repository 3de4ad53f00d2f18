-- ===== src/Gossiper/Replies.antt =====
-- What the handlers of the Gossiper do for the peers and the clients that they answer.
use gossip_protocol.Base.{
  ℕ, zero, suc, ◌≤◌, ◌≡◌, refl, false, Option, none, some, List, [], ◌∷◌, ◌++◌, All, Map, lookup,
  insert, arith, ap, ◌∙◌, Option-cases, inl, inr, lookup-insert, length, Nat-Comparable,
  lookup-erase_self, lookup-insert_self, ltb_ℤ, pos, Bool-cases,
}
use gossip_protocol.Message.{
  Peer, GossipItem, GossipItem-Comparable, ApiClient-Comparable, Pointer, assign, allocate,
  GossipItemExtended, GossipValidation, gossip_pull_reply_msg, gossip_pull_reply,
}
use gossip_protocol.Gossiper.Item.{GossipItemInfo, state_val, cmp}
use gossip_protocol.Gossiper.State.{Gossiper, ApiClientInfo, message, send}
use gossip_protocol.Gossiper.Push.{retired}
use gossip_protocol.Gossiper.Rounds.{visit_items}
use gossip_protocol.Gossiper.Handlers.{judge, validate}
use gossip_protocol.Gossiper.Incoming.{
  reply_items, reply_to_pull, new_info, keep_dominant, check_and_add, check_and_add_incoming_gossip,
  take_reply, spend,
}
use gossip_protocol.Gossiper.Aliasing.{last_item}

pub visit_items-cell :
    (p : Pointer) (m : Map GossipItem GossipItemInfo) (g : Gossiper)
    → (visit_items p m g).store.cell p ≡ last_item (g.store.cell p) m
unfolding visit_items assign
visit_items-cell p [] g = refl
visit_items-cell p ((item, info) ∷ m) g =
    let next : Gossiper = record g { store = assign p item g.store } in
    let here : next.store.cell p ≡ item = ground arith in
    visit_items-cell p m next ∙ ap (λ d. last_item d m) here

reply_items-All :
    (p : Pointer) (P : Pointer → Type 0) (m : Map GossipItem GossipItemInfo)
    → P p
    → All (λ e. (q : Pointer) × (e.item ≡ some q) × P q) (reply_items p m)
unfolding reply_items
reply_items-All p P [] h = tt
reply_items-All p P ((item, info) ∷ m) h = ((p, refl, h), reply_items-All p P m h)

visit_items-msg_out_queue :
    (p : Pointer) (m : Map GossipItem GossipItemInfo) (g : Gossiper)
    → (visit_items p m g).msg_out_queue ≡ g.msg_out_queue
unfolding visit_items
visit_items-msg_out_queue p [] g = refl
visit_items-msg_out_queue p ((item, info) ∷ m) g =
    visit_items-msg_out_queue p m (record g { store = assign p item g.store })

length-reply_items :
    (p : Pointer) (m : Map GossipItem GossipItemInfo) → length (reply_items p m) ≡ length m
unfolding reply_items
length-reply_items p [] = refl
length-reply_items p ((item, info) ∷ m) = ap suc (length-reply_items p m)

-- A pull request, while there is a hot item, is answered with one message, which has an entry for
-- each hot item; but all its entries name the item that was visited last.
pub reply_to_pull_lem :
    (from : Peer) (g : Gossiper) (first : GossipItem) (info : GossipItemInfo)
    (m : Map GossipItem GossipItemInfo)
    → g.gossip_list ≡ (first, info) ∷ m
    → (items : List GossipItemExtended) × ((reply_to_pull from g).msg_out_queue
        ≡ g.msg_out_queue ++ message gossip_pull_reply_msg (gossip_pull_reply from items) ∷ [])
      × (length items ≡ length g.gossip_list)
      × All
          (λ e.
            (q : Pointer) × (e.item ≡ some q)
            × ((reply_to_pull from g).store.cell q ≡ last_item first m))
          items
unfolding reply_to_pull send
reply_to_pull_lem from g first info m list =
    let p = g.store.next in
    let start : Gossiper = record g { store = allocate g.store } in
    let items = reply_items p g.gossip_list in
    (
      items,
      ap (λ q. q ++ message gossip_pull_reply_msg (gossip_pull_reply from items) ∷ [])
          (visit_items-msg_out_queue p g.gossip_list start),
      length-reply_items p g.gossip_list,
      reply_items-All p (λ q. (visit_items p g.gossip_list start).store.cell q ≡ last_item first m)
          g.gossip_list
          (visit_items-cell p g.gossip_list start ∙ ap (last_item (start.store.cell p)) list),
    )

-- The verdict of a registered client that an item which it was notified of is invalid takes the item
-- from the hot and from the incoming ones and enters it as old, and sends nothing: the peers of a hot
-- item are not released.
pub validate_rejects :
    (val : GossipValidation) (g : Gossiper) (info : ApiClientInfo) (p : Pointer)
    → val.valid ≡ false
    → lookup val.who g.api_clients_to_notify ≡ some info
    → lookup val.id info.validation_map ≡ some p
    → let item = g.store.cell p in
      let h = validate val g in
      (lookup item h.gossip_list ≡ none)
      × (lookup item h.incoming_gossips ≡ none)
      × (lookup item h.old_gossip_list ≡ some (retired g.max_ttl))
      × (h.msg_out_queue ≡ g.msg_out_queue)
unfolding validate judge
validate_rejects val g info p bad who there =
    let item = g.store.cell p in
    simp (who, there, bad, validate)
      (
        lookup-erase_self item g.gossip_list,
        lookup-erase_self item g.incoming_gossips,
        lookup-insert_self item (retired g.max_ttl) g.old_gossip_list,
        refl,
      )

-- What is stored for an item among the incoming ones, and how it may change: the number that `Cmp`
-- compares never gets smaller.
abbrev pub Grows : GossipItem → GossipItemInfo → Gossiper → Type 0
Grows j old h =
    (now : GossipItemInfo) × (lookup j h.incoming_gossips ≡ some now)
    × (state_val old.s ≤ state_val now.s)

insert-Grows :
    (item j : GossipItem) (new old : GossipItemInfo) (g : Gossiper)
    → lookup j g.incoming_gossips ≡ some old
    → (item ≡ j → state_val old.s ≤ state_val new.s)
    → Grows j old (record g { incoming_gossips = insert item new g.incoming_gossips })
insert-Grows item j new old g h better = elim (GossipItem-Comparable.dec item j) [
  | yes same ↦ (new, ground (arith, lookup-insert item j new g.incoming_gossips, same), better same)
  | no other ↦
      (old, ground (arith, lookup-insert item j new g.incoming_gossips, other, h), omega arith)
]

keep_dominant-Grows :
    (item j : GossipItem) (new old : GossipItemInfo) (g : Gossiper)
    → lookup j g.incoming_gossips ≡ some old
    → Grows j old (keep_dominant item new g).0
unfolding keep_dominant cmp
keep_dominant-Grows item j new old g h = elim (Option-cases (lookup item g.incoming_gossips)) [
  | inl gone ↦
      rw (gone, keep_dominant)
        (insert-Grows item j new old g h
          (λ same. ground (arith, gone, h, ap (λ x. lookup x g.incoming_gossips) same)))
  | inr (o, there) ↦
      rw (there, keep_dominant)
        (elim (Bool-cases (ltb_ℤ (cmp o.s new.s) (pos 0))) [
          | inl below ↦ rw below (
              insert-Grows item j new old g h (λ same.
                ground (arith, below, there, h, ap (λ x. lookup x g.incoming_gossips) same)))
          | inr kept ↦ rw kept (old, h, omega arith)
        ])
]

check_and_add-Grows :
    (e : GossipItemExtended) (j : GossipItem) (old : GossipItemInfo) (g : Gossiper)
    → lookup j g.incoming_gossips ≡ some old
    → Grows j old (check_and_add_incoming_gossip e g).0
unfolding check_and_add_incoming_gossip
check_and_add-Grows e j old g h = by_item e.item
  where
    by_item : (i : Option Pointer) → Grows j old (check_and_add i e.state e.counter g).0
    by_item none = unfold check_and_add in (old, h, omega arith)
    by_item (some p) =
        unfold check_and_add in
        elim (Option-cases (new_info e.state e.counter g)) [
          | inl refused ↦ rw (refused, check_and_add) (old, h, omega arith)
          | inr (new, made) ↦
              rw (made, check_and_add) (keep_dominant-Grows (g.store.cell p) j new old g h)
        ]

-- However many entries of a pull reply are taken, an item that was among the incoming ones stays
-- there, and the number that `Cmp` compares never gets smaller for it.
pub take_reply-Grows :
    (es : List GossipItemExtended) (up_to : ℕ) (j : GossipItem) (old : GossipItemInfo)
    (g : Gossiper)
    → lookup j g.incoming_gossips ≡ some old
    → Grows j old (take_reply es up_to g)
unfolding take_reply
take_reply-Grows [] up_to j old g h = (old, h, omega arith)
take_reply-Grows (e ∷ es) zero j old g h = (old, h, omega arith)
take_reply-Grows (e ∷ es) (suc up_to) j old g h =
    let r = check_and_add_incoming_gossip e g in
    let (mid, there, le) = check_and_add-Grows e j old g h in
    let (now, here, le') = take_reply-Grows es (spend (r.1) (suc up_to)) j mid (r.0) there in
    (now, here, omega arith)

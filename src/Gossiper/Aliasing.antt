-- ===== src/Gossiper/Aliasing.antt =====
-- What the shared loop variable does to a round of pushes. All pointers of the loop are one, so what
-- is collected for removal is the item visited last, as often as items were due.
use gossip_protocol.Base.{
  ℕ, zero, suc, ◌≤◌, ◌≡◌, refl, ap, ◌∙◌, ◌≢◌, none, some, [], ◌∷◌, Map, keys, lookup, arith,
  if◌then◌else◌, replicate, Option-cases, Bool-cases, inl, inr, lookup-erase_self,
  lookup-insert_self, lookup-erase, lookup-eq-none_of_keys, sym,
}
use gossip_protocol.Message.{GossipItem, GossipItem-Comparable, Pointer, Store, assign, allocate}
use gossip_protocol.Gossiper.Item.{GossipItemInfo}
use gossip_protocol.Gossiper.State.{Gossiper, send}
use gossip_protocol.Gossiper.Push.{
  age, PushScan, visit, push_items, retire, retired, remove_items, push_round,
}
use gossip_protocol.Gossiper.Pushes.{pushes_total}
use gossip_protocol.Gossiper.Invariant.{keys-push_items}

-- The item that a loop visits last.
abbrev pub last_item : GossipItem → Map GossipItem GossipItemInfo → GossipItem
last_item d [] = d
last_item d ((item, info) ∷ m) = last_item item m

-- How many items come to their end in the round.
unfoldable pub due_count : ℕ → Map GossipItem GossipItemInfo → ℕ
due_count c_max [] = 0
due_count c_max ((item, info) ∷ m) =
    let rest = due_count c_max m in if (age c_max info).1 then suc rest else rest

-- The loop never panics, and collects the one pointer as often as items are due.
pub record Scanned (degree c_max : ℕ) (p : Pointer) (m : Map GossipItem GossipItemInfo) (s : Store)
    : Type 0 where
  pub scan : PushScan
  pub result : push_items degree c_max p m s ≡ some scan
  pub collected : scan.items_to_remove ≡ replicate (due_count c_max m) p
  pub variable : scan.store.cell p ≡ last_item (s.cell p) m

push_items-Scanned :
    (degree c_max : ℕ) (p : Pointer) (m : Map GossipItem GossipItemInfo) (s : Store)
    → Scanned degree c_max p m s
unfolding push_items due_count assign
push_items-Scanned degree c_max p [] s = record {
  scan = record { entries = []; sent = []; items_to_remove = []; store = s };
  result = refl;
  collected = refl;
  variable = refl;
}
push_items-Scanned degree c_max p ((item, info) ∷ m) s =
    let (ms, sent, _) = pushes_total p degree info in
    let rest = push_items-Scanned degree c_max p m (assign p item s) in
    let cell : (assign p item s).cell p ≡ item = ground arith in
    record {
      scan = visit p item (age c_max info) ms rest.scan;
      result = rw (sent, rest.result, push_items);
      collected = elim (Bool-cases (age c_max info).1) [
        | inl is_due ↦ rw is_due (ap (◌∷◌ p) rest.collected)
        | inr stays ↦ rw stays rest.collected
      ];
      variable = rest.variable ∙ ap (λ d. last_item d m) cell;
    }

-- The deletions through one pointer: the second one finds nothing, and panics.
remove_items_twice :
    (n : ℕ) (p : Pointer) (g : Gossiper) → remove_items (replicate (suc (suc n)) p) g ≡ none
unfolding remove_items retire send
remove_items_twice n p g = elim (Option-cases (lookup (g.store.cell p) g.gossip_list)) [
  | inl missing ↦ rw (missing, remove_items)
  | inr (info, found) ↦ rw (found, remove_items, lookup-erase_self (g.store.cell p) g.gossip_list)
]

-- The map that a round of pushes starts from, with the loop's variable allocated.
abbrev scanned :
    (g : Gossiper)
    → Scanned g.degree g.mc_config.c_max g.store.next g.gossip_list (allocate g.store)
scanned g =
    push_items-Scanned g.degree g.mc_config.c_max g.store.next g.gossip_list (allocate g.store)

-- The state after the loop, before the removals.
abbrev pushed : Gossiper → Gossiper
pushed g = record (send (scanned g).scan.sent g) {
  gossip_list = (scanned g).scan.entries;
  store = (scanned g).scan.store;
}

push_round-remove_items :
    (g : Gossiper)
    → push_round g
      ≡ remove_items (replicate (due_count g.mc_config.c_max g.gossip_list) g.store.next) (pushed g)
unfolding push_round
push_round-remove_items g = let sc = scanned g in rw (sc.result, push_round) (rw sc.collected)

-- A round in which two or more items come to their end panics, in every state and in every order of
-- the visits: the Gossiper crashes.
pub push_round_crashes :
    (g : Gossiper) → 2 ≤ due_count g.mc_config.c_max g.gossip_list → push_round g ≡ none
push_round_crashes g h =
    push_round-remove_items g ∙ crash (due_count g.mc_config.c_max g.gossip_list) h
  where
    crash : (n : ℕ) → 2 ≤ n → remove_items (replicate n g.store.next) (pushed g) ≡ none
    crash zero h = absurd (omega arith)
    crash (suc zero) h = absurd (omega arith)
    crash (suc (suc n)) h = remove_items_twice n g.store.next _

-- A round in which no item comes to its end keeps all items.
pub push_round_none_due :
    (g : Gossiper)
    → due_count g.mc_config.c_max g.gossip_list ≡ 0
    → (h : Gossiper) × (push_round g ≡ some h)
      × (keys h.gossip_list ≡ keys g.gossip_list)
      × (h.old_gossip_list ≡ g.old_gossip_list)
unfolding remove_items send
push_round_none_due g e = (
  pushed g,
  push_round-remove_items g ∙ rw e,
  sym (
      keys-push_items g.degree g.mc_config.c_max g.store.next g.gossip_list _ _ (scanned g).result),
  refl,
)

lookup-last_item :
    (d : GossipItem) (info : GossipItemInfo) (m : Map GossipItem GossipItemInfo)
    → lookup (last_item d m) ((d, info) ∷ m) ≢ none
unfolding lookup
lookup-last_item d info [] e = ground arith
lookup-last_item d info ((j, w) ∷ m) e = absurd (lookup-last_item j w m (ground arith))

remove_one :
    (p : Pointer) (g : Gossiper) (item : GossipItem) (info : GossipItemInfo)
    → g.store.cell p ≡ item
    → lookup item g.gossip_list ≡ some info
    → remove_items (p ∷ []) g ≡ some (retire item info g)
unfolding remove_items
remove_one p g item info here found =
    let found' : lookup (g.store.cell p) g.gossip_list ≡ some info = rw here found in
    rw (found', remove_items) (ap (λ i. some (retire i info g)) here)

-- A round in which exactly one item comes to its end removes the item that was visited last, be it
-- that one or another, and keeps every other item, also the one that is due.
pub push_round_one_due :
    (g : Gossiper) (first : GossipItem) (info : GossipItemInfo) (m : Map GossipItem GossipItemInfo)
    → g.gossip_list ≡ (first, info) ∷ m
    → due_count g.mc_config.c_max g.gossip_list ≡ 1
    → (h : Gossiper) × (push_round g ≡ some h)
      × (lookup (last_item first m) h.gossip_list ≡ none)
      × (lookup (last_item first m) h.old_gossip_list ≡ some (retired g.max_ttl))
      × ((j : GossipItem)
          → j ≢ last_item first m
          → lookup j h.gossip_list ≡ none
          → lookup j g.gossip_list ≡ none)
unfolding remove_items retire send
push_round_one_due g first info m list one =
    let last = last_item first m in
    let entries = (scanned g).scan.entries in
    let same =
      keys-push_items g.degree g.mc_config.c_max g.store.next g.gossip_list _ _
        (scanned g).result in
    let here : (scanned g).scan.store.cell g.store.next ≡ last =
      (scanned g).variable ∙ ap (last_item _) list in
    elim (Option-cases (lookup last entries)) [
      | inl missing ↦ absurd (
          lookup-last_item first info m
            (rw list at (lookup-eq-none_of_keys last entries g.gossip_list (sym same) missing)))
      | inr (x, found) ↦ (
        retire last x (pushed g),
        push_round-remove_items g ∙ rw one (remove_one g.store.next (pushed g) last x here found),
        lookup-erase_self last entries,
        lookup-insert_self last (retired g.max_ttl) g.old_gossip_list,
        λ j ne gone.
            lookup-eq-none_of_keys j entries g.gossip_list (sym same)
              (ground (arith, lookup-erase last j entries, gone)),
      )
    ]

-- ===== src/Gossiper/Item.antt =====
-- src/core/gossip_item.go: the state of a gossip item under the median-counter algorithm.
use gossip_protocol.Base.{
  ℕ, ◌+◌, ◌*◌, ◌<◌, ◌≤◌, ◌≡◌, ◌↔◌, ◌⊎◌, List, [], ltb, leb, if◌then◌else◌, arith, ℤ, pos, negsuc,
  ◌+ℤ◌, ◌-ℤ◌,
}
use gossip_protocol.Message.{MedianCounterState, state_b, state_c, state_d, Peer}

pub record GossipItemState : Type 0 where
  pub state : MedianCounterState
  pub counter : ℕ  -- uint8
  pub ttl : ℕ  -- uint8
  pub median_rule : ℤ

pub record GossipItemInfo : Type 0 where
  pub s : GossipItemState
  pub peer_list : List Peer

-- A state as it is entered in a list, with no peers yet.
abbrev pub new_entry : MedianCounterState → ℕ → ℕ → GossipItemInfo
new_entry state counter ttl = record {
  s = record { state = state; counter = counter; ttl = ttl; median_rule = pos 0 };
  peer_list = [];
}

-- The value of the constant.
abbrev pub state_code : MedianCounterState → ℕ
state_code state_b = 0
state_code state_c = 1
state_code state_d = 2

-- `(uint16(state) << 8) | uint16(counter)`: the counter is below 2 ^ 8, so `|` adds.
abbrev pub state_val : GossipItemState → ℕ
state_val s = state_code s.state * 256 + s.counter

unfoldable pub cmp : GossipItemState → GossipItemState → ℤ
cmp ls rs =
    if ltb (state_val rs) (state_val ls)
    then pos 1
    else if ltb (state_val ls) (state_val rs)
    then negsuc 0
    else pos 0

-- The two nested `switch`es of `UpdateItemInfo`.
update_state :
    MedianCounterState → MedianCounterState → GossipItemState → GossipItemState → GossipItemState
update_state state_b state_b s new =
    if leb s.counter new.counter
    then record s { median_rule = s.median_rule +ℤ pos 1 }
    else record s { median_rule = s.median_rule -ℤ pos 1 }
update_state state_b state_c s new = record s { state = state_c; counter = 0; median_rule = pos 0 }
update_state _ _ s new = s

unfoldable pub update_item_info : GossipItemInfo → GossipItemInfo → GossipItemInfo
unfolding update_state
update_item_info info new = record info { s = update_state info.s.state new.s.state info.s new.s }

-- The order of the median-counter algorithm: by state first, and by counter second.
abbrev pub Dominates : GossipItemState → GossipItemState → Type 0
Dominates ls rs =
    (state_code rs.state < state_code ls.state)
    ⊎ ((ls.state ≡ rs.state) × (rs.counter < ls.counter))

-- Over counters that are `uint8`s, `Cmp` is 1 exactly if the left side dominates, and -1 exactly if
-- the right side does.
pub cmp-Dominates :
    (ls rs : GossipItemState)
    → ls.counter < 256
    → rs.counter < 256
    → ((cmp ls rs ≡ pos 1) ↔ Dominates ls rs) × ((cmp ls rs ≡ negsuc 0) ↔ Dominates rs ls)
unfolding cmp
cmp-Dominates ls rs hl hr = ground arith

-- Hearing of an item never moves its state back, and leaves its time to live and its peers alone.
pub update_item_info_keeps :
    (info new : GossipItemInfo)
    → (state_code info.s.state ≤ state_code (update_item_info info new).s.state)
      × ((update_item_info info new).s.ttl ≡ info.s.ttl)
      × ((update_item_info info new).peer_list ≡ info.peer_list)
unfolding update_item_info
update_item_info_keeps info new = ground arith

-- ===== src/Gossiper/Tests.antt =====
-- Runs of the Gossiper on small states.
use gossip_protocol.Base.{
  ℕ, ◌+◌, ◌*◌, ◌%◌, ◌<◌, ◌≡◌, ◌≢◌, ◌↔◌, refl, inl, none, some, List, [], ◌∷◌, Map, arith, lookup,
  length, get_elem?, pos, negsuc,
}
use gossip_protocol.Datastruct.Extrema.{min_int}
use gossip_protocol.Message.{
  Peer, GossipItem, GossipItem-Comparable, state_b, state_c, AnyMessage, InternalMessage,
  InternalMessageType, no_error,
}
use gossip_protocol.Gossiper.Item.{
  GossipItemInfo, GossipItemState, new_entry, cmp, cmp-Dominates, Dominates,
}
use gossip_protocol.Gossiper.State.{Gossiper}
use gossip_protocol.Gossiper.Push.{peer_indexes, push_round, retired, age}
use gossip_protocol.Gossiper.Handlers.{announce_handler}
use gossip_protocol.Gossiper.Incoming.{handle}
use gossip_protocol.Gossiper.Handlers.{validate}
use gossip_protocol.Gossiper.Incoming.{reply_to_pull, take_reply}
use gossip_protocol.Gossiper.State.{ApiClientInfo, message}
use gossip_protocol.Gossiper.OldItems.{aged, update_old_gossips_round_lem}
use gossip_protocol.Gossiper.Rounds.{update_old_gossips_round}
use gossip_protocol.Message.{state_d}
use gossip_protocol.Gossiper.Replies.{reply_to_pull_lem, validate_rejects, Grows, take_reply-Grows}
use gossip_protocol.Message.{
  ApiClient, ApiClient-Comparable, ApiClient-discrete, GossipItem-discrete, GossipItemExtended,
  GossipValidation,
}
use gossip_protocol.Base.{All, ◌++◌, false, Nat-Comparable}
use gossip_protocol.Gossiper.Invariant.{Inv}
use gossip_protocol.Gossiper.Dispatch.{Steps, here, then, handles, Steps-Inv}
use gossip_protocol.Gossiper.Pushes.{peer_indexes_lem}
use gossip_protocol.Gossiper.Aliasing.{due_count, push_round_crashes, push_round_one_due}

abbrev peer_a : Peer
peer_a = record { addr = 1 ∷ [] }

abbrev peer_b : Peer
peer_b = record { addr = 2 ∷ [] }

abbrev peer_c : Peer
peer_c = record { addr = 3 ∷ [] }

abbrev item_x : GossipItem
item_x = record { data_type = 7; content = 1 ∷ [] }

abbrev item_y : GossipItem
item_y = record { data_type = 7; content = 2 ∷ [] }

abbrev info_with_ttl : ℕ → GossipItemInfo
info_with_ttl ttl = record (new_entry state_b 1 ttl) { peer_list = peer_a ∷ peer_b ∷ peer_c ∷ [] }

abbrev sample : Map GossipItem GossipItemInfo → Gossiper
sample m = record {
  cache_size = 4;
  degree = 2;
  max_ttl = 9;
  mc_config = record { b_max = 3; c_max = 3 };
  gossip_list = m;
  old_gossip_list = [];
  api_clients_to_notify = [];
  incoming_gossips = [];
  next_round_pull_peers = [];
  pull_peers = [];
  msg_out_queue = [];
  store = record { cell = λ p. item_x; next = 5 };
}

abbrev two_due : Gossiper
two_due = sample ((item_x, info_with_ttl 1) ∷ (item_y, info_with_ttl 1) ∷ [])

abbrev one_due : Gossiper
one_due = sample ((item_x, info_with_ttl 1) ∷ (item_y, info_with_ttl 5) ∷ [])

abbrev none_due : Gossiper
none_due = sample ((item_x, info_with_ttl 5) ∷ [])

push_round_crashes_example : push_round two_due ≡ none
unfolding due_count age
push_round_crashes_example = push_round_crashes two_due (omega arith)

push_round_one_due_example :
    (h : Gossiper) × (push_round one_due ≡ some h)
    × (lookup item_y h.gossip_list ≡ none)
    × (lookup item_y h.old_gossip_list ≡ some (retired 9))
    × ((j : GossipItem)
        → j ≢ item_y
        → lookup j h.gossip_list ≡ none
        → lookup j one_due.gossip_list ≡ none)
unfolding due_count age
push_round_one_due_example =
    push_round_one_due one_due item_x (info_with_ttl 1) ((item_y, info_with_ttl 5) ∷ []) refl refl

peer_indexes_lem_example :
    (length (peer_indexes 2 (info_with_ttl 5)) ≡ min_int 2 3)
    × ((i : ℕ)
        → i < min_int 2 3
        → get_elem? (peer_indexes 2 (info_with_ttl 5)) i ≡ some ((5 * 2 + i) % 3))
    × ((i j v : ℕ)
        → get_elem? (peer_indexes 2 (info_with_ttl 5)) i ≡ some v
        → get_elem? (peer_indexes 2 (info_with_ttl 5)) j ≡ some v
        → i ≡ j)
peer_indexes_lem_example = peer_indexes_lem 2 (info_with_ttl 5)

abbrev state_b_2 : GossipItemState
state_b_2 = record { state = state_b; counter = 2; ttl = 3; median_rule = pos 0 }

abbrev state_c_1 : GossipItemState
state_c_1 = record { state = state_c; counter = 1; ttl = 3; median_rule = pos 0 }

cmp-Dominates_example :
    ((cmp state_b_2 state_c_1 ≡ pos 1) ↔ Dominates state_b_2 state_c_1)
    × ((cmp state_b_2 state_c_1 ≡ negsuc 0) ↔ Dominates state_c_1 state_b_2)
cmp-Dominates_example = cmp-Dominates state_b_2 state_c_1 (omega arith) (omega arith)

abbrev announcement : InternalMessage
announcement = record {
  type = InternalMessageType.gossip_announce_msg;
  payload = AnyMessage.gossip_announce (record { item = some 3; ttl = 0 });
}

abbrev empty_gossiper : Gossiper
empty_gossiper = sample []

abbrev announced : Gossiper
announced = (announce_handler announcement.payload empty_gossiper).0

announced-Steps : Steps empty_gossiper announced
unfolding handle announce_handler
announced-Steps = then here (handles announcement no_error refl)

empty-Inv : Inv empty_gossiper
unfolding lookup
empty-Inv = record {
  is_map = tt;
  old_is_map = tt;
  incoming_is_map = tt;
  bounded = omega arith;
  incoming_bounded = omega arith;
  apart = λ item. inl refl;
}

Steps-Inv_example : Inv announced
Steps-Inv_example = Steps-Inv announced-Steps empty-Inv

abbrev two_hot : Gossiper
two_hot = sample ((item_x, info_with_ttl 4) ∷ (item_y, info_with_ttl 5) ∷ [])

reply_to_pull_lem_example :
    (items : List GossipItemExtended) × ((reply_to_pull peer_a two_hot).msg_out_queue
      ≡ []
        ++ message InternalMessageType.gossip_pull_reply_msg
            (AnyMessage.gossip_pull_reply peer_a items)
          ∷ [])
    × (length items ≡ length two_hot.gossip_list)
    × All
        (λ e. (q : ℕ) × (e.item ≡ some q) × ((reply_to_pull peer_a two_hot).store.cell q ≡ item_y))
        items
reply_to_pull_lem_example =
    reply_to_pull_lem peer_a two_hot item_x (info_with_ttl 4) ((item_y, info_with_ttl 5) ∷ []) refl

abbrev client : ApiClient
client = record { addr = 9 ∷ [] }

abbrev client_info : ApiClientInfo
client_info = record { notify_data_types = []; validation_map = (4, 3) ∷ []; next_available_id = 5 }

abbrev with_client : Gossiper
with_client = record two_hot { api_clients_to_notify = (client, client_info) ∷ [] }

abbrev rejection : GossipValidation
rejection = record { who = client; id = 4; valid = false }

validate_rejects_example :
    (lookup item_x (validate rejection with_client).gossip_list ≡ none)
    × (lookup item_x (validate rejection with_client).incoming_gossips ≡ none)
    × (lookup item_x (validate rejection with_client).old_gossip_list ≡ some (retired 9))
    × ((validate rejection with_client).msg_out_queue ≡ [])
unfolding lookup ApiClient-discrete
validate_rejects_example = validate_rejects rejection with_client client_info 3 refl refl refl

abbrev with_incoming : Gossiper
with_incoming = record two_hot { incoming_gossips = (item_x, new_entry state_b 1 9) ∷ [] }

take_reply-Grows_example :
    Grows item_x
      (new_entry state_b 1 9)
      (take_reply (record { item = some 3; state = state_c; counter = 0 } ∷ []) 2 with_incoming)
unfolding lookup GossipItem-discrete
take_reply-Grows_example =
    take_reply-Grows (record { item = some 3; state = state_c; counter = 0 } ∷ []) 2 item_x
      (new_entry state_b 1 9) with_incoming refl

abbrev two_old : Gossiper
two_old = record none_due {
  old_gossip_list = (item_x, new_entry state_d 0 1) ∷ (item_y, new_entry state_d 0 1) ∷ [];
}

update_old_gossips_round_lem_example :
    lookup item_x (update_old_gossips_round two_old).old_gossip_list
    ≡ some (aged (new_entry state_d 0 1))
unfolding lookup GossipItem-discrete
update_old_gossips_round_lem_example =
    update_old_gossips_round_lem two_old item_x (new_entry state_d 0 1)
      ((item_y, new_entry state_d 0 1) ∷ []) item_x (new_entry state_d 0 1) refl (ground arith) refl

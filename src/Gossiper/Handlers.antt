-- ===== src/Gossiper/Handlers.antt =====
-- The handlers of the Gossiper's messages. A payload of another type than the one that is asserted
-- changes nothing.
use gossip_protocol.Base.{
  ℕ, ◌*◌, Bool, true, false, ◌||◌, Option, none, some, List, [], ◌∷◌, length, lookup, insert, erase,
  contains, ltb, leb, ◌==◌, if◌then◌else◌, Nat-Comparable,
}
use gossip_protocol.Datastruct.SetType.{SetOf, add, empty_set}
use gossip_protocol.Message.{
  Peer, Peer-Comparable, ApiClient-Comparable, GossipItem, GossipItem-Comparable, state_b, Pointer,
  AnyMessage, random_peer_list_reply, gossip_announce, gossip_notify, api_client_value,
  gossip_validation, random_peer_list_release_msg, random_peer_list_release, HandlerError, no_error,
  GossipNotify, GossipValidation,
}
use gossip_protocol.Gossiper.State.{Gossiper, message, send}
use gossip_protocol.Gossiper.Push.{retired}
use gossip_protocol.Gossiper.Rounds.{notify_clients, admit_item}

unfoldable pub add_peers : List Peer → SetOf Peer → SetOf Peer
unfolding add
add_peers [] s = s
add_peers (peer ∷ peers) s = add_peers peers (add peer s)

-- A reply of random peers, by what it is related to.
unfoldable pub take_random_peers : Option Pointer → List Peer → Gossiper → Gossiper
unfolding add_peers send message
take_random_peers none peers g = record g {
  next_round_pull_peers = add_peers peers g.next_round_pull_peers;
}
take_random_peers (some p) peers g =
    let item = g.store.cell p in
    elim (lookup item g.gossip_list) [
      | some info ↦ record g {
        gossip_list = insert item (record info { peer_list = peers }) g.gossip_list;
      }
      | none ↦ send (message random_peer_list_release_msg (random_peer_list_release peers) ∷ []) g
    ]

unfoldable pub random_peer_list_reply_handler : AnyMessage → Gossiper → Gossiper × HandlerError
unfolding take_random_peers
random_peer_list_reply_handler (random_peer_list_reply related peers) g =
    (take_random_peers related peers g, no_error)
random_peer_list_reply_handler _ g = (g, no_error)

-- The time to live that an announcement asks for, within the limit.
unfoldable pub announced_ttl : ℕ → ℕ → ℕ
announced_ttl max_ttl ttl = if ttl == 0 then max_ttl else if ltb max_ttl ttl then max_ttl else ttl

unfoldable pub announce_item : Pointer → ℕ → Gossiper → Gossiper
unfolding notify_clients admit_item announced_ttl
announce_item p ttl g₀ =
    let g = notify_clients p g₀ in
    let item = g.store.cell p in
    let wanted = announced_ttl g.max_ttl ttl in
    if leb g.cache_size (length g.gossip_list)
    then g
    else if contains item g.old_gossip_list || contains item g.gossip_list
    then g
    else admit_item item p state_b 1 wanted (g.degree * wanted) g

unfoldable pub announce : Option Pointer → ℕ → Gossiper → Gossiper
unfolding announce_item
announce none ttl g = g
announce (some p) ttl g = announce_item p ttl g

unfoldable pub announce_handler : AnyMessage → Gossiper → Gossiper × HandlerError
unfolding announce
announce_handler (gossip_announce a) g = (announce a.item a.ttl g, no_error)
announce_handler _ g = (g, no_error)

unfoldable pub register : GossipNotify → Gossiper → Gossiper
unfolding add
register ntf g = record g {
  api_clients_to_notify = elim (lookup ntf.who g.api_clients_to_notify) [
    | some info ↦
        insert ntf.who (record info { notify_data_types = add ntf.what info.notify_data_types })
          g.api_clients_to_notify
    | none ↦
        insert ntf.who
          (record {
            notify_data_types = add ntf.what empty_set;
            validation_map = [];
            next_available_id = 0;
          })
          g.api_clients_to_notify
  ];
}

unfoldable pub notify_handler : AnyMessage → Gossiper → Gossiper × HandlerError
unfolding register
notify_handler (gossip_notify ntf) g = (register ntf g, no_error)
notify_handler _ g = (g, no_error)

unfoldable pub unnotify_handler : AnyMessage → Gossiper → Gossiper × HandlerError
unnotify_handler (api_client_value client) g =
    (record g { api_clients_to_notify = erase client g.api_clients_to_notify }, no_error)
unnotify_handler _ g = (g, no_error)

-- What a verdict does to the item that the client was notified of.
unfoldable pub judge : Bool → GossipItem → Gossiper → Gossiper
judge true item g = g
judge false item g = record g {
  gossip_list = erase item g.gossip_list;
  incoming_gossips = erase item g.incoming_gossips;
  old_gossip_list = insert item (retired g.max_ttl) g.old_gossip_list;
}

unfoldable pub validate : GossipValidation → Gossiper → Gossiper
unfolding judge
validate val g = elim (lookup val.who g.api_clients_to_notify) [
  | none ↦ g
  | some info ↦ elim (lookup val.id info.validation_map) [
    | none ↦ g
    | some p ↦
        let j = judge val.valid (g.store.cell p) g in
        record j {
          api_clients_to_notify =
              insert val.who (record info { validation_map = erase val.id info.validation_map })
                g.api_clients_to_notify;
        }
  ]
]

unfoldable pub validation_handler : AnyMessage → Gossiper → Gossiper × HandlerError
unfolding validate
validation_handler (gossip_validation val) g = (validate val g, no_error)
validation_handler _ g = (g, no_error)

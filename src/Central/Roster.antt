-- ===== src/Central/Roster.antt =====
-- The outgoing peers of the Central controller: no peer is at once in the view list, among those that
-- await removal and among those being created, and an entry's endpoint is that of its key.
use gossip_protocol.Base.{
  ◌≡◌, ◌⊎◌, inl, inr, Bool, none, some, Map, IsMap, lookup, insert, erase, arith, lookup-insert,
  lookup-erase, insert-IsMap, erase-IsMap, some_cancel, sym, ◌∙◌, subst, keys, ite, IsMap-of_keys,
  lookup-eq-none_of_keys,
}
use gossip_protocol.Datastruct.IndexedMap.{
  IndexedMap, IsIndexed, get_value, put, remove, put-IsIndexed, get_value-put, remove-Removes,
}
use gossip_protocol.Message.{Peer, Peer-Comparable}
use gossip_protocol.Central.State.{PeerInfo}

pub record Roster (view : IndexedMap Peer PeerInfo) (awaiting : Map Peer PeerInfo)
    (created : Map Peer Bool) : Type 0 where
  pub is_indexed : IsIndexed view
  pub awaiting_is_map : IsMap awaiting
  pub created_is_map : IsMap created
  pub apart : (p : Peer) → (get_value p view ≡ none) ⊎ (lookup p awaiting ≡ none)
  pub created_apart :
      (p : Peer)
      → (lookup p created ≡ none) ⊎ ((get_value p view ≡ none) × (lookup p awaiting ≡ none))
  pub named : (p : Peer) (i : PeerInfo) → get_value p view ≡ some i → i.endpoint.peer ≡ p
  pub awaiting_named : (p : Peer) (i : PeerInfo) → lookup p awaiting ≡ some i → i.endpoint.peer ≡ p

-- What `remove` gives, by the lookups.
pub remove_result :
    (p : Peer) (t r : IndexedMap Peer PeerInfo)
    → IsIndexed t
    → remove p t ≡ some r
    → IsIndexed r
      × ((q : Peer) → get_value q r ≡ ite (Peer-Comparable.dec p q) none (get_value q t))
remove_result p t r w e =
    let rm = remove-Removes p t w in
    let here = some_cancel (sym rm.result ∙ e) in
    (
      subst IsIndexed here rm.is_indexed,
      λ q.
          subst (λ x. get_value q x ≡ ite (Peer-Comparable.dec p q) none (get_value q t)) here
            (rm.values q),
    )

module _ (view : IndexedMap Peer PeerInfo) (awaiting : Map Peer PeerInfo) (created : Map Peer Bool)
    (r : Roster view awaiting created) (p : Peer) where
  pub view_update-Roster :
      (old info : PeerInfo)
      → get_value p view ≡ some old
      → info.endpoint.peer ≡ p
      → Roster (put p info view) awaiting created
  view_update-Roster old info h n = record {
    is_indexed = put-IsIndexed p info view r.is_indexed;
    awaiting_is_map = r.awaiting_is_map;
    created_is_map = r.created_is_map;
    apart = λ q. ground (arith, get_value-put p q info view, r.apart q, h);
    created_apart = λ q. ground (arith, get_value-put p q info view, r.created_apart q, h);
    named = λ q i e. ground (arith, get_value-put p q info view, r.named q i, n);
    awaiting_named = r.awaiting_named;
  }

  pub awaiting_update-Roster :
      (old info : PeerInfo)
      → lookup p awaiting ≡ some old
      → info.endpoint.peer ≡ p
      → Roster view (insert p info awaiting) created
  awaiting_update-Roster old info h n = record {
    is_indexed = r.is_indexed;
    awaiting_is_map = insert-IsMap p info awaiting r.awaiting_is_map;
    created_is_map = r.created_is_map;
    apart = λ q. ground (arith, lookup-insert p q info awaiting, r.apart q, h);
    created_apart = λ q. ground (arith, lookup-insert p q info awaiting, r.created_apart q, h);
    named = r.named;
    awaiting_named =
        λ q i e. ground (arith, lookup-insert p q info awaiting, r.awaiting_named q i, n);
  }

  pub awaiting_erase-Roster : Roster view (erase p awaiting) created
  awaiting_erase-Roster = record {
    is_indexed = r.is_indexed;
    awaiting_is_map = erase-IsMap p awaiting r.awaiting_is_map;
    created_is_map = r.created_is_map;
    apart = λ q. ground (arith, lookup-erase p q awaiting, r.apart q);
    created_apart = λ q. ground (arith, lookup-erase p q awaiting, r.created_apart q);
    named = r.named;
    awaiting_named = λ q i e. ground (arith, lookup-erase p q awaiting, r.awaiting_named q i);
  }

  -- Back from the awaiting ones into the view list.
  pub move_in-Roster :
      (info : PeerInfo)
      → lookup p awaiting ≡ some info
      → Roster (put p info view) (erase p awaiting) created
  move_in-Roster info h = record {
    is_indexed = put-IsIndexed p info view r.is_indexed;
    awaiting_is_map = erase-IsMap p awaiting r.awaiting_is_map;
    created_is_map = r.created_is_map;
    apart = λ q. ground (arith, get_value-put p q info view, lookup-erase p q awaiting, r.apart q);
    created_apart = λ q.
        ground
          (arith, get_value-put p q info view, lookup-erase p q awaiting, r.created_apart q, h);
    named = λ q i e.
        ground (arith, get_value-put p q info view, r.named q i, r.awaiting_named p info h);
    awaiting_named = λ q i e. ground (arith, lookup-erase p q awaiting, r.awaiting_named q i);
  }

  -- Out of the view list, to the awaiting ones.
  pub move_out-Roster :
      (info : PeerInfo) (rest : IndexedMap Peer PeerInfo)
      → get_value p view ≡ some info
      → remove p view ≡ some rest
      → Roster rest (insert p info awaiting) created
  move_out-Roster info rest h e =
      let (w, values) = remove_result p view rest r.is_indexed e in
      record {
        is_indexed = w;
        awaiting_is_map = insert-IsMap p info awaiting r.awaiting_is_map;
        created_is_map = r.created_is_map;
        apart = λ q. ground (arith, values q, lookup-insert p q info awaiting, r.apart q);
        created_apart =
            λ q. ground (arith, values q, lookup-insert p q info awaiting, r.created_apart q, h);
        named = λ q i e. ground (arith, values q, r.named q i);
        awaiting_named = λ q i e.
            ground (arith, lookup-insert p q info awaiting, r.awaiting_named q i, r.named p info h);
      }

  pub view_remove-Roster :
      (rest : IndexedMap Peer PeerInfo) → remove p view ≡ some rest → Roster rest awaiting created
  view_remove-Roster rest e =
      let (w, values) = remove_result p view rest r.is_indexed e in
      record {
        is_indexed = w;
        awaiting_is_map = r.awaiting_is_map;
        created_is_map = r.created_is_map;
        apart = λ q. ground (arith, values q, r.apart q);
        created_apart = λ q. ground (arith, values q, r.created_apart q);
        named = λ q i e. ground (arith, values q, r.named q i);
        awaiting_named = r.awaiting_named;
      }

  pub create-Roster :
      (b : Bool)
      → get_value p view ≡ none
      → lookup p awaiting ≡ none
      → Roster view awaiting (insert p b created)
  create-Roster b h k = record {
    is_indexed = r.is_indexed;
    awaiting_is_map = r.awaiting_is_map;
    created_is_map = insert-IsMap p b created r.created_is_map;
    apart = r.apart;
    created_apart = λ q. ground (arith, lookup-insert p q b created, r.created_apart q, h, k);
    named = r.named;
    awaiting_named = r.awaiting_named;
  }

  -- A created peer joins the view list.
  pub admit-Roster :
      (b : Bool) (info : PeerInfo)
      → lookup p created ≡ some b
      → info.endpoint.peer ≡ p
      → Roster (put p info view) awaiting (erase p created)
  admit-Roster b info h n = record {
    is_indexed = put-IsIndexed p info view r.is_indexed;
    awaiting_is_map = r.awaiting_is_map;
    created_is_map = erase-IsMap p created r.created_is_map;
    apart = λ q. ground (arith, get_value-put p q info view, r.apart q, r.created_apart p, h);
    created_apart = λ q.
        ground (arith, get_value-put p q info view, lookup-erase p q created, r.created_apart q);
    named = λ q i e. ground (arith, get_value-put p q info view, r.named q i, n);
    awaiting_named = r.awaiting_named;
  }

-- Other marks on the created peers.
pub mark-Roster :
    (view : IndexedMap Peer PeerInfo) (awaiting : Map Peer PeerInfo)
    (created marked : Map Peer Bool)
    → Roster view awaiting created
    → keys created ≡ keys marked
    → Roster view awaiting marked
mark-Roster view awaiting created marked r e = record {
  is_indexed = r.is_indexed;
  awaiting_is_map = r.awaiting_is_map;
  created_is_map = IsMap-of_keys created marked e r.created_is_map;
  apart = r.apart;
  created_apart = λ q. elim (r.created_apart q) [
    | inl gone ↦ inl (lookup-eq-none_of_keys q created marked e gone)
    | inr rest ↦ inr rest
  ];
  named = r.named;
  awaiting_named = r.awaiting_named;
}

-- ===== src/Membership/ViewList.antt =====
-- `replaceViewList` and `removePeer`; `none` is a panic.
use gossip_protocol.Base.{
  ◌+◌, ◌%◌, ◌^◌, true, false, Option, none, some, List, [], ◌∷◌, ◌>>=◌, if◌then◌else◌,
}
use gossip_protocol.Datastruct.IndexedMap
use gossip_protocol.Datastruct.IndexedSet
use gossip_protocol.Datastruct.IndexedSet.{IndexedSet}
use gossip_protocol.Datastruct.SetType
use gossip_protocol.Message.{Peer, Peer-Comparable, peer_add_msg, peer_remove_msg, peer_value}
use gossip_protocol.Membership.State.{MembershipController, message, send}

-- The first loop over the old list: `to_be_added` is the new list itself.
unfoldable pub compare_lists :
    List Peer → IndexedSet Peer → IndexedSet Peer → Option (IndexedSet Peer × IndexedSet Peer)
compare_lists [] to_be_removed to_be_added = some (to_be_removed, to_be_added)
compare_lists (peer ∷ peers) to_be_removed to_be_added =
    elim (IndexedSet.is_member peer to_be_added) [
      | false ↦ compare_lists peers (IndexedSet.add peer to_be_removed) to_be_added
      | true ↦ IndexedSet.remove peer to_be_added >>= λ rest. compare_lists peers to_be_removed rest
    ]

module _ {F : Type 0} where
  unfoldable pub remove_listed :
      List Peer → MembershipController F → Option (MembershipController F)
  unfolding send message
  remove_listed [] c = some c
  remove_listed (peer ∷ peers) c = do
    let told = send (message peer_remove_msg (peer_value peer) ∷ []) c
    view ← IndexedSet.remove peer told.view_list
    remove_listed peers (record told { view_list = view })

  unfoldable pub add_listed : List Peer → MembershipController F → MembershipController F
  unfolding send message
  add_listed [] c = c
  add_listed (peer ∷ peers) c =
      let told = send (message peer_add_msg (peer_value peer) ∷ []) c in
      add_listed peers (record told { view_list = IndexedSet.add peer told.view_list })

  unfoldable pub replace_view_list :
      IndexedSet Peer → MembershipController F → Option (MembershipController F)
  unfolding compare_lists remove_listed add_listed
  replace_view_list new_view_list c = do
    (to_be_removed, to_be_added) ←
        compare_lists (IndexedSet.elements c.view_list) IndexedSet.new new_view_list
    c' ← remove_listed (IndexedSet.elements to_be_removed) c
    some (add_listed (IndexedSet.elements to_be_added) c')

  -- The `viewList` part of `removePeer`.
  unfoldable pub drop_from_view : Peer → MembershipController F → Option (MembershipController F)
  unfolding send message
  drop_from_view peer c =
      if IndexedSet.is_member peer c.view_list
      then (do
        view ← IndexedSet.remove peer c.view_list
        some
            (send (message peer_remove_msg (peer_value peer) ∷ []) (record c { view_list = view })))
      else some c

  -- The `sampleList` part: the capacity is a `uint32`.
  unfoldable pub drop_samplers : Peer → MembershipController F → Option (MembershipController F)
  drop_samplers peer c = elim (IndexedMap.get_value peer c.sample_list) [
    | none ↦ some c
    | some peer_sampler_set ↦ do
      rest ← IndexedMap.remove peer c.sample_list
      some (record c {
        sample_list = rest;
        sample_list_remaining_cap =
            (c.sample_list_remaining_cap + SetType.set_len peer_sampler_set) % 2 ^ 32;
      })
  ]

  unfoldable pub remove_peer : Peer → MembershipController F → Option (MembershipController F)
  unfolding drop_from_view drop_samplers
  remove_peer peer c = do
    c' ← drop_from_view peer c
    c'' ← drop_samplers peer c'
    pull_replies ← IndexedSet.remove peer c''.pull_replies
    some (record c'' {
      push_requests = SetType.remove peer c''.push_requests;
      pull_replies = pull_replies;
      pull_peers = SetType.remove peer c''.pull_peers;
    })

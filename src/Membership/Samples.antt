-- ===== src/Membership/Samples.antt =====
-- `updateSampleRound`. A sampler is changed through its pointer, and each set of `sample_list` in
-- place; no two keys share a set, so the entry of the key is written instead.
use gossip_protocol.Base.{
  ℕ, zero, suc, ◌+◌, ◌-◌, ◌%◌, ◌^◌, ◌==◌, true, false, Option, none, some, List, [], ◌∷◌, ◌++◌,
  length, Bytes, Map, ite, ℕ_discrete, Nat-Comparable, if◌then◌else◌, ◌>>=◌,
}
use gossip_protocol.Datastruct.IndexedMap
use gossip_protocol.Datastruct.IndexedMap.{IndexedMap, ValueAndIndex}
use gossip_protocol.Datastruct.IndexedSet
use gossip_protocol.Datastruct.SetType
use gossip_protocol.Datastruct.SetType.{SetOf, empty_set}
use gossip_protocol.Message.{Peer, Peer-Comparable, Pointer}
use gossip_protocol.Membership.State.{MembershipController, PeerSampler, Samplers}
use gossip_protocol.Membership.Sampler.{new_peer_sampler, next_set, next_all, sample}

unfoldable pub add_to_set : List Peer → SetOf Peer → SetOf Peer
add_to_set [] s = s
add_to_set (peer ∷ peers) s = add_to_set peers (SetType.add peer s)

unfoldable pub write_sampler : Pointer → PeerSampler → Samplers → Samplers
write_sampler p s heap = record heap { at = λ q. ite (ℕ_discrete p q) s (heap.at q) }

unfoldable pub remove_pointers : List Pointer → SetOf Pointer → SetOf Pointer
remove_pointers [] s = s
remove_pointers (p ∷ ps) s = remove_pointers ps (SetType.remove p s)

unfoldable pub remove_emptied :
    List Peer → IndexedMap Peer (SetOf Pointer) → Option (IndexedMap Peer (SetOf Pointer))
remove_emptied [] t = some t
remove_emptied (peer ∷ peers) t = do rest ← IndexedMap.remove peer t; remove_emptied peers rest

-- The last loop: a sampler goes to the set of the peer that it samples.
unfoldable pub put_sampler :
    Pointer → Samplers → IndexedMap Peer (SetOf Pointer) → IndexedMap Peer (SetOf Pointer)
unfolding sample
put_sampler p heap t =
    let peer = sample (heap.at p) in
    elim (IndexedMap.get_value peer t) [
      | none ↦ IndexedMap.put peer (SetType.add p empty_set) t
      | some peer_sampler_set ↦ IndexedMap.put peer (SetType.add p peer_sampler_set) t
    ]

unfoldable pub put_samplers :
    List Pointer → Samplers → IndexedMap Peer (SetOf Pointer) → IndexedMap Peer (SetOf Pointer)
unfolding put_sampler
put_samplers [] heap t = t
put_samplers (p ∷ ps) heap t = put_samplers ps heap (put_sampler p heap t)

-- What the loop over the old samplers leaves: the entries, the pointers of the samplers with another
-- peer, and the peers without a sampler.
pub record Refreshed : Type 0 where
  pub entries : Map Peer (ValueAndIndex (SetOf Pointer))
  pub changed : List Pointer
  pub emptied : List Peer
  pub heap : Samplers

module _ (sha256 : Bytes → Bytes) (crypt_blocks : Bytes → Bytes → Option Bytes) where
  -- The first loop: `left` rounds from the `i`-th on; `draw_key` is the key of the round, or `none` if
  -- no sampler could be made.
  unfoldable pub create_samplers :
      (ℕ → Option Bytes) → List Peer → ℕ → ℕ → Samplers → List Pointer × Samplers
  unfolding write_sampler next_all
  create_samplers draw_key peers zero i heap = ([], heap)
  create_samplers draw_key peers (suc left) i heap = elim (draw_key i) [
    | none ↦ create_samplers draw_key peers left (suc i) heap
    | some key ↦
        let (s, ok) = next_set sha256 crypt_blocks peers (new_peer_sampler key) in
        elim ok [
          | false ↦ create_samplers draw_key peers left (suc i) heap
          | true ↦
              let (made, heap') =
                create_samplers draw_key peers left (suc i)
                  (record (write_sampler heap.next s heap) { next = suc heap.next }) in
              (heap.next ∷ made, heap')
        ]
  ]

  -- The loop over the samplers of one set.
  unfoldable pub refresh_set : List Peer → List Pointer → Samplers → List Pointer × Samplers
  unfolding write_sampler next_all
  refresh_set peers [] heap = ([], heap)
  refresh_set peers (p ∷ ps) heap =
      let (s, ok) = next_set sha256 crypt_blocks peers (heap.at p) in
      let (changed, heap') = refresh_set peers ps (write_sampler p s heap) in
      (if ok then p ∷ changed else changed, heap')

  unfoldable pub refresh_entries :
      List Peer → Map Peer (ValueAndIndex (SetOf Pointer)) → Samplers → Refreshed
  unfolding refresh_set remove_pointers
  refresh_entries peers [] heap = record { entries = []; changed = []; emptied = []; heap = heap }
  refresh_entries peers ((old_peer, e) ∷ m) heap =
      let (changed, heap') = refresh_set peers (SetType.elements e.value) heap in
      let rest = refresh_entries peers m heap' in
      let value = remove_pointers changed e.value in
      record {
        entries = (old_peer, record e { value = value }) ∷ rest.entries;
        changed = changed ++ rest.changed;
        emptied = if SetType.set_len value == 0 then old_peer ∷ rest.emptied else rest.emptied;
        heap = rest.heap;
      }

  unfoldable pub update_sample_round :
      {F : Type 0} → (ℕ → Option Bytes) → MembershipController F → Option (MembershipController F)
  unfolding add_to_set create_samplers refresh_entries remove_emptied put_samplers
  update_sample_round draw_key c = do
    let new_peers =
        SetType.elements (add_to_set (IndexedSet.elements c.pull_replies) c.push_requests)
    let (made, heap) = create_samplers draw_key new_peers c.sample_list_remaining_cap 0 c.samplers
    let old = refresh_entries new_peers c.sample_list.m heap
    kept ← remove_emptied old.emptied (record (c.sample_list) { m = old.entries })
    some (record c {
      push_requests = empty_set;
      pull_replies = IndexedSet.new;
      sample_list_remaining_cap = (c.sample_list_remaining_cap + 2 ^ 32 - length made) % 2 ^ 32;
      sample_list = put_samplers (made ++ old.changed) old.heap kept;
      samplers = old.heap;
    })

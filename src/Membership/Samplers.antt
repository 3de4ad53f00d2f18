-- ===== src/Membership/Samplers.antt =====
-- The loop over the old samplers keeps the map of the samplers indexed.
use gossip_protocol.Base.{
  if_pos, if_neg, ℕ, ◌≡◌, refl, ap, Option, none, some, List, [], ◌∷◌, Map, lookup, keys,
  IsMap-of_keys, arith, Bytes,
}
use gossip_protocol.Datastruct.IndexedMap.{IndexedMap, ValueAndIndex, IsIndexed, index_of}
use gossip_protocol.Datastruct.SetType.{SetOf, elements}
use gossip_protocol.Message.{Peer, Peer-Comparable, Peer-discrete, Pointer}
use gossip_protocol.Membership.State.{Samplers}
use gossip_protocol.Membership.Samples.{refresh_set, refresh_entries}

module _ (sha256 : Bytes → Bytes) (crypt_blocks : Bytes → Bytes → Option Bytes) where
  keys-refresh :
      (peers : List Peer) (m : Map Peer (ValueAndIndex (SetOf Pointer))) (heap : Samplers)
      → keys m ≡ keys (refresh_entries sha256 crypt_blocks peers m heap).entries
  unfolding refresh_entries
  keys-refresh peers [] heap = refl
  keys-refresh peers ((old_peer, e) ∷ m) heap = ap (◌∷◌ old_peer) (keys-refresh peers m _)

  abbrev index_at : Option (ValueAndIndex (SetOf Pointer)) → Option ℕ
  index_at none = none
  index_at (some e) = some e.index

  index-refresh :
      (peers : List Peer) (m : Map Peer (ValueAndIndex (SetOf Pointer))) (heap : Samplers)
      (j : Peer)
      → index_at (lookup j (refresh_entries sha256 crypt_blocks peers m heap).entries)
        ≡ index_at (lookup j m)
  unfolding refresh_entries lookup
  index-refresh peers [] heap j = refl
  index-refresh peers ((old_peer, e) ∷ m) heap j =
      let ih =
        index-refresh peers m (refresh_set sha256 crypt_blocks peers (elements e.value) heap).1 j in
      elim (Peer-discrete j old_peer) [
        | yes p ↦ rw (if_pos _ p) (rw (if_pos _ p) refl)
        | no p ↦ rw (if_neg _ p) (rw (if_neg _ p) ih)
      ]

  pub refresh-IsIndexed :
      (peers : List Peer) (t : IndexedMap Peer (SetOf Pointer)) (heap : Samplers)
      → IsIndexed t
      → IsIndexed (record t { m = (refresh_entries sha256 crypt_blocks peers t.m heap).entries })
  unfolding index_of
  refresh-IsIndexed peers t heap w = record {
    is_map = IsMap-of_keys t.m _ (keys-refresh peers t.m heap) w.is_map;
    agree = λ j i. ground (arith, w.agree j i, index-refresh peers t.m heap j);
  }

-- ===== src/Membership/Capacity.antt =====
-- The samplers never outgrow their capacity: those in the sets of `sample_list` and the remaining
-- capacity are together at most what they were.
use gossip_protocol.Base.{
  ℕ, zero, suc, ◌+◌, ◌≤◌, ◌≡◌, refl, sym, ap, ◌∙◌, true, false, Option, none, some, some_cancel,
  List, [], ◌∷◌, length, length-append, arith, subst, lookup-nil, Map, IsMap, lookup, erase,
  erase-IsMap, lookup-erase, length-erase_member, Option-cases, Bool-cases, inl, inr, Bytes,
  is_elem, IsDistinct, contains-keys, keys-IsDistinct, contains, weigh, Nat-Comparable,
}
use gossip_protocol.Datastruct.IndexedMap.{IndexedMap, ValueAndIndex, weigh_values}
use gossip_protocol.Datastruct.SetType
use gossip_protocol.Datastruct.SetType.{SetOf, set_len, empty_set, elements}
use gossip_protocol.Message.{Peer, Peer-Comparable, Peer-discrete, Pointer}
use gossip_protocol.Membership.State.{Samplers}
use gossip_protocol.Membership.Sampler.{next_set, new_peer_sampler}
use gossip_protocol.Membership.Samples.{
  remove_pointers, create_samplers, refresh_set, refresh_entries, write_sampler,
}

-- The number of the samplers in all sets.
abbrev pub held : IndexedMap Peer (SetOf Pointer) → ℕ
held t = weigh_values set_len t

-- Each set lists no pointer twice.
abbrev pub AreSets : Map Peer (ValueAndIndex (SetOf Pointer)) → Type 0
AreSets m = (j : Peer) (e : ValueAndIndex (SetOf Pointer)) → lookup j m ≡ some e → IsMap e.value

remove_pointers-IsMap :
    (ps : List Pointer) (s : SetOf Pointer) → IsMap s → IsMap (remove_pointers ps s)
unfolding remove_pointers SetType.remove
remove_pointers-IsMap [] s w = w
remove_pointers-IsMap (p ∷ ps) s w = remove_pointers-IsMap ps (erase p s) (erase-IsMap p s w)

length-remove_pointers :
    (ps : List Pointer) (s : SetOf Pointer)
    → IsMap s
    → IsDistinct ps
    → ((p : Pointer) → is_elem p ps ≡ true → contains p s ≡ true)
    → length (remove_pointers ps s) + length ps ≡ length s
unfolding remove_pointers SetType.remove
length-remove_pointers [] s w d h = omega arith
length-remove_pointers (p ∷ ps) s w d h = elim (Option-cases (lookup p s)) [
  | inl gone ↦ absurd (ground (arith, gone, h p))
  | inr (u, here) ↦ omega (
    arith,
    length-erase_member p u s w here,
    length-remove_pointers ps (erase p s) (erase-IsMap p s w) d.1
        (λ q e. ground (arith, h q, e, d.0, lookup-erase p q s)),
  )
]

not_elem :
    (p : Pointer) (xs ys : List Pointer)
    → (is_elem p xs ≡ true → is_elem p ys ≡ true)
    → is_elem p ys ≡ false
    → is_elem p xs ≡ false
not_elem p xs ys h e = elim (Bool-cases (is_elem p xs)) [
  | inl here ↦ absurd (ground (arith, h here, e))
  | inr absent ↦ absent
]

lookup-head :
    (j k : Peer) (e : ValueAndIndex (SetOf Pointer)) (m : Map Peer (ValueAndIndex (SetOf Pointer)))
    → j ≡ k
    → lookup j ((k, e) ∷ m) ≡ some e
unfolding lookup
lookup-head j k e m p = ground arith

lookup-tail :
    (j k : Peer) (e : ValueAndIndex (SetOf Pointer)) (m : Map Peer (ValueAndIndex (SetOf Pointer)))
    → ¬ (j ≡ k)
    → lookup j ((k, e) ∷ m) ≡ lookup j m
unfolding lookup
lookup-tail j k e m p = ground arith

tail-AreSets :
    (k : Peer) (e : ValueAndIndex (SetOf Pointer)) (m : Map Peer (ValueAndIndex (SetOf Pointer)))
    → lookup k m ≡ none
    → AreSets ((k, e) ∷ m)
    → AreSets m
tail-AreSets k e m w s j f h = elim (Peer-discrete j k) [
  | yes p ↦ absurd (ground (arith, h, w, ap (λ x. lookup x m) p))
  | no p ↦ s j f (lookup-tail j k e m p ∙ h)
]

module _ (sha256 : Bytes → Bytes) (crypt_blocks : Bytes → Bytes → Option Bytes) where
  pub length-create :
      (draw_key : ℕ → Option Bytes) (peers : List Peer) (left i : ℕ) (heap : Samplers)
      → length (create_samplers sha256 crypt_blocks draw_key peers left i heap).0 ≤ left
  unfolding create_samplers
  length-create draw_key peers zero i heap = omega arith
  length-create draw_key peers (suc left) i heap = elim (Option-cases (draw_key i)) [
    | inl none_ ↦
        rw (none_, create_samplers) (omega (arith, length-create draw_key peers left (suc i) heap))
    | inr (key, e) ↦
        elim (Bool-cases (next_set sha256 crypt_blocks peers (new_peer_sampler key)).1) [
          | inl yes_ ↦
              rw (e, create_samplers, yes_)
                (omega (arith, length-create draw_key peers left (suc i) _))
          | inr no_ ↦
              rw (e, create_samplers, no_)
                (omega (arith, length-create draw_key peers left (suc i) heap))
        ]
  ]

  changed-elem :
      (peers : List Peer) (ps : List Pointer) (heap : Samplers) (q : Pointer)
      → is_elem q (refresh_set sha256 crypt_blocks peers ps heap).0 ≡ true
      → is_elem q ps ≡ true
  unfolding refresh_set
  changed-elem peers [] heap q h = h
  changed-elem peers (p ∷ ps) heap q h =
      let one = next_set sha256 crypt_blocks peers (heap.at p) in
      elim (Bool-cases one.1) [
        | inl yes_ ↦ ground (arith, yes_, h, changed-elem peers ps (write_sampler p one.0 heap) q)
        | inr no_ ↦ ground (arith, no_, h, changed-elem peers ps (write_sampler p one.0 heap) q)
      ]

  changed-IsDistinct :
      (peers : List Peer) (ps : List Pointer) (heap : Samplers)
      → IsDistinct ps
      → IsDistinct (refresh_set sha256 crypt_blocks peers ps heap).0
  unfolding refresh_set
  changed-IsDistinct peers [] heap d = tt
  changed-IsDistinct peers (p ∷ ps) heap d =
      let one = next_set sha256 crypt_blocks peers (heap.at p) in
      let heap' = write_sampler p one.0 heap in
      let ih = changed-IsDistinct peers ps heap' d.1 in
      elim (Bool-cases one.1) [
        | inl yes_ ↦ rw yes_ (
          not_elem p (refresh_set sha256 crypt_blocks peers ps heap').0 ps
              (changed-elem peers ps heap' p) d.0,
          ih,
        )
        | inr no_ ↦ rw no_ ih
      ]

  pub refresh-le :
      (peers : List Peer) (m : Map Peer (ValueAndIndex (SetOf Pointer))) (heap : Samplers)
      → IsMap m
      → AreSets m
      → weigh (λ e. set_len e.value) (refresh_entries sha256 crypt_blocks peers m heap).entries
          + length (refresh_entries sha256 crypt_blocks peers m heap).changed
        ≤ weigh (λ e. set_len e.value) m
  unfolding refresh_entries weigh
  refresh-le peers [] heap w s = omega arith
  refresh-le peers ((j, e) ∷ m) heap w s =
      let set = s j e (lookup-head j j e m refl) in
      let one = refresh_set sha256 crypt_blocks peers (elements e.value) heap in
      let ih = refresh-le peers m one.1 w.1 (tail-AreSets j e m w.0 s) in
      omega (
        arith,
        ih,
        length-append one.0 (refresh_entries sha256 crypt_blocks peers m one.1).changed,
        length-remove_pointers one.0 e.value set
            (changed-IsDistinct peers (elements e.value) heap (keys-IsDistinct e.value set))
            (λ p h. sym (contains-keys p e.value) ∙ changed-elem peers (elements e.value) heap p h),
      )

  pub refresh-AreSets :
      (peers : List Peer) (m : Map Peer (ValueAndIndex (SetOf Pointer))) (heap : Samplers)
      → IsMap m
      → AreSets m
      → AreSets (refresh_entries sha256 crypt_blocks peers m heap).entries
  unfolding refresh_entries
  refresh-AreSets peers [] heap w s j e h =
      absurd (ground (arith, h, lookup-nil {V = ValueAndIndex (SetOf Pointer)} j))
  refresh-AreSets peers ((k, old) ∷ m) heap w s j e h =
      let one = refresh_set sha256 crypt_blocks peers (elements old.value) heap in
      let rest = (refresh_entries sha256 crypt_blocks peers m one.1).entries in
      let now : ValueAndIndex (SetOf Pointer) = record old {
        value = remove_pointers one.0 old.value;
      } in
      elim (Peer-discrete j k) [
        | yes p ↦
            subst (λ x. IsMap (x.value)) (some_cancel (sym (lookup-head j k now rest p) ∙ h))
              (remove_pointers-IsMap one.0 old.value (s k old (lookup-head k k old m refl)))
        | no p ↦
            refresh-AreSets peers m one.1 w.1 (tail-AreSets k old m w.0 s) j e
              (sym (lookup-tail j k now rest p) ∙ h)
      ]

-- ===== src/Membership/Holding.antt =====
-- The sets of samplers under the changes of the map that holds them.
use gossip_protocol.Base.{
  ◌+◌, ◌≤◌, ◌≡◌, refl, sym, ◌∙◌, some, some_cancel, List, [], ◌∷◌, length, arith, subst, IsMap,
  lookup, insert-IsMap, length-insert-le, Option-cases, inl, inr, Nat-Comparable,
}
use gossip_protocol.Datastruct.IndexedMap
use gossip_protocol.Datastruct.IndexedMap.{
  IndexedMap, ValueAndIndex, IsIndexed, get_value-put, put-IsIndexed, remove-Removes, Removes,
  weigh_values, weigh_values-put_new, weigh_values-put_old, weigh_values-remove,
}
use gossip_protocol.Datastruct.SetType
use gossip_protocol.Datastruct.SetType.{SetOf, set_len, empty_set}
use gossip_protocol.Message.{Peer, Peer-Comparable, Peer-discrete, Pointer}
use gossip_protocol.Membership.State.{Samplers}
use gossip_protocol.Membership.Sampler.{sample}
use gossip_protocol.Membership.Samples.{remove_emptied, put_sampler, put_samplers}
use gossip_protocol.Membership.Capacity.{held, AreSets}

-- Each set that `GetValue` returns lists no pointer twice.
abbrev pub HaveSets : IndexedMap Peer (SetOf Pointer) → Type 0
HaveSets t = (j : Peer) (s : SetOf Pointer) → IndexedMap.get_value j t ≡ some s → IsMap s

pub new-HaveSets : HaveSets IndexedMap.new
unfolding IndexedMap.new IndexedMap.get_value lookup
new-HaveSets j s e = cc

pub HaveSets-AreSets : (t : IndexedMap Peer (SetOf Pointer)) → HaveSets t → AreSets t.m
unfolding IndexedMap.get_value
HaveSets-AreSets t h j e here = h j e.value (ground (arith, here))

pub AreSets-HaveSets : (t : IndexedMap Peer (SetOf Pointer)) → AreSets t.m → HaveSets t
unfolding IndexedMap.get_value
AreSets-HaveSets t h j s here = elim (Option-cases (lookup j t.m)) [
  | inl gone ↦ absurd (ground (arith, gone, here))
  | inr (e, there) ↦ subst IsMap (ground (arith, there, here)) (h j e there)
]

-- A map after which each value is one of before, or the named one.
put-HaveSets :
    (k : Peer) (s : SetOf Pointer) (t : IndexedMap Peer (SetOf Pointer))
    → IsMap s
    → HaveSets t
    → HaveSets (IndexedMap.put k s t)
put-HaveSets k s t w h j u e = elim (Peer-discrete k j) [
  | yes p ↦ subst IsMap (ground (arith, get_value-put k j s t, e, p)) w
  | no p ↦ h j u (ground (arith, get_value-put k j s t, e, p))
]

pub remove-HaveSets :
    (k : Peer) (t : IndexedMap Peer (SetOf Pointer)) (r : Removes k t)
    → HaveSets t
    → HaveSets r.after
remove-HaveSets k t r h j s e = h j s (ground (arith, r.values j, e))

pub held-remove :
    (k : Peer) (s : SetOf Pointer) (t : IndexedMap Peer (SetOf Pointer)) (r : Removes k t)
    → IsIndexed t
    → IndexedMap.get_value k t ≡ some s
    → held r.after + set_len s ≡ held t
held-remove k s t r w e = weigh_values-remove set_len k s t r.after w e r.result

held-remove-le :
    (k : Peer) (t : IndexedMap Peer (SetOf Pointer)) (r : Removes k t)
    → IsIndexed t
    → held r.after ≤ held t
unfolding IndexedMap.get_value IndexedMap.remove
held-remove-le k t r w = elim (Option-cases (lookup k t.m)) [
  | inl gone ↦
      let unchanged : IndexedMap.remove k t ≡ some t = rw (gone, IndexedMap.remove) refl in
      subst (λ x. held x ≤ held t) (some_cancel (sym unchanged ∙ r.result)) (omega arith)
  | inr (e, here) ↦ omega (arith, held-remove k e.value t r w (ground (arith, here)))
]

pub record Cleared (peers : List Peer) (t : IndexedMap Peer (SetOf Pointer)) : Type 0 where
  pub rest : IndexedMap Peer (SetOf Pointer)
  pub result : remove_emptied peers t ≡ some rest
  pub is_indexed : IsIndexed rest
  pub have_sets : HaveSets rest
  pub fewer : held rest ≤ held t

pub remove_emptied-Cleared :
    (peers : List Peer) (t : IndexedMap Peer (SetOf Pointer))
    → IsIndexed t
    → HaveSets t
    → Cleared peers t
unfolding remove_emptied
remove_emptied-Cleared [] t w h = record {
  rest = t;
  result = refl;
  is_indexed = w;
  have_sets = h;
  fewer = omega arith;
}
remove_emptied-Cleared (p ∷ ps) t w h =
    let one = remove-Removes p t w in
    let ih = remove_emptied-Cleared ps one.after one.is_indexed (remove-HaveSets p t one h) in
    record {
      rest = ih.rest;
      result = rw (one.result) (ih.result);
      is_indexed = ih.is_indexed;
      have_sets = ih.have_sets;
      fewer = omega (arith, ih.fewer, held-remove-le p t one w);
    }

-- What follows when the samplers with a new peer are put back.
pub record PutBack (ps : List Pointer) (heap : Samplers) (t : IndexedMap Peer (SetOf Pointer))
    : Type 0 where
  pub is_indexed : IsIndexed (put_samplers ps heap t)
  pub have_sets : HaveSets (put_samplers ps heap t)
  pub more : held (put_samplers ps heap t) ≤ held t + length ps

add-IsMap : (p : Pointer) (s : SetOf Pointer) → IsMap s → IsMap (SetType.add p s)
unfolding SetType.add
add-IsMap p s w = insert-IsMap p tt s w

length-add-le : (p : Pointer) (s : SetOf Pointer) → set_len (SetType.add p s) ≤ set_len s + 1
unfolding SetType.add
length-add-le p s = length-insert-le p tt s

put_one :
    (p : Pointer) (heap : Samplers) (t : IndexedMap Peer (SetOf Pointer))
    → IsIndexed t
    → HaveSets t
    → PutBack (p ∷ []) heap t
unfolding put_samplers put_sampler
put_one p heap t w h =
    let peer = sample (heap.at p) in
    elim (Option-cases (IndexedMap.get_value peer t)) [
      | inl gone ↦
          let s : SetOf Pointer = SetType.add p empty_set in
          record {
            is_indexed = rw (gone, put_sampler) (put-IsIndexed peer s t w);
            have_sets = rw (gone, put_sampler) (put-HaveSets peer s t (add-IsMap p [] tt) h);
            more =
                rw (gone, put_sampler)
                  (omega
                    (arith, weigh_values-put_new set_len peer s t gone, length-add-le p empty_set));
          }
      | inr (old, here) ↦
          let s : SetOf Pointer = SetType.add p old in
          record {
            is_indexed = rw (here, put_sampler) (put-IsIndexed peer s t w);
            have_sets =
                rw (here, put_sampler)
                  (put-HaveSets peer s t (add-IsMap p old (h peer old here)) h);
            more =
                rw (here, put_sampler)
                  (omega
                    (arith, weigh_values-put_old set_len peer s old t here, length-add-le p old));
          }
    ]

pub put_samplers-PutBack :
    (ps : List Pointer) (heap : Samplers) (t : IndexedMap Peer (SetOf Pointer))
    → IsIndexed t
    → HaveSets t
    → PutBack ps heap t
unfolding put_samplers
put_samplers-PutBack [] heap t w h = record { is_indexed = w; have_sets = h; more = omega arith }
put_samplers-PutBack (p ∷ ps) heap t w h =
    let one = put_one p heap t w h in
    let ih = put_samplers-PutBack ps heap (put_sampler p heap t) one.is_indexed one.have_sets in
    record {
      is_indexed = ih.is_indexed;
      have_sets = ih.have_sets;
      more = omega (arith, one.more, ih.more);
    }

-- ===== src/Datastruct/IndexedMap/Removal.antt =====
-- `Remove` never panics on an indexed map, keeps its halves in agreement, and is a deletion from the
-- plain map that `GetValue` shows.
use gossip_protocol.Base.{
  ℕ, ◌+◌, ◌-◌, ◌≡◌, ◌↔◌, none, some, lookup, Comparable, length, get_elem?, arith, ite,
  Option-cases, inl, inr, lookup-insert, lookup-erase, insert-IsMap, erase-IsMap, insert,
  get_elem?-set, get_elem?-take, get_elem?_bound, length-set, length-take, set,
}
use gossip_protocol.Datastruct.IndexedMap.Defs.{IndexedMap, ValueAndIndex, remove, get_value}
use gossip_protocol.Datastruct.IndexedMap.Laws.{
  IsIndexed, index_of, RemovalPlan, RemovalPlan-total, removed,
}

module _ {K V : Type 0} ⦃c : Comparable K⦄ where
  module _ (k : K) (t : IndexedMap K V) (w : IsIndexed t) (r : RemovalPlan k t) where
    moved : ValueAndIndex V
    moved = record r.last { index = r.old.index }

    rest : IndexedMap K V
    unfolding moved
    rest = removed k r.old.index r.last_key r.last t

    lookup-rest :
        (j : K)
        → lookup j rest.m
          ≡ ite (c.dec k j) none (ite (c.dec r.last_key j) (some moved) (lookup j t.m))
    unfolding rest moved
    lookup-rest j = ground (
      arith,
      lookup-erase k j (insert r.last_key moved t.m),
      lookup-insert r.last_key j moved t.m,
    )

    rest-agree : (j : K) (i : ℕ) → (index_of j rest ≡ some i) ↔ (get_elem? rest.key_list i ≡ some j)
    unfolding index_of rest moved
    rest-agree j i = ground (
      arith,
      lookup-rest j,
      get_elem?-take (length t.key_list - 1) (set t.key_list r.old.index r.last_key) i,
      get_elem?-set t.key_list r.old.index i r.last_key r.room,
      w.agree j i,
      w.agree k i,
      w.agree k r.old.index,
      w.agree r.last_key i,
      w.agree r.last_key (length t.key_list - 1),
      r.place,
      r.at_end,
      r.room,
      r.kept,
      r.found,
      r.kept_index,
      λ (p : get_elem? t.key_list i ≡ some j). get_elem?_bound t.key_list i p,
    )

    rest-IsIndexed : IsIndexed rest
    unfolding rest
    rest-IsIndexed = record {
      is_map = erase-IsMap k _ (insert-IsMap r.last_key moved t.m w.is_map);
      agree = rest-agree;
    }

    get_value-rest : (j : K) → get_value j rest ≡ ite (c.dec k j) none (get_value j t)
    unfolding get_value moved
    get_value-rest j = ground (arith, lookup-rest j, r.kept)

    length-rest : length rest.key_list + 1 ≡ length t.key_list
    unfolding rest
    length-rest = omega (
      arith,
      r.room,
      length-set t.key_list r.old.index r.last_key,
      length-take (length t.key_list - 1) (set t.key_list r.old.index r.last_key),
    )

  -- A result of `Remove`, which is indexed and lacks just the key.
  pub record Removes (k : K) (t : IndexedMap K V) : Type 0 where
    pub after : IndexedMap K V
    pub result : remove k t ≡ some after
    pub is_indexed : IsIndexed after
    pub values : (j : K) → get_value j after ≡ ite (c.dec k j) none (get_value j t)

  -- On every indexed map `Remove` does not panic, leaves an indexed map, and is a deletion from the
  -- plain map that `GetValue` shows.
  pub remove-Removes : (k : K) (t : IndexedMap K V) → IsIndexed t → Removes k t
  unfolding remove rest
  remove-Removes k t w = elim (Option-cases (lookup k t.m)) [
    | inl e ↦ record {
      after = t;
      result = rw (e, remove);
      is_indexed = w;
      values = λ j. unfold get_value in ground arith;
    }
    | inr (old, e) ↦
        let r = RemovalPlan-total k t old w e in
        record {
          after = rest k t w r;
          result = r.result;
          is_indexed = rest-IsIndexed k t w r;
          values = get_value-rest k t w r;
        }
  ]

-- ===== src/Datastruct/IndexedSet/Laws.antt =====
-- An indexed set keeps its halves in agreement, no method panics, and seen through `IsMember` it is a
-- plain set.
use gossip_protocol.Base.{
  lookup-nil, ℕ, ◌+◌, ◌-◌, ◌≡◌, refl, true, false, none, some, some_cancel, Map, IsMap, lookup,
  insert, erase, Comparable, length, set, take, arith, ite, Option-cases, inl, inr, ◌∙◌, sym, ap,
  [], ◌∷◌, if◌then◌else◌, lookup-insert, lookup-erase, length-insert_new, length-insert_old,
  length-set, length-take, length-append, insert-IsMap, subst, length-erase_member,
}
use gossip_protocol.Datastruct.IndexedMap
use gossip_protocol.Datastruct.IndexedMap.{
  IndexedMap, ValueAndIndex, IsIndexed, put, put-IsIndexed, new-IsIndexed, get_value, RemovalPlan,
  RemovalPlan-total, remove-Removes, Removes, removed,
}
use gossip_protocol.Datastruct.IndexedSet.Defs.{
  IndexedSet, new, add, swap_out, remove, is_member, len,
}
use gossip_protocol.Datastruct.IndexedSet.AsMap.{
  as_map, entries, with_unit, lookup-entries, entries-insert, entries-erase, entries-IsMap,
}

module _ {K : Type 0} ⦃c : Comparable K⦄ where
  -- The set is an indexed map, and its table is as long as its list.
  pub record IsListed (t : IndexedSet K) : Type 0 where
    pub is_indexed : IsIndexed (as_map t)
    pub sizes : length t.s ≡ length t.elem_list

  pub new-IsListed : IsListed new
  unfolding new as_map entries IndexedMap.new
  new-IsListed = record { is_indexed = new-IsIndexed; sizes = refl }

  pub is_member-new : (k : K) → is_member k new ≡ false
  unfolding new
  is_member-new k = ground (arith, lookup-nil {V = ℕ} k)

  -- Writing an entry again changes nothing.
  insert_again : {V : Type 0} (k : K) (v : V) (m : Map K V) → lookup k m ≡ some v → insert k v m ≡ m
  unfolding lookup insert
  insert_again k v [] h = cc
  insert_again k v ((j, w) ∷ m) h = ground (arith, insert_again k v m)

  absent_in_entries :
      (k : K) (t : IndexedSet K) → lookup k t.s ≡ none → lookup k (entries t.s) ≡ none
  absent_in_entries k t h = ground (arith, lookup-entries k t.s, h)

  pub present_in_entries :
      (k : K) (i : ℕ) (t : IndexedSet K)
      → lookup k t.s ≡ some i
      → lookup k (entries t.s) ≡ some (with_unit i)
  present_in_entries k i t h = ground (arith, lookup-entries k t.s, h)

  -- `Add` is `Put` of the map.
  pub as_map-add : (k : K) (t : IndexedSet K) → as_map (add k t) ≡ put k tt (as_map t)
  unfolding add put as_map
  as_map-add k t = elim (Option-cases (lookup k t.s)) [
    | inl gone ↦
        rw (gone, absent_in_entries k t gone, add, put)
          (rw (entries-insert k (length t.elem_list) t.s) refl)
    | inr (i, here) ↦
        let there = present_in_entries k i t here in
        rw (here, there, add, put) (rw (insert_again k (with_unit i) (entries t.s) there) refl)
  ]

  pub add-IsListed : (k : K) (t : IndexedSet K) → IsListed t → IsListed (add k t)
  unfolding add
  add-IsListed k t w = record {
    is_indexed = rw (as_map-add k t) (put-IsIndexed k tt (as_map t) w.is_indexed);
    sizes = elim (Option-cases (lookup k t.s)) [
      | inl gone ↦
          rw (gone, add)
            (omega (
              arith,
              w.sizes,
              length-insert_new k (length t.elem_list) t.s gone,
              length-append t.elem_list (k ∷ []),
            ))
      | inr (i, here) ↦ rw (here, add) (w.sizes)
    ];
  }

  pub is_member-add :
      (k j : K) (t : IndexedSet K) → is_member j (add k t) ≡ ite (c.dec k j) true (is_member j t)
  unfolding add
  is_member-add k j t = elim (Option-cases (lookup k t.s)) [
    | inl gone ↦ rw (gone, add) (ground (arith, lookup-insert k j (length t.elem_list) t.s))
    | inr (i, here) ↦ rw (here, add) (ground (arith, here))
  ]

  pub len-add :
      (k : K) (t : IndexedSet K) → len (add k t) ≡ len t + (if is_member k t then 0 else 1)
  unfolding add
  len-add k t = elim (Option-cases (lookup k t.s)) [
    | inl gone ↦ rw (gone, add) (omega (arith, length-append t.elem_list (k ∷ [])))
    | inr (i, here) ↦ rw (here, add) (omega arith)
  ]

  pub IsListed-IsMap : (t : IndexedSet K) → IsListed t → IsMap t.s
  unfolding as_map
  IsListed-IsMap t w = entries-IsMap t.s w.is_indexed.is_map

  -- A set without the member `k` of `t`, and with all its others.
  pub record SetRemoval (k : K) (t : IndexedSet K) : Type 0 where
    pub rest : IndexedSet K
    pub result : remove k t ≡ some rest
    pub is_listed : IsListed rest
    pub members : (j : K) → is_member j rest ≡ ite (c.dec k j) false (is_member j t)
    pub size : len rest + (if is_member k t then 1 else 0) ≡ len t

  module _ (k : K) (i : ℕ) (t : IndexedSet K) (w : IsListed t) (here : lookup k t.s ≡ some i) where
    plan : RemovalPlan k (as_map t)
    unfolding as_map
    plan = RemovalPlan-total k (as_map t) (with_unit i) w.is_indexed (present_in_entries k i t here)

    without : K → IndexedSet K
    without last_elem = record {
      s = erase k (insert last_elem i t.s);
      elem_list = take (length t.elem_list - 1) (set t.elem_list i last_elem);
    }

    old_index : plan.old ≡ with_unit i
    unfolding as_map
    old_index = some_cancel (sym plan.found ∙ present_in_entries k i t here)

    remove-without : remove k t ≡ some (without plan.last_key)
    unfolding remove swap_out without as_map
    remove-without = rw (here, remove, plan.at_end) (ground (arith, plan.room, old_index))

    last_known : lookup plan.last_key t.s ≡ some plan.last.index
    unfolding as_map
    last_known = ground (arith, lookup-entries plan.last_key t.s, plan.kept)

    same_rest :
        removed k plan.old.index plan.last_key plan.last (as_map t) ≡ as_map (without plan.last_key)
    unfolding as_map without
    same_rest =
        rw
          (
            old_index,
            entries-erase k (insert plan.last_key i t.s),
            entries-insert plan.last_key i t.s,
          )
          refl

    as_map-without : IndexedMap.remove k (as_map t) ≡ some (as_map (without plan.last_key))
    unfolding as_map without
    as_map-without = plan.result ∙ ap some same_rest

    after : Removes k (as_map t)
    after = remove-Removes k (as_map t) w.is_indexed

    without-IsIndexed : IsIndexed (as_map (without plan.last_key))
    without-IsIndexed =
        subst IsIndexed (some_cancel (sym after.result ∙ as_map-without)) after.is_indexed

    size_without : length (without plan.last_key).elem_list + 1 ≡ length t.elem_list
    unfolding without as_map
    size_without = omega (
      arith,
      plan.room,
      length-set t.elem_list i plan.last_key,
      length-take (length t.elem_list - 1) (set t.elem_list i plan.last_key),
    )

    stay : lookup k (insert plan.last_key i t.s) ≡ some i
    stay = ground (arith, lookup-insert plan.last_key k i t.s, here)

    sizes_without : length (without plan.last_key).s ≡ length (without plan.last_key).elem_list
    unfolding without
    sizes_without = omega (
      arith,
      size_without,
      w.sizes,
      length-insert_old plan.last_key i plan.last.index t.s last_known,
      length-erase_member k i (insert plan.last_key i t.s)
          (insert-IsMap plan.last_key i t.s (IsListed-IsMap t w)) stay,
    )

    members_without :
        (j : K) → is_member j (without plan.last_key) ≡ ite (c.dec k j) false (is_member j t)
    unfolding without
    members_without j = ground (
      arith,
      lookup-erase k j (insert plan.last_key i t.s),
      lookup-insert plan.last_key j i t.s,
      last_known,
    )

    removal : SetRemoval k t
    unfolding without
    removal = record {
      rest = without plan.last_key;
      result = remove-without;
      is_listed = record { is_indexed = without-IsIndexed; sizes = sizes_without };
      members = members_without;
      size = rw here size_without;
    }

  -- `Remove` never panics on a set whose halves agree; it takes out just the named element.
  pub remove-SetRemoval : (k : K) (t : IndexedSet K) → IsListed t → SetRemoval k t
  unfolding remove
  remove-SetRemoval k t w = elim (Option-cases (lookup k t.s)) [
    | inl gone ↦ record {
      rest = t;
      result = rw (gone, remove);
      is_listed = w;
      members = λ j. ground (arith, gone);
      size = rw gone (omega arith);
    }
    | inr (i, here) ↦ removal k i t w here
  ]

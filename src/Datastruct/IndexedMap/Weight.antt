-- ===== src/Datastruct/IndexedMap/Weight.antt =====
-- The sum of a measure over the values of an indexed map.
use gossip_protocol.Base.{
  ℕ, ◌+◌, ◌≡◌, none, some, lookup, insert, Comparable, arith, Option-cases, inl, inr, weigh,
  weigh-insert_new, weigh-insert_old, weigh-erase, lookup-insert, insert-IsMap, some_cancel, sym,
  ◌∙◌, ap, subst,
}
use gossip_protocol.Datastruct.IndexedMap.Defs.{IndexedMap, ValueAndIndex, put, remove, get_value}
use gossip_protocol.Datastruct.IndexedMap.Laws.{IsIndexed, RemovalPlan, RemovalPlan-total, removed}

module _ {K V : Type 0} ⦃c : Comparable K⦄ (f : V → ℕ) where
  abbrev pub weigh_values : IndexedMap K V → ℕ
  weigh_values t = weigh (λ e. f e.value) t.m

  pub weigh_values-put_new :
      (k : K) (v : V) (t : IndexedMap K V)
      → get_value k t ≡ none
      → weigh_values (put k v t) ≡ weigh_values t + f v
  unfolding put get_value
  weigh_values-put_new k v t h = elim (Option-cases (lookup k t.m)) [
    | inl e ↦ rw (e, put) (weigh-insert_new (λ e. f e.value) k _ t.m e)
    | inr (old, e) ↦ ground (arith, e)
  ]

  pub weigh_values-put_old :
      (k : K) (v u : V) (t : IndexedMap K V)
      → get_value k t ≡ some u
      → weigh_values (put k v t) + f u ≡ weigh_values t + f v
  unfolding put get_value
  weigh_values-put_old k v u t h = elim (Option-cases (lookup k t.m)) [
    | inl e ↦ ground (arith, e)
    | inr (old, e) ↦
        let same : old.value ≡ u = ground (arith, e) in
        rw (e, put) (rw (sym same) (weigh-insert_old (λ e. f e.value) k _ old t.m e))
  ]

  -- The member that is removed, as the map has it after the last key was moved.
  lookup-moved :
      (k : K) (u : V) (t : IndexedMap K V) (r : RemovalPlan k t)
      → get_value k t ≡ some u
      → (e : ValueAndIndex V) × (lookup k
            (insert r.last_key (record (r.last) { index = r.old.index }) t.m)
          ≡ some e)
        × (e.value ≡ u)
  unfolding get_value
  lookup-moved k u t r h = elim (c.dec r.last_key k) [
    | yes same ↦ (
      record (r.last) { index = r.old.index },
      ground (arith, lookup-insert r.last_key k (record (r.last) { index = r.old.index }) t.m),
      ground (arith, r.kept, h, same),
    )
    | no other ↦ (
      r.old,
      ground (
        arith,
        lookup-insert r.last_key k (record (r.last) { index = r.old.index }) t.m,
        r.found,
      ),
      ground (arith, r.found, h),
    )
  ]

  weigh_values-removed :
      (k : K) (u : V) (t : IndexedMap K V) (r : RemovalPlan k t)
      → IsIndexed t
      → get_value k t ≡ some u
      → weigh_values (removed k r.old.index r.last_key r.last t) + f u ≡ weigh_values t
  weigh_values-removed k u t r w h =
      let moved = record (r.last) { index = r.old.index } in
      let g : ValueAndIndex V → ℕ = λ e. f e.value in
      let (e, there, same) = lookup-moved k u t r h in
      let value : f e.value ≡ f u = ap f same in
      omega (
        arith,
        value,
        weigh-insert_old g r.last_key moved r.last t.m r.kept,
        weigh-erase g k e (insert r.last_key moved t.m) (insert-IsMap r.last_key moved t.m w.is_map)
            there,
      )

  pub weigh_values-remove :
      (k : K) (u : V) (t r : IndexedMap K V)
      → IsIndexed t
      → get_value k t ≡ some u
      → remove k t ≡ some r
      → weigh_values r + f u ≡ weigh_values t
  unfolding get_value
  weigh_values-remove k u t r w h done = elim (Option-cases (lookup k t.m)) [
    | inl e ↦ ground (arith, e)
    | inr (old, e) ↦
        let re = RemovalPlan-total k t old w e in
        let here = some_cancel (sym re.result ∙ done) in
        subst (λ x. weigh_values x + f u ≡ weigh_values t) here (weigh_values-removed k u t re w h)
  ]

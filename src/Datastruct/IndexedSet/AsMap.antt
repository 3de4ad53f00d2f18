-- ===== src/Datastruct/IndexedSet/AsMap.antt =====
-- An indexed set is an indexed map to the unit: each method is the one of the map.
use gossip_protocol.Base.{
  ℕ, ◌≡◌, refl, none, some, Map, lookup, insert, erase, Comparable, arith, ap, IsMap, IsMap-of_keys,
  [], ◌∷◌, keys,
}
use gossip_protocol.Datastruct.IndexedMap.{IndexedMap, ValueAndIndex}
use gossip_protocol.Datastruct.IndexedSet.Defs.{IndexedSet}

abbrev pub with_unit : ℕ → ValueAndIndex Unit
with_unit i = record { value = tt; index = i }

unfoldable pub entries : {K : Type 0} → Map K ℕ → Map K (ValueAndIndex Unit)
entries [] = []
entries ((k, i) ∷ m) = (k, with_unit i) ∷ entries m

unfoldable pub as_map : {K : Type 0} → IndexedSet K → IndexedMap K Unit
unfolding entries
as_map t = record { m = entries t.s; key_list = t.elem_list }

module _ {K : Type 0} ⦃c : Comparable K⦄ where
  pub lookup-entries :
      (k : K) (m : Map K ℕ)
      → lookup k (entries m) ≡ elim (lookup k m) [ none ↦ none | some i ↦ some (with_unit i) ]
  unfolding lookup entries
  lookup-entries k [] = refl
  lookup-entries k ((j, i) ∷ m) = ground (arith, lookup-entries k m)

  pub entries-insert :
      (k : K) (i : ℕ) (m : Map K ℕ) → entries (insert k i m) ≡ insert k (with_unit i) (entries m)
  unfolding insert entries
  entries-insert k i [] = refl
  entries-insert k i ((j, n) ∷ m) = ground (arith, entries-insert k i m)

  pub entries-erase : (k : K) (m : Map K ℕ) → entries (erase k m) ≡ erase k (entries m)
  unfolding erase entries
  entries-erase k [] = refl
  entries-erase k ((j, n) ∷ m) = ground (arith, entries-erase k m)

  keys-entries : (m : Map K ℕ) → keys (entries m) ≡ keys m
  unfolding entries
  keys-entries [] = refl
  keys-entries ((k, i) ∷ m) = ap (◌∷◌ k) (keys-entries m)

  pub entries-IsMap : (m : Map K ℕ) → IsMap (entries m) → IsMap m
  entries-IsMap m w = IsMap-of_keys (entries m) m (keys-entries m) w

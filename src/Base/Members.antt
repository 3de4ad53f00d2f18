-- ===== src/Base/Members.antt =====
-- Membership in a list of comparable entries, as a test, and what it says of the keys of a map.
use mathlib.Core.Path.{◌≡◌, refl}
use mathlib.Core.Logic.{ite}
use mathlib.Core.Bool.{Bool, true, false}
use mathlib.Core.List.{List, [], ◌∷◌}
use native.Mathlib.Omega.{arith}
use mathlib.Core.Logic.{inl, inr}
use gossip_protocol.Base.Tests.{Option-cases}
use gossip_protocol.Base.Lists.{length}
use gossip_protocol.Base.Maps.{
  Comparable, Map, IsMap, lookup, erase, contains, keys, lookup-erase, length-erase_member,
  erase-IsMap,
}

module _ {K : Type 0} ⦃c : Comparable K⦄ where
  abbrev pub is_elem : K → List K → Bool
  is_elem j [] = false
  is_elem j (k ∷ ks) = ite (c.dec j k) true (is_elem j ks)

  abbrev pub IsDistinct : List K → Type 0
  IsDistinct [] = Unit
  IsDistinct (k ∷ ks) = (is_elem k ks ≡ false) × IsDistinct ks

  pub contains-keys : {V : Type 0} (j : K) (m : Map K V) → is_elem j (keys m) ≡ contains j m
  unfolding lookup
  contains-keys j [] = refl
  contains-keys j ((k, v) ∷ m) = ground (arith, contains-keys j m)

  pub keys-IsDistinct : {V : Type 0} (m : Map K V) → IsMap m → IsDistinct (keys m)
  keys-IsDistinct [] w = tt
  keys-IsDistinct ((k, v) ∷ m) w = (ground (arith, contains-keys k m), keys-IsDistinct m w.1)

  -- Two maps with the same keys are of one length.
  pub length_of_contains :
      {V W : Type 0} (m : Map K V) (n : Map K W)
      → IsMap m
      → IsMap n
      → ((k : K) → contains k m ≡ contains k n)
      → length m ≡ length n
  unfolding lookup
  length_of_contains [] [] w v h = refl
  length_of_contains [] ((k, u) ∷ n) w v h = absurd (ground (arith, h k))
  length_of_contains ((k, u) ∷ m) n w v h = elim (Option-cases (lookup k n)) [
    | inl gone ↦ absurd (ground (arith, h k, gone))
    | inr (x, here) ↦ omega (
      arith,
      length-erase_member k x n v here,
      length_of_contains m (erase k n) w.1 (erase-IsMap k n v)
          (λ j. ground (arith, h j, w.0, lookup-erase k j n)),
    )
  ]

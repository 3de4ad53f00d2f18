-- ===== src/Base/Maps.antt =====
-- Go's `map[K]V` as an association list. A `range` visits the entries in the list's order; as Go
-- fixes no order, statements hold for every list.
use Prim.Native.Nat.{ℕ, suc, ◌+◌, ◌≤◌}
use mathlib.Core.Path.{◌≡◌, refl, ap, subst}
use mathlib.Core.Logic.{ite}
use mathlib.Core.Bool.{Bool, true, false}
use mathlib.Core.List.{List, [], ◌∷◌, map}
use mathlib.Core.Option.{Option, none, some}
use native.Mathlib.Omega.{arith}
use native.Mathlib.Decide.{ℕ_discrete}
use gossip_protocol.Base.Lists.{length}

-- What Go calls a comparable type: `==` is decided.
pub record Comparable {ℓ} (K : Type ℓ) : Type ℓ where
  pub dec : Discrete K

-- A Go string is a sequence of bytes.
abbrev pub Bytes : Type 0
Bytes = List ℕ

unfoldable pub Bytes-discrete : Discrete (List ℕ)
unfolding ℕ_discrete
Bytes-discrete = hlevel ℕ_discrete

instance abbrev pub Nat-Comparable : Comparable ℕ
Nat-Comparable = record { dec = ℕ_discrete }

abbrev pub Map {ℓ} : Type ℓ → Type ℓ → Type ℓ
Map K V = List (K × V)

abbrev pub is_some {ℓ} : {A : Type ℓ} → Option A → Bool
is_some none = false
is_some (some _) = true

module _ {ℓ} {K V : Type ℓ} ⦃c : Comparable K⦄ where
  -- `m[k]`, with `none` for a missing key.
  unfoldable pub lookup : K → Map K V → Option V
  lookup k [] = none
  lookup k ((j, v) ∷ m) = ite (c.dec k j) (some v) (lookup k m)

  -- `_, isMember := m[k]`
  abbrev pub contains : K → Map K V → Bool
  contains k m = is_some (lookup k m)

  -- `m[k] = v`
  unfoldable pub insert : K → V → Map K V → Map K V
  insert k v [] = (k, v) ∷ []
  insert k v ((j, w) ∷ m) = ite (c.dec k j) ((k, v) ∷ m) ((j, w) ∷ insert k v m)

  -- `delete(m, k)`
  unfoldable pub erase : K → Map K V → Map K V
  erase k [] = []
  erase k ((j, w) ∷ m) = let rest = erase k m in ite (c.dec k j) rest ((j, w) ∷ rest)

  -- No key is listed twice.
  abbrev pub IsMap : Map K V → Type ℓ
  IsMap [] = Unit
  IsMap ((k, v) ∷ m) = (lookup k m ≡ none) × IsMap m

  pub lookup-nil : (k : K) → lookup k [] ≡ none
  unfolding lookup
  lookup-nil k = refl

  pub lookup-insert :
      (k j : K) (v : V) (m : Map K V)
      → lookup j (insert k v m) ≡ ite (c.dec k j) (some v) (lookup j m)
  unfolding lookup insert
  lookup-insert k j v [] = ground arith
  lookup-insert k j v ((i, w) ∷ m) = ground (arith, lookup-insert k j v m)

  pub lookup-erase :
      (k j : K) (m : Map K V) → lookup j (erase k m) ≡ ite (c.dec k j) none (lookup j m)
  unfolding lookup erase
  lookup-erase k j [] = ground arith
  lookup-erase k j ((i, w) ∷ m) = ground (arith, lookup-erase k j m)

  pub lookup-insert_self : (k : K) (v : V) (m : Map K V) → lookup k (insert k v m) ≡ some v
  lookup-insert_self k v m = ground (arith, lookup-insert k k v m)

  pub lookup-erase_self : (k : K) (m : Map K V) → lookup k (erase k m) ≡ none
  lookup-erase_self k m = ground (arith, lookup-erase k k m)

  pub insert-IsMap : (k : K) (v : V) (m : Map K V) → IsMap m → IsMap (insert k v m)
  unfolding lookup insert
  insert-IsMap k v [] h = (refl, tt)
  insert-IsMap k v ((j, w) ∷ m) h = ground (arith, insert-IsMap k v m h.1, lookup-insert k j v m)

  pub erase-IsMap : (k : K) (m : Map K V) → IsMap m → IsMap (erase k m)
  unfolding erase
  erase-IsMap k [] h = tt
  erase-IsMap k ((j, w) ∷ m) h = ground (arith, erase-IsMap k m h.1, lookup-erase k j m)

  -- The size of the map after each operation.
  pub length-insert_new :
      (k : K) (v : V) (m : Map K V) → lookup k m ≡ none → length (insert k v m) ≡ length m + 1
  unfolding lookup insert
  length-insert_new k v [] h = refl
  length-insert_new k v ((j, w) ∷ m) h = ground (arith, length-insert_new k v m)

  pub length-insert_old :
      (k : K) (v u : V) (m : Map K V) → lookup k m ≡ some u → length (insert k v m) ≡ length m
  unfolding lookup insert
  length-insert_old k v u [] h = cc
  length-insert_old k v u ((j, w) ∷ m) h = ground (arith, length-insert_old k v u m)

  pub length-insert-le : (k : K) (v : V) (m : Map K V) → length (insert k v m) ≤ length m + 1
  unfolding insert
  length-insert-le k v [] = omega arith
  length-insert-le k v ((j, w) ∷ m) = ground (arith, length-insert-le k v m)

  pub length-erase-le : (k : K) (m : Map K V) → length (erase k m) ≤ length m
  unfolding erase
  length-erase-le k [] = omega arith
  length-erase-le k ((j, w) ∷ m) = ground (arith, length-erase-le k m)

  pub erase_absent : (k : K) (m : Map K V) → lookup k m ≡ none → erase k m ≡ m
  unfolding lookup erase
  erase_absent k [] h = refl
  erase_absent k ((j, w) ∷ m) h = ground (arith, erase_absent k m)

  pub length-erase_member :
      (k : K) (v : V) (m : Map K V)
      → IsMap m
      → lookup k m ≡ some v
      → length (erase k m) + 1 ≡ length m
  unfolding lookup erase
  length-erase_member k v [] d h = cc
  length-erase_member k v ((j, w) ∷ m) d h =
      ground (arith, length-erase_member k v m d.1, erase_absent k m)

-- The sum of a measure over the values.
module _ {ℓ} {K V : Type ℓ} ⦃c : Comparable K⦄ (f : V → ℕ) where
  unfoldable pub weigh : Map K V → ℕ
  weigh [] = 0
  weigh ((k, v) ∷ m) = f v + weigh m

  pub weigh-insert_new :
      (k : K) (v : V) (m : Map K V) → lookup k m ≡ none → weigh (insert k v m) ≡ weigh m + f v
  unfolding lookup insert weigh
  weigh-insert_new k v [] h = omega arith
  weigh-insert_new k v ((j, w) ∷ m) h = ground (arith, weigh-insert_new k v m)

  pub weigh-insert_old :
      (k : K) (v old : V) (m : Map K V)
      → lookup k m ≡ some old
      → weigh (insert k v m) + f old ≡ weigh m + f v
  unfolding lookup insert weigh
  weigh-insert_old k v old [] h = cc
  weigh-insert_old k v old ((j, w) ∷ m) h = ground (arith, weigh-insert_old k v old m)

  pub weigh-erase :
      (k : K) (old : V) (m : Map K V)
      → IsMap m
      → lookup k m ≡ some old
      → weigh (erase k m) + f old ≡ weigh m
  unfolding lookup erase weigh
  weigh-erase k old [] d h = cc
  weigh-erase k old ((j, w) ∷ m) d h = ground (arith, weigh-erase k old m d.1, erase_absent k m)

  pub weigh-lookup-le : (k : K) (v : V) (m : Map K V) → lookup k m ≡ some v → f v ≤ weigh m
  unfolding lookup weigh
  weigh-lookup-le k v [] h = cc
  weigh-lookup-le k v ((j, w) ∷ m) h = ground (arith, weigh-lookup-le k v m)

-- Two maps with the same keys in the same order.
abbrev pub keys {ℓ} : {K V : Type ℓ} → Map K V → List K
keys m = map (λ e. e.0) m

pub length-keys {ℓ} : {K V : Type ℓ} (m : Map K V) → length (keys m) ≡ length m
length-keys [] = refl
length-keys (x ∷ m) = ap suc (length-keys m)

module _ {ℓ} {K V W : Type ℓ} ⦃c : Comparable K⦄ where
  pub lookup-eq-none_of_keys :
      (k : K) (m : Map K V) (n : Map K W) → keys m ≡ keys n → lookup k m ≡ none → lookup k n ≡ none
  unfolding lookup
  lookup-eq-none_of_keys k [] [] e h = refl
  lookup-eq-none_of_keys k [] (x ∷ n) e h = cc
  lookup-eq-none_of_keys k (x ∷ m) [] e h = cc
  lookup-eq-none_of_keys k ((i, v) ∷ m) ((j, w) ∷ n) e h =
      let heads : i ≡ j = cc in
      let tails : keys m ≡ keys n = cc in ground (arith, lookup-eq-none_of_keys k m n tails)

  pub IsMap-of_keys : (m : Map K V) (n : Map K W) → keys m ≡ keys n → IsMap m → IsMap n
  IsMap-of_keys [] [] e h = tt
  IsMap-of_keys [] (x ∷ n) e h = cc
  IsMap-of_keys (x ∷ m) [] e h = cc
  IsMap-of_keys ((i, v) ∷ m) ((j, w) ∷ n) e h =
      let heads : i ≡ j = cc in
      let tails : keys m ≡ keys n = cc in
      (
        subst (λ x. lookup x n ≡ none) heads (lookup-eq-none_of_keys i m n tails h.0),
        IsMap-of_keys m n tails h.1,
      )

  pub length_of_keys : (m : Map K V) (n : Map K W) → keys m ≡ keys n → length m ≡ length n
  length_of_keys [] [] e = refl
  length_of_keys [] (x ∷ n) e = cc
  length_of_keys (x ∷ m) [] e = cc
  length_of_keys (x ∷ m) (y ∷ n) e = ap suc (length_of_keys m n cc)

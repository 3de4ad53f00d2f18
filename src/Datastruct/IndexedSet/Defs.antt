-- ===== src/Datastruct/IndexedSet/Defs.antt =====
-- The type `IndexedSet` and its methods.
use gossip_protocol.Base.{
  ℕ, ◌-◌, Bool, Option, none, some, List, [], ◌∷◌, ◌++◌, Map, lookup, insert, erase, contains, keys,
  Comparable, length, get_elem?, set, take, ltb, if◌then◌else◌, ◌>>=◌, ℤ, pos, negsuc,
}

pub record IndexedSet (K : Type 0) : Type 0 where
  pub s : Map K ℕ
  pub elem_list : List K

unfoldable pub new : {K : Type 0} → IndexedSet K
new = record { s = []; elem_list = [] }

-- `Len`
abbrev pub len : {K : Type 0} → IndexedSet K → ℕ
len t = length t.elem_list

-- `ElemAtIndex`
abbrev pub elem_at_index : {K : Type 0} → ℕ → IndexedSet K → Option K
elem_at_index i t = get_elem? t.elem_list i

-- `Iterate`: the elements, in one of the orders that Go may choose.
abbrev pub elements : {K : Type 0} → IndexedSet K → List K
elements t = keys t.s

module _ {K : Type 0} ⦃c : Comparable K⦄ where
  unfoldable pub add : K → IndexedSet K → IndexedSet K
  add k t =
      if contains k t.s
      then t
      else record { s = insert k (length t.elem_list) t.s; elem_list = t.elem_list ++ k ∷ [] }

  -- The body of `Remove` for a member at the index `i`: the last element takes its place.
  unfoldable pub swap_out : K → ℕ → IndexedSet K → Option (IndexedSet K)
  swap_out k i t = do
    let last_index = length t.elem_list - 1
    last_elem ← get_elem? t.elem_list last_index
    elems ← if ltb i (length t.elem_list) then some (set t.elem_list i last_elem) else none
    some (record { s = erase k (insert last_elem i t.s); elem_list = take last_index elems })

  unfoldable pub remove : K → IndexedSet K → Option (IndexedSet K)
  unfolding swap_out
  remove k t = elim (lookup k t.s) [ none ↦ some t | some i ↦ swap_out k i t ]

  abbrev pub is_member : K → IndexedSet K → Bool
  is_member k t = contains k t.s

  unfoldable pub elem_index : K → IndexedSet K → ℤ
  elem_index k t = elim (lookup k t.s) [ none ↦ negsuc 0 | some i ↦ pos i ]

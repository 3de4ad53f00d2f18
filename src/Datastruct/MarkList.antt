-- ===== src/Datastruct/MarkList.antt =====
-- src/datastruct/marklist/marklist.go: an array whose first `marked_size` entries are marked.
-- Every method returns `none` where the source panics; -1, the index of "no change", is `negsuc 0`.
pub mod Laws
use gossip_protocol.Base.{
  ℕ, ◌+◌, ◌-◌, Option, none, some, List, length, get_elem?, set, replicate, leb, ltb, if◌then◌else◌,
  ◌>>=◌, ℤ, pos, negsuc,
}

pub record MarkList (A : Type 0) : Type 0 where
  pub list : List (Option A)
  pub marked_size : ℕ
  pub total_size : ℕ

-- The slots of a new list hold nil.
unfoldable pub new : {A : Type 0} → ℕ → MarkList A
new capacity = record { list = replicate capacity none; marked_size = 0; total_size = 0 }

abbrev pub cap : {A : Type 0} → MarkList A → ℕ
cap m = length m.list

-- The index after `Unmark`: the new one, unless it is -1.
abbrev settled : ℕ → ℤ → ℕ
settled i (pos j) = j
settled i (negsuc _) = i

module _ {A : Type 0} where
  unfoldable pub elem_at_index : ℕ → MarkList A → Option (Option A)
  elem_at_index i m = if leb m.total_size i then none else get_elem? m.list i

  unfoldable pub add : A → MarkList A → Option (MarkList A)
  add a m =
      if leb (length m.list) m.total_size
      then none
      else some
          (record m { list = set m.list m.total_size (some a); total_size = m.total_size + 1 })

  -- The exchange of two entries that `Mark` and `Unmark` make.
  unfoldable pub exchange : ℕ → ℕ → Option A → List (Option A) → Option (List (Option A))
  exchange i j elem l = do at_j ← get_elem? l j; some (set (set l i at_j) j elem)

  unfoldable pub mark : ℕ → MarkList A → Option (ℤ × MarkList A)
  unfolding elem_at_index exchange
  mark i m = do
    elem ← elem_at_index i m
    if leb m.marked_size i
        then (do
          l ← exchange i m.marked_size elem m.list
          some (pos m.marked_size, record m { list = l; marked_size = m.marked_size + 1 }))
        else some (negsuc 0, m)

  unfoldable pub unmark : ℕ → MarkList A → Option (ℤ × MarkList A)
  unfolding elem_at_index exchange
  unmark i m = do
    elem ← elem_at_index i m
    if ltb i m.marked_size
        then (do
          l ← exchange i (m.marked_size - 1) elem m.list
          some (pos (m.marked_size - 1), record m { list = l; marked_size = m.marked_size - 1 }))
        else some (negsuc 0, m)

  unfoldable pub remove_at : ℕ → MarkList A → Option (MarkList A)
  unfolding unmark
  remove_at i m = do
    (j, u) ← unmark i m
    last ← get_elem? u.list (u.total_size - 1)
    some (record u { list = set u.list (settled i j) last; total_size = u.total_size - 1 })

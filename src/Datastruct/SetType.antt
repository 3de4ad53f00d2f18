-- ===== src/Datastruct/SetType.antt =====
-- src/datastruct/set/set.go: `Set` is a map to empty structs.
use gossip_protocol.Base.{
  ℕ, ◌≡◌, Bool, true, false, Map, insert, erase, contains, Comparable, length, List, [], map, arith,
  ite, lookup-insert, lookup-erase,
}

abbrev pub SetOf : Type 0 → Type 0
SetOf A = Map A Unit

abbrev pub empty_set : {A : Type 0} → SetOf A
empty_set = []

module _ {A : Type 0} ⦃c : Comparable A⦄ where
  unfoldable pub add : A → SetOf A → SetOf A
  add a s = insert a tt s

  unfoldable pub remove : A → SetOf A → SetOf A
  remove a s = erase a s

  abbrev pub is_member : A → SetOf A → Bool
  is_member a s = contains a s

  -- An element is in the set after `Add` exactly if it is the added one or was there.
  pub is_member-add :
      (a b : A) (s : SetOf A) → is_member b (add a s) ≡ ite (c.dec a b) true (is_member b s)
  unfolding add
  is_member-add a b s = ground (arith, lookup-insert a b tt s)

  -- An element is in the set after `Remove` exactly if it was there and is another one.
  pub is_member-remove :
      (a b : A) (s : SetOf A) → is_member b (remove a s) ≡ ite (c.dec a b) false (is_member b s)
  unfolding remove
  is_member-remove a b s = ground (arith, lookup-erase a b s)

-- `Len`
abbrev pub set_len : {A : Type 0} → SetOf A → ℕ
set_len s = length s

-- `Iterate`, in one of the orders that Go may choose.
abbrev pub elements : {A : Type 0} → SetOf A → List A
elements s = map (λ e. e.0) s

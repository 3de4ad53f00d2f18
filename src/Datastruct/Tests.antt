-- ===== src/Datastruct/Tests.antt =====
-- The containers on small contents.
use gossip_protocol.Base.{
  ℕ, ◌+◌, ◌-◌, ◌≡◌, ◌<◌, get_elem?, none, some, [], ◌∷◌, arith, Nat-Comparable, ltb, if◌then◌else◌,
}
use gossip_protocol.Datastruct.SetType.{SetOf, add, empty_set}
use gossip_protocol.Datastruct.IndexedMap.{
  IndexedMap, IsIndexed, new-IsIndexed, put, put-IsIndexed, get_value, get_value-put, Removes,
  remove-Removes,
}
use gossip_protocol.Datastruct.IndexedMap
use gossip_protocol.Datastruct.IndexedSet
use gossip_protocol.Datastruct.IndexedSet.{
  IndexedSet, SetRemoval, remove-SetRemoval, add-IsListed, new-IsListed,
}
use gossip_protocol.Datastruct.MarkList.{MarkList}
use gossip_protocol.Datastruct.MarkList
use gossip_protocol.Datastruct.MarkList.Laws.{IsSized, remaining, remove_at_lem}

abbrev only_two : SetOf ℕ
only_two = add 2 empty_set

abbrev two_keys : IndexedMap ℕ ℕ
two_keys = put 8 80 (put 7 70 IndexedMap.new)

two_keys-IsIndexed : IsIndexed two_keys
two_keys-IsIndexed = put-IsIndexed 8 80 _ (put-IsIndexed 7 70 _ new-IsIndexed)

remove-Removes_example : Removes 7 two_keys
remove-Removes_example = remove-Removes 7 two_keys two_keys-IsIndexed

abbrev two_entries : MarkList ℕ
two_entries = record { list = some 5 ∷ some 6 ∷ none ∷ []; marked_size = 1; total_size = 2 }

two_entries-IsSized : IsSized two_entries
two_entries-IsSized = omega arith

remove_at_lem_example :
    (after : MarkList ℕ) × (MarkList.remove_at 0 two_entries ≡ some after)
    × IsSized after
    × (after.total_size + 1 ≡ 2)
    × (after.marked_size ≡ (if ltb 0 1 then 1 - 1 else 1))
    × ((j : ℕ) → j < after.total_size → get_elem? after.list j ≡ remaining 0 two_entries j)
remove_at_lem_example = remove_at_lem 0 two_entries two_entries-IsSized (omega arith)

abbrev two_elems : IndexedSet ℕ
two_elems = IndexedSet.add 8 (IndexedSet.add 7 IndexedSet.new)

remove-SetRemoval_example : SetRemoval 7 two_elems
remove-SetRemoval_example =
    remove-SetRemoval 7 two_elems (add-IsListed 8 _ (add-IsListed 7 _ new-IsListed))

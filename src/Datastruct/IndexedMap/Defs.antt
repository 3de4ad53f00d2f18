-- ===== src/Datastruct/IndexedMap/Defs.antt =====
-- The type `IndexedMap` and its methods.
use gossip_protocol.Base.{
  ℕ, ◌-◌, Bool, Option, none, some, List, [], ◌∷◌, ◌++◌, Map, lookup, insert, erase, is_some,
  Comparable, length, get_elem?, set, take, ltb, if◌then◌else◌, ◌>>=◌, ℤ, pos, negsuc,
}

pub record ValueAndIndex (V : Type 0) : Type 0 where
  pub value : V
  pub index : ℕ

pub record IndexedMap (K V : Type 0) : Type 0 where
  pub m : Map K (ValueAndIndex V)
  pub key_list : List K

unfoldable pub new : {K V : Type 0} → IndexedMap K V
new = record { m = []; key_list = [] }

-- `Len`
abbrev pub len : {K V : Type 0} → IndexedMap K V → ℕ
len t = length t.key_list

-- `KeyAtIndex`: `none` is the error.
abbrev pub key_at_index : {K V : Type 0} → ℕ → IndexedMap K V → Option K
key_at_index i t = get_elem? t.key_list i

-- `keyList[i] = k`, which panics out of range.
unfoldable pub write_key : {K : Type 0} → ℕ → K → List K → Option (List K)
write_key i k ks = if ltb i (length ks) then some (set ks i k) else none

module _ {K V : Type 0} ⦃c : Comparable K⦄ where
  unfoldable pub put : K → V → IndexedMap K V → IndexedMap K V
  put k v t = elim (lookup k t.m) [
    | none ↦ record {
      m = insert k (record { value = v; index = length t.key_list }) t.m;
      key_list = t.key_list ++ k ∷ [];
    }
    | some old ↦ record t { m = insert k (record { value = v; index = old.index }) t.m }
  ]

  -- The body of `Remove` for a member whose index is `i`: the last key takes its place. A key that
  -- is missing from `m` would be given a zero value, which `none` stands for.
  unfoldable pub swap_out : K → ℕ → IndexedMap K V → Option (IndexedMap K V)
  unfolding write_key
  swap_out k i t = do
    let last_index = length t.key_list - 1
    last_key ← get_elem? t.key_list last_index
    keys ← write_key i last_key t.key_list
    last ← lookup last_key t.m
    some (record {
      m = erase k (insert last_key (record last { index = i }) t.m);
      key_list = take last_index keys;
    })

  unfoldable pub remove : K → IndexedMap K V → Option (IndexedMap K V)
  unfolding swap_out
  remove k t = elim (lookup k t.m) [ none ↦ some t | some old ↦ swap_out k old.index t ]

  -- `GetValue`: `none` is nil.
  unfoldable pub get_value : K → IndexedMap K V → Option V
  get_value k t = elim (lookup k t.m) [ none ↦ none | some e ↦ some e.value ]

  abbrev pub is_member : K → IndexedMap K V → Bool
  is_member k t = is_some (lookup k t.m)

  unfoldable pub key_index : K → IndexedMap K V → ℤ
  key_index k t = elim (lookup k t.m) [ none ↦ negsuc 0 | some e ↦ pos e.index ]

-- ===== src/Datastruct/IndexedMap/Laws.antt =====
-- The two halves of an indexed map agree, every method keeps them so, and seen through `GetValue`
-- it is a plain map.
use gossip_protocol.Base.{
  ℕ, ◌-◌, ◌<◌, ◌≡◌, ◌↔◌, Option, none, some, IsMap, lookup, Comparable, length, get_elem?, set,
  arith, ite, Option-cases, inl, inr, ◌⊎◌, insert, erase, lookup-insert, insert-IsMap,
  get_elem?-append_one, get_elem?_bound, get_elem?_lt, take,
}
use gossip_protocol.Datastruct.IndexedMap.Defs.{
  IndexedMap, ValueAndIndex, new, put, write_key, swap_out, remove, get_value, key_at_index,
}

module _ {K V : Type 0} ⦃c : Comparable K⦄ where
  -- The index that the map stores with a key.
  unfoldable pub index_of : K → IndexedMap K V → Option ℕ
  index_of k t = elim (lookup k t.m) [ none ↦ none | some e ↦ some e.index ]

  -- A key has the stored index `i` exactly if it is the `i`-th key of the list.
  pub record IsIndexed (t : IndexedMap K V) : Type 0 where
    pub is_map : IsMap t.m
    pub agree : (k : K) (i : ℕ) → (index_of k t ≡ some i) ↔ (get_elem? t.key_list i ≡ some k)

  pub new-IsIndexed : IsIndexed new
  unfolding new index_of lookup
  new-IsIndexed = record { is_map = tt; agree = λ k i. ((λ e. cc), (λ e. cc)) }

  put-agree :
      (k : K) (v : V) (t : IndexedMap K V)
      → IsIndexed t
      → (j : K) (i : ℕ)
      → (index_of j (put k v t) ≡ some i) ↔ (get_elem? (put k v t).key_list i ≡ some j)
  unfolding put index_of
  put-agree k v t w j i = elim (Option-cases (lookup k t.m)) [
    | inl e ↦
        rw (e, put)
          (ground (
            arith,
            w.agree j i,
            lookup-insert k j (record { value = v; index = length t.key_list }) t.m,
            get_elem?-append_one t.key_list k i,
            λ (p : get_elem? t.key_list i ≡ some j). get_elem?_bound t.key_list i p,
          ))
    | inr (old, e) ↦
        rw (e, put)
          (ground (
            arith,
            w.agree j i,
            w.agree k i,
            lookup-insert k j (record { value = v; index = old.index }) t.m,
          ))
  ]

  -- `Put` keeps the stored indexes and the list of keys in agreement.
  pub put-IsIndexed : (k : K) (v : V) (t : IndexedMap K V) → IsIndexed t → IsIndexed (put k v t)
  unfolding put
  put-IsIndexed k v t w = record {
    is_map = elim (Option-cases (lookup k t.m)) [
      | inl e ↦ rw (e, put) (insert-IsMap k _ t.m w.is_map)
      | inr (old, e) ↦ rw (e, put) (insert-IsMap k _ t.m w.is_map)
    ];
    agree = put-agree k v t w;
  }

  -- Seen through `GetValue`, `Put` is an update of a plain map.
  -- `Put` is an update of the plain map that `GetValue` shows.
  pub get_value-put :
      (k j : K) (v : V) (t : IndexedMap K V)
      → get_value j (put k v t) ≡ ite (c.dec k j) (some v) (get_value j t)
  unfolding put get_value
  get_value-put k j v t = elim (Option-cases (lookup k t.m)) [
    | inl e ↦
        rw (e, put)
          (ground (arith, lookup-insert k j (record { value = v; index = length t.key_list }) t.m))
    | inr (old, e) ↦
        rw (e, put)
          (ground (arith, lookup-insert k j (record { value = v; index = old.index }) t.m))
  ]

  -- What `Remove` leaves of a member: the last key moves to its place.
  abbrev pub removed : K → ℕ → K → ValueAndIndex V → IndexedMap K V → IndexedMap K V
  removed k i last_key last t = record {
    m = erase k (insert last_key (record last { index = i }) t.m);
    key_list = take (length t.key_list - 1) (set t.key_list i last_key);
  }

  pub record RemovalPlan (k : K) (t : IndexedMap K V) : Type 0 where
    pub old : ValueAndIndex V
    pub last_key : K
    pub last : ValueAndIndex V
    pub found : lookup k t.m ≡ some old
    pub place : get_elem? t.key_list old.index ≡ some k
    pub room : old.index < length t.key_list
    pub at_end : get_elem? t.key_list (length t.key_list - 1) ≡ some last_key
    pub kept : lookup last_key t.m ≡ some last
    pub kept_index : last.index ≡ length t.key_list - 1
    pub result : remove k t ≡ some (removed k old.index last_key last t)

  -- `Remove` of a member reads no index out of range.
  pub RemovalPlan-total :
      (k : K) (t : IndexedMap K V) (old : ValueAndIndex V)
      → IsIndexed t
      → lookup k t.m ≡ some old
      → RemovalPlan k t
  unfolding remove swap_out write_key index_of
  RemovalPlan-total k t old w e =
      let place = (w.agree k old.index).0 (ground arith) in
      let room = get_elem?_bound t.key_list old.index place in
      let (lk, ends) = get_elem?_lt t.key_list (length t.key_list - 1) (omega arith) in
      finish lk ends (Option-cases (lookup lk t.m)) place room
    where
      finish :
          (lk : K)
          → get_elem? t.key_list (length t.key_list - 1) ≡ some lk
          → (lookup lk t.m ≡ none) ⊎ ((l : ValueAndIndex V) × (lookup lk t.m ≡ some l))
          → get_elem? t.key_list old.index ≡ some k
          → old.index < length t.key_list
          → RemovalPlan k t
      finish lk ends (inl none_there) place room =
          absurd (ground (arith, (w.agree lk (length t.key_list - 1)).1 ends))
      finish lk ends (inr (l, there)) place room = record {
        old = old;
        last_key = lk;
        last = l;
        found = e;
        place = place;
        room = room;
        at_end = ends;
        kept = there;
        kept_index = ground (arith, (w.agree lk (length t.key_list - 1)).1 ends);
        result = ground arith;
      }

  -- A key of the list has a value.
  pub get_value-key_at_index :
      (i : ℕ) (k : K) (t : IndexedMap K V)
      → IsIndexed t
      → key_at_index i t ≡ some k
      → (v : V) × (get_value k t ≡ some v)
  unfolding get_value index_of
  get_value-key_at_index i k t w h = elim (Option-cases (lookup k t.m)) [
    | inl gone ↦ absurd (ground (arith, (w.agree k i).1 h, gone))
    | inr (e, here) ↦ (e.value, ground (arith, here))
  ]

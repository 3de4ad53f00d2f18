-- ===== src/Gossiper/Pushes.antt =====
-- The pushes of a gossip round: which peers an item goes to, and that no index is out of range.
use gossip_protocol.Base.{
  ℕ, zero, suc, ◌+◌, ◌*◌, ◌%◌, ◌<◌, ◌≤◌, ◌≡◌, refl, ◌≢◌, none, some, ap, ◌∙◌, List, [], ◌∷◌, All,
  length, get_elem?, get_elem?_lt, arith, ltb, Bool-cases, inl, inr, ◌⊎◌, sym, some_cancel,
  if◌then◌else◌,
}
use native.Mathlib.Nat.{add-zero}
use gossip_protocol.Datastruct.Extrema.{min_int, min_int-le}
use gossip_protocol.Message.{Pointer, InternalMessage}
use gossip_protocol.Gossiper.Item.{GossipItemInfo}
use gossip_protocol.Gossiper.Push.{indexes_from, peer_indexes, push_message, push_to}

shift : (start i : ℕ) → start + 1 + i ≡ start + suc i
shift start i = omega arith

get_elem?-indexes_from :
    (start n k i : ℕ)
    → get_elem? (indexes_from start n k) i ≡ (if ltb i k then some ((start + i) % n) else none)
unfolding indexes_from
get_elem?-indexes_from start n zero i = ground arith
get_elem?-indexes_from start n (suc k) zero = ground (arith, add-zero start)
get_elem?-indexes_from start n (suc k) (suc i) =
    ground (arith, get_elem?-indexes_from (start + 1) n k i, shift start i)

lt_cases : (i j : ℕ) → (i < j) ⊎ ((j < i) ⊎ (i ≡ j))
lt_cases i j = elim (Bool-cases (ltb i j)) [
  | inl lt ↦ inl (ground arith)
  | inr not_lt ↦ elim (Bool-cases (ltb j i)) [
    | inl gt ↦ inr (inl (ground arith))
    | inr not_gt ↦ inr (inr (ground arith))
  ]
]

mod_distinct : (a b n : ℕ) → a < b → b < a + n → a % n ≢ b % n
mod_distinct a b n h k = grind arith

length-indexes_from : (start n k : ℕ) → length (indexes_from start n k) ≡ k
unfolding indexes_from
length-indexes_from start n zero = refl
length-indexes_from start n (suc k) = ap suc (length-indexes_from (start + 1) n k)

get_elem?_in : (xs : List ℕ) (i v : ℕ) → get_elem? xs i ≡ some v → i < length xs
get_elem?_in [] i v h = cc
get_elem?_in (x ∷ xs) zero v h = omega arith
get_elem?_in (x ∷ xs) (suc i) v h = omega (arith, get_elem?_in xs i v h)

-- In a round an item goes to as many peers as the degree, or as all of its n peers if these are fewer:
-- number i is the peer (ttl * degree + i) % n, and no peer is taken twice.
pub peer_indexes_lem :
    (degree : ℕ) (info : GossipItemInfo)
    → let n = length info.peer_list in
      (length (peer_indexes degree info) ≡ min_int degree n)
      × ((i : ℕ)
          → i < min_int degree n
          → get_elem? (peer_indexes degree info) i ≡ some ((info.s.ttl * degree + i) % n))
      × ((i j v : ℕ)
          → get_elem? (peer_indexes degree info) i ≡ some v
          → get_elem? (peer_indexes degree info) j ≡ some v
          → i ≡ j)
unfolding peer_indexes
peer_indexes_lem degree info =
    let n = length info.peer_list in
    let k = min_int degree n in
    let start = info.s.ttl * degree in
    let at : (i : ℕ) → i < k → get_elem? (indexes_from start n k) i ≡ some ((start + i) % n) =
      λ i h. ground (arith, get_elem?-indexes_from start n k i, h) in
    let size = length-indexes_from start n k in
    let below : (i v : ℕ) → get_elem? (indexes_from start n k) i ≡ some v → i < k =
      λ i v e. omega (arith, size, get_elem?_in (indexes_from start n k) i v e) in
    let apart : (i j v : ℕ) → i < j → j < k → (start + i) % n ≡ v → (start + j) % n ≢ v =
      λ i j v lt h e f.
        mod_distinct (start + i) (start + j) n (omega arith) (omega (arith, min_int-le degree n))
          (e ∙ sym f) in
    (
      size,
      at,
      λ i j v e f.
          let there = some_cancel (sym (at i (below i v e)) ∙ e) in
          let here = some_cancel (sym (at j (below j v f)) ∙ f) in
          elim (lt_cases i j) [
            | inl lt ↦ absurd (apart i j v lt (below j v f) there here)
            | inr rest ↦ elim rest [
              | inl gt ↦ absurd (apart j i v gt (below i v e) here there)
              | inr same ↦ same
            ]
          ],
    )

indexes_from_below : (start n k : ℕ) → 0 < n → All (λ i. i < n) (indexes_from start n k)
unfolding indexes_from
indexes_from_below start n zero h = tt
indexes_from_below start n (suc k) h = (omega arith, indexes_from_below (start + 1) n k h)

push_to_total :
    (p : Pointer) (info : GossipItemInfo) (is : List ℕ)
    → All (λ i. i < length info.peer_list) is
    → (ms : List InternalMessage) × (push_to p info is ≡ some ms) × (length ms ≡ length is)
unfolding push_to
push_to_total p info [] h = ([], refl, refl)
push_to_total p info (i ∷ is) h =
    let (peer, e) = get_elem?_lt info.peer_list i h.0 in
    let (ms, e', n) = push_to_total p info is h.1 in
    (push_message p info peer ∷ ms, ground (arith, e, e'), omega (arith, n))

-- The pushes of one item never panic, and are as many as the degree allows and there are peers,
-- also while the peers have not arrived.
pub pushes_total :
    (p : Pointer) (degree : ℕ) (info : GossipItemInfo)
    → (ms : List InternalMessage) × (push_to p info (peer_indexes degree info) ≡ some ms)
      × (length ms ≡ min_int degree (length info.peer_list))
unfolding peer_indexes
pushes_total p degree info =
    let n = length info.peer_list in
    let k = min_int degree n in
    let start = info.s.ttl * degree in
    let (ms, e, same) =
      push_to_total p info (indexes_from start n k) (in_range start n k (min_int-le degree n).1) in
    (ms, e, same ∙ length-indexes_from start n k)
  where
    in_range : (start n k : ℕ) → k ≤ n → All (λ i. i < n) (indexes_from start n k)
    in_range start n zero h = tt
    in_range start n (suc k) h = indexes_from_below start n (suc k) (omega arith)

-- ===== src/Central/Draws.antt =====
-- A request for random peers is answered with as many peers as there can be.
use gossip_protocol.Base.{
  ℕ, zero, suc, ◌<◌, ◌≡◌, refl, true, some, List, [], ◌∷◌, ◌++◌, All, length, lookup, get_elem?_lt,
  take, min, arith, ◌∙◌, ap, Option-cases, inl, inr, length-take, subst, sym, map, get_elem?, ite,
  pos, ◌+ℤ◌, eq_of_parts, +ℤ_parts, slice_to-take, if_pos, if_neg, some_cancel, ◌≢◌,
}
use gossip_protocol.Datastruct.IndexedMap.{
  IndexedMap, IsIndexed, get_value, get_value-key_at_index, put, put-IsIndexed, get_value-put, len,
}
use gossip_protocol.Message.{
  Peer, Peer-Comparable, Peer-discrete, RandomPeerListRequest, random_peer_list_reply_msg,
  random_peer_list_reply,
}
use gossip_protocol.Central.State.{Central, PeerInfo, Effect, im, emit, send_gossiper}
use gossip_protocol.Central.Random.{count_up, lend, lend_all, pick_random}

put-key_list :
    (p : Peer) (v old : PeerInfo) (t : IndexedMap Peer PeerInfo)
    → get_value p t ≡ some old
    → (put p v t).key_list ≡ t.key_list
unfolding put get_value
put-key_list p v old t h = elim (Option-cases (lookup p t.m)) [
  | inl gone ↦ ground (arith, gone)
  | inr (e, here) ↦ rw (here, put) refl
]

-- How often a peer is in a list.
unfoldable pub uses : Peer → List Peer → ℕ
uses j [] = 0
uses j (p ∷ ps) = let rest = uses j ps in ite (Peer-discrete p j) (suc rest) rest

-- An entry with `n` uses more.
abbrev pub with_uses : ℕ → PeerInfo → PeerInfo
with_uses n info = record info { usage_counter = info.usage_counter +ℤ pos n }

with_uses-zero : (info : PeerInfo) → with_uses 0 info ≡ info
with_uses-zero info =
    ap (λ n. record info { usage_counter = n })
      (eq_of_parts (info.usage_counter +ℤ pos 0) info.usage_counter
        (omega (arith, +ℤ_parts info.usage_counter (pos 0))))

with_uses-suc : (n : ℕ) (info : PeerInfo) → with_uses n (with_uses 1 info) ≡ with_uses (suc n) info
with_uses-suc n info =
    ap (λ n. record info { usage_counter = n })
      (eq_of_parts (info.usage_counter +ℤ pos 1 +ℤ pos n) (info.usage_counter +ℤ pos (suc n)) (
        omega (
          arith,
          +ℤ_parts info.usage_counter (pos 1),
          +ℤ_parts (info.usage_counter +ℤ pos 1) (pos n),
          +ℤ_parts info.usage_counter (pos (suc n)),
        )))

-- The result of the loop over drawn indexes.
record Lent (is : List ℕ) (c : Central) : Type 0 where
  peers : List Peer
  after : Central
  result : lend_all is c ≡ some (peers, after)
  drawn : map some peers ≡ map (get_elem? c.view_list.key_list) is
  same_effects : after.effects ≡ c.effects
  same_gossiper : after.gossiper ≡ c.gossiper
  keys_kept : after.view_list.key_list ≡ c.view_list.key_list
  counted :
      (j : Peer) (info : PeerInfo)
      → get_value j c.view_list ≡ some info
      → get_value j after.view_list ≡ some (with_uses (uses j peers) info)

-- Entries after a peer is lent once more.
lent_same :
    (p j : Peer) (value info : PeerInfo) (t : IndexedMap Peer PeerInfo)
    → get_value p t ≡ some value
    → get_value j t ≡ some info
    → p ≡ j
    → get_value j (put p (count_up value) t) ≡ some (with_uses 1 info)
lent_same p j value info t at_p at_j same =
    let one : value ≡ info = some_cancel (sym at_p ∙ ap (λ x. get_value x t) same ∙ at_j) in
    get_value-put p j (count_up value) t
    ∙ if_pos (Peer-discrete p j) same _ _
    ∙ ap (λ x. some (count_up x)) one

lent_other :
    (p j : Peer) (value info : PeerInfo) (t : IndexedMap Peer PeerInfo)
    → get_value j t ≡ some info
    → p ≢ j
    → get_value j (put p (count_up value) t) ≡ some info
lent_other p j value info t at_j other =
    get_value-put p j (count_up value) t ∙ if_neg (Peer-discrete p j) other _ _ ∙ at_j

drawn-Lent :
    (is : List ℕ) (c : Central)
    → IsIndexed c.view_list
    → All (λ i. i < len c.view_list) is
    → Lent is c
unfolding lend_all lend uses
drawn-Lent [] c w h = record {
  peers = [];
  after = c;
  result = refl;
  drawn = refl;
  same_effects = refl;
  same_gossiper = refl;
  keys_kept = refl;
  counted = λ j info at_j. at_j ∙ ap some (sym (with_uses-zero info));
}
drawn-Lent (i ∷ is) c w h =
    let (p, key) = get_elem?_lt c.view_list.key_list i h.0 in
    let (info, value) = get_value-key_at_index i p c.view_list w key in
    let kept = put-key_list p (count_up info) info c.view_list value in
    let next : Central = record c { view_list = put p (count_up info) c.view_list } in
    let room : All (λ i. i < len next.view_list) is =
      subst (λ ks. All (λ i. i < length ks) is) (sym kept) (h.1) in
    let rest = drawn-Lent is next (put-IsIndexed p (count_up info) c.view_list w) room in
    record {
      peers = p ∷ rest.peers;
      after = rest.after;
      result = rw (key, value, rest.result, lend_all) refl;
      drawn =
          ap (λ os. some p ∷ os) (rest.drawn ∙ ap (λ ks. map (get_elem? ks) is) kept)
          ∙ ap (λ o. o ∷ map (get_elem? c.view_list.key_list) is) (sym key);
      same_effects = rest.same_effects;
      same_gossiper = rest.same_gossiper;
      keys_kept = rest.keys_kept ∙ kept;
      counted = λ j old at_j. elim (Peer-discrete p j) [
        | yes same ↦
            rest.counted j (with_uses 1 old) (lent_same p j info old c.view_list value at_j same)
            ∙ ap some (with_uses-suc (uses j rest.peers) old)
            ∙ ap (λ n. some (with_uses n old)) (sym (if_pos (Peer-discrete p j) same _ _))
        | no other ↦
            rest.counted j old (lent_other p j info old c.view_list at_j other)
            ∙ ap (λ n. some (with_uses n old)) (sym (if_neg (Peer-discrete p j) other _ _))
      ];
    }

take-All : (P : ℕ → Type 0) (n : ℕ) (is : List ℕ) → All P is → All P (take n is)
take-All P zero is h = tt
take-All P (suc n) [] h = tt
take-All P (suc n) (i ∷ is) h = (h.0, take-All P n is h.1)

length-map : {A B : Type 0} (f : A → B) (xs : List A) → length (map f xs) ≡ length xs
length-map f [] = refl
length-map f (x ∷ xs) = ap suc (length-map f xs)

-- The answer to a request: the Gossiper is sent the peers at the first drawn indexes, as many as it
-- asked for or as there are if these are fewer; each of them has one user more for each time that it
-- was drawn, no other peer has, and the keys of the view list stay.
abbrev pub Answered : (ℕ → List ℕ) → RandomPeerListRequest → Central → Type 0
Answered perm msg c =
    let size = len c.view_list in
    (peers : List Peer) × (after : Central) × (pick_random perm msg c ≡ some after)
    × (after.effects
        ≡ c.effects
          ++ Effect.to_gossiper
              (im random_peer_list_reply_msg (random_peer_list_reply msg.related peers))
            ∷ [])
    × (length peers ≡ min msg.num size)
    × (map some peers ≡ map (get_elem? c.view_list.key_list) (take (min msg.num size) (perm size)))
    × ((j : Peer) (info : PeerInfo)
        → get_value j c.view_list ≡ some info
        → get_value j after.view_list ≡ some (with_uses (uses j peers) info))
    × (after.view_list.key_list ≡ c.view_list.key_list)

-- While the Gossiper runs and the view list is indexed, a request for random peers does not panic if
-- `rand.Perm` of the view list's size has that length and only indexes below it: the Gossiper is sent
-- the peers at the first of these indexes, as many as it asked for, or as there are if these are
-- fewer; the usage counter of every peer of the view list goes up by the number of times that the
-- peer was drawn, and the keys of the view list stay.
pub pick_random_total :
    (perm : ℕ → List ℕ) (msg : RandomPeerListRequest) (c : Central)
    → IsIndexed c.view_list
    → c.gossiper ≡ true
    → length (perm (len c.view_list)) ≡ len c.view_list
    → All (λ i. i < len c.view_list) (perm (len c.view_list))
    → Answered perm msg c
unfolding pick_random send_gossiper emit
pick_random_total perm msg c w alive size below =
    let wanted = min msg.num (len c.view_list) in
    let fits = slice_to-take wanted (perm (len c.view_list)) (omega (arith, size)) in
    let lent = drawn-Lent (take wanted (perm (len c.view_list))) c w (take-All _ _ _ below) in
    let there : lent.after.gossiper ≡ true = lent.same_gossiper ∙ alive in
    (
      lent.peers,
      emit (reply lent.peers) lent.after,
      rw (fits, pick_random, lent.result) (rw (there, send_gossiper) refl),
      ap (λ es. es ++ reply lent.peers) lent.same_effects,
      sym (length-map some lent.peers)
          ∙ ap length lent.drawn
          ∙ length-map (get_elem? c.view_list.key_list) (take wanted (perm (len c.view_list)))
          ∙ length-take wanted (perm (len c.view_list)) (omega (arith, size)),
      lent.drawn,
      lent.counted,
      lent.keys_kept,
    )
  where
    reply : List Peer → List Effect
    reply peers =
        Effect.to_gossiper
          (im random_peer_list_reply_msg (random_peer_list_reply msg.related peers))
        ∷ []

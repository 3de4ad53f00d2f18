-- ===== src/Membership/Rounds.antt =====
-- `pushRound`, `pullRound`, `updateRound` and `probePeerRound`. What they draw at random is an
-- argument; `none` is a panic, such as the type assertion on an element that is not there.
use gossip_protocol.Base.{
  ℕ, suc, ◌&&◌, ◌||◌, Bool, Option, none, some, List, [], ◌∷◌, map, slice_to, min, leb, ltb,
  if◌then◌else◌, ◌>>=◌, keys,
}
use gossip_protocol.Datastruct.IndexedMap
use gossip_protocol.Datastruct.IndexedSet
use gossip_protocol.Datastruct.IndexedSet.{IndexedSet}
use gossip_protocol.Datastruct.SetType
use gossip_protocol.Datastruct.SetType.{empty_set}
use gossip_protocol.Message.{
  Peer, Peer-Comparable, MembershipPushRequest, membership_push_request_msg,
  membership_push_request_pointer, membership_pull_request_msg, probe_peer_request_msg, peer_value,
}
use gossip_protocol.Membership.State.{Float64, MembershipController, message, send}
use gossip_protocol.Membership.Request.{new_push_request}
use gossip_protocol.Membership.ViewList.{replace_view_list}

-- What one round draws: `rand.Perm` at each of its calls, and for the peer at each place of the list
-- of indexes the `rand.Float64`, the nonce and the time.
pub record Draws (F : Type 0) : Type 0 where
  pub push_perm : ℕ → List ℕ
  pub pull_perm : ℕ → List ℕ
  pub replies_perm : ℕ → List ℕ
  pub samples_perm : ℕ → List ℕ
  pub float : ℕ → F
  pub nonce : ℕ → ℕ
  pub now : ℕ → ℕ

-- A request that was made is sent; an error is passed over.
unfoldable pub push_made :
    {F : Type 0} → Option MembershipPushRequest → MembershipController F → MembershipController F
unfolding send message
push_made none c = c
push_made (some push_req) c =
    send (message membership_push_request_msg (membership_push_request_pointer push_req) ∷ []) c

-- `1.0 - (1.0-p)*0.9`
unfoldable pub raise_probability : {F : Type 0} → Float64 F → F → F
raise_probability float64 p =
    float64.subtract float64.one_point
      (float64.multiply (float64.subtract float64.one_point p) float64.nine_tenths)

module _ {F : Type 0} (float64 : Float64 F) (hash : ℕ → MembershipPushRequest → Option ℕ) where
  -- A push request for the peer at the index `i`, the one that is drawn as number `n`.
  unfoldable pub push_to :
      Draws F → ℕ → ℕ → MembershipController F → Option (MembershipController F)
  unfolding new_push_request push_made
  push_to draws n i c = do
    remote_peer ← IndexedSet.elem_at_index i c.view_list
    made ←
        new_push_request hash (record { addr = c.p2p_addr }) remote_peer c.pow_config.hardness
          c.pow_config.repetition (draws.now n) (draws.nonce n)
    some (push_made made c)

  unfoldable pub push_all :
      Draws F → ℕ → List ℕ → MembershipController F → Option (MembershipController F)
  unfolding push_to
  push_all draws n [] c = some c
  push_all draws n (i ∷ is) c = do
    c' ← if float64.at_most (draws.float n) c.push_probability then push_to draws n i c else some c
    push_all draws (suc n) is c'

  unfoldable pub push_round : Draws F → MembershipController F → Option (MembershipController F)
  unfolding push_all raise_probability slice_to
  push_round draws c = do
    let size = IndexedSet.len c.view_list
    push_indexes ← slice_to (min c.alpha_size size) (draws.push_perm size)
    c' ← push_all draws 0 push_indexes c
    some (record c' { push_probability = raise_probability float64 c'.push_probability })

-- The three loops of `updateRound` that fill the new list.
unfoldable pub add_peers : List Peer → IndexedSet Peer → IndexedSet Peer
add_peers [] s = s
add_peers (peer ∷ peers) s = add_peers peers (IndexedSet.add peer s)

unfoldable pub add_indexed : (ℕ → Option Peer) → List ℕ → IndexedSet Peer → Option (IndexedSet Peer)
add_indexed at [] s = some s
add_indexed at (i ∷ is) s = do peer ← at i; add_indexed at is (IndexedSet.add peer s)

module _ {F : Type 0} where
  unfoldable pub pull_from : List ℕ → MembershipController F → Option (MembershipController F)
  unfolding send message
  pull_from [] c = some c
  pull_from (i ∷ is) c = do
    peer ← IndexedSet.elem_at_index i c.view_list
    pull_from is (
        send (message membership_pull_request_msg (peer_value peer) ∷ [])
          (record c { pull_peers = SetType.add peer c.pull_peers }))

  unfoldable pub pull_round : Draws F → MembershipController F → Option (MembershipController F)
  unfolding pull_from slice_to
  pull_round draws c = do
    let size = IndexedSet.len c.view_list
    pull_indexes ← slice_to (min c.beta_size size) (draws.pull_perm size)
    pull_from pull_indexes (record c { pull_peers = empty_set })

  unfoldable pub new_view_list : Draws F → MembershipController F → Option (IndexedSet Peer)
  unfolding add_peers add_indexed slice_to
  new_view_list draws c = do
    let pushed = add_peers (SetType.elements c.push_requests) IndexedSet.new
    let replies = IndexedSet.len c.pull_replies
    pull_indexes ← slice_to (min c.beta_size replies) (draws.replies_perm replies)
    pulled ← add_indexed (λ i. IndexedSet.elem_at_index i c.pull_replies) pull_indexes pushed
    let samples = IndexedMap.len c.sample_list
    sample_indexes ← slice_to (min c.gamma_size samples) (draws.samples_perm samples)
    add_indexed (λ i. IndexedMap.key_at_index i c.sample_list) sample_indexes pulled

  -- The condition of `updateRound`.
  abbrev pub is_update_due : MembershipController F → Bool
  is_update_due c =
      leb (SetType.set_len c.push_requests) c.alpha_size
      && (ltb 0 (SetType.set_len c.push_requests) || ltb 0 (IndexedSet.len c.pull_replies))

  unfoldable pub update_round : Draws F → MembershipController F → Option (MembershipController F)
  unfolding new_view_list replace_view_list
  update_round draws c =
      if is_update_due c
      then (do list ← new_view_list draws c; replace_view_list list c)
      else some c

  unfoldable pub probe_peer_round : MembershipController F → MembershipController F
  unfolding send message
  probe_peer_round c =
      send (map (λ peer. message probe_peer_request_msg (peer_value peer)) (keys c.sample_list.m)) c

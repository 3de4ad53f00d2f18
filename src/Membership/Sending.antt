-- ===== src/Membership/Sending.antt =====
-- Push and pull rounds read no index out of range; they send messages that add or remove no peer, and
-- change nothing else but the probability and the peers that are asked.
use gossip_protocol.Base.{
  ℕ, zero, suc, ◌≤◌, ◌<◌, ◌≡◌, ◌≢◌, refl, sym, ap, ◌∙◌, Bool, Option, none, some, List, [], ◌∷◌,
  ◌++◌, length, take, slice_to-take, min, All, All-append, arith, get_elem?_lt, Bool-cases,
  Option-cases, inl, inr, ◌>>=◌,
}
use mathlib.Core.List.{append_assoc, append-nil}
use gossip_protocol.Datastruct.IndexedSet
use gossip_protocol.Datastruct.SetType
use gossip_protocol.Datastruct.SetType.{SetOf, empty_set}
use gossip_protocol.Message.{
  Peer, Peer-Comparable, MembershipPushRequest, InternalMessage, membership_push_request_msg,
  membership_push_request_pointer, membership_pull_request_msg, peer_value,
}
use gossip_protocol.Membership.State.{Float64, MembershipController, message, send}
use gossip_protocol.Membership.Request.{pow_threshold, new_push_request}
use gossip_protocol.Membership.Rounds.{
  Draws, push_to, push_all, push_round, pull_from, pull_round, raise_probability, push_made,
}
use gossip_protocol.Membership.Notices.{told, told-append, kept_after}

-- Messages that add no peer and remove none.
abbrev pub IsQuiet : List InternalMessage → Type 0
IsQuiet ms = (j : Peer) (b : Bool) → told j b ms ≡ b

IsQuiet-append : (xs ys : List InternalMessage) → IsQuiet xs → IsQuiet ys → IsQuiet (xs ++ ys)
IsQuiet-append xs ys p q j b = told-append j b xs ys ∙ q j (told j b xs) ∙ p j b

IsQuiet-pull : (peer : Peer) → IsQuiet (message membership_pull_request_msg (peer_value peer) ∷ [])
unfolding told kept_after message
IsQuiet-pull peer j b = refl

-- The messages of a push round and those of a pull round.
abbrev pub IsPush : InternalMessage → Type 0
IsPush m =
    (pr : MembershipPushRequest) × (m
      ≡ record { type = membership_push_request_msg; payload = membership_push_request_pointer pr })

abbrev pub IsPull : InternalMessage → Type 0
IsPull m = (p : Peer) × (m ≡ record { type = membership_pull_request_msg; payload = peer_value p })

-- What `rand.Perm` promises: as many indexes as it is asked for, each below that number.
pub record IsPerm (perm : ℕ → List ℕ) : Type 0 where
  pub sizes : (n : ℕ) → length (perm n) ≡ n
  pub below : (n : ℕ) → All (λ i. i < n) (perm n)

pub take-All {ℓ} :
    {A : Type 0} (P : A → Type ℓ) (n : ℕ) (xs : List A) → All P xs → All P (take n xs)
take-All P zero xs h = tt
take-All P (suc n) [] h = tt
take-All P (suc n) (x ∷ xs) h = (h.0, take-All P n xs h.1)

pub length-take-le : {A : Type 0} (n : ℕ) (xs : List A) → length (take n xs) ≤ n
length-take-le zero xs = omega arith
length-take-le (suc n) [] = omega arith
length-take-le (suc n) (x ∷ xs) = omega (arith, length-take-le n xs)

module _ {F : Type 0} where
  pub send-nil : (c : MembershipController F) → send [] c ≡ c
  unfolding send
  send-nil c = ap (λ q. record c { msg_out_queue = q }) (append-nil c.msg_out_queue)

  pub send-send :
      (xs ys : List InternalMessage) (c : MembershipController F)
      → send ys (send xs c) ≡ send (xs ++ ys) c
  unfolding send
  send-send xs ys c = ap (λ q. record c { msg_out_queue = q }) (append_assoc c.msg_out_queue xs ys)

  -- A step that only sends, and nothing that adds or removes a peer.
  pub record Sends (P : InternalMessage → Type 0) (o : Option (MembershipController F))
      (c : MembershipController F) : Type 0 where
    pub sent : List InternalMessage
    pub result : o ≡ some (send sent c)
    pub quiet : IsQuiet sent
    pub kind : All P sent

  -- A step that sends, and then a step that sends.
  Sends-append :
      (P : InternalMessage → Type 0) (f : MembershipController F → Option (MembershipController F))
      (o : Option (MembershipController F)) (c : MembershipController F)
      → (first : Sends P o c) → Sends P (f (send first.sent c)) (send first.sent c)
      → Sends P (o >>= f) c
  Sends-append P f o c first second = record {
    sent = first.sent ++ second.sent;
    result = rw (first.result) (second.result ∙ ap some (send-send first.sent second.sent c));
    quiet = IsQuiet-append first.sent second.sent first.quiet second.quiet;
    kind = All-append P first.sent second.sent first.kind second.kind;
  }

  Sends-nil : (P : InternalMessage → Type 0) (c : MembershipController F) → Sends P (some c) c
  unfolding told
  Sends-nil P c = record {
    sent = [];
    result = ap some (sym (send-nil c));
    quiet = λ j b. refl;
    kind = tt;
  }

module _ {F : Type 0} (float64 : Float64 F) (hash : ℕ → MembershipPushRequest → Option ℕ) where
  push_made-Sends :
      (o : Option MembershipPushRequest) (c : MembershipController F)
      → Sends IsPush (some (push_made o c)) c
  unfolding push_made told kept_after message
  push_made-Sends none c = Sends-nil IsPush c
  push_made-Sends (some pr) c = record {
    sent = message membership_push_request_msg (membership_push_request_pointer pr) ∷ [];
    result = refl;
    quiet = λ j b. refl;
    kind = ((pr, refl), tt);
  }

  -- The proof of work panics only for a repetition of 0.
  new_push_request-total :
      (from to : Peer) (hardness repetition now nonce : ℕ)
      → repetition ≢ 0
      → (o : Option MembershipPushRequest) × (new_push_request hash from to hardness repetition now
            nonce
          ≡ some o)
  unfolding new_push_request pow_threshold
  new_push_request-total from to hardness repetition now nonce w =
      elim (Option-cases (new_push_request hash from to hardness repetition now nonce)) [
        | inl e ↦ absurd (ground arith)
        | inr r ↦ r
      ]

  push_to-Sends :
      (draws : Draws F) (n i : ℕ) (c : MembershipController F)
      → i < IndexedSet.len c.view_list
      → c.pow_config.repetition ≢ 0
      → Sends IsPush (push_to float64 hash draws n i c) c
  unfolding push_to
  push_to-Sends draws n i c h w =
      let (peer, at) = get_elem?_lt c.view_list.elem_list i h in
      let (o, made) =
        new_push_request-total (record { addr = c.p2p_addr }) peer c.pow_config.hardness
          c.pow_config.repetition (draws.now n) (draws.nonce n) w in
      rw (at, made) (push_made-Sends o c)

  push_all-Sends :
      (draws : Draws F) (n : ℕ) (is : List ℕ) (c : MembershipController F)
      → All (λ i. i < IndexedSet.len c.view_list) is
      → c.pow_config.repetition ≢ 0
      → Sends IsPush (push_all float64 hash draws n is c) c
  unfolding push_all
  push_all-Sends draws n [] c h w = Sends-nil IsPush c
  push_all-Sends draws n (i ∷ is) c h w =
      elim (Bool-cases (float64.at_most (draws.float n) c.push_probability)) [
        | inl yes_ ↦ rw yes_ (
            let first = push_to-Sends draws n i c h.0 w in
            Sends-append IsPush (push_all float64 hash draws (suc n) is)
              (push_to float64 hash draws n i c) c first
              (push_all-Sends draws (suc n) is (send first.sent c) (unfold send in h.1)
                (unfold send in w)))
        | inr no_ ↦ rw no_ (push_all-Sends draws (suc n) is c h.1 w)
      ]

  -- What a push round leaves, but for the messages: only the probability.
  pub push_round-Sends :
      (draws : Draws F) (c : MembershipController F)
      → IsPerm draws.push_perm
      → c.pow_config.repetition ≢ 0
      → Sends IsPush
          (push_round float64 hash draws c)
          (record c { push_probability = raise_probability float64 c.push_probability })
  unfolding push_round send
  push_round-Sends draws c p w =
      let size = IndexedSet.len c.view_list in
      let fits =
        slice_to-take (min c.alpha_size size) (draws.push_perm size)
          (omega (arith, p.sizes size)) in
      let all =
        push_all-Sends draws 0 (take (min c.alpha_size size) (draws.push_perm size)) c
          (take-All (λ i. i < size) (min c.alpha_size size) (draws.push_perm size) (p.below size))
          w in
      record {
        sent = all.sent;
        result = rw (fits, push_round) (rw (all.result) refl);
        quiet = all.quiet;
        kind = all.kind;
      }

module _ {F : Type 0} where
  pull_from-Sends :
      (is : List ℕ) (c : MembershipController F)
      → All (λ i. i < IndexedSet.len c.view_list) is
      → (asked : SetOf Peer) × Sends IsPull (pull_from is c) (record c { pull_peers = asked })
  unfolding pull_from
  pull_from-Sends [] c h = (c.pull_peers, Sends-nil IsPull c)
  pull_from-Sends (i ∷ is) c h =
      let (peer, at) = get_elem?_lt c.view_list.elem_list i h.0 in
      let m = message membership_pull_request_msg (peer_value peer) in
      let c' = send (m ∷ []) (record c { pull_peers = SetType.add peer c.pull_peers }) in
      let (asked, rest) = pull_from-Sends is c' (unfold send in h.1) in
      (
        asked,
        record {
          sent = m ∷ rest.sent;
          result =
              rw (at, pull_from)
                (rest.result
                  ∙ ap some (send-send (m ∷ []) rest.sent (record c { pull_peers = asked })));
          quiet = IsQuiet-append (m ∷ []) rest.sent (IsQuiet-pull peer) rest.quiet;
          kind = ((peer, unfold message in refl), rest.kind);
        },
      )

  pub pull_round-Sends :
      (draws : Draws F) (c : MembershipController F)
      → IsPerm draws.pull_perm
      → (asked : SetOf Peer) × Sends IsPull (pull_round draws c) (record c { pull_peers = asked })
  unfolding pull_round
  pull_round-Sends draws c p =
      let size = IndexedSet.len c.view_list in
      rw (slice_to-take (min c.beta_size size) (draws.pull_perm size) (omega (arith, p.sizes size)))
        (pull_from-Sends (take (min c.beta_size size) (draws.pull_perm size))
          (record c { pull_peers = empty_set })
          (take-All (λ i. i < size) (min c.beta_size size) (draws.pull_perm size) (p.below size)))

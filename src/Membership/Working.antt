-- ===== src/Membership/Working.antt =====
-- Push requests between two controllers: one that is made is accepted, and what is accepted has done
-- the work.
use gossip_protocol.Base.{
  ℕ, zero, suc, ◌+◌, ◌*◌, ◌%◌, ◌^◌, ◌≤◌, ◌<◌, ◌≡◌, ◌≢◌, ◌↔◌, ◌⊎◌, ◌==◌, if_pos, if_neg, ◌/◌, ◌-◌,
  refl, sym, ap, ◌∙◌, Bool, true, false, ◌&&◌, Option, none, some, some_cancel, leb, leb→le, arith,
  Bool-cases, Option-cases, inl, inr, >>=-eq-some, if◌then◌else◌,
}
use gossip_protocol.Datastruct.SetType
use gossip_protocol.Datastruct.SetType.{is_member-add}
use gossip_protocol.Message.{Peer, Peer-Comparable, Peer-discrete, MembershipPushRequest}
use gossip_protocol.Membership.State.{MembershipController}
use gossip_protocol.Membership.Request.{pow_threshold, try_nonces, new_push_request, next_nonce}
use gossip_protocol.Membership.Handlers.{Outside, take_push_request, is_for_us, has_worked}

module _ (hash : ℕ → MembershipPushRequest → Option ℕ) where
  -- What the loop returns names the same peers and time, and its hash is within the threshold.
  record Worked (hardness k : ℕ) (pr done : MembershipPushRequest) : Type 0 where
    same_from : done.from ≡ pr.from
    same_to : done.to ≡ pr.to
    same_when : done.when ≡ pr.when
    value : ℕ
    hashes : hash hardness done ≡ some value
    small : value ≤ k

  try_nonces-Worked :
      (left hardness k : ℕ) (pr done : MembershipPushRequest)
      → try_nonces hash left hardness k pr ≡ some done
      → Worked hardness k pr done
  unfolding try_nonces
  try_nonces-Worked zero hardness k pr done e = cc
  try_nonces-Worked (suc left) hardness k pr done e = elim (Option-cases (hash hardness pr)) [
    | inl error ↦ absurd (ground (arith, error, e))
    | inr (v, h) ↦ elim (Bool-cases (leb v k)) [
      | inl small ↦
          let same : pr ≡ done = ground (arith, h, small, e) in
          record {
            same_from = ap (λ r. r.from) (sym same);
            same_to = ap (λ r. r.to) (sym same);
            same_when = ap (λ r. r.when) (sym same);
            value = v;
            hashes = ap (hash hardness) (sym same) ∙ h;
            small = leb→le v k small;
          }
      | inr large ↦
          let ih =
            try_nonces-Worked left hardness k (next_nonce pr) done (ground (arith, h, large, e)) in
          record {
            same_from = ih.same_from;
            same_to = ih.same_to;
            same_when = ih.same_when;
            value = ih.value;
            hashes = ih.hashes;
            small = ih.small;
          }
    ]
  ]

  -- The request whose nonce is `i` higher, as a `uint64`.
  abbrev pub nonces_later : ℕ → MembershipPushRequest → MembershipPushRequest
  nonces_later i pr = record pr { nonce = (pr.nonce + i) % 2 ^ 64 }

  nonces_later-zero : (pr : MembershipPushRequest) → pr.nonce < 2 ^ 64 → nonces_later 0 pr ≡ pr
  nonces_later-zero pr h = ap (λ n. record pr { nonce = n }) (omega arith)

  nonces_later-suc :
      (i : ℕ) (pr : MembershipPushRequest)
      → nonces_later i (next_nonce pr) ≡ nonces_later (suc i) pr
  nonces_later-suc i pr = ap (λ n. record pr { nonce = n }) (omega arith)

  -- From a nonce that is a `uint64` on the loop finds a request, if one of the nonces that it has time
  -- for, counted up from the first one and wrapping around, hashes within the threshold, and no hash
  -- is an error.
  pub try_nonces-finds :
      (i left hardness k value : ℕ) (pr : MembershipPushRequest)
      → i < left
      → pr.nonce < 2 ^ 64
      → ((r : MembershipPushRequest) → hash hardness r ≢ none)
      → hash hardness (nonces_later i pr) ≡ some value
      → value ≤ k
      → try_nonces hash left hardness k pr ≢ none
  unfolding try_nonces
  try_nonces-finds i zero hardness k value pr h w total e small = absurd (omega arith)
  try_nonces-finds zero (suc left) hardness k value pr h w total e small =
      let first : hash hardness pr ≡ some value =
        ap (hash hardness) (sym (nonces_later-zero pr w)) ∙ e in
      ground (arith, first)
  try_nonces-finds (suc i) (suc left) hardness k value pr h w total e small =
      elim (Option-cases (hash hardness pr)) [
        | inl error ↦ absurd (total pr error)
        | inr (v, now) ↦ elim (Bool-cases (leb v k)) [
          | inl at_once ↦ ground (arith, now, at_once)
          | inr later ↦ ground (
            arith,
            now,
            later,
            try_nonces-finds i left hardness k value (next_nonce pr) (omega arith) (omega arith)
                total (ap (hash hardness) (nonces_later-suc i pr) ∙ e) small,
          )
        ]
      ]

module _ {F : Type 0} (outside : Outside F) where
  is_for_us-true :
      (now : ℕ) (pr : MembershipPushRequest) (c : MembershipController F)
      → now ≤ pr.when + c.pow_config.validity_duration
      → pr.to.addr ≡ c.p2p_addr
      → is_for_us outside now pr c ≡ true
  is_for_us-true now pr c young ours = ground arith

  accept :
      (k : ℕ) (pr : MembershipPushRequest) (c : MembershipController F) (from : Peer)
      → has_worked outside k pr c ≡ true
      → outside.is_valid_addr pr.from.addr ≡ true
      → pr.from ≡ from
      → ◌≡◌ {A = Option (MembershipController F)}
          (some (
            if has_worked outside k pr c && outside.is_valid_addr pr.from.addr
            then record c { push_requests = SetType.add pr.from c.push_requests }
            else c))
          (some (record c { push_requests = SetType.add from c.push_requests }))
  accept k pr c from done valid same =
      rw (done, valid)
        (ap (λ p. some (record c { push_requests = SetType.add p c.push_requests })) same)

  -- A request that a controller with the same settings made for `c` is accepted by `c`, while it is
  -- valid and if the address of its maker is.
  pub new_push_request-accepted :
      (from to : Peer) (now later nonce : ℕ) (pr : MembershipPushRequest)
      (c : MembershipController F)
      → new_push_request outside.hash from to c.pow_config.hardness c.pow_config.repetition now
          nonce
        ≡ some (some pr)
      → to.addr ≡ c.p2p_addr
      → later ≤ now + c.pow_config.validity_duration
      → outside.is_valid_addr from.addr ≡ true
      → take_push_request outside later pr c
        ≡ some (record c { push_requests = SetType.add from c.push_requests })
  unfolding new_push_request take_push_request
  new_push_request-accepted from to now later nonce pr c made ours young valid =
      let start : MembershipPushRequest = record {
        from = from;
        to = to;
        when = now;
        nonce = nonce;
      } in
      let rounds = (2 * c.pow_config.repetition) % 2 ^ 64 in
      let (k, threshold, found) =
        >>=-eq-some (pow_threshold c.pow_config.repetition 256)
          (λ k. some (try_nonces outside.hash rounds c.pow_config.hardness k start)) made in
      let w =
        try_nonces-Worked outside.hash rounds c.pow_config.hardness k start pr
          (some_cancel found) in
      let addressed : is_for_us outside later pr c ≡ true =
        is_for_us-true later pr c (omega (arith, w.same_when))
          (ap (λ p. p.addr) w.same_to ∙ ours) in
      let done : has_worked outside k pr c ≡ true = ground (arith, w.hashes, w.small) in
      let from_valid : outside.is_valid_addr pr.from.addr ≡ true =
        ap (λ p. outside.is_valid_addr p.addr) w.same_from ∙ valid in
      rw (addressed, take_push_request, threshold) (accept k pr c from done from_valid w.same_from)

  -- What a request must be for `c` to take it: young, addressed to `c`, worked for, and from a valid
  -- address.
  pub record IsAccepted (now : ℕ) (pr : MembershipPushRequest) (c : MembershipController F)
      : Type 0 where
    pub young : now ≤ pr.when + c.pow_config.validity_duration
    pub ours : pr.to.addr ≡ c.p2p_addr
    pub value : ℕ
    pub hashes : outside.hash c.pow_config.hardness pr ≡ some value
    pub small : value ≤ (2 ^ 256 - 1) / c.pow_config.repetition
    pub valid : outside.is_valid_addr pr.from.addr ≡ true

  abbrev tests : ℕ → ℕ → MembershipPushRequest → MembershipController F → Bool
  tests now k pr c =
      is_for_us outside now pr c
      && (has_worked outside k pr c && outside.is_valid_addr pr.from.addr)

  IsAccepted-tests :
      (now k : ℕ) (pr : MembershipPushRequest) (c : MembershipController F)
      → k ≡ (2 ^ 256 - 1) / c.pow_config.repetition
      → IsAccepted now pr c
      → tests now k pr c ≡ true
  IsAccepted-tests now k pr c e a =
      let done : has_worked outside k pr c ≡ true = ground (arith, a.hashes, a.small, e) in
      let addressed = is_for_us-true now pr c a.young a.ours in rw (addressed, done) (a.valid)

  tests-IsAccepted :
      (now k : ℕ) (pr : MembershipPushRequest) (c : MembershipController F)
      → k ≡ (2 ^ 256 - 1) / c.pow_config.repetition
      → tests now k pr c ≡ true
      → IsAccepted now pr c
  tests-IsAccepted now k pr c e t = elim (Option-cases (outside.hash c.pow_config.hardness pr)) [
    | inl error ↦ absurd (ground (arith, error, t))
    | inr (v, h) ↦
        let small : leb v k ≡ true = ground (arith, h, t) in
        record {
          young = ground (arith, t);
          ours = ground (arith, t);
          value = v;
          hashes = h;
          small = omega (arith, leb→le v k small, e);
          valid = ground (arith, t);
        }
  ]

  joined :
      (ok : Bool) (from : Peer) (c : MembershipController F) (j : Peer)
      → (SetType.is_member j
            (if ok
              then record c { push_requests = SetType.add from c.push_requests }
              else c).push_requests
          ≡ true)
        ↔ ((SetType.is_member j c.push_requests ≡ true) ⊎ ((from ≡ j) × (ok ≡ true)))
  joined true from c j = elim (Peer-discrete from j) [
    | yes same ↦ (
      λ h. inr (same, refl),
      λ h. is_member-add from j c.push_requests ∙ if_pos (Peer-discrete from j) same _ _,
    )
    | no other ↦
        let kept = is_member-add from j c.push_requests ∙ if_neg (Peer-discrete from j) other _ _ in
        (
          λ h. inl (sym kept ∙ h),
          λ h. elim h [ inl old ↦ kept ∙ old | inr new ↦ absurd (other (new.0)) ],
        )
  ]
  joined false from c j =
      (λ h. inl h, λ h. elim h [ inl old ↦ old | inr new ↦ absurd (ground (arith, new.1)) ])

  -- With a repetition other than 0 a push request never panics. Its maker joins the push requests
  -- exactly if the request is young, names this controller's address, hashes to at most
  -- (2^256 - 1)/repetition, and comes from a valid address; and nobody else joins or leaves them.
  pub take_push_request-members :
      (now : ℕ) (pr : MembershipPushRequest) (c : MembershipController F)
      → c.pow_config.repetition ≢ 0
      → (d : MembershipController F) × (take_push_request outside now pr c ≡ some d)
        × ((j : Peer)
            → (SetType.is_member j d.push_requests ≡ true) ↔ (
                (SetType.is_member j c.push_requests ≡ true)
                ⊎ ((pr.from ≡ j) × IsAccepted now pr c)))
  unfolding take_push_request pow_threshold
  take_push_request-members now pr c w =
      let k = (2 ^ 256 - 1) / c.pow_config.repetition in
      let zero_test : (c.pow_config.repetition == 0) ≡ false = ground (arith, w) in
      let d =
        if tests now k pr c
        then record c { push_requests = SetType.add pr.from c.push_requests }
        else c in
      (
        d,
        elim (Bool-cases (is_for_us outside now pr c)) [
          | inr other ↦ rw (other, take_push_request) refl
          | inl ours ↦ rw (ours, take_push_request, zero_test, pow_threshold) refl
        ],
        λ j.
            let both = joined (tests now k pr c) pr.from c j in
            (
              λ h. elim (both.0 h) [
                | inl old ↦ inl old
                | inr new ↦ inr (new.0, tests-IsAccepted now k pr c refl (new.1))
              ],
              λ h. both.1 (elim h [
                | inl old ↦ inl old
                | inr new ↦ inr (new.0, IsAccepted-tests now k pr c refl (new.1))
              ]),
            ),
      )

-- ===== src/Membership/Runs.antt =====
-- What holds of the Membership controller from `NewMembershipController` on, whatever it receives.
use gossip_protocol.Base.{
  weigh, ℕ, ◌+◌, ◌^◌, ◌≤◌, ◌<◌, ◌≡◌, sym, ◌∙◌, subst, false, Option, some, some_cancel, arith,
  Bytes, Bool-cases, inl, inr,
}
use gossip_protocol.Datastruct.IndexedMap
use gossip_protocol.Datastruct.IndexedSet
use gossip_protocol.Datastruct.IndexedSet.{new-IsListed, is_member-new}
use gossip_protocol.Datastruct.IndexedMap.{new-IsIndexed}
use gossip_protocol.Message.{Peer, Peer-Comparable, InternalMessageType, AnyMessage, HandlerError}
use gossip_protocol.Membership.State.{MembershipController}
use gossip_protocol.Membership.Rounds.{Draws}
use gossip_protocol.Membership.Handlers.{
  Outside, new_membership_controller, fresh_controller, are_invalid, bootstrap, membership_round,
  dispatch,
}
use gossip_protocol.Membership.Notices.{told}
use gossip_protocol.Membership.Capacity.{held}
use gossip_protocol.Membership.Holding.{new-HaveSets}
use gossip_protocol.Membership.Invariant.{Inv}
use gossip_protocol.Membership.Running.{
  AreFair, IsHandled, Steps, Steps-Inv, bootstrap-Keeps, membership_round-Keeps, dispatch-Handles,
}

module _ {F : Type 0} (outside : Outside F) where
  -- The settings of a new controller: the floors of the two shares are within the capacity, which is
  -- a positive `uint16`, and a `uint32` is what its name says.
  pub record FloatsFit (alpha beta : F) (view_list_cap : ℕ) : Type 0 where
    pub shares_fit :
        (outside.float64).floor_u16
            ((outside.float64).multiply alpha ((outside.float64).of_nat view_list_cap))
          + (outside.float64).floor_u16
              ((outside.float64).multiply beta ((outside.float64).of_nat view_list_cap))
        ≤ view_list_cap
    pub cap_positive : 1 ≤ view_list_cap
    pub cap_small : view_list_cap < 2 ^ 16
    pub u32_small : (x : F) → (outside.float64).to_u32 x < 2 ^ 32

  -- A controller that was made, has started, and has run for some steps.
  pub record Run (alpha beta max_peers : F) (view_list_cap : ℕ) (made now : MembershipController F)
      : Type 0 where
    pub bootstrapper : Bytes
    pub p2p_addr : Bytes
    pub round_duration : ℕ
    pub makes :
        new_membership_controller outside bootstrapper p2p_addr alpha beta round_duration max_peers
          view_list_cap
        ≡ some made
    pub draws : Draws F
    pub fair : AreFair draws
    pub started : MembershipController F
    pub starts : bootstrap outside draws made ≡ some started
    pub steps : Steps outside started now

  fresh-Inv :
      (b p : Bytes) (alpha beta : F) (d : ℕ) (max_peers : F) (cap : ℕ)
      → FloatsFit alpha beta cap
      → Inv
          (fresh_controller outside b p alpha beta d max_peers cap).sample_list_remaining_cap
          (fresh_controller outside b p alpha beta d max_peers cap)
  unfolding fresh_controller
  fresh-Inv b p alpha beta d max_peers cap fits = record {
    view_listed = new-IsListed;
    replies_listed = new-IsListed;
    samples_indexed = new-IsIndexed;
    works = ground arith;
    shares = omega (arith, fits.shares_fit, fits.cap_small);
    room = fits.cap_positive;
    within = unfold IndexedSet.new in omega arith;
    have_sets = new-HaveSets;
    holds = unfold IndexedMap.new weigh in omega arith;
    small = fits.u32_small _;
    agrees = λ j. unfold told in sym (is_member-new j);
  }

  new-Inv :
      (b p : Bytes) (alpha beta : F) (d : ℕ) (max_peers : F) (cap : ℕ) (c : MembershipController F)
      → FloatsFit alpha beta cap
      → new_membership_controller outside b p alpha beta d max_peers cap ≡ some c
      → Inv c.sample_list_remaining_cap c
  unfolding new_membership_controller
  new-Inv b p alpha beta d max_peers cap c fits made =
      elim (Bool-cases (are_invalid outside alpha beta)) [
        | inl bad ↦ absurd (ground (arith, bad, made))
        | inr good ↦
            let fresh = fresh_controller outside b p alpha beta d max_peers cap in
            let same : fresh ≡ c = some_cancel (ground (arith, good, made)) in
            subst (λ x. Inv x.sample_list_remaining_cap x) same
              (fresh-Inv b p alpha beta d max_peers cap fits)
      ]

  module _ (alpha beta max_peers : F) (view_list_cap : ℕ) (made now : MembershipController F)
      (fits : FloatsFit alpha beta view_list_cap)
      (run : Run alpha beta max_peers view_list_cap made now) where
    run-Inv : Inv made.sample_list_remaining_cap now
    run-Inv =
        let v =
          new-Inv run.bootstrapper run.p2p_addr alpha beta run.round_duration max_peers
            view_list_cap made fits run.makes in
        let k = bootstrap-Keeps outside run.draws made run.fair v in
        Steps-Inv outside run.steps (
          subst (λ x. Inv made.sample_list_remaining_cap x)
            (some_cancel (sym k.result ∙ run.starts)) k.inv)

    -- At any time of a run the view list has at most `viewListCap` peers.
    pub view_list_within : IndexedSet.len now.view_list ≤ now.view_list_cap
    view_list_within = run-Inv.within

    -- At any time of a run, and for every peer, the messages that were sent to the Central controller
    -- have it keep the peer exactly if the peer is in the view list.
    pub notices_agree :
        (j : Peer) → told j false now.msg_out_queue ≡ IndexedSet.is_member j now.view_list
    notices_agree = run-Inv.agrees

    -- At any time of a run the samplers that are held and the remaining capacity for samplers are at
    -- most as many as the capacity of the new controller.
    pub samplers_within :
        held now.sample_list + now.sample_list_remaining_cap ≤ made.sample_list_remaining_cap
    samplers_within = run-Inv.holds

    -- At any time of a run a round ends without a panic, for any fair draws and any keys.
    pub round_returns :
        (draws : Draws F) (draw_key : ℕ → Option Bytes)
        → AreFair draws
        → (after : MembershipController F) × (membership_round outside draws draw_key now
            ≡ some after)
    round_returns draws draw_key fair =
        let k = membership_round-Keeps outside draws draw_key now fair run-Inv in
        (k.after, k.result)

    -- At any time of a run a message of a type with a handler is handled without a panic, whatever its
    -- payload.
    pub message_returns :
        (time : ℕ) (t : InternalMessageType) (payload : AnyMessage)
        → IsHandled t
        → (after : MembershipController F) × (err : HandlerError) × (dispatch outside time t payload
              now
            ≡ some (after, err))
    message_returns time t payload h =
        let k = dispatch-Handles outside time t payload now h run-Inv in
        (k.after, k.error, k.result)

-- ===== src/Central/Agreement.antt =====
-- The Membership controller and the Central controller together: a new view list of the one is what the
-- other wants, once it has handled the messages.
use gossip_protocol.Base.{
  ℕ, ◌≡◌, ◌≢◌, refl, sym, ap, ◌∙◌, false, Option, some, List, [], ◌∷◌, ◌++◌, All, arith,
}
use gossip_protocol.Datastruct.IndexedSet
use gossip_protocol.Datastruct.IndexedSet.{IndexedSet, IsListed}
use gossip_protocol.Message.{
  Peer, Peer-Comparable, InternalMessage, MembershipPushRequest, membership_push_request_msg,
  membership_push_request_pointer,
}
use gossip_protocol.Membership.State.{Float64, MembershipController, send}
use gossip_protocol.Membership.ViewList.{replace_view_list}
use gossip_protocol.Membership.Notices.{told}
use gossip_protocol.Membership.Replacing.{told_of, replaced}
use gossip_protocol.Membership.Rounds.{Draws, push_round}
use gossip_protocol.Membership.Sending.{IsPush, IsPerm, push_round-Sends}
use gossip_protocol.Central.State.{Central, returns}
use gossip_protocol.Central.Dispatch.{turn, dispatch}
use gossip_protocol.Central.Forward.{membership_push_request_handler}
use gossip_protocol.Central.Following.{wanted, AreApart, deliver, deliver-wanted}

-- If the Central controller wants just the peers of the view list, then `replaceViewList` returns, and
-- once the Central controller, which is not stopping, has handled the messages that were sent, it
-- wants just the peers of the new view list.
pub replace_view_list-wanted :
    {F : Type 0} (perm : ℕ → List ℕ) (list : IndexedSet Peer) (m : MembershipController F)
    (c : Central)
    → IsListed list
    → IsListed m.view_list
    → AreApart c
    → c.is_stopping ≡ false
    → ((j : Peer) → wanted j c ≡ IndexedSet.is_member j m.view_list)
    → (m' : MembershipController F) × (sent : List InternalMessage) × (d : Central)
      × (replace_view_list list m ≡ some m')
      × (m'.msg_out_queue ≡ m.msg_out_queue ++ sent)
      × (deliver perm sent c ≡ some d)
      × ((j : Peer) → wanted j d ≡ IndexedSet.is_member j list)
      × ((j : Peer) → IndexedSet.is_member j m'.view_list ≡ IndexedSet.is_member j list)
replace_view_list-wanted perm list m c l w a s agree =
    let r = replaced list m l w in
    let (d, delivered, wants) = deliver-wanted perm r.removed_then_added c a s in
    (
      told_of r.view r.notices m,
      r.notices,
      d,
      r.result,
      refl,
      ap (λ ms. deliver perm ms c) r.each_names ∙ delivered,
      λ j.
          wants j
          ∙ ap (λ ms. told j (wanted j c) ms) (sym r.each_names)
          ∙ ap (λ b. told j b r.notices) (agree j)
          ∙ r.tells j,
      r.members,
    )

turn-pointer :
    (perm : ℕ → List ℕ) (pr : MembershipPushRequest) (c : Central)
    → turn perm
        (record {
          type = membership_push_request_msg;
          payload = membership_push_request_pointer pr;
        })
        c
      ≡ returns c
unfolding turn dispatch membership_push_request_handler
turn-pointer perm pr c = ground arith

deliver-pushes :
    (perm : ℕ → List ℕ) (ms : List InternalMessage) (c : Central)
    → All IsPush ms
    → deliver perm ms c ≡ some c
unfolding deliver
deliver-pushes perm [] c h = refl
deliver-pushes perm (m ∷ ms) c h =
    let ((pr, e), hs) = h in rw (e, turn-pointer perm pr c) (deliver-pushes perm ms c hs)

-- A push round returns, and the Central controller does nothing at any of the messages that it sends.
pub push_round-ignored :
    {F : Type 0} (float64 : Float64 F) (hash : ℕ → MembershipPushRequest → Option ℕ)
    (draws : Draws F) (m : MembershipController F) (perm : ℕ → List ℕ) (c : Central)
    → IsPerm draws.push_perm
    → m.pow_config.repetition ≢ 0
    → (m' : MembershipController F) × (sent : List InternalMessage) × (push_round float64 hash draws
          m
        ≡ some m')
      × (m'.msg_out_queue ≡ m.msg_out_queue ++ sent)
      × (deliver perm sent c ≡ some c)
unfolding send
push_round-ignored float64 hash draws m perm c fair works =
    let s = push_round-Sends float64 hash draws m fair works in
    (_, s.sent, s.result, refl, deliver-pushes perm s.sent c s.kind)

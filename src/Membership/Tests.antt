-- ===== src/Membership/Tests.antt =====
-- Runs of the Membership controller.
use gossip_protocol.Base.{
  ◌↔◌, ◌⊎◌, lookup, insert, ℕ, ◌+◌, ◌-◌, ◌≤◌, ◌≡◌, ◌≢◌, refl, true, false, Option, none, some, [],
  ◌∷◌, arith, inl,
}
use gossip_protocol.Datastruct.IndexedMap
use gossip_protocol.Datastruct.IndexedSet
use gossip_protocol.Datastruct.IndexedSet.{IndexedSet, IsListed}
use gossip_protocol.Datastruct.SetType
use gossip_protocol.Message.{
  Peer, Peer-Comparable, MembershipPushRequest, HandlerError, peer_disconnected_msg, peer_value,
}
use gossip_protocol.Membership.State.{MembershipController}
use gossip_protocol.Membership.Request.{new_push_request, try_nonces}
use gossip_protocol.Membership.Handlers.{
  fresh_controller, new_membership_controller, bootstrap, membership_round, dispatch,
  take_push_request,
}
use gossip_protocol.Membership.Notices.{told}
use gossip_protocol.Membership.Capacity.{held}
use gossip_protocol.Membership.Running.{Steps, Step}
use gossip_protocol.Membership.World.{world, draws, draws-AreFair, made}
use gossip_protocol.Membership.Runs.{
  FloatsFit, Run, view_list_within, notices_agree, samplers_within, round_returns, message_returns,
}
use gossip_protocol.Membership.Working.{
  new_push_request-accepted, try_nonces-finds, IsAccepted, take_push_request-members,
}

made_sizes : (made.alpha_size ≡ 2) × (made.gamma_size ≡ 1) × (made.sample_list_remaining_cap ≡ 4)
unfolding made
made_sizes = (refl, refl, refl)

abbrev get : Option (MembershipController ℕ) → MembershipController ℕ
get none = fresh_controller world [] [] 0 0 0 0 0
get (some c) = c

abbrev started : MembershipController ℕ
unfolding bootstrap made
started = get (bootstrap world draws made)

abbrev after_round : MembershipController ℕ
unfolding membership_round started
after_round = get (membership_round world draws (λ i. some []) started)

makes : new_membership_controller world (1 ∷ []) (2 ∷ []) 400 400 50 100000 5 ≡ some made
unfolding made new_membership_controller
makes = refl

starts : bootstrap world draws made ≡ some started
unfolding started bootstrap IndexedSet.new IndexedSet.add lookup insert
starts = refl

round : membership_round world draws (λ i. some []) started ≡ some after_round
unfolding after_round membership_round IndexedSet.new IndexedSet.add lookup insert IndexedMap.new
round = refl

fits : FloatsFit world 400 400 5
fits = record {
  shares_fit = omega arith;
  cap_positive = omega arith;
  cap_small = omega arith;
  u32_small = λ x. omega arith;
}

run : Run world 400 400 100000 5 made after_round
run = record {
  bootstrapper = 1 ∷ [];
  p2p_addr = 2 ∷ [];
  round_duration = 50;
  makes = makes;
  draws = draws;
  fair = draws-AreFair;
  started = started;
  starts = starts;
  steps = Steps.more Steps.here (Step.ticks draws (λ i. some []) draws-AreFair round);
}

view_list_within_example : IndexedSet.len after_round.view_list ≤ after_round.view_list_cap
view_list_within_example = view_list_within world 400 400 100000 5 made after_round fits run

notices_agree_example :
    told (record { addr = 1 ∷ [] }) false after_round.msg_out_queue
    ≡ IndexedSet.is_member (record { addr = 1 ∷ [] }) after_round.view_list
notices_agree_example =
    notices_agree world 400 400 100000 5 made after_round fits run (record { addr = 1 ∷ [] })

samplers_within_example :
    held after_round.sample_list + after_round.sample_list_remaining_cap
    ≤ made.sample_list_remaining_cap
samplers_within_example = samplers_within world 400 400 100000 5 made after_round fits run

round_returns_example :
    (after : MembershipController ℕ) × (membership_round world draws (λ i. none) after_round
      ≡ some after)
round_returns_example =
    round_returns world 400 400 100000 5 made after_round fits run draws (λ i. none) draws-AreFair

message_returns_example :
    (after : MembershipController ℕ) × (err : HandlerError) × (dispatch world 120
        peer_disconnected_msg
        (peer_value (record { addr = 1 ∷ [] }))
        after_round
      ≡ some (after, err))
message_returns_example =
    message_returns world 400 400 100000 5 made after_round fits run 120 peer_disconnected_msg
      (peer_value (record { addr = 1 ∷ [] })) (inl refl)

abbrev request : MembershipPushRequest
request = record {
  from = record { addr = 3 ∷ [] };
  to = record { addr = 2 ∷ [] };
  when = 100;
  nonce = 7;
}

request_made :
    new_push_request world.hash
      (record { addr = 3 ∷ [] })
      (record { addr = 2 ∷ [] })
      made.pow_config.hardness
      made.pow_config.repetition
      100
      7
    ≡ some (some request)
unfolding new_push_request made
request_made = refl

new_push_request-accepted_example :
    take_push_request world 120 request made
    ≡ some
        (record made { push_requests = SetType.add (record { addr = 3 ∷ [] }) made.push_requests })
new_push_request-accepted_example =
    new_push_request-accepted world (record { addr = 3 ∷ [] }) (record { addr = 2 ∷ [] }) 100 120 7
      request made request_made (unfold made in refl) (unfold made in omega arith) refl

try_nonces-finds_example : try_nonces (λ h pr. some (9 - pr.nonce)) 3 4 0 request ≢ none
try_nonces-finds_example =
    try_nonces-finds (λ h pr. some (9 - pr.nonce)) 2 3 4 0 0 request (omega arith) (omega arith)
      (λ r e. cc) refl (omega arith)

take_push_request-members_example :
    (d : MembershipController ℕ) × (take_push_request world 151 request made ≡ some d)
    × ((j : Peer)
        → (SetType.is_member j d.push_requests ≡ true) ↔ (
            (SetType.is_member j made.push_requests ≡ true)
            ⊎ ((request.from ≡ j) × IsAccepted world 151 request made)))
take_push_request-members_example =
    take_push_request-members world 151 request made (unfold made in omega arith)

-- The request of these examples is one that is accepted.
request-IsAccepted : IsAccepted world 120 request made
unfolding made
request-IsAccepted = record {
  young = omega arith;
  ours = refl;
  value = 7;
  hashes = refl;
  small = omega arith;
  valid = refl;
}

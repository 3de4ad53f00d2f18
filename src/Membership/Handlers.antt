-- ===== src/Membership/Handlers.antt =====
-- The handlers of the Membership controller, its rounds and its routine. `none` is a panic.
use gossip_protocol.Base.{
  ℕ, ◌+◌, ◌-◌, ◌*◌, ◌%◌, ◌^◌, ◌&&◌, ◌||◌, Bool, true, false, Option, none, some, List, [], ◌∷◌, leb,
  Bytes, Bytes-discrete, ite, if◌then◌else◌, ◌>>=◌,
}
use gossip_protocol.Datastruct.IndexedMap
use gossip_protocol.Datastruct.IndexedSet
use gossip_protocol.Datastruct.IndexedSet.{IndexedSet}
use gossip_protocol.Datastruct.SetType
use gossip_protocol.Datastruct.SetType.{empty_set}
use gossip_protocol.Message.{
  Peer, Peer-Comparable, MembershipPushRequest, AnyMessage, InternalMessageType, HandlerError,
  no_error, close_error, membership_pull_reply_msg, membership_pull_reply, membership_closed_msg,
  membership_crashed_msg, void_value, error_value,
}
use gossip_protocol.Membership.State.{Float64, MembershipController, message, send}
use gossip_protocol.Membership.Request.{pow_threshold}
use gossip_protocol.Membership.ViewList.{replace_view_list, remove_peer}
use gossip_protocol.Membership.Rounds.{
  Draws, push_round, pull_round, update_round, probe_peer_round,
}
use gossip_protocol.Membership.Samples.{update_sample_round}

-- What the controller takes from outside: floating-point numbers, the hash of a push request, the
-- check of an address (`ValidateAddr`), and the two functions of the samplers.
pub record Outside (F : Type 0) : Type 0 where
  pub float64 : Float64 F
  pub hash : ℕ → MembershipPushRequest → Option ℕ
  pub is_valid_addr : Bytes → Bool
  pub sha256 : Bytes → Bytes
  pub crypt_blocks : Bytes → Bytes → Option Bytes

abbrev pub Outcome : Type 0 → Type 0
Outcome F = Option (MembershipController F × HandlerError)

module _ {F : Type 0} where
  abbrev pub returns : MembershipController F → Outcome F
  returns c = some (c, no_error)

  abbrev pub then_return : Option (MembershipController F) → Outcome F
  then_return o = o >>= λ c. returns c

  unfoldable pub peer_disconnected_handler : AnyMessage → MembershipController F → Outcome F
  unfolding remove_peer
  peer_disconnected_handler (AnyMessage.peer_value peer) c = then_return (remove_peer peer c)
  peer_disconnected_handler _ c = returns c

  unfoldable pub probe_peer_reply_handler : AnyMessage → MembershipController F → Outcome F
  unfolding remove_peer
  probe_peer_reply_handler (AnyMessage.probe_peer_reply probed probe_result) c =
      if probe_result then returns c else then_return (remove_peer probed c)
  probe_peer_reply_handler _ c = returns c

  unfoldable pub incoming_pull_request_handler : AnyMessage → MembershipController F → Outcome F
  unfolding send message
  incoming_pull_request_handler (AnyMessage.membership_incoming_pull_request from) c = returns (
      send
        (message membership_pull_reply_msg
            (membership_pull_reply from (IndexedSet.elements c.view_list))
          ∷ [])
        c)
  incoming_pull_request_handler _ c = returns c

  -- The queue that it empties belongs to the routine.
  unfoldable pub close_handler : AnyMessage → MembershipController F → Outcome F
  unfolding send message
  close_handler AnyMessage.void_value c =
      some (send (message membership_closed_msg void_value ∷ []) c, close_error)
  close_handler _ c = returns c

  -- `recover`, which reports the panic to the Central controller.
  unfoldable pub report_crash : Bytes → MembershipController F → MembershipController F
  unfolding send message
  report_crash text c = send (message membership_crashed_msg (error_value text) ∷ []) c

module _ {F : Type 0} (outside : Outside F) where
  -- The first condition: the request is young and names this peer. An age that `time.Sub` saturates
  -- is above any period.
  abbrev pub is_for_us : ℕ → MembershipPushRequest → MembershipController F → Bool
  is_for_us now pr c =
      leb now (pr.when + c.pow_config.validity_duration)
      && ite (Bytes-discrete pr.to.addr c.p2p_addr) true false

  abbrev pub has_worked : ℕ → MembershipPushRequest → MembershipController F → Bool
  has_worked k pr c = elim (outside.hash c.pow_config.hardness pr) [
    | none ↦ false
    | some hash_val ↦ leb hash_val k
  ]

  unfoldable pub take_push_request :
      ℕ → MembershipPushRequest → MembershipController F → Option (MembershipController F)
  unfolding pow_threshold
  take_push_request now pr c =
      if is_for_us now pr c
      then (do
        k ← pow_threshold c.pow_config.repetition 256
        some (
            if has_worked k pr c && outside.is_valid_addr pr.from.addr
            then record c { push_requests = SetType.add pr.from c.push_requests }
            else c))
      else some c

  unfoldable pub incoming_push_request_handler : ℕ → AnyMessage → MembershipController F → Outcome F
  unfolding take_push_request
  incoming_push_request_handler now (AnyMessage.membership_push_request pr) c =
      then_return (take_push_request now pr c)
  incoming_push_request_handler now _ c = returns c

  unfoldable pub add_valid : List Peer → IndexedSet Peer → IndexedSet Peer
  add_valid [] s = s
  add_valid (peer ∷ peers) s =
      add_valid peers (if outside.is_valid_addr peer.addr then IndexedSet.add peer s else s)

  unfoldable pub take_pull_reply :
      Peer → List Peer → MembershipController F → MembershipController F
  unfolding add_valid
  take_pull_reply from view_list c =
      if SetType.is_member from c.pull_peers
      then record c {
        pull_peers = SetType.remove from c.pull_peers;
        pull_replies = add_valid view_list c.pull_replies;
      }
      else c

  unfoldable pub incoming_pull_reply_handler : AnyMessage → MembershipController F → Outcome F
  unfolding take_pull_reply
  incoming_pull_reply_handler (AnyMessage.membership_incoming_pull_reply from view_list) c =
      returns (take_pull_reply from view_list c)
  incoming_pull_reply_handler _ c = returns c

  -- `membershipControllerHandlers`, at the time `now`; the call of a missing handler panics.
  unfoldable pub dispatch :
      ℕ → InternalMessageType → AnyMessage → MembershipController F → Outcome F
  dispatch now InternalMessageType.peer_disconnected_msg a c = peer_disconnected_handler a c
  dispatch now InternalMessageType.probe_peer_reply_msg a c = probe_peer_reply_handler a c
  dispatch now InternalMessageType.membership_incoming_push_request_msg a c =
      incoming_push_request_handler now a c
  dispatch now InternalMessageType.membership_incoming_pull_request_msg a c =
      incoming_pull_request_handler a c
  dispatch now InternalMessageType.membership_incoming_pull_reply_msg a c =
      incoming_pull_reply_handler a c
  dispatch now InternalMessageType.membership_close_msg a c = close_handler a c
  dispatch now _ a c = none

  unfoldable pub membership_round :
      Draws F → (ℕ → Option Bytes) → MembershipController F → Option (MembershipController F)
  unfolding push_round pull_round update_round update_sample_round probe_peer_round
  membership_round draws draw_key c = do
    pushed ← push_round outside.float64 outside.hash draws c
    pulled ← pull_round draws pushed
    updated ← update_round draws pulled
    sampled ← update_sample_round outside.sha256 outside.crypt_blocks draw_key updated
    some (probe_peer_round sampled)

  unfoldable pub bootstrap : Draws F → MembershipController F → Option (MembershipController F)
  unfolding replace_view_list push_round pull_round
  bootstrap draws c = elim c.bootstrapper [
    | [] ↦ some c
    | b ∷ bs ↦ do
      let only = IndexedSet.add (record { addr = c.bootstrapper }) IndexedSet.new
      replaced ← replace_view_list only c
      pushed ←
          push_round outside.float64 outside.hash draws
            (record replaced { push_probability = outside.float64.zero_point })
      pull_round draws pushed
  ]

  -- `alpha <= 0 || beta <= 0 || alpha+beta >= 1`
  abbrev pub are_invalid : F → F → Bool
  are_invalid alpha beta =
      outside.float64.at_most alpha outside.float64.zero_point
      || outside.float64.at_most beta outside.float64.zero_point
      || outside.float64.at_most outside.float64.one_point (outside.float64.plus alpha beta)

  -- The controller that `NewMembershipController` builds. The product of the capacities is a `uint16`.
  unfoldable pub fresh_controller : Bytes → Bytes → F → F → ℕ → F → ℕ → MembershipController F
  fresh_controller bootstrapper p2p_addr alpha beta round_duration max_peers view_list_cap =
      let fl = outside.float64 in
      let alpha_size = fl.floor_u16 (fl.multiply alpha (fl.of_nat view_list_cap)) in
      let beta_size = fl.floor_u16 (fl.multiply beta (fl.of_nat view_list_cap)) in
      record {
        bootstrapper = bootstrapper;
        p2p_addr = p2p_addr;
        alpha_size = alpha_size;
        beta_size = beta_size;
        gamma_size = (view_list_cap + 2 ^ 17 - alpha_size - beta_size) % 2 ^ 16;
        push_probability = fl.zero_point;
        pow_config = record { hardness = 4; repetition = 512; validity_duration = round_duration };
        view_list = IndexedSet.new;
        view_list_cap = view_list_cap;
        sample_list = IndexedMap.new;
        sample_list_remaining_cap =
            fl.to_u32 (fl.divide max_peers (fl.of_nat ((view_list_cap * view_list_cap) % 2 ^ 16)));
        push_requests = empty_set;
        pull_replies = IndexedSet.new;
        pull_peers = empty_set;
        msg_out_queue = [];
        samplers = record {
          at = λ p. record { peer = none; peer_p_val = 0; permuter = [] };
          next = 0;
        };
      }

  -- `NewMembershipController`: `none` is the error.
  unfoldable pub new_membership_controller :
      Bytes → Bytes → F → F → ℕ → F → ℕ → Option (MembershipController F)
  unfolding fresh_controller
  new_membership_controller bootstrapper p2p_addr alpha beta round_duration max_peers
        view_list_cap =
      if are_invalid alpha beta
      then none
      else some
          (fresh_controller bootstrapper p2p_addr alpha beta round_duration max_peers view_list_cap)

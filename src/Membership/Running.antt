-- ===== src/Membership/Running.antt =====
-- The routine of the Membership controller: it starts, and then runs rounds and handles messages in
-- any order, and none of it panics.
use gossip_protocol.Base.{
  ℕ, ◌≡◌, refl, sym, ◌∙◌, subst, Bool, true, false, Option, some, some_cancel, List, [], ◌∷◌, arith,
  Bool-cases, inl, inr, ◌⊎◌, ◌>>=◌, Bytes, if◌then◌else◌, ◌==◌,
}
use gossip_protocol.Datastruct.IndexedSet
use gossip_protocol.Datastruct.IndexedSet.{
  IndexedSet, IsListed, add-IsListed, len-add, new-IsListed,
}
use gossip_protocol.Datastruct.SetType
use gossip_protocol.Message.{
  Peer, Peer-Comparable, MembershipPushRequest, InternalMessage, InternalMessageType, AnyMessage,
  HandlerError, no_error, close_error, peer_disconnected_msg, probe_peer_reply_msg,
  membership_incoming_push_request_msg, membership_incoming_pull_request_msg,
  membership_incoming_pull_reply_msg, membership_close_msg, peer_value, void_value,
  probe_peer_reply, membership_push_request, membership_incoming_pull_request,
  membership_incoming_pull_reply, membership_pull_reply_msg, membership_pull_reply,
  membership_closed_msg,
}
use gossip_protocol.Membership.State.{MembershipController, message, send}
use gossip_protocol.Membership.Request.{pow_threshold}
use gossip_protocol.Membership.ViewList.{replace_view_list}
use gossip_protocol.Membership.Rounds.{Draws, push_round, pull_round}
use gossip_protocol.Membership.Handlers.{
  Outside, Outcome, membership_round, bootstrap, take_push_request, add_valid, take_pull_reply,
  dispatch, peer_disconnected_handler, probe_peer_reply_handler, incoming_push_request_handler,
  incoming_pull_request_handler, incoming_pull_reply_handler, close_handler, then_return, returns,
  is_for_us,
}
use gossip_protocol.Membership.Notices.{told, kept_after}
use gossip_protocol.Membership.Sending.{IsQuiet, IsPerm, push_round-Sends, pull_round-Sends}
use gossip_protocol.Membership.Invariant.{
  Inv, Keeps, send-Inv, Sends-Keeps, replace_view_list-Keeps, update_round-Keeps,
}
use gossip_protocol.Membership.Preserving.{
  then-Keeps, keeps, same-Inv, samples-Inv, probe_peer_round-Inv, update_sample_round-Keeps,
  remove_peer-Keeps,
}

-- The random indexes are permutations.
pub record AreFair {F : Type 0} (draws : Draws F) : Type 0 where
  pub push_fair : IsPerm draws.push_perm
  pub pull_fair : IsPerm draws.pull_perm
  pub replies_fair : IsPerm draws.replies_perm
  pub samples_fair : IsPerm draws.samples_perm

-- The message types that have a handler.
abbrev pub IsHandled : InternalMessageType → Type 0
IsHandled t =
    (t ≡ peer_disconnected_msg)
    ⊎ (t ≡ probe_peer_reply_msg)
    ⊎ (t ≡ membership_incoming_push_request_msg)
    ⊎ (t ≡ membership_incoming_pull_request_msg)
    ⊎ (t ≡ membership_incoming_pull_reply_msg)
    ⊎ (t ≡ membership_close_msg)

IsQuiet-reply :
    (from : Peer) (ps : List Peer)
    → IsQuiet (message membership_pull_reply_msg (membership_pull_reply from ps) ∷ [])
unfolding told kept_after message
IsQuiet-reply from ps j b = refl

IsQuiet-closed : IsQuiet (message membership_closed_msg void_value ∷ [])
unfolding told kept_after message
IsQuiet-closed j b = refl

module _ {F : Type 0} (limit : ℕ) where
  -- A handler that returns, and keeps the invariant.
  pub record Handles (o : Outcome F) : Type 0 where
    pub after : MembershipController F
    pub error : HandlerError
    pub result : o ≡ some (after, error)
    pub inv : Inv limit after

module _ {F : Type 0} {limit : ℕ} where
  then_return-Handles :
      (o : Option (MembershipController F)) → Keeps limit o → Handles limit (then_return o)
  then_return-Handles o k = record {
    after = k.after;
    error = no_error;
    result = rw (k.result) refl;
    inv = k.inv;
  }

  if-Inv :
      (b : Bool) (c d : MembershipController F)
      → Inv limit c
      → Inv limit d
      → Inv limit (if b then c else d)
  if-Inv true c d v w = v
  if-Inv false c d v w = w

  returns-Handles : (c : MembershipController F) → Inv limit c → Handles limit (returns c)
  returns-Handles c v = record { after = c; error = no_error; result = refl; inv = v }

  disconnected-Handles :
      (a : AnyMessage) (c : MembershipController F)
      → Inv limit c
      → Handles limit (peer_disconnected_handler a c)
  unfolding peer_disconnected_handler
  disconnected-Handles (peer_value peer) c v = then_return-Handles _ (remove_peer-Keeps peer c v)
  disconnected-Handles _ c v = returns-Handles c v

  probed-Handles :
      (a : AnyMessage) (c : MembershipController F)
      → Inv limit c
      → Handles limit (probe_peer_reply_handler a c)
  unfolding probe_peer_reply_handler
  probed-Handles (probe_peer_reply probed true) c v = returns-Handles c v
  probed-Handles (probe_peer_reply probed false) c v =
      then_return-Handles _ (remove_peer-Keeps probed c v)
  probed-Handles _ c v = returns-Handles c v

  pull_request-Handles :
      (a : AnyMessage) (c : MembershipController F)
      → Inv limit c
      → Handles limit (incoming_pull_request_handler a c)
  unfolding incoming_pull_request_handler
  pull_request-Handles (membership_incoming_pull_request from) c v =
      returns-Handles _ (send-Inv _ c (IsQuiet-reply from (IndexedSet.elements c.view_list)) v)
  pull_request-Handles _ c v = returns-Handles c v

  close-Handles :
      (a : AnyMessage) (c : MembershipController F)
      → Inv limit c
      → Handles limit (close_handler a c)
  unfolding close_handler
  close-Handles void_value c v = record {
    after = send (message membership_closed_msg void_value ∷ []) c;
    error = close_error;
    result = refl;
    inv = send-Inv _ c IsQuiet-closed v;
  }
  close-Handles _ c v = returns-Handles c v

module _ {F : Type 0} (outside : Outside F) where
  add_valid-IsListed :
      (ps : List Peer) (s : IndexedSet Peer) → IsListed s → IsListed (add_valid outside ps s)
  unfolding add_valid
  add_valid-IsListed [] s w = w
  add_valid-IsListed (p ∷ ps) s w = elim (Bool-cases (outside.is_valid_addr p.addr)) [
    | inl ok ↦ rw ok (add_valid-IsListed ps (IndexedSet.add p s) (add-IsListed p s w))
    | inr bad ↦ rw bad (add_valid-IsListed ps s w)
  ]

  -- What happens between the start and the end of `controllerRoutine`.
  pub data Step (c : MembershipController F) : MembershipController F → Type 0 where
    ticks :
        {d : MembershipController F} (draws : Draws F) (draw_key : ℕ → Option Bytes)
        → AreFair draws
        → membership_round outside draws draw_key c ≡ some d
        → Step c d
    handles :
        {d : MembershipController F} (now : ℕ) (m : InternalMessage) (err : HandlerError)
        → dispatch outside now m.type m.payload c ≡ some (d, err)
        → IsHandled m.type
        → Step c d

  pub data Steps (c : MembershipController F) : MembershipController F → Type 0 where
    here : Steps c c
    more : {d e : MembershipController F} → Steps c d → Step d e → Steps c e

module _ {F : Type 0} {limit : ℕ} (outside : Outside F) where
  take_pull_reply-Inv :
      (from : Peer) (ps : List Peer) (c : MembershipController F)
      → Inv limit c
      → Inv limit (take_pull_reply outside from ps c)
  unfolding take_pull_reply
  take_pull_reply-Inv from ps c v = elim (Bool-cases (SetType.is_member from c.pull_peers)) [
    | inr other ↦ rw (other, take_pull_reply) v
    | inl asked ↦
        rw (asked, take_pull_reply)
          (samples-Inv c _ refl refl (refl, refl, refl) refl refl
            (add_valid-IsListed outside ps c.pull_replies v.replies_listed) v.samples_indexed
            v.have_sets v.holds v)
  ]

  take_push_request-Keeps :
      (now : ℕ) (pr : MembershipPushRequest) (c : MembershipController F)
      → Inv limit c
      → Keeps limit (take_push_request outside now pr c)
  unfolding take_push_request pow_threshold
  take_push_request-Keeps now pr c v = elim (Bool-cases (is_for_us outside now pr c)) [
    | inr other ↦ rw (other, take_push_request) (keeps c v)
    | inl ours ↦
        let test : (c.pow_config.repetition == 0) ≡ false = ground (arith, v.works) in
        rw (ours, take_push_request, test, pow_threshold)
          (keeps _ (
            if-Inv _ _ c
              (same-Inv c (record c { push_requests = SetType.add pr.from c.push_requests }) refl
                refl refl refl (refl, refl, refl) refl refl refl v)
              v))
  ]

  push_request-Handles :
      (now : ℕ) (a : AnyMessage) (c : MembershipController F)
      → Inv limit c
      → Handles limit (incoming_push_request_handler outside now a c)
  unfolding incoming_push_request_handler
  push_request-Handles now (membership_push_request pr) c v =
      then_return-Handles _ (take_push_request-Keeps now pr c v)
  push_request-Handles now _ c v = returns-Handles c v

  pull_reply-Handles :
      (a : AnyMessage) (c : MembershipController F)
      → Inv limit c
      → Handles limit (incoming_pull_reply_handler outside a c)
  unfolding incoming_pull_reply_handler
  pull_reply-Handles (membership_incoming_pull_reply from ps) c v =
      returns-Handles _ (take_pull_reply-Inv from ps c v)
  pull_reply-Handles _ c v = returns-Handles c v

  -- A message with a handler is handled, whatever its payload.
  pub dispatch-Handles :
      (now : ℕ) (t : InternalMessageType) (a : AnyMessage) (c : MembershipController F)
      → IsHandled t
      → Inv limit c
      → Handles limit (dispatch outside now t a c)
  unfolding dispatch
  dispatch-Handles now peer_disconnected_msg a c h v = disconnected-Handles a c v
  dispatch-Handles now probe_peer_reply_msg a c h v = probed-Handles a c v
  dispatch-Handles now membership_incoming_push_request_msg a c h v = push_request-Handles now a c v
  dispatch-Handles now membership_incoming_pull_request_msg a c h v = pull_request-Handles a c v
  dispatch-Handles now membership_incoming_pull_reply_msg a c h v = pull_reply-Handles a c v
  dispatch-Handles now membership_close_msg a c h v = close-Handles a c v
  dispatch-Handles now _ a c h v = absurd (ground arith)

  probability-Inv :
      (p : F) (c : MembershipController F)
      → Inv limit c
      → Inv limit (record c { push_probability = p })
  probability-Inv p c v = same-Inv c _ refl refl refl refl (refl, refl, refl) refl refl refl v

  pull_peers-Inv :
      (ps : SetType.SetOf Peer) (c : MembershipController F)
      → Inv limit c
      → Inv limit (record c { pull_peers = ps })
  pull_peers-Inv ps c v = same-Inv c _ refl refl refl refl (refl, refl, refl) refl refl refl v

  push_round-Keeps :
      (draws : Draws F) (c : MembershipController F)
      → AreFair draws
      → Inv limit c
      → Keeps limit (push_round outside.float64 outside.hash draws c)
  push_round-Keeps draws c f v =
      Sends-Keeps _ _ (push_round-Sends outside.float64 outside.hash draws c f.push_fair v.works)
        (probability-Inv _ c v)

  pull_round-Keeps :
      (draws : Draws F) (c : MembershipController F)
      → AreFair draws
      → Inv limit c
      → Keeps limit (pull_round draws c)
  pull_round-Keeps draws c f v =
      let (asked, s) = pull_round-Sends draws c f.pull_fair in
      Sends-Keeps _ _ s (pull_peers-Inv asked c v)

  pub membership_round-Keeps :
      (draws : Draws F) (draw_key : ℕ → Option Bytes) (c : MembershipController F)
      → AreFair draws
      → Inv limit c
      → Keeps limit (membership_round outside draws draw_key c)
  unfolding membership_round
  membership_round-Keeps draws draw_key c f v =
      then-Keeps _ _ (push_round-Keeps draws c f v) (λ c1 v1.
        then-Keeps _ _ (pull_round-Keeps draws c1 f v1) (λ c2 v2.
          then-Keeps _ _ (update_round-Keeps draws c2 f.replies_fair f.samples_fair v2) (λ c3 v3.
            then-Keeps _ _
              (update_sample_round-Keeps outside.sha256 outside.crypt_blocks draw_key c3 v3)
              (λ c4 v4. keeps _ (probe_peer_round-Inv c4 v4)))))

  start_round-Keeps :
      (draws : Draws F) (c : MembershipController F)
      → AreFair draws
      → Inv limit c
      → Keeps limit (do
        replaced ←
            replace_view_list (IndexedSet.add (record { addr = c.bootstrapper }) IndexedSet.new) c
        pushed ←
            push_round outside.float64 outside.hash draws
              (record replaced { push_probability = outside.float64.zero_point })
        pull_round draws pushed)
  start_round-Keeps draws c f v =
      let only : IndexedSet Peer =
        IndexedSet.add (record { addr = c.bootstrapper }) IndexedSet.new in
      then-Keeps _ _
        (replace_view_list-Keeps only c (add-IsListed _ _ new-IsListed)
          (unfold IndexedSet.new in
            ground
              (arith, len-add {K = Peer} (record { addr = c.bootstrapper }) IndexedSet.new, v.room))
          v)
        (λ c1 v1.
          then-Keeps _ _
            (push_round-Keeps draws _ f (probability-Inv outside.float64.zero_point c1 v1))
            (λ c2 v2. pull_round-Keeps draws c2 f v2))

  pub bootstrap-Keeps :
      (draws : Draws F) (c : MembershipController F)
      → AreFair draws
      → Inv limit c
      → Keeps limit (bootstrap outside draws c)
  unfolding bootstrap
  bootstrap-Keeps draws c f v =
      elim (c.bootstrapper)
        as (λ b. Keeps limit (elim b [
          | [] ↦ some c
          | _ ∷ _ ↦ do
            let only = IndexedSet.add (record { addr = c.bootstrapper }) IndexedSet.new
            replaced ← replace_view_list only c
            pushed ←
                push_round outside.float64 outside.hash draws
                  (record replaced { push_probability = outside.float64.zero_point })
            pull_round draws pushed
        ])) [ [] ↦ keeps c v | b ∷ bs ↦ start_round-Keeps draws c f v ]

  Step-Inv : {c d : MembershipController F} → Step outside c d → Inv limit c → Inv limit d
  Step-Inv {c} {d} (ticks draws draw_key f e) v =
      let k = membership_round-Keeps draws draw_key c f v in
      subst (λ x. Inv limit x) (some_cancel (sym k.result ∙ e)) k.inv
  Step-Inv {c} {d} (handles now m err e h) v =
      let k = dispatch-Handles now m.type m.payload c h v in
      subst (λ x. Inv limit (x.0)) (some_cancel (sym k.result ∙ e)) k.inv

  pub Steps-Inv : {c d : MembershipController F} → Steps outside c d → Inv limit c → Inv limit d
  Steps-Inv here v = v
  Steps-Inv (more r st) v = Step-Inv st (Steps-Inv r v)

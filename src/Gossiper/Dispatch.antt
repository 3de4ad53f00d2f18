-- ===== src/Gossiper/Dispatch.antt =====
-- The invariant along a whole run of the Gossiper: any messages, with any payloads, and any rounds.
use gossip_protocol.Base.{ℕ, ◌≡◌, refl, Option, none, some, subst, some_cancel}
use gossip_protocol.Message.{
  AnyMessage, HandlerError, InternalMessage, InternalMessageType, Store, random_peer_list_reply_msg,
  gossip_announce_msg, gossip_notify_msg, gossip_unnotify_msg, gossip_validation_msg,
  gossip_incoming_push_msg, gossip_incoming_pull_request_msg, gossip_incoming_pull_reply_msg,
  gossiper_close_msg,
}
use gossip_protocol.Gossiper.State.{Gossiper}
use gossip_protocol.Gossiper.Handlers.{
  random_peer_list_reply_handler, announce, announce_handler, notify_handler, unnotify_handler,
  validation_handler,
}
use gossip_protocol.Gossiper.Incoming.{
  incoming_push_handler, incoming_pull_request_handler, incoming_pull_reply_handler, close_handler,
  dispatch, handle,
}
use gossip_protocol.Gossiper.Rounds.{gossip_round}
use gossip_protocol.Gossiper.Invariant.{Inv, store-Inv}
use gossip_protocol.Gossiper.RoundInvariant.{send-Inv, gossip_round-Inv}
use gossip_protocol.Gossiper.HandlerInvariant.{
  same_lists-Inv, take_random_peers-Inv, announce_item-Inv, validate-Inv, accept_reply-Inv,
  incoming_push-Inv, reply_to_pull-Inv,
}

random_peer_list_reply-Inv :
    (a : AnyMessage) (g : Gossiper) → Inv g → Inv (random_peer_list_reply_handler a g).0
unfolding random_peer_list_reply_handler
random_peer_list_reply-Inv (AnyMessage.random_peer_list_reply related peers) g v =
    take_random_peers-Inv related peers g v
random_peer_list_reply-Inv _ g v = v

announce-Inv : (a : AnyMessage) (g : Gossiper) → Inv g → Inv (announce_handler a g).0
unfolding announce_handler
announce-Inv (AnyMessage.gossip_announce a) g v = by_item a.item
  where
    by_item : (i : Option ℕ) → Inv (announce i a.ttl g)
    by_item none = v
    by_item (some p) = announce_item-Inv p a.ttl g v
announce-Inv _ g v = v

notify-Inv : (a : AnyMessage) (g : Gossiper) → Inv g → Inv (notify_handler a g).0
unfolding notify_handler
notify-Inv (AnyMessage.gossip_notify ntf) g v = same_lists-Inv g _ refl refl refl refl v
notify-Inv _ g v = v

unnotify-Inv : (a : AnyMessage) (g : Gossiper) → Inv g → Inv (unnotify_handler a g).0
unfolding unnotify_handler
unnotify-Inv (AnyMessage.api_client_value client) g v = same_lists-Inv g _ refl refl refl refl v
unnotify-Inv _ g v = v

validation-Inv : (a : AnyMessage) (g : Gossiper) → Inv g → Inv (validation_handler a g).0
unfolding validation_handler
validation-Inv (AnyMessage.gossip_validation val) g v = validate-Inv val g v
validation-Inv _ g v = v

push-Inv : (a : AnyMessage) (g : Gossiper) → Inv g → Inv (incoming_push_handler a g).0
unfolding incoming_push_handler
push-Inv (AnyMessage.gossip_item_extended e) g v = incoming_push-Inv e g v
push-Inv _ g v = v

pull_request-Inv :
    (a : AnyMessage) (g : Gossiper) → Inv g → Inv (incoming_pull_request_handler a g).0
unfolding incoming_pull_request_handler
pull_request-Inv (AnyMessage.gossip_incoming_pull_request from) g v = reply_to_pull-Inv from g v
pull_request-Inv _ g v = v

pull_reply-Inv : (a : AnyMessage) (g : Gossiper) → Inv g → Inv (incoming_pull_reply_handler a g).0
unfolding incoming_pull_reply_handler
pull_reply-Inv (AnyMessage.gossip_incoming_pull_reply from items) g v =
    accept_reply-Inv from items g v
pull_reply-Inv _ g v = v

close-Inv : (a : AnyMessage) (g : Gossiper) → Inv g → Inv (close_handler a g).0
unfolding close_handler
close-Inv AnyMessage.void_value g v = send-Inv _ g v
close-Inv _ g v = v

-- A handler that is called keeps the invariant, whatever the payload.
pub dispatch-Inv :
    (t : InternalMessageType) (a : AnyMessage) (g : Gossiper) (r : Gossiper × HandlerError)
    → Inv g
    → dispatch t a g ≡ some r
    → Inv (r.0)
unfolding dispatch
dispatch-Inv random_peer_list_reply_msg a g r v e =
    subst (λ x. Inv (x.0)) (some_cancel e) (random_peer_list_reply-Inv a g v)
dispatch-Inv gossip_announce_msg a g r v e =
    subst (λ x. Inv (x.0)) (some_cancel e) (announce-Inv a g v)
dispatch-Inv gossip_notify_msg a g r v e = subst (λ x. Inv (x.0)) (some_cancel e) (notify-Inv a g v)
dispatch-Inv gossip_unnotify_msg a g r v e =
    subst (λ x. Inv (x.0)) (some_cancel e) (unnotify-Inv a g v)
dispatch-Inv gossip_validation_msg a g r v e =
    subst (λ x. Inv (x.0)) (some_cancel e) (validation-Inv a g v)
dispatch-Inv gossip_incoming_push_msg a g r v e =
    subst (λ x. Inv (x.0)) (some_cancel e) (push-Inv a g v)
dispatch-Inv gossip_incoming_pull_request_msg a g r v e =
    subst (λ x. Inv (x.0)) (some_cancel e) (pull_request-Inv a g v)
dispatch-Inv gossip_incoming_pull_reply_msg a g r v e =
    subst (λ x. Inv (x.0)) (some_cancel e) (pull_reply-Inv a g v)
dispatch-Inv gossiper_close_msg a g r v e = subst (λ x. Inv (x.0)) (some_cancel e) (close-Inv a g v)
dispatch-Inv _ a g r v e = cc

-- The steps of `controllerRoutine`: the ticker fires, or a message is handled. In between the other
-- goroutines may allocate gossip items and write them.
pub data Step (g : Gossiper) : Gossiper → Type 0 where
  ticks : {h : Gossiper} → gossip_round g ≡ some h → Step g h
  handles :
      {h : Gossiper} (im : InternalMessage) (err : HandlerError)
      → handle im g ≡ some (h, err)
      → Step g h
  shares : (s : Store) → Step g (record g { store = s })

pub data Steps (g : Gossiper) : Gossiper → Type 0 where
  here : Steps g g
  then : {h k : Gossiper} → Steps g h → Step h k → Steps g k

Step-Inv : {g h : Gossiper} → Step g h → Inv g → Inv h
unfolding handle
Step-Inv {g} {h} (ticks e) v = gossip_round-Inv g h v e
Step-Inv {g} {h} (handles im err e) v = dispatch-Inv im.type im.payload g (h, err) v e
Step-Inv {g} (shares s) v = store-Inv s g v

-- After any run of rounds and messages, in any order, each list of the Gossiper is a map, the hot
-- items and the incoming ones are at most `cacheSize` many, and no item is hot and old at once.
pub Steps-Inv : {g h : Gossiper} → Steps g h → Inv g → Inv h
Steps-Inv here v = v
Steps-Inv (then r st) v = Step-Inv st (Steps-Inv r v)

-- ===== src/Central/Accounting/Table.antt =====
-- Every handler of the Central controller keeps the count.
use gossip_protocol.Base.{
  ℕ, ◌≡◌, refl, Bool, true, some, List, [], ◌∷◌, Map, keys, >>=-eq-some, ◌∙◌, ap, arith, pos,
}
use gossip_protocol.Message.{
  Peer-Comparable, ApiClient-Comparable, AnyMessage, InternalMessageType, peer_add_msg,
  peer_remove_msg, probe_peer_request_msg, membership_push_request_msg, membership_pull_request_msg,
  membership_pull_reply_msg, membership_crashed_msg, membership_closed_msg,
  random_peer_list_request_msg, random_peer_list_release_msg, gossip_notification_msg,
  gossip_push_msg, gossip_pull_request_msg, gossip_pull_reply_msg, gossiper_crashed_msg,
  gossiper_closed_msg, api_listener_crashed_msg, api_listener_closed_msg, api_endpoint_created_msg,
  api_endpoint_crashed_msg, api_endpoint_closed_msg, p2p_listener_crashed_msg,
  p2p_listener_closed_msg, incoming_p2p_created_msg, p2p_endpoint_crashed_msg,
  p2p_endpoint_closed_msg, outgoing_p2p_created_msg, central_probe_peer_reply_msg,
  central_crash_msg, central_close_msg, incoming_api_msg, incoming_p2p_msg,
}
use gossip_protocol.Central.State.{Central, Listener, emit}
use gossip_protocol.Central.Dispatch.{
  crash_handler, close_listener, mark_all, close_endpoints, begin_close, close_handler, dispatch,
}
use gossip_protocol.Central.Closing.{
  membership_crashed_handler, gossiper_crashed_handler, api_listener_crashed_handler,
  p2p_listener_crashed_handler,
}
use gossip_protocol.Central.Roster.{mark-Roster}
use gossip_protocol.Central.Accounting.Count.{
  Sound, Good, Each, Each-some, returns-Good, then_return-Good, send_membership-Sound,
  send_gossiper-Sound, listener_live,
}
use gossip_protocol.Central.Accounting.Forwarding.{
  membership_push_request-Good, membership_pull_request-Good, membership_pull_reply-Good,
  gossip_notification-Good, gossip_push-Good, gossip_pull_request-Good, gossip_pull_reply-Good,
  incoming_api-Good, incoming_p2p-Good,
}
use gossip_protocol.Central.Accounting.Lending.{
  random_peer_list_request-Good, random_peer_list_release-Good,
}
use gossip_protocol.Central.Accounting.Joining.{
  peer_add-Good, peer_remove-Good, probe_peer_request-Good, central_probe_peer_reply-Good,
}
use gossip_protocol.Central.Accounting.Starting.{
  outgoing_p2p_created-Good, incoming_p2p_created-Good, api_endpoint_created-Good,
}
use gossip_protocol.Central.Accounting.Leaving.{
  crashed-Good, membership_closed-Good, gossiper_closed-Good, api_listener_closed-Good,
  p2p_listener_closed-Good, api_endpoint_crashed-Good, api_endpoint_closed-Good,
}
use gossip_protocol.Central.Accounting.Outgoing.{
  p2p_endpoint_crashed-Good, p2p_endpoint_closed-Good,
}

keys-mark_all : {K : Type 0} (b : Bool) (m : Map K Bool) → keys m ≡ keys (mark_all b m)
unfolding mark_all
keys-mark_all b [] = refl
keys-mark_all b ((k, v) ∷ m) = ap (◌∷◌ k) (keys-mark_all b m)

close_listener-live :
    (l m : Listener) → close_listener l ≡ some m → listener_live l ≡ listener_live m
unfolding close_listener
close_listener-live l m e = ground arith

close_endpoints-Sound : (c : Central) → Sound c → Sound (close_endpoints c)
unfolding close_endpoints emit
close_endpoints-Sound c s = record {
  roster = mark-Roster _ _ _ _ s.roster (keys-mark_all true c.actively_created_peers);
  incoming_is_map = s.incoming_is_map;
  api_is_map = s.api_is_map;
  incoming_bounded = s.incoming_bounded;
  api_bounded = s.api_bounded;
  counted = s.counted;
}

listeners-Sound :
    (api p2p : Listener) (c : Central)
    → Sound c
    → close_listener c.api_listener ≡ some api
    → close_listener c.p2p_listener ≡ some p2p
    → Sound (record c { api_listener = api; p2p_listener = p2p })
listeners-Sound api p2p c s e f = record {
  roster = s.roster;
  incoming_is_map = s.incoming_is_map;
  api_is_map = s.api_is_map;
  incoming_bounded = s.incoming_bounded;
  api_bounded = s.api_bounded;
  counted =
      s.counted
      ∙ ap pos (
          omega (
            arith,
            close_listener-live c.api_listener api e,
            close_listener-live c.p2p_listener p2p f,
          ));
}

begin_close-Sound : (c : Central) → Sound c → Each Sound (begin_close c)
unfolding begin_close
begin_close-Sound c s r e =
    let (api, e1, rest1) = >>=-eq-some _ _ e in
    let (p2p, e2, rest2) = >>=-eq-some _ _ rest1 in
    let (d, e3, rest3) = >>=-eq-some _ _ rest2 in
    let (told, e4, rest4) = >>=-eq-some _ _ rest3 in
    let s1 = send_membership-Sound _ _ (listeners-Sound api p2p c s e1 e2) d e3 in
    Each-some Sound _ (close_endpoints-Sound told (send_gossiper-Sound _ d s1 told e4)) r rest4

close-Good : (a : AnyMessage) (c : Central) → Sound c → Each Good (close_handler a c)
unfolding close_handler
close-Good AnyMessage.void_value c s = then_return-Good _ (begin_close-Sound c s)
close-Good _ c s = returns-Good c s

-- A controller or a listener reports that it closed only while the Central controller knows it: its
-- routine sends the report once, as its last act.
unfoldable pub Timely : InternalMessageType → Central → Type 0
Timely membership_closed_msg c = c.membership_controller ≡ true
Timely gossiper_closed_msg c = c.gossiper ≡ true
Timely api_listener_closed_msg c = listener_live c.api_listener ≡ 1
Timely p2p_listener_closed_msg c = listener_live c.p2p_listener ≡ 1
Timely _ c = Unit

pub dispatch-Good :
    (perm : ℕ → List ℕ) (t : InternalMessageType) (a : AnyMessage) (c : Central)
    → Sound c
    → Timely t c
    → Each Good (dispatch perm t a c)
unfolding dispatch Timely membership_crashed_handler gossiper_crashed_handler
    api_listener_crashed_handler p2p_listener_crashed_handler crash_handler
dispatch-Good perm peer_add_msg a c s h = peer_add-Good a c s
dispatch-Good perm peer_remove_msg a c s h = peer_remove-Good a c s
dispatch-Good perm probe_peer_request_msg a c s h = probe_peer_request-Good a c s
dispatch-Good perm membership_push_request_msg a c s h = membership_push_request-Good a c s
dispatch-Good perm membership_pull_request_msg a c s h = membership_pull_request-Good a c s
dispatch-Good perm membership_pull_reply_msg a c s h = membership_pull_reply-Good a c s
dispatch-Good perm membership_crashed_msg a c s h = crashed-Good a c s
dispatch-Good perm membership_closed_msg a c s h = membership_closed-Good a c s h
dispatch-Good perm random_peer_list_request_msg a c s h = random_peer_list_request-Good perm a c s
dispatch-Good perm random_peer_list_release_msg a c s h = random_peer_list_release-Good a c s
dispatch-Good perm gossip_notification_msg a c s h = gossip_notification-Good a c s
dispatch-Good perm gossip_push_msg a c s h = gossip_push-Good a c s
dispatch-Good perm gossip_pull_request_msg a c s h = gossip_pull_request-Good a c s
dispatch-Good perm gossip_pull_reply_msg a c s h = gossip_pull_reply-Good a c s
dispatch-Good perm gossiper_crashed_msg a c s h = crashed-Good a c s
dispatch-Good perm gossiper_closed_msg a c s h = gossiper_closed-Good a c s h
dispatch-Good perm api_listener_crashed_msg a c s h = crashed-Good a c s
dispatch-Good perm api_listener_closed_msg a c s h = api_listener_closed-Good a c s h
dispatch-Good perm api_endpoint_created_msg a c s h = api_endpoint_created-Good a c s
dispatch-Good perm api_endpoint_crashed_msg a c s h = api_endpoint_crashed-Good a c s
dispatch-Good perm api_endpoint_closed_msg a c s h = api_endpoint_closed-Good a c s
dispatch-Good perm p2p_listener_crashed_msg a c s h = crashed-Good a c s
dispatch-Good perm p2p_listener_closed_msg a c s h = p2p_listener_closed-Good a c s h
dispatch-Good perm incoming_p2p_created_msg a c s h = incoming_p2p_created-Good a c s
dispatch-Good perm p2p_endpoint_crashed_msg a c s h = p2p_endpoint_crashed-Good a c s
dispatch-Good perm p2p_endpoint_closed_msg a c s h = p2p_endpoint_closed-Good a c s
dispatch-Good perm outgoing_p2p_created_msg a c s h = outgoing_p2p_created-Good a c s
dispatch-Good perm central_probe_peer_reply_msg a c s h = central_probe_peer_reply-Good a c s
dispatch-Good perm central_crash_msg a c s h = crashed-Good a c s
dispatch-Good perm central_close_msg a c s h = close-Good a c s
dispatch-Good perm incoming_api_msg a c s h = incoming_api-Good a c s
dispatch-Good perm incoming_p2p_msg a c s h = incoming_p2p-Good a c s
dispatch-Good perm _ a c s h = λ r e. cc

-- ===== src/Central/Accounting/Starting.antt =====
-- Endpoints that were created keep the count: each starts two goroutines.
use gossip_protocol.Base.{
  length-insert_new, ◌≡◌, refl, Bool, true, false, ◌||◌, none, some, [], ◌∷◌, lookup, erase,
  contains, Option-cases, inl, inr, arith, weigh-insert_new, insert-IsMap, pos, Bool-cases, leb,
  length, ◌+ℤ◌, ◌++◌,
}
use gossip_protocol.Datastruct.IndexedMap.{get_value, put, weigh_values-put_new}
use gossip_protocol.Message.{
  Peer-Comparable, ApiClient-Comparable, AnyMessage, P2PEndpoint, ApiEndpoint,
}
use gossip_protocol.Central.State.{Central, ApiInfo, Effect, emit, both_running}
use gossip_protocol.Central.Peers.{
  start, fresh_info, admit_outgoing, outgoing_created, outgoing_p2p_created_handler,
  incoming_created, incoming_p2p_created_handler, api_created, api_endpoint_created_handler,
}
use gossip_protocol.Central.Roster.{admit-Roster}
use gossip_protocol.Central.Accounting.Count.{
  Sound, Good, Each, returns-Good, emit-Sound, live, peer_live, api_live, running_count, two_more,
}

-- A created endpoint in the view list, with its two goroutines.
abbrev admitted : P2PEndpoint → Central → Central
admitted endp c = record c {
  actively_created_peers = erase endp.peer c.actively_created_peers;
  total_goroutines = c.total_goroutines +ℤ pos 2;
  effects = c.effects ++ Effect.run_p2p endp ∷ [];
  view_list = put endp.peer (fresh_info endp) c.view_list;
}

admitted-Sound :
    (endp : P2PEndpoint) (b : Bool) (c : Central)
    → Sound c
    → lookup endp.peer c.actively_created_peers ≡ some b
    → Sound (admitted endp c)
unfolding live
admitted-Sound endp b c s h =
    let p = endp.peer in
    let out : get_value p c.view_list ≡ none = ground (arith, s.roster.created_apart p, h) in
    record {
      roster = admit-Roster _ _ _ s.roster p b (fresh_info endp) h refl;
      incoming_is_map = s.incoming_is_map;
      api_is_map = s.api_is_map;
      incoming_bounded = s.incoming_bounded;
      api_bounded = s.api_bounded;
      counted =
          two_more c.total_goroutines (running_count c) _ s.counted
            (omega (arith, weigh_values-put_new peer_live p (fresh_info endp) c.view_list out));
    }

admit_outgoing-Sound :
    (endp : P2PEndpoint) (b : Bool) (c : Central)
    → Sound (admitted endp c)
    → Sound (admit_outgoing endp b c)
unfolding admit_outgoing start emit
admit_outgoing-Sound endp true c s = emit-Sound _ (admitted endp c) s
admit_outgoing-Sound endp false c s = s

outgoing_created-Sound :
    (endp : P2PEndpoint) (c : Central) → Sound c → Sound (outgoing_created endp c)
unfolding outgoing_created
outgoing_created-Sound endp c s = elim (Option-cases (lookup endp.peer c.actively_created_peers)) [
  | inl gone ↦ rw (gone, outgoing_created) (emit-Sound _ c s)
  | inr (b, h) ↦
      rw (h, outgoing_created) (admit_outgoing-Sound endp b c (admitted-Sound endp b c s h))
]

pub outgoing_p2p_created-Good :
    (a : AnyMessage) (c : Central) → Sound c → Each Good (outgoing_p2p_created_handler a c)
unfolding outgoing_p2p_created_handler
outgoing_p2p_created-Good (AnyMessage.p2p_endpoint endp) c s =
    returns-Good _ (outgoing_created-Sound endp c s)
outgoing_p2p_created-Good _ c s = returns-Good c s

incoming_created-Sound :
    (endp : P2PEndpoint) (c : Central) → Sound c → Sound (incoming_created endp c)
unfolding incoming_created start emit live
incoming_created-Sound endp c s =
    elim (Bool-cases (
      leb c.incoming_view_list_max (length c.incoming_view_list)
      || contains endp.peer c.incoming_view_list
      || c.is_stopping)) [
        | inl refused ↦ rw (refused, incoming_created) (emit-Sound _ c s)
        | inr room ↦
            let new : lookup endp.peer c.incoming_view_list ≡ none = ground (arith, room) in
            rw (room, incoming_created)
              (record {
                roster = s.roster;
                incoming_is_map = insert-IsMap endp.peer (fresh_info endp) _ s.incoming_is_map;
                api_is_map = s.api_is_map;
                incoming_bounded = ground (
                  arith,
                  room,
                  length-insert_new endp.peer (fresh_info endp) c.incoming_view_list new,
                );
                api_bounded = s.api_bounded;
                counted = two_more c.total_goroutines (running_count c) _ s.counted (
                    omega (
                      arith,
                      weigh-insert_new peer_live endp.peer (fresh_info endp) c.incoming_view_list
                          new,
                    ));
              })
      ]

pub incoming_p2p_created-Good :
    (a : AnyMessage) (c : Central) → Sound c → Each Good (incoming_p2p_created_handler a c)
unfolding incoming_p2p_created_handler
incoming_p2p_created-Good (AnyMessage.p2p_endpoint endp) c s =
    returns-Good _ (incoming_created-Sound endp c s)
incoming_p2p_created-Good _ c s = returns-Good c s

abbrev fresh_client : ApiEndpoint → ApiInfo
fresh_client endp = record { endpoint = endp; state = both_running; has_crashed = false }

api_created-Sound : (endp : ApiEndpoint) (c : Central) → Sound c → Sound (api_created endp c)
unfolding api_created start emit live
api_created-Sound endp c s =
    elim (Bool-cases (
      leb c.api_clients_max (length c.api_clients)
      || contains endp.api_client c.api_clients
      || c.is_stopping)) [
        | inl refused ↦ rw (refused, api_created) (emit-Sound _ c s)
        | inr room ↦
            let new : lookup endp.api_client c.api_clients ≡ none = ground (arith, room) in
            rw (room, api_created)
              (record {
                roster = s.roster;
                incoming_is_map = s.incoming_is_map;
                api_is_map = insert-IsMap endp.api_client (fresh_client endp) _ s.api_is_map;
                incoming_bounded = s.incoming_bounded;
                api_bounded = ground (
                  arith,
                  room,
                  length-insert_new endp.api_client (fresh_client endp) c.api_clients new,
                );
                counted = two_more c.total_goroutines (running_count c) _ s.counted (
                    omega (
                      arith,
                      weigh-insert_new api_live endp.api_client (fresh_client endp) c.api_clients
                          new,
                    ));
              })
      ]

pub api_endpoint_created-Good :
    (a : AnyMessage) (c : Central) → Sound c → Each Good (api_endpoint_created_handler a c)
unfolding api_endpoint_created_handler
api_endpoint_created-Good (AnyMessage.api_endpoint endp) c s =
    returns-Good _ (api_created-Sound endp c s)
api_endpoint_created-Good _ c s = returns-Good c s

-- ===== src/Central/Accounting/Leaving.antt =====
-- Controllers, listeners and clients that close keep the count.
use gossip_protocol.Base.{
  length-insert_old, length-erase-le, ◌+◌, ◌≡◌, Bool, true, false, ◌||◌, some, lookup, insert,
  erase, >>=-eq-some, Option-cases, inl, inr, ◌∙◌, ap, arith, weigh-insert_old, weigh-erase,
  erase-IsMap, insert-IsMap, pos, lookup-insert_self, Bool-cases,
}
use gossip_protocol.Message.{Peer-Comparable, ApiClient-Comparable, AnyMessage, ApiEndpoint}
use gossip_protocol.Central.State.{
  Central, ApiInfo, no_listener, have_both_stopped, stop_goroutine, decrement,
}
use gossip_protocol.Central.Closing.{
  crashed, membership_closed_handler, gossiper_closed_handler, api_listener_closed_handler,
  p2p_listener_closed_handler, api_settled, api_endpoint_closed, api_endpoint_crashed_handler,
  api_endpoint_closed_handler,
}
use gossip_protocol.Central.Accounting.Count.{
  Sound, Good, Each, Each-some, returns-Good, emit-Sound, send_gossiper-Sound, check_done-Good,
  api_live, running_count, one_less, have_both_stopped-live, stop_goroutine-live, bit,
  listener_live,
}

pub crashed-Good : (a : AnyMessage) (c : Central) → Sound c → Each Good (crashed a c)
crashed-Good (AnyMessage.error_value e) c s = λ r h. cc
crashed-Good _ c s = returns-Good c s

pub membership_closed-Good :
    (a : AnyMessage) (c : Central)
    → Sound c
    → c.membership_controller ≡ true
    → Each Good (membership_closed_handler a c)
unfolding membership_closed_handler decrement
membership_closed-Good AnyMessage.void_value c s h = Each-some Good _ (
    check_done-Good _ (record {
      roster = s.roster;
      incoming_is_map = s.incoming_is_map;
      api_is_map = s.api_is_map;
      incoming_bounded = s.incoming_bounded;
      api_bounded = s.api_bounded;
      counted =
          one_less c.total_goroutines (running_count c)
            (running_count (record c { membership_controller = false })) s.counted
            (omega (arith, ap bit h));
    }))
membership_closed-Good _ c s h = returns-Good c s

pub gossiper_closed-Good :
    (a : AnyMessage) (c : Central)
    → Sound c
    → c.gossiper ≡ true
    → Each Good (gossiper_closed_handler a c)
unfolding gossiper_closed_handler decrement
gossiper_closed-Good AnyMessage.void_value c s h = Each-some Good _ (
    check_done-Good _ (record {
      roster = s.roster;
      incoming_is_map = s.incoming_is_map;
      api_is_map = s.api_is_map;
      incoming_bounded = s.incoming_bounded;
      api_bounded = s.api_bounded;
      counted =
          one_less c.total_goroutines (running_count c)
            (running_count (record c { gossiper = false })) s.counted (omega (arith, ap bit h));
    }))
gossiper_closed-Good _ c s h = returns-Good c s

pub api_listener_closed-Good :
    (a : AnyMessage) (c : Central)
    → Sound c
    → listener_live c.api_listener ≡ 1
    → Each Good (api_listener_closed_handler a c)
unfolding api_listener_closed_handler decrement
api_listener_closed-Good AnyMessage.void_value c s h = Each-some Good _ (
    check_done-Good _ (record {
      roster = s.roster;
      incoming_is_map = s.incoming_is_map;
      api_is_map = s.api_is_map;
      incoming_bounded = s.incoming_bounded;
      api_bounded = s.api_bounded;
      counted =
          one_less c.total_goroutines (running_count c)
            (running_count (record c { api_listener = no_listener })) s.counted (omega (arith, h));
    }))
api_listener_closed-Good _ c s h = returns-Good c s

pub p2p_listener_closed-Good :
    (a : AnyMessage) (c : Central)
    → Sound c
    → listener_live c.p2p_listener ≡ 1
    → Each Good (p2p_listener_closed_handler a c)
unfolding p2p_listener_closed_handler decrement
p2p_listener_closed-Good AnyMessage.void_value c s h = Each-some Good _ (
    check_done-Good _ (record {
      roster = s.roster;
      incoming_is_map = s.incoming_is_map;
      api_is_map = s.api_is_map;
      incoming_bounded = s.incoming_bounded;
      api_bounded = s.api_bounded;
      counted =
          one_less c.total_goroutines (running_count c)
            (running_count (record c { p2p_listener = no_listener })) s.counted (omega (arith, h));
    }))
p2p_listener_closed-Good _ c s h = returns-Good c s

-- A client whose goroutines have both stopped leaves the map.
drop_client-Sound :
    (endp : ApiEndpoint) (info : ApiInfo) (c : Central)
    → Sound c
    → lookup endp.api_client c.api_clients ≡ some info
    → api_live info ≡ 0
    → Sound (record c { api_clients = erase endp.api_client c.api_clients })
drop_client-Sound endp info c s h zero = record {
  roster = s.roster;
  incoming_is_map = s.incoming_is_map;
  api_is_map = erase-IsMap endp.api_client c.api_clients s.api_is_map;
  incoming_bounded = s.incoming_bounded;
  api_bounded = omega (arith, s.api_bounded, length-erase-le endp.api_client c.api_clients);
  counted =
      s.counted
      ∙ ap pos (
          omega
            (arith, zero, weigh-erase api_live endp.api_client info c.api_clients s.api_is_map h));
}

api_settled-Good :
    (endp : ApiEndpoint) (info : ApiInfo) (c : Central)
    → Sound c
    → lookup endp.api_client c.api_clients ≡ some info
    → Each Good (api_settled endp info c)
unfolding api_settled
api_settled-Good endp info c s h = elim (Bool-cases (have_both_stopped info.state)) [
  | inl done ↦
      rw (done, api_settled)
        (λ r e.
          let dropped =
            drop_client-Sound endp info c s h (have_both_stopped-live info.state done) in
          let (told, sent, last) = >>=-eq-some _ _ e in
          Each-some Good _
            (check_done-Good told (send_gossiper-Sound _ _ (emit-Sound _ _ dropped) told sent)) r
            last)
  | inr waits ↦ elim (Bool-cases info.has_crashed) [
    | inl crash ↦ rw (waits, crash, api_settled) (returns-Good _ (emit-Sound _ c s))
    | inr fine ↦ rw (waits, fine, api_settled) (returns-Good c s)
  ]
]

-- One goroutine of a client has stopped.
client_stopped-Sound :
    (endp : ApiEndpoint) (info new : ApiInfo) (c : Central)
    → Sound c
    → lookup endp.api_client c.api_clients ≡ some info
    → api_live info ≡ api_live new + 1
    → Sound (record (decrement c) { api_clients = insert endp.api_client new c.api_clients })
unfolding decrement
client_stopped-Sound endp info new c s h less = record {
  roster = s.roster;
  incoming_is_map = s.incoming_is_map;
  api_is_map = insert-IsMap endp.api_client new c.api_clients s.api_is_map;
  incoming_bounded = s.incoming_bounded;
  api_bounded =
      omega (arith, s.api_bounded, length-insert_old endp.api_client new info c.api_clients h);
  counted =
      one_less c.total_goroutines (running_count c)
        (running_count (record c { api_clients = insert endp.api_client new c.api_clients }))
        s.counted
        (omega (arith, less, weigh-insert_old api_live endp.api_client new info c.api_clients h));
}

pub api_closed-Good :
    (endp : ApiEndpoint) (is_reader err : Bool) (c : Central)
    → Sound c
    → Each Good (api_endpoint_closed endp is_reader err c)
unfolding api_endpoint_closed
api_closed-Good endp is_reader err c s =
    elim (Option-cases (lookup endp.api_client c.api_clients)) [
      | inl gone ↦ rw (gone, api_endpoint_closed) (returns-Good c s)
      | inr (info, h) ↦ elim (Option-cases (stop_goroutine is_reader info.state)) [
        | inl before ↦ rw (h, before, api_endpoint_closed) (returns-Good c s)
        | inr (t, stop) ↦
            let new : ApiInfo = record info { state = t; has_crashed = info.has_crashed || err } in
            rw (h, stop, api_endpoint_closed)
              (api_settled-Good endp new _
                (client_stopped-Sound endp info new c s h
                  (stop_goroutine-live is_reader info.state t stop))
                (lookup-insert_self endp.api_client new c.api_clients))
      ]
    ]

pub api_endpoint_crashed-Good :
    (a : AnyMessage) (c : Central) → Sound c → Each Good (api_endpoint_crashed_handler a c)
unfolding api_endpoint_crashed_handler
api_endpoint_crashed-Good (AnyMessage.api_endpoint_crashed endp is_reader err) c s =
    api_closed-Good endp is_reader true c s
api_endpoint_crashed-Good _ c s = returns-Good c s

pub api_endpoint_closed-Good :
    (a : AnyMessage) (c : Central) → Sound c → Each Good (api_endpoint_closed_handler a c)
unfolding api_endpoint_closed_handler
api_endpoint_closed-Good (AnyMessage.api_endpoint_closed endp is_reader) c s =
    api_closed-Good endp is_reader false c s
api_endpoint_closed-Good _ c s = returns-Good c s

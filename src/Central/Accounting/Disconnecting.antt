-- ===== src/Central/Accounting/Disconnecting.antt =====
-- Incoming peers whose endpoints close keep the count.
use gossip_protocol.Base.{
  length-insert_old, length-erase-le, ◌+◌, ◌≡◌, Bool, ◌||◌, some, lookup, insert, erase,
  Option-cases, inl, inr, ◌∙◌, ap, arith, weigh-insert_old, weigh-erase, erase-IsMap, insert-IsMap,
  pos, lookup-insert_self, Bool-cases,
}
use gossip_protocol.Message.{Peer, Peer-Comparable, P2PEndpoint}
use gossip_protocol.Central.State.{Central, PeerInfo, have_both_stopped, stop_goroutine, decrement}
use gossip_protocol.Central.Closing.{incoming_settled, incoming_peer_closed}
use gossip_protocol.Central.Accounting.Count.{
  Sound, Good, Each, Each-some, returns-Good, emit-Sound, check_done-Good, peer_live, running_count,
  one_less, have_both_stopped-live, stop_goroutine-live,
}

drop_incoming-Sound :
    (p : Peer) (info : PeerInfo) (c : Central)
    → Sound c
    → lookup p c.incoming_view_list ≡ some info
    → peer_live info ≡ 0
    → Sound (record c { incoming_view_list = erase p c.incoming_view_list })
drop_incoming-Sound p info c s h zero = record {
  roster = s.roster;
  incoming_is_map = erase-IsMap p c.incoming_view_list s.incoming_is_map;
  api_is_map = s.api_is_map;
  incoming_bounded = omega (arith, s.incoming_bounded, length-erase-le p c.incoming_view_list);
  api_bounded = s.api_bounded;
  counted =
      s.counted
      ∙ ap pos (
          omega
            (arith, zero, weigh-erase peer_live p info c.incoming_view_list s.incoming_is_map h));
}

incoming_settled-Good :
    (endp : P2PEndpoint) (info : PeerInfo) (c : Central)
    → Sound c
    → lookup endp.peer c.incoming_view_list ≡ some info
    → Each Good (incoming_settled endp info c)
unfolding incoming_settled
incoming_settled-Good endp info c s h = elim (Bool-cases (have_both_stopped info.state)) [
  | inl done ↦
      rw (done, incoming_settled)
        (Each-some Good _ (
          check_done-Good _ (
            emit-Sound _ _
              (drop_incoming-Sound endp.peer info c s h (have_both_stopped-live info.state done)))))
  | inr waits ↦ elim (Bool-cases info.has_crashed) [
    | inl crash ↦ rw (waits, crash, incoming_settled) (returns-Good _ (emit-Sound _ c s))
    | inr fine ↦ rw (waits, fine, incoming_settled) (returns-Good c s)
  ]
]

incoming_stopped-Sound :
    (p : Peer) (info new : PeerInfo) (c : Central)
    → Sound c
    → lookup p c.incoming_view_list ≡ some info
    → peer_live info ≡ peer_live new + 1
    → Sound (record (decrement c) { incoming_view_list = insert p new c.incoming_view_list })
unfolding decrement
incoming_stopped-Sound p info new c s h less = record {
  roster = s.roster;
  incoming_is_map = insert-IsMap p new c.incoming_view_list s.incoming_is_map;
  api_is_map = s.api_is_map;
  incoming_bounded =
      omega (arith, s.incoming_bounded, length-insert_old p new info c.incoming_view_list h);
  api_bounded = s.api_bounded;
  counted =
      one_less c.total_goroutines (running_count c)
        (running_count (record c { incoming_view_list = insert p new c.incoming_view_list }))
        s.counted
        (omega (arith, less, weigh-insert_old peer_live p new info c.incoming_view_list h));
}

pub incoming_closed-Good :
    (endp : P2PEndpoint) (is_reader err : Bool) (c : Central)
    → Sound c
    → Each Good (incoming_peer_closed endp is_reader err c)
unfolding incoming_peer_closed
incoming_closed-Good endp is_reader err c s =
    elim (Option-cases (lookup endp.peer c.incoming_view_list)) [
      | inl gone ↦ rw (gone, incoming_peer_closed) (returns-Good c s)
      | inr (info, h) ↦ elim (Option-cases (stop_goroutine is_reader info.state)) [
        | inl before ↦ rw (h, before, incoming_peer_closed) (returns-Good c s)
        | inr (t, stop) ↦
            let new : PeerInfo = record info { state = t; has_crashed = info.has_crashed || err } in
            rw (h, stop, incoming_peer_closed)
              (incoming_settled-Good endp new _
                (incoming_stopped-Sound endp.peer info new c s h
                  (stop_goroutine-live is_reader info.state t stop))
                (lookup-insert_self endp.peer new c.incoming_view_list))
      ]
    ]

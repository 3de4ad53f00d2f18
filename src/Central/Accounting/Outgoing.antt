-- ===== src/Central/Accounting/Outgoing.antt =====
-- Outgoing peers whose endpoints close keep the count.
use gossip_protocol.Base.{
  ◌+◌, ◌≡◌, refl, ◌⊎◌, Bool, true, false, not, ◌||◌, Option, none, some, lookup, insert, erase,
  ◌>>=◌, >>=-eq-some, Option-cases, inl, inr, ◌∙◌, ap, arith, weigh-insert_old, subst, sym,
  some_cancel, pos, if◌then◌else◌, lookup-insert_self, Bool-cases, erase_absent, leb_ℤ,
}
use gossip_protocol.Datastruct.IndexedMap.{
  IndexedMap, get_value, put, remove, weigh_values-put_old, weigh_values-remove, get_value-put,
}
use gossip_protocol.Message.{
  Peer, Peer-Comparable, AnyMessage, P2PEndpoint, peer_disconnected_msg, peer_value,
}
use gossip_protocol.Central.State.{
  Central, PeerInfo, im, send_membership, have_both_stopped, stop_goroutine, decrement,
}
use gossip_protocol.Central.Closing.{
  drop_outgoing, outgoing_peer_completely_closed, outgoing_settled, store_outgoing, close_outgoing,
  outgoing_peer_closed, incoming_peer_closed, p2p_closed, p2p_endpoint_crashed_handler,
  p2p_endpoint_closed_handler,
}
use gossip_protocol.Central.Roster.{view_update-Roster, view_remove-Roster, awaiting_update-Roster}
use gossip_protocol.Central.Accounting.Count.{
  Sound, Good, Each, Each-some, Each-if, returns-Good, emit-Sound, send_membership-Sound,
  check_done-Good, peer_live, running_count, one_less, have_both_stopped-live, stop_goroutine-live,
}
use gossip_protocol.Central.Accounting.Lending.{drop_awaiting-Sound}
use gossip_protocol.Central.Accounting.Disconnecting.{incoming_closed-Good}

-- Where an outgoing peer's entry stands: in the view list, or among those that await removal.
abbrev Entry : Peer → PeerInfo → Central → Type 0
Entry p info c =
    (get_value p c.view_list ≡ some info) ⊎ (lookup p c.awaiting_removal_view_list ≡ some info)

remove_absent :
    (p : Peer) (t r : IndexedMap Peer PeerInfo) → get_value p t ≡ none → remove p t ≡ some r → t ≡ r
unfolding remove get_value
remove_absent p t r h e = elim (Option-cases (lookup p t.m)) [
  | inl gone ↦ some_cancel (rw (gone, remove) at e)
  | inr (x, here) ↦ ground (arith, here)
]

-- An entry without goroutines, or none, leaves the view list.
drop_viewed-Sound :
    (p : Peer) (info : PeerInfo) (rest : IndexedMap Peer PeerInfo) (c : Central)
    → Sound c
    → Entry p info c
    → peer_live info ≡ 0
    → remove p c.view_list ≡ some rest
    → Sound (record c { view_list = rest })
drop_viewed-Sound p info rest c s entry zero e = elim (Option-cases (get_value p c.view_list)) [
  | inl out ↦
      subst (λ v. Sound (record c { view_list = v })) (remove_absent p c.view_list rest out e) s
  | inr (i, h) ↦
      let same : i ≡ info = ground (arith, entry, s.roster.apart p, h) in
      record {
        roster = view_remove-Roster _ _ _ s.roster p rest e;
        incoming_is_map = s.incoming_is_map;
        api_is_map = s.api_is_map;
        incoming_bounded = s.incoming_bounded;
        api_bounded = s.api_bounded;
        counted =
            s.counted
            ∙ ap pos (
                omega (
                  arith,
                  zero,
                  ap peer_live same,
                  weigh_values-remove peer_live p i c.view_list rest s.roster.is_indexed h e,
                ));
      }
]

-- An entry without goroutines, or none, leaves those that await removal.
forget-Sound :
    (p : Peer) (info : PeerInfo) (c : Central)
    → Sound c
    → ((i : PeerInfo) → lookup p c.awaiting_removal_view_list ≡ some i → i ≡ info)
    → peer_live info ≡ 0
    → Sound (record c { awaiting_removal_view_list = erase p c.awaiting_removal_view_list })
forget-Sound p info c s same zero = elim (Option-cases (lookup p c.awaiting_removal_view_list)) [
  | inl gone ↦
      subst (λ a. Sound (record c { awaiting_removal_view_list = a }))
        (sym (erase_absent p c.awaiting_removal_view_list gone)) s
  | inr (i, h) ↦ drop_awaiting-Sound p i c s h (ap peer_live (same i h) ∙ zero)
]

-- What is decided about an endpoint whose goroutines have both stopped.
drop_outgoing-Sound :
    (info : PeerInfo) (listed : Bool) (c : Central)
    → Sound c
    → Entry info.endpoint.peer info c
    → peer_live info ≡ 0
    → Each Sound (drop_outgoing info listed c)
unfolding drop_outgoing
drop_outgoing-Sound info listed c s entry zero =
    let p = info.endpoint.peer in
    let same : (i : PeerInfo) → lookup p c.awaiting_removal_view_list ≡ some i → i ≡ info =
      λ i e. ground (arith, entry, s.roster.apart p, e) in
    let forgotten : Central → Central =
      λ d. record d { awaiting_removal_view_list = erase p c.awaiting_removal_view_list } in
    let unused : Option Central =
      if leb_ℤ info.usage_counter (pos 0) then some (forgotten c) else some c in
    let told = send_membership (im peer_disconnected_msg (peer_value p)) c in
    Each-if Sound c.is_stopping
      (remove p c.view_list >>= (λ view. some (forgotten (record c { view_list = view }))))
      (if not listed then told else unused)
      (λ stopping r e.
        let (rest, removed, last) = >>=-eq-some _ _ e in
        let viewed = drop_viewed-Sound p info rest c s entry zero removed in
        Each-some Sound _ (forget-Sound p info _ viewed same zero) r last)
      (λ works.
        Each-if Sound (not listed) told unused (λ out. send_membership-Sound _ c s)
          (λ there.
            Each-if Sound (leb_ℤ info.usage_counter (pos 0)) (some (forgotten c)) (some c)
              (λ free. Each-some Sound _ (forget-Sound p info c s same zero))
              (λ used. Each-some Sound c s)))

outgoing_settled-Good :
    (info : PeerInfo) (listed : Bool) (c : Central)
    → Sound c
    → Entry info.endpoint.peer info c
    → Each Good (outgoing_settled info listed c)
unfolding outgoing_settled outgoing_peer_completely_closed
outgoing_settled-Good info listed c s entry = elim (Bool-cases (have_both_stopped info.state)) [
  | inl done ↦
      rw (done, outgoing_settled)
        (λ r e.
          let (dropped, first, last) = >>=-eq-some _ _ e in
          let kept =
            drop_outgoing-Sound info listed c s entry (have_both_stopped-live info.state done)
              dropped first in
          Each-some Good _ (check_done-Good _ (emit-Sound _ dropped kept)) r last)
  | inr waits ↦ elim (Bool-cases info.has_crashed) [
    | inl crash ↦ rw (waits, crash, outgoing_settled) (returns-Good _ (emit-Sound _ c s))
    | inr fine ↦ rw (waits, fine, outgoing_settled) (returns-Good c s)
  ]
]

view_stopped-Sound :
    (p : Peer) (info new : PeerInfo) (c : Central)
    → Sound c
    → get_value p c.view_list ≡ some info
    → new.endpoint ≡ info.endpoint
    → peer_live info ≡ peer_live new + 1
    → Sound (store_outgoing p true new (decrement c))
unfolding decrement store_outgoing
view_stopped-Sound p info new c s h same less = record {
  roster =
      view_update-Roster _ _ _ s.roster p info new h
        (ap (λ e. e.peer) same ∙ s.roster.named p info h);
  incoming_is_map = s.incoming_is_map;
  api_is_map = s.api_is_map;
  incoming_bounded = s.incoming_bounded;
  api_bounded = s.api_bounded;
  counted =
      one_less c.total_goroutines (running_count c)
        (running_count (record c { view_list = put p new c.view_list })) s.counted
        (omega (arith, less, weigh_values-put_old peer_live p new info c.view_list h));
}

awaiting_stopped-Sound :
    (p : Peer) (info new : PeerInfo) (c : Central)
    → Sound c
    → lookup p c.awaiting_removal_view_list ≡ some info
    → new.endpoint ≡ info.endpoint
    → peer_live info ≡ peer_live new + 1
    → Sound (store_outgoing p false new (decrement c))
unfolding decrement store_outgoing
awaiting_stopped-Sound p info new c s h same less = record {
  roster =
      awaiting_update-Roster _ _ _ s.roster p info new h
        (ap (λ e. e.peer) same ∙ s.roster.awaiting_named p info h);
  incoming_is_map = s.incoming_is_map;
  api_is_map = s.api_is_map;
  incoming_bounded = s.incoming_bounded;
  api_bounded = s.api_bounded;
  counted =
      one_less c.total_goroutines (running_count c)
        (running_count
          (record c { awaiting_removal_view_list = insert p new c.awaiting_removal_view_list }))
        s.counted
        (omega (arith, less, weigh-insert_old peer_live p new info c.awaiting_removal_view_list h));
}

-- The entry after one of its goroutines stopped, in the place where it was.
stored-Entry :
    (p : Peer) (viewed : Bool) (new : PeerInfo) (c : Central)
    → new.endpoint.peer ≡ p
    → Entry new.endpoint.peer new (store_outgoing p viewed new c)
unfolding store_outgoing
stored-Entry p true new c n =
    subst (λ q. Entry q new (store_outgoing p true new c)) (sym n)
      (inl (ground (arith, get_value-put p p new c.view_list)))
stored-Entry p false new c n =
    subst (λ q. Entry q new (store_outgoing p false new c)) (sym n)
      (inr (lookup-insert_self p new c.awaiting_removal_view_list))

close_outgoing-Good :
    (p : Peer) (viewed listed is_reader err : Bool) (info : PeerInfo) (c : Central)
    → Sound c
    → info.endpoint.peer ≡ p
    → ((new : PeerInfo)
        → new.endpoint ≡ info.endpoint
        → peer_live info ≡ peer_live new + 1
        → Sound (store_outgoing p viewed new (decrement c)))
    → Each Good (close_outgoing p viewed listed is_reader err info c)
unfolding close_outgoing
close_outgoing-Good p viewed listed is_reader err info c s n stored =
    elim (Option-cases (stop_goroutine is_reader info.state)) [
      | inl before ↦ rw (before, close_outgoing) (returns-Good c s)
      | inr (t, stop) ↦
          let new : PeerInfo = record info { state = t; has_crashed = info.has_crashed || err } in
          rw (stop, close_outgoing)
            (outgoing_settled-Good new listed _
              (stored new refl (stop_goroutine-live is_reader info.state t stop))
              (stored-Entry p viewed new (decrement c) n))
    ]

outgoing_closed-Good :
    (endp : P2PEndpoint) (is_reader err : Bool) (c : Central)
    → Sound c
    → Each Good (outgoing_peer_closed endp is_reader err c)
unfolding outgoing_peer_closed
outgoing_closed-Good endp is_reader err c s =
    let p = endp.peer in
    elim (Option-cases (get_value p c.view_list)) [
      | inr (info, h) ↦
          rw (h, outgoing_peer_closed)
            (close_outgoing-Good p true _ is_reader err info c s (s.roster.named p info h)
              (λ new same less. view_stopped-Sound p info new c s h same less))
      | inl out ↦ elim (Option-cases (lookup p c.awaiting_removal_view_list)) [
        | inr (info, h) ↦
            rw (out, h, outgoing_peer_closed)
              (close_outgoing-Good p false true is_reader err info c s
                (s.roster.awaiting_named p info h)
                (λ new same less. awaiting_stopped-Sound p info new c s h same less))
        | inl gone ↦ rw (out, gone, outgoing_peer_closed) (returns-Good c s)
      ]
    ]

p2p_closed-Good :
    (endp : P2PEndpoint) (is_reader err : Bool) (c : Central)
    → Sound c
    → Each Good (p2p_closed endp is_reader err c)
unfolding p2p_closed
p2p_closed-Good endp is_reader err c s =
    Each-if Good endp.is_outgoing (outgoing_peer_closed endp is_reader err c)
      (incoming_peer_closed endp is_reader err c)
      (λ ours. outgoing_closed-Good endp is_reader err c s)
      (λ theirs. incoming_closed-Good endp is_reader err c s)

pub p2p_endpoint_crashed-Good :
    (a : AnyMessage) (c : Central) → Sound c → Each Good (p2p_endpoint_crashed_handler a c)
unfolding p2p_endpoint_crashed_handler
p2p_endpoint_crashed-Good (AnyMessage.p2p_endpoint_crashed endp is_reader err) c s =
    p2p_closed-Good endp is_reader true c s
p2p_endpoint_crashed-Good _ c s = returns-Good c s

pub p2p_endpoint_closed-Good :
    (a : AnyMessage) (c : Central) → Sound c → Each Good (p2p_endpoint_closed_handler a c)
unfolding p2p_endpoint_closed_handler
p2p_endpoint_closed-Good (AnyMessage.p2p_endpoint_closed endp is_reader) c s =
    p2p_closed-Good endp is_reader false c s
p2p_endpoint_closed-Good _ c s = returns-Good c s

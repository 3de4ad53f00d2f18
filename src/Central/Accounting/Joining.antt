-- ===== src/Central/Accounting/Joining.antt =====
-- Adding, removing and probing peers keeps the count.
use gossip_protocol.Base.{
  ◌≡◌, Bool, true, false, ◌||◌, none, some, List, [], ◌∷◌, lookup, insert, erase, contains, ◌>>=◌,
  >>=-eq-some, Option-cases, inl, inr, ◌∙◌, ap, arith, weigh-insert_new, weigh-erase, pos, leb_ℤ,
  if◌then◌else◌, lookup-insert_self, Bool-cases,
}
use gossip_protocol.Datastruct.IndexedMap.{
  IndexedMap, get_value, put, remove, weigh_values-put_new, weigh_values-remove, is_member,
}
use gossip_protocol.Message.{
  Peer, Peer-Comparable, ApiClient-Comparable, AnyMessage, peer_add_msg, peer_value,
  probe_peer_reply_msg, probe_peer_reply,
}
use gossip_protocol.Central.State.{Central, PeerInfo, Effect, im, emit, send_membership}
use gossip_protocol.Central.Peers.{
  add_unknown, add_peer, peer_add_handler, remove_viewed, remove_unknown, remove_peer,
  peer_remove_handler, probe_peer, probe_peer_request_handler, take_probe,
  central_probe_peer_reply_handler,
}
use gossip_protocol.Central.Roster.{move_in-Roster, move_out-Roster, create-Roster}
use gossip_protocol.Central.Accounting.Count.{
  Sound, Good, Each, Each-some, returns-Good, then_return-Good, emit-Sound, send_membership-Sound,
  peer_live,
}
use gossip_protocol.Central.Accounting.Lending.{settle-Sound}

-- Marks on the probed peers do not count.
probed-Sound :
    (c : Central) (probed : List (Peer × Bool))
    → Sound c
    → Sound (record c { actively_probed_peers = probed })
probed-Sound c probed s = record {
  roster = s.roster;
  incoming_is_map = s.incoming_is_map;
  api_is_map = s.api_is_map;
  incoming_bounded = s.incoming_bounded;
  api_bounded = s.api_bounded;
  counted = s.counted;
}

created-Sound :
    (p : Peer) (b : Bool) (c : Central)
    → Sound c
    → get_value p c.view_list ≡ none
    → lookup p c.awaiting_removal_view_list ≡ none
    → Sound (record c { actively_created_peers = insert p b c.actively_created_peers })
created-Sound p b c s h k = record {
  roster = create-Roster _ _ _ s.roster p b h k;
  incoming_is_map = s.incoming_is_map;
  api_is_map = s.api_is_map;
  incoming_bounded = s.incoming_bounded;
  api_bounded = s.api_bounded;
  counted = s.counted;
}

add_unknown-Sound :
    (p : Peer) (c : Central)
    → Sound c
    → get_value p c.view_list ≡ none
    → lookup p c.awaiting_removal_view_list ≡ none
    → Sound (add_unknown p c)
unfolding add_unknown
add_unknown-Sound p c s h k = elim (Bool-cases (contains p c.actively_created_peers)) [
  | inl there ↦ rw (there, add_unknown) (created-Sound p false c s h k)
  | inr absent ↦ elim (Bool-cases (contains p c.actively_probed_peers)) [
    | inl there ↦ rw (absent, there, add_unknown) (probed-Sound c _ s)
    | inr new ↦ rw (absent, new, add_unknown) (emit-Sound _ _ (created-Sound p false c s h k))
  ]
]

move_in-Sound :
    (p : Peer) (info : PeerInfo) (c : Central)
    → Sound c
    → get_value p c.view_list ≡ none
    → lookup p c.awaiting_removal_view_list ≡ some info
    → Sound (record c {
      awaiting_removal_view_list = erase p c.awaiting_removal_view_list;
      view_list = put p info c.view_list;
    })
move_in-Sound p info c s h k = record {
  roster = move_in-Roster _ _ _ s.roster p info k;
  incoming_is_map = s.incoming_is_map;
  api_is_map = s.api_is_map;
  incoming_bounded = s.incoming_bounded;
  api_bounded = s.api_bounded;
  counted =
      s.counted
      ∙ ap pos (
          omega (
            arith,
            weigh_values-put_new peer_live p info c.view_list h,
            weigh-erase peer_live p info c.awaiting_removal_view_list s.roster.awaiting_is_map k,
          ));
}

not_member :
    (p : Peer) (t : IndexedMap Peer PeerInfo) → is_member p t ≡ false → get_value p t ≡ none
unfolding get_value
not_member p t h = ground arith

add_peer-Sound : (p : Peer) (c : Central) → Sound c → Sound (add_peer p c)
unfolding add_peer
add_peer-Sound p c s = elim (Bool-cases (is_member p c.view_list)) [
  | inl there ↦ rw (there, add_peer) s
  | inr absent ↦
      let out = not_member p c.view_list absent in
      elim (Option-cases (lookup p c.awaiting_removal_view_list)) [
        | inl gone ↦ rw (absent, gone, add_peer) (add_unknown-Sound p c s out gone)
        | inr (info, h) ↦ rw (absent, h, add_peer) (move_in-Sound p info c s out h)
      ]
]

pub peer_add-Good : (a : AnyMessage) (c : Central) → Sound c → Each Good (peer_add_handler a c)
unfolding peer_add_handler
peer_add-Good (AnyMessage.peer_value peer) c s = returns-Good _ (add_peer-Sound peer c s)
peer_add-Good _ c s = returns-Good c s

move_out-Sound :
    (p : Peer) (info : PeerInfo) (view : IndexedMap Peer PeerInfo) (c : Central)
    → Sound c
    → get_value p c.view_list ≡ some info
    → lookup p c.awaiting_removal_view_list ≡ none
    → remove p c.view_list ≡ some view
    → Sound (record c {
      view_list = view;
      awaiting_removal_view_list = insert p info c.awaiting_removal_view_list;
    })
move_out-Sound p info view c s h k e = record {
  roster = move_out-Roster _ _ _ s.roster p info view h e;
  incoming_is_map = s.incoming_is_map;
  api_is_map = s.api_is_map;
  incoming_bounded = s.incoming_bounded;
  api_bounded = s.api_bounded;
  counted =
      s.counted
      ∙ ap pos (
          omega (
            arith,
            weigh_values-remove peer_live p info c.view_list view s.roster.is_indexed h e,
            weigh-insert_new peer_live p info c.awaiting_removal_view_list k,
          ));
}

remove_viewed-Sound :
    (p : Peer) (info : PeerInfo) (c : Central)
    → Sound c
    → get_value p c.view_list ≡ some info
    → lookup p c.awaiting_removal_view_list ≡ none
    → Each Sound (remove_viewed p info c)
unfolding remove_viewed
remove_viewed-Sound p info c s h k r e =
    let (view, removed, last) = >>=-eq-some (remove p c.view_list) _ e in
    let moved = move_out-Sound p info view c s h k removed in
    Each-some Sound _
      (elim (Bool-cases (leb_ℤ info.usage_counter (pos 0))) [
        | inl unused ↦
            rw unused
              (settle-Sound p info _ moved (lookup-insert_self p info c.awaiting_removal_view_list))
        | inr used ↦ rw used moved
      ])
      r last

remove_unknown-Sound :
    (p : Peer) (c : Central)
    → Sound c
    → get_value p c.view_list ≡ none
    → lookup p c.awaiting_removal_view_list ≡ none
    → Sound (remove_unknown p c)
unfolding remove_unknown
remove_unknown-Sound p c s h k = elim (Bool-cases (contains p c.actively_created_peers)) [
  | inl there ↦ rw (there, remove_unknown) (created-Sound p true c s h k)
  | inr absent ↦ elim (Bool-cases (contains p c.actively_probed_peers)) [
    | inl there ↦ rw (absent, there, remove_unknown) (probed-Sound c _ s)
    | inr new ↦ rw (absent, new, remove_unknown) s
  ]
]

remove_peer-Sound : (p : Peer) (c : Central) → Sound c → Each Sound (remove_peer p c)
unfolding remove_peer
remove_peer-Sound p c s = elim (Option-cases (lookup p c.awaiting_removal_view_list)) [
  | inr (info, h) ↦ rw (h, remove_peer) (Each-some Sound c s)
  | inl gone ↦ elim (Option-cases (get_value p c.view_list)) [
    | inr (info, h) ↦ rw (gone, h, remove_peer) (remove_viewed-Sound p info c s h gone)
    | inl out ↦
        rw (gone, out, remove_peer) (Each-some Sound _ (remove_unknown-Sound p c s out gone))
  ]
]

pub peer_remove-Good :
    (a : AnyMessage) (c : Central) → Sound c → Each Good (peer_remove_handler a c)
unfolding peer_remove_handler
peer_remove-Good (AnyMessage.peer_value peer) c s = then_return-Good _ (remove_peer-Sound peer c s)
peer_remove-Good _ c s = returns-Good c s

probe_peer-Sound : (p : Peer) (c : Central) → Sound c → Each Sound (probe_peer p c)
unfolding probe_peer
probe_peer-Sound p c s =
    elim (Bool-cases (
      is_member p c.view_list
      || contains p c.awaiting_removal_view_list
      || contains p c.actively_created_peers)) [
        | inl known ↦ rw (known, probe_peer) (send_membership-Sound _ c s)
        | inr new ↦ rw (new, probe_peer) (Each-some Sound _ (emit-Sound _ _ (probed-Sound c _ s)))
      ]

pub probe_peer_request-Good :
    (a : AnyMessage) (c : Central) → Sound c → Each Good (probe_peer_request_handler a c)
unfolding probe_peer_request_handler
probe_peer_request-Good (AnyMessage.peer_value peer) c s =
    then_return-Good _ (probe_peer-Sound peer c s)
probe_peer_request-Good _ c s = returns-Good c s

take_probe-Sound : (p : Peer) (b : Bool) (c : Central) → Sound c → Each Sound (take_probe p b c)
unfolding take_probe
take_probe-Sound p b c s = elim (Option-cases (lookup p c.actively_probed_peers)) [
  | inl gone ↦ rw (gone, take_probe) (Each-some Sound c s)
  | inr (add, h) ↦ rw (h, take_probe) (λ r e. told add r e)
]
  where
    told :
        (add : Bool)
        → Each Sound (
            send_membership
              (im probe_peer_reply_msg (probe_peer_reply p b))
              (record c { actively_probed_peers = erase p c.actively_probed_peers })
            >>= (λ x.
                some (
                  if add
                  then emit (Effect.to_self (im peer_add_msg (peer_value p)) ∷ []) x
                  else x)))
    told true r e =
        let (x, sent, last) = >>=-eq-some _ _ e in
        Each-some Sound _ (emit-Sound _ x (send_membership-Sound _ _ (probed-Sound c _ s) x sent)) r
          last
    told false r e =
        let (x, sent, last) = >>=-eq-some _ _ e in
        Each-some Sound _ (send_membership-Sound _ _ (probed-Sound c _ s) x sent) r last

pub central_probe_peer_reply-Good :
    (a : AnyMessage) (c : Central) → Sound c → Each Good (central_probe_peer_reply_handler a c)
unfolding central_probe_peer_reply_handler
central_probe_peer_reply-Good (AnyMessage.central_probe_peer_reply peer b) c s =
    then_return-Good _ (take_probe-Sound peer b c s)
central_probe_peer_reply-Good _ c s = returns-Good c s

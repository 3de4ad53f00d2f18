-- ===== src/Central/Accounting/Lending.antt =====
-- Lending peers to the Gossiper and taking them back keeps the count.
use gossip_protocol.Base.{
  ℕ, ◌≡◌, refl, Option, some, List, [], ◌∷◌, lookup, insert, erase, >>=-eq-some, Option-cases, inl,
  inr, ◌∙◌, ap, arith, weigh-insert_old, weigh-erase, pos, leb_ℤ, lookup-insert_self, Bool-cases,
  slice_to, ◌>>=◌, min,
}
use gossip_protocol.Datastruct.IndexedMap.{get_value, put, weigh_values-put_old, key_at_index, len}
use gossip_protocol.Message.{
  Peer, Peer-Comparable, AnyMessage, RandomPeerListRequest, random_peer_list_reply_msg,
  random_peer_list_reply,
}
use gossip_protocol.Central.State.{Central, PeerInfo, have_both_stopped, im, send_gossiper}
use gossip_protocol.Central.Random.{
  count_up, count_down, lend, lend_all, pick_random, random_peer_list_request_handler, settle,
  release_awaiting, release, release_all, random_peer_list_release_handler,
}
use gossip_protocol.Central.Roster.{
  view_update-Roster, awaiting_update-Roster, awaiting_erase-Roster,
}
use gossip_protocol.Central.Accounting.Count.{
  Sound, Good, Each, Each-some, Each->>=, returns-Good, then_return-Good, emit-Sound,
  send_gossiper-Sound, peer_live, have_both_stopped-live,
}

-- An entry of the view list is replaced by one with as many goroutines.
pub same_view-Sound :
    (p : Peer) (old info : PeerInfo) (c : Central)
    → Sound c
    → get_value p c.view_list ≡ some old
    → info.endpoint ≡ old.endpoint
    → peer_live info ≡ peer_live old
    → Sound (record c { view_list = put p info c.view_list })
same_view-Sound p old info c s h same equal = record {
  roster =
      view_update-Roster _ _ _ s.roster p old info h
        (ap (λ e. e.peer) same ∙ s.roster.named p old h);
  incoming_is_map = s.incoming_is_map;
  api_is_map = s.api_is_map;
  incoming_bounded = s.incoming_bounded;
  api_bounded = s.api_bounded;
  counted =
      s.counted
      ∙ ap pos (omega (arith, equal, weigh_values-put_old peer_live p info old c.view_list h));
}

pub same_awaiting-Sound :
    (p : Peer) (old info : PeerInfo) (c : Central)
    → Sound c
    → lookup p c.awaiting_removal_view_list ≡ some old
    → info.endpoint ≡ old.endpoint
    → peer_live info ≡ peer_live old
    → Sound (record c { awaiting_removal_view_list = insert p info c.awaiting_removal_view_list })
same_awaiting-Sound p old info c s h same equal = record {
  roster =
      awaiting_update-Roster _ _ _ s.roster p old info h
        (ap (λ e. e.peer) same ∙ s.roster.awaiting_named p old h);
  incoming_is_map = s.incoming_is_map;
  api_is_map = s.api_is_map;
  incoming_bounded = s.incoming_bounded;
  api_bounded = s.api_bounded;
  counted =
      s.counted
      ∙ ap pos (
          omega
            (arith, equal, weigh-insert_old peer_live p info old c.awaiting_removal_view_list h));
}

-- An entry without goroutines leaves those that await removal.
pub drop_awaiting-Sound :
    (p : Peer) (old : PeerInfo) (c : Central)
    → Sound c
    → lookup p c.awaiting_removal_view_list ≡ some old
    → peer_live old ≡ 0
    → Sound (record c { awaiting_removal_view_list = erase p c.awaiting_removal_view_list })
drop_awaiting-Sound p old c s h zero = record {
  roster = awaiting_erase-Roster _ _ _ s.roster p;
  incoming_is_map = s.incoming_is_map;
  api_is_map = s.api_is_map;
  incoming_bounded = s.incoming_bounded;
  api_bounded = s.api_bounded;
  counted =
      s.counted
      ∙ ap pos (
          omega (
            arith,
            zero,
            weigh-erase peer_live p old c.awaiting_removal_view_list s.roster.awaiting_is_map h,
          ));
}

lend-Sound : (i : ℕ) (c : Central) → Sound c → Each (λ r. Sound (r.1)) (lend i c)
unfolding lend
lend-Sound i c s r e =
    let (peer, key, next) = >>=-eq-some (key_at_index i c.view_list) _ e in
    let (info, value, last) = >>=-eq-some (get_value peer c.view_list) _ next in
    Each-some (λ r. Sound (r.1)) _ (same_view-Sound peer info (count_up info) c s value refl refl) r
      last

lend_all-Sound : (is : List ℕ) (c : Central) → Sound c → Each (λ r. Sound (r.1)) (lend_all is c)
unfolding lend_all
lend_all-Sound [] c s = Each-some (λ r. Sound (r.1)) ([], c) s
lend_all-Sound (i ∷ is) c s =
    Each->>= (λ r. Sound (r.1)) (λ r. Sound (r.1)) (lend i c) _ (lend-Sound i c s)
      (λ x sx.
        Each->>= (λ r. Sound (r.1)) (λ r. Sound (r.1)) (lend_all is (x.1)) _
          (lend_all-Sound is (x.1) sx) (λ y sy. Each-some (λ r. Sound (r.1)) _ sy))

pick_random-Sound :
    (perm : ℕ → List ℕ) (msg : RandomPeerListRequest) (c : Central)
    → Sound c
    → Each Sound (pick_random perm msg c)
unfolding pick_random
pick_random-Sound perm msg c s =
    let reply : List Peer × Central → Option Central = λ x.
      send_gossiper (im random_peer_list_reply_msg (random_peer_list_reply msg.related (x.0)))
        (x.1) in
    Each->>= (λ is. Unit) Sound (slice_to (min msg.num (len c.view_list)) (perm (len c.view_list)))
      (λ is. lend_all is c >>= reply) (λ is e. tt)
      (λ is u.
        Each->>= (λ r. Sound (r.1)) Sound (lend_all is c) reply (lend_all-Sound is c s)
          (λ x sx.
            send_gossiper-Sound
              (im random_peer_list_reply_msg (random_peer_list_reply msg.related (x.0))) (x.1) sx))

pub random_peer_list_request-Good :
    (perm : ℕ → List ℕ) (a : AnyMessage) (c : Central)
    → Sound c
    → Each Good (random_peer_list_request_handler perm a c)
unfolding random_peer_list_request_handler
random_peer_list_request-Good perm (AnyMessage.random_peer_list_request msg) c s =
    then_return-Good _ (pick_random-Sound perm msg c s)
random_peer_list_request-Good perm _ c s = returns-Good c s

pub settle-Sound :
    (p : Peer) (info : PeerInfo) (c : Central)
    → Sound c
    → lookup p c.awaiting_removal_view_list ≡ some info
    → Sound (settle p info c)
unfolding settle
settle-Sound p info c s h = elim (Bool-cases (have_both_stopped info.state)) [
  | inl done ↦ rw done (drop_awaiting-Sound p info c s h (have_both_stopped-live info.state done))
  | inr waits ↦ rw waits (emit-Sound _ c s)
]

release_awaiting-Sound :
    (p : Peer) (info : PeerInfo) (c : Central)
    → Sound c
    → lookup p c.awaiting_removal_view_list ≡ some info
    → Sound (release_awaiting p info c)
unfolding release_awaiting
release_awaiting-Sound p info c s h =
    let less = count_down info in
    let counted = same_awaiting-Sound p info less c s h refl refl in
    elim (Bool-cases (leb_ℤ less.usage_counter (pos 0))) [
      | inl last ↦
          rw last
            (settle-Sound p less _ counted (lookup-insert_self p less c.awaiting_removal_view_list))
      | inr used ↦ rw used counted
    ]

release-Sound : (p : Peer) (c : Central) → Sound c → Sound (release p c)
unfolding release
release-Sound p c s = elim (Option-cases (get_value p c.view_list)) [
  | inr (info, h) ↦ rw (h, release) (same_view-Sound p info (count_down info) c s h refl refl)
  | inl out ↦
      rw (out, release)
        (elim (Option-cases (lookup p c.awaiting_removal_view_list)) [
          | inr (info, h) ↦ rw h (release_awaiting-Sound p info c s h)
          | inl gone ↦ rw gone s
        ])
]

release_all-Sound : (ps : List Peer) (c : Central) → Sound c → Sound (release_all ps c)
unfolding release_all
release_all-Sound [] c s = s
release_all-Sound (p ∷ ps) c s = release_all-Sound ps (release p c) (release-Sound p c s)

pub random_peer_list_release-Good :
    (a : AnyMessage) (c : Central) → Sound c → Each Good (random_peer_list_release_handler a c)
unfolding random_peer_list_release_handler
random_peer_list_release-Good (AnyMessage.random_peer_list_release peers) c s =
    returns-Good _ (release_all-Sound peers c s)
random_peer_list_release-Good _ c s = returns-Good c s

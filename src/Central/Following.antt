-- ===== src/Central/Following.antt =====
-- The Central controller follows the view list of the Membership controller: the peers that it keeps,
-- is to keep once they are created, or is to create once they are probed.
use gossip_protocol.Base.{
  ℕ, ◌≡◌, refl, ap, ◌∙◌, ◌⊎◌, inl, inr, Bool, true, false, not, ◌||◌, Option, none, some, List, [],
  ◌∷◌, map, lookup, insert, erase, arith, lookup-insert, lookup-erase, some_cancel, ite, is_some,
  Bool-cases, Option-cases, ◌>>=◌, leb_ℤ, pos,
}
use gossip_protocol.Datastruct.IndexedMap.{get_value, put, get_value-put, remove-Removes}
use gossip_protocol.Message.{Peer, Peer-Comparable, InternalMessage}
use gossip_protocol.Central.State.{Effect, Central, PeerInfo, emit, have_both_stopped, returns}
use gossip_protocol.Membership.Notices.{told, kept_after, addition, removal, notice}
use gossip_protocol.Central.Random.{settle}
use gossip_protocol.Central.Forward.{then_return}
use gossip_protocol.Central.Peers.{
  add_peer, add_unknown, remove_peer, remove_viewed, remove_unknown, peer_add_handler,
  peer_remove_handler,
}
use gossip_protocol.Central.Dispatch.{turn, dispatch}
use gossip_protocol.Central.Roster.{
  Roster, awaiting_erase-Roster, move_in-Roster, move_out-Roster, create-Roster,
}

-- A peer that is created stays, unless it was removed meanwhile; one that is probed is created
-- afterwards, if it was added meanwhile.
abbrev is_created : Option Bool → Bool
is_created none = false
is_created (some removed) = not removed

abbrev is_probed : Option Bool → Bool
is_probed none = false
is_probed (some added) = added

abbrev pub wanted : Peer → Central → Bool
wanted p c =
    is_some (get_value p c.view_list)
    || is_created (lookup p c.actively_created_peers)
    || is_probed (lookup p c.actively_probed_peers)

-- No peer is in two of the four tables of outgoing peers.
pub record AreApart (c : Central) : Type 0 where
  pub roster : Roster c.view_list c.awaiting_removal_view_list c.actively_created_peers
  pub probed_apart :
      (p : Peer)
      → (lookup p c.actively_probed_peers ≡ none)
        ⊎ ((get_value p c.view_list ≡ none)
            × (lookup p c.awaiting_removal_view_list ≡ none)
            × (lookup p c.actively_created_peers ≡ none))

record Followed (o : Option Central) (p : Peer) (b : Bool) (c : Central) : Type 0 where
  after : Central
  result : o ≡ some after
  apart : AreApart after
  wants : (j : Peer) → wanted j after ≡ ite (Peer-Comparable.dec p j) b (wanted j c)
  stopping : after.is_stopping ≡ c.is_stopping

added_unknown :
    (p : Peer) (c : Central)
    → AreApart c
    → get_value p c.view_list ≡ none
    → lookup p c.awaiting_removal_view_list ≡ none
    → Followed (some (add_unknown p c)) p true c
unfolding add_unknown emit
added_unknown p c a absent away = elim (Option-cases (lookup p c.actively_created_peers)) [
  | inr (b, creating) ↦ record {
    after = record c { actively_created_peers = insert p false c.actively_created_peers };
    result = rw (creating, add_unknown) refl;
    apart = record {
      roster = create-Roster _ _ _ a.roster p false absent away;
      probed_apart = λ q.
          ground
            (arith, a.probed_apart q, creating, lookup-insert p q false c.actively_created_peers);
    };
    wants = λ j. ground (arith, lookup-insert p j false c.actively_created_peers);
    stopping = refl;
  }
  | inl new ↦ elim (Option-cases (lookup p c.actively_probed_peers)) [
    | inr (b, probing) ↦ record {
      after = record c { actively_probed_peers = insert p true c.actively_probed_peers };
      result = rw (new, probing, add_unknown) refl;
      apart = record {
        roster = a.roster;
        probed_apart = λ q. ground (
          arith,
          a.probed_apart q,
          absent,
          away,
          new,
          lookup-insert p q true c.actively_probed_peers,
        );
      };
      wants = λ j. ground (arith, lookup-insert p j true c.actively_probed_peers);
      stopping = refl;
    }
    | inl unknown ↦ record {
      after =
          emit (Effect.dial p ∷ [])
            (record c { actively_created_peers = insert p false c.actively_created_peers });
      result = rw (new, unknown, add_unknown) refl;
      apart = record {
        roster = create-Roster _ _ _ a.roster p false absent away;
        probed_apart = λ q.
            ground
              (arith, a.probed_apart q, unknown, lookup-insert p q false c.actively_created_peers);
      };
      wants = λ j. ground (arith, lookup-insert p j false c.actively_created_peers);
      stopping = refl;
    }
  ]
]

added : (p : Peer) (c : Central) → AreApart c → Followed (some (add_peer p c)) p true c
unfolding add_peer add_unknown emit get_value
added p c a = elim (Option-cases (lookup p c.view_list.m)) [
  | inr (info, here) ↦ record {
    after = c;
    result = rw (here, add_peer) refl;
    apart = a;
    wants = λ j. ground (arith, here);
    stopping = refl;
  }
  | inl absent ↦ elim (Option-cases (lookup p c.awaiting_removal_view_list)) [
    | inr (info, waits) ↦ record {
      after = record c {
        awaiting_removal_view_list = erase p c.awaiting_removal_view_list;
        view_list = put p info c.view_list;
      };
      result = rw (absent, waits, add_peer) refl;
      apart = record {
        roster = move_in-Roster _ _ _ a.roster p info waits;
        probed_apart = λ q. ground (
          arith,
          a.probed_apart q,
          a.probed_apart p,
          waits,
          get_value-put p q info c.view_list,
          lookup-erase p q c.awaiting_removal_view_list,
        );
      };
      wants = λ j. ground (arith, get_value-put p j info c.view_list);
      stopping = refl;
    }
    | inl away ↦ rw (absent, away, add_peer) (added_unknown p c a (ground (arith, absent)) away)
  ]
]

-- A peer that is in none of the tables of the Roster.
removed_unknown :
    (p : Peer) (c : Central)
    → AreApart c
    → get_value p c.view_list ≡ none
    → lookup p c.awaiting_removal_view_list ≡ none
    → Followed (some (remove_unknown p c)) p false c
unfolding remove_unknown
removed_unknown p c a absent away = elim (Option-cases (lookup p c.actively_created_peers)) [
  | inr (b, creating) ↦ record {
    after = record c { actively_created_peers = insert p true c.actively_created_peers };
    result = rw (creating, remove_unknown) refl;
    apart = record {
      roster = create-Roster _ _ _ a.roster p true absent away;
      probed_apart = λ q.
          ground
            (arith, a.probed_apart q, creating, lookup-insert p q true c.actively_created_peers);
    };
    wants = λ j. ground (
      arith,
      lookup-insert p j true c.actively_created_peers,
      absent,
      a.probed_apart p,
      creating,
    );
    stopping = refl;
  }
  | inl new ↦ elim (Option-cases (lookup p c.actively_probed_peers)) [
    | inr (b, probing) ↦ record {
      after = record c { actively_probed_peers = insert p false c.actively_probed_peers };
      result = rw (new, probing, remove_unknown) refl;
      apart = record {
        roster = a.roster;
        probed_apart = λ q. ground (
          arith,
          a.probed_apart q,
          absent,
          away,
          new,
          lookup-insert p q false c.actively_probed_peers,
        );
      };
      wants = λ j. ground (arith, lookup-insert p j false c.actively_probed_peers, absent, new);
      stopping = refl;
    }
    | inl unknown ↦ record {
      after = c;
      result = rw (new, unknown, remove_unknown) refl;
      apart = a;
      wants = λ j. ground (arith, absent, new, unknown);
      stopping = refl;
    }
  ]
]

-- What `settle` leaves of the tables.
record Settled (c d : Central) : Type 0 where
  apart : AreApart d
  wants : (j : Peer) → wanted j d ≡ wanted j c
  stopping : d.is_stopping ≡ c.is_stopping

settled : (p : Peer) (info : PeerInfo) (c : Central) → AreApart c → Settled c (settle p info c)
unfolding settle emit
settled p info c a = elim (Bool-cases (have_both_stopped info.state)) [
  | inl stopped ↦
      rw (stopped, settle)
        (record {
          apart = record {
            roster = awaiting_erase-Roster _ _ _ a.roster p;
            probed_apart = λ q.
                ground (arith, a.probed_apart q, lookup-erase p q c.awaiting_removal_view_list);
          };
          wants = λ j. refl;
          stopping = refl;
        })
  | inr running ↦
      rw (running, settle)
        (record {
          apart = record { roster = a.roster; probed_apart = a.probed_apart };
          wants = λ j. refl;
          stopping = refl;
        })
]

-- A member of the view list, which goes to those that await removal.
removed_viewed :
    (p : Peer) (info : PeerInfo) (c : Central)
    → AreApart c
    → lookup p c.awaiting_removal_view_list ≡ none
    → get_value p c.view_list ≡ some info
    → Followed (remove_viewed p info c) p false c
unfolding remove_viewed
removed_viewed p info c a away here =
    let r = remove-Removes p c.view_list a.roster.is_indexed in
    let moved : Central = record c {
      view_list = r.after;
      awaiting_removal_view_list = insert p info c.awaiting_removal_view_list;
    } in
    let apart : AreApart moved = record {
      roster = move_out-Roster _ _ _ a.roster p info r.after here r.result;
      probed_apart = λ q. ground (
        arith,
        a.probed_apart q,
        here,
        r.values q,
        lookup-insert p q info c.awaiting_removal_view_list,
      );
    } in
    let wants : (j : Peer) → wanted j moved ≡ ite (Peer-Comparable.dec p j) false (wanted j c) =
      λ j. ground (arith, r.values j, a.roster.created_apart p, a.probed_apart p, here) in
    let s = settled p info moved apart in
    elim (Bool-cases (leb_ℤ info.usage_counter (pos 0))) [
      | inl unused ↦ record {
        after = settle p info moved;
        result = rw (r.result, unused, remove_viewed) refl;
        apart = s.apart;
        wants = λ j. s.wants j ∙ wants j;
        stopping = s.stopping;
      }
      | inr used ↦ record {
        after = moved;
        result = rw (r.result, used, remove_viewed) refl;
        apart = apart;
        wants = wants;
        stopping = refl;
      }
    ]

removed : (p : Peer) (c : Central) → AreApart c → Followed (remove_peer p c) p false c
unfolding remove_peer
removed p c a = elim (Option-cases (lookup p c.awaiting_removal_view_list)) [
  | inr (info, waits) ↦ record {
    after = c;
    result = rw (waits, remove_peer) refl;
    apart = a;
    wants =
        λ j. ground (arith, waits, a.roster.apart p, a.roster.created_apart p, a.probed_apart p);
    stopping = refl;
  }
  | inl away ↦ elim (Option-cases (get_value p c.view_list)) [
    | inl absent ↦ rw (away, absent, remove_peer) (removed_unknown p c a absent away)
    | inr (info, here) ↦ rw (away, here, remove_peer) (removed_viewed p info c a away here)
  ]
]

-- The messages of `Run`, handled in turn while the controller does not stop.
unfoldable pub deliver : (ℕ → List ℕ) → List InternalMessage → Central → Option Central
unfolding turn
deliver perm [] c = some c
deliver perm (m ∷ ms) c = do (c', err) ← turn perm m c; deliver perm ms c'

turn-addition :
    (perm : ℕ → List ℕ) (p : Peer) (c : Central)
    → c.is_stopping ≡ false
    → turn perm (addition p) c ≡ returns (add_peer p c)
unfolding turn dispatch peer_add_handler
turn-addition perm p c s = ground arith

turn-removal :
    (perm : ℕ → List ℕ) (p : Peer) (c : Central)
    → c.is_stopping ≡ false
    → turn perm (removal p) c ≡ then_return (remove_peer p c)
unfolding turn dispatch peer_remove_handler
turn-removal perm p c s = ground arith

-- After the messages that add and remove peers the controller wants just what they say: the peers that
-- the last of them names as added, and, of the peers that none names, those that it wanted before.
pub deliver-wanted :
    (perm : ℕ → List ℕ) (ns : List (Peer × Bool)) (c : Central)
    → AreApart c
    → c.is_stopping ≡ false
    → (d : Central) × (deliver perm (map notice ns) c ≡ some d)
      × ((j : Peer) → wanted j d ≡ told j (wanted j c) (map notice ns))
unfolding deliver told kept_after then_return
deliver-wanted perm [] c a s = (c, refl, λ j. refl)
deliver-wanted perm ((p, true) ∷ ns) c a s =
    let f = added p c a in
    let (d, e, w) = deliver-wanted perm ns f.after f.apart (f.stopping ∙ s) in
    (
      d,
      rw (turn-addition perm p c s) (ap (deliver perm (map notice ns)) (some_cancel f.result) ∙ e),
      λ j. w j ∙ ap (λ b. told j b (map notice ns)) (f.wants j),
    )
deliver-wanted perm ((p, false) ∷ ns) c a s =
    let f = removed p c a in
    let (d, e, w) = deliver-wanted perm ns f.after f.apart (f.stopping ∙ s) in
    (
      d,
      rw (turn-removal perm p c s, f.result) e,
      λ j. w j ∙ ap (λ b. told j b (map notice ns)) (f.wants j),
    )

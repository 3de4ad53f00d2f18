-- ===== src/Membership/Preserving.antt =====
-- Each round and each handler of the Membership controller keeps its invariant, and none panics.
use gossip_protocol.Base.{
  length-append, ℕ, ◌+◌, ◌≤◌, ◌≡◌, refl, sym, ap, ◌∙◌, Bool, false, Option, some, List, [], ◌∷◌,
  ◌++◌, map, arith, Bool-cases, Option-cases, inl, inr, ◌>>=◌, Bytes, keys, ite,
}
use gossip_protocol.Datastruct.IndexedMap
use gossip_protocol.Datastruct.IndexedMap.{IsIndexed, remove-Removes, Removes}
use gossip_protocol.Datastruct.IndexedSet
use gossip_protocol.Datastruct.IndexedSet.{
  IndexedSet, IsListed, add-IsListed, len-add, new-IsListed, remove-SetRemoval, SetRemoval,
}
use gossip_protocol.Datastruct.SetType
use gossip_protocol.Message.{
  Peer, Peer-Comparable, Peer-discrete, probe_peer_request_msg, peer_value,
}
use gossip_protocol.Membership.State.{MembershipController, message, send}
use gossip_protocol.Membership.ViewList.{drop_from_view, drop_samplers, remove_peer}
use gossip_protocol.Membership.Rounds.{probe_peer_round}
use gossip_protocol.Membership.Samples.{
  update_sample_round, refresh_entries, create_samplers, add_to_set,
}
use gossip_protocol.Membership.Notices.{told, told-append, kept_after, removal}
use gossip_protocol.Membership.Replacing.{told_of}
use gossip_protocol.Membership.Sending.{IsQuiet}
use gossip_protocol.Membership.Capacity.{held, refresh-le, refresh-AreSets, length-create}
use gossip_protocol.Membership.Holding.{
  HaveSets, HaveSets-AreSets, AreSets-HaveSets, remove-HaveSets, held-remove,
  remove_emptied-Cleared, put_samplers-PutBack,
}
use gossip_protocol.Membership.Samplers.{refresh-IsIndexed}
use gossip_protocol.Membership.Invariant.{Inv, Keeps, send-Inv}

IsQuiet-probes :
    (ps : List Peer) → IsQuiet (map (λ peer. message probe_peer_request_msg (peer_value peer)) ps)
unfolding told kept_after message
IsQuiet-probes [] j b = refl
IsQuiet-probes (p ∷ ps) j b = IsQuiet-probes ps j b

told-removal : (j p : Peer) (b : Bool) → told j b (removal p ∷ []) ≡ ite (Peer-discrete p j) false b
unfolding told kept_after
told-removal j p b = refl

module _ {F : Type 0} {limit : ℕ} where
  pub then-Keeps :
      (f : MembershipController F → Option (MembershipController F))
      (o : Option (MembershipController F))
      → Keeps limit o
      → ((c : MembershipController F) → Inv limit c → Keeps limit (f c))
      → Keeps limit (o >>= f)
  then-Keeps f o k next =
      let n = next k.after k.inv in
      record { after = n.after; result = rw (k.result) (n.result); inv = n.inv }

  pub bind-Keeps :
      {A : Type 0} (f : A → Option (MembershipController F)) (o : Option A) (a : A)
      → o ≡ some a
      → Keeps limit (f a)
      → Keeps limit (o >>= f)
  bind-Keeps f o a e k = rw e k

  pub keeps : (c : MembershipController F) → Inv limit c → Keeps limit (some c)
  keeps c v = record { after = c; result = refl; inv = v }

  -- A change of fields that the invariant does not name.
  pub same-Inv :
      (c d : MembershipController F)
      → d.view_list ≡ c.view_list
      → d.pull_replies ≡ c.pull_replies
      → d.sample_list ≡ c.sample_list
      → d.pow_config ≡ c.pow_config
      → (d.alpha_size ≡ c.alpha_size) × (d.beta_size ≡ c.beta_size) × (d.gamma_size ≡ c.gamma_size)
      → d.view_list_cap ≡ c.view_list_cap
      → d.msg_out_queue ≡ c.msg_out_queue
      → d.sample_list_remaining_cap ≡ c.sample_list_remaining_cap
      → Inv limit c
      → Inv limit d
  same-Inv c d e1 e2 e3 e4 e5 e6 e7 e8 v = record {
    view_listed = rw e1 (v.view_listed);
    replies_listed = rw e2 (v.replies_listed);
    samples_indexed = rw e3 (v.samples_indexed);
    works = rw e4 (v.works);
    shares = omega (arith, e5, e6, v.shares);
    room = omega (arith, e6, v.room);
    within = rw (e1, e6) (v.within);
    have_sets = rw e3 (v.have_sets);
    holds = rw (e3, e8) (v.holds);
    small = v.small;
    agrees = λ j. rw (e1, e7) (v.agrees j);
  }

  pub probe_peer_round-Inv :
      (c : MembershipController F) → Inv limit c → Inv limit (probe_peer_round c)
  unfolding probe_peer_round
  probe_peer_round-Inv c v = send-Inv _ c (IsQuiet-probes (keys c.sample_list.m)) v

  -- Another map of the samplers and other replies.
  pub samples-Inv :
      (c d : MembershipController F)
      → d.view_list ≡ c.view_list
      → d.pow_config ≡ c.pow_config
      → (d.alpha_size ≡ c.alpha_size) × (d.beta_size ≡ c.beta_size) × (d.gamma_size ≡ c.gamma_size)
      → d.view_list_cap ≡ c.view_list_cap
      → d.msg_out_queue ≡ c.msg_out_queue
      → IsListed d.pull_replies
      → IsIndexed d.sample_list
      → HaveSets d.sample_list
      → held d.sample_list + d.sample_list_remaining_cap ≤ limit
      → Inv limit c
      → Inv limit d
  samples-Inv c d e1 e4 e5 e6 e7 l i h b v = record {
    view_listed = rw e1 (v.view_listed);
    replies_listed = l;
    samples_indexed = i;
    works = rw e4 (v.works);
    shares = omega (arith, e5, e6, v.shares);
    room = omega (arith, e6, v.room);
    within = rw (e1, e6) (v.within);
    have_sets = h;
    holds = b;
    small = v.small;
    agrees = λ j. rw (e1, e7) (v.agrees j);
  }

  module _ (sha256 : Bytes → Bytes) (crypt_blocks : Bytes → Bytes → Option Bytes) where
    pub update_sample_round-Keeps :
        (draw_key : ℕ → Option Bytes) (c : MembershipController F)
        → Inv limit c
        → Keeps limit (update_sample_round sha256 crypt_blocks draw_key c)
    unfolding update_sample_round
    update_sample_round-Keeps draw_key c v =
        let peers =
          SetType.elements (add_to_set (IndexedSet.elements c.pull_replies) c.push_requests) in
        let made =
          create_samplers sha256 crypt_blocks draw_key peers c.sample_list_remaining_cap 0
            c.samplers in
        let old = refresh_entries sha256 crypt_blocks peers c.sample_list.m made.1 in
        let k =
          remove_emptied-Cleared old.emptied (record (c.sample_list) { m = old.entries })
            (refresh-IsIndexed sha256 crypt_blocks peers c.sample_list made.1 v.samples_indexed)
            (AreSets-HaveSets (record (c.sample_list) { m = old.entries })
              (refresh-AreSets sha256 crypt_blocks peers c.sample_list.m made.1
                v.samples_indexed.is_map (HaveSets-AreSets c.sample_list v.have_sets))) in
        let back =
          put_samplers-PutBack (made.0 ++ old.changed) old.heap k.rest k.is_indexed k.have_sets in
        bind-Keeps _ _ k.rest k.result (
          keeps _ (
            samples-Inv c _ refl refl (refl, refl, refl) refl refl new-IsListed back.is_indexed
              back.have_sets
              (omega (
                arith,
                back.more,
                k.fewer,
                length-append made.0 old.changed,
                length-create sha256 crypt_blocks draw_key peers c.sample_list_remaining_cap 0
                    c.samplers,
                refresh-le sha256 crypt_blocks peers c.sample_list.m made.1 v.samples_indexed.is_map
                    (HaveSets-AreSets c.sample_list v.have_sets),
                v.holds,
                v.small,
              ))
              v))

  forget-Inv :
      (peer : Peer) (c : MembershipController F) (r : SetRemoval peer c.view_list)
      → Inv limit c
      → Inv limit (told_of r.rest (removal peer ∷ []) c)
  forget-Inv peer c r v = record {
    view_listed = r.is_listed;
    replies_listed = v.replies_listed;
    samples_indexed = v.samples_indexed;
    works = v.works;
    shares = v.shares;
    room = v.room;
    within = omega (arith, r.size, v.within);
    have_sets = v.have_sets;
    holds = v.holds;
    small = v.small;
    agrees = λ j.
        told-append j false c.msg_out_queue (removal peer ∷ [])
        ∙ told-removal j peer (told j false c.msg_out_queue)
        ∙ ap (λ b. ite (Peer-discrete peer j) false b) (v.agrees j)
        ∙ sym (r.members j);
  }

  pub drop_from_view-Keeps :
      (peer : Peer) (c : MembershipController F) → Inv limit c → Keeps limit (drop_from_view peer c)
  unfolding drop_from_view send message
  drop_from_view-Keeps peer c v = elim (Bool-cases (IndexedSet.is_member peer c.view_list)) [
    | inr absent ↦ rw (absent, drop_from_view) (keeps c v)
    | inl here ↦
        let r = remove-SetRemoval peer c.view_list v.view_listed in
        rw (here, drop_from_view) (bind-Keeps _ _ r.rest r.result (keeps _ (forget-Inv peer c r v)))
  ]

  drop_samplers-Keeps :
      (peer : Peer) (c : MembershipController F) → Inv limit c → Keeps limit (drop_samplers peer c)
  unfolding drop_samplers
  drop_samplers-Keeps peer c v = elim (Option-cases (IndexedMap.get_value peer c.sample_list)) [
    | inl gone ↦ rw (gone, drop_samplers) (keeps c v)
    | inr (set, here) ↦
        let r = remove-Removes peer c.sample_list v.samples_indexed in
        rw (here, drop_samplers)
          (bind-Keeps _ _ r.after r.result (
            keeps _ (
              samples-Inv c _ refl refl (refl, refl, refl) refl refl v.replies_listed r.is_indexed
                (remove-HaveSets peer c.sample_list r v.have_sets)
                (omega (
                  arith,
                  held-remove peer set c.sample_list r v.samples_indexed here,
                  v.holds,
                  v.small,
                ))
                v)))
  ]

  -- A peer that is gone is removed without a panic.
  pub remove_peer-Keeps :
      (peer : Peer) (c : MembershipController F) → Inv limit c → Keeps limit (remove_peer peer c)
  unfolding remove_peer
  remove_peer-Keeps peer c v =
      then-Keeps _ (drop_from_view peer c) (drop_from_view-Keeps peer c v) (λ c' v'.
        then-Keeps _ (drop_samplers peer c') (drop_samplers-Keeps peer c' v') (λ c'' v''.
          let r = remove-SetRemoval peer c''.pull_replies v''.replies_listed in
          bind-Keeps _ _ r.rest r.result (
            keeps _ (
              samples-Inv c'' _ refl refl (refl, refl, refl) refl refl r.is_listed
                v''.samples_indexed v''.have_sets v''.holds v''))))

-- ===== src/Membership/Invariant.antt =====
-- The invariant of the Membership controller, and the rounds that keep it.
use gossip_protocol.Base.{
  ℕ, ◌+◌, ◌^◌, ◌≤◌, ◌<◌, ◌≡◌, ◌≢◌, refl, sym, ap, ◌∙◌, false, Option, some, List, [], ◌∷◌, length,
  take, slice_to-take, min, All, arith, get_elem?_lt, Bool-cases, inl, inr, length-keys,
}
use gossip_protocol.Datastruct.IndexedMap
use gossip_protocol.Datastruct.IndexedMap.{IsIndexed, IndexedMap}
use gossip_protocol.Datastruct.IndexedSet
use gossip_protocol.Datastruct.IndexedSet.{
  IndexedSet, IsListed, add-IsListed, len-add, new-IsListed,
}
use gossip_protocol.Datastruct.SetType
use gossip_protocol.Datastruct.SetType.{SetOf, empty_set, set_len}
use gossip_protocol.Message.{Peer, Peer-Comparable, InternalMessage}
use gossip_protocol.Membership.State.{MembershipController, send}
use gossip_protocol.Membership.ViewList.{replace_view_list}
use gossip_protocol.Membership.Rounds.{
  Draws, add_peers, add_indexed, new_view_list, is_update_due, update_round,
}
use gossip_protocol.Membership.Notices.{told, told-append}
use gossip_protocol.Membership.Replacing.{told_of, replaced, add_peers-IsListed}
use gossip_protocol.Membership.Capacity.{held}
use gossip_protocol.Membership.Holding.{HaveSets}
use gossip_protocol.Membership.Sending.{IsQuiet, IsPerm, Sends, take-All, length-take-le}

len-add_peers-le :
    (ps : List Peer) (s : IndexedSet Peer)
    → IndexedSet.len (add_peers ps s) ≤ IndexedSet.len s + length ps
unfolding add_peers
len-add_peers-le [] s = omega arith
len-add_peers-le (p ∷ ps) s = ground (arith, len-add_peers-le ps (IndexedSet.add p s), len-add p s)

-- The filled list, and its length.
pub record Filled (at : ℕ → Option Peer) (is : List ℕ) (s : IndexedSet Peer) : Type 0 where
  pub list : IndexedSet Peer
  pub result : add_indexed at is s ≡ some list
  pub is_listed : IsListed list
  pub size : IndexedSet.len list ≤ IndexedSet.len s + length is

add_indexed-Filled :
    (at : ℕ → Option Peer) (n : ℕ) (is : List ℕ) (s : IndexedSet Peer)
    → ((i : ℕ) → i < n → (p : Peer) × (at i ≡ some p))
    → All (λ i. i < n) is
    → IsListed s
    → Filled at is s
unfolding add_indexed
add_indexed-Filled at n [] s there h w = record {
  list = s;
  result = refl;
  is_listed = w;
  size = omega arith;
}
add_indexed-Filled at n (i ∷ is) s there h w =
    let (p, e) = there i h.0 in
    let ih = add_indexed-Filled at n is (IndexedSet.add p s) there h.1 (add-IsListed p s w) in
    record {
      list = ih.list;
      result = rw (e, add_indexed) (ih.result);
      is_listed = ih.is_listed;
      size = ground (arith, ih.size, len-add p s);
    }

record NewList {F : Type 0} (draws : Draws F) (c : MembershipController F) : Type 0 where
  list : IndexedSet Peer
  result : new_view_list draws c ≡ some list
  is_listed : IsListed list
  size : IndexedSet.len list ≤ set_len c.push_requests + c.beta_size + c.gamma_size

module _ {F : Type 0} (limit : ℕ) where
  -- The containers are well-formed, the shares of the view list add up to its capacity, which the list
  -- is within, the samplers and the remaining capacity for them are within the limit, and the messages
  -- sent so far name just the peers of the view list.
  pub record Inv (c : MembershipController F) : Type 0 where
    pub view_listed : IsListed c.view_list
    pub replies_listed : IsListed c.pull_replies
    pub samples_indexed : IsIndexed c.sample_list
    pub works : c.pow_config.repetition ≢ 0
    pub shares : c.alpha_size + c.beta_size + c.gamma_size ≡ c.view_list_cap
    pub room : 1 ≤ c.view_list_cap
    pub within : IndexedSet.len c.view_list ≤ c.view_list_cap
    pub have_sets : HaveSets c.sample_list
    pub holds : held c.sample_list + c.sample_list_remaining_cap ≤ limit
    pub small : limit < 2 ^ 32
    pub agrees : (j : Peer) → told j false c.msg_out_queue ≡ IndexedSet.is_member j c.view_list

  -- A step that does not panic, and keeps the invariant.
  pub record Keeps (o : Option (MembershipController F)) : Type 0 where
    pub after : MembershipController F
    pub result : o ≡ some after
    pub inv : Inv after

module _ {F : Type 0} {limit : ℕ} where
  pub send-Inv :
      (ms : List InternalMessage) (c : MembershipController F)
      → IsQuiet ms
      → Inv limit c
      → Inv limit (send ms c)
  unfolding send
  send-Inv ms c q v = record {
    view_listed = v.view_listed;
    replies_listed = v.replies_listed;
    samples_indexed = v.samples_indexed;
    works = v.works;
    shares = v.shares;
    room = v.room;
    within = v.within;
    have_sets = v.have_sets;
    holds = v.holds;
    small = v.small;
    agrees = λ j.
        told-append j false c.msg_out_queue ms ∙ q j (told j false c.msg_out_queue) ∙ v.agrees j;
  }

  pub Sends-Keeps :
      {P : InternalMessage → Type 0} (o : Option (MembershipController F))
      (c : MembershipController F)
      → Sends P o c
      → Inv limit c
      → Keeps limit o
  Sends-Keeps o c s v = record {
    after = send s.sent c;
    result = s.result;
    inv = send-Inv s.sent c s.quiet v;
  }

  pub replace_view_list-Keeps :
      (list : IndexedSet Peer) (c : MembershipController F)
      → IsListed list
      → IndexedSet.len list ≤ c.view_list_cap
      → Inv limit c
      → Keeps limit (replace_view_list list c)
  replace_view_list-Keeps list c l fits v =
      let r = replaced list c l v.view_listed in
      record {
        after = told_of r.view r.notices c;
        result = r.result;
        inv = record {
          view_listed = r.is_listed;
          replies_listed = v.replies_listed;
          samples_indexed = v.samples_indexed;
          works = v.works;
          shares = v.shares;
          room = v.room;
          within = omega (arith, r.size);
          have_sets = v.have_sets;
          holds = v.holds;
          small = v.small;
          agrees = λ j.
              told-append j false c.msg_out_queue r.notices
              ∙ ap (λ b. told j b r.notices) (v.agrees j)
              ∙ r.tells j
              ∙ sym (r.members j);
        };
      }

  new_list :
      (draws : Draws F) (c : MembershipController F)
      → IsPerm draws.replies_perm
      → IsPerm draws.samples_perm
      → Inv limit c
      → NewList draws c
  unfolding new_view_list
  new_list draws c p q v =
      let pushed = add_peers (SetType.elements c.push_requests) IndexedSet.new in
      let pushed_listed =
        add_peers-IsListed (SetType.elements c.push_requests) IndexedSet.new new-IsListed in
      let replies = IndexedSet.len c.pull_replies in
      let samples = IndexedMap.len c.sample_list in
      let m = min c.beta_size replies in
      let n = min c.gamma_size samples in
      let is = take m (draws.replies_perm replies) in
      let js = take n (draws.samples_perm samples) in
      let fits = slice_to-take m (draws.replies_perm replies) (omega (arith, p.sizes replies)) in
      let also_fits =
        slice_to-take n (draws.samples_perm samples) (omega (arith, q.sizes samples)) in
      let pulled =
        add_indexed-Filled (λ i. IndexedSet.elem_at_index i c.pull_replies) replies is pushed
          (get_elem?_lt c.pull_replies.elem_list)
          (take-All (λ i. i < replies) m (draws.replies_perm replies) (p.below replies))
          pushed_listed in
      let sampled =
        add_indexed-Filled (λ i. IndexedMap.key_at_index i c.sample_list) samples js pulled.list
          (get_elem?_lt c.sample_list.key_list)
          (take-All (λ i. i < samples) n (draws.samples_perm samples) (q.below samples))
          pulled.is_listed in
      record {
        list = sampled.list;
        result = rw (fits, also_fits, new_view_list) (rw (pulled.result) (sampled.result));
        is_listed = sampled.is_listed;
        size =
            unfold IndexedSet.new in
            omega (
              arith,
              sampled.size,
              pulled.size,
              len-add_peers-le (SetType.elements c.push_requests) IndexedSet.new,
              length-keys c.push_requests,
              length-take-le m (draws.replies_perm replies),
              length-take-le n (draws.samples_perm samples),
            );
      }

  -- An update of the view list fits into its capacity.
  pub update_round-Keeps :
      (draws : Draws F) (c : MembershipController F)
      → IsPerm draws.replies_perm
      → IsPerm draws.samples_perm
      → Inv limit c
      → Keeps limit (update_round draws c)
  unfolding update_round
  update_round-Keeps draws c p q v = elim (Bool-cases (is_update_due c)) [
    | inr late ↦ record { after = c; result = rw (late, update_round) refl; inv = v }
    | inl due ↦
        let n = new_list draws c p q v in
        let few : set_len c.push_requests ≤ c.alpha_size = ground (arith, due) in
        let k = replace_view_list-Keeps n.list c n.is_listed (omega (arith, n.size, v.shares)) v in
        record {
          after = k.after;
          result = rw (due, update_round, n.result) (k.result);
          inv = k.inv;
        }
  ]

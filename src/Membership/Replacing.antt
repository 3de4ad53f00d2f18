-- ===== src/Membership/Replacing.antt =====
-- `replaceViewList` puts the new list in place of the old one, and the messages that it sends amount
-- to the same change.
use gossip_protocol.Base.{
  ◌≡◌, refl, sym, ap, ◌∙◌, Bool, not, ◌&&◌, ◌||◌, some, List, [], ◌∷◌, ◌++◌, map, arith, is_elem,
  IsDistinct, Bool-cases, inl, inr, contains-keys, keys-IsDistinct, length_of_contains,
}
use mathlib.Core.List.{append_assoc, append-nil}
use gossip_protocol.Datastruct.IndexedSet
use gossip_protocol.Datastruct.IndexedSet.{
  IndexedSet, IsListed, is_member-new, SetRemoval, remove-SetRemoval, add-IsListed, is_member-add,
  new-IsListed, IsListed-IsMap,
}
use gossip_protocol.Message.{Peer, Peer-Comparable, InternalMessage}
use gossip_protocol.Membership.State.{MembershipController, message, send}
use gossip_protocol.Membership.ViewList.{
  compare_lists, remove_listed, add_listed, replace_view_list,
}
use gossip_protocol.Membership.Rounds.{add_peers}
use gossip_protocol.Membership.Notices.{
  addition, removal, notice, changes, notices-changes, told, told-append, told-removals,
  told-additions,
}

record Compared (peers : List Peer) (removed added : IndexedSet Peer) : Type 0 where
  gone : IndexedSet Peer
  fresh : IndexedSet Peer
  result : compare_lists peers removed added ≡ some (gone, fresh)
  gone_listed : IsListed gone
  fresh_listed : IsListed fresh
  gone_members :
      (j : Peer)
      → IndexedSet.is_member j gone ≡ (
          IndexedSet.is_member j removed || (is_elem j peers && not (IndexedSet.is_member j added)))
  fresh_members :
      (j : Peer)
      → IndexedSet.is_member j fresh ≡ (IndexedSet.is_member j added && not (is_elem j peers))

compared :
    (peers : List Peer) (removed added : IndexedSet Peer)
    → IsDistinct peers
    → IsListed removed
    → IsListed added
    → Compared peers removed added
unfolding compare_lists
compared [] removed added d r a = record {
  gone = removed;
  fresh = added;
  result = refl;
  gone_listed = r;
  fresh_listed = a;
  gone_members = λ j. ground arith;
  fresh_members = λ j. ground arith;
}
compared (p ∷ ps) removed added d r a = elim (Bool-cases (IndexedSet.is_member p added)) [
  | inl here ↦
      let out = remove-SetRemoval p added a in
      let ih = compared ps removed out.rest d.1 r out.is_listed in
      record {
        gone = ih.gone;
        fresh = ih.fresh;
        result = rw (here, compare_lists, out.result) (ih.result);
        gone_listed = ih.gone_listed;
        fresh_listed = ih.fresh_listed;
        gone_members = λ j. ground (arith, ih.gone_members j, out.members j, d.0, here);
        fresh_members = λ j. ground (arith, ih.fresh_members j, out.members j, d.0, here);
      }
  | inr absent ↦
      let ih = compared ps (IndexedSet.add p removed) added d.1 (add-IsListed p removed r) a in
      record {
        gone = ih.gone;
        fresh = ih.fresh;
        result = rw (absent, compare_lists) (ih.result);
        gone_listed = ih.gone_listed;
        fresh_listed = ih.fresh_listed;
        gone_members = λ j. ground (arith, ih.gone_members j, is_member-add p j removed, absent);
        fresh_members = λ j. ground (arith, ih.fresh_members j, absent);
      }
]

pub add_peers-IsListed :
    (ps : List Peer) (s : IndexedSet Peer) → IsListed s → IsListed (add_peers ps s)
unfolding add_peers
add_peers-IsListed [] s w = w
add_peers-IsListed (p ∷ ps) s w = add_peers-IsListed ps (IndexedSet.add p s) (add-IsListed p s w)

pub is_member-add_peers :
    (j : Peer) (ps : List Peer) (s : IndexedSet Peer)
    → IndexedSet.is_member j (add_peers ps s) ≡ (is_elem j ps || IndexedSet.is_member j s)
unfolding add_peers
is_member-add_peers j [] s = refl
is_member-add_peers j (p ∷ ps) s =
    ground (arith, is_member-add_peers j ps (IndexedSet.add p s), is_member-add p j s)

pub len_of_members :
    (s t : IndexedSet Peer)
    → IsListed s
    → IsListed t
    → ((j : Peer) → IndexedSet.is_member j s ≡ IndexedSet.is_member j t)
    → IndexedSet.len s ≡ IndexedSet.len t
len_of_members s t v w h = omega (
  arith,
  v.sizes,
  w.sizes,
  length_of_contains s.s t.s (IsListed-IsMap s v) (IsListed-IsMap t w) h,
)

module _ {F : Type 0} where
  -- The controller with another view list, and with messages sent.
  abbrev pub told_of :
      IndexedSet Peer → List InternalMessage → MembershipController F → MembershipController F
  told_of view ms c = record c { view_list = view; msg_out_queue = c.msg_out_queue ++ ms }

  told_of-nil : (c : MembershipController F) → told_of c.view_list [] c ≡ c
  told_of-nil c = ap (λ q. record c { msg_out_queue = q }) (append-nil c.msg_out_queue)

  told_of-told_of :
      (v w : IndexedSet Peer) (xs ys : List InternalMessage) (c : MembershipController F)
      → told_of v ys (told_of w xs c) ≡ told_of v (xs ++ ys) c
  told_of-told_of v w xs ys c =
      ap (λ q. record c { view_list = v; msg_out_queue = q }) (append_assoc c.msg_out_queue xs ys)

  record RemovedListed (ps : List Peer) (c : MembershipController F) : Type 0 where
    view : IndexedSet Peer
    result : remove_listed ps c ≡ some (told_of view (map removal ps) c)
    is_listed : IsListed view
    members :
        (j : Peer)
        → IndexedSet.is_member j view ≡ (IndexedSet.is_member j c.view_list && not (is_elem j ps))

  removed_listed :
      (ps : List Peer) (c : MembershipController F) → IsListed c.view_list → RemovedListed ps c
  unfolding remove_listed send message
  removed_listed [] c w = record {
    view = c.view_list;
    result = ap some (sym (told_of-nil c));
    is_listed = w;
    members = λ j. ground arith;
  }
  removed_listed (p ∷ ps) c w =
      let out = remove-SetRemoval p c.view_list w in
      let ih = removed_listed ps (told_of out.rest (removal p ∷ []) c) out.is_listed in
      record {
        view = ih.view;
        result =
            rw (remove_listed, out.result)
              (ih.result
                ∙ ap some (told_of-told_of ih.view out.rest (removal p ∷ []) (map removal ps) c));
        is_listed = ih.is_listed;
        members = λ j. ground (arith, ih.members j, out.members j);
      }

  add_listed_lem :
      (ps : List Peer) (c : MembershipController F)
      → add_listed ps c ≡ told_of (add_peers ps c.view_list) (map addition ps) c
  unfolding add_listed add_peers send message
  add_listed_lem [] c = sym (told_of-nil c)
  add_listed_lem (p ∷ ps) c =
      add_listed_lem ps (told_of (IndexedSet.add p c.view_list) (addition p ∷ []) c)
      ∙ told_of-told_of (add_peers ps (IndexedSet.add p c.view_list)) (IndexedSet.add p c.view_list)
          (addition p ∷ []) (map addition ps) c

  -- What `replaceViewList` leaves: a view list with the peers of the new list and as long, and
  -- messages that turn the old one into it.
  pub record Replaced (list : IndexedSet Peer) (c : MembershipController F) : Type 0 where
    pub view : IndexedSet Peer
    pub notices : List InternalMessage
    pub removed_then_added : List (Peer × Bool)
    pub each_names : notices ≡ map notice removed_then_added
    pub result : replace_view_list list c ≡ some (told_of view notices c)
    pub is_listed : IsListed view
    pub members : (j : Peer) → IndexedSet.is_member j view ≡ IndexedSet.is_member j list
    pub size : IndexedSet.len view ≡ IndexedSet.len list
    pub tells :
        (j : Peer)
        → told j (IndexedSet.is_member j c.view_list) notices ≡ IndexedSet.is_member j list

  module _ (list : IndexedSet Peer) (c : MembershipController F) (l : IsListed list)
      (w : IsListed c.view_list) where
    both : Compared (IndexedSet.elements c.view_list) IndexedSet.new list
    both =
        compared (IndexedSet.elements c.view_list) IndexedSet.new list
          (keys-IsDistinct c.view_list.s (IsListed-IsMap c.view_list w)) new-IsListed l

    gone : List Peer
    gone = IndexedSet.elements both.gone

    fresh : List Peer
    fresh = IndexedSet.elements both.fresh

    out : RemovedListed gone c
    out = removed_listed gone c w

    in_gone :
        (j : Peer)
        → is_elem j gone ≡ (IndexedSet.is_member j c.view_list && not (IndexedSet.is_member j list))
    unfolding gone
    in_gone j =
        contains-keys j both.gone.s
        ∙ ground (arith, both.gone_members j, contains-keys j c.view_list.s, is_member-new j)

    in_fresh :
        (j : Peer)
        → is_elem j fresh
          ≡ (IndexedSet.is_member j list && not (IndexedSet.is_member j c.view_list))
    unfolding fresh
    in_fresh j =
        contains-keys j both.fresh.s
        ∙ ground (arith, both.fresh_members j, contains-keys j c.view_list.s)

    replaced_members :
        (j : Peer) → IndexedSet.is_member j (add_peers fresh out.view) ≡ IndexedSet.is_member j list
    replaced_members j =
        ground (arith, is_member-add_peers j fresh out.view, out.members j, in_gone j, in_fresh j)

    replaced_tells :
        (j : Peer)
        → told j (IndexedSet.is_member j c.view_list) (map removal gone ++ map addition fresh)
          ≡ IndexedSet.is_member j list
    replaced_tells j =
        let was = IndexedSet.is_member j c.view_list in
        let less = told j was (map removal gone) in
        ground (
          arith,
          told-append j was (map removal gone) (map addition fresh),
          told-removals j was gone,
          told-additions j less fresh,
          in_gone j,
          in_fresh j,
        )

    replace_view_list_lem :
        replace_view_list list c
        ≡ some (told_of (add_peers fresh out.view) (map removal gone ++ map addition fresh) c)
    unfolding replace_view_list gone fresh
    replace_view_list_lem =
        rw (both.result, out.result)
          (ap some (
            add_listed_lem fresh (told_of out.view (map removal gone) c)
            ∙ told_of-told_of (add_peers fresh out.view) out.view (map removal gone)
                (map addition fresh) c))

    pub replaced : Replaced list c
    replaced =
        let is_listed = add_peers-IsListed fresh out.view out.is_listed in
        record {
          view = add_peers fresh out.view;
          notices = map removal gone ++ map addition fresh;
          removed_then_added = changes gone fresh;
          each_names = notices-changes gone fresh;
          result = replace_view_list_lem;
          is_listed = is_listed;
          members = replaced_members;
          size = len_of_members (add_peers fresh out.view) list is_listed l replaced_members;
          tells = replaced_tells;
        }

-- ===== src/Membership/Notices.antt =====
-- What the Central controller learns of the view list: the messages that add a peer and those that
-- remove one.
use gossip_protocol.Base.{
  ◌≡◌, refl, ap, Bool, true, false, not, ◌&&◌, ◌||◌, List, [], ◌∷◌, ◌++◌, map, ite, arith, is_elem,
}
use gossip_protocol.Message.{
  Peer, Peer-Comparable, Peer-discrete, InternalMessage, InternalMessageType, AnyMessage,
  peer_add_msg, peer_remove_msg, peer_value,
}

abbrev pub addition : Peer → InternalMessage
addition peer = record { type = peer_add_msg; payload = peer_value peer }

abbrev pub removal : Peer → InternalMessage
removal peer = record { type = peer_remove_msg; payload = peer_value peer }

-- A message that adds a peer (`true`) or removes one.
abbrev pub notice : Peer × Bool → InternalMessage
notice (p, true) = addition p
notice (p, false) = removal p

-- Removals and then additions, as one list.
abbrev pub changes : List Peer → List Peer → List (Peer × Bool)
changes [] [] = []
changes [] (p ∷ ps) = (p, true) ∷ changes [] ps
changes (p ∷ ps) qs = (p, false) ∷ changes ps qs

pub notices-changes :
    (ps qs : List Peer) → map removal ps ++ map addition qs ≡ map notice (changes ps qs)
notices-changes [] [] = refl
notices-changes [] (q ∷ qs) = ap (◌∷◌ (addition q)) (notices-changes [] qs)
notices-changes (p ∷ ps) qs = ap (◌∷◌ (removal p)) (notices-changes ps qs)

-- Whether `peer` is to be kept after a message of a type and a payload.
unfoldable pub kept_after : Peer → InternalMessageType → AnyMessage → Bool → Bool
kept_after peer InternalMessageType.peer_add_msg (AnyMessage.peer_value p) b =
    ite (Peer-discrete p peer) true b
kept_after peer InternalMessageType.peer_remove_msg (AnyMessage.peer_value p) b =
    ite (Peer-discrete p peer) false b
kept_after peer _ _ b = b

-- Whether `peer` is to be kept after all the messages, if it was (`b`) before.
unfoldable pub told : Peer → Bool → List InternalMessage → Bool
unfolding kept_after
told peer b [] = b
told peer b (m ∷ ms) = told peer (kept_after peer m.type m.payload b) ms

pub told-append :
    (peer : Peer) (b : Bool) (xs ys : List InternalMessage)
    → told peer b (xs ++ ys) ≡ told peer (told peer b xs) ys
unfolding told
told-append peer b [] ys = refl
told-append peer b (m ∷ xs) ys = told-append peer (kept_after peer m.type m.payload b) xs ys

pub told-removals :
    (peer : Peer) (b : Bool) (ps : List Peer)
    → told peer b (map removal ps) ≡ (b && not (is_elem peer ps))
unfolding told kept_after
told-removals peer true [] = refl
told-removals peer false [] = refl
told-removals peer b (p ∷ ps) = ground (arith, told-removals peer b ps, told-removals peer false ps)

pub told-additions :
    (peer : Peer) (b : Bool) (ps : List Peer)
    → told peer b (map addition ps) ≡ (b || is_elem peer ps)
unfolding told kept_after
told-additions peer true [] = refl
told-additions peer false [] = refl
told-additions peer b (p ∷ ps) =
    ground (arith, told-additions peer b ps, told-additions peer true ps)

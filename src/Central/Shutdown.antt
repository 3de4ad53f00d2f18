-- ===== src/Central/Shutdown.antt =====
-- What the closing command does.
use gossip_protocol.Base.{
  ◌≡◌, ◌≢◌, subst, Option-cases, Bool-cases, ◌⊎◌, inl, inr, List, ◌++◌, map, contains,
  if◌then◌else◌, some_cancel, sym, ◌∙◌, ap, if_pos, if_neg, refl, Bool, true, false, none, some, [],
  ◌∷◌, Map, lookup, arith, Comparable,
}
use mathlib.Core.List.{append_assoc}
use gossip_protocol.Message.{
  Peer, Peer-Comparable, ApiClient, ApiClient-Comparable, AnyMessage, membership_close_msg,
  gossiper_close_msg,
}
use gossip_protocol.Central.State.{
  Central, PeerInfo, ApiInfo, Listener, no_listener, listening, closing, send_membership,
  send_gossiper, emit, im, Effect,
}
use gossip_protocol.Datastruct.IndexedMap.{get_value}
use gossip_protocol.Central.Dispatch.{mark_all, close_listener, close_endpoints, begin_close}

lookup-mark_all :
    {K : Type 0} ⦃c : Comparable K⦄ (b : Bool) (k : K) (m : Map K Bool)
    → lookup k (mark_all b m) ≡ (if contains k m then some b else none)
unfolding lookup mark_all
lookup-mark_all b k [] = refl
lookup-mark_all b k ((j, v) ∷ m) = ground (arith, lookup-mark_all b k m)

-- An effect is among others.
abbrev pub IsSent : Effect → List Effect → Type 0
IsSent e [] = ⊥
IsSent e (f ∷ fs) = (e ≡ f) ⊎ IsSent e fs

IsSent-left : (e : Effect) (xs ys : List Effect) → IsSent e xs → IsSent e (xs ++ ys)
IsSent-left e [] ys h = absurd h
IsSent-left e (x ∷ xs) ys (inl same) = inl same
IsSent-left e (x ∷ xs) ys (inr later) = inr (IsSent-left e xs ys later)

IsSent-right : (e : Effect) (xs ys : List Effect) → IsSent e ys → IsSent e (xs ++ ys)
IsSent-right e [] ys h = h
IsSent-right e (x ∷ xs) ys h = inr (IsSent-right e xs ys h)

-- The entry of a key gives an effect.
IsSent-map :
    {K V : Type 0} ⦃c : Comparable K⦄ (f : K × V → Effect) (g : V → Effect) (k : K) (v : V)
    (m : Map K V)
    → ((e : K × V) → f e ≡ g e.1)
    → lookup k m ≡ some v
    → IsSent (g v) (map f m)
unfolding lookup
IsSent-map f g k v [] h e = absurd (ground (arith, e))
IsSent-map ⦃c = c⦄ f g k v ((j, w) ∷ m) h e = elim (c.dec k j) [
  | yes same ↦
      inl (ap g (sym (some_cancel (sym (if_pos (c.dec k j) same _ _) ∙ e))) ∙ sym (h (j, w)))
  | no other ↦ inr (IsSent-map f g k v m h (sym (if_neg (c.dec k j) other _ _) ∙ e))
]

-- What the closing command needs.
abbrev pub IsUp : Central → Type 0
IsUp c =
    (c.api_listener ≡ listening)
    × (c.p2p_listener ≡ listening)
    × (c.membership_controller ≡ true)
    × (c.gossiper ≡ true)

-- The listeners are closed, the controllers and every endpoint of every table are told to close, every
-- peer that is being created is marked for removal, and every one that is being probed as not to be
-- added; the tables and the count stay.
pub record Closes (c : Central) : Type 0 where
  pub after : Central
  pub sent : List Effect
  pub result : begin_close c ≡ some after
  pub effects : after.effects ≡ c.effects ++ sent
  pub api_closing : after.api_listener ≡ closing
  pub p2p_closing : after.p2p_listener ≡ closing
  pub stopping : after.is_stopping ≡ true
  pub membership_told :
      IsSent (Effect.to_membership (im membership_close_msg AnyMessage.void_value)) sent
  pub gossiper_told : IsSent (Effect.to_gossiper (im gossiper_close_msg AnyMessage.void_value)) sent
  pub timer : IsSent Effect.start_crash_timer sent
  pub viewed :
      (p : Peer) (info : PeerInfo)
      → get_value p c.view_list ≡ some info
      → IsSent (Effect.close_p2p info.endpoint) sent
  pub awaiting :
      (p : Peer) (info : PeerInfo)
      → lookup p c.awaiting_removal_view_list ≡ some info
      → IsSent (Effect.close_p2p info.endpoint) sent
  pub incoming :
      (p : Peer) (info : PeerInfo)
      → lookup p c.incoming_view_list ≡ some info
      → IsSent (Effect.close_p2p info.endpoint) sent
  pub clients :
      (a : ApiClient) (info : ApiInfo)
      → lookup a c.api_clients ≡ some info
      → IsSent (Effect.close_api info.endpoint) sent
  pub created :
      (p : Peer)
      → lookup p after.actively_created_peers
        ≡ (if contains p c.actively_created_peers then some true else none)
  pub probed :
      (p : Peer)
      → lookup p after.actively_probed_peers
        ≡ (if contains p c.actively_probed_peers then some false else none)
  pub same_view : after.view_list ≡ c.view_list
  pub same_awaiting : after.awaiting_removal_view_list ≡ c.awaiting_removal_view_list
  pub same_incoming : after.incoming_view_list ≡ c.incoming_view_list
  pub same_clients : after.api_clients ≡ c.api_clients
  pub same_count : after.total_goroutines ≡ c.total_goroutines

abbrev close_view : Central → List Effect
close_view c = map (λ e. Effect.close_p2p e.1.value.endpoint) c.view_list.m

abbrev close_awaiting : Central → List Effect
close_awaiting c = map (λ e. Effect.close_p2p e.1.endpoint) c.awaiting_removal_view_list

abbrev close_incoming : Central → List Effect
close_incoming c = map (λ e. Effect.close_p2p e.1.endpoint) c.incoming_view_list

abbrev close_clients : Central → List Effect
close_clients c = map (λ e. Effect.close_api e.1.endpoint) c.api_clients

abbrev one : List Effect
one = Effect.to_membership (im membership_close_msg AnyMessage.void_value) ∷ []

abbrev two : List Effect
two = Effect.to_gossiper (im gossiper_close_msg AnyMessage.void_value) ∷ []

abbrev told : List Effect
told = one ++ two

abbrev up_to_incoming : Central → List Effect
up_to_incoming c = (close_view c ++ close_awaiting c) ++ close_incoming c

abbrev all_closed : Central → List Effect
all_closed c = (up_to_incoming c ++ close_clients c) ++ (Effect.start_crash_timer ∷ [])

-- The state after the closing command.
abbrev closed_down : Central → Central
closed_down c = close_endpoints (
    emit (Effect.to_gossiper (im gossiper_close_msg AnyMessage.void_value) ∷ []) (
      emit (Effect.to_membership (im membership_close_msg AnyMessage.void_value) ∷ [])
        (record c { api_listener = closing; p2p_listener = closing })))

begin_close-Closes : (c : Central) → IsUp c → Closes c
unfolding begin_close close_listener send_membership send_gossiper close_endpoints emit get_value
begin_close-Closes c (api, p2p, membership, gossiper) =
    let sent = told ++ all_closed c in
    let timer = Effect.start_crash_timer ∷ [] in
    let from_view_on : (e : Effect) → IsSent e (all_closed c) → IsSent e sent =
      λ e h. IsSent-right e told (all_closed c) h in
    let from_clients : (e : Effect)
        → IsSent e (up_to_incoming c ++ close_clients c)
        → IsSent e sent =
      λ e h. from_view_on e (IsSent-left e (up_to_incoming c ++ close_clients c) timer h) in
    let from_incoming : (e : Effect) → IsSent e (up_to_incoming c) → IsSent e sent =
      λ e h. from_clients e (IsSent-left e (up_to_incoming c) (close_clients c) h) in
    let from_awaiting : (e : Effect) → IsSent e (close_view c ++ close_awaiting c) → IsSent e sent =
      λ e h.
        from_incoming e (IsSent-left e (close_view c ++ close_awaiting c) (close_incoming c) h) in
    record {
      after = closed_down c;
      sent = told ++ all_closed c;
      result =
          simp
            (
              api, p2p, membership, gossiper, begin_close, close_listener, send_membership,
              send_gossiper,
            )
            refl;
      effects =
          append_assoc (c.effects ++ one) two (all_closed c)
          ∙ append_assoc c.effects one (two ++ all_closed c);
      api_closing = refl;
      p2p_closing = refl;
      stopping = refl;
      membership_told = inl refl;
      gossiper_told = inr (inl refl);
      timer =
          from_view_on _ (IsSent-right _ (up_to_incoming c ++ close_clients c) timer (inl refl));
      viewed = λ p info h. elim (Option-cases (lookup p c.view_list.m)) [
        | inl missing ↦ absurd (ground (arith, missing, h))
        | inr (e, found) ↦
            let same : e.value ≡ info = ground (arith, found, h) in
            subst (λ x. IsSent (Effect.close_p2p x.endpoint) sent) same
              (from_awaiting _ (
                IsSent-left _ (close_view c) (close_awaiting c) (
                  IsSent-map _ (λ v. Effect.close_p2p v.value.endpoint) p e c.view_list.m
                    (λ x. refl) found)))
      ];
      awaiting = λ p info h. from_awaiting _ (
          IsSent-right _ (close_view c) (close_awaiting c) (
            IsSent-map _ (λ v. Effect.close_p2p v.endpoint) p info c.awaiting_removal_view_list
              (λ x. refl) h));
      incoming = λ p info h. from_incoming _ (
          IsSent-right _ (close_view c ++ close_awaiting c) (close_incoming c) (
            IsSent-map _ (λ v. Effect.close_p2p v.endpoint) p info c.incoming_view_list (λ x. refl)
              h));
      clients = λ a info h. from_clients _ (
          IsSent-right _ (up_to_incoming c) (close_clients c)
            (IsSent-map _ (λ v. Effect.close_api v.endpoint) a info c.api_clients (λ x. refl) h));
      created = λ p. lookup-mark_all true p c.actively_created_peers;
      probed = λ p. lookup-mark_all false p c.actively_probed_peers;
      same_view = refl;
      same_awaiting = refl;
      same_incoming = refl;
      same_clients = refl;
      same_count = refl;
    }

listener_cases : (l : Listener) → (l ≡ listening) ⊎ ((l ≢ listening) × (close_listener l ≡ none))
unfolding close_listener
listener_cases listening = inl refl
listener_cases closing = inr (λ e. cc, refl)
listener_cases no_listener = inr (λ e. cc, refl)

-- If a controller has gone or a listener does not listen, the closing command is a panic. Otherwise it
-- closes the listeners, tells the controllers and every endpoint of every table to close, marks every
-- peer that is being created for removal and every one that is being probed as not to be added, and
-- leaves the tables and the count.
pub begin_close_lem : (c : Central) → (IsUp c × Closes c) ⊎ ((¬ IsUp c) × (begin_close c ≡ none))
unfolding begin_close send_membership send_gossiper
begin_close_lem c = elim (listener_cases c.api_listener) [
  | inr no_api ↦ inr (λ up. no_api.0 up.0, rw (no_api.1, begin_close) refl)
  | inl api ↦ elim (listener_cases c.p2p_listener) [
    | inr no_p2p ↦ inr (λ up. no_p2p.0 up.1, simp (api, no_p2p.1, begin_close, close_listener) refl)
    | inl p2p ↦ elim (Bool-cases c.membership_controller) [
      | inr no_membership ↦ inr (
        λ up. ground (arith, no_membership, up.2),
        simp (api, p2p, no_membership, begin_close, close_listener, send_membership) refl,
      )
      | inl membership ↦ elim (Bool-cases c.gossiper) [
        | inr no_gossiper ↦ inr (
          λ up. ground (arith, no_gossiper, up.3),
          simp
              (
                api, p2p, membership, no_gossiper, begin_close, close_listener, send_membership,
                send_gossiper,
              )
              refl,
        )
        | inl gossiper ↦
            let up : IsUp c = (api, p2p, membership, gossiper) in inl (up, begin_close-Closes c up)
      ]
    ]
  ]
]

-- ===== src/Central/Accounting/Count.antt =====
-- How many goroutines run, what it means that the Central controller counts them right, and the
-- combinators with which a handler is shown to keep the count.
use gossip_protocol.Base.{
  length, ◌≤◌, ℕ, ◌+◌, ◌≡◌, refl, Bool, true, false, Option, none, some, some_cancel, subst, List,
  IsMap, ◌>>=◌, >>=-eq-some, weigh, pos, ℤ, ◌+ℤ◌, ◌-ℤ◌, if◌then◌else◌, arith, int_laws,
}
use gossip_protocol.Datastruct.IndexedMap.{weigh_values}
use gossip_protocol.Message.{
  Peer-Comparable, ApiClient-Comparable, HandlerError, no_error, close_error, InternalMessage,
}
use gossip_protocol.Central.State.{
  Central, PeerInfo, ApiInfo, EndpointState, running, stopped, Listener, no_listener,
  have_both_stopped, stop_goroutine, Effect, returns, emit, check_done, send_membership,
  send_gossiper,
}
use gossip_protocol.Central.Forward.{then_return}
use gossip_protocol.Central.Roster.{Roster}

abbrev pub bit : Bool → ℕ
bit true = 1
bit false = 0

-- The goroutines of an endpoint that have not stopped.
unfoldable pub live : EndpointState → ℕ
live s =
    elim s.reader_state [ running ↦ 1 | stopped ↦ 0 ]
    + elim s.writer_state [ running ↦ 1 | stopped ↦ 0 ]

abbrev pub peer_live : PeerInfo → ℕ
peer_live info = live info.state

abbrev pub api_live : ApiInfo → ℕ
api_live info = live info.state

abbrev pub listener_live : Listener → ℕ
listener_live no_listener = 0
listener_live _ = 1

-- All goroutines that the Central controller waits for.
abbrev pub running_count : Central → ℕ
running_count c =
    bit c.membership_controller
    + bit c.gossiper
    + listener_live c.api_listener
    + listener_live c.p2p_listener
    + weigh_values peer_live c.view_list
    + weigh peer_live c.awaiting_removal_view_list
    + weigh peer_live c.incoming_view_list
    + weigh api_live c.api_clients

pub record Sound (c : Central) : Type 0 where
  pub roster : Roster c.view_list c.awaiting_removal_view_list c.actively_created_peers
  pub incoming_is_map : IsMap c.incoming_view_list
  pub api_is_map : IsMap c.api_clients
  pub incoming_bounded : length c.incoming_view_list ≤ c.incoming_view_list_max
  pub api_bounded : length c.api_clients ≤ c.api_clients_max
  pub counted : c.total_goroutines ≡ pos (running_count c)

-- A handler's result is good if the count is right, and the end is signalled only at count 0.
abbrev pub Good : Central × HandlerError → Type 0
Good r = Sound (r.0) × (r.1 ≡ close_error → running_count (r.0) ≡ 0)

-- A property of the result, if there is one.
abbrev pub Each {ℓ} : {A : Type ℓ} → (A → Type 0) → Option A → Type ℓ
Each {A = A} P o = (a : A) → o ≡ some a → P a

pub Each-some {ℓ} : {A : Type ℓ} (P : A → Type 0) (a : A) → P a → Each P (some a)
Each-some P a h b e = subst P (some_cancel e) h

pub Each->>= :
    {A B : Type 0} (P : A → Type 0) (Q : B → Type 0) (o : Option A) (f : A → Option B)
    → Each P o
    → ((a : A) → P a → Each Q (f a))
    → Each Q (o >>= f)
Each->>= P Q o f h k b e = let (a, first, second) = >>=-eq-some o f e in k a (h a first) b second

pub Each-if :
    {A : Type 0} (P : A → Type 0) (b : Bool) (x y : Option A)
    → (b ≡ true → Each P x)
    → (b ≡ false → Each P y)
    → Each P (if b then x else y)
Each-if P true x y h k = h refl
Each-if P false x y h k = k refl

pub returns-Good : (c : Central) → Sound c → Each Good (returns c)
returns-Good c s = Each-some Good (c, no_error) (s, (λ e. cc))

pub then_return-Good : (o : Option Central) → Each Sound o → Each Good (then_return o)
unfolding then_return
then_return-Good none h = λ r e. cc
then_return-Good (some c) h = returns-Good c (h c refl)

pub emit-Sound : (es : List Effect) (c : Central) → Sound c → Sound (emit es c)
unfolding emit
emit-Sound es c s = record {
  roster = s.roster;
  incoming_is_map = s.incoming_is_map;
  api_is_map = s.api_is_map;
  incoming_bounded = s.incoming_bounded;
  api_bounded = s.api_bounded;
  counted = s.counted;
}

pub send_membership-Sound :
    (m : InternalMessage) (c : Central) → Sound c → Each Sound (send_membership m c)
unfolding send_membership
send_membership-Sound m c s =
    Each-if Sound c.membership_controller _ _ (λ e. Each-some Sound _ (emit-Sound _ c s))
      (λ e d no. cc)

pub send_gossiper-Sound :
    (m : InternalMessage) (c : Central) → Sound c → Each Sound (send_gossiper m c)
unfolding send_gossiper
send_gossiper-Sound m c s =
    Each-if Sound c.gossiper _ _ (λ e. Each-some Sound _ (emit-Sound _ c s)) (λ e d no. cc)

pub check_done-Good : (c : Central) → Sound c → Good (check_done c)
unfolding check_done
check_done-Good c s = (s, λ e. ground (arith, s.counted, e))

pub have_both_stopped-live : (s : EndpointState) → have_both_stopped s ≡ true → live s ≡ 0
unfolding have_both_stopped live
have_both_stopped-live s h = ground arith

pub stop_goroutine-live :
    (b : Bool) (s t : EndpointState) → stop_goroutine b s ≡ some t → live s ≡ live t + 1
unfolding stop_goroutine live
stop_goroutine-live b s t h = ground arith

-- One goroutine less.
pub one_less : (t : ℤ) (n m : ℕ) → t ≡ pos n → n ≡ m + 1 → t -ℤ pos 1 ≡ pos m
one_less t n m h e = grind int_laws

pub two_more : (t : ℤ) (n m : ℕ) → t ≡ pos n → m ≡ n + 2 → t +ℤ pos 2 ≡ pos m
two_more t n m h e = grind int_laws

-- ===== src/Central/Accounting/Run.antt =====
-- The count along all runs of the Central controller, and what its end means.
use gossip_protocol.Base.{
  length, ℕ, ◌≤◌, ◌≡◌, refl, true, false, ◌&&◌, not, some, List, lookup, weigh, weigh-lookup-le,
  pos, inl, arith, Option-cases, inr, ap, ◌+ℤ◌,
}
use gossip_protocol.Datastruct.IndexedMap.{
  IndexedMap, ValueAndIndex, get_value, new, new-IsIndexed, weigh_values,
}
use gossip_protocol.Message.{
  Peer, Peer-Comparable, ApiClient, ApiClient-Comparable, InternalMessage, HandlerError,
  close_error,
}
use gossip_protocol.Central.State.{
  Central, PeerInfo, ApiInfo, EndpointState, no_listener, have_both_stopped, returns,
}
use gossip_protocol.Central.Dispatch.{is_stop_message, dispatch, turn, initial, begin_run}
use gossip_protocol.Central.Roster.{Roster}
use gossip_protocol.Central.Accounting.Count.{
  Sound, Good, Each, Each-if, returns-Good, live, peer_live, api_live, running_count,
}
use gossip_protocol.Central.Accounting.Table.{Timely, dispatch-Good}

-- The turns of the loop of `Run`. Each turn draws its own permutations.
pub data Turns (c : Central) : Central → Type 0 where
  begin : Turns c c
  turned :
      {d e : Central} (perm : ℕ → List ℕ) (m : InternalMessage) (err : HandlerError)
      → Turns c d
      → Timely m.type d
      → turn perm m d ≡ some (e, err)
      → Turns c e

turn-Good :
    (perm : ℕ → List ℕ) (m : InternalMessage) (c : Central)
    → Sound c
    → Timely m.type c
    → Each Good (turn perm m c)
unfolding turn
turn-Good perm m c s h =
    Each-if Good (c.is_stopping && not (is_stop_message m.type)) (returns c)
      (dispatch perm m.type m.payload c) (λ e. returns-Good c s)
      (λ e. dispatch-Good perm m.type m.payload c s h)

Turns-Sound : {c d : Central} → Turns c d → Sound c → Sound d
Turns-Sound begin s = s
Turns-Sound (turned perm m err r h e) s = (turn-Good perm m _ (Turns-Sound r s) h (_, err) e).0

pub initial-Sound : (incoming_max api_max : ℕ) → Sound (begin_run (initial incoming_max api_max))
unfolding begin_run initial new lookup get_value weigh ◌+ℤ◌
initial-Sound incoming_max api_max = record {
  roster = record {
    is_indexed = new-IsIndexed;
    awaiting_is_map = tt;
    created_is_map = tt;
    apart = λ p. inl refl;
    created_apart = λ p. inl refl;
    named = λ p i e. cc;
    awaiting_named = λ p i e. cc;
  };
  incoming_is_map = tt;
  api_is_map = tt;
  incoming_bounded = omega arith;
  api_bounded = omega arith;
  counted = refl;
}

-- Along every run of the Central controller from its start, whatever the messages, their order, the
-- payloads and the random draws are, `totalGoroutines` is the number of the controllers, listeners,
-- readers and writers that have not stopped, provided that a controller or a listener reports its
-- closure only once.
pub run_counts :
    (incoming_max api_max : ℕ) (d : Central)
    → Turns (begin_run (initial incoming_max api_max)) d
    → d.total_goroutines ≡ pos (running_count d)
run_counts incoming_max api_max d r = (Turns-Sound r (initial-Sound incoming_max api_max)).counted

-- Along every such run, no outgoing peer is in two of the view list, the list of those that await
-- removal and the set of those being created; the view list is indexed, the other two are maps,
-- and an entry belongs to the peer of its endpoint.
pub run_apart :
    (incoming_max api_max : ℕ) (d : Central)
    → Turns (begin_run (initial incoming_max api_max)) d
    → Roster d.view_list d.awaiting_removal_view_list d.actively_created_peers
run_apart incoming_max api_max d r = (Turns-Sound r (initial-Sound incoming_max api_max)).roster

-- Along every such run, the incoming peers and the API clients are each at most as many as their list
-- has capacity for.
pub run_bounded :
    (incoming_max api_max : ℕ) (d : Central)
    → Turns (begin_run (initial incoming_max api_max)) d
    → (length d.incoming_view_list ≤ d.incoming_view_list_max)
      × (length d.api_clients ≤ d.api_clients_max)
run_bounded incoming_max api_max d r =
    let s = Turns-Sound r (initial-Sound incoming_max api_max) in
    (s.incoming_bounded, s.api_bounded)

-- Both controllers and both listeners are gone, and no endpoint has a goroutine.
pub record AllStopped (c : Central) : Type 0 where
  pub no_membership : c.membership_controller ≡ false
  pub no_gossiper : c.gossiper ≡ false
  pub no_api_listener : c.api_listener ≡ no_listener
  pub no_p2p_listener : c.p2p_listener ≡ no_listener
  pub viewed :
      (p : Peer) (i : PeerInfo)
      → get_value p c.view_list ≡ some i
      → have_both_stopped i.state ≡ true
  pub awaiting :
      (p : Peer) (i : PeerInfo)
      → lookup p c.awaiting_removal_view_list ≡ some i
      → have_both_stopped i.state ≡ true
  pub incoming :
      (p : Peer) (i : PeerInfo)
      → lookup p c.incoming_view_list ≡ some i
      → have_both_stopped i.state ≡ true
  pub clients :
      (p : ApiClient) (i : ApiInfo)
      → lookup p c.api_clients ≡ some i
      → have_both_stopped i.state ≡ true

live-have_both_stopped : (s : EndpointState) → live s ≡ 0 → have_both_stopped s ≡ true
unfolding live have_both_stopped
live-have_both_stopped s h = ground arith

get_value-weigh :
    (p : Peer) (i : PeerInfo) (t : IndexedMap Peer PeerInfo)
    → get_value p t ≡ some i
    → peer_live i ≤ weigh_values peer_live t
unfolding get_value
get_value-weigh p i t h = elim (Option-cases (lookup p t.m)) [
  | inl gone ↦ ground (arith, gone)
  | inr (e, here) ↦
      let value : e.value ≡ i = ground (arith, here) in
      let same : peer_live e.value ≡ peer_live i = ap peer_live value in
      omega (
        arith,
        same,
        weigh-lookup-le (λ (x : ValueAndIndex PeerInfo). peer_live x.value) p e t.m here,
      )
]

count_zero-AllStopped : (c : Central) → running_count c ≡ 0 → AllStopped c
count_zero-AllStopped c h = record {
  no_membership = ground arith;
  no_gossiper = ground arith;
  no_api_listener = ground arith;
  no_p2p_listener = ground arith;
  viewed =
      λ p i e. live-have_both_stopped i.state (omega (arith, get_value-weigh p i c.view_list e));
  awaiting = λ p i e.
      live-have_both_stopped i.state
        (omega (arith, weigh-lookup-le peer_live p i c.awaiting_removal_view_list e));
  incoming = λ p i e.
      live-have_both_stopped i.state
        (omega (arith, weigh-lookup-le peer_live p i c.incoming_view_list e));
  clients = λ p i e.
      live-have_both_stopped i.state (omega (arith, weigh-lookup-le api_live p i c.api_clients e));
}

-- If a turn of such a run signals the graceful closure, both controllers and both listeners are gone,
-- and no endpoint in any list has a goroutine that runs.
pub run_closes :
    (incoming_max api_max : ℕ) (d e : Central) (perm : ℕ → List ℕ) (m : InternalMessage)
    → Turns (begin_run (initial incoming_max api_max)) d
    → Timely m.type d
    → turn perm m d ≡ some (e, close_error)
    → AllStopped e
run_closes incoming_max api_max d e perm m r h done =
    let s = Turns-Sound r (initial-Sound incoming_max api_max) in
    count_zero-AllStopped e ((turn-Good perm m d s h (e, close_error) done).1 refl)

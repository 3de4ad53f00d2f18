-- ===== src/Central/State.antt =====
-- The state of the Central controller and what it does to the other goroutines.
use gossip_protocol.Base.{
  ℕ, Bool, true, false, ◌&&◌, Option, none, some, List, [], ◌∷◌, ◌++◌, Map, ℤ, pos, ◌-ℤ◌, leb_ℤ,
  if◌then◌else◌,
}
use gossip_protocol.Datastruct.IndexedMap.{IndexedMap}
use gossip_protocol.Message.{
  Peer, ApiClient, P2PEndpoint, ApiEndpoint, InternalMessage, InternalMessageType, AnyMessage,
  HandlerError, no_error, close_error,
}

-- `PeerReaderState`, `PeerWriterState` and those of an API client, which are the same two values.
pub data GoroutineState : Type 0 where
  running stopped : GoroutineState

-- `PeerState`, and `APIClientState` (src/core/api.go).
pub record EndpointState : Type 0 where
  pub reader_state : GoroutineState
  pub writer_state : GoroutineState

abbrev pub is_stopped : GoroutineState → Bool
is_stopped running = false
is_stopped stopped = true

unfoldable pub have_both_stopped : EndpointState → Bool
have_both_stopped s = is_stopped s.reader_state && is_stopped s.writer_state

-- The state after the reader or the writer has closed, or `none` if it had closed before.
unfoldable pub stop_goroutine : Bool → EndpointState → Option EndpointState
stop_goroutine true s = elim s.reader_state [
  | stopped ↦ none
  | running ↦ some (record s { reader_state = stopped })
]
stop_goroutine false s = elim s.writer_state [
  | stopped ↦ none
  | running ↦ some (record s { writer_state = stopped })
]

abbrev pub both_running : EndpointState
both_running = record { reader_state = running; writer_state = running }

-- `PeerInfoCentral` (src/core/peer.go). No two lists hold the same pointer, so it is a value here.
pub record PeerInfo : Type 0 where
  pub endpoint : P2PEndpoint
  pub usage_counter : ℤ
  pub state : EndpointState
  pub has_crashed : Bool

-- `APIClientInfoCentral` (src/core/api.go).
pub record ApiInfo : Type 0 where
  pub endpoint : ApiEndpoint
  pub state : EndpointState
  pub has_crashed : Bool

-- A listener's pointer: nil, or a listener whose signal channel is open or closed.
pub data Listener : Type 0 where
  no_listener listening closing : Listener

-- What the other goroutines see. A goroutine that only closes a connection, dials or probes is one
-- effect; its message comes back through the input queue.
pub data Effect : Type 0 where
  to_membership to_gossiper to_self : InternalMessage → Effect
  to_p2p : P2PEndpoint → InternalMessage → Effect
  to_api : ApiEndpoint → InternalMessage → Effect
  close_p2p close_p2p_conn run_p2p : P2PEndpoint → Effect
  close_api close_api_conn run_api : ApiEndpoint → Effect
  dial probe : Peer → Effect
  start_crash_timer : Effect

-- `CentralController`. The configuration of the connections is not read by the handlers; of the two
-- controllers only whether the pointer is nil matters.
pub record Central : Type 0 where
  pub api_listener : Listener
  pub p2p_listener : Listener
  pub view_list : IndexedMap Peer PeerInfo
  pub awaiting_removal_view_list : Map Peer PeerInfo
  pub actively_created_peers : Map Peer Bool
  pub actively_probed_peers : Map Peer Bool
  pub incoming_view_list : Map Peer PeerInfo
  pub incoming_view_list_max : ℕ  -- uint16
  pub api_clients : Map ApiClient ApiInfo
  pub api_clients_max : ℕ  -- uint16
  pub membership_controller : Bool
  pub gossiper : Bool
  pub is_stopping : Bool
  pub total_goroutines : ℤ
  pub effects : List Effect

-- A handler's outcome, where `none` is a panic: `Run` then ends the process.
abbrev pub Outcome : Type 0
Outcome = Option (Central × HandlerError)

abbrev pub returns : Central → Outcome
returns c = some (c, no_error)

unfoldable pub emit : List Effect → Central → Central
emit es c = record c { effects = c.effects ++ es }

unfoldable pub im : InternalMessageType → AnyMessage → InternalMessage
im t a = record { type = t; payload = a }

-- A send to the Membership controller or to the Gossiper, through a pointer that may be nil.
unfoldable pub send_membership : InternalMessage → Central → Option Central
unfolding emit
send_membership m c = if c.membership_controller then some (emit (to_membership m ∷ []) c) else none

unfoldable pub send_gossiper : InternalMessage → Central → Option Central
unfolding emit
send_gossiper m c = if c.gossiper then some (emit (to_gossiper m ∷ []) c) else none

-- `totalGoroutines--`
unfoldable pub decrement : Central → Central
decrement c = record c { total_goroutines = c.total_goroutines -ℤ pos 1 }

-- Signals the graceful closure if no goroutine is left.
unfoldable pub check_done : Central → Central × HandlerError
check_done c = (c, if leb_ℤ c.total_goroutines (pos 0) then close_error else no_error)

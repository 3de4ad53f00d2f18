-- ===== src/Membership/State.antt =====
-- src/core/membership_controller.go: the state of the Membership controller and of its samplers.
use gossip_protocol.Base.{ℕ, Bool, Option, List, ◌++◌, Bytes}
use gossip_protocol.Datastruct.IndexedMap.{IndexedMap}
use gossip_protocol.Datastruct.IndexedSet.{IndexedSet}
use gossip_protocol.Datastruct.SetType.{SetOf}
use gossip_protocol.Message.{Peer, Pointer, InternalMessage, InternalMessageType, AnyMessage}

-- Go's `float64` and what the controller does with it: the literals, the arithmetic, and the
-- conversions to `uint16` (of a floor) and to `uint32`.
pub record Float64 (F : Type 0) : Type 0 where
  pub zero_point : F
  pub one_point : F
  pub nine_tenths : F
  pub plus : F → F → F
  pub subtract : F → F → F
  pub multiply : F → F → F
  pub divide : F → F → F
  pub at_most : F → F → Bool
  pub of_nat : ℕ → F
  pub floor_u16 : F → ℕ
  pub to_u32 : F → ℕ

-- `PeerSampler`; the permuter is known by its key, and `peer_p_val` counts only if there is a peer.
pub record PeerSampler : Type 0 where
  pub peer : Option Peer
  pub peer_p_val : ℕ
  pub permuter : Bytes

-- `MembershipPoWConfig`; the duration is in nanoseconds.
pub record MembershipPoWConfig : Type 0 where
  pub hardness : ℕ
  pub repetition : ℕ
  pub validity_duration : ℕ

-- The samplers behind the pointers of `sample_list`.
pub record Samplers : Type 0 where
  pub at : Pointer → PeerSampler
  pub next : Pointer

pub record MembershipController (F : Type 0) : Type 0 where
  pub bootstrapper : Bytes
  pub p2p_addr : Bytes
  pub alpha_size : ℕ
  pub beta_size : ℕ
  pub gamma_size : ℕ
  pub push_probability : F
  pub pow_config : MembershipPoWConfig
  pub view_list : IndexedSet Peer
  pub view_list_cap : ℕ
  pub sample_list : IndexedMap Peer (SetOf Pointer)
  pub sample_list_remaining_cap : ℕ
  pub push_requests : SetOf Peer
  pub pull_replies : IndexedSet Peer
  pub pull_peers : SetOf Peer
  pub msg_out_queue : List InternalMessage
  pub samplers : Samplers

unfoldable pub message : InternalMessageType → AnyMessage → InternalMessage
message t a = record { type = t; payload = a }

-- `MsgOutQueue <- …`, once for each message.
unfoldable pub send :
    {F : Type 0} → List InternalMessage → MembershipController F → MembershipController F
send ms c = record c { msg_out_queue = c.msg_out_queue ++ ms }

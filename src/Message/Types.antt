-- ===== src/Message/Types.antt =====
-- The values that the messages carry, and the memory that holds gossip items.
use gossip_protocol.Base.{ℕ, suc, Bool, Option, Bytes, Bytes-discrete, ℕ_discrete, Comparable, ite}

-- `Peer` (src/core/peer.go): the address of a peer.
pub record Peer : Type 0 where
  pub addr : Bytes

unfoldable pub Peer-discrete : Discrete Peer
unfolding Bytes-discrete
Peer-discrete = hlevel Bytes-discrete

instance abbrev pub Peer-Comparable : Comparable Peer
Peer-Comparable = record { dec = Peer-discrete }

-- `APIClient` (src/core/api.go).
pub record ApiClient : Type 0 where
  pub addr : Bytes

unfoldable pub ApiClient-discrete : Discrete ApiClient
unfolding Bytes-discrete
ApiClient-discrete = hlevel Bytes-discrete

instance abbrev pub ApiClient-Comparable : Comparable ApiClient
ApiClient-Comparable = record { dec = ApiClient-discrete }

-- `GossipItem` (src/core/gossip_item.go): `Data` is the field `content`.
pub record GossipItem : Type 0 where
  pub data_type : ℕ
  pub content : Bytes

unfoldable pub GossipItem-discrete : Discrete GossipItem
unfolding Bytes-discrete ℕ_discrete
GossipItem-discrete = hlevel (Bytes-discrete, ℕ_discrete)

instance abbrev pub GossipItem-Comparable : Comparable GossipItem
GossipItem-Comparable = record { dec = GossipItem-discrete }

pub data MedianCounterState : Type 0 where
  state_b state_c state_d : MedianCounterState

-- The memory behind the `*GossipItem` pointers: an address stands for a pointer, and the addresses
-- from `next` on are not in use.
abbrev pub Pointer : Type 0
Pointer = ℕ

pub record Store : Type 0 where
  pub cell : Pointer → GossipItem
  pub next : Pointer

-- A write through a pointer.
unfoldable pub assign : Pointer → GossipItem → Store → Store
assign p item s = record s { cell = λ q. ite (ℕ_discrete p q) item (s.cell q) }

-- A variable whose address is taken: its address is `next`, and it starts with some value.
unfoldable pub allocate : Store → Store
allocate s = record s { next = suc s.next }

-- `MembershipPushRequestMSGPayload`; `when` counts nanoseconds.
pub record MembershipPushRequest : Type 0 where
  pub from : Peer
  pub to : Peer
  pub when : ℕ
  pub nonce : ℕ

pub record RandomPeerListRequest : Type 0 where
  pub related : Option Pointer
  pub num : ℕ

-- `P2PEndpoint` (src/core/peer.go) as the Central controller sees it; `id` tells pointers apart.
pub record P2PEndpoint : Type 0 where
  pub id : ℕ
  pub peer : Peer
  pub is_outgoing : Bool
  pub has_conn : Bool

-- `APIEndpoint` (src/core/api.go).
pub record ApiEndpoint : Type 0 where
  pub id : ℕ
  pub api_client : ApiClient
  pub has_conn : Bool

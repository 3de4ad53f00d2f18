-- ===== src/Gossiper/State.antt =====
-- The state of the Gossiper, and the messages that it sends.
use gossip_protocol.Base.{ℕ, List, ◌++◌, Map}
use gossip_protocol.Datastruct.SetType.{SetOf}
use gossip_protocol.Message.{
  Peer, ApiClient, GossipItem, Pointer, Store, InternalMessage, InternalMessageType, AnyMessage,
}
use gossip_protocol.Gossiper.Item.{GossipItemInfo}

pub record MedianCounterConfig : Type 0 where
  pub b_max : ℕ  -- uint8
  pub c_max : ℕ  -- uint8

-- `APIClientInfoGossiper` (src/core/api.go).
pub record ApiClientInfo : Type 0 where
  pub notify_data_types : SetOf ℕ
  pub validation_map : Map ℕ Pointer
  pub next_available_id : ℕ  -- uint16

-- `roundPeriod` only sets the ticker, and the incoming queue belongs to the caller. `store` is the
-- memory of the gossip items, and `msg_out_queue` all that was sent, oldest first.
pub record Gossiper : Type 0 where
  pub cache_size : ℕ  -- uint16
  pub degree : ℕ  -- uint8
  pub max_ttl : ℕ  -- uint8
  pub mc_config : MedianCounterConfig
  pub gossip_list : Map GossipItem GossipItemInfo
  pub old_gossip_list : Map GossipItem GossipItemInfo
  pub api_clients_to_notify : Map ApiClient ApiClientInfo
  pub incoming_gossips : Map GossipItem GossipItemInfo
  pub next_round_pull_peers : SetOf Peer
  pub pull_peers : SetOf Peer
  pub msg_out_queue : List InternalMessage
  pub store : Store

unfoldable pub message : InternalMessageType → AnyMessage → InternalMessage
message t a = record { type = t; payload = a }

-- `gossiper.MsgOutQueue <- …`
unfoldable pub send : List InternalMessage → Gossiper → Gossiper
send ms g = record g { msg_out_queue = g.msg_out_queue ++ ms }

-- ===== src/Api/Writer.antt =====
-- `handleGossipNotification` and `writerRoutine`; what is written on the connection is the result.
use gossip_protocol.Base.{
  ℕ, ◌+◌, ◌-◌, ◌%◌, ◌^◌, List, [], ◌∷◌, ◌++◌, Bytes, length, leb, if◌then◌else◌,
}
use gossip_protocol.Message.{
  Store, InternalMessage, InternalMessageType, AnyMessage, GossipNotification, api_notification,
}
use gossip_protocol.Api.Codec.{Result, ok, failed, panics, put_u16}

-- The `uint16` that holds the size.
abbrev pub size_field : Bytes → ℕ
size_field content = (2 + 2 + length content % 2 ^ 16 + 2 + 2) % 2 ^ 16

unfoldable pub write_notification : Store → GossipNotification → Result Bytes
unfolding put_u16
write_notification store payload =
    let item = store.cell payload.item in
    let msg = (put_u16 payload.id ++ put_u16 item.data_type) ++ item.content in
    if leb (length item.content) (65535 - 8)
    then ok (put_u16 (size_field item.content) ++ (put_u16 502 ++ msg))
    else failed

-- The type assertion panics on any other payload.
unfoldable pub handle_gossip_notification : Store → AnyMessage → Result Bytes
unfolding write_notification
handle_gossip_notification store (api_notification payload) = write_notification store payload
handle_gossip_notification store _ = panics

-- How the routine ends: told to close, or by a panic, which is reported; `waiting` is for more
-- messages.
pub data Ending : Type 0 where
  waiting closed crashed : Ending

unfoldable pub writer_turn : Store → InternalMessageType → AnyMessage → Bytes × Ending
unfolding handle_gossip_notification
writer_turn store InternalMessageType.api_endpoint_close_msg payload = ([], Ending.closed)
writer_turn store InternalMessageType.api_notification_msg payload =
    elim (handle_gossip_notification store payload) [
      | ok bytes ↦ (bytes, Ending.waiting)
      | failed ↦ ([], Ending.waiting)
      | panics ↦ ([], Ending.crashed)
    ]
writer_turn store _ payload = ([], Ending.waiting)

-- All that is written for a list of messages.
unfoldable pub writer_routine : Store → List InternalMessage → Bytes × Ending
unfolding writer_turn
writer_routine store [] = ([], Ending.waiting)
writer_routine store (m ∷ ms) =
    let (bytes, ending) = writer_turn store m.type m.payload in
    elim ending [
      | Ending.waiting ↦ let (more, last) = writer_routine store ms in (bytes ++ more, last)
      | Ending.closed ↦ (bytes, Ending.closed)
      | Ending.crashed ↦ (bytes, Ending.crashed)
    ]

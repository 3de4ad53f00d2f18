-- ===== src/P2p/Writer.antt =====
-- `writerRoutine` and `Close`.
use gossip_protocol.Base.{Bool, true, false, List, [], ◌∷◌, Bytes, if◌then◌else◌}
use gossip_protocol.Message.{P2PEndpoint, InternalMessage, InternalMessageType, AnyMessage}
use gossip_protocol.P2p.Reader.{closed_report, crashed_report}

unfoldable pub allowed_msgs : InternalMessageType → Bool
allowed_msgs InternalMessageType.membership_push_request_msg = true
allowed_msgs InternalMessageType.membership_pull_request_msg = true
allowed_msgs InternalMessageType.membership_pull_reply_msg = true
allowed_msgs InternalMessageType.gossip_push_msg = true
allowed_msgs InternalMessageType.gossip_pull_request_msg = true
allowed_msgs InternalMessageType.gossip_pull_reply_msg = true
allowed_msgs _ = false

-- What the routine does: the messages that it hands to the gob encoder, and those that it sends to
-- the Central controller.
pub record Written : Type 0 where
  pub encoded : List InternalMessage
  pub reports : List InternalMessage

abbrev pub is_close : InternalMessageType → Bool
is_close InternalMessageType.p2p_endpoint_close_msg = true
is_close _ = false

-- The routine over the messages of `MsgInQueue`. An error of the encoder is only logged. Without a
-- connection, that of an endpoint that could not be dialled, the write of the encoder is a panic, with
-- the text `text`, which `recover` reports.
unfoldable pub writer_routine : Bytes → P2PEndpoint → List InternalMessage → Written
unfolding allowed_msgs closed_report crashed_report
writer_routine text endp [] = record { encoded = []; reports = [] }
writer_routine text endp (m ∷ ms) =
    let rest = writer_routine text endp ms in
    if is_close m.type
    then record { encoded = []; reports = closed_report endp false ∷ [] }
    else if allowed_msgs m.type
    then (if endp.has_conn
        then record { encoded = m ∷ rest.encoded; reports = rest.reports }
        else record { encoded = []; reports = crashed_report endp false text ∷ [] })
    else rest

-- `Close`: the state of `closeOnce`, and what is put in `MsgInQueue`; `sigCh` is closed whenever a
-- message is.
unfoldable pub close : Bool → Bool × List InternalMessage
close true = (true, [])
close false = (
  true,
  record { type = InternalMessageType.p2p_endpoint_close_msg; payload = AnyMessage.void_value }
      ∷ [],
)

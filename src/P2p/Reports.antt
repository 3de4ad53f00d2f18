-- ===== src/P2p/Reports.antt =====
-- What the two routines of an endpoint report to the Central controller when they end.
use gossip_protocol.Base.{◌≡◌, ◌⊎◌, if◌then◌else◌, Bool, true, false, List, [], ◌∷◌, ◌++◌, Bytes}
use gossip_protocol.Message.{Peer, P2PEndpoint, InternalMessage, InternalMessageType, AnyMessage}
use gossip_protocol.P2p.Reader.{
  Turn, Translation, translate, reader_routine, incoming, closed_report, crashed_report,
  translate_membership_reply, translate_push, translate_gossip_reply,
}
use gossip_protocol.P2p.Writer.{Written}

-- Messages for the Central controller's handler of P2P messages, and behind them one report of the
-- reader.
pub data Finished (endp : P2PEndpoint) : List InternalMessage → Type 0 where
  has_closed : Finished endp (closed_report endp true ∷ [])
  has_crashed : (text : Bytes) → Finished endp (crashed_report endp true text ∷ [])
  passed :
      (t : InternalMessageType) (a : AnyMessage) (ms : List InternalMessage)
      → Finished endp ms
      → Finished endp (
          record {
            type = InternalMessageType.incoming_p2p_msg;
            payload = AnyMessage.internal_message t a;
          }
          ∷ ms)

-- What a translation leads to.
abbrev after_translation :
    Bytes → P2PEndpoint → List InternalMessage → Translation → List InternalMessage
after_translation text endp rest (Translation.forwarded m) = m ∷ rest
after_translation text endp rest Translation.ignored = rest
after_translation text endp rest Translation.asserted = crashed_report endp true text ∷ []

-- A translation that the Central controller's handler of P2P messages takes.
data Fit : Translation → Type 0 where
  fit_forwarded : (t : InternalMessageType) (a : AnyMessage) → Fit (incoming t a)
  fit_ignored : Fit Translation.ignored
  fit_asserted : Fit Translation.asserted

translate-Fit : (peer : Peer) (t : InternalMessageType) (a : AnyMessage) → Fit (translate peer t a)
unfolding translate translate_membership_reply translate_push translate_gossip_reply
translate-Fit peer InternalMessageType.membership_push_request_msg a = fit_forwarded _ _
translate-Fit peer InternalMessageType.membership_pull_request_msg a = fit_forwarded _ _
translate-Fit peer InternalMessageType.membership_pull_reply_msg
      (AnyMessage.membership_pull_reply to peers) =
    fit_forwarded _ _
translate-Fit peer InternalMessageType.membership_pull_reply_msg _ = fit_asserted
translate-Fit peer InternalMessageType.gossip_push_msg (AnyMessage.gossip_push push) =
    fit_forwarded _ _
translate-Fit peer InternalMessageType.gossip_push_msg _ = fit_asserted
translate-Fit peer InternalMessageType.gossip_pull_request_msg a = fit_forwarded _ _
translate-Fit peer InternalMessageType.gossip_pull_reply_msg
      (AnyMessage.gossip_pull_reply to items) =
    fit_forwarded _ _
translate-Fit peer InternalMessageType.gossip_pull_reply_msg _ = fit_asserted
translate-Fit peer _ a = fit_ignored

Fit-Finished :
    (text : Bytes) (endp : P2PEndpoint) (rest : List InternalMessage) (r : Translation)
    → Fit r
    → Finished endp rest
    → Finished endp (after_translation text endp rest r)
unfolding incoming
Fit-Finished text endp rest _ (fit_forwarded t a) f = passed t a rest f
Fit-Finished text endp rest _ fit_ignored f = f
Fit-Finished text endp rest _ fit_asserted f = has_crashed text

-- A turn starts with `SetDeadline`, which panics without a connection.
if-Finished :
    (text : Bytes) (endp : P2PEndpoint) (b : Bool) (ms : List InternalMessage)
    → Finished endp ms
    → Finished endp (if b then ms else crashed_report endp true text ∷ [])
if-Finished text endp true ms f = f
if-Finished text endp false ms f = has_crashed text

-- When `sigCh` is closed, whatever was received before and whatever is still to come, the reader sends
-- messages for the handler of P2P messages and then one report, that it has closed or has crashed, and
-- nothing behind the report.
pub reader_routine-Finished :
    (text : Bytes) (endp : P2PEndpoint) (before after : List Turn)
    → Finished endp (reader_routine text endp (before ++ (Turn.signalled ∷ after)))
unfolding reader_routine
reader_routine-Finished text endp [] after = has_closed
reader_routine-Finished text endp (Turn.signalled ∷ turns) after = has_closed
reader_routine-Finished text endp (Turn.timed_out ∷ turns) after =
    if-Finished text endp (endp.has_conn) _ (reader_routine-Finished text endp turns after)
reader_routine-Finished text endp (Turn.decode_error err ∷ turns) after =
    if-Finished text endp (endp.has_conn) _ (has_crashed err)
reader_routine-Finished text endp (Turn.decoded m ∷ turns) after =
    if-Finished text endp (endp.has_conn) _ (
      Fit-Finished text endp (reader_routine text endp (turns ++ (Turn.signalled ∷ after)))
        (translate endp.peer m.type m.payload) (translate-Fit endp.peer m.type m.payload)
        (reader_routine-Finished text endp turns after))

-- The writer made exactly one report: that it has closed or, only if there is no connection, that it has
-- crashed.
abbrev pub OneReport : Bytes → P2PEndpoint → Written → Type 0
OneReport text endp w =
    (w.reports ≡ closed_report endp false ∷ [])
    ⊎ ((endp.has_conn ≡ false) × (w.reports ≡ crashed_report endp false text ∷ []))

-- A message that is allowed, in front of two runs.
abbrev encoding : Bytes → P2PEndpoint → InternalMessage → Bool → Written → Written
encoding text endp m b w =
    if b
    then record { encoded = m ∷ w.encoded; reports = w.reports }
    else record { encoded = []; reports = crashed_report endp false text ∷ [] }

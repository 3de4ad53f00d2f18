-- ===== src/Api/Reader.antt =====
-- `readerRoutine` and its handlers. A chunk is what `bufioReader` holds after `Peek`, from two to 4096
-- bytes, which `Read` then returns all. `bin_data` is `binData`, which is not cleared between messages.
use gossip_protocol.Base.{
  ℕ, zero, suc, ◌-◌, ◌%◌, true, not, some, List, [], ◌∷◌, ◌++◌, Bytes, length, take, ltb, ◌==◌,
  if◌then◌else◌, replicate,
}
use gossip_protocol.Message.{
  ApiEndpoint, Store, assign, allocate, InternalMessage, InternalMessageType, AnyMessage,
  incoming_api_msg, gossip_announce_msg, gossip_notify_msg, gossip_validation_msg,
  api_endpoint_closed_msg, api_endpoint_crashed_msg, internal_message, gossip_announce,
  gossip_notify, gossip_validation, api_endpoint_closed, api_endpoint_crashed,
}
use gossip_protocol.Api.Codec.{
  Result, ok, failed, panics, ◌>>=◌, read_u8, read_u16, read_bytes, u16,
}

pub record ApiReader : Type 0 where
  pub endpoint : ApiEndpoint
  pub bin_data : Bytes
  pub store : Store
  pub msg_out_queue : List InternalMessage

-- The state in which `readerRoutine` starts.
abbrev pub new_reader : ApiEndpoint → Store → ApiReader
new_reader endp store = record {
  endpoint = endp;
  bin_data = replicate 65535 0;
  store = store;
  msg_out_queue = [];
}

unfoldable pub drop : ℕ → Bytes → Bytes
drop zero bs = bs
drop (suc n) [] = []
drop (suc n) (b ∷ bs) = drop n bs

-- What `Read` leaves in the buffer.
unfoldable pub overwrite : Bytes → Bytes → Bytes
unfolding drop
overwrite chunk old = chunk ++ drop (length chunk) old

-- `MsgOutQueue <- InternalMessage{IncomingAPIMSG, …}`
unfoldable pub pass_on : InternalMessageType → AnyMessage → ApiReader → ApiReader
pass_on t a r = record r {
  msg_out_queue =
      r.msg_out_queue ++ record { type = incoming_api_msg; payload = internal_message t a } ∷ [];
}

-- `handleGossipAnnounce`: `size` is n - 4, and `make` panics for a negative length. The item is
-- allocated before it is filled.
unfoldable pub handle_gossip_announce : Bytes → ℕ → ApiReader → Result ApiReader
unfolding read_u8 read_u16 read_bytes pass_on allocate assign
handle_gossip_announce reader n r = do
  (ttl, after_ttl) ← read_u8 reader
  (reserved, after_reserved) ← read_u8 after_ttl
  (data_type, after_type) ← read_u16 after_reserved
  if ltb n 8 then panics else (do
    (content, left) ← read_bytes (n - 8) after_type
    let p = r.store.next
    ok (
        pass_on gossip_announce_msg (gossip_announce (record { item = some p; ttl = ttl }))
          (record r {
            store =
                assign p (record { data_type = data_type; content = content }) (allocate r.store);
          })))

unfoldable pub handle_gossip_notify : Bytes → ApiReader → Result ApiReader
unfolding read_u16 pass_on
handle_gossip_notify reader r = do
  (reserved, after_reserved) ← read_u16 reader
  (data_type, left) ← read_u16 after_reserved
  ok (
      pass_on gossip_notify_msg
        (gossip_notify (record { who = r.endpoint.api_client; what = data_type })) r)

-- The last bit of the second reserved byte is the verdict.
unfoldable pub handle_gossip_validation : Bytes → ApiReader → Result ApiReader
unfolding read_u8 read_u16 pass_on
handle_gossip_validation reader r = do
  (message_id, after_id) ← read_u16 reader
  (first, after_first) ← read_u8 after_id
  (second, left) ← read_u8 after_first
  ok (
      pass_on gossip_validation_msg
        (gossip_validation
          (record { who = r.endpoint.api_client; id = message_id; valid = not (second % 2 == 0) }))
        r)

-- The `switch` on the type; an unknown one is logged.
unfoldable pub handle_type : ℕ → Bytes → ℕ → ApiReader → Result ApiReader
unfolding handle_gossip_announce handle_gossip_notify handle_gossip_validation
handle_type message_type reader n r =
    if message_type == 500
    then handle_gossip_announce reader n r
    else if message_type == 501
    then handle_gossip_notify reader r
    else if message_type == 503
    then handle_gossip_validation reader r
    else failed

-- One message of `n` bytes in the buffer, from its header on.
unfoldable pub handle_message : ℕ → ApiReader → Result ApiReader
unfolding read_u16 handle_type
handle_message n r = do
  (size, after_size) ← read_u16 r.bin_data
  (message_type, reader) ← read_u16 after_size
  handle_type message_type reader n r

-- One turn of the loop: an error is logged, and the loop goes on.
unfoldable pub logged : ApiReader → Result ApiReader → Result ApiReader
logged r failed = ok r
logged r (ok r') = ok r'
logged r panics = panics

unfoldable pub size_of : Bytes → ℕ
size_of (high ∷ low ∷ bs) = u16 high low
size_of _ = 0

unfoldable pub read_chunk : Bytes → ApiReader → Result ApiReader
unfolding logged handle_message overwrite size_of
read_chunk chunk r =
    let filled = record r { bin_data = overwrite chunk r.bin_data } in
    if ltb (size_of chunk) 2
    then ok r
    else if length chunk == size_of chunk
    then logged filled (handle_message (length chunk) filled)
    else ok filled

-- The turn for the bytes that have arrived on the connection, at least two. `bufio.NewReader` has room
-- for 4096; what arrived beyond these stays on the connection, and is the start of what a later turn
-- finds.
unfoldable pub read_turn : Bytes → ApiReader → Result ApiReader
unfolding read_chunk
read_turn arrived r = read_chunk (take 4096 arrived) r

-- What the routine meets in a turn: `sigCh` is closed, or `Peek` has bytes, meets the deadline, or
-- returns another error, such as the end of the connection, of which the panic's text is made.
pub data ReaderEvent : Type 0 where
  signalled timed_out : ReaderEvent
  peek_error : Bytes → ReaderEvent
  arrival : Bytes → ReaderEvent

-- The message of `recover`.
unfoldable pub reported_crash : Bytes → ApiReader → ApiReader
reported_crash text r = record r {
  msg_out_queue =
      r.msg_out_queue
      ++ record {
        type = api_endpoint_crashed_msg;
        payload = api_endpoint_crashed r.endpoint true text;
      }
        ∷ [];
}

-- The routine over its turns, as far as they go; `text` is that of a panic of `make`.
unfoldable pub reader_routine : Bytes → List ReaderEvent → ApiReader → ApiReader
unfolding read_turn reported_crash
reader_routine text [] r = r
reader_routine text (ReaderEvent.signalled ∷ events) r = record r {
  msg_out_queue =
      r.msg_out_queue
      ++ record { type = api_endpoint_closed_msg; payload = api_endpoint_closed r.endpoint true }
        ∷ [];
}
reader_routine text (ReaderEvent.timed_out ∷ events) r = reader_routine text events r
reader_routine text (ReaderEvent.peek_error err ∷ events) r = reported_crash err r
reader_routine text (ReaderEvent.arrival bytes ∷ events) r = elim (read_turn bytes r) [
  | panics ↦ reported_crash text r
  | failed ↦ r
  | ok r' ↦ reader_routine text events r'
]

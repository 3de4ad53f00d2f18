-- ===== src/Api/Tests.antt =====
-- Messages of an API client.
use gossip_protocol.Base.{ℕ, ◌≤◌, ◌<◌, ◌≡◌, ◌↔◌, refl, true, some, [], ◌∷◌, Bytes, length, arith}
use gossip_protocol.Message.{
  ApiEndpoint, GossipItem, assign, allocate, gossip_announce_msg, gossip_announce,
  gossip_notify_msg, gossip_notify, gossip_validation_msg, gossip_validation,
}
use gossip_protocol.Api.Codec.{ok, failed, panics, u16}
use gossip_protocol.Api.Reader.{ApiReader, pass_on, read_turn, size_of, overwrite}
use gossip_protocol.Api.Writer.{write_notification}
use gossip_protocol.Api.Reading.{
  framed, announce_body, notify_body, validation_body, filled_with, read_turn-announce,
  read_turn-requests, read_turn-dropped,
}
use gossip_protocol.Api.Crashing.{read_turn_panics, read_turn-stale_notify, type_in}
use gossip_protocol.Api.Writing.{notification_body, write_notification_lem}

abbrev endpoint : ApiEndpoint
endpoint = record { id = 1; api_client = record { addr = 9 ∷ [] }; has_conn = true }

abbrev item : GossipItem
item = record { data_type = 300; content = 5 ∷ 6 ∷ [] }

abbrev reader : ApiReader
reader = record {
  endpoint = endpoint;
  bin_data = 0 ∷ 8 ∷ 1 ∷ 245 ∷ 0 ∷ 0 ∷ 1 ∷ 44 ∷ 0 ∷ 0 ∷ 0 ∷ 0 ∷ [];
  store = record { cell = λ p. item; next = 3 };
  msg_out_queue = [];
}

read_turn-announce_example :
    read_turn (framed 500 (announce_body 4 0 300 (5 ∷ 6 ∷ []))) reader
    ≡ ok (
        pass_on gossip_announce_msg
          (gossip_announce (record { item = some 3; ttl = 4 }))
          (record (filled_with (framed 500 (announce_body 4 0 300 (5 ∷ 6 ∷ []))) reader) {
            store = assign 3 item (allocate reader.store);
          }))
read_turn-announce_example =
    read_turn-announce 4 0 300 (5 ∷ 6 ∷ []) reader (omega arith) (omega arith)

read_turn-requests_example :
    (read_turn (framed 501 (notify_body 0 300)) reader
      ≡ ok (
          pass_on gossip_notify_msg
            (gossip_notify (record { who = endpoint.api_client; what = 300 }))
            (filled_with (framed 501 (notify_body 0 300)) reader)))
    × (read_turn (framed 503 (validation_body 7 0 1)) reader
        ≡ ok (
            pass_on gossip_validation_msg
              (gossip_validation (record { who = endpoint.api_client; id = 7; valid = true }))
              (filled_with (framed 503 (validation_body 7 0 1)) reader)))
read_turn-requests_example = read_turn-requests 0 300 7 0 1 reader (omega arith) (omega arith)

read_turn-dropped_example :
    (r' : ApiReader) × (read_turn (0 ∷ 9 ∷ 1 ∷ 244 ∷ []) reader ≡ ok r')
    × (r'.msg_out_queue ≡ [])
    × (r'.store ≡ reader.store)
read_turn-dropped_example =
    read_turn-dropped (0 ∷ 9 ∷ 1 ∷ 244 ∷ []) reader (unfold size_of in omega arith)

read_turn_panics_example : (read_turn (0 ∷ 4 ∷ 1 ∷ 244 ∷ []) reader ≡ panics) ↔ (
    (2 ≤ size_of (0 ∷ 4 ∷ 1 ∷ 244 ∷ []))
    × (length {A = ℕ} (0 ∷ 4 ∷ 1 ∷ 244 ∷ []) ≡ size_of (0 ∷ 4 ∷ 1 ∷ 244 ∷ []))
    × (length {A = ℕ} (0 ∷ 4 ∷ 1 ∷ 244 ∷ []) < 8)
    × (type_in (overwrite (0 ∷ 4 ∷ 1 ∷ 244 ∷ []) reader.bin_data) ≡ 500))
read_turn_panics_example = read_turn_panics (0 ∷ 4 ∷ 1 ∷ 244 ∷ []) reader (omega arith)

read_turn-stale_notify_example :
    read_turn (framed 501 []) reader
    ≡ ok (
        pass_on gossip_notify_msg
          (gossip_notify (record { who = endpoint.api_client; what = u16 1 44 }))
          (filled_with (framed 501 []) reader))
read_turn-stale_notify_example =
    read_turn-stale_notify 0 8 1 245 0 0 1 44 (0 ∷ 0 ∷ 0 ∷ 0 ∷ []) reader refl

write_notification_lem_example :
    (length item.content ≤ 65527
      → (bytes : Bytes) × (write_notification reader.store
            (record { who = endpoint.api_client; item = 3; id = 7 })
          ≡ ok bytes)
        × (bytes ≡ framed 502 (notification_body 7 item))
        × (size_of bytes ≡ length bytes))
    × (65527 < length item.content
        → write_notification reader.store (record { who = endpoint.api_client; item = 3; id = 7 })
          ≡ failed)
write_notification_lem_example =
    write_notification_lem reader.store (record { who = endpoint.api_client; item = 3; id = 7 })

-- ===== src/Api/Writing.antt =====
-- What the writer of an API endpoint writes: the bytes of the protocol, with a size that is theirs.
use gossip_protocol.Base.{
  ℕ, ◌+◌, ◌≤◌, ◌<◌, ◌≡◌, refl, sym, ap, ◌∙◌, true, false, ◌++◌, Bytes, length, leb, arith,
}
use gossip_protocol.Message.{GossipItem, GossipNotification, Store}
use gossip_protocol.Api.Codec.{ok, failed, put_u16}
use gossip_protocol.Api.Reader.{size_of}
use gossip_protocol.Api.Writer.{size_field, write_notification}
use gossip_protocol.Api.Reading.{framed, size_of-framed, length-framed}

-- The fields of a `GOSSIP NOTIFICATION`.
abbrev pub notification_body : ℕ → GossipItem → Bytes
notification_body id item = put_u16 id ++ (put_u16 item.data_type ++ item.content)

same_bytes :
    (id : ℕ) (item : GossipItem)
    → length item.content ≤ 65527
    → put_u16 (size_field item.content)
        ++ (put_u16 502 ++ ((put_u16 id ++ put_u16 item.data_type) ++ item.content))
      ≡ framed 502 (notification_body id item)
unfolding put_u16
same_bytes id item h =
    let size : size_field item.content ≡ length (notification_body id item) + 4 = omega arith in
    ap (λ v. put_u16 v ++ (put_u16 502 ++ ((put_u16 id ++ put_u16 item.data_type) ++ item.content)))
      size

length-notification_body :
    (id : ℕ) (item : GossipItem) → length (notification_body id item) ≡ length item.content + 4
unfolding put_u16
length-notification_body id item = omega arith

-- A notification whose content has at most 65527 bytes is written as the protocol lays it out, with a
-- size field that is the number of the bytes, and one with more is an error.
pub write_notification_lem :
    (store : Store) (payload : GossipNotification)
    → (length (store.cell payload.item).content ≤ 65527
        → (bytes : Bytes) × (write_notification store payload ≡ ok bytes)
          × (bytes ≡ framed 502 (notification_body payload.id (store.cell payload.item)))
          × (size_of bytes ≡ length bytes))
      × (65527 < length (store.cell payload.item).content
          → write_notification store payload ≡ failed)
unfolding write_notification
write_notification_lem store payload =
    let item = store.cell payload.item in
    let body = notification_body payload.id item in
    (
      λ h.
          let fits : leb (length item.content) 65527 ≡ true = ground arith in
          (
            framed 502 body,
            rw fits (ap ok (same_bytes payload.id item h)),
            refl,
            size_of-framed 502 body (omega (arith, length-notification_body payload.id item))
                ∙ sym (length-framed 502 body),
          ),
      λ h. let large : leb (length item.content) 65527 ≡ false = ground arith in rw large refl,
    )

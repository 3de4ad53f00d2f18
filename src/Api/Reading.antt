-- ===== src/Api/Reading.antt =====
-- What the reader of an API endpoint makes of the messages of the protocol, and of other bytes.
use gossip_protocol.Base.{
  ℕ, ◌+◌, ◌-◌, ◌/◌, ◌%◌, ◌^◌, ◌≤◌, ◌<◌, ◌≡◌, ◌≢◌, refl, ap, ◌∙◌, false, not, some, [], ◌∷◌, ◌++◌,
  Bytes, zero, suc, take, length, ltb, ◌==◌, arith, Bool-cases, inl, inr,
}
use gossip_protocol.Message.{
  assign, allocate, gossip_announce_msg, gossip_notify_msg, gossip_validation_msg, gossip_announce,
  gossip_notify, gossip_validation,
}
use gossip_protocol.Api.Codec.{ok, read_u8, read_u16, u16, put_u16, read_bytes-append}
use gossip_protocol.Api.Reader.{
  ApiReader, drop, overwrite, pass_on, handle_gossip_announce, handle_gossip_notify,
  handle_gossip_validation, handle_type, handle_message, logged, size_of, read_turn, read_chunk,
}

-- The messages as the protocol lays them out: the size, the type, and the fields.
abbrev pub framed : ℕ → Bytes → Bytes
framed message_type body = put_u16 (length body + 4) ++ (put_u16 message_type ++ body)

abbrev pub announce_body : ℕ → ℕ → ℕ → Bytes → Bytes
announce_body ttl reserved data_type content = ttl ∷ reserved ∷ (put_u16 data_type ++ content)

abbrev pub notify_body : ℕ → ℕ → Bytes
notify_body reserved data_type = put_u16 reserved ++ put_u16 data_type

abbrev pub validation_body : ℕ → ℕ → ℕ → Bytes
validation_body message_id first second = put_u16 message_id ++ (first ∷ second ∷ [])

u16-split : (v : ℕ) → v < 2 ^ 16 → u16 ((v / 256) % 256) (v % 256) ≡ v
u16-split v h = omega arith

pub size_of-framed :
    (message_type : ℕ) (body : Bytes)
    → length body + 4 < 2 ^ 16
    → size_of (framed message_type body) ≡ length body + 4
unfolding size_of put_u16
size_of-framed message_type body h = u16-split (length body + 4) h

pub length-framed :
    (message_type : ℕ) (body : Bytes) → length (framed message_type body) ≡ length body + 4
unfolding put_u16
length-framed message_type body = omega arith

handle_message-framed :
    (message_type n : ℕ) (body rest : Bytes) (r : ApiReader)
    → message_type < 2 ^ 16
    → handle_message n (record r { bin_data = framed message_type body ++ rest })
      ≡ handle_type message_type
          (body ++ rest)
          n
          (record r { bin_data = framed message_type body ++ rest })
unfolding handle_message read_u16 put_u16
handle_message-framed message_type n body rest r t =
    ap
      (λ v.
        handle_type v (body ++ rest) n (record r { bin_data = framed message_type body ++ rest }))
      (u16-split message_type t)

-- The bytes of the buffer that a message does not reach.
abbrev pub left_over : Bytes → ApiReader → Bytes
left_over chunk r = drop (length chunk) r.bin_data

abbrev pub filled_with : Bytes → ApiReader → ApiReader
filled_with chunk r = record r { bin_data = chunk ++ left_over chunk r }

take-all : (n : ℕ) (bs : Bytes) → length bs ≤ n → take n bs ≡ bs
take-all zero [] h = refl
take-all zero (b ∷ bs) h = absurd (omega arith)
take-all (suc n) [] h = refl
take-all (suc n) (b ∷ bs) h = ap (λ x. b ∷ x) (take-all n bs (omega arith))

-- What fits into the buffer is read at once.
pub read_turn-read_chunk :
    (bytes : Bytes) (r : ApiReader) → length bytes ≤ 4096 → read_turn bytes r ≡ read_chunk bytes r
unfolding read_turn
read_turn-read_chunk bytes r h = ap (λ x. read_chunk x r) (take-all 4096 bytes h)

pub size_of-take : (bytes : Bytes) → size_of (take 4096 bytes) ≡ size_of bytes
unfolding size_of
size_of-take [] = refl
size_of-take (b ∷ []) = refl
size_of-take (b ∷ c ∷ bs) = refl

-- A chunk that is one whole message.
read_turn-whole :
    (chunk : Bytes) (n : ℕ) (r : ApiReader)
    → size_of chunk ≡ n
    → length chunk ≡ n
    → 2 ≤ n
    → n ≤ 4096
    → read_turn chunk r ≡ logged (filled_with chunk r) (handle_message n (filled_with chunk r))
unfolding read_chunk overwrite
read_turn-whole chunk n r s l h fits =
    read_turn-read_chunk chunk r (omega arith) ∙ ground (arith, s, l, h)

-- A whole message comes to the handler of its type, with its body at the start of the reader.
pub read_turn-framed :
    (message_type : ℕ) (body : Bytes) (r : ApiReader)
    → message_type < 2 ^ 16
    → length body + 4 ≤ 4096
    → read_turn (framed message_type body) r
      ≡ logged (filled_with (framed message_type body) r) (
          handle_type message_type
            (body ++ left_over (framed message_type body) r)
            (length body + 4)
            (filled_with (framed message_type body) r))
read_turn-framed message_type body r t h =
    let chunk = framed message_type body in
    read_turn-whole chunk (length body + 4) r (size_of-framed message_type body (omega (arith, h)))
      (length-framed message_type body) (omega arith) h
    ∙ ap (logged (filled_with chunk r))
        (handle_message-framed message_type (length body + 4) body (left_over chunk r) r t)

abbrev stored : ℕ → ℕ → Bytes → ApiReader → ApiReader
stored ttl data_type content r =
    pass_on gossip_announce_msg (gossip_announce (record { item = some r.store.next; ttl = ttl }))
      (record r {
        store =
            assign r.store.next (record { data_type = data_type; content = content })
              (allocate r.store);
      })

handle_announce-body :
    (ttl reserved data_type : ℕ) (content rest : Bytes) (r : ApiReader)
    → data_type < 2 ^ 16
    → handle_gossip_announce
        (announce_body ttl reserved data_type content ++ rest)
        (length content + 8)
        r
      ≡ ok (stored ttl data_type content r)
unfolding handle_gossip_announce read_u8 read_u16 put_u16
handle_announce-body ttl reserved data_type content rest r t =
    let test : ltb (length content + 8) 8 ≡ false = ground arith in
    let size : length content + 8 - 8 ≡ length content = omega arith in
    rw (test, size, read_bytes-append content rest, u16-split data_type t) refl

length-announce_body :
    (ttl reserved data_type : ℕ) (content : Bytes)
    → length (announce_body ttl reserved data_type content) + 4 ≡ length content + 8
unfolding put_u16
length-announce_body ttl reserved data_type content = omega arith

-- The bytes of a `GOSSIP ANNOUNCE` of at most 4096 bytes are understood: the item is stored behind a new pointer, and the
-- Central controller is told to have it announced with the time to live.
pub read_turn-announce :
    (ttl reserved data_type : ℕ) (content : Bytes) (r : ApiReader)
    → data_type < 2 ^ 16
    → length content + 8 ≤ 4096
    → read_turn (framed 500 (announce_body ttl reserved data_type content)) r
      ≡ ok (
          pass_on gossip_announce_msg
            (gossip_announce (record { item = some r.store.next; ttl = ttl }))
            (record (filled_with (framed 500 (announce_body ttl reserved data_type content)) r) {
              store =
                  assign r.store.next
                    (record { data_type = data_type; content = content })
                    (allocate r.store);
            }))
unfolding logged handle_type
read_turn-announce ttl reserved data_type content r t h =
    let body = announce_body ttl reserved data_type content in
    let filled = filled_with (framed 500 body) r in
    let size = length-announce_body ttl reserved data_type content in
    read_turn-framed 500 body r (omega arith) (omega (arith, size))
    ∙ ap
        (λ n.
          logged filled (handle_gossip_announce (body ++ left_over (framed 500 body) r) n filled))
        size
    ∙ ap (logged filled) (
        handle_announce-body ttl reserved data_type content (left_over (framed 500 body) r) filled
          t)

read_turn-notify :
    (reserved data_type : ℕ) (r : ApiReader)
    → data_type < 2 ^ 16
    → read_turn (framed 501 (notify_body reserved data_type)) r
      ≡ ok (
          pass_on gossip_notify_msg
            (gossip_notify (record { who = (r.endpoint).api_client; what = data_type }))
            (filled_with (framed 501 (notify_body reserved data_type)) r))
unfolding logged handle_type handle_gossip_notify read_u16 put_u16
read_turn-notify reserved data_type r t =
    let body = notify_body reserved data_type in
    let filled = filled_with (framed 501 body) r in
    read_turn-framed 501 body r (omega arith) (omega arith)
    ∙ ap
        (λ v. ok (
          pass_on gossip_notify_msg
            (gossip_notify (record { who = (r.endpoint).api_client; what = v })) filled))
        (u16-split data_type t)

read_turn-validation :
    (message_id first second : ℕ) (r : ApiReader)
    → message_id < 2 ^ 16
    → read_turn (framed 503 (validation_body message_id first second)) r
      ≡ ok (
          pass_on gossip_validation_msg
            (gossip_validation (record {
              who = (r.endpoint).api_client;
              id = message_id;
              valid = not (second % 2 == 0);
            }))
            (filled_with (framed 503 (validation_body message_id first second)) r))
unfolding logged handle_type handle_gossip_validation read_u8 read_u16 put_u16
read_turn-validation message_id first second r t =
    let body = validation_body message_id first second in
    let filled = filled_with (framed 503 body) r in
    read_turn-framed 503 body r (omega arith) (omega arith)
    ∙ ap
        (λ v. ok (
          pass_on gossip_validation_msg
            (gossip_validation
              (record { who = (r.endpoint).api_client; id = v; valid = not (second % 2 == 0) }))
            filled))
        (u16-split message_id t)

-- The bytes of a `GOSSIP NOTIFY` and of a `GOSSIP VALIDATION` are understood: the client is named with
-- the data type, and with the message and the last bit as the verdict.
pub read_turn-requests :
    (reserved data_type message_id first second : ℕ) (r : ApiReader)
    → data_type < 2 ^ 16
    → message_id < 2 ^ 16
    → (read_turn (framed 501 (notify_body reserved data_type)) r
        ≡ ok (
            pass_on gossip_notify_msg
              (gossip_notify (record { who = (r.endpoint).api_client; what = data_type }))
              (filled_with (framed 501 (notify_body reserved data_type)) r)))
      × (read_turn (framed 503 (validation_body message_id first second)) r
          ≡ ok (
              pass_on gossip_validation_msg
                (gossip_validation (record {
                  who = (r.endpoint).api_client;
                  id = message_id;
                  valid = not (second % 2 == 0);
                }))
                (filled_with (framed 503 (validation_body message_id first second)) r)))
read_turn-requests reserved data_type message_id first second r t i =
    (read_turn-notify reserved data_type r t, read_turn-validation message_id first second r i)

-- Bytes of which the first 4096 are not one whole message, such as two messages that came together, the
-- first part of one, or a message of more than 4096 bytes, are dropped: nothing is passed on and
-- nothing is stored.
pub read_turn-dropped :
    (bytes : Bytes) (r : ApiReader)
    → length (take 4096 bytes) ≢ size_of bytes
    → (r' : ApiReader) × (read_turn bytes r ≡ ok r')
      × (r'.msg_out_queue ≡ r.msg_out_queue)
      × (r'.store ≡ r.store)
unfolding read_turn read_chunk
read_turn-dropped bytes r h = elim (Bool-cases (ltb (size_of bytes) 2)) [
  | inl small ↦ (r, rw (size_of-take bytes, small) refl, refl, refl)
  | inr large ↦
      let other : (length (take 4096 bytes) == size_of bytes) ≡ false = ground (arith, h) in
      (
        record r { bin_data = overwrite (take 4096 bytes) r.bin_data },
        rw (size_of-take bytes, large, other) refl,
        refl,
        refl,
      )
]

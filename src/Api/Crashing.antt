-- ===== src/Api/Crashing.antt =====
-- Which bytes make the reader of an API endpoint panic, and what it takes from an earlier message.
use gossip_protocol.Base.{
  ℕ_discrete, ℕ, zero, suc, ◌+◌, ◌-◌, ◌≤◌, ◌<◌, ◌≡◌, ◌≢◌, ◌↔◌, refl, sym, ap, ◌∙◌, [], ◌∷◌, Bytes,
  length, take, length-take, length-append, ltb, ◌==◌, arith, Bool-cases, inl, inr,
}
use native.Mathlib.Decide.{dec_lt}
use gossip_protocol.Message.{gossip_notify_msg, gossip_notify}
use gossip_protocol.Api.Codec.{
  Result, ok, failed, panics, ◌>>=◌, read_u8, read_u16, read_bytes, u16, put_u16,
}
use gossip_protocol.Api.Reader.{
  ApiReader, drop, overwrite, pass_on, handle_gossip_announce, handle_gossip_notify,
  handle_gossip_validation, handle_type, handle_message, logged, size_of, read_turn, read_chunk,
}
use gossip_protocol.Api.Reading.{framed, filled_with, read_turn-framed, read_turn-read_chunk}

-- The type that the header in the buffer names.
unfoldable pub type_in : Bytes → ℕ
type_in (a ∷ b ∷ high ∷ low ∷ bs) = u16 high low
type_in _ = 0

read_bytes-ne-panics : (n : ℕ) (bs : Bytes) → read_bytes n bs ≢ panics
unfolding read_bytes
read_bytes-ne-panics zero bs = λ e. cc
read_bytes-ne-panics (suc n) [] = λ e. cc
read_bytes-ne-panics (suc n) (b ∷ bs) = λ e. ground (arith, e, read_bytes-ne-panics n bs)

-- With eight bytes in the buffer an announcement panics exactly if it claims to be shorter.
announce_short :
    (e f g h : ℕ) (bs : Bytes) (n : ℕ) (r : ApiReader)
    → n < 8
    → handle_gossip_announce (e ∷ f ∷ g ∷ h ∷ bs) n r ≡ panics
unfolding handle_gossip_announce read_u8 read_u16
announce_short e f g h bs n r s = ground arith

announce_long :
    (e f g h : ℕ) (bs : Bytes) (n : ℕ) (r : ApiReader)
    → 8 ≤ n
    → handle_gossip_announce (e ∷ f ∷ g ∷ h ∷ bs) n r ≢ panics
unfolding handle_gossip_announce read_u8 read_u16
announce_long e f g h bs n r s = λ p. ground (arith, p, read_bytes-ne-panics (n - 8) bs)

others_return :
    (t e f g h : ℕ) (bs : Bytes) (n : ℕ) (r : ApiReader)
    → t ≢ 500
    → handle_type t (e ∷ f ∷ g ∷ h ∷ bs) n r ≢ panics
unfolding handle_type handle_gossip_notify handle_gossip_validation read_u8 read_u16
others_return t e f g h bs n r s = λ p. ground (arith, p, s)

announces :
    (e f g h : ℕ) (bs : Bytes) (n : ℕ) (r : ApiReader)
    → handle_type 500 (e ∷ f ∷ g ∷ h ∷ bs) n r ≡ handle_gossip_announce (e ∷ f ∷ g ∷ h ∷ bs) n r
unfolding handle_type
announces e f g h bs n r = refl

type_panics :
    (t e f g h : ℕ) (bs : Bytes) (n : ℕ) (r : ApiReader)
    → (handle_type t (e ∷ f ∷ g ∷ h ∷ bs) n r ≡ panics) ↔ ((n < 8) × (t ≡ 500))
type_panics t e f g h bs n r = elim (ℕ_discrete t 500) [
  | no other ↦ (λ p. absurd (others_return t e f g h bs n r other p), λ p. absurd (other p.1))
  | yes same ↦
      rw (same, announces e f g h bs n r)
        (elim (dec_lt n 8) [
          | yes short ↦ (λ p. (short, refl), λ p. announce_short e f g h bs n r short)
          | no long ↦
              (λ p. absurd (announce_long e f g h bs n r (omega arith) p), λ p. absurd (long p.0))
        ])
]

handle_header :
    (a b c d : ℕ) (bs : Bytes) (n : ℕ) (r : ApiReader)
    → r.bin_data ≡ a ∷ b ∷ c ∷ d ∷ bs
    → handle_message n r ≡ handle_type (u16 c d) bs n r
unfolding handle_message read_u16
handle_header a b c d bs n r q =
    ap (λ (x : Bytes). read_u16 x >>= λ s. read_u16 s.1 >>= λ t. handle_type t.0 t.1 n r) q

record EightBytes (bs : Bytes) : Type 0 where
  a : ℕ
  b : ℕ
  c : ℕ
  d : ℕ
  e : ℕ
  f : ℕ
  g : ℕ
  h : ℕ
  rest : Bytes
  same : bs ≡ a ∷ b ∷ c ∷ d ∷ e ∷ f ∷ g ∷ h ∷ rest

eight_bytes : (bs : Bytes) → 8 ≤ length bs → EightBytes bs
eight_bytes (a ∷ b ∷ c ∷ d ∷ e ∷ f ∷ g ∷ h ∷ rest) s = record {
  a = a;
  b = b;
  c = c;
  d = d;
  e = e;
  f = f;
  g = g;
  h = h;
  rest = rest;
  same = refl;
}
eight_bytes bs s = absurd (omega arith)

length-drop : (n : ℕ) (bs : Bytes) → length bs ≤ n + length (drop n bs)
unfolding drop
length-drop zero bs = omega arith
length-drop (suc n) [] = omega arith
length-drop (suc n) (b ∷ bs) = omega (arith, length-drop n bs)

length-overwrite : (chunk old : Bytes) → length old ≤ length (overwrite chunk old)
unfolding overwrite
length-overwrite chunk old =
    omega (arith, length-append chunk (drop (length chunk) old), length-drop (length chunk) old)

logged_panics : (r : ApiReader) (o : Result ApiReader) → (logged r o ≡ panics) ↔ (o ≡ panics)
unfolding logged
logged_panics r failed = (λ p. cc, λ p. cc)
logged_panics r (ok r') = (λ p. cc, λ p. cc)
logged_panics r panics = (λ p. p, λ p. p)

read_chunk_panics :
    (chunk : Bytes) (r : ApiReader)
    → 8 ≤ length r.bin_data
    → (read_chunk chunk r ≡ panics) ↔ (
        (2 ≤ size_of chunk)
        × (length chunk ≡ size_of chunk)
        × (length chunk < 8)
        × (type_in (overwrite chunk r.bin_data) ≡ 500))
unfolding read_chunk type_in
read_chunk_panics chunk r room =
    let buffer = overwrite chunk r.bin_data in
    let e = eight_bytes buffer (omega (arith, length-overwrite chunk r.bin_data)) in
    let filled = record r { bin_data = buffer } in
    let header =
      handle_header e.a e.b e.c e.d (e.e ∷ e.f ∷ e.g ∷ e.h ∷ e.rest) (length chunk) filled e.same in
    let t = type_panics (u16 e.c e.d) e.e e.f e.g e.h e.rest (length chunk) filled in
    let l = logged_panics filled (handle_message (length chunk) filled) in
    let named : type_in buffer ≡ u16 e.c e.d = ap type_in e.same in
    elim (Bool-cases (ltb (size_of chunk) 2)) [
      | inl small ↦ rw (small, read_chunk) (λ p. cc, λ p. absurd (ground (arith, small, p.0)))
      | inr large ↦ elim (Bool-cases (length chunk == size_of chunk)) [
        | inr part ↦ rw (large, part, read_chunk) (λ p. cc, λ p. absurd (ground (arith, part, p.1)))
        | inl whole ↦
            rw (large, whole, read_chunk)
              (
                λ p. (
                  ground (arith, large),
                  ground (arith, whole),
                  (t.0 (sym header ∙ l.0 p)).0,
                  named ∙ (t.0 (sym header ∙ l.0 p)).1,
                ),
                λ p. l.1 (header ∙ t.1 (p.2, sym named ∙ p.3)),
              )
      ]
    ]

-- While the buffer has room for a header and four bytes more, the reader panics exactly at a chunk that
-- has the length that it names, from 2 to 7, and that makes the header in the buffer that of a
-- `GOSSIP ANNOUNCE`.
pub read_turn_panics :
    (chunk : Bytes) (r : ApiReader)
    → 8 ≤ length r.bin_data
    → (read_turn chunk r ≡ panics) ↔ (
        (2 ≤ size_of chunk)
        × (length chunk ≡ size_of chunk)
        × (length chunk < 8)
        × (type_in (overwrite chunk r.bin_data) ≡ 500))
unfolding read_turn
read_turn_panics chunk r room = elim (dec_lt 4096 (length chunk)) [
  | no short ↦ rw (read_turn-read_chunk chunk r (omega arith)) (read_chunk_panics chunk r room)
  | yes long ↦
      let full : length (take 4096 chunk) ≡ 4096 = length-take 4096 chunk (omega arith) in
      (
        λ p.
            let named = (read_chunk_panics (take 4096 chunk) r room).0 p in
            absurd (omega (arith, named.2, full)),
        λ p. absurd (omega (arith, p.2, long)),
      )
]

-- A `GOSSIP NOTIFY` that ends after its header registers the client for the data type at the bytes 6
-- and 7 of an earlier message.
pub read_turn-stale_notify :
    (a b c d e f g h : ℕ) (rest : Bytes) (r : ApiReader)
    → r.bin_data ≡ a ∷ b ∷ c ∷ d ∷ e ∷ f ∷ g ∷ h ∷ rest
    → read_turn (framed 501 []) r
      ≡ ok (
          pass_on gossip_notify_msg
            (gossip_notify (record { who = (r.endpoint).api_client; what = u16 g h }))
            (filled_with (framed 501 []) r))
unfolding logged handle_type handle_gossip_notify read_u16 put_u16 drop
read_turn-stale_notify a b c d e f g h rest r q =
    let filled = filled_with (framed 501 []) r in
    read_turn-framed 501 [] r (omega arith) (omega arith)
    ∙ ap (λ (x : Bytes). logged filled (handle_gossip_notify (drop 4 x) filled)) q

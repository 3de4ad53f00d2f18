-- ===== src/Api/Codec.antt =====
-- Big-endian numbers in a sequence of bytes, and what `binary.Read` does with them.
use gossip_protocol.Base.{
  ℕ, zero, suc, ◌+◌, ◌*◌, ◌/◌, ◌%◌, ◌^◌, ◌<◌, ◌≡◌, refl, [], ◌∷◌, ◌++◌, Bytes, All, length, arith,
}

-- An operation of the reader: a value, an error that is returned, or a panic.
pub data Result {ℓ} (A : Type ℓ) : Type ℓ where
  ok : A → Result A
  failed : Result A
  panics : Result A

infixl 5 ◌>>=◌
abbrev pub ◌>>=◌ {ℓ κ} : {A : Type ℓ} {B : Type κ} → Result A → (A → Result B) → Result B
ok a >>= f = f a
failed >>= f = failed
panics >>= f = panics

abbrev pub AreBytes : Bytes → Type 0
AreBytes bs = All (λ b. b < 256) bs

-- `PutUint16`, and `Uint16` of two bytes.
unfoldable pub put_u16 : ℕ → Bytes
put_u16 v = (v / 256) % 256 ∷ v % 256 ∷ []

abbrev pub u16 : ℕ → ℕ → ℕ
u16 high low = high * 256 + low

-- `binary.Read` into a `uint8`, a `uint16` and a slice: the value and the rest of the reader.
unfoldable pub read_u8 : Bytes → Result (ℕ × Bytes)
read_u8 [] = failed
read_u8 (b ∷ bs) = ok (b, bs)

unfoldable pub read_u16 : Bytes → Result (ℕ × Bytes)
read_u16 (high ∷ low ∷ bs) = ok (u16 high low, bs)
read_u16 (b ∷ []) = failed
read_u16 [] = failed

unfoldable pub read_bytes : ℕ → Bytes → Result (Bytes × Bytes)
read_bytes zero bs = ok ([], bs)
read_bytes (suc n) [] = failed
read_bytes (suc n) (b ∷ bs) = do (rest, left) ← read_bytes n bs; ok (b ∷ rest, left)

pub read_u16-put_u16 : (v : ℕ) (bs : Bytes) → v < 2 ^ 16 → read_u16 (put_u16 v ++ bs) ≡ ok (v, bs)
unfolding read_u16 put_u16
read_u16-put_u16 v bs h = ground arith

pub read_bytes-append : (xs bs : Bytes) → read_bytes (length xs) (xs ++ bs) ≡ ok (xs, bs)
unfolding read_bytes
read_bytes-append [] bs = refl
read_bytes-append (x ∷ xs) bs = rw (read_bytes-append xs bs) refl

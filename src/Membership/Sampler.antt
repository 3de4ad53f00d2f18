-- ===== src/Membership/Sampler.antt =====
-- `MinWiseIndependentPermutation` and `PeerSampler`. `sha256` and `crypt_blocks` stand for
-- `sha256.Sum256` and for the AES encryption under a key; an error of the latter is `none`.
use gossip_protocol.Base.{
  ℕ, ◌+◌, ◌*◌, Bool, true, false, ◌||◌, Option, none, some, List, [], ◌∷◌, Bytes, ltb,
  if◌then◌else◌,
}
use gossip_protocol.Message.{Peer}
use gossip_protocol.Membership.State.{PeerSampler}

-- `SetBytes`: the first byte is the most significant one.
unfoldable pub set_bytes : ℕ → Bytes → ℕ
set_bytes acc [] = acc
set_bytes acc (b ∷ bs) = set_bytes (acc * 256 + b) bs

-- `NewPeerSampler`, for the key that was drawn.
abbrev pub new_peer_sampler : Bytes → PeerSampler
new_peer_sampler key = record { peer = none; peer_p_val = 0; permuter = key }

-- `Sample`: without a peer, the zero value.
unfoldable pub sample : PeerSampler → Peer
sample s = elim s.peer [ none ↦ record { addr = [] } | some peer ↦ peer ]

module _ (sha256 : Bytes → Bytes) (crypt_blocks : Bytes → Bytes → Option Bytes) where
  unfoldable pub permute : Bytes → Peer → Option Bytes
  permute key peer = crypt_blocks key (sha256 peer.addr)

  -- A sampler without a peer accepts any, and another one a peer of a smaller value.
  abbrev accepts : ℕ → Option Peer → ℕ → Bool
  accepts value none old = true
  accepts value (some _) old = ltb value old

  -- `Next`: the sampler afterwards, and whether the error is nil.
  unfoldable pub next : Peer → PeerSampler → PeerSampler × Bool
  unfolding permute set_bytes
  next peer s = elim (permute s.permuter peer) [
    | none ↦ (s, false)
    | some bytes ↦
        let value = set_bytes 0 bytes in
        if accepts value s.peer s.peer_p_val
        then (record s { peer = some peer; peer_p_val = value }, true)
        else (s, false)
  ]

  -- `NextSet`, over the set's elements in the order of its iteration; `changed` is whether the error
  -- is nil so far.
  unfoldable pub next_all : List Peer → Bool → PeerSampler → PeerSampler × Bool
  unfolding next
  next_all [] changed s = (s, changed)
  next_all (peer ∷ peers) changed s =
      let (s', ok) = next peer s in next_all peers (changed || ok) s'

  abbrev pub next_set : List Peer → PeerSampler → PeerSampler × Bool
  next_set peers s = next_all peers false s

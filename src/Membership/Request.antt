-- ===== src/Membership/Request.antt =====
-- src/core/membership_controller_message.go: push requests and their proof of work. `hash` stands
-- for `HashVal`, the scrypt hash of the printed request as a number, for the hardness it is given.
use gossip_protocol.Base.{
  ℕ, zero, suc, ◌+◌, ◌-◌, ◌*◌, ◌/◌, ◌%◌, ◌^◌, Option, none, some, true, false, leb, ◌==◌,
  if◌then◌else◌, ◌>>=◌,
}
use gossip_protocol.Message.{Peer, MembershipPushRequest}

-- `PoWThreshold`: (2^bits - 1)/repetition; `none` is the panic of a division by zero.
unfoldable pub pow_threshold : ℕ → ℕ → Option ℕ
pow_threshold repetition bits = if repetition == 0 then none else some ((2 ^ bits - 1) / repetition)

-- `pr.Nonce++` on a `uint64`.
abbrev pub next_nonce : MembershipPushRequest → MembershipPushRequest
next_nonce pr = record pr { nonce = (pr.nonce + 1) % 2 ^ 64 }

module _ (hash : ℕ → MembershipPushRequest → Option ℕ) where
  -- The loop, for the rounds that are left: `none` is an error.
  unfoldable pub try_nonces : ℕ → ℕ → ℕ → MembershipPushRequest → Option MembershipPushRequest
  try_nonces zero hardness k pr = none
  try_nonces (suc left) hardness k pr = elim (hash hardness pr) [
    | none ↦ none
    | some hash_val ↦ elim (leb hash_val k) [
      | true ↦ some pr
      | false ↦ try_nonces left hardness k (next_nonce pr)
    ]
  ]

  -- `NewMembershipPushRequestMSGPayload` at the time `now` and for the drawn `nonce`. The outer `none`
  -- is a panic, the inner one an error.
  unfoldable pub new_push_request :
      Peer → Peer → ℕ → ℕ → ℕ → ℕ → Option (Option MembershipPushRequest)
  unfolding pow_threshold try_nonces
  new_push_request from to hardness repetition now nonce = do
    k ← pow_threshold repetition 256
    some (
        try_nonces ((2 * repetition) % 2 ^ 64) hardness k
          (record { from = from; to = to; when = now; nonce = nonce }))

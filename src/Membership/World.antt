-- ===== src/Membership/World.antt =====
-- Concrete settings for the tests: the functions from outside, the draws, and a new controller.
use gossip_protocol.Base.{
  ℕ, zero, suc, ◌+◌, ◌-◌, ◌*◌, ◌/◌, ◌%◌, ◌^◌, ◌≤◌, ◌<◌, ◌≡◌, refl, true, some, List, [], ◌∷◌, leb,
  length, All, arith,
}
use gossip_protocol.Membership.State.{Float64, MembershipController}
use gossip_protocol.Membership.Rounds.{Draws}
use gossip_protocol.Membership.Handlers.{Outside, fresh_controller}
use gossip_protocol.Membership.Sending.{IsPerm}
use gossip_protocol.Membership.Running.{AreFair}

-- Thousandths in place of floating-point numbers.
abbrev pub thousandths : Float64 ℕ
thousandths = record {
  zero_point = 0;
  one_point = 1000;
  nine_tenths = 900;
  plus = λ a b. a + b;
  subtract = λ a b. a - b;
  multiply = λ a b. a * b / 1000;
  divide = λ a b. a * 1000 / b;
  at_most = leb;
  of_nat = λ n. n * 1000;
  floor_u16 = λ a. (a / 1000) % 2 ^ 16;
  to_u32 = λ a. (a / 1000) % 2 ^ 32;
}

abbrev pub world : Outside ℕ
world = record {
  float64 = thousandths;
  hash = λ hardness pr. some pr.nonce;
  is_valid_addr = λ a. true;
  sha256 = λ a. a;
  crypt_blocks = λ key a. some a;
}

abbrev pub down : ℕ → List ℕ
down zero = []
down (suc n) = n ∷ down n

length-down : (n : ℕ) → length (down n) ≡ n
length-down zero = refl
length-down (suc n) = omega (arith, length-down n)

down-below : (k n : ℕ) → k ≤ n → All (λ i. i < n) (down k)
down-below zero n h = tt
down-below (suc k) n h = (omega arith, down-below k n (omega arith))

pub down-IsPerm : IsPerm down
down-IsPerm = record { sizes = length-down; below = λ n. down-below n n (omega arith) }

abbrev pub draws : Draws ℕ
draws = record {
  push_perm = down;
  pull_perm = down;
  replies_perm = down;
  samples_perm = down;
  float = λ n. 0;
  nonce = λ n. 7;
  now = λ n. 100;
}

pub draws-AreFair : AreFair draws
draws-AreFair = record {
  push_fair = down-IsPerm;
  pull_fair = down-IsPerm;
  replies_fair = down-IsPerm;
  samples_fair = down-IsPerm;
}

unfoldable pub made : MembershipController ℕ
unfolding fresh_controller
made = fresh_controller world (1 ∷ []) (2 ∷ []) 400 400 50 100000 5

-- ===== src/Datastruct/Extrema.antt =====
-- src/utils/math/math.go
use gossip_protocol.Base.{ℕ, ◌≤◌, arith, leb, if◌then◌else◌}

unfoldable pub min_int : ℕ → ℕ → ℕ
min_int x y = if leb x y then x else y

unfoldable pub max_int : ℕ → ℕ → ℕ
max_int x y = if leb y x then x else y

pub min_int-le : (x y : ℕ) → (min_int x y ≤ x) × (min_int x y ≤ y)
unfolding min_int
min_int-le x y = ground arith

pub le-max_int : (x y : ℕ) → (x ≤ max_int x y) × (y ≤ max_int x y)
unfolding max_int
le-max_int x y = ground arith

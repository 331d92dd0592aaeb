-- ===== src/Expirations/Fuel.antt =====
-- The loops of container/heap over the expiration heap end before their fuel does, so that the fuel
-- given by the calls in Expirations is enough.
use gomembase.Prelude.{ℕ, zero, suc, ◌-◌, ◌/◌, ◌<◌, ◌≡◌, arith}
use gomembase.Expirations.{Expirations, swap, up, down, smaller_child}

-- Two amounts of fuel above the index give the same result.
pub up-fuel : (f g : ℕ) (x : Expirations) (j : ℕ) → j < f → j < g → up f x j ≡ up g x j
unfolding up
up-fuel zero g x j h k = absurd (omega arith)
up-fuel (suc f) zero x j h k = absurd (omega arith)
up-fuel (suc f) (suc g) x j h k = ground (arith, up-fuel f g (swap x ((j - 1) / 2) j) ((j - 1) / 2))

smaller_child-above : (x : Expirations) (i n : ℕ) → i < smaller_child x i n
unfolding smaller_child
smaller_child-above x i n = ground arith

-- Two amounts of fuel above the distance to the end give the same result.
pub down-fuel :
    (f g : ℕ) (x : Expirations) (i n : ℕ) → n - i < f → n - i < g → down f x i n ≡ down g x i n
unfolding down
down-fuel zero g x i n h k = absurd (omega arith)
down-fuel (suc f) zero x i n h k = absurd (omega arith)
down-fuel (suc f) (suc g) x i n h k = ground (
  arith,
  smaller_child-above x i n,
  down-fuel f g (swap x i (smaller_child x i n)) (smaller_child x i n) n,
)

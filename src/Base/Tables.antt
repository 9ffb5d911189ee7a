-- ===== src/Base/Tables.antt =====
-- Facts about every value of a small range, by evaluation.
use Prim.Native.Nat.{ℕ, zero, suc, ◌<◌}
use mathlib.Core.Bool.{Bool, true, ◌&&◌}
use mathlib.Core.Path.{◌≡◌}
use native.Mathlib.Omega.{arith}

module _ (test : ℕ → Bool) where
  -- the test passes at 0, …, k - 1
  unfoldable pub passes : ℕ → Bool
  passes zero = true
  passes (suc k) = passes k && test k

  pub passes-at : (k : ℕ) → passes k ≡ true → (c : ℕ) → c < k → test c ≡ true
  unfolding passes
  passes-at zero all c below = elim below [ ]
  passes-at (suc k) all c below = ground (arith, λ (e : passes k ≡ true). passes-at k e c)

-- ===== src/Plt/Time/Micros.antt =====
-- What a time stands for: a number of microseconds.
use acplt_ks.Base.{◌+◌, ◌*◌, ◌<◌, ◌≡◌, arith}
use acplt_ks.Base.Int.{ℤ, pos, pos_part, neg_part, sub_ℕ, ◌≤ℤ◌}
use acplt_ks.Plt.Time.{Timeval}

unfoldable pub micros : Timeval → ℤ
micros t =
    sub_ℕ (1000000 * pos_part t.tv_sec + pos_part t.tv_usec)
      (1000000 * neg_part t.tv_sec + neg_part t.tv_usec)

pub micros_parts :
    (t : Timeval)
    → pos_part (micros t) + 1000000 * neg_part t.tv_sec + neg_part t.tv_usec
      ≡ neg_part (micros t) + 1000000 * pos_part t.tv_sec + pos_part t.tv_usec
unfolding micros
micros_parts t = ground arith

-- `tv_usec` lies between 0 and 999999: `invariant` of both classes
pub record IsNormal (t : Timeval) : Type 0 where
  pub low : pos 0 ≤ℤ t.tv_usec
  pub high : pos_part t.tv_usec < 1000000

-- the parts of an integer are not both positive
pub parts_apart : (a : ℤ) → pos_part a * neg_part a ≡ 0
parts_apart a = ground arith

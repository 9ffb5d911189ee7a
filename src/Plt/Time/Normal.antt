-- ===== src/Plt/Time/Normal.antt =====
-- `normalize` of both classes: the loops end in range and keep the microseconds.
use acplt_ks.Base.{ℕ, zero, suc, ◌+◌, ◌*◌, ◌<◌, ◌≤◌, ◌≡◌, refl, ◌∙◌, max, arith}
use acplt_ks.Base.Int.{
  pos, pos_part, neg_part, ◌+ℤ◌, ◌-ℤ◌, int_laws, eq_of_parts, +ℤ_parts, -ℤ_parts,
}
use acplt_ks.Plt.Time.{
  Timeval, carry, borrow, carry_rounds, borrow_rounds, normalize, span_normalize, mega,
}
use acplt_ks.Plt.Time.Micros.{micros, micros_parts, IsNormal, parts_apart}

-- after the carry loop `u` is below a second and stands for the same time as `t`
record Carried (t u : Timeval) : Type 0 where
  same : micros u ≡ micros t
  below : pos_part u.tv_usec < 1000000
  debt : neg_part u.tv_usec ≡ neg_part t.tv_usec

record Borrowed (t u : Timeval) : Type 0 where
  same : micros u ≡ micros t
  above : neg_part u.tv_usec ≡ 0
  bound : pos_part u.tv_usec ≤ max (pos_part t.tv_usec) 999999

micros_carry :
    (t : Timeval)
    → micros (record { tv_sec = t.tv_sec +ℤ pos 1; tv_usec = t.tv_usec -ℤ mega }) ≡ micros t
micros_carry t =
    let u : Timeval = record { tv_sec = t.tv_sec +ℤ pos 1; tv_usec = t.tv_usec -ℤ mega } in
    omega (int_laws, micros_parts t, micros_parts u)

micros_borrow :
    (t : Timeval)
    → micros (record { tv_sec = t.tv_sec -ℤ pos 1; tv_usec = t.tv_usec +ℤ mega }) ≡ micros t
micros_borrow t =
    let u : Timeval = record { tv_sec = t.tv_sec -ℤ pos 1; tv_usec = t.tv_usec +ℤ mega } in
    omega (int_laws, micros_parts t, micros_parts u)

carry-Carried :
    (fuel : ℕ) (t : Timeval)
    → pos_part t.tv_usec < 1000000 + 1000000 * fuel
    → Carried t (carry fuel t)
unfolding carry
carry-Carried zero t h = record { same = refl; below = omega arith; debt = refl }
carry-Carried (suc fuel) t h =
    let u : Timeval = record { tv_sec = t.tv_sec +ℤ pos 1; tv_usec = t.tv_usec -ℤ mega } in
    ground (
      arith,
      carry-Carried fuel u,
      micros_carry t,
      -ℤ_parts t.tv_usec mega,
      parts_apart (t.tv_usec -ℤ mega),
      parts_apart t.tv_usec,
    )

borrow-Borrowed :
    (fuel : ℕ) (t : Timeval) → neg_part t.tv_usec ≤ 1000000 * fuel → Borrowed t (borrow fuel t)
unfolding borrow
borrow-Borrowed zero t h = record { same = refl; above = omega arith; bound = omega arith }
borrow-Borrowed (suc fuel) t h =
    let u : Timeval = record { tv_sec = t.tv_sec -ℤ pos 1; tv_usec = t.tv_usec +ℤ mega } in
    ground (
      arith,
      borrow-Borrowed fuel u,
      micros_borrow t,
      +ℤ_parts t.tv_usec mega,
      parts_apart (t.tv_usec +ℤ mega),
      parts_apart t.tv_usec,
    )

-- Both `normalize` functions, whose loops run in opposite order, reach `tv_usec` between 0 and
-- 999999 and leave the number of microseconds as it was.
pub normalize_lem :
    (t : Timeval)
    → (IsNormal (normalize t) × (micros (normalize t) ≡ micros t))
      × (IsNormal (span_normalize t) × (micros (span_normalize t) ≡ micros t))
unfolding normalize span_normalize
normalize_lem t =
    let a = borrow-Borrowed (borrow_rounds t) t (omega arith) in
    let a' = borrow (borrow_rounds t) t in
    let b = carry-Carried (carry_rounds a') a' (omega arith) in
    let c = carry-Carried (carry_rounds t) t (omega arith) in
    let c' = carry (carry_rounds t) t in
    let d = borrow-Borrowed (borrow_rounds c') c' (omega arith) in
    (
      (omega (arith, a.above, b.debt, b.below), b.same ∙ a.same),
      (omega (arith, c.below, d.above, d.bound), d.same ∙ c.same),
    )

-- A normal time is determined by its microseconds.
pub IsNormal-injective : (a b : Timeval) → IsNormal a → IsNormal b → micros a ≡ micros b → a ≡ b
IsNormal-injective a b na nb e = ground (
  arith,
  micros_parts a,
  micros_parts b,
  parts_apart a.tv_usec,
  parts_apart b.tv_usec,
  eq_of_parts a.tv_sec b.tv_sec,
  eq_of_parts a.tv_usec b.tv_usec,
)

-- What is normal already stays as it is.
pub normalize-IsNormal : (t : Timeval) → IsNormal t → normalize t ≡ t
normalize-IsNormal t n = let l = (normalize_lem t).0 in IsNormal-injective (normalize t) t l.0 n l.1

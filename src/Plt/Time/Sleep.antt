-- ===== src/Plt/Time/Sleep.antt =====
-- `PltTime::sleep` against the readings of the clock.
use mathlib.Core.Option
use acplt_ks.Base.{
  ℕ, zero, suc, ◌≤◌, ◌≡◌, true, false, List, [], ◌∷◌, some, arith, length, get_or, get_elem?, All,
  Bool-cases, inl, inr, Option-cases, subst, some_cancel,
}
use acplt_ks.Base.Int.{pos, ◌≤ℤ◌, ◌+ℤ◌, -ℤ_parts}
use acplt_ks.Plt.Time.{Time, plus, minus, ltb, sleep, sleep_until}
use acplt_ks.Plt.Time.Micros.{micros, IsNormal}
use acplt_ks.Plt.Time.Arith.{plus_lem, minus_lem}
use acplt_ks.Plt.Time.Compare.{time_order}

-- a delay that `select` accepts, and that lets time pass
abbrev pub IsDelay : Time → Type 0
IsDelay d = IsNormal d × (pos 1 ≤ℤ micros d)

minus-IsDelay : (a b : Time) → IsNormal a → IsNormal b → ltb a b ≡ true → IsDelay (minus b a)
minus-IsDelay a b na nb h =
    let d = (minus_lem b a).3 in
    let o = (time_order a b na nb).2 in
    (d.normal, rw d.same (ground (arith, h, o, -ℤ_parts (micros b) (micros a))))

-- what the loop hands out and when it ends; `d` is read out of range, which does not happen
record Woke (d until now : Time) (readings ds : List Time) : Type 0 where
  delays : All IsDelay ds
  count : length ds ≤ length readings
  late : micros until ≤ℤ micros (get_or (now ∷ readings) (length ds) d)

awake : (a b : Time) → IsNormal a → IsNormal b → ltb a b ≡ false → micros b ≤ℤ micros a
awake a b na nb h = ground (arith, h, (time_order a b na nb).2)

Woke-nil :
    (d until now : Time) (readings : List Time)
    → micros until ≤ℤ micros now
    → Woke d until now readings []
Woke-nil d until now readings h = record { delays = tt; count = omega arith; late = h }

Woke-cons :
    (d until now r : Time) (readings ds : List Time) (delay : Time)
    → IsDelay delay
    → Woke d until r readings ds
    → Woke d until now (r ∷ readings) (delay ∷ ds)
Woke-cons d until now r readings ds delay h w = record {
  delays = (h, w.delays);
  count = omega (arith, w.count);
  late = w.late;
}

sleep_until-Woke :
    (d until now : Time) (readings : List Time) (ds : List Time)
    → IsNormal until
    → IsNormal now
    → All IsNormal readings
    → sleep_until until now readings ≡ some ds
    → Woke d until now readings ds
unfolding sleep_until
sleep_until-Woke d until now [] ds nu nn ns e = elim (Bool-cases (ltb now until)) [
  | inl go ↦ ground (arith, e, go)
  | inr stop ↦
      subst (Woke d until now []) (some_cancel (rw stop at e))
        (Woke-nil d until now [] (awake now until nn nu stop))
]
sleep_until-Woke d until now (r ∷ readings) ds nu nn ns e = elim (Bool-cases (ltb now until)) [
  | inr stop ↦
      subst (Woke d until now (r ∷ readings)) (some_cancel (rw stop at e))
        (Woke-nil d until now (r ∷ readings) (awake now until nn nu stop))
  | inl go ↦ elim (Option-cases (sleep_until until r readings)) [
    | inl stuck ↦ ground (arith, e, go, stuck)
    | inr (ds', found) ↦
        subst (Woke d until now (r ∷ readings)) (some_cancel (rw (go, found, Option.map) at e)) (
          Woke-cons d until now r readings ds' _ (minus-IsDelay now until nn nu go)
            (sleep_until-Woke d until r readings ds' nu ns.0 ns.1 found))
  ]
]

-- When `sleep` returns, each delay that it handed to `select` was a normal time of at least a
-- microsecond, it asked the clock at most once for each reading, and the last reading that it took
-- is no earlier than the start and the length of the sleep together.
pub sleep_lem :
    (delay now : Time) (readings : List Time) (ds : List Time)
    → IsNormal now
    → All IsNormal readings
    → sleep delay now readings ≡ some ds
    → All IsDelay ds
      × (length ds ≤ length readings)
      × (micros now +ℤ micros delay ≤ℤ micros (get_or (now ∷ readings) (length ds) now))
unfolding sleep
sleep_lem delay now readings ds nn ns e =
    let u = (plus_lem now delay).4 in
    let w = sleep_until-Woke now (plus now delay) now readings ds u.normal nn ns e in
    (w.delays, w.count, rw (← u.same) w.late)

sleep_until-ends :
    (until now : Time) (readings : List Time) (i : ℕ) (r : Time)
    → get_elem? (now ∷ readings) i ≡ some r
    → ltb r until ≡ false
    → (ds : List Time) × (sleep_until until now readings ≡ some ds)
unfolding sleep_until
sleep_until-ends until now [] zero r found late = ([], ground (arith, found, late))
sleep_until-ends until now [] (suc i) r found late = ground (arith, found)
sleep_until-ends until now (q ∷ readings) zero r found late = ([], ground (arith, found, late))
sleep_until-ends until now (q ∷ readings) (suc i) r found late =
    let (ds, e) = sleep_until-ends until q readings i r found late in
    elim (Bool-cases (ltb now until)) [
      | inl go ↦ (minus until now ∷ ds, rw (go, e))
      | inr stop ↦ ([], rw stop)
    ]

-- `sleep` returns as soon as the clock, normal at that reading, shows the time to wake up or later.
pub sleep-ends :
    (delay now : Time) (readings : List Time) (i : ℕ) (r : Time)
    → get_elem? (now ∷ readings) i ≡ some r
    → IsNormal r
    → micros now +ℤ micros delay ≤ℤ micros r
    → (ds : List Time) × (sleep delay now readings ≡ some ds)
unfolding sleep
sleep-ends delay now readings i r found nr late =
    let u = (plus_lem now delay).4 in
    let o = (time_order r (plus now delay) nr u.normal).2 in
    sleep_until-ends (plus now delay) now readings i r found (rw (o, u.same) (ground arith))

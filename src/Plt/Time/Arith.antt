-- ===== src/Plt/Time/Arith.antt =====
-- Sums and differences of times and spans, by the microseconds that they stand for.
use acplt_ks.Base.{◌≡◌, refl, ◌∙◌, ap, arith}
use acplt_ks.Base.Int.{ℤ, pos, ◌+ℤ◌, ◌-ℤ◌, int_laws, eq_of_parts, +ℤ_parts, -ℤ_parts, +ℤ_cancel}
use acplt_ks.Plt.Time.{
  Timeval, Time, TimeSpan, mega, normalize, new_time, span_add_assign, span_sub_assign, add_assign,
  borrow_second, sub_assign, time_plus_span, span_plus_time, time_minus_span, span_minus_time, plus,
  minus,
}
use acplt_ks.Plt.Time.Micros.{micros, micros_parts, IsNormal}
use acplt_ks.Plt.Time.Normal.{normalize_lem, IsNormal-injective}

micros_sum :
    (a b : Timeval)
    → micros (record { tv_sec = a.tv_sec +ℤ b.tv_sec; tv_usec = a.tv_usec +ℤ b.tv_usec })
      ≡ micros a +ℤ micros b
micros_sum a b =
    let u : Timeval = record { tv_sec = a.tv_sec +ℤ b.tv_sec; tv_usec = a.tv_usec +ℤ b.tv_usec } in
    omega (int_laws, micros_parts a, micros_parts b, micros_parts u)

micros_difference :
    (a b : Timeval)
    → micros (record { tv_sec = a.tv_sec -ℤ b.tv_sec; tv_usec = a.tv_usec -ℤ b.tv_usec })
      ≡ micros a -ℤ micros b
micros_difference a b =
    let u : Timeval = record { tv_sec = a.tv_sec -ℤ b.tv_sec; tv_usec = a.tv_usec -ℤ b.tv_usec } in
    omega (int_laws, micros_parts a, micros_parts b, micros_parts u)

-- `t` is the normal time of so many microseconds
pub record Represents (t : Timeval) (m : ℤ) : Type 0 where
  pub normal : IsNormal t
  pub same : micros t ≡ m

-- Every form of addition gives the normal time of the sum, whatever its operands.
pub plus_lem :
    (a b : Timeval)
    → Represents (add_assign a b) (micros a +ℤ micros b)
      × Represents (span_add_assign a b) (micros a +ℤ micros b)
      × Represents (time_plus_span a b) (micros a +ℤ micros b)
      × Represents (span_plus_time b a) (micros a +ℤ micros b)
      × Represents (plus a b) (micros a +ℤ micros b)
unfolding add_assign span_add_assign time_plus_span span_plus_time plus new_time
plus_lem a b =
    let u : Timeval = record { tv_sec = a.tv_sec +ℤ b.tv_sec; tv_usec = a.tv_usec +ℤ b.tv_usec } in
    let (t, s) = normalize_lem u in
    let in_time : Represents (normalize u) (micros a +ℤ micros b) = record {
      normal = t.0;
      same = t.1 ∙ micros_sum a b;
    } in
    (in_time, record { normal = s.0; same = s.1 ∙ micros_sum a b }, in_time, in_time, in_time)

micros-borrow_second : (a b : Timeval) → micros (borrow_second a b) ≡ micros a
unfolding borrow_second
micros-borrow_second a b =
    let u : Timeval = record { tv_sec = a.tv_sec -ℤ pos 1; tv_usec = a.tv_usec +ℤ mega } in
    ground (
      arith,
      micros_parts a,
      micros_parts u,
      +ℤ_parts a.tv_usec mega,
      -ℤ_parts a.tv_sec (pos 1),
      eq_of_parts (micros u) (micros a),
    )

-- Every form of subtraction of a span, and of a time from a time, gives the normal time of the
-- difference; the borrowed second of `-=` makes no difference, nor does a negative result.
pub minus_lem :
    (a b : Timeval)
    → Represents (sub_assign a b) (micros a -ℤ micros b)
      × Represents (span_sub_assign a b) (micros a -ℤ micros b)
      × Represents (time_minus_span a b) (micros a -ℤ micros b)
      × Represents (minus a b) (micros a -ℤ micros b)
unfolding sub_assign span_sub_assign time_minus_span minus new_time
minus_lem a b =
    let u : Timeval = record { tv_sec = a.tv_sec -ℤ b.tv_sec; tv_usec = a.tv_usec -ℤ b.tv_usec } in
    let c = borrow_second a b in
    let v : Timeval = record { tv_sec = c.tv_sec -ℤ b.tv_sec; tv_usec = c.tv_usec -ℤ b.tv_usec } in
    let (t, s) = normalize_lem u in
    let w = (normalize_lem v).0 in
    let e = w.1 ∙ micros_difference c b ∙ ap (λ m. m -ℤ micros b) (micros-borrow_second a b) in
    let borrowed : Represents (normalize v) (micros a -ℤ micros b) = record {
      normal = w.0;
      same = e;
    } in
    (
      borrowed,
      record { normal = s.0; same = s.1 ∙ micros_difference a b },
      record { normal = t.0; same = t.1 ∙ micros_difference a b },
      borrowed,
    )

-- Taking off what was added gives back a normal time, for the compound operators and for those of
-- a time and a span.
pub minus-plus :
    (a b : Timeval)
    → IsNormal a
    → (minus (plus a b) b ≡ a) × (time_minus_span (time_plus_span a b) b ≡ a)
minus-plus a b n =
    let p = plus_lem a b in
    let q = (minus_lem (plus a b) b).3 in
    let r = (minus_lem (time_plus_span a b) b).2 in
    (
      IsNormal-injective _ a q.normal n (q.same ∙ ap (λ m. m -ℤ micros b) p.4.same ∙ +ℤ_cancel _ _),
      IsNormal-injective _ a r.normal n (r.same ∙ ap (λ m. m -ℤ micros b) p.2.same ∙ +ℤ_cancel _ _),
    )

-- `operator -` of a span and a time gives the time less the span, so its result is the negative of
-- the difference that it is written for.
pub span_minus_time-swapped :
    (ts : TimeSpan) (t : Time)
    → (span_minus_time ts t ≡ time_minus_span t ts)
      × (micros (span_minus_time ts t) ≡ pos 0 -ℤ (micros ts -ℤ micros t))
unfolding span_minus_time time_minus_span
span_minus_time-swapped ts t = (refl, (minus_lem t ts).2.same ∙ negated (micros t) (micros ts))
  where
    negated : (x y : ℤ) → x -ℤ y ≡ pos 0 -ℤ (y -ℤ x)
    negated x y = omega int_laws

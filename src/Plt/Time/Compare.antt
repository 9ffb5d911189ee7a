-- ===== src/Plt/Time/Compare.antt =====
-- The comparisons of times and of spans.
use acplt_ks.Base.{◌≡◌, not, arith}
use acplt_ks.Base.Int.{ℤ, leb_ℤ, ltb_ℤ, eqb_ℤ}
use acplt_ks.Plt.Time.{
  Timeval, eqb, neb, leb, geb, gtb, ltb, span_ltb, span_gtb, span_leb, span_geb,
}
use acplt_ks.Plt.Time.Micros.{micros, micros_parts, IsNormal, parts_apart}

module _ (a b : Timeval) (na : IsNormal a) (nb : IsNormal b) where
  pub leb-micros : leb a b ≡ leb_ℤ (micros a) (micros b)
  unfolding leb
  leb-micros =
      ground (arith, micros_parts a, micros_parts b, parts_apart a.tv_usec, parts_apart b.tv_usec)

  eqb-micros : eqb a b ≡ eqb_ℤ (micros a) (micros b)
  unfolding eqb
  eqb-micros =
      ground (arith, micros_parts a, micros_parts b, parts_apart a.tv_usec, parts_apart b.tv_usec)

  span_ltb-micros : span_ltb a b ≡ ltb_ℤ (micros a) (micros b)
  unfolding span_ltb
  span_ltb-micros =
      ground (arith, micros_parts a, micros_parts b, parts_apart a.tv_usec, parts_apart b.tv_usec)

  span_gtb-micros : span_gtb a b ≡ ltb_ℤ (micros b) (micros a)
  unfolding span_gtb
  span_gtb-micros =
      ground (arith, micros_parts a, micros_parts b, parts_apart a.tv_usec, parts_apart b.tv_usec)

  span_leb-micros : span_leb a b ≡ leb_ℤ (micros a) (micros b)
  unfolding span_leb
  span_leb-micros =
      ground (arith, micros_parts a, micros_parts b, parts_apart a.tv_usec, parts_apart b.tv_usec)

  span_geb-micros : span_geb a b ≡ leb_ℤ (micros b) (micros a)
  unfolding span_geb
  span_geb-micros =
      ground (arith, micros_parts a, micros_parts b, parts_apart a.tv_usec, parts_apart b.tv_usec)

not-leb_ℤ : (a b : ℤ) → not (leb_ℤ a b) ≡ ltb_ℤ b a
not-leb_ℤ a b = ground arith

-- Each comparison of normal times is the comparison of their microseconds.
pub time_order :
    (a b : Timeval)
    → IsNormal a
    → IsNormal b
    → (leb a b ≡ leb_ℤ (micros a) (micros b))
      × (geb a b ≡ leb_ℤ (micros b) (micros a))
      × (ltb a b ≡ ltb_ℤ (micros a) (micros b))
      × (gtb a b ≡ ltb_ℤ (micros b) (micros a))
      × (eqb a b ≡ eqb_ℤ (micros a) (micros b))
      × (neb a b ≡ not (eqb_ℤ (micros a) (micros b)))
unfolding geb ltb gtb neb
time_order a b na nb = (
  leb-micros a b na nb,
  leb-micros b a nb na,
  rw (leb-micros b a nb na) (not-leb_ℤ (micros b) (micros a)),
  rw (leb-micros a b na nb) (not-leb_ℤ (micros a) (micros b)),
  eqb-micros a b na nb,
  rw (eqb-micros a b na nb),
)

-- So is each comparison of normal spans, though these are written out one by one.
pub span_order :
    (a b : Timeval)
    → IsNormal a
    → IsNormal b
    → (span_leb a b ≡ leb_ℤ (micros a) (micros b))
      × (span_geb a b ≡ leb_ℤ (micros b) (micros a))
      × (span_ltb a b ≡ ltb_ℤ (micros a) (micros b))
      × (span_gtb a b ≡ ltb_ℤ (micros b) (micros a))
span_order a b na nb = (
  span_leb-micros a b na nb,
  span_geb-micros a b na nb,
  span_ltb-micros a b na nb,
  span_gtb-micros a b na nb,
)

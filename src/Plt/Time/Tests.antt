-- ===== src/Plt/Time/Tests.antt =====
-- Times at concrete values, and the theorems at them.
use acplt_ks.Base.{◌≤◌, ◌≡◌, refl, false, not, List, [], ◌∷◌, some, arith, length, get_or, All}
use acplt_ks.Base.Int.{pos, negsuc, ◌+ℤ◌, ◌-ℤ◌, ◌≤ℤ◌, leb_ℤ, ltb_ℤ, eqb_ℤ}
use acplt_ks.Plt.Time.{
  Timeval, normalize, span_normalize, add_assign, span_add_assign, sub_assign, span_sub_assign,
  time_plus_span, span_plus_time, time_minus_span, span_minus_time, plus, minus, is_zero, new_time,
  new_span, leb, geb, ltb, gtb, eqb, neb, sleep,
}
use acplt_ks.Plt.Time.Micros.{micros, IsNormal}
use acplt_ks.Plt.Time.Normal.{normalize_lem}
use acplt_ks.Plt.Time.Arith.{Represents, plus_lem, minus_lem, span_minus_time-swapped}
use acplt_ks.Plt.Time.Compare.{time_order}
use acplt_ks.Plt.Time.Sleep.{IsDelay, sleep_lem}

abbrev untidy : Timeval
untidy = record { tv_sec = pos 3; tv_usec = negsuc 2499999 }

abbrev tidy : Timeval
tidy = record { tv_sec = pos 0; tv_usec = pos 500000 }

abbrev later : Timeval
later = record { tv_sec = pos 0; tv_usec = pos 700000 }

abbrev evening : Timeval
evening = record { tv_sec = pos 1; tv_usec = pos 100000 }

-- 3 s less 2.5 s
normalize_runs : normalize untidy ≡ tidy
unfolding normalize
normalize_runs = refl

span_normalize_runs : new_span (pos 3) (negsuc 2499999) ≡ tidy
unfolding new_span
span_normalize_runs = refl

new_time_runs : new_time (negsuc 0) (pos 1500000) ≡ tidy
unfolding new_time
new_time_runs = refl

is_zero_runs : is_zero tidy ≡ false
unfolding is_zero
is_zero_runs = refl

minus_runs : minus evening later ≡ record { tv_sec = pos 0; tv_usec = pos 400000 }
unfolding minus
minus_runs = refl

sleep_runs :
    sleep tidy tidy (later ∷ evening ∷ [])
    ≡ some (tidy ∷ record later { tv_usec = pos 300000 } ∷ [])
unfolding sleep
sleep_runs = refl

normalize_lem_example :
    (IsNormal (normalize untidy) × (micros (normalize untidy) ≡ micros untidy))
    × (IsNormal (span_normalize untidy) × (micros (span_normalize untidy) ≡ micros untidy))
normalize_lem_example = normalize_lem untidy

plus_lem_example :
    Represents (add_assign tidy untidy) (micros tidy +ℤ micros untidy)
    × Represents (span_add_assign tidy untidy) (micros tidy +ℤ micros untidy)
    × Represents (time_plus_span tidy untidy) (micros tidy +ℤ micros untidy)
    × Represents (span_plus_time untidy tidy) (micros tidy +ℤ micros untidy)
    × Represents (plus tidy untidy) (micros tidy +ℤ micros untidy)
plus_lem_example = plus_lem tidy untidy

minus_lem_example :
    Represents (sub_assign tidy later) (micros tidy -ℤ micros later)
    × Represents (span_sub_assign tidy later) (micros tidy -ℤ micros later)
    × Represents (time_minus_span tidy later) (micros tidy -ℤ micros later)
    × Represents (minus tidy later) (micros tidy -ℤ micros later)
minus_lem_example = minus_lem tidy later

span_minus_time-swapped_example :
    (span_minus_time tidy evening ≡ time_minus_span evening tidy)
    × (micros (span_minus_time tidy evening) ≡ pos 0 -ℤ (micros tidy -ℤ micros evening))
span_minus_time-swapped_example = span_minus_time-swapped tidy evening

time_order_example :
    (leb tidy later ≡ leb_ℤ (micros tidy) (micros later))
    × (geb tidy later ≡ leb_ℤ (micros later) (micros tidy))
    × (ltb tidy later ≡ ltb_ℤ (micros tidy) (micros later))
    × (gtb tidy later ≡ ltb_ℤ (micros later) (micros tidy))
    × (eqb tidy later ≡ eqb_ℤ (micros tidy) (micros later))
    × (neb tidy later ≡ not (eqb_ℤ (micros tidy) (micros later)))
time_order_example = time_order tidy later (omega arith) (omega arith)

abbrev delays : List Timeval
delays = tidy ∷ record later { tv_usec = pos 300000 } ∷ []

sleep_lem_example :
    All IsDelay delays
    × (length delays ≤ 2)
    × (micros tidy +ℤ micros tidy ≤ℤ micros (get_or (tidy ∷ later ∷ evening ∷ []) 2 tidy))
sleep_lem_example =
    sleep_lem tidy tidy (later ∷ evening ∷ []) delays (omega arith) (omega arith) sleep_runs

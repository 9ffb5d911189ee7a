-- ===== src/Plt/Time.antt =====
-- Points in time and time spans: plt/include/plt/time.h and `sleep` of plt/src/time.cpp.
-- `long` is read as an unbounded integer: signed overflow is undefined in C++, and the lemmas on
-- the size of results say how far a result can lie from its operands.
pub mod Micros
pub mod Normal
pub mod Arith
pub mod Compare
pub mod Sleep
mod Tests
use mathlib.Core.Option
use acplt_ks.Base.{
  ℕ, zero, suc, ◌+◌, ◌/◌, Bool, true, false, not, ◌&&◌, ◌||◌, List, [], ◌∷◌, Option, none, some,
  if◌then◌else◌,
}
use acplt_ks.Base.Int.{ℤ, pos, negsuc, pos_part, neg_part, ◌+ℤ◌, ◌-ℤ◌, leb_ℤ, ltb_ℤ, eqb_ℤ}

-- `struct timeval`; `PltTime` adds only operations, `PltTimeSpan` has the same two fields
pub record Timeval : Type 0 where
  pub tv_sec : ℤ
  pub tv_usec : ℤ

abbrev pub TimeSpan : Type 0
TimeSpan = Timeval

abbrev pub Time : Type 0
Time = Timeval

abbrev pub mega : ℤ
mega = pos 1000000

-- `while(tv_usec >= 1000000)`
pub carry : ℕ → Timeval → Timeval
carry zero t = t
carry (suc fuel) t =
    let rest = carry fuel (record { tv_sec = t.tv_sec +ℤ pos 1; tv_usec = t.tv_usec -ℤ mega }) in
    if leb_ℤ mega t.tv_usec then rest else t

-- `while(tv_usec < 0)`
pub borrow : ℕ → Timeval → Timeval
borrow zero t = t
borrow (suc fuel) t =
    let rest = borrow fuel (record { tv_sec = t.tv_sec -ℤ pos 1; tv_usec = t.tv_usec +ℤ mega }) in
    if ltb_ℤ t.tv_usec (pos 0) then rest else t

-- rounds that the two loops take at most
abbrev pub carry_rounds : Timeval → ℕ
carry_rounds t = pos_part t.tv_usec / 1000000 + 1

abbrev pub borrow_rounds : Timeval → ℕ
borrow_rounds t = neg_part t.tv_usec / 1000000 + 1

-- `PltTimeSpan::normalize`
pub span_normalize : TimeSpan → TimeSpan
unfolding carry borrow ◌+ℤ◌ ◌-ℤ◌
span_normalize t = let u = carry (carry_rounds t) t in borrow (borrow_rounds u) u

-- `PltTime::normalize`
pub normalize : Time → Time
unfolding carry borrow ◌+ℤ◌ ◌-ℤ◌
normalize t = let u = borrow (borrow_rounds t) t in carry (carry_rounds u) u

-- `PltTimeSpan(sec, usec)`
pub new_span : ℤ → ℤ → TimeSpan
unfolding span_normalize
new_span sec usec = span_normalize (record { tv_sec = sec; tv_usec = usec })

-- `PltTime(seconds, useconds)`
pub new_time : ℤ → ℤ → Time
unfolding normalize
new_time seconds useconds = normalize (record { tv_sec = seconds; tv_usec = useconds })

pub is_zero : Time → Bool
is_zero t = eqb_ℤ t.tv_usec (pos 0) && eqb_ℤ t.tv_sec (pos 0)

-- `PltTimeSpan::operator +=`
pub span_add_assign : TimeSpan → TimeSpan → TimeSpan
unfolding span_normalize ◌+ℤ◌
span_add_assign a b =
    span_normalize (record { tv_sec = a.tv_sec +ℤ b.tv_sec; tv_usec = a.tv_usec +ℤ b.tv_usec })

-- `PltTimeSpan::operator -=`
pub span_sub_assign : TimeSpan → TimeSpan → TimeSpan
unfolding span_normalize ◌-ℤ◌
span_sub_assign a b =
    span_normalize (record { tv_sec = a.tv_sec -ℤ b.tv_sec; tv_usec = a.tv_usec -ℤ b.tv_usec })

-- `PltTime::operator +=`, which is written alike for a time and for a span
pub add_assign : Time → Timeval → Time
unfolding normalize ◌+ℤ◌
add_assign a b =
    normalize (record { tv_sec = a.tv_sec +ℤ b.tv_sec; tv_usec = a.tv_usec +ℤ b.tv_usec })

-- the second that `PltTime::operator -=` borrows
pub borrow_second : Time → Timeval → Time
borrow_second a b =
    if ltb_ℤ a.tv_usec b.tv_usec
    then record { tv_sec = a.tv_sec -ℤ pos 1; tv_usec = a.tv_usec +ℤ mega }
    else a

-- `PltTime::operator -=`, which is written alike for a time and for a span; the precondition
-- `*this >= t` of the former is compiled only in debug builds
pub sub_assign : Time → Timeval → Time
unfolding normalize borrow_second ◌-ℤ◌
sub_assign a b =
    let c = borrow_second a b in
    normalize (record { tv_sec = c.tv_sec -ℤ b.tv_sec; tv_usec = c.tv_usec -ℤ b.tv_usec })

-- `operator ==` and `operator !=`, of both classes
pub eqb : Timeval → Timeval → Bool
eqb a b = eqb_ℤ a.tv_usec b.tv_usec && eqb_ℤ a.tv_sec b.tv_sec

pub neb : Timeval → Timeval → Bool
unfolding eqb
neb a b = not (eqb a b)

-- `operator <=` and, from it, `>=`, `>` and `<` of `PltTime`
pub leb : Time → Time → Bool
leb a b = ltb_ℤ a.tv_sec b.tv_sec || eqb_ℤ a.tv_sec b.tv_sec && leb_ℤ a.tv_usec b.tv_usec

pub geb : Time → Time → Bool
unfolding leb
geb a b = leb b a

pub gtb : Time → Time → Bool
unfolding leb
gtb a b = not (leb a b)

pub ltb : Time → Time → Bool
unfolding leb
ltb a b = not (leb b a)

-- the four orders of `PltTimeSpan`
pub span_ltb : TimeSpan → TimeSpan → Bool
span_ltb a b = ltb_ℤ a.tv_sec b.tv_sec || eqb_ℤ a.tv_sec b.tv_sec && ltb_ℤ a.tv_usec b.tv_usec

pub span_gtb : TimeSpan → TimeSpan → Bool
span_gtb a b = ltb_ℤ b.tv_sec a.tv_sec || eqb_ℤ a.tv_sec b.tv_sec && ltb_ℤ b.tv_usec a.tv_usec

pub span_leb : TimeSpan → TimeSpan → Bool
span_leb a b = ltb_ℤ a.tv_sec b.tv_sec || eqb_ℤ a.tv_sec b.tv_sec && leb_ℤ a.tv_usec b.tv_usec

pub span_geb : TimeSpan → TimeSpan → Bool
span_geb a b = ltb_ℤ b.tv_sec a.tv_sec || eqb_ℤ a.tv_sec b.tv_sec && leb_ℤ b.tv_usec a.tv_usec

-- `operator +` of a time and a span, of a span and a time
pub time_plus_span : Time → TimeSpan → Time
unfolding new_time ◌+ℤ◌
time_plus_span t ts = new_time (t.tv_sec +ℤ ts.tv_sec) (t.tv_usec +ℤ ts.tv_usec)

pub span_plus_time : TimeSpan → Time → Time
unfolding new_time ◌+ℤ◌
span_plus_time ts t = new_time (t.tv_sec +ℤ ts.tv_sec) (t.tv_usec +ℤ ts.tv_usec)

-- `operator -` of a time and a span, of a span and a time
pub time_minus_span : Time → TimeSpan → Time
unfolding new_time ◌-ℤ◌
time_minus_span t ts = new_time (t.tv_sec -ℤ ts.tv_sec) (t.tv_usec -ℤ ts.tv_usec)

pub span_minus_time : TimeSpan → Time → Time
unfolding new_time ◌-ℤ◌
span_minus_time ts t = new_time (t.tv_sec -ℤ ts.tv_sec) (t.tv_usec -ℤ ts.tv_usec)

-- `operator +` and `operator -` of two times
pub plus : Time → Time → Time
unfolding add_assign
plus a b = add_assign a b

pub minus : Time → Time → Time
unfolding sub_assign
minus a b = sub_assign a b

-- The loop of `sleep`. The list holds what the clock says in turn; the result lists the delays
-- handed to `select`, and is `none` if the readings end before the loop does.
pub sleep_until : Time → Time → List Time → Option (List Time)
sleep_until until now [] = if ltb now until then none else some []
sleep_until until now (reading ∷ readings) =
    let rest = Option.map (λ ds. minus until now ∷ ds) (sleep_until until reading readings) in
    if ltb now until then rest else some []

-- `PltTime::sleep`, from the first reading on
pub sleep : Time → Time → List Time → Option (List Time)
unfolding sleep_until ltb minus plus
sleep delay now readings = sleep_until (plus now delay) now readings

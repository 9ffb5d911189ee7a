-- ===== src/Ks/Conversions.antt =====
-- The percent notation of names: ks/include/ks/conversions.h and ks/src/conversions.cpp.
-- A string is the list of its bytes, without the terminating zero. `char` is signed, as on all the
-- platforms that the README lists. `alloc` says whether `new` of so many bytes succeeds.
pub mod Hex
pub mod Percent
pub mod Decode
pub mod Encode
pub mod RoundTrip
mod Tests
use mathlib.Core.Option
use acplt_ks.Base.{
  ℕ, zero, suc, ◌+◌, ◌-◌, ◌*◌, ◌/◌, ◌%◌, ◌^◌, Bool, true, false, not, ◌&&◌, ◌||◌, List, [], ◌∷◌,
  ◌++◌, Option, none, some, if◌then◌else◌, leb, ltb, ◌==◌, length, get_or, take, drop,
}
use acplt_ks.Base.Chars.{is_alnum, is_xdigit}

abbrev pub Text : Type 0
Text = List ℕ

pub is_valid_char : ℕ → Bool
is_valid_char c = is_alnum c || c == b'_'

pub is_delim : ℕ → Bool
is_delim c = c == b'/' || c == b'.'

-- `unsigned d = c`
abbrev pub to_unsigned : ℕ → ℕ
to_unsigned c = if ltb c 128 then c else c + (2 ^ 32 - 256)

-- `(char)n + (n < 10 ? '0' : '7')`, stored in a `char`
abbrev pub hex_char : ℕ → ℕ
hex_char n = (n % 256 + (if ltb n 10 then b'0' else b'7')) % 256

pub to_percent : ℕ → Text
to_percent c = let d = to_unsigned c in b'%' ∷ hex_char (d / 16) ∷ hex_char (d % 16) ∷ []

-- the two loops of `ksStringToPercent` and of `ksPathToPercent`, which differ in what they keep
pub count_converted : (ℕ → Bool) → Text → ℕ
count_converted keep [] = 0
count_converted keep (c ∷ cs) =
    if keep c then count_converted keep cs else count_converted keep cs + 1

pub convert : (ℕ → Bool) → Text → Text
unfolding to_percent
convert keep [] = []
convert keep (c ∷ cs) = if keep c then c ∷ convert keep cs else to_percent c ++ convert keep cs

-- the body that both share; the buffer has `len + 1 + convert * 2` bytes
pub all_to_percent : (ℕ → Bool) → (ℕ → Bool) → Text → Text
unfolding count_converted convert
all_to_percent alloc keep org =
    let n = count_converted keep org in
    if n == 0 then org else if alloc (length org + 1 + n * 2) then convert keep org else []

pub string_to_percent : (ℕ → Bool) → Text → Text
unfolding all_to_percent is_valid_char
string_to_percent alloc org = all_to_percent alloc is_valid_char org

pub path_to_percent : (ℕ → Bool) → Text → Text
unfolding all_to_percent is_valid_char is_delim
path_to_percent alloc org = all_to_percent alloc (λ c. is_valid_char c || is_delim c) org

-- the value of a hexadecimal digit, as `ksFromPercent` takes it
abbrev pub digit_value : ℕ → ℕ
digit_value c = if leb c b'9' then c - b'0' else if leb c b'F' then c - b'7' else c - b'W'

-- `ksFromPercent` reads two bytes, the second only if the first is a digit
pub from_percent : ℕ → ℕ → ℕ
from_percent s₀ s₁ =
    if is_xdigit s₀ && is_xdigit s₁ then digit_value s₀ * 16 + digit_value s₁ else 0

-- What a conversion returns. `overrun` is a write behind the buffer that the code allocated.
pub data Outcome : Type 0 where
  ok : Text → Outcome
  bad_name generic overrun : Outcome

abbrev pub prepend : Text → Outcome → Outcome
prepend out (ok t) = ok (out ++ t)
prepend out bad_name = bad_name
prepend out generic = generic
prepend out overrun = overrun

-- the first loop of `ksStringFromPercent`; the number is how far `i` still jumps
pub count_escapes : ℕ → Text → ℕ
count_escapes skip [] = 0
count_escapes (suc skip) (c ∷ cs) = count_escapes skip cs
count_escapes zero (c ∷ cs) =
    (if c == b'%' then 1 else 0) + count_escapes (if c == b'%' then 2 else 0) cs

-- its second loop, which writes `res[j]` in a buffer of `size` bytes
pub fill : ℕ → ℕ → ℕ → Text → Outcome
fill size j skip [] = ok []
fill size j (suc skip) (c ∷ cs) = fill size j skip cs
fill size j zero (c ∷ cs) =
    let v = if c == b'%' then from_percent (get_or cs 0 0) (get_or cs 1 0) else c in
    let rest = fill size (j + 1) (if c == b'%' then 2 else 0) cs in
    if leb size j then overrun else if c == b'%' && v == 0 then bad_name else prepend (v ∷ []) rest

-- `size_t` subtraction wraps
abbrev pub result_size : Text → ℕ → ℕ
result_size org n = (2 ^ 64 + length org - n * 2 % 2 ^ 64) % 2 ^ 64

unfoldable pub string_from_percent : (ℕ → Bool) → Text → Outcome
unfolding count_escapes fill from_percent
string_from_percent alloc org =
    let n = count_escapes 0 org in
    let size = (result_size org n + 1) % 2 ^ 64 in
    if n == 0
    then ok org
    else if not (alloc size)
    then generic
    else if leb size (result_size org n)
    then overrun
    else fill size 0 0 org

-- What the main loop of `ksEncodeString` is in the middle of.
pub data Mode : Type 0 where
  plain escaped first_digit second_digit : Mode

-- One character: what is written, and what the loop is then in the middle of. `none` is `ok = false`.
pub encode_char : Bool → Bool → Mode → ℕ → Option (Text × Mode)
unfolding is_valid_char is_delim to_percent
encode_char allow_backslash allow_percent plain c =
    if allow_backslash && c == b'\\'
    then some ([], escaped)
    else if allow_percent && c == b'%'
    then some (c ∷ [], first_digit)
    else if is_valid_char c || is_delim c
    then some (c ∷ [], plain)
    else some (to_percent c, plain)
encode_char allow_backslash allow_percent escaped c =
    if not (is_valid_char c) then some (to_percent c, plain) else some (c ∷ [], plain)
encode_char allow_backslash allow_percent first_digit c =
    if is_xdigit c then some (c ∷ [], second_digit) else none
encode_char allow_backslash allow_percent second_digit c =
    if is_xdigit c then some (c ∷ [], plain) else none

-- the end of the text inside an escape is an error
pub encode_end : Mode → Outcome
encode_end plain = ok []
encode_end other = bad_name

pub encode_loop : Bool → Bool → Mode → Text → Outcome
unfolding encode_char encode_end
encode_loop allow_backslash allow_percent mode [] = encode_end mode
encode_loop allow_backslash allow_percent mode (c ∷ cs) =
    elim (encode_char allow_backslash allow_percent mode c) [
      | none ↦ bad_name
      | some (out, next) ↦ prepend out (encode_loop allow_backslash allow_percent next cs)
    ]

-- what the loop has written to the buffer when it ends, also when it ends with an error
pub encode_written : Bool → Bool → Mode → Text → Text
unfolding encode_char
encode_written allow_backslash allow_percent mode [] = []
encode_written allow_backslash allow_percent mode (c ∷ cs) =
    elim (encode_char allow_backslash allow_percent mode c) [
      | none ↦ []
      | some (out, next) ↦ out ++ encode_written allow_backslash allow_percent next cs
    ]

-- `strchr`: the index of the first slash
pub find_slash : Text → Option ℕ
find_slash [] = none
find_slash (c ∷ cs) = if c == b'/' then some 0 else Option.map suc (find_slash cs)

-- how many bytes `//host/server/` has that are copied verbatim
pub locator_length : Text → ℕ
unfolding find_slash
locator_length org =
    if get_or org 0 0 == b'/' && get_or org 1 0 == b'/'
    then elim (find_slash (drop 2 org)) [
      | none ↦ length org
      | some i ↦ elim (find_slash (drop (2 + i + 1) org)) [
        | none ↦ length org
        | some j ↦ 2 + i + 1 + j + 1
      ]
    ]
    else 0

-- `ksEncodeString`; the buffer gets the locator, what the loop writes, and a zero, on all ways
pub encode_string : (ℕ → Bool) → Text → Bool → Bool → Outcome
unfolding encode_loop encode_written locator_length
encode_string alloc org allow_backslash allow_percent =
    let n = locator_length org in
    let size = length org * 3 + 1 in
    let buf = take n org ++ encode_written allow_backslash allow_percent plain (drop n org) in
    if not (alloc size)
    then generic
    else if leb size (length buf)
    then overrun
    else prepend (take n org) (encode_loop allow_backslash allow_percent plain (drop n org))

-- the loop of `ksDecodeString`; the number is how far `p` still jumps
pub decode_loop : Bool → ℕ → Text → Outcome
unfolding from_percent is_delim
decode_loop use_backslash skip [] = ok []
decode_loop use_backslash (suc skip) (c ∷ cs) = decode_loop use_backslash skip cs
decode_loop use_backslash zero (c ∷ cs) =
    let v = from_percent (get_or cs 0 0) (get_or cs 1 0) in
    let rest = decode_loop use_backslash (if c == b'%' then 2 else 0) cs in
    if c == b'%'
    then if v == 0
      then bad_name
      else if use_backslash && (v == b'\\' || is_delim v || v == b'%')
      then prepend (b'\\' ∷ v ∷ []) rest
      else prepend (v ∷ []) rest
    else prepend (c ∷ []) rest

pub decode_string : (ℕ → Bool) → Text → Bool → Outcome
unfolding decode_loop
decode_string alloc org use_backslash =
    if alloc (length org + 1) then decode_loop use_backslash 0 org else generic

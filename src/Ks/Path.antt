-- ===== src/Ks/Path.antt =====
-- `KsPath`: ks/include/ks/path.h and ks/src/path.cpp. A path is its string and the offsets at which
-- its components begin, with the largest `size_t` at the end. `none` stands for an access outside of
-- the string or of the array of offsets. Arrays and strings are always allocated.
pub mod Names
pub mod Parse
pub mod Element
pub mod Leading
pub mod Resolve
pub mod Context
mod Tests
use mathlib.Core.Option
use acplt_ks.Base.{
  ◌>>=◌, ℕ, zero, suc, ◌+◌, ◌-◌, ◌*◌, ◌%◌, ◌^◌, Bool, true, false, not, ◌&&◌, ◌||◌, List, [], ◌∷◌,
  ◌++◌, Option, none, some, if◌then◌else◌, leb, ltb, ◌==◌, length, get_elem?, take, drop,
}
use acplt_ks.Ks.Conversions.{Text, Outcome, ok, bad_name, generic, overrun, string_from_percent}

abbrev pub size_max : ℕ
size_max = 2 ^ 64 - 1

-- `size_t` addition and subtraction wrap
abbrev pub add_size : ℕ → ℕ → ℕ
add_size a b = (a + b) % 2 ^ 64

abbrev pub sub_size : ℕ → ℕ → ℕ
sub_size a b = (a + (2 ^ 64 - b)) % 2 ^ 64

pub record KsPath : Type 0 where
  pub str : Text
  pub valid : Bool
  pub slash : List ℕ
  pub first : ℕ
  pub last : ℕ
  pub go_up : ℕ

-- `PltString::substr`
unfoldable pub substr : Text → ℕ → ℕ → Text
substr s first len =
    if first == 0 && leb (length s) len
    then s
    else if ltb first (length s)
    then take len (drop first s)
    else []

-- What `checkAndCount` is in the middle of, in the dots at the beginning of a relative path.
pub data Dots : Type 0 where
  at_start one_dot two_dots : Dots

-- the `do` loop over `./` and `../`: how far to go up, whether a slash came last, and the rest
pub skip_dots : Dots → ℕ → Bool → Text → Option (ℕ × Bool × Text)
skip_dots at_start up was_slash [] = some (up, was_slash, [])
skip_dots mode up was_slash [] = none
skip_dots at_start up was_slash (c ∷ cs) =
    let rest = skip_dots one_dot up false cs in
    if c == b'.' then rest else some (up, was_slash, c ∷ cs)
skip_dots one_dot up was_slash (c ∷ cs) =
    let more = skip_dots two_dots (up + 1) false cs in
    let rest = skip_dots at_start up true cs in
    if c == b'.' then more else if c == b'/' then rest else none
skip_dots two_dots up was_slash (c ∷ cs) =
    let rest = skip_dots at_start up true cs in if c == b'/' then rest else none

-- the loop that counts the slashes; `none` for two in a row
pub count_slashes : Bool → Text → Option ℕ
count_slashes was_slash [] = some 0
count_slashes was_slash (c ∷ cs) =
    let rest = count_slashes (c == b'/') cs in
    if c == b'/' then if was_slash then none else Option.map suc rest else rest

-- `checkAndCount`: `_go_up` and the number of slashes; `none` if `_valid` becomes false
pub check_and_count : Text → Option (ℕ × ℕ)
unfolding skip_dots count_slashes
check_and_count [] = none
check_and_count (c ∷ cs) =
    if c == b'/' then Option.map (λ n. (0, n)) (count_slashes true cs) else do
      (up, was_slash, rest) ← skip_dots at_start 1 false (c ∷ cs)
      Option.map (λ n. (up, n)) (count_slashes was_slash rest)

-- `while (s[si] == '/' || s[si] == '.') ++si`
pub skip_front : Text → ℕ
skip_front [] = 0
skip_front (c ∷ cs) = if c == b'/' || c == b'.' then suc (skip_front cs) else 0

-- The loop that saves the offsets behind so many slashes. It does not look for the end of the string:
-- it reads the terminating zero and goes on behind it.
pub save_slashes : ℕ → ℕ → Text → Option (List ℕ)
save_slashes zero si cs = some []
save_slashes (suc n) si [] = none
save_slashes (suc n) si (c ∷ cs) =
    let saved = Option.map (λ xs. (si + 1) ∷ xs) (save_slashes n (si + 1) cs) in
    let rest = save_slashes (suc n) (si + 1) cs in if c == b'/' then saved else rest

-- `findSlashes` with an array of `size` offsets, on a path that is valid so far
pub find_slashes : Text → ℕ → ℕ → Option KsPath
unfolding skip_front save_slashes
find_slashes str size go_up =
    let si = skip_front str in
    if size == 0
    then some (record { str = str; valid = false; slash = []; first = 0; last = 0; go_up = go_up })
    else if size == 1
    then none
    else do
      offsets ← save_slashes (size - 2) si (drop si str)
      some (record {
        str = str;
        valid = true;
        slash = si ∷ (offsets ++ size_max ∷ []);
        first = 0;
        last = size - 2;
        go_up = go_up;
      })

-- A path that `checkAndCount` refuses; `_last` and perhaps `_go_up` are not set, and never read.
abbrev pub invalid : Text → KsPath
invalid str = record {
  str = str;
  valid = false;
  slash = 0 ∷ 0 ∷ [];
  first = 0;
  last = 0;
  go_up = 0;
}

-- `KsPath(const PltString &)`
unfoldable pub from_string : Text → Option KsPath
unfolding check_and_count find_slashes
from_string str = elim (check_and_count str) [
  | none ↦ some (invalid str)
  | some (up, n) ↦ find_slashes str (n + 2) up
]

-- `KsPath()`
pub root_path : KsPath
root_path = record {
  str = b'/' ∷ [];
  valid = true;
  slash = 1 ∷ 1 ∷ [];
  first = 0;
  last = 0;
  go_up = 0;
}

unfoldable pub is_absolute : KsPath → Bool
is_absolute p = p.go_up == 0

unfoldable pub size : KsPath → ℕ
size p = if p.valid then add_size (sub_size p.last p.first) 1 else 0

-- `KsPath(path, first, last)`
pub sub_path : KsPath → ℕ → ℕ → KsPath
sub_path p first last = record p {
  first = add_size first p.first;
  last = add_size last p.first;
  go_up = 1;
}

-- `operator []`
unfoldable pub element : KsPath → ℕ → Option Text
unfolding substr
element p i = do
  a ← get_elem? p.slash (add_size p.first i)
  b ← get_elem? p.slash (add_size (add_size p.first i) 1)
  some (substr p.str a (sub_size (sub_size b a) 1))

unfoldable pub get_head : KsPath → Option Text
unfolding element
get_head p = element p 0

pub get_tail : KsPath → KsPath
unfolding sub_path size
get_tail p = sub_path p 1 (sub_size (size p) 1)

-- `"../"` so many times
pub go_ups : ℕ → Text
go_ups zero = []
go_ups (suc n) = b'.' ∷ b'.' ∷ b'/' ∷ go_ups n

-- the part of the string that the path is about
pub own_part : KsPath → Option Text
unfolding substr
own_part p = do
  a ← get_elem? p.slash p.first
  b ← get_elem? p.slash (add_size p.last 1)
  some (substr p.str a (sub_size b a))

-- `operator PltString`
unfoldable pub to_string : KsPath → Option Text
unfolding own_part go_ups is_absolute
to_string p = do
  part ← own_part p
  some ((if is_absolute p then b'/' ∷ [] else go_ups (sub_size p.go_up 1)) ++ part)

-- `KsPath(abs, rel)`
pub append_path : KsPath → KsPath → Option KsPath
unfolding own_part substr size find_slashes
append_path abs rel = do
  n ← get_elem? abs.slash (add_size (sub_size abs.last rel.go_up) 1)
  part ← own_part rel
  find_slashes (substr abs.str 0 n ++ part)
      (add_size (add_size (sub_size (size abs) rel.go_up) (size rel)) 1) 0

pub resolve : KsPath → KsPath → Option KsPath
unfolding is_absolute size append_path from_string
resolve context rel =
    if is_absolute rel
    then some rel
    else if leb rel.go_up (size context)
    then append_path context rel
    else from_string (b'/' ∷ b'/' ∷ [])

pub data KsResult : Type 0 where
  err_ok err_badpath err_badname err_generic : KsResult

pub count_percents : Text → ℕ
count_percents [] = 0
count_percents (c ∷ cs) = (if c == b'%' then 1 else 0) + count_percents cs

-- the loop of `decodePercents` over the offsets behind the first, with `slash_index` and `count`
pub shift_slashes : Text → ℕ → ℕ → List ℕ → List ℕ
unfolding count_percents
shift_slashes str from count [] = []
shift_slashes str from count (last ∷ []) = last ∷ []
shift_slashes str from count (next ∷ more ∷ rest) =
    let count' = count + count_percents (take (next - from) (drop from str)) in
    sub_size next (2 * count') ∷ shift_slashes str next count' (more ∷ rest)

-- `decodePercents`; `none` if the conversion writes behind its buffer
pub decode_percents : (ℕ → Bool) → KsPath → Option (KsPath × KsResult)
unfolding string_from_percent shift_slashes
decode_percents alloc p = elim (string_from_percent alloc p.str) [
  | ok s ↦ elim p.slash [
    | [] ↦ none
    | first_slash ∷ rest ↦
        some (
          record p { str = s; slash = first_slash ∷ shift_slashes p.str first_slash 0 rest },
          err_ok,
        )
  ]
  | bad_name ↦ some (p, err_badname)
  | generic ↦ some (p, err_generic)
  | overrun ↦ none
]

-- One round of the first loop of `resolvePaths`: the path and its result
pub resolve_id : KsPath → Text → Option (KsPath × KsResult)
unfolding from_string resolve is_absolute
resolve_id context id = from_string id >>= λ path.
    if not path.valid
    then some (path, err_badpath)
    else if not context.valid
    then some (path, (if is_absolute path then err_ok else err_badpath))
    else resolve context path >>= λ resolved.
        some (resolved, (if resolved.valid then err_ok else err_badpath))

pub resolve_ids : KsPath → List Text → Option (List (KsPath × KsResult))
unfolding resolve_id
resolve_ids context [] = some []
resolve_ids context (id ∷ ids) =
    resolve_id context id >>= λ r. resolve_ids r.0 ids >>= λ rs. some (r ∷ rs)

-- the second loop
pub decode_ids : (ℕ → Bool) → List (KsPath × KsResult) → Option (List (KsPath × KsResult))
unfolding decode_percents
decode_ids alloc [] = some []
decode_ids alloc ((path, err_ok) ∷ rest) =
    decode_percents alloc path >>= λ r. decode_ids alloc rest >>= λ rs. some (r ∷ rs)
decode_ids alloc ((path, e) ∷ rest) = decode_ids alloc rest >>= λ rs. some ((path, e) ∷ rs)

pub resolve_paths : (ℕ → Bool) → List Text → Option (List (KsPath × KsResult))
unfolding from_string resolve_ids decode_ids
resolve_paths alloc ids =
    from_string (b'/' ∷ b'/' ∷ []) >>= λ context. resolve_ids context ids >>= decode_ids alloc

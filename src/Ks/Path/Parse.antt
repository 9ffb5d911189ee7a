-- ===== src/Ks/Path/Parse.antt =====
-- Reading the text of a list of names.
use acplt_ks.Base.{
  ℕ, zero, suc, ◌+◌, ◌-◌, ◌<◌, ◌≡◌, refl, Bool, true, false, List, [], ◌∷◌, ◌++◌, arith, ◌==◌,
  length, All, ap, sym, ◌∙◌, some, drop,
}
use mathlib.Core.Option
use mathlib.Core.Bool.{false≢true}
use mathlib.Core.List.{append-nil}
use acplt_ks.Ks.Conversions.{Text}
use acplt_ks.Ks.Path.{
  size_max, go_ups, count_slashes, skip_dots, at_start, check_and_count, skip_front, save_slashes,
  find_slashes, from_string,
}
use acplt_ks.Ks.Path.Names.{
  IsPlain, IsName, IsPath, path_text, begins_plain, prefix, begins, path_of,
}

count_slashes-name :
    (b : Bool) (c t : Text)
    → All IsPlain c
    → 0 < length c
    → count_slashes b (c ++ t) ≡ count_slashes false t
unfolding count_slashes
count_slashes-name b [] t h n = elim n [ ]
count_slashes-name b (d ∷ []) t h n = ground (arith, h.0)
count_slashes-name b (d ∷ e ∷ c) t h n =
    rw (h.0, count_slashes-name false (e ∷ c) t h.1 (omega arith)) refl

count_slashes-path_text :
    (b : Bool) (c : Text) (cs : List Text)
    → All IsName (c ∷ cs)
    → count_slashes b (path_text (c ∷ cs)) ≡ some (length cs)
unfolding path_text count_slashes
count_slashes-path_text b c [] h =
    ap (count_slashes b) (sym (append-nil c)) ∙ count_slashes-name b c [] h.0.1 h.0.0
count_slashes-path_text b c (d ∷ cs) h =
    rw
      (
        count_slashes-name b c (b'/' ∷ path_text (d ∷ cs)) h.0.1 h.0.0,
        count_slashes-path_text true d cs h.1,
      )
      refl

save_slashes-name :
    (n si : ℕ) (c t : Text)
    → All IsPlain c
    → save_slashes (suc n) si (c ++ b'/' ∷ t)
      ≡ Option.map (λ xs. (si + length c + 1) ∷ xs) (save_slashes n (si + length c + 1) t)
unfolding save_slashes
save_slashes-name n si [] t h =
    ap (λ i. Option.map (λ xs. (i + 1) ∷ xs) (save_slashes n (i + 1) t)) (omega arith)
save_slashes-name n si (d ∷ c) t h =
    rw (h.0, save_slashes-name n (si + 1) c t h.1)
      (ap (λ i. Option.map (λ xs. (i + 1) ∷ xs) (save_slashes n (i + 1) t)) (omega arith))

save_slashes-path_text :
    (si : ℕ) (c : Text) (cs : List Text)
    → All IsName (c ∷ cs)
    → save_slashes (length cs) si (path_text (c ∷ cs)) ≡ some (begins (si + length c + 1) cs)
unfolding path_text save_slashes begins
save_slashes-path_text si c [] h = refl
save_slashes-path_text si c (d ∷ cs) h =
    rw
      (
        save_slashes-name (length cs) si c (path_text (d ∷ cs)) h.0.1,
        save_slashes-path_text (si + length c + 1) d cs h.1,
      )
      refl

skip_front-plain : (t : Text) → begins_plain t ≡ true → skip_front t ≡ 0
unfolding skip_front
skip_front-plain [] h = refl
skip_front-plain (c ∷ t) h = ground (arith, h)

skip_front-go_ups :
    (k : ℕ) (t : Text) → begins_plain t ≡ true → skip_front (go_ups k ++ t) ≡ length (go_ups k)
unfolding skip_front go_ups
skip_front-go_ups zero t h = skip_front-plain t h
skip_front-go_ups (suc k) t h = rw (skip_front-go_ups k t h) refl

pub skip_front-prefix :
    (up : ℕ) (t : Text) → begins_plain t ≡ true → skip_front (prefix up ++ t) ≡ length (prefix up)
unfolding prefix skip_front
skip_front-prefix zero t h = rw (skip_front-plain t h) refl
skip_front-prefix (suc k) t h = skip_front-go_ups k t h

pub drop-append : (s t : Text) → drop (length s) (s ++ t) ≡ t
drop-append [] t = refl
drop-append (c ∷ s) t = drop-append s t

-- whether a slash came last
abbrev slash_last : ℕ → Bool → Bool
slash_last zero b = b
slash_last (suc k) b = true

skip_dots-go_ups :
    (k up : ℕ) (b : Bool) (t : Text)
    → begins_plain t ≡ true
    → skip_dots at_start up b (go_ups k ++ t) ≡ some (up + k, slash_last k b, t)
unfolding skip_dots go_ups
skip_dots-go_ups zero up b [] h = absurd (false≢true h)
skip_dots-go_ups zero up b (c ∷ t) h = ground (arith, h)
skip_dots-go_ups (suc zero) up b t h =
    rw (skip_dots-go_ups zero (up + 1) true t h) (ap (λ n. some (n, true, t)) (omega arith))
skip_dots-go_ups (suc (suc k)) up b t h =
    rw (skip_dots-go_ups (suc k) (up + 1) true t h) (ap (λ n. some (n, true, t)) (omega arith))

check_and_count-go_ups :
    (k n : ℕ) (t : Text)
    → begins_plain t ≡ true
    → ((b : Bool) → count_slashes b t ≡ some n)
    → check_and_count (go_ups k ++ t) ≡ some (suc k, n)
unfolding check_and_count go_ups
check_and_count-go_ups zero n [] h counts = absurd (false≢true h)
check_and_count-go_ups zero n (c ∷ t) h counts =
    rw (skip_dots-go_ups zero 1 false (c ∷ t) h, counts false) (ground (arith, h))
check_and_count-go_ups (suc k) n t h counts =
    rw (skip_dots-go_ups (suc k) 1 false t h, counts true) (ap (λ m. some (m, n)) (omega arith))

check_and_count-prefix :
    (up : ℕ) (c : Text) (cs : List Text)
    → IsPath (c ∷ cs)
    → check_and_count (prefix up ++ path_text (c ∷ cs)) ≡ some (up, length cs)
unfolding check_and_count prefix
check_and_count-prefix zero c cs h = rw (count_slashes-path_text true c cs h.1) refl
check_and_count-prefix (suc k) c cs h =
    check_and_count-go_ups k (length cs) (path_text (c ∷ cs)) h.2
      (λ b. count_slashes-path_text b c cs h.1)

has_offsets : (n : ℕ) → (n + 2 == 0) ≡ false × (n + 2 == 1) ≡ false × (n + 2 - 2) ≡ n
has_offsets n = (ground arith, ground arith, omega arith)

pub find_slashes-prefix :
    (up go_up : ℕ) (c : Text) (cs : List Text)
    → IsPath (c ∷ cs)
    → find_slashes (prefix up ++ path_text (c ∷ cs)) (length cs + 2) go_up
      ≡ some (record {
        str = prefix up ++ path_text (c ∷ cs);
        valid = true;
        slash = begins (length (prefix up)) (c ∷ cs) ++ size_max ∷ [];
        first = 0;
        last = length cs;
        go_up = go_up;
      })
unfolding find_slashes begins
find_slashes-prefix up go_up c cs h =
    let two = has_offsets (length cs) in
    rw
      (
        two.0,
        two.1,
        two.2,
        skip_front-prefix up (path_text (c ∷ cs)) h.2,
        drop-append (prefix up) (path_text (c ∷ cs)),
        save_slashes-path_text (length (prefix up)) c cs h.1,
      )
      refl

pub find_slashes-path_of :
    (up go_up : ℕ) (cs : List Text)
    → IsPath cs
    → find_slashes (prefix up ++ path_text cs) (length cs + 1) go_up
      ≡ some (record (path_of up cs) { go_up = go_up })
unfolding path_of
find_slashes-path_of up go_up [] h = elim h.0 [ ]
find_slashes-path_of up go_up (c ∷ cs) h =
    let more : suc (length cs) + 1 ≡ length cs + 2 = omega arith in
    let minus : suc (length cs) - 1 ≡ length cs = omega arith in
    rw (more, find_slashes-prefix up go_up c cs h, path_of, minus) refl

-- The text of a list of names is a valid path of these names: `_slash` has the offsets of the names.
pub from_string-path_text :
    (up : ℕ) (cs : List Text)
    → IsPath cs
    → from_string (prefix up ++ path_text cs) ≡ some (path_of up cs)
unfolding from_string path_of
from_string-path_text up [] h = elim h.0 [ ]
from_string-path_text up (c ∷ cs) h =
    let more : length cs + 2 ≡ suc (length cs) + 1 = omega arith in
    rw (from_string, check_and_count-prefix up c cs h, more, find_slashes-path_of up up (c ∷ cs) h)
      refl

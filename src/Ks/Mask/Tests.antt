-- ===== src/Ks/Mask/Tests.antt =====
-- Masks and names that can be followed in the source, and the theorems at them.
use acplt_ks.Base.{
  ℕ, ◌+◌, ◌≡◌, refl, arith, true, false, List, [], ◌∷◌, none, some, length, if◌then◌else◌, ◌==◌,
  suc, zero,
}
use acplt_ks.Ks.Mask.{Answer, hit, miss, malformed, at, matches}
use acplt_ks.Ks.Mask.Progress.{matches-returns}
use acplt_ks.Ks.Mask.Literal.{agrees, matches-agrees, is_simple}

-- "a?c*"
star_runs : matches (b'a' ∷ b'?' ∷ b'c' ∷ b'*' ∷ []) (b'a' ∷ b'b' ∷ b'c' ∷ b'd' ∷ []) 9 ≡ some hit
unfolding matches
star_runs = refl

-- "*c" needs the last `c`
last_runs : matches (b'*' ∷ b'c' ∷ []) (b'c' ∷ b'c' ∷ []) 9 ≡ some hit
unfolding matches
last_runs = refl

-- "[a-c]x"
set_runs : matches (b'[' ∷ b'a' ∷ b'-' ∷ b'c' ∷ b']' ∷ b'x' ∷ []) (b'b' ∷ b'x' ∷ []) 9 ≡ some hit
unfolding matches
set_runs = refl

set_misses : matches (b'[' ∷ b'a' ∷ b'b' ∷ b']' ∷ []) (b'c' ∷ []) 9 ≡ some miss
unfolding matches
set_misses = refl

-- "[^a]" at "b"
endless_runs : matches (b'[' ∷ b'^' ∷ b'a' ∷ b']' ∷ []) (b'b' ∷ []) 50 ≡ none
unfolding matches
endless_runs = refl

-- "*\[": the escaped bracket behind a star is read as the beginning of a set
escaped_bracket : matches (b'*' ∷ b'\\' ∷ b'[' ∷ []) (b'[' ∷ []) 9 ≡ some (malformed 3)
unfolding matches
escaped_bracket = refl

-- "x[a-c]"
abbrev range_mask : List ℕ
range_mask = b'x' ∷ b'[' ∷ b'a' ∷ b'-' ∷ b'c' ∷ b']' ∷ []

-- "x[^a-c]"
abbrev negated_mask : List ℕ
negated_mask = b'x' ∷ b'[' ∷ b'^' ∷ b'a' ∷ b'-' ∷ b'c' ∷ b']' ∷ []

-- "xb"
abbrev short_name : List ℕ
short_name = b'x' ∷ b'b' ∷ []

-- "xz"
abbrev other_name : List ℕ
other_name = b'x' ∷ b'z' ∷ []

-- "x[a"
abbrev cut_off_mask : List ℕ
cut_off_mask = b'x' ∷ b'[' ∷ b'a' ∷ []

-- "a*?"
abbrev star_mask : List ℕ
star_mask = b'a' ∷ b'*' ∷ b'?' ∷ []

star_mask_no_set : (i : ℕ) → (at star_mask i == b'[') ≡ false
star_mask_no_set zero = refl
star_mask_no_set (suc zero) = refl
star_mask_no_set (suc (suc zero)) = refl
star_mask_no_set (suc (suc (suc i))) = refl

matches-returns_example : (a : Answer) × (matches star_mask short_name 5 ≡ some a)
matches-returns_example = matches-returns star_mask short_name 5 star_mask_no_set (omega arith)

-- "?b"
abbrev simple_mask : List ℕ
simple_mask = b'?' ∷ b'b' ∷ []

simple_mask_simple : (i : ℕ) → is_simple (at simple_mask i) ≡ true
simple_mask_simple zero = refl
simple_mask_simple (suc zero) = refl
simple_mask_simple (suc (suc i)) = refl

matches-agrees_example :
    matches simple_mask short_name (length simple_mask + 1)
    ≡ some (if agrees simple_mask short_name then hit else miss)
matches-agrees_example = matches-agrees simple_mask short_name simple_mask_simple

-- ===== src/Ks/Mask/Range.antt =====
-- Sets that are one range of characters, such as `[a-z]`.
use acplt_ks.Base.{
  ℕ, zero, suc, ◌+◌, ◌-◌, ◌≤◌, ◌≡◌, Bool, true, false, ◌&&◌, ◌||◌, List, some, arith, if◌then◌else◌,
  leb, ltb, ◌==◌, length,
}
use acplt_ks.Base.Chars.{is_digit, is_upper, is_lower}
use acplt_ks.Ks.Mask.{hit, miss, at, scan, in_loop, range_test, stay, set}

scan_lem : (rounds i c : ℕ) → scan rounds i c ≡ (leb i c && ltb c (i + rounds))
unfolding scan
scan_lem zero i c = ground arith
scan_lem (suc rounds) i c = ground (arith, scan_lem rounds (i + 1) c)

in_loop_lem : (first last c : ℕ) → in_loop first last c ≡ (leb first c && leb c last)
unfolding in_loop
in_loop_lem first last c = ground (arith, scan_lem (last + 1 - first) first c)

-- both ends are digits, both capital letters or both small letters
abbrev pub same_class : ℕ → ℕ → Bool
same_class a b = is_digit a && is_digit b || is_upper a && is_upper b || is_lower a && is_lower b

range_test-same :
    (a b c : ℕ) → same_class a b ≡ true → range_test a b b']' c ≡ some (leb a c && leb c b)
unfolding range_test
range_test-same a b c h = rw h (ground (arith, in_loop_lem a b c))

same_class-ne : (a b : ℕ) → same_class a b ≡ true → (a == b'^') ≡ false
same_class-ne a b h = ground arith

module _ (mask name : List ℕ) where
  -- A set `[a-b]` of one class of characters, that stands whole in the mask, takes one character
  -- from a to b and steps behind the set; any other character is refused where it stands.
  pub set-range :
      (n m a b : ℕ)
      → m + 5 ≤ length mask
      → at mask (m + 1) ≡ a
      → at mask (m + 2) ≡ b'-'
      → at mask (m + 3) ≡ b
      → at mask (m + 4) ≡ b']'
      → same_class a b ≡ true
      → set mask name n m ≡ (
          if leb a (at name n) && leb (at name n) b
          then record { answer = hit; n = n + 1; m = m + 5 }
          else stay n m miss)
  unfolding set
  set-range n m a b len e₁ e₂ e₃ e₄ same =
      rw (e₁, e₂, e₃, e₄, same_class-ne a b same, range_test-same a b (at name n) same)
        (ground arith)

  -- A negated set `[^a-b]` accepts any other character too, but leaves both positions as they are.
  pub set-negated :
      (n m a b : ℕ)
      → m + 6 ≤ length mask
      → at mask (m + 1) ≡ b'^'
      → at mask (m + 2) ≡ a
      → at mask (m + 3) ≡ b'-'
      → at mask (m + 4) ≡ b
      → at mask (m + 5) ≡ b']'
      → same_class a b ≡ true
      → set mask name n m ≡ (
          if leb a (at name n) && leb (at name n) b
          then record { answer = miss; n = n + 1; m = m + 6 }
          else stay n m hit)
  unfolding set
  set-negated n m a b len e₁ e₂ e₃ e₄ e₅ same =
      rw (e₁, e₂, e₃, e₄, e₅, range_test-same a b (at name n) same) (ground arith)

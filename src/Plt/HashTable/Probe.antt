-- ===== src/Plt/HashTable/Probe.antt =====
-- The sequence of slots that `collidx` gives for a hash.
use acplt_ks.Base.{
  ℕ, zero, suc, ◌+◌, ◌-◌, ◌*◌, ◌%◌, ◌^◌, ◌<◌, ◌≤◌, ◌≡◌, false, arith, if◌then◌else◌, ltb, ap, ◌∙◌,
  dec_lt,
}
use native.Mathlib.Nat.{mod-lt, mod_self, mod-eq_of_lt}
use acplt_ks.Plt.HashTable.{collidx}

-- the slot after `n` steps
unfoldable pub probe : ℕ → ℕ → ℕ → ℕ
probe capacity h zero = collidx capacity h 0
probe capacity h (suc n) = collidx capacity (probe capacity h n) (2 * n + 1)

module _ (capacity h : ℕ) (positive : 0 < capacity) (small : capacity < 2 ^ 63) where
  mod_small : (i : ℕ) → i < capacity → i % capacity ≡ i
  mod_small i lt = mod-eq_of_lt lt

  pub probe-inside : (n : ℕ) → probe capacity h n < capacity
  unfolding probe
  probe-inside zero = mod-lt ((h + 0) % 2 ^ 64) positive
  probe-inside (suc n) =
      mod-lt
        ((if ltb (2 * n + 1) 12 then probe capacity h n + (2 * n + 1) else probe capacity h n + 1)
          % 2 ^ 64)
        positive

  -- a step of the linear part
  probe-linear :
      (n : ℕ)
      → 6 ≤ n
      → probe capacity h n + 1 < capacity
      → probe capacity h (suc n) ≡ probe capacity h n + 1
  unfolding probe
  probe-linear n far more =
      let line : ltb (2 * n + 1) 12 ≡ false = ground arith in
      let sum : (probe capacity h n + 1) % 2 ^ 64 ≡ probe capacity h n + 1 = omega arith in
      rw (line, sum) (mod_small (probe capacity h n + 1) more)

  probe-wraps : (n : ℕ) → 6 ≤ n → probe capacity h n + 1 ≡ capacity → probe capacity h (suc n) ≡ 0
  unfolding probe
  probe-wraps n far last =
      let line : ltb (2 * n + 1) 12 ≡ false = ground arith in
      let sum : (probe capacity h n + 1) % 2 ^ 64 ≡ capacity = omega arith in
      rw (line, sum) (mod_self capacity)

  -- From a slot of the linear part a slot that is not before it is reached by steps of one.
  probe-ahead :
      (d n e : ℕ) → 6 ≤ n → probe capacity h n + d ≡ e → e < capacity → probe capacity h (n + d) ≡ e
  probe-ahead zero n e far sum inside =
      let steps : n + 0 ≡ n = omega arith in
      let there : probe capacity h n ≡ e = omega arith in ap (probe capacity h) steps ∙ there
  probe-ahead (suc d) n e far sum inside =
      let steps : n + suc d ≡ suc n + d = omega arith in
      ap (probe capacity h) steps
      ∙ probe-ahead d (suc n) e (omega arith) (omega (arith, sum, probe-linear n far (omega arith)))
          inside

  -- Every slot is reached within as many steps as there are slots, and six.
  pub probe-reaches :
      (e : ℕ) → e < capacity → (n : ℕ) × (n < capacity + 7) × (probe capacity h n ≡ e)
  probe-reaches e inside = elim (dec_lt e (probe capacity h 6)) [
    | no ahead ↦ (
      6 + (e - probe capacity h 6),
      omega arith,
      probe-ahead (e - probe capacity h 6) 6 e (omega arith) (omega arith) inside,
    )
    | yes behind ↦
        let last = capacity - 1 - probe capacity h 6 in
        let at_last =
          probe-ahead last 6 (capacity - 1) (omega arith) (omega (arith, probe-inside 6))
            (omega arith) in
        let at_start = probe-wraps (6 + last) (omega arith) (omega (arith, at_last)) in
        (
          suc (6 + last) + e,
          omega (arith, probe-inside 6),
          probe-ahead e (suc (6 + last)) e (omega arith) (omega (arith, at_start)) inside,
        )
  ]

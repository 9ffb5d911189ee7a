-- ===== src/Plt/HashTable/Ending.antt =====
-- The loop of `insert`, for a key that is not on its way.
use acplt_ks.Base.{
  ℕ, zero, suc, ◌+◌, ◌*◌, ◌<◌, ◌≤◌, ◌≡◌, refl, Bool, true, false, arith, ap, sym, subst, ◌∙◌,
  dec_lt, Option, some, ◌⊎◌, inl, inr,
}
use acplt_ks.Plt.HashTable.{Slot, empty, deleted, used, insert_loop}
use acplt_ks.Plt.HashTable.Probe.{probe}
use acplt_ks.Plt.HashTable.Answers.{Slot-cases, is_empty, has_key, at_step, empty_slot}

module _ {K V : Type 0} (hash : K → ℕ) (equal : K → K → Bool) (table : ℕ → Slot K V) (capacity : ℕ)
    (key : K)
    (absent : (n : ℕ) → has_key equal key (at_step hash equal table capacity key n) ≡ false) where
  abbrev pub slot : ℕ → Slot K V
  slot n = table (probe capacity (hash key) n)

  abbrev pub go : ℕ → ℕ → ℕ → Option (Bool × ℕ × ℕ)
  go rounds d n =
      insert_loop hash equal rounds table capacity key d (probe capacity (hash key) n) (2 * n + 1)

  -- how the loop ends: at an empty slot behind filled ones, with the last deleted slot before it
  abbrev pub IsEnd : ℕ → ℕ → ℕ → ℕ → Type 0
  IsEnd d n d' i =
      (e : ℕ) × (n ≤ e)
      × (i ≡ probe capacity (hash key) e)
      × (slot e ≡ empty)
      × ((m : ℕ) → n ≤ m → m < e → is_empty (slot m) ≡ false)
      × ((d' ≡ d) ⊎ ((m : ℕ) × (m < e) × (d' ≡ probe capacity (hash key) m) × (slot m ≡ deleted)))

  abbrev pub Ends : ℕ → ℕ → ℕ → Type 0
  Ends rounds d n = (d' : ℕ) × (i : ℕ) × (go rounds d n ≡ some (false, d', i)) × IsEnd d n d' i

  go-empty : (rounds d n : ℕ) → slot n ≡ empty → Ends (suc rounds) d n
  unfolding insert_loop
  go-empty rounds d n e = (
    d,
    probe capacity (hash key) n,
    rw (insert_loop, e, e) refl,
    (n, omega arith, refl, e, λ m. λ le. λ lt. absurd (omega arith), inl refl),
  )

  go-deleted :
      (rounds d n : ℕ)
      → slot n ≡ deleted
      → go (suc rounds) d n ≡ go rounds (probe capacity (hash key) n) (suc n)
  unfolding insert_loop probe
  go-deleted rounds d n e =
      let two : 2 * n + 1 + 2 ≡ 2 * suc n + 1 = omega arith in rw (insert_loop, e, e, two) refl

  go-used :
      (rounds d n : ℕ) (k : K) (v : V)
      → slot n ≡ used k v
      → go (suc rounds) d n ≡ go rounds d (suc n)
  unfolding insert_loop probe
  go-used rounds d n k v e =
      let two : 2 * n + 1 + 2 ≡ 2 * suc n + 1 = omega arith in
      let other : equal k key ≡ false = sym (ap (has_key equal key) e) ∙ absent n in
      rw (insert_loop, e, other, e, two) refl

  -- one slot more that is filled
  filled-next :
      (n e : ℕ)
      → is_empty (slot n) ≡ false
      → ((m : ℕ) → suc n ≤ m → m < e → is_empty (slot m) ≡ false)
      → (m : ℕ) → n ≤ m
      → m < e
      → is_empty (slot m) ≡ false
  filled-next n e filled others m le lt = elim (dec_lt n m) [
    | yes behind ↦ others m behind lt
    | no here ↦ let same : n ≡ m = omega arith in subst (λ j. is_empty (slot j) ≡ false) same filled
  ]

  IsEnd-used : (d n d' i : ℕ) → is_empty (slot n) ≡ false → IsEnd d (suc n) d' i → IsEnd d n d' i
  IsEnd-used d n d' i filled (e, le, at_e, stops, others, place) =
      (e, omega arith, at_e, stops, filled-next n e filled others, place)

  -- a deleted slot is a place to insert at
  IsEnd-deleted :
      (d n d' i : ℕ)
      → slot n ≡ deleted
      → IsEnd (probe capacity (hash key) n) (suc n) d' i
      → IsEnd d n d' i
  IsEnd-deleted d n d' i e (z, le, at_z, stops, others, place) = (
    z,
    omega arith,
    at_z,
    stops,
    filled-next n z (ap is_empty e) others,
    elim place [ inl same ↦ inr (n, omega arith, same, e) | inr other ↦ inr other ],
  )

  pub go-Ends :
      (steps rounds d n : ℕ) → is_empty (slot (n + steps)) ≡ true → steps < rounds → Ends rounds d n
  go-Ends steps zero d n stops enough = absurd (omega arith)
  go-Ends zero (suc rounds) d n stops enough =
      let same : n + 0 ≡ n = omega arith in
      go-empty rounds d n (empty_slot (slot n) (subst (λ i. is_empty (slot i) ≡ true) same stops))
  go-Ends (suc steps) (suc rounds) d n stops enough =
      let same : n + suc steps ≡ suc n + steps = omega arith in
      let stops' = subst (λ i. is_empty (slot i) ≡ true) same stops in
      elim (Slot-cases (slot n)) [
        | inl e ↦ go-empty rounds d n e
        | inr (inl e) ↦
            let r =
              go-Ends steps rounds (probe capacity (hash key) n) (suc n) stops' (omega arith) in
            (r.0, r.1, go-deleted rounds d n e ∙ r.2, IsEnd-deleted d n r.0 r.1 e r.3)
        | inr (inr (k, v, e)) ↦
            let r = go-Ends steps rounds d (suc n) stops' (omega arith) in
            (r.0, r.1, go-used rounds d n k v e ∙ r.2, IsEnd-used d n r.0 r.1 (ap is_empty e) r.3)
      ]

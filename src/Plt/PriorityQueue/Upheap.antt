-- ===== src/Plt/PriorityQueue/Upheap.antt =====
-- The loop of `add`.
use acplt_ks.Base.{
  ℕ, zero, suc, ◌^◌, ◌<◌, ◌≤◌, ◌≡◌, ◌≢◌, refl, Bool, true, arith, if◌then◌else◌, ltb, Bool-cases,
  inl, inr, ap, ◌∙◌, Option, some,
}
use acplt_ks.Plt.PriorityQueue.{up_loop}
use acplt_ks.Plt.PriorityQueue.Cells.{above, parent-above, IsHeap}
use acplt_ks.Base.Cells.{count, count-update, update}

module _ {T : Type 0} (key : T → ℕ) (n : ℕ) (x : T) where
  -- A heap of `n` nodes in which node `i` is to be filled with `x` or moved up: the others are in
  -- order, what stands below `i` is not smaller than `x` and than the parent of `i`.
  pub record IsOpen (a : ℕ → T) (i : ℕ) : Type 0 where
    pub inside : i < n
    pub others : (j : ℕ) → 0 < j → j < n → j ≢ i → above j ≢ i → key (a (above j)) ≤ key (a j)
    pub below : (j : ℕ) → 0 < j → j < n → above j ≡ i → key x ≤ key (a j)
    pub skipped : (j : ℕ) → 0 < j → j < n → above j ≡ i → 0 < i → key (a (above i)) ≤ key (a j)

  -- the hole moves up
  IsOpen-up :
      (a : ℕ → T) (i : ℕ)
      → IsOpen a i
      → 0 < i
      → key x < key (a (above i))
      → IsOpen (update a i (a (above i))) (above i)
  IsOpen-up a i o pos less = record {
    inside = omega (arith, o.inside);
    others = λ j. λ p. λ lt. λ ne. λ ne'. ground (arith, o.skipped j p lt, o.others j p lt, ne');
    below = λ j. λ p. λ lt. λ e. ground (arith, o.others j p lt, ap (λ k. key (a k)) e, less);
    skipped = λ j. λ p. λ lt.
        λ e. λ pi. ground (arith, o.others j p lt, ap (λ k. key (a k)) e, o.others (above i) pi);
  }

  -- the hole is filled
  IsOpen-IsHeap :
      (a : ℕ → T) (i : ℕ)
      → IsOpen a i
      → (0 < i → key (a (above i)) ≤ key x)
      → IsHeap key (update a i x) n
  IsOpen-IsHeap a i o fits j p lt =
      ground
        (arith, o.others j p lt, o.below j p lt, fits, λ (e : j ≡ i). ap (λ k. key (a (above k))) e)

  count-moved :
      (p : T → Bool) (a : ℕ → T) (i j : ℕ)
      → i < n
      → j < n
      → i ≢ j
      → count p (update (update a i (a j)) j x) n ≡ count p (update a i x) n
  count-moved p a i j hi hj ne = ground (
    arith,
    count-update p a n i (a j) hi,
    count-update p a n i x hi,
    count-update p (update a i (a j)) n j x hj,
  )

  up_loop-step :
      (rounds : ℕ) (a : ℕ → T) (i : ℕ)
      → suc i < n
      → n < 2 ^ 64
      → up_loop key (suc rounds) a (suc i) x ≡ (
          if ltb (key x) (key (a (above (suc i))))
          then up_loop key rounds (update a (suc i) (a (above (suc i)))) (above (suc i)) x
          else some (a, suc i))
  unfolding up_loop
  up_loop-step rounds a i lt small =
      let up = parent-above (suc i) (omega arith) (omega arith) in
      let inside : ltb 0 (suc i) ≡ true = ground arith in rw (up, inside) refl

  -- The loop ends within as many rounds as the node's number, and one more; with `x` at the insertion
  -- point there is a heap of the same elements.
  pub up_loop-IsHeap :
      (p : T → Bool) (rounds : ℕ) (a : ℕ → T) (i : ℕ)
      → IsOpen a i
      → i < rounds
      → n < 2 ^ 64
      → (b : ℕ → T) × (k : ℕ) × (up_loop key rounds a i x ≡ some (b, k))
        × IsHeap key (update b k x) n
        × (count p (update b k x) n ≡ count p (update a i x) n)
  unfolding up_loop
  up_loop-IsHeap p zero a i o enough small = elim enough [ ]
  up_loop-IsHeap p (suc rounds) a zero o enough small =
      (a, zero, refl, IsOpen-IsHeap a zero o (λ h. elim h [ ]), refl)
  up_loop-IsHeap p (suc rounds) a (suc i) o enough small =
      let step = up_loop-step rounds a i o.inside small in
      let up = update a (suc i) (a (above (suc i))) in
      let choose : Bool → Option ((ℕ → T) × ℕ) =
        λ b. if b then up_loop key rounds up (above (suc i)) x else some (a, suc i) in
      elim (Bool-cases (ltb (key x) (key (a (above (suc i)))))) [
        | inl less ↦
            let r =
              up_loop-IsHeap p rounds up (above (suc i))
                (IsOpen-up a (suc i) o (omega arith) (ground (arith, less))) (omega arith) small in
            (
              r.0,
              r.1,
              step ∙ ap choose less ∙ r.2,
              r.3,
              r.4
                  ∙ count-moved p a (suc i) (above (suc i)) o.inside (omega (arith, o.inside))
                      (omega arith),
            )
        | inr not_less ↦ (
          a,
          suc i,
          step ∙ ap choose not_less,
          IsOpen-IsHeap a (suc i) o (λ h. ground (arith, not_less)),
          refl,
        )
      ]

-- ===== src/Plt/PriorityQueue/Downheap.antt =====
-- `downheap`.
use acplt_ks.Base.{
  ℕ, zero, suc, ◌+◌, ◌*◌, ◌%◌, ◌^◌, ◌<◌, ◌≤◌, ◌≡◌, ◌≢◌, refl, Bool, true, false, ◌&&◌, arith,
  if◌then◌else◌, leb, ltb, Bool-cases, inl, inr, ap, ◌∙◌, Option, some, dec_lt,
}
use acplt_ks.Plt.PriorityQueue.{parent, decrement, left_child, smaller_child, down_loop, downheap}
use acplt_ks.Plt.PriorityQueue.Cells.{above, IsHeap}
use acplt_ks.Base.Cells.{count, count-update, update}

module _ {T : Type 0} (key : T → ℕ) (n : ℕ) (v : T) where
  -- A heap of `n` nodes in which node `k` is to be filled with `v` or moved down: the others are in
  -- order, and the parent of `k` is not larger than `v` and than what stands below `k`.
  pub record IsOpen (a : ℕ → T) (k : ℕ) : Type 0 where
    pub inside : k < n
    pub others : (j : ℕ) → 0 < j → j < n → j ≢ k → above j ≢ k → key (a (above j)) ≤ key (a j)
    pub skipped : (j : ℕ) → 0 < j → j < n → above j ≡ k → 0 < k → key (a (above k)) ≤ key (a j)
    pub over : 0 < k → key (a (above k)) ≤ key v

  abbrev prefers_right : (ℕ → T) → ℕ → Bool
  prefers_right a k = ltb (2 * k + 2) n && ltb (key (a (2 * k + 2))) (key (a (2 * k + 1)))

  smaller_child-children :
      (a : ℕ → T) (k : ℕ)
      → n < 2 ^ 63
      → k < n
      → smaller_child key a n k ≡ (if prefers_right a k then 2 * k + 2 else 2 * k + 1)
  unfolding smaller_child
  smaller_child-children a k small lt =
      let l : left_child k ≡ 2 * k + 1 = omega arith in
      let r : (2 * k + 1 + 1) % 2 ^ 64 ≡ 2 * k + 2 = omega arith in rw (l, r) refl

  -- What `smaller_child` gives: a child, and no child is smaller.
  abbrev IsSmaller : (ℕ → T) → ℕ → ℕ → Type 0
  IsSmaller a k c =
      (0 < c)
      × (c < n)
      × (above c ≡ k)
      × ((j : ℕ) → 0 < j → j < n → above j ≡ k → key (a c) ≤ key (a j))

  smaller_child-IsSmaller :
      (a : ℕ → T) (k : ℕ) → n < 2 ^ 63 → 2 * k + 1 < n → IsSmaller a k (smaller_child key a n k)
  smaller_child-IsSmaller a k small has =
      rw (smaller_child-children a k small (omega arith)) (elim (Bool-cases (prefers_right a k)) [
        | inl right ↦ rw right (
          omega arith,
          ground (arith, right),
          omega arith,
          λ j. λ p. λ lt. λ e. ground (
            arith,
            right,
            λ (f : j ≡ 2 * k + 1). ap (λ i. key (a i)) f,
            λ (f : j ≡ 2 * k + 2). ap (λ i. key (a i)) f,
          ),
        )
        | inr left ↦ rw left (
          omega arith,
          has,
          omega arith,
          λ j. λ p. λ lt. λ e. ground (
            arith,
            left,
            λ (f : j ≡ 2 * k + 1). ap (λ i. key (a i)) f,
            λ (f : j ≡ 2 * k + 2). ap (λ i. key (a i)) f,
          ),
        )
      ])

  -- the hole moves down
  IsOpen-down :
      (a : ℕ → T) (k c : ℕ)
      → IsOpen a k
      → 0 < c
      → c < n
      → above c ≡ k
      → ((j : ℕ) → 0 < j → j < n → above j ≡ k → key (a c) ≤ key (a j))
      → key (a c) < key v
      → IsOpen (update a k (a c)) c
  IsOpen-down a k c o pos lt child least less = record {
    inside = lt;
    others = λ j. λ p. λ lt'. λ ne. λ ne'. ground (
      arith,
      o.others j p lt',
      least j p lt',
      o.skipped c pos lt child,
      ap (λ i. key (a (above i))) child,
    );
    skipped = λ j. λ p. λ lt'. λ e. λ pc. ground (arith, o.others j p lt', ap (λ i. key (a i)) e);
    over = λ pc. ground (arith);
  }

  -- the hole is filled
  IsOpen-IsHeap :
      (a : ℕ → T) (k : ℕ)
      → IsOpen a k
      → ((j : ℕ) → 0 < j → j < n → above j ≡ k → key v ≤ key (a j))
      → IsHeap key (update a k v) n
  IsOpen-IsHeap a k o fits j p lt =
      ground
        (arith, o.others j p lt, fits j p lt, o.over, λ (e : j ≡ k). ap (λ i. key (a (above i))) e)

  count-moved :
      (p : T → Bool) (a : ℕ → T) (k c : ℕ)
      → k < n
      → c < n
      → k ≢ c
      → count p (update (update a k (a c)) c v) n ≡ count p (update a k v) n
  count-moved p a k c hk hc ne = ground (
    arith,
    count-update p a n k (a c) hk,
    count-update p a n k v hk,
    count-update p (update a k (a c)) n c v hc,
  )

  -- a round of the loop at a node that has a child
  down_loop-child :
      (rounds : ℕ) (a : ℕ → T) (k c : ℕ)
      → smaller_child key a n k ≡ c
      → n < 2 ^ 63
      → 2 * k + 1 < n
      → down_loop key (suc rounds) a n k v ≡ (
          if leb (key v) (key (a c))
          then some (a, k)
          else down_loop key rounds (update a k (a c)) n c v)
  unfolding down_loop
  down_loop-child rounds a k c e small has =
      let inner : leb k (parent (decrement n)) ≡ true = ground arith in rw (e, inner) refl

  -- a round at a leaf; in a heap of one node the test of the loop does not see that it is one
  pub down_loop-leaf :
      (rounds : ℕ) (a : ℕ → T) (k : ℕ)
      → n < 2 ^ 63
      → k < n
      → n ≤ 2 * k + 1
      → key v ≤ key (a n)
      → down_loop key (suc rounds) a n k v ≡ some (a, k)
  unfolding down_loop
  down_loop-leaf rounds a k small inside leaf out = elim (dec_lt 1 n) [
    | yes more ↦ let outer : leb k (parent (decrement n)) ≡ false = ground arith in rw outer refl
    | no one ↦
        let only : (if prefers_right a k then 2 * k + 2 else 2 * k + 1) ≡ n = ground arith in
        let child = smaller_child-children a k small inside ∙ only in
        let stops : leb (key v) (key (a (smaller_child key a n k))) ≡ true =
          ground (arith, out, ap (λ i. key (a i)) child) in
        rw stops (ground arith)
  ]

  abbrev Result : (T → Bool) → ℕ → (ℕ → T) → ℕ → Type 0
  Result p rounds a k =
      (b : ℕ → T) × (i : ℕ) × (down_loop key rounds a n k v ≡ some (b, i))
      × IsHeap key (update b i v) n
      × (count p (update b i v) n ≡ count p (update a k v) n)

  -- The loop ends within as many rounds as there are nodes, and one more; with `v` at the last node
  -- there is a heap of the same elements.
  pub down_loop-IsHeap :
      (p : T → Bool) (rounds : ℕ) (a : ℕ → T) (k : ℕ)
      → IsOpen a k
      → n < k + rounds
      → n < 2 ^ 63
      → key v ≤ key (a n)
      → Result p rounds a k
  down_loop-IsHeap p zero a k o enough small out = absurd (omega (arith, o.inside))
  down_loop-IsHeap p (suc rounds) a k o enough small out = elim (dec_lt (2 * k + 1) n) [
    | yes has ↦
        let c = smaller_child key a n k in
        let s = smaller_child-IsSmaller a k small has in
        let next = update a k (a c) in
        let choose : Bool → Option ((ℕ → T) × ℕ) =
          λ b. if b then some (a, k) else down_loop key rounds next n c v in
        let step = down_loop-child rounds a k c refl small has in
        elim (Bool-cases (leb (key v) (key (a c)))) [
          | inl fits ↦ (
            a,
            k,
            step ∙ ap choose fits,
            IsOpen-IsHeap a k o (λ j. λ pos. λ lt. λ e. ground (arith, fits, s.3 j pos lt e)),
            refl,
          )
          | inr larger ↦
              let r =
                down_loop-IsHeap p rounds next c
                  (IsOpen-down a k c o s.0 s.1 s.2 s.3 (ground (arith, larger)))
                  (omega (arith, s.2, s.0)) small (ground (arith, out, o.inside)) in
              (
                r.0,
                r.1,
                step ∙ ap choose larger ∙ r.2,
                r.3,
                r.4 ∙ count-moved p a k c o.inside s.1 (omega (arith, s.2, s.0)),
              )
        ]
    | no leaf ↦ (
      a,
      k,
      down_loop-leaf rounds a k small o.inside (omega arith) out,
      IsOpen-IsHeap a k o (λ j. λ pos. λ lt. λ e. absurd (omega arith)),
      refl,
    )
  ]

  pub downheap-down_loop :
      (a b : ℕ → T) (k i : ℕ)
      → down_loop key (n + 1) a n k v ≡ some (b, i)
      → downheap key a n k v ≡ some (update b i v)
  unfolding downheap
  downheap-down_loop a b k i e = rw (downheap, e) refl

  -- `downheap` fills an open node of a heap: the result is a heap of the same elements and `v`.
  pub downheap-IsHeap :
      (p : T → Bool) (a : ℕ → T) (k : ℕ)
      → IsOpen a k
      → n < 2 ^ 63
      → key v ≤ key (a n)
      → (b : ℕ → T) × (downheap key a n k v ≡ some b)
        × IsHeap key b n
        × (count p b n ≡ count p (update a k v) n)
  downheap-IsHeap p a k o small out =
      let r = down_loop-IsHeap p (n + 1) a k o (omega arith) small out in
      (update r.0 r.1 v, downheap-down_loop a r.0 k r.1 r.2, r.3, r.4)

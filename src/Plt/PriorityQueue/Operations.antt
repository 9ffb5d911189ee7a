-- ===== src/Plt/PriorityQueue/Operations.antt =====
-- The operations of the queue: order, contents and bounds.
use acplt_ks.Base.{
  ℕ, zero, suc, ◌+◌, ◌^◌, ◌<◌, ◌≤◌, ◌≡◌, refl, Bool, true, false, not, ◌||◌, arith, if◌then◌else◌,
  ltb, ◌==◌, Bool-cases, inl, inr, ap, sym, ◌∙◌, some,
}
use acplt_ks.Plt.PriorityQueue.{
  PriorityQueue, decrement, grow, insert, add, remove_first, downheap, up_loop,
}
use acplt_ks.Plt.PriorityQueue.Cells.{IsHeap, IsHeap-root}
use acplt_ks.Base.Cells.{count, count-update, count-update_out, count_plus_one, bit, update}
use acplt_ks.Plt.PriorityQueue.Upheap
use acplt_ks.Plt.PriorityQueue.Downheap
use acplt_ks.Plt.PriorityQueue.Upheap.{up_loop-IsHeap}
use acplt_ks.Plt.PriorityQueue.Downheap.{downheap-IsHeap}

module _ {T : Type 0} (key : T → ℕ) where
  -- the class's invariant, and an array that fits in memory
  pub record IsValid (q : PriorityQueue T) : Type 0 where
    pub heap : IsHeap key q.a_elems q.a_size
    pub allocated : q.a_size ≤ q.a_capacity
    pub fits : q.a_capacity < 2 ^ 63

  module _ (p : T → Bool) where
    -- how many elements of a queue pass a test
    abbrev pub contents : PriorityQueue T → ℕ
    contents q = count p q.a_elems q.a_size

    grown_count :
        (a : ℕ → T) (fresh : T) (n m : ℕ)
        → m ≤ n
        → count p (λ i. if ltb i n then a i else fresh) m ≡ count p a m
    unfolding count
    grown_count a fresh n zero h = refl
    grown_count a fresh n (suc m) h = ground (arith, grown_count a fresh n m)

    grow_lem :
        (alloc : ℕ → Bool) (fresh : T) (q : PriorityQueue T) (cap : ℕ)
        → IsValid q
        → alloc cap ≡ true
        → q.a_size ≤ cap
        → cap < 2 ^ 63
        → (r : PriorityQueue T) × (grow alloc fresh q cap ≡ some r)
          × IsValid r
          × (r.a_size ≡ q.a_size)
          × (r.a_capacity ≡ cap)
          × (contents r ≡ contents q)
    unfolding grow
    grow_lem alloc fresh q cap v ok le small = (
      record q { a_capacity = cap; a_elems = λ i. if ltb i q.a_size then q.a_elems i else fresh },
      rw ok refl,
      record {
        heap = λ i. λ pos. λ lt. ground (arith, v.heap i pos lt);
        allocated = le;
        fits = small;
      },
      refl,
      refl,
      grown_count q.a_elems fresh q.a_size q.a_size (omega arith),
    )

    insert-up_loop :
        (q : PriorityQueue T) (x : T) (b : ℕ → T) (i : ℕ)
        → up_loop key (q.a_size + 1) q.a_elems q.a_size x ≡ some (b, i)
        → insert key q x ≡ some (record q { a_size = q.a_size + 1; a_elems = update b i x })
    unfolding insert
    insert-up_loop q x b i e = rw (insert, e) refl

    insert_lem :
        (q : PriorityQueue T) (x : T)
        → IsValid q
        → q.a_size < q.a_capacity
        → (r : PriorityQueue T) × (insert key q x ≡ some r)
          × IsValid r
          × (r.a_size ≡ q.a_size + 1)
          × (contents r ≡ contents q + bit (p x))
    insert_lem q x v free =
        let n = q.a_size in
        let hole : Upheap.IsOpen key (n + 1) x q.a_elems n = record {
          inside = omega arith;
          others = λ j. λ pos. λ lt. λ ne. λ ne'. v.heap j pos (omega arith);
          below = λ j. λ pos. λ lt. λ e. absurd (omega arith);
          skipped = λ j. λ pos. λ lt. λ e. λ pn. absurd (omega arith);
        } in
        let r =
          up_loop-IsHeap key (n + 1) x p (n + 1) q.a_elems n hole (omega arith)
            (omega (arith, v.fits)) in
        let same : update q.a_elems n x n ≡ x = ground arith in
        (
          record q { a_size = n + 1; a_elems = update r.0 r.1 x },
          insert-up_loop q x r.0 r.1 r.2,
          record { heap = r.3; allocated = omega arith; fits = v.fits },
          refl,
          omega (
            arith,
            r.4,
            count_plus_one p (update q.a_elems n x) n,
            ap (λ y. bit (p y)) same,
            count-update_out p q.a_elems n n x (omega arith),
          ),
        )

    add-grown :
        (alloc : ℕ → Bool) (fresh : T) (q g r : PriorityQueue T) (x : T)
        → (q.a_size == q.a_capacity) ≡ true
        → grow alloc fresh q (q.a_capacity + q.a_growsize) ≡ some g
        → insert key g x ≡ some r
        → add key alloc fresh q x ≡ some (true, r)
    unfolding add
    add-grown alloc fresh q g r x full e e' = rw (add, full, e, e') refl

    add-free :
        (alloc : ℕ → Bool) (fresh : T) (q r : PriorityQueue T) (x : T)
        → (q.a_size == q.a_capacity) ≡ false
        → insert key q x ≡ some r
        → add key alloc fresh q x ≡ some (true, r)
    unfolding add
    add-free alloc fresh q r x free e = rw (add, free, e) refl

    -- Adding to a valid queue that has a free place, or that can grow, gives a valid queue with one
    -- element more, the new one.
    pub add_lem :
        (alloc : ℕ → Bool) (fresh : T) (q : PriorityQueue T) (x : T)
        → IsValid q
        → 0 < q.a_growsize
        → q.a_capacity + q.a_growsize < 2 ^ 63
        → (not (q.a_size == q.a_capacity) || alloc (q.a_capacity + q.a_growsize)) ≡ true
        → (r : PriorityQueue T) × (add key alloc fresh q x ≡ some (true, r))
          × IsValid r
          × (r.a_size ≡ q.a_size + 1)
          × (contents r ≡ contents q + bit (p x))
    add_lem alloc fresh q x v more small ok = elim (Bool-cases (q.a_size == q.a_capacity)) [
      | inl full ↦
          let g =
            grow_lem alloc fresh q (q.a_capacity + q.a_growsize) v (ground (arith, ok, full))
              (omega (arith, v.allocated)) small in
          let r = insert_lem g.0 x g.2 (ground (arith, g.3, g.4, full, more)) in
          (
            r.0,
            add-grown alloc fresh q g.0 r.0 x full g.1 r.1,
            r.2,
            r.3 ∙ ap (λ n. n + 1) g.3,
            omega (arith, r.4, g.5),
          )
      | inr free ↦
          let r = insert_lem q x v (ground (arith, v.allocated, free)) in
          (r.0, add-free alloc fresh q r.0 x free r.1, r.2, r.3, r.4)
    ]

    -- `removeFirst` of a queue of more than one element, and of one
    remove_first-more :
        (q : PriorityQueue T) (b : ℕ → T)
        → ltb 0 (decrement q.a_size) ≡ true
        → downheap key q.a_elems (decrement q.a_size) 0 (q.a_elems (decrement q.a_size)) ≡ some b
        → remove_first key q
          ≡ some (q.a_elems 0, record q { a_size = decrement q.a_size; a_elems = b })
    unfolding remove_first
    remove_first-more q b more e = rw (remove_first, more, e) refl

    remove_first-last :
        (q : PriorityQueue T)
        → ltb 0 (decrement q.a_size) ≡ false
        → remove_first key q ≡ some (q.a_elems 0, record q { a_size = decrement q.a_size })
    unfolding remove_first
    remove_first-last q last = rw (remove_first, last) refl

    -- Removing the first element of a valid queue gives an element that is not larger than any, and a
    -- valid queue of the others.
    pub remove_first_lem :
        (q : PriorityQueue T) (i : ℕ)
        → IsValid q
        → i < q.a_size
        → (x : T) × (r : PriorityQueue T) × (remove_first key q ≡ some (x, r))
          × IsValid r
          × (r.a_size + 1 ≡ q.a_size)
          × (contents r + bit (p x) ≡ contents q)
          × (key x ≤ key (q.a_elems i))
    remove_first_lem q i v lt =
        let n = decrement q.a_size in
        let whole : n + 1 ≡ q.a_size = omega (arith, v.allocated, v.fits) in
        let least = IsHeap-root key q.a_elems q.a_size i v.heap lt in
        let total = ap (count p q.a_elems) (sym whole) ∙ count_plus_one p q.a_elems n in
        let e = q.a_elems n in
        elim (Bool-cases (ltb 0 n)) [
          | inl more ↦
              let hole : Downheap.IsOpen key n e q.a_elems 0 = record {
                inside = ground (arith, more);
                others = λ j. λ pos. λ lt'. λ ne. λ ne'. v.heap j pos (omega arith);
                skipped = λ j. λ pos. λ lt'. λ eq. λ no_root. absurd (omega arith);
                over = λ no_root. absurd (omega arith);
              } in
              let d =
                downheap-IsHeap key n e p q.a_elems 0 hole (omega (arith, v.allocated, v.fits))
                  (omega arith) in
              (
                q.a_elems 0,
                record q { a_size = n; a_elems = d.0 },
                remove_first-more q d.0 more d.1,
                record { heap = d.2; allocated = omega (arith, v.allocated); fits = v.fits },
                whole,
                omega (arith, d.3, total, count-update p q.a_elems n 0 e (ground (arith, more))),
                least,
              )
          | inr last ↦
              let first : n ≡ 0 = ground (arith, last) in
              (
                q.a_elems 0,
                record q { a_size = n },
                remove_first-last q last,
                record {
                  heap = λ j. λ pos. λ lt'. v.heap j pos (omega arith);
                  allocated = omega (arith, v.allocated);
                  fits = v.fits;
                },
                whole,
                omega (arith, total, ap (λ k. bit (p (q.a_elems k))) first),
                least,
              )
        ]

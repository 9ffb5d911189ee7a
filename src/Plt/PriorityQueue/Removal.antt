-- ===== src/Plt/PriorityQueue/Removal.antt =====
-- `remove`, which looks for an element and fills its place with the last one.
use acplt_ks.Base.{
  ℕ, zero, suc, ◌+◌, ◌-◌, ◌*◌, ◌<◌, ◌≤◌, ◌≡◌, refl, Bool, true, false, not, ◌&&◌, arith,
  if◌then◌else◌, leb, ltb, ◌==◌, Bool-cases, inl, inr, ap, some,
}
use mathlib.Core.Bool.{false≢true}
use native.Mathlib.Numerals.{add-one}
use acplt_ks.Plt.PriorityQueue.{
  PriorityQueue, decrement, left_child, right_child, locate, remove, downheap,
}
use acplt_ks.Plt.PriorityQueue.Cells.{above, IsHeap}
use acplt_ks.Base.Cells.{update}
use acplt_ks.Plt.PriorityQueue.Downheap.{down_loop-leaf, downheap-down_loop}
use acplt_ks.Plt.PriorityQueue.Operations.{IsValid}

module _ {T : Type 0} (key : T → ℕ) (equal : T → T → Bool) where
  module _ (a : ℕ → T) (size : ℕ) (elem : T) where
    -- a node that is found is equal to what is looked for
    abbrev IsSound : ℕ → Type 0
    IsSound node = node < size → equal elem (a node) ≡ true

    choice-IsSound :
        (l r : ℕ)
        → IsSound l
        → (not (r == 0) ≡ true → IsSound r)
        → IsSound (if ltb l size then l else if not (r == 0) then r else size)
    choice-IsSound l r hl hr = elim (Bool-cases (ltb l size)) [
      | inl left ↦ rw left hl
      | inr not_left ↦ rw not_left (elim (Bool-cases (not (r == 0))) [
        | inl right ↦ rw right (hr right)
        | inr nothing ↦ rw nothing (λ h. absurd (omega arith))
      ])
    ]

    branch-IsSound : (t : Bool) (l : ℕ) → IsSound l → IsSound (elim t [ true ↦ l | false ↦ size ])
    branch-IsSound true l h = h
    branch-IsSound false l h = λ k. absurd (omega arith)

    right-IsSound :
        (t : Bool) (r : ℕ)
        → (t ≡ true → IsSound r)
        → not (elim t as (λ _. ℕ) [ true ↦ r | false ↦ 0 ] == 0) ≡ true
        → IsSound (elim t [ true ↦ r | false ↦ 0 ])
    right-IsSound true r h k = h refl
    right-IsSound false r h k = absurd (false≢true k)

    locate-IsSound : (depth node : ℕ) → IsSound (locate key equal depth a size node elem)
    unfolding locate
    locate-IsSound zero node = λ h. absurd (omega arith)
    locate-IsSound (suc depth) node = elim (Bool-cases (equal elem (a node))) [
      | inl here ↦ rw (locate, here) (λ h. here)
      | inr elsewhere ↦ elim (Bool-cases (ltb (left_child node) size)) [
        | inl inner ↦
            rw (locate, elsewhere, inner)
              (choice-IsSound
                (elim (leb (key (a (left_child node))) (key elem)) [
                  | true ↦ locate key equal depth a size (left_child node) elem
                  | false ↦ size
                ])
                (elim (ltb (right_child node) size && leb (key (a (right_child node))) (key elem)) [
                  | true ↦ locate key equal depth a size (right_child node) elem
                  | false ↦ 0
                ])
                (branch-IsSound (leb (key (a (left_child node))) (key elem))
                  (locate key equal depth a size (left_child node) elem)
                  (locate-IsSound depth (left_child node)))
                (right-IsSound
                  (ltb (right_child node) size && leb (key (a (right_child node))) (key elem))
                  (locate key equal depth a size (right_child node) elem)
                  (λ t. locate-IsSound depth (right_child node))))
        | inr leaf ↦ rw (locate, elsewhere, leaf) (λ h. absurd (omega arith))
      ]
    ]

    -- The node that `locate` answers, if it is one of the queue, has an element equal to the one looked
    -- for.
    pub locate-equal :
        (depth node : ℕ)
        → locate key equal depth a size node elem < size
        → equal elem (a (locate key equal depth a size node elem)) ≡ true
    locate-equal depth node found = locate-IsSound depth node found

  remove-downheap :
      (q : PriorityQueue T) (elem : T) (loc : ℕ) (b : ℕ → T)
      → locate key equal (q.a_size + 1) q.a_elems q.a_size 0 elem ≡ loc
      → ltb loc q.a_size ≡ true
      → (ltb 0 (decrement q.a_size) && ltb loc (decrement q.a_size)) ≡ true
      → downheap key q.a_elems (decrement q.a_size) loc (q.a_elems (decrement q.a_size)) ≡ some b
      → remove key equal q elem ≡ some (true, record q { a_size = decrement q.a_size; a_elems = b })
  unfolding remove
  remove-downheap q elem loc b e in_queue inner d = rw (remove, e, in_queue, inner, d) refl

  -- An element is removed from a leaf of a valid queue, and the last element, which takes its place,
  -- is smaller than the parent of that leaf: `remove` succeeds, and the queue is no heap any more.
  pub remove-breaks_order :
      (q : PriorityQueue T) (elem : T) (loc : ℕ)
      → IsValid key q
      → locate key equal (q.a_size + 1) q.a_elems q.a_size 0 elem ≡ loc
      → 0 < loc
      → loc + 1 < q.a_size
      → q.a_size ≤ 2 * loc + 2
      → key (q.a_elems (q.a_size - 1)) < key (q.a_elems (above loc))
      → (r : PriorityQueue T) × (remove key equal q elem ≡ some (true, r))
        × (r.a_size + 1 ≡ q.a_size)
        × ¬ IsHeap key r.a_elems r.a_size
  remove-breaks_order q elem loc v e pos inside leaf less =
      let n = decrement q.a_size in
      let last : n ≡ q.a_size - 1 = omega (arith, v.allocated, v.fits) in
      let x = q.a_elems n in
      let stay =
        down_loop-leaf key n x n q.a_elems loc (omega (arith, v.allocated, v.fits)) (omega arith)
          (omega arith) (omega arith) in
      let smaller : key x < key (q.a_elems (above loc)) =
        omega (arith, ap (λ i. key (q.a_elems i)) last, less) in
      (
        record q { a_size = n; a_elems = update q.a_elems loc x },
        remove-downheap q elem loc (update q.a_elems loc x) e (ground (arith, inside))
            (ground arith)
            (downheap-down_loop key n x q.a_elems q.a_elems loc loc (rw (add-one n) stay)),
        omega arith,
        λ heap. ground (arith, heap loc pos (omega arith), smaller, pos),
      )

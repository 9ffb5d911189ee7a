-- ===== src/Plt/PriorityQueue/Cells.antt =====
-- Order and contents of the cells of a heap.
use acplt_ks.Base.{ℕ, zero, suc, ◌-◌, ◌/◌, ◌^◌, ◌<◌, ◌≤◌, ◌≡◌, arith}
use acplt_ks.Plt.PriorityQueue.{parent}

-- the parent of a node that is not the root
abbrev pub above : ℕ → ℕ
above i = (i - 1) / 2

pub parent-above : (i : ℕ) → 0 < i → i < 2 ^ 64 → parent i ≡ above i
parent-above i h k = omega arith

module _ {T : Type 0} (key : T → ℕ) where
  -- no node of the first `n` is smaller than its parent
  abbrev pub IsHeap : (ℕ → T) → ℕ → Type 0
  IsHeap a n = (i : ℕ) → 0 < i → i < n → key (a (above i)) ≤ key (a i)

  -- In a heap the root is the smallest; by as many steps up as there are.
  root-least :
      (a : ℕ → T) (n : ℕ) → IsHeap a n → (steps i : ℕ) → i ≤ steps → i < n → key (a 0) ≤ key (a i)
  root-least a n heap zero zero le lt = omega arith
  root-least a n heap zero (suc i) le lt = elim le [ ]
  root-least a n heap (suc steps) zero le lt = omega arith
  root-least a n heap (suc steps) (suc i) le lt = omega (
    arith,
    heap (suc i) (omega arith) lt,
    root-least a n heap steps (above (suc i)) (omega arith) (omega arith),
  )

  pub IsHeap-root : (a : ℕ → T) (n i : ℕ) → IsHeap a n → i < n → key (a 0) ≤ key (a i)
  IsHeap-root a n i heap lt = root-least a n heap i i (omega arith) lt

-- ===== src/Plt/PriorityQueue/Tests.antt =====
-- Runs of the queue of numbers, and the theorems about the queue at concrete queues.
use acplt_ks.Base.{
  ℕ, zero, suc, ◌+◌, ◌≤◌, ◌≡◌, refl, Bool, true, ◌||◌, arith, ◌∷◌, [], List, ◌==◌, leb, ltb, Option,
  some, none, get_or,
}
use acplt_ks.Base.Tables.{passes, passes-at}
use acplt_ks.Plt.PriorityQueue.{PriorityQueue, add, remove_first, remove, locate}
use acplt_ks.Plt.PriorityQueue.Cells.{IsHeap, above}
use acplt_ks.Base.Cells.{bit}
use acplt_ks.Plt.PriorityQueue.Operations.{IsValid, add_lem, remove_first_lem, contents}
use acplt_ks.Plt.PriorityQueue.Removal.{remove-breaks_order}

abbrev self : ℕ → ℕ
self x = x

abbrev equal : ℕ → ℕ → Bool
equal x y = x == y

abbrev all_good : ℕ → Bool
all_good n = true

-- a queue of numbers whose array is full
abbrev queue_of : ℕ → List ℕ → PriorityQueue ℕ
queue_of n xs = record { a_growsize = 1; a_capacity = n; a_size = n; a_elems = λ i. get_or xs i 0 }

-- the cells of a queue
abbrev cells : ℕ → PriorityQueue ℕ → List ℕ
cells zero q = []
cells (suc n) q = q.a_elems n ∷ cells n q

abbrev seven : PriorityQueue ℕ
seven = queue_of 7 (1 ∷ 10 ∷ 2 ∷ 11 ∷ 12 ∷ 3 ∷ 4 ∷ [])

abbrev after : Option (Bool × PriorityQueue ℕ) → List ℕ
after none = []
after (some r) = cells r.1.a_size r.1

-- 11 is removed, and 4 takes its place below 10
removed : after (remove self equal seven 11) ≡ 3 ∷ 12 ∷ 4 ∷ 2 ∷ 10 ∷ 1 ∷ []
unfolding remove
removed = refl

added : after (add self all_good 0 seven 0) ≡ 11 ∷ 4 ∷ 3 ∷ 12 ∷ 10 ∷ 2 ∷ 1 ∷ 0 ∷ []
unfolding add
added = refl

abbrev ordered : ℕ → Bool
ordered i = i == 0 || leb (seven.a_elems (above i)) (seven.a_elems i)

seven-IsValid : IsValid self seven
unfolding passes
seven-IsValid = record {
  heap = λ i. λ pos. λ lt. ground (arith, passes-at ordered 7 refl i lt);
  allocated = omega arith;
  fits = omega arith;
}

-- the numbers below 3
abbrev small : ℕ → Bool
small x = ltb x 3

add_lem_example :
    (r : PriorityQueue ℕ) × (add self all_good 0 seven 0 ≡ some (true, r))
    × IsValid self r
    × (r.a_size ≡ 8)
    × (contents self small r ≡ contents self small seven + bit (small 0))
add_lem_example =
    add_lem self small all_good 0 seven 0 seven-IsValid (omega arith) (omega arith) refl

remove_first_lem_example :
    (x : ℕ) × (r : PriorityQueue ℕ) × (remove_first self seven ≡ some (x, r))
    × IsValid self r
    × (r.a_size + 1 ≡ 7)
    × (contents self small r + bit (small x) ≡ contents self small seven)
    × (x ≤ 12)
remove_first_lem_example = remove_first_lem self small seven 4 seven-IsValid (omega arith)

remove-breaks_order_example :
    (r : PriorityQueue ℕ) × (remove self equal seven 11 ≡ some (true, r))
    × (r.a_size + 1 ≡ 7)
    × ¬ IsHeap self r.a_elems r.a_size
unfolding locate
remove-breaks_order_example =
    remove-breaks_order self equal seven 11 3 seven-IsValid refl (omega arith) (omega arith)
      (omega arith) (omega arith)

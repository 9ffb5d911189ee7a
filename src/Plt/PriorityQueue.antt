-- ===== src/Plt/PriorityQueue.antt =====
-- `PltPriorityQueue`: plt/include/plt/priorityqueue.h and plt/include/plt/priorityqueue_impl.h. The
-- elements of the template's type are compared by a number, their key; `==` is a parameter of its
-- own, as is the element that `new T[cap]` fills an array with. `a_elems` is a function of the index;
-- the queue owns the cells below `a_capacity`.
pub mod Cells
pub mod Upheap
pub mod Downheap
pub mod Operations
pub mod Removal
mod Tests
use acplt_ks.Base.{
  ℕ, zero, suc, ◌+◌, ◌-◌, ◌*◌, ◌/◌, ◌%◌, ◌^◌, Bool, true, false, not, ◌&&◌, Option, none, some,
  if◌then◌else◌, leb, ltb, ◌==◌,
}
use acplt_ks.Base.Cells.{update}

-- the wrapping arithmetic of `size_t`
abbrev pub left_child : ℕ → ℕ
left_child i = (2 * i + 1) % 2 ^ 64

abbrev pub right_child : ℕ → ℕ
right_child i = (2 * i + 2) % 2 ^ 64

abbrev pub decrement : ℕ → ℕ
decrement i = (i + (2 ^ 64 - 1)) % 2 ^ 64

abbrev pub parent : ℕ → ℕ
parent i = decrement i / 2

module _ (T : Type 0) where
  pub record PriorityQueue : Type 0 where
    pub a_growsize : ℕ
    pub a_capacity : ℕ
    pub a_size : ℕ
    pub a_elems : ℕ → T

module _ {T : Type 0} where
  -- `grow`, with what `new` answers for so many elements
  pub grow : (ℕ → Bool) → T → PriorityQueue T → ℕ → Option (PriorityQueue T)
  grow alloc fresh q cap =
      if alloc cap
      then some (record q {
        a_capacity = cap;
        a_elems = λ i. if ltb i q.a_size then q.a_elems i else fresh;
      })
      else none

  -- The constructor, which ignores what `grow` answers.
  pub new_queue : (ℕ → Bool) → T → ℕ → PriorityQueue T
  unfolding grow
  new_queue alloc fresh growsize =
      let q : PriorityQueue T = record {
        a_growsize = growsize;
        a_capacity = 0;
        a_size = 0;
        a_elems = λ i. fresh;
      } in
      elim (grow alloc fresh q growsize) [ none ↦ q | some grown ↦ grown ]

module _ {T : Type 0} (key : T → ℕ) where
  -- the smaller child of `k`, as `downheap` chooses it
  pub smaller_child : (ℕ → T) → ℕ → ℕ → ℕ
  smaller_child a size k =
      let lc = left_child k in
      let rc = (lc + 1) % 2 ^ 64 in if ltb rc size && ltb (key (a rc)) (key (a lc)) then rc else lc

  -- the loop of `downheap` in so many rounds: the array and the last `k`
  pub down_loop : ℕ → (ℕ → T) → ℕ → ℕ → T → Option ((ℕ → T) × ℕ)
  unfolding smaller_child
  down_loop zero a size k v = none
  down_loop (suc rounds) a size k v =
      let j = smaller_child a size k in
      let rest = down_loop rounds (update a k (a j)) size j v in
      if leb k (parent (decrement size))
      then if leb (key v) (key (a j)) then some (a, k) else rest
      else some (a, k)

  -- `downheap`, with as many rounds as there are elements, and one more
  pub downheap : (ℕ → T) → ℕ → ℕ → T → Option (ℕ → T)
  unfolding down_loop
  downheap a size k v = elim (down_loop (size + 1) a size k v) [
    | none ↦ none
    | some (b, i) ↦ some (update b i v)
  ]

  -- the loop of `add` in so many rounds: the array and the insertion point
  pub up_loop : ℕ → (ℕ → T) → ℕ → T → Option ((ℕ → T) × ℕ)
  up_loop zero a i x = none
  up_loop (suc rounds) a i x =
      let j = parent i in
      let rest = up_loop rounds (update a i (a j)) j x in
      if ltb 0 i then if ltb (key x) (key (a j)) then rest else some (a, i) else some (a, i)

  -- `add` behind the growing, with as many rounds as there are elements, and one more
  pub insert : PriorityQueue T → T → Option (PriorityQueue T)
  unfolding up_loop
  insert q x = elim (up_loop (q.a_size + 1) q.a_elems q.a_size x) [
    | none ↦ none
    | some (b, i) ↦ some (record q { a_size = q.a_size + 1; a_elems = update b i x })
  ]

  -- `add`: the answer and the queue
  pub add : (ℕ → Bool) → T → PriorityQueue T → T → Option (Bool × PriorityQueue T)
  unfolding grow insert
  add alloc fresh q x =
      elim (if q.a_size == q.a_capacity
        then grow alloc fresh q (q.a_capacity + q.a_growsize)
        else some q) [
          | none ↦ some (false, q)
          | some grown ↦ elim (insert grown x) [ none ↦ none | some r ↦ some (true, r) ]
        ]

  -- `removeFirst`: the element and the queue
  pub remove_first : PriorityQueue T → Option (T × PriorityQueue T)
  unfolding downheap
  remove_first q =
      let x = q.a_elems 0 in
      let n = decrement q.a_size in
      if ltb 0 n
      then elim (downheap q.a_elems n 0 (q.a_elems n)) [
        | none ↦ none
        | some b ↦ some (x, record q { a_size = n; a_elems = b })
      ]
      else some (x, record q { a_size = n })

  module _ (equal : T → T → Bool) where
    -- `locate`, with as many nested calls as the depth given
    pub locate : ℕ → (ℕ → T) → ℕ → ℕ → T → ℕ
    locate zero a size node elem = size
    locate (suc depth) a size node elem =
        let lc = left_child node in
        let rc = right_child node in
        elim (equal elem (a node)) [
          | true ↦ node
          | false ↦ elim (ltb lc size) [
            | false ↦ size
            | true ↦
                let lfound : ℕ = elim (leb (key (a lc)) (key elem)) [
                  | true ↦ locate depth a size lc elem
                  | false ↦ size
                ] in
                let rfound : ℕ = elim (ltb rc size && leb (key (a rc)) (key elem)) [
                  | true ↦ locate depth a size rc elem
                  | false ↦ 0
                ] in
                if ltb lfound size then lfound else if not (rfound == 0) then rfound else size
          ]
        ]

    -- `remove`: the answer and the queue
    pub remove : PriorityQueue T → T → Option (Bool × PriorityQueue T)
    unfolding locate downheap
    remove q elem =
        let loc = locate (q.a_size + 1) q.a_elems q.a_size 0 elem in
        let n = decrement q.a_size in
        if not (ltb loc q.a_size)
        then some (false, q)
        else if ltb 0 n && ltb loc n
        then elim (downheap q.a_elems n loc (q.a_elems n)) [
          | none ↦ none
          | some b ↦ some (true, record q { a_size = n; a_elems = b })
        ]
        else some (true, record q { a_size = n })

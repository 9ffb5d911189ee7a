-- ===== src/Plt/LinkedList.antt =====
-- `PltList_base`, `PltList`, `PltIList` and their iterators: plt/include/plt/list.h,
-- plt/include/plt/list_impl.h and plt/src/list.cpp. The nodes stand in a store at their addresses;
-- `none` in it is memory that is not allocated, and an operation that reads or writes there, or through
-- a null pointer, answers `none`. The operator `new` is a parameter of the operations that call it: an
-- address, or none.
pub mod Links
pub mod Inserting
pub mod Unlinking
pub mod Values
pub mod Freeing
mod Tests
use acplt_ks.Base.{
  ℕ, zero, suc, ◌+◌, Bool, true, false, List, [], ◌∷◌, Option, none, some, if◌then◌else◌,
}
use acplt_ks.Base.Cells.{update}

-- `PltListNode_base`, and the value of `PltListNode`
pub record Node (A : Type 0) : Type 0 where
  pub prev : Option ℕ
  pub next : Option ℕ
  pub info : A

-- `PltList_base`, with the store
pub record PltList (A : Type 0) : Type 0 where
  pub first : Option ℕ
  pub last : Option ℕ
  pub nodes : ℕ → Option (Node A)

infixl 5 ◌>>=◌
abbrev pub ◌>>=◌ : {A B : Type 0} → Option A → (A → Option B) → Option B
none >>= f = none
some a >>= f = f a

abbrev pub is_null : Option ℕ → Bool
is_null none = true
is_null (some p) = false

module _ {A : Type 0} where
  -- writes to a node
  abbrev pub put : PltList A → ℕ → Option (Node A) → PltList A
  put m p n = record m { nodes = update m.nodes p n }

  abbrev pub set_prev : PltList A → ℕ → Option ℕ → Option (PltList A)
  set_prev m p v = do n ← m.nodes p; some (put m p (some (record n { prev = v })))

  abbrev pub set_next : PltList A → ℕ → Option ℕ → Option (PltList A)
  set_next m p v = do n ← m.nodes p; some (put m p (some (record n { next = v })))

  -- `isEmpty`
  abbrev pub is_empty : PltList A → Bool
  is_empty m = is_null m.first

  -- the loop of `size`, in so many rounds
  unfoldable pub size_loop : ℕ → (ℕ → Option (Node A)) → Option ℕ → ℕ → Option ℕ
  size_loop rounds nodes none res = some res
  size_loop zero nodes (some p) res = none
  size_loop (suc rounds) nodes (some p) res = do
    n ← nodes p
    size_loop rounds nodes n.next (res + 1)

  abbrev pub size : ℕ → PltList A → Option ℕ
  size rounds m = size_loop rounds m.nodes m.first 0

  -- `addFirst` of a node
  unfoldable pub add_first : PltList A → ℕ → Option (PltList A)
  add_first m p = do
    t ← set_prev m p none
    u ← elim t.first [ none ↦ some t | some f ↦ set_prev t f (some p) ]
    v ← set_next u p u.first
    some (record v { first = some p; last = elim v.last [ none ↦ some p | some l ↦ some l ] })

  -- `addLast` of a node
  unfoldable pub add_last : PltList A → ℕ → Option (PltList A)
  add_last m p = do
    t ← set_next m p none
    u ← elim t.last [ none ↦ some t | some l ↦ set_next t l (some p) ]
    v ← set_prev u p u.last
    some (record v { last = some p; first = elim v.first [ none ↦ some p | some f ↦ some f ] })

  -- `remove` of a node
  unfoldable pub remove_node : PltList A → ℕ → Option (PltList A)
  remove_node m p = do
    n ← m.nodes p
    t ← elim n.prev [ none ↦ some (record m { first = n.next }) | some q ↦ set_next m q n.next ]
    u ← elim n.next [ none ↦ some (record t { last = n.prev }) | some r ↦ set_prev t r n.prev ]
    v ← set_prev u p none
    set_next v p none

  -- `removeFirst` and `removeLast`: the node and the list
  unfoldable pub remove_first_node : PltList A → Option (ℕ × PltList A)
  unfolding remove_node
  remove_first_node m = do p ← m.first; t ← remove_node m p; some (p, t)

  unfoldable pub remove_last_node : PltList A → Option (ℕ × PltList A)
  unfolding remove_node
  remove_last_node m = do p ← m.last; t ← remove_node m p; some (p, t)

  -- `new` and `delete` of a node
  abbrev pub construct : PltList A → ℕ → A → PltList A
  construct m p a = put m p (some (record { prev = none; next = none; info = a }))

  abbrev pub delete : PltList A → ℕ → PltList A
  delete m p = put m p none

  -- `PltList<T>::addFirst` and `PltList<T>::addLast`
  unfoldable pub add_first_value : Option ℕ → PltList A → A → Option (Bool × PltList A)
  unfolding add_first
  add_first_value none m a = some (false, m)
  add_first_value (some p) m a = do t ← add_first (construct m p a) p; some (true, t)

  unfoldable pub add_last_value : Option ℕ → PltList A → A → Option (Bool × PltList A)
  unfolding add_last
  add_last_value none m a = some (false, m)
  add_last_value (some p) m a = do t ← add_last (construct m p a) p; some (true, t)

  -- `PltList<T>::removeFirst` and `PltList<T>::removeLast`
  unfoldable pub remove_first_value : PltList A → Option (A × PltList A)
  unfolding remove_first_node
  remove_first_value m = do
    r ← remove_first_node m
    n ← r.1.nodes r.0
    some (n.info, delete r.1 r.0)

  unfoldable pub remove_last_value : PltList A → Option (A × PltList A)
  unfolding remove_last_node
  remove_last_value m = do r ← remove_last_node m; n ← r.1.nodes r.0; some (n.info, delete r.1 r.0)

  -- the loop of `PltList<T>::remove`, in so many rounds
  unfoldable pub remove_loop :
      (A → A → Bool) → ℕ → Option ℕ → PltList A → A → Option (Bool × PltList A)
  unfolding remove_node
  remove_loop same rounds none m a = some (false, m)
  remove_loop same zero (some p) m a = none
  remove_loop same (suc rounds) (some p) m a = do
    n ← m.nodes p
    if same n.info a
        then (do t ← remove_node m p; some (true, delete t p))
        else remove_loop same rounds n.next m a

  abbrev pub remove_value : (A → A → Bool) → ℕ → PltList A → A → Option (Bool × PltList A)
  remove_value same rounds m a = remove_loop same rounds m.first m a

  -- the destructor, in so many rounds
  unfoldable pub remove_all_nodes : ℕ → PltList A → Option (PltList A)
  unfolding remove_first_value
  remove_all_nodes zero m = if is_empty m then some m else none
  remove_all_nodes (suc rounds) m =
      if is_empty m then some m else (do r ← remove_first_value m; remove_all_nodes rounds r.1)

  -- the iterators: an iterator is the pointer to the current node
  abbrev pub to_start : PltList A → Option ℕ
  to_start m = m.first

  abbrev pub to_end : PltList A → Option ℕ
  to_end m = m.last

  abbrev pub step_forward : PltList A → Option ℕ → Option (Option ℕ)
  step_forward m curr_elem = do p ← curr_elem; n ← m.nodes p; some n.next

  abbrev pub step_backward : PltList A → Option ℕ → Option (Option ℕ)
  step_backward m curr_elem = do p ← curr_elem; n ← m.nodes p; some n.prev

  abbrev pub get : PltList A → Option ℕ → Option A
  get m curr_elem = do p ← curr_elem; n ← m.nodes p; some n.info

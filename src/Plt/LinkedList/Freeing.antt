-- ===== src/Plt/LinkedList/Freeing.antt =====
-- The destructor `PltList::~PltList`, and the memory that it frees.
use acplt_ks.Base.{
  ℕ, zero, suc, ◌≤◌, ◌≡◌, ◌≢◌, refl, ap, sym, ◌∙◌, List, [], ◌∷◌, Option, none, some, arith, All,
  subst, length, if◌then◌else◌, some_cancel,
}
use acplt_ks.Base.Cells.{update_here, update_there}
use acplt_ks.Base.Outcomes.{On}
use acplt_ks.Plt.LinkedList.{
  Node, PltList, ◌>>=◌, put, set_prev, set_next, remove_node, delete, remove_first_value,
  remove_all_nodes, is_null,
}
use acplt_ks.Plt.LinkedList.Links.{Absent, IsList, head_of, linked}
use acplt_ks.Plt.LinkedList.Values.{remove_first_value-deletes}

On-then :
    {A B : Type 0} (Q : A → Type 0) (P : B → Type 0) (o : Option A) (f : A → Option B)
    → On Q o
    → ((a : A) → Q a → On P (f a))
    → On P (o >>= f)
unfolding On
On-then Q P none f h g = tt
On-then Q P (some a) f h g = g a h

On-any : {A : Type 0} (o : Option A) → On (λ a. Unit) o
unfolding On
On-any none = tt
On-any (some a) = tt

module _ {A : Type 0} (i : ℕ) (node : Option (Node A)) where
  -- what stands at an address
  abbrev There : PltList A → Type 0
  There t = t.nodes i ≡ node

  set_prev-There :
      (m : PltList A) (p : ℕ) (v : Option ℕ) → p ≢ i → There m → On There (set_prev m p v)
  unfolding On
  set_prev-There m p v other there =
      On-then (λ n. Unit) There (m.nodes p) (λ n. some (put m p (some (record n { prev = v }))))
        (On-any (m.nodes p))
        (λ n.
          λ _. update_there m.nodes p i (some (record n { prev = v })) (λ e. other (sym e)) ∙ there)

  set_next-There :
      (m : PltList A) (p : ℕ) (v : Option ℕ) → p ≢ i → There m → On There (set_next m p v)
  unfolding On
  set_next-There m p v other there =
      On-then (λ n. Unit) There (m.nodes p) (λ n. some (put m p (some (record n { next = v }))))
        (On-any (m.nodes p))
        (λ n.
          λ _. update_there m.nodes p i (some (record n { next = v })) (λ e. other (sym e)) ∙ there)

  -- the first node of a list is removed: only the second one is written to
  remove_node-There :
      (m : PltList A) (p : ℕ) (after : Option ℕ) (a : A)
      → m.nodes p ≡ linked none after a
      → p ≢ i
      → after ≢ some i
      → There m
      → On There (remove_node m p)
  unfolding remove_node On
  remove_node-There m p after a e other behind there =
      let head_off : PltList A = record m { first = after } in
      subst
        (λ o. On There (
          o >>= λ n.
          (elim n.prev [ none ↦ some (record m { first = n.next }) | some q ↦ set_next m q n.next ])
          >>= λ t.
              (elim n.next [
                | none ↦ some (record t { last = n.prev })
                | some r ↦ set_prev t r n.prev
              ])
              >>= λ u. set_prev u p none >>= λ w. set_next w p none))
        (sym e)
        (On-then There There
          (elim after [
            | none ↦ some (record head_off { last = none })
            | some r ↦ set_prev head_off r none
          ])
          (λ u. set_prev u p none >>= λ w. set_next w p none) (second after behind)
          (λ u. λ held.
            On-then There There (set_prev u p none) (λ w. set_next w p none)
              (set_prev-There u p none other held)
              (λ w. λ held'. set_next-There w p none other held')))
    where
      second :
          (k : Option ℕ)
          → k ≢ some i
          → On There (elim k [
            | none ↦ some (record m { first = after; last = none })
            | some r ↦ set_prev (record m { first = after }) r none
          ])
      second none h = there
      second (some r) h =
          set_prev-There (record m { first = after }) r none (λ e. h (ap some e)) there

module _ {A : Type 0} where
  not_head : (i : ℕ) (xs : List (ℕ × A)) → Absent i xs → head_of xs none ≢ some i
  not_head i [] absent = λ e. absurd (cc e)
  not_head i (x ∷ xs) absent = λ e. absent.0 (some_cancel e)

  -- the first node is freed, and no memory outside the list is changed
  remove_first_value-frees :
      (m : PltList A) (x : ℕ × A) (xs : List (ℕ × A))
      → IsList m (x ∷ xs)
      → (t : PltList A) × (remove_first_value m ≡ some (x.1, t))
        × IsList t xs
        × (t.nodes x.0 ≡ none)
        × ((i : ℕ) → Absent i (x ∷ xs) → t.nodes i ≡ m.nodes i)
  unfolding On
  remove_first_value-frees m x xs list =
      let (t, removed, e, left) = remove_first_value-deletes m x xs list in
      (
        delete t x.0,
        e,
        left,
        update_here t.nodes x.0 none,
        λ i. λ absent.
            update_there t.nodes x.0 i none (λ e. absent.0 (sym e))
            ∙ subst (On (There i (m.nodes i))) removed (
                remove_node-There i (m.nodes i) m x.0 (head_of xs none) x.1 list.2.0 absent.0
                  (not_head i xs absent.1) refl),
      )

  remove_all_nodes-more :
      (rounds : ℕ) (m t : PltList A) (q : ℕ) (a : A)
      → m.first ≡ some q
      → remove_first_value m ≡ some (a, t)
      → remove_all_nodes (suc rounds) m ≡ remove_all_nodes rounds t
  unfolding remove_all_nodes
  remove_all_nodes-more rounds m t q a e e' =
      ap
        (λ k.
          if is_null k then some m else (remove_first_value m >>= λ r. remove_all_nodes rounds r.1))
        e
      ∙ ap (λ o. o >>= λ r. remove_all_nodes rounds r.1) e'

  remove_all_nodes-none :
      (rounds : ℕ) (m : PltList A) → m.first ≡ none → remove_all_nodes rounds m ≡ some m
  unfolding remove_all_nodes
  remove_all_nodes-none zero m e = ap (λ k. if is_null k then some m else none) e
  remove_all_nodes-none (suc rounds) m e =
      ap
        (λ k.
          if is_null k then some m else (remove_first_value m >>= λ r. remove_all_nodes rounds r.1))
        e

  -- The destructor returns in as many rounds as the list has nodes. The list is empty then, all its
  -- nodes are freed, and no other memory has changed.
  pub remove_all_nodes-empties :
      (rounds : ℕ) (m : PltList A) (xs : List (ℕ × A))
      → IsList m xs
      → length xs ≤ rounds
      → (t : PltList A) × (remove_all_nodes rounds m ≡ some t)
        × IsList t []
        × All (λ x. t.nodes x.0 ≡ none) xs
        × ((i : ℕ) → Absent i xs → t.nodes i ≡ m.nodes i)
  remove_all_nodes-empties rounds m [] list enough =
      (m, remove_all_nodes-none rounds m list.0, list, tt, λ i. λ absent. refl)
  remove_all_nodes-empties zero m (x ∷ xs) list enough = absurd (omega (arith, enough))
  remove_all_nodes-empties (suc rounds) m (x ∷ xs) list enough =
      let (t, e, left, freed, elsewhere) = remove_first_value-frees m x xs list in
      let (u, runs, empty, all, elsewhere') =
        remove_all_nodes-empties rounds t xs left (omega (arith, enough)) in
      (
        u,
        remove_all_nodes-more rounds m t x.0 x.1 list.0 e ∙ runs,
        empty,
        (elsewhere' x.0 list.3.0 ∙ freed, all),
        λ i. λ absent. elsewhere' i absent.1 ∙ elsewhere i absent,
      )

-- ===== src/Plt/LinkedList/Values.antt =====
-- The lists of values: what `PltList<T>` and `PltIList` do with nodes that they allocate and delete.
use mathlib.Core.Option.{none-ne-some}
use mathlib.Core.List.{append_assoc, append-nil}
use acplt_ks.Base.{
  ℕ, zero, suc, ◌+◌, ◌≤◌, ◌≡◌, ◌≢◌, refl, ap, sym, ◌∙◌, Bool, true, false, inl, inr, List, [], ◌∷◌,
  ◌++◌, Option, none, some, arith, subst, length, if◌then◌else◌, Bool-cases,
}
use acplt_ks.Base.Cells.{update_here}
use acplt_ks.Plt.LinkedList.{
  Node, PltList, ◌>>=◌, put, remove_node, remove_first_node, remove_last_node, construct, delete,
  size, size_loop, add_first, add_last, add_first_value, add_last_value, remove_first_value,
  remove_last_value, remove_loop, remove_value,
}
use acplt_ks.Plt.LinkedList.Links.{
  Ends, Ends-bind, Links, Absent, IsList, head_of, linked, last_of-append, Links-update,
  Links-split, Distinct-middle, All-join,
}
use acplt_ks.Plt.LinkedList.Inserting.{add_first-IsList, add_last-IsList}
use acplt_ks.Plt.LinkedList.Unlinking.{remove_node-Without}

-- what a search for an equal value finds, and what is left without it
abbrev pub contains : {A : Type 0} → (A → A → Bool) → A → List (ℕ × A) → Bool
contains same a [] = false
contains same a (x ∷ xs) = if same x.1 a then true else contains same a xs

abbrev pub drop_equal : {A : Type 0} → (A → A → Bool) → A → List (ℕ × A) → List (ℕ × A)
drop_equal same a [] = []
drop_equal same a (x ∷ xs) = if same x.1 a then xs else x ∷ drop_equal same a xs

module _ {A : Type 0} where
  -- the nodes of a list are allocated
  fresh-Absent :
      (nodes : ℕ → Option (Node A)) (p : ℕ) (before : Option ℕ) (xs : List (ℕ × A))
      (after : Option ℕ)
      → nodes p ≡ none
      → Links nodes before xs after
      → Absent p xs
  fresh-Absent nodes p before [] after free links = tt
  fresh-Absent nodes p before (x ∷ xs) after free links = (
    (λ e.
        none-ne-some (record { prev = before; next = head_of xs after; info = x.1 })
          (sym free ∙ ap nodes (sym e) ∙ links.0)),
    fresh-Absent nodes p (some x.0) xs after free links.1,
  )

  put-IsList :
      (m : PltList A) (p : ℕ) (n : Option (Node A)) (xs : List (ℕ × A))
      → Absent p xs
      → IsList m xs
      → IsList (put m p n) xs
  put-IsList m p n xs absent list =
      (list.0, list.1, Links-update m.nodes p n none xs none absent list.2, list.3)

  -- Where `new` gives a node, `PltList::addFirst` returns true, and the value is in front of the list.
  pub add_first_value-IsList :
      (m : PltList A) (xs : List (ℕ × A)) (p : ℕ) (a : A)
      → IsList m xs
      → m.nodes p ≡ none
      → Ends (λ r. (r.0 ≡ true) × IsList r.1 ((p, a) ∷ xs)) (add_first_value (some p) m a)
  unfolding add_first_value
  add_first_value-IsList m xs p a list free =
      let absent = fresh-Absent m.nodes p none xs none free list.2 in
      Ends-bind (λ t. IsList t ((p, a) ∷ xs)) (λ r. (r.0 ≡ true) × IsList r.1 ((p, a) ∷ xs))
        (add_first (construct m p a) p) (λ t. some (true, t))
        (add_first-IsList p a (construct m p a) xs none none
          (put-IsList m p (linked none none a) xs absent list)
          (update_here m.nodes p (linked none none a)) absent)
        (λ t. λ held. ((true, t), refl, (refl, held)))

  -- Where `new` gives a node, `PltList::addLast` returns true, and the value is at the end of the list.
  pub add_last_value-IsList :
      (m : PltList A) (xs : List (ℕ × A)) (p : ℕ) (a : A)
      → IsList m xs
      → m.nodes p ≡ none
      → Ends (λ r. (r.0 ≡ true) × IsList r.1 (xs ++ ((p, a) ∷ []))) (add_last_value (some p) m a)
  unfolding add_last_value
  add_last_value-IsList m xs p a list free =
      let absent = fresh-Absent m.nodes p none xs none free list.2 in
      Ends-bind (λ t. IsList t (xs ++ ((p, a) ∷ [])))
        (λ r. (r.0 ≡ true) × IsList r.1 (xs ++ ((p, a) ∷ []))) (add_last (construct m p a) p)
        (λ t. some (true, t))
        (add_last-IsList p a (construct m p a) xs none none
          (put-IsList m p (linked none none a) xs absent list)
          (update_here m.nodes p (linked none none a)) absent)
        (λ t. λ held. ((true, t), refl, (refl, held)))

  -- a node in the middle is removed and deleted
  remove_node-deletes :
      (m : PltList A) (xs : List (ℕ × A)) (x : ℕ × A) (ys : List (ℕ × A))
      → IsList m (xs ++ (x ∷ ys))
      → (t : PltList A) × (remove_node m x.0 ≡ some t)
        × (t.nodes x.0 ≡ linked none none x.1)
        × IsList (delete t x.0) (xs ++ ys)
  remove_node-deletes m xs x ys list =
      let (absent, behind, _) = Distinct-middle xs x ys list.3 in
      let (t, e, without) = remove_node-Without x.0 x.1 m xs ys list in
      (
        t,
        e,
        without.1,
        put-IsList t x.0 none (xs ++ ys) (All-join (λ z. z.0 ≢ x.0) xs ys absent behind) without.0,
      )

  -- a removed node with the list, and its value with the list without it
  abbrev paired : ℕ → PltList A → Option (ℕ × PltList A)
  paired p t = some (p, t)

  abbrev taken : Option (ℕ × PltList A) → Option (A × PltList A)
  taken o = do r ← o; n ← r.1.nodes r.0; some (n.info, delete r.1 r.0)

  pub remove_first_value-deletes :
      (m : PltList A) (x : ℕ × A) (xs : List (ℕ × A))
      → IsList m (x ∷ xs)
      → (t : PltList A) × (remove_node m x.0 ≡ some t)
        × (remove_first_value m ≡ some (x.1, delete t x.0))
        × IsList (delete t x.0) xs
  unfolding remove_first_value remove_first_node
  remove_first_value-deletes m x xs list =
      let (t, e, alone, left) = remove_node-deletes m [] x xs list in
      (
        t,
        e,
        ap (λ o. taken (o >>= λ p. remove_node m p >>= paired p)) list.0
            ∙ ap (λ o. taken (o >>= paired x.0)) e
            ∙ ap (λ o. o >>= λ n. some (n.info, delete t x.0)) alone,
        left,
      )

  -- `PltList::removeFirst` of a list that is not empty returns its first value, and the others are left.
  pub remove_first_value-IsList :
      (m : PltList A) (x : ℕ × A) (xs : List (ℕ × A))
      → IsList m (x ∷ xs)
      → Ends (λ r. (r.0 ≡ x.1) × IsList r.1 xs) (remove_first_value m)
  remove_first_value-IsList m x xs list =
      let (t, _, e, left) = remove_first_value-deletes m x xs list in
      ((x.1, delete t x.0), e, (refl, left))

  -- `PltList::removeLast` of a list that is not empty returns its last value, and the others are left.
  pub remove_last_value-IsList :
      (m : PltList A) (xs : List (ℕ × A)) (x : ℕ × A)
      → IsList m (xs ++ (x ∷ []))
      → Ends (λ r. (r.0 ≡ x.1) × IsList r.1 xs) (remove_last_value m)
  unfolding remove_last_value remove_last_node
  remove_last_value-IsList m xs x list =
      let (t, e, alone, left) = remove_node-deletes m xs x [] list in
      (
        (x.1, delete t x.0),
        ap (λ o. taken (o >>= λ p. remove_node m p >>= paired p))
              (list.1 ∙ last_of-append none xs (x ∷ []))
            ∙ ap (λ o. taken (o >>= paired x.0)) e
            ∙ ap (λ o. o >>= λ n. some (n.info, delete t x.0)) alone,
        (refl, subst (IsList (delete t x.0)) (append-nil xs) left),
      )

  size_loop-counts :
      (rounds : ℕ) (nodes : ℕ → Option (Node A)) (before : Option ℕ) (xs : List (ℕ × A)) (n : ℕ)
      → length xs ≤ rounds
      → Links nodes before xs none
      → size_loop rounds nodes (head_of xs none) n ≡ some (n + length xs)
  unfolding size_loop
  size_loop-counts rounds nodes before [] n enough links = ap some (omega arith)
  size_loop-counts zero nodes before (x ∷ xs) n enough links = absurd (omega (arith, enough))
  size_loop-counts (suc rounds) nodes before (x ∷ xs) n enough links =
      ap (λ o. o >>= λ k. size_loop rounds nodes k.next (n + 1)) links.0
      ∙ size_loop-counts rounds nodes (some x.0) xs (n + 1) (omega (arith, enough)) links.1
      ∙ ap some (omega arith)

  -- `size` returns the number of nodes of the list.
  pub size-length :
      (rounds : ℕ) (m : PltList A) (xs : List (ℕ × A))
      → IsList m xs
      → length xs ≤ rounds
      → size rounds m ≡ some (length xs)
  size-length rounds m xs list enough =
      ap (λ o. size_loop rounds m.nodes o 0) list.0
      ∙ size_loop-counts rounds m.nodes none xs 0 enough list.2
      ∙ ap some (omega arith)

  remove_loop-finds :
      (same : A → A → Bool) (a : A) (rounds : ℕ) (m : PltList A) (zs xs : List (ℕ × A))
      → IsList m (zs ++ xs)
      → length xs ≤ rounds
      → Ends
          (λ r. (r.0 ≡ contains same a xs) × IsList r.1 (zs ++ drop_equal same a xs))
          (remove_loop same rounds (head_of xs none) m a)
  unfolding remove_loop
  remove_loop-finds same a rounds m zs [] list enough = ((false, m), refl, (refl, list))
  remove_loop-finds same a zero m zs (x ∷ xs) list enough = absurd (omega (arith, enough))
  remove_loop-finds same a (suc rounds) m zs (x ∷ xs) list enough =
      let there = (Links-split m.nodes none zs (x ∷ xs) none list.2).1 in
      let Found : Bool → Type 0 = λ b.
        Ends
          (λ r.
            (r.0 ≡ (if b then true else contains same a xs))
            × IsList r.1 (zs ++ (if b then xs else x ∷ drop_equal same a xs)))
          (if b
            then (remove_node m x.0 >>= λ t. some (true, delete t x.0))
            else remove_loop same rounds (head_of xs none) m a) in
      let found : Found (same x.1 a) = elim (Bool-cases (same x.1 a)) [
        | inl equal ↦
            let (t, e, _, left) = remove_node-deletes m zs x xs list in
            subst Found (sym equal)
              ((true, delete t x.0), ap (λ o. o >>= λ t. some (true, delete t x.0)) e, (refl, left))
        | inr other ↦
            let ((b, t), e, held) =
              remove_loop-finds same a rounds m (zs ++ (x ∷ [])) xs
                (subst (IsList m) (sym (append_assoc zs (x ∷ []) xs)) list)
                (omega (arith, enough)) in
            subst Found (sym other) (
              (b, t),
              e,
              (held.0, subst (IsList t) (append_assoc zs (x ∷ []) (drop_equal same a xs)) held.1),
            )
      ] in
      subst
        (λ o.
          Ends
            (λ r. (r.0 ≡ contains same a (x ∷ xs)) × IsList r.1 (zs ++ drop_equal same a (x ∷ xs)))
            (o >>= λ n.
              if same n.info a
              then (remove_node m x.0 >>= λ t. some (true, delete t x.0))
              else remove_loop same rounds n.next m a))
        (sym there.0) found

  -- `PltList::remove` of a value returns whether the list has an equal one; the first one is left out
  -- then.
  pub remove_value-IsList :
      (same : A → A → Bool) (a : A) (rounds : ℕ) (m : PltList A) (xs : List (ℕ × A))
      → IsList m xs
      → length xs ≤ rounds
      → Ends
          (λ r. (r.0 ≡ contains same a xs) × IsList r.1 (drop_equal same a xs))
          (remove_value same rounds m a)
  remove_value-IsList same a rounds m xs list enough =
      subst
        (λ k.
          Ends (λ r. (r.0 ≡ contains same a xs) × IsList r.1 (drop_equal same a xs))
            (remove_loop same rounds k m a))
        (sym list.0) (remove_loop-finds same a rounds m [] xs list enough)

-- ===== src/Plt/LinkedList/Inserting.antt =====
-- `addFirst` and `addLast` of a node.
use acplt_ks.Base.{ℕ, ◌≡◌, ◌≢◌, refl, ap, sym, ◌∙◌, List, [], ◌∷◌, ◌++◌, Option, none, some, subst}
use acplt_ks.Base.Cells.{update, update_here, update_there}
use acplt_ks.Plt.LinkedList.{Node, PltList, ◌>>=◌, put, set_prev, set_next, add_first, add_last}
use acplt_ks.Plt.LinkedList.Links.{
  Ends, Ends-bind, Links, Absent, Distinct, IsList, head_of, last_of, linked, last_of-append,
  Links-update, Links-split, Links-join, relink_front, relink_end, Distinct-middle, Distinct-snoc,
  snoc-elim, set_prev-Ends, set_next-Ends,
}

module _ {A : Type 0} (p : ℕ) (v : A) where
  last_of-some : (q : ℕ) (xs : List (ℕ × A)) → (l : ℕ) × (last_of (some q) xs ≡ some l)
  last_of-some q [] = (q, refl)
  last_of-some q (x ∷ xs) = last_of-some x.0 xs

  new_last :
      (xs : List (ℕ × A))
      → elim (last_of none xs) [ none ↦ some p | some l ↦ some l ] ≡ last_of (some p) xs
  new_last [] = refl
  new_last (x ∷ xs) =
      let (l, e) = last_of-some x.0 xs in
      ap (λ k. elim k [ none ↦ some p | some l ↦ some l ]) e ∙ sym e

  new_first :
      (xs : List (ℕ × A))
      → elim (head_of xs none) [ none ↦ some p | some f ↦ some f ]
        ≡ head_of (xs ++ ((p, v) ∷ [])) none
  new_first [] = refl
  new_first (x ∷ xs) = refl

  -- the list with other links at one end, and the node beside it
  abbrev Between : List (ℕ × A) → Option ℕ → Option ℕ → Option (Node A) → PltList A → Type 0
  Between xs before after node t =
      (t.first ≡ head_of xs none)
      × (t.last ≡ last_of none xs)
      × Links t.nodes before xs after
      × (t.nodes p ≡ node)

  -- the first node is linked to the new one
  front_linked :
      (xs : List (ℕ × A)) (cell : Option (Node A)) (t : PltList A)
      → Absent p xs
      → Distinct xs
      → Between xs none none cell t
      → Ends
          (Between xs (some p) none cell)
          (elim (head_of xs none) [ none ↦ some t | some f ↦ set_prev t f (some p) ])
  front_linked [] cell t absent distinct held = (t, refl, (held.0, held.1, tt, held.3))
  front_linked (x ∷ xs) cell t absent distinct held =
      set_prev-Ends (Between (x ∷ xs) (some p) none cell) t x.0 (some p) none (head_of xs none) x.1
        held.2.0
        (
          held.0,
          held.1,
          relink_front t.nodes none (some p) x xs none distinct.0 held.2,
          update_there t.nodes x.0 p (linked (some p) (head_of xs none) x.1) (λ e. absent.0 (sym e))
              ∙ held.3,
        )

  -- the last node is linked to the new one
  end_linked :
      (xs : List (ℕ × A)) (cell : Option (Node A)) (t : PltList A)
      → Absent p xs
      → Distinct xs
      → Between xs none none cell t
      → Ends
          (Between xs none (some p) cell)
          (elim (last_of none xs) [ none ↦ some t | some l ↦ set_next t l (some p) ])
  end_linked xs cell =
      snoc-elim
        (λ l.
          (t : PltList A)
          → Absent p l
          → Distinct l
          → Between l none none cell t
          → Ends (Between l none (some p) cell)
              (elim (last_of none l) [ none ↦ some t | some q ↦ set_next t q (some p) ]))
        (λ t. λ absent. λ distinct. λ held. (t, refl, (held.0, held.1, tt, held.3)))
        (λ ys. λ y. λ t. λ absent. λ distinct. λ held.
          let (alone, _, _) = Distinct-middle ys y [] distinct in
          let there = Links-split t.nodes none ys (y ∷ []) none held.2 in
          let other : p ≢ y.0 = λ e. last_differs ys y absent (sym e) in
          subst
            (λ k.
              Ends (Between (ys ++ (y ∷ [])) none (some p) cell)
                (elim k [ none ↦ some t | some q ↦ set_next t q (some p) ]))
            (sym (last_of-append none ys (y ∷ [])))
            (set_next-Ends (Between (ys ++ (y ∷ [])) none (some p) cell) t y.0 (some p)
              (last_of none ys) none y.1 there.1.0
              (
                held.0,
                held.1,
                relink_end t.nodes none ys y none (some p) alone held.2,
                update_there t.nodes y.0 p (linked (last_of none ys) (some p) y.1) other ∙ held.3,
              )))
        xs
    where
      last_differs : (ys : List (ℕ × A)) (y : ℕ × A) → Absent p (ys ++ (y ∷ [])) → y.0 ≢ p
      last_differs [] y absent = absent.0
      last_differs (z ∷ ys) y absent = last_differs ys y absent.1

  -- If a node is allocated and not in a list, then `addFirst` returns, and the node is in front of those
  -- of the list.
  pub add_first-IsList :
      (m : PltList A) (xs : List (ℕ × A)) (before after : Option ℕ)
      → IsList m xs
      → m.nodes p ≡ linked before after v
      → Absent p xs
      → Ends (λ t. IsList t ((p, v) ∷ xs)) (add_first m p)
  unfolding add_first
  add_first-IsList m xs before after list node absent =
      Ends-bind (Between xs none none (linked none after v)) (λ t. IsList t ((p, v) ∷ xs))
        (set_prev m p none)
        (λ t. do
          u ← elim t.first [ none ↦ some t | some f ↦ set_prev t f (some p) ]
          w ← set_next u p u.first
          some
              (record w { first = some p; last = elim w.last [ none ↦ some p | some l ↦ some l ] }))
        (set_prev-Ends (Between xs none none (linked none after v)) m p none before after v node (
          list.0,
          list.1,
          Links-update m.nodes p (linked none after v) none xs none absent list.2,
          update_here m.nodes p (linked none after v),
        ))
        (λ t. λ held.
          Ends-bind (Between xs (some p) none (linked none after v)) (λ t. IsList t ((p, v) ∷ xs))
            (elim t.first [ none ↦ some t | some f ↦ set_prev t f (some p) ])
            (λ u. do
              w ← set_next u p u.first
              some (record w {
                first = some p;
                last = elim w.last [ none ↦ some p | some l ↦ some l ];
              }))
            (subst
              (λ k.
                Ends (Between xs (some p) none (linked none after v))
                  (elim k [ none ↦ some t | some f ↦ set_prev t f (some p) ]))
              (sym held.0) (front_linked xs (linked none after v) t absent list.3 held))
            (λ u. λ held'.
              let w = put u p (linked none u.first v) in
              (
                record w { first = some p; last = elim w.last [ none ↦ some p | some l ↦ some l ] },
                ap
                    (λ o. (o >>= λ n. some (put u p (some (record n { next = u.first })))) >>= λ w.
                      some (record w {
                        first = some p;
                        last = elim w.last [ none ↦ some p | some l ↦ some l ];
                      }))
                    held'.3,
                (
                  refl,
                  ap (λ k. elim k [ none ↦ some p | some l ↦ some l ]) held'.1 ∙ new_last xs,
                  (
                    update_here u.nodes p (linked none u.first v)
                        ∙ ap (λ k. linked none k v) held'.0,
                    Links-update u.nodes p (linked none u.first v) (some p) xs none absent held'.2,
                  ),
                  (absent, list.3),
                ),
              )))

  -- If a node is allocated and not in a list, then `addLast` returns, and the node is behind those of
  -- the list.
  pub add_last-IsList :
      (m : PltList A) (xs : List (ℕ × A)) (before after : Option ℕ)
      → IsList m xs
      → m.nodes p ≡ linked before after v
      → Absent p xs
      → Ends (λ t. IsList t (xs ++ ((p, v) ∷ []))) (add_last m p)
  unfolding add_last
  add_last-IsList m xs before after list node absent =
      Ends-bind (Between xs none none (linked before none v)) (λ t. IsList t (xs ++ ((p, v) ∷ [])))
        (set_next m p none)
        (λ t. do
          u ← elim t.last [ none ↦ some t | some l ↦ set_next t l (some p) ]
          w ← set_prev u p u.last
          some (record w {
            last = some p;
            first = elim w.first [ none ↦ some p | some f ↦ some f ];
          }))
        (set_next-Ends (Between xs none none (linked before none v)) m p none before after v node (
          list.0,
          list.1,
          Links-update m.nodes p (linked before none v) none xs none absent list.2,
          update_here m.nodes p (linked before none v),
        ))
        (λ t. λ held.
          Ends-bind (Between xs none (some p) (linked before none v))
            (λ t. IsList t (xs ++ ((p, v) ∷ [])))
            (elim t.last [ none ↦ some t | some l ↦ set_next t l (some p) ])
            (λ u. do
              w ← set_prev u p u.last
              some (record w {
                last = some p;
                first = elim w.first [ none ↦ some p | some f ↦ some f ];
              }))
            (subst
              (λ k.
                Ends (Between xs none (some p) (linked before none v))
                  (elim k [ none ↦ some t | some l ↦ set_next t l (some p) ]))
              (sym held.1) (end_linked xs (linked before none v) t absent list.3 held))
            (λ u. λ held'.
              let w = put u p (linked u.last none v) in
              (
                record w {
                  last = some p;
                  first = elim w.first [ none ↦ some p | some f ↦ some f ];
                },
                ap
                    (λ o. (o >>= λ n. some (put u p (some (record n { prev = u.last })))) >>= λ w.
                      some (record w {
                        last = some p;
                        first = elim w.first [ none ↦ some p | some f ↦ some f ];
                      }))
                    held'.3,
                (
                  ap (λ k. elim k [ none ↦ some p | some f ↦ some f ]) held'.0 ∙ new_first xs,
                  sym (last_of-append none xs ((p, v) ∷ [])),
                  Links-join (update u.nodes p (linked u.last none v)) none xs ((p, v) ∷ []) none
                      (Links-update u.nodes p (linked u.last none v) none xs (some p) absent
                        held'.2)
                      (
                        update_here u.nodes p (linked u.last none v)
                            ∙ ap (λ k. linked k none v) held'.1,
                        tt,
                      ),
                  Distinct-snoc xs (p, v) absent list.3,
                ),
              )))

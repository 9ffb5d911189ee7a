-- ===== src/Plt/LinkedList/Unlinking.antt =====
-- `remove`, `removeFirst` and `removeLast` of nodes.
use mathlib.Core.List.{append-nil, append_assoc}
use acplt_ks.Base.{ℕ, ◌≡◌, ◌≢◌, refl, ap, sym, ◌∙◌, List, [], ◌∷◌, ◌++◌, Option, none, some, subst}
use acplt_ks.Base.Cells.{update_here, update_there}
use acplt_ks.Plt.LinkedList.{Node, PltList, ◌>>=◌, set_prev, set_next, remove_node}
use acplt_ks.Plt.LinkedList.Links.{
  Ends, Ends-bind, Links, Absent, Distinct, IsList, head_of, last_of, linked, last_of-append,
  Links-update, Links-split, Links-join, relink_front, relink_end, Distinct-middle, snoc-elim,
  set_prev-Ends, set_next-Ends, All-join,
}

module _ {A : Type 0} (p : ℕ) (v : A) where
  -- the nodes in front of `p` and behind it, and `p` as it was
  abbrev Apart :
      List (ℕ × A) → List (ℕ × A) → Option ℕ → Option ℕ → Option ℕ → Option ℕ → PltList A → Type 0
  Apart xs ys first last after before t =
      (t.first ≡ first)
      × (t.last ≡ last)
      × Links t.nodes none xs after
      × Links t.nodes before ys none
      × (t.nodes p ≡ linked (last_of none xs) (head_of ys none) v)

  -- the node in front of `p` is linked to the one behind it
  front_joined :
      (xs ys : List (ℕ × A)) (last : Option ℕ) (t : PltList A)
      → Distinct (xs ++ ((p, v) ∷ ys))
      → Apart xs ys (head_of (xs ++ ((p, v) ∷ ys)) none) last (some p) (some p) t
      → Ends
          (Apart xs ys (head_of (xs ++ ys) none) last (head_of ys none) (some p))
          (elim (last_of none xs) [
            | none ↦ some (record t { first = head_of ys none })
            | some q ↦ set_next t q (head_of ys none)
          ])
  front_joined xs ys last =
      snoc-elim
        (λ l.
          (t : PltList A)
          → Distinct (l ++ ((p, v) ∷ ys))
          → Apart l ys (head_of (l ++ ((p, v) ∷ ys)) none) last (some p) (some p) t
          → Ends (Apart l ys (head_of (l ++ ys) none) last (head_of ys none) (some p))
              (elim (last_of none l) [
                | none ↦ some (record t { first = head_of ys none })
                | some q ↦ set_next t q (head_of ys none)
              ]))
        (λ t. λ distinct.
          λ held. (record t { first = head_of ys none }, refl, (refl, held.1, tt, held.3, held.4)))
        (λ zs. λ z. λ t. λ distinct. λ held.
          let (alone, others, _) = before_middle zs z distinct in
          let there = Links-split t.nodes none zs (z ∷ []) (some p) held.2 in
          let w = linked (last_of none zs) (head_of ys none) z.1 in
          subst
            (λ k.
              Ends
                (Apart (zs ++ (z ∷ [])) ys (head_of ((zs ++ (z ∷ [])) ++ ys) none) last
                  (head_of ys none) (some p))
                (elim k [
                  | none ↦ some (record t { first = head_of ys none })
                  | some q ↦ set_next t q (head_of ys none)
                ]))
            (sym (last_of-append none zs (z ∷ [])))
            (set_next-Ends
              (Apart (zs ++ (z ∷ [])) ys (head_of ((zs ++ (z ∷ [])) ++ ys) none) last
                (head_of ys none) (some p))
              t z.0 (head_of ys none) (last_of none zs) (some p) z.1 there.1.0
              (
                held.0 ∙ same_head zs z,
                held.1,
                relink_end t.nodes none zs z (some p) (head_of ys none) alone held.2,
                Links-update t.nodes z.0 w (some p) ys none others.1 held.3,
                update_there t.nodes z.0 p w others.0 ∙ held.4,
              )))
        xs
    where
      before_middle :
          (zs : List (ℕ × A)) (z : ℕ × A)
          → Distinct ((zs ++ (z ∷ [])) ++ ((p, v) ∷ ys))
          → Absent z.0 zs × Absent z.0 ((p, v) ∷ ys) × Distinct (zs ++ ((p, v) ∷ ys))
      before_middle zs z distinct =
          Distinct-middle zs z ((p, v) ∷ ys)
            (subst Distinct (append_assoc zs (z ∷ []) ((p, v) ∷ ys)) distinct)

      same_head :
          (zs : List (ℕ × A)) (z : ℕ × A)
          → head_of ((zs ++ (z ∷ [])) ++ ((p, v) ∷ ys)) none ≡ head_of ((zs ++ (z ∷ [])) ++ ys) none
      same_head [] z = refl
      same_head (x ∷ zs) z = refl

  -- the node behind `p` is linked to the one in front of it
  behind_joined :
      (xs ys : List (ℕ × A)) (first : Option ℕ) (t : PltList A)
      → Distinct (xs ++ ((p, v) ∷ ys))
      → Apart xs ys first (last_of none (xs ++ ((p, v) ∷ ys))) (head_of ys none) (some p) t
      → Ends
          (Apart xs ys first (last_of none (xs ++ ys)) (head_of ys none) (last_of none xs))
          (elim (head_of ys none) [
            | none ↦ some (record t { last = last_of none xs })
            | some r ↦ set_prev t r (last_of none xs)
          ])
  behind_joined xs [] first t distinct held = (
    record t { last = last_of none xs },
    refl,
    (held.0, ap (last_of none) (sym (append-nil xs)), held.2, tt, held.4),
  )
  behind_joined xs (y ∷ ys) first t distinct held =
      let (absent, behind, rest) = Distinct-middle xs (p, v) (y ∷ ys) distinct in
      let (front, others, _) = Distinct-middle xs y ys rest in
      let w = linked (last_of none xs) (head_of ys none) y.1 in
      set_prev-Ends
        (Apart xs (y ∷ ys) first (last_of none (xs ++ (y ∷ ys))) (some y.0) (last_of none xs)) t y.0
        (last_of none xs) (some p) (head_of ys none) y.1 held.3.0
        (
          held.0,
          held.1 ∙ last_of-append none xs ((p, v) ∷ y ∷ ys) ∙ sym (last_of-append none xs (y ∷ ys)),
          Links-update t.nodes y.0 w none xs (some y.0) front held.2,
          relink_front t.nodes (some p) (last_of none xs) y ys none others held.3,
          update_there t.nodes y.0 p w (λ e. behind.0 (sym e)) ∙ held.4,
        )

  -- the list without the node, which is linked to nothing
  abbrev pub Without : List (ℕ × A) → PltList A → Type 0
  Without zs t = IsList t zs × (t.nodes p ≡ linked none none v)

  -- `remove` of a node of a list returns; the others are the list then, in their order, and the node is
  -- linked to nothing.
  pub remove_node-Without :
      (m : PltList A) (xs ys : List (ℕ × A))
      → IsList m (xs ++ ((p, v) ∷ ys))
      → Ends (Without (xs ++ ys)) (remove_node m p)
  unfolding remove_node
  remove_node-Without m xs ys list =
      let (absent, behind, rest) = Distinct-middle xs (p, v) ys list.3 in
      let (front, here_back) = Links-split m.nodes none xs ((p, v) ∷ ys) none list.2 in
      let n : Node A = record { prev = last_of none xs; next = head_of ys none; info = v } in
      let ended = end_linked_off xs ys absent behind rest in
      subst
        (λ o. Ends (Without (xs ++ ys)) (
          o >>= λ n.
          (elim n.prev [ none ↦ some (record m { first = n.next }) | some q ↦ set_next m q n.next ])
          >>= λ t.
              (elim n.next [
                | none ↦ some (record t { last = n.prev })
                | some r ↦ set_prev t r n.prev
              ])
              >>= λ u. set_prev u p none >>= λ w. set_next w p none))
        (sym here_back.0)
        (Ends-bind (Apart xs ys (head_of (xs ++ ys) none) m.last (head_of ys none) (some p))
          (Without (xs ++ ys))
          (elim n.prev [ none ↦ some (record m { first = n.next }) | some q ↦ set_next m q n.next ])
          (λ t.
            (elim n.next [
              | none ↦ some (record t { last = n.prev })
              | some r ↦ set_prev t r n.prev
            ])
            >>= λ u. set_prev u p none >>= λ w. set_next w p none)
          (front_joined xs ys m.last m list.3 (list.0, refl, front, here_back.1, here_back.0))
          (λ t. λ held.
            Ends-bind
              (Apart xs ys (head_of (xs ++ ys) none) (last_of none (xs ++ ys)) (head_of ys none)
                (last_of none xs))
              (Without (xs ++ ys))
              (elim n.next [
                | none ↦ some (record t { last = n.prev })
                | some r ↦ set_prev t r n.prev
              ])
              (λ u. set_prev u p none >>= λ w. set_next w p none)
              (behind_joined xs ys (head_of (xs ++ ys) none) t list.3
                (held.0, held.1 ∙ list.1, held.2, held.3, held.4))
              ended))
    where
      end_linked_off :
          (xs ys : List (ℕ × A))
          → Absent p xs
          → Absent p ys
          → Distinct (xs ++ ys)
          → (u : PltList A)
          → Apart xs ys
              (head_of (xs ++ ys) none)
              (last_of none (xs ++ ys))
              (head_of ys none)
              (last_of none xs)
              u
          → Ends (Without (xs ++ ys)) (set_prev u p none >>= λ w. set_next w p none)
      end_linked_off xs ys absent behind rest u held =
          let joined = Links-join u.nodes none xs ys none held.2 held.3 in
          let away = All-join (λ z. z.0 ≢ p) xs ys absent behind in
          let half = linked none (head_of ys none) v in
          let alone = linked none none v in
          Ends-bind (λ w. IsList w (xs ++ ys) × (w.nodes p ≡ half)) (Without (xs ++ ys))
            (set_prev u p none) (λ w. set_next w p none)
            (set_prev-Ends (λ w. IsList w (xs ++ ys) × (w.nodes p ≡ half)) u p none
              (last_of none xs) (head_of ys none) v held.4
              (
                (
                  held.0,
                  held.1,
                  Links-update u.nodes p half none (xs ++ ys) none away joined,
                  rest,
                ),
                update_here u.nodes p half,
              ))
            (λ w. λ held'.
              set_next-Ends (Without (xs ++ ys)) w p none none (head_of ys none) v held'.1 (
                (
                  held'.0.0,
                  held'.0.1,
                  Links-update w.nodes p alone none (xs ++ ys) none away held'.0.2,
                  rest,
                ),
                update_here w.nodes p alone,
              ))

-- ===== src/Plt/LinkedList/Links.antt =====
-- Which nodes of the store make up a list, and what writes to single nodes do to it.
use acplt_ks.Base.{
  ℕ, ◌≡◌, ◌≢◌, refl, ap, sym, ◌∙◌, List, [], ◌∷◌, ◌++◌, Option, none, some, All, subst,
}
use acplt_ks.Base.Cells.{update, update_here, update_there}
use acplt_ks.Plt.LinkedList.{Node, PltList, ◌>>=◌, put, set_prev, set_next}

-- a computation returns, with a result as `P` says
abbrev pub Ends : {A : Type 0} → (A → Type 0) → Option A → Type 0
Ends {A} P o = (a : A) × (o ≡ some a) × P a

pub Ends-bind :
    {A B : Type 0} (Q : A → Type 0) (P : B → Type 0) (o : Option A) (f : A → Option B)
    → Ends Q o
    → ((a : A) → Q a → Ends P (f a))
    → Ends P (o >>= f)
Ends-bind Q P o f ends g = subst (λ k. Ends P (k >>= f)) (sym ends.1) (g ends.0 ends.2)

module _ {A : Type 0} where
  abbrev pub head_of : List (ℕ × A) → Option ℕ → Option ℕ
  head_of [] after = after
  head_of (x ∷ xs) after = some x.0

  abbrev pub last_of : Option ℕ → List (ℕ × A) → Option ℕ
  last_of before [] = before
  last_of before (x ∷ xs) = last_of (some x.0) xs

  abbrev pub linked : Option ℕ → Option ℕ → A → Option (Node A)
  linked before after a = some (record { prev = before; next = after; info = a })

  -- the nodes are linked in both directions
  abbrev pub Links : (ℕ → Option (Node A)) → Option ℕ → List (ℕ × A) → Option ℕ → Type 0
  Links nodes before [] after = Unit
  Links nodes before (x ∷ xs) after =
      (nodes x.0 ≡ linked before (head_of xs after) x.1) × Links nodes (some x.0) xs after

  abbrev pub Absent : ℕ → List (ℕ × A) → Type 0
  Absent p = All (λ x. x.0 ≢ p)

  abbrev pub Distinct : List (ℕ × A) → Type 0
  Distinct [] = Unit
  Distinct (x ∷ xs) = Absent x.0 xs × Distinct xs

  -- the list has just these nodes
  abbrev pub IsList : PltList A → List (ℕ × A) → Type 0
  IsList m xs =
      (m.first ≡ head_of xs none)
      × (m.last ≡ last_of none xs)
      × Links m.nodes none xs none
      × Distinct xs

  pub head_of-append :
      (xs ys : List (ℕ × A)) (after : Option ℕ)
      → head_of (xs ++ ys) after ≡ head_of xs (head_of ys after)
  head_of-append [] ys after = refl
  head_of-append (x ∷ xs) ys after = refl

  pub last_of-append :
      (before : Option ℕ) (xs ys : List (ℕ × A))
      → last_of before (xs ++ ys) ≡ last_of (last_of before xs) ys
  last_of-append before [] ys = refl
  last_of-append before (x ∷ xs) ys = last_of-append (some x.0) xs ys

  pub Links-update :
      (nodes : ℕ → Option (Node A)) (p : ℕ) (v : Option (Node A)) (before : Option ℕ)
      (xs : List (ℕ × A)) (after : Option ℕ)
      → Absent p xs
      → Links nodes before xs after
      → Links (update nodes p v) before xs after
  Links-update nodes p v before [] after absent links = tt
  Links-update nodes p v before (x ∷ xs) after absent links = (
    update_there nodes p x.0 v absent.0 ∙ links.0,
    Links-update nodes p v (some x.0) xs after absent.1 links.1,
  )

  pub Links-split :
      (nodes : ℕ → Option (Node A)) (before : Option ℕ) (xs ys : List (ℕ × A)) (after : Option ℕ)
      → Links nodes before (xs ++ ys) after
      → Links nodes before xs (head_of ys after) × Links nodes (last_of before xs) ys after
  Links-split nodes before [] ys after links = (tt, links)
  Links-split nodes before (x ∷ xs) ys after links =
      let (here, there) = Links-split nodes (some x.0) xs ys after links.1 in
      ((links.0 ∙ ap (λ k. linked before k x.1) (head_of-append xs ys after), here), there)

  pub Links-join :
      (nodes : ℕ → Option (Node A)) (before : Option ℕ) (xs ys : List (ℕ × A)) (after : Option ℕ)
      → Links nodes before xs (head_of ys after)
      → Links nodes (last_of before xs) ys after
      → Links nodes before (xs ++ ys) after
  Links-join nodes before [] ys after here there = there
  Links-join nodes before (x ∷ xs) ys after here there = (
    here.0 ∙ ap (λ k. linked before k x.1) (sym (head_of-append xs ys after)),
    Links-join nodes (some x.0) xs ys after here.1 there,
  )

  -- a write to the first node
  pub relink_front :
      (nodes : ℕ → Option (Node A)) (before before' : Option ℕ) (x : ℕ × A) (xs : List (ℕ × A))
      (after : Option ℕ)
      → Absent x.0 xs
      → Links nodes before (x ∷ xs) after
      → Links (update nodes x.0 (linked before' (head_of xs after) x.1)) before' (x ∷ xs) after
  relink_front nodes before before' x xs after absent links = (
    update_here nodes x.0 (linked before' (head_of xs after) x.1),
    Links-update nodes x.0 (linked before' (head_of xs after) x.1) (some x.0) xs after absent
        links.1,
  )

  -- a write to the last node
  pub relink_end :
      (nodes : ℕ → Option (Node A)) (before : Option ℕ) (xs : List (ℕ × A)) (x : ℕ × A)
      (after after' : Option ℕ)
      → Absent x.0 xs
      → Links nodes before (xs ++ (x ∷ [])) after
      → Links
          (update nodes x.0 (linked (last_of before xs) after' x.1))
          before
          (xs ++ (x ∷ []))
          after'
  relink_end nodes before xs x after after' absent links =
      let v = linked (last_of before xs) after' x.1 in
      Links-join (update nodes x.0 v) before xs (x ∷ []) after'
        (Links-update nodes x.0 v before xs (some x.0) absent
          (Links-split nodes before xs (x ∷ []) after links).0)
        (update_here nodes x.0 v, tt)

  pub All-split :
      (P : ℕ × A → Type 0) (xs ys : List (ℕ × A)) → All P (xs ++ ys) → All P xs × All P ys
  All-split P [] ys h = (tt, h)
  All-split P (x ∷ xs) ys h = let (here, there) = All-split P xs ys h.1 in ((h.0, here), there)

  pub All-join :
      (P : ℕ × A → Type 0) (xs ys : List (ℕ × A)) → All P xs → All P ys → All P (xs ++ ys)
  All-join P [] ys h k = k
  All-join P (x ∷ xs) ys h k = (h.0, All-join P xs ys h.1 k)

  -- an entry in the middle is nowhere else, and the others are distinct without it
  pub Distinct-middle :
      (xs : List (ℕ × A)) (x : ℕ × A) (ys : List (ℕ × A))
      → Distinct (xs ++ (x ∷ ys))
      → Absent x.0 xs × Absent x.0 ys × Distinct (xs ++ ys)
  Distinct-middle [] x ys distinct = (tt, distinct.0, distinct.1)
  Distinct-middle (y ∷ xs) x ys distinct =
      let (before, after, rest) = Distinct-middle xs x ys distinct.1 in
      let (near, far) = All-split (λ z. z.0 ≢ y.0) xs (x ∷ ys) distinct.0 in
      (((λ e. far.0 (sym e)), before), after, (All-join (λ z. z.0 ≢ y.0) xs ys near far.1, rest))

  -- an entry that is new may stand at the end
  pub Distinct-snoc :
      (xs : List (ℕ × A)) (x : ℕ × A) → Absent x.0 xs → Distinct xs → Distinct (xs ++ (x ∷ []))
  Distinct-snoc [] x absent distinct = (tt, tt)
  Distinct-snoc (y ∷ xs) x absent distinct = (
    All-join (λ z. z.0 ≢ y.0) xs (x ∷ []) distinct.0 ((λ e. absent.0 (sym e)), tt),
    Distinct-snoc xs x absent.1 distinct.1,
  )

  -- by cases on the end of a list
  pub snoc-elim {κ} :
      (P : List (ℕ × A) → Type κ)
      → P []
      → ((xs : List (ℕ × A)) (x : ℕ × A) → P (xs ++ (x ∷ [])))
      → (xs : List (ℕ × A)) → P xs
  snoc-elim P n s [] = n
  snoc-elim P n s (x ∷ xs) = snoc-elim (λ l. P (x ∷ l)) (s [] x) (λ ys. λ y. s (x ∷ ys) y) xs

  pub set_prev-Ends :
      (P : PltList A → Type 0) (m : PltList A) (p : ℕ) (v before after : Option ℕ) (a : A)
      → m.nodes p ≡ linked before after a
      → P (put m p (linked v after a))
      → Ends P (set_prev m p v)
  set_prev-Ends P m p v before after a e holds = (
    put m p (linked v after a),
    ap (λ o. o >>= λ n. some (put m p (some (record n { prev = v })))) e,
    holds,
  )

  pub set_next-Ends :
      (P : PltList A → Type 0) (m : PltList A) (p : ℕ) (v before after : Option ℕ) (a : A)
      → m.nodes p ≡ linked before after a
      → P (put m p (linked before v a))
      → Ends P (set_next m p v)
  set_next-Ends P m p v before after a e holds = (
    put m p (linked before v a),
    ap (λ o. o >>= λ n. some (put m p (some (record n { next = v })))) e,
    holds,
  )

-- ===== src/Ks/ConnectionMgr/Timeouts.antt =====
-- The list of timeouts of `trackCnxIoMode`: the order of the dates, inserting and unlinking.
use acplt_ks.Base.{ℕ, ◌≤◌, ◌≡◌, ◌≢◌, inl, inr, List, [], ◌∷◌, arith, All, ltb, ◌==◌, Bool-cases}
use acplt_ks.Ks.ConnectionMgr.{unlink, insert_active}
use acplt_ks.Ks.ConnectionMgr.Registry.{next_active}
use acplt_ks.Ks.ConnectionMgr.Tracking.{if-elim}

All-unlink : (P : ℕ → Type 0) (fd : ℕ) (xs : List ℕ) → All P xs → All P (unlink fd xs)
All-unlink P fd [] h = tt
All-unlink P fd (x ∷ xs) h =
    if-elim (All P) (x == fd) (unlink fd xs) (x ∷ unlink fd xs) (All-unlink P fd xs h.1)
      (h.0, All-unlink P fd xs h.1)

-- an unlinked node is not there
pub All-others : (fd : ℕ) (xs : List ℕ) → All (λ x. x ≢ fd) (unlink fd xs)
All-others fd [] = tt
All-others fd (x ∷ xs) = elim (Bool-cases (x == fd)) [
  | inl same ↦ rw same (All-others fd xs)
  | inr other ↦ rw other ((λ e. absurd (ground (arith, other, e))), All-others fd xs)
]

pub All-map : (P Q : ℕ → Type 0) → ((x : ℕ) → P x → Q x) → (xs : List ℕ) → All P xs → All Q xs
All-map P Q f [] h = tt
All-map P Q f (x ∷ xs) h = (f x h.0, All-map P Q f xs h.1)

pub All-every : (P : ℕ → Type 0) → ((x : ℕ) → P x) → (xs : List ℕ) → All P xs
All-every P f [] = tt
All-every P f (x ∷ xs) = (f x, All-every P f xs)

-- from the latest one to the earliest one
abbrev pub IsOrdered : (ℕ → ℕ) → List ℕ → Type 0
IsOrdered due [] = Unit
IsOrdered due (x ∷ xs) = All (λ y. due y ≤ due x) xs × IsOrdered due xs

pub unlink-IsOrdered :
    (due : ℕ → ℕ) (fd : ℕ) (xs : List ℕ) → IsOrdered due xs → IsOrdered due (unlink fd xs)
unlink-IsOrdered due fd [] h = tt
unlink-IsOrdered due fd (x ∷ xs) h =
    if-elim (IsOrdered due) (x == fd) (unlink fd xs) (x ∷ unlink fd xs)
      (unlink-IsOrdered due fd xs h.1)
      (All-unlink (λ y. due y ≤ due x) fd xs h.0, unlink-IsOrdered due fd xs h.1)

-- only the dates of the nodes of the list matter
pub IsOrdered-same :
    (due due' : ℕ → ℕ) (xs : List ℕ)
    → All (λ x. due' x ≡ due x) xs
    → IsOrdered due xs
    → IsOrdered due' xs
IsOrdered-same due due' [] e h = tt
IsOrdered-same due due' (x ∷ xs) e h =
    (below due due' x xs e.0 e.1 h.0, IsOrdered-same due due' xs e.1 h.1)
  where
    below :
        (due due' : ℕ → ℕ) (x : ℕ) (xs : List ℕ)
        → due' x ≡ due x
        → All (λ x. due' x ≡ due x) xs
        → All (λ y. due y ≤ due x) xs
        → All (λ y. due' y ≤ due' x) xs
    below due due' x [] e es h = tt
    below due due' x (y ∷ ys) e es h = (omega (arith, e, es.0, h.0), below due due' x ys e es.1 h.1)

All-insert_active :
    (P : ℕ → Type 0) (due : ℕ → ℕ) (t fd : ℕ) (xs : List ℕ)
    → P fd
    → All P xs
    → All P (insert_active due t fd xs)
All-insert_active P due t fd [] h hs = (h, tt)
All-insert_active P due t fd (x ∷ xs) h hs =
    if-elim (All P) (ltb t (due x)) (x ∷ insert_active due t fd xs) (fd ∷ x ∷ xs)
      (hs.0, All-insert_active P due t fd xs h hs.1) (h, hs)

pub insert_active-IsOrdered :
    (due due' : ℕ → ℕ) (t fd : ℕ) (xs : List ℕ)
    → due' fd ≡ t
    → All (λ x. due' x ≡ due x) xs
    → IsOrdered due' xs
    → IsOrdered due' (insert_active due t fd xs)
insert_active-IsOrdered due due' t fd [] e es h = (tt, tt)
insert_active-IsOrdered due due' t fd (x ∷ xs) e es h = elim (Bool-cases (ltb t (due x))) [
  | inl later ↦ rw later (
    All-insert_active (λ y. due' y ≤ due' x) due t fd xs (ground (arith, later, e, es.0)) h.0,
    insert_active-IsOrdered due due' t fd xs e es.1 h.1,
  )
  | inr sooner ↦
      let le : due' x ≤ due' fd = ground (arith, sooner, e, es.0) in
      rw sooner (
        (
          le,
          All-map (λ y. due' y ≤ due' x) (λ y. due' y ≤ due' fd) (λ y. λ h'. omega (arith, h', le))
              xs h.0,
        ),
        h,
      )
]

-- the end of the list is no later than the others
pub next_active-first :
    (due : ℕ → ℕ) (x : ℕ) (xs : List ℕ)
    → IsOrdered due (x ∷ xs)
    → All (λ y. due (next_active x xs) ≤ due y) (x ∷ xs)
next_active-first due x [] h = (omega arith, tt)
next_active-first due x (y ∷ ys) h =
    let rest = next_active-first due y ys h.1 in (omega (arith, rest.0, h.0.0), rest)

-- ===== src/Plt/HashTable/Answers.antt =====
-- The loop of `locate`: what it answers, and that it ends.
use mathlib.Core.Bool.{false≢true}
use acplt_ks.Base.{
  ℕ, zero, suc, ◌+◌, ◌*◌, ◌<◌, ◌≤◌, ◌≡◌, refl, Bool, true, false, not, arith, if◌then◌else◌, ap,
  subst, ◌∙◌, dec_lt, Option, some, ◌⊎◌, inl, inr, Bool-cases,
}
use acplt_ks.Plt.HashTable.{Slot, empty, deleted, used, locate_loop}
use acplt_ks.Plt.HashTable.Probe.{probe}

module _ {K V : Type 0} (equal : K → K → Bool) (key : K) where
  -- an association with the key
  abbrev pub has_key : Slot K V → Bool
  has_key empty = false
  has_key deleted = false
  has_key (used k v) = equal k key

module _ {K V : Type 0} where
  pub Slot-cases :
      (s : Slot K V) → (s ≡ empty) ⊎ ((s ≡ deleted) ⊎ ((k : K) × (v : V) × (s ≡ used k v)))
  Slot-cases empty = inl refl
  Slot-cases deleted = inr (inl refl)
  Slot-cases (used k v) = inr (inr (k, v, refl))

  abbrev pub is_empty : Slot K V → Bool
  is_empty empty = true
  is_empty deleted = false
  is_empty (used k v) = false

  abbrev pub is_filled : Slot K V → Bool
  is_filled s = not (is_empty s)

  abbrev pub is_deleted : Slot K V → Bool
  is_deleted empty = false
  is_deleted deleted = true
  is_deleted (used k v) = false

  pub key_slot :
      (equal : K → K → Bool) (key : K) (s : Slot K V)
      → has_key equal key s ≡ true
      → (k : K) × (v : V) × (s ≡ used k v) × (equal k key ≡ true)
  key_slot equal key empty h = absurd (false≢true h)
  key_slot equal key deleted h = absurd (false≢true h)
  key_slot equal key (used k v) h = (k, v, refl, h)

  pub empty_slot : (s : Slot K V) → is_empty s ≡ true → s ≡ empty
  empty_slot empty h = refl
  empty_slot deleted h = absurd (false≢true h)
  empty_slot (used k v) h = absurd (false≢true h)

module _ {K V : Type 0} (hash : K → ℕ) (equal : K → K → Bool) (table : ℕ → Slot K V) (capacity : ℕ)
    (key : K) where
  abbrev pub at_step : ℕ → Slot K V
  at_step n = table (probe capacity (hash key) n)

  -- an empty slot behind slots that are not and do not have the key
  abbrev pub IsMiss : ℕ → ℕ → Type 0
  IsMiss n r =
      (r ≡ capacity)
      × (e : ℕ) × (is_empty (at_step e) ≡ true)
      × ((m : ℕ)
          → n ≤ m
          → m < e
          → (is_empty (at_step m) ≡ false) × (has_key equal key (at_step m) ≡ false))

  abbrev pub IsHit : ℕ → Type 0
  IsHit r = (m : ℕ) × (r ≡ probe capacity (hash key) m) × (has_key equal key (at_step m) ≡ true)

  abbrev pub IsAnswer : ℕ → ℕ → Type 0
  IsAnswer n r = IsMiss n r ⊎ IsHit r

  -- an answer of the next step behind a slot that is not empty and does not have the key
  IsAnswer-next :
      (n r : ℕ)
      → is_empty (at_step n) ≡ false
      → has_key equal key (at_step n) ≡ false
      → IsAnswer (suc n) r
      → IsAnswer n r
  IsAnswer-next n r e h (inr hit) = inr hit
  IsAnswer-next n r e h (inl (c, at_end, stops, others)) = inl (
    c,
    at_end,
    stops,
    λ m. λ le. λ lt. elim (dec_lt n m) [
      | yes behind ↦ others m behind lt
      | no here ↦
          let same : n ≡ m = omega arith in
          (
            subst (λ i. is_empty (at_step i) ≡ false) same e,
            subst (λ i. has_key equal key (at_step i) ≡ false) same h,
          )
    ],
  )

  abbrev pub run : ℕ → ℕ → Option ℕ
  run rounds n =
      locate_loop hash equal rounds table capacity key (probe capacity (hash key) n) (2 * n + 1)

  run-empty : (rounds n : ℕ) → at_step n ≡ empty → run (suc rounds) n ≡ some capacity
  unfolding locate_loop
  run-empty rounds n e = rw (locate_loop, e) refl

  run-deleted : (rounds n : ℕ) → at_step n ≡ deleted → run (suc rounds) n ≡ run rounds (suc n)
  unfolding locate_loop probe
  run-deleted rounds n e =
      let two : 2 * n + 1 + 2 ≡ 2 * suc n + 1 = omega arith in rw (locate_loop, e, two) refl

  run-used :
      (rounds n : ℕ) (k : K) (v : V)
      → at_step n ≡ used k v
      → run (suc rounds) n
        ≡ (if equal k key then some (probe capacity (hash key) n) else run rounds (suc n))
  unfolding locate_loop probe
  run-used rounds n k v e =
      let two : 2 * n + 1 + 2 ≡ 2 * suc n + 1 = omega arith in rw (locate_loop, e, two) refl

  -- The loop answers if an empty slot comes within its rounds.
  abbrev pub Answers : ℕ → ℕ → Type 0
  Answers rounds n = (r : ℕ) × (run rounds n ≡ some r) × IsAnswer n r

  Answers-empty : (rounds n : ℕ) → at_step n ≡ empty → Answers (suc rounds) n
  Answers-empty rounds n e = (
    capacity,
    run-empty rounds n e,
    inl (refl, n, ap is_empty e, λ m. λ le. λ lt. absurd (omega arith)),
  )

  Answers-next :
      (rounds n : ℕ)
      → run (suc rounds) n ≡ run rounds (suc n)
      → is_empty (at_step n) ≡ false
      → has_key equal key (at_step n) ≡ false
      → Answers rounds (suc n)
      → Answers (suc rounds) n
  Answers-next rounds n same e h a = (a.0, same ∙ a.1, IsAnswer-next n a.0 e h a.2)

  pub run-Answers :
      (d rounds n : ℕ) → is_empty (at_step (n + d)) ≡ true → d < rounds → Answers rounds n
  run-Answers d zero n stops enough = absurd (omega arith)
  run-Answers zero (suc rounds) n stops enough =
      let same : n + 0 ≡ n = omega arith in
      Answers-empty rounds n
        (empty_slot (at_step n) (subst (λ i. is_empty (at_step i) ≡ true) same stops))
  run-Answers (suc d) (suc rounds) n stops enough =
      let same : n + suc d ≡ suc n + d = omega arith in
      let later =
        run-Answers d rounds (suc n) (subst (λ i. is_empty (at_step i) ≡ true) same stops)
          (omega arith) in
      elim (Slot-cases (at_step n)) [
        | inl e ↦ Answers-empty rounds n e
        | inr (inl e) ↦
            Answers-next rounds n (run-deleted rounds n e) (ap is_empty e)
              (ap (has_key equal key) e) later
        | inr (inr (k, v, e)) ↦
            let choose : Bool → Option ℕ =
              λ b. if b then some (probe capacity (hash key) n) else run rounds (suc n) in
            elim (Bool-cases (equal k key)) [
              | inl hit ↦ (
                probe capacity (hash key) n,
                run-used rounds n k v e ∙ ap choose hit,
                inr (n, refl, ap (has_key equal key) e ∙ hit),
              )
              | inr miss ↦
                  Answers-next rounds n (run-used rounds n k v e ∙ ap choose miss) (ap is_empty e)
                    (ap (has_key equal key) e ∙ miss) later
            ]
      ]

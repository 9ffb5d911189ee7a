-- ===== src/Plt/HashTable/Written.antt =====
-- The table behind a write to the slot that `insert` chooses.
use mathlib.Core.Bool.{true≢false}
use acplt_ks.Base.{
  ℕ, ◌+◌, ◌<◌, ◌≡◌, refl, Bool, true, false, if◌then◌else◌, ◌==◌, ==_iff, ap, sym, subst, ◌∙◌, ◌⊎◌,
  inl, inr, Bool-cases,
}
use acplt_ks.Base.Cells.{update, count, count-update, bit}
use acplt_ks.Plt.HashTable.{Slot, used, HashTable}
use acplt_ks.Plt.HashTable.Probe.{probe, probe-inside}
use acplt_ks.Plt.HashTable.Answers.{is_empty, is_filled, is_deleted}
use acplt_ks.Plt.HashTable.Entries.{IsKey, IsValid}

module _ {K V : Type 0} where
  used_key : {k k' : K} {v v' : V} → used k v ≡ used k' v' → k ≡ k'
  used_key e = cc

  -- a slot is as it was, or it is the one that is written
  update-cases :
      (table : ℕ → Slot K V) (q i : ℕ) (s t : Slot K V)
      → update table q s i ≡ t
      → ((i ≡ q) × (s ≡ t)) ⊎ (table i ≡ t)
  update-cases table q i s t e = elim (Bool-cases (i == q)) [
    | inl same ↦ inl ((==_iff i q).0 same, sym (ap (λ b. if b then s else table i) same) ∙ e)
    | inr other ↦ inr (sym (ap (λ b. if b then s else table i) other) ∙ e)
  ]

  filled-update :
      (table : ℕ → Slot K V) (q i : ℕ) (k : K) (v : V)
      → is_empty (table i) ≡ false
      → is_empty (update table q (used k v) i) ≡ false
  filled-update table q i k v filled = elim (Bool-cases (i == q)) [
    | inl same ↦ rw same refl
    | inr other ↦ rw other filled
  ]

module _ {K V : Type 0} (hash : K → ℕ) (equal : K → K → Bool) (laws : IsKey hash equal)
    (t : HashTable K V) (valid : IsValid hash equal t) (key : K) (value : V)
    (absent : (i : ℕ) (k : K) (v : V)
      → i < t.a_capacity
      → t.a_table i ≡ used k v
      → equal k key ≡ false) where
  -- The invariant after a write to a slot of the way, with the counters as they are to be.
  module _ (w : ℕ)
      (before : (m : ℕ)
        → m < w
        → is_empty (t.a_table (probe t.a_capacity (hash key) m)) ≡ false) where
    abbrev q : ℕ
    q = probe t.a_capacity (hash key) w

    abbrev table' : ℕ → Slot K V
    table' = update t.a_table q (used key value)

    written_reached :
        (i : ℕ) (k : K) (v : V)
        → i < t.a_capacity
        → table' i ≡ used k v
        → (n : ℕ) × (probe t.a_capacity (hash k) n ≡ i)
          × ((m : ℕ) → m < n → is_empty (table' (probe t.a_capacity (hash k) m)) ≡ false)
    written_reached i k v inside e =
        elim (update-cases t.a_table q i (used key value) (used k v) e) [
          | inl (at_q, new) ↦
              let h = ap hash (used_key new) in
              (
                w,
                ap (λ h. probe t.a_capacity h w) (sym h) ∙ sym at_q,
                λ m. λ lt.
                    subst (λ h. is_empty (table' (probe t.a_capacity h m)) ≡ false) h
                      (filled-update t.a_table q (probe t.a_capacity (hash key) m) key value
                        (before m lt)),
              )
          | inr old ↦
              let f = valid.reached i k v inside old in
              (
                f.0,
                f.1,
                λ m. λ lt.
                    filled-update t.a_table q (probe t.a_capacity (hash k) m) key value (f.2 m lt),
              )
        ]

    written_unique :
        (i j : ℕ) (k k' : K) (v v' : V)
        → i < t.a_capacity
        → j < t.a_capacity
        → table' i ≡ used k v
        → table' j ≡ used k' v'
        → equal k k' ≡ true
        → i ≡ j
    written_unique i j k k' v v' hi hj ei ej same =
        elim (update-cases t.a_table q i (used key value) (used k v) ei) [
          | inl (i_q, i_new) ↦ elim (update-cases t.a_table q j (used key value) (used k' v') ej) [
            | inl (j_q, j_new) ↦ i_q ∙ sym j_q
            | inr j_old ↦ absurd (
                true≢false (
                  sym (laws.symmetric k k' same)
                  ∙ ap (equal k') (sym (used_key i_new))
                  ∙ absent j k' v' hj j_old))
          ]
          | inr i_old ↦ elim (update-cases t.a_table q j (used key value) (used k' v') ej) [
            | inl (j_q, j_new) ↦ absurd (
                true≢false (sym same ∙ ap (equal k) (sym (used_key j_new)) ∙ absent i k v hi i_old))
            | inr j_old ↦ valid.unique i j k k' v v' hi hj i_old j_old same
          ]
        ]

    pub count-written :
        (p : Slot K V → Bool)
        → count p table' t.a_capacity + bit (p (t.a_table q))
          ≡ count p t.a_table t.a_capacity + bit (p (used key value))
    count-written p =
        count-update p t.a_table t.a_capacity q (used key value)
          (probe-inside t.a_capacity (hash key) valid.positive valid.fits w)

    -- the invariant behind the write
    pub written-IsValid :
        (used' deleted' : ℕ)
        → count is_filled table' t.a_capacity ≡ used'
        → count is_deleted table' t.a_capacity ≡ deleted'
        → used' < t.a_capacity
        → IsValid hash equal (record t { a_table = table'; a_used = used'; a_deleted = deleted' })
    written-IsValid used' deleted' c c' room = record {
      positive = valid.positive;
      fits = valid.fits;
      counted = c;
      counted_deleted = c';
      room = room;
      reached = written_reached;
      unique = written_unique;
    }

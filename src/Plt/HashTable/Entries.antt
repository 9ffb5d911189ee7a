-- ===== src/Plt/HashTable/Entries.antt =====
-- Looking for a key.
use mathlib.Core.Bool.{true≢false}
use acplt_ks.Base.{
  ℕ, ◌+◌, ◌^◌, ◌<◌, ◌≡◌, refl, Bool, true, false, arith, ltb, ap, sym, subst, ◌∙◌, dec_lt, none,
  some, inl, inr,
}
use acplt_ks.Base.Cells.{count, count-fails}
use acplt_ks.Plt.HashTable.{used, HashTable, locate, lookup_assoc}
use acplt_ks.Plt.HashTable.Probe.{probe, probe-reaches, probe-inside}
use acplt_ks.Plt.HashTable.Answers.{
  is_empty, is_filled, is_deleted, key_slot, has_key, IsMiss, IsAnswer, run-Answers,
}

-- what the documentation asks of the keys
pub record IsKey {K : Type 0} (hash : K → ℕ) (equal : K → K → Bool) : Type 0 where
  pub hash_equal : (k k' : K) → equal k k' ≡ true → hash k ≡ hash k'
  pub symmetric : (k k' : K) → equal k k' ≡ true → equal k' k ≡ true
  pub transitive : (k k' k'' : K) → equal k k' ≡ true → equal k' k'' ≡ true → equal k k'' ≡ true

-- The invariant of the table, for keys that are compared as the documentation asks.
module _ {K V : Type 0} (hash : K → ℕ) (equal : K → K → Bool) where
  pub record IsValid (t : HashTable K V) : Type 0 where
    pub positive : 0 < t.a_capacity
    pub fits : t.a_capacity < 2 ^ 63
    -- the numbers of the slots that are not empty, and of the deleted ones; there is an empty slot
    pub counted : count is_filled t.a_table t.a_capacity ≡ t.a_used
    pub counted_deleted : count is_deleted t.a_table t.a_capacity ≡ t.a_deleted
    pub room : t.a_used < t.a_capacity
    -- no empty slot is in front of an association, on the way that its key takes
    pub reached :
        (i : ℕ) (k : K) (v : V)
        → i < t.a_capacity
        → t.a_table i ≡ used k v
        → (n : ℕ) × (probe t.a_capacity (hash k) n ≡ i)
          × ((m : ℕ) → m < n → is_empty (t.a_table (probe t.a_capacity (hash k) m)) ≡ false)
    -- no key is there twice
    pub unique :
        (i j : ℕ) (k k' : K) (v v' : V)
        → i < t.a_capacity
        → j < t.a_capacity
        → t.a_table i ≡ used k v
        → t.a_table j ≡ used k' v'
        → equal k k' ≡ true
        → i ≡ j

  free_slot :
      (t : HashTable K V)
      → IsValid t
      → (i : ℕ) × (i < t.a_capacity) × (is_empty (t.a_table i) ≡ true)
  free_slot t valid =
      let f =
        count-fails is_filled t.a_table t.a_capacity (omega (arith, valid.counted, valid.room)) in
      (f.0, f.1, ground (arith, f.2))

  -- The empty slot on the way that a key takes.
  pub free_step :
      (t : HashTable K V) (key : K)
      → IsValid t
      → (n : ℕ) × (n < t.a_capacity + 7)
        × (is_empty (t.a_table (probe t.a_capacity (hash key) n)) ≡ true)
  free_step t key valid =
      let f = free_slot t valid in
      let e = probe-reaches t.a_capacity (hash key) valid.positive valid.fits f.0 f.1 in
      (e.0, e.1, subst (λ i. is_empty (t.a_table i) ≡ true) (sym e.2) f.2)

  module _ (t : HashTable K V) (valid : IsValid t) (key : K) where
    locate-Answers :
        (r : ℕ) × (locate hash equal t key ≡ some r)
        × IsAnswer hash equal t.a_table t.a_capacity key 0 r
    unfolding locate probe
    locate-Answers =
        let e = free_step t key valid in
        let start : e.0 ≡ 0 + e.0 = omega arith in
        run-Answers hash equal t.a_table t.a_capacity key e.0 (t.a_capacity + 7) 0
          (subst (λ n. is_empty (t.a_table (probe t.a_capacity (hash key) n)) ≡ true) start e.2) e.1

    module _ (laws : IsKey hash equal) (i : ℕ) (k : K) (v : V) (inside : i < t.a_capacity)
        (stored : t.a_table i ≡ used k v) (same : equal k key ≡ true) where
      -- a miss would have passed the association
      pub not_missed : (r : ℕ) → ¬ IsMiss hash equal t.a_table t.a_capacity key 0 r
      not_missed r (c, e, stops, others) =
          let w = valid.reached i k v inside stored in
          let n = w.0 in
          let path = laws.hash_equal k key same in
          let at_n = ap (λ h. probe t.a_capacity h n) (sym path) ∙ w.1 in
          let slot = ap t.a_table at_n ∙ stored in
          elim (dec_lt n e) [
            | yes lt ↦
                true≢false
                  (sym same ∙ sym (ap (has_key equal key) slot) ∙ (others n (omega arith) lt).1)
            | no le ↦ elim (dec_lt e n) [
              | yes gt ↦ true≢false (
                  sym stops
                  ∙ ap (λ h. is_empty (t.a_table (probe t.a_capacity h e))) (sym path)
                  ∙ w.2 e gt)
              | no ge ↦
                  let meet : e ≡ n = omega arith in
                  true≢false (
                    sym stops
                    ∙ ap (λ m. is_empty (t.a_table (probe t.a_capacity (hash key) m))) meet
                    ∙ ap is_empty slot)
            ]
          ]

      locate-stored : locate hash equal t key ≡ some i
      locate-stored =
          let a = locate-Answers in
          a.1
          ∙ ap some (elim a.2 [
            | inl miss ↦ absurd (not_missed a.0 miss)
            | inr (m, e, hit) ↦
                let s = key_slot equal key (t.a_table (probe t.a_capacity (hash key) m)) hit in
                e
                ∙ valid.unique (probe t.a_capacity (hash key) m) i s.0 k s.1 v
                    (probe-inside t.a_capacity (hash key) valid.positive valid.fits m) inside s.2
                    stored (laws.transitive s.0 key k s.3 (laws.symmetric k key same))
          ])

      -- A key that is stored in a valid table is found, with its association.
      pub lookup_assoc-stored : lookup_assoc hash equal t key ≡ some (some (k, v))
      unfolding lookup_assoc
      lookup_assoc-stored =
          let below : ltb i t.a_capacity ≡ true = ground (arith, inside) in
          rw (lookup_assoc, locate-stored, below, stored) refl

    -- A key that is stored nowhere in a valid table is not found.
    pub lookup_assoc-absent :
        ((i : ℕ) (k : K) (v : V) → i < t.a_capacity → t.a_table i ≡ used k v → equal k key ≡ false)
        → lookup_assoc hash equal t key ≡ some none
    unfolding lookup_assoc
    lookup_assoc-absent nowhere =
        let a = locate-Answers in
        elim a.2 [
          | inl miss ↦
              let at_end : ltb t.a_capacity t.a_capacity ≡ false = ground arith in
              rw (lookup_assoc, a.1, miss.0, at_end) refl
          | inr (m, e, hit) ↦
              let s = key_slot equal key (t.a_table (probe t.a_capacity (hash key) m)) hit in
              absurd (
                true≢false (
                  sym s.3
                  ∙ nowhere (probe t.a_capacity (hash key) m) s.0 s.1
                      (probe-inside t.a_capacity (hash key) valid.positive valid.fits m) s.2))
        ]

-- ===== src/Plt/HashTable/Insertion.antt =====
-- Inserting a key that is not in the table.
use acplt_ks.Base.{
  ◌⊎◌, ℕ, zero, suc, ◌+◌, ◌-◌, ◌<◌, ◌≤◌, ◌≡◌, refl, Bool, true, false, arith, if◌then◌else◌, ltb,
  ◌==◌, ==_iff, ap, subst, ◌∙◌, some, inl, inr, Bool-cases,
}
use acplt_ks.Base.Cells.{update, count, bit}
use acplt_ks.Plt.HashTable.{
  Slot, empty, deleted, used, HashTable, collidx, insert_loop, insert, lookup_assoc, size, is_used,
}
use acplt_ks.Plt.HashTable.Probe.{probe, probe-inside}
use acplt_ks.Plt.HashTable.Answers.{Slot-cases, is_empty, is_filled, is_deleted, has_key, at_step}
use acplt_ks.Plt.HashTable.Entries.{IsKey, IsValid, free_step, lookup_assoc-stored}
use acplt_ks.Plt.HashTable.Ending.{Ends, go-Ends}
use acplt_ks.Plt.HashTable.Written.{count-written, written-IsValid}

module _ {K V : Type 0} (hash : K → ℕ) (equal : K → K → Bool) (laws : IsKey hash equal)
    (t : HashTable K V) (valid : IsValid hash equal t) (key : K) (value : V)
    (absent : (i : ℕ) (k : K) (v : V)
      → i < t.a_capacity
      → t.a_table i ≡ used k v
      → equal k key ≡ false) where
  key_absent : (n : ℕ) → has_key equal key (at_step hash equal t.a_table t.a_capacity key n) ≡ false
  key_absent n =
      let i = probe t.a_capacity (hash key) n in
      elim (Slot-cases (t.a_table i)) [
        | inl e ↦ ap (has_key equal key) e
        | inr (inl e) ↦ ap (has_key equal key) e
        | inr (inr (k, v, e)) ↦
            ap (has_key equal key) e
            ∙ absent i k v (probe-inside t.a_capacity (hash key) valid.positive valid.fits n) e
      ]

  insert-free :
      (d i : ℕ)
      → insert_loop hash equal
          (t.a_capacity + 7)
          t.a_table
          t.a_capacity
          key
          t.a_capacity
          (collidx t.a_capacity (hash key) 0)
          1
        ≡ some (false, d, i)
      → ltb d t.a_capacity ≡ false
      → insert hash equal t key value
        ≡ some (
          true,
          record t { a_table = update t.a_table i (used key value); a_used = t.a_used + 1 },
        )
  unfolding insert
  insert-free d i e at_end = rw (insert, e, at_end) refl

  insert-deleted :
      (d i : ℕ)
      → insert_loop hash equal
          (t.a_capacity + 7)
          t.a_table
          t.a_capacity
          key
          t.a_capacity
          (collidx t.a_capacity (hash key) 0)
          1
        ≡ some (false, d, i)
      → ltb d t.a_capacity ≡ true
      → insert hash equal t key value
        ≡ some (
          true,
          record t { a_table = update t.a_table d (used key value); a_deleted = t.a_deleted - 1 },
        )
  unfolding insert
  insert-deleted d i e inside = rw (insert, e, inside) refl

  loop_end : Ends hash equal t.a_table t.a_capacity key key_absent (t.a_capacity + 7) t.a_capacity 0
  loop_end =
      let f = free_step hash equal t key valid in
      let start : f.0 ≡ 0 + f.0 = omega arith in
      go-Ends hash equal t.a_table t.a_capacity key key_absent f.0 (t.a_capacity + 7) t.a_capacity 0
        (subst (λ n. is_empty (t.a_table (probe t.a_capacity (hash key) n)) ≡ true) start f.2) f.1

  -- what is to be shown of an insertion
  abbrev Inserted : ℕ → Type 0
  Inserted j =
      (r : HashTable K V) × (insert hash equal t key value ≡ some (true, r))
      × IsValid hash equal r
      × (lookup_assoc hash equal r key ≡ some (some (key, value)))
      × (size r ≡ size t + 1)
      × ((r.a_table j ≡ t.a_table j) ⊎ (is_used (t.a_table j) ≡ false))

  -- a slot that an association has is left alone
  abbrev Left : ℕ → Slot K V → Type 0
  Left j s = (s ≡ t.a_table j) ⊎ (is_used (t.a_table j) ≡ false)

  Left-update :
      (q j : ℕ) → is_used (t.a_table q) ≡ false → Left j (update t.a_table q (used key value) j)
  Left-update q j not_used = elim (Bool-cases (j == q)) [
    | inl same ↦ inr (ap (λ i. is_used (t.a_table i)) ((==_iff j q).0 same) ∙ not_used)
    | inr other ↦ inl (ap (λ b. if b then used key value else t.a_table j) other)
  ]

  Inserted-written :
      (w u d j : ℕ)
      → ((m : ℕ) → m < w → is_empty (t.a_table (probe t.a_capacity (hash key) m)) ≡ false)
      → insert hash equal t key value
        ≡ some (
          true,
          record t {
            a_table = update t.a_table (probe t.a_capacity (hash key) w) (used key value);
            a_used = u;
            a_deleted = d;
          },
        )
      → count is_filled
          (update t.a_table (probe t.a_capacity (hash key) w) (used key value))
          t.a_capacity
        ≡ u
      → count is_deleted
          (update t.a_table (probe t.a_capacity (hash key) w) (used key value))
          t.a_capacity
        ≡ d
      → u < t.a_capacity
      → u - d ≡ size t + 1
      → is_used (t.a_table (probe t.a_capacity (hash key) w)) ≡ false
      → equal key key ≡ true
      → Inserted j
  Inserted-written w u d j before e c c' room one_more not_used self =
      let i = probe t.a_capacity (hash key) w in
      let r : HashTable K V = record t {
        a_table = update t.a_table i (used key value);
        a_used = u;
        a_deleted = d;
      } in
      let valid' =
        written-IsValid hash equal laws t valid key value absent w before u d c c' room in
      let here : (i == i) ≡ true = ground arith in
      (
        r,
        e,
        valid',
        lookup_assoc-stored hash equal r valid' key laws i key value
            (probe-inside t.a_capacity (hash key) valid.positive valid.fits w)
            (ap (λ b. if b then used key value else t.a_table i) here) self,
        one_more,
        Left-update i j not_used,
      )

  count_deleted-le : (n : ℕ) → count is_deleted t.a_table n ≤ count is_filled t.a_table n
  unfolding count
  count_deleted-le zero = omega arith
  count_deleted-le (suc n) = elim (Slot-cases (t.a_table n)) [
    | inl e ↦ rw e (omega (arith, count_deleted-le n))
    | inr (inl e) ↦ rw e (omega (arith, count_deleted-le n))
    | inr (inr (k, v, e)) ↦ rw e (omega (arith, count_deleted-le n))
  ]

  -- an insertion at the empty slot
  Inserted-free :
      (d i e j : ℕ)
      → t.a_used + 1 < t.a_capacity
      → equal key key ≡ true
      → insert_loop hash equal
          (t.a_capacity + 7)
          t.a_table
          t.a_capacity
          key
          t.a_capacity
          (collidx t.a_capacity (hash key) 0)
          1
        ≡ some (false, d, i)
      → i ≡ probe t.a_capacity (hash key) e
      → t.a_table (probe t.a_capacity (hash key) e) ≡ empty
      → ((m : ℕ) → m < e → is_empty (t.a_table (probe t.a_capacity (hash key) m)) ≡ false)
      → d ≡ t.a_capacity
      → Inserted j
  unfolding is_used
  Inserted-free d i e j room self runs at_e stops before none_deleted =
      let at_end : ltb d t.a_capacity ≡ false = ground (arith, none_deleted) in
      let written = count-written hash equal laws t valid key value absent e before in
      Inserted-written e (t.a_used + 1) t.a_deleted j before
        (subst
          (λ i.
            insert hash equal t key value
            ≡ some (
              true,
              record t { a_table = update t.a_table i (used key value); a_used = t.a_used + 1 },
            ))
          at_e (insert-free d i runs at_end))
        (omega (arith, written is_filled, ap (λ s. bit (is_filled s)) stops, valid.counted))
        (omega
          (arith, written is_deleted, ap (λ s. bit (is_deleted s)) stops, valid.counted_deleted))
        room (omega (arith, count_deleted-le t.a_capacity, valid.counted, valid.counted_deleted))
        (ap is_used stops) self

  -- an insertion at a deleted slot
  Inserted-deleted :
      (d i m j : ℕ)
      → equal key key ≡ true
      → insert_loop hash equal
          (t.a_capacity + 7)
          t.a_table
          t.a_capacity
          key
          t.a_capacity
          (collidx t.a_capacity (hash key) 0)
          1
        ≡ some (false, d, i)
      → d ≡ probe t.a_capacity (hash key) m
      → t.a_table (probe t.a_capacity (hash key) m) ≡ deleted
      → ((n : ℕ) → n < m → is_empty (t.a_table (probe t.a_capacity (hash key) n)) ≡ false)
      → Inserted j
  unfolding is_used
  Inserted-deleted d i m j self runs at_m is_there before =
      let below : ltb d t.a_capacity ≡ true =
        ground (arith, at_m, probe-inside t.a_capacity (hash key) valid.positive valid.fits m) in
      let written = count-written hash equal laws t valid key value absent m before in
      let fewer = written is_deleted ∙ ap (λ c. c + 0) valid.counted_deleted in
      let was_deleted = ap (λ s. bit (is_deleted s)) is_there in
      Inserted-written m t.a_used (t.a_deleted - 1) j before
        (subst
          (λ i.
            insert hash equal t key value
            ≡ some (
              true,
              record t {
                a_table = update t.a_table i (used key value);
                a_deleted = t.a_deleted - 1;
              },
            ))
          at_m (insert-deleted d i runs below))
        (omega (arith, written is_filled, ap (λ s. bit (is_filled s)) is_there, valid.counted))
        (omega (arith, fewer, was_deleted)) valid.room
        (omega (
          arith,
          count_deleted-le t.a_capacity,
          valid.counted,
          valid.counted_deleted,
          fewer,
          was_deleted,
        ))
        (ap is_used is_there) self

  -- A key that a valid table does not have is inserted, if there are two empty slots: the table is
  -- valid afterwards, the key is found with its value, the size is one more, and a slot that has an
  -- association stays as it is.
  pub insert_lem :
      (j : ℕ)
      → t.a_used + 1 < t.a_capacity
      → equal key key ≡ true
      → (r : HashTable K V) × (insert hash equal t key value ≡ some (true, r))
        × IsValid hash equal r
        × (lookup_assoc hash equal r key ≡ some (some (key, value)))
        × (size r ≡ size t + 1)
        × ((r.a_table j ≡ t.a_table j) ⊎ (is_used (t.a_table j) ≡ false))
  unfolding probe
  insert_lem j room self =
      let (d, i, runs, (e, le, at_e, stops, others, place)) = loop_end in
      elim place [
        | inl none_deleted ↦
            Inserted-free d i e j room self runs at_e stops (λ m. λ lt. others m (omega arith) lt)
              none_deleted
        | inr (m, lt, at_m, is_there) ↦
            Inserted-deleted d i m j self runs at_m is_there
              (λ n. λ lt'. others n (omega arith) (omega (arith, lt, lt')))
      ]

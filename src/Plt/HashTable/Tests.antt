-- ===== src/Plt/HashTable/Tests.antt =====
-- Runs of the hash table with numbers as keys, and the theorems about it at a concrete table.
use mathlib.Core.Bool.{false≢true}
use acplt_ks.Base.{
  ◌>>=◌, ℕ, ◌+◌, ◌<◌, ◌≡◌, refl, Bool, true, false, arith, if◌then◌else◌, ◌==◌, ==_iff, ap, sym,
  ◌∙◌, Option, some, inl, inr, ◌⊎◌, Bool-cases,
}
use acplt_ks.Base.Cells.{count}
use acplt_ks.Plt.HashTable.{
  Slot, empty, used, HashTable, insert, lookup_assoc, size, is_used, remove_assoc, reset, add_assoc,
}
use acplt_ks.Plt.HashTable.Probe.{probe}
use acplt_ks.Plt.HashTable.Entries.{IsKey, IsValid}
use acplt_ks.Plt.HashTable.Insertion.{insert_lem}

abbrev self : ℕ → ℕ
self k = k

abbrev equal : ℕ → ℕ → Bool
equal k k' = k == k'

abbrev all_good : ℕ → Bool
all_good n = true

abbrev never : ℕ → ℕ → Bool
never n m = false

abbrev half : ℕ → ℕ
half n = n

-- the key 3 with the value 30
abbrev table : ℕ → Slot ℕ ℕ
table i = if i == 3 then used 3 30 else empty

abbrev one_key : HashTable ℕ ℕ
one_key = record { a_table = table; a_capacity = 7; a_min_capacity = 7; a_used = 1; a_deleted = 0 }

only_slot : (i k v : ℕ) → table i ≡ used k v → (i ≡ 3) × (3 ≡ k)
unfolding is_used
only_slot i k v e = elim (Bool-cases (i == 3)) [
  | inl three ↦
      let stored : used 3 30 ≡ used k v =
        sym (ap (λ b. if b then used 3 30 else empty) three) ∙ e in
      ((==_iff i 3).0 three, cc)
  | inr other ↦
      let stored : empty ≡ used k v = sym (ap (λ b. if b then used 3 30 else empty) other) ∙ e in
      absurd (false≢true (ap is_used stored))
]

numbers-IsKey : IsKey self equal
numbers-IsKey = record {
  hash_equal = λ k. λ k'. λ e. (==_iff k k').0 e;
  symmetric = λ k. λ k'. λ e. ground (arith, e);
  transitive = λ k. λ k'. λ k''. λ e. λ e'. ground (arith, e, e');
}

one_key-IsValid : IsValid self equal one_key
unfolding count probe
one_key-IsValid = record {
  positive = omega arith;
  fits = omega arith;
  counted = refl;
  counted_deleted = refl;
  room = omega arith;
  reached = λ i. λ k. λ v. λ inside. λ e.
      let o = only_slot i k v e in
      (0, ap (λ h. probe 7 h 0) (sym o.1) ∙ sym o.0, λ m. λ lt. absurd (omega arith));
  unique = λ i. λ j. λ k. λ k'. λ v.
      λ v'. λ hi. λ hj. λ e. λ e'. λ same. (only_slot i k v e).0 ∙ sym (only_slot j k' v' e').0;
}

ten_absent : (i k v : ℕ) → i < 7 → table i ≡ used k v → equal k 10 ≡ false
ten_absent i k v inside e = ground (arith, (only_slot i k v e).1)

insert_lem_example :
    (r : HashTable ℕ ℕ) × (insert self equal one_key 10 100 ≡ some (true, r))
    × IsValid self equal r
    × (lookup_assoc self equal r 10 ≡ some (some (10, 100)))
    × (size r ≡ size one_key + 1)
    × ((r.a_table 3 ≡ used 3 30) ⊎ (is_used (table 3) ≡ false))
insert_lem_example =
    insert_lem self equal numbers-IsKey one_key one_key-IsValid 10 100 ten_absent 3 (omega arith)
      refl

-- reset, addition of 3 and 10, removal of 3; what is found then
found_ten : Option (Option (ℕ × ℕ))
found_ten = do
  r ← reset self equal all_good 7
  a ← add_assoc self equal all_good never half r.1 3 30
  b ← add_assoc self equal all_good never half a.1 10 100
  c ← remove_assoc self equal all_good never half b.1 3
  lookup_assoc self equal c.1 10

found_ten_value : found_ten ≡ some (some (10, 100))
unfolding found_ten reset add_assoc remove_assoc lookup_assoc
found_ten_value = refl

-- ===== src/Plt/HashTable.antt =====
-- `PltHashTable_base`: plt/include/plt/hashtable.h and plt/src/hashtable.cpp, over a type of keys with
-- its hash function and its equality, and a type of values. A slot is null, `deletedAssoc` or an
-- association; the table is a function of the index. What the code computes in `float` from the sizes
-- is a parameter, and so is the answer of `new`.
pub mod Probe
pub mod Answers
pub mod Entries
pub mod Ending
pub mod Written
pub mod Insertion
mod Tests
use acplt_ks.Base.{
  ℕ, zero, suc, ◌+◌, ◌-◌, ◌*◌, ◌%◌, ◌^◌, Bool, true, false, not, ◌&&◌, ◌||◌, List, [], ◌∷◌, Option,
  none, some, if◌then◌else◌, leb, ltb, ◌==◌,
}
use acplt_ks.Base.Cells.{update}

pub data Slot (K V : Type 0) : Type 0 where
  empty deleted : Slot K V
  used : K → V → Slot K V

pub record HashTable (K V : Type 0) : Type 0 where
  pub a_table : ℕ → Slot K V
  pub a_capacity : ℕ
  pub a_min_capacity : ℕ
  pub a_used : ℕ
  pub a_deleted : ℕ

-- `collidx`, with the wrapping sum of `size_t`
abbrev pub collidx : ℕ → ℕ → ℕ → ℕ
collidx capacity i j = (if ltb j 12 then i + j else i + 1) % 2 ^ 64 % capacity

module _ {K V : Type 0} where
  -- `size`
  abbrev pub size : HashTable K V → ℕ
  size t = t.a_used - t.a_deleted

  pub is_used : Slot K V → Bool
  is_used empty = false
  is_used deleted = false
  is_used (used k v) = true

module _ {K V : Type 0} (hash : K → ℕ) (equal : K → K → Bool) where
  -- the loop of `locate` in so many rounds; the capacity if the key is not found
  pub locate_loop : ℕ → (ℕ → Slot K V) → ℕ → K → ℕ → ℕ → Option ℕ
  locate_loop zero table capacity key i j = none
  locate_loop (suc rounds) table capacity key i j =
      let rest = locate_loop rounds table capacity key (collidx capacity i j) (j + 2) in
      elim (table i) [
        | empty ↦ some capacity
        | deleted ↦ rest
        | used k v ↦ if equal k key then some i else rest
      ]

  -- `locate`, in the rounds that pass all slots: six of the quadratic probe and the linear ones
  pub locate : HashTable K V → K → Option ℕ
  unfolding locate_loop
  locate t key =
      locate_loop (t.a_capacity + 7) t.a_table t.a_capacity key (collidx t.a_capacity (hash key) 0)
        1

  pub lookup_assoc : HashTable K V → K → Option (Option (K × V))
  unfolding locate
  lookup_assoc t key = elim (locate t key) [
    | none ↦ none
    | some i ↦
        if ltb i t.a_capacity
        then elim (t.a_table i) [
          | empty ↦ some none
          | deleted ↦ none
          | used k v ↦ some (some (k, v))
        ]
        else some none
  ]

  -- the loop of `insert` in so many rounds: a duplicate, or `deleted` and the empty slot
  pub insert_loop : ℕ → (ℕ → Slot K V) → ℕ → K → ℕ → ℕ → ℕ → Option (Bool × ℕ × ℕ)
  insert_loop zero table capacity key deleted_at i j = none
  insert_loop (suc rounds) table capacity key deleted_at i j =
      let d : ℕ = elim (table i) [ empty ↦ deleted_at | deleted ↦ i | used k v ↦ deleted_at ] in
      let rest = insert_loop rounds table capacity key d (collidx capacity i j) (j + 2) in
      elim (table i) [
        | empty ↦ some (false, d, i)
        | deleted ↦ rest
        | used k v ↦ if equal k key then some (true, d, i) else rest
      ]

  -- `insert`: whether it inserted, and the table
  pub insert : HashTable K V → K → V → Option (Bool × HashTable K V)
  unfolding insert_loop
  insert t key value =
      elim (insert_loop (t.a_capacity + 7) t.a_table t.a_capacity key t.a_capacity
        (collidx t.a_capacity (hash key) 0) 1) [
          | none ↦ none
          | some (true, d, i) ↦ some (false, t)
          | some (false, d, i) ↦
              if ltb d t.a_capacity
              then some (
                true,
                record t {
                  a_table = update t.a_table d (used key value);
                  a_deleted = t.a_deleted - 1;
                },
              )
              else some (
                true,
                record t { a_table = update t.a_table i (used key value); a_used = t.a_used + 1 },
              )
        ]

-- `primes`
abbrev pub primes : List ℕ
primes =
    7 ∷ 11 ∷ 13 ∷ 17 ∷ 19 ∷ 23 ∷ 29 ∷ 31 ∷ 41 ∷ 47 ∷ 59 ∷ 67 ∷ 79 ∷ 97 ∷ 127 ∷ 137 ∷ 167 ∷ 197 ∷ 239
    ∷ 293 ∷ 347 ∷ 419 ∷ 499 ∷ 593 ∷ 709 ∷ 853 ∷ 1021 ∷ 1229 ∷ 1471 ∷ 1777 ∷ 2129 ∷ 2539 ∷ 3049
    ∷ 3659 ∷ 4391 ∷ 5273 ∷ 6323 ∷ 7583 ∷ 9103 ∷ 10937 ∷ 13109 ∷ 15727 ∷ 18899 ∷ 22651 ∷ 27179
    ∷ 32609 ∷ 39133 ∷ 46957 ∷ 56359 ∷ 67619 ∷ 81157 ∷ 97369 ∷ 116849 ∷ 140221 ∷ 168253 ∷ 201907
    ∷ 242309 ∷ 290761 ∷ 348889 ∷ 418667 ∷ 502409 ∷ 602887 ∷ 723467 ∷ 868151 ∷ 1041779 ∷ 1250141
    ∷ 1500181 ∷ 1800191 ∷ 2160233 ∷ 2592277 ∷ 3110741 ∷ 3732887 ∷ 4479463 ∷ 5375371 ∷ 6450413
    ∷ 7740517 ∷ 9288589 ∷ 11146307 ∷ 13375573 ∷ 16050689 ∷ 19260817 ∷ 23112977 ∷ 27735583 ∷ 33282701
    ∷ 39939233 ∷ 47927081 ∷ 57512503 ∷ 69014987 ∷ 82818011 ∷ 99381577 ∷ 119257883 ∷ 143109469
    ∷ 171731387 ∷ 206077643 ∷ 247293161 ∷ 296751781 ∷ 356102141 ∷ 427322587 ∷ 512787097 ∷ 615344489
    ∷ 738413383 ∷ 886096061 ∷ 1063315271 ∷ 1275978331 ∷ 1531174013 ∷ 1837408799 ∷ []

-- the loop over `primes`: the first one that is not smaller
pub find_prime : List ℕ → ℕ → Option ℕ
find_prime [] cap = none
find_prime (p ∷ ps) cap = if ltb p cap then find_prime ps cap else some p

module _ {K V : Type 0} (hash : K → ℕ) (equal : K → K → Bool) where
  -- the loop that inserts the used slots of the old table, so many from `i` on
  pub rehash : ℕ → ℕ → (ℕ → Slot K V) → HashTable K V → Option (HashTable K V)
  unfolding insert
  rehash zero i old t = some t
  rehash (suc rounds) i old t = elim (old i) [
    | empty ↦ rehash rounds (i + 1) old t
    | deleted ↦ rehash rounds (i + 1) old t
    | used k v ↦ elim (insert hash equal t k v) [
      | none ↦ none
      | some r ↦ rehash rounds (i + 1) old r.1
    ]
  ]

  -- `changeCapacity`, with what `new` answers for so many slots
  pub change_capacity : (ℕ → Bool) → HashTable K V → ℕ → Option (Bool × HashTable K V)
  unfolding find_prime rehash
  change_capacity alloc t cap =
      elim (find_prime primes (if ltb cap t.a_min_capacity then t.a_min_capacity else cap)) [
        | none ↦ some (false, t)
        | some new_cap ↦
            if new_cap == t.a_capacity
            then some (true, t)
            else if alloc new_cap
            then elim (rehash t.a_capacity 0 t.a_table (record t {
              a_table = λ i. empty;
              a_capacity = new_cap;
              a_used = 0;
              a_deleted = 0;
            })) [ none ↦ none | some r ↦ some (true, r) ]
            else some (false, t)
      ]

  -- the constructor, and `reset`, which begin without a table
  pub reset : (ℕ → Bool) → ℕ → Option (Bool × HashTable K V)
  unfolding change_capacity
  reset alloc mincap =
      let none_yet : HashTable K V = record {
        a_table = λ i. empty;
        a_capacity = 0;
        a_min_capacity = mincap;
        a_used = 0;
        a_deleted = 0;
      } in
      change_capacity alloc none_yet mincap

  -- `addAssoc`; `too_full` is `size() + 1 > a_capacity * a_highwater`, and `preferred` is
  -- `float(size()) / a_medwater`
  pub add_assoc :
      (ℕ → Bool) → (ℕ → ℕ → Bool) → (ℕ → ℕ) → HashTable K V → K → V → Option (Bool × HashTable K V)
  unfolding change_capacity insert
  add_assoc alloc too_full preferred t key value =
      let min_cap = t.a_used + 1 + 1 in
      let tmp = preferred (size t) in
      if ltb t.a_capacity min_cap || too_full (size t) t.a_capacity
      then elim (change_capacity alloc t (if ltb tmp min_cap then min_cap else tmp)) [
        | none ↦ none
        | some (false, r) ↦ some (false, r)
        | some (true, r) ↦ insert hash equal r key value
      ]
      else insert hash equal t key value

  -- `removeAssoc`: the association and the table; `too_empty` is `size() < a_capacity * a_lowwater`
  pub remove_assoc :
      (ℕ → Bool) → (ℕ → ℕ → Bool) → (ℕ → ℕ) → HashTable K V → K → Option (Slot K V × HashTable K V)
  unfolding locate change_capacity
  remove_assoc alloc too_empty preferred t key = elim (locate hash equal t key) [
    | none ↦ none
    | some i ↦
        let u : HashTable K V = record t {
          a_table = update t.a_table i deleted;
          a_deleted = t.a_deleted + 1;
        } in
        if not (ltb i t.a_capacity)
        then some (empty, t)
        else if too_empty (size u) u.a_capacity
        then elim (change_capacity alloc u (preferred (size u))) [
          | none ↦ none
          | some r ↦ some (t.a_table i, r.1)
        ]
        else some (t.a_table i, u)
  ]

-- ===== src/Base/Cells.antt =====
-- Memory as a function of the index: writes, and how many of the first cells pass a test.
use Prim.Native.Nat.{ℕ, zero, suc, ◌+◌, ◌<◌, ◌≤◌}
use mathlib.Core.Path.{◌≡◌, refl, ap}
use mathlib.Core.Logic.{◌≢◌, inl, inr}
use mathlib.Core.Bool.{Bool, true, false}
use native.Mathlib.Omega.{arith}
use native.Mathlib.Numerals.{add-one}
use acplt_ks.Base.{if◌then◌else◌, ◌==◌, ==_iff, Bool-cases}

-- `a[i] = v`
abbrev pub update {ℓ} : {T : Type ℓ} → (ℕ → T) → ℕ → T → ℕ → T
update a i v j = if j == i then v else a j

pub update_here {ℓ} : {T : Type ℓ} (a : ℕ → T) (i : ℕ) (v : T) → update a i v i ≡ v
update_here a i v = let same : (i == i) ≡ true = ground arith in rw same refl

pub update_there {ℓ} : {T : Type ℓ} (a : ℕ → T) (i j : ℕ) (v : T) → j ≢ i → update a i v j ≡ a j
update_there a i j v other = elim (Bool-cases (j == i)) [
  | inl same ↦ absurd (other ((==_iff j i).0 same))
  | inr e ↦ rw e refl
]

abbrev pub bit : Bool → ℕ
bit b = if b then 1 else 0

module _ {T : Type 0} (p : T → Bool) where
  -- how many of the first `n` cells pass the test
  unfoldable pub count : (ℕ → T) → ℕ → ℕ
  count a zero = 0
  count a (suc n) = bit (p (a n)) + count a n

  pub count_plus_one : (a : ℕ → T) (n : ℕ) → count a (n + 1) ≡ bit (p (a n)) + count a n
  unfolding count
  count_plus_one a n = rw (add-one n) refl

  pub count-update_out : (a : ℕ → T) (n i : ℕ) (v : T) → n ≤ i → count (update a i v) n ≡ count a n
  unfolding count
  count-update_out a zero i v h = refl
  count-update_out a (suc n) i v h = ground (arith, count-update_out a n i v)

  -- a write takes one element away and adds another
  pub count-update :
      (a : ℕ → T) (n i : ℕ) (v : T)
      → i < n
      → count (update a i v) n + bit (p (a i)) ≡ count a n + bit (p v)
  unfolding count
  count-update a zero i v h = elim h [ ]
  count-update a (suc n) i v h = elim (Bool-cases (n == i)) [
    | inl same ↦
        let e = (==_iff n i).0 same in
        rw same (omega (arith, count-update_out a n i v (omega arith), ap (λ k. bit (p (a k))) e))
    | inr other ↦ rw other (omega (arith, count-update a n i v (ground (arith, other))))
  ]

  -- fewer than all of them
  pub count-fails : (a : ℕ → T) (n : ℕ) → count a n < n → (i : ℕ) × (i < n) × (p (a i) ≡ false)
  unfolding count
  count-fails a zero h = elim h [ ]
  count-fails a (suc n) h = elim (Bool-cases (p (a n))) [
    | inl passes ↦
        let r = count-fails a n (omega (arith, ap bit passes)) in (r.0, omega (arith, r.1), r.2)
    | inr fails ↦ (n, omega arith, fails)
  ]

  pub count-le : (a : ℕ → T) (n : ℕ) → count a n ≤ n
  unfolding count
  count-le a zero = omega arith
  count-le a (suc n) = ground (arith, count-le a n)

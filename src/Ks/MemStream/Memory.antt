-- ===== src/Ks/MemStream/Memory.antt =====
-- Copies into memory and out of it.
use acplt_ks.Base.{
  ℕ, zero, suc, ◌+◌, ◌<◌, ◌≤◌, ◌≡◌, refl, ap, ap₂, ◌∙◌, List, [], ◌∷◌, ◌++◌, arith, length,
}
use acplt_ks.Base.Cells.{update}
use acplt_ks.Ks.MemStream.Transfer.{copy_in, copy_out}

pub length-copy_out : (m : ℕ → ℕ) (from n : ℕ) → length (copy_out m from n) ≡ n
length-copy_out m from zero = refl
length-copy_out m from (suc n) = ap suc (length-copy_out m (from + 1) n)

pub copy_out_add :
    (m : ℕ → ℕ) (from n k : ℕ)
    → copy_out m from (n + k) ≡ copy_out m from n ++ copy_out m (from + n) k
copy_out_add m from zero k =
    let none_more : 0 + k ≡ k = omega arith in
    let here : from ≡ from + 0 = omega arith in
    ap (copy_out m from) none_more ∙ ap (λ a. copy_out m a k) here
copy_out_add m from (suc n) k =
    let one_more : suc n + k ≡ suc (n + k) = omega arith in
    let next : from + 1 + n ≡ from + suc n = omega arith in
    ap (copy_out m from) one_more
    ∙ ap (λ l. m from ∷ l)
        (copy_out_add m (from + 1) n k ∙ ap (λ a. copy_out m (from + 1) n ++ copy_out m a k) next)

copy_in_before : (m : ℕ → ℕ) (to : ℕ) (bs : List ℕ) (i : ℕ) → i < to → copy_in m to bs i ≡ m i
copy_in_before m to [] i h = refl
copy_in_before m to (b ∷ bs) i h =
    copy_in_before (update m to b) (to + 1) bs i (omega arith) ∙ ground arith

-- what is in front of the copy stays
pub copy_out-copy_in_before :
    (m : ℕ → ℕ) (to : ℕ) (bs : List ℕ) (from n : ℕ)
    → from + n ≤ to
    → copy_out (copy_in m to bs) from n ≡ copy_out m from n
copy_out-copy_in_before m to bs from zero h = refl
copy_out-copy_in_before m to bs from (suc n) h =
    ap₂ (λ b l. b ∷ l) (copy_in_before m to bs from (omega arith))
      (copy_out-copy_in_before m to bs (from + 1) n (omega arith))

-- what has been copied in comes out
pub copy_out-copy_in :
    (m : ℕ → ℕ) (to : ℕ) (bs : List ℕ) → copy_out (copy_in m to bs) to (length bs) ≡ bs
copy_out-copy_in m to [] = refl
copy_out-copy_in m to (b ∷ bs) =
    ap₂ (λ c l. c ∷ l) (copy_in_before (update m to b) (to + 1) bs to (omega arith) ∙ ground arith)
      (copy_out-copy_in (update m to b) (to + 1) bs)

-- the bytes from the beginning, behind a copy
pub copy_in-extends :
    (m : ℕ → ℕ) (to : ℕ) (bs : List ℕ)
    → copy_out (copy_in m to bs) 0 (to + length bs) ≡ copy_out m 0 to ++ bs
copy_in-extends m to bs =
    let start : 0 + to ≡ to = omega arith in
    copy_out_add (copy_in m to bs) 0 to (length bs)
    ∙ ap₂ (λ k l. k ++ l) (copy_out-copy_in_before m to bs 0 to (omega arith))
        (ap (λ a. copy_out (copy_in m to bs) a (length bs)) start ∙ copy_out-copy_in m to bs)

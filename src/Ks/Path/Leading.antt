-- ===== src/Ks/Path/Leading.antt =====
-- Absolute paths whose first component is made of dots.
use mathlib.Core.Option
use acplt_ks.Base.{
  ℕ, zero, suc, ◌+◌, ◌-◌, ◌<◌, ◌≤◌, ◌≡◌, refl, Bool, true, false, [], ◌∷◌, ◌++◌, arith, ◌==◌,
  if◌then◌else◌, none, some, drop, replicate, inl, inr, some_cancel, Option-cases,
}
use acplt_ks.Ks.Conversions.{Text}
use acplt_ks.Ks.Path.{
  count_slashes, check_and_count, skip_front, save_slashes, find_slashes, from_string,
}

slashes : Text → ℕ
slashes [] = 0
slashes (c ∷ cs) = (if c == b'/' then 1 else 0) + slashes cs

count_slashes-slashes : (b : Bool) (t : Text) (n : ℕ) → count_slashes b t ≡ some n → slashes t ≡ n
unfolding count_slashes slashes
count_slashes-slashes b [] n h = some_cancel h
count_slashes-slashes b (c ∷ cs) n h = elim (Option-cases (count_slashes (c == b'/') cs)) [
  | inl e ↦ ground (arith, e, h)
  | inr (k, e) ↦ ground (arith, e, h, count_slashes-slashes (c == b'/') cs k e)
]

save_slashes-few : (n si : ℕ) (t : Text) → slashes t < n → save_slashes n si t ≡ none
unfolding save_slashes slashes
save_slashes-few zero si t h = elim h [ ]
save_slashes-few (suc n) si [] h = refl
save_slashes-few (suc n) si (c ∷ cs) h =
    ground (arith, save_slashes-few n (si + 1) cs, save_slashes-few (suc n) (si + 1) cs)

slashes-drop : (t : Text) → slashes (drop (skip_front t) t) ≤ slashes t
unfolding slashes skip_front
slashes-drop [] = omega arith
slashes-drop (c ∷ cs) = ground (arith, slashes-drop cs)

-- a first component of dots, and the slash behind it
abbrev pub dots : ℕ → Text → Text
dots k t = b'/' ∷ (replicate k b'.' ++ b'/' ∷ t)

count_slashes-dots :
    (k : ℕ) (b : Bool) (t : Text)
    → count_slashes b (replicate (suc k) b'.' ++ b'/' ∷ t) ≡ Option.map suc (count_slashes true t)
unfolding count_slashes
count_slashes-dots zero b t = refl
count_slashes-dots (suc k) b t = count_slashes-dots k false t

slashes_behind-dots :
    (k : ℕ) (t : Text)
    → slashes (drop (skip_front (replicate k b'.' ++ b'/' ∷ t)) (replicate k b'.' ++ b'/' ∷ t))
      ≤ slashes t
unfolding skip_front
slashes_behind-dots zero t = slashes-drop t
slashes_behind-dots (suc k) t = slashes_behind-dots k t

-- An absolute path of more than one component, of which the first is made of dots, makes
-- `findSlashes` read behind the end of the string.
pub from_string-dots :
    (k n : ℕ) (t : Text) → count_slashes true t ≡ some n → from_string (dots (suc k) t) ≡ none
unfolding from_string check_and_count find_slashes skip_front
from_string-dots k n t h =
    let few = slashes_behind-dots (suc k) t in
    let same = count_slashes-slashes true t n h in
    let two : (suc n + 2 == 0) ≡ false × (suc n + 2 == 1) ≡ false = (ground arith, ground arith) in
    rw
      (
        from_string,
        count_slashes-dots k true t,
        h,
        two.0,
        two.1,
        save_slashes-few (suc n + 2 - 2) (skip_front (dots (suc k) t))
            (drop (skip_front (dots (suc k) t)) (dots (suc k) t)) (omega arith),
      )
      refl

-- ===== src/Ks/Path/Resolve.antt =====
-- Resolving a relative path in the context of an absolute one.
use mathlib.Core.List.{append_assoc}
use acplt_ks.Base.{
  ℕ, suc, ◌+◌, ◌-◌, ◌<◌, ◌≡◌, refl, true, false, List, [], ◌∷◌, ◌++◌, arith, ◌==◌, leb,
  if◌then◌else◌, length, length-append, All, ap, sym, ◌∙◌, some,
}
use acplt_ks.Ks.Conversions.{Text}
use acplt_ks.Ks.Path.{
  KsPath, add_size, sub_size, substr, size, is_absolute, append_path, resolve, invalid, from_string,
  find_slashes, check_and_count, count_slashes,
}
use acplt_ks.Ks.Path.Names.{
  IsName, IsPath, path_text, folders, begins_plain, prefix, path_of, path_text-append,
}
use acplt_ks.Ks.Path.Parse.{find_slashes-path_of}
use acplt_ks.Ks.Path.Element.{
  Fits, count_bound, size-path_of, own_part-path_of, slash-path_of, substr-window, take-append,
}

All-append : (ds bs : List Text) → All IsName ds → All IsName bs → All IsName (ds ++ bs)
All-append [] bs h k = k
All-append (d ∷ ds) bs h k = (h.0, All-append ds bs h.1 k)

All-front : (ds bs : List Text) → All IsName (ds ++ bs) → All IsName ds
All-front [] bs h = tt
All-front (d ∷ ds) bs h = (h.0, All-front ds bs h.1)

pub begins_plain-front :
    (d : Text) (ds : List Text) → 0 < length d → begins_plain (path_text (d ∷ ds)) ≡ begins_plain d
unfolding path_text
begins_plain-front [] ds h = elim h [ ]
begins_plain-front (x ∷ d) [] h = refl
begins_plain-front (x ∷ d) (e ∷ ds) h = refl

-- The names that remain and those of a relative path make a path.
IsPath-append : (ds es bs : List Text) → IsPath (ds ++ es) → IsPath bs → IsPath (ds ++ bs)
IsPath-append [] es bs h k = k
IsPath-append (d ∷ ds) es bs h k = (
  omega arith,
  (h.1.0, All-append ds bs (All-front ds es h.1.1) k.1),
  begins_plain-front d (ds ++ bs) h.1.0.0 ∙ sym (begins_plain-front d (ds ++ es) h.1.0.0) ∙ h.2,
)

-- the part of the context in front of a component
substr-front :
    (up : ℕ) (ds : List Text) (c : Text) (es : List Text)
    → substr (path_of up (ds ++ c ∷ es)).str 0 (length (prefix up) + length (folders ds))
      ≡ prefix up ++ folders ds
unfolding path_of
substr-front up ds c es =
    rw
      (
        substr-window (prefix up ++ path_text (ds ++ c ∷ es)) 0
            (length (prefix up) + length (folders ds)),
        path_text-append ds c es,
        ← length-append (prefix up) (folders ds),
        ← append_assoc (prefix up) (folders ds) (path_text (c ∷ es)),
      )
      (take-append (prefix up ++ folders ds) (path_text (c ∷ es)))

path_text-append_path :
    (ds bs : List Text) → IsPath bs → path_text (ds ++ bs) ≡ folders ds ++ path_text bs
path_text-append_path ds [] h = elim h.0 [ ]
path_text-append_path ds (b ∷ bs) h = path_text-append ds b bs

append_path-path_of :
    (up : ℕ) (ds : List Text) (c : Text) (es bs : List Text)
    → IsPath (ds ++ c ∷ es)
    → Fits up (ds ++ c ∷ es)
    → IsPath bs
    → Fits (suc (length es)) bs
    → Fits up (ds ++ bs)
    → append_path (path_of up (ds ++ c ∷ es)) (path_of (suc (length es)) bs)
      ≡ some (record (path_of up (ds ++ bs)) { go_up = 0 })
unfolding append_path path_of
append_path-path_of up ds c es bs abs fits_abs rel fits_rel fits =
    let n_abs = count_bound up (ds ++ c ∷ es) abs.1 fits_abs in
    let n_rel = count_bound (suc (length es)) bs rel.1 fits_rel in
    let path = IsPath-append ds (c ∷ es) bs abs rel in
    let n = count_bound up (ds ++ bs) path.1 fits in
    let len_abs = length-append ds (c ∷ es) in
    let len = length-append ds bs in
    let at_end : add_size (sub_size (length (ds ++ c ∷ es) - 1) (suc (length es))) 1 ≡ length ds =
      omega arith in
    let new_size : add_size
          (add_size (sub_size (length (ds ++ c ∷ es)) (suc (length es))) (length bs)) 1
        ≡ length (ds ++ bs) + 1 =
      omega arith in
    let text =
      ap (λ t. t ++ path_text bs) (substr-front up ds c es)
      ∙ append_assoc (prefix up) (folders ds) (path_text bs)
      ∙ ap (λ t. prefix up ++ t) (sym (path_text-append_path ds bs rel)) in
    rw
      (
        append_path,
        at_end,
        (slash-path_of up ds c es).0,
        own_part-path_of (suc (length es)) bs rel fits_rel,
        size-path_of up (ds ++ c ∷ es) abs.0 n_abs,
        size-path_of (suc (length es)) bs rel.0 n_rel,
        new_size,
      )
      (ap (λ t. find_slashes t (length (ds ++ bs) + 1) 0) text
        ∙ find_slashes-path_of up 0 (ds ++ bs) path)

pub resolve-absolute :
    (cs bs : List Text) → resolve (path_of 0 cs) (path_of 0 bs) ≡ some (path_of 0 bs)
unfolding resolve is_absolute path_of
resolve-absolute cs bs = refl

resolve-relative :
    (context rel : KsPath) (n : ℕ)
    → size context ≡ n
    → 0 < rel.go_up
    → resolve context rel
      ≡ (if leb rel.go_up n then append_path context rel else from_string (b'/' ∷ b'/' ∷ []))
unfolding resolve is_absolute
resolve-relative context rel n e go =
    let relative : (rel.go_up == 0) ≡ false = ground arith in rw (relative, e) refl

pub resolve-path_of_any :
    (up : ℕ) (ds es bs : List Text)
    → 0 < length es
    → IsPath (ds ++ es)
    → Fits up (ds ++ es)
    → IsPath bs
    → Fits (length es) bs
    → Fits up (ds ++ bs)
    → resolve (path_of up (ds ++ es)) (path_of (length es) bs)
      ≡ some (record (path_of up (ds ++ bs)) { go_up = 0 })
unfolding path_of
resolve-path_of_any up ds [] bs go abs fits_abs rel fits_rel fits = elim go [ ]
resolve-path_of_any up ds (c ∷ es) bs go abs fits_abs rel fits_rel fits =
    let n_abs = count_bound up (ds ++ c ∷ es) abs.1 fits_abs in
    let enough : leb (suc (length es)) (length (ds ++ c ∷ es)) ≡ true =
      ground (arith, length-append ds (c ∷ es)) in
    resolve-relative (path_of up (ds ++ c ∷ es)) (path_of (suc (length es)) bs)
      (length (ds ++ c ∷ es)) (size-path_of up (ds ++ c ∷ es) abs.0 n_abs) (omega arith)
    ∙ ap
        (λ b.
          if b
          then append_path (path_of up (ds ++ c ∷ es)) (path_of (suc (length es)) bs)
          else from_string (b'/' ∷ b'/' ∷ []))
        enough
    ∙ append_path-path_of up ds c es bs abs fits_abs rel fits_rel fits

pub resolve-too_far :
    (at_up : ℕ) (cs bs : List Text) (up : ℕ)
    → length cs < up
    → IsPath cs
    → Fits at_up cs
    → resolve (path_of at_up cs) (path_of up bs) ≡ some (invalid (b'/' ∷ b'/' ∷ []))
unfolding path_of from_string check_and_count count_slashes
resolve-too_far at_up cs bs up far abs fits =
    let n_abs = count_bound at_up cs abs.1 fits in
    let enough : leb up (length cs) ≡ false = ground arith in
    resolve-relative (path_of at_up cs) (path_of up bs) (length cs)
      (size-path_of at_up cs abs.0 n_abs) (omega arith)
    ∙ ap
        (λ b.
          if b
          then append_path (path_of at_up cs) (path_of up bs)
          else from_string (b'/' ∷ b'/' ∷ []))
        enough

-- Resolving a relative path of names goes up as many components of the context as the path has `../`,
-- and one more, and appends its names, if the offsets fit in a `size_t`.
pub resolve-path_of :
    (ds es bs : List Text)
    → 0 < length es
    → IsPath (ds ++ es)
    → Fits 0 (ds ++ es)
    → IsPath bs
    → Fits (length es) bs
    → Fits 0 (ds ++ bs)
    → resolve (path_of 0 (ds ++ es)) (path_of (length es) bs) ≡ some (path_of 0 (ds ++ bs))
unfolding path_of
resolve-path_of ds es bs go abs fits_abs rel fits_rel fits =
    resolve-path_of_any 0 ds es bs go abs fits_abs rel fits_rel fits

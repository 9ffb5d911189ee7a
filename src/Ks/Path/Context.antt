-- ===== src/Ks/Path/Context.antt =====
-- `resolvePaths` on the texts of lists of names.
use acplt_ks.Base.{
  ℕ, ◌<◌, ◌≡◌, refl, false, List, [], ◌∷◌, ◌++◌, arith, ◌==◌, if◌then◌else◌, length, some,
}
use acplt_ks.Ks.Conversions.{Text}
use acplt_ks.Ks.Path.{
  KsPath, err_ok, err_badpath, invalid, resolve, resolve_id, resolve_ids, is_absolute,
}
use acplt_ks.Ks.Path.Names.{IsPath, path_text, prefix, path_of}
use acplt_ks.Ks.Path.Parse.{from_string-path_text}
use acplt_ks.Ks.Path.Element.{Fits}
use acplt_ks.Ks.Path.Resolve.{
  resolve-path_of, resolve-path_of_any, resolve-too_far, resolve-absolute,
}

abbrev pub id_text : ℕ → List Text → Text
id_text up cs = prefix up ++ path_text cs

-- behind an invalid path
resolve_id-lost :
    (s : Text) (up : ℕ) (cs : List Text)
    → IsPath cs
    → resolve_id (invalid s) (id_text up cs)
      ≡ some (path_of up cs, (if up == 0 then err_ok else err_badpath))
unfolding resolve_id is_absolute path_of
resolve_id-lost s up cs h = rw (from_string-path_text up cs h) refl

resolve_id-resolves :
    (at_up up : ℕ) (context cs : List Text) (p : KsPath)
    → IsPath cs
    → resolve (path_of at_up context) (path_of up cs) ≡ some p
    → resolve_id (path_of at_up context) (id_text up cs)
      ≡ some (p, (if p.valid then err_ok else err_badpath))
unfolding resolve_id path_of
resolve_id-resolves at_up up context cs p h e = rw (from_string-path_text up cs h, e) refl

-- In the context of an absolute path an absolute path stays, a relative one goes up and appends, and
-- one that goes up farther than there are components becomes an invalid path. Behind an invalid path
-- an absolute path stays, and a relative one stays and is an error. The results say so. Offsets fit.
pub resolve_id_lem :
    (ds es bs : List Text) (s : Text) (far up : ℕ)
    → IsPath (ds ++ es)
    → Fits 0 (ds ++ es)
    → IsPath bs
    → Fits (length es) bs
    → Fits 0 (ds ++ bs)
    → 0 < length es
    → length (ds ++ es) < far
    → (resolve_id (path_of 0 (ds ++ es)) (id_text 0 bs) ≡ some (path_of 0 bs, err_ok))
      × (resolve_id (path_of 0 (ds ++ es)) (id_text (length es) bs)
          ≡ some (path_of 0 (ds ++ bs), err_ok))
      × (resolve_id (path_of 0 (ds ++ es)) (id_text far bs)
          ≡ some (invalid (b'/' ∷ b'/' ∷ []), err_badpath))
      × (resolve_id (invalid s) (id_text up bs)
          ≡ some (path_of up bs, (if up == 0 then err_ok else err_badpath)))
unfolding path_of
resolve_id_lem ds es bs s far up abs fits_abs rel fits_rel fits go gone = (
  resolve_id-resolves 0 0 (ds ++ es) bs (path_of 0 bs) rel (resolve-absolute (ds ++ es) bs),
  resolve_id-resolves 0 (length es) (ds ++ es) bs (path_of 0 (ds ++ bs)) rel
      (resolve-path_of ds es bs go abs fits_abs rel fits_rel fits),
  resolve_id-resolves 0 far (ds ++ es) bs (invalid (b'/' ∷ b'/' ∷ [])) rel
      (resolve-too_far 0 (ds ++ es) bs far gone abs fits_abs),
  resolve_id-lost s up bs rel,
)

-- Two relative paths and nothing absolute in front of them: the first is an error, but the second is
-- resolved against it all the same, becomes an absolute path and is accepted.
pub resolve_ids-no_context :
    (up : ℕ) (ds es bs : List Text) (s : Text)
    → 0 < up
    → 0 < length es
    → IsPath (ds ++ es)
    → Fits up (ds ++ es)
    → IsPath bs
    → Fits (length es) bs
    → Fits up (ds ++ bs)
    → resolve_ids (invalid s) (id_text up (ds ++ es) ∷ id_text (length es) bs ∷ [])
      ≡ some (
          (path_of up (ds ++ es), err_badpath)
          ∷ (record (path_of up (ds ++ bs)) { go_up = 0 }, err_ok)
          ∷ [])
unfolding resolve_ids path_of
resolve_ids-no_context up ds es bs s relative go abs fits_abs rel fits_rel fits =
    let positive : (up == 0) ≡ false = ground arith in
    let second =
      resolve_id-resolves up (length es) (ds ++ es) bs
        (record (path_of up (ds ++ bs)) { go_up = 0 }) rel
        (resolve-path_of_any up ds es bs go abs fits_abs rel fits_rel fits) in
    rw (resolve_id-lost s up (ds ++ es) abs, positive, second) refl

-- ===== src/Ks/Path/Names.antt =====
-- Paths as lists of component names: the text that the protocol writes for them, and the `KsPath` of
-- that text.
use acplt_ks.Base.{
  ℕ, zero, suc, ◌+◌, ◌-◌, ◌<◌, ◌≤◌, ◌≡◌, refl, Bool, true, false, not, ◌||◌, List, [], ◌∷◌, ◌++◌,
  arith, ◌==◌, length, length-append, All, ap, sym,
}
use mathlib.Core.List.{append_assoc}
use acplt_ks.Ks.Conversions.{Text}
use acplt_ks.Ks.Path.{KsPath, size_max, go_ups}

abbrev pub IsPlain : ℕ → Type 0
IsPlain c = (c == b'/') ≡ false

abbrev pub IsName : Text → Type 0
IsName name = (0 < length name) × All IsPlain name

-- the names with a slash between them
unfoldable pub path_text : List Text → Text
path_text [] = []
path_text (c ∷ []) = c
path_text (c ∷ d ∷ cs) = c ++ b'/' ∷ path_text (d ∷ cs)

-- the names with a slash behind each
unfoldable pub folders : List Text → Text
folders [] = []
folders (c ∷ cs) = c ++ b'/' ∷ folders cs

-- a character that is not skipped at the front of a path
abbrev pub begins_plain : Text → Bool
begins_plain [] = false
begins_plain (c ∷ cs) = not (c == b'/' || c == b'.')

-- There is a name, and the first one does not begin with a dot.
abbrev pub IsPath : List Text → Type 0
IsPath cs = (0 < length cs) × All IsName cs × (begins_plain (path_text cs) ≡ true)

-- what stands before the names: a slash for 0, and else one `../` less than the number
unfoldable pub prefix : ℕ → Text
unfolding go_ups
prefix zero = b'/' ∷ []
prefix (suc k) = go_ups k

-- where the names begin in their text
unfoldable pub begins : ℕ → List Text → List ℕ
begins si [] = []
begins si (c ∷ cs) = si ∷ begins (si + length c + 1) cs

-- the path of these names, `up` as `_go_up`
unfoldable pub path_of : ℕ → List Text → KsPath
unfolding path_text prefix begins
path_of up cs = record {
  str = prefix up ++ path_text cs;
  valid = true;
  slash = begins (length (prefix up)) cs ++ size_max ∷ [];
  first = 0;
  last = length cs - 1;
  go_up = up;
}

pub path_text-append :
    (ds : List Text) (b : Text) (bs : List Text)
    → path_text (ds ++ b ∷ bs) ≡ folders ds ++ path_text (b ∷ bs)
unfolding path_text folders
path_text-append [] b bs = refl
path_text-append (d ∷ []) b bs = sym (append_assoc d (b'/' ∷ []) (path_text (b ∷ bs)))
path_text-append (d ∷ d' ∷ ds) b bs =
    rw (path_text-append (d' ∷ ds) b bs)
      (sym (append_assoc d (b'/' ∷ folders (d' ∷ ds)) (path_text (b ∷ bs))))

pub begins-append :
    (si : ℕ) (ds bs : List Text)
    → begins si (ds ++ bs) ≡ begins si ds ++ begins (si + length (folders ds)) bs
unfolding begins folders
begins-append si [] bs = ap (λ n. begins n bs) (omega arith)
begins-append si (d ∷ ds) bs = rw (begins-append (si + length d + 1) ds bs) (
    ap (λ n. si ∷ (begins (si + length d + 1) ds ++ begins n bs))
      (omega (arith, length-append d (b'/' ∷ folders ds))))

pub length-begins : (si : ℕ) (cs : List Text) → length (begins si cs) ≡ length cs
unfolding begins
length-begins si [] = refl
length-begins si (c ∷ cs) = ap suc (length-begins (si + length c + 1) cs)

pub length_names-path_text : (cs : List Text) → All IsName cs → length cs ≤ length (path_text cs)
unfolding path_text
length_names-path_text [] h = omega arith
length_names-path_text (c ∷ []) h = omega (arith, h.0.0)
length_names-path_text (c ∷ d ∷ cs) h =
    omega (arith, length_names-path_text (d ∷ cs) h.1, length-append c (b'/' ∷ path_text (d ∷ cs)))

-- ===== src/Ks/AbsPath/Tests.antt =====
-- The theorems about absolute paths at concrete paths.
use acplt_ks.Base.{◌>>=◌, ◌≡◌, refl, [], ◌∷◌, arith, some}
use acplt_ks.Ks.Conversions.{Text}
use acplt_ks.Ks.Path.Names.{IsPath, path_text, prefix, path_of}
use acplt_ks.Ks.AbsPath.{
  abs_path, get_host, get_server, get_host_and_server, get_var_path, get_name_only, get_path_only,
}
use acplt_ks.Ks.AbsPath.Parts.{parts_lem}

abbrev h : Text
h = b'h' ∷ b'o' ∷ []

abbrev s : Text
s = b's' ∷ []

abbrev v : Text
v = b'v' ∷ []

-- `/ho/s/v`, `/ho/s/v/s`
three-IsPath : IsPath (h ∷ s ∷ v ∷ [])
unfolding path_text
three-IsPath = (
  omega arith,
  ((omega arith, (refl, (refl, tt))), ((omega arith, (refl, tt)), ((omega arith, (refl, tt)), tt))),
  refl,
)

two-IsPath : IsPath (h ∷ s ∷ [])
unfolding path_text
two-IsPath =
    (omega arith, ((omega arith, (refl, (refl, tt))), ((omega arith, (refl, tt)), tt)), refl)

v-IsPath : IsPath (v ∷ [])
unfolding path_text
v-IsPath = (omega arith, ((omega arith, (refl, tt)), tt), refl)

name_only : (abs_path (b'/' ∷ path_text (h ∷ s ∷ v ∷ v ∷ [])) >>= get_name_only) ≡ some v
unfolding abs_path get_name_only path_text
name_only = refl

path_only : (abs_path (b'/' ∷ path_text (h ∷ s ∷ v ∷ s ∷ [])) >>= get_path_only) ≡ some (b'/' ∷ v)
unfolding abs_path get_path_only path_text
path_only = refl

parts_lem_example :
    (get_host (path_of 0 (h ∷ s ∷ v ∷ [])) ≡ some h)
    × (get_server (path_of 0 (h ∷ s ∷ v ∷ [])) ≡ some s)
    × (get_host_and_server (path_of 0 (h ∷ s ∷ v ∷ [])) ≡ some (path_of 0 (h ∷ s ∷ [])))
    × (get_var_path (path_of 0 (h ∷ s ∷ v ∷ [])) ≡ some (path_of 0 (v ∷ [])))
unfolding prefix path_text
parts_lem_example = parts_lem h s v [] three-IsPath (omega arith) v-IsPath

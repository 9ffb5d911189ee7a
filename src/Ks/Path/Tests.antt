-- ===== src/Ks/Path/Tests.antt =====
-- Runs of the path operations, and the theorems about paths at concrete paths.
use acplt_ks.Base.{
  ◌>>=◌, ℕ, ◌≡◌, refl, Bool, true, List, [], ◌∷◌, ◌++◌, arith, Option, none, some, map,
}
use acplt_ks.Ks.Conversions.{Text}
use acplt_ks.Ks.Path.{
  KsPath, KsResult, err_ok, err_badpath, invalid, from_string, element, to_string, resolve,
  resolve_id, resolve_paths, decode_percents, check_and_count, skip_dots, count_slashes, skip_front,
  save_slashes, find_slashes, substr,
}
use acplt_ks.Ks.Path.Names.{IsPath, path_text, prefix, path_of}
use acplt_ks.Ks.Path.Parse.{from_string-path_text}
use acplt_ks.Ks.Path.Element.{to_string-path_of}
use acplt_ks.Ks.Path.Resolve.{resolve-path_of}
use acplt_ks.Ks.Path.Context.{resolve_id_lem, id_text}

abbrev ab : Text
ab = b'a' ∷ b'b' ∷ []

abbrev c : Text
c = b'c' ∷ []

-- the dot in front of the first component is lost: `/.a` is read as `a`
hidden_name : (from_string (b'/' ∷ b'.' ∷ b'a' ∷ []) >>= λ p. element p 0) ≡ some (b'a' ∷ [])
unfolding from_string check_and_count skip_dots count_slashes skip_front save_slashes find_slashes
    element substr
hidden_name = refl

all_good : ℕ → Bool
all_good n = true

abbrev codes : Option (List (KsPath × KsResult)) → List KsResult
codes none = []
codes (some rs) = map (λ r. r.1) rs

-- `/ab`, `./c`, `//` and `./c`
results :
    codes (
      resolve_paths all_good
        ((b'/' ∷ ab) ∷ (b'.' ∷ b'/' ∷ c) ∷ (b'/' ∷ b'/' ∷ []) ∷ (b'.' ∷ b'/' ∷ c) ∷ []))
    ≡ err_ok ∷ err_ok ∷ err_badpath ∷ err_badpath ∷ []
unfolding resolve_paths
results = refl

-- `/ab%2fc/c` has the components `ab/c` and `c` when it is decoded
decoded :
    (from_string (b'/' ∷ b'a' ∷ b'%' ∷ b'2' ∷ b'f' ∷ b'/' ∷ c) >>= λ p.
    decode_percents all_good p >>= λ r. element r.0 1)
    ≡ some c
unfolding decode_percents from_string all_good element
decoded = refl

-- the path `ab/c`
abbrev two_names : List Text
two_names = ab ∷ c ∷ []

two_names-IsPath : IsPath two_names
unfolding path_text
two_names-IsPath =
    (omega arith, ((omega arith, (refl, (refl, tt))), ((omega arith, (refl, tt)), tt)), refl)

c-IsPath : IsPath (c ∷ [])
unfolding path_text
c-IsPath = (omega arith, ((omega arith, (refl, tt)), tt), refl)

from_string-path_text_example :
    from_string (prefix 2 ++ path_text two_names) ≡ some (path_of 2 two_names)
from_string-path_text_example = from_string-path_text 2 two_names two_names-IsPath

to_string-path_of_example : to_string (path_of 3 two_names) ≡ some (prefix 3 ++ path_text two_names)
unfolding prefix path_text
to_string-path_of_example = to_string-path_of 3 two_names two_names-IsPath (omega arith)

resolve-path_of_example :
    resolve (path_of 0 two_names) (path_of 1 (c ∷ [])) ≡ some (path_of 0 two_names)
unfolding prefix path_text
resolve-path_of_example =
    resolve-path_of (ab ∷ []) (c ∷ []) (c ∷ []) (omega arith) two_names-IsPath (omega arith)
      c-IsPath (omega arith) (omega arith)

resolve_id_lem_example :
    (resolve_id (path_of 0 two_names) (id_text 0 (c ∷ [])) ≡ some (path_of 0 (c ∷ []), err_ok))
    × (resolve_id (path_of 0 two_names) (id_text 1 (c ∷ [])) ≡ some (path_of 0 two_names, err_ok))
    × (resolve_id (path_of 0 two_names) (id_text 3 (c ∷ []))
        ≡ some (invalid (b'/' ∷ b'/' ∷ []), err_badpath))
    × (resolve_id (invalid (b'/' ∷ b'/' ∷ [])) (id_text 2 (c ∷ []))
        ≡ some (path_of 2 (c ∷ []), err_badpath))
unfolding prefix path_text
resolve_id_lem_example =
    resolve_id_lem (ab ∷ []) (c ∷ []) (c ∷ []) (b'/' ∷ b'/' ∷ []) 3 2 two_names-IsPath (omega arith)
      c-IsPath (omega arith) (omega arith) (omega arith) (omega arith)

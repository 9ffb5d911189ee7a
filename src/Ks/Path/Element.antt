-- ===== src/Ks/Path/Element.antt =====
-- The components of a path, and the text it is converted to.
use mathlib.Core.List.{append_assoc}
use acplt_ks.Base.{
  ℕ, zero, suc, ◌+◌, ◌-◌, ◌<◌, ◌≤◌, ◌≡◌, refl, false, List, [], ◌∷◌, ◌++◌, arith, ◌==◌,
  if◌then◌else◌, length, length-append, All, ap, subst, ◌∙◌, some, drop, drop-all, take, get_elem?,
}
use acplt_ks.Ks.Conversions.{Text}
use acplt_ks.Ks.Path.{
  size_max, add_size, sub_size, substr, element, size, own_part, to_string, is_absolute, go_ups,
}
use acplt_ks.Ks.Path.Names.{
  IsName, IsPath, path_text, folders, prefix, begins, path_of, path_text-append, begins-append,
  length-begins, length_names-path_text,
}
use acplt_ks.Ks.Path.Parse.{drop-append}

pub take-all : (n : ℕ) (s : Text) → length s ≤ n → take n s ≡ s
take-all zero [] h = refl
take-all zero (c ∷ s) h = elim h [ ]
take-all (suc n) [] h = refl
take-all (suc n) (c ∷ s) h = ap (λ t. c ∷ t) (take-all n s (omega arith))

pub substr-window : (s : Text) (i n : ℕ) → substr s i n ≡ take n (drop i s)
unfolding substr
substr-window s zero n = ground (arith, take-all n s)
substr-window s (suc i) n = ground (arith, drop-all (suc i) s, take-all n [])

pub take-append : (s t : Text) → take (length s) (s ++ t) ≡ s
take-append [] t = refl
take-append (c ∷ s) t = ap (λ r. c ∷ r) (take-append s t)

-- a list of offsets with `i` at one place and `j` at the next
pub get_elem?-middle :
    (xs ys : List ℕ) (i j : ℕ)
    → (get_elem? (xs ++ i ∷ j ∷ ys) (length xs) ≡ some i)
      × (get_elem? (xs ++ i ∷ j ∷ ys) (suc (length xs)) ≡ some j)
get_elem?-middle [] ys i j = (refl, refl)
get_elem?-middle (x ∷ xs) ys i j = get_elem?-middle xs ys i j

-- the offset behind a component
abbrev pub next_begin : ℕ → List Text → ℕ
next_begin si [] = size_max
next_begin si (c ∷ cs) = si

abbrev later_begins : ℕ → List Text → List ℕ
later_begins si [] = []
later_begins si (c ∷ cs) = begins (si + length c + 1) cs ++ size_max ∷ []

begins-middle :
    (s : ℕ) (ds : List Text) (c : Text) (bs : List Text)
    → begins s (ds ++ c ∷ bs) ++ size_max ∷ []
      ≡ begins s ds
        ++ (s + length (folders ds))
          ∷ next_begin (s + length (folders ds) + length c + 1) bs
          ∷ later_begins (s + length (folders ds) + length c + 1) bs
unfolding begins
begins-middle s ds c [] =
    rw (begins-append s ds (c ∷ []))
      (append_assoc (begins s ds) ((s + length (folders ds)) ∷ []) (size_max ∷ []))
begins-middle s ds c (b ∷ bs) =
    rw (begins-append s ds (c ∷ b ∷ bs))
      (append_assoc (begins s ds) (begins (s + length (folders ds)) (c ∷ b ∷ bs)) (size_max ∷ []))

abbrev pub offset : ℕ → List Text → ℕ
offset up ds = length (prefix up) + length (folders ds)

pub drop-path_text :
    (up : ℕ) (ds : List Text) (c : Text) (bs : List Text)
    → drop (offset up ds) (prefix up ++ path_text (ds ++ c ∷ bs)) ≡ path_text (c ∷ bs)
drop-path_text up ds c bs =
    rw
      (
        path_text-append ds c bs,
        ← append_assoc (prefix up) (folders ds) (path_text (c ∷ bs)),
        ← length-append (prefix up) (folders ds),
      )
      (drop-append (prefix up ++ folders ds) (path_text (c ∷ bs)))

abbrev component_length : ℕ → ℕ → List Text → ℕ
component_length a n bs = sub_size (sub_size (next_begin (a + n + 1) bs) a) 1

take-path_text :
    (a : ℕ) (c : Text) (bs : List Text)
    → a + length c + 1 < size_max
    → take (component_length a (length c) bs) (path_text (c ∷ bs)) ≡ c
unfolding path_text
take-path_text a c [] h = take-all (component_length a (length c) []) c (omega arith)
take-path_text a c (b ∷ bs) h =
    let n : component_length a (length c) (b ∷ bs) ≡ length c = omega arith in
    rw n (take-append c (b'/' ∷ path_text (b ∷ bs)))

length-path_text_ge : (c : Text) (bs : List Text) → length c ≤ length (path_text (c ∷ bs))
unfolding path_text
length-path_text_ge c [] = omega arith
length-path_text_ge c (b ∷ bs) = omega (arith, length-append c (b'/' ∷ path_text (b ∷ bs)))

-- the numbers of a path that fits
pub path_bounds :
    (up : ℕ) (ds : List Text) (c : Text) (bs : List Text)
    → All IsName (ds ++ c ∷ bs)
    → length (prefix up ++ path_text (ds ++ c ∷ bs)) + 1 < size_max
    → (offset up ds + length c + 1 < size_max) × (length ds + 1 + length bs < size_max)
path_bounds up ds c bs names fits =
    let whole = length-append (prefix up) (path_text (ds ++ c ∷ bs)) in
    let parts =
      ap length (path_text-append ds c bs) ∙ length-append (folders ds) (path_text (c ∷ bs)) in
    let count = length-append ds (c ∷ bs) in
    (
      omega (arith, whole, parts, length-path_text_ge c bs),
      omega (arith, whole, count, length_names-path_text (ds ++ c ∷ bs) names),
    )

-- the offset of a component and the one behind it
pub slash-path_of :
    (up : ℕ) (ds : List Text) (c : Text) (bs : List Text)
    → (get_elem? (path_of up (ds ++ c ∷ bs)).slash (length ds) ≡ some (offset up ds))
      × (get_elem? (path_of up (ds ++ c ∷ bs)).slash (suc (length ds))
          ≡ some (next_begin (offset up ds + length c + 1) bs))
unfolding path_of
slash-path_of up ds c bs =
    rw
      (path_of, begins-middle (length (prefix up)) ds c bs, ← length-begins (length (prefix up)) ds)
      (get_elem?-middle (begins (length (prefix up)) ds)
        (later_begins (offset up ds + length c + 1) bs) (offset up ds)
        (next_begin (offset up ds + length c + 1) bs))

-- The component at the index of a name is that name, if the offsets fit in a `size_t`.
pub element-path_of :
    (up : ℕ) (ds : List Text) (c : Text) (bs : List Text)
    → All IsName (ds ++ c ∷ bs)
    → length (prefix up ++ path_text (ds ++ c ∷ bs)) + 1 < size_max
    → element (path_of up (ds ++ c ∷ bs)) (length ds) ≡ some c
unfolding element path_of
element-path_of up ds c bs names fits =
    let bounds = path_bounds up ds c bs names fits in
    let at_a : add_size 0 (length ds) ≡ length ds = omega arith in
    let at_b : add_size (length ds) 1 ≡ suc (length ds) = omega arith in
    let offsets = slash-path_of up ds c bs in
    rw
      (
        element,
        path_of,
        at_a,
        at_b,
        offsets.0,
        offsets.1,
        substr-window (prefix up ++ path_text (ds ++ c ∷ bs)) (offset up ds)
            (component_length (offset up ds) (length c) bs),
        drop-path_text up ds c bs,
        take-path_text (offset up ds) c bs bounds.0,
      )
      refl

get_elem?-last : (xs : List ℕ) (y : ℕ) → get_elem? (xs ++ y ∷ []) (length xs) ≡ some y
get_elem?-last [] y = refl
get_elem?-last (x ∷ xs) y = get_elem?-last xs y

pub last_slash-path_of :
    (up : ℕ) (cs : List Text) → get_elem? (path_of up cs).slash (length cs) ≡ some size_max
unfolding path_of
last_slash-path_of up cs =
    subst (λ n. get_elem? (begins (length (prefix up)) cs ++ size_max ∷ []) n ≡ some size_max)
      (length-begins (length (prefix up)) cs)
      (get_elem?-last (begins (length (prefix up)) cs) size_max)

-- a path that fits: fewer bytes than the largest offset
abbrev pub Fits : ℕ → List Text → Type 0
Fits up cs = length (prefix up ++ path_text cs) + 1 < size_max

pub count_bound : (up : ℕ) (cs : List Text) → All IsName cs → Fits up cs → length cs < size_max
count_bound up cs names fits =
    omega (arith, length_names-path_text cs names, length-append (prefix up) (path_text cs))

pub size-path_of :
    (up : ℕ) (cs : List Text)
    → 0 < length cs
    → length cs < size_max
    → size (path_of up cs) ≡ length cs
unfolding size path_of
size-path_of up cs some_name fits = omega arith

pub own_part-path_of :
    (up : ℕ) (cs : List Text)
    → IsPath cs
    → Fits up cs
    → own_part (path_of up cs) ≡ some (path_text cs)
unfolding own_part path_of begins
own_part-path_of up [] path fits = elim path.0 [ ]
own_part-path_of up (c ∷ cs) path fits =
    let count = count_bound up (c ∷ cs) path.1 fits in
    let at_end : add_size (suc (length cs) - 1) 1 ≡ length (c ∷ cs) = omega arith in
    rw
      (
        own_part,
        at_end,
        last_slash-path_of up (c ∷ cs),
        substr-window (prefix up ++ path_text (c ∷ cs)) (length (prefix up))
            (sub_size size_max (length (prefix up))),
        drop-append (prefix up) (path_text (c ∷ cs)),
      )
      (ap some (
        take-all (sub_size size_max (length (prefix up))) (path_text (c ∷ cs))
          (omega (arith, length-append (prefix up) (path_text (c ∷ cs))))))

length-go_ups_ge : (k : ℕ) → k ≤ length (go_ups k)
unfolding go_ups
length-go_ups_ge zero = omega arith
length-go_ups_ge (suc k) = omega (arith, length-go_ups_ge k)

ups_text :
    (up : ℕ)
    → length (prefix up) < size_max
    → (if up == 0 then b'/' ∷ [] else go_ups (sub_size up 1)) ≡ prefix up
unfolding prefix
ups_text zero fits = refl
ups_text (suc k) fits =
    let less : sub_size (suc k) 1 ≡ k = omega (arith, length-go_ups_ge k) in
    let positive : (suc k == 0) ≡ false = ground arith in rw (positive, less) refl

-- A path of names that fits is converted to the text of these names.
pub to_string-path_of :
    (up : ℕ) (cs : List Text)
    → IsPath cs
    → Fits up cs
    → to_string (path_of up cs) ≡ some (prefix up ++ path_text cs)
unfolding to_string path_of is_absolute prefix
to_string-path_of up cs path fits =
    rw
      (
        to_string,
        own_part-path_of up cs path fits,
        ups_text up (omega (arith, length-append (prefix up) (path_text cs))),
      )
      refl

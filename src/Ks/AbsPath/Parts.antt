-- ===== src/Ks/AbsPath/Parts.antt =====
-- What the accessors of an absolute path give for the names it is made of.
use mathlib.Core.List.{append_assoc}
use acplt_ks.Base.{
  ℕ, ◌+◌, ◌-◌, ◌<◌, ◌≡◌, refl, true, false, ◌&&◌, List, [], ◌∷◌, ◌++◌, arith, ◌==◌, leb, length,
  length-append, All, ap, ap₂, sym, ◌∙◌, some, take, get_elem?,
}
use acplt_ks.Ks.Conversions.{Text}
use acplt_ks.Ks.Path.{
  KsPath, size_max, add_size, sub_size, substr, is_absolute, from_string, to_string,
}
use acplt_ks.Ks.Path.Names.{
  IsPath, IsName, path_text, folders, prefix, path_of, length_names-path_text,
}
use acplt_ks.Ks.Path.Parse.{drop-append, from_string-path_text}
use acplt_ks.Ks.Path.Element.{
  Fits, count_bound, size-path_of, slash-path_of, last_slash-path_of, substr-window, take-append,
  take-all, element-path_of, offset, to_string-path_of,
}
use acplt_ks.Ks.Path.Resolve.{begins_plain-front}
use acplt_ks.Ks.AbsPath.{
  valid_abs_path, abs_path, get_host, get_server, get_host_and_server, get_var_path, ends_in_slash,
  append_var,
}

-- The text of names is a valid absolute path just if it begins with a slash and has two names.
pub abs_path-path_text :
    (up : ℕ) (cs : List Text)
    → IsPath cs
    → Fits up cs
    → abs_path (prefix up ++ path_text cs)
      ≡ some (record (path_of up cs) { valid = leb 2 (length cs) && up == 0 })
unfolding abs_path valid_abs_path is_absolute path_of
abs_path-path_text up cs path fits =
    rw (from_string-path_text up cs path, size-path_of up cs path.0 (count_bound up cs path.1 fits))
      refl

-- the text of a path of three names or more, as that of the first two and the rest
abbrev server_text : Text → Text → Text
server_text h s = b'/' ∷ path_text (h ∷ s ∷ [])

split_text :
    (h s c : Text) (cs : List Text)
    → prefix 0 ++ path_text (h ∷ s ∷ c ∷ cs) ≡ server_text h s ++ b'/' ∷ path_text (c ∷ cs)
unfolding path_text prefix
split_text h s c cs =
    ap (λ t. b'/' ∷ t) (sym (append_assoc h (b'/' ∷ s) (b'/' ∷ path_text (c ∷ cs))))

offset_behind : (h s : Text) → offset 0 (h ∷ s ∷ []) ≡ length (server_text h s) + 1
unfolding path_text prefix folders
offset_behind h s = omega (
  arith,
  length-append h (b'/' ∷ (s ++ b'/' ∷ [])),
  length-append h (b'/' ∷ s),
  length-append s (b'/' ∷ []),
)

variable_begin :
    (h s c : Text) (cs : List Text)
    → get_elem? (path_of 0 (h ∷ s ∷ c ∷ cs)).slash 2 ≡ some (length (server_text h s) + 1)
variable_begin h s c cs = (slash-path_of 0 (h ∷ s ∷ []) c cs).0 ∙ ap some (offset_behind h s)

get_host_and_server-slash :
    (p : KsPath) (a : ℕ)
    → get_elem? p.slash (add_size p.first 2) ≡ some a
    → get_host_and_server p ≡ abs_path (substr p.str 0 (sub_size a 1))
unfolding get_host_and_server
get_host_and_server-slash p a e = rw e refl

get_var_path-slash :
    (p : KsPath) (a b : ℕ)
    → get_elem? p.slash (add_size p.first 2) ≡ some a
    → get_elem? p.slash (add_size p.last 1) ≡ some b
    → get_var_path p ≡ from_string (substr p.str (sub_size a 1) (sub_size b a))
unfolding get_var_path
get_var_path-slash p a b e e' = rw (e, e') refl

last_slash :
    (cs : List Text)
    → 0 < length cs
    → length cs < size_max
    → get_elem? (path_of 0 cs).slash (add_size (path_of 0 cs).last 1) ≡ some size_max
unfolding path_of
last_slash cs some_name fits =
    let at_end : add_size (length cs - 1) 1 ≡ length cs = omega arith in
    rw at_end (last_slash-path_of 0 cs)

module _ (h s c : Text) (cs : List Text) (path : IsPath (h ∷ s ∷ c ∷ cs))
    (fits : Fits 0 (h ∷ s ∷ c ∷ cs)) where
  lengths : length (server_text h s) + length (path_text (c ∷ cs)) + 2 < size_max
  lengths = omega (
    arith,
    fits,
    ap length (split_text h s c cs),
    length-append (server_text h s) (b'/' ∷ path_text (c ∷ cs)),
  )

  server_window :
      substr (path_of 0 (h ∷ s ∷ c ∷ cs)).str 0 (sub_size (length (server_text h s) + 1) 1)
      ≡ server_text h s
  unfolding path_of
  server_window =
      let n : sub_size (length (server_text h s) + 1) 1 ≡ length (server_text h s) =
        omega (arith, lengths) in
      let text = prefix 0 ++ path_text (h ∷ s ∷ c ∷ cs) in
      substr-window text 0 (sub_size (length (server_text h s) + 1) 1)
      ∙ ap₂ (λ k t. take k t) n (split_text h s c cs)
      ∙ take-append (server_text h s) (b'/' ∷ path_text (c ∷ cs))

  var_window :
      substr
        (path_of 0 (h ∷ s ∷ c ∷ cs)).str
        (sub_size (length (server_text h s) + 1) 1)
        (sub_size size_max (length (server_text h s) + 1))
      ≡ b'/' ∷ path_text (c ∷ cs)
  unfolding path_of
  var_window =
      let n : sub_size (length (server_text h s) + 1) 1 ≡ length (server_text h s) =
        omega (arith, lengths) in
      let rest = sub_size size_max (length (server_text h s) + 1) in
      rw
        (
          n,
          substr-window (prefix 0 ++ path_text (h ∷ s ∷ c ∷ cs)) (length (server_text h s)) rest,
          split_text h s c cs,
          drop-append (server_text h s) (b'/' ∷ path_text (c ∷ cs)),
        )
        (take-all rest (b'/' ∷ path_text (c ∷ cs)) (omega (arith, lengths)))

  server_text-IsPath : IsPath (h ∷ s ∷ [])
  unfolding path_text
  server_text-IsPath = (
    omega arith,
    (path.1.0, (path.1.1.0, tt)),
    begins_plain-front h (s ∷ []) path.1.0.0
        ∙ sym (begins_plain-front h (s ∷ c ∷ cs) path.1.0.0)
        ∙ path.2,
  )

  get_host_and_server-path_of :
      get_host_and_server (path_of 0 (h ∷ s ∷ c ∷ cs)) ≡ some (path_of 0 (h ∷ s ∷ []))
  unfolding path_of
  get_host_and_server-path_of =
      get_host_and_server-slash (path_of 0 (h ∷ s ∷ c ∷ cs)) (length (server_text h s) + 1)
        (variable_begin h s c cs)
      ∙ ap abs_path server_window
      ∙ abs_path-path_text 0 (h ∷ s ∷ []) server_text-IsPath (omega (arith, lengths))

  get_var_path-path_of :
      IsPath (c ∷ cs) → get_var_path (path_of 0 (h ∷ s ∷ c ∷ cs)) ≡ some (path_of 0 (c ∷ cs))
  unfolding path_of
  get_var_path-path_of var =
      get_var_path-slash (path_of 0 (h ∷ s ∷ c ∷ cs)) (length (server_text h s) + 1) size_max
        (variable_begin h s c cs)
        (last_slash (h ∷ s ∷ c ∷ cs) path.0 (count_bound 0 (h ∷ s ∷ c ∷ cs) path.1 fits))
      ∙ ap from_string var_window
      ∙ from_string-path_text 0 (c ∷ cs) var

  -- The accessors of an absolute path of three names or more that fits: the first name, the second,
  -- the path of these two, and the path of the other names if their text does not begin with a dot.
  pub parts_lem :
      IsPath (c ∷ cs)
      → (get_host (path_of 0 (h ∷ s ∷ c ∷ cs)) ≡ some h)
        × (get_server (path_of 0 (h ∷ s ∷ c ∷ cs)) ≡ some s)
        × (get_host_and_server (path_of 0 (h ∷ s ∷ c ∷ cs)) ≡ some (path_of 0 (h ∷ s ∷ [])))
        × (get_var_path (path_of 0 (h ∷ s ∷ c ∷ cs)) ≡ some (path_of 0 (c ∷ cs)))
  unfolding get_host get_server
  parts_lem var = (
    element-path_of 0 [] h (s ∷ c ∷ cs) path.1 fits,
    element-path_of 0 (h ∷ []) s (c ∷ cs) path.1 fits,
    get_host_and_server-path_of,
    get_var_path-path_of var,
  )

ends_in_slash-append : (s t : Text) → 0 < length t → ends_in_slash (s ++ t) ≡ ends_in_slash t
unfolding ends_in_slash
ends_in_slash-append [] t h = refl
ends_in_slash-append (x ∷ []) [] h = elim h [ ]
ends_in_slash-append (x ∷ []) (y ∷ t) h = refl
ends_in_slash-append (x ∷ x' ∷ s) t h = ends_in_slash-append (x' ∷ s) t h

ends_in_slash-name : (c : Text) → IsName c → ends_in_slash c ≡ false
unfolding ends_in_slash
ends_in_slash-name [] h = refl
ends_in_slash-name (x ∷ []) h = h.1.0
ends_in_slash-name (x ∷ y ∷ c) h = ends_in_slash-name (y ∷ c) (omega arith, h.1.1)

ends_in_slash-path_text : (cs : List Text) → All IsName cs → ends_in_slash (path_text cs) ≡ false
unfolding path_text ends_in_slash
ends_in_slash-path_text [] h = refl
ends_in_slash-path_text (c ∷ []) h = ends_in_slash-name c h.0
ends_in_slash-path_text (c ∷ d ∷ cs) h =
    ends_in_slash-append c (b'/' ∷ path_text (d ∷ cs)) (omega arith)
    ∙ ends_in_slash-append (b'/' ∷ []) (path_text (d ∷ cs))
        (omega (arith, length_names-path_text (d ∷ cs) h.1))
    ∙ ends_in_slash-path_text (d ∷ cs) h.1

path_text-last :
    (cs : List Text) (v : Text)
    → 0 < length cs
    → path_text (cs ++ v ∷ []) ≡ path_text cs ++ b'/' ∷ v
unfolding path_text
path_text-last [] v h = elim h [ ]
path_text-last (c ∷ []) v h = refl
path_text-last (c ∷ d ∷ cs) v h =
    ap (λ t. c ++ b'/' ∷ t) (path_text-last (d ∷ cs) v (omega arith))
    ∙ sym (append_assoc c (b'/' ∷ path_text (d ∷ cs)) (b'/' ∷ v))

append_var-text :
    (p : KsPath) (t v : Text)
    → to_string p ≡ some t
    → ends_in_slash t ≡ false
    → append_var p v ≡ abs_path ((t ++ b'/' ∷ []) ++ v)
unfolding append_var
append_var-text p t v e e' = rw (append_var, e, e') refl

-- Appending a name to an absolute path of names that fits gives the path with that name at its end.
pub append_var-path_of :
    (cs : List Text) (v : Text)
    → IsPath cs
    → IsPath (cs ++ v ∷ [])
    → Fits 0 (cs ++ v ∷ [])
    → append_var (path_of 0 cs) v ≡ some (path_of 0 (cs ++ v ∷ []))
unfolding prefix path_of
append_var-path_of cs v path longer fits =
    let whole = path_text-last cs v path.0 in
    let text : prefix 0 ++ path_text (cs ++ v ∷ []) ≡ (b'/' ∷ path_text cs ++ b'/' ∷ []) ++ v =
      ap (λ t. b'/' ∷ t) (whole ∙ sym (append_assoc (path_text cs) (b'/' ∷ []) v)) in
    let shorter : Fits 0 cs =
      omega (arith, fits, ap length whole, length-append (path_text cs) (b'/' ∷ v)) in
    let open_end =
      ends_in_slash-append (b'/' ∷ []) (path_text cs)
        (omega (arith, length_names-path_text cs path.1, path.0))
      ∙ ends_in_slash-path_text cs path.1 in
    let two : (leb 2 (length (cs ++ v ∷ [])) && 0 == 0) ≡ true =
      ground (arith, length-append cs (v ∷ []), path.0) in
    append_var-text (path_of 0 cs) (b'/' ∷ path_text cs) v (to_string-path_of 0 cs path shorter)
      open_end
    ∙ ap abs_path (sym text)
    ∙ abs_path-path_text 0 (cs ++ v ∷ []) longer fits
    ∙ ap (λ b. some (record (path_of 0 (cs ++ v ∷ [])) { valid = b })) two

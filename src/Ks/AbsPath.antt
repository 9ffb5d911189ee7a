-- ===== src/Ks/AbsPath.antt =====
-- `KscAbsPath`: ks/include/ks/abspath.h and ks/src/abspath.cpp, the paths of a host, a server and a
-- variable. It is a `KsPath` that has at least two components.
pub mod Parts
mod Tests
use acplt_ks.Base.{
  ◌>>=◌, ℕ, ◌+◌, ◌-◌, Bool, true, false, not, ◌&&◌, List, [], ◌∷◌, ◌++◌, Option, none, some,
  if◌then◌else◌, leb, ◌==◌, length, get_elem?,
}
use acplt_ks.Ks.Conversions.{Text}
use acplt_ks.Ks.Path.{
  KsPath, add_size, sub_size, substr, from_string, element, get_head, size, is_absolute, to_string,
}

pub valid_abs_path : KsPath → Bool
unfolding size is_absolute
valid_abs_path p = leb 2 (size p) && is_absolute p

-- `KscAbsPath(const PltString &)` and `KscAbsPath(const char *)`
pub abs_path : Text → Option KsPath
unfolding from_string valid_abs_path
abs_path s = from_string s >>= λ p. some (record p { valid = p.valid && valid_abs_path p })

pub get_host : KsPath → Option Text
unfolding get_head
get_host p = get_head p

pub get_server : KsPath → Option Text
unfolding element
get_server p = element p 1

pub get_host_and_server : KsPath → Option KsPath
unfolding substr abs_path
get_host_and_server p =
    get_elem? p.slash (add_size p.first 2) >>= λ a. abs_path (substr p.str 0 (sub_size a 1))

pub get_var_path : KsPath → Option KsPath
unfolding substr from_string
get_var_path p = do
  a ← get_elem? p.slash (add_size p.first 2)
  b ← get_elem? p.slash (add_size p.last 1)
  from_string (substr p.str (sub_size a 1) (sub_size b a))

pub get_name_only : KsPath → Option Text
unfolding substr
get_name_only p = do
  a ← get_elem? p.slash p.last
  b ← get_elem? p.slash (add_size p.last 1)
  some (substr p.str a (sub_size (sub_size b a) 1))

-- the variable's path without the last name and its slash
pub inner_path : KsPath → Option Text
unfolding substr
inner_path p = do
  a ← get_elem? p.slash (add_size p.first 2)
  b ← get_elem? p.slash p.last
  some (substr p.str (sub_size a 1) (sub_size b a))

pub get_path_only : KsPath → Option Text
unfolding inner_path size
get_path_only p = if size p == 3 then some (b'/' ∷ []) else inner_path p

-- `temp[temp.len()-1] != '/'`
pub ends_in_slash : Text → Bool
ends_in_slash [] = false
ends_in_slash (c ∷ []) = c == b'/'
ends_in_slash (c ∷ d ∷ cs) = ends_in_slash (d ∷ cs)

-- `operator +`
pub append_var : KsPath → Text → Option KsPath
unfolding to_string ends_in_slash abs_path
append_var path var = to_string path >>= λ temp.
    abs_path ((if ends_in_slash temp then temp else temp ++ b'/' ∷ []) ++ var)

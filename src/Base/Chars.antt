-- ===== src/Base/Chars.antt =====
-- Characters as bytes, and the classes of <ctype.h> in the C locale (no byte above 127 is in one).
use acplt_ks.Base.Tests.{leb}
use Prim.Native.Nat.{ℕ}
use mathlib.Core.Bool.{Bool, ◌&&◌, ◌||◌}

abbrev pub is_digit : ℕ → Bool
is_digit c = leb b'0' c && leb c b'9'

abbrev pub is_upper : ℕ → Bool
is_upper c = leb b'A' c && leb c b'Z'

abbrev pub is_lower : ℕ → Bool
is_lower c = leb b'a' c && leb c b'z'

abbrev pub is_alnum : ℕ → Bool
is_alnum c = is_digit c || is_upper c || is_lower c

abbrev pub is_xdigit : ℕ → Bool
is_xdigit c = is_digit c || leb b'A' c && leb c b'F' || leb b'a' c && leb c b'f'

-- ===== src/Ks/Conversions/Hex.antt =====
-- One character in percent notation and back.
use acplt_ks.Base.{ℕ, ◌/◌, ◌%◌, ◌<◌, ◌≡◌, refl, Bool, ◌==◌, ==_iff}
use acplt_ks.Base.Tables.{passes, passes-at}
use acplt_ks.Ks.Conversions.{from_percent, to_unsigned, hex_char}

-- the two digits that `to_percent` writes
abbrev pub high_digit : ℕ → ℕ
high_digit c = hex_char (to_unsigned c / 16)

abbrev pub low_digit : ℕ → ℕ
low_digit c = hex_char (to_unsigned c % 16)

decodes : ℕ → Bool
unfolding from_percent
decodes c = from_percent (high_digit c) (low_digit c) == c

-- `from_percent` undoes `to_percent` on every ASCII character.
pub from_percent-to_percent : (c : ℕ) → c < 128 → from_percent (high_digit c) (low_digit c) ≡ c
from_percent-to_percent c h =
    (==_iff _ c).0 (unfold decodes in passes-at decodes 128 (unfold decodes passes in refl) c h)

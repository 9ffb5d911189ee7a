-- ===== src/Ks/Conversions/Percent.antt =====
-- `ksStringToPercent` and `ksPathToPercent` against `ksStringFromPercent`.
use acplt_ks.Base.{
  ℕ, ◌+◌, ◌-◌, ◌*◌, ◌^◌, ◌<◌, ◌≤◌, ◌≡◌, refl, Bool, true, false, ◌||◌, [], ◌∷◌, arith, ◌==◌, ==_iff,
  length, All, Bool-cases, inl, inr, ap,
}
use acplt_ks.Ks.Conversions.{
  Text, ok, is_valid_char, is_delim, count_converted, convert, all_to_percent, string_to_percent,
  path_to_percent, count_escapes, fill, string_from_percent,
}
use acplt_ks.Ks.Conversions.Hex.{from_percent-to_percent}

-- an ASCII character of a C string
abbrev pub IsAscii : ℕ → Type 0
IsAscii c = (0 < c) × (c < 128)

module _ (keep : ℕ → Bool) where
  pub length-convert : (s : Text) → length (convert keep s) ≡ length s + 2 * count_converted keep s
  unfolding convert count_converted
  length-convert [] = omega arith
  length-convert (c ∷ cs) = ground (arith, length-convert cs)

  count_escapes-convert :
      keep b'%' ≡ false → (s : Text) → count_escapes 0 (convert keep s) ≡ count_converted keep s
  unfolding convert count_converted count_escapes
  count_escapes-convert k [] = refl
  count_escapes-convert k (c ∷ cs) = elim (Bool-cases (keep c)) [
    | inl kept ↦
        rw kept (ground (arith, count_escapes-convert k cs, kept, k, ==_iff c b'%', ap keep))
    | inr other ↦ rw other (omega (arith, count_escapes-convert k cs))
  ]

  pub kept-ne : keep b'%' ≡ false → (c : ℕ) → keep c ≡ true → (c == b'%') ≡ false
  kept-ne k c h = elim (Bool-cases (c == b'%')) [
    | inl same ↦ cc (ap keep ((==_iff c b'%').0 same))
    | inr ne ↦ ne
  ]

  -- the buffer is large enough: `j` never reaches `size`
  fill-convert :
      keep b'%' ≡ false
      → (s : Text) (size j : ℕ) → All IsAscii s
      → j + length s ≤ size
      → fill size j 0 (convert keep s) ≡ ok s
  unfolding convert fill
  fill-convert k [] size j h n = refl
  fill-convert k (c ∷ cs) size j h n =
      let rest = fill-convert k cs size (j + 1) h.1 (omega arith) in
      elim (Bool-cases (keep c)) [
        | inl kept ↦ rw (kept, kept-ne k c kept, rest) (ground arith)
        | inr other ↦ rw (other, from_percent-to_percent c h.0.1, rest) (ground arith)
      ]

  pub count_converted-le : (s : Text) → count_converted keep s ≤ length s
  unfolding count_converted
  count_converted-le [] = omega arith
  count_converted-le (c ∷ cs) = ground (arith, count_converted-le cs)

  convert-nothing : (s : Text) → count_converted keep s ≡ 0 → convert keep s ≡ s
  unfolding count_converted convert
  convert-nothing [] h = refl
  convert-nothing (c ∷ cs) h = ground (arith, convert-nothing cs)

  pub all_to_percent-convert : (s : Text) → all_to_percent (λ _. true) keep s ≡ convert keep s
  unfolding all_to_percent
  all_to_percent-convert s = ground (arith, convert-nothing s)

  pub all_from_to :
      keep b'%' ≡ false
      → (s : Text) → All IsAscii s
      → 3 * length s < 2 ^ 64 - 1
      → string_from_percent (λ _. true) (all_to_percent (λ _. true) keep s) ≡ ok s
  unfolding string_from_percent
  all_from_to k s h n =
      rw (all_to_percent-convert s, count_escapes-convert k s, length-convert s)
        (ground
          (arith, convert-nothing s, count_converted-le s, fill-convert k s (length s + 1) 0 h))

-- A string of ASCII characters that fits in memory three times over comes back from percent
-- notation as it was, whether it was written as a name or as a path. No buffer is overrun.
pub string_from_percent-to_percent :
    (s : Text)
    → All IsAscii s
    → 3 * length s < 2 ^ 64 - 1
    → (string_from_percent (λ _. true) (string_to_percent (λ _. true) s) ≡ ok s)
      × (string_from_percent (λ _. true) (path_to_percent (λ _. true) s) ≡ ok s)
unfolding string_to_percent path_to_percent
string_from_percent-to_percent s h n = (
  all_from_to is_valid_char refl s h n,
  all_from_to (λ c. is_valid_char c || is_delim c) refl s h n,
)

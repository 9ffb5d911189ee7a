-- ===== src/Ks/Conversions/Decode.antt =====
-- What names in percent notation look like, and the two inputs that the code gets wrong: a lone
-- percent sign at the end of a name, and bytes that are no ASCII characters.
use acplt_ks.Base.{
  ℕ, ◌+◌, ◌-◌, ◌*◌, ◌%◌, ◌^◌, ◌<◌, ◌≤◌, ◌≡◌, ◌≢◌, refl, Bool, true, false, not, ◌&&◌, ◌||◌, [], ◌∷◌,
  ◌++◌, arith, leb, ltb, ◌==◌, length, All, Bool-cases, inl, inr, get_or, length-append,
}
use acplt_ks.Base.Tables.{passes, passes-at}
use acplt_ks.Ks.Conversions.{
  Text, ok, overrun, to_percent, from_percent, is_valid_char, is_delim, count_converted, convert,
  string_to_percent, count_escapes, fill, string_from_percent,
}
use acplt_ks.Ks.Conversions.Hex.{high_digit, low_digit, from_percent-to_percent}
use acplt_ks.Ks.Conversions.Percent.{
  IsAscii, kept-ne, length-convert, count_converted-le, all_to_percent-convert,
}

digits_plain : ℕ → Bool
unfolding is_delim
digits_plain c = not (is_delim (high_digit c)) && not (is_delim (low_digit c))

plain_digits :
    (c : ℕ) → c < 128 → (is_delim (high_digit c) ≡ false) × (is_delim (low_digit c) ≡ false)
plain_digits c h = split (passes-at digits_plain 128 (unfold digits_plain passes in refl) c h)
  where
    split :
        digits_plain c ≡ true → (is_delim (high_digit c) ≡ false) × (is_delim (low_digit c) ≡ false)
    split d = unfold digits_plain in ground arith

valid-ne-delim : (c : ℕ) → is_valid_char c ≡ true → is_delim c ≡ false
unfolding is_valid_char is_delim
valid-ne-delim c h = ground arith

percent-ne-delim : is_delim b'%' ≡ false
unfolding is_delim
percent-ne-delim = refl

convert-plain : (s : Text) → All IsAscii s → All (λ c. is_delim c ≡ false) (convert is_valid_char s)
unfolding convert
convert-plain [] h = tt
convert-plain (c ∷ cs) h =
    let rest = convert-plain cs h.1 in
    let (high, low) = plain_digits c h.0.1 in
    elim (Bool-cases (is_valid_char c)) [
      | inl kept ↦ rw kept (valid-ne-delim c kept, rest)
      | inr other ↦ rw other (percent-ne-delim, (high, (low, rest)))
    ]

-- A name in percent notation holds no path delimiter, if it is made of ASCII characters.
pub string_to_percent-plain :
    (s : Text) → All IsAscii s → All (λ c. is_delim c ≡ false) (string_to_percent (λ _. true) s)
unfolding string_to_percent
string_to_percent-plain s h = rw all_to_percent-convert (convert-plain s h)

module _ (keep : ℕ → Bool) (k : keep b'%' ≡ false) where
  count_escapes-lone :
      (s : Text) → count_escapes 0 (convert keep s ++ b'%' ∷ []) ≡ count_converted keep s + 1
  unfolding convert count_converted count_escapes
  count_escapes-lone [] = refl
  count_escapes-lone (c ∷ cs) =
      let rest = count_escapes-lone cs in
      elim (Bool-cases (keep c)) [
        | inl kept ↦ rw (kept, kept-ne keep k c kept) (omega (arith, rest))
        | inr other ↦ rw other (omega (arith, rest))
      ]

  -- a buffer with no room for the last character is overrun there
  fill-lone :
      (s : Text) (size j : ℕ)
      → All IsAscii s
      → size ≤ j + length s
      → fill size j 0 (convert keep s ++ b'%' ∷ []) ≡ overrun
  unfolding convert fill
  fill-lone [] size j h n = ground arith
  fill-lone (c ∷ cs) size j h n =
      let rest = fill-lone cs size (j + 1) h.1 (omega arith) in
      elim (Bool-cases (keep c)) [
        | inl kept ↦ rw (kept, kept-ne keep k c kept, rest) (ground arith)
        | inr other ↦ rw (other, from_percent-to_percent c h.0.1, rest) (ground arith)
      ]

-- A lone percent sign behind a name in percent notation makes `ksStringFromPercent` write behind
-- its buffer, instead of reporting a bad name.
pub string_from_percent-overruns :
    (s : Text)
    → All IsAscii s
    → 3 * length s < 2 ^ 64 - 2
    → string_from_percent (λ _. true) (string_to_percent (λ _. true) s ++ b'%' ∷ []) ≡ overrun
unfolding string_from_percent string_to_percent
string_from_percent-overruns s h n =
    let m = count_converted is_valid_char s in
    let size : ℕ =
      ((2 ^ 64 + (length s + 2 * m + 1) - (m + 1) * 2 % 2 ^ 64) % 2 ^ 64 + 1) % 2 ^ 64 in
    rw
      (
        all_to_percent-convert is_valid_char s,
        count_escapes-lone is_valid_char refl s,
        length-append (convert is_valid_char s) (b'%' ∷ []),
        length-convert is_valid_char s,
      )
      (ground (arith, count_converted-le is_valid_char s, fill-lone is_valid_char refl s size 0 h))

misread : ℕ → Bool
unfolding from_percent is_delim
misread c =
    ltb c 128
    || not (from_percent (high_digit c) (low_digit c) == c)
      && (leb 144 c || is_delim (high_digit c))

misread_lem : (c : ℕ) → c < 256 → misread c ≡ true
unfolding misread passes
misread_lem c h = passes-at misread 256 refl c h

wrong_digits :
    (c : ℕ)
    → misread c ≡ true
    → 128 ≤ c
    → (from_percent (high_digit c) (low_digit c) ≢ c) × (c < 144 → is_delim (high_digit c) ≡ true)
unfolding misread
wrong_digits c m lo = (ground arith, ground arith)

-- A byte above 127 is a negative `char`: its percent notation is not read back as that byte, and
-- below 144 even has a path delimiter in place of the first digit.
pub to_percent-wrong :
    (c : ℕ)
    → 128 ≤ c
    → c < 256
    → (string_from_percent (λ _. true) (to_percent c) ≢ ok (c ∷ []))
      × (c < 144 → is_delim (get_or (to_percent c) 1 0) ≡ true)
unfolding string_from_percent to_percent
to_percent-wrong c lo hi =
    let (ne, delim) = wrong_digits c (misread_lem c hi) lo in (λ e. ground (arith, ne, e), delim)

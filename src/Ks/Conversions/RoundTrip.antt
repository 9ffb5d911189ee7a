-- ===== src/Ks/Conversions/RoundTrip.antt =====
-- `ksEncodeString` and `ksDecodeString` undo one another.
use acplt_ks.Base.{
  ℕ, ◌≡◌, refl, ◌∙◌, Bool, true, false, ◌&&◌, ◌||◌, [], ◌∷◌, ◌++◌, some, arith, if◌then◌else◌, ◌==◌,
  All, Bool-cases, inl, inr, ◌⊎◌, subst,
}
use acplt_ks.Ks.Conversions.{
  Text, Outcome, ok, generic, overrun, bad_name, prepend, to_percent, is_valid_char, is_delim,
  plain, escaped, encode_char, encode_loop, locator_length, encode_string, decode_loop,
  decode_string,
}
use acplt_ks.Ks.Conversions.Hex.{from_percent-to_percent}
use acplt_ks.Ks.Conversions.Percent.{IsAscii}
use acplt_ks.Ks.Conversions.Encode.{encode_loop-cons, encode_string-room}

-- one character that is copied, and one that is put in percent notation, on both ways
module _ (bs : Bool) where
  encode-kept :
      (c : ℕ) (cs : Text)
      → (is_valid_char c || is_delim c) ≡ true
      → encode_loop bs false plain (c ∷ cs) ≡ prepend (c ∷ []) (encode_loop bs false plain cs)
  encode-kept c cs h = encode_loop-cons bs false plain c cs (c ∷ []) plain (kept_char h)
    where
      kept_char :
          (is_valid_char c || is_delim c) ≡ true
          → encode_char bs false plain c ≡ some (c ∷ [], plain)
      kept_char k = unfold encode_char in ground arith

  decode-kept :
      (c : ℕ) (t : Text)
      → (is_valid_char c || is_delim c) ≡ true
      → decode_loop bs 0 (c ∷ t) ≡ prepend (c ∷ []) (decode_loop bs 0 t)
  unfolding decode_loop is_valid_char
  decode-kept c t h = ground arith

  decode-percent :
      (c : ℕ) (t : Text)
      → IsAscii c
      → decode_loop bs 0 (to_percent c ++ t)
        ≡ prepend
            (if bs && (c == b'\\' || is_delim c || c == b'%') then b'\\' ∷ c ∷ [] else c ∷ [])
            (decode_loop bs 0 t)
  unfolding decode_loop to_percent
  decode-percent c t h = rw (from_percent-to_percent c h.1) (ground arith)

-- what the decoder writes for the notation of a character
abbrev escape : ℕ → Text
escape c = if c == b'\\' || is_delim c || c == b'%' then b'\\' ∷ c ∷ [] else c ∷ []

encode_char_other :
    (c : ℕ)
    → (is_valid_char c || is_delim c) ≡ false
    → encode_char false false plain c ≡ some (to_percent c, plain)
unfolding encode_char
encode_char_other c h = ground arith

encode_loop-escape :
    (c : ℕ) (cs : Text)
    → is_valid_char c ≡ false
    → encode_loop true false plain (escape c ++ cs)
      ≡ prepend (to_percent c) (encode_loop true false plain cs)
unfolding encode_loop
encode_loop-escape c cs h = ground arith

round_trip :
    (s : Text)
    → All IsAscii s
    → (t : Text) × (encode_loop false false plain s ≡ ok t) × (decode_loop false 0 t ≡ ok s)
round_trip [] h = ([], unfold encode_loop in refl, unfold decode_loop in refl)
round_trip (c ∷ cs) h =
    let (t, e, d) = round_trip cs h.1 in
    elim (Bool-cases (is_valid_char c || is_delim c)) [
      | inl kept ↦ (c ∷ t, rw (encode-kept false c cs kept, e), rw (decode-kept false c t kept, d))
      | inr other ↦ (
        to_percent c ++ t,
        rw (encode_loop-cons false false plain c cs _ plain (encode_char_other c other), e),
        rw (decode-percent false c t h.0, d),
      )
    ]

-- `t` is decoded with backslashes, and encoding the result gives `t` again
IsStable : Text → Type 0
IsStable t = (u : Text) × (decode_loop true 0 t ≡ ok u) × (encode_loop true false plain u ≡ ok t)

kept-IsStable :
    (c : ℕ) (t : Text) → (is_valid_char c || is_delim c) ≡ true → IsStable t → IsStable (c ∷ t)
unfolding IsStable
kept-IsStable c t k (u, d, e) =
    (c ∷ u, rw (decode-kept true c t k, d), rw (encode-kept true c u k, e))

percent-IsStable :
    (c : ℕ) (t : Text)
    → IsAscii c
    → is_valid_char c ≡ false
    → IsStable t
    → IsStable (to_percent c ++ t)
unfolding IsStable
percent-IsStable c t h k (u, d, e) =
    (escape c ++ u, rw (decode-percent true c t h, d), rw (encode_loop-escape c u k, e))

prepend-eq-ok :
    (out : Text) (o : Outcome) (t : Text)
    → prepend out o ≡ ok t
    → (t' : Text) × (o ≡ ok t') × (out ++ t' ≡ t)
prepend-eq-ok out (ok t') t h = (t', refl, ground (arith, h))
prepend-eq-ok out bad_name t h = cc
prepend-eq-ok out generic t h = cc
prepend-eq-ok out overrun t h = cc

-- a step that prepends `out` is stable if `out` keeps stability
step-IsStable :
    (out : Text) (o : Outcome) (t : Text)
    → ((t' : Text) → IsStable t' → IsStable (out ++ t'))
    → ((t' : Text) → o ≡ ok t' → IsStable t')
    → prepend out o ≡ ok t
    → IsStable t
step-IsStable out o t keep rest h =
    let (t', e, same) = prepend-eq-ok out o t h in subst IsStable same (keep t' (rest t' e))

nil-IsStable : (t : Text) → encode_loop true false plain [] ≡ ok t → IsStable t
unfolding encode_loop IsStable decode_loop
nil-IsStable t h = ([], ground (arith, h), ground (arith, h))

plain_char :
    (c : ℕ)
    → (encode_char true false plain c ≡ some ([], escaped))
      ⊎ ((is_valid_char c || is_delim c) ≡ true)
        × (encode_char true false plain c ≡ some (c ∷ [], plain))
      ⊎ (is_valid_char c ≡ false) × (encode_char true false plain c ≡ some (to_percent c, plain))
unfolding encode_char
plain_char c = ground arith

escaped_char :
    (c : ℕ)
    → (is_valid_char c ≡ true) × (encode_char true false escaped c ≡ some (c ∷ [], plain))
      ⊎ (is_valid_char c ≡ false) × (encode_char true false escaped c ≡ some (to_percent c, plain))
unfolding encode_char
escaped_char c = ground arith

-- both states of the loop, by induction on what is left
stable :
    (s : Text)
    → All IsAscii s
    → ((t : Text) → encode_loop true false plain s ≡ ok t → IsStable t)
      × ((t : Text) → encode_loop true false escaped s ≡ ok t → IsStable t)
stable [] h = (nil-IsStable, λ t e. unfold encode_loop in cc e)
stable (c ∷ cs) h =
    let (in_plain, in_escape) = stable cs h.1 in
    let o = encode_loop true false plain cs in
    let kept = λ (k : (is_valid_char c || is_delim c) ≡ true) (t : Text).
      step-IsStable (c ∷ []) o t (λ t'. kept-IsStable c t' k) in_plain in
    let percent = λ (k : is_valid_char c ≡ false) (t : Text).
      step-IsStable (to_percent c) o t (λ t'. percent-IsStable c t' h.0 k) in_plain in
    (
      λ t e. elim (plain_char c) [
        | inl back ↦
            step-IsStable [] (encode_loop true false escaped cs) t (λ t' q. q) in_escape
              (rw (encode_loop-cons true false plain c cs [] escaped back) at e)
        | inr (inl (k, one)) ↦
            kept k t (rw (encode_loop-cons true false plain c cs _ plain one) at e)
        | inr (inr (k, one)) ↦
            percent k t (rw (encode_loop-cons true false plain c cs _ plain one) at e)
      ],
      λ t e. elim (escaped_char c) [
        | inl (k, one) ↦
            kept (ground (arith, k)) t
              (rw (encode_loop-cons true false escaped c cs _ plain one) at e)
        | inr (k, one) ↦
            percent k t (rw (encode_loop-cons true false escaped c cs _ plain one) at e)
      ],
    )

-- Without escapes: a string of ASCII characters that does not begin like a resource locator comes
-- back from its encoding as it was.
pub decode_string-encode_string :
    (s : Text)
    → All IsAscii s
    → locator_length s ≡ 0
    → (t : Text) × (encode_string (λ _. true) s false false ≡ ok t)
      × (decode_string (λ _. true) t false ≡ ok s)
unfolding decode_string
decode_string-encode_string s h n =
    let (t, e, d) = round_trip s h in
    (t, encode_string-room (λ _. true) s false false refl ∙ rw (n, e) refl, d)

-- With escapes, behind the host and server of a locator: what the encoder wrote is decoded, and the
-- result encodes to the same again. (The text itself may differ: a backslash before a plain
-- character is dropped.)
pub encode_loop-stable :
    (s t : Text)
    → All IsAscii s
    → encode_loop true false plain s ≡ ok t
    → (u : Text) × (decode_loop true 0 t ≡ ok u) × (encode_loop true false plain u ≡ ok t)
unfolding IsStable
encode_loop-stable s t h e = (stable s h).0 t e

-- ===== src/Ks/Conversions/Encode.antt =====
-- The size of what `ksEncodeString` writes.
use acplt_ks.Base.{
  ℕ, suc, ◌+◌, ◌*◌, ◌≤◌, ◌<◌, ◌≡◌, ◌≢◌, refl, ap, Bool, true, false, [], ◌∷◌, ◌++◌, leb, none, some,
  arith, length, Bool-cases, Option-cases, inl, inr, length-append, length-take, length-drop, sym,
  subst, take, drop,
}
use acplt_ks.Ks.Conversions.{
  Text, Outcome, ok, generic, overrun, bad_name, prepend, to_percent, Mode, plain, escaped,
  first_digit, second_digit, encode_char, encode_loop, encode_written, locator_length,
  encode_string,
}

-- nothing is written behind the buffer, and a text that is returned has at most `n` bytes
abbrev pub Fits : ℕ → Outcome → Type 0
Fits n (ok t) = length t ≤ n
Fits n bad_name = Unit
Fits n generic = Unit
Fits n overrun = ⊥

Fits-prepend : (out : Text) (n : ℕ) (o : Outcome) → Fits n o → Fits (length out + n) (prepend out o)
Fits-prepend out n (ok t) h = omega (arith, length-append out t)
Fits-prepend out n bad_name h = tt
Fits-prepend out n generic h = tt
Fits-prepend out n overrun h = h

Fits-le : (m n : ℕ) (o : Outcome) → m ≤ n → Fits m o → Fits n o
Fits-le m n (ok t) h f = omega arith
Fits-le m n bad_name h f = tt
Fits-le m n generic h f = tt
Fits-le m n overrun h f = f

encode_char_bound :
    (bs pc : Bool) (mode : Mode) (c : ℕ) (out : Text) (next : Mode)
    → encode_char bs pc mode c ≡ some (out, next)
    → length out ≤ 3
unfolding encode_char to_percent
encode_char_bound bs pc plain c out next e = ground arith
encode_char_bound bs pc escaped c out next e = ground arith
encode_char_bound bs pc first_digit c out next e = ground arith
encode_char_bound bs pc second_digit c out next e = ground arith

pub encode_loop-cons :
    (bs pc : Bool) (mode : Mode) (c : ℕ) (cs : Text) (out : Text) (next : Mode)
    → encode_char bs pc mode c ≡ some (out, next)
    → encode_loop bs pc mode (c ∷ cs) ≡ prepend out (encode_loop bs pc next cs)
unfolding encode_loop
encode_loop-cons bs pc mode c cs out next e = rw (e, encode_loop)

encode_loop-bad :
    (bs pc : Bool) (mode : Mode) (c : ℕ) (cs : Text)
    → encode_char bs pc mode c ≡ none
    → encode_loop bs pc mode (c ∷ cs) ≡ bad_name
unfolding encode_loop
encode_loop-bad bs pc mode c cs e = rw (e, encode_loop)

encode_end-Fits : (bs pc : Bool) (mode : Mode) → Fits 0 (encode_loop bs pc mode [])
unfolding encode_loop
encode_end-Fits bs pc plain = omega arith
encode_end-Fits bs pc mode = tt

encode_loop-Fits :
    (bs pc : Bool) (mode : Mode) (s : Text) → Fits (length s * 3) (encode_loop bs pc mode s)
encode_loop-Fits bs pc mode [] = encode_end-Fits bs pc mode
encode_loop-Fits bs pc mode (c ∷ cs) = elim (Option-cases (encode_char bs pc mode c)) [
  | inl bad ↦ subst (Fits (suc (length cs) * 3)) (sym (encode_loop-bad bs pc mode c cs bad)) tt
  | inr ((out, next), e) ↦
      let o = encode_loop bs pc next cs in
      subst (Fits (suc (length cs) * 3)) (sym (encode_loop-cons bs pc mode c cs out next e)) (
        Fits-le (length out + length cs * 3) (suc (length cs) * 3) (prepend out o)
          (omega (arith, encode_char_bound bs pc mode c out next e))
          (Fits-prepend out (length cs * 3) o (encode_loop-Fits bs pc next cs)))
]

prefix-Fits :
    (bs pc : Bool) (s : Text) (n : ℕ)
    → Fits (length s * 3) (prepend (take n s) (encode_loop bs pc plain (drop n s)))
prefix-Fits bs pc s n =
    let o = encode_loop bs pc plain (drop n s) in
    Fits-le (length (take n s) + length (drop n s) * 3) (length s * 3) (prepend (take n s) o)
      (omega (arith, length-take n s, length-drop n s))
      (Fits-prepend (take n s) (length (drop n s) * 3) o (encode_loop-Fits bs pc plain (drop n s)))

encode_written-cons :
    (bs pc : Bool) (mode : Mode) (c : ℕ) (cs : Text) (out : Text) (next : Mode)
    → encode_char bs pc mode c ≡ some (out, next)
    → encode_written bs pc mode (c ∷ cs) ≡ out ++ encode_written bs pc next cs
unfolding encode_written
encode_written-cons bs pc mode c cs out next e = rw (encode_written, e) refl

encode_written-bad :
    (bs pc : Bool) (mode : Mode) (c : ℕ) (cs : Text)
    → encode_char bs pc mode c ≡ none
    → encode_written bs pc mode (c ∷ cs) ≡ []
unfolding encode_written
encode_written-bad bs pc mode c cs e = rw (encode_written, e) refl

-- three bytes at most are written for each character
length-encode_written :
    (bs pc : Bool) (mode : Mode) (s : Text) → length (encode_written bs pc mode s) ≤ length s * 3
unfolding encode_written
length-encode_written bs pc mode [] = omega arith
length-encode_written bs pc mode (c ∷ cs) = elim (Option-cases (encode_char bs pc mode c)) [
  | inl bad ↦ omega (arith, ap length (encode_written-bad bs pc mode c cs bad))
  | inr ((out, next), e) ↦ omega (
    arith,
    ap length (encode_written-cons bs pc mode c cs out next e),
    length-append out (encode_written bs pc next cs),
    encode_char_bound bs pc mode c out next e,
    length-encode_written bs pc next cs,
  )
]

-- the buffer has room for all that is written
room_there :
    (bs pc : Bool) (s : Text) (n : ℕ)
    → leb (length s * 3 + 1) (length (take n s ++ encode_written bs pc plain (drop n s))) ≡ false
room_there bs pc s n =
    let text = encode_written bs pc plain (drop n s) in
    let most : length (take n s ++ text) < length s * 3 + 1 = omega (
      arith,
      length-append (take n s) text,
      length-take n s,
      length-drop n s,
      length-encode_written bs pc plain (drop n s),
    ) in
    ground (arith, most)

pub encode_string-refused :
    (alloc : ℕ → Bool) (s : Text) (bs pc : Bool)
    → alloc (length s * 3 + 1) ≡ false
    → encode_string alloc s bs pc ≡ generic
unfolding encode_string
encode_string-refused alloc s bs pc e = rw (encode_string, e) refl

pub encode_string-room :
    (alloc : ℕ → Bool) (s : Text) (bs pc : Bool)
    → alloc (length s * 3 + 1) ≡ true
    → encode_string alloc s bs pc
      ≡ prepend (take (locator_length s) s) (encode_loop bs pc plain (drop (locator_length s) s))
unfolding encode_string
encode_string-room alloc s bs pc e =
    rw (encode_string, e, room_there bs pc s (locator_length s)) refl

fits_lem :
    (alloc : ℕ → Bool) (s : Text) (bs pc : Bool) → Fits (length s * 3) (encode_string alloc s bs pc)
fits_lem alloc s bs pc = elim (Bool-cases (alloc (length s * 3 + 1))) [
  | inr none_left ↦
      subst (Fits (length s * 3)) (sym (encode_string-refused alloc s bs pc none_left)) tt
  | inl some_left ↦
      subst (Fits (length s * 3)) (sym (encode_string-room alloc s bs pc some_left))
        (prefix-Fits bs pc s (locator_length s))
]

-- Whatever the flags and the bytes are, `ksEncodeString` never writes behind the buffer that it
-- allocates, the terminating zero and the runs that end with an error included, and a text that it
-- returns has at most three bytes for each byte of the original.
pub encode_string-Fits :
    (alloc : ℕ → Bool) (s : Text) (bs pc : Bool)
    → (encode_string alloc s bs pc ≢ overrun) × Fits (length s * 3) (encode_string alloc s bs pc)
encode_string-Fits alloc s bs pc =
    (λ e. subst (Fits (length s * 3)) e (fits_lem alloc s bs pc), fits_lem alloc s bs pc)

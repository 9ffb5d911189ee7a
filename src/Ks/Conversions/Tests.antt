-- ===== src/Ks/Conversions/Tests.antt =====
-- The conversions at concrete strings, and the theorems at them.
use acplt_ks.Base.{◌*◌, ◌≡◌, ◌≢◌, refl, true, false, [], ◌∷◌, arith}
use acplt_ks.Ks.Conversions.{
  Text, ok, bad_name, generic, overrun, string_to_percent, path_to_percent, string_from_percent,
  plain, encode_loop, locator_length, encode_string, decode_string,
}
use acplt_ks.Ks.Conversions.Percent.{string_from_percent-to_percent}
use acplt_ks.Ks.Conversions.Encode.{Fits, encode_string-Fits}
use acplt_ks.Ks.Conversions.RoundTrip.{decode_string-encode_string}

-- "a.b"
abbrev dotted : Text
dotted = b'a' ∷ b'.' ∷ b'b' ∷ []

-- "a%2Eb"
abbrev dotted_percent : Text
dotted_percent = b'a' ∷ b'%' ∷ b'2' ∷ b'E' ∷ b'b' ∷ []

-- "a\.b"
abbrev dotted_escaped : Text
dotted_escaped = b'a' ∷ b'\\' ∷ b'.' ∷ b'b' ∷ []

string_to_percent_runs : string_to_percent (λ _. true) dotted ≡ dotted_percent
unfolding string_to_percent
string_to_percent_runs = refl

string_from_percent_runs : string_from_percent (λ _. true) dotted_percent ≡ ok dotted
unfolding string_from_percent
string_from_percent_runs = refl

encode_string_runs : encode_string (λ _. true) dotted_escaped true false ≡ ok dotted_percent
unfolding encode_string
encode_string_runs = refl

decode_string_runs : decode_string (λ _. true) dotted_percent true ≡ ok dotted_escaped
unfolding decode_string
decode_string_runs = refl

-- "//h/s/" is copied as it stands, and "%" behind it is not
locator_runs :
    encode_string (λ _. true) (b'/' ∷ b'/' ∷ b'%' ∷ b'/' ∷ b's' ∷ b'/' ∷ b'%' ∷ []) true false
    ≡ ok (b'/' ∷ b'/' ∷ b'%' ∷ b'/' ∷ b's' ∷ b'/' ∷ b'%' ∷ b'2' ∷ b'5' ∷ [])
unfolding encode_string
locator_runs = refl

trailing_backslash : encode_string (λ _. true) (b'\\' ∷ []) true false ≡ bad_name
unfolding encode_string
trailing_backslash = refl

no_memory : decode_string (λ _. false) dotted true ≡ generic
unfolding decode_string
no_memory = refl

string_from_percent-to_percent_example :
    (string_from_percent (λ _. true) (string_to_percent (λ _. true) dotted) ≡ ok dotted)
    × (string_from_percent (λ _. true) (path_to_percent (λ _. true) dotted) ≡ ok dotted)
string_from_percent-to_percent_example =
    string_from_percent-to_percent dotted (omega arith) (omega arith)

encode_string-Fits_example :
    (encode_string (λ _. true) dotted true false ≢ overrun)
    × Fits (3 * 3) (encode_string (λ _. true) dotted true false)
encode_string-Fits_example = encode_string-Fits (λ _. true) dotted true false

no_locator : locator_length dotted ≡ 0
unfolding locator_length
no_locator = refl

decode_string-encode_string_example :
    (t : Text) × (encode_string (λ _. true) dotted false false ≡ ok t)
    × (decode_string (λ _. true) t false ≡ ok dotted)
decode_string-encode_string_example = decode_string-encode_string dotted (omega arith) no_locator

escaped_encodes : encode_loop true false plain dotted_escaped ≡ ok dotted_percent
unfolding encode_loop
escaped_encodes = refl

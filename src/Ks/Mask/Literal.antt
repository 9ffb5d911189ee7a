-- ===== src/Ks/Mask/Literal.antt =====
-- Masks of plain characters and question marks.
use acplt_ks.Base.{
  ℕ, zero, suc, ◌+◌, ◌≤◌, ◌<◌, ◌≡◌, Bool, true, false, not, ◌&&◌, ◌||◌, List, [], ◌∷◌, Option, some,
  arith, if◌then◌else◌, ltb, ◌==◌, length, Bool-cases, inl, inr, dec_lt, drop, drop-get_or,
  drop-all,
}
use native.Mathlib.Numerals.{add-one}
use acplt_ks.Ks.Mask.{Answer, hit, miss, at, m_round, m_loop, matches}

-- as long, and equal wherever the mask has no question mark
pub agrees : List ℕ → List ℕ → Bool
agrees [] [] = true
agrees [] (d ∷ ds) = false
agrees (c ∷ cs) [] = false
agrees (c ∷ cs) (d ∷ ds) = (c == b'?' || c == d) && agrees cs ds

-- no bracket, star or backslash
abbrev pub is_simple : ℕ → Bool
is_simple c = not (c == b'[') && not (c == b'*') && not (c == b'\\')

abbrev verdict : Bool → Option Answer
verdict b = some (if b then hit else miss)

module _ (mask name : List ℕ) (simple : (i : ℕ) → is_simple (at mask i) ≡ true) where
  m_round-simple :
      (loop : ℕ → ℕ → Option Answer) (n m : ℕ)
      → n < length name
      → m < length mask
      → m_round mask name loop n m
        ≡ (if at mask m == b'?' || at mask m == at name n then loop (n + 1) (m + 1) else some miss)
  unfolding m_round
  m_round-simple loop n m hn hm = ground (arith, simple m)

  m_round-over :
      (loop : ℕ → ℕ → Option Answer) (n m : ℕ)
      → n ≤ length name
      → m ≤ length mask
      → (ltb n (length name) && ltb m (length mask)) ≡ false
      → m_round mask name loop n m ≡ verdict (n == length name && m == length mask)
  unfolding m_round
  m_round-over loop n m hn hm e = ground (arith, e, simple m)

  agrees-more :
      (n m : ℕ)
      → n < length name
      → m < length mask
      → agrees (drop m mask) (drop n name) ≡ (
          (at mask m == b'?' || at mask m == at name n)
          && agrees (drop (m + 1) mask) (drop (n + 1) name))
  unfolding agrees
  agrees-more n m hn hm =
      rw (drop-get_or m mask 0 hm, drop-get_or n name 0 hn, add-one m, add-one n)

  agrees-over :
      (n m : ℕ)
      → n ≤ length name
      → m ≤ length mask
      → (ltb n (length name) && ltb m (length mask)) ≡ false
      → agrees (drop m mask) (drop n name) ≡ (n == length name && m == length mask)
  unfolding agrees
  agrees-over n m hn hm e = elim (dec_lt n (length name)) [
    | no n_end ↦ elim (dec_lt m (length mask)) [
      | no m_end ↦ rw (drop-all n name (omega arith), drop-all m mask (omega arith)) (ground arith)
      | yes more ↦ rw (drop-all n name (omega arith), drop-get_or m mask 0 more) (ground arith)
    ]
    | yes more ↦ rw (drop-get_or n name 0 more, drop-all m mask (ground (arith, e))) (ground arith)
  ]

  m_loop-agrees :
      (fuel n m : ℕ)
      → n ≤ length name
      → m ≤ length mask
      → length mask < m + fuel
      → m_loop mask name fuel n m ≡ verdict (agrees (drop m mask) (drop n name))
  unfolding m_loop
  m_loop-agrees zero n m hn hm h = absurd (omega arith)
  m_loop-agrees (suc fuel) n m hn hm h =
      let loop = m_loop mask name fuel in
      let more = ltb n (length name) && ltb m (length mask) in
      elim (Bool-cases more) [
        | inr over ↦ rw (m_round-over loop n m hn hm over, agrees-over n m hn hm over)
        | inl go ↦
            let hn' : n < length name = ground (arith, go) in
            let hm' : m < length mask = ground (arith, go) in
            let rest =
              m_loop-agrees fuel (n + 1) (m + 1) (omega arith) (omega arith) (omega arith) in
            rw (m_round-simple loop n m hn' hm', agrees-more n m hn' hm', rest) (ground arith)
      ]

-- A mask with no bracket, star or backslash matches exactly the names of its length that are equal
-- to it wherever it has no question mark; every other name is a miss.
pub matches-agrees :
    (mask name : List ℕ)
    → ((i : ℕ) → is_simple (at mask i) ≡ true)
    → matches mask name (length mask + 1) ≡ some (if agrees mask name then hit else miss)
unfolding matches
matches-agrees mask name simple =
    m_loop-agrees mask name simple (length mask + 1) 0 0 (omega arith) (omega arith) (omega arith)

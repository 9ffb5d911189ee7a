-- ===== src/Ks/Mask/Progress.antt =====
-- Without sets in the mask `m_loop` returns: each round and each call goes on in the mask.
use acplt_ks.Base.{
  ℕ, zero, suc, ◌+◌, ◌-◌, ◌≤◌, ◌<◌, ◌≡◌, refl, Bool, true, false, not, ◌&&◌, ◌||◌, List, Option,
  none, some, arith, if◌then◌else◌, leb, ltb, ◌==◌, length, Option-cases, inl, inr, dec_lt,
}
use acplt_ks.Ks.Mask.{
  Answer, hit, miss, malformed, at, skip_jokers, count_rest, try_char, joker_rest, joker, m_round,
  m_loop, matches,
}

abbrev pub Returns : Option Answer → Type 0
Returns o = (a : Answer) × (o ≡ some a)

-- `if (r!=0) return r;`, and otherwise the next round of the loop
on_answer :
    (o rest : Option Answer)
    → Returns o
    → Returns rest
    → Returns (elim o [
      | none ↦ none
      | some miss ↦ rest
      | some hit ↦ some hit
      | some (malformed p) ↦ some (malformed p)
    ])
on_answer o rest (hit, e) r = (hit, rw e)
on_answer o rest (miss, e) (a, r) = (a, rw e r)
on_answer o rest (malformed p, e) r = (malformed p, rw e)

if_Returns :
    (b : Bool) (x y : Option Answer)
    → (b ≡ true → Returns x)
    → (b ≡ false → Returns y)
    → Returns (if b then x else y)
if_Returns true x y f g = f refl
if_Returns false x y f g = g refl

skip_jokers-le :
    (mask name : List ℕ) (rounds n m n' m' : ℕ)
    → skip_jokers mask name rounds n m ≡ some (n', m')
    → m ≤ m'
unfolding skip_jokers
skip_jokers-le mask name zero n m n' m' e = ground (arith, e)
skip_jokers-le mask name (suc rounds) n m n' m' e =
    let one = at mask (m + 1) == b'?' in
    ground (arith, e, skip_jokers-le mask name rounds (if one then n + 1 else n) (m + 1) n' m')

module _ (mask name : List ℕ) (no_set : (i : ℕ) → (at mask i == b'[') ≡ false) where
  module _ (loop : ℕ → ℕ → Option Answer) (bound : ℕ)
      (returns : (n m : ℕ) → bound < m → Returns (loop n m)) where
    try_char-Returns :
        (n m : ℕ) → bound ≤ m → (rounds : ℕ) → Returns (try_char mask name loop n m rounds)
    unfolding try_char
    try_char-Returns n m h zero = (miss, refl)
    try_char-Returns n m h (suc rounds) =
        if_Returns (at mask (m + 1) == at name (n + rounds)) _ _
          (λ _.
            on_answer (loop (n + rounds + 1) (m + 2)) _ (returns _ (m + 2) (omega arith))
              (try_char-Returns n m h rounds))
          (λ _. try_char-Returns n m h rounds)

    joker_rest-Returns : (n m : ℕ) → bound ≤ m → Returns (joker_rest mask name loop n m)
    unfolding joker_rest
    joker_rest-Returns n m h =
        let l = length mask in
        let l_rest = count_rest mask name (l - (m + 1)) false (m + 1) in
        let m' : ℕ = if at mask (m + 1) == b'\\' then m + 1 else m in
        if_Returns (n == length name && not (m + 1 == l)) _ _ (λ _. (miss, refl))
          (λ _.
            if_Returns (leb l (m + 1)) _ _ (λ _. (hit, refl))
              (λ _.
                if_Returns (l_rest == 0) _ _ (λ _. (malformed (m + 1), refl))
                  (λ _.
                    if_Returns (not (at mask (m' + 1) == b'[')) _ _
                      (λ _. try_char-Returns n m' (ground arith) (length name + 1 - l_rest - n))
                      (λ e. ground (arith, e, no_set (m' + 1))))))

    joker-Returns : (n m : ℕ) → bound ≤ m → Returns (joker mask name loop n m)
    unfolding joker
    joker-Returns n m h = elim (Option-cases (skip_jokers mask name (length mask - m) n m)) [
      | inl e ↦ rw (e, joker) (miss, refl)
      | inr ((n', m'), e) ↦
          rw (e, joker)
            (joker_rest-Returns n' m'
              (omega (arith, skip_jokers-le mask name (length mask - m) n m n' m' e)))
    ]

    m_round-Returns : (n m : ℕ) → bound ≤ m → Returns (m_round mask name loop n m)
    unfolding m_round
    m_round-Returns n m h =
        let c = at mask m in
        let m' : ℕ = if c == b'\\' then m + 1 else m in
        if_Returns (ltb n (length name) && ltb m (length mask)) _ _
          (λ _.
            if_Returns (c == b'[') _ _ (λ e. ground (arith, e, no_set m))
              (λ _.
                if_Returns (c == b'*') _ _ (λ _. joker-Returns n m h)
                  (λ _.
                    if_Returns (c == b'?') _ _ (λ _. returns (n + 1) (m + 1) (omega arith))
                      (λ _.
                        if_Returns (leb (length mask) m' || not (at mask m' == at name n)) _ _
                          (λ _. (miss, refl)) (λ _. returns (n + 1) (m' + 1) (ground arith))))))
          (λ _.
            if_Returns (n == length name && m == length mask) _ _ (λ _. (hit, refl))
              (λ _.
                if_Returns (ltb m (length mask) && c == b'*') _ _ (λ _. joker-Returns n m h)
                  (λ _. (miss, refl))))

  m_round-end :
      (loop : ℕ → ℕ → Option Answer) (n m : ℕ)
      → length mask ≤ m
      → Returns (m_round mask name loop n m)
  unfolding m_round
  m_round-end loop n m h =
      let stop : ltb m (length mask) ≡ false = ground arith in
      if_Returns (ltb n (length name) && ltb m (length mask)) _ _ (λ e. ground (arith, e, stop))
        (λ _.
          if_Returns (n == length name && m == length mask) _ _ (λ _. (hit, refl))
            (λ _.
              if_Returns (ltb m (length mask) && at mask m == b'*') _ _
                (λ e. ground (arith, e, stop)) (λ _. (miss, refl))))

  m_loop-Returns :
      (fuel n m : ℕ) → 0 < fuel → length mask < m + fuel → Returns (m_loop mask name fuel n m)
  unfolding m_loop
  m_loop-Returns zero n m p h = absurd (omega arith)
  m_loop-Returns (suc fuel) n m p h = elim (dec_lt m (length mask)) [
    | yes more ↦
        m_round-Returns (m_loop mask name fuel) m
          (λ n' m' q. m_loop-Returns fuel n' m' (omega arith) (omega arith)) n m (omega arith)
    | no done ↦ m_round-end (m_loop mask name fuel) n m (omega arith)
  ]

-- A mask with no opening bracket is answered for every name, whenever the fuel is more than the
-- length of the mask; the fuel bounds how deep rounds and calls are nested.
pub matches-returns :
    (mask name : List ℕ) (fuel : ℕ)
    → ((i : ℕ) → (at mask i == b'[') ≡ false)
    → length mask < fuel
    → (a : Answer) × (matches mask name fuel ≡ some a)
unfolding matches
matches-returns mask name fuel no_set enough =
    m_loop-Returns mask name no_set fuel 0 0 (omega (arith, enough)) (omega (arith, enough))

-- ===== src/Ks/Mask.antt =====
-- `KsMask`: ks/include/ks/mask.h and ks/src/mask.cpp, with PLT_IGNOR_UPCASE at 0 as the header sets
-- it. The mask and the name are lists of bytes that end in a zero, so reading at the length gives 0.
pub mod Range
pub mod Progress
pub mod Endless
pub mod Literal
mod Tests
use mathlib.Core.Option
use acplt_ks.Base.{
  ℕ, zero, suc, ◌+◌, ◌-◌, Bool, true, false, not, ◌&&◌, ◌||◌, List, [], ◌∷◌, Option, none, some,
  if◌then◌else◌, leb, ltb, ◌==◌, length, get_or,
}
use acplt_ks.Base.Chars.{is_digit, is_upper, is_lower}

-- What the functions return: 1, 0, and the negative of a position behind an error in the mask.
pub data Answer : Type 0 where
  hit miss : Answer
  malformed : ℕ → Answer

-- `s[i]`
abbrev pub at : List ℕ → ℕ → ℕ
at s i = get_or s i 0

-- `for (i=...; i<=...; i++) if (i==name[n])`, of so many rounds
pub scan : ℕ → ℕ → ℕ → Bool
scan zero i c = false
scan (suc rounds) i c = i == c || scan rounds (i + 1) c

pub in_loop : ℕ → ℕ → ℕ → Bool
unfolding scan
in_loop first last c = scan (last + 1 - first) first c

-- What the part `a-b]` of a set says of a character; `none` if it is malformed.
pub range_test : ℕ → ℕ → ℕ → ℕ → Option Bool
unfolding in_loop
range_test a b close c =
    if (is_digit a && is_digit b || is_upper a && is_upper b || is_lower a && is_lower b)
      && close == b']'
    then some (in_loop a b c)
    else if is_upper a && is_lower b && close == b']'
    then some (in_loop a b'Z' c || in_loop b'a' b c)
    else if is_lower a && is_upper b && close == b']'
    then some (in_loop a b'z' c || in_loop b'A' b c)
    else none

-- `while (i<l && mask[i]!=']') i++`, of so many rounds
pub skip_to_close : ℕ → List ℕ → ℕ → ℕ
skip_to_close zero mask i = i
skip_to_close (suc rounds) mask i =
    let rest = skip_to_close rounds mask (i + 1) in if at mask i == b']' then i else rest

-- how the loop over the characters of a set ends: at a character that is equal, or at its end
pub data Found : Type 0 where
  found_at ended_at : ℕ → Found

-- `for (...; i<l && mask[i]!=']'; i++) if (mask[i]==name[n])`
pub search_set : ℕ → List ℕ → ℕ → ℕ → Found
search_set zero mask i c = ended_at i
search_set (suc rounds) mask i c =
    let rest = search_set rounds mask (i + 1) c in
    if at mask i == b']' then ended_at i else if at mask i == c then found_at i else rest

-- what a function answers, with `n` and `m` as it leaves them
pub record Step : Type 0 where
  pub answer : Answer
  pub n : ℕ
  pub m : ℕ

-- `n` and `m` are left as they are
abbrev pub stay : ℕ → ℕ → Answer → Step
stay n m a = record { answer = a; n = n; m = m }

module _ (mask name : List ℕ) where
  -- the part of `set` for a set that does not begin with `^`
  pub positive_set : ℕ → ℕ → Step
  unfolding range_test search_set skip_to_close
  positive_set n m =
      let l = length mask in
      let c = at name n in
      if leb (m + 5) l && at mask (m + 2) == b'-'
      then elim (range_test (at mask (m + 1)) (at mask (m + 3)) (at mask (m + 4)) c) [
        | none ↦ stay n m (malformed (m + 1))
        | some true ↦ record { answer = hit; n = n + 1; m = m + 5 }
        | some false ↦ stay n m miss
      ]
      else elim (search_set (l - (m + 1)) mask (m + 1) c) [
        | found_at i ↦
            let e = skip_to_close (l - i) mask i in
            if at mask e == b']'
            then record { answer = hit; n = n + 1; m = e + 1 }
            else stay n m (malformed (m + 1))
        | ended_at i ↦ if at mask i == b']' then stay n m miss else stay n m (malformed (m + 1))
      ]

  -- the part for a set that begins with `^`
  pub negative_set : ℕ → ℕ → Step
  unfolding range_test search_set skip_to_close
  negative_set n m =
      let l = length mask in
      let c = at name n in
      if leb (m + 6) l && at mask (m + 3) == b'-'
      then elim (range_test (at mask (m + 2)) (at mask (m + 4)) (at mask (m + 5)) c) [
        | none ↦ stay n m (malformed (m + 1))
        | some true ↦ record { answer = miss; n = n + 1; m = m + 6 }
        | some false ↦ stay n m hit
      ]
      else elim (search_set (l - (m + 2)) mask (m + 2) c) [
        | found_at i ↦
            let e = skip_to_close (l - i) mask i in
            if at mask e == b']'
            then record { answer = miss; n = n + 1; m = e + 1 }
            else stay n m (malformed (m + 1))
        | ended_at i ↦ if at mask i == b']' then stay n m hit else stay n m (malformed (m + 1))
      ]

  pub set : ℕ → ℕ → Step
  unfolding positive_set negative_set
  set n m =
      if leb (length mask) (m + 2)
      then stay n m (malformed (m + 1))
      else if not (at mask (m + 1) == b'^')
      then positive_set n m
      else negative_set n m

  -- The first loop of `joker`, over `?` and `*` behind the star: `n` and `m`, or `none` for its
  -- `return 0`.
  pub skip_jokers : ℕ → ℕ → ℕ → Option (ℕ × ℕ)
  skip_jokers zero n m = some (n, m)
  skip_jokers (suc rounds) n m =
      let one = at mask (m + 1) == b'?' in
      let next = skip_jokers rounds (if one then n + 1 else n) (m + 1) in
      if ltb (m + 1) (length mask) && (one || at mask (m + 1) == b'*')
      then if one && not (ltb n (length name)) then none else next
      else some (n, m)

  -- the loop that counts `l_rest`, with its flag `set`
  pub count_rest : ℕ → Bool → ℕ → ℕ
  count_rest zero in_set i = 0
  count_rest (suc rounds) in_set i =
      let free = not (at mask (i - 1) == b'\\') in
      let opens = at mask i == b'[' && free in
      let closes = at mask i == b']' && free in
      let counts =
        not in_set && not (at mask i == b'\\') && (not (at mask i == b'*') || not free) in
      (if opens then 0 else if closes || counts then 1 else 0)
      + count_rest rounds (if opens then true else if closes then false else in_set) (i + 1)

  -- The two `for` loops of `joker`, which try the positions `n + rounds - 1` down to `n`. `loop` is
  -- `m_loop`; `none` is that it does not return.
  pub try_char : (ℕ → ℕ → Option Answer) → ℕ → ℕ → ℕ → Option Answer
  try_char loop n m zero = some miss
  try_char loop n m (suc rounds) =
      let rest = try_char loop n m rounds in
      let i = n + rounds in
      if at mask (m + 1) == at name i
      then elim (loop (i + 1) (m + 2)) [
        | none ↦ none
        | some miss ↦ rest
        | some hit ↦ some hit
        | some (malformed p) ↦ some (malformed p)
      ]
      else rest

  pub try_set : (ℕ → ℕ → Option Answer) → ℕ → ℕ → ℕ → Option Answer
  unfolding set
  try_set loop n m zero = some miss
  try_set loop n m (suc rounds) =
      let rest = try_set loop n m rounds in
      let s = set (n + rounds) (m + 1) in
      elim s.answer [
        | miss ↦ rest
        | malformed p ↦ some (malformed p)
        | hit ↦ elim (loop s.n s.m) [
          | none ↦ none
          | some miss ↦ rest
          | some hit ↦ some hit
          | some (malformed p) ↦ some (malformed p)
        ]
      ]

  -- the part of `joker` behind its first loop
  pub joker_rest : (ℕ → ℕ → Option Answer) → ℕ → ℕ → Option Answer
  unfolding count_rest try_char try_set
  joker_rest loop n m =
      let l = length mask in
      let k = length name in
      let l_rest = count_rest (l - (m + 1)) false (m + 1) in
      let m' = if at mask (m + 1) == b'\\' then m + 1 else m in
      let rounds = k + 1 - l_rest - n in
      if n == k && not (m + 1 == l)
      then some miss
      else if leb l (m + 1)
      then some hit
      else if l_rest == 0
      then some (malformed (m + 1))
      else if not (at mask (m' + 1) == b'[')
      then try_char loop n m' rounds
      else try_set loop n m' rounds

  pub joker : (ℕ → ℕ → Option Answer) → ℕ → ℕ → Option Answer
  unfolding skip_jokers joker_rest
  joker loop n m = elim (skip_jokers (length mask - m) n m) [
    | none ↦ some miss
    | some (n', m') ↦ joker_rest loop n' m'
  ]

  -- One round of the loop of `m_loop`, or what stands behind that loop; `loop` is the next round.
  pub m_round : (ℕ → ℕ → Option Answer) → ℕ → ℕ → Option Answer
  unfolding set joker
  m_round loop n m =
      let l = length mask in
      let k = length name in
      let c = at mask m in
      let s = set n m in
      let m' = if c == b'\\' then m + 1 else m in
      if ltb n k && ltb m l
      then if c == b'['
        then elim s.answer [ miss ↦ some miss | hit ↦ loop s.n s.m | malformed p ↦ loop s.n s.m ]
        else if c == b'*'
        then joker loop n m
        else if c == b'?'
        then loop (n + 1) (m + 1)
        else if leb l m' || not (at mask m' == at name n)
        then some miss
        else loop (n + 1) (m' + 1)
      else if n == k && m == l
      then some hit
      else if ltb m l && c == b'*'
      then joker loop n m
      else some miss

  -- `m_loop` with so many rounds and calls at most; `none` if that is not enough
  pub m_loop : ℕ → ℕ → ℕ → Option Answer
  unfolding m_round
  m_loop zero n m = none
  m_loop (suc fuel) n m = m_round (m_loop fuel) n m

  pub matches : ℕ → Option Answer
  unfolding m_loop
  matches fuel = m_loop fuel 0 0

-- ===== src/Ks/Mask/Endless.antt =====
-- Masks at which `m_loop` does not return: a set that is not missed and moves neither position.
use acplt_ks.Base.{
  ℕ, zero, suc, ◌+◌, ◌≤◌, ◌<◌, ◌≡◌, refl, true, false, ◌&&◌, List, Option, none, arith, leb, length,
}
use acplt_ks.Ks.Mask.{Answer, hit, miss, malformed, at, stay, set, m_round, m_loop}
use acplt_ks.Ks.Mask.Range.{same_class, set-negated}

-- no miss
abbrev pub Goes : Answer → Type 0
Goes miss = ⊥
Goes _ = Unit

module _ (mask name : List ℕ) where
  m_round-stay :
      (loop : ℕ → ℕ → Option Answer) (n m : ℕ) (a : Answer)
      → n < length name
      → m < length mask
      → at mask m ≡ b'['
      → Goes a
      → set mask name n m ≡ stay n m a
      → m_round mask name loop n m ≡ loop n m
  unfolding m_round
  m_round-stay loop n m hit hn hm e go s = rw (e, s) (ground arith)
  m_round-stay loop n m miss hn hm e go s = absurd go
  m_round-stay loop n m (malformed p) hn hm e go s = rw (e, s) (ground arith)

  stay-endless :
      (n m : ℕ) (a : Answer)
      → n < length name
      → m < length mask
      → at mask m ≡ b'['
      → Goes a
      → set mask name n m ≡ stay n m a
      → (fuel : ℕ) → m_loop mask name fuel n m ≡ none
  unfolding m_loop
  stay-endless n m a hn hm e go s zero = refl
  stay-endless n m a hn hm e go s (suc fuel) =
      rw (m_round-stay (m_loop mask name fuel) n m a hn hm e go s)
        (stay-endless n m a hn hm e go s fuel)

  -- At a negated set `[^a-b]` the loop does not return for a character that the set is meant to
  -- accept: no number of rounds is enough.
  pub negated_set-endless :
      (n m a b : ℕ)
      → n < length name
      → m + 6 ≤ length mask
      → at mask m ≡ b'['
      → at mask (m + 1) ≡ b'^'
      → at mask (m + 2) ≡ a
      → at mask (m + 3) ≡ b'-'
      → at mask (m + 4) ≡ b
      → at mask (m + 5) ≡ b']'
      → same_class a b ≡ true
      → (leb a (at name n) && leb (at name n) b) ≡ false
      → (fuel : ℕ) → m_loop mask name fuel n m ≡ none
  negated_set-endless n m a b hn len e₀ e₁ e₂ e₃ e₄ e₅ same out =
      stay-endless n m hit hn (omega arith) e₀ tt
        (rw (set-negated mask name n m a b len e₁ e₂ e₃ e₄ e₅ same, out))

  set-cut_off : (n m : ℕ) → length mask ≤ m + 2 → set mask name n m ≡ stay n m (malformed (m + 1))
  unfolding set
  set-cut_off n m h = ground arith

  -- Nor does it return at a bracket with at most one character behind it, though `set` reports the
  -- error in the mask.
  pub cut_off_set-endless :
      (n m : ℕ)
      → n < length name
      → m < length mask
      → length mask ≤ m + 2
      → at mask m ≡ b'['
      → (fuel : ℕ)
      → (set mask name n m ≡ stay n m (malformed (m + 1))) × (m_loop mask name fuel n m ≡ none)
  cut_off_set-endless n m hn hm len e fuel =
      let s = set-cut_off n m len in (s, stay-endless n m (malformed (m + 1)) hn hm e tt s fuel)

-- ===== src/Ks/MemStream/PutLong.antt =====
-- `MemStreamPutLong` and `MemStreamPutBytes` of ks/src/xdrmemstream.cpp.
use acplt_ks.Base.{
  ℕ, ◌+◌, ◌%◌, ltb, ◌<◌, ◌≡◌, refl, ap, sym, ◌∙◌, Bool, true, false, ◌⊎◌, inl, inr, List, [], ◌∷◌,
  Option, none, some, arith, length, take, drop, subst, if◌then◌else◌, ◌==◌, ==_iff, Bool-cases,
}
use acplt_ks.Base.Outcomes.{if-through}
use acplt_ks.Ks.MemStream.{Fragment, Pool, Stream, allocate, sub32}
use acplt_ks.Ks.MemStream.Transfer.{ready, store, share, put_loop, put_bytes, put_long}
use acplt_ks.Ks.MemStream.Allocation.{allocate-elim, link_handy}

module _ (malloc : ℕ → Option (ℕ → ℕ)) (p : Pool) where
  -- the room that is there after a look for it
  abbrev Room : Bool × Pool × Stream → Type 0
  Room (ok, q, t) =
      ((ok ≡ true) × (0 < t.x_handy) × (t.x_handy % 4 ≡ 0)) ⊎ ((ok ≡ false) × (t.x_handy ≡ 0))

  ready-Room :
      (s : Stream)
      → 0 < p.mem_stream_buffer_size
      → p.mem_stream_buffer_size % 4 ≡ 0
      → s.x_handy % 4 ≡ 0
      → Room (ready malloc p s)
  unfolding ready
  ready-Room s positive size4 handy4 = elim (Bool-cases (s.x_handy == 0)) [
    | inl none_left ↦
        subst (λ b. Room (if b then allocate malloc p s else (true, p, s))) (sym none_left)
          (allocate-elim malloc p s Room
            (λ q. λ memory.
              let l = link_handy p.mem_stream_buffer_size memory s in
              inl (refl, omega (arith, l), omega (arith, l)))
            (λ q. inr (refl, (==_iff s.x_handy 0).0 none_left)))
    | inr some_left ↦
        subst (λ b. Room (if b then allocate malloc p s else (true, p, s))) (sym some_left)
          (inl (refl, ground (arith, some_left), handy4))
  ]

  abbrev at_hand : Stream → Bool × Pool × Stream
  at_hand s = ready malloc p s

  module _ (s : Stream) (a b c d : ℕ) where
    put_bytes-stops :
        (at_hand s).0 ≡ false
        → put_bytes malloc p s (a ∷ b ∷ c ∷ d ∷ []) ≡ some (false, (at_hand s).1, (at_hand s).2)
    unfolding put_bytes put_loop
    put_bytes-stops e = rw (put_loop, e) refl

    -- what is left of a put when the room is there
    abbrev stored : List ℕ → Option (Bool × Pool × Stream)
    stored bs = elim (store p.mem_stream_buffer_size (at_hand s).2 bs) [
      | none ↦ none
      | some u ↦ some (true, (at_hand s).1, u)
    ]

    -- the same, with what `MemStreamPutLong` leaves in `x_handy`
    abbrev stepped_at : Stream → List ℕ → Option (Bool × Pool × Stream)
    stepped_at t bs = elim (store p.mem_stream_buffer_size t bs) [
      | none ↦ none
      | some u ↦ some (true, (at_hand s).1, record u { x_handy = sub32 t.x_handy 4 })
    ]

    abbrev stored_at : Stream → List ℕ → Option (Bool × Pool × Stream)
    stored_at t bs = elim (store p.mem_stream_buffer_size t bs) [
      | none ↦ none
      | some u ↦ some (true, (at_hand s).1, u)
    ]

    -- of four bytes that is what a put leaves there
    stepped_at-stored_at :
        stepped_at (at_hand s).2 (a ∷ b ∷ c ∷ d ∷ []) ≡ stored_at (at_hand s).2 (a ∷ b ∷ c ∷ d ∷ [])
    unfolding store
    stepped_at-stored_at = by_fragment (at_hand s).2 (at_hand s).2.current
      where
        by_fragment :
            (t : Stream) (current : Option Fragment)
            → stepped_at (record t { current = current }) (a ∷ b ∷ c ∷ d ∷ [])
              ≡ stored_at (record t { current = current }) (a ∷ b ∷ c ∷ d ∷ [])
        by_fragment t none = refl
        by_fragment t (some f) =
            if-through (ltb p.mem_stream_buffer_size (t.x_private + 4)) _
              (λ u. some (true, (at_hand s).1, record u { x_handy = sub32 t.x_handy 4 }))
              (λ u. some (true, (at_hand s).1, u)) refl

    -- the first round, with so many bytes of the four
    abbrev first_round : ℕ → Option (Bool × Pool × Stream)
    first_round n =
        elim (store p.mem_stream_buffer_size (at_hand s).2 (take n (a ∷ b ∷ c ∷ d ∷ []))) [
          | none ↦ none
          | some u ↦ put_loop malloc 3 (at_hand s).1 u (drop n (a ∷ b ∷ c ∷ d ∷ []))
        ]

    put_bytes-round :
        (at_hand s).0 ≡ true
        → put_bytes malloc p s (a ∷ b ∷ c ∷ d ∷ []) ≡ first_round (share (at_hand s).2.x_handy 4)
    unfolding put_bytes put_loop
    put_bytes-round e = rw (put_loop, e) refl

    put_bytes-whole :
        (at_hand s).0 ≡ true
        → share (at_hand s).2.x_handy 4 ≡ 4
        → put_bytes malloc p s (a ∷ b ∷ c ∷ d ∷ []) ≡ stored (a ∷ b ∷ c ∷ d ∷ [])
    unfolding put_loop
    put_bytes-whole e all = put_bytes-round e ∙ ap first_round all

    put_long-stops :
        (ixdr_put : ℕ → List ℕ) (v : ℕ)
        → (at_hand s).0 ≡ false
        → put_long malloc ixdr_put p s v
          ≡ some (false, (at_hand s).1, record (at_hand s).2 { x_handy = 0 })
    unfolding put_long
    put_long-stops ixdr_put v e = rw (put_long, e) refl

    put_long-whole :
        (ixdr_put : ℕ → List ℕ) (v : ℕ)
        → (at_hand s).0 ≡ true
        → put_long malloc ixdr_put p s v ≡ stepped_at (at_hand s).2 (ixdr_put v)
    unfolding put_long
    put_long-whole ixdr_put v e = rw (put_long, e) refl

  put_long-four :
      (ixdr_put : ℕ → List ℕ) (s : Stream) (v a b c d : ℕ)
      → ixdr_put v ≡ a ∷ b ∷ c ∷ d ∷ []
      → Room (ready malloc p s)
      → put_long malloc ixdr_put p s v ≡ put_bytes malloc p s (a ∷ b ∷ c ∷ d ∷ [])
  put_long-four ixdr_put s v a b c d four room = elim room [
    | inl (good, positive, in_fours) ↦
        let all : share (at_hand s).2.x_handy 4 ≡ 4 = ground arith in
        put_long-whole s a b c d ixdr_put v good
        ∙ ap (stepped_at s a b c d (at_hand s).2) four
        ∙ stepped_at-stored_at s a b c d
        ∙ sym (put_bytes-whole s a b c d good all)
    | inr (bad, no_room) ↦
        put_long-stops s a b c d ixdr_put v bad
        ∙ ap (λ h. some (false, (at_hand s).1, record (at_hand s).2 { x_handy = h })) (sym no_room)
        ∙ sym (put_bytes-stops s a b c d bad)
  ]

four_bytes :
    (bs : List ℕ)
    → length bs ≡ 4
    → (a : ℕ) × (b : ℕ) × (c : ℕ) × (d : ℕ) × (bs ≡ a ∷ b ∷ c ∷ d ∷ [])
four_bytes [] e = absurd (omega (arith, e))
four_bytes (a ∷ []) e = absurd (omega (arith, e))
four_bytes (a ∷ b ∷ []) e = absurd (omega (arith, e))
four_bytes (a ∷ b ∷ c ∷ []) e = absurd (omega (arith, e))
four_bytes (a ∷ b ∷ c ∷ d ∷ []) e = (a, b, c, d, refl)
four_bytes (a ∷ b ∷ c ∷ d ∷ f ∷ bs) e = absurd (omega (arith, e))

-- If IXDR_PUT_LONG stores four bytes and steps over them, as with a `long` of 32 bits, and the fragments' size and the room left in
-- the current fragment are multiples of four, then `MemStreamPutLong` does what `MemStreamPutBytes` of
-- these four bytes does.
pub put_long-put_bytes :
    (malloc : ℕ → Option (ℕ → ℕ)) (ixdr_put : ℕ → List ℕ) (p : Pool) (s : Stream) (v : ℕ)
    → length (ixdr_put v) ≡ 4
    → 0 < p.mem_stream_buffer_size
    → p.mem_stream_buffer_size % 4 ≡ 0
    → s.x_handy % 4 ≡ 0
    → put_long malloc ixdr_put p s v ≡ put_bytes malloc p s (ixdr_put v)
put_long-put_bytes malloc ixdr_put p s v len positive size4 handy4 =
    let (a, b, c, d, four) = four_bytes (ixdr_put v) len in
    put_long-four malloc p ixdr_put s v a b c d four (ready-Room malloc p s positive size4 handy4)
    ∙ ap (put_bytes malloc p s) (sym four)

-- ===== src/Ks/MemStream/GetLong.antt =====
-- `MemStreamGetLong` and `MemStreamGetBytes` of ks/src/xdrmemstream.cpp.
use mathlib.Core.List.{append-nil}
use acplt_ks.Base.{
  ℕ, ◌+◌, ◌-◌, ◌%◌, ltb, ◌<◌, ◌≡◌, refl, ap, sym, ◌∙◌, Bool, true, false, not, ◌⊎◌, inl, inr, List,
  [], ◌∷◌, ◌++◌, Option, none, some, arith, All, subst, if◌then◌else◌, ◌==◌, Bool-cases,
}
use acplt_ks.Base.Outcomes.{if-through}
use acplt_ks.Ks.MemStream.{Fragment, Pool, Stream, advance, sub32}
use acplt_ks.Ks.MemStream.Transfer.{ready_get, load, share, get_loop, get_bytes, get_long}

module _ (ixdr_get : List ℕ → ℕ) (p : Pool) where
  -- four bytes as an integer
  pub as_long : Option (Bool × List ℕ × Stream) → Option (Option ℕ × Stream)
  as_long none = none
  as_long (some (false, bytes, t)) = some (none, t)
  as_long (some (true, bytes, t)) = some (some (ixdr_get bytes), t)

  -- a look for data finds none, or as many bytes as a multiple of four
  abbrev Data : Option (Bool × Stream) → Type 0
  Data r =
      (r ≡ none)
      ⊎ ((t : Stream) × (r ≡ some (false, t)))
      ⊎ ((t : Stream) × (r ≡ some (true, t)) × (0 < t.x_handy) × (t.x_handy % 4 ≡ 0))

  advance_parts :
      (s : Stream) (current : Option Fragment) (after : List Fragment)
      → All (λ f. f.used % 4 ≡ 0) after
      → Data (advance (record s { current = current; after = after }))
  unfolding advance
  advance_parts s none after in_fours = inl refl
  advance_parts s (some c) [] in_fours = inr (
      inl (record s { before = s.before ++ c ∷ []; current = none; after = []; x_handy = 0 }, refl))
  advance_parts s (some c) (f ∷ fs) in_fours =
      let t : Stream = record s {
        before = s.before ++ c ∷ [];
        current = some f;
        after = fs;
        x_private = 0;
        x_handy = f.used;
      } in
      elim (Bool-cases (f.used == 0)) [
        | inl unused ↦ inr (inl (t, ap (λ b. some (not b, t)) unused))
        | inr in_use ↦
            inr (inr (t, ap (λ b. some (not b, t)) in_use, ground (arith, in_use), in_fours.0))
      ]

  advance-Data : (s : Stream) → All (λ f. f.used % 4 ≡ 0) s.after → Data (advance s)
  advance-Data s in_fours = advance_parts s s.current s.after in_fours

  ready_get-Data :
      (s : Stream) → s.x_handy % 4 ≡ 0 → All (λ f. f.used % 4 ≡ 0) s.after → Data (ready_get s)
  unfolding ready_get
  ready_get-Data s handy4 in_fours = elim (Bool-cases (s.x_handy == 0)) [
    | inl none_left ↦
        subst (λ b. Data (if b then advance s else some (true, s))) (sym none_left)
          (advance-Data s in_fours)
    | inr some_left ↦
        subst (λ b. Data (if b then advance s else some (true, s))) (sym some_left)
          (inr (inr (s, refl, ground (arith, some_left), handy4)))
  ]

  module _ (s t : Stream) where
    -- what is left of a get when the data is there
    abbrev loaded : Option (List ℕ × Stream) → Option (Option ℕ × Stream)
    loaded r = elim r [ none ↦ none | some (bytes, u) ↦ some (some (ixdr_get bytes), u) ]

    -- the same, with what `MemStreamGetLong` leaves in `x_handy`
    abbrev stepped : Option (List ℕ × Stream) → Option (Option ℕ × Stream)
    stepped r = elim r [
      | none ↦ none
      | some (bytes, u) ↦ some (some (ixdr_get bytes), record u { x_handy = sub32 t.x_handy 4 })
    ]

    stepped-loaded :
        stepped (load p.mem_stream_buffer_size t 4) ≡ loaded (load p.mem_stream_buffer_size t 4)
    unfolding load
    stepped-loaded = by_fragment t.current
      where
        by_fragment :
            (current : Option Fragment)
            → stepped (load p.mem_stream_buffer_size (record t { current = current }) 4)
              ≡ loaded (load p.mem_stream_buffer_size (record t { current = current }) 4)
        by_fragment none = refl
        by_fragment (some f) =
            if-through (ltb p.mem_stream_buffer_size (t.x_private + 4)) _
              (λ r. some (some (ixdr_get r.0), record r.1 { x_handy = sub32 t.x_handy 4 }))
              (λ r. some (some (ixdr_get r.0), r.1)) refl

    abbrev with_more : ℕ → Option (List ℕ × Stream) → Option (Bool × List ℕ × Stream)
    with_more n r = elim r [
      | none ↦ none
      | some (bytes, u) ↦ elim (get_loop 3 p.mem_stream_buffer_size u (4 - n)) [
        | none ↦ none
        | some (ok, more, v) ↦ some (ok, bytes ++ more, v)
      ]
    ]

    abbrev first_part : ℕ → Option (Bool × List ℕ × Stream)
    first_part n = with_more n (load p.mem_stream_buffer_size t n)

    get_bytes-round :
        ready_get s ≡ some (true, t) → get_bytes p s 4 ≡ first_part (share t.x_handy 4)
    unfolding get_bytes get_loop
    get_bytes-round e = rw (get_loop, e) refl

    get_long-whole :
        ready_get s ≡ some (true, t)
        → get_long 4 ixdr_get p s ≡ stepped (load p.mem_stream_buffer_size t 4)
    unfolding get_long
    get_long-whole e = rw (get_long, e) refl

    as_long-loaded : (r : Option (List ℕ × Stream)) → as_long (with_more 4 r) ≡ loaded r
    unfolding as_long get_loop
    as_long-loaded none = refl
    as_long-loaded (some (bytes, u)) = rw (append-nil bytes) refl

  -- If IXDR_GET_LONG steps over four bytes, and the room in the current fragment and what the fragments behind it hold are multiples of four,
  -- then `MemStreamGetLong` gives what IXDR_GET_LONG makes of the bytes of `MemStreamGetBytes`.
  pub get_long-get_bytes :
      (s : Stream)
      → s.x_handy % 4 ≡ 0
      → All (λ f. f.used % 4 ≡ 0) s.after
      → get_long 4 ixdr_get p s ≡ as_long (get_bytes p s 4)
  unfolding as_long get_long get_bytes get_loop
  get_long-get_bytes s handy4 in_fours = elim (ready_get-Data s handy4 in_fours) [
    | inl null ↦ rw (get_long, get_loop, null) refl
    | inr (inl (t, ends)) ↦ rw (get_long, get_loop, ends) refl
    | inr (inr (t, goes_on, positive, four)) ↦
        let all : share t.x_handy 4 ≡ 4 = ground arith in
        get_long-whole s t goes_on
        ∙ stepped-loaded s t
        ∙ sym (
            ap as_long (get_bytes-round s t goes_on ∙ ap (first_part s t) all)
            ∙ as_long-loaded s t (load p.mem_stream_buffer_size t 4))
  ]

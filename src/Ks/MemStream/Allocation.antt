-- ===== src/Ks/MemStream/Allocation.antt =====
-- The branches of `AllocateMemoryStreamFragment`.
use acplt_ks.Base.{
  ℕ, ◌+◌, ◌≡◌, refl, sym, subst, Bool, true, false, List, [], ◌∷◌, Option, none, some, leb, inl,
  inr, Bool-cases, Option-cases, List-cases,
}
use acplt_ks.Ks.MemStream.{Fragment, Pool, Stream, allocate, link, inc32, sub32}

module _ (malloc : ℕ → Option (ℕ → ℕ)) (p : Pool) (s : Stream) where
  pub allocate-recycled :
      (f : Fragment) (fs : List Fragment)
      → p.free_list ≡ f ∷ fs
      → allocate malloc p s ≡ (
        true,
        record p { free_list = fs; free_fragment_count = sub32 p.free_fragment_count 1 },
        link p.mem_stream_buffer_size f.dummy s,
      )
  unfolding allocate
  allocate-recycled f fs e = rw e refl

  pub allocate-over :
      p.free_list ≡ []
      → leb p.fragment_quota p.fragment_count ≡ true
      → allocate malloc p s ≡ (false, p, s)
  unfolding allocate
  allocate-over e over = rw (e, over) refl

  module _ (e : p.free_list ≡ []) (under : leb p.fragment_quota p.fragment_count ≡ false) where
    pub allocate-fails :
        malloc p.requests ≡ none
        → allocate malloc p s ≡ (
          false,
          record p { fragment_count = inc32 p.fragment_count; requests = p.requests + 1 },
          s,
        )
    unfolding allocate
    allocate-fails fails = rw (e, under, fails) refl

    pub allocate-gives :
        (memory : ℕ → ℕ)
        → malloc p.requests ≡ some memory
        → allocate malloc p s ≡ (
          true,
          record p { fragment_count = inc32 p.fragment_count; requests = p.requests + 1 },
          link p.mem_stream_buffer_size memory s,
        )
    unfolding allocate
    allocate-gives memory gives = rw (e, under, gives) refl

  -- to show something of what allocating gives
  pub allocate-elim :
      (P : Bool × Pool × Stream → Type 0)
      → ((q : Pool) (memory : ℕ → ℕ) → P (true, q, link p.mem_stream_buffer_size memory s))
      → ((q : Pool) → P (false, q, s))
      → P (allocate malloc p s)
  allocate-elim P gives' fails' = elim (List-cases p.free_list) [
    | inr (f, fs, e) ↦ subst P (sym (allocate-recycled f fs e)) (
        gives' (record p { free_list = fs; free_fragment_count = sub32 p.free_fragment_count 1 })
          f.dummy)
    | inl e ↦ elim (Bool-cases (leb p.fragment_quota p.fragment_count)) [
      | inl over ↦ subst P (sym (allocate-over e over)) (fails' p)
      | inr under ↦
          let q : Pool = record p {
            fragment_count = inc32 p.fragment_count;
            requests = p.requests + 1;
          } in
          elim (Option-cases (malloc p.requests)) [
            | inl fails ↦ subst P (sym (allocate-fails e under fails)) (fails' q)
            | inr (memory, gives) ↦
                subst P (sym (allocate-gives e under memory gives)) (gives' q memory)
          ]
    ]
  ]

pub link_handy : (size : ℕ) (memory : ℕ → ℕ) (s : Stream) → (link size memory s).x_handy ≡ size
link_handy size memory s = elim (Option-cases s.current) [
  | inl e ↦ rw e refl
  | inr (c, e) ↦ rw e refl
]

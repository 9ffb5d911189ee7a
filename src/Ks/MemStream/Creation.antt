-- ===== src/Ks/MemStream/Creation.antt =====
-- `xdrmemstream_create`.
use acplt_ks.Base.{
  ℕ, ◌+◌, ◌≡◌, refl, ap, Bool, true, false, ◌⊎◌, inl, inr, [], Option, none, some, arith, leb,
  leb→le, if◌then◌else◌, Bool-cases, Option-cases, List-cases,
}
use acplt_ks.Ks.MemStream.{Pool, Stream, allocate, link, sub32, inc32}
use acplt_ks.Ks.MemStream.Session.{create, blank}
use acplt_ks.Ks.MemStream.Allocation.{
  allocate-recycled, allocate-over, allocate-fails, allocate-gives,
}
use acplt_ks.Ks.MemStream.Writing.{IsWriting, writing, written, IsShort, texts, at_write}

module _ (malloc : ℕ → Option (ℕ → ℕ)) (p : Pool) where
  pub create-steps :
      (ok : Bool) (q : Pool) (s : Stream)
      → allocate malloc p blank ≡ (ok, q, s)
      → create malloc true p ≡ (q, if ok then some s else none)
  unfolding create
  create-steps true q s e = ap (λ r. if r.0 then (r.1, some r.2) else (r.1, none)) e
  create-steps false q s e = ap (λ r. if r.0 then (r.1, some r.2) else (r.1, none)) e

  -- what becomes of a creation
  abbrev pub Created : Type 0
  Created =
      ((q : Pool) × (create malloc true p ≡ (q, none)) × IsShort malloc q)
      ⊎ ((q : Pool) × (s : Stream) × (create malloc true p ≡ (q, some s))
          × (q.mem_stream_buffer_size ≡ p.mem_stream_buffer_size)
          × IsWriting p.mem_stream_buffer_size s
          × (written s ≡ []))

  Created-linked :
      (q : Pool) (memory : ℕ → ℕ)
      → q.mem_stream_buffer_size ≡ p.mem_stream_buffer_size
      → allocate malloc p blank ≡ (true, q, link p.mem_stream_buffer_size memory blank)
      → Created
  unfolding written texts
  Created-linked q memory same e = inr (
    q,
    at_write [] p.mem_stream_buffer_size memory 0 p.mem_stream_buffer_size none,
    create-steps true q (link p.mem_stream_buffer_size memory blank) e,
    same,
    writing [] memory 0 p.mem_stream_buffer_size none tt (omega arith),
    refl,
  )

  -- `xdrmemstream_create`, with memory for its `MemoryStreamInfo`: no fragment is left, or the stream
  -- is one to write to, with nothing in it yet.
  pub create-written : Created
  create-written = elim (List-cases p.free_list) [
    | inr (f, fs, e) ↦
        Created-linked
          (record p { free_list = fs; free_fragment_count = sub32 p.free_fragment_count 1 }) f.dummy
          refl (allocate-recycled malloc p blank f fs e)
    | inl e ↦ elim (Bool-cases (leb p.fragment_quota p.fragment_count)) [
      | inl over ↦ inl (
        p,
        create-steps false p blank (allocate-over malloc p blank e over),
        (e, inl (leb→le p.fragment_quota p.fragment_count over)),
      )
      | inr under ↦
          let q : Pool = record p {
            fragment_count = inc32 p.fragment_count;
            requests = p.requests + 1;
          } in
          elim (Option-cases (malloc p.requests)) [
            | inl fails ↦ inl (
              q,
              create-steps false q blank (allocate-fails malloc p blank e under fails),
              (e, inr (p.requests, fails)),
            )
            | inr (memory, gives) ↦
                Created-linked q memory refl (allocate-gives malloc p blank e under memory gives)
          ]
    ]
  ]

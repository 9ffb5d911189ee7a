-- ===== src/Ks/MemStream/Life.antt =====
-- The life of a stream, and its fragments.
use acplt_ks.Base.{
  ℕ, suc, ◌+◌, ◌^◌, ◌<◌, ◌≡◌, refl, ap, sym, ◌∙◌, Bool, true, false, ◌⊎◌, inl, inr, List, [], ◌∷◌,
  Option, none, some, arith, length, length-append, subst, Bool-cases, if◌then◌else◌,
}
use acplt_ks.Ks.MemStream.{Fragment, Pool, Stream, free_fragment, free_chain, inc32}
use acplt_ks.Ks.MemStream.Session.{blank, create, chain, destroy}
use acplt_ks.Ks.MemStream.Allocation.{allocate-elim}
use acplt_ks.Ks.MemStream.Writing.{IsWriting, writing}
use acplt_ks.Ks.MemStream.Creation.{create-written}
use acplt_ks.Ks.MemStream.Accounts.{IsHeld, After, allocate-After, Held, put_bytes-Held}
use acplt_ks.Ks.MemStream.RoundTrip.{put_all, put_all-goes_on, put_all-stops}

module _ (elsewhere : ℕ) where
  free_fragment-IsHeld :
      (p : Pool) (f : Fragment) (here : ℕ)
      → IsHeld elsewhere p (here + 1)
      → IsHeld elsewhere (free_fragment p f) here
  free_fragment-IsHeld p f here held =
      let one_more : inc32 p.free_fragment_count ≡ p.free_fragment_count + 1 =
        omega (arith, held.total, held.counters.bounded) in
      record {
        counters = record {
          counted = omega (arith, one_more, held.counters.counted);
          among = omega (arith, one_more, held.total);
          bounded = held.counters.bounded;
        };
        quota = held.quota;
        total = omega (arith, one_more, held.total);
      }

  free_chain-IsHeld :
      (fs : List Fragment) (p : Pool) (here : ℕ)
      → IsHeld elsewhere p (here + length fs)
      → IsHeld elsewhere (free_chain fs p) here
  unfolding free_chain
  free_chain-IsHeld [] p here held =
      let none_more : here + 0 ≡ here = omega arith in subst (IsHeld elsewhere p) none_more held
  free_chain-IsHeld (f ∷ fs) p here held =
      let one_first : here + suc (length fs) ≡ here + length fs + 1 = omega arith in
      free_chain-IsHeld fs (free_fragment p f) here
        (free_fragment-IsHeld p f (here + length fs) (subst (IsHeld elsewhere p) one_first held))

  -- `MemStreamDestroy` gives all fragments of the chain back: afterwards those that are not free are
  -- the ones elsewhere, and the counters are right.
  pub destroy-IsHeld :
      (p : Pool) (s : Stream)
      → IsHeld elsewhere p (length (chain s))
      → IsHeld elsewhere (destroy p s) 0
  unfolding destroy
  destroy-IsHeld p s held =
      let start : length (chain s) ≡ 0 + length (chain s) = omega arith in
      free_chain-IsHeld (chain s) p 0 (subst (IsHeld elsewhere p) start held)

  length-chain : (size : ℕ) (s : Stream) → IsWriting size s → length (chain s) ≡ length s.before + 1
  unfolding chain
  length-chain size s (writing before m pos handy n full sum) =
      length-append before (record { used = size; dummy = m } ∷ [])

module _ (malloc : ℕ → Option (ℕ → ℕ)) (gives : (n : ℕ) → (m : ℕ → ℕ) × (malloc n ≡ some m))
    (elsewhere : ℕ) where
  put_all-Held :
      (size : ℕ) (p : Pool) (s : Stream) (bss : List (List ℕ))
      → 0 < size
      → size < 2 ^ 32
      → p.mem_stream_buffer_size ≡ size
      → IsWriting size s
      → Held malloc gives elsewhere p s
      → (ok : Bool) × (q : Pool) × (t : Stream) × (put_all malloc p s bss ≡ some (ok, q, t))
        × IsWriting size t
        × Held malloc gives elsewhere q t
  unfolding put_all
  put_all-Held size p s [] positive fits same w held = (true, p, s, refl, w, held)
  put_all-Held size p s (bs ∷ bss) positive fits same w held =
      let (ok, q, t, puts, same', w', held') =
        put_bytes-Held malloc gives elsewhere size p s bs positive fits same w held in
      elim (Bool-cases ok) [
        | inl good ↦
            let (ok', r, u, puts', w'', held'') =
              put_all-Held size q t bss positive fits same' w' held' in
            (
              ok',
              r,
              u,
              put_all-goes_on malloc p s bs bss q t (puts ∙ ap (λ b. some (b, q, t)) good) ∙ puts',
              w'',
              held'',
            )
        | inr bad ↦ (
          false,
          q,
          t,
          put_all-stops malloc p s bs bss q t (puts ∙ ap (λ b. some (b, q, t)) bad),
          w',
          held',
        )
      ]

  -- what a creation holds
  abbrev HeldBy : Pool × Option Stream → Type 0
  HeldBy (q, o) = elim o [ none ↦ IsHeld elsewhere q 0 | some s ↦ Held malloc gives elsewhere q s ]

  create-HeldBy : (p : Pool) → IsHeld elsewhere p 0 → HeldBy (create malloc true p)
  unfolding create
  create-HeldBy p held =
      allocate-elim malloc p blank
        (λ r.
          After malloc gives elsewhere 0 r → HeldBy (if r.0 then (r.1, some r.2) else (r.1, none)))
        (λ q. λ memory. λ h. h) (λ q. λ h. h) (allocate-After malloc gives elsewhere p blank 0 held)

  -- If `malloc` does not fail, then a stream takes as many fragments as it gives back: it is created,
  -- written to in any number of puts, whether they return true or not, and destroyed. Afterwards the
  -- counters are right, and the fragments that are not free are those elsewhere, as they were before;
  -- this is also so when the quota does not let it be created.
  pub life_lem :
      (p : Pool) (bss : List (List ℕ))
      → 0 < p.mem_stream_buffer_size
      → p.mem_stream_buffer_size < 2 ^ 32
      → IsHeld elsewhere p 0
      → ((q : Pool) × (create malloc true p ≡ (q, none)) × IsHeld elsewhere q 0)
        ⊎ ((q : Pool) × (s : Stream) × (create malloc true p ≡ (q, some s))
            × (ok : Bool) × (r : Pool) × (t : Stream) × (put_all malloc q s bss ≡ some (ok, r, t))
            × IsHeld elsewhere (destroy r t) 0)
  life_lem p bss positive fits held = elim (create-written malloc p) [
    | inl (q, creates, short) ↦ inl (q, creates, subst HeldBy creates (create-HeldBy p held))
    | inr (q, s, creates, same, w, fresh) ↦
        let size = p.mem_stream_buffer_size in
        let (ok, r, t, puts, w', held') =
          put_all-Held size q s bss positive fits same w
            (subst HeldBy creates (create-HeldBy p held)) in
        let here = sym (length-chain elsewhere size t w') in
        inr (
          q,
          s,
          creates,
          ok,
          r,
          t,
          puts,
          destroy-IsHeld elsewhere r t (subst (IsHeld elsewhere r) here held'),
        )
  ]

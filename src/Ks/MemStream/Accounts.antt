-- ===== src/Ks/MemStream/Accounts.antt =====
-- The counters of the pool during the life of a stream.
use acplt_ks.Base.{
  ℕ, zero, suc, ◌+◌, ◌-◌, ◌^◌, ◌<◌, ◌≤◌, ◌≡◌, refl, ap, sym, Bool, true, false, inl, inr, List, [],
  ◌∷◌, Option, none, some, arith, length, length-append, take, drop, if◌then◌else◌, leb, ◌==◌,
  Bool-cases, List-cases, subst, length-take,
}
use acplt_ks.Ks.MemStream.{Pool, Stream, allocate, sub32, inc32}
use acplt_ks.Ks.MemStream.Transfer.{ready, store, share, put_loop, put_bytes}
use acplt_ks.Ks.MemStream.Allocation.{
  allocate-recycled, allocate-over, allocate-gives, allocate-elim,
}
use acplt_ks.Ks.MemStream.Writing.{IsWriting, writing, at_write, ready-Allocated, store_lem}
use acplt_ks.Ks.MemStream.Putting.{put_loop-stops, put_loop-goes_on, put_bytes-written}
use acplt_ks.Ks.MemStream.Garbage.{IsCounted}

-- The counters are right, and the fragments that are not free are those `here` and those `elsewhere`.
pub record IsHeld (elsewhere : ℕ) (p : Pool) (here : ℕ) : Type 0 where
  pub counters : IsCounted p
  pub quota : p.fragment_quota < 2 ^ 32
  pub total : p.fragment_count ≡ p.free_fragment_count + here + elsewhere

module _ (malloc : ℕ → Option (ℕ → ℕ)) (gives : (n : ℕ) → (m : ℕ → ℕ) × (malloc n ≡ some m))
    (elsewhere : ℕ) where
  abbrev pub After : ℕ → Bool × Pool × Stream → Type 0
  After here (ok, q, t) = IsHeld elsewhere q (if ok then here + 1 else here)

  pub allocate-After :
      (p : Pool) (s : Stream) (here : ℕ)
      → IsHeld elsewhere p here
      → After here (allocate malloc p s)
  allocate-After p s here held = elim (List-cases p.free_list) [
    | inr (f, fs, e) ↦
        let some_free = ap length e in
        let one_less : sub32 p.free_fragment_count 1 ≡ p.free_fragment_count - 1 =
          omega
            (arith, held.counters.counted, held.counters.among, held.counters.bounded, some_free) in
        subst (After here) (sym (allocate-recycled malloc p s f fs e)) (record {
          counters = record {
            counted = omega (arith, one_less, held.counters.counted, some_free);
            among = omega (arith, one_less, held.counters.among);
            bounded = held.counters.bounded;
          };
          quota = held.quota;
          total = omega (arith, one_less, held.total, held.counters.counted, some_free);
        })
    | inl e ↦ elim (Bool-cases (leb p.fragment_quota p.fragment_count)) [
      | inl over ↦ subst (After here) (sym (allocate-over malloc p s e over)) held
      | inr under ↦
          let below : p.fragment_count < p.fragment_quota = ground (arith, under) in
          let one_more : inc32 p.fragment_count ≡ p.fragment_count + 1 =
            omega (arith, below, held.quota) in
          let (memory, given) = gives p.requests in
          subst (After here) (sym (allocate-gives malloc p s e under memory given)) (record {
            counters = record {
              counted = held.counters.counted;
              among = omega (arith, one_more, held.counters.among);
              bounded = omega (arith, one_more, below, held.quota);
            };
            quota = held.quota;
            total = omega (arith, one_more, held.total);
          })
    ]
  ]

  abbrev Chained : Stream → Bool × Pool × Stream → Type 0
  Chained s (ok, q, t) = length t.before ≡ (if ok then length s.before + 1 else length s.before)

  -- the fragments of a stream that is written to
  abbrev pub Held : Pool → Stream → Type 0
  Held p s = IsHeld elsewhere p (length s.before + 1)

  Held-Chained :
      (s : Stream) (r : Bool × Pool × Stream)
      → Chained s r
      → After (length s.before + 1) r
      → Held r.1 r.2
  Held-Chained s (true, q, t) e h = subst (λ n. IsHeld elsewhere q (n + 1)) (sym e) h
  Held-Chained s (false, q, t) e h = subst (λ n. IsHeld elsewhere q (n + 1)) (sym e) h

  allocate-Chained :
      (size : ℕ) (p : Pool) (s : Stream) → IsWriting size s → Chained s (allocate malloc p s)
  allocate-Chained size p s (writing before m pos handy n full sum) =
      allocate-elim malloc p (at_write before size m pos handy n)
        (Chained (at_write before size m pos handy n))
        (λ q. λ memory. length-append before (record { used = size; dummy = m } ∷ [])) (λ q. refl)

  ready-Held :
      (size : ℕ) (p : Pool) (s : Stream)
      → IsWriting size s
      → Held p s
      → Held (ready malloc p s).1 (ready malloc p s).2
  unfolding ready
  ready-Held size p s w held = elim (Bool-cases (s.x_handy == 0)) [
    | inl none_left ↦
        subst
          (λ b.
            Held (if b then allocate malloc p s else (true, p, s)).1
              (if b then allocate malloc p s else (true, p, s)).2)
          (sym none_left)
          (Held-Chained s (allocate malloc p s) (allocate-Chained size p s w)
            (allocate-After p s (length s.before + 1) held))
    | inr some_left ↦
        subst
          (λ b.
            Held (if b then allocate malloc p s else (true, p, s)).1
              (if b then allocate malloc p s else (true, p, s)).2)
          (sym some_left) held
  ]

  Keeps : Option (Bool × Pool × Stream) → Type 0
  Keeps none = Unit
  Keeps (some (ok, q, t)) = Held q t

  put_loop-Keeps :
      (size : ℕ)
      → 0 < size
      → size < 2 ^ 32
      → (rounds : ℕ) (p : Pool) (s : Stream) (bs : List ℕ) → p.mem_stream_buffer_size ≡ size
      → IsWriting size s
      → Held p s
      → Keeps (put_loop malloc rounds p s bs)
  unfolding put_loop Keeps
  put_loop-Keeps size positive fits rounds p s [] same w held = held
  put_loop-Keeps size positive fits zero p s (b ∷ bs) same w held = tt
  put_loop-Keeps size positive fits (suc rounds) p s (b ∷ bs) same w held =
      let (same', w', as_before, more) = ready-Allocated size positive fits malloc p s same w in
      let (ok, q, t) = ready malloc p s in
      let held' : Held q t = ready-Held size p s w held in
      let count = share t.x_handy (suc (length bs)) in
      let chunk = take count (b ∷ bs) in
      elim more [
        | inr (ends, short) ↦ subst Keeps (sym (put_loop-stops malloc rounds p s b bs ends)) held'
        | inl (goes_on, room) ↦
            let fewer : count ≤ t.x_handy = ground arith in
            let le : length chunk ≤ t.x_handy = omega (arith, length-take count (b ∷ bs), fewer) in
            let (u, stored, w'', wrote, chained) = store_lem size positive fits t chunk w' le in
            subst Keeps
              (sym (
                put_loop-goes_on malloc rounds p s b bs u goes_on
                  (subst (λ n. store n t chunk ≡ some u) (sym same) stored)))
              (put_loop-Keeps size positive fits rounds q u (drop count (b ∷ bs)) same' w''
                (subst (λ l. IsHeld elsewhere q (length l + 1)) (sym chained) held'))
      ]

  -- what is known of a put
  pub put_bytes-Held :
      (size : ℕ) (p : Pool) (s : Stream) (bs : List ℕ)
      → 0 < size
      → size < 2 ^ 32
      → p.mem_stream_buffer_size ≡ size
      → IsWriting size s
      → Held p s
      → (ok : Bool) × (q : Pool) × (t : Stream) × (put_bytes malloc p s bs ≡ some (ok, q, t))
        × (q.mem_stream_buffer_size ≡ size)
        × IsWriting size t
        × Held q t
  unfolding put_bytes Keeps
  put_bytes-Held size p s bs positive fits same w held =
      let (ok, q, t, rest, puts, same', w', wrote, status) =
        put_bytes-written size positive fits malloc p s bs same w in
      (
        ok,
        q,
        t,
        puts,
        same',
        w',
        subst Keeps puts (put_loop-Keeps size positive fits (length bs) p s bs same w held),
      )

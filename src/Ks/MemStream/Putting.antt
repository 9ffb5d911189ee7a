-- ===== src/Ks/MemStream/Putting.antt =====
-- `MemStreamPutBytes` on a stream that is written to.
use mathlib.Core.List.{append_assoc}
use acplt_ks.Base.{
  ℕ, zero, suc, ◌^◌, ◌<◌, ◌≤◌, ◌≡◌, refl, ap, sym, ◌∙◌, Bool, true, false, ◌⊎◌, inl, inr, List, [],
  ◌∷◌, ◌++◌, Option, some, arith, length, subst, take, drop, length-take, length-drop,
  take-append-drop,
}
use acplt_ks.Ks.MemStream.{Pool, Stream}
use acplt_ks.Ks.MemStream.Transfer.{store, ready, share, put_loop, put_bytes}
use acplt_ks.Ks.MemStream.Writing.{IsWriting, written, IsShort, ready-Allocated, store_lem}

module _ (malloc : ℕ → Option (ℕ → ℕ)) (rounds : ℕ) (p : Pool) (s : Stream) (b : ℕ)
    (bs : List ℕ) where
  abbrev at_hand : Bool × Pool × Stream
  at_hand = ready malloc p s

  pub put_loop-stops :
      at_hand.0 ≡ false
      → put_loop malloc (suc rounds) p s (b ∷ bs) ≡ some (false, at_hand.1, at_hand.2)
  unfolding put_loop
  put_loop-stops e = rw (put_loop, e) refl

  pub put_loop-goes_on :
      (u : Stream)
      → at_hand.0 ≡ true
      → store p.mem_stream_buffer_size at_hand.2
          (take (share at_hand.2.x_handy (suc (length bs))) (b ∷ bs))
        ≡ some u
      → put_loop malloc (suc rounds) p s (b ∷ bs)
        ≡ put_loop malloc rounds at_hand.1 u
            (drop (share at_hand.2.x_handy (suc (length bs))) (b ∷ bs))
  unfolding put_loop
  put_loop-goes_on u e e' = rw (put_loop, e, e') refl

-- a chunk and what follows it
resumes :
    (all rest with_chunk left start before chunk bytes : List ℕ)
    → all ++ rest ≡ with_chunk ++ left
    → with_chunk ≡ start ++ chunk
    → start ≡ before
    → chunk ++ left ≡ bytes
    → all ++ rest ≡ before ++ bytes
resumes all rest with_chunk left start before chunk bytes total wrote same parts =
    total
    ∙ ap (λ l. l ++ left) (wrote ∙ ap (λ l. l ++ chunk) same)
    ∙ append_assoc before chunk left
    ∙ ap (λ l. before ++ l) parts

module _ (size : ℕ) (positive : 0 < size) (fits : size < 2 ^ 32) (malloc : ℕ → Option (ℕ → ℕ)) where
  -- what becomes of a put: the bytes that are not written are `rest`
  abbrev pub Put : Stream → List ℕ → Option (Bool × Pool × Stream) → Type 0
  Put s bs r =
      (ok : Bool) × (q : Pool) × (t : Stream) × (rest : List ℕ) × (r ≡ some (ok, q, t))
      × (q.mem_stream_buffer_size ≡ size)
      × IsWriting size t
      × (written t ++ rest ≡ written s ++ bs)
      × (((ok ≡ true) × (rest ≡ [])) ⊎ ((ok ≡ false) × IsShort malloc q))

  put_loop-Put :
      (rounds : ℕ) (p : Pool) (s : Stream) (bs : List ℕ)
      → p.mem_stream_buffer_size ≡ size
      → IsWriting size s
      → length bs ≤ rounds
      → Put s bs (put_loop malloc rounds p s bs)
  unfolding put_loop
  put_loop-Put rounds p s [] same w enough = (true, p, s, [], refl, same, w, refl, inl (refl, refl))
  put_loop-Put zero p s (b ∷ bs) same w enough = elim enough [ ]
  put_loop-Put (suc rounds) p s (b ∷ bs) same w enough =
      let (same', w', as_before, more) = ready-Allocated size positive fits malloc p s same w in
      let (ok, q, t) = ready malloc p s in
      let count = share t.x_handy (suc (length bs)) in
      let chunk = take count (b ∷ bs) in
      let left = drop count (b ∷ bs) in
      elim more [
        | inr (ends, short) ↦ (
          false,
          q,
          t,
          b ∷ bs,
          put_loop-stops malloc rounds p s b bs ends,
          same',
          w',
          ap (λ l. l ++ b ∷ bs) as_before,
          inr (refl, short),
        )
        | inl (goes_on, room) ↦
            let fewer : count ≤ t.x_handy = ground arith in
            let some_of : 0 < count = ground (arith, room) in
            let le : length chunk ≤ t.x_handy = omega (arith, length-take count (b ∷ bs), fewer) in
            let (u, stored, w'', wrote, chained) = store_lem size positive fits t chunk w' le in
            let (ok'', q'', v, rest, runs, same'', w''', total, status) =
              put_loop-Put rounds q u left same' w''
                (omega (arith, length-drop count (b ∷ bs), some_of, enough)) in
            (
              ok'',
              q'',
              v,
              rest,
              put_loop-goes_on malloc rounds p s b bs u goes_on
                    (subst (λ n. store n t chunk ≡ some u) (sym same) stored)
                  ∙ runs,
              same'',
              w''',
              resumes (written v) rest (written u) left (written t) (written s) chunk (b ∷ bs) total
                  wrote as_before (take-append-drop count (b ∷ bs)),
              status,
            )
      ]

  -- `MemStreamPutBytes` of a stream that is written to returns. The bytes that it has written are
  -- behind those that were there, and what is left of them is `rest`: nothing if it returns true; if
  -- not, then no fragment is left, neither in the free list nor from the quota or `malloc`.
  pub put_bytes-written :
      (p : Pool) (s : Stream) (bs : List ℕ)
      → p.mem_stream_buffer_size ≡ size
      → IsWriting size s
      → (ok : Bool) × (q : Pool) × (t : Stream) × (rest : List ℕ) × (put_bytes malloc p s bs
          ≡ some (ok, q, t))
        × (q.mem_stream_buffer_size ≡ size)
        × IsWriting size t
        × (written t ++ rest ≡ written s ++ bs)
        × (((ok ≡ true) × (rest ≡ [])) ⊎ ((ok ≡ false) × IsShort malloc q))
  unfolding put_bytes
  put_bytes-written p s bs same w = put_loop-Put (length bs) p s bs same w (omega arith)

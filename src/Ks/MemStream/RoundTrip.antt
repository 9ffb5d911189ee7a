-- ===== src/Ks/MemStream/RoundTrip.antt =====
-- What is written to a stream is read from it.
use mathlib.Core.List.{append_assoc, append-nil}
use acplt_ks.Base.{
  ℕ, ◌^◌, ◌<◌, ◌≡◌, refl, ap, ap₂, sym, ◌∙◌, Bool, true, false, ◌⊎◌, inl, inr, List, [], ◌∷◌, ◌++◌,
  map, Option, none, some, arith, length, length-append, subst,
}
use acplt_ks.Ks.MemStream.{Pool, Stream, decode}
use acplt_ks.Ks.MemStream.Session.{create, rewind}
use acplt_ks.Ks.MemStream.Transfer.{put_bytes, get_bytes}
use acplt_ks.Ks.MemStream.Writing.{IsWriting, written, IsShort}
use acplt_ks.Ks.MemStream.Creation.{create-written}
use acplt_ks.Ks.MemStream.Putting.{put_bytes-written}
use acplt_ks.Ks.MemStream.Reading.{IsReading, unread, get_bytes-unread}
use acplt_ks.Ks.MemStream.Rewinding.{rewind-unread}

concat : List (List ℕ) → List ℕ
concat [] = []
concat (bs ∷ bss) = bs ++ concat bss

-- one `MemStreamPutBytes` after the other, up to one that fails
unfoldable pub put_all :
    (ℕ → Option (ℕ → ℕ)) → Pool → Stream → List (List ℕ) → Option (Bool × Pool × Stream)
put_all malloc p s [] = some (true, p, s)
put_all malloc p s (bs ∷ bss) = elim (put_bytes malloc p s bs) [
  | none ↦ none
  | some (false, q, t) ↦ some (false, q, t)
  | some (true, q, t) ↦ put_all malloc q t bss
]

-- one `MemStreamGetBytes` after the other, up to one that fails
pub get_all : Pool → Stream → List ℕ → Option (Bool × List (List ℕ) × Stream)
get_all p s [] = some (true, [], s)
get_all p s (n ∷ ns) = elim (get_bytes p s n) [
  | none ↦ none
  | some (false, bytes, t) ↦ some (false, bytes ∷ [], t)
  | some (true, bytes, t) ↦ elim (get_all p t ns) [
    | none ↦ none
    | some (ok, more, u) ↦ some (ok, bytes ∷ more, u)
  ]
]

-- equal beginnings of the same length
append_cancel :
    (xs ys xs' ys' : List ℕ)
    → length xs ≡ length ys
    → xs ++ xs' ≡ ys ++ ys'
    → (xs ≡ ys) × (xs' ≡ ys')
append_cancel [] [] xs' ys' same e = (refl, e)
append_cancel [] (y ∷ ys) xs' ys' same e = absurd (omega (arith, same))
append_cancel (x ∷ xs) [] xs' ys' same e = absurd (omega (arith, same))
append_cancel (x ∷ xs) (y ∷ ys) xs' ys' same e =
    let head_tail : (x ≡ y) × (xs ++ xs' ≡ ys ++ ys') = (cc, cc) in
    let r = append_cancel xs ys xs' ys' (omega (arith, same)) head_tail.1 in
    (ap₂ (λ a l. a ∷ l) head_tail.0 r.0, r.1)

module _ (malloc : ℕ → Option (ℕ → ℕ)) (p : Pool) (s : Stream) (bs : List ℕ) (bss : List (List ℕ))
    (q : Pool) (t : Stream) where
  pub put_all-stops :
      put_bytes malloc p s bs ≡ some (false, q, t)
      → put_all malloc p s (bs ∷ bss) ≡ some (false, q, t)
  unfolding put_all
  put_all-stops e = rw (put_all, e) refl

  pub put_all-goes_on :
      put_bytes malloc p s bs ≡ some (true, q, t)
      → put_all malloc p s (bs ∷ bss) ≡ put_all malloc q t bss
  unfolding put_all
  put_all-goes_on e = rw (put_all, e) refl

module _ (size : ℕ) (positive : 0 < size) (fits : size < 2 ^ 32) (malloc : ℕ → Option (ℕ → ℕ)) where
  put_all-written :
      (p : Pool) (s : Stream) (bss : List (List ℕ))
      → p.mem_stream_buffer_size ≡ size
      → IsWriting size s
      → (ok : Bool) × (q : Pool) × (t : Stream) × (rest : List ℕ) × (put_all malloc p s bss
          ≡ some (ok, q, t))
        × (q.mem_stream_buffer_size ≡ size)
        × IsWriting size t
        × (written t ++ rest ≡ written s ++ concat bss)
        × (((ok ≡ true) × (rest ≡ [])) ⊎ ((ok ≡ false) × IsShort malloc q))
  unfolding put_all concat
  put_all-written p s [] same w = (true, p, s, [], refl, same, w, refl, inl (refl, refl))
  put_all-written p s (bs ∷ bss) same w =
      let (ok, q, t, rest, puts, same', w', wrote, status) =
        put_bytes-written size positive fits malloc p s bs same w in
      elim status [
        | inl (good, all) ↦
            let (ok', q', t', rest', puts', same'', w'', wrote', status') =
              put_all-written q t bss same' w' in
            let here : written t ≡ written s ++ bs =
              sym (append-nil (written t)) ∙ ap (λ l. written t ++ l) (sym all) ∙ wrote in
            (
              ok',
              q',
              t',
              rest',
              put_all-goes_on malloc p s bs bss q t (puts ∙ ap (λ b. some (b, q, t)) good) ∙ puts',
              same'',
              w'',
              wrote' ∙ ap (λ l. l ++ concat bss) here ∙ append_assoc (written s) bs (concat bss),
              status',
            )
        | inr (bad, short) ↦ (
          false,
          q,
          t,
          rest ++ concat bss,
          put_all-stops malloc p s bs bss q t (puts ∙ ap (λ b. some (b, q, t)) bad),
          same',
          w',
          sym (append_assoc (written t) rest (concat bss))
              ∙ ap (λ l. l ++ concat bss) wrote
              ∙ append_assoc (written s) bs (concat bss),
          inr (refl, short),
        )
      ]

get_all-goes_on :
    (p : Pool) (s t u : Stream) (n : ℕ) (ns bytes : List ℕ) (more : List (List ℕ))
    → get_bytes p s n ≡ some (true, bytes, t)
    → get_all p t ns ≡ some (true, more, u)
    → get_all p s (n ∷ ns) ≡ some (true, bytes ∷ more, u)
unfolding get_all
get_all-goes_on p s t u n ns bytes more e e' = rw (get_all, e, e') refl

get_all-unread :
    (p : Pool) (s : Stream) (bss : List (List ℕ)) (left : List ℕ)
    → p.mem_stream_buffer_size < 2 ^ 32
    → IsReading p.mem_stream_buffer_size s
    → unread s ≡ concat bss ++ left
    → (t : Stream) × (get_all p s (map length bss) ≡ some (true, bss, t)) × (unread t ≡ left)
unfolding get_all concat
get_all-unread p s [] left fits r same = (s, refl, same)
get_all-unread p s (bs ∷ bss) left fits r same =
    let (ok, bytes, t, gets, parts, status) = get_bytes-unread p s (length bs) fits r in
    let whole : bytes ++ unread t ≡ bs ++ (concat bss ++ left) =
      parts ∙ same ∙ append_assoc bs (concat bss) left in
    elim status [
      | inl (good, r', long) ↦
          let (first, others) = append_cancel bytes bs (unread t) (concat bss ++ left) long whole in
          let (u, gets', rest) = get_all-unread p t bss left fits r' others in
          (
            u,
            get_all-goes_on p s t u (length bs) (map length bss) bytes bss
                  (gets ∙ ap (λ b. some (b, bytes, t)) good) gets'
                ∙ ap (λ l. some (true, l ∷ bss, u)) first,
            rest,
          )
      | inr (bad, nothing, few) ↦ absurd (
          omega (
            arith,
            few,
            ap length whole,
            length-append bytes (unread t),
            ap length nothing,
            length-append bs (concat bss ++ left),
          ))
    ]

module _ (size : ℕ) (positive : 0 < size) (fits : size < 2 ^ 32) (malloc : ℕ → Option (ℕ → ℕ)) where
  -- what becomes of puts, a rewind and gets of the same lengths
  abbrev Returned : Pool → Stream → List (List ℕ) → Type 0
  Returned p s bss =
      (ok : Bool) × (q : Pool) × (t : Stream) × (put_all malloc p s bss ≡ some (ok, q, t))
      × (((ok ≡ false) × IsShort malloc q)
          ⊎ ((ok ≡ true)
              × (u : Stream) × (v : Stream) × (rewind q t decode ≡ some (q, u))
              × (get_all q u (map length bss) ≡ some (true, bss, v))
              × (unread v ≡ [])))

  get_all-put_all :
      (p : Pool) (s : Stream) (bss : List (List ℕ))
      → p.mem_stream_buffer_size ≡ size
      → IsWriting size s
      → written s ≡ []
      → Returned p s bss
  get_all-put_all p s bss same w fresh =
      let (ok, q, t, rest, puts, same', w', wrote, status) =
        put_all-written size positive fits malloc p s bss same w in
      elim status [
        | inr (bad, short) ↦ (ok, q, t, puts, inl (bad, short))
        | inl (good, all) ↦
            let positive' : 0 < q.mem_stream_buffer_size = omega (arith, same', positive) in
            let fits' : q.mem_stream_buffer_size < 2 ^ 32 = omega (arith, same', fits) in
            let (u, rewinds, r, same_bytes, len) =
              rewind-unread q positive' fits' t (subst (λ n. IsWriting n t) (sym same') w') in
            let content : unread u ≡ concat bss ++ [] =
              same_bytes
              ∙ sym (append-nil (written t))
              ∙ ap (λ l. written t ++ l) (sym all)
              ∙ wrote
              ∙ ap (λ l. l ++ concat bss) fresh
              ∙ sym (append-nil (concat bss)) in
            let (v, gets, left) = get_all-unread q u bss [] fits' r content in
            (ok, q, t, puts, inr (good, u, v, rewinds, gets, left))
      ]

-- A stream is created, written to in any number of puts, rewound to XDR_DECODE, and read in as many
-- gets of the same lengths: all of this returns. The creation fails or a put returns false only when
-- no fragment is left, neither in the free list nor from the quota or `malloc`; if not, then the gets
-- return true with the bytes of the puts, and nothing is left to read.
pub round_trip :
    (malloc : ℕ → Option (ℕ → ℕ)) (p : Pool) (bss : List (List ℕ))
    → 0 < p.mem_stream_buffer_size
    → p.mem_stream_buffer_size < 2 ^ 32
    → ((q : Pool) × (create malloc true p ≡ (q, none)) × IsShort malloc q)
      ⊎ ((q : Pool) × (s : Stream) × (create malloc true p ≡ (q, some s))
          × (ok : Bool) × (q' : Pool) × (t : Stream) × (put_all malloc q s bss ≡ some (ok, q', t))
          × (((ok ≡ false) × IsShort malloc q')
              ⊎ ((ok ≡ true)
                  × (u : Stream) × (v : Stream) × (rewind q' t decode ≡ some (q', u))
                  × (get_all q' u (map length bss) ≡ some (true, bss, v))
                  × (unread v ≡ []))))
round_trip malloc p bss positive fits = elim (create-written malloc p) [
  | inl short ↦ inl short
  | inr (q, s, creates, same, w, fresh) ↦
      let (ok, q', t, puts, ends) =
        get_all-put_all p.mem_stream_buffer_size positive fits malloc q s bss same w fresh in
      inr (q, s, creates, ok, q', t, puts, ends)
]

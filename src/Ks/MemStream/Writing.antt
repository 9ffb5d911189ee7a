-- ===== src/Ks/MemStream/Writing.antt =====
-- A stream that is written to.
use mathlib.Core.List.{append_assoc, append-nil}
use acplt_ks.Base.{
  ℕ, ◌+◌, ◌-◌, ◌%◌, ◌^◌, ◌<◌, ◌≤◌, ◌≡◌, refl, ap, sym, ◌∙◌, Bool, true, false, ◌⊎◌, inl, inr, List,
  [], ◌∷◌, ◌++◌, Option, none, some, arith, length, length-append, All, if◌then◌else◌, ltb, leb,
  leb→le, ==_iff, List-cases, subst, ◌==◌, Bool-cases, Option-cases,
}
use acplt_ks.Ks.MemStream.{Fragment, Pool, Stream, encode, allocate, link, inc32, sub32}
use acplt_ks.Ks.MemStream.Transfer.{copy_in, copy_out, store, ready}
use acplt_ks.Ks.MemStream.Allocation.{
  allocate-recycled, allocate-over, allocate-fails, allocate-gives,
}
use acplt_ks.Ks.MemStream.Memory.{copy_in-extends}

-- the bytes of the fragments of a chain, as their `used` says
unfoldable pub texts : List Fragment → List ℕ
texts [] = []
texts (f ∷ fs) = copy_out f.dummy 0 f.used ++ texts fs

pub texts-append : (xs ys : List Fragment) → texts (xs ++ ys) ≡ texts xs ++ texts ys
unfolding texts
texts-append [] ys = refl
texts-append (f ∷ fs) ys =
    ap (λ l. copy_out f.dummy 0 f.used ++ l) (texts-append fs ys)
    ∙ sym (append_assoc (copy_out f.dummy 0 f.used) (texts fs) (texts ys))

All-append :
    {size : ℕ} (xs : List Fragment) (f : Fragment)
    → All (λ f. f.used ≡ size) xs
    → f.used ≡ size
    → All (λ f. f.used ≡ size) (xs ++ f ∷ [])
All-append [] f h e = (e, tt)
All-append (x ∷ xs) f h e = (h.0, All-append xs f h.1 e)

-- a stream in the middle of writing
abbrev pub at_write : List Fragment → ℕ → (ℕ → ℕ) → ℕ → ℕ → Option ℕ → Stream
at_write before size memory pos handy n = record {
  before = before;
  current = some (record { used = size; dummy = memory });
  after = [];
  apart = [];
  x_op = encode;
  x_private = pos;
  x_handy = handy;
  fragments = (length before + 1) % 2 ^ 32;
  length = n;
}

-- All fragments in front of the last one are full, and the last one is full up to `x_private`. It
-- has something in it, unless it is the only one or has just been linked.
pub data IsWriting (size : ℕ) : Stream → Type 0 where
  writing :
      (before : List Fragment) (memory : ℕ → ℕ) (pos handy : ℕ) (n : Option ℕ)
      → All (λ f. f.used ≡ size) before
      → pos + handy ≡ size
      → IsWriting size (at_write before size memory pos handy n)

-- what has been written so far
unfoldable pub written : Stream → List ℕ
unfolding texts
written s = texts s.before ++ elim s.current [ none ↦ [] | some c ↦ copy_out c.dummy 0 s.x_private ]

-- there is no fragment left: the free list is empty, and the quota is used up or `malloc` failed
abbrev pub IsShort : (ℕ → Option (ℕ → ℕ)) → Pool → Type 0
IsShort malloc p =
    (p.free_list ≡ []) × ((p.fragment_quota ≤ p.fragment_count) ⊎ ((k : ℕ) × (malloc k ≡ none)))

module _ (size : ℕ) (positive : 0 < size) (fits : size < 2 ^ 32) where
  -- a write into the current fragment
  pub store_lem :
      (s : Stream) (bs : List ℕ)
      → IsWriting size s
      → length bs ≤ s.x_handy
      → (t : Stream) × (store size s bs ≡ some t)
        × IsWriting size t
        × (written t ≡ written s ++ bs)
        × (t.before ≡ s.before)
  unfolding store written
  store_lem s bs (writing before memory pos handy n full sum) le =
      let inside : ltb size (pos + length bs) ≡ false = ground arith in
      let left : sub32 handy (length bs) ≡ handy - length bs = omega arith in
      let t =
        at_write before size (copy_in memory pos bs) (pos + length bs) (handy - length bs) n in
      (
        t,
        rw (inside, left) refl,
        writing before (copy_in memory pos bs) (pos + length bs) (handy - length bs) n full
            (omega arith),
        ap (λ l. texts before ++ l) (copy_in-extends memory pos bs)
            ∙ sym (append_assoc (texts before) (copy_out memory 0 pos) bs),
        refl,
      )

  link_lem :
      (s : Stream) (memory : ℕ → ℕ)
      → IsWriting size s
      → s.x_handy ≡ 0
      → IsWriting size (link size memory s)
        × (written (link size memory s) ≡ written s)
        × ((link size memory s).x_handy ≡ size)
  unfolding written texts
  link_lem s memory (writing before m pos handy n full sum) empty =
      let one_more : length (before ++ record { used = size; dummy = m } ∷ []) ≡ length before + 1 =
        length-append before (record { used = size; dummy = m } ∷ []) in
      let counted : inc32 ((length before + 1) % 2 ^ 32) ≡ (length before + 1 + 1) % 2 ^ 32 =
        omega arith in
      let all : pos ≡ size = omega arith in
      (
        rw (counted, sym one_more)
            (writing (before ++ record { used = size; dummy = m } ∷ []) memory 0 size n
              (All-append before (record { used = size; dummy = m }) full refl) (omega arith)),
        append-nil (texts (before ++ record { used = size; dummy = m } ∷ []))
            ∙ texts-append before (record { used = size; dummy = m } ∷ [])
            ∙ ap (λ l. texts before ++ l)
                (append-nil (copy_out m 0 size) ∙ ap (copy_out m 0) (sym all)),
        refl,
      )

  -- what allocating gives, from a full fragment
  abbrev pub Allocated : (ℕ → Option (ℕ → ℕ)) → Stream → Bool × Pool × Stream → Type 0
  Allocated malloc s (ok, q, t) =
      (q.mem_stream_buffer_size ≡ size)
      × IsWriting size t
      × (written t ≡ written s)
      × (((ok ≡ true) × (0 < t.x_handy)) ⊎ ((ok ≡ false) × IsShort malloc q))

  link-Allocated :
      (malloc : ℕ → Option (ℕ → ℕ)) (q : Pool) (s : Stream) (memory : ℕ → ℕ)
      → q.mem_stream_buffer_size ≡ size
      → IsWriting size s
      → s.x_handy ≡ 0
      → Allocated malloc s (true, q, link q.mem_stream_buffer_size memory s)
  link-Allocated malloc q s memory same w empty =
      let l = link_lem s memory w empty in
      subst (λ n. Allocated malloc s (true, q, link n memory s)) (sym same)
        (same, l.0, l.1, inl (refl, omega (arith, l.2)))

  allocate-Allocated :
      (malloc : ℕ → Option (ℕ → ℕ)) (p : Pool) (s : Stream)
      → p.mem_stream_buffer_size ≡ size
      → IsWriting size s
      → s.x_handy ≡ 0
      → Allocated malloc s (allocate malloc p s)
  allocate-Allocated malloc p s same w empty =
      let Good : Bool × Pool × Stream → Type 0 = Allocated malloc s in
      let q : Pool = record p {
        fragment_count = inc32 p.fragment_count;
        requests = p.requests + 1;
      } in
      elim (List-cases p.free_list) [
        | inr (f, fs, e) ↦ subst Good (sym (allocate-recycled malloc p s f fs e)) (
            link-Allocated malloc
              (record p { free_list = fs; free_fragment_count = sub32 p.free_fragment_count 1 }) s
              f.dummy same w empty)
        | inl e ↦ elim (Bool-cases (leb p.fragment_quota p.fragment_count)) [
          | inl over ↦
              subst Good (sym (allocate-over malloc p s e over)) (
                same,
                w,
                refl,
                inr (refl, (e, inl (leb→le p.fragment_quota p.fragment_count over))),
              )
          | inr under ↦ elim (Option-cases (malloc p.requests)) [
            | inl fails ↦
                subst Good (sym (allocate-fails malloc p s e under fails))
                  (same, w, refl, inr (refl, (e, inr (p.requests, fails))))
            | inr (memory, gives) ↦
                subst Good (sym (allocate-gives malloc p s e under memory gives))
                  (link-Allocated malloc q s memory same w empty)
          ]
        ]
      ]

  pub ready-Allocated :
      (malloc : ℕ → Option (ℕ → ℕ)) (p : Pool) (s : Stream)
      → p.mem_stream_buffer_size ≡ size
      → IsWriting size s
      → Allocated malloc s (ready malloc p s)
  unfolding ready
  ready-Allocated malloc p s same w = elim (Bool-cases (s.x_handy == 0)) [
    | inl none_left ↦
        subst (λ b. Allocated malloc s (if b then allocate malloc p s else (true, p, s)))
          (sym none_left) (allocate-Allocated malloc p s same w ((==_iff s.x_handy 0).0 none_left))
    | inr some_left ↦
        subst (λ b. Allocated malloc s (if b then allocate malloc p s else (true, p, s)))
          (sym some_left) (same, w, refl, inl (refl, ground (arith, some_left)))
  ]

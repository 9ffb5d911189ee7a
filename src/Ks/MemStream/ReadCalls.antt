-- ===== src/Ks/MemStream/ReadCalls.antt =====
-- The calls of `read` in `xdrmemstream_read_from_fd`, and its loop round by round.
use acplt_ks.Base.{
  ℕ, suc, ◌+◌, ◌-◌, ◌^◌, ◌<◌, ◌≤◌, ◌≡◌, refl, ap, sym, ◌∙◌, Bool, true, false, ◌⊎◌, inl, inr, List,
  [], ◌∷◌, ◌++◌, Option, none, some, arith, length, subst, if◌then◌else◌, ◌==◌, ==_iff, Bool-cases,
  ltb, some_cancel,
}
use acplt_ks.Ks.MemStream.{Pool, Stream, is_encode, allocate, sub32}
use acplt_ks.Ks.MemStream.Transfer.{store, ready, share, copy_in}
use acplt_ks.Ks.MemStream.Allocation.{allocate-elim, link_handy}
use acplt_ks.Ks.MemStream.Writing.{IsShort, at_write, IsWriting, writing}
use acplt_ks.Ks.MemStream.Socket.{
  Errno, enomem, eio, is_patient, Received, received, not_received, FdOutcome, fd_outcome,
  read_loop,
}

-- how many bytes `read` is asked for, at so much room in the fragment
abbrev pub room_of : ℕ → ℕ → ℕ
room_of size handy = if handy == 0 then size else handy

abbrev pub asked_for : ℕ → ℕ → ℕ → ℕ
asked_for size handy max = share (room_of size handy) max

-- The calls of `read` from the call `n` on, the bytes that they answer with, and what is returned in
-- the end, at first with so much room in the fragment and so many bytes to read. Reading goes on after
-- each answer of all that was asked for, and ends with all bytes, with a shorter answer, an error or
-- the end of the file, or where there is no fragment left.
pub data Reads (malloc : ℕ → Option (ℕ → ℕ)) (read : ℕ → ℕ → Received) (size : ℕ) (q : Pool)
    : ℕ → ℕ → ℕ → List ℕ → FdOutcome → Type 0 where
  done : (n handy : ℕ) → Reads malloc read size q n handy 0 [] (fd_outcome true none 0)
  no_fragment :
      (n max : ℕ)
      → IsShort malloc q
      → Reads malloc read size q n 0 (suc max) [] (fd_outcome false (some enomem) (suc max))
  fails :
      (n handy max : ℕ) (e : Errno)
      → read n (asked_for size handy (suc max)) ≡ not_received e
      → Reads malloc read size q n handy (suc max) [] (fd_outcome (is_patient e) (some e) (suc max))
  closed :
      (n handy max : ℕ)
      → read n (asked_for size handy (suc max)) ≡ received []
      → Reads malloc read size q n handy (suc max) [] (fd_outcome false (some eio) (suc max))
  short :
      (n handy max : ℕ) (bytes : List ℕ)
      → read n (asked_for size handy (suc max)) ≡ received bytes
      → 0 < length bytes
      → length bytes < asked_for size handy (suc max)
      → Reads malloc read size q n handy
          (suc max)
          bytes
          (fd_outcome true none (suc max - length bytes))
  whole :
      (n handy max : ℕ) (bytes more : List ℕ) (o : FdOutcome)
      → read n (asked_for size handy (suc max)) ≡ received bytes
      → length bytes ≡ asked_for size handy (suc max)
      → Reads malloc read size q
          (n + 1)
          (room_of size handy - length bytes)
          (suc max - length bytes)
          more
          o
      → Reads malloc read size q n handy (suc max) (bytes ++ more) o

pub is_encode-writing : (size : ℕ) (s : Stream) → IsWriting size s → is_encode s.x_op ≡ true
is_encode-writing size s (writing before m pos handy n full sum) = refl

pub Received-cases :
    (r : Received)
    → ((e : Errno) × (r ≡ not_received e))
      ⊎ (r ≡ received [])
      ⊎ ((b : ℕ) × (bs : List ℕ) × (r ≡ received (b ∷ bs)))
Received-cases (not_received e) = inl (e, refl)
Received-cases (received []) = inr (inl refl)
Received-cases (received (b ∷ bs)) = inr (inr (b, bs, refl))

module _ (malloc : ℕ → Option (ℕ → ℕ)) (read : ℕ → ℕ → Received) (rounds n : ℕ) (p : Pool)
    (s : Stream) (max : ℕ) where
  abbrev pub at_hand : Bool × Pool × Stream
  at_hand = ready malloc p s

  abbrev pub asked : ℕ
  asked = share at_hand.2.x_handy (suc max)

  pub read_loop-full :
      at_hand.0 ≡ false
      → read_loop malloc read (suc rounds) n p s (suc max)
        ≡ some (fd_outcome false (some enomem) (suc max), at_hand.1, at_hand.2)
  unfolding read_loop
  read_loop-full e = rw (read_loop, e) refl

  pub read_loop-fails :
      (errno : Errno)
      → at_hand.0 ≡ true
      → read n asked ≡ not_received errno
      → read_loop malloc read (suc rounds) n p s (suc max)
        ≡ some (fd_outcome (is_patient errno) (some errno) (suc max), at_hand.1, at_hand.2)
  unfolding read_loop
  read_loop-fails errno e e' = rw (read_loop, e, e') refl

  pub read_loop-closed :
      at_hand.0 ≡ true
      → read n asked ≡ received []
      → read_loop malloc read (suc rounds) n p s (suc max)
        ≡ some (fd_outcome false (some eio) (suc max), at_hand.1, at_hand.2)
  unfolding read_loop
  read_loop-closed e e' = rw (read_loop, e, e') refl

  pub read_loop-goes_on :
      (b : ℕ) (bs : List ℕ) (u : Stream)
      → at_hand.0 ≡ true
      → read n asked ≡ received (b ∷ bs)
      → store p.mem_stream_buffer_size at_hand.2 (b ∷ bs) ≡ some u
      → read_loop malloc read (suc rounds) n p s (suc max) ≡ (
          if asked == suc (length bs)
          then read_loop malloc read rounds (n + 1) at_hand.1 u (suc max - suc (length bs))
          else some (fd_outcome true none (suc max - suc (length bs)), at_hand.1, u))
  unfolding read_loop
  read_loop-goes_on b bs u e e' e'' = rw (read_loop, e, e', e'') refl

-- the room that is there after a look for it
abbrev pub Roomy : ℕ → ℕ → Bool × Pool × Stream → Type 0
Roomy size handy (ok, q, t) =
    ((ok ≡ true) × (t.x_handy ≡ room_of size handy)) ⊎ ((ok ≡ false) × (handy ≡ 0))

pub ready-Roomy :
    (malloc : ℕ → Option (ℕ → ℕ)) (p : Pool) (s : Stream)
    → Roomy p.mem_stream_buffer_size s.x_handy (ready malloc p s)
unfolding ready
ready-Roomy malloc p s = elim (Bool-cases (s.x_handy == 0)) [
  | inl none_left ↦
      subst
        (λ b.
          Roomy p.mem_stream_buffer_size s.x_handy
            (if b then allocate malloc p s else (true, p, s)))
        (sym none_left)
        (allocate-elim malloc p s (Roomy p.mem_stream_buffer_size s.x_handy)
          (λ q. λ memory. inl (
            refl,
            link_handy p.mem_stream_buffer_size memory s
                ∙ ap (λ b. if b then p.mem_stream_buffer_size else s.x_handy) (sym none_left),
          ))
          (λ q. inr (refl, (==_iff s.x_handy 0).0 none_left)))
  | inr some_left ↦
      subst
        (λ b.
          Roomy p.mem_stream_buffer_size s.x_handy
            (if b then allocate malloc p s else (true, p, s)))
        (sym some_left)
        (inl (refl, ap (λ b. if b then p.mem_stream_buffer_size else s.x_handy) (sym some_left)))
]

pub store_handy :
    (size : ℕ) (s t : Stream) (bs : List ℕ)
    → size < 2 ^ 32
    → IsWriting size s
    → length bs ≤ s.x_handy
    → store size s bs ≡ some t
    → t.x_handy ≡ s.x_handy - length bs
unfolding store
store_handy size s t bs fits (writing before memory pos handy n full sum) le e =
    let inside : ltb size (pos + length bs) ≡ false = ground arith in
    let left : sub32 handy (length bs) ≡ handy - length bs = omega arith in
    let stored : Stream = record (at_write before size memory pos handy n) {
      current = some (record { used = size; dummy = copy_in memory pos bs });
      x_private = pos + length bs;
      x_handy = sub32 handy (length bs);
    } in
    let same : some stored ≡ some t = ap (λ b. if b then none else some stored) (sym inside) ∙ e in
    sym (ap (λ u. u.x_handy) (some_cancel same)) ∙ left

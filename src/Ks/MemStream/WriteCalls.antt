-- ===== src/Ks/MemStream/WriteCalls.antt =====
-- The calls of `write` in `xdrmemstream_write_to_fd`, and its loop round by round.
use acplt_ks.Base.{
  ℕ, zero, suc, ◌+◌, ◌-◌, ◌<◌, ◌≤◌, ◌≡◌, refl, ap₂, true, false, ◌⊎◌, inl, inr, List, [], ◌∷◌, ◌++◌,
  none, some, arith, length, if◌then◌else◌, ◌==◌,
}
use acplt_ks.Ks.MemStream.{Stream}
use acplt_ks.Ks.MemStream.Transfer.{load, ready_get, share}
use acplt_ks.Ks.MemStream.Socket.{
  Errno, enomem, epipe, is_patient, Sent, sent, not_sent, FdOutcome, fd_outcome, write_loop,
}

-- The calls of `write` from the call `n` on, with so many bytes to write and with these bytes to read
-- in the stream; the bytes that are still to be read in the end, and what is returned. Each call is
-- given the next bytes of the stream. Writing goes on after a call that has taken all that it was
-- given, and ends with all bytes, with a call that has taken fewer, with an error, or with the stream.
pub data Writes (write : ℕ → List ℕ → Sent) : ℕ → ℕ → List ℕ → List ℕ → FdOutcome → Type 0 where
  done : (n : ℕ) (bytes : List ℕ) → Writes write n 0 bytes bytes (fd_outcome true none 0)
  no_data : (n max : ℕ) → Writes write n (suc max) [] [] (fd_outcome false (some enomem) (suc max))
  fails :
      (n max : ℕ) (given rest : List ℕ) (e : Errno)
      → 0 < length given
      → length given ≤ suc max
      → write n given ≡ not_sent e
      → Writes write n
          (suc max)
          (given ++ rest)
          (given ++ rest)
          (fd_outcome (is_patient e) (some e) (suc max))
  closed :
      (n max : ℕ) (given rest : List ℕ)
      → 0 < length given
      → length given ≤ suc max
      → write n given ≡ sent 0
      → Writes write n
          (suc max)
          (given ++ rest)
          (given ++ rest)
          (fd_outcome false (some epipe) (suc max))
  short :
      (n max : ℕ) (taken others rest : List ℕ)
      → 0 < length taken
      → 0 < length others
      → length (taken ++ others) ≤ suc max
      → write n (taken ++ others) ≡ sent (length taken)
      → Writes write n
          (suc max)
          (taken ++ others ++ rest)
          (others ++ rest)
          (fd_outcome true none (suc max - length taken))
  whole :
      (n max : ℕ) (given rest left : List ℕ) (o : FdOutcome)
      → 0 < length given
      → length given ≤ suc max
      → write n given ≡ sent (length given)
      → Writes write (n + 1) (suc max - length given) rest left o
      → Writes write n (suc max) (given ++ rest) left o

pub Sent-cases :
    (r : Sent) → ((e : Errno) × (r ≡ not_sent e)) ⊎ (r ≡ sent 0) ⊎ ((k : ℕ) × (r ≡ sent (suc k)))
Sent-cases (not_sent e) = inl (e, refl)
Sent-cases (sent zero) = inr (inl refl)
Sent-cases (sent (suc k)) = inr (inr (k, refl))

module _ (write : ℕ → List ℕ → Sent) (rounds n size : ℕ) (s t : Stream) (max : ℕ) where
  pub write_loop-ends :
      ready_get s ≡ some (false, t)
      → write_loop write (suc rounds) n size s (suc max)
        ≡ some (fd_outcome false (some enomem) (suc max), t)
  unfolding write_loop
  write_loop-ends e = rw (write_loop, e) refl

  module _ (bytes : List ℕ) (v : Stream) (found : ready_get s ≡ some (true, t))
      (loads : load size t (share t.x_handy (suc max)) ≡ some (bytes, v)) where
    pub write_loop-fails :
        (errno : Errno)
        → write n bytes ≡ not_sent errno
        → write_loop write (suc rounds) n size s (suc max)
          ≡ some (fd_outcome (is_patient errno) (some errno) (suc max), t)
    unfolding write_loop
    write_loop-fails errno e = rw (write_loop, found, loads, e) refl

    pub write_loop-closed :
        write n bytes ≡ sent 0
        → write_loop write (suc rounds) n size s (suc max)
          ≡ some (fd_outcome false (some epipe) (suc max), t)
    unfolding write_loop
    write_loop-closed e = rw (write_loop, found, loads, e) refl

    pub write_loop-goes_on :
        (k : ℕ) (taken : List ℕ) (u : Stream)
        → write n bytes ≡ sent (suc k)
        → load size t (suc k) ≡ some (taken, u)
        → write_loop write (suc rounds) n size s (suc max) ≡ (
            if share t.x_handy (suc max) == suc k
            then write_loop write rounds (n + 1) size u (suc max - suc k)
            else some (fd_outcome true none (suc max - suc k), u))
    unfolding write_loop
    write_loop-goes_on k taken u e e' = rw (write_loop, found, loads, e, e') refl

-- the shorter one of two beginnings of a list begins the other
pub beginning :
    (xs ys xs' ys' : List ℕ)
    → length xs ≤ length ys
    → xs ++ xs' ≡ ys ++ ys'
    → (zs : List ℕ) × (xs ++ zs ≡ ys)
beginning [] ys xs' ys' le e = (ys, refl)
beginning (x ∷ xs) [] xs' ys' le e = absurd (omega (arith, le))
beginning (x ∷ xs) (y ∷ ys) xs' ys' le e =
    let head_tail : (x ≡ y) × (xs ++ xs' ≡ ys ++ ys') = (cc, cc) in
    let (zs, same) = beginning xs ys xs' ys' (omega (arith, le)) head_tail.1 in
    (zs, ap₂ (λ a l. a ∷ l) head_tail.0 same)

pub no_length : (xs : List ℕ) → length xs ≡ 0 → xs ≡ []
no_length [] e = refl
no_length (x ∷ xs) e = absurd (omega (arith, e))

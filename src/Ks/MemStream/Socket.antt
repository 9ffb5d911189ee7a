-- ===== src/Ks/MemStream/Socket.antt =====
-- A stream's data from and to a file descriptor, and the description of its fragments, of
-- ks/src/xdrmemstream.cpp without XTI. What `read` and `write` answer is a parameter, with the number
-- of the call. The loops run on fuel, one round for each byte; `*max` is not negative.
use acplt_ks.Base.{
  ℕ, zero, suc, ◌+◌, ◌-◌, ◌%◌, ◌^◌, Bool, true, false, List, [], ◌∷◌, Option, none, some,
  if◌then◌else◌, ◌==◌, length,
}
use acplt_ks.Ks.MemStream.{Fragment, Pool, Stream, is_encode, is_decode}
use acplt_ks.Ks.MemStream.Session.{chain}
use acplt_ks.Ks.MemStream.Transfer.{store, load, ready, ready_get, share}

pub data Errno : Type 0 where
  eintr eagain ewouldblock eio enomem einval epipe : Errno
  other : ℕ → Errno

-- the errors that only ask for patience
abbrev pub is_patient : Errno → Bool
is_patient eintr = true
is_patient eagain = true
is_patient ewouldblock = true
is_patient eio = false
is_patient enomem = false
is_patient einval = false
is_patient epipe = false
is_patient (other n) = false

pub data Received : Type 0 where
  received : List ℕ → Received
  not_received : Errno → Received

pub data Sent : Type 0 where
  sent : ℕ → Sent
  not_sent : Errno → Sent

-- the answer, `*err` if it is set, and `*max`
pub record FdOutcome : Type 0 where
  pub ok : Bool
  pub err : Option Errno
  pub left : ℕ

abbrev pub fd_outcome : Bool → Option Errno → ℕ → FdOutcome
fd_outcome ok err left = record { ok = ok; err = err; left = left }

module _ (malloc : ℕ → Option (ℕ → ℕ)) (read : ℕ → ℕ → Received) where
  -- the loop of `xdrmemstream_read_from_fd` in so many rounds, from the call `n` on
  unfoldable pub read_loop : ℕ → ℕ → Pool → Stream → ℕ → Option (FdOutcome × Pool × Stream)
  unfolding ready store
  read_loop rounds n p s zero = some (fd_outcome true none 0, p, s)
  read_loop zero n p s (suc max) = none
  read_loop (suc rounds) n p s (suc max) =
      let (found, q, t) = ready malloc p s in
      let count = share t.x_handy (suc max) in
      elim found [
        | false ↦ some (fd_outcome false (some enomem) (suc max), q, t)
        | true ↦ elim (read n count) [
          | not_received e ↦ some (fd_outcome (is_patient e) (some e) (suc max), q, t)
          | received [] ↦ some (fd_outcome false (some eio) (suc max), q, t)
          | received (b ∷ bs) ↦ elim (store p.mem_stream_buffer_size t (b ∷ bs)) [
            | none ↦ none
            | some u ↦
                let rest = read_loop rounds (n + 1) q u (suc max - suc (length bs)) in
                if count == suc (length bs)
                then rest
                else some (fd_outcome true none (suc max - suc (length bs)), q, u)
          ]
        ]
      ]

  -- `xdrmemstream_read_from_fd`
  unfoldable pub read_from_fd : Pool → Stream → ℕ → Option (FdOutcome × Pool × Stream)
  unfolding read_loop
  read_from_fd p s max =
      if is_encode s.x_op
      then read_loop max 0 p s max
      else some (fd_outcome false (some einval) max, p, s)

module _ (write : ℕ → List ℕ → Sent) where
  -- the loop of `xdrmemstream_write_to_fd` in so many rounds, from the call `n` on
  unfoldable pub write_loop : ℕ → ℕ → ℕ → Stream → ℕ → Option (FdOutcome × Stream)
  unfolding ready_get load
  write_loop rounds n size s zero = some (fd_outcome true none 0, s)
  write_loop zero n size s (suc max) = none
  write_loop (suc rounds) n size s (suc max) = elim (ready_get s) [
    | none ↦ none
    | some (false, t) ↦ some (fd_outcome false (some enomem) (suc max), t)
    | some (true, t) ↦
        let count = share t.x_handy (suc max) in
        elim (load size t count) [
          | none ↦ none
          | some (bytes, _) ↦ elim (write n bytes) [
            | not_sent e ↦ some (fd_outcome (is_patient e) (some e) (suc max), t)
            | sent zero ↦ some (fd_outcome false (some epipe) (suc max), t)
            | sent (suc k) ↦ elim (load size t (suc k)) [
              | none ↦ none
              | some (_, u) ↦
                  let rest = write_loop rounds (n + 1) size u (suc max - suc k) in
                  if count == suc k then rest else some (fd_outcome true none (suc max - suc k), u)
            ]
          ]
        ]
  ]

  -- `xdrmemstream_write_to_fd`
  unfoldable pub write_to_fd : Pool → Stream → ℕ → Option (FdOutcome × Stream)
  unfolding write_loop
  write_to_fd p s max =
      if is_decode s.x_op
      then write_loop max 0 p.mem_stream_buffer_size s max
      else some (fd_outcome false (some einval) max, s)

-- the loop of `xdrmemstream_get_fragments`: what `*desc`, which stays where it is, holds in the end
unfoldable pub describe : ℕ → List Fragment → Option Fragment → Option Fragment
describe zero fs desc = desc
describe (suc avail) [] desc = desc
describe (suc avail) (f ∷ fs) desc =
    let rest = describe avail fs (some f) in if f.used == 0 then desc else rest

-- `xdrmemstream_get_fragments`: `*fragment_count`, `*total_size` and `*desc`, for room for so many
-- descriptions, or for no `desc`
unfoldable pub get_fragments : Stream → Option ℕ → Option (ℕ × Option ℕ × Option Fragment)
unfolding describe chain
get_fragments s room = elim (chain s) [
  | [] ↦ none
  | f ∷ fs ↦ some (
    if f.used == 0 then (s.fragments + (2 ^ 64 - 1)) % 2 ^ 64 else s.fragments,
    s.length,
    elim room [ none ↦ none | some avail ↦ describe avail (f ∷ fs) none ],
  )
]

-- ===== src/Ks/MemStream/Transfer.antt =====
-- Bytes and integers in and out of a memory stream: the methods of the stream in
-- ks/src/xdrmemstream.cpp. The loops run on fuel, one round for each byte.
use acplt_ks.Base.{
  ℕ, zero, suc, ◌+◌, ◌-◌, ◌^◌, Bool, true, false, ◌&&◌, List, [], ◌∷◌, ◌++◌, Option, none, some,
  if◌then◌else◌, leb, ltb, ◌==◌, length, take, drop,
}
use acplt_ks.Base.Cells.{update}
use acplt_ks.Ks.MemStream.{Pool, Stream, allocate, advance, sub32}

-- `memcpy` to and from an offset in memory
abbrev pub copy_in : (ℕ → ℕ) → ℕ → List ℕ → ℕ → ℕ
copy_in memory to [] = memory
copy_in memory to (b ∷ bs) = copy_in (update memory to b) (to + 1) bs

abbrev pub copy_out : (ℕ → ℕ) → ℕ → ℕ → List ℕ
copy_out memory from zero = []
copy_out memory from (suc n) = memory from ∷ copy_out memory (from + 1) n

-- Bytes at `x_private`, which has to stay in the fragment.
unfoldable pub store : ℕ → Stream → List ℕ → Option Stream
store size s bytes = elim s.current [
  | none ↦ none
  | some c ↦
      if ltb size (s.x_private + length bytes)
      then none
      else some (record s {
        current = some (record c { dummy = copy_in c.dummy s.x_private bytes });
        x_private = s.x_private + length bytes;
        x_handy = sub32 s.x_handy (length bytes);
      })
]

unfoldable pub load : ℕ → Stream → ℕ → Option (List ℕ × Stream)
load size s n = elim s.current [
  | none ↦ none
  | some c ↦
      if ltb size (s.x_private + n)
      then none
      else some (
        copy_out c.dummy s.x_private n,
        record s { x_private = s.x_private + n; x_handy = sub32 s.x_handy n },
      )
]

-- a fragment with room is there, or one is allocated
unfoldable pub ready : (ℕ → Option (ℕ → ℕ)) → Pool → Stream → Bool × Pool × Stream
unfolding allocate
ready malloc p s = if s.x_handy == 0 then allocate malloc p s else (true, p, s)

-- a fragment with data is there, or the next one is taken
unfoldable pub ready_get : Stream → Option (Bool × Stream)
unfolding advance
ready_get s = if s.x_handy == 0 then advance s else some (true, s)

-- `count`
abbrev pub share : ℕ → ℕ → ℕ
share handy len = if ltb len handy then len else handy

module _ (malloc : ℕ → Option (ℕ → ℕ)) where
  -- the loop of `MemStreamPutBytes` in so many rounds
  unfoldable pub put_loop : ℕ → Pool → Stream → List ℕ → Option (Bool × Pool × Stream)
  unfolding ready store
  put_loop rounds p s [] = some (true, p, s)
  put_loop zero p s (b ∷ bs) = none
  put_loop (suc rounds) p s (b ∷ bs) =
      let (ok, q, t) = ready malloc p s in
      let count = share t.x_handy (suc (length bs)) in
      elim ok [
        | false ↦ some (false, q, t)
        | true ↦ elim (store p.mem_stream_buffer_size t (take count (b ∷ bs))) [
          | none ↦ none
          | some u ↦ put_loop rounds q u (drop count (b ∷ bs))
        ]
      ]

  -- `MemStreamPutBytes`
  unfoldable pub put_bytes : Pool → Stream → List ℕ → Option (Bool × Pool × Stream)
  unfolding put_loop
  put_bytes p s bytes = put_loop (length bytes) p s bytes

  -- `MemStreamPutLong`, with the bytes that `IXDR_PUT_LONG` stores and steps over; `x_handy` takes four
  unfoldable pub put_long : (ℕ → List ℕ) → Pool → Stream → ℕ → Option (Bool × Pool × Stream)
  unfolding ready store
  put_long ixdr_put p s v =
      let (ok, q, t) = ready malloc p s in
      elim ok [
        | false ↦ some (false, q, record t { x_handy = 0 })
        | true ↦ elim (store p.mem_stream_buffer_size t (ixdr_put v)) [
          | none ↦ none
          | some u ↦ some (true, q, record u { x_handy = sub32 t.x_handy 4 })
        ]
      ]

  -- `MemStreamInline`, for a length that is not negative: the offset of the space
  unfoldable pub inline : Pool → Stream → ℕ → Option ℕ × Pool × Stream
  unfolding ready
  inline p s len =
      let (ok, q, t) = ready malloc p s in
      if ok
      then if ltb t.x_handy (2 ^ 31) && leb len t.x_handy
        then (
          some t.x_private,
          q,
          record t { x_private = t.x_private + len; x_handy = sub32 t.x_handy len },
        )
        else (none, q, t)
      else (none, q, t)

-- the loop of `MemStreamGetBytes` in so many rounds: the bytes that have been read
unfoldable pub get_loop : ℕ → ℕ → Stream → ℕ → Option (Bool × List ℕ × Stream)
unfolding ready_get load
get_loop rounds size s zero = some (true, [], s)
get_loop zero size s (suc n) = none
get_loop (suc rounds) size s (suc n) = elim (ready_get s) [
  | none ↦ none
  | some (false, t) ↦ some (false, [], t)
  | some (true, t) ↦
      let count = share t.x_handy (suc n) in
      elim (load size t count) [
        | none ↦ none
        | some (bytes, u) ↦ elim (get_loop rounds size u (suc n - count)) [
          | none ↦ none
          | some (ok, more, v) ↦ some (ok, bytes ++ more, v)
        ]
      ]
]

-- `MemStreamGetBytes`
unfoldable pub get_bytes : Pool → Stream → ℕ → Option (Bool × List ℕ × Stream)
unfolding get_loop
get_bytes p s len = get_loop len p.mem_stream_buffer_size s len

-- `MemStreamGetLong`, with the number of bytes that `IXDR_GET_LONG` reads and steps over; `x_handy`
-- takes four
unfoldable pub get_long : ℕ → (List ℕ → ℕ) → Pool → Stream → Option (Option ℕ × Stream)
unfolding ready_get load
get_long step ixdr_get p s = elim (ready_get s) [
  | none ↦ none
  | some (false, t) ↦ some (none, t)
  | some (true, t) ↦ elim (load p.mem_stream_buffer_size t step) [
    | none ↦ none
    | some (bytes, u) ↦ some (some (ixdr_get bytes), record u { x_handy = sub32 t.x_handy 4 })
  ]
]

-- `MemStreamGetPos` and `MemStreamSetPos`
abbrev pub get_pos : Stream → ℕ
get_pos s = 0

abbrev pub set_pos : Stream → ℕ → Bool
set_pos s pos = false

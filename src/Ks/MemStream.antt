-- ===== src/Ks/MemStream.antt =====
-- XDR memory streams: the pool of fragments of ks/src/xdrmemstream.cpp.
-- A chain of fragments is a list, cut at `current`: the fragments in front of it, itself and those
-- behind it. `none` as a result is an access through a null pointer or outside of a fragment.
-- What `malloc` answers to its calls, in their order, is a parameter: null, or memory with some
-- contents. `u_int` has 32 bits.
pub mod Session
pub mod Transfer
pub mod Socket
pub mod Allocation
pub mod Creation
pub mod ReadCalls
pub mod FromFd
pub mod WriteCalls
pub mod ToFd
pub mod Memory
pub mod Writing
pub mod Putting
pub mod Reading
pub mod Rewinding
pub mod RoundTrip
pub mod Accounts
pub mod Garbage
pub mod Life
pub mod PutLong
pub mod GetLong
mod Tests
use acplt_ks.Base.{
  ℕ, zero, suc, ◌+◌, ◌-◌, ◌*◌, ◌/◌, ◌%◌, ◌^◌, Bool, true, false, not, ◌&&◌, List, [], ◌∷◌, ◌++◌,
  Option, none, some, if◌then◌else◌, leb, ltb, ◌==◌,
}

-- the wrapping arithmetic of `u_int`
abbrev pub inc32 : ℕ → ℕ
inc32 n = (n + 1) % 2 ^ 32

abbrev pub sub32 : ℕ → ℕ → ℕ
sub32 a b = (a + (2 ^ 32 - b)) % 2 ^ 32

-- `MemoryStreamFragment`: the bytes begin at `dummy`
pub record Fragment : Type 0 where
  pub used : ℕ
  pub dummy : ℕ → ℕ

-- the module's variables, and how often `malloc` has been called
pub record Pool : Type 0 where
  pub mem_stream_buffer_size : ℕ
  pub free_list : List Fragment
  pub fragment_count : ℕ
  pub free_fragment_count : ℕ
  pub fragment_quota : ℕ
  pub fragment_watermark : ℕ
  pub free_percentage : ℕ
  pub requests : ℕ

pub data Op : Type 0 where
  encode decode free : Op

abbrev pub is_encode : Op → Bool
is_encode encode = true
is_encode decode = false
is_encode free = false

abbrev pub is_decode : Op → Bool
is_decode encode = false
is_decode decode = true
is_decode free = false

-- The XDR structure with its `MemoryStreamInfo`. `x_private` is an offset in the current fragment.
-- The chain from `first` is `before`, `current` and `after`, unless a fragment was allocated when
-- `current` was null: then the chain is `apart`. `length` is set by `rewind`.
pub record Stream : Type 0 where
  pub before : List Fragment
  pub current : Option Fragment
  pub after : List Fragment
  pub apart : List Fragment
  pub x_op : Op
  pub x_private : ℕ
  pub x_handy : ℕ
  pub fragments : ℕ
  pub length : Option ℕ

-- `xdrmemstream_getusage`; a fragment's head has 16 bytes in front of `dummy`
abbrev pub header_size : ℕ
header_size = 16

pub get_usage : Pool → ℕ × ℕ
get_usage p = (
  p.fragment_count * (p.mem_stream_buffer_size + header_size) % 2 ^ 32,
  p.free_fragment_count * (p.mem_stream_buffer_size + header_size) % 2 ^ 32,
)

abbrev pub min_fragment_size : ℕ
min_fragment_size = 256

-- `xdrmemstream_controlusage`
pub control_usage : Pool → ℕ → ℕ → ℕ → ℕ → Bool × Pool
control_usage p fragment_size quota watermark percentage =
    if not (fragment_size == p.mem_stream_buffer_size) && not (p.fragment_count == 0)
    then (false, p)
    else (
      true,
      record p {
        mem_stream_buffer_size =
            if ltb fragment_size min_fragment_size then min_fragment_size else fragment_size;
        fragment_quota = quota;
        fragment_watermark = watermark;
        free_percentage = percentage;
      },
    )

-- the part of `AllocateMemoryStreamFragment` that links the fragment to the stream
abbrev pub link : ℕ → (ℕ → ℕ) → Stream → Stream
link size memory s =
    let fragment : Fragment = record { used = size; dummy = memory } in
    elim s.current [
      | some c ↦ record s {
        before = s.before ++ c ∷ [];
        current = some fragment;
        after = [];
        x_private = 0;
        x_handy = size;
        fragments = inc32 s.fragments;
      }
      | none ↦ record s {
        apart = elim s.apart [ [] ↦ s.before | f ∷ fs ↦ f ∷ fs ];
        before = [];
        current = some fragment;
        after = [];
        x_private = 0;
        x_handy = size;
        fragments = inc32 s.fragments;
      }
    ]

-- `AllocateMemoryStreamFragment`: whether there was one
pub allocate : (ℕ → Option (ℕ → ℕ)) → Pool → Stream → Bool × Pool × Stream
allocate malloc p s = elim p.free_list [
  | f ∷ fs ↦ (
    true,
    record p { free_list = fs; free_fragment_count = sub32 p.free_fragment_count 1 },
    link p.mem_stream_buffer_size f.dummy s,
  )
  | [] ↦
      if leb p.fragment_quota p.fragment_count
      then (false, p, s)
      else let q : Pool = record p {
        fragment_count = inc32 p.fragment_count;
        requests = p.requests + 1;
      } in
        elim (malloc p.requests) [
          | none ↦ (false, q, s)
          | some memory ↦ (true, q, link p.mem_stream_buffer_size memory s)
        ]
]

-- `FreeMemoryStreamFragment`
abbrev pub free_fragment : Pool → Fragment → Pool
free_fragment p f = record p {
  free_list = f ∷ p.free_list;
  free_fragment_count = inc32 p.free_fragment_count;
}

-- the loops that free a chain
unfoldable pub free_chain : List Fragment → Pool → Pool
free_chain [] p = p
free_chain (f ∷ fs) p = free_chain fs (free_fragment p f)

-- the loop of `xdrmemstream_freegarbage`
pub free_loop : ℕ → Pool → Option Pool
free_loop zero p = some p
free_loop (suc to_free) p = elim p.free_list [
  | [] ↦ none
  | f ∷ fs ↦ free_loop to_free (record p {
    free_list = fs;
    free_fragment_count = sub32 p.free_fragment_count 1;
    fragment_count = sub32 p.fragment_count 1;
  })
]

-- `xdrmemstream_freegarbage`
pub free_garbage : Pool → Option Pool
unfolding free_loop
free_garbage p =
    let over = p.free_fragment_count - p.fragment_watermark in
    let to_free = over * p.free_percentage % 2 ^ 32 / 100 in
    if ltb p.fragment_watermark p.free_fragment_count
    then free_loop (if to_free == 0 then over else to_free) p
    else some p

-- `AdvanceToNextFragment`
pub advance : Stream → Option (Bool × Stream)
advance s = elim s.current [
  | none ↦ none
  | some c ↦ elim s.after [
    | [] ↦ some (false, record s { before = s.before ++ c ∷ []; current = none; x_handy = 0 })
    | f ∷ fs ↦ some (
      not (f.used == 0),
      record s {
        before = s.before ++ c ∷ [];
        current = some f;
        after = fs;
        x_private = 0;
        x_handy = f.used;
      },
    )
  ]
]

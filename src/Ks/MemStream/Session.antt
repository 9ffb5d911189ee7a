-- ===== src/Ks/MemStream/Session.antt =====
-- The life cycle of a memory stream in ks/src/xdrmemstream.cpp: creating, clearing, rewinding,
-- destroying.
use acplt_ks.Base.{ℕ, ◌*◌, ◌%◌, ◌^◌, Bool, List, [], ◌∷◌, ◌++◌, Option, none, some, if◌then◌else◌}
use acplt_ks.Ks.MemStream.{
  Fragment, Pool, Op, encode, is_encode, Stream, allocate, free_chain, sub32,
}

-- the chain that begins at `first`
unfoldable pub chain : Stream → List Fragment
chain s = elim s.apart [
  | [] ↦ s.before ++ elim s.current [ none ↦ [] | some c ↦ c ∷ s.after ]
  | f ∷ fs ↦ f ∷ fs
]

-- the stream that `xdrmemstream_create` hands to the allocation
abbrev pub blank : Stream
blank = record {
  before = [];
  current = none;
  after = [];
  apart = [];
  x_op = encode;
  x_private = 0;
  x_handy = 0;
  fragments = 0;
  length = none;
}

-- `xdrmemstream_create`; `info` is whether there was memory for the `MemoryStreamInfo`
unfoldable pub create : (ℕ → Option (ℕ → ℕ)) → Bool → Pool → Pool × Option Stream
unfolding allocate
create malloc info p =
    let (ok, q, s) = allocate malloc p blank in
    if info then if ok then (q, some s) else (q, none) else (p, none)

-- `xdrmemstream_clear`
unfoldable pub clear : Pool → Stream → Option (Pool × Stream)
unfolding chain free_chain
clear p s = elim (chain s) [
  | [] ↦ none
  | f ∷ fs ↦ some (
    free_chain fs p,
    record s {
      before = [];
      current = some (record f { used = p.mem_stream_buffer_size });
      after = [];
      apart = [];
      x_op = encode;
      x_private = 0;
      x_handy = p.mem_stream_buffer_size;
      fragments = 1;
    },
  )
]

-- the part of `xdrmemstream_rewind` that ends the writing
unfoldable pub fix_up : ℕ → Stream → Option Stream
fix_up size s =
    if is_encode s.x_op
    then elim s.current [
      | none ↦ none
      | some c ↦ some (record s {
        current = some (record c { used = sub32 c.used s.x_handy });
        length = some (sub32 (s.fragments * size % 2 ^ 32) s.x_handy);
      })
    ]
    else some s

-- the part of `xdrmemstream_rewind` that goes to the first fragment
unfoldable pub go_first : Op → Stream → Option Stream
unfolding chain
go_first op s = elim (chain s) [
  | [] ↦ none
  | f ∷ fs ↦ some (record s {
    before = [];
    current = some f;
    after = fs;
    apart = [];
    x_op = op;
    x_private = 0;
    x_handy = f.used;
  })
]

-- `xdrmemstream_rewind`
unfoldable pub rewind : Pool → Stream → Op → Option (Pool × Stream)
unfolding clear fix_up go_first
rewind p s op = if is_encode op then clear p s else elim (fix_up p.mem_stream_buffer_size s) [
  | none ↦ none
  | some t ↦ elim (go_first op t) [ none ↦ none | some u ↦ some (p, u) ]
]

-- `MemStreamDestroy`
unfoldable pub destroy : Pool → Stream → Pool
unfolding chain free_chain
destroy p s = free_chain (chain s) p

-- `xdrmemstream_get_length`, with a place for the length
abbrev pub get_length : Stream → Option ℕ
get_length s = s.length

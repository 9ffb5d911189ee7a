-- ===== src/Ks/MemStream/FromFd.antt =====
-- `xdrmemstream_read_from_fd`.
use acplt_ks.Base.{ℕ, ◌+◌, ◌^◌, ◌<◌, ◌≤◌, ◌≡◌, Bool, List, ◌++◌, Option, some, length}
use acplt_ks.Ks.MemStream.{Pool, Stream}
use acplt_ks.Ks.MemStream.Writing.{IsWriting, written}
use acplt_ks.Ks.MemStream.Socket.{Received, received, FdOutcome}
use acplt_ks.Ks.MemStream.ReadCalls.{Reads}

module _ (size : ℕ) (positive : 0 < size) (fits : size < 2 ^ 32) (malloc : ℕ → Option (ℕ → ℕ))
    (read : ℕ → ℕ → Received)
    (no_more_than_asked : (n count : ℕ) (bs : List ℕ)
      → read n count ≡ received bs
      → length bs ≤ count) where
  -- what becomes of reading
  abbrev Taken : ℕ → Stream → ℕ → Option (FdOutcome × Pool × Stream) → Type 0
  Taken n s max r =
      (o : FdOutcome) × (q : Pool) × (t : Stream) × (bytes : List ℕ) × (r ≡ some (o, q, t))
      × (q.mem_stream_buffer_size ≡ size)
      × IsWriting size t
      × (written t ≡ written s ++ bytes)
      × Reads malloc read size q n s.x_handy max bytes o
      × (length bytes + o.left ≡ max)

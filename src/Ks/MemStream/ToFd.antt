-- ===== src/Ks/MemStream/ToFd.antt =====
-- `xdrmemstream_write_to_fd`.
use acplt_ks.Base.{ℕ, ◌+◌, ◌^◌, ◌<◌, ◌≤◌, ◌≡◌, List, ◌++◌, Option, some, length}
use acplt_ks.Ks.MemStream.{Stream}
use acplt_ks.Ks.MemStream.Reading.{unread}
use acplt_ks.Ks.MemStream.Socket.{Sent, sent, FdOutcome}
use acplt_ks.Ks.MemStream.WriteCalls.{Writes}

module _ (size : ℕ) (fits : size < 2 ^ 32) (write : ℕ → List ℕ → Sent)
    (no_more_than_given : (n : ℕ) (bs : List ℕ) (k : ℕ) → write n bs ≡ sent k → k ≤ length bs) where
  -- what becomes of writing
  abbrev Given : ℕ → Stream → ℕ → Option (FdOutcome × Stream) → Type 0
  Given n s max r =
      (o : FdOutcome) × (t : Stream) × (bytes : List ℕ) × (r ≡ some (o, t))
      × (bytes ++ unread t ≡ unread s)
      × Writes write n max (unread s) (unread t) o
      × (length bytes + o.left ≡ max)

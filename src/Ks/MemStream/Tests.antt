-- ===== src/Ks/MemStream/Tests.antt =====
-- Runs of memory streams, and the theorems about them at concrete pools and streams.
use acplt_ks.Base.{
  ℕ, ◌+◌, ◌*◌, ◌%◌, ◌/◌, ◌^◌, ◌≤◌, ◌≡◌, refl, Bool, true, false, ◌⊎◌, List, [], ◌∷◌, map, Option,
  none, some, arith, length, if◌then◌else◌, ltb,
}
use acplt_ks.Ks.MemStream.{Fragment, Pool, Stream, decode, free_garbage, free_loop, allocate}
use acplt_ks.Ks.MemStream.Session.{create, rewind, destroy, chain}
use acplt_ks.Ks.MemStream.Transfer.{put_bytes, put_long, inline, ready, store}
use acplt_ks.Ks.MemStream.Writing.{IsWriting, writing, written, at_write, IsShort}
use acplt_ks.Ks.MemStream.Reading.{IsReading, reading, unread, at_read}
use acplt_ks.Ks.MemStream.Rewinding.{rewind-unread}
use acplt_ks.Ks.MemStream.RoundTrip.{put_all, get_all, round_trip}
use acplt_ks.Ks.MemStream.Garbage.{IsCounted, sweeps, sweeps_end}
use acplt_ks.Ks.MemStream.Accounts.{IsHeld}
use acplt_ks.Ks.MemStream.Life.{life_lem}
use acplt_ks.Ks.MemStream.PutLong.{put_long-put_bytes}
use acplt_ks.Ks.MemStream.Socket.{
  eagain, Received, received, not_received, Sent, sent, not_sent, describe, get_fragments,
}

abbrev zeros : ℕ → ℕ
zeros i = 0

abbrev malloc : ℕ → Option (ℕ → ℕ)
malloc n = some zeros

abbrev old_fragment : Fragment
old_fragment = record { used = 256; dummy = zeros }

-- one fragment is free, and one more may be allocated
abbrev pool : Pool
pool = record {
  mem_stream_buffer_size = 256;
  free_list = old_fragment ∷ [];
  fragment_count = 1;
  free_fragment_count = 1;
  fragment_quota = 2;
  fragment_watermark = 0;
  free_percentage = 50;
  requests = 0;
}

abbrev fresh : Stream
fresh = at_write [] 256 zeros 0 256 none

abbrev fresh-IsWriting : IsWriting 256 fresh
fresh-IsWriting = writing [] zeros 0 256 none tt refl

abbrev counting : ℕ → ℕ
counting i = i

abbrev half_read : Stream
half_read = at_read [] (record { used = 4; dummy = counting }) [] decode 2 2 1 (some 4)

abbrev half_read-IsReading : IsReading 256 half_read
half_read-IsReading =
    reading [] (record { used = 4; dummy = counting }) [] decode 2 2 1 (some 4) (omega arith) tt

rewind-unread_example :
    (t : Stream) × (rewind pool fresh decode ≡ some (pool, t))
    × IsReading 256 t
    × (unread t ≡ written fresh)
    × (t.length ≡ some (length (written fresh) % 2 ^ 32))
rewind-unread_example = rewind-unread pool (omega arith) (omega arith) fresh fresh-IsWriting

abbrev chunks : List (List ℕ)
chunks = (1 ∷ 2 ∷ 3 ∷ []) ∷ [] ∷ (4 ∷ []) ∷ []

round_trip_example :
    ((q : Pool) × (create malloc true pool ≡ (q, none)) × IsShort malloc q)
    ⊎ ((q : Pool) × (s : Stream) × (create malloc true pool ≡ (q, some s))
        × (ok : Bool) × (q' : Pool) × (t : Stream) × (put_all malloc q s chunks ≡ some (ok, q', t))
        × (((ok ≡ false) × IsShort malloc q')
            ⊎ ((ok ≡ true)
                × (u : Stream) × (v : Stream) × (rewind q' t decode ≡ some (q', u))
                × (get_all q' u (map length chunks) ≡ some (true, chunks, v))
                × (unread v ≡ []))))
round_trip_example = round_trip malloc pool chunks (omega arith) (omega arith)

abbrev pool-IsCounted : IsCounted pool
pool-IsCounted = record { counted = refl; among = omega arith; bounded = omega arith }

sweeps_end_example :
    (q : Pool) × (sweeps 1 pool ≡ some q)
    × IsCounted q
    × (q.free_fragment_count ≤ 0)
    × (q.fragment_count + 1 ≡ 1 + q.free_fragment_count)
sweeps_end_example = sweeps_end 1 pool pool-IsCounted (omega arith) (omega arith)

-- more than all fragments are to be freed
greedy : free_garbage (record pool { free_percentage = 200 }) ≡ none
unfolding free_garbage free_loop
greedy = refl

life_lem_example :
    ((q : Pool) × (create malloc true pool ≡ (q, none)) × IsHeld 0 q 0)
    ⊎ ((q : Pool) × (s : Stream) × (create malloc true pool ≡ (q, some s))
        × (ok : Bool) × (r : Pool) × (t : Stream) × (put_all malloc q s chunks ≡ some (ok, r, t))
        × IsHeld 0 (destroy r t) 0)
life_lem_example =
    life_lem malloc (λ n. (zeros, refl)) 0 pool chunks (omega arith) (omega arith)
      (record { counters = pool-IsCounted; quota = omega arith; total = refl })

-- big-endian
abbrev ixdr_put : ℕ → List ℕ
ixdr_put v = v / 2 ^ 24 % 256 ∷ v / 2 ^ 16 % 256 ∷ v / 2 ^ 8 % 256 ∷ v % 256 ∷ []

abbrev ixdr_get : List ℕ → ℕ
ixdr_get [] = 0
ixdr_get (b ∷ bs) = b * 256 ^ length bs + ixdr_get bs

put_long-put_bytes_example :
    put_long malloc ixdr_put pool fresh 1000 ≡ put_bytes malloc pool fresh (ixdr_put 1000)
put_long-put_bytes_example =
    put_long-put_bytes malloc ixdr_put pool fresh 1000 refl (omega arith) refl refl

-- a macro that stores and steps over eight bytes runs behind a fragment that has room for four
abbrev put_eight : ℕ → List ℕ
put_eight v = 0 ∷ 0 ∷ 0 ∷ 0 ∷ ixdr_put v

abbrev room_for_four : Stream
room_for_four = at_write [] 256 zeros 252 4 none

eight_overruns : put_long malloc put_eight pool room_for_four 1000 ≡ none
unfolding put_long ready store
eight_overruns = refl

abbrev one_long : Stream
one_long = at_read [] (record { used = 4; dummy = counting }) [] decode 0 4 1 (some 4)

-- one byte, and then nothing yet
abbrev read : ℕ → ℕ → Received
read n count = if ltb n count then received (7 ∷ []) else not_received eagain

abbrev received_bytes : Received → List ℕ
received_bytes (received bs) = bs
received_bytes (not_received e) = []

-- one byte at a time
abbrev write : ℕ → List ℕ → Sent
write n [] = sent 0
write n (b ∷ bs) = sent 1

abbrev sent_count : Sent → ℕ
sent_count (sent k) = k
sent_count (not_sent e) = 0

-- room for two descriptions: the second one is written over the first one
abbrev two_fragments : Stream
two_fragments =
    at_read [] (record { used = 256; dummy = zeros }) (record { used = 4; dummy = counting } ∷ [])
      decode 0 256 2 (some 260)

described :
    get_fragments two_fragments (some 2)
    ≡ some (2, some 260, some (record { used = 4; dummy = counting }))
unfolding get_fragments describe chain
described = refl

-- inline space at the end of a fragment when reading: what followed is no longer in the chain
abbrev at_end : Stream
at_end =
    at_read [] (record { used = 256; dummy = zeros }) (record { used = 4; dummy = counting } ∷ [])
      decode 256 0 2 (some 260)

cut_off :
    (inline malloc pool at_end 4).2
    ≡ at_read (record { used = 256; dummy = zeros } ∷ []) old_fragment [] decode 4 252 3 (some 260)
unfolding inline ready allocate
cut_off = refl

-- ===== src/Ks/MemStream/Rewinding.antt =====
-- The beginning of a stream, and `xdrmemstream_rewind` behind the writing.
use mathlib.Core.List.{append-nil, append_assoc}
use native.Mathlib.Nat.{mul-add-mod_self_right}
use acplt_ks.Base.{
  ℕ, ◌+◌, ◌*◌, ◌/◌, ◌%◌, ◌^◌, ◌<◌, ◌≤◌, ◌≡◌, refl, ap, sym, ◌∙◌, inl, inr, List, [], ◌∷◌, ◌++◌,
  Option, some, arith, length, length-append, All,
}
use acplt_ks.Ks.MemStream.{Fragment, Pool, Stream, encode, decode, sub32}
use acplt_ks.Ks.MemStream.Session.{rewind, chain, fix_up, go_first}
use acplt_ks.Ks.MemStream.Transfer.{copy_out}
use acplt_ks.Ks.MemStream.Memory.{length-copy_out}
use acplt_ks.Ks.MemStream.Writing.{texts, texts-append, at_write, IsWriting, writing, written}
use acplt_ks.Ks.MemStream.Reading.{at_read, Filled, IsReading, reading, unread}

module _ (size : ℕ) where
  length-texts :
      (fs : List Fragment) → All (λ f. f.used ≡ size) fs → length (texts fs) ≡ length fs * size
  unfolding texts
  length-texts [] full = omega arith
  length-texts (f ∷ fs) full = omega (
    arith,
    length-append (copy_out f.dummy 0 f.used) (texts fs),
    length-copy_out f.dummy 0 f.used,
    full.0,
    length-texts fs full.1,
  )

  Filled-last :
      (fs : List Fragment) (f : Fragment)
      → 0 < size
      → All (λ f. f.used ≡ size) fs
      → f.used ≤ size
      → Filled size (fs ++ f ∷ [])
  Filled-last [] f positive full le = (le, inr refl, tt)
  Filled-last (g ∷ fs) f positive full le =
      (omega (arith, full.0), inl (omega (arith, full.0)), Filled-last fs f positive full.1 le)

  mod_length :
      (l pos handy : ℕ)
      → size < 2 ^ 32
      → pos + handy ≡ size
      → sub32 ((l + 1) % 2 ^ 32 * size % 2 ^ 32) handy ≡ (l * size + pos) % 2 ^ 32
  mod_length l pos handy fits sum =
      let q = (l + 1) / 2 ^ 32 in
      let r = (l + 1) % 2 ^ 32 in
      let parts : l + 1 ≡ q * 2 ^ 32 + r = omega arith in
      let whole : (l + 1) * size ≡ q * size * 2 ^ 32 + r * size =
        omega (arith, ap (λ k. k * size) parts) in
      let same : (l + 1) * size % 2 ^ 32 ≡ r * size % 2 ^ 32 =
        ap (λ k. k % 2 ^ 32) whole ∙ mul-add-mod_self_right (q * size) (2 ^ 32) (r * size) in
      omega (arith, same, sum, fits)

module _ (p : Pool) (positive : 0 < p.mem_stream_buffer_size)
    (fits : p.mem_stream_buffer_size < 2 ^ 32) where
  -- the stream with the last fragment cut to what is in it
  abbrev cut : List Fragment → (ℕ → ℕ) → ℕ → ℕ → Stream
  cut before memory pos handy = record {
    before = before;
    current = some (record { used = pos; dummy = memory });
    after = [];
    apart = [];
    x_op = encode;
    x_private = pos;
    x_handy = handy;
    fragments = (length before + 1) % 2 ^ 32;
    length = some ((length before * p.mem_stream_buffer_size + pos) % 2 ^ 32);
  }

  fix_up-cut :
      (before : List Fragment) (memory : ℕ → ℕ) (pos handy : ℕ) (n : Option ℕ)
      → pos + handy ≡ p.mem_stream_buffer_size
      → fix_up p.mem_stream_buffer_size
          (at_write before p.mem_stream_buffer_size memory pos handy n)
        ≡ some (cut before memory pos handy)
  unfolding fix_up
  fix_up-cut before memory pos handy n sum =
      let ends : sub32 p.mem_stream_buffer_size handy ≡ pos = omega arith in
      rw (ends, mod_length p.mem_stream_buffer_size (length before) pos handy fits sum) refl

  rewind-steps :
      (s t u : Stream)
      → fix_up p.mem_stream_buffer_size s ≡ some t
      → go_first decode t ≡ some u
      → rewind p s decode ≡ some (p, u)
  unfolding rewind
  rewind-steps s t u e e' = rw (rewind, e, e') refl

  length-written :
      (before : List Fragment) (memory : ℕ → ℕ) (pos : ℕ)
      → All (λ f. f.used ≡ p.mem_stream_buffer_size) before
      → length (texts before ++ copy_out memory 0 pos)
        ≡ length before * p.mem_stream_buffer_size + pos
  length-written before memory pos full = omega (
    arith,
    length-append (texts before) (copy_out memory 0 pos),
    length-copy_out memory 0 pos,
    length-texts p.mem_stream_buffer_size before full,
  )

  -- `xdrmemstream_rewind` to XDR_DECODE of a stream that is written to changes nothing in the pool.
  -- What is then to be read is what has been written, and the length is its length, modulo 2 ^ 32.
  pub rewind-unread :
      (s : Stream)
      → IsWriting p.mem_stream_buffer_size s
      → (t : Stream) × (rewind p s decode ≡ some (p, t))
        × IsReading p.mem_stream_buffer_size t
        × (unread t ≡ written s)
        × (t.length ≡ some (length (written s) % 2 ^ 32))
  unfolding go_first chain unread written texts
  rewind-unread s (writing [] memory pos handy n full sum) =
      let c : Fragment = record { used = pos; dummy = memory } in
      let size_of = length-written [] memory pos full in
      (
        at_read [] c [] decode 0 pos 1 (some ((0 * p.mem_stream_buffer_size + pos) % 2 ^ 32)),
        rewind-steps (at_write [] p.mem_stream_buffer_size memory pos handy n)
            (cut [] memory pos handy)
            (at_read [] c [] decode 0 pos 1 (some ((0 * p.mem_stream_buffer_size + pos) % 2 ^ 32)))
            (fix_up-cut [] memory pos handy n sum) refl,
        reading [] c [] decode 0 pos 1 (some ((0 * p.mem_stream_buffer_size + pos) % 2 ^ 32))
            (omega arith) tt,
        append-nil (copy_out memory 0 pos),
        ap (λ k. some (k % 2 ^ 32)) (sym size_of),
      )
  rewind-unread s (writing (f ∷ fs) memory pos handy n full sum) =
      let c : Fragment = record { used = pos; dummy = memory } in
      let size = p.mem_stream_buffer_size in
      let fragments = (length (f ∷ fs) + 1) % 2 ^ 32 in
      let len : Option ℕ = some ((length (f ∷ fs) * size + pos) % 2 ^ 32) in
      (
        at_read [] f (fs ++ c ∷ []) decode 0 f.used fragments len,
        rewind-steps (at_write (f ∷ fs) size memory pos handy n) (cut (f ∷ fs) memory pos handy)
            (at_read [] f (fs ++ c ∷ []) decode 0 f.used fragments len)
            (fix_up-cut (f ∷ fs) memory pos handy n sum) refl,
        reading [] f (fs ++ c ∷ []) decode 0 f.used fragments len (omega (arith, full.0))
            (Filled-last size fs c positive full.1 (omega (arith, sum))),
        ap (λ l. copy_out f.dummy 0 f.used ++ l)
              (texts-append fs (c ∷ [])
                ∙ ap (λ l. texts fs ++ l) (append-nil (copy_out memory 0 pos)))
            ∙ sym (append_assoc (copy_out f.dummy 0 f.used) (texts fs) (copy_out memory 0 pos)),
        ap (λ k. some (k % 2 ^ 32)) (sym (length-written (f ∷ fs) memory pos full)),
      )

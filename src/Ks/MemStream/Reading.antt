-- ===== src/Ks/MemStream/Reading.antt =====
-- A stream that is read.
use mathlib.Core.List.{append_assoc}
use acplt_ks.Base.{
  ℕ, zero, suc, ◌+◌, ◌-◌, ◌^◌, ◌<◌, ◌≤◌, ◌≡◌, refl, ap, sym, ◌∙◌, Bool, true, false, not, ◌⊎◌, inl,
  inr, List, [], ◌∷◌, ◌++◌, Option, none, some, arith, length, length-append, if◌then◌else◌, ltb,
  ◌==◌, ==_iff, Bool-cases, subst,
}
use acplt_ks.Ks.MemStream.{Fragment, Pool, Stream, Op, advance, sub32}
use acplt_ks.Ks.MemStream.Transfer.{copy_out, load, ready_get, share, get_loop, get_bytes}
use acplt_ks.Ks.MemStream.Memory.{copy_out_add, length-copy_out}
use acplt_ks.Ks.MemStream.Writing.{texts}

-- a stream in the middle of reading
abbrev pub at_read : List Fragment → Fragment → List Fragment → Op → ℕ → ℕ → ℕ → Option ℕ → Stream
at_read before c after op pos handy fragments n = record {
  before = before;
  current = some c;
  after = after;
  apart = [];
  x_op = op;
  x_private = pos;
  x_handy = handy;
  fragments = fragments;
  length = n;
}

-- the fragments fit, and only the last one may be empty
abbrev pub Filled : ℕ → List Fragment → Type 0
Filled size [] = Unit
Filled size (f ∷ fs) = (f.used ≤ size) × ((0 < f.used) ⊎ (fs ≡ [])) × Filled size fs

pub data IsReading (size : ℕ) : Stream → Type 0 where
  reading :
      (before : List Fragment) (c : Fragment) (after : List Fragment) (op : Op)
      (pos handy fragments : ℕ) (n : Option ℕ)
      → pos + handy ≤ size
      → Filled size after
      → IsReading size (at_read before c after op pos handy fragments n)

-- what has not been read yet
unfoldable pub unread : Stream → List ℕ
unfolding texts
unread s =
    elim s.current [ none ↦ [] | some c ↦ copy_out c.dummy s.x_private s.x_handy ] ++ texts s.after

module _ (size : ℕ) (fits : size < 2 ^ 32) where
  pub load_lem :
      (s : Stream) (k : ℕ)
      → IsReading size s
      → k ≤ s.x_handy
      → (bytes : List ℕ) × (t : Stream) × (load size s k ≡ some (bytes, t))
        × IsReading size t
        × (bytes ++ unread t ≡ unread s)
        × (length bytes ≡ k)
  unfolding load unread
  load_lem s k (reading before c after op pos handy fragments n inside filled) le =
      let within : ltb size (pos + k) ≡ false = ground arith in
      let left : sub32 handy k ≡ handy - k = omega arith in
      let parts : handy ≡ k + (handy - k) = omega arith in
      let bytes = copy_out c.dummy pos k in
      let more = copy_out c.dummy (pos + k) (handy - k) in
      (
        bytes,
        at_read before c after op (pos + k) (handy - k) fragments n,
        rw (within, left) refl,
        reading before c after op (pos + k) (handy - k) fragments n (omega arith) filled,
        sym (append_assoc bytes more (texts after))
            ∙ ap (λ l. l ++ texts after)
                (sym (ap (copy_out c.dummy pos) parts ∙ copy_out_add c.dummy pos k (handy - k))),
        length-copy_out c.dummy pos k,
      )

  -- what a look for data gives
  abbrev pub Ready : Stream → Option (Bool × Stream) → Type 0
  Ready s r =
      (ok : Bool) × (t : Stream) × (r ≡ some (ok, t))
      × (unread t ≡ unread s)
      × (((ok ≡ true) × IsReading size t × (0 < t.x_handy)) ⊎ ((ok ≡ false) × (unread t ≡ [])))

  advance-Ready : (s : Stream) → IsReading size s → s.x_handy ≡ 0 → Ready s (advance s)
  unfolding advance unread texts
  advance-Ready s (reading before c [] op pos handy fragments n inside filled) empty =
      let u : Stream = record {
        before = before ++ c ∷ [];
        current = none;
        after = [];
        apart = [];
        x_op = op;
        x_private = pos;
        x_handy = 0;
        fragments = fragments;
        length = n;
      } in
      let nothing : copy_out c.dummy pos handy ++ [] ≡ [] =
        ap (λ k. copy_out c.dummy pos k ++ []) empty in
      (false, u, refl, sym nothing, inr (refl, refl))
  advance-Ready s (reading before c (f ∷ fs) op pos handy fragments n inside filled) empty =
      let t = at_read (before ++ c ∷ []) f fs op 0 f.used fragments n in
      let nothing : copy_out c.dummy pos handy ++ texts (f ∷ fs) ≡ texts (f ∷ fs) =
        ap (λ k. copy_out c.dummy pos k ++ texts (f ∷ fs)) empty in
      elim (Bool-cases (f.used == 0)) [
        | inl unused ↦
            let zero_used = (==_iff f.used 0).0 unused in
            (
              false,
              t,
              ap (λ b. some (not b, t)) unused,
              sym nothing,
              inr (
                refl,
                elim filled.1 [
                  | inl some_used ↦ absurd (omega (arith, zero_used))
                  | inr last ↦ ap (λ k. copy_out f.dummy 0 k ++ texts fs) zero_used ∙ ap texts last
                ],
              ),
            )
        | inr in_use ↦ (
          true,
          t,
          ap (λ b. some (not b, t)) in_use,
          sym nothing,
          inl (
            refl,
            reading (before ++ c ∷ []) f fs op 0 f.used fragments n (omega (arith, filled.0))
                filled.2,
            ground (arith, in_use),
          ),
        )
      ]

  pub ready_get-Ready : (s : Stream) → IsReading size s → Ready s (ready_get s)
  unfolding ready_get
  ready_get-Ready s r = elim (Bool-cases (s.x_handy == 0)) [
    | inl none_left ↦
        subst (λ b. Ready s (if b then advance s else some (true, s))) (sym none_left)
          (advance-Ready s r ((==_iff s.x_handy 0).0 none_left))
    | inr some_left ↦
        subst (λ b. Ready s (if b then advance s else some (true, s))) (sym some_left)
          (true, s, refl, refl, inl (refl, r, ground (arith, some_left)))
  ]

  module _ (rounds n : ℕ) (s t : Stream) where
    get_loop-stops :
        ready_get s ≡ some (false, t) → get_loop (suc rounds) size s (suc n) ≡ some (false, [], t)
    unfolding get_loop
    get_loop-stops e = rw (get_loop, e) refl

    get_loop-goes_on :
        (bytes more : List ℕ) (u v : Stream) (ok : Bool)
        → ready_get s ≡ some (true, t)
        → load size t (share t.x_handy (suc n)) ≡ some (bytes, u)
        → get_loop rounds size u (suc n - share t.x_handy (suc n)) ≡ some (ok, more, v)
        → get_loop (suc rounds) size s (suc n) ≡ some (ok, bytes ++ more, v)
    unfolding get_loop
    get_loop-goes_on bytes more u v ok e e' e'' = rw (get_loop, e, e', e'') refl

  -- what becomes of a get
  abbrev Got : Stream → ℕ → Option (Bool × List ℕ × Stream) → Type 0
  Got s n r =
      (ok : Bool) × (bytes : List ℕ) × (t : Stream) × (r ≡ some (ok, bytes, t))
      × (bytes ++ unread t ≡ unread s)
      × (((ok ≡ true) × IsReading size t × (length bytes ≡ n))
          ⊎ ((ok ≡ false) × (unread t ≡ []) × (length bytes < n)))

  get_loop-Got :
      (rounds : ℕ) (s : Stream) (n : ℕ)
      → IsReading size s
      → n ≤ rounds
      → Got s n (get_loop rounds size s n)
  unfolding get_loop
  get_loop-Got rounds s zero r enough = (true, [], s, refl, refl, inl (refl, r, refl))
  get_loop-Got zero s (suc n) r enough = elim enough [ ]
  get_loop-Got (suc rounds) s (suc n) r enough =
      let (ok, t, looks, as_before, more) = ready_get-Ready s r in
      elim more [
        | inr (ends, nothing) ↦ (
          false,
          [],
          t,
          get_loop-stops rounds n s t (looks ∙ ap (λ b. some (b, t)) ends),
          as_before,
          inr (refl, nothing, omega arith),
        )
        | inl (goes_on, r', data_there) ↦
            let count = share t.x_handy (suc n) in
            let fewer : count ≤ t.x_handy = ground arith in
            let some_of : 0 < count = ground (arith, data_there) in
            let within : count ≤ suc n = ground arith in
            let (bytes, u, loads, r'', parts, long) = load_lem t count r' fewer in
            let (ok', more, v, runs, parts', result) =
              get_loop-Got rounds u (suc n - count) r'' (omega (arith, some_of)) in
            (
              ok',
              bytes ++ more,
              v,
              get_loop-goes_on rounds n s t bytes more u v ok'
                  (looks ∙ ap (λ b. some (b, t)) goes_on) loads runs,
              append_assoc bytes more (unread v) ∙ ap (λ l. bytes ++ l) parts' ∙ parts ∙ as_before,
              elim result [
                | inl (good, r3, all) ↦
                    inl (good, r3, omega (arith, length-append bytes more, long, all, within))
                | inr (bad, nothing, few) ↦
                    inr (bad, nothing, omega (arith, length-append bytes more, long, few, within))
              ],
            )
      ]

-- `MemStreamGetBytes` of a stream that is read returns. The bytes are the next ones of the stream: as
-- many as are asked for if it returns true, and all that are left, which are fewer, if it does not.
pub get_bytes-unread :
    (p : Pool) (s : Stream) (n : ℕ)
    → p.mem_stream_buffer_size < 2 ^ 32
    → IsReading p.mem_stream_buffer_size s
    → (ok : Bool) × (bytes : List ℕ) × (t : Stream) × (get_bytes p s n ≡ some (ok, bytes, t))
      × (bytes ++ unread t ≡ unread s)
      × (((ok ≡ true) × IsReading p.mem_stream_buffer_size t × (length bytes ≡ n))
          ⊎ ((ok ≡ false) × (unread t ≡ []) × (length bytes < n)))
unfolding get_bytes
get_bytes-unread p s n fits r = get_loop-Got p.mem_stream_buffer_size fits n s n r (omega arith)

-- At the end of the last fragment `MemStreamGetBytes` of some bytes returns false, and the next such
-- call follows the null pointer that this one leaves in `current`.
pub get_bytes-null :
    (p : Pool) (before : List Fragment) (c : Fragment) (op : Op) (pos fragments : ℕ)
    (length : Option ℕ) (n m : ℕ)
    → (t : Stream) × (get_bytes p (at_read before c [] op pos 0 fragments length) (suc n)
        ≡ some (false, [], t))
      × (get_bytes p t (suc m) ≡ none)
unfolding get_bytes get_loop ready_get advance
get_bytes-null p before c op pos fragments length n m =
    let t : Stream = record {
      before = before ++ c ∷ [];
      current = none;
      after = [];
      apart = [];
      x_op = op;
      x_private = pos;
      x_handy = 0;
      fragments = fragments;
      length = length;
    } in
    (t, refl, refl)

-- ===== src/Ks/MemStream/Garbage.antt =====
-- `xdrmemstream_freegarbage`.
use native.Mathlib.Nat.{mul-le-mul_left}
use acplt_ks.Base.{
  ℕ, zero, suc, ◌+◌, ◌-◌, ◌*◌, ◌/◌, ◌%◌, ◌^◌, ◌<◌, ◌≤◌, ◌≡◌, refl, ap, ap₂, ◌∙◌, true, false, ◌⊎◌,
  inl, inr, List, [], ◌∷◌, Option, none, some, arith, length, drop, length-drop, if◌then◌else◌, ltb,
  ◌==◌, Bool-cases,
}
use acplt_ks.Ks.MemStream.{Fragment, Pool, free_loop, free_garbage, sub32}

-- the counters of the pool are right
pub record IsCounted (p : Pool) : Type 0 where
  pub counted : p.free_fragment_count ≡ length p.free_list
  pub among : p.free_fragment_count ≤ p.fragment_count
  pub bounded : p.fragment_count < 2 ^ 32

abbrev without : Pool → List Fragment → ℕ → ℕ → Pool
without p fl free all = record p {
  free_list = fl;
  free_fragment_count = free;
  fragment_count = all;
}

free_loop-drop :
    (p : Pool) (n : ℕ) (fl : List Fragment) (free all : ℕ)
    → free ≡ length fl
    → free ≤ all
    → all < 2 ^ 32
    → n ≤ free
    → free_loop n (without p fl free all) ≡ some (without p (drop n fl) (free - n) (all - n))
unfolding free_loop
free_loop-drop p zero fl free all counted among bounded le =
    let same_free : free ≡ free - 0 = omega arith in
    let same_all : all ≡ all - 0 = omega arith in
    ap₂ (λ k l. some (without p fl k l)) same_free same_all
free_loop-drop p (suc n) [] free all counted among bounded le = absurd (omega (arith, counted))
free_loop-drop p (suc n) (f ∷ fs) free all counted among bounded le =
    let one_free : sub32 free 1 ≡ free - 1 = omega arith in
    let one_less : sub32 all 1 ≡ all - 1 = omega (arith, counted) in
    let n_free : free - 1 - n ≡ free - suc n = omega arith in
    let n_less : all - 1 - n ≡ all - suc n = omega arith in
    rw (one_free, one_less)
      (free_loop-drop p n fs (free - 1) (all - 1) (omega (arith, counted)) (omega arith)
          (omega arith) (omega arith)
        ∙ ap₂ (λ k l. some (without p (drop n fs) k l)) n_free n_less)

-- how many fragments a step frees
abbrev step_size : Pool → ℕ
step_size p =
    let over = p.free_fragment_count - p.fragment_watermark in
    let to_free = over * p.free_percentage % 2 ^ 32 / 100 in if to_free == 0 then over else to_free

step_size-bounds :
    (p : Pool)
    → p.free_percentage ≤ 100
    → p.fragment_watermark < p.free_fragment_count
    → (0 < step_size p) × (step_size p ≤ p.free_fragment_count - p.fragment_watermark)
step_size-bounds p percent over =
    let most = mul-le-mul_left (p.free_fragment_count - p.fragment_watermark) percent in
    let less : (p.free_fragment_count - p.fragment_watermark) * p.free_percentage % 2 ^ 32 / 100
        ≤ p.free_fragment_count - p.fragment_watermark =
      omega (arith, most) in
    (ground (arith, less), ground (arith, less))

module _ (p : Pool) (counted : IsCounted p) (percent : p.free_percentage ≤ 100) where
  free_garbage-under :
      ltb p.fragment_watermark p.free_fragment_count ≡ false → free_garbage p ≡ some p
  unfolding free_garbage
  free_garbage-under e = rw e refl

  free_garbage-over :
      ltb p.fragment_watermark p.free_fragment_count ≡ true
      → free_garbage p ≡ free_loop (step_size p) p
  unfolding free_garbage
  free_garbage-over e = rw e refl

  -- If the counters are right and the percentage is at most 100, then `xdrmemstream_freegarbage` meets
  -- no null pointer. The counters stay right, the fragments in use stay as many, and if more than the
  -- watermark are free, then fewer are free afterwards, but not fewer than the watermark.
  pub free_garbage_lem :
      (q : Pool) × (free_garbage p ≡ some q)
      × IsCounted q
      × (q.fragment_watermark ≡ p.fragment_watermark)
      × (q.free_percentage ≡ p.free_percentage)
      × (q.fragment_count + p.free_fragment_count ≡ p.fragment_count + q.free_fragment_count)
      × (((p.free_fragment_count ≤ p.fragment_watermark) × (q ≡ p))
          ⊎ ((p.fragment_watermark ≤ q.free_fragment_count)
              × (q.free_fragment_count < p.free_fragment_count)))
  free_garbage_lem = elim (Bool-cases (ltb p.fragment_watermark p.free_fragment_count)) [
    | inl over ↦
        let above : p.fragment_watermark < p.free_fragment_count = ground (arith, over) in
        let n = step_size p in
        let (some_of, most) = step_size-bounds p percent above in
        let q = without p (drop n p.free_list) (p.free_fragment_count - n) (p.fragment_count - n) in
        (
          q,
          free_garbage-over over
              ∙ free_loop-drop p n p.free_list p.free_fragment_count p.fragment_count
                  counted.counted counted.among counted.bounded (omega (arith, most)),
          record {
            counted = omega (arith, length-drop n p.free_list, counted.counted);
            among = omega (arith, counted.among);
            bounded = omega (arith, counted.bounded);
          },
          refl,
          refl,
          omega (arith, counted.among, most),
          inr (omega (arith, most, above), omega (arith, some_of, most, above)),
        )
    | inr under ↦
        (p, free_garbage-under under, counted, refl, refl, refl, inl (ground (arith, under), refl))
  ]

-- so many steps
pub sweeps : ℕ → Pool → Option Pool
sweeps zero p = some p
sweeps (suc n) p = elim (free_garbage p) [ none ↦ none | some q ↦ sweeps n q ]

sweeps-step : (n : ℕ) (p q : Pool) → free_garbage p ≡ some q → sweeps (suc n) p ≡ sweeps n q
unfolding sweeps
sweeps-step n p q e = rw (sweeps, e) refl

-- If the counters are right and the percentage is at most 100, then as many steps of
-- `xdrmemstream_freegarbage` as there are fragments free above the watermark end, with no more free
-- than the watermark, and with as many fragments in use as before.
pub sweeps_end :
    (n : ℕ) (p : Pool)
    → IsCounted p
    → p.free_percentage ≤ 100
    → p.free_fragment_count - p.fragment_watermark ≤ n
    → (q : Pool) × (sweeps n p ≡ some q)
      × IsCounted q
      × (q.free_fragment_count ≤ p.fragment_watermark)
      × (q.fragment_count + p.free_fragment_count ≡ p.fragment_count + q.free_fragment_count)
unfolding sweeps
sweeps_end zero p counted percent enough = (p, refl, counted, omega arith, refl)
sweeps_end (suc n) p counted percent enough =
    let (q, step, counted', mark, percent', in_use, fewer) = free_garbage_lem p counted percent in
    let less : q.free_fragment_count - q.fragment_watermark ≤ n = elim fewer [
      | inl (under, same) ↦ omega (arith, mark, under, ap (λ r. r.free_fragment_count) same)
      | inr (above, below) ↦ omega (arith, mark, above, below, enough)
    ] in
    let (r, steps, counted'', down, in_use') =
      sweeps_end n q counted' (omega (arith, percent', percent)) less in
    (
      r,
      sweeps-step n p q step ∙ steps,
      counted'',
      omega (arith, down, mark),
      omega (arith, in_use, in_use'),
    )

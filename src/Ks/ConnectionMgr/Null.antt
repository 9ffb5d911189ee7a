-- ===== src/Ks/ConnectionMgr/Null.antt =====
-- `processConnections` with a connection that dies while it is served for writing.
use acplt_ks.Base.{
  ℕ, zero, suc, ◌+◌, ◌<◌, ◌≤◌, ◌≡◌, refl, ap, sym, ◌∙◌, Bool, true, false, inl, inr, none, some,
  arith, leb, ◌==◌, ==_iff, Bool-cases, subst,
}
use acplt_ks.Ks.ConnectionMgr.{IoMode, Methods, Manager, set_connection, track_step}
use acplt_ks.Ks.ConnectionMgr.Registry.{lookup_connection, remove_connection}
use acplt_ks.Ks.ConnectionMgr.Service.{call_and_track, serve, serve_loop, process_connections}
use acplt_ks.Ks.ConnectionMgr.Tracking.{
  track-keeps, update_here, track_step_connection, listed-Like,
}
use acplt_ks.Ks.ConnectionMgr.Adding.{remove_connection-some}
use acplt_ks.Ks.ConnectionMgr.Serving.{
  call_and_track-some, doom-destroys, serve-dead, serve_loop-serves, serve_loop-skips,
}

module _ {C : Type 0} (methods : Methods C) (clock : ℕ → ℕ) (fd : ℕ) where
  -- the descriptor has a connection, and the sets have their size
  abbrev Present : ℕ → Manager C → Type 0
  Present size t = (d : C) × ((t.items fd).connection ≡ some d) × (t.fdset_size ≡ size)

  track_step-Present :
      (size : ℕ) (t : Manager C) (c : C) (mode : IoMode)
      → (t.items fd).connection ≡ some c
      → Present size t
      → Present size (track_step methods clock t fd c mode)
  unfolding track_step
  track_step-Present size t c mode there present = (
    c,
    track_step_connection methods clock t fd c mode fd ∙ there,
    (listed-Like methods clock t fd c mode).size_same ∙ present.2,
  )

  set_connection-Present :
      (size : ℕ) (t : Manager C) (c d : C)
      → (t.items fd).connection ≡ some c
      → Present size t
      → Present size (set_connection t fd (some d))
  set_connection-Present size t c d there present = (
    d,
    ap (λ j. j.connection) (update_here t.items fd (record (t.items fd) { connection = some d })),
    present.2,
  )

  lookup-there :
      (t : Manager C) (d : C)
      → fd < t.fdset_size
      → (t.items fd).connection ≡ some d
      → lookup_connection t fd ≡ some d
  unfolding lookup_connection
  lookup-there t d below there =
      let fits : leb t.fdset_size fd ≡ false = ground (arith, below) in rw fits there

  remove_connection-gone :
      (t : Manager C) (d : C)
      → fd < t.fdset_size
      → (t.items fd).connection ≡ some d
      → ((remove_connection t fd).1.items fd).connection ≡ none
  remove_connection-gone t d below there =
      ap (λ r. (r.1.items fd).connection)
        (remove_connection-some t fd d (lookup-there t d below there))
      ∙ ap (λ j. j.connection) (update_here t.items fd (record (t.items fd) { connection = none }))

  module _ (all : (c : C) → methods.is_auto_destroyable c ≡ true) where
    serve-gone :
        (method : C → IoMode × C) (m : Manager C) (c : C)
        → fd < m.fdset_size
        → (m.items fd).connection ≡ some c
        → (method c).0.dead ≡ true
        → (t : Manager C) × (serve methods clock method m fd ≡ some t)
          × ((t.items fd).connection ≡ none)
    serve-gone method m c below there dies =
        let m' = set_connection m fd (some (method c).1) in
        let here : (m'.items fd).connection ≡ some (method c).1 =
          ap (λ j. j.connection)
            (update_here m.items fd (record (m.items fd) { connection = some (method c).1 })) in
        let (u, tracks, present') =
          track-keeps methods clock (Present m.fdset_size) fd (track_step-Present m.fdset_size)
            (set_connection-Present m.fdset_size) m' (method c).1 (method c).0 here
            ((method c).1, here, refl) in
        let (d, there', size) = present' in
        let calls = call_and_track-some methods clock m fd method m u c there tracks in
        (
          (remove_connection u fd).1,
          serve-dead methods clock m fd method m u (method c).0 calls dies
              ∙ doom-destroys methods clock m fd u d there' (all d),
          remove_connection-gone u d (subst (λ n. fd < n) (sym size) below) there',
        )

  serve-null :
      (method : C → IoMode × C) (m : Manager C)
      → (m.items fd).connection ≡ none
      → serve methods clock method m fd ≡ none
  unfolding serve call_and_track
  serve-null method m e = rw (serve, call_and_track, e) refl

  -- a loop in which only the one descriptor is ready
  serve_loop-past :
      (method : C → IoMode × C) (n from : ℕ) (m : Manager C)
      → fd < from
      → serve_loop methods clock method (λ i. i == fd) n from m ≡ some m
  unfolding serve_loop
  serve_loop-past method zero from m after = refl
  serve_loop-past method (suc n) from m after =
      serve_loop-skips methods clock m from method (λ i. i == fd) n (ground (arith, after))
      ∙ serve_loop-past method n (from + 1) m (omega (arith, after))

  serve_loop-only :
      (method : C → IoMode × C) (n from : ℕ) (m t : Manager C)
      → from ≤ fd
      → fd < from + n
      → serve methods clock method m fd ≡ some t
      → serve_loop methods clock method (λ i. i == fd) n from m ≡ some t
  serve_loop-only method zero from m t le lt serves = absurd (omega (arith, le, lt))
  serve_loop-only method (suc n) from m t le lt serves = elim (Bool-cases (from == fd)) [
    | inl on ↦
        let here = (==_iff from fd).0 on in
        serve_loop-serves methods clock m from method (λ i. i == fd) n t on
          (ap (serve methods clock method m) here ∙ serves)
        ∙ serve_loop-past method n (from + 1) t (omega (arith, here))
    | inr off ↦
        serve_loop-skips methods clock m from method (λ i. i == fd) n off
        ∙ serve_loop-only method n (from + 1) m t (ground (arith, le, off)) (omega (arith, lt))
            serves
  ]

  serve_loop-fails :
      (method : C → IoMode × C) (n : ℕ) (m : Manager C)
      → serve methods clock method m fd ≡ none
      → serve_loop methods clock method (λ i. i == fd) (suc n) fd m ≡ none
  unfolding serve_loop
  serve_loop-fails method n m fails =
      let on : (fd == fd) ≡ true = ground arith in rw (serve_loop, on, fails) refl

  serve_loop-null :
      (method : C → IoMode × C) (n from : ℕ) (m : Manager C)
      → from ≤ fd
      → fd < from + n
      → serve methods clock method m fd ≡ none
      → serve_loop methods clock method (λ i. i == fd) n from m ≡ none
  serve_loop-null method zero from m le lt fails = absurd (omega (arith, le, lt))
  serve_loop-null method (suc n) from m le lt fails = elim (Bool-cases (from == fd)) [
    | inl on ↦
        subst (λ k. serve_loop methods clock method (λ i. i == fd) (suc n) k m ≡ none)
          (sym ((==_iff from fd).0 on)) (serve_loop-fails method n m fails)
    | inr off ↦
        serve_loop-skips methods clock m from method (λ i. i == fd) n off
        ∙ serve_loop-null method n (from + 1) m (ground (arith, le, off)) (omega (arith, lt)) fails
  ]

  process_connections-fails :
      (m t : Manager C) (readables writeables : ℕ → Bool)
      → serve_loop methods clock methods.send writeables m.fdset_size 0 m ≡ some t
      → serve_loop methods clock methods.receive readables m.fdset_size 0 t ≡ none
      → process_connections methods clock m readables writeables ≡ none
  unfolding process_connections
  process_connections-fails m t readables writeables e e' = rw (process_connections, e, e') refl

  -- If all connections may be destroyed and one of them is ready for reading and for writing, and finds
  -- when it sends that it is dead, then `processConnections` follows a null pointer.
  pub process_connections-null :
      (m : Manager C) (c : C)
      → ((d : C) → methods.is_auto_destroyable d ≡ true)
      → fd < m.fdset_size
      → (m.items fd).connection ≡ some c
      → (methods.send c).0.dead ≡ true
      → process_connections methods clock m (λ i. i == fd) (λ i. i == fd) ≡ none
  process_connections-null m c all below there dies =
      let (t, serves, gone) = serve-gone all methods.send m c below there dies in
      process_connections-fails m t (λ i. i == fd) (λ i. i == fd)
        (serve_loop-only methods.send m.fdset_size 0 m t (omega arith) (omega (arith, below))
          serves)
        (serve_loop-null methods.receive m.fdset_size 0 t (omega arith) (omega (arith, below))
          (serve-null methods.receive t gone))

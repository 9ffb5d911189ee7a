-- ===== src/Ks/ConnectionMgr/Serving.antt =====
-- `processConnections` with the sets of descriptors and the number of connections.
use mathlib.Core.Bool.{true≢false}
use acplt_ks.Base.{
  ℕ, zero, suc, ◌+◌, ◌≤◌, ◌≡◌, ◌≢◌, refl, ap, sym, ◌∙◌, Bool, true, false, inl, inr, some, arith,
  Bool-cases,
}
use acplt_ks.Ks.ConnectionMgr.{
  IoMode, Methods, ConnectionItem, Manager, set_connection, track, track_step,
}
use acplt_ks.Ks.ConnectionMgr.Registry.{remove_connection}
use acplt_ks.Ks.ConnectionMgr.Service.{call_and_track, doom, serve, serve_loop, process_connections}
use acplt_ks.Ks.ConnectionMgr.Tracking.{
  track-keeps, update_here, update_there, track_step_connection,
}
use acplt_ks.Ks.ConnectionMgr.Sets.{IsTracked, track_step-IsTracked, set_connection-IsTracked}
use acplt_ks.Ks.ConnectionMgr.Adding.{remove_connection-IsTracked, remove_connection_there}

module _ {C : Type 0} (methods : Methods C) (clock : ℕ → ℕ) where
  -- the sets and the number are right, and the other connections are those of `m`
  abbrev pub Kept : Manager C → ℕ → Manager C → Type 0
  Kept m fd t = IsTracked 0 t × ((i : ℕ) → i ≢ fd → (t.items i).connection ≡ (m.items i).connection)

  -- the connection itself is there, too
  abbrev Alive : Manager C → ℕ → Manager C → Type 0
  Alive m fd t = Kept m fd t × (d : C) × ((t.items fd).connection ≡ some d)

  module _ (m : Manager C) (fd : ℕ) where
    track_step-Alive :
        (t : Manager C) (c : C) (mode : IoMode)
        → (t.items fd).connection ≡ some c
        → Alive m fd t
        → Alive m fd (track_step methods clock t fd c mode)
    track_step-Alive t c mode there alive = (
      (
        track_step-IsTracked methods clock 0 t fd c mode there alive.0.0,
        λ i. λ other. track_step_connection methods clock t fd c mode i ∙ alive.0.1 i other,
      ),
      c,
      track_step_connection methods clock t fd c mode fd ∙ there,
    )

    set_connection-Alive :
        (t : Manager C) (c d : C)
        → (t.items fd).connection ≡ some c
        → Alive m fd t
        → Alive m fd (set_connection t fd (some d))
    set_connection-Alive t c d there alive =
        let item : ConnectionItem C = record (t.items fd) { connection = some d } in
        (
          (
            set_connection-IsTracked 0 t fd c d there alive.0.0,
            λ i. λ other.
                ap (λ j. j.connection) (update_there t.items fd i item other) ∙ alive.0.1 i other,
          ),
          d,
          ap (λ j. j.connection) (update_here t.items fd item),
        )

    pub call_and_track-some :
        (method : C → IoMode × C) (t u : Manager C) (c : C)
        → (t.items fd).connection ≡ some c
        → track methods clock 2 (set_connection t fd (some (method c).1)) fd (method c).0 ≡ some u
        → call_and_track methods clock method t fd ≡ some ((method c).0, u)
    unfolding call_and_track
    call_and_track-some method t u c e e' = rw (call_and_track, e, e') refl

    call_and_track-Alive :
        (method : C → IoMode × C) (t : Manager C)
        → Alive m fd t
        → (mode : IoMode) × (u : Manager C) × (call_and_track methods clock method t fd
            ≡ some (mode, u))
          × Alive m fd u
    call_and_track-Alive method t alive =
        let (kept, c, there) = alive in
        let (mode, d) = method c in
        let t' = set_connection t fd (some d) in
        let alive' = set_connection-Alive t c d there alive in
        let (u, tracks, alive'') =
          track-keeps methods clock (Alive m fd) fd track_step-Alive set_connection-Alive t' d mode
            (ap (λ j. j.connection)
              (update_here t.items fd (record (t.items fd) { connection = some d })))
            alive' in
        (mode, u, call_and_track-some method t u c there tracks, alive'')

    pub doom-destroys :
        (t : Manager C) (c : C)
        → (t.items fd).connection ≡ some c
        → methods.is_auto_destroyable c ≡ true
        → doom methods clock t fd ≡ some (remove_connection t fd).1
    unfolding doom
    doom-destroys t c e e' = rw (doom, e, e') refl

    doom-resets :
        (t u : Manager C) (c : C) (mode : IoMode)
        → (t.items fd).connection ≡ some c
        → methods.is_auto_destroyable c ≡ false
        → call_and_track methods clock methods.reset t fd ≡ some (mode, u)
        → doom methods clock t fd ≡ some u
    unfolding doom
    doom-resets t u c mode e e' e'' = rw (doom, e, e', e'') refl

    pub doom-Kept :
        (t : Manager C)
        → Alive m fd t
        → (u : Manager C) × (doom methods clock t fd ≡ some u) × Kept m fd u
    doom-Kept t alive =
        let (kept, c, there) = alive in
        elim (Bool-cases (methods.is_auto_destroyable c)) [
          | inl may ↦ (
            (remove_connection t fd).1,
            doom-destroys t c there may,
            (
              remove_connection-IsTracked t fd alive.0.0,
              λ i. λ other. remove_connection_there t fd i other ∙ alive.0.1 i other,
            ),
          )
          | inr may_not ↦
              let (mode, u, calls, alive') = call_and_track-Alive methods.reset t alive in
              (u, doom-resets t u c mode there may_not calls, alive'.0)
        ]

    pub serve-dead :
        (method : C → IoMode × C) (t u : Manager C) (mode : IoMode)
        → call_and_track methods clock method t fd ≡ some (mode, u)
        → mode.dead ≡ true
        → serve methods clock method t fd ≡ doom methods clock u fd
    unfolding serve
    serve-dead method t u mode e e' = rw (serve, e, e') refl

    serve-alive :
        (method : C → IoMode × C) (t u : Manager C) (mode : IoMode)
        → call_and_track methods clock method t fd ≡ some (mode, u)
        → mode.dead ≡ false
        → serve methods clock method t fd ≡ some u
    unfolding serve
    serve-alive method t u mode e e' = rw (serve, e, e') refl

    pub serve-Kept :
        (method : C → IoMode × C) (c : C)
        → (m.items fd).connection ≡ some c
        → IsTracked 0 m
        → (t : Manager C) × (serve methods clock method m fd ≡ some t) × Kept m fd t
    serve-Kept method c there tracked =
        let (mode, t, calls, alive) =
          call_and_track-Alive method m ((tracked, λ i. λ other. refl), c, there) in
        elim (Bool-cases mode.dead) [
          | inr lives ↦ (t, serve-alive method m t mode calls lives, alive.0)
          | inl dies ↦
              let (u, dooms, kept) = doom-Kept t alive in
              (u, serve-dead method m t mode calls dies ∙ dooms, kept)
        ]

    pub serve_loop-serves :
        (method : C → IoMode × C) (ready : ℕ → Bool) (n : ℕ) (t : Manager C)
        → ready fd ≡ true
        → serve methods clock method m fd ≡ some t
        → serve_loop methods clock method ready (suc n) fd m
          ≡ serve_loop methods clock method ready n (fd + 1) t
    unfolding serve_loop
    serve_loop-serves method ready n t e e' = rw (serve_loop, e, e') refl

    pub serve_loop-skips :
        (method : C → IoMode × C) (ready : ℕ → Bool) (n : ℕ)
        → ready fd ≡ false
        → serve_loop methods clock method ready (suc n) fd m
          ≡ serve_loop methods clock method ready n (fd + 1) m
    unfolding serve_loop
    serve_loop-skips method ready n e = rw (serve_loop, e) refl

  -- every descriptor that is ready from `fd` on has a connection
  abbrev Connected : (ℕ → Bool) → ℕ → Manager C → Type 0
  Connected ready fd m =
      (i : ℕ) → fd ≤ i → ready i ≡ true → (c : C) × ((m.items i).connection ≡ some c)

  -- the sets and the number are right, and the connections that were not ready are those of `m`
  abbrev Served : (ℕ → Bool) → Manager C → Manager C → Type 0
  Served ready m t =
      IsTracked 0 t × ((i : ℕ) → ready i ≡ false → (t.items i).connection ≡ (m.items i).connection)

  serve_loop-Served :
      (method : C → IoMode × C) (ready : ℕ → Bool) (n fd : ℕ) (m : Manager C)
      → IsTracked 0 m
      → Connected ready fd m
      → (t : Manager C) × (serve_loop methods clock method ready n fd m ≡ some t) × Served ready m t
  unfolding serve_loop
  serve_loop-Served method ready zero fd m tracked connected =
      (m, refl, (tracked, λ i. λ off. refl))
  serve_loop-Served method ready (suc n) fd m tracked connected = elim (Bool-cases (ready fd)) [
    | inr off ↦
        let (t, runs, served) =
          serve_loop-Served method ready n (fd + 1) m tracked
            (λ i. λ le. λ on. connected i (omega (arith, le)) on) in
        (t, serve_loop-skips m fd method ready n off ∙ runs, served)
    | inl on ↦
        let (c, there) = connected fd (omega arith) on in
        let (t, serves, kept) = serve-Kept m fd method c there tracked in
        let (u, runs, served) = serve_loop-Served method ready n (fd + 1) t kept.0 (λ i. λ le.
          λ on'.
            let (d, there') = connected i (omega (arith, le)) on' in
            (d, kept.1 i (λ e. absurd (omega (arith, le, e))) ∙ there')) in
        (
          u,
          serve_loop-serves m fd method ready n t on serves ∙ runs,
          (
            served.0,
            λ i. λ off.
                served.1 i off ∙ kept.1 i (λ e. true≢false (sym on ∙ ap ready (sym e) ∙ off)),
          ),
        )
  ]

  process_connections-steps :
      (m t u : Manager C) (readables writeables : ℕ → Bool)
      → serve_loop methods clock methods.send writeables m.fdset_size 0 m ≡ some t
      → serve_loop methods clock methods.receive readables m.fdset_size 0 t ≡ some u
      → process_connections methods clock m readables writeables ≡ some (u.serviceable_count, u)
  unfolding process_connections
  process_connections-steps m t u readables writeables e e' = rw (process_connections, e, e') refl

  -- If all descriptors that are ready have a connection and none is ready for both, then
  -- `processConnections` meets no null pointer. Afterwards the sets agree with the last modes of the
  -- connections that are there, the number of connections is right, and the connections that were not
  -- ready are as they were.
  pub process_connections-IsTracked :
      (m : Manager C) (readables writeables : ℕ → Bool)
      → IsTracked 0 m
      → ((i : ℕ) → readables i ≡ true → (c : C) × ((m.items i).connection ≡ some c))
      → ((i : ℕ) → writeables i ≡ true → (c : C) × ((m.items i).connection ≡ some c))
      → ((i : ℕ) → readables i ≡ true → writeables i ≡ false)
      → (t : Manager C) × (process_connections methods clock m readables writeables
          ≡ some (t.serviceable_count, t))
        × IsTracked 0 t
        × ((i : ℕ)
            → readables i ≡ false
            → writeables i ≡ false
            → (t.items i).connection ≡ (m.items i).connection)
  process_connections-IsTracked m readables writeables tracked can_read can_write apart =
      let (t, sends, served) =
        serve_loop-Served methods.send writeables m.fdset_size 0 m tracked
          (λ i. λ le. λ on. can_write i on) in
      let (u, receives, served') =
        serve_loop-Served methods.receive readables m.fdset_size 0 t served.0 (λ i.
          λ le. λ on. let (c, there) = can_read i on in (c, served.1 i (apart i on) ∙ there)) in
      (
        u,
        process_connections-steps m t u readables writeables sends receives,
        served'.0,
        λ i. λ off. λ off'. served'.1 i off ∙ served.1 i off',
      )

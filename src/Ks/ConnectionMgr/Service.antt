-- ===== src/Ks/ConnectionMgr/Service.antt =====
-- Serving connections that are ready for i/o, that have timed out or that are to be shut down, in
-- ks/src/connectionmgr.cpp.
use acplt_ks.Base.{
  ℕ, zero, suc, ◌+◌, ◌-◌, Bool, true, false, not, ◌&&◌, ◌||◌, List, [], ◌∷◌, Option, none, some,
  if◌then◌else◌, leb, ltb, ◌==◌,
}
use acplt_ks.Ks.ConnectionMgr.{IoMode, Methods, Manager, set_connection, track}
use acplt_ks.Ks.ConnectionMgr.Registry.{remove_connection, next_active}

-- the neighbour of a node in the direction of `_next`; the head if it is the end
abbrev pub next_of : ℕ → List ℕ → Option ℕ
next_of fd [] = none
next_of fd (x ∷ xs) = elim xs [ [] ↦ none | y ∷ ys ↦ if y == fd then some x else next_of fd xs ]

-- what `select` answers
pub data Selected : Type 0 where
  ready_fds : (ℕ → Bool) → Selected
  interrupted failed : Selected

module _ {C : Type 0} (methods : Methods C) (clock : ℕ → ℕ) where
  -- a call of a method that gives an i/o mode, and `trackCnxIoMode` with it
  unfoldable pub call_and_track : (C → IoMode × C) → Manager C → ℕ → Option (IoMode × Manager C)
  unfolding track
  call_and_track method m fd = elim (m.items fd).connection [
    | none ↦ none
    | some c ↦
        let (mode, d) = method c in
        elim (track methods clock 2 (set_connection m fd (some d)) fd mode) [
          | none ↦ none
          | some t ↦ some (mode, t)
        ]
  ]

  -- a connection that is to be served no more is destroyed or reset
  unfoldable pub doom : Manager C → ℕ → Option (Manager C)
  unfolding call_and_track remove_connection
  doom m fd = elim (m.items fd).connection [
    | none ↦ none
    | some c ↦
        if methods.is_auto_destroyable c
        then some (remove_connection m fd).1
        else elim (call_and_track methods.reset m fd) [ none ↦ none | some r ↦ some r.1 ]
  ]

  -- one descriptor of the loops of `processConnections`
  unfoldable pub serve : (C → IoMode × C) → Manager C → ℕ → Option (Manager C)
  unfolding call_and_track doom
  serve method m fd = elim (call_and_track method m fd) [
    | none ↦ none
    | some (mode, t) ↦ if mode.dead then doom t fd else some t
  ]

  -- such a loop, for so many descriptors from `fd` on
  unfoldable pub serve_loop : (C → IoMode × C) → (ℕ → Bool) → ℕ → ℕ → Manager C → Option (Manager C)
  unfolding serve
  serve_loop method ready zero fd m = some m
  serve_loop method ready (suc n) fd m =
      if ready fd
      then elim (serve method m fd) [ none ↦ none | some t ↦ serve_loop method ready n (fd + 1) t ]
      else serve_loop method ready n (fd + 1) m

  -- `processConnections`: `_serviceable_count` and the manager
  unfoldable pub process_connections : Manager C → (ℕ → Bool) → (ℕ → Bool) → Option (ℕ × Manager C)
  unfolding serve_loop
  process_connections m readables writeables =
      elim (serve_loop methods.send writeables m.fdset_size 0 m) [
        | none ↦ none
        | some t ↦ elim (serve_loop methods.receive readables m.fdset_size 0 t) [
          | none ↦ none
          | some u ↦ some (u.serviceable_count, u)
        ]
      ]

  -- the loop of `processTimeout` in so many rounds, from the item `fd` on
  unfoldable pub timeout_loop : ℕ → ℕ → Option ℕ → Manager C → Option (Manager C)
  unfolding serve
  timeout_loop rounds now none m = some m
  timeout_loop zero now (some fd) m = none
  timeout_loop (suc rounds) now (some fd) m =
      let next = next_of fd m.active in
      if leb (m.items fd).best_before now
      then elim (serve methods.timed_out m fd) [
        | none ↦ none
        | some t ↦ timeout_loop rounds now next t
      ]
      else some m

  -- `processTimeout`, in so many rounds
  unfoldable pub process_timeout : ℕ → Manager C → Option (Manager C)
  unfolding timeout_loop
  process_timeout rounds m =
      let first : Option ℕ = elim m.active [ [] ↦ none | fd ∷ fds ↦ some (next_active fd fds) ] in
      timeout_loop rounds (clock m.readings) first (record m { readings = m.readings + 1 })

  -- the first loop of `shutdownConnections`: the connections that want to send are counted, and of the
  -- others those are closed that may be
  unfoldable pub shutdown_loop : ℕ → ℕ → ℕ → Manager C → ℕ × Manager C
  unfolding remove_connection
  shutdown_loop zero fd pending m = (pending, m)
  shutdown_loop (suc n) fd pending m = elim (m.items fd).connection [
    | none ↦ shutdown_loop n (fd + 1) pending m
    | some c ↦
        if (methods.get_io_mode c).writeable && not (methods.is_connecting c)
        then shutdown_loop n (fd + 1) (pending + 1) m
        else if methods.is_auto_destroyable c
        then shutdown_loop n (fd + 1) pending (remove_connection m fd).1
        else shutdown_loop n (fd + 1) pending m
  ]

  -- the inner loop over the descriptors that can be written to; `pending` may run below zero, where it
  -- ends the outer loop as zero does
  unfoldable pub flush_loop : (ℕ → Bool) → ℕ → ℕ → ℕ → Manager C → Option (ℕ × Manager C)
  unfolding call_and_track doom
  flush_loop ready zero fd pending m = some (pending, m)
  flush_loop ready (suc n) fd pending m =
      if ready fd
      then elim (call_and_track methods.send m fd) [
        | none ↦ none
        | some (mode, t) ↦
            if mode.dead || not mode.writeable
            then elim (doom t fd) [
              | none ↦ none
              | some u ↦ flush_loop ready n (fd + 1) (pending - 1) u
            ]
            else flush_loop ready n (fd + 1) pending t
      ]
      else flush_loop ready n (fd + 1) pending m

  -- the outer loop of `shutdownConnections`, over the answers of `select`; `none` behind the last one
  unfoldable pub wait_loop : ℕ → List Selected → ℕ → Manager C → Option (Bool × Manager C)
  unfolding flush_loop
  wait_loop doomsday answers zero m = some (true, m)
  wait_loop doomsday [] (suc pending) m = none
  wait_loop doomsday (answer ∷ answers) (suc pending) m =
      let now = clock m.readings in
      let t : Manager C = record m { readings = m.readings + 1 } in
      if ltb doomsday now then some (false, t) else elim answer [
        | interrupted ↦ wait_loop doomsday answers (suc pending) t
        | failed ↦ some (false, t)
        | ready_fds ready ↦ elim (flush_loop ready t.fdset_size 0 (suc pending) t) [
          | none ↦ none
          | some (left, u) ↦ wait_loop doomsday answers left u
        ]
      ]

  -- `shutdownConnections`
  unfoldable pub shutdown_connections : ℕ → List Selected → Manager C → Option (Bool × Manager C)
  unfolding shutdown_loop wait_loop
  shutdown_connections span answers m =
      let (pending, t) = shutdown_loop m.fdset_size 0 0 m in
      wait_loop (clock t.readings + span) answers pending (record t { readings = t.readings + 1 })

  -- the destructor
  pub close_loop : ℕ → ℕ → Manager C → Manager C
  unfolding remove_connection
  close_loop zero fd m = m
  close_loop (suc n) fd m = elim (m.items fd).connection [
    | none ↦ close_loop n (fd + 1) m
    | some c ↦
        if methods.is_auto_destroyable c
        then close_loop n (fd + 1) (remove_connection m fd).1
        else close_loop n (fd + 1) m
  ]

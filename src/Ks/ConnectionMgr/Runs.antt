-- ===== src/Ks/ConnectionMgr/Runs.antt =====
-- Runs of the manager: the operations in any order, and what all runs keep.
use acplt_ks.Base.{
  ℕ, zero, suc, ◌+◌, ◌-◌, ◌≡◌, refl, Bool, true, false, not, ◌&&◌, ◌||◌, List, [], ◌∷◌, Option,
  none, some, if◌then◌else◌, ltb,
}
use acplt_ks.Base.Outcomes.{On, On-bind}
use acplt_ks.Ks.ConnectionMgr.{Methods, Manager, set_connection, track}
use acplt_ks.Ks.ConnectionMgr.Registry.{
  lookup_connection, remove_connection, track_connection, reset_connection, still_alive, bury,
}
use acplt_ks.Ks.ConnectionMgr.Service.{
  Selected, ready_fds, interrupted, failed, call_and_track, doom, shutdown_loop, flush_loop,
  wait_loop, shutdown_connections,
}
use acplt_ks.Ks.ConnectionMgr.Tracking.{if-elim}
use acplt_ks.Ks.ConnectionMgr.Adding.{lookup-inside}
use acplt_ks.Ks.ConnectionMgr.Keeping.{IsClosed, track-On, call_and_track-On, doom-On}

Option-elim :
    {A B : Type 0} (P : B → Type 0) (o : Option A) (x : B) (f : A → B)
    → P x
    → ((a : A) → o ≡ some a → P (f a))
    → P (elim o [ none ↦ x | some a ↦ f a ])
Option-elim P none x f h g = h
Option-elim P (some a) x f h g = g a refl

module _ {C : Type 0} (methods : Methods C) (clock : ℕ → ℕ) where
  module _ (P : Manager C → Type 0) (closed : IsClosed methods clock P) where
    shutdown_loop-keeps :
        (n fd pending : ℕ) (m : Manager C) → P m → P (shutdown_loop methods clock n fd pending m).1
    unfolding shutdown_loop
    shutdown_loop-keeps zero fd pending m holds = holds
    shutdown_loop-keeps (suc n) fd pending m holds =
        Option-elim (λ r. P r.1) (m.items fd).connection
          (shutdown_loop methods clock n (fd + 1) pending m)
          (λ c.
            if (methods.get_io_mode c).writeable && not (methods.is_connecting c)
            then shutdown_loop methods clock n (fd + 1) (pending + 1) m
            else if methods.is_auto_destroyable c
            then shutdown_loop methods clock n (fd + 1) pending (remove_connection m fd).1
            else shutdown_loop methods clock n (fd + 1) pending m)
          (shutdown_loop-keeps n (fd + 1) pending m holds)
          (λ c. λ there.
            if-elim (λ r. P r.1)
              ((methods.get_io_mode c).writeable && not (methods.is_connecting c))
              (shutdown_loop methods clock n (fd + 1) (pending + 1) m)
              (if methods.is_auto_destroyable c
                then shutdown_loop methods clock n (fd + 1) pending (remove_connection m fd).1
                else shutdown_loop methods clock n (fd + 1) pending m)
              (shutdown_loop-keeps n (fd + 1) (pending + 1) m holds)
              (if-elim (λ r. P r.1) (methods.is_auto_destroyable c)
                (shutdown_loop methods clock n (fd + 1) pending (remove_connection m fd).1)
                (shutdown_loop methods clock n (fd + 1) pending m)
                (shutdown_loop-keeps n (fd + 1) pending (remove_connection m fd).1
                  (closed.removes m fd holds))
                (shutdown_loop-keeps n (fd + 1) pending m holds)))

    flush_loop-On :
        (ready : ℕ → Bool) (n fd pending : ℕ) (m : Manager C)
        → P m
        → On (λ r. P r.1) (flush_loop methods clock ready n fd pending m)
    unfolding flush_loop On
    flush_loop-On ready zero fd pending m holds = holds
    flush_loop-On ready (suc n) fd pending m holds =
        if-elim (On (λ r. P r.1)) (ready fd)
          (elim (call_and_track methods clock methods.send m fd) [
            | none ↦ none
            | some x ↦
                if x.0.dead || not x.0.writeable
                then elim (doom methods clock x.1 fd) [
                  | none ↦ none
                  | some u ↦ flush_loop methods clock ready n (fd + 1) (pending - 1) u
                ]
                else flush_loop methods clock ready n (fd + 1) pending x.1
          ])
          (flush_loop methods clock ready n (fd + 1) pending m)
          (On-bind (λ r. P r.1) (λ r. P r.1) (call_and_track methods clock methods.send m fd)
            (λ x.
              if x.0.dead || not x.0.writeable
              then elim (doom methods clock x.1 fd) [
                | none ↦ none
                | some u ↦ flush_loop methods clock ready n (fd + 1) (pending - 1) u
              ]
              else flush_loop methods clock ready n (fd + 1) pending x.1)
            (call_and_track-On methods clock P closed methods.send m fd holds)
            (λ x. λ h.
              if-elim (On (λ r. P r.1)) (x.0.dead || not x.0.writeable)
                (elim (doom methods clock x.1 fd) [
                  | none ↦ none
                  | some u ↦ flush_loop methods clock ready n (fd + 1) (pending - 1) u
                ])
                (flush_loop methods clock ready n (fd + 1) pending x.1)
                (On-bind P (λ r. P r.1) (doom methods clock x.1 fd)
                  (λ u. flush_loop methods clock ready n (fd + 1) (pending - 1) u)
                  (doom-On methods clock P closed x.1 fd h)
                  (λ u. λ h'. flush_loop-On ready n (fd + 1) (pending - 1) u h'))
                (flush_loop-On ready n (fd + 1) pending x.1 h)))
          (flush_loop-On ready n (fd + 1) pending m holds)

    wait_loop-On :
        (doomsday : ℕ) (answers : List Selected) (pending : ℕ) (m : Manager C)
        → P m
        → On (λ r. P r.1) (wait_loop methods clock doomsday answers pending m)
    unfolding wait_loop On
    wait_loop-On doomsday [] zero m holds = holds
    wait_loop-On doomsday (answer ∷ answers) zero m holds = holds
    wait_loop-On doomsday [] (suc pending) m holds = tt
    wait_loop-On doomsday (interrupted ∷ answers) (suc pending) m holds =
        let t : Manager C = record m { readings = m.readings + 1 } in
        let held = closed.reads m (m.readings + 1) holds in
        if-elim (On (λ r. P r.1)) (ltb doomsday (clock m.readings)) (some (false, t))
          (wait_loop methods clock doomsday answers (suc pending) t) held
          (wait_loop-On doomsday answers (suc pending) t held)
    wait_loop-On doomsday (failed ∷ answers) (suc pending) m holds =
        let t : Manager C = record m { readings = m.readings + 1 } in
        let held = closed.reads m (m.readings + 1) holds in
        if-elim (On (λ r. P r.1)) (ltb doomsday (clock m.readings)) (some (false, t))
          (some (false, t)) held held
    wait_loop-On doomsday (ready_fds ready ∷ answers) (suc pending) m holds =
        let t : Manager C = record m { readings = m.readings + 1 } in
        let held = closed.reads m (m.readings + 1) holds in
        if-elim (On (λ r. P r.1)) (ltb doomsday (clock m.readings)) (some (false, t))
          (elim (flush_loop methods clock ready t.fdset_size 0 (suc pending) t) [
            | none ↦ none
            | some x ↦ wait_loop methods clock doomsday answers x.0 x.1
          ])
          held
          (On-bind (λ r. P r.1) (λ r. P r.1)
            (flush_loop methods clock ready t.fdset_size 0 (suc pending) t)
            (λ x. wait_loop methods clock doomsday answers x.0 x.1)
            (flush_loop-On ready t.fdset_size 0 (suc pending) t held)
            (λ x. λ h. wait_loop-On doomsday answers x.0 x.1 h))

    pub shutdown_connections-On :
        (span : ℕ) (answers : List Selected) (m : Manager C)
        → P m
        → On (λ r. P r.1) (shutdown_connections methods clock span answers m)
    unfolding shutdown_connections
    shutdown_connections-On span answers m holds =
        let (pending, t) = shutdown_loop methods clock m.fdset_size 0 0 m in
        wait_loop-On (clock t.readings + span) answers pending
          (record t { readings = t.readings + 1 })
          (closed.reads t (t.readings + 1) (shutdown_loop-keeps m.fdset_size 0 0 m holds))

    -- a dead connection is removed, or reset
    abbrev dying : Manager C → ℕ → Bool → Bool × Manager C
    dying m fd b = if b then (true, bury methods clock m fd) else (
      false,
      elim (m.items fd).connection [
        | none ↦ m
        | some d ↦ set_connection m fd (some (methods.reset d).1)
      ],
    )

    abbrev buried : Manager C → ℕ → Bool → Bool × Manager C
    buried m fd b = if b then (true, bury methods clock m fd) else (false, m)

    dying-keeps : (m : Manager C) (fd : ℕ) (b : Bool) → P m → P (dying m fd b).1
    dying-keeps m fd true holds = closed.removes m fd holds
    dying-keeps m fd false holds =
        Option-elim P (m.items fd).connection m
          (λ d. set_connection m fd (some (methods.reset d).1)) holds
          (λ d. λ there. closed.sets m fd d (methods.reset d).1 there holds)

    buried-keeps : (m : Manager C) (fd : ℕ) (b : Bool) → P m → P (buried m fd b).1
    buried-keeps m fd true holds = closed.removes m fd holds
    buried-keeps m fd false holds = holds

    pub track_connection-On :
        (m : Manager C) (fd : ℕ) → P m → On (λ r. P r.1) (track_connection methods clock m fd)
    unfolding track_connection On
    track_connection-On m fd holds =
        let after : C → Manager C → Bool × Manager C = λ c. λ t.
          if methods.is_auto_destroyable c then (true, bury methods clock t fd) else (
            false,
            elim (t.items fd).connection [
              | none ↦ t
              | some d ↦ set_connection t fd (some (methods.reset d).1)
            ],
          ) in
        let end_of : C → Manager C → Option (Bool × Manager C) =
          λ c. λ t. some (if still_alive methods clock t fd then (true, t) else after c t) in
        Option-elim (On (λ r. P r.1)) (lookup_connection m fd) (some (false, m))
          (λ c.
            if methods.is_dead c
            then some (after c m)
            else elim (track methods clock 2 m fd (methods.get_io_mode c)) [
              | none ↦ none
              | some t ↦ end_of c t
            ])
          holds
          (λ c. λ there.
            if-elim (On (λ r. P r.1)) (methods.is_dead c) (some (after c m))
              (elim (track methods clock 2 m fd (methods.get_io_mode c)) [
                | none ↦ none
                | some t ↦ end_of c t
              ])
              (dying-keeps m fd (methods.is_auto_destroyable c) holds)
              (On-bind P (λ r. P r.1) (track methods clock 2 m fd (methods.get_io_mode c))
                (end_of c) (track-On methods clock P closed 2 m fd (methods.get_io_mode c) holds)
                (λ t. λ h.
                  if-elim (λ r. P r.1) (still_alive methods clock t fd) (true, t) (after c t) h
                    (dying-keeps t fd (methods.is_auto_destroyable c) h))))

    pub reset_connection-On :
        (m : Manager C) (fd : ℕ) → P m → On (λ r. P r.1) (reset_connection methods clock m fd)
    unfolding reset_connection On
    reset_connection-On m fd holds =
        let after : C → Manager C → Bool × Manager C = λ c. λ t.
          if methods.is_auto_destroyable c then (true, bury methods clock t fd) else (false, t) in
        let end_of : C → Manager C → Option (Bool × Manager C) =
          λ c. λ t. some (if still_alive methods clock t fd then (true, t) else after c t) in
        let again : C → Manager C = λ c. set_connection m fd (some (methods.reset c).1) in
        Option-elim (On (λ r. P r.1)) (lookup_connection m fd) (some (false, m))
          (λ c.
            if methods.is_dead c
            then some (after c m)
            else elim (track methods clock 2 (again c) fd (methods.reset c).0) [
              | none ↦ none
              | some t ↦ end_of c t
            ])
          holds
          (λ c. λ there.
            if-elim (On (λ r. P r.1)) (methods.is_dead c) (some (after c m))
              (elim (track methods clock 2 (again c) fd (methods.reset c).0) [
                | none ↦ none
                | some t ↦ end_of c t
              ])
              (buried-keeps m fd (methods.is_auto_destroyable c) holds)
              (On-bind P (λ r. P r.1) (track methods clock 2 (again c) fd (methods.reset c).0)
                (end_of c)
                (track-On methods clock P closed 2 (again c) fd (methods.reset c).0
                  (closed.sets m fd c (methods.reset c).1 (lookup-inside m fd c there).1 holds))
                (λ t. λ h.
                  if-elim (λ r. P r.1) (still_alive methods clock t fd) (true, t) (after c t) h
                    (buried-keeps t fd (methods.is_auto_destroyable c) h))))

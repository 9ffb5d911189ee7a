-- ===== src/Ks/ConnectionMgr/Keeping.antt =====
-- What every operation of the manager keeps, and so every run.
use acplt_ks.Base.{ℕ, zero, suc, ◌+◌, ◌≡◌, ◌∙◌, Bool, Option, none, some, if◌then◌else◌, leb}
use acplt_ks.Base.Outcomes.{On, On-bind, On-self}
use acplt_ks.Ks.ConnectionMgr.{
  IoMode, Methods, Manager, fastwrite, set_connection, track_step, track,
}
use acplt_ks.Ks.ConnectionMgr.Registry.{remove_connection, get_next_serviceable}
use acplt_ks.Ks.ConnectionMgr.Service.{
  call_and_track, doom, serve, serve_loop, process_connections, timeout_loop, next_of,
}
use acplt_ks.Ks.ConnectionMgr.Tracking.{if-elim, track_step_connection}

module _ {C : Type 0} (methods : Methods C) (clock : ℕ → ℕ) where
  -- what the parts of the operations keep
  pub record IsClosed (P : Manager C → Type 0) : Type 0 where
    pub steps :
        (m : Manager C) (fd : ℕ) (c : C) (mode : IoMode)
        → (m.items fd).connection ≡ some c
        → P m
        → P (track_step methods clock m fd c mode)
    pub sets :
        (m : Manager C) (fd : ℕ) (c d : C)
        → (m.items fd).connection ≡ some c
        → P m
        → P (set_connection m fd (some d))
    pub removes : (m : Manager C) (fd : ℕ) → P m → P (remove_connection m fd).1
    pub reads : (m : Manager C) (n : ℕ) → P m → P (record m { readings = n })
    pub looks : (m : Manager C) → P m → P (get_next_serviceable m).1

  module _ (P : Manager C → Type 0) (closed : IsClosed P) where
    pub track-On :
        (calls : ℕ) (m : Manager C) (fd : ℕ) (mode : IoMode)
        → P m
        → On P (track methods clock calls m fd mode)
    unfolding track On
    track-On zero m fd mode holds = tt
    track-On (suc calls) m fd mode holds =
        On-bind (λ c. (m.items fd).connection ≡ some c) P (m.items fd).connection
          (λ c.
            if fastwrite (m.items fd).last_io_mode mode
            then track methods clock calls
                (set_connection (track_step methods clock m fd c mode) fd (some (methods.send c).1))
                fd (methods.send c).0
            else some (track_step methods clock m fd c mode))
          (On-self (m.items fd).connection)
          (λ c. λ there.
            let held = closed.steps m fd c mode there holds in
            if-elim (On P) (fastwrite (m.items fd).last_io_mode mode)
              (track methods clock calls
                (set_connection (track_step methods clock m fd c mode) fd (some (methods.send c).1))
                fd (methods.send c).0)
              (some (track_step methods clock m fd c mode))
              (track-On calls
                (set_connection (track_step methods clock m fd c mode) fd (some (methods.send c).1))
                fd (methods.send c).0
                (closed.sets (track_step methods clock m fd c mode) fd c (methods.send c).1
                  (track_step_connection methods clock m fd c mode fd ∙ there) held))
              held)

    pub call_and_track-On :
        (method : C → IoMode × C) (m : Manager C) (fd : ℕ)
        → P m
        → On (λ r. P r.1) (call_and_track methods clock method m fd)
    unfolding call_and_track On
    call_and_track-On method m fd holds =
        On-bind (λ c. (m.items fd).connection ≡ some c) (λ r. P r.1) (m.items fd).connection
          (λ c.
            elim (track methods clock 2 (set_connection m fd (some (method c).1)) fd (method c).0) [
              | none ↦ none
              | some t ↦ some ((method c).0, t)
            ])
          (On-self (m.items fd).connection)
          (λ c. λ there.
            On-bind P (λ r. P r.1)
              (track methods clock 2 (set_connection m fd (some (method c).1)) fd (method c).0)
              (λ t. some ((method c).0, t))
              (track-On 2 (set_connection m fd (some (method c).1)) fd (method c).0
                (closed.sets m fd c (method c).1 there holds))
              (λ t. λ h. h))

    pub doom-On : (m : Manager C) (fd : ℕ) → P m → On P (doom methods clock m fd)
    unfolding doom On
    doom-On m fd holds =
        On-bind (λ c. (m.items fd).connection ≡ some c) P (m.items fd).connection
          (λ c.
            if methods.is_auto_destroyable c
            then some (remove_connection m fd).1
            else elim (call_and_track methods clock methods.reset m fd) [
              | none ↦ none
              | some r ↦ some r.1
            ])
          (On-self (m.items fd).connection)
          (λ c. λ there.
            if-elim (On P) (methods.is_auto_destroyable c) (some (remove_connection m fd).1)
              (elim (call_and_track methods clock methods.reset m fd) [
                | none ↦ none
                | some r ↦ some r.1
              ])
              (closed.removes m fd holds)
              (On-bind (λ r. P r.1) P (call_and_track methods clock methods.reset m fd)
                (λ r. some r.1) (call_and_track-On methods.reset m fd holds) (λ r. λ h. h)))

    serve-On :
        (method : C → IoMode × C) (m : Manager C) (fd : ℕ)
        → P m
        → On P (serve methods clock method m fd)
    unfolding serve On
    serve-On method m fd holds =
        On-bind (λ r. P r.1) P (call_and_track methods clock method m fd)
          (λ r. if r.0.dead then doom methods clock r.1 fd else some r.1)
          (call_and_track-On method m fd holds)
          (λ r. λ h.
            if-elim (On P) r.0.dead (doom methods clock r.1 fd) (some r.1) (doom-On r.1 fd h) h)

    serve_loop-On :
        (method : C → IoMode × C) (ready : ℕ → Bool) (n fd : ℕ) (m : Manager C)
        → P m
        → On P (serve_loop methods clock method ready n fd m)
    unfolding serve_loop On
    serve_loop-On method ready zero fd m holds = holds
    serve_loop-On method ready (suc n) fd m holds =
        if-elim (On P) (ready fd)
          (elim (serve methods clock method m fd) [
            | none ↦ none
            | some t ↦ serve_loop methods clock method ready n (fd + 1) t
          ])
          (serve_loop methods clock method ready n (fd + 1) m)
          (On-bind P P (serve methods clock method m fd)
            (λ t. serve_loop methods clock method ready n (fd + 1) t) (serve-On method m fd holds)
            (λ t. λ h. serve_loop-On method ready n (fd + 1) t h))
          (serve_loop-On method ready n (fd + 1) m holds)

    pub process_connections-On :
        (m : Manager C) (readables writeables : ℕ → Bool)
        → P m
        → On (λ r. P r.1) (process_connections methods clock m readables writeables)
    unfolding process_connections On
    process_connections-On m readables writeables holds =
        On-bind P (λ r. P r.1) (serve_loop methods clock methods.send writeables m.fdset_size 0 m)
          (λ t. elim (serve_loop methods clock methods.receive readables m.fdset_size 0 t) [
            | none ↦ none
            | some u ↦ some (u.serviceable_count, u)
          ])
          (serve_loop-On methods.send writeables m.fdset_size 0 m holds)
          (λ t. λ h.
            On-bind P (λ r. P r.1)
              (serve_loop methods clock methods.receive readables m.fdset_size 0 t)
              (λ u. some (u.serviceable_count, u))
              (serve_loop-On methods.receive readables m.fdset_size 0 t h) (λ u. λ h'. h'))

    pub timeout_loop-On :
        (rounds now : ℕ) (fd : Option ℕ) (m : Manager C)
        → P m
        → On P (timeout_loop methods clock rounds now fd m)
    unfolding timeout_loop On
    timeout_loop-On rounds now none m holds = holds
    timeout_loop-On zero now (some fd) m holds = tt
    timeout_loop-On (suc rounds) now (some fd) m holds =
        if-elim (On P) (leb (m.items fd).best_before now)
          (elim (serve methods clock methods.timed_out m fd) [
            | none ↦ none
            | some t ↦ timeout_loop methods clock rounds now (next_of fd m.active) t
          ])
          (some m)
          (On-bind P P (serve methods clock methods.timed_out m fd)
            (λ t. timeout_loop methods clock rounds now (next_of fd m.active) t)
            (serve-On methods.timed_out m fd holds)
            (λ t. λ h. timeout_loop-On rounds now (next_of fd m.active) t h))
          holds

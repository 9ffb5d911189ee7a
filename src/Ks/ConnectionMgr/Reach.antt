-- ===== src/Ks/ConnectionMgr/Reach.antt =====
-- The manager as a state machine: its operations in any order, with any connections.
use mathlib.Core.Bool.{false≢true}
use acplt_ks.Base.{
  ℕ, zero, suc, ◌+◌, ◌-◌, ◌%◌, ◌^◌, ◌<◌, ◌≡◌, refl, ap₂, sym, Bool, true, false, not, ◌&&◌, List,
  [], ◌∷◌, Option, none, some, if◌then◌else◌, ltb, ◌==◌, subst, arith,
}
use acplt_ks.Base.Cells.{count, bit}
use acplt_ks.Base.Outcomes.{On, On-bind}
use acplt_ks.Ks.ConnectionMgr.{Methods, Manager, has_connection, track, unlink}
use acplt_ks.Ks.ConnectionMgr.Registry.{
  remove_connection, get_next_serviceable, add_connection, track_connection, reset_connection,
  new_manager, next_active,
}
use acplt_ks.Ks.ConnectionMgr.Service.{
  Selected, process_connections, process_timeout, shutdown_connections,
}
use acplt_ks.Ks.ConnectionMgr.Tracking.{if-elim}
use acplt_ks.Ks.ConnectionMgr.Sets.{IsTracked, track_step-IsTracked, set_connection-IsTracked}
use acplt_ks.Ks.ConnectionMgr.Adding.{
  remove_connection-IsTracked, add_connection-IsTracked, entered,
}
use acplt_ks.Ks.ConnectionMgr.Queue.{
  IsQueued, track_step-IsQueued, set_connection-IsQueued, remove_connection-IsQueued,
  entered-IsQueued,
}
use acplt_ks.Ks.ConnectionMgr.Counts.{IsCounted, IsCounted-IsClosed, get_next_serviceable-empty}
use acplt_ks.Ks.ConnectionMgr.Keeping.{IsClosed, track-On, process_connections-On, timeout_loop-On}
use acplt_ks.Ks.ConnectionMgr.Runs.{
  shutdown_connections-On, track_connection-On, reset_connection-On,
}

count-none :
    {T : Type 0} (p : T → Bool) (a : ℕ → T) (n : ℕ) → ((i : ℕ) → p (a i) ≡ false) → count p a n ≡ 0
unfolding count
count-none p a zero e = refl
count-none p a (suc n) e = ap₂ (λ x k. bit x + k) (e n) (count-none p a n e)

module _ {C : Type 0} (methods : Methods C) (clock : ℕ → ℕ) where
  -- one operation that returns
  pub data Step (m t : Manager C) : Type 0 where
    adds :
        (fd : ℕ) (c : C) (ok : Bool) → add_connection methods clock m fd c ≡ some (ok, t) → Step m t
    removes : (fd : ℕ) (ok : Bool) → remove_connection m fd ≡ (ok, t) → Step m t
    tracks : (fd : ℕ) (ok : Bool) → track_connection methods clock m fd ≡ some (ok, t) → Step m t
    resets : (fd : ℕ) (ok : Bool) → reset_connection methods clock m fd ≡ some (ok, t) → Step m t
    looks : (fd : Option ℕ) → get_next_serviceable m ≡ (fd, t) → Step m t
    serves :
        (readables writeables : ℕ → Bool) (n : ℕ)
        → process_connections methods clock m readables writeables ≡ some (n, t)
        → Step m t
    expires : (rounds : ℕ) → process_timeout methods clock rounds m ≡ some t → Step m t
    shuts_down :
        (span : ℕ) (answers : List Selected) (ok : Bool)
        → shutdown_connections methods clock span answers m ≡ some (ok, t)
        → Step m t

  -- what a fresh manager for so many descriptors comes to
  pub data Reach (fdset_size : ℕ) : Manager C → Type 0 where
    fresh : Reach fdset_size (new_manager fdset_size)
    next : {m t : Manager C} → Reach fdset_size m → Step m t → Reach fdset_size t

  module _ (P : Manager C → Type 0) (closed : IsClosed methods clock P)
      (added : (m : Manager C) (fd : ℕ) (c : C)
        → P m
        → On (λ r. P r.1) (add_connection methods clock m fd c)) where
    process_timeout-On :
        (rounds : ℕ) (m : Manager C) → P m → On P (process_timeout methods clock rounds m)
    unfolding process_timeout
    process_timeout-On rounds m holds =
        timeout_loop-On methods clock P closed rounds (clock m.readings)
          (elim m.active [ [] ↦ none | fd ∷ fds ↦ some (next_active fd fds) ])
          (record m { readings = m.readings + 1 }) (closed.reads m (m.readings + 1) holds)

    Step-keeps : {m t : Manager C} → Step m t → P m → P t
    unfolding On
    Step-keeps {m} (adds fd c ok e) holds = subst (On (λ r. P r.1)) e (added m fd c holds)
    Step-keeps {m} (removes fd ok e) holds = subst (λ r. P r.1) e (closed.removes m fd holds)
    Step-keeps {m} (tracks fd ok e) holds =
        subst (On (λ r. P r.1)) e (track_connection-On methods clock P closed m fd holds)
    Step-keeps {m} (resets fd ok e) holds =
        subst (On (λ r. P r.1)) e (reset_connection-On methods clock P closed m fd holds)
    Step-keeps {m} (looks fd e) holds = subst (λ r. P r.1) e (closed.looks m holds)
    Step-keeps {m} (serves readables writeables n e) holds =
        subst (On (λ r. P r.1)) e
          (process_connections-On methods clock P closed m readables writeables holds)
    Step-keeps {m} (expires rounds e) holds = subst (On P) e (process_timeout-On rounds m holds)
    Step-keeps {m} (shuts_down span answers ok e) holds =
        subst (On (λ r. P r.1)) e
          (shutdown_connections-On methods clock P closed span answers m holds)

    Reach-keeps : {size : ℕ} {m : Manager C} → P (new_manager size) → Reach size m → P m
    Reach-keeps start fresh = start
    Reach-keeps start (next r step) = Step-keeps step (Reach-keeps start r)

  -- the part of the manager that the sets and the number depend on
  IsTracked-same :
      (m : Manager C) (active serviceable : List ℕ) (n readings : ℕ)
      → IsTracked 0 m
      → IsTracked 0 (record m {
        active = active;
        serviceable = serviceable;
        serviceable_count = n;
        readings = readings;
      })
  IsTracked-same m active serviceable n readings tracked = record {
    readable_agrees = tracked.readable_agrees;
    writeable_agrees = tracked.writeable_agrees;
    counted = tracked.counted;
    bounded = tracked.bounded;
    inside = tracked.inside;
  }

  -- what all runs keep
  abbrev pub IsSound : Manager C → Type 0
  IsSound m = IsTracked 0 m × IsQueued m

  looks_at :
      (P : Manager C → Type 0) (m : Manager C) (l : List ℕ)
      → ((serviceable : List ℕ) (n : ℕ)
          → P (record m { serviceable = serviceable; serviceable_count = n }))
      → P (get_next_serviceable (record m { serviceable = l })).1
  unfolding get_next_serviceable
  looks_at P m [] holds = holds [] m.serviceable_count
  looks_at P m (fd ∷ fds) holds = holds (unlink fd (fd ∷ fds)) (m.serviceable_count - 1)

  looks-IsSound : (m : Manager C) → IsSound m → IsSound (get_next_serviceable m).1
  looks-IsSound m sound =
      looks_at IsSound m m.serviceable
        (λ l. λ n. (IsTracked-same m m.active l n m.readings sound.0, sound.1))

  IsSound-IsClosed : IsClosed methods clock IsSound
  IsSound-IsClosed = record {
    steps = λ m. λ fd. λ c. λ mode. λ there. λ sound. (
      track_step-IsTracked methods clock 0 m fd c mode there sound.0,
      track_step-IsQueued methods clock m fd c mode sound.1,
    );
    sets = λ m. λ fd. λ c. λ d. λ there. λ sound. (
      set_connection-IsTracked 0 m fd c d there sound.0,
      set_connection-IsQueued m fd (some d) sound.1,
    );
    removes = λ m. λ fd. λ sound.
        (remove_connection-IsTracked m fd sound.0, remove_connection-IsQueued m fd sound.1);
    reads = λ m. λ n.
        λ sound. (IsTracked-same m m.active m.serviceable m.serviceable_count n sound.0, sound.1);
    looks = looks-IsSound;
  }

  IsQueued-IsClosed : IsClosed methods clock IsQueued
  IsQueued-IsClosed = record {
    steps = λ m. λ fd. λ c. λ mode. λ there. track_step-IsQueued methods clock m fd c mode;
    sets = λ m. λ fd. λ c. λ d. λ there. set_connection-IsQueued m fd (some d);
    removes = remove_connection-IsQueued;
    reads = λ m. λ n. λ queued. queued;
    looks = λ m. λ queued. looks_at IsQueued m m.serviceable (λ l. λ n. queued);
  }

  -- adding keeps what its parts keep
  add_connection-On :
      (P : Manager C → Type 0)
      → IsClosed methods clock P
      → ((m : Manager C) (fd : ℕ) (c : C) → P m → P (entered methods clock m fd c))
      → ((m : Manager C) (n : ℕ) → P m → P (record m { connection_count = n }))
      → (m : Manager C) (fd : ℕ) (c : C) → P m
      → On (λ r. P r.1) (add_connection methods clock m fd c)
  unfolding add_connection On
  add_connection-On P closed enters counts m fd c holds =
      if-elim (On (λ r. P r.1)) (ltb fd m.fdset_size && not (has_connection (m.items fd)))
        (elim (track methods clock 2 (entered methods clock m fd c) fd (methods.get_io_mode c)) [
          | none ↦ none
          | some t ↦ some (true, record t { connection_count = (t.connection_count + 1) % 2 ^ 32 })
        ])
        (some (false, m))
        (On-bind P (λ r. P r.1)
          (track methods clock 2 (entered methods clock m fd c) fd (methods.get_io_mode c))
          (λ t. some (true, record t { connection_count = (t.connection_count + 1) % 2 ^ 32 }))
          (track-On methods clock P closed 2 (entered methods clock m fd c) fd
            (methods.get_io_mode c) (enters m fd c holds))
          (λ t. λ h. counts t ((t.connection_count + 1) % 2 ^ 32) h))
        holds

  add_connection-IsQueued :
      (m : Manager C) (fd : ℕ) (c : C)
      → IsQueued m
      → On (λ r. IsQueued r.1) (add_connection methods clock m fd c)
  add_connection-IsQueued =
      add_connection-On IsQueued IsQueued-IsClosed (λ m. λ fd. λ c. entered-IsQueued m fd c)
        (λ m. λ n. λ queued. queued)

  add_connection-IsSound :
      (m : Manager C) (fd : ℕ) (c : C)
      → IsSound m
      → On (λ r. IsSound r.1) (add_connection methods clock m fd c)
  unfolding On
  add_connection-IsSound m fd c sound =
      let (t, e, tracked) = add_connection-IsTracked methods clock m fd c sound.0 in
      subst (On (λ r. IsSound r.1)) (sym e)
        (tracked, subst (On (λ r. IsQueued r.1)) e (add_connection-IsQueued m fd c sound.1))

  pub new_manager-IsTracked : (size : ℕ) → size < 2 ^ 32 → IsTracked {C = C} 0 (new_manager size)
  new_manager-IsTracked size fits = record {
    readable_agrees = λ i. refl;
    writeable_agrees = λ i. refl;
    counted =
        count-none has_connection (new_manager {C = C} size).items (if size == 0 then 32 else size)
          (λ i. refl);
    bounded = ground arith;
    inside = λ i. λ h. absurd (false≢true h);
  }

  -- In every state that a fresh manager comes to by its operations, in any order, with any answers of
  -- the connections, the clock and select: a descriptor is in a set just if there is a connection whose
  -- last mode says so, the connections are counted, and the list of timeouts is in order.
  pub Reach-IsSound :
      {size : ℕ} {m : Manager C} → size < 2 ^ 32 → Reach size m → IsTracked 0 m × IsQueued m
  Reach-IsSound {size} fits reach =
      Reach-keeps IsSound IsSound-IsClosed add_connection-IsSound
        (new_manager-IsTracked size fits, tt) reach

  Reach-IsCounted : {size : ℕ} {m : Manager C} → Reach size m → IsCounted m
  Reach-IsCounted {size} reach =
      Reach-keeps IsCounted (IsCounted-IsClosed methods clock)
        (add_connection-On IsCounted (IsCounted-IsClosed methods clock)
          (λ m. λ fd. λ c. λ counted. counted) (λ m. λ n. λ counted. counted))
        (omega arith) reach

  -- In every state that a fresh manager comes to: if `_serviceable_count`, which `processConnections`
  -- gives back, is 0, then `getNextServiceableConnection` finds no connection.
  pub Reach-serviceable :
      {size : ℕ} {m : Manager C}
      → Reach size m
      → m.serviceable_count ≡ 0
      → (get_next_serviceable m).0 ≡ none
  Reach-serviceable {size} {m} reach = get_next_serviceable-empty m (Reach-IsCounted reach)

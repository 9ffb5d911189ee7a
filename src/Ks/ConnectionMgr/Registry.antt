-- ===== src/Ks/ConnectionMgr/Registry.antt =====
-- Adding, removing, finding and tracking connections, in ks/src/connectionmgr.cpp.
use acplt_ks.Base.{
  ℕ, ◌+◌, ◌-◌, ◌%◌, ◌^◌, Bool, true, false, not, ◌&&◌, List, [], ◌∷◌, Option, none, some,
  if◌then◌else◌, leb, ltb, ◌==◌,
}
use acplt_ks.Base.Cells.{update}
use acplt_ks.Ks.ConnectionMgr.{
  dormant, Methods, Manager, unlink, set_connection, has_connection, track,
}

-- `_active_connections._next`, the end of the list
abbrev pub next_active : ℕ → List ℕ → ℕ
next_active fd [] = fd
next_active fd (x ∷ xs) = next_active x xs

module _ {C : Type 0} where
  -- the constructor, for so many descriptors
  abbrev pub new_manager : ℕ → Manager C
  new_manager fdset_size = record {
    items = λ i. record { connection = none; best_before = 0; last_io_mode = dormant };
    fdset_size = if fdset_size == 0 then 32 else fdset_size;
    connection_count = 0;
    readable_fdset = λ i. false;
    writeable_fdset = λ i. false;
    serviceable_count = 0;
    io_errors = 0;
    io_rx_errors = 0;
    io_tx_errors = 0;
    active = [];
    serviceable = [];
    readings = 0;
  }

  -- `getConnectionItem` and `lookupConnection`, for a descriptor that is not negative
  unfoldable pub lookup_connection : Manager C → ℕ → Option C
  lookup_connection m fd = if leb m.fdset_size fd then none else (m.items fd).connection

  -- `removeConnection`
  unfoldable pub remove_connection : Manager C → ℕ → Bool × Manager C
  unfolding lookup_connection
  remove_connection m fd = elim (lookup_connection m fd) [
    | none ↦ (false, m)
    | some c ↦ (
      true,
      record m {
        items = update m.items fd (record (m.items fd) { connection = none });
        active = unlink fd m.active;
        serviceable = unlink fd m.serviceable;
        readable_fdset = update m.readable_fdset fd false;
        writeable_fdset = update m.writeable_fdset fd false;
        connection_count = (m.connection_count + (2 ^ 32 - 1)) % 2 ^ 32;
      },
    )
  ]

  -- `getNextServiceableConnection`
  unfoldable pub get_next_serviceable : Manager C → Option ℕ × Manager C
  get_next_serviceable m = elim m.serviceable [
    | [] ↦ (none, m)
    | fd ∷ fds ↦ (
      some fd,
      record m {
        serviceable = unlink fd m.serviceable;
        serviceable_count = m.serviceable_count - 1;
      },
    )
  ]

  -- `mayHaveTimeout`
  abbrev pub may_have_timeout : Manager C → Bool
  may_have_timeout m = elim m.active [ [] ↦ false | fd ∷ fds ↦ true ]

  -- `getEarliestTimeout`; without a timeout it is MAXINT seconds, a parameter
  unfoldable pub get_earliest_timeout : ℕ → Manager C → ℕ
  get_earliest_timeout max_time m = elim m.active [
    | [] ↦ max_time
    | fd ∷ fds ↦ (m.items (next_active fd fds)).best_before
  ]

  -- `getEarliestTimeoutSpan`, and the manager behind the reading of the clock
  pub get_earliest_timeout_span : (ℕ → ℕ) → ℕ → Manager C → ℕ × Manager C
  unfolding get_earliest_timeout
  get_earliest_timeout_span clock max_time m =
      let timeout = get_earliest_timeout max_time m in
      let now = clock m.readings in
      if may_have_timeout m
      then (if ltb now timeout then timeout - now else 0, record m { readings = m.readings + 1 })
      else (max_time, m)

module _ {C : Type 0} (methods : Methods C) (clock : ℕ → ℕ) where
  -- `addConnection`
  unfoldable pub add_connection : Manager C → ℕ → C → Option (Bool × Manager C)
  unfolding track
  add_connection m fd c =
      if ltb fd m.fdset_size && not (has_connection (m.items fd))
      then elim (track methods clock 2
          (record m {
            items =
                update m.items fd
                  (record (m.items fd) { connection = some c; last_io_mode = dormant });
          })
          fd (methods.get_io_mode c)) [
            | none ↦ none
            | some t ↦
                some (true, record t { connection_count = (t.connection_count + 1) % 2 ^ 32 })
          ]
      else some (false, m)

  -- the end of `trackConnection` and `resetConnection` for a connection that is dead, without the reset
  abbrev pub bury : Manager C → ℕ → Manager C
  bury m fd = (remove_connection m fd).1

  -- the connection behind tracking it
  abbrev pub still_alive : Manager C → ℕ → Bool
  still_alive m fd = elim (m.items fd).connection [
    | none ↦ false
    | some c ↦ not (methods.is_dead c)
  ]

  -- `trackConnection`
  unfoldable pub track_connection : Manager C → ℕ → Option (Bool × Manager C)
  unfolding lookup_connection track
  track_connection m fd = elim (lookup_connection m fd) [
    | none ↦ some (false, m)
    | some c ↦
        let dying : Manager C → Bool × Manager C = λ t.
          if methods.is_auto_destroyable c then (true, bury t fd) else (
            false,
            elim (t.items fd).connection [
              | none ↦ t
              | some d ↦ set_connection t fd (some (methods.reset d).1)
            ],
          ) in
        if methods.is_dead c
        then some (dying m)
        else elim (track methods clock 2 m fd (methods.get_io_mode c)) [
          | none ↦ none
          | some t ↦ some (if still_alive t fd then (true, t) else dying t)
        ]
  ]

  -- `resetConnection`
  unfoldable pub reset_connection : Manager C → ℕ → Option (Bool × Manager C)
  unfolding lookup_connection track
  reset_connection m fd = elim (lookup_connection m fd) [
    | none ↦ some (false, m)
    | some c ↦
        let dying : Manager C → Bool × Manager C =
          λ t. if methods.is_auto_destroyable c then (true, bury t fd) else (false, t) in
        let (mode, d) = methods.reset c in
        if methods.is_dead c
        then some (dying m)
        else elim (track methods clock 2 (set_connection m fd (some d)) fd mode) [
          | none ↦ none
          | some t ↦ some (if still_alive t fd then (true, t) else dying t)
        ]
  ]

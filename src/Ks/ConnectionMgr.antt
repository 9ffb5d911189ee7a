-- ===== src/Ks/ConnectionMgr.antt =====
-- `KssConnectionManager`: ks/include/ks/connectionmgr.h and ks/src/connectionmgr.cpp, where select
-- works on file descriptors. The connections are a parameter: their class overrides the virtual
-- methods of `KssConnection`, each of which may change the object. `none` is an access through a null
-- pointer. A point in time is a number of microseconds; the clock is a parameter, read with the number
-- of the reading. The calls of `shutdown`, `delete` and `thisIsMyConnectionManager` change nothing
-- that is modelled. An operation on a connection takes its descriptor, below `FD_SETSIZE`, and means the
-- connection that is entered there.
pub mod Service
pub mod Registry
pub mod Tracking
pub mod Sets
pub mod Adding
pub mod Serving
pub mod Timeouts
pub mod Queue
pub mod Keeping
pub mod Runs
pub mod Reach
pub mod Counts
pub mod Null
mod Tests
use acplt_ks.Base.{
  ℕ, zero, suc, ◌+◌, ◌%◌, ◌^◌, Bool, true, false, not, ◌&&◌, ◌||◌, List, [], ◌∷◌, Option, none,
  some, if◌then◌else◌, leb, ltb, ◌==◌,
}
use acplt_ks.Base.Cells.{update}

-- `ConnectionIoMode`, bit by bit
pub record IoMode : Type 0 where
  pub readable : Bool
  pub writeable : Bool
  pub attention : Bool
  pub dead : Bool
  pub need_timeout : Bool
  pub no_fastwrite : Bool
  pub had_error : Bool
  pub had_tx_error : Bool
  pub had_rx_error : Bool

abbrev pub dormant : IoMode
dormant = record {
  readable = false;
  writeable = false;
  attention = false;
  dead = false;
  need_timeout = false;
  no_fastwrite = false;
  had_error = false;
  had_tx_error = false;
  had_rx_error = false;
}

-- the methods of `KssConnection`
pub record Methods (C : Type 0) : Type 0 where
  pub send : C → IoMode × C
  pub receive : C → IoMode × C
  pub timed_out : C → IoMode × C
  pub reset : C → IoMode × C
  pub get_io_mode : C → IoMode
  pub is_dead : C → Bool
  pub is_connecting : C → Bool
  pub is_auto_destroyable : C → Bool
  pub get_timeout : C → ℕ

-- `_KssConnectionItem`; the list that it is linked into is kept by the manager
pub record ConnectionItem (C : Type 0) : Type 0 where
  pub connection : Option C
  pub best_before : ℕ
  pub last_io_mode : IoMode

-- The manager. `active` is the list of the items with a timeout, from `_prev` of its head backwards;
-- `serviceable` is the other list, from `_next` of its head on. `readings` counts the readings of the
-- clock.
pub record Manager (C : Type 0) : Type 0 where
  pub items : ℕ → ConnectionItem C
  pub fdset_size : ℕ
  pub connection_count : ℕ
  pub readable_fdset : ℕ → Bool
  pub writeable_fdset : ℕ → Bool
  pub serviceable_count : ℕ
  pub io_errors : ℕ
  pub io_rx_errors : ℕ
  pub io_tx_errors : ℕ
  pub active : List ℕ
  pub serviceable : List ℕ
  pub readings : ℕ

abbrev pub differs : Bool → Bool → Bool
differs true true = false
differs true false = true
differs false true = true
differs false false = false

-- `remove` of a node from the list that it is in
abbrev pub unlink : ℕ → List ℕ → List ℕ
unlink fd [] = []
unlink fd (x ∷ xs) = if x == fd then unlink fd xs else x ∷ unlink fd xs

-- the search for the place in the list of timeouts, and `addAfter`
abbrev pub insert_active : (ℕ → ℕ) → ℕ → ℕ → List ℕ → List ℕ
insert_active best_before due fd [] = fd ∷ []
insert_active best_before due fd (x ∷ xs) =
    if ltb due (best_before x) then x ∷ insert_active best_before due fd xs else fd ∷ x ∷ xs

abbrev pub count_if : Bool → ℕ → ℕ
count_if b n = if b then (n + 1) % 2 ^ 32 else n

-- whether `trackCnxIoMode` sends at once
abbrev pub fastwrite : IoMode → IoMode → Bool
fastwrite old mode = differs mode.writeable old.writeable && mode.writeable && not mode.no_fastwrite

module _ {C : Type 0} where
  abbrev pub has_connection : ConnectionItem C → Bool
  has_connection item = elim item.connection [ none ↦ false | some c ↦ true ]

  abbrev pub set_connection : Manager C → ℕ → Option C → Manager C
  set_connection m fd c = record m {
    items = update m.items fd (record (m.items fd) { connection = c });
  }

  -- the lists behind the part of `trackCnxIoMode` on CNX_IO_ATTENTION
  abbrev pub mind_attention : IoMode → ℕ → Manager C → Manager C
  mind_attention mode fd m =
      if mode.attention
      then record m {
        active = unlink fd m.active;
        serviceable = fd ∷ unlink fd m.serviceable;
        serviceable_count = m.serviceable_count + 1;
      }
      else m

  -- the part of `trackCnxIoMode` on CNX_IO_NEED_TIMEOUT, for a connection with such a timeout; the item
  -- is in no list of timeouts when it gets into one
  abbrev pub mind_timeout : (ℕ → ℕ) → ℕ → IoMode → ℕ → Manager C → Manager C
  mind_timeout clock timeout mode fd m =
      let due = clock m.readings + timeout in
      if differs mode.need_timeout (m.items fd).last_io_mode.need_timeout
      then if mode.need_timeout
        then record m {
          items = update m.items fd (record (m.items fd) { best_before = due });
          active = insert_active (λ i. (m.items i).best_before) due fd (unlink fd m.active);
          serviceable = unlink fd m.serviceable;
          readings = m.readings + 1;
        }
        else if mode.attention
        then m
        else record m { active = unlink fd m.active; serviceable = unlink fd m.serviceable }
      else m

  -- the parts of `trackCnxIoMode` on the sets of descriptors, the errors and the last mode
  abbrev pub mind_sets : IoMode → ℕ → Manager C → Manager C
  mind_sets mode fd m = record m {
    readable_fdset =
        if differs mode.readable (m.items fd).last_io_mode.readable
        then update m.readable_fdset fd mode.readable
        else m.readable_fdset;
    writeable_fdset =
        if differs mode.writeable (m.items fd).last_io_mode.writeable
        then update m.writeable_fdset fd mode.writeable
        else m.writeable_fdset;
    io_errors = count_if mode.had_error m.io_errors;
    io_rx_errors = count_if mode.had_rx_error m.io_rx_errors;
    io_tx_errors = count_if mode.had_tx_error m.io_tx_errors;
    items = update m.items fd (record (m.items fd) { last_io_mode = mode });
  }

module _ {C : Type 0} (methods : Methods C) (clock : ℕ → ℕ) where
  -- `trackCnxIoMode` up to the fast write
  unfoldable pub track_step : Manager C → ℕ → C → IoMode → Manager C
  track_step m fd c mode =
      mind_sets mode fd
        (mind_timeout clock (methods.get_timeout c) mode fd (mind_attention mode fd m))

  -- `trackCnxIoMode`, which calls itself behind a fast write, in so many calls
  unfoldable pub track : ℕ → Manager C → ℕ → IoMode → Option (Manager C)
  unfolding track_step
  track zero m fd mode = none
  track (suc calls) m fd mode = elim (m.items fd).connection [
    | none ↦ none
    | some c ↦
        let t = track_step m fd c mode in
        let (mode', c') = methods.send c in
        let rest = track calls (set_connection t fd (some c')) fd mode' in
        if fastwrite (m.items fd).last_io_mode mode then rest else some t
  ]

  -- two calls are enough
  abbrev pub track_io_mode : Manager C → ℕ → IoMode → Option (Manager C)
  track_io_mode m fd mode = track 2 m fd mode

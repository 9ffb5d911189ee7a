-- ===== src/Ks/ConnectionMgr/Tests.antt =====
-- Runs of a connection manager, and the theorems about it at concrete connections.
use acplt_ks.Base.{
  ℕ, ◌*◌, ◌≤◌, ◌≡◌, refl, ap, ◌∙◌, Bool, true, false, [], ◌∷◌, Option, none, some, arith,
  if◌then◌else◌, ◌==◌, ==_iff, All,
}
use acplt_ks.Ks.ConnectionMgr.{IoMode, dormant, Methods, Manager, track, track_step}
use acplt_ks.Ks.ConnectionMgr.Registry.{
  new_manager, add_connection, remove_connection, get_next_serviceable, get_earliest_timeout,
  lookup_connection,
}
use acplt_ks.Ks.ConnectionMgr.Service.{process_connections, process_timeout}
use acplt_ks.Ks.ConnectionMgr.Tracking.{track-keeps, listed-Like}
use acplt_ks.Ks.ConnectionMgr.Sets.{IsTracked}
use acplt_ks.Ks.ConnectionMgr.Adding.{add_connection-IsTracked}
use acplt_ks.Ks.ConnectionMgr.Serving.{process_connections-IsTracked}
use acplt_ks.Ks.ConnectionMgr.Queue.{IsQueued, is_in, get_earliest_timeout_lem}
use acplt_ks.Ks.ConnectionMgr.Reach.{
  Reach, fresh, next, adds, Reach-IsSound, Reach-serviceable, new_manager-IsTracked,
}
use acplt_ks.Ks.ConnectionMgr.Null.{process_connections-null}

abbrev listening : IoMode
listening = record dormant { readable = true; need_timeout = true }

abbrev writing : IoMode
writing = record dormant { readable = true; writeable = true; no_fastwrite = true }

abbrev failing : IoMode
failing = record dormant { dead = true; had_error = true; had_tx_error = true }

-- connections that are broken or not: a broken one dies when it sends, the others get a request
abbrev methods : Methods Bool
methods = record {
  send = λ broken. if broken then (failing, broken) else (listening, broken);
  receive = λ broken. (record dormant { attention = true }, broken);
  timed_out = λ broken. (failing, broken);
  reset = λ broken. (listening, false);
  get_io_mode = λ broken. if broken then writing else listening;
  is_dead = λ broken. false;
  is_connecting = λ broken. false;
  is_auto_destroyable = λ broken. true;
  get_timeout = λ broken. 1000;
}

abbrev clock : ℕ → ℕ
clock reading = 100 * reading

abbrev empty : Manager Bool
empty = new_manager 4

abbrev outcome : Option (Bool × Manager Bool) → Manager Bool
outcome none = empty
outcome (some r) = r.1

-- a manager with one connection, and with two
unfoldable one : Manager Bool
unfolding add_connection
one = outcome (add_connection methods clock empty 1 false)

unfoldable two : Manager Bool
unfolding add_connection one
two = outcome (add_connection methods clock one 2 true)

one_there : (one.items 1).connection ≡ some false
unfolding add_connection one
one_there = refl

one_twice : add_connection methods clock one 1 false ≡ some (false, one)
unfolding add_connection one
one_twice = refl

one_active : one.active ≡ 1 ∷ []
unfolding add_connection one
one_active = refl

two_count : two.connection_count ≡ 2
unfolding add_connection two one
two_count = refl

two_removed : (remove_connection two 2).1.connection_count ≡ 1
unfolding add_connection remove_connection two one
two_removed = refl

-- the one that answers is to be served next, and the broken one is away
two_served :
    (n : ℕ) × (m : Manager Bool) × (process_connections methods clock two
        (λ i. i == 1)
        (λ i. i == 2)
      ≡ some (n, m))
    × (n ≡ 1)
    × (lookup_connection m 2 ≡ none)
    × ((get_next_serviceable m).0 ≡ some 1)
unfolding add_connection process_connections get_next_serviceable lookup_connection two one
two_served = (1, outcome_of_two, refl, refl, refl, refl)
  where
    outcome_of_two : Manager Bool
    outcome_of_two = elim (process_connections methods clock two (λ i. i == 1) (λ i. i == 2)) [
      | none ↦ empty
      | some r ↦ r.1
    ]

one_expired :
    (m : Manager Bool) × (process_timeout methods (λ reading. 5000 * reading) 1 one ≡ some m)
    × (m.connection_count ≡ 0)
unfolding add_connection process_timeout one
one_expired = (expired, refl, refl)
  where
    expired : Manager Bool
    expired = elim (process_timeout methods (λ reading. 5000 * reading) 1 one) [
      | none ↦ empty
      | some m ↦ m
    ]

one-Reach : Reach methods clock 4 one
unfolding add_connection one
one-Reach = next fresh (adds 1 false true refl)

two-Reach : Reach methods clock 4 two
unfolding add_connection two one
two-Reach = next one-Reach (adds 2 true true refl)

empty-IsTracked : IsTracked 0 empty
empty-IsTracked = new_manager-IsTracked methods clock 4 (omega arith)

add_connection-IsTracked_example :
    (t : Manager Bool) × (add_connection methods clock empty 1 false ≡ some (true, t))
    × IsTracked 0 t
add_connection-IsTracked_example =
    add_connection-IsTracked methods clock empty 1 false empty-IsTracked

Reach-IsSound_example : IsTracked 0 two × IsQueued two
Reach-IsSound_example = Reach-IsSound methods clock (omega arith) two-Reach

Reach-serviceable_example : (get_next_serviceable one).0 ≡ none
unfolding add_connection one
Reach-serviceable_example = Reach-serviceable methods clock one-Reach refl

connected :
    (fd : ℕ) (b : Bool)
    → (two.items fd).connection ≡ some b
    → (i : ℕ) → (i == fd) ≡ true
    → (c : Bool) × ((two.items i).connection ≡ some c)
connected fd b e i on = (b, ap (λ k. (two.items k).connection) ((==_iff i fd).0 on) ∙ e)

two_there : ((two.items 1).connection ≡ some false) × ((two.items 2).connection ≡ some true)
unfolding add_connection two one
two_there = (refl, refl)

apart : (i : ℕ) → (i == 1) ≡ true → (i == 2) ≡ false
apart i e = ground (arith, e)

process_connections-IsTracked_example :
    (t : Manager Bool) × (process_connections methods clock two (λ i. i == 1) (λ i. i == 2)
      ≡ some (t.serviceable_count, t))
    × IsTracked 0 t
    × ((i : ℕ)
        → (i == 1) ≡ false
        → (i == 2) ≡ false
        → (t.items i).connection ≡ (two.items i).connection)
process_connections-IsTracked_example =
    process_connections-IsTracked methods clock two (λ i. i == 1) (λ i. i == 2)
      (Reach-IsSound methods clock (omega arith) two-Reach).0 (connected 1 false two_there.0)
      (connected 2 true two_there.1) apart

get_earliest_timeout_lem_example :
    (i : ℕ) × (is_in i one.active ≡ true)
    × (get_earliest_timeout 0 one ≡ (one.items i).best_before)
    × All (λ j. get_earliest_timeout 0 one ≤ (one.items j).best_before) one.active
unfolding add_connection one
get_earliest_timeout_lem_example =
    get_earliest_timeout_lem 0 one (Reach-IsSound methods clock (omega arith) one-Reach).1 refl

process_connections-null_example :
    process_connections methods clock two (λ i. i == 2) (λ i. i == 2) ≡ none
unfolding add_connection two one
process_connections-null_example =
    process_connections-null methods clock 2 two true (λ d. refl) (omega arith) two_there.1 refl

abbrev Sized : Manager Bool → Type 0
Sized m = m.fdset_size ≡ 4

track-keeps_example :
    (t : Manager Bool) × (track methods clock 2 one 1 (record listening { writeable = true })
      ≡ some t)
    × Sized t
unfolding add_connection track_step one
track-keeps_example =
    track-keeps methods clock Sized 1
      (λ m. λ c. λ mode. λ there. λ h. (listed-Like methods clock m 1 c mode).size_same ∙ h)
      (λ m. λ c. λ d. λ there. λ h. h) one false (record listening { writeable = true }) one_there
      refl

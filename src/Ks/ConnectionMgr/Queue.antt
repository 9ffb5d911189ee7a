-- ===== src/Ks/ConnectionMgr/Queue.antt =====
-- The list of timeouts of the manager, and `getEarliestTimeout`.
use mathlib.Core.Bool.{true≢false}
use acplt_ks.Base.{
  ℕ, ◌+◌, ◌≤◌, ◌≡◌, ◌≢◌, refl, ap, sym, ◌∙◌, Bool, true, false, inl, inr, List, [], ◌∷◌, Option,
  none, some, arith, All, if◌then◌else◌, ◌==◌, List-cases, subst, Option-cases,
}
use acplt_ks.Base.Cells.{update}
use acplt_ks.Ks.ConnectionMgr.{
  IoMode, dormant, Methods, ConnectionItem, Manager, differs, unlink, insert_active, set_connection,
  mind_attention, mind_timeout, track_step,
}
use acplt_ks.Ks.ConnectionMgr.Registry.{
  next_active, get_earliest_timeout, may_have_timeout, remove_connection, lookup_connection,
}
use acplt_ks.Ks.ConnectionMgr.Tracking.{if-elim, update_here, update_there, update-same}
use acplt_ks.Ks.ConnectionMgr.Adding.{remove_connection-none, remove_connection-some}
use acplt_ks.Ks.ConnectionMgr.Timeouts.{
  IsOrdered, unlink-IsOrdered, IsOrdered-same, All-others, All-map, All-every,
  insert_active-IsOrdered, next_active-first,
}

pub is_in : ℕ → List ℕ → Bool
is_in fd [] = false
is_in fd (x ∷ xs) = if fd == x then true else is_in fd xs

is_in-next_active : (x : ℕ) (xs : List ℕ) → is_in (next_active x xs) (x ∷ xs) ≡ true
unfolding is_in
is_in-next_active x [] = ground arith
is_in-next_active x (y ∷ ys) =
    if-elim (λ b. b ≡ true) (next_active y ys == x) true (is_in (next_active y ys) (y ∷ ys)) refl
      (is_in-next_active y ys)

module _ {C : Type 0} where
  abbrev pub dates : (ℕ → ConnectionItem C) → ℕ → ℕ
  dates items i = (items i).best_before

  -- the list of timeouts is in order
  abbrev pub IsQueued : Manager C → Type 0
  IsQueued m = IsOrdered (dates m.items) m.active

  -- an item that is not dated anew
  undated :
      (items : ℕ → ConnectionItem C) (fd : ℕ) (item : ConnectionItem C) (xs : List ℕ)
      → item.best_before ≡ (items fd).best_before
      → IsOrdered (dates items) xs
      → IsOrdered (dates (update items fd item)) xs
  undated items fd item xs e = IsOrdered-same (dates items) (dates (update items fd item)) xs (
      All-every (λ x. dates (update items fd item) x ≡ dates items x)
        (λ i. update-same (λ j. j.best_before) items fd item i e) xs)

  mind_attention-IsQueued :
      (mode : IoMode) (fd : ℕ) (m : Manager C) → IsQueued m → IsQueued (mind_attention mode fd m)
  mind_attention-IsQueued mode fd m queued =
      if-elim IsQueued mode.attention
        (record m {
          active = unlink fd m.active;
          serviceable = fd ∷ unlink fd m.serviceable;
          serviceable_count = m.serviceable_count + 1;
        })
        m (unlink-IsOrdered (dates m.items) fd m.active queued) queued

  started-IsQueued :
      (m : Manager C) (fd due : ℕ)
      → IsQueued m
      → IsOrdered
          (dates (update m.items fd (record (m.items fd) { best_before = due })))
          (insert_active (dates m.items) due fd (unlink fd m.active))
  started-IsQueued m fd due queued =
      let item : ConnectionItem C = record (m.items fd) { best_before = due } in
      let others : All (λ x. dates (update m.items fd item) x ≡ dates m.items x)
          (unlink fd m.active) =
        All-map (λ x. x ≢ fd) (λ x. dates (update m.items fd item) x ≡ dates m.items x)
          (λ x. λ other. ap (λ j. j.best_before) (update_there m.items fd x item other))
          (unlink fd m.active) (All-others fd m.active) in
      insert_active-IsOrdered (dates m.items) (dates (update m.items fd item)) due fd
        (unlink fd m.active) (ap (λ j. j.best_before) (update_here m.items fd item)) others
        (IsOrdered-same (dates m.items) (dates (update m.items fd item)) (unlink fd m.active) others
          (unlink-IsOrdered (dates m.items) fd m.active queued))

  mind_timeout-IsQueued :
      (clock : ℕ → ℕ) (timeout : ℕ) (mode : IoMode) (fd : ℕ) (m : Manager C)
      → IsQueued m
      → IsQueued (mind_timeout clock timeout mode fd m)
  mind_timeout-IsQueued clock timeout mode fd m queued =
      let due = clock m.readings + timeout in
      let started : Manager C = record m {
        items = update m.items fd (record (m.items fd) { best_before = due });
        active = insert_active (λ i. (m.items i).best_before) due fd (unlink fd m.active);
        serviceable = unlink fd m.serviceable;
        readings = m.readings + 1;
      } in
      let ended : Manager C = record m {
        active = unlink fd m.active;
        serviceable = unlink fd m.serviceable;
      } in
      if-elim IsQueued (differs mode.need_timeout (m.items fd).last_io_mode.need_timeout)
        (if mode.need_timeout then started else if mode.attention then m else ended) m
        (if-elim IsQueued mode.need_timeout started (if mode.attention then m else ended)
          (started-IsQueued m fd due queued)
          (if-elim IsQueued mode.attention m ended queued
            (unlink-IsOrdered (dates m.items) fd m.active queued)))
        queued

  pub track_step-IsQueued :
      (methods : Methods C) (clock : ℕ → ℕ) (m : Manager C) (fd : ℕ) (c : C) (mode : IoMode)
      → IsQueued m
      → IsQueued (track_step methods clock m fd c mode)
  unfolding track_step
  track_step-IsQueued methods clock m fd c mode queued =
      let a = mind_attention mode fd m in
      let l = mind_timeout clock (methods.get_timeout c) mode fd a in
      undated l.items fd (record (l.items fd) { last_io_mode = mode }) l.active refl
        (mind_timeout-IsQueued clock (methods.get_timeout c) mode fd a
          (mind_attention-IsQueued mode fd m queued))

  pub set_connection-IsQueued :
      (m : Manager C) (fd : ℕ) (c : Option C) → IsQueued m → IsQueued (set_connection m fd c)
  set_connection-IsQueued m fd c =
      undated m.items fd (record (m.items fd) { connection = c }) m.active refl

  pub remove_connection-IsQueued :
      (m : Manager C) (fd : ℕ) → IsQueued m → IsQueued (remove_connection m fd).1
  remove_connection-IsQueued m fd queued = elim (Option-cases (lookup_connection m fd)) [
    | inl e ↦ subst (λ r. IsQueued r.1) (sym (remove_connection-none m fd e)) queued
    | inr (c, e) ↦
        subst (λ r. IsQueued r.1) (sym (remove_connection-some m fd c e))
          (undated m.items fd (record (m.items fd) { connection = none }) (unlink fd m.active) refl
            (unlink-IsOrdered (dates m.items) fd m.active queued))
  ]

  pub entered-IsQueued :
      (m : Manager C) (fd : ℕ) (c : C)
      → IsQueued m
      → IsQueued (record m {
        items =
            update m.items fd (record (m.items fd) { connection = some c; last_io_mode = dormant });
      })
  entered-IsQueued m fd c =
      undated m.items fd (record (m.items fd) { connection = some c; last_io_mode = dormant })
        m.active refl

  module _ (max_time : ℕ) (m : Manager C) (fd : ℕ) (fds : List ℕ) where
    get_earliest_timeout-end :
        m.active ≡ fd ∷ fds → get_earliest_timeout max_time m ≡ dates m.items (next_active fd fds)
    unfolding get_earliest_timeout
    get_earliest_timeout-end e = rw (get_earliest_timeout, e) refl

  -- If the list of timeouts is in order and has an item, then `getEarliestTimeout` is the date of an item
  -- of the list, and none of them has an earlier one.
  pub get_earliest_timeout_lem :
      (max_time : ℕ) (m : Manager C)
      → IsQueued m
      → may_have_timeout m ≡ true
      → (i : ℕ) × (is_in i m.active ≡ true)
        × (get_earliest_timeout max_time m ≡ (m.items i).best_before)
        × All (λ j. get_earliest_timeout max_time m ≤ (m.items j).best_before) m.active
  get_earliest_timeout_lem max_time m queued there = elim (List-cases m.active) [
    | inl none_there ↦
        absurd
          (true≢false (sym there ∙ ap (λ l. may_have_timeout (record m { active = l })) none_there))
    | inr (fd, fds, e) ↦
        let at_end = get_earliest_timeout-end max_time m fd fds e in
        (
          next_active fd fds,
          subst (λ l. is_in (next_active fd fds) l ≡ true) (sym e) (is_in-next_active fd fds),
          at_end,
          subst (All (λ j. get_earliest_timeout max_time m ≤ dates m.items j)) (sym e) (
              All-map (λ j. dates m.items (next_active fd fds) ≤ dates m.items j)
                (λ j. get_earliest_timeout max_time m ≤ dates m.items j)
                (λ j. λ le. omega (arith, le, at_end)) (fd ∷ fds)
                (next_active-first (dates m.items) fd fds
                  (subst (IsOrdered (dates m.items)) e queued))),
        )
  ]

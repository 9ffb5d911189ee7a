-- ===== src/Ks/ConnectionMgr/Counts.antt =====
-- `_serviceable_count` and the list of serviceable connections.
use acplt_ks.Base.{
  ℕ, suc, ◌+◌, ◌≤◌, ◌≡◌, refl, ap, sym, true, inl, inr, List, [], ◌∷◌, none, arith, if◌then◌else◌,
  ◌==◌, length, Option-cases, List-cases, subst,
}
use acplt_ks.Base.Cells.{update}
use acplt_ks.Ks.ConnectionMgr.{
  IoMode, Methods, Manager, differs, unlink, insert_active, mind_attention, mind_timeout,
  track_step,
}
use acplt_ks.Ks.ConnectionMgr.Registry.{lookup_connection, remove_connection, get_next_serviceable}
use acplt_ks.Ks.ConnectionMgr.Tracking.{if-elim}
use acplt_ks.Ks.ConnectionMgr.Adding.{remove_connection-none, remove_connection-some}
use acplt_ks.Ks.ConnectionMgr.Keeping.{IsClosed}

length-unlink : (fd : ℕ) (xs : List ℕ) → length (unlink fd xs) ≤ length xs
length-unlink fd [] = omega arith
length-unlink fd (x ∷ xs) =
    let ih = length-unlink fd xs in
    if-elim (λ l. length l ≤ suc (length xs)) (x == fd) (unlink fd xs) (x ∷ unlink fd xs)
      (omega (arith, ih)) (omega (arith, ih))

length-unlink_head : (fd : ℕ) (xs : List ℕ) → length (unlink fd (fd ∷ xs)) ≤ length xs
length-unlink_head fd xs =
    let same : (fd == fd) ≡ true = ground arith in rw same (length-unlink fd xs)

module _ {C : Type 0} where
  -- the number of serviceable connections may be too large, but not too small
  abbrev pub IsCounted : Manager C → Type 0
  IsCounted m = length m.serviceable ≤ m.serviceable_count

  mind_attention-IsCounted :
      (mode : IoMode) (fd : ℕ) (m : Manager C) → IsCounted m → IsCounted (mind_attention mode fd m)
  mind_attention-IsCounted mode fd m counted =
      let shorter = length-unlink fd m.serviceable in
      if-elim IsCounted mode.attention
        (record m {
          active = unlink fd m.active;
          serviceable = fd ∷ unlink fd m.serviceable;
          serviceable_count = m.serviceable_count + 1;
        })
        m (omega (arith, shorter, counted)) counted

  mind_timeout-IsCounted :
      (clock : ℕ → ℕ) (timeout : ℕ) (mode : IoMode) (fd : ℕ) (m : Manager C)
      → IsCounted m
      → IsCounted (mind_timeout clock timeout mode fd m)
  mind_timeout-IsCounted clock timeout mode fd m counted =
      let due = clock m.readings + timeout in
      let started : Manager C = record m {
        items = update m.items fd (record (m.items fd) { best_before = due });
        active = insert_active (λ i. (m.items i).best_before) due fd (unlink fd m.active);
        serviceable = unlink fd m.serviceable;
        readings = m.readings + 1;
      } in
      let ended : Manager C = record m {
        active = unlink fd m.active;
        serviceable = unlink fd m.serviceable;
      } in
      let shorter = length-unlink fd m.serviceable in
      let fewer : length (unlink fd m.serviceable) ≤ m.serviceable_count =
        omega (arith, shorter, counted) in
      if-elim IsCounted (differs mode.need_timeout (m.items fd).last_io_mode.need_timeout)
        (if mode.need_timeout then started else if mode.attention then m else ended) m
        (if-elim IsCounted mode.need_timeout started (if mode.attention then m else ended) fewer
          (if-elim IsCounted mode.attention m ended counted fewer))
        counted

  remove_connection-IsCounted :
      (m : Manager C) (fd : ℕ) → IsCounted m → IsCounted (remove_connection m fd).1
  remove_connection-IsCounted m fd counted = elim (Option-cases (lookup_connection m fd)) [
    | inl e ↦ subst (λ r. IsCounted r.1) (sym (remove_connection-none m fd e)) counted
    | inr (c, e) ↦
        let shorter = length-unlink fd m.serviceable in
        let fewer : length (unlink fd m.serviceable) ≤ m.serviceable_count =
          omega (arith, shorter, counted) in
        subst (λ r. IsCounted r.1) (sym (remove_connection-some m fd c e)) fewer
  ]

  looks_at-IsCounted :
      (m : Manager C) (l : List ℕ)
      → IsCounted (record m { serviceable = l })
      → IsCounted (get_next_serviceable (record m { serviceable = l })).1
  unfolding get_next_serviceable
  looks_at-IsCounted m [] counted = counted
  looks_at-IsCounted m (fd ∷ fds) counted =
      let shorter = length-unlink_head fd fds in omega (arith, shorter, counted)

  module _ (methods : Methods C) (clock : ℕ → ℕ) where
    track_step-IsCounted :
        (m : Manager C) (fd : ℕ) (c : C) (mode : IoMode)
        → IsCounted m
        → IsCounted (track_step methods clock m fd c mode)
    unfolding track_step
    track_step-IsCounted m fd c mode counted =
        mind_timeout-IsCounted clock (methods.get_timeout c) mode fd (mind_attention mode fd m)
          (mind_attention-IsCounted mode fd m counted)

    pub IsCounted-IsClosed : IsClosed methods clock IsCounted
    IsCounted-IsClosed = record {
      steps = λ m. λ fd. λ c. λ mode. λ there. track_step-IsCounted m fd c mode;
      sets = λ m. λ fd. λ c. λ d. λ there. λ counted. counted;
      removes = remove_connection-IsCounted;
      reads = λ m. λ n. λ counted. counted;
      looks = λ m. looks_at-IsCounted m m.serviceable;
    }

  -- without serviceable connections in the count there is none in the list
  pub get_next_serviceable-empty :
      (m : Manager C) → IsCounted m → m.serviceable_count ≡ 0 → (get_next_serviceable m).0 ≡ none
  unfolding get_next_serviceable
  get_next_serviceable-empty m counted e = elim (List-cases m.serviceable) [
    | inl nothing ↦ rw nothing refl
    | inr (fd, fds, first) ↦
        let at_least = ap length first in absurd (omega (arith, at_least, counted, e))
  ]

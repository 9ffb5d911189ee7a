-- ===== src/Ks/ConnectionMgr/Adding.antt =====
-- `addConnection` and `removeConnection` with the sets of descriptors and the number of connections.
use mathlib.Core.Bool.{true≢false}
use mathlib.Core.Option.{none-ne-some}
use acplt_ks.Base.{
  ℕ, ◌+◌, ◌-◌, ◌%◌, ◌^◌, ◌<◌, ◌≡◌, ◌≢◌, refl, ap, ap₂, sym, ◌∙◌, Bool, true, false, not, ◌&&◌, inl,
  inr, none, some, arith, if◌then◌else◌, leb, ltb, ◌==◌, ==_iff, Bool-cases, Option-cases, subst,
}
use acplt_ks.Base.Cells.{update, bit, count-update, count-le}
use acplt_ks.Ks.ConnectionMgr.{
  IoMode, dormant, Methods, ConnectionItem, Manager, unlink, has_connection, track,
}
use acplt_ks.Ks.ConnectionMgr.Registry.{lookup_connection, remove_connection, add_connection}
use acplt_ks.Ks.ConnectionMgr.Tracking.{track-keeps, update_here, update_there}
use acplt_ks.Ks.ConnectionMgr.Sets.{
  IsTracked, has_some, track_step-IsTracked, set_connection-IsTracked,
}

module _ {C : Type 0} (m : Manager C) (fd : ℕ) where
  -- the manager without the connection
  abbrev removed : Manager C
  removed = record m {
    items = update m.items fd (record (m.items fd) { connection = none });
    active = unlink fd m.active;
    serviceable = unlink fd m.serviceable;
    readable_fdset = update m.readable_fdset fd false;
    writeable_fdset = update m.writeable_fdset fd false;
    connection_count = (m.connection_count + (2 ^ 32 - 1)) % 2 ^ 32;
  }

  pub remove_connection-none : lookup_connection m fd ≡ none → remove_connection m fd ≡ (false, m)
  unfolding remove_connection
  remove_connection-none e = rw (remove_connection, e) refl

  pub remove_connection-some :
      (c : C) → lookup_connection m fd ≡ some c → remove_connection m fd ≡ (true, removed)
  unfolding remove_connection
  remove_connection-some c e = rw (remove_connection, e) refl

  pub lookup-inside :
      (c : C)
      → lookup_connection m fd ≡ some c
      → (fd < m.fdset_size) × ((m.items fd).connection ≡ some c)
  unfolding lookup_connection
  lookup-inside c e = elim (Bool-cases (leb m.fdset_size fd)) [
    | inl over ↦
        absurd
          (none-ne-some c (ap (λ b. if b then none else (m.items fd).connection) (sym over) ∙ e))
    | inr under ↦ (
      ground (arith, under),
      ap (λ b. if b then none else (m.items fd).connection) (sym under) ∙ e,
    )
  ]

  without_bit :
      (f : IoMode → Bool) (s : ℕ → Bool) (i : ℕ)
      → s i ≡ (has_connection (m.items i) && f (m.items i).last_io_mode)
      → update s fd false i ≡ (has_connection (removed.items i) && f (removed.items i).last_io_mode)
  without_bit f s i agrees = elim (Bool-cases (i == fd)) [
    | inl same ↦ rw same refl
    | inr other ↦ rw other agrees
  ]

  still_has : (i : ℕ) → has_connection (removed.items i) ≡ true → has_connection (m.items i) ≡ true
  still_has i h = elim (Bool-cases (i == fd)) [
    | inl same ↦ absurd (
        true≢false (
          sym h
          ∙ ap
              (λ b.
                has_connection (if b then record (m.items fd) { connection = none } else m.items i))
              same))
    | inr other ↦
        sym (
          ap
            (λ b.
              has_connection (if b then record (m.items fd) { connection = none } else m.items i))
            other)
        ∙ h
  ]

  removed-IsTracked :
      (c : C)
      → fd < m.fdset_size
      → (m.items fd).connection ≡ some c
      → IsTracked 0 m
      → IsTracked 0 removed
  removed-IsTracked c below there tracked =
      let one_less =
        count-update has_connection m.items m.fdset_size fd
          (record (m.items fd) { connection = none }) below in
      let was_there : bit (has_connection (m.items fd)) ≡ 1 =
        ap bit (has_some (m.items fd) c there) in
      let most = count-le has_connection m.items m.fdset_size in
      record {
        readable_agrees =
            λ i. without_bit (λ k. k.readable) m.readable_fdset i (tracked.readable_agrees i);
        writeable_agrees =
            λ i. without_bit (λ k. k.writeable) m.writeable_fdset i (tracked.writeable_agrees i);
        counted = omega (arith, one_less, was_there, most, tracked.counted, tracked.bounded);
        bounded = tracked.bounded;
        inside = λ i. λ h. tracked.inside i (still_has i h);
      }

  -- `removeConnection` keeps the sets and the number
  pub remove_connection-IsTracked : IsTracked 0 m → IsTracked 0 (remove_connection m fd).1
  remove_connection-IsTracked tracked = elim (Option-cases (lookup_connection m fd)) [
    | inl e ↦ subst (λ r. IsTracked 0 r.1) (sym (remove_connection-none e)) tracked
    | inr (c, e) ↦
        let (below, there) = lookup-inside c e in
        subst (λ r. IsTracked 0 r.1) (sym (remove_connection-some c e))
          (removed-IsTracked c below there tracked)
  ]

  -- the others are as they were
  pub remove_connection_there :
      (i : ℕ) → i ≢ fd → ((remove_connection m fd).1.items i).connection ≡ (m.items i).connection
  remove_connection_there i other = elim (Option-cases (lookup_connection m fd)) [
    | inl e ↦ ap (λ r. (r.1.items i).connection) (remove_connection-none e)
    | inr (c, e) ↦
        ap (λ r. (r.1.items i).connection) (remove_connection-some c e)
        ∙ ap (λ j. j.connection)
            (update_there m.items fd i (record (m.items fd) { connection = none }) other)
  ]

both_parts :
    {C : Type 0} (fd : ℕ) (m : Manager C)
    → (ltb fd m.fdset_size && not (has_connection (m.items fd))) ≡ true
    → (fd < m.fdset_size) × (has_connection (m.items fd) ≡ false)
both_parts fd m e = elim (Bool-cases (ltb fd m.fdset_size)) [
  | inr over ↦ absurd (true≢false (sym e ∙ ap (λ b. b && not (has_connection (m.items fd))) over))
  | inl below ↦ elim (Bool-cases (has_connection (m.items fd))) [
    | inl there ↦ absurd (true≢false (sym e ∙ ap₂ (λ b k. b && not k) below there))
    | inr unused ↦ (ground (arith, below), unused)
  ]
]

module _ {C : Type 0} (methods : Methods C) (clock : ℕ → ℕ) where
  module _ (m : Manager C) (fd : ℕ) (c : C) where
    -- the manager with the connection, before it is counted
    abbrev pub entered : Manager C
    entered = record m {
      items =
          update m.items fd (record (m.items fd) { connection = some c; last_io_mode = dormant });
    }

    add_connection-refused :
        (ltb fd m.fdset_size && not (has_connection (m.items fd))) ≡ false
        → add_connection methods clock m fd c ≡ some (false, m)
    unfolding add_connection
    add_connection-refused e = rw (add_connection, e) refl

    add_connection-tracked :
        (t : Manager C)
        → (ltb fd m.fdset_size && not (has_connection (m.items fd))) ≡ true
        → track methods clock 2 entered fd (methods.get_io_mode c) ≡ some t
        → add_connection methods clock m fd c
          ≡ some (true, record t { connection_count = (t.connection_count + 1) % 2 ^ 32 })
    unfolding add_connection
    add_connection-tracked t e e' = rw (add_connection, e, e') refl

    -- a fresh entry is in no set
    dormant_bit :
        (f : IoMode → Bool) (s : ℕ → Bool) (i : ℕ)
        → f dormant ≡ false
        → has_connection (m.items fd) ≡ false
        → s fd ≡ (has_connection (m.items fd) && f (m.items fd).last_io_mode)
        → s i ≡ (has_connection (m.items i) && f (m.items i).last_io_mode)
        → s i ≡ (has_connection (entered.items i) && f (entered.items i).last_io_mode)
    dormant_bit f s i off free agrees agrees' = elim (Bool-cases (i == fd)) [
      | inl same ↦
          ap s ((==_iff i fd).0 same)
          ∙ agrees
          ∙ ap (λ b. b && f (m.items fd).last_io_mode) free
          ∙ sym off
          ∙ rw same refl
      | inr other ↦ agrees' ∙ rw other refl
    ]

    entered-IsTracked :
        fd < m.fdset_size
        → has_connection (m.items fd) ≡ false
        → IsTracked 0 m
        → IsTracked 1 entered
    entered-IsTracked below free tracked =
        let item : ConnectionItem C = record (m.items fd) {
          connection = some c;
          last_io_mode = dormant;
        } in
        let one_more = count-update has_connection m.items m.fdset_size fd item below in
        let was_free : bit (has_connection (m.items fd)) ≡ 0 = ap bit free in
        record {
          readable_agrees = λ i.
              dormant_bit (λ k. k.readable) m.readable_fdset i refl free
                (tracked.readable_agrees fd) (tracked.readable_agrees i);
          writeable_agrees = λ i.
              dormant_bit (λ k. k.writeable) m.writeable_fdset i refl free
                (tracked.writeable_agrees fd) (tracked.writeable_agrees i);
          counted = omega (arith, one_more, was_free, tracked.counted);
          bounded = tracked.bounded;
          inside = λ i. λ h. elim (Bool-cases (i == fd)) [
            | inl same ↦ ground (arith, same, below)
            | inr other ↦
                tracked.inside i
                  (sym (ap (λ b. has_connection (if b then item else m.items i)) other) ∙ h)
          ];
        }

  pub entered_there :
      (m : Manager C) (fd : ℕ) (c : C) → ((entered m fd c).items fd).connection ≡ some c
  entered_there m fd c =
      ap (λ j. j.connection)
        (update_here m.items fd
          (record (m.items fd) { connection = some c; last_io_mode = dormant }))

  -- `addConnection` returns. Afterwards the sets agree with the last modes of the connections that are
  -- there, and the number of connections is right; it returns true just if the descriptor fits and has
  -- no connection yet.
  pub add_connection-IsTracked :
      (m : Manager C) (fd : ℕ) (c : C)
      → IsTracked 0 m
      → (t : Manager C) × (add_connection methods clock m fd c
          ≡ some (ltb fd m.fdset_size && not (has_connection (m.items fd)), t))
        × IsTracked 0 t
  add_connection-IsTracked m fd c tracked =
      let free = ltb fd m.fdset_size && not (has_connection (m.items fd)) in
      elim (Bool-cases free) [
        | inr refused ↦ (
          m,
          add_connection-refused m fd c refused ∙ ap (λ b. some (b, m)) (sym refused),
          tracked,
        )
        | inl taken ↦
            let (below, unused) = both_parts fd m taken in
            let (t, tracks, tracked') =
              track-keeps methods clock (IsTracked 1) fd
                (λ n. track_step-IsTracked methods clock 1 n fd)
                (λ n. set_connection-IsTracked 1 n fd) (entered m fd c) c (methods.get_io_mode c)
                (entered_there m fd c) (entered-IsTracked m fd c below unused tracked) in
            let u : Manager C = record t { connection_count = (t.connection_count + 1) % 2 ^ 32 } in
            let most = count-le has_connection t.items t.fdset_size in
            (
              u,
              add_connection-tracked m fd c t taken tracks ∙ ap (λ b. some (b, u)) (sym taken),
              record {
                readable_agrees = tracked'.readable_agrees;
                writeable_agrees = tracked'.writeable_agrees;
                counted = omega (arith, most, tracked'.counted, tracked'.bounded);
                bounded = tracked'.bounded;
                inside = tracked'.inside;
              },
            )
      ]

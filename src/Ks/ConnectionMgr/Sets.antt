-- ===== src/Ks/ConnectionMgr/Sets.antt =====
-- The sets of descriptors and the number of connections.
use acplt_ks.Base.{
  ℕ, zero, suc, ◌+◌, ◌^◌, ◌<◌, ◌≡◌, refl, ap, ap₂, sym, ◌∙◌, Bool, true, false, ◌&&◌, inl, inr,
  some, arith, if◌then◌else◌, ◌==◌, ==_iff, Bool-cases, subst,
}
use acplt_ks.Base.Cells.{update, count, bit}
use acplt_ks.Ks.ConnectionMgr.{
  IoMode, Methods, ConnectionItem, Manager, differs, set_connection, has_connection, track_step,
}
use acplt_ks.Ks.ConnectionMgr.Tracking.{listed, listed-Like, update-same, track_step_connection}

pub count-same :
    {T : Type 0} (p : T → Bool) (a b : ℕ → T) (n : ℕ)
    → ((i : ℕ) → p (a i) ≡ p (b i))
    → count p a n ≡ count p b n
unfolding count
count-same p a b zero e = refl
count-same p a b (suc n) e = ap₂ (λ x k. bit x + k) (e n) (count-same p a b n e)

unchanged : (s : ℕ → Bool) (fd : ℕ) (b : Bool) → s fd ≡ b → (i : ℕ) → s i ≡ update s fd b i
unchanged s fd b e i = elim (Bool-cases (i == fd)) [
  | inl same ↦ ap s ((==_iff i fd).0 same) ∙ e ∙ ap (λ k. if k then b else s i) (sym same)
  | inr other ↦ ap (λ k. if k then b else s i) (sym other)
]

-- a bit that is only written when it changes
changed_bit :
    (s : ℕ → Bool) (fd : ℕ) (new old : Bool)
    → s fd ≡ old
    → (i : ℕ) → (if differs new old then update s fd new else s) i ≡ update s fd new i
changed_bit s fd true false e i = refl
changed_bit s fd false true e i = refl
changed_bit s fd true true e i = unchanged s fd true e i
changed_bit s fd false false e i = unchanged s fd false e i

module _ {C : Type 0} where
  -- A descriptor is in a set just if there is a connection whose last mode says so, the connections are
  -- counted but for `extra` ones, and they have descriptors below the size of the sets.
  pub record IsTracked (extra : ℕ) (m : Manager C) : Type 0 where
    pub readable_agrees :
        (i : ℕ)
        → m.readable_fdset i ≡ (has_connection (m.items i) && (m.items i).last_io_mode.readable)
    pub writeable_agrees :
        (i : ℕ)
        → m.writeable_fdset i ≡ (has_connection (m.items i) && (m.items i).last_io_mode.writeable)
    pub counted : count has_connection m.items m.fdset_size ≡ m.connection_count + extra
    pub bounded : m.fdset_size < 2 ^ 32
    pub inside : (i : ℕ) → has_connection (m.items i) ≡ true → i < m.fdset_size

  pub has-same :
      (a b : ConnectionItem C) → a.connection ≡ b.connection → has_connection a ≡ has_connection b
  has-same a b e = ap (λ o. has_connection (record a { connection = o })) e

  pub has_some : (a : ConnectionItem C) (c : C) → a.connection ≡ some c → has_connection a ≡ true
  has_some a c e = ap (λ o. has_connection (record a { connection = o })) e

  -- a set agrees with a bit of the last modes
  abbrev Agrees : (IoMode → Bool) → (ℕ → Bool) → (ℕ → ConnectionItem C) → Type 0
  Agrees f s items = (i : ℕ) → s i ≡ (has_connection (items i) && f (items i).last_io_mode)

  Agrees-like :
      (f : IoMode → Bool) (s s' : ℕ → Bool) (items items' : ℕ → ConnectionItem C)
      → s' ≡ s
      → ((i : ℕ) → (items' i).connection ≡ (items i).connection)
      → ((i : ℕ) → (items' i).last_io_mode ≡ (items i).last_io_mode)
      → Agrees f s items
      → Agrees f s' items'
  Agrees-like f s s' items items' e conn modes agrees i =
      ap (λ k. k i) e
      ∙ agrees i
      ∙ ap₂ (λ b k. b && f k) (sym (has-same (items' i) (items i) (conn i))) (sym (modes i))

  Agrees-mode :
      (f : IoMode → Bool) (s : ℕ → Bool) (items : ℕ → ConnectionItem C) (fd : ℕ) (mode : IoMode)
      → has_connection (items fd) ≡ true
      → Agrees f s items
      → Agrees f
          (if differs (f mode) (f (items fd).last_io_mode) then update s fd (f mode) else s)
          (update items fd (record (items fd) { last_io_mode = mode }))
  Agrees-mode f s items fd mode there agrees i =
      let old = agrees fd ∙ ap (λ b. b && f (items fd).last_io_mode) there in
      changed_bit s fd (f mode) (f (items fd).last_io_mode) old i ∙ elim (Bool-cases (i == fd)) [
        | inl same ↦
            ap (λ b. if b then f mode else s i) same
            ∙ sym (
                ap
                  (λ b.
                    has_connection
                      (if b then record (items fd) { last_io_mode = mode } else items i)
                    && f
                        (if b
                          then record (items fd) { last_io_mode = mode }
                          else items i).last_io_mode)
                  same
                ∙ ap (λ b. b && f mode) there)
        | inr other ↦
            ap (λ b. if b then f mode else s i) other
            ∙ agrees i
            ∙ sym (
                ap
                  (λ b.
                    has_connection
                      (if b then record (items fd) { last_io_mode = mode } else items i)
                    && f
                        (if b
                          then record (items fd) { last_io_mode = mode }
                          else items i).last_io_mode)
                  other)
      ]

  module _ (methods : Methods C) (clock : ℕ → ℕ) where
    pub track_step-IsTracked :
        (extra : ℕ) (m : Manager C) (fd : ℕ) (c : C) (mode : IoMode)
        → (m.items fd).connection ≡ some c
        → IsTracked extra m
        → IsTracked extra (track_step methods clock m fd c mode)
    unfolding track_step
    track_step-IsTracked extra m fd c mode there tracked =
        let l = listed methods clock m fd c mode in
        let t = track_step methods clock m fd c mode in
        let like = listed-Like methods clock m fd c mode in
        let here : has_connection (l.items fd) ≡ true =
          has_some (l.items fd) c (like.connection_same fd ∙ there) in
        record {
          readable_agrees =
              Agrees-mode (λ k. k.readable) l.readable_fdset l.items fd mode here
                (Agrees-like (λ k. k.readable) m.readable_fdset l.readable_fdset m.items l.items
                  like.readable_same like.connection_same like.mode_same tracked.readable_agrees);
          writeable_agrees =
              Agrees-mode (λ k. k.writeable) l.writeable_fdset l.items fd mode here
                (Agrees-like (λ k. k.writeable) m.writeable_fdset l.writeable_fdset m.items l.items
                  like.writeable_same like.connection_same like.mode_same tracked.writeable_agrees);
          counted =
              ap (λ n. count has_connection t.items n) like.size_same
              ∙ count-same has_connection t.items m.items m.fdset_size (λ i.
                has-same (t.items i) (m.items i)
                  (track_step_connection methods clock m fd c mode i))
              ∙ tracked.counted
              ∙ ap (λ k. k + extra) (sym like.count_same);
          bounded = omega (arith, tracked.bounded, like.size_same);
          inside = λ i. λ h.
              subst (λ n. i < n) (sym like.size_same)
                (tracked.inside i (
                  sym (
                    has-same (t.items i) (m.items i)
                      (track_step_connection methods clock m fd c mode i))
                  ∙ h));
        }

  -- an object that has changed
  pub set_connection-IsTracked :
      (extra : ℕ) (m : Manager C) (fd : ℕ) (c d : C)
      → (m.items fd).connection ≡ some c
      → IsTracked extra m
      → IsTracked extra (set_connection m fd (some d))
  set_connection-IsTracked extra m fd c d there tracked =
      let item : ConnectionItem C = record (m.items fd) { connection = some d } in
      let has : (i : ℕ) → has_connection (update m.items fd item i) ≡ has_connection (m.items i) =
        λ i. update-same has_connection m.items fd item i (sym (has_some (m.items fd) c there)) in
      let modes : (i : ℕ) → (update m.items fd item i).last_io_mode ≡ (m.items i).last_io_mode =
        λ i. update-same (λ j. j.last_io_mode) m.items fd item i refl in
      record {
        readable_agrees = λ i.
            tracked.readable_agrees i ∙ ap₂ (λ b k. b && k.readable) (sym (has i)) (sym (modes i));
        writeable_agrees = λ i.
            tracked.writeable_agrees i
            ∙ ap₂ (λ b k. b && k.writeable) (sym (has i)) (sym (modes i));
        counted =
            count-same has_connection (update m.items fd item) m.items m.fdset_size has
            ∙ tracked.counted;
        bounded = tracked.bounded;
        inside = λ i. λ h. tracked.inside i (sym (has i) ∙ h);
      }

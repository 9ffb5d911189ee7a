-- ===== src/Ks/ConnectionMgr/Tracking.antt =====
-- `trackCnxIoMode` of ks/src/connectionmgr.cpp: its steps, the items they change, and its calls.
use mathlib.Core.Bool.{true≢false}
use acplt_ks.Base.{
  ℕ, suc, ◌+◌, ◌≡◌, ◌≢◌, refl, ap, sym, ◌∙◌, Bool, true, false, not, ◌&&◌, inl, inr, List, ◌∷◌,
  some, if◌then◌else◌, ◌==◌, ==_iff, Bool-cases,
}
use acplt_ks.Base.Cells.{update}
pub use acplt_ks.Base.Cells.{update_here, update_there}
use acplt_ks.Ks.ConnectionMgr.{
  IoMode, Methods, ConnectionItem, Manager, differs, set_connection, mind_attention, mind_timeout,
  fastwrite, track_step, track, unlink, insert_active,
}

second_off : (a b c : Bool) → b ≡ false → (a && b && c) ≡ false
second_off true b c e = rw e refl
second_off false b c e = refl

-- a fast write turns the writing on, and does not follow when it is on
fastwrite_again : (old mode : IoMode) → old.writeable ≡ true → fastwrite old mode ≡ false
fastwrite_again old mode e = elim (Bool-cases mode.writeable) [
  | inl on ↦ rw (e, on) refl
  | inr off ↦
      second_off (differs mode.writeable old.writeable) mode.writeable (not mode.no_fastwrite) off
]

fastwrite_on : (old mode : IoMode) → fastwrite old mode ≡ true → mode.writeable ≡ true
fastwrite_on old mode e = elim (Bool-cases mode.writeable) [
  | inl on ↦ on
  | inr off ↦ absurd (
      true≢false (
        sym e
        ∙ second_off (differs mode.writeable old.writeable) mode.writeable (not mode.no_fastwrite)
            off))
]

pub if-elim {ℓ κ} :
    {A : Type ℓ} (P : A → Type κ) (b : Bool) (x y : A) → P x → P y → P (if b then x else y)
if-elim P true x y hx hy = hx
if-elim P false x y hx hy = hy

-- a value that depends on an item only through `f`, behind a write to the item
pub update-same {ℓ κ} :
    {T : Type ℓ} {A : Type κ} (f : T → A) (a : ℕ → T) (i : ℕ) (v : T) (j : ℕ)
    → f v ≡ f (a i)
    → f (update a i v j) ≡ f (a j)
update-same f a i v j e = elim (Bool-cases (j == i)) [
  | inl same ↦
      ap (λ b. f (if b then v else a j)) same ∙ e ∙ ap (λ k. f (a k)) (sym ((==_iff j i).0 same))
  | inr other ↦ ap (λ b. f (if b then v else a j)) other
]

module _ {C : Type 0} where
  -- what the lists and the timeouts have nothing to do with is the same
  pub record Like (m m' : Manager C) : Type 0 where
    pub readable_same : m'.readable_fdset ≡ m.readable_fdset
    pub writeable_same : m'.writeable_fdset ≡ m.writeable_fdset
    pub size_same : m'.fdset_size ≡ m.fdset_size
    pub count_same : m'.connection_count ≡ m.connection_count
    pub connection_same : (i : ℕ) → (m'.items i).connection ≡ (m.items i).connection
    pub mode_same : (i : ℕ) → (m'.items i).last_io_mode ≡ (m.items i).last_io_mode

  relisted-Like :
      (m : Manager C) (active serviceable : List ℕ) (n : ℕ)
      → Like m (record m { active = active; serviceable = serviceable; serviceable_count = n })
  relisted-Like m active serviceable n = record {
    readable_same = refl;
    writeable_same = refl;
    size_same = refl;
    count_same = refl;
    connection_same = λ i. refl;
    mode_same = λ i. refl;
  }

  same-Like : (m : Manager C) → Like m m
  same-Like m = relisted-Like m m.active m.serviceable m.serviceable_count

  mind_attention-Like : (mode : IoMode) (fd : ℕ) (m : Manager C) → Like m (mind_attention mode fd m)
  mind_attention-Like mode fd m =
      if-elim (Like m) mode.attention
        (record m {
          active = unlink fd m.active;
          serviceable = fd ∷ unlink fd m.serviceable;
          serviceable_count = m.serviceable_count + 1;
        })
        m
        (relisted-Like m (unlink fd m.active) (fd ∷ unlink fd m.serviceable)
          (m.serviceable_count + 1))
        (same-Like m)

  mind_timeout-Like :
      (clock : ℕ → ℕ) (timeout : ℕ) (mode : IoMode) (fd : ℕ) (m : Manager C)
      → Like m (mind_timeout clock timeout mode fd m)
  mind_timeout-Like clock timeout mode fd m =
      let due = clock m.readings + timeout in
      let item : ConnectionItem C = record (m.items fd) { best_before = due } in
      let started : Manager C = record m {
        items = update m.items fd item;
        active = insert_active (λ i. (m.items i).best_before) due fd (unlink fd m.active);
        serviceable = unlink fd m.serviceable;
        readings = m.readings + 1;
      } in
      let ended : Manager C = record m {
        active = unlink fd m.active;
        serviceable = unlink fd m.serviceable;
      } in
      let started-Like : Like m started = record {
        readable_same = refl;
        writeable_same = refl;
        size_same = refl;
        count_same = refl;
        connection_same = λ i. update-same (λ j. j.connection) m.items fd item i refl;
        mode_same = λ i. update-same (λ j. j.last_io_mode) m.items fd item i refl;
      } in
      if-elim (Like m) (differs mode.need_timeout (m.items fd).last_io_mode.need_timeout)
        (if mode.need_timeout then started else if mode.attention then m else ended) m
        (if-elim (Like m) mode.need_timeout started (if mode.attention then m else ended)
          started-Like
          (if-elim (Like m) mode.attention m ended (same-Like m)
            (relisted-Like m (unlink fd m.active) (unlink fd m.serviceable) m.serviceable_count)))
        (same-Like m)

  Like-trans : (m m' m'' : Manager C) → Like m m' → Like m' m'' → Like m m''
  Like-trans m m' m'' l l' = record {
    readable_same = l'.readable_same ∙ l.readable_same;
    writeable_same = l'.writeable_same ∙ l.writeable_same;
    size_same = l'.size_same ∙ l.size_same;
    count_same = l'.count_same ∙ l.count_same;
    connection_same = λ i. l'.connection_same i ∙ l.connection_same i;
    mode_same = λ i. l'.mode_same i ∙ l.mode_same i;
  }

  module _ (methods : Methods C) (clock : ℕ → ℕ) where
    -- the manager in front of the part on the sets of descriptors
    abbrev pub listed : Manager C → ℕ → C → IoMode → Manager C
    listed m fd c mode =
        mind_timeout clock (methods.get_timeout c) mode fd (mind_attention mode fd m)

    pub listed-Like : (m : Manager C) (fd : ℕ) (c : C) (mode : IoMode) → Like m (listed m fd c mode)
    listed-Like m fd c mode =
        Like-trans m (mind_attention mode fd m) (listed m fd c mode) (mind_attention-Like mode fd m)
          (mind_timeout-Like clock (methods.get_timeout c) mode fd (mind_attention mode fd m))

    module _ (m : Manager C) (fd : ℕ) (c : C) (mode : IoMode) where
      pub track_step_there :
          (i : ℕ)
          → i ≢ fd
          → (track_step methods clock m fd c mode).items i ≡ (listed m fd c mode).items i
      unfolding track_step
      track_step_there i other =
          update_there (listed m fd c mode).items fd i
            (record ((listed m fd c mode).items fd) { last_io_mode = mode }) other

      pub track_step_connection :
          (i : ℕ)
          → ((track_step methods clock m fd c mode).items i).connection ≡ (m.items i).connection
      unfolding track_step
      track_step_connection i =
          update-same (λ j. j.connection) (listed m fd c mode).items fd
            (record ((listed m fd c mode).items fd) { last_io_mode = mode }) i refl
          ∙ (listed-Like m fd c mode).connection_same i

      pub track_step_mode : ((track_step methods clock m fd c mode).items fd).last_io_mode ≡ mode
      unfolding track_step
      track_step_mode =
          ap (λ j. j.last_io_mode)
            (update_here (listed m fd c mode).items fd
              (record ((listed m fd c mode).items fd) { last_io_mode = mode }))

    module _ (n : ℕ) (m : Manager C) (fd : ℕ) (c : C) (mode : IoMode)
        (there : (m.items fd).connection ≡ some c) where
      track-stops :
          fastwrite (m.items fd).last_io_mode mode ≡ false
          → track methods clock (suc n) m fd mode ≡ some (track_step methods clock m fd c mode)
      unfolding track
      track-stops e = rw (track, there, e) refl

      track-sends :
          fastwrite (m.items fd).last_io_mode mode ≡ true
          → track methods clock (suc n) m fd mode
            ≡ track methods clock n
                (set_connection (track_step methods clock m fd c mode) fd (some (methods.send c).1))
                fd
                (methods.send c).0
      unfolding track
      track-sends e = rw (track, there, e) refl

    -- Of a connection that is there tracking returns, and keeps what its steps and an object that has
    -- changed keep.
    pub track-keeps :
        (P : Manager C → Type 0) (fd : ℕ)
        → ((m : Manager C) (c : C) (mode : IoMode)
            → (m.items fd).connection ≡ some c
            → P m
            → P (track_step methods clock m fd c mode))
        → ((m : Manager C) (c d : C)
            → (m.items fd).connection ≡ some c
            → P m
            → P (set_connection m fd (some d)))
        → (m : Manager C) (c : C) (mode : IoMode) → (m.items fd).connection ≡ some c
        → P m
        → (t : Manager C) × (track methods clock 2 m fd mode ≡ some t) × P t
    track-keeps P fd steps sets m c mode there holds =
        let t = track_step methods clock m fd c mode in
        let held : P t = steps m c mode there holds in
        elim (Bool-cases (fastwrite (m.items fd).last_io_mode mode)) [
          | inr slow ↦ (t, track-stops 1 m fd c mode there slow, held)
          | inl fast ↦
              let d = (methods.send c).1 in
              let mode' = (methods.send c).0 in
              let u = set_connection t fd (some d) in
              let still : (t.items fd).connection ≡ some c =
                track_step_connection m fd c mode fd ∙ there in
              let here : (u.items fd).connection ≡ some d =
                ap (λ j. j.connection)
                  (update_here t.items fd (record (t.items fd) { connection = some d })) in
              let last : (u.items fd).last_io_mode ≡ mode =
                ap (λ j. j.last_io_mode)
                  (update_here t.items fd (record (t.items fd) { connection = some d }))
                ∙ track_step_mode m fd c mode in
              let slow : fastwrite (u.items fd).last_io_mode mode' ≡ false =
                fastwrite_again (u.items fd).last_io_mode mode'
                  (ap (λ k. k.writeable) last ∙ fastwrite_on (m.items fd).last_io_mode mode fast) in
              (
                track_step methods clock u fd d mode',
                track-sends 1 m fd c mode there fast ∙ track-stops 0 u fd d mode' here slow,
                steps u d mode' here (sets t c d still held),
              )
        ]

-- ===== src/Ks/InAddrSet/Rules.antt =====
-- An address set as a list of rules, of which the first that covers an address decides.
use Prim.Native.Nat.{bit_and}
use mathlib.Core.List.{append_assoc, append-nil}
use acplt_ks.Base.{
  ℕ, ◌+◌, ◌<◌, ◌≤◌, ◌≡◌, refl, Bool, true, false, ◌||◌, List, [], ◌∷◌, ◌++◌, arith, Option, none,
  some, if◌then◌else◌, leb, ◌==◌, length, length-append, All, sym, subst, ◌∙◌, ◌⊎◌, inl, inr,
  Bool-cases,
}
use acplt_ks.Ks.InAddrSet.{
  Item, null, block, AddrSet, new_set, complement, reallocate, new_count, fill_entry, grow_and_fill,
  add_item, covers, member_loop, base_is_member, is_member,
}

-- what the first rule that covers the address says, or false
unfoldable pub first_match : List Item → ℕ → Bool
first_match [] addr = false
first_match (r ∷ rs) addr = if covers r addr then r.incl else first_match rs addr

-- no bit of the address is outside of the mask
abbrev pub IsProper : Item → Type 0
IsProper item = (bit_and item.addr (complement item.mask) == 0) ≡ true

-- the entries from `idx` on are the rules
Agrees : (ℕ → Item) → ℕ → List Item → Type 0
Agrees f idx [] = Unit
Agrees f idx (r ∷ rs) = (f idx ≡ r) × Agrees f (idx + 1) rs

member_loop-Agrees :
    (f : ℕ → Item) (idx addr : ℕ) (rules : List Item)
    → Agrees f idx rules
    → member_loop (length rules) f idx addr ≡ first_match rules addr
unfolding member_loop first_match Agrees
member_loop-Agrees f idx addr [] h = refl
member_loop-Agrees f idx addr (r ∷ rs) h = rw (h.0, member_loop-Agrees f (idx + 1) addr rs h.1) refl

Agrees-no_rules : (f : ℕ → Item) (rules : List Item) → length rules ≡ 0 → Agrees f 0 rules
unfolding Agrees
Agrees-no_rules f [] h = tt
Agrees-no_rules f (r ∷ rs) h = absurd (omega (arith, h))

-- writing the next entry
Agrees-append :
    (f : ℕ → Item) (idx n : ℕ) (rules : List Item) (item : Item)
    → Agrees f idx rules
    → idx + length rules ≡ n
    → Agrees (λ i. if i == n then item else f i) idx (rules ++ item ∷ [])
unfolding Agrees
Agrees-append f idx n [] item h e = (ground arith, tt)
Agrees-append f idx n (r ∷ rs) item h e =
    (ground (arith, h.0), Agrees-append f (idx + 1) n rs item h.1 (omega arith))

-- the state of a set that holds these rules
record Holds (s : AddrSet) (rules : List Item) : Type 0 where
  used : s.items_used ≡ length rules
  allocated : s.items_used ≤ s.items_allocated
  cells :
      ((s.items ≡ null) × (s.items_allocated ≡ 0))
      ⊎ ((f : ℕ → Item) × (s.items ≡ block f) × Agrees f 0 rules)

first_match-no_rules :
    (rules : List Item) (addr : ℕ) → length rules ≡ 0 → first_match rules addr ≡ false
unfolding first_match
first_match-no_rules [] addr h = refl
first_match-no_rules (r ∷ rs) addr h = absurd (omega (arith, h))

base_is_member-Holds :
    (s : AddrSet) (rules : List Item) (addr : ℕ)
    → Holds s rules
    → base_is_member s addr ≡ some (first_match rules addr)
unfolding base_is_member
base_is_member-Holds s rules addr h = elim h.cells [
  | inl (e, none_allocated) ↦
      let unused : s.items_used ≡ 0 = omega (arith, h.allocated) in
      let none_there : (s.items_used == 0) ≡ true = ground (arith, unused) in
      rw (base_is_member, e, none_there, first_match-no_rules rules addr (omega (arith, h.used)))
        refl
  | inr (f, e, agrees) ↦
      rw (base_is_member, e, h.used, member_loop-Agrees f 0 addr rules agrees) refl
]

fill_entry-Holds :
    (s : AddrSet) (rules : List Item) (item : Item) (f : ℕ → Item)
    → s.items ≡ block f
    → Agrees f 0 rules
    → s.items_used ≡ length rules
    → s.items_used < s.items_allocated
    → (r : AddrSet) × (fill_entry s item ≡ some (true, r)) × Holds r (rules ++ item ∷ [])
unfolding fill_entry
fill_entry-Holds s rules item f e agrees used free = (
  record s {
    items = block (λ i. if i == s.items_used then item else f i);
    items_used = s.items_used + 1;
  },
  rw (fill_entry, e) refl,
  record {
    used = omega (arith, used, length-append rules (item ∷ []));
    allocated = omega arith;
    cells = inr (
      λ i. if i == s.items_used then item else f i,
      refl,
      Agrees-append f 0 s.items_used rules item agrees (omega arith),
    );
  },
)

add_item-fill :
    (alloc : ℕ → Bool) (fresh : Item) (s r : AddrSet) (item : Item)
    → IsProper item
    → s.items_used < s.items_allocated
    → fill_entry s item ≡ some (true, r)
    → add_item alloc fresh s item ≡ some (true, r)
unfolding add_item
add_item-fill alloc fresh s r item proper free e =
    let place : leb s.items_allocated s.items_used ≡ false = ground arith in
    rw (add_item, proper, place, e) refl

add_item-grow :
    (alloc : ℕ → Bool) (fresh : Item) (s r : AddrSet) (item : Item) (f : ℕ → Item)
    → IsProper item
    → s.items_allocated ≤ s.items_used
    → reallocate alloc fresh s.items (new_count s.items_allocated) ≡ some (block f)
    → fill_entry (record s { items = block f; items_allocated = new_count s.items_allocated }) item
      ≡ some (true, r)
    → add_item alloc fresh s item ≡ some (true, r)
unfolding add_item grow_and_fill
add_item-grow alloc fresh s r item f proper full e e' =
    let no_place : leb s.items_allocated s.items_used ≡ true = ground arith in
    rw (add_item, grow_and_fill, proper, no_place, e, e') refl

new_count_greater : (n used : ℕ) → used ≤ n → n ≤ used → used < new_count n
unfolding new_count
new_count_greater n used h k = ground arith

add_item-Holds :
    (alloc : ℕ → Bool) (fresh : Item) (s : AddrSet) (rules : List Item) (item : Item)
    → ((n : ℕ) → alloc n ≡ true)
    → IsProper item
    → Holds s rules
    → (r : AddrSet) × (add_item alloc fresh s item ≡ some (true, r)) × Holds r (rules ++ item ∷ [])
unfolding reallocate
add_item-Holds alloc fresh s rules item memory proper h =
    elim (Bool-cases (leb s.items_allocated s.items_used)) [
      | inl full ↦
          let n = new_count s.items_allocated in
          let more =
            new_count_greater s.items_allocated s.items_used h.allocated (ground (arith, full)) in
          elim h.cells [
            | inl (e, none_allocated) ↦
                let d =
                  fill_entry-Holds (record s { items = block (λ i. fresh); items_allocated = n })
                    rules item (λ i. fresh) refl
                    (Agrees-no_rules (λ i. fresh) rules
                      (omega (arith, h.used, h.allocated, none_allocated)))
                    h.used more in
                (
                  d.0,
                  add_item-grow alloc fresh s d.0 item (λ i. fresh) proper (ground (arith, full))
                      (rw (e, memory n) refl) d.1,
                  d.2,
                )
            | inr (f, e, agrees) ↦
                let d =
                  fill_entry-Holds (record s { items = block f; items_allocated = n }) rules item f
                    refl agrees h.used more in
                (
                  d.0,
                  add_item-grow alloc fresh s d.0 item f proper (ground (arith, full))
                      (rw (e, memory n) refl) d.1,
                  d.2,
                )
          ]
      | inr free ↦ elim h.cells [
        | inl (e, none_allocated) ↦ absurd (ground (arith, free, none_allocated))
        | inr (f, e, agrees) ↦
            let d = fill_entry-Holds s rules item f e agrees h.used (ground (arith, free)) in
            (d.0, add_item-fill alloc fresh s d.0 item proper (ground (arith, free)) d.1, d.2)
      ]
    ]

-- adding all these items, each with success
unfoldable pub add_all : (ℕ → Bool) → Item → AddrSet → List Item → Option AddrSet
unfolding add_item
add_all alloc fresh s [] = some s
add_all alloc fresh s (r ∷ rs) = elim (add_item alloc fresh s r) [
  | none ↦ none
  | some (false, t) ↦ none
  | some (true, t) ↦ add_all alloc fresh t rs
]

module _ (alloc : ℕ → Bool) (fresh : Item) (memory : (n : ℕ) → alloc n ≡ true) where
  add_all-item :
      (s r : AddrSet) (item : Item) (more : List Item)
      → add_item alloc fresh s item ≡ some (true, r)
      → add_all alloc fresh s (item ∷ more) ≡ add_all alloc fresh r more
  unfolding add_all
  add_all-item s r item more e = rw (add_all, e) refl

  add_all-Holds :
      (s : AddrSet) (rules more : List Item)
      → Holds s rules
      → All IsProper more
      → (r : AddrSet) × (add_all alloc fresh s more ≡ some r) × Holds r (rules ++ more)
  unfolding add_all
  add_all-Holds s rules [] h proper = (s, refl, subst (Holds s) (sym (append-nil rules)) h)
  add_all-Holds s rules (item ∷ more) h proper =
      let d = add_item-Holds alloc fresh s rules item memory proper.0 h in
      let r = add_all-Holds d.0 (rules ++ item ∷ []) more d.2 proper.1 in
      (
        r.0,
        add_all-item s d.0 item more d.1 ∙ r.1,
        subst (Holds r.0) (append_assoc rules (item ∷ []) more) r.2,
      )

  -- Any number of proper items can be added to a new set if there is memory. An address is a member
  -- then if the first item that covers it accepts it, or else if the default is to accept, whatever
  -- an item that rejects it says.
  pub is_member-add_all :
      (rules : List Item) (default_is_accept : Bool) (addr : ℕ)
      → All IsProper rules
      → (r : AddrSet) × (add_all alloc fresh new_set rules ≡ some r)
        × (is_member default_is_accept r addr ≡ some (first_match rules addr || default_is_accept))
  unfolding is_member
  is_member-add_all rules default_is_accept addr proper =
      let empty : Holds new_set [] = record {
        used = refl;
        allocated = omega arith;
        cells = inl (refl, refl);
      } in
      let r = add_all-Holds new_set [] rules empty proper in
      (r.0, r.1, rw (is_member, base_is_member-Holds r.0 rules addr r.2) (ground arith))

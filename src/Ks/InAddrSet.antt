-- ===== src/Ks/InAddrSet.antt =====
-- `KsInAddrSet_base` and `KsSimpleInAddrSet`: ks/include/ks/inaddrset.h and ks/src/inaddrset.cpp.
-- An address is a number below 2 ^ 32. `_items` is null, points to items, or points to memory that is
-- freed; `none` is an access to freed memory, to a null pointer, or a second `free`. What `realloc`
-- answers for so many items is a parameter; it leaves the items as they are.
pub mod Rules
pub mod Freed
mod Tests
use Prim.Native.Nat.{bit_and}
use acplt_ks.Base.{
  ℕ, zero, suc, ◌+◌, ◌-◌, ◌*◌, ◌^◌, Bool, true, false, not, Option, none, some, if◌then◌else◌, leb,
  ◌==◌,
}

pub record Item : Type 0 where
  pub addr : ℕ
  pub mask : ℕ
  pub incl : Bool

pub data Pointer : Type 0 where
  null freed : Pointer
  block : (ℕ → Item) → Pointer

pub record AddrSet : Type 0 where
  pub items : Pointer
  pub items_allocated : ℕ
  pub items_used : ℕ

-- `KsInAddrSet_base()`
abbrev pub new_set : AddrSet
new_set = record { items = null; items_allocated = 0; items_used = 0 }

-- `~mask`
abbrev pub complement : ℕ → ℕ
complement mask = 2 ^ 32 - 1 - mask

-- `realloc`: `none` for freed memory, and else the new pointer, null if there is no memory
pub reallocate : (ℕ → Bool) → Item → Pointer → ℕ → Option Pointer
reallocate alloc fresh null n = some (if alloc n then block (λ i. fresh) else null)
reallocate alloc fresh freed n = none
reallocate alloc fresh (block f) n = some (if alloc n then block f else null)

-- how many items there is to be place for
pub new_count : ℕ → ℕ
new_count allocated = if allocated == 0 then 1 else allocated * 2

-- the end of `addItem`, which writes the next entry
pub fill_entry : AddrSet → Item → Option (Bool × AddrSet)
fill_entry s item = elim s.items [
  | null ↦ none
  | freed ↦ none
  | block f ↦ some (
    true,
    record s {
      items = block (λ i. if i == s.items_used then item else f i);
      items_used = s.items_used + 1;
    },
  )
]

-- `addItem` where the array is full
pub grow_and_fill : (ℕ → Bool) → Item → AddrSet → Item → Option (Bool × AddrSet)
unfolding reallocate new_count fill_entry
grow_and_fill alloc fresh s item =
    let n = new_count s.items_allocated in
    elim (reallocate alloc fresh s.items n) [
      | none ↦ none
      | some null ↦ some (false, s)
      | some freed ↦ none
      | some (block f) ↦ fill_entry (record s { items = block f; items_allocated = n }) item
    ]

pub add_item : (ℕ → Bool) → Item → AddrSet → Item → Option (Bool × AddrSet)
unfolding grow_and_fill fill_entry
add_item alloc fresh s item =
    if not (bit_and item.addr (complement item.mask) == 0)
    then some (false, s)
    else if leb s.items_allocated s.items_used
    then grow_and_fill alloc fresh s item
    else fill_entry s item

pub remove_all : AddrSet → Option AddrSet
remove_all s = elim s.items [
  | null ↦ some s
  | freed ↦ none
  | block f ↦ some (record { items = freed; items_allocated = 0; items_used = 0 })
]

-- the test of `isMember` for an item
abbrev pub covers : Item → ℕ → Bool
covers item addr = bit_and addr item.mask == item.addr

-- the loop of `isMember` over so many items from `idx` on
pub member_loop : ℕ → (ℕ → Item) → ℕ → ℕ → Bool
member_loop zero f idx addr = false
member_loop (suc rounds) f idx addr =
    let rest = member_loop rounds f (idx + 1) addr in
    if covers (f idx) addr then (f idx).incl else rest

-- `KsInAddrSet_base::isMember`
pub base_is_member : AddrSet → ℕ → Option Bool
unfolding member_loop
base_is_member s addr = elim s.items [
  | null ↦ if s.items_used == 0 then some false else none
  | freed ↦ if s.items_used == 0 then some false else none
  | block f ↦ some (member_loop s.items_used f 0 addr)
]

-- `KsSimpleInAddrSet`
pub accept_mask : (ℕ → Bool) → Item → AddrSet → ℕ → ℕ → Option (Bool × AddrSet)
unfolding add_item
accept_mask alloc fresh s addr mask =
    add_item alloc fresh s (record { addr = addr; mask = mask; incl = true })

pub reject_mask : (ℕ → Bool) → Item → AddrSet → ℕ → ℕ → Option (Bool × AddrSet)
unfolding add_item
reject_mask alloc fresh s addr mask =
    add_item alloc fresh s (record { addr = addr; mask = mask; incl = false })

pub accept : (ℕ → Bool) → Item → AddrSet → ℕ → Option (Bool × AddrSet)
unfolding accept_mask
accept alloc fresh s addr = accept_mask alloc fresh s addr (2 ^ 32 - 1)

pub reject : (ℕ → Bool) → Item → AddrSet → ℕ → Option (Bool × AddrSet)
unfolding reject_mask
reject alloc fresh s addr = reject_mask alloc fresh s addr (2 ^ 32 - 1)

-- `KsSimpleInAddrSet::isMember`, with `_defaultIsAccept`
pub is_member : Bool → AddrSet → ℕ → Option Bool
unfolding base_is_member
is_member default_is_accept s addr = elim (base_is_member s addr) [
  | none ↦ none
  | some b ↦ some (if b then true else default_is_accept)
]

-- ===== src/Ks/InAddrSet/Freed.antt =====
-- What follows `removeAll`.
use acplt_ks.Base.{ℕ, ◌≡◌, refl, Bool, false, none, some}
use acplt_ks.Ks.InAddrSet.{Item, freed, block, AddrSet, add_item, remove_all, base_is_member}
use acplt_ks.Ks.InAddrSet.Rules.{IsProper}

-- A set that has items has no member when they are removed, but its pointer is to freed memory: the
-- next addition of a proper item hands it to `realloc`, and the next `removeAll`, also that of the
-- destructor, frees it again.
pub remove_all-freed :
    (alloc : ℕ → Bool) (fresh item : Item) (s : AddrSet) (f : ℕ → Item) (addr : ℕ)
    → s.items ≡ block f
    → IsProper item
    → (r : AddrSet) × (remove_all s ≡ some r)
      × (base_is_member r addr ≡ some false)
      × (add_item alloc fresh r item ≡ none)
      × (remove_all r ≡ none)
unfolding remove_all add_item base_is_member
remove_all-freed alloc fresh item s f addr e proper = (
  record { items = freed; items_allocated = 0; items_used = 0 },
  rw (remove_all, e) refl,
  refl,
  rw (add_item, proper) refl,
  refl,
)

-- ===== src/Ks/InAddrSet/Tests.antt =====
-- Runs of address sets, and the theorems about them at concrete sets.
use acplt_ks.Base.{ℕ, ◌≡◌, refl, Bool, true, false, ◌||◌, List, [], ◌∷◌, none, some}
use acplt_ks.Ks.InAddrSet.{
  Item, block, AddrSet, new_set, add_item, accept_mask, is_member, base_is_member, remove_all,
}
use acplt_ks.Ks.InAddrSet.Rules.{first_match, add_all, is_member-add_all}
use acplt_ks.Ks.InAddrSet.Freed.{remove_all-freed}

abbrev all_good : ℕ → Bool
all_good n = true

-- 10.0.0.1 is rejected, all of 10.0.0.0/8 is accepted
abbrev no_one : Item
no_one = record { addr = 167772161; mask = 4294967295; incl = false }

abbrev all_ten : Item
all_ten = record { addr = 167772160; mask = 4278190080; incl = true }

abbrev rules : List Item
rules = no_one ∷ all_ten ∷ []

decides : first_match rules 167772161 ≡ false
unfolding first_match
decides = refl

-- bits outside of the mask
improper : accept_mask all_good no_one new_set 167772161 4278190080 ≡ some (false, new_set)
unfolding accept_mask
improper = refl

is_member-add_all_example :
    (r : AddrSet) × (add_all all_good no_one new_set rules ≡ some r)
    × (is_member false r 167772162 ≡ some (first_match rules 167772162 || false))
is_member-add_all_example =
    is_member-add_all all_good no_one (λ n. refl) rules false 167772162 (refl, (refl, tt))

abbrev one_item : AddrSet
one_item = record { items = block (λ i. no_one); items_allocated = 1; items_used = 1 }

remove_all-freed_example :
    (r : AddrSet) × (remove_all one_item ≡ some r)
    × (base_is_member r 5 ≡ some false)
    × (add_item all_good no_one r all_ten ≡ none)
    × (remove_all r ≡ none)
remove_all-freed_example =
    remove_all-freed all_good no_one all_ten one_item (λ i. no_one) 5 refl refl

-- ===== src/Plt/LinkedList/Tests.antt =====
-- Runs of linked lists, and the theorems about them at concrete lists.
use acplt_ks.Base.{
  All, ℕ, ◌+◌, ◌≡◌, refl, true, false, List, [], ◌∷◌, ◌++◌, Option, none, some, arith, ◌==◌,
}
use acplt_ks.Base.Cells.{update}
use acplt_ks.Plt.LinkedList.{
  Node, PltList, ◌>>=◌, add_first_value, add_last_value, remove_node, remove_first_value,
  remove_last_value, remove_value, remove_all_nodes, step_forward, step_backward, get, to_start,
  to_end,
}
use acplt_ks.Plt.LinkedList.Links.{Absent, Ends, IsList, linked}
use acplt_ks.Plt.LinkedList.Freeing.{remove_all_nodes-empties}
use acplt_ks.Plt.LinkedList.Unlinking.{Without, remove_node-Without}
use acplt_ks.Plt.LinkedList.Values.{add_last_value-IsList, remove_value-IsList}

abbrev store : ℕ → Option (Node ℕ)
store =
    update (update (update (λ p. none) 3 (linked none (some 5) 30)) 5 (linked (some 3) (some 4) 50))
      4 (linked (some 5) none 40)

abbrev entries : List (ℕ × ℕ)
entries = (3, 30) ∷ (5, 50) ∷ (4, 40) ∷ []

abbrev three : PltList ℕ
three = record { first = some 3; last = some 4; nodes = store }

three-IsList : IsList three entries
three-IsList = (
  refl,
  refl,
  (refl, (refl, (refl, tt))),
  (
    ((λ e. absurd (omega (arith, e))), ((λ e. absurd (omega (arith, e))), tt)),
    (((λ e. absurd (omega (arith, e))), tt), (tt, tt)),
  ),
)

forward : (do i ← step_forward three (to_start three); get three i) ≡ some 50
forward = refl

backward : (do i ← step_backward three (to_end three); get three i) ≡ some 50
backward = refl

abbrev empty : PltList ℕ
empty = record { first = none; last = none; nodes = λ p. none }

queue :
    (do
      a ← add_last_value (some 1) empty 10
      b ← add_last_value (some 2) a.1 20
      c ← add_first_value (some 0) b.1 5
      r ← remove_last_value c.1
      s ← remove_first_value r.1
      some (r.0 + s.0))
    ≡ some 25
unfolding add_last_value add_first_value remove_last_value remove_first_value
queue = refl

no_room : add_first_value none three 7 ≡ some (false, three)
unfolding add_first_value
no_room = refl

remove_node-Without_example : Ends (Without 5 50 ((3, 30) ∷ (4, 40) ∷ [])) (remove_node three 5)
remove_node-Without_example =
    remove_node-Without 5 50 three ((3, 30) ∷ []) ((4, 40) ∷ []) three-IsList

add_last_value-IsList_example :
    Ends
      (λ r. (r.0 ≡ true) × IsList r.1 (entries ++ ((7, 70) ∷ [])))
      (add_last_value (some 7) three 70)
add_last_value-IsList_example = add_last_value-IsList three entries 7 70 three-IsList refl

remove_value-IsList_example :
    Ends
      (λ r. (r.0 ≡ true) × IsList r.1 ((3, 30) ∷ (5, 50) ∷ []))
      (remove_value (λ a b. a == b) 3 three 40)
remove_value-IsList_example =
    remove_value-IsList (λ a b. a == b) 40 3 three entries three-IsList (omega arith)

remove_all_nodes-empties_example :
    (t : PltList ℕ) × (remove_all_nodes 3 three ≡ some t)
    × IsList t []
    × All (λ x. t.nodes x.0 ≡ none) entries
    × ((i : ℕ) → Absent i entries → t.nodes i ≡ three.nodes i)
remove_all_nodes-empties_example =
    remove_all_nodes-empties 3 three entries three-IsList (omega arith)

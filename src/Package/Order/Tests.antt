-- ===== src/Package/Order/Tests.antt =====
-- tools/hbpkg.c: a sort of four nodes, a cycle, and the theorem for the four nodes.
use mellivora_os.Package.Order.{Outcome, done, visit_deps, topo_visit, sort_from, topo_sort}
use mellivora_os.Package.Order.Sorted.{Sorts, topo_sort_lem}
use mellivora_os.Base.Int.{ℤ, pos, negsuc}
use mellivora_os.Base.{ℕ, ◌≡◌, refl, false, List, [], ◌∷◌, ◌==◌, if◌then◌else◌}

-- 0 needs 2 and 1, 1 needs 2, and 2 an index that does not exist.
abbrev needs : ℕ → List ℤ
needs i =
    if i == 0 then pos 2 ∷ (pos 1 ∷ []) else if i == 1 then pos 2 ∷ [] else negsuc 0 ∷ (pos 9 ∷ [])

abbrev order_of : Outcome → List ℕ
order_of (done t) = t.order
order_of o = []

four_run : order_of (topo_sort needs 4 (λ j. false) (λ j. false)) ≡ 2 ∷ (1 ∷ (0 ∷ (3 ∷ [])))
unfolding topo_sort sort_from topo_visit visit_deps
four_run = refl

topo_sort_lem_example : Sorts needs 4 (topo_sort needs 4 (λ j. false) (λ j. false))
topo_sort_lem_example = topo_sort_lem needs 4

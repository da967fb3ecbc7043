-- ===== src/Package/Order/Sorted.antt =====
-- tools/hbpkg.c: what topo_sort answers, in terms of the graph.
use mellivora_os.Package.Order.{Topo, Outcome, done, cycle, waits, topo_visit, sort_from, topo_sort}
use mellivora_os.Package.Order.Graph.{
  IsDep, HasPath, one, more, member, IsOrdered, unmarked_none, unmarked_all, member_cons,
  member_there, or_false, or_swap,
}
use mellivora_os.Package.Order.Laws.{Inv, After, Cyclic, Visits, topo_visit_lem}
use mellivora_os.Base.Int.{ℤ}
use mellivora_os.Base.{
  ℕ, zero, suc, ◌+◌, ◌<◌, ◌≡◌, refl, sym, ap, ◌∙◌, subst, inl, inr, Bool, true, false, ◌||◌, List,
  [], ◌∷◌, arith, ◌==◌, Bool-cases, length,
}

module _ (dep_indices : ℕ → List ℤ) (count : ℕ) where
  abbrev Closed : List ℕ → Type 0
  Closed seen =
      (j d : ℕ) → member j seen ≡ true → IsDep dep_indices count j d → member d seen ≡ true

  stays :
      {j e : ℕ} (seen : List ℕ)
      → Closed seen
      → HasPath dep_indices count j e
      → member j seen ≡ true
      → member e seen ≡ true
  stays {j} {e} seen closed (one dep) h = closed j e h dep
  stays {j} {e} seen closed (more {d = d} p dep) h = closed d e (stays seen closed p h) dep

  -- A path from a new node goes through the nodes that were there.
  leaves :
      {i e : ℕ} (seen : List ℕ)
      → Closed seen
      → ((d : ℕ) → IsDep dep_indices count i d → member d seen ≡ true)
      → HasPath dep_indices count i e
      → member e seen ≡ true
  leaves {i} {e} seen closed deps (one dep) = deps e dep
  leaves {i} {e} seen closed deps (more {d = d} p dep) = closed d e (leaves seen closed deps p) dep

  acyclic :
      (l seen : List ℕ) (c : ℕ)
      → IsOrdered dep_indices count seen l
      → Closed seen
      → ((j : ℕ) → member j seen ≡ true → ¬ HasPath dep_indices count j j)
      → (member c seen || member c l) ≡ true
      → ¬ HasPath dep_indices count c c
  acyclic [] seen c h closed none_yet here = none_yet c (sym (or_false (member c seen)) ∙ here)
  acyclic (i ∷ l) seen c h closed none_yet here =
      acyclic l (i ∷ seen) c h.2
        (λ j d known dep. elim (member_cons j i seen known) [
          | inl same ↦
              member_there d i seen
                (h.1 d (subst (λ m. IsDep dep_indices count m d) (sym same) dep))
          | inr before ↦ member_there d i seen (closed j d before dep)
        ])
        (λ j known p. elim (member_cons j i seen known) [
          | inl same ↦
              let back =
                leaves {i = i} seen closed h.1
                  (subst (λ m. HasPath dep_indices count m m) (sym same) p) in
              absurd (let none_of : member i seen ≡ false = h.0 in (cc))
          | inr before ↦ none_yet j before p
        ])
        (or_swap (member c seen) (i == c) (member c l) ∙ here)

  -- The answer for a graph: an order of all nodes, each once and behind its dependencies, which only a graph
  -- without cycles has; or a cycle.
  abbrev pub Sorts : Outcome → Type 0
  Sorts (done u) =
      (length u.order ≡ count)
      × ((j : ℕ) → j < count → member j u.order ≡ true)
      × IsOrdered dep_indices count [] u.order
      × ¬ Cyclic dep_indices count
  Sorts (cycle u) = Cyclic dep_indices count
  Sorts waits = ⊥

  Path-below : {j e : ℕ} → HasPath dep_indices count j e → e < count
  Path-below (one dep) = dep.0
  Path-below (more p dep) = dep.0

  finished :
      (u : Topo)
      → Inv dep_indices count u
      → ((j : ℕ) → j < count → u.visited j ≡ true)
      → Sorts (done u)
  finished u inv all =
      let none_left = unmarked_none u.visited count all in
      let total = inv.counted in
      (
        omega (arith, none_left, total),
        λ j h. inv.listed j ∙ all j h,
        inv.ordered,
        λ (c, p).
            acyclic u.order [] c inv.ordered (λ j d h dep. absurd (cc)) (λ j h. absurd (cc))
              (inv.listed c ∙ all c (Path-below p)) p,
      )

  next :
      (left i : ℕ) (t : Topo) (o : Outcome)
      → Visits dep_indices count t i o
      → ((u : Topo)
          → After dep_indices count t u
          → u.visited i ≡ true
          → Sorts (sort_from dep_indices count (i + 1) left u))
      → Sorts (elim o [
        | done u ↦ sort_from dep_indices count (i + 1) left u
        | cycle u ↦ cycle u
        | waits ↦ waits
      ])
  next left i t (done u) v later = later u v.0 v.1
  next left i t (cycle u) v later = v
  next left i t waits v later = v

  one_further :
      (f : ℕ → Bool) (i : ℕ)
      → ((j : ℕ) → j < i → f j ≡ true)
      → f i ≡ true
      → (j : ℕ) → j < i + 1
      → f j ≡ true
  one_further f i before here j h = elim (Bool-cases (j == i)) [
    | inl same ↦ subst (λ m. f m ≡ true) (let e : i ≡ j = ground (arith, same) in e) here
    | inr other ↦ before j (ground (arith, other, h))
  ]

  sort_from_lem :
      (left i : ℕ) (t : Topo)
      → i + left ≡ count
      → Inv dep_indices count t
      → ((j : ℕ) → t.in_stack j ≡ false)
      → ((j : ℕ) → j < i → t.visited j ≡ true)
      → Sorts (sort_from dep_indices count i left t)
  unfolding sort_from
  sort_from_lem zero i t e inv out before = finished t inv (λ j h. before j (omega (arith, e, h)))
  sort_from_lem (suc left) i t e inv out before = elim (Bool-cases (t.visited i)) [
    | inl known ↦ rw known (
        sort_from_lem left (i + 1) t (omega (arith, e)) inv out
          (one_further t.visited i before known))
    | inr fresh ↦
        let fuel = unmarked_all t.in_stack count out in
        rw fresh (
          next left i t (topo_visit dep_indices count (count + 1) i t)
            (topo_visit_lem dep_indices count (count + 1) i t (omega (arith, e)) inv
              (λ j stacked. absurd (let off = out j in (cc))) (omega (arith, fuel)))
            (λ u a here.
              sort_from_lem left (i + 1) u (omega (arith, e)) a.inv
                (λ j. ap (λ f. f j) a.same ∙ out j)
                (one_further u.visited i (λ j h. a.grown j (before j h)) here)))
  ]

  -- From nodes that are not marked, `topo_sort` ends. It gives an order of all nodes, each once and behind its
  -- dependencies, if no node depends on itself, directly or through others, and otherwise it reports a cycle.
  pub topo_sort_lem : Sorts (topo_sort dep_indices count (λ j. false) (λ j. false))
  unfolding topo_sort
  topo_sort_lem =
      let clear : ℕ → Bool = λ j. false in
      let none_marked = unmarked_all clear count (λ j. refl) in
      sort_from_lem count 0 (record { visited = clear; in_stack = clear; order = [] }) (omega arith)
        (record {
          ordered = tt;
          listed = λ j. refl;
          apart = λ j h. absurd (cc);
          counted = omega (arith, none_marked);
        })
        (λ j. refl) (λ j h. absurd (omega (arith, h)))

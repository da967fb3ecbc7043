-- ===== src/Package/Order/Laws.antt =====
-- tools/hbpkg.c: topo_sort gives an order in which the dependencies come first, or finds a cycle.
use mellivora_os.Package.Order.{
  Topo, mark, Outcome, done, cycle, waits, enter, leave, visit_deps, finish, topo_visit,
}
use mellivora_os.Package.Order.Graph.{
  Has, IsDep, HasPath, one, more, member, IsOrdered, IsOrdered-snoc, unmarked, unmarked-mark,
  mark-back, mark_self, mark-true, member-snoc, mark-false, mark_other, mark_keeps,
}
use mellivora_os.Base.Int.{ℤ, pos, negsuc}
use mellivora_os.Base.{
  ℕ, zero, suc, ◌+◌, ◌<◌, ◌≡◌, refl, sym, ap, ◌∙◌, subst, inl, inr, true, false, List, [], ◌∷◌,
  arith, ltb, ltb→lt, Bool-cases, length, length-append,
}

module _ (dep_indices : ℕ → List ℤ) (count : ℕ) where
  -- Between two visits: the order is one of the visited nodes, and a node in the stack is not visited yet.
  pub record Inv (t : Topo) : Type 0 where
    pub ordered : IsOrdered dep_indices count [] t.order
    pub listed : (j : ℕ) → member j t.order ≡ t.visited j
    pub apart : (j : ℕ) → t.in_stack j ≡ true → t.visited j ≡ false
    pub counted : length t.order + unmarked t.visited count ≡ count

  pub record After (t u : Topo) : Type 0 where
    pub inv : Inv u
    pub same : u.in_stack ≡ t.in_stack
    pub grown : (j : ℕ) → t.visited j ≡ true → u.visited j ≡ true

  abbrev pub Cyclic : Type 0
  Cyclic = (c : ℕ) × HasPath dep_indices count c c

  abbrev pub Visits : Topo → ℕ → Outcome → Type 0
  Visits t i (done u) = After t u × (u.visited i ≡ true)
  Visits t i (cycle u) = Cyclic
  Visits t i waits = ⊥

  abbrev Loops : Topo → List ℤ → Outcome → Type 0
  Loops t ds (done u) = After t u × ((d : ℕ) → d < count → Has ds d → u.visited d ≡ true)
  Loops t ds (cycle u) = Cyclic
  Loops t ds waits = ⊥

  -- Every node in the stack leads to `i`.
  abbrev pub Leads : Topo → ℕ → Type 0
  Leads t i = (j : ℕ) → t.in_stack j ≡ true → HasPath dep_indices count j i

  After-refl : (t : Topo) → Inv t → After t t
  After-refl t h = record { inv = h; same = refl; grown = λ j v. v }

  After-trans : {t u v : Topo} → After t u → After u v → After t v
  After-trans a b = record {
    inv = b.inv;
    same = b.same ∙ a.same;
    grown = λ j v. b.grown j (a.grown j v);
  }

  widen :
      (t u : Topo) (d : ℕ) (ds : List ℤ) (o : Outcome)
      → After t u
      → (d < count → u.visited d ≡ true)
      → Loops u ds o
      → Loops t (pos d ∷ ds) o
  widen t u d ds (done w) a here h = (
    After-trans a h.0,
    λ e below has. elim has [
      | inl same ↦
          subst (λ m. w.visited m ≡ true) same
            (h.0.grown d (here (subst (λ m. m < count) (sym same) below)))
      | inr later ↦ h.1 e below later
    ],
  )
  widen t u d ds (cycle w) a here h = h
  widen t u d ds waits a here h = h

  module _ (fuel : ℕ) (visit : ℕ → Topo → Outcome)
      (visits : (d : ℕ) (t : Topo)
        → d < count
        → Inv t
        → Leads t d
        → unmarked t.in_stack count < fuel
        → Visits t d (visit d t)) where
    After-one :
        (t : Topo) (d : ℕ) (ds : List ℤ) (o : Outcome)
        → Visits t d o
        → ((u : Topo) → After t u → Loops u ds (visit_deps dep_indices count visit ds u))
        → Loops t (pos d ∷ ds) (elim o [
          | done u ↦ visit_deps dep_indices count visit ds u
          | cycle u ↦ cycle u
          | waits ↦ waits
        ])
    After-one t d ds (done u) v later =
        widen t u d ds (visit_deps dep_indices count visit ds u) v.0 (λ h. v.1) (later u v.0)
    After-one t d ds (cycle u) v later = v
    After-one t d ds waits v later = v

    visit_deps_lem :
        (ds : List ℤ) (t : Topo)
        → Inv t
        → ((d : ℕ) → d < count → Has ds d → Leads t d)
        → unmarked t.in_stack count < fuel
        → Loops t ds (visit_deps dep_indices count visit ds t)
    unfolding visit_deps
    visit_deps_lem [] t inv leads enough = (After-refl t inv, λ d h e. absurd e)
    visit_deps_lem (negsuc d ∷ ds) t inv leads enough = visit_deps_lem ds t inv leads enough
    visit_deps_lem (pos d ∷ ds) t inv leads enough = elim (Bool-cases (ltb d count)) [
      | inl below ↦ rw below (
          After-one t d ds (visit d t)
            (visits d t (ltb→lt d count below) inv (leads d (ltb→lt d count below) (inl refl))
              enough)
            (λ u a.
              visit_deps_lem ds u a.inv
                (λ e h has j stacked. leads e h (inr has) j (ap (λ f. f j) (sym a.same) ∙ stacked))
                (subst (λ f. unmarked f count < fuel) (sym a.same) enough)))
      | inr past ↦ rw past (
          widen t t d ds (visit_deps dep_indices count visit ds t) (After-refl t inv)
            (λ h. ground (arith, h, past))
            (visit_deps_lem ds t inv (λ e h has. leads e h (inr has)) enough))
    ]

  enter-Inv : (i : ℕ) (t : Topo) → t.visited i ≡ false → Inv t → Inv (enter i t)
  enter-Inv i t fresh h = record {
    ordered = h.ordered;
    listed = h.listed;
    apart = λ j stacked. elim (mark-true t.in_stack i j stacked) [
      | inl same ↦ subst (λ m. t.visited m ≡ false) same fresh
      | inr before ↦ h.apart j before
    ];
    counted = h.counted;
  }

  leave-After :
      (i : ℕ) (t u : Topo)
      → i < count
      → t.in_stack i ≡ false
      → After (enter i t) u
      → ((d : ℕ) → IsDep dep_indices count i d → u.visited d ≡ true)
      → Visits t i (done (leave i u))
  leave-After i t u below out a deps =
      let entered : u.in_stack i ≡ true = ap (λ f. f i) a.same ∙ mark_self t.in_stack i true in
      let fresh : u.visited i ≡ false = a.inv.apart i entered in
      let longer = length-append u.order (i ∷ []) in
      let fewer = unmarked-mark u.visited i count below fresh in
      let total = a.inv.counted in
      (
        record {
          inv = record {
            ordered =
                IsOrdered-snoc dep_indices count i [] u.order a.inv.ordered (a.inv.listed i ∙ fresh)
                  (λ d dep. a.inv.listed d ∙ deps d dep);
            listed = λ j. member-snoc u.visited i j u.order (a.inv.listed j);
            apart = λ j stacked.
                let kept = mark-false u.in_stack i j stacked in
                mark_other u.visited i j true kept.0 ∙ a.inv.apart j kept.1;
            counted = omega (arith, longer, fewer, total);
          };
          same = ap (λ f. mark f i false) a.same ∙ mark-back t.in_stack i out;
          grown = λ j v. mark_keeps u.visited i j (a.grown j v);
        },
        mark_self u.visited i true,
      )

  finish-Visits :
      (i : ℕ) (t : Topo) (o : Outcome)
      → i < count
      → t.in_stack i ≡ false
      → Loops (enter i t) (dep_indices i) o
      → Visits t i (finish dep_indices count i o)
  finish-Visits i t (done u) below out h =
      leave-After i t u below out h.0 (λ d dep. h.1 d dep.0 dep.1)
  finish-Visits i t (cycle u) below out h = h
  finish-Visits i t waits below out h = h

  pub topo_visit_lem :
      (fuel i : ℕ) (t : Topo)
      → i < count
      → Inv t
      → Leads t i
      → unmarked t.in_stack count < fuel
      → Visits t i (topo_visit dep_indices count fuel i t)
  unfolding topo_visit
  topo_visit_lem zero i t below inv leads enough = absurd (omega arith)
  topo_visit_lem (suc fuel) i t below inv leads enough = elim (Bool-cases (t.in_stack i)) [
    | inl stacked ↦ rw stacked (i, leads i stacked)
    | inr out ↦ elim (Bool-cases (t.visited i)) [
      | inl known ↦ rw (out, known) (After-refl t inv, known)
      | inr fresh ↦
          let fewer = unmarked-mark t.in_stack i count below out in
          rw (out, fresh)
            (finish-Visits i t
              (visit_deps dep_indices count (topo_visit dep_indices count fuel) (dep_indices i)
                (enter i t))
              below out
              (visit_deps_lem fuel (topo_visit dep_indices count fuel)
                (λ d u. topo_visit_lem fuel d u) (dep_indices i) (enter i t)
                (enter-Inv i t fresh inv)
                (λ d h has j stacked. elim (mark-true t.in_stack i j stacked) [
                  | inl same ↦ subst (λ m. HasPath dep_indices count m d) same (one (h, has))
                  | inr before ↦ more (leads j before) (h, has)
                ])
                (omega (arith, enough, fewer))))
    ]
  ]

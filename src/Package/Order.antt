-- ===== src/Package/Order.antt =====
-- tools/hbpkg.c: topo_visit and topo_sort. The array `nodes` is a function for each field that the sort reads;
-- `dep_indices` up to `dep_count` is a list.
pub mod Graph
pub mod Laws
pub mod Sorted
mod Tests
use mellivora_os.Base.{
  take_zero, take_nil, take-take, add-one, ℕ, zero, suc, ◌+◌, ◌-◌, ◌*◌, ◌/◌, ◌%◌, ◌^◌, ◌≤◌, ◌<◌,
  min, bit_and, bit_or, ◌≡◌, refl, sym, ap, ◌∙◌, subst, fun_ext, ◌≢◌, ◌↔◌, ◌⊎◌, inl, inr, Bool,
  true, false, ◌&&◌, ◌||◌, not, Option, none, some, List, [], ◌∷◌, ◌++◌, map, append-nil,
  append_assoc, arith, dec_lt, ℕ_discrete, ltb, leb, ◌==◌, if◌then◌else◌, ltb→lt, lt→ltb, leb→le,
  ==_iff, tests, Bool-cases, Option-cases, length, get_elem?, set, length-append, get_or, take,
  drop, replicate, take-append-drop, length-take, length-drop, length-replicate, length-map, All,
  All-append, All-drop, drop-append_length, and_ten, u8, u16, u32, first, rest_of,
}
use mellivora_os.Base.Int.{ℤ, pos, negsuc}

-- The marks of the nodes, and what is in `order`.
pub record Topo : Type 0 where
  pub visited : ℕ → Bool
  pub in_stack : ℕ → Bool
  pub order : List ℕ

abbrev pub mark : (ℕ → Bool) → ℕ → Bool → ℕ → Bool
mark f i b j = if j == i then b else f j

-- The marks and the order where it went well; the marks where a cycle was found; or no fuel.
pub data Outcome : Type 0 where
  done : Topo → Outcome
  cycle : Topo → Outcome
  waits : Outcome

abbrev pub enter : ℕ → Topo → Topo
enter i t = record t { in_stack = mark t.in_stack i true }

abbrev pub leave : ℕ → Topo → Topo
leave i t = record {
  visited = mark t.visited i true;
  in_stack = mark t.in_stack i false;
  order = t.order ++ (i ∷ []);
}

module _ (dep_indices : ℕ → List ℤ) (count : ℕ) where
  -- The loop over the dependencies, with the recursive call. An index that is out of range is skipped.
  unfoldable pub visit_deps : (ℕ → Topo → Outcome) → List ℤ → Topo → Outcome
  visit_deps visit [] t = done t
  visit_deps visit (negsuc d ∷ ds) t = visit_deps visit ds t
  visit_deps visit (pos d ∷ ds) t =
      let after = λ (u : Topo). visit_deps visit ds u in
      if ltb d count
      then elim (visit d t) [ done u ↦ after u | cycle u ↦ cycle u | waits ↦ waits ]
      else after t

  abbrev pub finish : ℕ → Outcome → Outcome
  finish i (done t) = done (leave i t)
  finish i (cycle t) = cycle t
  finish i waits = waits

  unfoldable pub topo_visit : ℕ → ℕ → Topo → Outcome
  topo_visit zero i t = waits
  topo_visit (suc fuel) i t =
      let inner = finish i (visit_deps (topo_visit fuel) (dep_indices i) (enter i t)) in
      if t.in_stack i then cycle t else if t.visited i then done t else inner

  -- The loop of `topo_sort` from `i` on, with `left` nodes to go. The order that it has at the end is the result,
  -- and its length the number that is returned; a cycle is -1.
  unfoldable pub sort_from : ℕ → ℕ → Topo → Outcome
  sort_from i zero t = done t
  sort_from i (suc left) t =
      let further = λ (u : Topo). sort_from (i + 1) left u in
      if t.visited i then further t else elim (topo_visit (count + 1) i t) [
        | done u ↦ further u
        | cycle u ↦ cycle u
        | waits ↦ waits
      ]

  -- The recursion is no deeper than the nodes that are not in the stack.
  unfoldable pub topo_sort : (ℕ → Bool) → (ℕ → Bool) → Outcome
  topo_sort visited in_stack =
      sort_from 0 count (record { visited = visited; in_stack = in_stack; order = [] })

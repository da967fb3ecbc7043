-- ===== src/Heap/Cover.antt =====
-- c/rt/malloc.c: how many blocks lie over an address. No operation on the list changes it.
use mellivora_os.Base.{
  ℕ, ◌+◌, ◌≡◌, refl, inl, inr, true, ◌&&◌, Option, none, some, List, [], ◌∷◌, ◌++◌, arith, ltb, leb,
  ◌==◌, if◌then◌else◌, Bool-cases,
}
use mellivora_os.Heap.{
  Block, Heap, end_of, touches, join, list_insert, merge_forward, find_used, merge_from, merge_at,
  add_other,
}

-- One for an address in the block, its header included.
abbrev pub over : Block → ℕ → ℕ
over b q = if leb b.addr q && ltb q (end_of b) then 1 else 0

abbrev pub cover : List Block → ℕ → ℕ
cover [] q = 0
cover (b ∷ list) q = over b q + cover list q

-- The blocks, free and in use, over an address.
abbrev pub owners : Heap → ℕ → ℕ
owners h q = cover h.free q + cover h.used q

pub cover-append : (xs ys : List Block) (q : ℕ) → cover (xs ++ ys) q ≡ cover xs q + cover ys q
cover-append [] ys q = omega arith
cover-append (b ∷ xs) ys q = omega (arith, cover-append xs ys q)

pub cover-list_insert :
    (b : Block) (list : List Block) (q : ℕ) → cover (list_insert b list) q ≡ over b q + cover list q
unfolding list_insert
cover-list_insert b [] q = refl
cover-list_insert b (x ∷ list) q = elim (Bool-cases (ltb x.addr b.addr)) [
  | inl below ↦ rw below (omega (arith, cover-list_insert b list q))
  | inr here ↦ rw here refl
]

over-join :
    (b next : Block) (q : ℕ) → touches b next ≡ true → over (join b next) q ≡ over b q + over next q
over-join b next q h = ground arith

pub cover-merge_forward :
    (b : Block) (list : List Block) (q : ℕ)
    → cover (merge_forward b list) q ≡ over b q + cover list q
unfolding merge_forward
cover-merge_forward b [] q = refl
cover-merge_forward b (next ∷ list) q = elim (Bool-cases (touches b next)) [
  | inl touch ↦ rw touch (omega (arith, over-join b next q touch))
  | inr apart ↦ rw apart refl
]

cover-merge_from :
    (list : List Block) (prev : Block) (addr q : ℕ)
    → cover (merge_from prev addr list) q ≡ over prev q + cover list q
unfolding merge_from
cover-merge_from [] prev addr q = refl
cover-merge_from (b ∷ list) prev addr q = elim (Bool-cases (b.addr == addr)) [
  | inl here ↦ elim (Bool-cases (touches prev b)) [
    | inl touch ↦
        rw (here, touch)
          (omega (arith, cover-merge_forward (join prev b) list q, over-join prev b q touch))
    | inr apart ↦ rw (here, apart) (omega (arith, cover-merge_forward b list q))
  ]
  | inr further ↦ rw further (omega (arith, cover-merge_from list b addr q))
]

pub cover-merge_at :
    (addr : ℕ) (list : List Block) (q : ℕ) → cover (merge_at addr list) q ≡ cover list q
unfolding merge_at
cover-merge_at addr [] q = refl
cover-merge_at addr (b ∷ list) q = elim (Bool-cases (b.addr == addr)) [
  | inl here ↦ rw here (cover-merge_forward b list q)
  | inr further ↦ rw further (cover-merge_from list b addr q)
]

pub add_other-inv :
    (x : Block) (o : Option (Block × List Block)) (b : Block) (others : List Block)
    → add_other x o ≡ some (b, others)
    → (rest : List Block) × (o ≡ some (b, rest)) × (others ≡ x ∷ rest)
unfolding add_other
add_other-inv x none b others e = cc
add_other-inv x (some (y, rest)) b others e = (rest, cc, cc)

pub cover-find_used :
    (addr : ℕ) (used : List Block) (b : Block) (others : List Block) (q : ℕ)
    → find_used addr used ≡ some (b, others)
    → cover used q ≡ over b q + cover others q
unfolding find_used
cover-find_used addr [] b others q e = cc
cover-find_used addr (x ∷ used) b others q e = elim (Bool-cases (x.addr == addr)) [
  | inl here ↦
      let e' : ◌≡◌ {A = Option (Block × List Block)} (some (x, used)) (some (b, others)) =
        rw here at e in
      let eb : x ≡ b = cc in let eo : used ≡ others = cc in rw (eb, eo)
  | inr further ↦
      let (rest, e', o) = add_other-inv x _ b others (rw further at e) in
      rw o (omega (arith, cover-find_used addr used b rest q e'))
]

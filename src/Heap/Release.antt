-- ===== src/Heap/Release.antt =====
-- c/rt/malloc.c: `free`.
use mellivora_os.Base.{
  All, Bool-cases, List, Option, [], ap, arith, false, if◌then◌else◌, inl, inr, ltb, none, refl,
  some, subst, sym, ℕ, ◌++◌, ◌+◌, ◌-◌, ◌<◌, ◌==◌, ◌||◌, ◌∙◌, ◌∷◌, ◌≡◌, ◌≢◌, ◌≤◌, ◌⊎◌,
}
use mellivora_os.Heap.{
  Block, Heap, header, find_used, add_other, free, free_block, free_imitation, imitates,
  list_insert,
}
use mellivora_os.Heap.Cover.{
  cover, owners, over, add_other-inv, cover-merge_at, cover-list_insert, cover-append,
}
use mellivora_os.Heap.Grow.{Disjoint}

find_used-none :
    (addr : ℕ) (used : List Block) → find_used addr used ≡ none → All (λ b. b.addr ≢ addr) used
unfolding find_used add_other
find_used-none addr [] e = tt
find_used-none addr (x ∷ used) e = elim (Bool-cases (x.addr == addr)) [
  | inl here ↦ absurd (let gone = rw here at e in cc)
  | inr further ↦ (
    ground (arith, further),
    find_used-none addr used (none_behind (find_used addr used) (rw further at e)),
  )
]
  where
    none_behind : (o : Option (Block × List Block)) → add_other x o ≡ none → o ≡ none
    none_behind none e' = refl
    none_behind (some (b, others)) e' = cc

-- The block at an address, and what stands before and behind it.
find_used-some :
    (addr : ℕ) (used : List Block) (b : Block) (others : List Block)
    → find_used addr used ≡ some (b, others)
    → (pre : List Block) × (post : List Block) × (used ≡ pre ++ (b ∷ post))
      × (others ≡ pre ++ post)
      × (b.addr ≡ addr)
unfolding find_used
find_used-some addr [] b others e = cc
find_used-some addr (x ∷ used) b others e = elim (Bool-cases (x.addr == addr)) [
  | inl here ↦
      let e' : ◌≡◌ {A = Option (Block × List Block)} (some (x, used)) (some (b, others)) =
        rw here at e in
      let eb : x ≡ b = cc in
      let eo : used ≡ others = cc in
      ([], used, ap (λ y. y ∷ used) eb, sym eo, ap (λ y. y.addr) (sym eb) ∙ ground (arith, here))
  | inr further ↦
      let (rest, e', o) = add_other-inv x _ b others (rw further at e) in
      let (pre, post, u, v, a) = find_used-some addr used b rest e' in
      (x ∷ pre, post, ap (λ l. x ∷ l) u, o ∙ ap (λ l. x ∷ l) v, a)
]

-- What `free` does: nothing, where no block in use begins 16 bytes before the pointer, and else it
-- takes that block, and no other, from those in use to the free ones.
abbrev pub Frees : ℕ → Heap → Heap → Type 0
Frees p h h' =
    (All (λ b. b.addr + header ≢ p) h.used × (h' ≡ h))
    ⊎ ((pre : List Block) × (b : Block) × (post : List Block) × (h.used ≡ pre ++ (b ∷ post))
        × (b.addr + header ≡ p)
        × (h'.used ≡ pre ++ post)
        × ((q : ℕ) → cover h'.free q ≡ over b q + cover h.free q)
        × (h'.memory ≡ h.memory))

none_low : (p : ℕ) (used : List Block) → p < header → All (λ b. b.addr + header ≢ p) used
none_low p [] l = tt
none_low p (b ∷ used) l = (λ e. omega (arith, e, l), none_low p used l)

none_at :
    (p : ℕ) (used : List Block)
    → header ≤ p
    → All (λ b. b.addr ≢ p - header) used
    → All (λ b. b.addr + header ≢ p) used
none_at p [] l a = tt
none_at p (b ∷ used) l (x, a) = (λ e. x (omega (arith, e, l)), none_at p used l a)

-- Take a pointer 16 bytes behind the header of a block, or one before which the bytes, those of no header,
-- do not imitate a header with the number 0x5A5A5A5A in its second word. `free` of the pointer does
-- the following. Where no block in use begins 16 bytes before the pointer (a null pointer, a block
-- that is free already, a pointer into a block), nothing changes. Otherwise this one block leaves
-- the blocks in use, the others stay in their order, over every address lies one more free block
-- exactly where the freed one lies, its header included, and no other byte changes.
pub free_lem : (p : ℕ) (h : Heap) → imitates (p - header) h ≡ false → Frees p h (free p h)
unfolding free free_block free_imitation
free_lem p h real = elim (Bool-cases (p == 0 || ltb p header)) [
  | inl bad ↦ inl (none_low p h.used (ground (arith, bad)), rw bad refl)
  | inr good ↦
      subst (Frees p h)
        (sym (ap (λ b. if b then h else freed (find_used (p - header) h.used)) good))
        (go (find_used (p - header) h.used) refl (ground (arith, good)))
]
  where
    freed : Option (Block × List Block) → Heap
    freed o = elim o [ none ↦ free_imitation (p - header) h | some found ↦ free_block h found ]

    go :
        (o : Option (Block × List Block))
        → find_used (p - header) h.used ≡ o
        → header ≤ p
        → Frees p h (freed o)
    go none e l = inl (none_at p h.used l (find_used-none (p - header) h.used e), rw real refl)
    go (some (b, others)) e l =
        let (pre, post, u, v, a) = find_used-some (p - header) h.used b others e in
        inr (
          pre,
          b,
          post,
          u,
          omega (arith, a, l),
          v,
          λ q.
              omega (
                arith,
                cover-merge_at b.addr (list_insert b h.free) q,
                cover-list_insert b h.free q,
              ),
          refl,
        )

cover-Frees : (p : ℕ) (h h' : Heap) (q : ℕ) → Frees p h h' → owners h' q ≡ owners h q
cover-Frees p h h' q (inl (none_there, same)) = rw same refl
cover-Frees p h h' q (inr (pre, b, post, u, a, v, c, m)) = omega (
  arith,
  c q,
  ap (λ l. cover l q) u,
  ap (λ l. cover l q) v,
  cover-append pre (b ∷ post) q,
  cover-append pre post q,
)

-- Without such an imitation, `free` keeps the blocks apart.
pub free-Disjoint :
    (p : ℕ) (h : Heap) → imitates (p - header) h ≡ false → Disjoint h → Disjoint (free p h)
free-Disjoint p h real d q = rw (cover-Frees p h (free p h) q (free_lem p h real)) (d q)

-- ===== src/Heap/Fit.antt =====
-- c/rt/malloc.c: `malloc` on a heap that has a block large enough.
use mellivora_os.Base.{
  ℕ, ◌+◌, ◌-◌, ◌^◌, ◌≤◌, ◌<◌, ◌≡◌, refl, ap, inl, inr, Option, none, some, List, [], ◌∷◌, ◌++◌,
  arith, ltb, leb, ltb→lt, Bool-cases, All, u32,
}
use mellivora_os.Heap.{
  Block, header, merge_forward, Found, first_fit, add_before, split_off, min_split,
}
use mellivora_os.Heap.Cover.{over, cover, cover-append, cover-merge_forward}

add_before-inv :
    (b : Block) (o : Option Found) (f : Found)
    → add_before b o ≡ some f
    → (g : Found) × (o ≡ some g) × (f ≡ record g { before = b ∷ g.before })
unfolding add_before
add_before-inv b none f e = cc
add_before-inv b (some g) f e = (g, refl, cc)

-- The search takes the list apart at its first block of the size that is needed.
pub first_fit_lem :
    (need : ℕ) (list : List Block) (f : Found)
    → first_fit need list ≡ some f
    → (list ≡ f.before ++ (f.block ∷ f.behind))
      × (need ≤ f.block.size)
      × All (λ b. b.size < need) f.before
unfolding first_fit
first_fit_lem need [] f e = cc
first_fit_lem need (b ∷ list) f e = elim (Bool-cases (ltb b.size need)) [
  | inl small ↦
      let (g, e', s) = add_before-inv b _ f (rw small at e) in
      let (split, fits, smaller) = first_fit_lem need list g e' in
      rw s (ap (◌∷◌ b) split, fits, (ltb→lt _ _ small, smaller))
  | inr large ↦
      let e' : some (record { before = []; block = b; behind = list }) ≡ some f = rw large at e in
      let s : record { before = []; block = b; behind = list } ≡ f = cc in
      rw (← s) (refl, ground arith, tt)
]

add_before-none : (b : Block) (o : Option Found) → add_before b o ≡ none → o ≡ none
unfolding add_before
add_before-none b none e = refl
add_before-none b (some f) e = cc

-- The search fails only where every block is too small.
pub first_fit-none :
    (need : ℕ) (list : List Block) → first_fit need list ≡ none → All (λ b. b.size < need) list
unfolding first_fit
first_fit-none need [] e = tt
first_fit-none need (b ∷ list) e = elim (Bool-cases (ltb b.size need)) [
  | inl small ↦ (ltb→lt _ _ small, first_fit-none need list (add_before-none b _ (rw small at e)))
  | inr large ↦ cc (let e' = rw large at e in e')
]

over-split :
    (b : Block) (need q : ℕ)
    → need + header ≤ b.size
    → over b q
      ≡ over (record b { size = need }) q
        + over (record { addr = b.addr + header + need; size = b.size - need - header }) q
over-split b need q h = ground arith

-- Cutting a block neither loses nor doubles a byte.
pub cover-split_off :
    (need : ℕ) (f : Found) (q : ℕ)
    → need ≤ f.block.size
    → need < 2 ^ 32 - min_split
    → over (split_off need f).0 q + cover (split_off need f).1 q
      ≡ cover (f.before ++ (f.block ∷ f.behind)) q
unfolding split_off
cover-split_off need f q h k = elim (Bool-cases (leb (u32 (need + min_split)) f.block.size)) [
  | inl cut ↦ rw cut (
      omega (
        arith,
        cover-append f.before (f.block ∷ f.behind) q,
        cover-append f.before (merge_forward rest f.behind) q,
        cover-merge_forward rest f.behind q,
        over-split f.block need q (ground arith),
      ))
  | inr whole ↦ rw whole (
      omega (arith, cover-append f.before (f.block ∷ f.behind) q, cover-append f.before f.behind q))
]
  where
    rest : Block
    rest = record { addr = f.block.addr + header + need; size = f.block.size - need - header }

-- What is handed out: at least the bytes asked for, from the size that was found.
pub split_off_size :
    (need : ℕ) (f : Found)
    → need ≤ f.block.size
    → ((split_off need f).0.addr ≡ f.block.addr) × (need ≤ (split_off need f).0.size)
unfolding split_off
split_off_size need f h = ground arith

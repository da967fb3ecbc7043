-- ===== src/Heap/Grow.antt =====
-- c/rt/malloc.c: `malloc` with the growth of the heap, and what it means for the blocks in use.
use mellivora_os.Base.{
  if◌then◌else◌, ◌==◌, false, ℕ, ◌+◌, ◌-◌, ◌%◌, ◌^◌, ◌≤◌, ◌<◌, ◌≡◌, refl, ap, inl, inr, some, List,
  [], ◌∷◌, arith, ltb, Bool-cases, All, Option, subst, sym, ◌⊎◌, none, ◌∙◌, ◌==◌, false,
}
use mellivora_os.Heap.{
  Block, Heap, header, list_insert, Found, first_fit, split_off, min_split, hand_out, need_of,
  grow_of, Reply, given, malloc, malloc_loop, add_fresh, null,
}
use mellivora_os.Heap.Cover.{cover, owners, over, cover-list_insert}
use mellivora_os.Heap.Fit.{first_fit_lem, cover-split_off, split_off_size, first_fit-none}

-- The rounded size holds the size that was asked for.
pub need_of_bounds :
    (size : ℕ)
    → size < 2 ^ 31
    → (size ≤ need_of size)
      × (8 ≤ need_of size)
      × (need_of size < size + 16)
      × (need_of size % 8 ≡ 0)
unfolding need_of
need_of_bounds size h = ground arith

grow_of_bounds :
    (need : ℕ) → need < 2 ^ 31 + 16 → (need + header ≤ grow_of need) × (grow_of need % 8 ≡ 0)
unfolding grow_of
grow_of_bounds need h = ground arith

abbrev AllBelow : ℕ → List Block → Type 0
AllBelow need list = All (λ b. b.size < need) list

not_below :
    (need : ℕ) (b : Block) (list : List Block)
    → need ≤ b.size
    → AllBelow need (list_insert b list)
    → ⊥
unfolding list_insert
not_below need b [] h k = omega arith
not_below need b (x ∷ list) h k = elim (Bool-cases (ltb x.addr b.addr)) [
  | inl below ↦ not_below need b list h (rw below at k).1
  | inr here ↦ omega (arith, (rw here at k).0)
]

-- What a successful call gives, on a heap whose blocks lie over `lies` addresses.
abbrev pub Gives : ℕ → Heap → (ℕ → ℕ) → Reply → Type 0
Gives size h lies r =
    (h' : Heap) × (b : Block) × (r ≡ given h' (b.addr + header))
    × (h'.used ≡ b ∷ h.used)
    × (size ≤ b.size)
    × (h'.memory ≡ h.memory)
    × ((q : ℕ) → owners h' q ≡ lies q)

Gives-hand_out :
    (size need : ℕ) (h : Heap) (f : Found)
    → first_fit need h.free ≡ some f
    → size ≤ need
    → need < 2 ^ 32 - min_split
    → Gives size h (owners h) (hand_out need h f)
unfolding hand_out
Gives-hand_out size need h f e k l =
    let (split, fits, _) = first_fit_lem need h.free f e in
    let (a, large) = split_off_size need f fits in
    let (b, free') = split_off need f in
    (
      record h { free = free'; used = b ∷ h.used },
      b,
      refl,
      refl,
      omega arith,
      refl,
      λ q. omega (arith, cover-split_off need f q fits l, ap (λ (t : List Block). cover t q) split),
    )

-- The fresh block of a growth at `old`.
abbrev pub fresh : ℕ → ℕ → Block
fresh size old = record { addr = old; size = grow_of (need_of size) - header }

malloc_loop-found :
    (need : ℕ) (h : Heap) (answers : List (Option ℕ)) (f : Found)
    → first_fit need h.free ≡ some f
    → malloc_loop need h answers ≡ hand_out need h f
unfolding malloc_loop
malloc_loop-found need h [] f e = rw (malloc_loop, e)
malloc_loop-found need h (none ∷ later) f e = rw (malloc_loop, e)
malloc_loop-found need h (some old ∷ later) f e =
    ap
      (λ o. elim o [
        | some g ↦ hand_out need h g
        | none ↦ if old == 0 then null h else malloc_loop need (add_fresh need old h) later
      ])
      e

malloc_loop-grow :
    (need : ℕ) (h : Heap) (old : ℕ) (later : List (Option ℕ))
    → 0 < old
    → first_fit need h.free ≡ none
    → malloc_loop need h (some old ∷ later) ≡ malloc_loop need (add_fresh need old h) later
unfolding malloc_loop
malloc_loop-grow need h old later there e =
    let real : (old == 0) ≡ false = ground (arith, there) in
    ap
      (λ o. elim o [
        | some g ↦ hand_out need h g
        | none ↦ if old == 0 then null h else malloc_loop need (add_fresh need old h) later
      ])
      e
    ∙ ap (λ b. if b then null h else malloc_loop need (add_fresh need old h) later) real

module _ (size : ℕ) (h : Heap) (old : ℕ) (later : List (Option ℕ)) (small : size < 2 ^ 31)
    (there : 0 < old) where
  -- Where some free block is large enough, `malloc` asks for no memory.
  Gives-found :
      (answers : List (Option ℕ)) (f : Found)
      → first_fit (need_of size) h.free ≡ some f
      → Gives size h (owners h) (malloc_loop (need_of size) h answers)
  Gives-found answers f e =
      subst (Gives size h (owners h)) (sym (malloc_loop-found (need_of size) h answers f e)) (
        Gives-hand_out size (need_of size) h f e (omega (arith, need_of_bounds size small))
          (omega (arith, need_of_bounds size small)))

  -- Otherwise the fresh block is large enough.
  Gives-grown :
      first_fit (need_of size) h.free ≡ none
      → Gives size h
          (λ q. owners h q + over (fresh size old) q)
          (malloc_loop (need_of size) h (some old ∷ later))
  unfolding add_fresh
  Gives-grown e =
      subst (Gives size h (λ q. owners h q + over (fresh size old) q))
        (sym (malloc_loop-grow (need_of size) h old later there e))
        (go (first_fit (need_of size) h1.free) refl)
    where
      h1 : Heap
      h1 = add_fresh (need_of size) old h

      go :
          (o : Option Found)
          → first_fit (need_of size) h1.free ≡ o
          → Gives size h
              (λ q. owners h q + over (fresh size old) q)
              (malloc_loop (need_of size) h1 later)
      go none e' = absurd (
          not_below (need_of size) (fresh size old) h.free
            (omega (arith, need_of_bounds size small, grow_of_bounds (need_of size)))
            (first_fit-none (need_of size) h1.free e'))
      go (some f) e' =
          let (h', b, r, used, fits, mem, own) =
            Gives-hand_out size (need_of size) h1 f e' (omega (arith, need_of_bounds size small))
              (omega (arith, need_of_bounds size small)) in
          (
            h',
            b,
            malloc_loop-found (need_of size) h1 later f e' ∙ r,
            used,
            fits,
            mem,
            λ q. omega (arith, own q, cover-list_insert (fresh size old) h.free q),
          )

  -- For a size below 2 ^ 31, and with one answer of `mv_sbrk` at hand that is an address other than
  -- 0, `malloc` ends with a block: no loop goes a third round. The block holds at least `size` bytes, it is the only new block in use, no payload byte
  -- changes, and over every address lie the blocks that lay there before, and the fresh block
  -- where the heap has grown.
  pub malloc_lem :
      Gives size h (owners h) (malloc size h (some old ∷ later))
      ⊎ Gives size h (λ q. owners h q + over (fresh size old) q) (malloc size h (some old ∷ later))
  unfolding malloc
  malloc_lem = go (first_fit (need_of size) h.free) refl
    where
      go :
          (o : Option Found)
          → first_fit (need_of size) h.free ≡ o
          → Gives size h (owners h) (malloc_loop (need_of size) h (some old ∷ later))
            ⊎ Gives size h
                (λ q. owners h q + over (fresh size old) q)
                (malloc_loop (need_of size) h (some old ∷ later))
      go (some f) e = inl (Gives-found (some old ∷ later) f e)
      go none e = inr (Gives-grown e)

-- No address lies in two blocks.
abbrev pub Disjoint : Heap → Type 0
Disjoint h = (q : ℕ) → owners h q ≤ 1

-- If no block overlaps another, nor the memory that `mv_sbrk` gives, then none does after `malloc` of
-- a size below 2 ^ 31, where `mv_sbrk` answers an address other than 0: `malloc` gives a block, and
-- it shares no byte with any other.
pub malloc-Disjoint :
    (size : ℕ) (h : Heap) (old : ℕ) (later : List (Option ℕ))
    → size < 2 ^ 31
    → 0 < old
    → Disjoint h
    → ((q : ℕ) → owners h q + over (fresh size old) q ≤ 1)
    → (h' : Heap) × (p : ℕ) × (malloc size h (some old ∷ later) ≡ given h' p) × Disjoint h'
malloc-Disjoint size h old later small there d apart =
    elim (malloc_lem size h old later small there) [
      | inl (h', b, r, used, fits, mem, own) ↦ (h', b.addr + header, r, λ q. rw (own q) (d q))
      | inr (h', b, r, used, fits, mem, own) ↦ (h', b.addr + header, r, λ q. rw (own q) (apart q))
    ]

need_of_wraps : (size : ℕ) → 2 ^ 32 - 7 ≤ size → size < 2 ^ 32 → need_of size ≡ 0
unfolding need_of
need_of_wraps size lo hi = ground arith

first_fit_zero :
    (b : Block) (list : List Block)
    → first_fit 0 (b ∷ list) ≡ some (record { before = []; block = b; behind = list })
unfolding first_fit
first_fit_zero b list = ground arith

split_zero : (f : Found) → 24 ≤ f.block.size → (split_off 0 f).0 ≡ record f.block { size = 0 }
unfolding split_off
split_zero f h = ground arith

-- A request from 2 ^ 32 - 7 up is rounded to 0, and the first free block is handed out whatever
-- its size; one of 24 bytes or more is cut down to an empty payload.
pub malloc_wraps :
    (size : ℕ) (b : Block) (list : List Block) (h : Heap) (answers : List (Option ℕ))
    → 2 ^ 32 - 7 ≤ size
    → size < 2 ^ 32
    → h.free ≡ b ∷ list
    → 24 ≤ b.size
    → (h' : Heap) × (malloc size h answers ≡ given h' (b.addr + header))
      × (h'.used ≡ record b { size = 0 } ∷ h.used)
unfolding malloc hand_out
malloc_wraps size b list h answers lo hi e large =
    (h', rw (need_of_wraps size lo hi) (malloc_loop-found 0 h answers found at_once ∙ cut), refl)
  where
    found : Found
    found = record { before = []; block = b; behind = list }

    at_once : first_fit 0 h.free ≡ some found
    at_once = rw e (first_fit_zero b list)

    h' : Heap
    h' = record h { free = (split_off 0 found).1; used = record b { size = 0 } ∷ h.used }

    cut : hand_out 0 h found ≡ given h' (b.addr + header)
    cut =
        ap
          (λ c.
            given (record h { free = (split_off 0 found).1; used = c ∷ h.used }) (c.addr + header))
          (split_zero found large)

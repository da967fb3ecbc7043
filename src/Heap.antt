-- ===== src/Heap.antt =====
-- c/rt/malloc.c: the first-fit heap. A block is its header's address and its payload's size; the
-- links of the free list are the order of the list `free`, and `used` has the blocks that `malloc`
-- gave a header that says BLK_USED. These headers are kept apart from `memory`, which has all other
-- bytes. Where an address is that of no header, the magic number is read from `memory`: other bytes
-- may imitate a header, and `free` and `realloc` then take them for one.
pub mod Cover
pub mod Fit
pub mod Grow
pub mod Release
mod Tests
use mellivora_os.Base.{
  add-one, ℕ, zero, suc, ◌+◌, ◌-◌, ◌*◌, ◌/◌, ◌%◌, ◌^◌, ◌≤◌, ◌<◌, min, bit_and, bit_or, ◌≡◌, refl,
  sym, ap, ◌∙◌, subst, fun_ext, ◌≢◌, ◌↔◌, ◌⊎◌, inl, inr, Bool, true, false, ◌&&◌, ◌||◌, not, Option,
  none, some, List, [], ◌∷◌, ◌++◌, map, append-nil, append_assoc, arith, dec_lt, ℕ_discrete, ltb,
  leb, ◌==◌, if◌then◌else◌, ltb→lt, lt→ltb, leb→le, ==_iff, tests, Bool-cases, Option-cases, length,
  get_elem?, set, length-append, get_or, take, drop, replicate, take-append-drop, length-take,
  length-drop, length-replicate, length-map, All, All-append, All-drop, drop-append_length, and_ten,
  u8, u16, u32, first, rest_of,
}
use mellivora_os.Str.Memory.{Memory, memcpy, memset}

-- `blk_t`.
pub record Block : Type 0 where
  pub addr : ℕ
  pub size : ℕ

pub record Heap : Type 0 where
  pub free : List Block
  pub used : List Block
  pub memory : Memory

-- HDR_SIZE, MIN_SPLIT and GROW_MIN.
abbrev pub header : ℕ
header = 16

abbrev pub min_split : ℕ
min_split = 24

abbrev pub grow_min : ℕ
grow_min = 4096

-- The address behind a block.
abbrev pub end_of : Block → ℕ
end_of b = b.addr + header + b.size

-- `(n + 7u) & ~7u`.
abbrev pub align8 : ℕ → ℕ
align8 n = u32 (n + 7) / 8 * 8

pub list_insert : Block → List Block → List Block
list_insert b [] = b ∷ []
list_insert b (x ∷ list) = if ltb x.addr b.addr then x ∷ list_insert b list else b ∷ x ∷ list

abbrev pub touches : Block → Block → Bool
touches b next = end_of b == next.addr

abbrev pub join : Block → Block → Block
join b next = record b { size = b.size + (header + next.size) }

-- The free list from `b` on, after a merge with the block behind it where they touch.
pub merge_forward : Block → List Block → List Block
merge_forward b [] = b ∷ []
merge_forward b (next ∷ list) = if touches b next then join b next ∷ list else b ∷ next ∷ list

-- The first block that is large enough, with the blocks before and behind it.
pub record Found : Type 0 where
  pub before : List Block
  pub block : Block
  pub behind : List Block

pub add_before : Block → Option Found → Option Found
add_before b none = none
add_before b (some f) = some (record f { before = b ∷ f.before })

pub first_fit : ℕ → List Block → Option Found
unfolding add_before
first_fit need [] = none
first_fit need (b ∷ list) =
    if ltb b.size need
    then add_before b (first_fit need list)
    else some (record { before = []; block = b; behind = list })

-- What the block is left at, and the free list without it.
pub split_off : ℕ → Found → Block × List Block
split_off need f =
    if leb (u32 (need + min_split)) f.block.size
    then (
      record f.block { size = need },
      f.before
          ++ merge_forward
              (record { addr = f.block.addr + header + need; size = f.block.size - need - header })
              f.behind,
    )
    else (f.block, f.before ++ f.behind)

unfoldable pub need_of : ℕ → ℕ
need_of size = align8 (if size == 0 then 1 else size)

unfoldable pub grow_of : ℕ → ℕ
grow_of need = align8 (if ltb (u32 (need + header)) grow_min then grow_min else u32 (need + header))

-- `waits`: the answers of `mv_sbrk` that were given are used up.
pub data Reply : Type 0 where
  null : Heap → Reply
  given : Heap → ℕ → Reply
  waits : Heap → Reply

-- Behind the search: the block is cut to size, unlinked and marked.
pub hand_out : ℕ → Heap → Found → Reply
unfolding split_off
hand_out need h f =
    let (b, free) = split_off need f in
    given (record h { free = free; used = b ∷ h.used }) (b.addr + header)

-- The heap with the block that `mv_sbrk` gave at `old`.
pub add_fresh : ℕ → ℕ → Heap → Heap
add_fresh need old h = record h {
  free = list_insert (record { addr = old; size = grow_of need - header }) h.free;
}

-- The loop of `malloc`, over what `mv_sbrk` answers call after call: `none` for a negative answer,
-- and else the old break, where the fresh block begins; an old break of 0 is the null pointer.
pub malloc_loop : ℕ → Heap → List (Option ℕ) → Reply
malloc_loop need h [] = elim (first_fit need h.free) [ some f ↦ hand_out need h f | none ↦ waits h ]
malloc_loop need h (none ∷ later) = elim (first_fit need h.free) [
  | some f ↦ hand_out need h f
  | none ↦ null h
]
malloc_loop need h (some old ∷ later) =
    let again = malloc_loop need (add_fresh need old h) later in
    elim (first_fit need h.free) [
      | some f ↦ hand_out need h f
      | none ↦ if old == 0 then null h else again
    ]

pub malloc : ℕ → Heap → List (Option ℕ) → Reply
unfolding malloc_loop
malloc size h answers = malloc_loop (need_of size) h answers

-- The block with this header address among those in use, and the others.
pub add_other : Block → Option (Block × List Block) → Option (Block × List Block)
add_other b none = none
add_other b (some (x, others)) = some (x, b ∷ others)

pub find_used : ℕ → List Block → Option (Block × List Block)
unfolding add_other
find_used addr [] = none
find_used addr (b ∷ used) =
    if b.addr == addr then some (b, used) else add_other b (find_used addr used)

-- The walk to the block at `addr`: it is merged with the block before it, where they touch, and
-- with the one behind it.
pub merge_from : Block → ℕ → List Block → List Block
merge_from prev addr [] = prev ∷ []
merge_from prev addr (b ∷ list) =
    let here =
      if touches prev b then merge_forward (join prev b) list else prev ∷ merge_forward b list in
    let further = prev ∷ merge_from b addr list in if b.addr == addr then here else further

pub merge_at : ℕ → List Block → List Block
merge_at addr [] = []
merge_at addr (b ∷ list) = if b.addr == addr then merge_forward b list else merge_from b addr list

pub free_block : Heap → Block × List Block → Heap
free_block h (b, others) = record h { free = merge_at b.addr (list_insert b h.free); used = others }

-- The u32 at an address, its least byte first.
abbrev pub word_at : Memory → ℕ → ℕ
word_at m q = m q + m (q + 1) * 256 + m (q + 2) * 65536 + m (q + 3) * 16777216

-- BLK_USED.
abbrev pub blk_used : ℕ
blk_used = 0x5A5A5A5A

-- Bytes of no header, of a free block or of one in use, that `free` takes for one: the magic number is
-- in their second word. The header of a free block says BLK_FREE.
unfoldable pub imitates : ℕ → Heap → Bool
imitates addr h =
    word_at h.memory (addr + 4) == blk_used
    && elim (find_used addr h.free) [ none ↦ true | some found ↦ false ]
    && elim (find_used addr h.used) [ none ↦ true | some found ↦ false ]

-- The block that such bytes are taken for: its size is in the first word.
abbrev pub imitation : ℕ → Heap → Block
imitation addr h = record { addr = addr; size = word_at h.memory addr }

-- `block->magic = BLK_FREE` is a store into `memory` there.
unfoldable pub free_imitation : ℕ → Heap → Heap
free_imitation addr h =
    if imitates addr h
    then free_block (record h { memory = memset h.memory (addr + 4) 0 4 })
        (imitation addr h, h.used)
    else h

-- The header of `p` is 16 bytes before it; below address 16 there is none.
pub free : ℕ → Heap → Heap
free p h = if p == 0 || ltb p header then h else elim (find_used (p - header) h.used) [
  | none ↦ free_imitation (p - header) h
  | some found ↦ free_block h found
]

-- The block whose header stands at an address and says BLK_USED.
pub used_block : ℕ → Heap → Option Block
used_block addr h = elim (find_used addr h.used) [
  | some (b, others) ↦ some b
  | none ↦ if imitates addr h then some (imitation addr h) else none
]

-- `if (p != NULL) memset(p, 0, bytes)`.
clear : ℕ → Reply → Reply
clear bytes (null h) = null h
clear bytes (given h p) = given (record h { memory = memset h.memory p 0 bytes }) p
clear bytes (waits h) = waits h

pub calloc : ℕ → ℕ → Heap → List (Option ℕ) → Reply
unfolding clear
calloc count size h answers =
    if not (count == 0) && ltb (0xFFFFFFFF / count) size
    then null h
    else clear (u32 (count * size)) (malloc (u32 (count * size)) h answers)

-- The copy into the fresh block, and the release of the old one.
move_to : ℕ → ℕ → Block → Reply → Reply
move_to p size b (null h) = null h
move_to p size b (given h fresh) =
    given
      (free p
        (record h { memory = memcpy h.memory fresh p (if ltb b.size size then b.size else size) }))
      fresh
move_to p size b (waits h) = waits h

pub realloc : ℕ → ℕ → Heap → List (Option ℕ) → Reply
unfolding move_to
realloc p size h answers =
    if p == 0
    then malloc size h answers
    else if size == 0
    then null (free p h)
    else elim (used_block (p - header) h) [
      | none ↦ null h
      | some b ↦
          if leb (align8 size) b.size then given h p else move_to p size b (malloc size h answers)
    ]

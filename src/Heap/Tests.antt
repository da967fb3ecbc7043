-- ===== src/Heap/Tests.antt =====
-- c/rt/malloc.c: the theorems at concrete heaps.
use mellivora_os.Base.{ℕ, ◌+◌, ◌≡◌, refl, ◌⊎◌, some, [], ◌∷◌, arith, ◌-◌, false}
use mellivora_os.Heap.{
  Heap, malloc, free, given, need_of, grow_of, imitates, find_used, add_other, header,
}
use mellivora_os.Heap.Cover.{over, owners}
use mellivora_os.Heap.Release.{Frees, free_lem, free-Disjoint}
use mellivora_os.Heap.Grow.{Gives, fresh, malloc_lem, Disjoint, malloc-Disjoint}

-- One free block of 64 bytes at 4096, and behind it one of 32 bytes in use.
abbrev small_heap : Heap
small_heap = record {
  free = record { addr = 4096; size = 64 } ∷ [];
  used = record { addr = 4176; size = 32 } ∷ [];
  memory = λ q. 0;
}

small_heap-Disjoint : Disjoint small_heap
small_heap-Disjoint q = ground arith

fresh_size : (q : ℕ) → over (fresh 100 8192) q ≡ over (record { addr = 8192; size = 4080 }) q
unfolding need_of grow_of
fresh_size q = refl

malloc_lem_example :
    Gives 100 small_heap (owners small_heap) (malloc 100 small_heap (some 8192 ∷ []))
    ⊎ Gives 100 small_heap
        (λ q. owners small_heap q + over (fresh 100 8192) q)
        (malloc 100 small_heap (some 8192 ∷ []))
malloc_lem_example = malloc_lem 100 small_heap 8192 [] (omega arith) (omega arith)

malloc-Disjoint_example :
    (h' : Heap) × (p : ℕ) × (malloc 100 small_heap (some 8192 ∷ []) ≡ given h' p) × Disjoint h'
malloc-Disjoint_example =
    malloc-Disjoint 100 small_heap 8192 [] (omega arith) (omega arith) small_heap-Disjoint
      (λ q. ground (arith, fresh_size q))

small_heap_real : imitates (4192 - header) small_heap ≡ false
unfolding imitates find_used add_other
small_heap_real = refl

free-Disjoint_example : Disjoint (free 4192 small_heap)
free-Disjoint_example = free-Disjoint 4192 small_heap small_heap_real small_heap-Disjoint

free_lem_example : Frees 4192 small_heap (free 4192 small_heap)
free_lem_example = free_lem 4192 small_heap small_heap_real

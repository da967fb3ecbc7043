-- ===== src/Thread/Tests.antt =====
-- c/rt/thread.c: runs over a kernel with room for one stack, and the theorem at a concrete input.
use mellivora_os.Thread.{
  Kernel, Threads, stack_size, remember_stack, forget_stack, mv_thread_create,
}
use mellivora_os.Thread.Stacks.{one_if, uses}
use mellivora_os.Thread.Laws.{Mappings, creates, here, next, Reach-released_once}
use mellivora_os.Base.Int.{pos}
use mellivora_os.Base.{
  ℕ, ◌+◌, ◌≡◌, refl, Bool, true, false, none, some, arith, ◌==◌, if◌then◌else◌, replicate,
}

-- The world is whether the stack at 4096 is mapped.
abbrev small : Kernel Bool
small = record {
  mmap = λ n w. if w then (none, w) else (some 4096, true);
  munmap = λ a n w. if a == 4096 then false else w;
  put = λ a v w. w;
  clone = λ fn sp w. (some 7, w);
  waitpid = λ id w. (some 0, w);
  detach = λ id w. (true, w);
  cancel = λ id w. (true, w);
  set_priority = λ id prio w. (pos 0, w);
  yielded = λ w. (pos 0, w);
}

abbrev small_mapped : Bool → ℕ → ℕ
small_mapped w a = if w then one_if (4096 == a) else 0

small-given :
    (w : Bool) (a x : ℕ)
    → (small.mmap stack_size w).0 ≡ some a
    → small_mapped (small.mmap stack_size w).1 x ≡ one_if (a == x) + small_mapped w x
small-given false a x h = ground (arith, h)
small-given true a x h = ground (arith, h)

small-released :
    (a n : ℕ) (w : Bool) (x : ℕ)
    → small_mapped (small.munmap a n w) x ≡ (if x == a then 0 else small_mapped w x)
small-released a n true x = ground arith
small-released a n false x = ground arith

small-refused :
    (w : Bool) (x : ℕ)
    → (small.mmap stack_size w).0 ≡ none
    → small_mapped (small.mmap stack_size w).1 x ≡ small_mapped w x
small-refused false x h = ground (arith, h)
small-refused true x h = refl

small-Mappings : Mappings small
small-Mappings = record {
  mapped = small_mapped;
  at_most_one = λ w a. ground arith;
  mmap_some = λ n w a x h. small-given w a x h;
  mmap_none = λ n w x h. small-refused w x h;
  munmap_one = small-released;
  put_same = λ a v w x. refl;
  clone_same = λ fn sp w x. refl;
  waitpid_same = λ id w x. refl;
  detach_same = λ id w x. refl;
  cancel_same = λ id w x. refl;
  priority_same = λ id prio w x. refl;
  yield_same = λ w x. refl;
}

abbrev no_stacks : Threads Bool
no_stacks = record { world = false; stacks = replicate 8 (record { id = 0; stack = 0; size = 0 }) }

abbrev with_thread : Threads Bool
with_thread = (mv_thread_create small 99 1 0 no_stacks).1

created_run : (mv_thread_create small 99 1 0 no_stacks).0 ≡ some 7
unfolding mv_thread_create
created_run = refl

Reach-released_once_example :
    (small_mapped with_thread.world 4096 ≡ 1)
    × (uses 4096 (forget_stack 7 with_thread.stacks).1 ≡ 0)
unfolding mv_thread_create remember_stack forget_stack uses small-Mappings
Reach-released_once_example =
    Reach-released_once small 99 small-Mappings 7 (4096, stack_size) (λ a. ground arith)
      (next here (creates 1 0 no_stacks)) refl

-- ===== src/Thread.antt =====
-- c/rt/thread.c: threads, and the table of their stacks. The system calls are parameters over a world that
-- they change, the memory included.
pub mod Stacks
pub mod Laws
mod Tests
use mathlib.Core.Option
use mellivora_os.Base.Int.{ℤ}
use mellivora_os.Base.{
  take_zero, take_nil, take-take, add-one, ℕ, zero, suc, ◌+◌, ◌-◌, ◌*◌, ◌/◌, ◌%◌, ◌^◌, ◌≤◌, ◌<◌,
  min, bit_and, bit_or, ◌≡◌, refl, sym, ap, ◌∙◌, subst, fun_ext, ◌≢◌, ◌↔◌, ◌⊎◌, inl, inr, Bool,
  true, false, ◌&&◌, ◌||◌, not, Option, none, some, List, [], ◌∷◌, ◌++◌, map, append-nil,
  append_assoc, arith, dec_lt, ℕ_discrete, ltb, leb, ◌==◌, if◌then◌else◌, ltb→lt, lt→ltb, leb→le,
  ==_iff, tests, Bool-cases, Option-cases, length, get_elem?, set, length-append, get_or, take,
  drop, replicate, take-append-drop, length-take, length-drop, length-replicate, length-map, All,
  All-append, All-drop, drop-append_length, and_ten, u8, u16, u32, first, rest_of,
}

-- An entry of `stacks`, which is free where `stack` is 0. A thread's id is a number above 0.
pub record Slot : Type 0 where
  pub id : ℕ
  pub stack : ℕ
  pub size : ℕ

-- `mmap size` gives an address, none on an error; `clone fn sp` the id of the new thread, none where it is
-- not above 0; `waitpid id` the status. `detach` and `cancel` are whether the call succeeded, and `put` stores a word.
pub record Kernel (W : Type 0) : Type 0 where
  pub mmap : ℕ → W → Option ℕ × W
  pub munmap : ℕ → ℕ → W → W
  pub put : ℕ → ℕ → W → W
  pub clone : ℕ → ℕ → W → Option ℕ × W
  pub waitpid : ℕ → W → Option ℕ × W
  pub detach : ℕ → W → Bool × W
  pub cancel : ℕ → W → Bool × W
  pub set_priority : ℕ → ℕ → W → ℤ × W
  pub yielded : W → ℤ × W

pub record Threads (W : Type 0) : Type 0 where
  pub world : W
  pub stacks : List Slot

abbrev pub stack_size : ℕ
stack_size = 64 * 1024

-- None where all entries are taken.
unfoldable pub remember_stack : ℕ → ℕ → ℕ → List Slot → Option (List Slot)
remember_stack id stack size [] = none
remember_stack id stack size (s ∷ slots) =
    if s.stack == 0
    then some (record { id = id; stack = stack; size = size } ∷ slots)
    else Option.map (λ rest. s ∷ rest) (remember_stack id stack size slots)

-- The stack of a thread with its size, and the table without it.
unfoldable pub forget_stack : ℕ → List Slot → Option (ℕ × ℕ) × List Slot
forget_stack id [] = (none, [])
forget_stack id (s ∷ slots) =
    let rest = forget_stack id slots in
    if not (s.stack == 0) && s.id == id
    then (some (s.stack, s.size), record s { stack = 0; id = 0 } ∷ slots)
    else (rest.0, s ∷ rest.1)

abbrev pub keep_or : List Slot → Option (List Slot) → List Slot
keep_or slots none = slots
keep_or slots (some rest) = rest

module _ {W : Type 0} (k : Kernel W) (thunk : ℕ) where
  -- What the clone gave: a stack that no thread got is released.
  abbrev pub thread_made : List Slot → ℕ → Option ℕ × W → Option ℕ × Threads W
  thread_made slots stack (none, w) =
      (none, record { world = k.munmap stack stack_size w; stacks = slots })
  thread_made slots stack (some tid, w) = (
    some tid,
    record { world = w; stacks = keep_or slots (remember_stack tid stack stack_size slots) },
  )

  -- The words at the top of the stack, then the clone.
  abbrev pub start_thread : ℕ → ℕ → ℕ → W → Option ℕ × W
  start_thread fn arg stack w =
      let top = stack + stack_size in
      k.clone fn (top - 8) (k.put (top - 8) thunk (k.put (top - 4) arg w))

  -- The id of the new thread. `thunk` is the address of `mv_thread_exit_thunk`; `id` is not null.
  unfoldable pub mv_thread_create : ℕ → ℕ → Threads W → Option ℕ × Threads W
  mv_thread_create fn arg t =
      let (stack_or, w) = k.mmap stack_size t.world in
      if fn == 0 then (none, t) else elim stack_or [
        | none ↦ (none, record t { world = w })
        | some stack ↦ thread_made t.stacks stack (start_thread fn arg stack w)
      ]

  -- The stack of a thread that was joined is released.
  abbrev pub release : W → Option (ℕ × ℕ) × List Slot → Threads W
  release w (none, slots) = record { world = w; stacks = slots }
  release w (some s, slots) = record { world = k.munmap s.0 s.1 w; stacks = slots }

  abbrev pub thread_joined : ℕ → List Slot → Option ℕ × W → Option ℕ × Threads W
  thread_joined id slots (none, w) = (none, record { world = w; stacks = slots })
  thread_joined id slots (some r, w) = (some r, release w (forget_stack id slots))

  -- The status of the thread, none where there is no such thread or the status is below 0.
  unfoldable pub mv_thread_join : ℕ → Threads W → Option ℕ × Threads W
  mv_thread_join id t = thread_joined id t.stacks (k.waitpid id t.world)

  unfoldable pub mv_thread_detach : ℕ → Threads W → Bool × Threads W
  mv_thread_detach id t =
      let (done, w) = k.detach id t.world in
      if done
      then (true, record { world = w; stacks = (forget_stack id t.stacks).1 })
      else (false, record t { world = w })

  abbrev pub mv_thread_yield : Threads W → ℤ × Threads W
  mv_thread_yield t = ((k.yielded t.world).0, record t { world = (k.yielded t.world).1 })

  abbrev pub mv_thread_set_priority : ℕ → ℕ → Threads W → ℤ × Threads W
  mv_thread_set_priority id prio t =
      let (old, w) = k.set_priority id prio t.world in (old, record t { world = w })

  abbrev pub mv_thread_cancel : ℕ → Threads W → Bool × Threads W
  mv_thread_cancel id t = let (done, w) = k.cancel id t.world in (done, record t { world = w })

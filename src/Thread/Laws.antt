-- ===== src/Thread/Laws.antt =====
-- c/rt/thread.c: over any sequence of calls, which stacks the table may still have.
use mellivora_os.Thread.{
  Slot, Kernel, Threads, stack_size, forget_stack, thread_made, start_thread, release,
  thread_joined, mv_thread_create, mv_thread_join, mv_thread_detach, mv_thread_yield,
  mv_thread_set_priority, mv_thread_cancel,
}
use mellivora_os.Thread.Stacks.{one_if, uses, uses-remember_stack, gone, uses-forget_stack}
use mellivora_os.Base.{
  ℕ, ◌+◌, ◌≤◌, ◌≡◌, ◌∙◌, subst, inl, inr, Option, none, some, List, arith, ◌==◌, if◌then◌else◌,
  Bool-cases, Option-cases,
}

-- What the kernel says of mappings: `mapped w a` is 1 where a mapping that is not released begins at `a`,
-- and 0 elsewhere. `mmap` gives a new one, `munmap` releases one, and no other call changes them.
pub record Mappings {W : Type 0} (k : Kernel W) : Type 0 where
  pub mapped : W → ℕ → ℕ
  pub at_most_one : (w : W) (a : ℕ) → mapped w a ≤ 1
  pub mmap_some :
      (n : ℕ) (w : W) (a x : ℕ)
      → (k.mmap n w).0 ≡ some a
      → mapped (k.mmap n w).1 x ≡ one_if (a == x) + mapped w x
  pub mmap_none :
      (n : ℕ) (w : W) (x : ℕ) → (k.mmap n w).0 ≡ none → mapped (k.mmap n w).1 x ≡ mapped w x
  pub munmap_one :
      (a n : ℕ) (w : W) (x : ℕ) → mapped (k.munmap a n w) x ≡ (if x == a then 0 else mapped w x)
  pub put_same : (a v : ℕ) (w : W) (x : ℕ) → mapped (k.put a v w) x ≡ mapped w x
  pub clone_same : (fn sp : ℕ) (w : W) (x : ℕ) → mapped (k.clone fn sp w).1 x ≡ mapped w x
  pub waitpid_same : (id : ℕ) (w : W) (x : ℕ) → mapped (k.waitpid id w).1 x ≡ mapped w x
  pub detach_same : (id : ℕ) (w : W) (x : ℕ) → mapped (k.detach id w).1 x ≡ mapped w x
  pub cancel_same : (id : ℕ) (w : W) (x : ℕ) → mapped (k.cancel id w).1 x ≡ mapped w x
  pub priority_same :
      (id prio : ℕ) (w : W) (x : ℕ) → mapped (k.set_priority id prio w).1 x ≡ mapped w x
  pub yield_same : (w : W) (x : ℕ) → mapped (k.yielded w).1 x ≡ mapped w x

-- One call, and the states that calls lead to from `s`.
pub data Step {W : Type 0} (k : Kernel W) (thunk : ℕ) : Threads W → Threads W → Type 0 where
  creates : (fn arg : ℕ) (t : Threads W) → Step k thunk t (mv_thread_create k thunk fn arg t).1
  joins : (id : ℕ) (t : Threads W) → Step k thunk t (mv_thread_join k thunk id t).1
  detaches : (id : ℕ) (t : Threads W) → Step k thunk t (mv_thread_detach k thunk id t).1
  cancels : (id : ℕ) (t : Threads W) → Step k thunk t (mv_thread_cancel k thunk id t).1
  sets_priority :
      (id prio : ℕ) (t : Threads W) → Step k thunk t (mv_thread_set_priority k thunk id prio t).1
  yields : (t : Threads W) → Step k thunk t (mv_thread_yield k thunk t).1

pub data Reach {W : Type 0} (k : Kernel W) (thunk : ℕ) (s : Threads W) : Threads W → Type 0 where
  here : Reach k thunk s s
  next : {t u : Threads W} → Reach k thunk s t → Step k thunk t u → Reach k thunk s u

module _ {W : Type 0} (k : Kernel W) (thunk : ℕ) (laws : Mappings k) where
  -- The stacks of the table are mapped, each of them is there once.
  abbrev pub IsSound : Threads W → Type 0
  IsSound t = (a : ℕ) → uses a t.stacks ≤ laws.mapped t.world a

  made-IsSound :
      (slots : List Slot) (stack : ℕ) (r : Option ℕ × W) (a : ℕ)
      → one_if (stack == a) + uses a slots ≤ laws.mapped r.1 a
      → uses a (thread_made k thunk slots stack r).1.stacks
        ≤ laws.mapped (thread_made k thunk slots stack r).1.world a
  made-IsSound slots stack (none, w) a h =
      let one = laws.at_most_one w a in
      rw (laws.munmap_one stack stack_size w a) (ground (arith, h, one))
  made-IsSound slots stack (some tid, w) a h =
      let more = uses-remember_stack a tid stack stack_size slots in omega (arith, h, more)

  start-same :
      (fn arg stack : ℕ) (w : W) (a : ℕ)
      → laws.mapped (start_thread k thunk fn arg stack w).1 a ≡ laws.mapped w a
  start-same fn arg stack w a =
      laws.clone_same _ _ _ a ∙ laws.put_same _ _ _ a ∙ laws.put_same _ _ w a

  create-IsSound :
      (fn arg : ℕ) (t : Threads W) → IsSound t → IsSound (mv_thread_create k thunk fn arg t).1
  unfolding mv_thread_create
  create-IsSound fn arg t h a =
      let held = h a in
      let w = (k.mmap stack_size t.world).1 in
      elim (Bool-cases (fn == 0)) [
        | inl null ↦ rw null held
        | inr real ↦ elim (Option-cases (k.mmap stack_size t.world).0) [
          | inl refused ↦
              let same = laws.mmap_none stack_size t.world a refused in
              rw (real, refused, same) held
          | inr (stack, given) ↦
              let fresh = laws.mmap_some stack_size t.world stack a given in
              let later = start-same fn arg stack w a in
              rw (real, given)
                (made-IsSound t.stacks stack (start_thread k thunk fn arg stack w) a
                  (omega (arith, held, fresh, later)))
        ]
      ]

  release-IsSound :
      (w : W) (slots : List Slot) (r : Option (ℕ × ℕ) × List Slot) (a : ℕ)
      → uses a slots ≤ laws.mapped w a
      → uses a slots ≡ gone a r.0 + uses a r.1
      → uses a (release k thunk w r).stacks ≤ laws.mapped (release k thunk w r).world a
  release-IsSound w slots (none, rest) a h split = omega (arith, h, split)
  release-IsSound w slots (some s, rest) a h split =
      let one = laws.at_most_one w a in
      rw (laws.munmap_one s.0 s.1 w a) (ground (arith, h, one, split))

  joined-IsSound :
      (id : ℕ) (slots : List Slot) (r : Option ℕ × W) (a : ℕ)
      → uses a slots ≤ laws.mapped r.1 a
      → uses a (thread_joined k thunk id slots r).1.stacks
        ≤ laws.mapped (thread_joined k thunk id slots r).1.world a
  joined-IsSound id slots (none, w) a h = h
  joined-IsSound id slots (some r, w) a h =
      release-IsSound w slots (forget_stack id slots) a h (uses-forget_stack a id slots)

  join-IsSound : (id : ℕ) (t : Threads W) → IsSound t → IsSound (mv_thread_join k thunk id t).1
  unfolding mv_thread_join
  join-IsSound id t h a =
      let held = h a in
      let same = laws.waitpid_same id t.world a in
      joined-IsSound id t.stacks (k.waitpid id t.world) a (omega (arith, held, same))

  detach-IsSound : (id : ℕ) (t : Threads W) → IsSound t → IsSound (mv_thread_detach k thunk id t).1
  unfolding mv_thread_detach
  detach-IsSound id t h a =
      let held = h a in
      let same = laws.detach_same id t.world a in
      let split = uses-forget_stack a id t.stacks in
      elim (Bool-cases (k.detach id t.world).0) [
        | inl ok ↦ rw (ok, same) (omega (arith, held, split))
        | inr bad ↦ rw (bad, same) held
      ]

  Step-IsSound : {t u : Threads W} → Step k thunk t u → IsSound t → IsSound u
  Step-IsSound (creates fn arg t) h = create-IsSound fn arg t h
  Step-IsSound (joins id t) h = join-IsSound id t h
  Step-IsSound (detaches id t) h = detach-IsSound id t h
  Step-IsSound (cancels id t) h = λ a. rw (laws.cancel_same id t.world a) (h a)
  Step-IsSound (sets_priority id prio t) h = λ a. rw (laws.priority_same id prio t.world a) (h a)
  Step-IsSound (yields t) h = λ a. rw (laws.yield_same t.world a) (h a)

  Reach-IsSound : {s t : Threads W} → IsSound s → Reach k thunk s t → IsSound t
  Reach-IsSound h here = h
  Reach-IsSound h (next r st) = Step-IsSound st (Reach-IsSound h r)

  -- A stack that is found in the table is mapped, and is in the table no second time.
  found-once :
      (id : ℕ) (t : Threads W) (s : ℕ × ℕ)
      → IsSound t
      → (forget_stack id t.stacks).0 ≡ some s
      → (laws.mapped t.world s.0 ≡ 1) × (uses s.0 (forget_stack id t.stacks).1 ≡ 0)
  found-once id t s h found =
      let held = h s.0 in
      let one = laws.at_most_one t.world s.0 in
      let split : uses s.0 t.stacks ≡ one_if (s.0 == s.0) + uses s.0 (forget_stack id t.stacks).1 =
        subst (λ o. uses s.0 t.stacks ≡ gone s.0 o + uses s.0 (forget_stack id t.stacks).1) found
          (uses-forget_stack s.0 id t.stacks) in
      ground (arith, held, one, split)

  -- The mappings being what the kernel says: from a state in which no stack is in the table twice, nor one
  -- that is not mapped, whatever calls of `mv_thread_create`, `mv_thread_join`, `mv_thread_detach` and
  -- the others follow and however they end, the stack that `mv_thread_join` then finds for a
  -- thread, and releases, is a mapping that is not released yet, and the table has it no second time.
  pub Reach-released_once :
      {s t : Threads W} (id : ℕ) (stack : ℕ × ℕ)
      → IsSound s
      → Reach k thunk s t
      → (forget_stack id t.stacks).0 ≡ some stack
      → (laws.mapped t.world stack.0 ≡ 1) × (uses stack.0 (forget_stack id t.stacks).1 ≡ 0)
  Reach-released_once {t = t} id stack h r found = found-once id t stack (Reach-IsSound h r) found

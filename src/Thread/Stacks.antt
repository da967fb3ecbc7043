-- ===== src/Thread/Stacks.antt =====
-- c/rt/thread.c: how often an address stands in the table of the stacks.
use mathlib.Core.Option
use mellivora_os.Thread.{Slot, keep_or, remember_stack, forget_stack}
use mellivora_os.Base.{
  ℕ, ◌+◌, ◌≤◌, ◌≡◌, refl, inl, inr, Bool, ◌&&◌, not, Option, none, some, List, [], ◌∷◌, arith, ◌==◌,
  if◌then◌else◌, Bool-cases,
}

abbrev pub one_if : Bool → ℕ
one_if b = if b then 1 else 0

unfoldable pub uses : ℕ → List Slot → ℕ
uses a [] = 0
uses a (s ∷ slots) = one_if (not (s.stack == 0) && s.stack == a) + uses a slots

uses-map :
    (a : ℕ) (s : Slot) (slots : List Slot) (o : Option (List Slot))
    → uses a (keep_or (s ∷ slots) (Option.map (λ rest. s ∷ rest) o))
      ≡ one_if (not (s.stack == 0) && s.stack == a) + uses a (keep_or slots o)
unfolding uses
uses-map a s slots none = refl
uses-map a s slots (some rest) = refl

-- A stack that is put in the table is there at most once more, and nothing else changes.
pub uses-remember_stack :
    (a id stack size : ℕ) (slots : List Slot)
    → uses a (keep_or slots (remember_stack id stack size slots))
      ≤ one_if (stack == a) + uses a slots
unfolding uses remember_stack
uses-remember_stack a id stack size [] = ground arith
uses-remember_stack a id stack size (s ∷ slots) =
    let ih = uses-remember_stack a id stack size slots in
    elim (Bool-cases (s.stack == 0)) [
      | inl free ↦ rw free (ground arith)
      | inr taken ↦
          rw (taken, uses-map a s slots (remember_stack id stack size slots)) (ground (arith, ih))
    ]

-- What a stack that was forgotten takes out of the table.
abbrev pub gone : ℕ → Option (ℕ × ℕ) → ℕ
gone a none = 0
gone a (some s) = one_if (s.0 == a)

pub uses-forget_stack :
    (a id : ℕ) (slots : List Slot)
    → uses a slots ≡ gone a (forget_stack id slots).0 + uses a (forget_stack id slots).1
unfolding uses forget_stack
uses-forget_stack a id [] = refl
uses-forget_stack a id (s ∷ slots) =
    let ih = uses-forget_stack a id slots in
    elim (Bool-cases (not (s.stack == 0) && s.id == id)) [
      | inl found ↦ rw found (ground arith)
      | inr other ↦ rw other (ground (arith, ih))
    ]

-- ===== src/Stdlib/Process.antt =====
-- c/rt/stdlib.c: the end of the process, atexit with mv_run_atexit and exit of c/rt/malloc.c, and getenv.
pub mod Laws
use mellivora_os.Base.{
  take_zero, take_nil, take-take, add-one, ℕ, zero, suc, ◌+◌, ◌-◌, ◌*◌, ◌/◌, ◌%◌, ◌^◌, ◌≤◌, ◌<◌,
  min, bit_and, bit_or, ◌≡◌, refl, sym, ap, ◌∙◌, subst, fun_ext, ◌≢◌, ◌↔◌, ◌⊎◌, inl, inr, Bool,
  true, false, ◌&&◌, ◌||◌, not, Option, none, some, List, [], ◌∷◌, ◌++◌, map, append-nil,
  append_assoc, arith, dec_lt, ℕ_discrete, ltb, leb, ◌==◌, if◌then◌else◌, ltb→lt, lt→ltb, leb→le,
  ==_iff, tests, Bool-cases, Option-cases, length, get_elem?, set, length-append, get_or, take,
  drop, replicate, take-append-drop, length-take, length-drop, length-replicate, length-map, All,
  All-append, All-drop, drop-append_length, and_ten, u8, u16, u32, first, rest_of,
}

-- The functions in `atexit_funcs`, below `atexit_count`, the last one first; and what they change.
pub record Exits (W : Type 0) : Type 0 where
  pub world : W
  pub funcs : List ℕ

-- Whether the function was taken. A null function is 0.
unfoldable pub atexit : {W : Type 0} → ℕ → Exits W → Bool × Exits W
atexit fn x =
    if fn == 0 || leb 8 (length x.funcs)
    then (false, x)
    else (true, record x { funcs = fn ∷ x.funcs })

module _ {W : Type 0} (call : ℕ → Exits W → Exits W) where
  -- A function that is called may register others, which are called too; none where the fuel runs out.
  unfoldable pub mv_run_atexit : ℕ → Exits W → Option (Exits W)
  mv_run_atexit zero x = none
  mv_run_atexit (suc fuel) x = elim x.funcs [
    | [] ↦ some x
    | fn ∷ funcs ↦ mv_run_atexit fuel (call fn (record x { funcs = funcs }))
  ]

  -- The status that `mv_exit` ends the process with, once the functions have run; 134 is what `abort` asks for.
  abbrev pub exit : ℕ → ℕ → Exits W → Option (ℕ × W)
  exit fuel status x = elim (mv_run_atexit fuel x) [
    | none ↦ none
    | some done ↦ some (status, done.world)
  ]

  abbrev pub abort : ℕ → Exits W → Option (ℕ × W)
  abort fuel x = exit fuel 134 x

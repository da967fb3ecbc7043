-- ===== src/Args.antt =====
-- c/rt/args.c: the command line. The two inner loops of mv_args count what strspn and strcspn count.
pub mod Laws
mod Tests
use mellivora_os.Str.Span.{strspn, strcspn}
use mellivora_os.Base.{
  take_zero, take_nil, take-take, add-one, ℕ, zero, suc, ◌+◌, ◌-◌, ◌*◌, ◌/◌, ◌%◌, ◌^◌, ◌≤◌, ◌<◌,
  min, bit_and, bit_or, ◌≡◌, refl, sym, ap, ◌∙◌, subst, fun_ext, ◌≢◌, ◌↔◌, ◌⊎◌, inl, inr, Bool,
  true, false, ◌&&◌, ◌||◌, not, Option, none, some, List, [], ◌∷◌, ◌++◌, map, append-nil,
  append_assoc, arith, dec_lt, ℕ_discrete, ltb, leb, ◌==◌, if◌then◌else◌, ltb→lt, lt→ltb, leb→le,
  ==_iff, tests, Bool-cases, Option-cases, length, get_elem?, set, length-append, get_or, take,
  drop, replicate, take-append-drop, length-take, length-drop, length-replicate, length-map, All,
  All-append, All-drop, drop-append_length, and_ten, u8, u16, u32, first, rest_of,
}

-- A space and a tab.
abbrev pub blanks : List ℕ
blanks = 32 ∷ (9 ∷ [])

-- The rest of a round, at the byte behind the blanks, with the rounds behind it; `room` is `max - argc`
-- once this argument is counted.
abbrev pub args_at : (List ℕ → List (List ℕ)) → ℕ → List ℕ → List (List ℕ)
args_at later room [] = []
args_at later room (c ∷ s) =
    let n = strcspn (c ∷ s) blanks in
    (if room == 0 then c ∷ s else take n (c ∷ s)) ∷ later (drop n (c ∷ s))

-- The strings behind `argv[argc]` and up, as they are when `mv_args` is done. A blank behind an argument
-- is overwritten in the next round only: behind the last one that `argv` has room for the rest of the
-- line stays.
unfoldable pub args_loop : ℕ → ℕ → List ℕ → List (List ℕ)
args_loop zero room p = []
args_loop (suc fuel) zero p = []
args_loop (suc fuel) (suc room) p = args_at (args_loop fuel room) room (drop (strspn p blanks) p)

-- `line` is what `mv_getargs` puts in the buffer, none where it fails. Every round of the loop takes a
-- byte at least, so that the length of the line is enough.
unfoldable pub mv_args : List ℕ → Option (List ℕ) → ℕ → List (List ℕ)
mv_args prog line zero = []
mv_args prog none (suc max) = prog ∷ []
mv_args prog (some line) (suc max) = prog ∷ args_loop (length line) max line

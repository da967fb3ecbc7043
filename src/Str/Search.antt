-- ===== src/Str/Search.antt =====
-- c/rt/string.c: strchr, strrchr and strstr. A result is an offset into the string that was
-- searched, or the null pointer.
pub mod Laws
pub mod Sub
use mellivora_os.Base.{
  ℕ, zero, suc, ◌+◌, ◌-◌, ◌*◌, ◌/◌, ◌%◌, ◌^◌, ◌≤◌, ◌<◌, min, bit_and, bit_or, ◌≡◌, refl, sym, ap,
  ◌∙◌, subst, fun_ext, ◌≢◌, ◌↔◌, ◌⊎◌, inl, inr, Bool, true, false, ◌&&◌, ◌||◌, not, Option, none,
  some, List, [], ◌∷◌, ◌++◌, map, append-nil, append_assoc, arith, dec_lt, ℕ_discrete, ltb, leb,
  ◌==◌, if◌then◌else◌, ltb→lt, lt→ltb, leb→le, ==_iff, tests, Bool-cases, Option-cases, length,
  get_elem?, set, length-append, get_or, take, drop, replicate, take-append-drop, length-take,
  length-drop, length-replicate, length-map, All, All-append, All-drop, drop-append_length, and_ten,
  u8, u16, u32, first, rest_of,
}
use mathlib.Core.Option
use mellivora_os.Base.Int.{ℤ, pos}
use mellivora_os.Str.Compare.{strlen, strncmp, eqb_ℤ}

-- The terminator is part of the string that is searched.
unfoldable pub strchr : List ℕ → ℕ → Option ℕ
strchr [] c = if u8 c == 0 then some 0 else none
strchr (x ∷ s) c = if x == u8 c then some 0 else Option.map suc (strchr s c)

-- `at` is the offset of `s`, and `found` that of the last hit so far.
pub strrchr_loop : List ℕ → ℕ → ℕ → Option ℕ → Option ℕ
strrchr_loop [] c at found = if u8 c == 0 then some at else found
strrchr_loop (x ∷ s) c at found = strrchr_loop s c (at + 1) (if x == u8 c then some at else found)

pub strrchr : List ℕ → ℕ → Option ℕ
strrchr s c = strrchr_loop s c 0 none

unfoldable pub strstr_loop : List ℕ → List ℕ → ℕ → Option ℕ
strstr_loop [] needle n = none
strstr_loop (x ∷ haystack) needle n =
    if x == first needle && eqb_ℤ (strncmp (x ∷ haystack) needle n) (pos 0)
    then some 0
    else Option.map suc (strstr_loop haystack needle n)

unfoldable pub strstr : List ℕ → List ℕ → Option ℕ
unfolding strstr_loop
strstr haystack [] = some 0
strstr haystack (y ∷ needle) = strstr_loop haystack (y ∷ needle) (strlen (y ∷ needle))

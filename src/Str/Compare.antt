-- ===== src/Str/Compare.antt =====
-- c/rt/string.c: strlen, strnlen, strcmp, strcoll, strncmp, strcasecmp and strncasecmp.
-- A string is the list of its bytes, without the terminator; the functions only read.
pub mod Order
pub mod Fold
use mellivora_os.Base.{
  ℕ, zero, suc, ◌+◌, ◌-◌, ◌*◌, ◌/◌, ◌%◌, ◌^◌, ◌≤◌, ◌<◌, min, bit_and, bit_or, ◌≡◌, refl, sym, ap,
  ◌∙◌, subst, fun_ext, ◌≢◌, ◌↔◌, ◌⊎◌, inl, inr, Bool, true, false, ◌&&◌, ◌||◌, not, Option, none,
  some, List, [], ◌∷◌, ◌++◌, map, append-nil, append_assoc, arith, dec_lt, ℕ_discrete, ltb, leb,
  ◌==◌, if◌then◌else◌, ltb→lt, lt→ltb, leb→le, ==_iff, tests, Bool-cases, Option-cases, length,
  get_elem?, set, length-append, get_or, take, drop, replicate, take-append-drop, length-take,
  length-drop, length-replicate, length-map, All, All-append, All-drop, drop-append_length, and_ten,
  u8, u16, u32, first, rest_of,
}
use mellivora_os.Base.Int.{ℤ, pos, negsuc, pos_part, neg_part, ◌-ℤ◌}

-- `u8` bytes that are not the terminator.
abbrev pub IsText : List ℕ → Type 0
IsText s = All (λ c. (0 < c) × (c < 256)) s

unfoldable pub strlen : List ℕ → ℕ
strlen [] = 0
strlen (c ∷ s) = strlen s + 1

pub strnlen : List ℕ → ℕ → ℕ
strnlen s zero = 0
strnlen [] (suc max) = 0
strnlen (c ∷ s) (suc max) = strnlen s max + 1

unfoldable pub strcmp : List ℕ → List ℕ → ℤ
strcmp [] b = pos 0 -ℤ pos (first b)
strcmp (x ∷ a) b =
    let more = strcmp a (rest_of b) in if x == first b then more else pos x -ℤ pos (first b)

pub strcoll : List ℕ → List ℕ → ℤ
unfolding strcmp
strcoll a b = strcmp a b

unfoldable pub strncmp : List ℕ → List ℕ → ℕ → ℤ
strncmp a b zero = pos 0
strncmp [] b (suc n) = pos 0 -ℤ pos (first b)
strncmp (x ∷ a) b (suc n) =
    let more = strncmp a (rest_of b) n in if x == first b then more else pos x -ℤ pos (first b)

-- A byte read as the target's `char`, which is signed.
abbrev pub to_char : ℕ → ℤ
to_char c = if ltb c 128 then pos c else negsuc (255 - c)

-- `(c >= 'A' && c <= 'Z') ? c + 32 : c`, as an int.
pub fold_case : ℕ → ℤ
fold_case c = if leb b'A' c && leb c b'Z' then pos (c + 32) else to_char c

abbrev pub eqb_ℤ : ℤ → ℤ → Bool
eqb_ℤ a b = pos_part a == pos_part b && neg_part a == neg_part b

pub strcasecmp : List ℕ → List ℕ → ℤ
strcasecmp [] b = pos 0 -ℤ pos (first b)
strcasecmp (x ∷ a) [] = pos x -ℤ pos 0
strcasecmp (x ∷ a) (y ∷ b) =
    let more = strcasecmp a b in
    if eqb_ℤ (fold_case x) (fold_case y) then more else fold_case x -ℤ fold_case y

pub strncasecmp : List ℕ → List ℕ → ℕ → ℤ
strncasecmp a b zero = pos 0
strncasecmp a b (suc n) =
    let more = strncasecmp (rest_of a) (rest_of b) n in
    if eqb_ℤ (fold_case (first a)) (fold_case (first b))
    then (if first a == 0 then pos 0 else more)
    else fold_case (first a) -ℤ fold_case (first b)

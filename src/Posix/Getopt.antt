-- ===== src/Posix/Getopt.antt =====
-- c/rt/posix.c: getopt. A word is the bytes before its terminator; what goes to stderr is left out.
pub mod Shift
pub mod Scan
pub mod Stuck
pub mod Calls
pub mod Permute
mod Tests
use mellivora_os.Base.{
  take_zero, take_nil, take-take, add-one, ℕ, zero, suc, ◌+◌, ◌-◌, ◌*◌, ◌/◌, ◌%◌, ◌^◌, ◌≤◌, ◌<◌,
  min, bit_and, bit_or, ◌≡◌, refl, sym, ap, ◌∙◌, subst, fun_ext, ◌≢◌, ◌↔◌, ◌⊎◌, inl, inr, Bool,
  true, false, ◌&&◌, ◌||◌, not, Option, none, some, List, [], ◌∷◌, ◌++◌, map, append-nil,
  append_assoc, arith, dec_lt, ℕ_discrete, ltb, leb, ◌==◌, if◌then◌else◌, ltb→lt, lt→ltb, leb→le,
  ==_iff, tests, Bool-cases, Option-cases, length, get_elem?, set, length-append, get_or, take,
  drop, replicate, take-append-drop, length-take, length-drop, length-replicate, length-map, All,
  All-append, All-drop, drop-append_length, and_ten, u8, u16, u32, first, rest_of,
}

-- `v`, optind, `scanned`, optarg as a word and an offset into it, and optopt.
pub record Getopt : Type 0 where
  pub argv : List (List ℕ)
  pub optind : ℕ
  pub scanned : ℕ
  pub optarg : Option (List ℕ × ℕ)
  pub optopt : ℕ

-- A word that starts an option.
abbrev pub is_option : List ℕ → Bool
is_option w = get_or w 0 0 == b'-' && not (get_or w 1 0 == 0)

abbrev pub is_end : List ℕ → Bool
is_end w = get_or w 1 0 == b'-' && get_or w 2 0 == 0

-- The index of the first word that starts an option, where the words begin at `i`.
unfoldable pub next_option : ℕ → List (List ℕ) → Option ℕ
next_option i [] = none
next_option i (w ∷ l) = let later = next_option (i + 1) l in if is_option w then some i else later

-- `while (i > optind) { v[i] = v[i - 1]; i--; }`, for a number of rounds.
unfoldable pub shift : ℕ → ℕ → List (List ℕ) → List (List ℕ)
shift zero i v = v
shift (suc rounds) i v = shift rounds (i - 1) (set v i (get_or v (i - 1) []))

-- The word at `i` is brought to `optind`.
unfoldable pub bring : ℕ → ℕ → List (List ℕ) → List (List ℕ)
bring optind i v = set (shift (i - optind) i v) optind (get_or v i [])

-- The word to scan is at optind; or there is none.
pub data Found : Type 0 where
  word_at : Getopt → Found
  no_more : Getopt → Found

abbrev pub start_word : Getopt → Found
start_word g = word_at (record g { scanned = 1 })

-- An operand is at optind.
abbrev pub skip_operand : Bool → Getopt → Found
skip_operand stop_at_operand g =
    if stop_at_operand
    then no_more g
    else elim (next_option (g.optind + 1) (drop (g.optind + 1) g.argv)) [
      | none ↦ no_more g
      | some i ↦ start_word (record g { argv = bring g.optind i g.argv })
    ]

unfoldable pub find_word : Bool → Getopt → Found
find_word stop_at_operand g =
    let w = get_or g.argv g.optind [] in
    if leb (length g.argv) g.optind
    then no_more g
    else if is_option w
    then (if is_end w then no_more (record g { optind = g.optind + 1 }) else start_word g)
    else skip_operand stop_at_operand g

-- What stands behind the character in the option string, as strchr finds it.
unfoldable pub spec_of : ℕ → List ℕ → Option (List ℕ)
spec_of c [] = if c == 0 then some [] else none
spec_of c (x ∷ s) = let rest = spec_of c s in if x == c then some s else rest

-- Behind the character that was read.
abbrev pub advance : Bool → Getopt → Getopt
advance last_char g =
    if last_char
    then record g { optind = g.optind + 1; scanned = 0 }
    else record g { scanned = g.scanned + 1 }

-- An option that takes an argument, behind its character.
abbrev pub take_argument : Bool → ℕ → List ℕ → Getopt → ℕ × Getopt
take_argument last_char option optstring g =
    if not last_char
    then (
      option,
      record g { optarg = some (get_or g.argv (g.optind - 1) [], g.scanned); scanned = 0 },
    )
    else if ltb g.optind (length g.argv)
    then (option, record g { optarg = some (get_or g.argv g.optind [], 0); optind = g.optind + 1 })
    else (if get_or optstring 0 0 == b':' then b':' else b'?', g)

-- What is done with a character, by what strchr finds of it.
abbrev pub scan_spec : List ℕ → ℕ → Bool → Option (List ℕ) → Getopt → ℕ × Getopt
scan_spec optstring option last_char none g = (b'?', record g { optopt = option })
scan_spec optstring option last_char (some spec) g =
    if option == b':'
    then (b'?', record g { optopt = option })
    else if get_or spec 0 0 == b':'
    then take_argument last_char option optstring g
    else (option, g)

abbrev pub scan_char : List ℕ → ℕ → Bool → Getopt → ℕ × Getopt
scan_char optstring option last_char g =
    scan_spec optstring option last_char (spec_of option optstring) (advance last_char g)

unfoldable pub scan : List ℕ → Getopt → ℕ × Getopt
scan optstring g =
    let w = get_or g.argv g.optind [] in
    scan_char optstring (get_or w g.scanned 0) (get_or w (g.scanned + 1) 0 == 0) g

abbrev pub skip_mark : ℕ → List ℕ → List ℕ
skip_mark c [] = []
skip_mark c (x ∷ s) = if x == c then s else x ∷ s

-- The option, or none for -1, and the state.
abbrev pub finished : List ℕ → Found → Option ℕ × Getopt
finished opts (no_more g) = (none, g)
finished opts (word_at g) = let (option, h) = scan opts g in (some option, h)

unfoldable pub getopt : List ℕ → Getopt → Option ℕ × Getopt
getopt optstring g =
    let stop_at_operand = get_or optstring 0 0 == b'+' in
    let g' = record g { optarg = none } in
    finished (skip_mark b'-' (skip_mark b'+' optstring))
      (if g.scanned == 0 then find_word stop_at_operand g' else word_at g')

-- What `n` calls give.
unfoldable pub getopts : ℕ → List ℕ → Getopt → List (Option ℕ) × Getopt
getopts zero optstring g = ([], g)
getopts (suc n) optstring g =
    let (option, h) = getopt optstring g in
    let (options, k) = getopts n optstring h in (option ∷ options, k)

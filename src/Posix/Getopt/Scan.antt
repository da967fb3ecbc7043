-- ===== src/Posix/Getopt/Scan.antt =====
-- c/rt/posix.c: one call of getopt, step by step.
use mellivora_os.Base.{
  ℕ, ◌+◌, ◌<◌, ◌≡◌, refl, ap, ◌∙◌, Bool, true, false, none, some, List, [], ◌∷◌, ◌++◌, arith, leb,
  ◌==◌, if◌then◌else◌, length, get_or,
}
use mellivora_os.Posix.Getopt.{
  Getopt, is_option, is_end, start_word, find_word, spec_of, advance, scan, skip_mark, getopt,
  finished, word_at, scan_char, scan_spec,
}
use mellivora_os.Posix.Getopt.Shift.{get_behind}

-- An option string without a mark at its start.
pub record IsUnmarked (optstring : List ℕ) : Type 0 where
  pub no_plus : (get_or optstring 0 0 == b'+') ≡ false
  pub no_minus : (get_or optstring 0 0 == b'-') ≡ false

pub skip_mark_lem : (c : ℕ) (s : List ℕ) → (get_or s 0 0 == c) ≡ false → skip_mark c s ≡ s
skip_mark_lem c [] h = refl
skip_mark_lem c (x ∷ s) h = rw h refl

-- A getopt with no options' words before `pre`.
abbrev pub at_word : List (List ℕ) → List (List ℕ) → ℕ → ℕ → Getopt
at_word pre ws scanned optopt = record {
  argv = pre ++ ws;
  optind = length pre;
  scanned = scanned;
  optarg = none;
  optopt = optopt;
}

pub get_here : (pre l : List (List ℕ)) (w : List ℕ) → get_or (pre ++ (w ∷ l)) (length pre) [] ≡ w
get_here pre l w = ap (λ k. get_or (pre ++ (w ∷ l)) k []) (omega arith) ∙ get_behind pre (w ∷ l) 0

-- Without a mark, a call looks for a word if it is not in one, and scans it.
pub getopt_lem :
    (optstring : List ℕ) (g : Getopt)
    → IsUnmarked optstring
    → getopt optstring g
      ≡ finished optstring (
          if g.scanned == 0
          then find_word false (record g { optarg = none })
          else word_at (record g { optarg = none }))
unfolding getopt
getopt_lem optstring g u =
    let opts : skip_mark b'-' (skip_mark b'+' optstring) ≡ optstring =
      ap (skip_mark b'-') (skip_mark_lem b'+' optstring u.no_plus)
      ∙ skip_mark_lem b'-' optstring u.no_minus in
    ap
      (λ o. finished o (
        if g.scanned == 0
        then find_word (get_or optstring 0 0 == b'+') (record g { optarg = none })
        else word_at (record g { optarg = none })))
      opts
    ∙ ap
        (λ b. finished optstring (
          if g.scanned == 0
          then find_word b (record g { optarg = none })
          else word_at (record g { optarg = none })))
        u.no_plus

-- A word of letters behind a dash, which are options without arguments.
pub record IsFlag (opts : List ℕ) (c : ℕ) : Type 0 where
  pub spec : List ℕ
  pub listed : spec_of c opts ≡ some spec
  pub alone : (get_or spec 0 0 == b':') ≡ false
  pub not_colon : (c == b':') ≡ false
  pub not_dash : (c == b'-') ≡ false
  pub not_nul : (c == 0) ≡ false

pub scan_lem :
    (opts : List ℕ) (g : Getopt) (c : ℕ) (last_char : Bool)
    → get_or (get_or g.argv g.optind []) g.scanned 0 ≡ c
    → (get_or (get_or g.argv g.optind []) (g.scanned + 1) 0 == 0) ≡ last_char
    → scan opts g ≡ scan_char opts c last_char g
unfolding scan
scan_lem opts g c last_char e l =
    ap (λ d. scan_char opts d (get_or (get_or g.argv g.optind []) (g.scanned + 1) 0 == 0) g) e
    ∙ ap (λ b. scan_char opts c b g) l

-- The word at optind starts an option.
pub find_word-option :
    (stop_at_operand : Bool) (g : Getopt) (w : List ℕ)
    → get_or g.argv g.optind [] ≡ w
    → g.optind < length g.argv
    → is_option w ≡ true
    → is_end w ≡ false
    → find_word stop_at_operand g ≡ start_word g
unfolding find_word
find_word-option stop_at_operand g w e h o n =
    let more : leb (length g.argv) g.optind ≡ false = ground (arith, h) in
    let option : is_option (get_or g.argv g.optind []) ≡ true = ap is_option e ∙ o in
    let not_end : is_end (get_or g.argv g.optind []) ≡ false = ap is_end e ∙ n in
    rw (more, option, not_end) refl

-- One letter, with others behind it or none.
pub scan-flag :
    (opts : List ℕ) (g : Getopt) (c : ℕ) (last_char : Bool)
    → get_or (get_or g.argv g.optind []) g.scanned 0 ≡ c
    → (get_or (get_or g.argv g.optind []) (g.scanned + 1) 0 == 0) ≡ last_char
    → IsFlag opts c
    → scan opts g ≡ (c, advance last_char g)
scan-flag opts g c last_char e l f =
    scan_lem opts g c last_char e l
    ∙ ap (λ s. scan_spec opts c last_char s (advance last_char g)) f.listed
    ∙ plain c f.spec (advance last_char g) f.not_colon f.alone
  where
    plain :
        (c : ℕ) (spec : List ℕ) (h : Getopt)
        → (c == b':') ≡ false
        → (get_or spec 0 0 == b':') ≡ false
        → scan_spec opts c last_char (some spec) h ≡ (c, h)
    plain c spec h n a = rw (n, a) refl

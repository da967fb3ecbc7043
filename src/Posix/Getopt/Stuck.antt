-- ===== src/Posix/Getopt/Stuck.antt =====
-- c/rt/posix.c: an option with its argument in the same word.
use mellivora_os.Base.{
  ℕ, zero, suc, ◌-◌, ◌<◌, ◌≡◌, refl, ap, ◌∙◌, true, false, not, none, some, List, [], ◌∷◌, ◌==◌,
  if◌then◌else◌, length, get_or, replicate,
}
use mellivora_os.Posix.Getopt.{
  Getopt, is_option, is_end, start_word, find_word, spec_of, advance, take_argument, getopt,
  getopts, scan_spec, finished, word_at,
}
use mellivora_os.Posix.Getopt.Scan.{IsUnmarked, getopt_lem, find_word-option, scan_lem}

-- A dash, an option that takes an argument, and the argument behind it.
pub record IsJoined (opts : List ℕ) (w : List ℕ) : Type 0 where
  pub letter : ℕ
  pub argument : List ℕ
  pub word : w ≡ b'-' ∷ (letter ∷ argument)
  pub some_argument : (get_or argument 0 0 == 0) ≡ false
  pub spec : List ℕ
  pub listed : spec_of letter opts ≡ some spec
  pub wants : (get_or spec 0 0 == b':') ≡ true
  pub not_colon : (letter == b':') ≡ false
  pub not_dash : (letter == b'-') ≡ false
  pub not_nul : (letter == 0) ≡ false

-- The argument is taken from the word before, and the next call begins at the same word.
stuck_lem :
    (opts : List ℕ) (g : Getopt) (j : IsJoined opts (get_or g.argv g.optind []))
    → IsUnmarked opts
    → g.optind < length g.argv
    → g.scanned ≡ 0
    → getopt opts g ≡ (
      some j.letter,
      record g { scanned = 0; optarg = some (get_or g.argv (g.optind - 1) [], 2) },
    )
stuck_lem opts g j u h z =
    let none' : Getopt = record g { optarg = none } in
    let option : is_option (b'-' ∷ (j.letter ∷ j.argument)) ≡ true = ap not j.not_nul in
    let not_end : is_end (b'-' ∷ (j.letter ∷ j.argument)) ≡ false = rw (j.not_dash) refl in
    let found : find_word false none' ≡ start_word none' =
      find_word-option false none' (b'-' ∷ (j.letter ∷ j.argument)) j.word h option not_end in
    let start : Getopt = record none' { scanned = 1 } in
    let letter : get_or (get_or g.argv g.optind []) 1 0 ≡ j.letter =
      ap (λ w. get_or w 1 0) j.word in
    let more : (get_or (get_or g.argv g.optind []) 2 0 == 0) ≡ false =
      ap (λ w. get_or w 2 0 == 0) j.word ∙ j.some_argument in
    getopt_lem opts g u
    ∙ ap (λ n. finished opts (if n == 0 then find_word false none' else word_at none')) z
    ∙ ap (finished opts) found
    ∙ ap (λ p. (some p.0, p.1))
        (scan_lem opts start j.letter false letter more
          ∙ ap (λ s. scan_spec opts j.letter false s (advance false start)) j.listed
          ∙ wants_lem j.letter j.spec (advance false start) j.not_colon j.wants)
  where
    wants_lem :
        (c : ℕ) (spec : List ℕ) (k : Getopt)
        → (c == b':') ≡ false
        → (get_or spec 0 0 == b':') ≡ true
        → scan_spec opts c false (some spec) k ≡ take_argument false c opts k
    wants_lem c spec k n w = rw (n, w) refl

-- With an option string without a mark, every call of `getopt` that begins at a word with an option and its argument
-- in it gives that option and leaves optind where it is, so the calls never come to the next word.
pub getopts-stuck :
    (n : ℕ) (opts : List ℕ) (g : Getopt) (j : IsJoined opts (get_or g.argv g.optind []))
    → IsUnmarked opts
    → g.optind < length g.argv
    → g.scanned ≡ 0
    → ((getopts n opts g).0 ≡ replicate n (some j.letter))
      × ((getopts n opts g).1.optind ≡ g.optind)
unfolding getopts
getopts-stuck zero opts g j u h z = (refl, refl)
getopts-stuck (suc n) opts g j u h z =
    let later = getopts-stuck n opts _ j u h refl in
    rw (stuck_lem opts g j u h z) (ap (λ l. some j.letter ∷ l) later.0, later.1)

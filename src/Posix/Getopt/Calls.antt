-- ===== src/Posix/Getopt/Calls.antt =====
-- c/rt/posix.c: the calls of getopt for one word, and which word comes next.
use mellivora_os.Base.{
  ℕ, suc, ◌+◌, ◌≡◌, refl, ap, ◌∙◌, ◌⊎◌, Bool, true, false, not, none, some, List, [], ◌∷◌, ◌++◌,
  map, arith, leb, ◌==◌, if◌then◌else◌, length, length-append, get_or, drop, All,
}
use mellivora_os.Posix.Getopt.{
  Getopt, is_option, is_end, next_option, start_word, skip_operand, find_word, advance, getopt,
  getopts, finished, word_at, no_more,
}
use mellivora_os.Posix.Getopt.Shift.{bring_lem}
use mellivora_os.Posix.Getopt.Scan.{
  IsUnmarked, IsFlag, at_word, get_here, getopt_lem, scan-flag, find_word-option,
}

-- A dash with one or more letters that are options without arguments.
pub record Flags (opts : List ℕ) (w : List ℕ) : Type 0 where
  pub letter : ℕ
  pub more : List ℕ
  pub word : w ≡ b'-' ∷ (letter ∷ more)
  pub flags : All (IsFlag opts) (letter ∷ more)

abbrev pub IsOperand : List ℕ → Type 0
IsOperand w = is_option w ≡ false

abbrev pub IsPlain : List ℕ → List ℕ → Type 0
IsPlain opts w = IsOperand w ⊎ Flags opts w

pub Flags-is_option : (opts w : List ℕ) → Flags opts w → is_option w ≡ true
Flags-is_option opts w f = ap is_option f.word ∙ ap not f.flags.0.not_nul

Flags-is_end : (opts w : List ℕ) → Flags opts w → is_end w ≡ false
Flags-is_end opts w f = ap is_end f.word ∙ (rw (f.flags.0.not_dash) refl)

-- One call in a word.
in_word :
    (opts : List ℕ) (g : Getopt) (c : ℕ) (last_char : Bool)
    → IsUnmarked opts
    → (g.scanned == 0) ≡ false
    → g.optarg ≡ none
    → get_or (get_or g.argv g.optind []) g.scanned 0 ≡ c
    → (get_or (get_or g.argv g.optind []) (g.scanned + 1) 0 == 0) ≡ last_char
    → IsFlag opts c
    → getopt opts g ≡ (some c, advance last_char (record g { optarg = none }))
in_word opts g c last_char u s n e l f =
    getopt_lem opts g u
    ∙ ap
        (λ b. finished opts (
          if b
          then find_word false (record g { optarg = none })
          else word_at (record g { optarg = none })))
        s
    ∙ ap (λ p. (some p.0, p.1)) (scan-flag opts (record g { optarg = none }) c last_char e l f)

behind : (m j : ℕ) → m + 1 + j ≡ m + suc j
behind m j = omega arith

-- The calls for what is left of a word.
pub word_calls :
    (opts : List ℕ) (g : Getopt) (c : ℕ) (cs : List ℕ)
    → IsUnmarked opts
    → (g.scanned == 0) ≡ false
    → g.optarg ≡ none
    → ((j : ℕ) → get_or (get_or g.argv g.optind []) (g.scanned + j) 0 ≡ get_or (c ∷ cs) j 0)
    → All (IsFlag opts) (c ∷ cs)
    → getopts (suc (length cs)) opts g
      ≡ (map some (c ∷ cs), record g { optind = g.optind + 1; scanned = 0; optarg = none })
unfolding getopts
word_calls opts g c [] u s n e f =
    let here =
      ap (λ k. get_or (get_or g.argv g.optind []) k 0)
        (let z : g.scanned ≡ g.scanned + 0 = omega arith in z)
      ∙ e 0 in
    let last' : (get_or (get_or g.argv g.optind []) (g.scanned + 1) 0 == 0) ≡ true =
      ap (λ x. x == 0) (e 1) in
    rw (in_word opts g c true u s n here last' f.0) refl
word_calls opts g c (d ∷ cs) u s n e f =
    let here =
      ap (λ k. get_or (get_or g.argv g.optind []) k 0)
        (let z : g.scanned ≡ g.scanned + 0 = omega arith in z)
      ∙ e 0 in
    let inner : (get_or (get_or g.argv g.optind []) (g.scanned + 1) 0 == 0) ≡ false =
      ap (λ x. x == 0) (e 1) ∙ f.1.0.not_nul in
    let next' : Getopt = record g { scanned = g.scanned + 1; optarg = none } in
    let inside : (next'.scanned == 0) ≡ false = ground arith in
    let rest : getopts (suc (length cs)) opts next'
        ≡ (map some (d ∷ cs), record next' { optind = g.optind + 1; scanned = 0 }) =
      word_calls opts next' d cs u inside refl
        (λ j. ap (λ k. get_or (get_or g.argv g.optind []) k 0) (behind g.scanned j) ∙ e (suc j))
        f.1 in
    ap (λ r. (r.0 ∷ (getopts (suc (length cs)) opts r.1).0, (getopts (suc (length cs)) opts r.1).1))
      (in_word opts g c false u s n here inner f.0)
    ∙ ap (λ r. (some c ∷ r.0, r.1)) rest

drop_behind : (pre l : List (List ℕ)) (j : ℕ) → drop (length pre + j) (pre ++ l) ≡ drop j l
drop_behind [] l j = ap (λ k. drop k l) (omega arith)
drop_behind (x ∷ pre) l j =
    ap (λ k. drop k (x ∷ (pre ++ l)))
      (let z : suc (length pre) + j ≡ suc (length pre + j) = omega arith in z)
    ∙ drop_behind pre l j

-- The first option stands behind the operands.
next_option-found :
    (i : ℕ) (ops rest : List (List ℕ)) (w : List ℕ)
    → All IsOperand ops
    → is_option w ≡ true
    → next_option i (ops ++ (w ∷ rest)) ≡ some (i + length ops)
unfolding next_option
next_option-found i [] rest w h o = rw o (ap some (omega arith))
next_option-found i (x ∷ ops) rest w h o =
    rw (h.0) (next_option-found (i + 1) ops rest w h.1 o ∙ ap some (omega arith))

next_option-none : (i : ℕ) (ops : List (List ℕ)) → All IsOperand ops → next_option i ops ≡ none
unfolding next_option
next_option-none i [] h = refl
next_option-none i (x ∷ ops) h = rw (h.0) (next_option-none (i + 1) ops h.1)

-- An operand at optind.
find_word-operand :
    (pre l : List (List ℕ)) (o : List ℕ) (p : ℕ)
    → IsOperand o
    → find_word false (at_word pre (o ∷ l) 0 p) ≡ skip_operand false (at_word pre (o ∷ l) 0 p)
unfolding find_word
find_word-operand pre l o p h =
    let size = length-append pre (o ∷ l) in
    let more : leb (length (pre ++ (o ∷ l))) (length pre) ≡ false = ground (arith, size) in
    let operand : is_option (get_or (pre ++ (o ∷ l)) (length pre) []) ≡ false =
      ap is_option (get_here pre l o) ∙ h in
    rw (more, operand) refl

drop_operand : (pre l : List (List ℕ)) (o : List ℕ) → drop (length pre + 1) (pre ++ (o ∷ l)) ≡ l
drop_operand pre l o = drop_behind pre (o ∷ l) 1

pub find_word-found :
    (opts : List ℕ) (pre ops rest : List (List ℕ)) (w : List ℕ) (p : ℕ)
    → All IsOperand ops
    → Flags opts w
    → find_word false (at_word pre (ops ++ (w ∷ rest)) 0 p)
      ≡ word_at (at_word pre (w ∷ (ops ++ rest)) 1 p)
find_word-found opts pre [] rest w p h f =
    let size = length-append pre (w ∷ rest) in
    find_word-option false (at_word pre (w ∷ rest) 0 p) w (get_here pre rest w)
      (ground (arith, size)) (Flags-is_option opts w f) (Flags-is_end opts w f)
find_word-found opts pre (o ∷ ops) rest w p h f =
    let l : List (List ℕ) = ops ++ (w ∷ rest) in
    let found : next_option (length pre + 1) (drop (length pre + 1) (pre ++ (o ∷ l)))
        ≡ some (length pre + length (o ∷ ops)) =
      ap (next_option (length pre + 1)) (drop_operand pre l o)
      ∙ next_option-found (length pre + 1) ops rest w h.1 (Flags-is_option opts w f)
      ∙ ap some (omega arith) in
    find_word-operand pre l o p h.0
    ∙ (rw (found) (
        ap (λ v. start_word (record (at_word pre (o ∷ l) 0 p) { argv = v }))
          (bring_lem pre (o ∷ ops) rest w)))

pub find_word-none :
    (pre ops : List (List ℕ)) (p : ℕ)
    → All IsOperand ops
    → find_word false (at_word pre ops 0 p) ≡ no_more (at_word pre ops 0 p)
unfolding find_word
find_word-none pre [] p h =
    let size = length-append pre [] in
    let over : leb (length (pre ++ [])) (length pre) ≡ true = ground (arith, size) in rw over refl
find_word-none pre (o ∷ ops) p h =
    let gone : next_option (length pre + 1) (drop (length pre + 1) (pre ++ (o ∷ ops))) ≡ none =
      ap (next_option (length pre + 1)) (drop_operand pre ops o)
      ∙ next_option-none (length pre + 1) ops h.1 in
    find_word-operand pre ops o p h.0 ∙ (rw gone refl)

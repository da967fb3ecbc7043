-- ===== src/Posix/Getopt/Permute.antt =====
-- c/rt/posix.c: getopt over a whole command line with options and operands in any order.
use mellivora_os.Base.{
  ℕ, zero, suc, ◌+◌, ◌≤◌, ◌≡◌, refl, sym, ap, ◌∙◌, subst, inl, inr, true, none, some, List, [], ◌∷◌,
  ◌++◌, map, append-nil, append_assoc, arith, if◌then◌else◌, length, length-append, get_or, drop,
  All,
}
use mellivora_os.Posix.Getopt.{Getopt, is_option, getopt, getopts, finished}
use mellivora_os.Posix.Getopt.Scan.{IsUnmarked, at_word, get_here, getopt_lem}
use mellivora_os.Posix.Getopt.Calls.{
  Flags, IsOperand, IsPlain, Flags-is_option, word_calls, find_word-found, find_word-none,
}

-- The letters of the options, in order.
unfoldable pub letters : List (List ℕ) → List ℕ
letters [] = []
letters (w ∷ l) = let rest = letters l in if is_option w then drop 1 w ++ rest else rest

unfoldable pub options : List (List ℕ) → List (List ℕ)
options [] = []
options (w ∷ l) = let rest = options l in if is_option w then w ∷ rest else rest

unfoldable pub operands : List (List ℕ) → List (List ℕ)
operands [] = []
operands (w ∷ l) = let rest = operands l in if is_option w then rest else w ∷ rest

-- The first option of a command line, with the operands before it.
data Split (opts : List ℕ) (ws : List (List ℕ)) : Type 0 where
  operands_only : All IsOperand ws → Split opts ws
  option_at :
      (ops : List (List ℕ)) (w : List ℕ) (rest : List (List ℕ))
      → ws ≡ ops ++ (w ∷ rest)
      → All IsOperand ops
      → Flags opts w
      → All (IsPlain opts) rest
      → Split opts ws

words-Split : (opts : List ℕ) (ws : List (List ℕ)) → All (IsPlain opts) ws → Split opts ws
words-Split opts [] h = operands_only tt
words-Split opts (w ∷ ws) (inr f, h) = option_at [] w ws refl tt f h
words-Split opts (w ∷ ws) (inl o, h) = elim (words-Split opts ws h) [
  | operands_only k ↦ operands_only (o, k)
  | option_at ops x rest e k f r ↦ option_at (w ∷ ops) x rest (ap (λ l. w ∷ l) e) (o, k) f r
]

letters-operands : (ws : List (List ℕ)) → All IsOperand ws → letters ws ≡ []
unfolding letters
letters-operands [] h = refl
letters-operands (w ∷ ws) h = rw (h.0) (letters-operands ws h.1)

options-operands : (ws : List (List ℕ)) → All IsOperand ws → options ws ≡ []
unfolding options
options-operands [] h = refl
options-operands (w ∷ ws) h = rw (h.0) (options-operands ws h.1)

operands-operands : (ws : List (List ℕ)) → All IsOperand ws → operands ws ≡ ws
unfolding operands
operands-operands [] h = refl
operands-operands (w ∷ ws) h = rw (h.0) (ap (λ l. w ∷ l) (operands-operands ws h.1))

module _ (w : List ℕ) (rest : List (List ℕ)) (o : is_option w ≡ true) where
  letters-option :
      (ops : List (List ℕ))
      → All IsOperand ops
      → letters (ops ++ (w ∷ rest)) ≡ drop 1 w ++ letters (ops ++ rest)
  unfolding letters
  letters-option [] h = rw o refl
  letters-option (x ∷ ops) h = rw (h.0) (letters-option ops h.1)

  options-option :
      (ops : List (List ℕ))
      → All IsOperand ops
      → options (ops ++ (w ∷ rest)) ≡ w ∷ options (ops ++ rest)
  unfolding options
  options-option [] h = rw o refl
  options-option (x ∷ ops) h = rw (h.0) (options-option ops h.1)

  operands-option :
      (ops : List (List ℕ))
      → All IsOperand ops
      → operands (ops ++ (w ∷ rest)) ≡ operands (ops ++ rest)
  unfolding operands
  operands-option [] h = rw o refl
  operands-option (x ∷ ops) h = rw (h.0) (ap (λ l. x ∷ l) (operands-option ops h.1))

-- Calls after calls.
getopts-add :
    (m n : ℕ) (opts : List ℕ) (g : Getopt)
    → getopts (m + n) opts g ≡ (
      (getopts m opts g).0 ++ (getopts n opts (getopts m opts g).1).0,
      (getopts n opts (getopts m opts g).1).1,
    )
unfolding getopts
getopts-add zero n opts g = ap (λ k. getopts k opts g) (omega arith)
getopts-add (suc m) n opts g =
    ap (λ k. getopts k opts g) (let z : suc m + n ≡ suc (m + n) = omega arith in z)
    ∙ ap (λ r. ((getopt opts g).0 ∷ r.0, r.1)) (getopts-add m n opts (getopt opts g).1)

operands-IsPlain :
    (opts : List ℕ) (ops rest : List (List ℕ))
    → All IsOperand ops
    → All (IsPlain opts) rest
    → All (IsPlain opts) (ops ++ rest)
operands-IsPlain opts [] rest h k = k
operands-IsPlain opts (x ∷ ops) rest h k = (inl h.0, operands-IsPlain opts ops rest h.1 k)

map-append : (a b : List ℕ) → map some (a ++ b) ≡ map some a ++ map some b
map-append [] b = refl
map-append (x ∷ a) b = ap (λ l. some x ∷ l) (map-append a b)

-- The call that finds a word goes on as a call in it.
same_call :
    (opts : List ℕ) (pre ops rest : List (List ℕ)) (w : List ℕ) (p : ℕ)
    → Flags opts w
    → IsUnmarked opts
    → All IsOperand ops
    → getopt opts (at_word pre (ops ++ (w ∷ rest)) 0 p)
      ≡ getopt opts (at_word pre (w ∷ (ops ++ rest)) 1 p)
same_call opts pre ops rest w p f u h =
    getopt_lem opts (at_word pre (ops ++ (w ∷ rest)) 0 p) u
    ∙ ap (finished opts) (find_word-found opts pre ops rest w p h f)
    ∙ sym (getopt_lem opts (at_word pre (w ∷ (ops ++ rest)) 1 p) u)

-- A word that is through belongs to what is before.
pass_word :
    (pre l : List (List ℕ)) (w : List ℕ) (p : ℕ)
    → record (at_word pre (w ∷ l) 1 p) { optind = length pre + 1; scanned = 0 }
      ≡ at_word (pre ++ (w ∷ [])) l 0 p
pass_word pre l w p =
    let size = length-append pre (w ∷ []) in
    ap (λ v. record (at_word pre (w ∷ l) 0 p) { argv = v; optind = length pre + 1 })
      (sym (append_assoc pre (w ∷ []) l))
    ∙ ap (λ n. record (at_word (pre ++ (w ∷ [])) l 0 p) { optind = n }) (omega (arith, size))

letter_at :
    (pre l : List (List ℕ)) (w : List ℕ) (c : ℕ) (cs : List ℕ) (j : ℕ)
    → w ≡ b'-' ∷ (c ∷ cs)
    → get_or (get_or (pre ++ (w ∷ l)) (length pre) []) (1 + j) 0 ≡ get_or (c ∷ cs) j 0
letter_at pre l w c cs j e =
    ap (λ v. get_or v (1 + j) 0) (get_here pre l w ∙ e)
    ∙ ap (λ k. get_or (b'-' ∷ (c ∷ cs)) k 0) (let z : 1 + j ≡ suc j = omega arith in z)

-- The calls for the first option of what is left.
first_word :
    (opts : List ℕ) (pre ops rest : List (List ℕ)) (w : List ℕ) (p : ℕ) (f : Flags opts w)
    → IsUnmarked opts
    → All IsOperand ops
    → getopts (suc (length f.more)) opts (at_word pre (ops ++ (w ∷ rest)) 0 p)
      ≡ (map some (drop 1 w), at_word (pre ++ (w ∷ [])) (ops ++ rest) 0 p)
unfolding getopts
first_word opts pre ops rest w p f u h =
    let n : ℕ = length f.more in
    let l : List (List ℕ) = ops ++ rest in
    ap (λ r. (r.0 ∷ (getopts n opts r.1).0, (getopts n opts r.1).1))
      (same_call opts pre ops rest w p f u h)
    ∙ word_calls opts (at_word pre (w ∷ l) 1 p) f.letter f.more u refl refl
        (λ j. letter_at pre l w f.letter f.more j f.word) f.flags
    ∙ ap (λ g. (map some (f.letter ∷ f.more), g)) (pass_word pre l w p)
    ∙ ap (λ v. (map some (drop 1 v), at_word (pre ++ (w ∷ [])) l 0 p)) (sym f.word)

-- The call behind the last option.
last_call :
    (opts : List ℕ) (pre ops : List (List ℕ)) (p : ℕ)
    → IsUnmarked opts
    → All IsOperand ops
    → getopts 1 opts (at_word pre ops 0 p) ≡ (none ∷ [], at_word (pre ++ []) ops 0 p)
unfolding getopts
last_call opts pre ops p u h =
    ap (λ r. (r.0 ∷ [], r.1))
      (getopt_lem opts (at_word pre ops 0 p) u ∙ ap (finished opts) (find_word-none pre ops p h))
    ∙ ap (λ q. (none ∷ [], at_word q ops 0 p)) (sym (append-nil pre))

-- What the calls up to -1 give.
abbrev AllCalls : List ℕ → List (List ℕ) → List (List ℕ) → ℕ → Type 0
AllCalls opts pre ws p =
    getopts (length (letters ws) + 1) opts (at_word pre ws 0 p)
    ≡ (map some (letters ws) ++ (none ∷ []), at_word (pre ++ options ws) (operands ws) 0 p)

only_operands :
    (opts : List ℕ) (pre ws : List (List ℕ)) (p : ℕ)
    → IsUnmarked opts
    → All IsOperand ws
    → AllCalls opts pre ws p
only_operands opts pre ws p u h =
    rw (letters-operands ws h, options-operands ws h, operands-operands ws h)
      (last_call opts pre ws p u h)

one_option :
    (opts : List ℕ) (pre ops rest : List (List ℕ)) (w : List ℕ) (p : ℕ)
    → Flags opts w
    → IsUnmarked opts
    → All IsOperand ops
    → AllCalls opts (pre ++ (w ∷ [])) (ops ++ rest) p
    → AllCalls opts pre (ops ++ (w ∷ rest)) p
one_option opts pre ops rest w p f u h later =
    let ls : List ℕ = letters (ops ++ rest) in
    let os : List (List ℕ) = options (ops ++ rest) in
    let rs : List (List ℕ) = operands (ops ++ rest) in
    let n : ℕ = length ls + 1 in
    let o = Flags-is_option opts w f in
    let own : length (drop 1 w) ≡ suc (length f.more) = ap (λ v. length (drop 1 v)) f.word in
    let sum = length-append (drop 1 w) ls in
    let count : length (drop 1 w ++ ls) + 1 ≡ suc (length f.more) + n = omega (arith, own, sum) in
    let start : Getopt = at_word pre (ops ++ (w ∷ rest)) 0 p in
    let calls : getopts (suc (length f.more) + n) opts start ≡ (
      map some (drop 1 w) ++ (map some ls ++ (none ∷ [])),
      at_word ((pre ++ (w ∷ [])) ++ os) rs 0 p,
    ) =
      getopts-add (suc (length f.more)) n opts start
      ∙ ap (λ r. (r.0 ++ (getopts n opts r.1).0, (getopts n opts r.1).1))
          (first_word opts pre ops rest w p f u h)
      ∙ ap (λ r. (map some (drop 1 w) ++ r.0, r.1)) later in
    let all_letters : map some (drop 1 w) ++ (map some ls ++ (none ∷ []))
        ≡ map some (drop 1 w ++ ls) ++ (none ∷ []) =
      sym (append_assoc (map some (drop 1 w)) (map some ls) (none ∷ []))
      ∙ ap (λ l. l ++ (none ∷ [])) (sym (map-append (drop 1 w) ls)) in
    rw
      (letters-option w rest o ops h, options-option w rest o ops h, operands-option w rest o ops h)
      (ap (λ k. getopts k opts start) count
        ∙ calls
        ∙ ap (λ l. (l, at_word ((pre ++ (w ∷ [])) ++ os) rs 0 p)) all_letters
        ∙ ap (λ q. (map some (drop 1 w ++ ls) ++ (none ∷ []), at_word q rs 0 p))
            (append_assoc pre (w ∷ []) os))

-- All the calls up to -1.
all_calls :
    (fuel : ℕ) (opts : List ℕ) (pre ws : List (List ℕ)) (p : ℕ)
    → IsUnmarked opts
    → All (IsPlain opts) ws
    → length ws ≤ fuel
    → AllCalls opts pre ws p
all_calls zero opts pre [] p u h k = only_operands opts pre [] p u tt
all_calls zero opts pre (w ∷ ws) p u h k = absurd (omega (arith, k))
all_calls (suc fuel) opts pre ws p u h k = elim (words-Split opts ws h) [
  | operands_only o ↦ only_operands opts pre ws p u o
  | option_at ops w rest e o f r ↦
      let whole : length ws ≡ length (ops ++ (w ∷ rest)) = ap length e in
      let sum = length-append ops (w ∷ rest) in
      let less = length-append ops rest in
      subst (λ v. AllCalls opts pre v p) (sym e)
        (one_option opts pre ops rest w p f u o (
          all_calls fuel opts (pre ++ (w ∷ [])) (ops ++ rest) p u
            (operands-IsPlain opts ops rest o r) (omega (arith, k, whole, sum, less))))
]

-- For words that are operands or dashes with letters, which the option string lists without an argument, and an
-- option string without a mark, the calls of `getopt` from the word behind `pre` on give the letters in order and
-- then -1. Then the words with options stand before the operands, each in their order, and optind is at the first operand.
pub getopts_lem :
    (opts : List ℕ) (pre ws : List (List ℕ)) (optopt : ℕ)
    → IsUnmarked opts
    → All (IsPlain opts) ws
    → getopts (length (letters ws) + 1) opts (record {
      argv = pre ++ ws;
      optind = length pre;
      scanned = 0;
      optarg = none;
      optopt = optopt;
    })
      ≡ (
        map some (letters ws) ++ (none ∷ []),
        record {
          argv = (pre ++ options ws) ++ operands ws;
          optind = length (pre ++ options ws);
          scanned = 0;
          optarg = none;
          optopt = optopt;
        },
      )
getopts_lem opts pre ws optopt u h = all_calls (length ws) opts pre ws optopt u h (omega arith)

-- ===== src/Posix/Getopt/Tests.antt =====
-- c/rt/posix.c: runs of getopt.
use mellivora_os.Base.{
  ℕ, ◌+◌, ◌≡◌, refl, inl, inr, none, some, List, [], ◌∷◌, ◌++◌, map, arith, length, replicate, All,
}
use mellivora_os.Base.Texts.{codes}
use mellivora_os.Posix.Getopt.{
  Getopt, next_option, shift, bring, find_word, spec_of, scan, getopt, getopts,
}
use mellivora_os.Posix.Getopt.Scan.{IsUnmarked, IsFlag}
use mellivora_os.Posix.Getopt.Stuck.{IsJoined, getopts-stuck}
use mellivora_os.Posix.Getopt.Calls.{IsPlain}
use mellivora_os.Posix.Getopt.Permute.{letters, options, operands, getopts_lem}

abbrev words : List (List ℕ)
words = codes "in" ∷ (codes "-ab" ∷ (codes "out" ∷ (codes "-c" ∷ [])))

abbrev spec : List ℕ
spec = codes "abco:"

abbrev begin : List (List ℕ) → Getopt
begin ws = record { argv = codes "prog" ∷ ws; optind = 1; scanned = 0; optarg = none; optopt = 0 }

spec-IsUnmarked : IsUnmarked spec
spec-IsUnmarked = record { no_plus = refl; no_minus = refl }

-- The options of the words are given, and the words are in order.
words_run :
    (getopts 4 spec (begin words)).1.argv
    ≡ codes "prog" ∷ (codes "-ab" ∷ (codes "-c" ∷ (codes "in" ∷ (codes "out" ∷ []))))
unfolding getopts getopt find_word next_option bring shift scan spec_of
words_run = refl

a-IsFlag : IsFlag spec b'a'
unfolding spec_of
a-IsFlag = record {
  spec = codes "bco:";
  listed = refl;
  alone = refl;
  not_colon = refl;
  not_dash = refl;
  not_nul = refl;
}

b-IsFlag : IsFlag spec b'b'
unfolding spec_of
b-IsFlag = record {
  spec = codes "co:";
  listed = refl;
  alone = refl;
  not_colon = refl;
  not_dash = refl;
  not_nul = refl;
}

c-IsFlag : IsFlag spec b'c'
unfolding spec_of
c-IsFlag = record {
  spec = codes "o:";
  listed = refl;
  alone = refl;
  not_colon = refl;
  not_dash = refl;
  not_nul = refl;
}

words-IsPlain : All (IsPlain spec) words
words-IsPlain = (
  inl refl,
  (
    inr (record {
      letter = b'a';
      more = codes "b";
      word = refl;
      flags = (a-IsFlag, (b-IsFlag, tt));
    }),
    (
      inl refl,
      (inr (record { letter = b'c'; more = []; word = refl; flags = (c-IsFlag, tt) }), tt),
    ),
  ),
)

getopts_lem_example : getopts (length (letters words) + 1) spec (begin words) ≡ (
  map some (letters words) ++ (none ∷ []),
  record {
    argv = ((codes "prog" ∷ []) ++ options words) ++ operands words;
    optind = length ((codes "prog" ∷ []) ++ options words);
    scanned = 0;
    optarg = none;
    optopt = 0;
  },
)
getopts_lem_example = getopts_lem spec (codes "prog" ∷ []) words 0 spec-IsUnmarked words-IsPlain

abbrev joined_word : List (List ℕ)
joined_word = codes "-ofile" ∷ []

joined-IsJoined : IsJoined spec (codes "-ofile")
unfolding spec_of
joined-IsJoined = record {
  letter = b'o';
  argument = codes "file";
  word = refl;
  some_argument = refl;
  spec = codes ":";
  listed = refl;
  wants = refl;
  not_colon = refl;
  not_dash = refl;
  not_nul = refl;
}

getopts-stuck_example :
    ((getopts 5 spec (begin joined_word)).0 ≡ replicate 5 (some b'o'))
    × ((getopts 5 spec (begin joined_word)).1.optind ≡ 1)
unfolding joined-IsJoined
getopts-stuck_example =
    getopts-stuck 5 spec (begin joined_word) joined-IsJoined spec-IsUnmarked (ground arith) refl

-- The two dashes behind an operand are taken for an option.
dashes_run : (getopt spec (begin (codes "in" ∷ (codes "--" ∷ [])))).0 ≡ some b'?'
unfolding getopt find_word next_option bring shift scan spec_of
dashes_run = refl

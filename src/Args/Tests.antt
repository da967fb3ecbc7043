-- ===== src/Args/Tests.antt =====
-- c/rt/args.c: runs of mv_args, and the theorem at concrete inputs.
use mellivora_os.Args.{mv_args}
use mellivora_os.Args.Laws.{line_words, mv_args_words}
use mellivora_os.Base.Texts.{codes}
use mellivora_os.Base.{ℕ, ◌+◌, min, ◌≡◌, some, List, ◌∷◌, length, take}

abbrev command : List ℕ
command = codes " a bc  d "

mv_args_words_example :
    (length (mv_args (codes "p") (some command) 3) ≡ min 3 (1 + length (line_words command)))
    × (take 2 (mv_args (codes "p") (some command) 3) ≡ take 2 (codes "p" ∷ line_words command))
mv_args_words_example = mv_args_words (codes "p") command 3

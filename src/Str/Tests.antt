-- ===== src/Str/Tests.antt =====
-- c/rt/string.c: runs of the functions, and the theorems at concrete inputs.
use mellivora_os.Base.{
  ℕ, ◌+◌, ◌≡◌, refl, ◌⊎◌, none, some, List, [], ◌∷◌, ◌++◌, arith, ◌==◌, if◌then◌else◌, length,
}
use mellivora_os.Base.Int.{◌-ℤ◌}
use mellivora_os.Str.Memory.{Memory, store, memcpy, memmove, copy_up, copy_down}
use mellivora_os.Str.Memory.Move.{memmove_lem, moved, memcpy_lem}
use mellivora_os.Str.Compare.{strncmp, strlen}
use mellivora_os.Str.Search.{strchr, strstr, strstr_loop}
use mellivora_os.Str.Search.Laws.{Lacks, strchr_lem}
use mellivora_os.Str.Token.{tokens_of}
use mellivora_os.Str.Token.Laws.{strtok_r_words, words}
use mellivora_os.Str.Copy.{strcpy}
use mellivora_os.Str.Copy.Laws.{IsString, strcpy-memcpy}

-- "ab" at 10, "cd" at 20, zeros elsewhere.
abbrev ram : Memory
ram = λ q.
    if q == 10
    then 97
    else if q == 11
    then 98
    else if q == 20
    then 99
    else if q == 21
    then 100
    else 0

abbrev ab : List ℕ
ab = 97 ∷ 98 ∷ []

abbrev cd : List ℕ
cd = 99 ∷ 100 ∷ []

-- An overlapping move upwards.
memmove_overlap : (memmove ram 11 10 2 11 ≡ 97) × (memmove ram 11 10 2 12 ≡ 98)
unfolding memmove copy_down store
memmove_overlap = (refl, refl)

memcpy_overlap : memcpy ram 11 10 2 12 ≡ 97
unfolding memcpy copy_up store
memcpy_overlap = refl

memcpy_lem_example : memcpy ram 9 10 2 9 ≡ memmove ram 9 10 2 9
memcpy_lem_example = memcpy_lem ram 9 10 2 9 (omega arith)

strchr_lem_example :
    ((strchr ab 98 ≡ none) × Lacks 98 ab)
    ⊎ ((pre post : List ℕ) × (ab ≡ pre ++ (98 ∷ post))
        × Lacks 98 pre
        × (strchr ab 98 ≡ some (length pre)))
strchr_lem_example = strchr_lem ab 98 (omega arith) (omega arith)

strstr-ab : strstr (99 ∷ 97 ∷ 98 ∷ []) ab ≡ some 1
unfolding strstr strstr_loop strncmp strlen ◌-ℤ◌
strstr-ab = refl

ab_at : IsString ram 10 ab
ab_at = omega arith

cd_at : IsString ram 20 cd
cd_at = omega arith

strcpy-memcpy_example : strcpy 3 ram 30 10 ≡ some (memcpy ram 30 10 3)
strcpy-memcpy_example = strcpy-memcpy ab 3 ram 30 10 ab_at (omega arith) (omega arith)

memmove_lem_example : memmove ram 11 10 2 12 ≡ moved ram 11 10 2 12
memmove_lem_example = memmove_lem ram 11 10 2 12

strtok_r_words_example :
    tokens_of (length (32 ∷ (ab ++ (32 ∷ cd))) + 1) (32 ∷ (ab ++ (32 ∷ cd))) (32 ∷ []) (some ab)
    ≡ some (words (32 ∷ []) [] (32 ∷ (ab ++ (32 ∷ cd))))
strtok_r_words_example = strtok_r_words (32 ∷ (ab ++ (32 ∷ cd))) (32 ∷ []) (some ab)

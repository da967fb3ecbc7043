-- ===== src/Stdlib/Tests.antt =====
-- c/rt/stdlib.c: runs of the functions, and the theorems at concrete inputs.
use mellivora_os.Stdlib.Process.{Exits, mv_run_atexit}
use mellivora_os.Stdlib.Process.Laws.{register_all, last_first, mv_run_atexit_lem}
use mellivora_os.Stdlib.Sort.{qsort, merge, merge_pass, merge_loop, insertion, sink}
use mellivora_os.Stdlib.Sort.Order.{IsOrder, IsSorted}
use mellivora_os.Stdlib.Sort.Stable.{select, ties}
use mellivora_os.Stdlib.Sort.Result.{qsort_lem, qsort_stable}
use mellivora_os.Stdlib.Search.{IsOrdered, IsEqual, bsearch, bsearch_loop, bsearch_lem}
use mellivora_os.Stdlib.Convert.{
  strtol, read_signed, read_digits, digits_loop, digit_value, skip_space, as_long,
}
use mellivora_os.Stdlib.Convert.Value.{strtol_lem, in_base, StandsFor}
use mellivora_os.Base.Int.{negsuc, ℤ, pos, ltb_ℤ, sub_ℕ}
use mathlib.Core.Option
use mathlib.Core.List.{Perm}
use mellivora_os.Base.{
  ℕ, zero, suc, ◌≡◌, refl, sym, ◌∙◌, true, false, List, [], ◌∷◌, arith, ltb, ◌<◌, some, tests, none,
  get_elem?, ◌+◌, ◌⊎◌, All, ◌*◌, u32, ◌-◌, ◌++◌, inl, inr,
}

-- A comparison of records by their keys.
abbrev by_key : ℕ × ℕ → ℕ × ℕ → ℤ
by_key a b = sub_ℕ a.0 b.0

abbrev records : List (ℕ × ℕ)
records = (3, 0) ∷ (1, 1) ∷ (3, 2) ∷ (2, 3) ∷ (1, 4) ∷ []

abbrev three : List (ℕ × ℕ)
three = (3, 0) ∷ (1, 1) ∷ (2, 2) ∷ []

sub_before : (a b : ℕ) → ltb_ℤ (sub_ℕ a b) (pos 0) ≡ ltb a b
sub_before a b = ground arith

sub_behind : (a b : ℕ) → ltb_ℤ (pos 0) (sub_ℕ a b) ≡ ltb b a
sub_behind a b = ground arith

ltb_asym : (a b : ℕ) → ltb a b ≡ true → ltb b a ≡ false
ltb_asym a b h = ground arith

ltb_trans : (a b c : ℕ) → ltb b a ≡ false → ltb c b ≡ false → ltb c a ≡ false
ltb_trans a b c h k = ground arith

by_key-IsOrder : IsOrder by_key
by_key-IsOrder = record {
  flip = λ a b. sub_behind a.0 b.0 ∙ sym (sub_before b.0 a.0);
  asym = λ a b h. sub_before b.0 a.0 ∙ ltb_asym a.0 b.0 (sym (sub_before a.0 b.0) ∙ h);
  trans = λ a b c h k.
      sub_before c.0 a.0
      ∙ ltb_trans a.0 b.0 c.0 (sym (sub_before b.0 a.0) ∙ h) (sym (sub_before c.0 b.0) ∙ k);
}

qsort-records : (qsort by_key true records).items ≡ (1, 1) ∷ (1, 4) ∷ (2, 3) ∷ (3, 0) ∷ (3, 2) ∷ []
unfolding qsort merge_loop merge_pass merge
qsort-records = refl

insertion-records :
    (qsort by_key false records).items ≡ (1, 1) ∷ (1, 4) ∷ (2, 3) ∷ (3, 0) ∷ (3, 2) ∷ []
unfolding qsort insertion sink
insertion-records = refl

qsort_lem_example :
    IsSorted by_key (qsort by_key true records).items
    × Perm (qsort by_key true records).items records
qsort_lem_example = qsort_lem by_key by_key-IsOrder true records

qsort_stable_example :
    select (ties by_key (3, 9)) (qsort by_key true records).items
    ≡ select (ties by_key (3, 9)) records
qsort_stable_example = qsort_stable by_key by_key-IsOrder true records (3, 9)

abbrev keys : List ℕ
keys = 10 ∷ 20 ∷ 30 ∷ []

ltb_before : (k a b : ℕ) → ltb a b ≡ true → ltb k a ≡ true → ltb k b ≡ true
ltb_before k a b h l = ground arith

bsearch-keys :
    (bsearch sub_ℕ 20 keys ≡ some 1)
    × ((bsearch sub_ℕ 30 keys ≡ some 2) × (bsearch sub_ℕ 25 keys ≡ none))
unfolding bsearch bsearch_loop
bsearch-keys = (refl, (refl, refl))

keys_at : (i a : ℕ) → get_elem? keys i ≡ some a → a ≡ 10 + 10 * i
keys_at zero a e = let v = Option.some-injective 10 a e in omega arith
keys_at (suc zero) a e = let v = Option.some-injective 20 a e in omega arith
keys_at (suc (suc zero)) a e = let v = Option.some-injective 30 a e in omega arith
keys_at (suc (suc (suc i))) a e = absurd (grind (arith, e))

keys_rising : (i j a b : ℕ) → i < j → get_elem? keys i ≡ some a → get_elem? keys j ≡ some b → a < b
keys_rising i j a b h at_i at_j = omega (arith, keys_at i a at_i, keys_at j b at_j)

keys-IsOrdered : IsOrdered sub_ℕ 20 keys
keys-IsOrdered = record {
  above = λ i j a b h at_i at_j l.
      let rising = keys_rising i j a b h at_i at_j in
      let below = sym (sub_before 20 a) ∙ l in sub_before 20 b ∙ (grind (tests, rising, below));
  below = λ i j a b h at_i at_j l.
      let rising = keys_rising i j a b h at_i at_j in
      let above = sym (sub_behind 20 b) ∙ l in sub_behind 20 a ∙ (grind (tests, rising, above));
}

bsearch_lem_example :
    ((i : ℕ) × ((a : ℕ) × ((bsearch sub_ℕ 20 keys ≡ some i)
          × ((get_elem? keys i ≡ some a) × IsEqual sub_ℕ 20 a))))
    ⊎ ((bsearch sub_ℕ 20 keys ≡ none) × All (λ a. ¬ IsEqual sub_ℕ 20 a) keys)
bsearch_lem_example = bsearch_lem sub_ℕ 20 keys keys-IsOrdered

-- " -17;"
strtol_run : (strtol (32 ∷ 45 ∷ 49 ∷ 55 ∷ 59 ∷ []) 10).value ≡ negsuc 16
unfolding strtol read_signed read_digits digits_loop digit_value skip_space
strtol_run = refl

strtol_lem_example : strtol (32 ∷ 45 ∷ 49 ∷ 66 ∷ 59 ∷ []) 12 ≡ record {
  value = as_long (u32 (0x100000000 - u32 (in_base 12 0 (1 ∷ 11 ∷ []))));
  endptr = 59 ∷ [];
  invalid = false;
}
strtol_lem_example =
    strtol_lem 12 (32 ∷ []) true 49 1 (66 ∷ []) (11 ∷ []) (59 ∷ []) (omega arith) (omega arith)
      (omega arith) (refl, tt) (inl (omega arith, refl), (inr (1, omega arith, refl, inr refl), tt))
      (omega arith, (omega arith, tt)) no_digit
  where
    no_digit : (w : ℕ) → w < 12 → ¬ StandsFor 59 w
    no_digit w l (inl (k, e)) = omega (arith, k, e)
    no_digit w l (inr (k, m, e, inl f)) = omega (arith, f)
    no_digit w l (inr (k, m, e, inr f)) = omega (arith, f)

-- The world is the functions that ran.
abbrev logged : ℕ → Exits (List ℕ) → Exits (List ℕ)
logged fn x = record x { world = x.world ++ (fn ∷ []) }

mv_run_atexit_lem_example :
    mv_run_atexit logged 3 (register_all (5 ∷ (6 ∷ [])) (record { world = []; funcs = [] }))
    ≡ some (record {
      world = last_first logged (λ fn w. w ++ (fn ∷ [])) (5 ∷ (6 ∷ [])) [];
      funcs = [];
    })
mv_run_atexit_lem_example =
    mv_run_atexit_lem logged (λ fn w. w ++ (fn ∷ [])) (λ fn x. refl) (5 ∷ (6 ∷ [])) []
      (omega arith, (omega arith, tt)) (omega arith)

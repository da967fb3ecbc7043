-- ===== src/Posix/Getopt/Shift.antt =====
-- c/rt/posix.c: how getopt brings a word to the front.
use mellivora_os.Base.{
  ℕ, suc, ◌+◌, ◌-◌, ◌≡◌, refl, sym, ap, ◌∙◌, List, [], ◌∷◌, ◌++◌, arith, length, set, get_or,
}
use mellivora_os.Posix.Getopt.{shift, bring}

-- The first list reversed, before the second one.
pub onto : List (List ℕ) → List (List ℕ) → List (List ℕ)
onto [] l = l
onto (x ∷ r) l = onto r (x ∷ l)

onto-onto : (a b l : List (List ℕ)) → onto (onto a b) l ≡ onto b (a ++ l)
unfolding onto
onto-onto [] b l = refl
onto-onto (x ∷ a) b l = onto-onto a (x ∷ b) l

length-onto : (a b : List (List ℕ)) → length (onto a b) ≡ length a + length b
unfolding onto
length-onto [] b = omega arith
length-onto (x ∷ a) b = length-onto a (x ∷ b) ∙ omega arith

next : (pre : List (List ℕ)) (j : ℕ) → suc (length pre) + j ≡ suc (length pre + j)
next pre j = omega arith

pub get_behind :
    (pre l : List (List ℕ)) (j : ℕ) → get_or (pre ++ l) (length pre + j) [] ≡ get_or l j []
get_behind [] l j = ap (λ k. get_or l k []) (omega arith)
get_behind (x ∷ pre) l j = ap (λ k. get_or (x ∷ (pre ++ l)) k []) (next pre j) ∙ get_behind pre l j

set_behind :
    (pre l : List (List ℕ)) (j : ℕ) (z : List ℕ)
    → set (pre ++ l) (length pre + j) z ≡ pre ++ set l j z
set_behind [] l j z = ap (λ k. set l k z) (omega arith)
set_behind (x ∷ pre) l j z =
    ap (λ k. set (x ∷ (pre ++ l)) k z) (next pre j) ∙ ap (λ k. x ∷ k) (set_behind pre l j z)

get_or-onto : (r l : List (List ℕ)) (j : ℕ) → get_or (onto r l) (length r + j) [] ≡ get_or l j []
unfolding onto
get_or-onto [] l j = ap (λ k. get_or l k []) (omega arith)
get_or-onto (x ∷ r) l j =
    ap (λ k. get_or (onto r (x ∷ l)) k []) (omega arith) ∙ get_or-onto r (x ∷ l) (suc j)

set-onto :
    (r l : List (List ℕ)) (j : ℕ) (z : List ℕ)
    → set (onto r l) (length r + j) z ≡ onto r (set l j z)
unfolding onto
set-onto [] l j z = ap (λ k. set l k z) (omega arith)
set-onto (x ∷ r) l j z =
    ap (λ k. set (onto r (x ∷ l)) k z) (omega arith) ∙ set-onto r (x ∷ l) (suc j) z

shift_lem :
    (r pre tail : List (List ℕ)) (y w : List ℕ)
    → set (shift (length r) (length pre + length r) (pre ++ onto r (y ∷ tail))) (length pre) w
      ≡ pre ++ (w ∷ onto r tail)
unfolding shift onto
shift_lem [] pre tail y w =
    ap (λ k. set (pre ++ (y ∷ tail)) k w) (omega arith) ∙ set_behind pre (y ∷ tail) 0 w
shift_lem (x ∷ r) pre tail y w =
    let n : ℕ = length r in
    let l : List (List ℕ) = onto r (x ∷ (y ∷ tail)) in
    let here : get_or (pre ++ l) (length pre + suc n - 1) [] ≡ x =
      ap (λ k. get_or (pre ++ l) k []) (omega arith)
      ∙ get_behind pre l (n + 0)
      ∙ get_or-onto r (x ∷ (y ∷ tail)) 0 in
    let moved : set (pre ++ l) (length pre + suc n) x ≡ pre ++ onto r (x ∷ (x ∷ tail)) =
      ap (λ k. set (pre ++ l) k x) (omega arith)
      ∙ set_behind pre l (n + 1) x
      ∙ ap (λ k. pre ++ k) (set-onto r (x ∷ (y ∷ tail)) 1 x) in
    ap
      (λ z.
        set (shift n (length pre + suc n - 1) (set (pre ++ l) (length pre + suc n) z)) (length pre)
          w)
      here
    ∙ ap (λ v. set (shift n (length pre + suc n - 1) v) (length pre) w) moved
    ∙ ap (λ i. set (shift n i (pre ++ onto r (x ∷ (x ∷ tail)))) (length pre) w) (omega arith)
    ∙ shift_lem r pre (x ∷ tail) x w

-- A word behind some others comes before them, and the order of those stays.
pub bring_lem :
    (pre ops rest : List (List ℕ)) (w : List ℕ)
    → bring (length pre) (length pre + length ops) (pre ++ (ops ++ (w ∷ rest)))
      ≡ pre ++ (w ∷ (ops ++ rest))
unfolding bring onto
bring_lem pre ops rest w =
    let r : List (List ℕ) = onto ops [] in
    let v : List (List ℕ) = pre ++ (ops ++ (w ∷ rest)) in
    let size : length r ≡ length ops = length-onto ops [] ∙ omega arith in
    let word : get_or v (length pre + length ops) [] ≡ w =
      get_behind pre (ops ++ (w ∷ rest)) (length ops)
      ∙ ap (λ k. get_or (ops ++ (w ∷ rest)) k []) (omega arith)
      ∙ get_behind ops (w ∷ rest) 0 in
    let words : v ≡ pre ++ onto r (w ∷ rest) =
      ap (λ l. pre ++ l) (sym (onto-onto ops [] (w ∷ rest))) in
    let rounds : length pre + length ops - length pre ≡ length r = omega (arith, size) in
    ap (set (shift (length pre + length ops - length pre) (length pre + length ops) v) (length pre))
      word
    ∙ ap (λ n. set (shift n (length pre + length ops) v) (length pre) w) rounds
    ∙ ap (λ n. set (shift (length r) (length pre + n) v) (length pre) w) (sym size)
    ∙ ap (λ u. set (shift (length r) (length pre + length r) u) (length pre) w) words
    ∙ shift_lem r pre rest w w
    ∙ ap (λ l. pre ++ (w ∷ l)) (onto-onto ops [] rest)

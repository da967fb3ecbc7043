-- ===== src/Args/Laws.antt =====
-- c/rt/args.c: the arguments are the words of the line.
use mellivora_os.Args.{blanks, args_at, args_loop, mv_args}
use mellivora_os.Str.Span.{in_set, strspn, strcspn, strspn_lem, strcspn_lem, strcspn-cons}
use mellivora_os.Str.Token.Laws.{words, words-Inside, words-token}
use mellivora_os.Base.{
  take_zero, ℕ, zero, suc, ◌+◌, ◌-◌, ◌≤◌, min, ◌≡◌, refl, sym, ap, ◌∙◌, subst, ◌⊎◌, inl, inr, Bool,
  true, false, some, List, [], ◌∷◌, arith, ◌==◌, if◌then◌else◌, length, take, drop,
  take-append-drop, length-drop, first, rest_of,
}

-- The words of a line, byte by byte.
abbrev pub line_words : List ℕ → List (List ℕ)
line_words s = words (32 ∷ (9 ∷ [])) [] s

skip_blanks : (s : List ℕ) → line_words s ≡ line_words (drop (strspn s blanks) s)
skip_blanks s =
    ap line_words (sym (take-append-drop (strspn s blanks) s))
    ∙ words-Inside blanks (take (strspn s blanks) s) (drop (strspn s blanks) s)
        (strspn_lem s blanks).0

behind_word :
    (s : List ℕ)
    → (s ≡ []) ⊎ (in_set blanks (first s) ≡ true)
    → line_words s ≡ line_words (rest_of s)
behind_word [] h = refl
behind_word (c ∷ s) (inl e) = cc
behind_word (c ∷ s) (inr e) = rw e refl

next_word :
    (c : ℕ) (s : List ℕ)
    → in_set blanks c ≡ false
    → line_words (c ∷ s)
      ≡ take (strcspn (c ∷ s) blanks) (c ∷ s) ∷ line_words (drop (strcspn (c ∷ s) blanks) (c ∷ s))
next_word c s h =
    words-token blanks c s h
    ∙ ap (λ ws. take (strcspn (c ∷ s) blanks) (c ∷ s) ∷ ws)
        (sym (behind_word (drop (strcspn (c ∷ s) blanks) (c ∷ s)) (strcspn_lem (c ∷ s) blanks).1))

-- The arguments from `p` on, against the words there: as many as there is room for, and all but the
-- last place as they are.
Splits : List (List ℕ) → List (List ℕ) → ℕ → Type 0
Splits args ws room =
    (length args ≡ min room (length ws)) × (take (room - 1) args ≡ take (room - 1) ws)

one_more :
    (q w : List ℕ) (args ws : List (List ℕ)) (room : ℕ)
    → Splits args ws room
    → Splits ((if room == 0 then q else w) ∷ args) (w ∷ ws) (suc room)
unfolding Splits
one_more q w args ws zero h = let count = h.0 in (omega (arith, count), refl)
one_more q w args ws (suc room) h =
    let e : suc (suc room) - 1 ≡ suc room = omega arith in
    let d : suc room - 1 ≡ room = omega arith in
    let count = h.0 in
    let heads : take room args ≡ take room ws = subst (λ n. take n args ≡ take n ws) d h.1 in
    let not_last : (suc room == 0) ≡ false = ground arith in
    (omega (arith, count), rw (e, not_last) (ap (λ l. w ∷ l) heads))

loop_done :
    (fuel : ℕ) (p : List ℕ) (room : ℕ)
    → drop (strspn p blanks) p ≡ []
    → args_loop (suc fuel) (suc room) p ≡ []
unfolding args_loop
loop_done fuel p room e = ap (args_at (args_loop fuel room) room) e

loop_word :
    (fuel : ℕ) (p : List ℕ) (room c : ℕ) (s : List ℕ)
    → drop (strspn p blanks) p ≡ c ∷ s
    → args_loop (suc fuel) (suc room) p
      ≡ (if room == 0 then c ∷ s else take (strcspn (c ∷ s) blanks) (c ∷ s))
        ∷ args_loop fuel room (drop (strcspn (c ∷ s) blanks) (c ∷ s))
unfolding args_loop
loop_word fuel p room c s e = ap (args_at (args_loop fuel room) room) e

-- A round of the loop, by what stands behind the blanks.
round-Splits :
    (fuel : ℕ) (p : List ℕ) (room : ℕ) (q : List ℕ)
    → ((r : List ℕ) → length r ≤ fuel → Splits (args_loop fuel room r) (line_words r) room)
    → length q ≤ suc fuel
    → drop (strspn p blanks) p ≡ q
    → (q ≡ []) ⊎ (in_set blanks (first q) ≡ false)
    → Splits (args_loop (suc fuel) (suc room) p) (line_words p) (suc room)
unfolding Splits
round-Splits fuel p room [] later small e start =
    rw (loop_done fuel p room e, skip_blanks p, e) (omega arith, refl)
round-Splits fuel p room (c ∷ s) later small e (inl start) = cc
round-Splits fuel p room (c ∷ s) later small e (inr start) =
    let n = strcspn (c ∷ s) blanks in
    let longer = length-drop n (c ∷ s) in
    let some_bytes = strcspn-cons c s blanks start in
    rw (loop_word fuel p room c s e, skip_blanks p, e, next_word c s start)
      (one_more (c ∷ s) (take n (c ∷ s)) (args_loop fuel room (drop n (c ∷ s)))
        (line_words (drop n (c ∷ s))) room
        (later (drop n (c ∷ s)) (omega (arith, longer, some_bytes))))

args_loop-words :
    (fuel : ℕ) (p : List ℕ) (room : ℕ)
    → length p ≤ fuel
    → Splits (args_loop fuel room p) (line_words p) room
unfolding Splits args_loop
args_loop-words zero [] room h = (omega arith, refl)
args_loop-words zero (c ∷ p) room h = absurd (omega arith)
args_loop-words (suc fuel) p zero h = (omega arith, sym (take_zero (line_words p)))
args_loop-words (suc fuel) p (suc room) h =
    let shorter = length-drop (strspn p blanks) p in
    round-Splits fuel p room (drop (strspn p blanks) p)
      (λ r small. args_loop-words fuel r room small) (omega (arith, shorter)) refl
      (strspn_lem p blanks).1

same_branch : (b : Bool) (w : List ℕ) → (if b then w else w) ≡ w
same_branch true w = refl
same_branch false w = refl

-- The arguments are the name of the program and the words of the line, the longest runs of bytes other
-- than a space and a tab: as many of them as `argv` has places for, and all but the one in the last place
-- are the words themselves.
pub mv_args_words :
    (prog line : List ℕ) (max : ℕ)
    → (length (mv_args prog (some line) max) ≡ min max (1 + length (line_words line)))
      × (take (max - 1) (mv_args prog (some line) max) ≡ take (max - 1) (prog ∷ line_words line))
unfolding mv_args Splits
mv_args_words prog line zero = (omega arith, refl)
mv_args_words prog line (suc max) =
    let args = args_loop (length line) max line in
    let h = args_loop-words (length line) line max (omega arith) in
    let named =
      subst (λ w. Splits (w ∷ args) (prog ∷ line_words line) (suc max))
        (same_branch (max == 0) prog) (one_more prog prog args (line_words line) max h) in
    let count = named.0 in (omega (arith, count), named.1)

-- ===== src/Str/Token/Laws.antt =====
-- c/rt/string.c: the tokens that repeated calls of `strtok_r` give.
use mellivora_os.Base.{
  ℕ, zero, suc, ◌+◌, ◌<◌, ◌≡◌, refl, Option, sym, ap, ◌∙◌, subst, ◌⊎◌, inl, inr, true, false, none,
  some, List, [], ◌∷◌, ◌++◌, append-nil, append_assoc, arith, if◌then◌else◌, length, take, drop,
  take-append-drop, length-drop, first, rest_of,
}
use mellivora_os.Str.Span.{
  in_set, strspn, strcspn, strspn_lem, strcspn_lem, Inside, Outside, strcspn-cons,
}
use mellivora_os.Str.Token.{strtok_r, token_at, after_token, all_tokens, tokens_of, collect}

module _ (delim : List ℕ) where
  -- A run of other bytes that has ended; an empty one is no word.
  abbrev flush : List ℕ → List (List ℕ) → List (List ℕ)
  flush [] words = words
  flush (c ∷ run) words = (c ∷ run) ∷ words

  -- The longest runs of bytes that are no delimiters, byte by byte.
  abbrev pub words : List ℕ → List ℕ → List (List ℕ)
  words run [] = flush run []
  words run (c ∷ s) =
      let cut = flush run (words [] s) in
      let more = words (run ++ (c ∷ [])) s in if in_set delim c then cut else more

  pub words-Inside : (pre s : List ℕ) → Inside delim pre → words [] (pre ++ s) ≡ words [] s
  words-Inside [] s h = refl
  words-Inside (c ∷ pre) s h = rw h.0 (words-Inside pre s h.1)

  words-Outside : (run t s : List ℕ) → Outside delim t → words run (t ++ s) ≡ words (run ++ t) s
  words-Outside run [] s h = rw append-nil
  words-Outside run (c ∷ t) s h =
      rw h.0 (
        words-Outside (run ++ (c ∷ [])) t s h.1 ∙ ap (λ u. words u s) (append_assoc run (c ∷ []) t))

  all_tokens-none : (fuel : ℕ) → 0 < fuel → all_tokens fuel none delim ≡ some []
  unfolding all_tokens strtok_r collect
  all_tokens-none zero h = elim h [ ]
  all_tokens-none (suc fuel) h = refl

  -- One call on what is left: the rest of the run at hand and the words behind it.
  all_tokens_step :
      (fuel c : ℕ) (s : List ℕ) (start : List ℕ) (ts : List (List ℕ))
      → drop (strspn start delim) start ≡ c ∷ s
      → all_tokens fuel (after_token (drop (strcspn (c ∷ s) delim) (c ∷ s))) delim ≡ some ts
      → all_tokens (suc fuel) (some start) delim ≡ some (take (strcspn (c ∷ s) delim) (c ∷ s) ∷ ts)
  unfolding all_tokens strtok_r collect
  all_tokens_step fuel c s start ts e h =
      ap (λ st. collect st.token (all_tokens fuel st.save delim)) (ap (λ u. token_at u delim) e)
      ∙ ap (collect (some (take (strcspn (c ∷ s) delim) (c ∷ s)))) h

  all_tokens_end :
      (fuel : ℕ) (start : List ℕ)
      → drop (strspn start delim) start ≡ []
      → all_tokens (suc fuel) (some start) delim ≡ some []
  unfolding all_tokens strtok_r collect
  all_tokens_end fuel start e =
      ap (λ st. collect st.token (all_tokens fuel st.save delim)) (ap (λ u. token_at u delim) e)

  -- Behind a token stands a delimiter, or the end of the string.
  flush_at :
      (x : ℕ) (run rest : List ℕ)
      → (rest ≡ []) ⊎ (in_set delim (first rest) ≡ true)
      → words (x ∷ run) rest ≡ (x ∷ run) ∷ words [] (rest_of rest)
  flush_at x run [] h = refl
  flush_at x run (c ∷ rest) (inl e) = cc
  flush_at x run (c ∷ rest) (inr e) = rw e

  -- The run that a token is, and the words behind it.
  pub words-token :
      (c : ℕ) (t : List ℕ)
      → in_set delim c ≡ false
      → words [] (c ∷ t)
        ≡ take (strcspn (c ∷ t) delim) (c ∷ t)
          ∷ words [] (rest_of (drop (strcspn (c ∷ t) delim) (c ∷ t)))
  words-token c t h =
      ap (words []) (sym (take-append-drop k (c ∷ t)))
      ∙ words-Outside [] (take k (c ∷ t)) (drop k (c ∷ t)) (strcspn_lem (c ∷ t) delim).0
      ∙ subst
          (λ n.
            (drop n (c ∷ t) ≡ []) ⊎ (in_set delim (first (drop n (c ∷ t))) ≡ true)
            → words (take n (c ∷ t)) (drop n (c ∷ t))
              ≡ take n (c ∷ t) ∷ words [] (rest_of (drop n (c ∷ t))))
          (sym (strcspn-cons c t delim h))
          (flush_at c (take (strcspn t delim) t) (drop (strcspn t delim) t))
          (strcspn_lem (c ∷ t) delim).1
    where
      k : ℕ
      k = strcspn (c ∷ t) delim

  all_tokens-words :
      (fuel : ℕ) (s : List ℕ) → length s < fuel → all_tokens fuel (some s) delim ≡ some (words [] s)
  unfolding after_token
  all_tokens-words zero s h = elim h [ ]
  all_tokens-words (suc fuel) s h =
      go (λ rest l. all_tokens-words fuel rest l) (drop (strspn s delim) s) refl
        (strspn_lem s delim).1
    where
      skip : words [] s ≡ words [] (drop (strspn s delim) s)
      skip =
          ap (words []) (sym (take-append-drop (strspn s delim) s))
          ∙ words-Inside (take (strspn s delim) s) (drop (strspn s delim) s) (strspn_lem s delim).0

      after :
          ((rest : List ℕ)
            → length rest < fuel
            → all_tokens fuel (some rest) delim ≡ some (words [] rest))
          → (rest : List ℕ) → length rest < length s
          → all_tokens fuel (after_token rest) delim ≡ some (words [] (rest_of rest))
      after ih [] l = all_tokens-none fuel (omega arith)
      after ih (d ∷ rest) l = ih rest (omega arith)

      go :
          ((rest : List ℕ)
            → length rest < fuel
            → all_tokens fuel (some rest) delim ≡ some (words [] rest))
          → (t : List ℕ) → drop (strspn s delim) s ≡ t
          → (t ≡ []) ⊎ (in_set delim (first t) ≡ false)
          → all_tokens (suc fuel) (some s) delim ≡ some (words [] s)
      go ih [] e i = all_tokens_end fuel s e ∙ ap some (sym (skip ∙ ap (words []) e))
      go ih (c ∷ t) e (inl i) = cc
      go ih (c ∷ t) e (inr i) =
          all_tokens_step fuel c t s _ e (
            after ih (drop (strcspn (c ∷ t) delim) (c ∷ t)) (
              omega (
                arith,
                length-drop (strcspn (c ∷ t) delim) (c ∷ t),
                strcspn-cons c t delim i,
                length-drop (strspn s delim) s,
                ap length e,
              )))
          ∙ ap some (sym (skip ∙ ap (words []) e ∙ words-token c t i))

all_tokens-tokens_of :
    (fuel : ℕ) (s delim : List ℕ) (save : Option (List ℕ))
    → tokens_of fuel s delim save ≡ all_tokens fuel (some s) delim
unfolding tokens_of all_tokens strtok_r
all_tokens-tokens_of zero s delim save = refl
all_tokens-tokens_of (suc fuel) s delim save = refl

-- Called once on a string and then with null until it answers null, `strtok_r` gives the longest runs of
-- bytes that are no delimiters, each once and in order, and nothing else, whatever the pointer that
-- it saves was before; one call more than the string has bytes is enough.
pub strtok_r_words :
    (s delim : List ℕ) (save : Option (List ℕ))
    → tokens_of (length s + 1) s delim save ≡ some (words delim [] s)
strtok_r_words s delim save =
    all_tokens-tokens_of (length s + 1) s delim save
    ∙ all_tokens-words delim (length s + 1) s (omega arith)

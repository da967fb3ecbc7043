-- ===== src/Base/Writer.antt =====
-- Output byte by byte: what is written does not depend on the sink that the bytes go to.
use mellivora_os.Base.{
  ℕ, zero, suc, ◌≡◌, refl, sym, ap, ◌∙◌, Bool, true, false, List, [], ◌∷◌, ◌++◌, if◌then◌else◌,
}

module _ {S : Type 0} (put : S → ℕ → S) where
  unfoldable pub put_all : S → List ℕ → S
  put_all s [] = s
  put_all s (c ∷ l) = put_all (put s c) l

  unfoldable pub put_repeat : ℕ → ℕ → S → S
  put_repeat c zero s = s
  put_repeat c (suc n) s = put_repeat c n (put s c)

  pub put_all-append : (s : S) (l r : List ℕ) → put_all s (l ++ r) ≡ put_all (put_all s l) r
  unfolding put_all
  put_all-append s [] r = refl
  put_all-append s (c ∷ l) r = put_all-append (put s c) l r

-- An operation on every sink.
abbrev pub Output : Type 1
Output = (S : Type 0) → (S → ℕ → S) → S → S

-- The operation puts the bytes of one text, whatever the sink.
pub record Writes (op : Output) : Type 1 where
  pub text : List ℕ
  pub law : (S : Type 0) (put : S → ℕ → S) (s : S) → op S put s ≡ put_all put s text

pub writes_nothing : Writes (λ S put s. s)
unfolding put_all
writes_nothing = record { text = []; law = λ S put s. refl }

pub writes_one : (c : ℕ) → Writes (λ S put s. put s c)
unfolding put_all
writes_one c = record { text = c ∷ []; law = λ S put s. refl }

pub writes_all : (l : List ℕ) → Writes (λ S put s. put_all put s l)
writes_all l = record { text = l; law = λ S put s. refl }

pub writes_both :
    (one other : Output) → Writes one → Writes other → Writes (λ S put s. other S put (one S put s))
writes_both one other v w = record {
  text = v.text ++ w.text;
  law = λ S put s.
      w.law S put (one S put s)
      ∙ ap (λ z. put_all put z w.text) (v.law S put s)
      ∙ sym (put_all-append put s v.text w.text);
}

pub writes_repeat : (c n : ℕ) → Writes (λ S put. put_repeat put c n)
unfolding put_repeat
writes_repeat c zero = writes_nothing
writes_repeat c (suc n) =
    writes_both (λ S put s. put s c) (λ S put. put_repeat put c n) (writes_one c)
      (writes_repeat c n)

pub writes_if :
    (b : Bool) (one other : Output)
    → Writes one
    → Writes other
    → Writes (λ S put s. if b then one S put s else other S put s)
writes_if true one other v w = v
writes_if false one other v w = w

pub writes_case :
    (b : Bool) (one other : Output)
    → Writes one
    → Writes other
    → Writes (λ S put s. elim b [ true ↦ one S put s | false ↦ other S put s ])
writes_case true one other v w = v
writes_case false one other v w = w

pub writes_list :
    (l : List ℕ) (one : Output) (other : ℕ → List ℕ → Output)
    → Writes one
    → ((c : ℕ) (r : List ℕ) → Writes (other c r))
    → Writes (λ S put s. elim l [ [] ↦ one S put s | c ∷ r ↦ other c r S put s ])
writes_list [] one other v w = v
writes_list (c ∷ r) one other v w = w c r

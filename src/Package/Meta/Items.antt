-- ===== src/Package/Meta/Items.antt =====
-- tools/hbpkg.c: the array of a dependency or file list, as meta_parse_toml reads it.
use mellivora_os.Base.{
  take_nil, ℕ, zero, suc, ◌-◌, ◌≤◌, ◌≡◌, refl, ap, ◌∙◌, true, false, Option, none, some, List, [],
  ◌∷◌, ◌++◌, arith, ◌==◌, length, take, All,
}
use mellivora_os.Package.Meta.{skip_separators, item_end, next_item, items, split}
use mellivora_os.Package.Meta.Print.{quoted, more_items, array_items, IsItem}

-- The first character that is looked for is the one behind a text that does not have it.
pub split_lem :
    (x : ℕ) (s r : List ℕ) → All (λ c. (c == x) ≡ false) s → split x (s ++ (x ∷ r)) ≡ some (s, r)
unfolding split
split_lem x [] r h = let same : (x == x) ≡ true = ground arith in rw same refl
split_lem x (c ∷ s) r h = rw (h.0, split_lem x s r h.1) refl

item_end-quoted :
    (d r : List ℕ) → All (λ c. (c == b'"') ≡ false) d → item_end (d ++ (b'"' ∷ r)) ≡ some (d, r)
unfolding item_end
item_end-quoted d r h = rw (item_end, split_lem b'"' d r h) refl

next_item-quoted :
    (d r : List ℕ) → All (λ c. (c == b'"') ≡ false) d → next_item (quoted d r) ≡ some (d, r)
unfolding next_item quoted
next_item-quoted d r h = item_end-quoted d r h

pub take_all {ℓ} : {A : Type ℓ} (l : List A) (n : ℕ) → length l ≤ n → take n l ≡ l
take_all [] n h = take_nil n
take_all (x ∷ l) zero h = absurd (omega (arith, h))
take_all (x ∷ l) (suc n) h = ap (λ r. x ∷ r) (take_all l n (omega (arith, h)))

taken :
    (size room : ℕ) (p d r : List ℕ)
    → IsItem size d
    → skip_separators p ≡ quoted d r
    → items size (suc room) p ≡ d ∷ items size room r
unfolding items
taken size room p d r h e =
    let fits = h.short in
    let small : length d ≤ size - 1 = omega (arith, fits) in
    let step : Option (List ℕ × List ℕ) → List (List ℕ) = λ found. elim found [
      | none ↦ []
      | some (item, rest) ↦ take (size - 1) item ∷ items size room rest
    ] in
    ap step (ap next_item e ∙ next_item-quoted d r h.no_quote)
    ∙ ap (λ t. t ∷ items size room r) (take_all d (size - 1) small)

pub items-more_items :
    (size : ℕ) (l : List (List ℕ)) (room : ℕ)
    → All (IsItem size) l
    → length l ≤ room
    → items size room (more_items l) ≡ l
unfolding items more_items quoted skip_separators next_item
items-more_items size [] zero h k = refl
items-more_items size [] (suc room) h k = refl
items-more_items size (d ∷ l) zero h k = absurd (omega arith)
items-more_items size (d ∷ l) (suc room) h k =
    taken size room (more_items (d ∷ l)) d (more_items l) h.0 refl
    ∙ ap (λ r. d ∷ r) (items-more_items size l room h.1 (omega arith))

pub items-array_items :
    (size : ℕ) (l : List (List ℕ)) (room : ℕ)
    → All (IsItem size) l
    → length l ≤ room
    → items size room (array_items l) ≡ l
unfolding items array_items quoted skip_separators next_item
items-array_items size [] zero h k = refl
items-array_items size [] (suc room) h k = refl
items-array_items size (d ∷ l) zero h k = absurd (omega arith)
items-array_items size (d ∷ l) (suc room) h k =
    taken size room (array_items (d ∷ l)) d (more_items l) h.0 refl
    ∙ ap (λ r. d ∷ r) (items-more_items size l room h.1 (omega arith))

-- ===== src/Str/Span.antt =====
-- c/rt/string.c: strspn, strcspn and strpbrk.
use mellivora_os.Base.{
  ℕ, suc, ◌+◌, ◌%◌, ◌≤◌, ◌<◌, ◌≡◌, refl, ◌⊎◌, inl, inr, Bool, true, false, ◌||◌, Option, none, some,
  List, [], ◌∷◌, arith, ltb, ◌==◌, if◌then◌else◌, Bool-cases, length, set, take, drop, All, first,
  add-one,
}
use mathlib.Core.Option
use mellivora_os.Str.Search.{strchr}

abbrev pub is_some : Option ℕ → Bool
is_some none = false
is_some (some at) = true

-- `strchr(set, c) != 0`, for a byte that is not the terminator.
pub in_set : List ℕ → ℕ → Bool
in_set set c = is_some (strchr set c)

pub strspn : List ℕ → List ℕ → ℕ
strspn [] accept = 0
strspn (c ∷ s) accept = if in_set accept c then strspn s accept + 1 else 0

pub strcspn : List ℕ → List ℕ → ℕ
strcspn [] reject = 0
strcspn (c ∷ s) reject = if in_set reject c then 0 else strcspn s reject + 1

-- An offset into `s`, or null.
pub strpbrk : List ℕ → List ℕ → Option ℕ
strpbrk [] accept = none
strpbrk (c ∷ s) accept = if in_set accept c then some 0 else Option.map suc (strpbrk s accept)

-- Bytes that stand in the set, and bytes that do not.
abbrev pub Inside : List ℕ → List ℕ → Type 0
Inside set s = All (λ c. in_set set c ≡ true) s

abbrev pub Outside : List ℕ → List ℕ → Type 0
Outside set s = All (λ c. in_set set c ≡ false) s

-- The set is that of the bytes of the string.
abbrev pub member : ℕ → List ℕ → Bool
member c [] = false
member c (x ∷ set) = x == c || member c set

is_some-map : (o : Option ℕ) → is_some (Option.map suc o) ≡ is_some o
is_some-map none = refl
is_some-map (some at) = refl

pub in_set-member : (set : List ℕ) (c : ℕ) → 0 < c → c < 256 → in_set set c ≡ member c set
unfolding in_set strchr
in_set-member [] c h k = ground arith
in_set-member (x ∷ set) c h k = elim (Bool-cases (x == c)) [
  | inl same ↦ rw (small, same)
  | inr other ↦ rw (small, other, is_some-map) (in_set-member set c h k)
]
  where
    small : c % 256 ≡ c
    small = omega arith

-- `strspn` measures the longest prefix whose bytes are all accepted.
pub strspn_lem :
    (s accept : List ℕ)
    → Inside accept (take (strspn s accept) s)
      × ((drop (strspn s accept) s ≡ [])
          ⊎ (in_set accept (first (drop (strspn s accept) s)) ≡ false))
unfolding strspn
strspn_lem [] accept = (tt, inl refl)
strspn_lem (c ∷ s) accept = elim (Bool-cases (in_set accept c)) [
  | inl yes' ↦ rw (yes', add-one) ((yes', (strspn_lem s accept).0), (strspn_lem s accept).1)
  | inr no' ↦ rw no' (tt, inr no')
]

-- `strcspn` measures the longest prefix with no rejected byte.
pub strcspn_lem :
    (s reject : List ℕ)
    → Outside reject (take (strcspn s reject) s)
      × ((drop (strcspn s reject) s ≡ [])
          ⊎ (in_set reject (first (drop (strcspn s reject) s)) ≡ true))
unfolding strcspn
strcspn_lem [] reject = (tt, inl refl)
strcspn_lem (c ∷ s) reject = elim (Bool-cases (in_set reject c)) [
  | inl yes' ↦ rw yes' (tt, inr yes')
  | inr no' ↦ rw (no', add-one) ((no', (strcspn_lem s reject).0), (strcspn_lem s reject).1)
]

pub strcspn-le : (s reject : List ℕ) → strcspn s reject ≤ length s
unfolding strcspn
strcspn-le [] reject = omega arith
strcspn-le (c ∷ s) reject = ground (arith, strcspn-le s reject)

pub strspn-le : (s accept : List ℕ) → strspn s accept ≤ length s
unfolding strspn
strspn-le [] accept = omega arith
strspn-le (c ∷ s) accept = ground (arith, strspn-le s accept)

-- `strpbrk` points where `strcspn` stops, and is null where that is the end of the string.
pub strpbrk-strcspn :
    (s set : List ℕ)
    → strpbrk s set ≡ (if ltb (strcspn s set) (length s) then some (strcspn s set) else none)
unfolding strpbrk strcspn
strpbrk-strcspn [] set = refl
strpbrk-strcspn (c ∷ s) set = elim (Bool-cases (in_set set c)) [
  | inl yes' ↦ rw yes' (ground arith)
  | inr no' ↦ rw (no', strpbrk-strcspn s set) (ground arith)
]

pub strcspn-cons :
    (c : ℕ) (s reject : List ℕ)
    → in_set reject c ≡ false
    → strcspn (c ∷ s) reject ≡ suc (strcspn s reject)
unfolding strcspn
strcspn-cons c s reject h = rw (h, add-one)

-- ===== src/Package/Name/Laws.antt =====
-- tools/hbpkg.c: which names sanitise_name accepts.
use mellivora_os.Package.Name.{is_allowed, copy_name, not_empty, sanitise_name}
use mellivora_os.Base.{
  ℕ, zero, suc, ◌-◌, ◌≤◌, ◌≡◌, refl, inl, inr, Bool, true, false, ◌&&◌, not, none, some, List, [],
  ◌∷◌, arith, ltb, ◌==◌, if◌then◌else◌, Bool-cases, length, take, leb, ◌||◌,
}

abbrev pub between : ℕ → ℕ → ℕ → Bool
between lo c hi = leb lo c && leb c hi

-- A letter from A to Z or from a to z, a digit, or one of the three bytes of "-._".
abbrev pub name_byte : ℕ → Bool
name_byte c =
    between 65 c 90 || between 97 c 122 || between 48 c 57 || c == 45 || c == 46 || c == 95

is_allowed_lem : (c : ℕ) → is_allowed c ≡ name_byte c
is_allowed_lem c = ground arith

-- Letters, digits, dots, dashes and underscores only.
pub all_allowed : List ℕ → Bool
all_allowed [] = true
all_allowed (c ∷ s) = name_byte c && all_allowed s

copy_name_lem :
    (s : List ℕ) (room : ℕ)
    → copy_name s room ≡ (if all_allowed (take room s) then some (take room s) else none)
unfolding copy_name all_allowed
copy_name_lem [] zero = refl
copy_name_lem [] (suc room) = refl
copy_name_lem (c ∷ s) zero = refl
copy_name_lem (c ∷ s) (suc room) = elim (Bool-cases (name_byte c)) [
  | inr bad ↦ rw (is_allowed_lem c, bad) refl
  | inl good ↦ elim (Bool-cases (all_allowed (take room s))) [
    | inl rest ↦ rw (is_allowed_lem c, good, copy_name_lem s room, rest) refl
    | inr wrong ↦ rw (is_allowed_lem c, good, copy_name_lem s room, wrong) refl
  ]
]

ended :
    (s : List ℕ) (n : ℕ)
    → not_empty (if all_allowed (take (suc n) s) then some (take (suc n) s) else none) ≡ (
        if not (length s == 0) && all_allowed (take (suc n) s) then some (take (suc n) s) else none)
unfolding all_allowed
ended [] n = refl
ended (c ∷ s) n =
    let some_left : (suc (length s) == 0) ≡ false = ground arith in
    elim (Bool-cases (name_byte c && all_allowed (take n s))) [
      | inl good ↦ rw (some_left, good) refl
      | inr bad ↦ rw (some_left, bad) refl
    ]

-- With room for `max` characters, 2 at least, `sanitise_name` gives the first `max - 1` characters of a name that is
-- not empty if they are all letters A to Z or a to z, digits, dots, dashes or underscores, and null otherwise. What stands behind
-- them is neither tested nor kept.
pub sanitise_name_lem :
    (s : List ℕ) (max : ℕ)
    → 2 ≤ max
    → sanitise_name s max ≡ (
        if not (length s == 0) && all_allowed (take (max - 1) s)
        then some (take (max - 1) s)
        else none)
unfolding sanitise_name
sanitise_name_lem s max h =
    let enough : ltb max 2 ≡ false = ground (arith, h) in
    let room : max - 1 ≡ suc (max - 2) = omega (arith, h) in
    rw (enough, copy_name_lem s (max - 1), room) (ended s (max - 2))

-- ===== src/Package/Name.antt =====
-- tools/hbpkg.c: sanitise_name. Its copy is the result, none where it answers null.
pub mod Laws
use mellivora_os.Posix.Ctype.{isalnum}
use mellivora_os.Base.{
  take_zero, take_nil, take-take, add-one, ℕ, zero, suc, ◌+◌, ◌-◌, ◌*◌, ◌/◌, ◌%◌, ◌^◌, ◌≤◌, ◌<◌,
  min, bit_and, bit_or, ◌≡◌, refl, sym, ap, ◌∙◌, subst, fun_ext, ◌≢◌, ◌↔◌, ◌⊎◌, inl, inr, Bool,
  true, false, ◌&&◌, ◌||◌, not, Option, none, some, List, [], ◌∷◌, ◌++◌, map, append-nil,
  append_assoc, arith, dec_lt, ℕ_discrete, ltb, leb, ◌==◌, if◌then◌else◌, ltb→lt, lt→ltb, leb→le,
  ==_iff, tests, Bool-cases, Option-cases, length, get_elem?, set, length-append, get_or, take,
  drop, replicate, take-append-drop, length-take, length-drop, length-replicate, length-map, All,
  All-append, All-drop, drop-append_length, and_ten, u8, u16, u32, first, rest_of,
}

abbrev pub is_allowed : ℕ → Bool
is_allowed c = isalnum c || c == b'.' || c == b'-' || c == b'_'

-- What is copied to `out`, with room for `room` characters.
unfoldable pub copy_name : List ℕ → ℕ → Option (List ℕ)
copy_name [] room = some []
copy_name (c ∷ s) zero = some []
copy_name (c ∷ s) (suc room) =
    let rest = copy_name s room in
    if is_allowed c then elim rest [ none ↦ none | some l ↦ some (c ∷ l) ] else none

abbrev pub not_empty : Option (List ℕ) → Option (List ℕ)
not_empty none = none
not_empty (some []) = none
not_empty (some (c ∷ l)) = some (c ∷ l)

unfoldable pub sanitise_name : List ℕ → ℕ → Option (List ℕ)
sanitise_name s max = if ltb max 2 then none else not_empty (copy_name s (max - 1))

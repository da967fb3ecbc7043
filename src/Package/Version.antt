-- ===== src/Package/Version.antt =====
-- tools/hbpkg.c: versions. What sscanf converts is a parameter: `scan n s` is the numbers that it reads
-- for `n` of "%u" with dots between, the first to the last that it stores.
pub mod Laws
use mellivora_os.Base.Int.{ℤ, pos, negsuc, ltb_ℤ, ◌-ℤ◌}
use mellivora_os.Base.Signed.{i32, to_i32}
use mellivora_os.Base.Texts.{codes}
use mellivora_os.Str.Compare.{strcmp}
use mellivora_os.Str.Search.{strchr}
use mellivora_os.Stdlib.Convert.{strtoul}
use mellivora_os.Base.{
  take_zero, take_nil, take-take, add-one, ℕ, zero, suc, ◌+◌, ◌-◌, ◌*◌, ◌/◌, ◌%◌, ◌^◌, ◌≤◌, ◌<◌,
  min, bit_and, bit_or, ◌≡◌, refl, sym, ap, ◌∙◌, subst, fun_ext, ◌≢◌, ◌↔◌, ◌⊎◌, inl, inr, Bool,
  true, false, ◌&&◌, ◌||◌, not, Option, none, some, List, [], ◌∷◌, ◌++◌, map, append-nil,
  append_assoc, arith, dec_lt, ℕ_discrete, ltb, leb, ◌==◌, if◌then◌else◌, ltb→lt, lt→ltb, leb→le,
  ==_iff, tests, Bool-cases, Option-cases, length, get_elem?, set, length-append, get_or, take,
  drop, replicate, take-append-drop, length-take, length-drop, length-replicate, length-map, All,
  All-append, All-drop, drop-append_length, and_ten, u8, u16, u32, first, rest_of,
}

-- `semver_t`, its numbers 32 bits.
pub record Semver : Type 0 where
  pub major : ℕ
  pub minor : ℕ
  pub patch : ℕ
  pub pre : List ℕ

unfoldable pub semver_cmp : Semver → Semver → ℤ
semver_cmp a b =
    if not (a.major == b.major)
    then i32 (to_i32 a.major -ℤ to_i32 b.major)
    else if not (a.minor == b.minor)
    then i32 (to_i32 a.minor -ℤ to_i32 b.minor)
    else if not (a.patch == b.patch)
    then i32 (to_i32 a.patch -ℤ to_i32 b.patch)
    else if not (length a.pre == 0) && length b.pre == 0
    then negsuc 0
    else if length a.pre == 0 && not (length b.pre == 0)
    then pos 1
    else strcmp a.pre b.pre

-- What sscanf stores; a number that it does not reach stays.
abbrev pub stored : List ℕ → Semver → Semver
stored [] v = v
stored (x ∷ []) v = record v { major = x }
stored (x ∷ (y ∷ [])) v = record v { major = x; minor = y }
stored (x ∷ (y ∷ (z ∷ l))) v = record v { major = x; minor = y; patch = z }

abbrev pub skip_v : List ℕ → List ℕ
skip_v [] = []
skip_v (c ∷ s) = if c == b'v' || c == b'V' then s else c ∷ s

-- The text behind the first dash, as much as `pre` holds.
abbrev pub pre_of : List ℕ → List ℕ
pre_of s = elim (strchr s b'-') [ none ↦ [] | some i ↦ take 15 (drop (i + 1) s) ]

module _ (scan : ℕ → List ℕ → List ℕ) where
  unfoldable pub semver_parse : List ℕ → Semver
  semver_parse str =
      let s = skip_v str in
      let zeros : Semver = record { major = 0; minor = 0; patch = 0; pre = [] } in
      let three = scan 3 s in
      let two = scan 2 s in
      let v = stored three zeros in
      let w = stored two v in
      let numbers =
        if ltb (length three) 3
        then (if ltb (length two) 2 then record w { major = strtoul s 10 } else w)
        else v in
      record numbers { pre = pre_of s }

  -- The version of a constraint, behind its operator.
  abbrev pub required : ℕ → List ℕ → Semver
  required op_len constraint = semver_parse (take 31 (drop op_len constraint))

  -- A text with no operator is an exact version.
  unfoldable pub semver_satisfies : Semver → List ℕ → Bool
  semver_satisfies ver [] = true
  semver_satisfies ver (c ∷ s) =
      let one = required 1 (c ∷ s) in
      let two = required 2 (c ∷ s) in
      let exact = required 0 (c ∷ s) in
      let equal = first s == b'=' in
      if c == b'^'
      then ver.major == one.major && not (ltb_ℤ (semver_cmp ver one) (pos 0))
      else if c == b'~'
      then (ver.major == one.major
          && (ver.minor == one.minor && not (ltb_ℤ (semver_cmp ver one) (pos 0))))
      else if c == b'>' && equal
      then not (ltb_ℤ (semver_cmp ver two) (pos 0))
      else if c == b'<' && equal
      then not (ltb_ℤ (pos 0) (semver_cmp ver two))
      else if c == b'>'
      then ltb_ℤ (pos 0) (semver_cmp ver one)
      else if c == b'<'
      then ltb_ℤ (semver_cmp ver one) (pos 0)
      else not (ltb_ℤ (semver_cmp ver exact) (pos 0)) && not (ltb_ℤ (pos 0) (semver_cmp ver exact))

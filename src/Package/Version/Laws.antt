-- ===== src/Package/Version/Laws.antt =====
-- tools/hbpkg.c: the order of the versions.
use Prim.Native.Nat.{compare, Ordering}
use mellivora_os.Package.Version.{Semver, semver_cmp}
use mellivora_os.Str.Compare.{IsText, strcmp}
use mellivora_os.Str.Compare.Order.{sign, lex, sign-strcmp}
use mellivora_os.Base.Int.{ℤ, pos, negsuc, ◌-ℤ◌}
use mellivora_os.Base.Signed.{i32, to_i32, to_u32}
use mellivora_os.Base.{
  ℕ, ◌^◌, ◌<◌, ◌≡◌, ◌&&◌, not, List, [], ◌∷◌, arith, ◌==◌, if◌then◌else◌, length,
}

-- A release comes behind its pre-releases, which are in the order of their texts.
abbrev pub pre_order : List ℕ → List ℕ → Ordering
pre_order [] [] = Ordering.eq
pre_order [] (y ∷ b) = Ordering.gt
pre_order (x ∷ a) [] = Ordering.lt
pre_order (x ∷ a) (y ∷ b) = lex (x ∷ a) (y ∷ b)

abbrev then_by : Ordering → Ordering → Ordering
then_by Ordering.lt o = Ordering.lt
then_by Ordering.gt o = Ordering.gt
then_by Ordering.eq o = o

-- The numbers one after the other, then the pre-releases.
abbrev pub precedence : Semver → Semver → Ordering
precedence a b =
    then_by (compare a.major b.major) (
      then_by (compare a.minor b.minor) (then_by (compare a.patch b.patch) (pre_order a.pre b.pre)))

pub record IsSmall (v : Semver) : Type 0 where
  pub major_small : v.major < 2 ^ 31
  pub minor_small : v.minor < 2 ^ 31
  pub patch_small : v.patch < 2 ^ 31
  pub text : IsText v.pre

sign_sub : (x y : ℕ) → x < 2 ^ 31 → y < 2 ^ 31 → sign (i32 (to_i32 x -ℤ to_i32 y)) ≡ compare x y
unfolding i32 to_i32 to_u32 ◌-ℤ◌
sign_sub x y h k = ground arith

level :
    (x y : ℕ) (z : ℤ) (o : Ordering)
    → x < 2 ^ 31
    → y < 2 ^ 31
    → sign z ≡ o
    → sign (if not (x == y) then i32 (to_i32 x -ℤ to_i32 y) else z) ≡ then_by (compare x y) o
level x y z o h k e = ground (arith, sign_sub x y h k, e)

abbrev cmp_pre : List ℕ → List ℕ → ℤ
cmp_pre a b =
    if not (length a == 0) && length b == 0
    then negsuc 0
    else if length a == 0 && not (length b == 0)
    then pos 1
    else strcmp a b

sign-cmp_pre : (a b : List ℕ) → IsText a → IsText b → sign (cmp_pre a b) ≡ pre_order a b
sign-cmp_pre [] [] h k = sign-strcmp [] [] h k
sign-cmp_pre [] (y ∷ b) h k = ground arith
sign-cmp_pre (x ∷ a) [] h k = ground arith
sign-cmp_pre (x ∷ a) (y ∷ b) h k = ground (arith, sign-strcmp (x ∷ a) (y ∷ b) h k)

-- For versions with numbers below 2 ^ 31, `semver_cmp` has the sign of the order by the numbers, the major one
-- first, where a release comes behind its pre-releases and these are ordered as texts.
pub sign-semver_cmp :
    (a b : Semver) → IsSmall a → IsSmall b → sign (semver_cmp a b) ≡ precedence a b
unfolding semver_cmp
sign-semver_cmp a b h k = level a.major b.major _ _ h.major_small k.major_small (
    level a.minor b.minor _ _ h.minor_small k.minor_small (
      level a.patch b.patch _ _ h.patch_small k.patch_small
        (sign-cmp_pre a.pre b.pre h.text k.text)))

-- ===== src/Package/Digest/Padding.antt =====
-- tools/hbpkg.c: the padding of sha256_hex.
use mellivora_os.Package.Digest.{pad_total, big_endian, padded}
use mellivora_os.Base.{
  take_zero, ℕ, zero, suc, ◌+◌, ◌-◌, ◌*◌, ◌/◌, ◌%◌, ◌^◌, ◌≤◌, ◌<◌, ◌≡◌, refl, sym, ap, ◌∙◌, subst,
  inl, inr, List, [], ◌∷◌, ◌++◌, append_assoc, arith, ◌==◌, Bool-cases, length, length-append, take,
  replicate, length-replicate, u8, All,
}

-- The padding ends at the next length that is 56 modulo 64.
pad_total-found :
    (fuel n k : ℕ)
    → k ≤ fuel
    → (n + k) % 64 ≡ 56
    → (pad_total fuel n % 64 ≡ 56) × (n ≤ pad_total fuel n) × (pad_total fuel n ≤ n + k)
unfolding pad_total
pad_total-found zero n k h e =
    let same : n + k ≡ n = omega (arith, h) in
    (subst (λ m. m % 64 ≡ 56) same e, omega arith, omega arith)
pad_total-found (suc fuel) n k h e = elim (Bool-cases (n % 64 == 56)) [
  | inl yes' ↦ rw yes' (ground (arith, yes'), omega arith, omega arith)
  | inr no' ↦
      let more : 0 < k = ground (arith, no', e) in
      let sum : n + 1 + (k - 1) ≡ n + k = omega (arith, more) in
      let ih =
        pad_total-found fuel (n + 1) (k - 1) (omega (arith, h))
          (subst (λ m. m % 64 ≡ 56) (sym sum) e) in
      let low = ih.1 in
      let high = ih.2 in rw no' (ih.0, omega (arith, low), omega (arith, high, sum))
]

-- The length with the padding is the first one behind the data and the 0x80 that is 56 modulo 64.
pad_total_lem :
    (n : ℕ) → (pad_total 64 n % 64 ≡ 56) × (n ≤ pad_total 64 n) × (pad_total 64 n < n + 64)
pad_total_lem n =
    let k : ℕ = (120 - n % 64) % 64 in
    let few : k < 64 = omega arith in
    let there : (n + k) % 64 ≡ 56 = omega arith in
    let all' = pad_total-found 64 n k (omega (arith, few)) there in
    let high = all'.2 in (all'.0, all'.1, omega (arith, high, few))

abbrev zeros : List ℕ → List ℕ
zeros d = replicate (pad_total 64 (length d + 1) - length d - 1) 0

-- The data, 0x80 and the zeros.
abbrev filled : List ℕ → List ℕ
filled d = d ++ (0x80 ∷ zeros d)

padded-filled : (d : List ℕ) → padded d ≡ filled d ++ big_endian 8 (length d * 8 % 2 ^ 64)
unfolding padded
padded-filled d = sym (append_assoc d (0x80 ∷ zeros d) (big_endian 8 (length d * 8 % 2 ^ 64)))

length-filled : (d : List ℕ) → length (filled d) ≡ pad_total 64 (length d + 1)
length-filled d =
    let nul : ℕ = 0 in
    let sum = length-append d (0x80 ∷ zeros d) in
    let fill = length-replicate (pad_total 64 (length d + 1) - length d - 1) nul in
    let enough = (pad_total_lem (length d + 1)).1 in omega (arith, sum, fill, enough)

length-big_endian : (n i : ℕ) → length (big_endian i n) ≡ i
unfolding big_endian
length-big_endian n zero = refl
length-big_endian n (suc i) = ap suc (length-big_endian n i)

length-padded : (d : List ℕ) → length (padded d) ≡ pad_total 64 (length d + 1) + 8
length-padded d =
    let bits : ℕ = length d * 8 % 2 ^ 64 in
    let sum = length-append (filled d) (big_endian 8 bits) in
    let first' = length-filled d in
    let last' = length-big_endian bits 8 in
    ap length (padded-filled d) ∙ omega (arith, sum, first', last')

take-append_length : (a b : List ℕ) → take (length a) (a ++ b) ≡ a
take-append_length [] b = take_zero b
take-append_length (x ∷ a) b = ap (λ l. x ∷ l) (take-append_length a b)

starts_with :
    (d : List ℕ)
    → (length (padded d) % 64 ≡ 0)
      × (length (padded d) < length d + 73)
      × (take (length d) (padded d) ≡ d)
unfolding padded
starts_with d =
    let whole = length-padded d in
    let total = pad_total_lem (length d + 1) in
    let at_56 = total.0 in
    let near = total.2 in
    (omega (arith, whole, at_56), omega (arith, whole, near), take-append_length d _)

-- The number with these bytes, the first one the highest, behind those that are worth `n`.
abbrev pub from_bytes : ℕ → List ℕ → ℕ
from_bytes n [] = n
from_bytes n (b ∷ bs) = from_bytes (n * 256 + b) bs

from_bytes-big_endian : (n : ℕ) → n < 2 ^ 64 → from_bytes 0 (big_endian 8 n) ≡ n
unfolding big_endian
from_bytes-big_endian n h =
    let c6 : n / 72057594037927936 * 256 + u8 (n / 281474976710656) ≡ n / 281474976710656 =
      omega arith in
    let c5 : n / 281474976710656 * 256 + u8 (n / 1099511627776) ≡ n / 1099511627776 = omega arith in
    let c4 : n / 1099511627776 * 256 + u8 (n / 4294967296) ≡ n / 4294967296 = omega arith in
    let c3 : n / 4294967296 * 256 + u8 (n / 16777216) ≡ n / 16777216 = omega arith in
    let c2 : n / 16777216 * 256 + u8 (n / 65536) ≡ n / 65536 = omega arith in
    let c1 : n / 65536 * 256 + u8 (n / 256) ≡ n / 256 = omega arith in
    let c0 : n / 256 * 256 + u8 (n / 1) ≡ n = omega arith in
    let top : 0 * 256 + u8 (n / 72057594037927936) ≡ n / 72057594037927936 = omega (arith, h) in
    ap
      (λ x.
        (((((((x * 256 + u8 (n / 281474976710656)) * 256 + u8 (n / 1099511627776)) * 256
                          + u8 (n / 4294967296))
                        * 256
                      + u8 (n / 16777216))
                    * 256
                  + u8 (n / 65536))
                * 256
              + u8 (n / 256))
            * 256
          + u8 (n / 1)))
      top
    ∙ ap
        (λ x.
          ((((((x * 256 + u8 (n / 1099511627776)) * 256 + u8 (n / 4294967296)) * 256
                        + u8 (n / 16777216))
                      * 256
                    + u8 (n / 65536))
                  * 256
                + u8 (n / 256))
              * 256
            + u8 (n / 1)))
        c6
    ∙ ap
        (λ x.
          (((((x * 256 + u8 (n / 4294967296)) * 256 + u8 (n / 16777216)) * 256 + u8 (n / 65536))
                  * 256
                + u8 (n / 256))
              * 256
            + u8 (n / 1)))
        c5
    ∙ ap
        (λ x.
          ((((x * 256 + u8 (n / 16777216)) * 256 + u8 (n / 65536)) * 256 + u8 (n / 256)) * 256
            + u8 (n / 1)))
        c4
    ∙ ap (λ x. (((x * 256 + u8 (n / 65536)) * 256 + u8 (n / 256)) * 256 + u8 (n / 1))) c3
    ∙ ap (λ x. ((x * 256 + u8 (n / 256)) * 256 + u8 (n / 1))) c2
    ∙ ap (λ x. x * 256 + u8 (n / 1)) c1
    ∙ c0

All-replicate : (n : ℕ) → All (λ (b : ℕ). b ≡ 0) (replicate n 0)
All-replicate zero = tt
All-replicate (suc n) = (refl, All-replicate n)

All-big_endian : (i n : ℕ) → All (λ (b : ℕ). b < 256) (big_endian i n)
unfolding big_endian
All-big_endian zero n = tt
All-big_endian (suc i) n = (omega arith, All-big_endian i n)

-- How `p` is laid out behind the data `d`.
abbrev pub IsPadded : List ℕ → List ℕ → Type 0
IsPadded d p =
    (gap : List ℕ) × (size : List ℕ) × (p ≡ d ++ (0x80 ∷ gap ++ size))
    × All (λ (b : ℕ). b ≡ 0) gap
    × (length gap < 64)
    × (length size ≡ 8)
    × All (λ (b : ℕ). b < 256) size
    × (from_bytes 0 size ≡ length d * 8 % 2 ^ 64)
    × (length p % 64 ≡ 0)

-- The padding of SHA-256 for data of every length: the data, a byte 0x80, fewer than 64 zeros, and
-- eight bytes that are, the highest first, the number of the bits of the data modulo 2 ^ 64; in all
-- a whole number of blocks of 64 bytes. So the zeros are the fewest that end a block.
pub padded-IsPadded : (d : List ℕ) → IsPadded d (padded d)
unfolding padded
padded-IsPadded d =
    let nul : ℕ = 0 in
    let count = length-replicate (pad_total 64 (length d + 1) - length d - 1) nul in
    let near = pad_total_lem (length d + 1) in
    let low = near.1 in
    let high = near.2 in
    (
      zeros d,
      big_endian 8 (length d * 8 % 2 ^ 64),
      refl,
      All-replicate (pad_total 64 (length d + 1) - length d - 1),
      omega (arith, count, low, high),
      length-big_endian (length d * 8 % 2 ^ 64) 8,
      All-big_endian 8 (length d * 8 % 2 ^ 64),
      from_bytes-big_endian (length d * 8 % 2 ^ 64) (omega arith),
      (starts_with d).0,
    )

-- ===== src/Utf/Plain.antt =====
-- c/rt/utf.c: `mv_utf8_encode` and the steps of `mv_utf8_decode` in plain arithmetic.
use mellivora_os.Base.{
  ℕ, suc, ◌+◌, ◌-◌, ◌*◌, ◌/◌, ◌%◌, ◌^◌, ◌≤◌, ◌<◌, ◌≡◌, refl, ap, ◌⊎◌, bit_or, List, [], ◌∷◌, none,
  arith, and_c0, and_six, and_e0, and_f0, and_f8, and_1f, and_0f, and_07, or_six, or_80, or_c0,
  or_e0, or_f0,
}
use mellivora_os.Utf.{utf8_encode, utf8_decode, continue_bytes, check_range, decode_tail, malformed}

abbrev pub IsByte : ℕ → Type 0
IsByte b = b < 256

-- A Unicode scalar value: a code point that is no surrogate.
abbrev pub IsScalar : ℕ → Type 0
IsScalar cp = (cp < 0xD800) ⊎ ((0xE000 ≤ cp) × (cp < 0x110000))

-- A continuation byte.
abbrev pub IsMore : ℕ → Type 0
IsMore b = (128 ≤ b) × (b < 192)

pub encode_one : (cp : ℕ) → cp < 128 → utf8_encode cp ≡ cp ∷ []
unfolding utf8_encode
encode_one cp h = ground arith

pub encode_two :
    (cp : ℕ) → 128 ≤ cp → cp < 0x800 → utf8_encode cp ≡ (192 + cp / 64) ∷ (128 + cp % 64) ∷ []
unfolding utf8_encode
encode_two cp h k =
    ground (arith, and_six cp, or_c0 (cp / 64) (omega arith), or_80 (cp % 64) (omega arith))

pub encode_three :
    (cp : ℕ)
    → 0x800 ≤ cp
    → cp < 0x10000
    → utf8_encode cp ≡ (224 + cp / 4096) ∷ (128 + cp / 64 % 64) ∷ (128 + cp % 64) ∷ []
unfolding utf8_encode
encode_three cp h k = ground (
  arith,
  and_six cp,
  and_six (cp / 64),
  or_e0 (cp / 4096) (omega arith),
  or_80 (cp / 64 % 64) (omega arith),
  or_80 (cp % 64) (omega arith),
)

pub encode_four :
    (cp : ℕ)
    → 0x10000 ≤ cp
    → cp < 0x110000
    → utf8_encode cp
      ≡ (240 + cp / 2 ^ 18) ∷ (128 + cp / 4096 % 64) ∷ (128 + cp / 64 % 64) ∷ (128 + cp % 64) ∷ []
unfolding utf8_encode
encode_four cp h k = ground (
  arith,
  and_six cp,
  and_six (cp / 64),
  and_six (cp / 4096),
  or_f0 (cp / 2 ^ 18) (omega arith),
  or_80 (cp / 4096 % 64) (omega arith),
  or_80 (cp / 64 % 64) (omega arith),
  or_80 (cp % 64) (omega arith),
)

-- One round of the continuation loop.
pub continue_more :
    (n b : ℕ) (s : List ℕ) (cp : ℕ)
    → IsMore b
    → cp < 2 ^ 20
    → continue_bytes (suc n) (b ∷ s) cp ≡ continue_bytes n s (cp * 64 + (b - 128))
unfolding continue_bytes
continue_more n b s cp h k = ground (
  arith,
  and_c0 b (omega arith),
  and_six b,
  or_six cp (b % 64) (omega arith),
  ap (λ (t : ℕ). bit_or t (b % 64)) (let e : cp * 64 % 2 ^ 32 ≡ cp * 64 = omega arith in e),
  ap (continue_bytes n s) (let e : cp * 64 + b % 64 ≡ cp * 64 + (b - 128) = omega arith in e),
)

-- The loop stops at any other byte, and at the end of the string.
pub continue_stop :
    (n b : ℕ) (s : List ℕ) (cp : ℕ)
    → IsByte b
    → (b < 128) ⊎ (192 ≤ b)
    → continue_bytes (suc n) (b ∷ s) cp ≡ none
unfolding continue_bytes
continue_stop n b s cp h k = ground (arith, and_c0 b h)

pub continue_end : (n cp : ℕ) → continue_bytes (suc n) [] cp ≡ none
unfolding continue_bytes
continue_end n cp = refl

-- The lead byte decides how many bytes follow.
pub lead_one : (b : ℕ) (s : List ℕ) → b < 128 → utf8_decode (b ∷ s) ≡ record { cp = b; len = 1 }
unfolding utf8_decode
lead_one b s h = ground arith

pub lead_two :
    (b : ℕ) (s : List ℕ) → 194 ≤ b → b < 224 → utf8_decode (b ∷ s) ≡ decode_tail 1 s (b - 192)
unfolding utf8_decode
lead_two b s h k = ground (
  arith,
  and_e0 b (omega arith),
  and_1f b (omega arith),
  ap (decode_tail 1 s) (let e : b % 32 ≡ b - 192 = omega arith in e),
)

pub lead_three :
    (b : ℕ) (s : List ℕ) → 224 ≤ b → b < 240 → utf8_decode (b ∷ s) ≡ decode_tail 2 s (b - 224)
unfolding utf8_decode
lead_three b s h k = ground (
  arith,
  and_e0 b (omega arith),
  and_f0 b (omega arith),
  and_0f b (omega arith),
  ap (decode_tail 2 s) (let e : b % 16 ≡ b - 224 = omega arith in e),
)

pub lead_four :
    (b : ℕ) (s : List ℕ) → 240 ≤ b → b < 248 → utf8_decode (b ∷ s) ≡ decode_tail 3 s (b - 240)
unfolding utf8_decode
lead_four b s h k = ground (
  arith,
  and_e0 b (omega arith),
  and_f0 b (omega arith),
  and_f8 b (omega arith),
  and_07 b (omega arith),
  ap (decode_tail 3 s) (let e : b % 8 ≡ b - 240 = omega arith in e),
)

pub lead_bad :
    (b : ℕ) (s : List ℕ)
    → IsByte b
    → ((128 ≤ b) × (b < 194)) ⊎ (248 ≤ b)
    → utf8_decode (b ∷ s) ≡ malformed
unfolding utf8_decode
lead_bad b s h k = ground (arith, and_e0 b h, and_f0 b h, and_f8 b h, and_1f b h)

pub check_good :
    (need cp : ℕ)
    → IsScalar cp
    → (need ≡ 1) ⊎ (((need ≡ 2) × (0x800 ≤ cp)) ⊎ ((need ≡ 3) × (0x10000 ≤ cp)))
    → check_range need cp ≡ record { cp = cp; len = need + 1 }
unfolding check_range
check_good need cp h k = ground arith

-- ===== src/Utf/Decode.antt =====
-- c/rt/utf.c: what `mv_utf8_decode` accepts, and that it reads back what `mv_utf8_encode` writes.
use mellivora_os.Base.{
  ℕ, ◌+◌, ◌-◌, ◌*◌, ◌/◌, ◌%◌, ◌^◌, ◌≤◌, ◌<◌, ◌≡◌, refl, ap, ◌∙◌, inl, inr, List, ◌∷◌, ◌++◌, arith,
  dec_lt, length, some, none, ◌⊎◌, false, Bool-cases,
}
use mellivora_os.Utf.{
  utf8_encode, utf8_decode, continue_bytes, check_range, decode_tail, Decoded, malformed,
  is_invalid,
}
use mellivora_os.Utf.Plain.{
  IsScalar, IsMore, encode_one, encode_two, encode_three, encode_four, continue_more, lead_one,
  lead_two, lead_three, lead_four, check_good, IsByte,
}

pub tail_some :
    (need : ℕ) (s : List ℕ) (lead v : ℕ)
    → continue_bytes need s lead ≡ some v
    → decode_tail need s lead ≡ check_range need v
unfolding decode_tail
tail_some need s lead v e = rw (decode_tail, e)

pub tail_none :
    (need : ℕ) (s : List ℕ) (lead : ℕ)
    → continue_bytes need s lead ≡ none
    → decode_tail need s lead ≡ malformed
unfolding decode_tail
tail_none need s lead e = rw (decode_tail, e)

pub continue_done : (s : List ℕ) (cp : ℕ) → continue_bytes 0 s cp ≡ some cp
unfolding continue_bytes
continue_done s cp = refl

pub tail_two :
    (lead a : ℕ) (rest : List ℕ)
    → IsMore a
    → lead < 32
    → decode_tail 1 (a ∷ rest) lead ≡ check_range 1 (lead * 64 + (a - 128))
tail_two lead a rest h k =
    tail_some 1 (a ∷ rest) lead _ (continue_more 0 a rest lead h (omega arith) ∙ continue_done _ _)

pub tail_three :
    (lead a b : ℕ) (rest : List ℕ)
    → IsMore a
    → IsMore b
    → lead < 16
    → decode_tail 2 (a ∷ b ∷ rest) lead ≡ check_range 2 ((lead * 64 + (a - 128)) * 64 + (b - 128))
tail_three lead a b rest h i k = tail_some 2 (a ∷ b ∷ rest) lead _ (
    continue_more 1 a (b ∷ rest) lead h (omega arith)
    ∙ continue_more 0 b rest (lead * 64 + (a - 128)) i (omega arith)
    ∙ continue_done _ _)

pub tail_four :
    (lead a b c : ℕ) (rest : List ℕ)
    → IsMore a
    → IsMore b
    → IsMore c
    → lead < 8
    → decode_tail 3 (a ∷ b ∷ c ∷ rest) lead
      ≡ check_range 3 (((lead * 64 + (a - 128)) * 64 + (b - 128)) * 64 + (c - 128))
tail_four lead a b c rest h i j k = tail_some 3 (a ∷ b ∷ c ∷ rest) lead _ (
    continue_more 2 a (b ∷ c ∷ rest) lead h (omega arith)
    ∙ continue_more 1 b (c ∷ rest) (lead * 64 + (a - 128)) i (omega arith)
    ∙ continue_more 0 c rest ((lead * 64 + (a - 128)) * 64 + (b - 128)) j (omega arith)
    ∙ continue_done _ _)

-- The result for a code point written in so many bytes.
abbrev pub accepted : ℕ → Decoded
accepted cp = record { cp = cp; len = length (utf8_encode cp) }

decode_two :
    (cp : ℕ) (rest : List ℕ)
    → 128 ≤ cp
    → cp < 0x800
    → utf8_decode (utf8_encode cp ++ rest) ≡ accepted cp
decode_two cp rest h k =
    rw
      (
        encode_two cp h k,
        lead_two (192 + cp / 64) ((128 + cp % 64) ∷ rest) (omega arith) (omega arith),
        tail_two (192 + cp / 64 - 192) (128 + cp % 64) rest (omega arith) (omega arith),
      )
      (ap (check_range 1) whole ∙ check_good 1 cp (omega arith) (inl refl))
  where
    whole : (192 + cp / 64 - 192) * 64 + (128 + cp % 64 - 128) ≡ cp
    whole = omega arith

decode_three :
    (cp : ℕ) (rest : List ℕ)
    → 0x800 ≤ cp
    → cp < 0x10000
    → IsScalar cp
    → utf8_decode (utf8_encode cp ++ rest) ≡ accepted cp
decode_three cp rest h k sc =
    rw
      (
        encode_three cp h k,
        lead_three (224 + cp / 4096) ((128 + cp / 64 % 64) ∷ (128 + cp % 64) ∷ rest) (omega arith)
            (omega arith),
        tail_three (224 + cp / 4096 - 224) (128 + cp / 64 % 64) (128 + cp % 64) rest (omega arith)
            (omega arith) (omega arith),
      )
      (ap (check_range 2) whole ∙ check_good 2 cp sc (inr (inl (refl, h))))
  where
    whole :
        ((224 + cp / 4096 - 224) * 64 + (128 + cp / 64 % 64 - 128)) * 64 + (128 + cp % 64 - 128)
        ≡ cp
    whole = omega arith

decode_four :
    (cp : ℕ) (rest : List ℕ)
    → 0x10000 ≤ cp
    → cp < 0x110000
    → utf8_decode (utf8_encode cp ++ rest) ≡ accepted cp
decode_four cp rest h k =
    rw
      (
        encode_four cp h k,
        lead_four (240 + cp / 2 ^ 18)
            ((128 + cp / 4096 % 64) ∷ (128 + cp / 64 % 64) ∷ (128 + cp % 64) ∷ rest) (omega arith)
            (omega arith),
        tail_four (240 + cp / 2 ^ 18 - 240) (128 + cp / 4096 % 64) (128 + cp / 64 % 64)
            (128 + cp % 64) rest (omega arith) (omega arith) (omega arith) (omega arith),
      )
      (ap (check_range 3) whole ∙ check_good 3 cp (omega arith) (inr (inr (refl, h))))
  where
    whole :
        (((240 + cp / 2 ^ 18 - 240) * 64 + (128 + cp / 4096 % 64 - 128)) * 64
              + (128 + cp / 64 % 64 - 128))
            * 64
          + (128 + cp % 64 - 128)
        ≡ cp
    whole = omega arith

decode_one :
    (cp : ℕ) (rest : List ℕ) → cp < 128 → utf8_decode (utf8_encode cp ++ rest) ≡ accepted cp
decode_one cp rest h = rw (encode_one cp h, lead_one cp rest h)

-- The decoder reads back every scalar value that the encoder wrote, whatever bytes follow, and
-- takes exactly the bytes that were written.
pub decode-encode :
    (cp : ℕ) (rest : List ℕ)
    → IsScalar cp
    → utf8_decode (utf8_encode cp ++ rest) ≡ record { cp = cp; len = length (utf8_encode cp) }
decode-encode cp rest sc = elim (dec_lt cp 128) [
  | yes one ↦ decode_one cp rest one
  | no more ↦ elim (dec_lt cp 0x800) [
    | yes two ↦ decode_two cp rest (omega arith) two
    | no more' ↦ elim (dec_lt cp 0x10000) [
      | yes three ↦ decode_three cp rest (omega arith) three sc
      | no four ↦ decode_four cp rest (omega arith) (omega arith)
    ]
  ]
]

-- The decoder answers with U+FFFD and one byte, or the string begins with what the encoder
-- writes for the scalar value of the answer.
abbrev pub Decodes : List ℕ → Type 0
Decodes s =
    (utf8_decode s ≡ malformed)
    ⊎ ((cp : ℕ) × (rest : List ℕ) × IsScalar cp
        × (s ≡ utf8_encode cp ++ rest)
        × (utf8_decode s ≡ accepted cp))

pub More-cases : (b : ℕ) → IsByte b → IsMore b ⊎ ((b < 128) ⊎ (192 ≤ b))
More-cases b h = elim (dec_lt b 128) [
  | yes low ↦ inr (inl low)
  | no high ↦ elim (dec_lt b 192) [
    | yes more ↦ inl (omega arith, more)
    | no lead ↦ inr (inr (omega arith))
  ]
]

-- What the check behind the loop lets through.
pub check-cases :
    (need cp : ℕ)
    → (check_range need cp ≡ malformed)
      ⊎ (IsScalar cp × (need ≡ 2 → 0x800 ≤ cp) × (need ≡ 3 → 0x10000 ≤ cp))
unfolding check_range
check-cases need cp = elim (Bool-cases (is_invalid need cp)) [
  | inl bad ↦ inl (rw bad)
  | inr good ↦ inr (scalar good, ground arith, ground arith)
]
  where
    scalar : is_invalid need cp ≡ false → IsScalar cp
    scalar good = elim (dec_lt cp 0xD800) [
      | yes low ↦ inl low
      | no high ↦ inr (ground arith, ground arith)
    ]

-- A string whose tail decodes and whose bytes are those of the code point.
pub accept : (cp : ℕ) (s rest : List ℕ) → IsScalar cp → s ≡ utf8_encode cp ++ rest → Decodes s
accept cp s rest sc e = inr (cp, rest, sc, e, rw e (decode-encode cp rest sc))

-- ===== src/Utf/Inversion.antt =====
-- c/rt/utf.c: every byte string that `mv_utf8_decode` is given, sorted by what it answers.
use mellivora_os.Base.{
  ℕ, ◌+◌, ◌-◌, ◌*◌, ◌≤◌, ◌<◌, ◌≡◌, refl, ◌∙◌, inl, inr, none, some, List, [], ◌∷◌, ◌++◌, arith,
  dec_lt, All,
}
use mellivora_os.Utf.{utf8_encode, utf8_decode, continue_bytes, decode_tail}
use mellivora_os.Utf.Plain.{
  IsByte, IsScalar, IsMore, encode_one, encode_two, encode_three, encode_four, continue_more,
  continue_stop, continue_end, lead_two, lead_three, lead_four, lead_bad,
}
use mellivora_os.Utf.Decode.{
  Decodes, More-cases, check-cases, accept, tail_some, tail_none, continue_done,
}

-- A code point that the loop and the check let through, or not.
judge :
    (need lead v b : ℕ) (s rest : List ℕ)
    → utf8_decode (b ∷ s) ≡ decode_tail need s lead
    → continue_bytes need s lead ≡ some v
    → (IsScalar v
        → (need ≡ 2 → 0x800 ≤ v)
        → (need ≡ 3 → 0x10000 ≤ v)
        → (b ∷ s) ≡ utf8_encode v ++ rest)
    → Decodes (b ∷ s)
judge need lead v b s rest e c k = elim (check-cases need v) [
  | inl bad ↦ inl (e ∙ tail_some need s lead v c ∙ bad)
  | inr (sc, two, three) ↦ accept v (b ∷ s) rest sc (k sc two three)
]

reject :
    (need lead b : ℕ) (s : List ℕ)
    → utf8_decode (b ∷ s) ≡ decode_tail need s lead
    → continue_bytes need s lead ≡ none
    → Decodes (b ∷ s)
reject need lead b s e c = inl (e ∙ tail_none need s lead c)

decodes_two : (b : ℕ) (s : List ℕ) → 194 ≤ b → b < 224 → All IsByte s → Decodes (b ∷ s)
decodes_two b [] h k bytes = reject 1 (b - 192) b [] (lead_two b [] h k) (continue_end 0 (b - 192))
decodes_two b (a ∷ rest) h k bytes = elim (More-cases a bytes.0) [
  | inl more ↦
      judge 1 (b - 192) _ b (a ∷ rest) rest (lead_two b _ h k)
        (continue_more 0 a rest (b - 192) more (omega arith) ∙ continue_done _ _)
        λ sc two three.
          rw (encode_two ((b - 192) * 64 + (a - 128)) (omega arith) (omega arith)) (ground arith)
  | inr stop ↦
      reject 1 (b - 192) b _ (lead_two b _ h k) (continue_stop 0 a rest (b - 192) bytes.0 stop)
]

module _ (b : ℕ) (h : 224 ≤ b) (k : b < 240) where
  decodes_three : (s : List ℕ) → All IsByte s → Decodes (b ∷ s)
  decodes_three [] bytes = reject 2 (b - 224) b [] (lead_three b [] h k) (continue_end 1 (b - 224))
  decodes_three (a ∷ s) bytes = elim (More-cases a bytes.0) [
    | inl more ↦ second a more s bytes.1
    | inr stop ↦
        reject 2 (b - 224) b _ (lead_three b _ h k) (continue_stop 1 a s (b - 224) bytes.0 stop)
  ]
    where
      second : (a : ℕ) → IsMore a → (s : List ℕ) → All IsByte s → Decodes (b ∷ a ∷ s)
      second a more [] bytes =
          reject 2 (b - 224) b _ (lead_three b _ h k)
            (continue_more 1 a [] (b - 224) more (omega arith) ∙ continue_end 0 _)
      second a more (c ∷ rest) bytes = elim (More-cases c bytes.0) [
        | inl more' ↦
            judge 2 (b - 224) _ b (a ∷ c ∷ rest) rest (lead_three b _ h k)
              (continue_more 1 a (c ∷ rest) (b - 224) more (omega arith)
                ∙ continue_more 0 c rest _ more' (omega arith)
                ∙ continue_done _ _)
              λ sc two three.
                rw
                  (encode_three (((b - 224) * 64 + (a - 128)) * 64 + (c - 128)) (two refl)
                    (omega arith))
                  (ground arith)
        | inr stop ↦ reject 2 (b - 224) b _ (lead_three b _ h k) (
            continue_more 1 a (c ∷ rest) (b - 224) more (omega arith)
            ∙ continue_stop 0 c rest _ bytes.0 stop)
      ]

module _ (b : ℕ) (h : 240 ≤ b) (k : b < 248) where
  lead : (s : List ℕ) → utf8_decode (b ∷ s) ≡ decode_tail 3 s (b - 240)
  lead s = lead_four b s h k

  one_more :
      (a : ℕ) (s : List ℕ)
      → IsMore a
      → continue_bytes 3 (a ∷ s) (b - 240) ≡ continue_bytes 2 s ((b - 240) * 64 + (a - 128))
  one_more a s more = continue_more 2 a s (b - 240) more (omega arith)

  two_more :
      (a c : ℕ) (s : List ℕ)
      → IsMore a
      → IsMore c
      → continue_bytes 3 (a ∷ c ∷ s) (b - 240)
        ≡ continue_bytes 1 s (((b - 240) * 64 + (a - 128)) * 64 + (c - 128))
  two_more a c s more more' = one_more a (c ∷ s) more ∙ continue_more 1 c s _ more' (omega arith)

  all_more :
      (a c d : ℕ) (rest : List ℕ) → IsMore a → IsMore c → IsMore d → Decodes (b ∷ a ∷ c ∷ d ∷ rest)
  all_more a c d rest i j l =
      judge 3 (b - 240) _ b (a ∷ c ∷ d ∷ rest) rest (lead _)
        (two_more a c (d ∷ rest) i j ∙ continue_more 0 d rest _ l (omega arith) ∙ continue_done _ _)
        λ sc two three.
          rw
            (encode_four ((((b - 240) * 64 + (a - 128)) * 64 + (c - 128)) * 64 + (d - 128))
              (three refl) (omega arith))
            (ground arith)

  third : (a c : ℕ) → IsMore a → IsMore c → (s : List ℕ) → All IsByte s → Decodes (b ∷ a ∷ c ∷ s)
  third a c i j [] bytes = reject 3 (b - 240) b _ (lead _) (two_more a c [] i j ∙ continue_end 0 _)
  third a c i j (d ∷ rest) bytes = elim (More-cases d bytes.0) [
    | inl l ↦ all_more a c d rest i j l
    | inr stop ↦
        reject 3 (b - 240) b _ (lead _)
          (two_more a c (d ∷ rest) i j ∙ continue_stop 0 d rest _ bytes.0 stop)
  ]

  second_of_four : (a : ℕ) → IsMore a → (s : List ℕ) → All IsByte s → Decodes (b ∷ a ∷ s)
  second_of_four a i [] bytes = reject 3 (b - 240) b _ (lead _) (one_more a [] i ∙ continue_end 1 _)
  second_of_four a i (c ∷ s) bytes = elim (More-cases c bytes.0) [
    | inl j ↦ third a c i j s bytes.1
    | inr stop ↦
        reject 3 (b - 240) b _ (lead _) (one_more a (c ∷ s) i ∙ continue_stop 1 c s _ bytes.0 stop)
  ]

  decodes_four : (s : List ℕ) → All IsByte s → Decodes (b ∷ s)
  decodes_four [] bytes = reject 3 (b - 240) b [] (lead []) (continue_end 2 _)
  decodes_four (a ∷ s) bytes = elim (More-cases a bytes.0) [
    | inl i ↦ second_of_four a i s bytes.1
    | inr stop ↦ reject 3 (b - 240) b _ (lead _) (continue_stop 2 a s _ bytes.0 stop)
  ]

-- On a string that is not empty the decoder answers with U+FFFD and one byte, or the string
-- begins with the shortest encoding of a scalar value, and that value and its length are the
-- answer: no overlong form, no surrogate and no value past U+10FFFF is accepted.
pub utf8_decode_lem : (b : ℕ) (s : List ℕ) → All IsByte (b ∷ s) → Decodes (b ∷ s)
utf8_decode_lem b s bytes = elim (dec_lt b 128) [
  | yes one ↦ accept b (b ∷ s) s (omega arith) (rw (encode_one b one))
  | no n1 ↦ elim (dec_lt b 194) [
    | yes bad ↦ inl (lead_bad b s bytes.0 (omega arith))
    | no n2 ↦ elim (dec_lt b 224) [
      | yes two ↦ decodes_two b s (omega arith) two bytes.1
      | no n3 ↦ elim (dec_lt b 240) [
        | yes three ↦ decodes_three b (omega arith) three s bytes.1
        | no n4 ↦ elim (dec_lt b 248) [
          | yes four ↦ decodes_four b (omega arith) four s bytes.1
          | no n5 ↦ inl (lead_bad b s bytes.0 (omega arith))
        ]
      ]
    ]
  ]
]

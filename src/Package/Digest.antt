-- ===== src/Package/Digest.antt =====
-- tools/hbpkg.c: sha256_hex, the padding of a message, the schedule and the rounds of a block, and the hex digits.
pub mod Padding
-- A uint32_t is a number below 2 ^ 32.
use Prim.Native.Nat.{bit_xor}
use mathlib.Core.List.{reverse}
use mellivora_os.Base.{
  take_zero, take_nil, take-take, add-one, ℕ, zero, suc, ◌+◌, ◌-◌, ◌*◌, ◌/◌, ◌%◌, ◌^◌, ◌≤◌, ◌<◌,
  min, bit_and, bit_or, ◌≡◌, refl, sym, ap, ◌∙◌, subst, fun_ext, ◌≢◌, ◌↔◌, ◌⊎◌, inl, inr, Bool,
  true, false, ◌&&◌, ◌||◌, not, Option, none, some, List, [], ◌∷◌, ◌++◌, map, append-nil,
  append_assoc, arith, dec_lt, ℕ_discrete, ltb, leb, ◌==◌, if◌then◌else◌, ltb→lt, lt→ltb, leb→le,
  ==_iff, tests, Bool-cases, Option-cases, length, get_elem?, set, length-append, get_or, take,
  drop, replicate, take-append-drop, length-take, length-drop, length-replicate, length-map, All,
  All-append, All-drop, drop-append_length, and_ten, u8, u16, u32, first, rest_of,
}

-- `uint32_t K[64]`.
abbrev pub k_table : List ℕ
k_table =
    0x428a2f98
    ∷ (0x71374491
        ∷ (0xb5c0fbcf
            ∷ (0xe9b5dba5
                ∷ (0x3956c25b
                    ∷ (0x59f111f1
                        ∷ (0x923f82a4
                            ∷ (0xab1c5ed5
                                ∷ (0xd807aa98
                                    ∷ (0x12835b01
                                        ∷ (0x243185be
                                            ∷ (0x550c7dc3
                                                ∷ (0x72be5d74
                                                    ∷ (0x80deb1fe
                                                        ∷ (0x9bdc06a7
                                                            ∷ (0xc19bf174
                                                            ∷ (0xe49b69c1
                                                            ∷ (0xefbe4786
                                                            ∷ (0x0fc19dc6
                                                            ∷ (0x240ca1cc
                                                            ∷ (0x2de92c6f
                                                            ∷ (0x4a7484aa
                                                            ∷ (0x5cb0a9dc
                                                            ∷ (0x76f988da
                                                            ∷ (0x983e5152
                                                            ∷ (0xa831c66d
                                                            ∷ (0xb00327c8
                                                            ∷ (0xbf597fc7
                                                            ∷ (0xc6e00bf3
                                                            ∷ (0xd5a79147
                                                            ∷ (0x06ca6351
                                                            ∷ (0x14292967
                                                            ∷ (0x27b70a85
                                                            ∷ (0x2e1b2138
                                                            ∷ (0x4d2c6dfc
                                                            ∷ (0x53380d13
                                                            ∷ (0x650a7354
                                                            ∷ (0x766a0abb
                                                            ∷ (0x81c2c92e
                                                            ∷ (0x92722c85
                                                            ∷ (0xa2bfe8a1
                                                            ∷ (0xa81a664b
                                                            ∷ (0xc24b8b70
                                                            ∷ (0xc76c51a3
                                                            ∷ (0xd192e819
                                                            ∷ (0xd6990624
                                                            ∷ (0xf40e3585
                                                            ∷ (0x106aa070
                                                            ∷ (0x19a4c116
                                                            ∷ (0x1e376c08
                                                            ∷ (0x2748774c
                                                            ∷ (0x34b0bcb5
                                                            ∷ (0x391c0cb3
                                                            ∷ (0x4ed8aa4a
                                                            ∷ (0x5b9cca4f
                                                            ∷ (0x682e6ff3
                                                            ∷ (0x748f82ee
                                                            ∷ (0x78a5636f
                                                            ∷ (0x84c87814
                                                            ∷ (0x8cc70208
                                                            ∷ (0x90befffa
                                                            ∷ (0xa4506ceb
                                                            ∷ (0xbef9a3f7 ∷ (0xc67178f2 ∷ []))))))))
                                                            ))))))))))))))))))))))))))))))))))))))))
                                                            )))))))))))))))

-- `while (total % 64 != 56) total++`, on fuel; 64 is enough.
unfoldable pub pad_total : ℕ → ℕ → ℕ
pad_total zero total = total
pad_total (suc fuel) total =
    let rest = pad_total fuel (total + 1) in if total % 64 == 56 then total else rest

-- The bytes of `bit_len` from the highest one.
unfoldable pub big_endian : ℕ → ℕ → List ℕ
big_endian zero n = []
big_endian (suc i) n = u8 (n / 256 ^ i) ∷ big_endian i n

-- `msg`: the data, 0x80, zeros, and the length in bits in the last eight bytes.
unfoldable pub padded : List ℕ → List ℕ
padded data' =
    let total = pad_total 64 (length data' + 1) in
    data'
    ++ (0x80 ∷ (replicate (total - length data' - 1) 0 ++ big_endian 8 (length data' * 8 % 2 ^ 64)))

-- `w[i]` for `i` below 16.
unfoldable pub words : ℕ → List ℕ → List ℕ
words zero msg = []
words (suc n) msg =
    bit_or
      (bit_or (bit_or (u32 (get_or msg 0 0 * 2 ^ 24)) (u32 (get_or msg 1 0 * 2 ^ 16)))
        (u32 (get_or msg 2 0 * 2 ^ 8)))
      (u32 (get_or msg 3 0))
    ∷ words n (drop 4 msg)

-- `x >> n | x << (32 - n)`.
unfoldable pub rotate : ℕ → ℕ → ℕ
rotate n x = bit_or (x / 2 ^ n) (u32 (x * 2 ^ (32 - n)))

abbrev pub xor3 : ℕ → ℕ → ℕ → ℕ
xor3 x y z = bit_xor (bit_xor x y) z

-- `w[i]` for `i` from 16, with the words before it, the last one first.
unfoldable pub schedule_word : List ℕ → ℕ
schedule_word before =
    let w15 = get_or before 14 0 in
    let w2 = get_or before 1 0 in
    let s0 = xor3 (rotate 7 w15) (rotate 18 w15) (w15 / 2 ^ 3) in
    let s1 = xor3 (rotate 17 w2) (rotate 19 w2) (w2 / 2 ^ 10) in
    u32 (get_or before 15 0 + s0 + get_or before 6 0 + s1)

-- The words of a block with `n` more of them, the last one first.
unfoldable pub schedule : ℕ → List ℕ → List ℕ
schedule zero before = before
schedule (suc n) before = schedule n (schedule_word before ∷ before)

-- a to h, `e` to `hh` as they stand in the source.
pub record Registers : Type 0 where
  pub a : ℕ
  pub b : ℕ
  pub c : ℕ
  pub d : ℕ
  pub e : ℕ
  pub f : ℕ
  pub g : ℕ
  pub hh : ℕ

abbrev pub initial : Registers
initial = record {
  a = 0x6a09e667;
  b = 0xbb67ae85;
  c = 0x3c6ef372;
  d = 0xa54ff53a;
  e = 0x510e527f;
  f = 0x9b05688c;
  g = 0x1f83d9ab;
  hh = 0x5be0cd19;
}

-- `~e & g` on 32 bits.
abbrev pub ch : ℕ → ℕ → ℕ → ℕ
ch e f g = bit_xor (bit_and e f) (bit_and (2 ^ 32 - 1 - e) g)

abbrev pub maj : ℕ → ℕ → ℕ → ℕ
maj a b c = xor3 (bit_and a b) (bit_and a c) (bit_and b c)

-- One round, with `K[i]` and `w[i]`.
unfoldable pub round : ℕ → ℕ → Registers → Registers
round k w r =
    let s1 = xor3 (rotate 6 r.e) (rotate 11 r.e) (rotate 25 r.e) in
    let temp1 = u32 (r.hh + s1 + ch r.e r.f r.g + k + w) in
    let s0 = xor3 (rotate 2 r.a) (rotate 13 r.a) (rotate 22 r.a) in
    let temp2 = u32 (s0 + maj r.a r.b r.c) in
    record {
      a = u32 (temp1 + temp2);
      b = r.a;
      c = r.b;
      d = r.c;
      e = u32 (r.d + temp1);
      f = r.e;
      g = r.f;
      hh = r.g;
    }

unfoldable pub rounds : List ℕ → List ℕ → Registers → Registers
rounds [] w r = r
rounds (k ∷ ks) [] r = r
rounds (k ∷ ks) (w ∷ ws) r = rounds ks ws (round k w r)

-- `h[0] += a` and so on.
abbrev pub plus : Registers → Registers → Registers
plus h r = record {
  a = u32 (h.a + r.a);
  b = u32 (h.b + r.b);
  c = u32 (h.c + r.c);
  d = u32 (h.d + r.d);
  e = u32 (h.e + r.e);
  f = u32 (h.f + r.f);
  g = u32 (h.g + r.g);
  hh = u32 (h.hh + r.hh);
}

unfoldable pub process_block : List ℕ → Registers → Registers
process_block msg h = plus h (rounds k_table (reverse (schedule 48 (reverse (words 16 msg)))) h)

-- The blocks of 64 bytes, for `n` of them.
unfoldable pub process_blocks : ℕ → List ℕ → Registers → Registers
process_blocks zero msg h = h
process_blocks (suc n) msg h = process_blocks n (drop 64 msg) (process_block msg h)

abbrev pub hex_digit : ℕ → ℕ
hex_digit d = if ltb d 10 then 48 + d else 97 + (d - 10)

-- `snprintf(out, 9, "%08x", h)`.
unfoldable pub hex_digits : ℕ → ℕ → List ℕ
hex_digits zero n = []
hex_digits (suc i) n = hex_digit (n / 16 ^ i % 16) ∷ hex_digits i n

abbrev pub hex_word : ℕ → List ℕ
hex_word n = hex_digits 8 n

unfoldable pub hex_of : Registers → List ℕ
hex_of h =
    hex_word h.a
    ++ (hex_word h.b
        ++ (hex_word h.c
            ++ (hex_word h.d
                ++ (hex_word h.e ++ (hex_word h.f ++ (hex_word h.g ++ hex_word h.hh))))))

-- `out_hex64`; `given` is whether calloc gave the memory for the message.
unfoldable pub sha256_hex : Bool → List ℕ → List ℕ
sha256_hex false data' = replicate 64 b'0'
sha256_hex true data' =
    let msg = padded data' in hex_of (process_blocks (length msg / 64) msg initial)

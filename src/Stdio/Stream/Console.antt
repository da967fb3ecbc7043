-- ===== src/Stdio/Stream/Console.antt =====
-- c/rt/stdio.c: what console_write makes of a text, and its array of 512 bytes.
use mellivora_os.Stdio.Stream.Write.{crlf_loop}
use mellivora_os.Base.{
  ℕ, zero, suc, ◌+◌, ◌*◌, ◌≤◌, ◌<◌, ◌≡◌, refl, ap, subst, inl, inr, true, ◌&&◌, List, [], ◌∷◌, ◌++◌,
  arith, ltb, ◌==◌, if◌then◌else◌, ltb→lt, Bool-cases, length, replicate,
}

-- Every newline behind a carriage return.
unfoldable pub crlf : List ℕ → List ℕ
crlf [] = []
crlf (c ∷ l) = if c == 10 then 13 ∷ (10 ∷ crlf l) else c ∷ crlf l

crlf_loop-crlf : (l : List ℕ) (used : ℕ) → used + length (crlf l) ≤ 511 → crlf_loop used l ≡ crlf l
unfolding crlf crlf_loop
crlf_loop-crlf [] used room = refl
crlf_loop-crlf (c ∷ l) used room = elim (Bool-cases (c == 10)) [
  | inl newline ↦
      let fits : used + suc (suc (length (crlf l))) ≤ 511 =
        subst (λ b. used + length (if b then 13 ∷ (10 ∷ crlf l) else c ∷ crlf l) ≤ 511) newline
          room in
      let both_fit : ltb (used + 1) 512 ≡ true = ground arith in
      rw (newline, both_fit) (ap (λ r. 13 ∷ (10 ∷ r)) (crlf_loop-crlf l (used + 2) (omega arith)))
  | inr other ↦
      let fits : used + suc (length (crlf l)) ≤ 511 =
        subst (λ b. used + length (if b then 13 ∷ (10 ∷ crlf l) else c ∷ crlf l) ≤ 511) other
          room in
      let one_fits : ltb used 511 ≡ true = ground arith in
      rw (other, one_fits) (ap (λ r. c ∷ r) (crlf_loop-crlf l (used + 1) (omega arith)))
]

-- A text of at most 511 bytes, with a carriage return before every newline, goes to the console whole.
pub crlf_loop_lem : (l : List ℕ) → length (crlf l) ≤ 511 → crlf_loop 0 l ≡ crlf l
crlf_loop_lem l room = crlf_loop-crlf l 0 (omega arith)

below_end : (c used : ℕ) → (c == 10 && ltb (used + 1) 512) ≡ true → used + 1 < 512
below_end c used h = ground arith

length-crlf_loop : (l : List ℕ) (used : ℕ) → used ≤ 512 → used + length (crlf_loop used l) ≤ 512
unfolding crlf_loop
length-crlf_loop [] used room = omega arith
length-crlf_loop (c ∷ l) used room =
    let both = length-crlf_loop l (used + 2) in
    let one = length-crlf_loop l (used + 1) in
    elim (Bool-cases (c == 10 && ltb (used + 1) 512)) [
      | inl pair ↦
          let below = below_end c used pair in
          let rest = both (omega arith) in rw pair (omega (arith, rest))
      | inr no_pair ↦ rw no_pair (elim (Bool-cases (ltb used 511)) [
        | inl room_left ↦
            let below = ltb→lt used 511 room_left in
            let rest = one (omega arith) in rw room_left (omega (arith, rest))
        | inr full ↦ rw full (length-crlf_loop l used room)
      ])
    ]

newlines :
    (n used : ℕ) (l : List ℕ)
    → used + 2 * n ≤ 512
    → 2 * n ≤ length (crlf_loop used (replicate n 10 ++ l))
unfolding crlf_loop
newlines zero used l room = omega arith
newlines (suc n) used l room =
    let both_fit : ltb (used + 1) 512 ≡ true = ground arith in
    let rest = newlines n (used + 2) l (omega arith) in rw both_fit (omega (arith, rest))

-- `console_write` never puts more than 512 bytes in its array of 512, but a text that begins with 256
-- newlines fills it, so that no place in it is left for the terminator.
pub console_write_full :
    (l : List ℕ)
    → (length (crlf_loop 0 l) ≤ 512) × (length (crlf_loop 0 (replicate 256 10 ++ l)) ≡ 512)
console_write_full l =
    let most = length-crlf_loop (replicate 256 10 ++ l) 0 (omega arith) in
    let least = newlines 256 0 l (omega arith) in
    let all = length-crlf_loop l 0 (omega arith) in (omega (arith, all), omega (arith, most, least))

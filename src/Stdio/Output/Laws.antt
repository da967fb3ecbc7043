-- ===== src/Stdio/Output/Laws.antt =====
-- c/rt/stdio.c: what vsnprintf leaves in memory, and what vfprintf gives to the stream.
use mellivora_os.Stdio.Format.Text.{format_text, format_loop-put_all}
use mellivora_os.Stdio.Output.{Buffer, buffer_char, buffer_end, buffer_format, vsnprintf}
use mellivora_os.Str.Memory.{Memory, store}
use mellivora_os.Base.Signed.{to_i32}
use mellivora_os.Base.Writer.{put_all}
use mellivora_os.Base.{
  take_zero, take_nil, ℕ, suc, ◌+◌, ◌-◌, ◌≤◌, ◌<◌, min, ◌≡◌, refl, sym, ap, ◌∙◌, subst, ◌⊎◌, inl,
  inr, true, false, List, [], ◌∷◌, arith, dec_lt, ltb, ◌==◌, if◌then◌else◌, length, take,
  length-take, u32,
}

abbrev pub write_at : Memory → ℕ → List ℕ → Memory
write_at m p [] = m
write_at m p (c ∷ l) = write_at (store m p c) (p + 1) l

abbrev buffer : Memory → ℕ → ℕ → ℕ → Buffer
buffer m p n k = record { memory = m; buf = p; cap = n; len = k }

char_stored :
    (m : Memory) (p n k c : ℕ)
    → k + 1 < n
    → p + n ≤ 0x100000000
    → buffer_char (record { memory = m; buf = p; cap = n; len = k }) c
      ≡ record { memory = store m (p + k) c; buf = p; cap = n; len = k + 1 }
unfolding buffer_char
char_stored m p n k c h fits =
    let counted : u32 (k + 1) ≡ k + 1 = omega arith in
    let place : u32 (p + k) ≡ p + k = omega arith in
    let room : ltb (k + 1) n ≡ true = ground arith in rw (counted, room, place) refl

char_counted :
    (m : Memory) (p n k c : ℕ)
    → n ≤ k + 1
    → k + 1 < 0x100000000
    → buffer_char (record { memory = m; buf = p; cap = n; len = k }) c
      ≡ record { memory = m; buf = p; cap = n; len = k + 1 }
unfolding buffer_char
char_counted m p n k c h small =
    let counted : u32 (k + 1) ≡ k + 1 = omega arith in
    let full : ltb (k + 1) n ≡ false = ground arith in rw (counted, full) refl

buffer_all :
    (l : List ℕ) (m : Memory) (p n k : ℕ)
    → k + length l < 0x100000000
    → p + n ≤ 0x100000000
    → put_all buffer_char (record { memory = m; buf = p; cap = n; len = k }) l ≡ record {
      memory = write_at m (p + k) (take (n - 1 - k) l);
      buf = p;
      cap = n;
      len = k + length l;
    }
unfolding put_all
buffer_all [] m p n k small fits =
    ap (λ x. buffer (write_at m (p + k) x) p n k) (sym (take_nil (n - 1 - k)))
    ∙ ap (buffer (write_at m (p + k) (take (n - 1 - k) [])) p n)
        (let e : k ≡ k + 0 = omega arith in e)
buffer_all (c ∷ l) m p n k small fits = elim (dec_lt (k + 1) n) [
  | yes room ↦ rw (char_stored m p n k c room fits) (
      buffer_all l (store m (p + k) c) p n (k + 1) (omega arith) fits
      ∙ ap
          (λ q.
            buffer (write_at (store m (p + k) c) q (take (n - 1 - (k + 1)) l)) p n
              (k + 1 + length l))
          (let e : p + (k + 1) ≡ p + k + 1 = omega arith in e)
      ∙ ap (λ z. buffer (write_at m (p + k) (take z (c ∷ l))) p n (k + 1 + length l))
          (let e : suc (n - 1 - (k + 1)) ≡ n - 1 - k = omega arith in e)
      ∙ ap (buffer (write_at m (p + k) (take (n - 1 - k) (c ∷ l))) p n)
          (let e : k + 1 + length l ≡ k + suc (length l) = omega arith in e))
  | no full ↦ rw (char_counted m p n k c (omega arith) (omega arith)) (
      buffer_all l m p n (k + 1) (omega arith) fits
      ∙ ap (λ x. buffer (write_at m (p + (k + 1)) x) p n (k + 1 + length l))
          (ap (λ z. take z l) (let e : n - 1 - (k + 1) ≡ 0 = omega arith in e) ∙ take_zero l)
      ∙ ap (λ x. buffer (write_at m (p + k) x) p n (k + 1 + length l))
          (sym (take_zero (c ∷ l))
            ∙ ap (λ z. take z (c ∷ l)) (let e : 0 ≡ n - 1 - k = omega arith in e))
      ∙ ap (buffer (write_at m (p + k) (take (n - 1 - k) (c ∷ l))) p n)
          (let e : k + 1 + length l ≡ k + suc (length l) = omega arith in e))
]

write_at_before : (l : List ℕ) (m : Memory) (p q : ℕ) → q < p → write_at m p l q ≡ m q
unfolding store
write_at_before [] m p q h = refl
write_at_before (c ∷ l) m p q h =
    let other : (q == p) ≡ false = ground arith in
    write_at_before l (store m p c) (p + 1) q (omega arith) ∙ rw other refl

write_at_behind : (l : List ℕ) (m : Memory) (p q : ℕ) → p + length l ≤ q → write_at m p l q ≡ m q
unfolding store
write_at_behind [] m p q h = refl
write_at_behind (c ∷ l) m p q h =
    let other : (q == p) ≡ false = ground arith in
    write_at_behind l (store m p c) (p + 1) q (omega arith) ∙ rw other refl

-- A string in memory, with its terminator.
abbrev pub HoldsString : Memory → ℕ → List ℕ → Type 0
HoldsString m p [] = m p ≡ 0
HoldsString m p (c ∷ l) = (m p ≡ c) × HoldsString m (p + 1) l

HoldsString-agree :
    (l : List ℕ) (m n : Memory) (p : ℕ)
    → ((q : ℕ) → p ≤ q → q ≤ p + length l → m q ≡ n q)
    → HoldsString m p l
    → HoldsString n p l
HoldsString-agree [] m n p h holds = sym (h p (omega arith) (omega arith)) ∙ holds
HoldsString-agree (c ∷ l) m n p h (e, holds) = (
  sym (h p (omega arith) (omega arith)) ∙ e,
  HoldsString-agree l m n (p + 1) (λ q lo hi. h q (omega arith) (omega arith)) holds,
)

written-HoldsString :
    (l : List ℕ) (m : Memory) (p : ℕ) → HoldsString (store (write_at m p l) (p + length l) 0) p l
unfolding store
written-HoldsString [] m p = let here : (p == p + 0) ≡ true = ground arith in rw here refl
written-HoldsString (c ∷ l) m p =
    let inside : (p == p + suc (length l)) ≡ false = ground arith in
    let here : (p == p) ≡ true = ground arith in
    (
      rw inside (write_at_before l (store m p c) (p + 1) p (omega arith) ∙ rw here refl),
      subst (λ e. HoldsString (store (write_at (store m p c) (p + 1) l) e 0) (p + 1) l)
          (let e : p + 1 + length l ≡ p + suc (length l) = omega arith in e)
          (written-HoldsString l (store m p c) (p + 1)),
    )

end_place :
    (p n len : ℕ)
    → 0 < n
    → p + n ≤ 0x100000000
    → u32 (p + (if ltb len n then len else u32 (n + 0xFFFFFFFF))) ≡ p + min (n - 1) len
end_place p n len h fits = ground arith

module _ (args : ℕ → ℕ) (strings : ℕ → List ℕ) (m : Memory) (p : ℕ) (fmt : List ℕ) where
  abbrev text : List ℕ
  text = format_text args strings fmt

  buffer_format_lem :
      (n : ℕ)
      → length text < 0x100000000
      → p + n ≤ 0x100000000
      → buffer_format args strings m p n fmt
        ≡ buffer_end (buffer (write_at m p (take (n - 1) text)) p n (length text))
  unfolding buffer_format
  buffer_format_lem n small fits = ap buffer_end (
      format_loop-put_all args strings fmt Buffer buffer_char (buffer m p n 0)
      ∙ buffer_all text m p n 0 (omega arith) fits
      ∙ ap (λ z. buffer (write_at m z (take (n - 1 - 0) text)) p n (0 + length text))
          (let e : p + 0 ≡ p = omega arith in e)
      ∙ ap (λ z. buffer (write_at m p (take z text)) p n (0 + length text))
          (let e : n - 1 - 0 ≡ n - 1 = omega arith in e)
      ∙ ap (buffer (write_at m p (take (n - 1) text)) p n)
          (let e : 0 + length text ≡ length text = omega arith in e))

  buffer_format_memory :
      (n : ℕ)
      → 0 < n
      → length text < 0x100000000
      → p + n ≤ 0x100000000
      → (buffer_format args strings m p n fmt).0
        ≡ store (write_at m p (take (n - 1) text)) (p + length (take (n - 1) text)) 0
  buffer_format_memory n h small fits =
      ap (λ r. r.0) (buffer_format_lem n small fits)
      ∙ ap (λ z. store (write_at m p (take (n - 1) text)) z 0)
          (end_place p n (length text) h fits ∙ ap (λ z. p + z) (sym (length-take (n - 1) text)))

  buffer_format_held :
      (n q : ℕ)
      → 0 < n
      → length (format_text args strings fmt) < 0x100000000
      → p + n ≤ 0x100000000
      → (q < p) ⊎ (p + n ≤ q)
      → HoldsString
          (buffer_format args strings m p n fmt).0
          p
          (take (n - 1) (format_text args strings fmt))
        × (((buffer_format args strings m p n fmt).1
              ≡ to_i32 (length (format_text args strings fmt)))
            × ((buffer_format args strings m p n fmt).0 q ≡ m q))
  unfolding store
  buffer_format_held n q h small fits outside =
      let size = length-take (n - 1) text in
      let cut = take (n - 1) text in
      (
        subst (λ r. HoldsString r p cut) (sym (buffer_format_memory n h small fits))
            (written-HoldsString cut m p),
        (
          ap (λ r. r.1) (buffer_format_lem n small fits),
          ap (λ r. r q) (buffer_format_memory n h small fits)
              ∙ (let other : (q == p + length cut) ≡ false = ground (arith, size) in
                  rw other (elim outside [
                    | inl before ↦ write_at_before cut m p q before
                    | inr behind ↦ write_at_behind cut m p q (omega (arith, size))
                  ])),
        ),
      )

-- The text of a format is what a list as the sink is given. `vsnprintf` into a buffer of `n` bytes that is
-- not the null pointer, with `n` above 0, where the buffer ends at 2 ^ 32 at most and the text is shorter
-- than 2 ^ 32 bytes, leaves in the buffer as much of that text as fits before the terminator, then the
-- terminator; the result is the length of the whole text read as a signed number of 32 bits, every
-- byte outside the buffer is as it was, and nothing reaches the console.
pub vsnprintf_lem :
    {F : Type 0} (console_write : F → List ℕ → F) (args : ℕ → ℕ) (strings : ℕ → List ℕ)
    (console : F) (m : Memory) (p : ℕ) (fmt : List ℕ) (n q : ℕ)
    → 0 < p
    → 0 < n
    → length (format_text args strings fmt) < 0x100000000
    → p + n ≤ 0x100000000
    → (q < p) ⊎ (p + n ≤ q)
    → HoldsString
        (vsnprintf console_write args strings console m p n fmt).1.0
        p
        (take (n - 1) (format_text args strings fmt))
      × (((vsnprintf console_write args strings console m p n fmt).1.1
            ≡ to_i32 (length (format_text args strings fmt)))
          × (((vsnprintf console_write args strings console m p n fmt).1.0 q ≡ m q)
              × ((vsnprintf console_write args strings console m p n fmt).0 ≡ console)))
unfolding vsnprintf
vsnprintf_lem console_write args strings console m p fmt n q there h small fits outside =
    let held = buffer_format_held args strings m p fmt n q h small fits outside in
    let real : (p == 0) ≡ false = ground (arith, there) in
    rw real (held.0, (held.1.0, (held.1.1, refl)))

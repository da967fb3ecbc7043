-- ===== src/Stdio/Stream/Seek.antt =====
-- c/rt/stdio.c: fseek over a stream that is in memory, also where the sum of the position and the offset wraps.
use mellivora_os.Stdio.Stream.{File, Kernel, Process, einval}
use mellivora_os.Stdio.Stream.Position.{target_of, fseek}
use mellivora_os.Base.Int.{ℤ, pos, negsuc, ltb_ℤ, ◌+ℤ◌, pos_part, neg_part}
use mellivora_os.Base.Signed.{i32, to_u32, to_i32, IsI32, i32-id, to_u32-pos}
use mellivora_os.Base.{
  ℕ, ◌-◌, ◌^◌, ◌≤◌, ◌<◌, ◌≡◌, refl, sym, ap, ◌∙◌, inl, inr, Bool, true, false, ◌||◌, none, some,
  List, arith, ltb, ◌==◌, if◌then◌else◌, ltb→lt, Bool-cases, length,
}

-- Where `whence` counts from.
abbrev pub start_of : List ℕ → ℕ → ℕ → ℕ
start_of l rpos whence = if whence == 0 then 0 else if whence == 1 then rpos else length l

abbrev pub is_outside : ℤ → ℕ → Bool
is_outside t n = ltb_ℤ t (pos 0) || ltb_ℤ (pos n) t

-- The test of the source, against the sum as an integer.
abbrev fails : ℤ → ℕ → Bool
fails t n = ltb_ℤ t (pos 0) || ltb n (to_u32 t)

too_high : (m : ℕ) → 2 ^ 31 ≤ m → m < 2 ^ 32 → i32 (pos m) ≡ negsuc (2 ^ 32 - 1 - m)
unfolding i32 to_i32 to_u32
too_high m h k = ground arith

wrap_fails :
    (t : ℤ) (n : ℕ)
    → n < 2 ^ 31
    → pos_part t < 2 ^ 32
    → neg_part t ≤ 2 ^ 31
    → fails (i32 t) n ≡ is_outside t n
wrap_fails (pos m) n h k low = elim (Bool-cases (ltb m (2 ^ 31))) [
  | inl small ↦
      let below = ltb→lt m (2 ^ 31) small in
      rw (i32-id (pos m) (omega (arith, below), omega arith), to_u32-pos m (omega (arith, below)))
        (ground arith)
  | inr large ↦ rw (too_high m (ground (arith, large)) k) (ground (arith, large))
]
wrap_fails (negsuc m) n h k low = rw (i32-id (negsuc m) (omega arith, omega arith)) (ground arith)

sum_range :
    (n : ℕ) (z : ℤ)
    → n < 2 ^ 31
    → IsI32 z
    → (pos_part (pos n +ℤ z) < 2 ^ 32) × (neg_part (pos n +ℤ z) ≤ 2 ^ 31)
unfolding ◌+ℤ◌
sum_range n z h k = ground arith

add_zero : (z : ℤ) → pos 0 +ℤ z ≡ z
unfolding ◌+ℤ◌
add_zero z = ground arith

target_sum :
    (l : List ℕ) (rpos : ℕ) (offset : ℤ) (whence : ℕ)
    → IsI32 offset
    → target_of l rpos offset whence ≡ i32 (pos (start_of l rpos whence) +ℤ offset)
target_sum l rpos offset whence h = elim (Bool-cases (whence == 0)) [
  | inl from_start ↦ rw from_start (sym (ap i32 (add_zero offset) ∙ i32-id offset h))
  | inr other ↦ elim (Bool-cases (whence == 1)) [
    | inl from_here ↦ rw (other, from_here) refl
    | inr from_end ↦ rw (other, from_end) refl
  ]
]

start_inside : (l : List ℕ) (rpos whence : ℕ) → rpos ≤ length l → start_of l rpos whence ≤ length l
start_inside l rpos whence h = ground arith

inside_value : (t : ℤ) (n : ℕ) → n < 2 ^ 31 → is_outside t n ≡ false → to_u32 (i32 t) ≡ pos_part t
inside_value (pos m) n h k =
    let below : m ≤ n = ground (arith, k) in
    rw (i32-id (pos m) (omega (arith, below), omega arith)) (to_u32-pos m (omega (arith, below)))
inside_value (negsuc m) n h k = absurd (ground (arith, k))

module _ {W : Type 0} (k : Kernel W) where
  -- The stream with the copy `l`, and what a seek does to it first.
  abbrev pub in_memory : File → List ℕ → File
  in_memory f l = record f { rbuf = some l }

  abbrev pub cleared : File → List ℕ → File
  cleared f l = record f { rbuf = some l; ungot = none; eof = false }

  -- Over a stream in memory, at a position in it, `fseek` counts as integers do, although its sum can wrap: a
  -- place before the start or behind the end fails with EINVAL and leaves the position, any other place is the
  -- new position. In both cases the pushed back byte and the mark of the end are gone.
  pub fseek_lem :
      (offset : ℤ) (whence : ℕ) (f : File) (pr : Process W) (l : List ℕ)
      → IsI32 offset
      → length l < 2 ^ 31
      → f.rpos ≤ length l
      → fseek k offset whence (in_memory f l) pr ≡ (
          if is_outside (pos (start_of l f.rpos whence) +ℤ offset) (length l)
          then (false, (cleared f l, record pr { errno = einval }))
          else (
            true,
            (
              record (cleared f l) { rpos = pos_part (pos (start_of l f.rpos whence) +ℤ offset) },
              pr,
            ),
          ))
  unfolding fseek
  fseek_lem offset whence f pr l small short inside =
      let start = start_of l f.rpos whence in
      let begins = start_inside l f.rpos whence inside in
      let t = pos start +ℤ offset in
      let range = sum_range start offset (omega (arith, begins)) small in
      let agree = wrap_fails t (length l) short range.0 range.1 in
      let move : ℤ → Bool × (File × Process W) = λ target.
        if fails target (length l)
        then (false, (cleared f l, record pr { errno = einval }))
        else (true, (record (cleared f l) { rpos = to_u32 target }, pr)) in
      ap move (target_sum l f.rpos offset whence small)
      ∙ elim (Bool-cases (is_outside t (length l))) [
        | inl outside ↦ rw (agree, outside) refl
        | inr within ↦
            rw (agree, within)
              (ap
                (λ n.
                  (let r : Bool × (File × Process W) =
                      (true, (record (cleared f l) { rpos = n }, pr)) in
                    r))
                (inside_value t (length l) short within))
      ]

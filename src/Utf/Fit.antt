-- ===== src/Utf/Fit.antt =====
-- c/rt/utf.c: how both conversions fill a buffer of `cap` units, and what that leaves out.
use mellivora_os.Base.{
  leb→le, first, ℕ, zero, suc, ◌+◌, ◌≤◌, ◌<◌, ◌≡◌, refl, ap, inl, inr, List, [], ◌∷◌, ◌++◌, arith,
  leb, if◌then◌else◌, leb→le, Bool-cases, length, length-append, first, true, false, ◌⊎◌,
}
use mellivora_os.Utf.{finish}
use mellivora_os.Utf.Points.{encoded}

module _ (f : ℕ → List ℕ) (cap : ℕ) where
  -- The code points that fit behind `written` units and before a terminator, up to the first
  -- that does not, and those from there on.
  unfoldable pub fitting : ℕ → List ℕ → List ℕ
  fitting written [] = []
  fitting written (c ∷ cps) =
      let more = fitting (written + length (f c)) cps in
      if leb cap (written + length (f c)) then [] else c ∷ more

  unfoldable pub left_out : ℕ → List ℕ → List ℕ
  left_out written [] = []
  left_out written (c ∷ cps) =
      let more = left_out (written + length (f c)) cps in
      if leb cap (written + length (f c)) then c ∷ cps else more

  pub fitting_full :
      (w c : ℕ) (cps : List ℕ) → leb cap (w + length (f c)) ≡ true → fitting w (c ∷ cps) ≡ []
  unfolding fitting
  fitting_full w c cps full = rw full

  pub fitting_room :
      (w c : ℕ) (cps : List ℕ)
      → leb cap (w + length (f c)) ≡ false
      → fitting w (c ∷ cps) ≡ c ∷ fitting (w + length (f c)) cps
  unfolding fitting
  fitting_room w c cps room = rw room

  pub fitting-append-left_out : (w : ℕ) (cps : List ℕ) → fitting w cps ++ left_out w cps ≡ cps
  unfolding fitting left_out
  fitting-append-left_out w [] = refl
  fitting-append-left_out w (c ∷ cps) = elim (Bool-cases (leb cap (w + length (f c)))) [
    | inl full ↦ rw full
    | inr room ↦ rw room (ap (◌∷◌ c) (fitting-append-left_out (w + length (f c)) cps))
  ]

  pub length-fitting-lt :
      (w : ℕ) (cps : List ℕ) → w < cap → w + length (encoded f (fitting w cps)) < cap
  unfolding fitting
  length-fitting-lt w [] h = omega arith
  length-fitting-lt w (c ∷ cps) h = elim (Bool-cases (leb cap (w + length (f c)))) [
    | inl full ↦ rw full (omega arith)
    | inr room ↦
        rw (room, length-append)
          (omega (arith, length-fitting-lt (w + length (f c)) cps (ground arith)))
  ]

  -- The first code point that is left out does not fit any more.
  pub left_out-does_not_fit :
      (w c : ℕ) (cps tail : List ℕ)
      → left_out w cps ≡ c ∷ tail
      → cap ≤ w + length (encoded f (fitting w cps)) + length (f c)
  unfolding fitting left_out
  left_out-does_not_fit w c [] tail e = cc
  left_out-does_not_fit w c (d ∷ cps) tail e = elim (Bool-cases (leb cap (w + length (f d)))) [
    | inl full ↦
        rw full
          (omega (arith, leb→le _ _ full, ap (λ (t : List ℕ). length (f (first t))) (rw full at e)))
    | inr room ↦
        rw (room, length-append)
          (omega (arith, left_out-does_not_fit (w + length (f d)) c cps tail (rw room at e)))
  ]

  -- What fits in whole is not cut.
  pub fitting_all : (w : ℕ) (cps : List ℕ) → w + length (encoded f cps) < cap → fitting w cps ≡ cps
  unfolding fitting
  fitting_all w [] h = refl
  fitting_all w (c ∷ cps) h = elim (Bool-cases (leb cap (w + length (f c)))) [
    | inl full ↦ absurd (omega (arith, leb→le _ _ full, length-append (f c) (encoded f cps)))
    | inr room ↦ rw room (
        ap (◌∷◌ c)
          (fitting_all (w + length (f c)) cps (omega (arith, length-append (f c) (encoded f cps)))))
  ]

-- The stores behind the loop keep within the buffer.
pub finish_bounds :
    (cap : ℕ) (out : List ℕ)
    → (0 < cap → length out < cap)
    → (cap ≡ 0 → out ≡ [])
    → length (finish cap out).buffer ≤ cap
unfolding finish
finish_bounds zero out h k = rw (k refl) (omega arith)
finish_bounds (suc n) out h k = ground (arith, length-append out (0 ∷ []), h (omega arith))

pub finish_pos :
    (cap : ℕ) (out : List ℕ)
    → 0 < cap
    → finish cap out ≡ record { buffer = out ++ (0 ∷ []); written = length out }
unfolding finish
finish_pos zero out h = elim h [ ]
finish_pos (suc n) out h = ground arith

module _ (f : ℕ → List ℕ) (cap : ℕ) (cps : List ℕ) where
  -- Nothing is left out, or its first code point did not fit.
  pub left_out-cases :
      (left_out f cap 0 cps ≡ [])
      ⊎ (cap ≤ length (encoded f (fitting f cap 0 cps)) + length (f (first (left_out f cap 0 cps))))
  left_out-cases = go (left_out f cap 0 cps) refl
    where
      go :
          (t : List ℕ)
          → left_out f cap 0 cps ≡ t
          → (t ≡ []) ⊎ (cap ≤ length (encoded f (fitting f cap 0 cps)) + length (f (first t)))
      go [] e = inl refl
      go (c ∷ t) e = inr (omega (arith, left_out-does_not_fit f cap 0 c cps t e))

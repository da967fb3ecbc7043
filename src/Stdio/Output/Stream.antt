-- ===== src/Stdio/Output/Stream.antt =====
-- c/rt/stdio.c: what vfprintf gives to its stream, a chunk at a time.
use mellivora_os.Stdio.Format.Text.{format_text, format_loop-put_all}
use mellivora_os.Stdio.Output.{Chunk, out_flush, stream_char, vfprintf}
use mellivora_os.Base.Int.{ℤ, pos, negsuc}
use mellivora_os.Base.Writer.{put_all}
use mellivora_os.Base.{
  length-append, ◌<◌, ◌≤◌, true, ℕ, suc, ◌≡◌, refl, sym, ap, ◌∙◌, inl, inr, Bool, true, false, some,
  List, [], ◌∷◌, ◌++◌, append-nil, append_assoc, arith, ◌==◌, if◌then◌else◌, Bool-cases, length,
}

-- Streams that take a chunk whole, as `all` says of a text of any length, as long as they are open.
pub record Accepts {F : Type 0} (write : F → List ℕ → F × Bool) (all : F → List ℕ → F)
    : Type 1 where
  pub IsOpen : F → Type 0
  pub kept : (f : F) (l : List ℕ) → IsOpen f → IsOpen (all f l)
  pub whole : (f : F) (l : List ℕ) → IsOpen f → length l ≤ 256 → write f l ≡ (all f l, true)
  pub none_written : (f : F) → all f [] ≡ f
  pub joined : (f : F) (l r : List ℕ) → all (all f l) r ≡ all f (l ++ r)

module _ {F : Type 0} (write : F → List ℕ → F × Bool) (all : F → List ℕ → F)
    (accepts : Accepts write all) where
  abbrev chunk : F → List ℕ → Chunk F
  chunk f t = record { stream = f; tmp = t; failed = false }

  flush_all :
      (f : F) (t : List ℕ)
      → accepts.IsOpen f
      → length t ≤ 256
      → out_flush write (chunk f t) ≡ chunk (all f t) []
  unfolding out_flush
  flush_all f [] is_open h = ap (λ g. chunk g []) (sym (accepts.none_written f))
  flush_all f (c ∷ t) is_open h =
      let some_left : (suc (length t) == 0) ≡ false = ground arith in
      rw (some_left, accepts.whole f (c ∷ t) is_open h) refl

  stream_all :
      (l t : List ℕ) (f : F)
      → accepts.IsOpen f
      → length t < 256
      → out_flush write (put_all (stream_char write) (chunk f t) l) ≡ chunk (all f (t ++ l)) []
  unfolding put_all stream_char
  stream_all [] t f is_open h =
      flush_all f t is_open (omega arith) ∙ ap (λ k. chunk (all f k) []) (sym (append-nil t))
  stream_all (c ∷ l) t f is_open h =
      let longer = length-append t (c ∷ []) in
      elim (Bool-cases (length (t ++ (c ∷ [])) == 256)) [
        | inl full ↦ rw full (
            ap (λ o. out_flush write (put_all (stream_char write) o l))
              (flush_all f (t ++ (c ∷ [])) is_open (omega (arith, longer)))
            ∙ stream_all l [] (all f (t ++ (c ∷ []))) (accepts.kept f (t ++ (c ∷ [])) is_open)
                (omega arith)
            ∙ ap (λ g. chunk g []) (accepts.joined f (t ++ (c ∷ [])) l)
            ∙ ap (λ k. chunk (all f k) []) (append_assoc t (c ∷ []) l))
        | inr room ↦ rw room (
            stream_all l (t ++ (c ∷ [])) f is_open (ground (arith, longer))
            ∙ ap (λ k. chunk (all f k) []) (append_assoc t (c ∷ []) l))
      ]

  -- To an open stream that takes every chunk whole, `vfprintf` writes the text of the format, the one that
  -- `vsnprintf` stores, however it is cut into chunks. The result is 0, whatever the length.
  pub vfprintf_lem :
      (args : ℕ → ℕ) (strings : ℕ → List ℕ) (f : F) (fmt : List ℕ)
      → accepts.IsOpen f
      → vfprintf write args strings (some f) fmt
        ≡ (some (all f (format_text args strings fmt)), pos 0)
  unfolding vfprintf
  vfprintf_lem args strings f fmt is_open =
      ap (λ (o : Chunk F). (some o.stream, (let r : ℤ = if o.failed then negsuc 0 else pos 0 in r)))
        (ap (out_flush write)
            (format_loop-put_all args strings fmt (Chunk F) (stream_char write) (chunk f []))
          ∙ stream_all (format_text args strings fmt) [] f is_open (omega arith))

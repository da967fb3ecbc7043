-- ===== src/Stdio/Stream/Laws.antt =====
-- c/rt/stdio.c: what is printed to a stream waits in its buffer, all of it and in order.
use mellivora_os.Stdio.Format.Text.{format_text}
use mellivora_os.Stdio.Output.{vfprintf}
use mellivora_os.Stdio.Output.Stream.{Accepts, vfprintf_lem}
use mellivora_os.Stdio.Stream.{File, Kernel, Process}
use mellivora_os.Stdio.Stream.Write.{Written, collect_loop, fwrite, write_chunk, fflush}
use mellivora_os.Base.Int.{pos}
use mellivora_os.Base.{
  ℕ, zero, suc, ◌+◌, ◌*◌, ◌/◌, ◌≤◌, ◌<◌, ◌≡◌, refl, sym, ap, ◌∙◌, subst, Bool, true, false, ◌&&◌,
  not, some, List, [], ◌∷◌, ◌++◌, append-nil, append_assoc, arith, ◌==◌, if◌then◌else◌, length,
  length-append, take, u32,
}

-- The capacity behind the write of `n` bytes.
pub grown : ℕ → ℕ → ℕ → ℕ
grown used cap zero = cap
grown used cap (suc n) =
    let bigger = if cap == 0 then 1024 else u32 (cap * 2) in
    grown (used + 1) (if used == cap then bigger else cap) n

module _ {W : Type 0} (k : Kernel W) (granted : (n : ℕ) → k.grants n ≡ true) where
  abbrev pub stored : File → List ℕ → File
  stored f l = record f { wbuf = f.wbuf ++ l; wcap = grown (length f.wbuf) f.wcap (length l) }

  abbrev written : ℕ → File → Process W → Written W
  written n f pr = record { items = n; file = f; process = pr }

  grants_all : (n : ℕ) (b : Bool) → (b && not (k.grants n)) ≡ false
  grants_all n true = rw (granted n) refl
  grants_all n false = refl

  collect_all :
      (l : List ℕ) (done : ℕ) (f : File) (pr : Process W)
      → collect_loop k done l f pr
        ≡ record { items = done + length l; file = stored f l; process = pr }
  unfolding collect_loop grown
  collect_all [] done f pr =
      ap (λ n. written n f pr) (let e : done ≡ done + 0 = omega arith in e)
      ∙ ap (λ l. written (done + 0) (record f { wbuf = l }) pr) (sym (append-nil f.wbuf))
  collect_all (c ∷ l) done f pr =
      let bigger = if f.wcap == 0 then 1024 else u32 (f.wcap * 2) in
      let cap = if length f.wbuf == f.wcap then bigger else f.wcap in
      let f' = record f { wbuf = f.wbuf ++ (c ∷ []); wcap = cap } in
      let longer = length-append f.wbuf (c ∷ []) in
      let never : (length f.wbuf == f.wcap && not (k.grants bigger)) ≡ false =
        grants_all bigger (length f.wbuf == f.wcap) in
      rw never (
        collect_all l (done + 1) f' pr
        ∙ ap (λ n. written n (stored f' l) pr)
            (let e : done + 1 + length l ≡ done + suc (length l) = omega arith in e)
        ∙ ap
            (λ b.
              written (done + suc (length l))
                (record f { wbuf = b; wcap = grown (length (f.wbuf ++ (c ∷ []))) cap (length l) })
                pr)
            (append_assoc f.wbuf (c ∷ []) l)
        ∙ ap
            (λ n.
              written (done + suc (length l))
                (record f { wbuf = f.wbuf ++ (c ∷ l); wcap = grown n cap (length l) }) pr)
            (let e : length (f.wbuf ++ (c ∷ [])) ≡ length f.wbuf + 1 = longer in e))

  take_all : (l : List ℕ) → take (length l) l ≡ l
  take_all [] = refl
  take_all (c ∷ l) = ap (λ t. c ∷ t) (take_all l)

  one_byte : (l : List ℕ) → length l ≤ 256 → u32 (1 * length l) ≡ length l
  one_byte l h = ground arith

  grown-add : (m n used wcap : ℕ) → grown (used + m) (grown used wcap m) n ≡ grown used wcap (m + n)
  unfolding grown
  grown-add zero n used wcap =
      ap (λ u. grown u wcap n) (let e : used + 0 ≡ used = omega arith in e)
      ∙ ap (grown used wcap) (let e : n ≡ 0 + n = omega arith in e)
  grown-add (suc m) n used wcap =
      let bigger = if wcap == 0 then 1024 else u32 (wcap * 2) in
      let wider = if used == wcap then bigger else wcap in
      ap (λ u. grown u (grown (used + 1) wider m) n)
        (let e : used + suc m ≡ used + 1 + m = omega arith in e)
      ∙ grown-add m n (used + 1) wider
      ∙ ap (grown used wcap) (let e : suc (m + n) ≡ suc m + n = omega arith in e)

  file_stream : File → File
  file_stream f = record f { is_console = false }

  fwrite_file :
      (l : List ℕ) (f : File) (pr : Process W)
      → length l ≤ 256
      → fwrite k l 1 (length l) (file_stream f) pr
        ≡ written (length l) (stored (file_stream f) l) pr
  unfolding fwrite grown file_stream
  fwrite_file [] f pr h =
      ap (λ b. written 0 (record f { wbuf = b; is_console = false }) pr) (sym (append-nil f.wbuf))
  fwrite_file (c ∷ l) f pr h =
      let some_left : (length (c ∷ l) == 0) ≡ false = ground arith in
      let all_of_it : take (u32 (1 * length (c ∷ l))) (c ∷ l) ≡ c ∷ l =
        ap (λ n. take n (c ∷ l)) (one_byte (c ∷ l) h) ∙ take_all (c ∷ l) in
      rw (some_left, all_of_it, collect_all (c ∷ l) 0 (record f { is_console = false }) pr)
        (ap (λ n. written n (stored (record f { is_console = false }) (c ∷ l)) pr)
          (let e : (0 + length (c ∷ l)) / 1 ≡ length (c ∷ l) = ground arith in e))

  fwrite_all :
      (l : List ℕ) (f : File) (pr : Process W)
      → f.is_console ≡ false
      → length l ≤ 256
      → fwrite k l 1 (length l) f pr ≡ written (length l) (stored f l) pr
  unfolding file_stream
  fwrite_all l f pr open_file h =
      let same : file_stream f ≡ f = ap (λ b. record f { is_console = b }) (sym open_file) in
      subst (λ g. fwrite k l 1 (length l) g pr ≡ written (length l) (stored g l) pr) same
        (fwrite_file l f pr h)

  file_after : File × Process W → List ℕ → File × Process W
  file_after (f, pr) l = (stored f l, pr)

  file-Accepts : Accepts (write_chunk k) file_after
  unfolding file_after grown
  file-Accepts = record {
    IsOpen = λ s. ◌≡◌ s.0.is_console false;
    kept = λ s l h. h;
    whole = λ s l h m.
        (let all_taken : (length l == length l) ≡ true = ground arith in
          ap
            (λ (w : Written W).
              (let r : (File × Process W) × Bool = ((w.file, w.process), w.items == length l) in r))
            (fwrite_all l s.0 s.1 h m)
          ∙ ap (λ b. (file_after s l, b)) all_taken);
    none_written = λ s. ap (λ b. (record s.0 { wbuf = b }, s.1)) (append-nil s.0.wbuf);
    joined = λ s l r.
        let n = length s.0.wbuf in
        let longer = length-append s.0.wbuf l in
        let put : List ℕ → ℕ → File × Process W = λ b c. (record s.0 { wbuf = b; wcap = c }, s.1) in
        ap (λ b. put b (grown (length (s.0.wbuf ++ l)) (grown n s.0.wcap (length l)) (length r)))
          (append_assoc s.0.wbuf l r)
        ∙ ap (put (s.0.wbuf ++ (l ++ r))) (
            ap (λ m. grown m (grown n s.0.wcap (length l)) (length r)) longer
            ∙ grown-add (length l) (length r) n s.0.wcap
            ∙ ap (grown n s.0.wcap) (sym (length-append l r)));
  }

  abbrev handed_over : File → List ℕ → Process W → Bool × (File × Process W)
  handed_over f l pr = (
    true,
    (
      record (stored f l) { wbuf = [] },
      record pr { world = (k.fwrite f.path (f.wbuf ++ l) pr.world).1 },
    ),
  )

  flush_file :
      (f : File) (l : List ℕ) (pr : Process W)
      → 0 < length f.path
      → 0 < length l
      → (k.fwrite f.path (f.wbuf ++ l) pr.world).0 ≡ true
      → fflush k (stored (file_stream f) l) pr ≡ handed_over (file_stream f) l pr
  unfolding fflush file_stream
  flush_file f l pr named some_text taken =
      let longer = length-append f.wbuf l in
      let waits : (length (f.wbuf ++ l) == 0) ≡ false = ground (arith, longer) in
      let has_name : (length f.path == 0) ≡ false = ground arith in rw (waits, taken, has_name) refl

  flush_stored :
      (f : File) (l : List ℕ) (pr : Process W)
      → f.is_console ≡ false
      → 0 < length f.path
      → 0 < length l
      → (k.fwrite f.path (f.wbuf ++ l) pr.world).0 ≡ true
      → fflush k (stored f l) pr ≡ handed_over f l pr
  unfolding file_stream
  flush_stored f l pr open_file named some_text taken =
      let same : file_stream f ≡ f = ap (λ b. record f { is_console = b }) (sym open_file) in
      subst (λ g. fflush k (stored g l) pr ≡ handed_over g l pr) same
        (flush_file f l pr named some_text taken)

  -- With memory for the buffer: what `vfprintf` is given for a file stream waits in its buffer, behind what
  -- was there. If that is not nothing, and the kernel takes the write, then `fflush` replaces the file of
  -- that name by all of it, and the buffer is empty.
  pub fflush-vfprintf :
      (args : ℕ → ℕ) (strings : ℕ → List ℕ) (fmt : List ℕ) (f : File) (pr : Process W)
      → f.is_console ≡ false
      → 0 < length f.path
      → 0 < length (format_text args strings fmt)
      → (k.fwrite f.path (f.wbuf ++ format_text args strings fmt) pr.world).0 ≡ true
      → (vfprintf (write_chunk k) args strings (some (f, pr)) fmt
          ≡ (some (stored f (format_text args strings fmt), pr), pos 0))
        × (fflush k (stored f (format_text args strings fmt)) pr ≡ (
          true,
          (
            record (stored f (format_text args strings fmt)) { wbuf = [] },
            record pr {
              world = (k.fwrite f.path (f.wbuf ++ format_text args strings fmt) pr.world).1;
            },
          ),
        ))
  unfolding file-Accepts file_after
  fflush-vfprintf args strings fmt f pr open_file named some_text taken = (
    vfprintf_lem (write_chunk k) file_after file-Accepts args strings (f, pr) fmt open_file,
    flush_stored f (format_text args strings fmt) pr open_file named some_text taken,
  )

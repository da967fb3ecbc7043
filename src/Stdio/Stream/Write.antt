-- ===== src/Stdio/Stream/Write.antt =====
-- c/rt/stdio.c: writing a stream. The bytes are collected, and handed over by the flush.
use mellivora_os.Stdio.Stream.{File, Kernel, Process, eio, enomem}
use mellivora_os.Base.{
  ℕ, ◌+◌, ◌*◌, ◌/◌, Bool, true, false, ◌&&◌, ◌||◌, not, Option, none, some, List, [], ◌∷◌, ◌++◌,
  ltb, ◌==◌, if◌then◌else◌, length, take, u8, u32,
}

-- The items written, with the stream and the process behind it.
pub record Written (W : Type 0) : Type 0 where
  pub items : ℕ
  pub file : File
  pub process : Process W

-- What `console_write` puts in its array of 512 bytes before the terminator; `used` of them are taken.
unfoldable pub crlf_loop : ℕ → List ℕ → List ℕ
crlf_loop used [] = []
crlf_loop used (c ∷ l) =
    let both = crlf_loop (used + 2) l in
    let one = crlf_loop (used + 1) l in
    let neither = crlf_loop used l in
    if c == 10 && ltb (used + 1) 512
    then 13 ∷ (10 ∷ both)
    else if ltb used 511
    then c ∷ one
    else neither

module _ {W : Type 0} (k : Kernel W) where
  -- Where descriptor 1 does not take all of it, it is printed by the old call, up to a terminator.
  abbrev pub console_write : List ℕ → W → W
  console_write l world =
      let out = crlf_loop 0 l in
      let (done, world') = k.write 1 out world in
      if elim done [ none ↦ false | some n ↦ n == length out ] then world' else k.print out world'

  -- The loop over the bytes: `done` of them are in the buffer. The buffer grows where it is full, if
  -- the heap grants it.
  unfoldable pub collect_loop : ℕ → List ℕ → File → Process W → Written W
  collect_loop done [] f pr = record { items = done; file = f; process = pr }
  collect_loop done (c ∷ l) f pr =
      let bigger = if f.wcap == 0 then 1024 else u32 (f.wcap * 2) in
      let full = length f.wbuf == f.wcap in
      let f' = record f { wbuf = f.wbuf ++ (c ∷ []); wcap = if full then bigger else f.wcap } in
      let rest = collect_loop (done + 1) l f' pr in
      if full && not (k.grants bigger)
      then record {
        items = done;
        file = record f { error = true };
        process = record pr { errno = enomem };
      }
      else rest

  -- `buf` has the bytes that are to be written, as `size * count` says.
  unfoldable pub fwrite : List ℕ → ℕ → ℕ → File → Process W → Written W
  fwrite buf size count f pr =
      let want = u32 (size * count) in
      let collected = collect_loop 0 (take want buf) f pr in
      if size == 0 || count == 0
      then record { items = 0; file = f; process = pr }
      else if f.is_console
      then record {
        items = count;
        file = f;
        process = record pr { world = console_write (take want buf) pr.world };
      }
      else record collected { items = collected.items / size }

  -- How `out_flush` calls it: whether all was written.
  abbrev pub write_chunk : File × Process W → List ℕ → (File × Process W) × Bool
  write_chunk (f, pr) l =
      let w = fwrite l 1 (length l) f pr in ((w.file, w.process), w.items == length l)

  unfoldable pub fputc : ℕ → File → Process W → Option ℕ × Written W
  fputc c f pr =
      let w = fwrite (u8 c ∷ []) 1 1 f pr in (if w.items == 1 then some (u8 c) else none, w)

  -- Whether all of the string was written.
  unfoldable pub fputs : List ℕ → File → Process W → Bool × Written W
  fputs s f pr = let w = fwrite s 1 (length s) f pr in (w.items == length s, w)

  abbrev pub putchar : ℕ → File → Process W → Option ℕ × Written W
  putchar c stdout pr = fputc c stdout pr

  unfoldable pub puts : List ℕ → File → Process W → Option ℕ × Written W
  puts s stdout pr =
      let (whole, w) = fputs s stdout pr in
      let (last, end) = fputc 10 w.file w.process in
      if whole then (elim last [ none ↦ none | some c ↦ some 1 ], end) else (none, w)

  -- Whether the flush succeeded, or had nothing to do. The whole file is replaced.
  unfoldable pub fflush : File → Process W → Bool × (File × Process W)
  fflush f pr =
      let (stored, world) = k.fwrite f.path f.wbuf pr.world in
      if length f.wbuf == 0
      then (true, (f, pr))
      else if f.is_console || length f.path == 0
      then (false, (record f { error = true }, pr))
      else if stored
      then (true, (record f { wbuf = [] }, record pr { world = world }))
      else (false, (record f { error = true }, record pr { world = world; errno = eio }))

-- ===== src/Stdio/Stream/Tests.antt =====
-- c/rt/stdio.c: runs over a disk with one file, and the theorems at concrete inputs.
use mellivora_os.Base.Int.{pos_part, ◌+ℤ◌}
use mellivora_os.Stdio.Stream.Position.{fseek}
use mellivora_os.Stdio.Stream.Seek.{start_of, is_outside, in_memory, cleared, fseek_lem}
use mellivora_os.Stdio.Stream.{einval, File, Kernel, Process, stream_new, fread, read_bytes, pos}
use mellivora_os.Stdio.Stream.Write.{fwrite, write_chunk, crlf_loop, fflush}
use mellivora_os.Stdio.Stream.Open.{fopen, mode_flags, open_stream}
use mellivora_os.Stdio.Stream.Line.{getdelim}
use mellivora_os.Stdio.Stream.Lines.{through, at, Delivers, getdelim_lem}
use mellivora_os.Stdio.Stream.Laws.{stored, fflush-vfprintf}
use mellivora_os.Stdio.Stream.Console.{console_write_full}
use mellivora_os.Stdio.Format.Text.{format_text}
use mellivora_os.Stdio.Format.{format_loop}
use mellivora_os.Stdio.Output.{vfprintf}
use mellivora_os.Base.Texts.{codes}
use mellivora_os.Base.{
  if◌then◌else◌, false, ℕ, ◌≤◌, ◌≡◌, refl, true, none, some, List, [], ◌∷◌, ◌++◌, arith, length,
  replicate,
}

-- The world is the bytes of the file.
abbrev disk : Kernel (List ℕ)
disk = record {
  read = λ fd n w. (none, w);
  stdin_read = λ w. (none, w);
  fwrite = λ path l w. (true, l);
  fread = λ path w. some w;
  write = λ fd l w. (some (length l), w);
  print = λ l w. w;
  seek = λ fd n whence pr. (none, pr);
  open_file = λ path flags pr. (some 3, pr);
  close = λ fd pr. (true, pr);
  stat = λ path pr. (some (length pr.world), pr);
  grants = λ n. true;
}

abbrev machine : List ℕ → Process (List ℕ)
machine w = record { world = w; piped = none; errno = 0 }

abbrev two_lines : List ℕ
two_lines = codes "ab" ++ (10 ∷ codes "c")

abbrev opened : File
opened = record (stream_new 3 0) { path = codes "f"; rbuf = some two_lines }

abbrev fresh : File
fresh = record (stream_new 3 1) { path = codes "f" }

fopen_run : (fopen disk (codes "f") (codes "r") (machine two_lines)).0 ≡ some opened
unfolding fopen mode_flags open_stream stream_new fwrite
fopen_run = refl

fread_run : (fread disk 1 2 opened (machine two_lines)).bytes ≡ codes "ab"
unfolding fread read_bytes stream_new
fread_run = refl

abbrev numbers : ℕ → ℕ
numbers n = 42

abbrev no_strings : ℕ → List ℕ
no_strings p = []

console_write_full_example :
    (length (crlf_loop 0 two_lines) ≤ 512)
    × (length (crlf_loop 0 (replicate 256 10 ++ two_lines)) ≡ 512)
console_write_full_example = console_write_full two_lines

getdelim_lem_example :
    Delivers
      (getdelim disk 10 5 0 (at fresh [] two_lines) (machine []))
      (through 10 two_lines)
      two_lines
      (length (through 10 two_lines))
      (machine [])
getdelim_lem_example =
    getdelim_lem disk (λ n. refl) 10 fresh [] two_lines (machine []) 5 0
      (omega arith, (omega arith, (omega arith, (omega arith, tt)))) (omega arith) (omega arith)

fflush-vfprintf_example :
    (vfprintf (write_chunk disk) numbers no_strings (some (fresh, machine [])) (codes "ok") ≡ (
      some
          (stored disk (λ n. refl) fresh (format_text numbers no_strings (codes "ok")), machine []),
      pos 0,
    ))
    × (fflush disk
          (stored disk (λ n. refl) fresh (format_text numbers no_strings (codes "ok")))
          (machine [])
        ≡ (
          true,
          (
            record (stored disk (λ n. refl) fresh (format_text numbers no_strings (codes "ok"))) {
              wbuf = [];
            },
            machine (format_text numbers no_strings (codes "ok")),
          ),
        ))
unfolding stream_new format_text format_loop
fflush-vfprintf_example =
    fflush-vfprintf disk (λ n. refl) numbers no_strings (codes "ok") fresh (machine []) refl
      (omega arith) (omega arith) refl

fseek_lem_example : fseek disk (pos 2147483647) 1 (in_memory disk fresh two_lines) (machine []) ≡ (
    if is_outside (pos (start_of two_lines fresh.rpos 1) +ℤ pos 2147483647) (length two_lines)
    then (false, (cleared disk fresh two_lines, record (machine []) { errno = einval }))
    else (
      true,
      (
        record (cleared disk fresh two_lines) {
          rpos = pos_part (pos (start_of two_lines fresh.rpos 1) +ℤ pos 2147483647);
        },
        machine [],
      ),
    ))
unfolding stream_new
fseek_lem_example =
    fseek_lem disk (pos 2147483647) 1 fresh (machine []) two_lines (omega arith, omega arith)
      (omega arith) (omega arith)

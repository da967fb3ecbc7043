-- ===== src/Stdio/Tests.antt =====
-- c/rt/stdio.c: runs of the functions, and the theorems at concrete inputs.
use mellivora_os.Stdio.Format.{
  read_directive, read_flags, read_number, read_width, read_precision, skip_modifiers,
  number_digits, out_digits, out_number, out_string, conversion, format_loop,
}
use mellivora_os.Stdio.Format.Text.{format_text}
use mellivora_os.Stdio.Output.{vsnprintf, vfprintf}
use mellivora_os.Stdio.Output.Laws.{HoldsString, vsnprintf_lem}
use mellivora_os.Stdio.Output.Stream.{Accepts, vfprintf_lem}
use mellivora_os.Stdio.Decimal.{strtol-format_text}
use mellivora_os.Stdlib.Convert.{strtol}
use mellivora_os.Str.Memory.{Memory}
use mellivora_os.Base.Int.{pos}
use mellivora_os.Base.Signed.{to_i32}
use mellivora_os.Base.Texts.{codes}
use mellivora_os.Base.Writer.{put_all, put_repeat}
use mellivora_os.Base.{
  ℕ, ◌≡◌, refl, inr, Bool, true, false, some, List, [], ◌++◌, append-nil, append_assoc, arith, ◌==◌,
  if◌then◌else◌, length, take,
}

-- The arguments -7, 255 and a pointer.
abbrev words : ℕ → ℕ
words n = if n == 0 then 0xFFFFFFF9 else if n == 1 then 255 else 4096

abbrev names : ℕ → List ℕ
names p = codes "bee"

abbrev blank : Memory
blank q = 1

format_run : format_text words names (codes "%5d|%-4x|%.2s%%") ≡ codes "   -7|ff  |be%"
unfolding format_text format_loop read_directive read_flags read_width read_number read_precision
    skip_modifiers conversion out_number out_digits out_string number_digits put_all put_repeat
    to_i32
format_run = refl

abbrev appended : List ℕ → List ℕ → List ℕ × Bool
appended f l = (f ++ l, true)

appended-Accepts : Accepts appended (λ f l. f ++ l)
appended-Accepts = record {
  IsOpen = λ f. ◌≡◌ f f;
  kept = λ f l h. refl;
  whole = λ f l h m. refl;
  none_written = λ f. append-nil f;
  joined = λ f l r. append_assoc f l r;
}

vfprintf_lem_example :
    vfprintf appended words names (some (codes "> ")) (codes "%d")
    ≡ (some (codes "> " ++ format_text words names (codes "%d")), pos 0)
unfolding appended-Accepts
vfprintf_lem_example =
    vfprintf_lem appended (λ f l. f ++ l) appended-Accepts words names (codes "> ") (codes "%d")
      refl

vsnprintf_lem_example :
    HoldsString
      (vsnprintf ◌++◌ words names (codes "> ") blank 100 2 (codes "hi!")).1.0
      100
      (take 1 (format_text words names (codes "hi!")))
    × (((vsnprintf ◌++◌ words names (codes "> ") blank 100 2 (codes "hi!")).1.1
          ≡ to_i32 (length (format_text words names (codes "hi!"))))
        × (((vsnprintf ◌++◌ words names (codes "> ") blank 100 2 (codes "hi!")).1.0 102 ≡ blank 102)
            × ((vsnprintf ◌++◌ words names (codes "> ") blank 100 2 (codes "hi!")).0 ≡ codes "> ")))
unfolding format_text format_loop
vsnprintf_lem_example =
    vsnprintf_lem ◌++◌ words names (codes "> ") blank 100 (codes "hi!") 2 102 (omega arith)
      (omega arith) (omega arith) (omega arith) (inr (omega arith))

strtol-format_text_example :
    strtol (format_text words names (codes "%d")) 10
    ≡ record { value = to_i32 (words 0); endptr = []; invalid = false }
strtol-format_text_example = strtol-format_text words names (omega arith)

-- ===== src/Stdio/Stream/Open.antt =====
-- c/rt/stdio.c: opening and closing a stream. The standard handles are not made here.
use mellivora_os.Stdio.Stream.{File, Kernel, Process, stream_new, ebadf, enomem, einval}
use mellivora_os.Stdio.Stream.Write.{fwrite, fflush}
use mellivora_os.Base.{
  ℕ, ◌+◌, bit_and, bit_or, Bool, true, false, ◌&&◌, Option, none, some, List, [], ◌==◌,
  if◌then◌else◌, length, take, u32, first, rest_of,
}

abbrev pub o_wronly : ℕ
o_wronly = 1

abbrev pub o_rdwr : ℕ
o_rdwr = 2

abbrev pub o_creat : ℕ
o_creat = 0x40

abbrev pub o_trunc : ℕ
o_trunc = 0x200

abbrev pub o_accmode : ℕ
o_accmode = 3

-- The flags, and whether to append; none for a mode that is not known, and then `errno` is EINVAL.
unfoldable pub mode_flags : List ℕ → Option (ℕ × Bool)
mode_flags mode =
    let plus = first (rest_of mode) == b'+' in
    let writing = if plus then o_rdwr else o_wronly in
    if first mode == b'r'
    then some (if plus then o_rdwr else 0, false)
    else if first mode == b'w'
    then some (bit_or (bit_or writing o_creat) o_trunc, false)
    else if first mode == b'a'
    then some (bit_or writing o_creat, true)
    else none

-- sizeof(FILE)
abbrev pub file_size : ℕ
file_size = 308

module _ {W : Type 0} (k : Kernel W) where
  abbrev pub bytes_of : Option (List ℕ) → List ℕ
  bytes_of none = []
  bytes_of (some l) = l

  -- The copy of a file that is read, none where there is no size of it or no memory for it.
  abbrev pub copy_of : List ℕ → Option ℕ → W → Option (List ℕ)
  copy_of path none world = none
  copy_of path (some size) world =
      if k.grants (u32 (size + 1)) then some (bytes_of (k.fread path world)) else none

  -- The stream with the copy to read.
  abbrev pub load : List ℕ → File → Process W → File × Process W
  load path f pr =
      let (size, pr') = k.stat path pr in
      if f.mode == o_wronly then (f, pr) else (record f { rbuf = copy_of path size pr'.world }, pr')

  -- The stream of an open descriptor: its name, the copy to read, and the old bytes to append to.
  unfoldable pub open_stream : List ℕ → ℕ → Bool → ℕ → Process W → File × Process W
  open_stream path access append fd pr =
      let (f, pr') = load path (record (stream_new fd access) { path = take 259 path }) pr in
      let old = bytes_of (k.fread path pr'.world) in
      let w = fwrite k old 1 (length old) f pr' in if append then (w.file, w.process) else (f, pr')

  unfoldable pub fopen : List ℕ → List ℕ → Process W → Option File × Process W
  fopen path mode pr = elim (mode_flags mode) [
    | none ↦ (none, record pr { errno = einval })
    | some flags ↦
        let (opened, pr') = k.open_file path flags.0 pr in
        elim opened [
          | none ↦ (none, pr')
          | some fd ↦
              let (f, pr'') = open_stream path (bit_and flags.0 o_accmode) flags.1 fd pr' in
              if k.grants file_size
              then (some f, pr'')
              else (none, (k.close fd (record pr' { errno = enomem })).1)
        ]
  ]

  -- A descriptor below 0 is none here.
  unfoldable pub fdopen : Option ℕ → List ℕ → Process W → Option File × Process W
  fdopen none mode pr = (none, record pr { errno = ebadf })
  fdopen (some fd) mode pr = elim (mode_flags mode) [
    | none ↦ (none, record pr { errno = ebadf })
    | some flags ↦
        if k.grants file_size
        then (some (stream_new fd (bit_and flags.0 o_accmode)), pr)
        else (none, record pr { errno = enomem })
  ]

  -- Whether all went well. `standard`: the stream is one of the three handles, which stay open.
  unfoldable pub fclose : Bool → File → Process W → Bool × (File × Process W)
  fclose standard f pr =
      let (flushed, (f', pr')) = fflush k f pr in
      let (closed, pr'') = k.close f'.fd pr' in
      if standard then (false, (record f { error = true }, pr)) else (flushed && closed, (f', pr''))

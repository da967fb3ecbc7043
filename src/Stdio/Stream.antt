-- ===== src/Stdio/Stream.antt =====
-- c/rt/stdio.c: the state of a stream, and reading it. A function that takes a stream is
-- for one that is not null. The system calls are parameters over a world that they change.
pub mod Write
pub mod Position
pub mod Line
pub mod Open
pub mod Laws
pub mod Lines
pub mod Console
pub mod Seek
mod Tests
use mellivora_os.Base.{
  take_zero, take_nil, take-take, add-one, ℕ, zero, suc, ◌+◌, ◌-◌, ◌*◌, ◌/◌, ◌%◌, ◌^◌, ◌≤◌, ◌<◌,
  min, bit_and, bit_or, ◌≡◌, refl, sym, ap, ◌∙◌, subst, fun_ext, ◌≢◌, ◌↔◌, ◌⊎◌, inl, inr, Bool,
  true, false, ◌&&◌, ◌||◌, not, Option, none, some, List, [], ◌∷◌, ◌++◌, map, append-nil,
  append_assoc, arith, dec_lt, ℕ_discrete, ltb, leb, ◌==◌, if◌then◌else◌, ltb→lt, lt→ltb, leb→le,
  ==_iff, tests, Bool-cases, Option-cases, length, get_elem?, set, length-append, get_or, take,
  drop, replicate, take-append-drop, length-take, length-drop, length-replicate, length-map, All,
  All-append, All-drop, drop-append_length, and_ten, u8, u16, u32, first, rest_of,
}
use mellivora_os.Base.Int.{ℤ, pos, negsuc, ltb_ℤ, ◌+ℤ◌}

-- `wbuf` has the bytes that wait for the flush. `rbuf` is the whole file of a read stream, none where
-- the pointer is null.
pub record File : Type 0 where
  pub fd : ℕ
  pub mode : ℕ
  pub eof : Bool
  pub error : Bool
  pub ungot : Option ℕ
  pub is_console : Bool
  pub path : List ℕ
  pub wbuf : List ℕ
  pub wcap : ℕ
  pub rbuf : Option (List ℕ)
  pub rpos : ℕ

unfoldable pub stream_new : ℕ → ℕ → File
stream_new fd mode = record {
  fd = fd;
  mode = mode;
  eof = false;
  error = false;
  ungot = none;
  is_console = false;
  path = [];
  wbuf = [];
  wcap = 0;
  rbuf = none;
  rpos = 0;
}

-- The process: the world, what is left of the piped input once it has been asked for, and `errno`.
pub record Process (W : Type 0) : Type 0 where
  pub world : W
  pub piped : Option (List ℕ)
  pub errno : ℕ

-- The system calls: `read fd n` gives at most `n` bytes, none on an error; `stdin_read` all that was
-- piped in; `fwrite path bytes` whether the file was replaced; `fread` the bytes of a file; `write` the
-- number of bytes written, `print` goes to the console. Then c/rt/posix.c, which sets `errno`: `seek fd offset
-- whence` gives the new position, `open_file` a descriptor, `close` whether it was one, `stat` the size of
-- a file. `grants n` is whether the heap gives `n` bytes.
pub record Kernel (W : Type 0) : Type 0 where
  pub read : ℕ → ℕ → W → Option (List ℕ) × W
  pub stdin_read : W → Option (List ℕ) × W
  pub fwrite : List ℕ → List ℕ → W → Bool × W
  pub fread : List ℕ → W → Option (List ℕ)
  pub write : ℕ → List ℕ → W → Option ℕ × W
  pub print : List ℕ → W → W
  pub seek : ℕ → ℤ → ℕ → Process W → Option ℕ × Process W
  pub open_file : List ℕ → ℕ → Process W → Option ℕ × Process W
  pub close : ℕ → Process W → Bool × Process W
  pub stat : List ℕ → Process W → Option ℕ × Process W
  pub grants : ℕ → Bool

-- What a read has stored, with the stream and the process behind it.
pub record Read (W : Type 0) : Type 0 where
  pub bytes : List ℕ
  pub file : File
  pub process : Process W

-- One character, none at the end of the file.
pub record Got (W : Type 0) : Type 0 where
  pub char : Option ℕ
  pub file : File
  pub process : Process W

abbrev pub bytes_or_none : Option (List ℕ) → List ℕ
bytes_or_none none = []
bytes_or_none (some l) = l

abbrev pub first_char : List ℕ → Option ℕ
first_char [] = none
first_char (c ∷ l) = some (u8 c)

abbrev pub eio : ℕ
eio = 5

abbrev pub ebadf : ℕ
ebadf = 9

abbrev pub enomem : ℕ
enomem = 12

abbrev pub einval : ℕ
einval = 22

module _ {W : Type 0} (k : Kernel W) where
  -- The loop of reads from a descriptor. A read that is not the last gives a byte at least, so that
  -- `fuel` is enough at `want`.
  unfoldable pub read_loop : ℕ → ℕ → File → Process W → Read W
  read_loop zero want f pr = record { bytes = []; file = f; process = pr }
  read_loop (suc fuel) want f pr =
      let (got, world) = k.read f.fd want pr.world in
      let pr' = record pr { world = world } in
      if want == 0 then record { bytes = []; file = f; process = pr } else elim got [
        | none ↦ record { bytes = []; file = record f { error = true }; process = pr' }
        | some l ↦
            let rest = read_loop fuel (want - length l) f pr' in
            if length l == 0
            then record { bytes = []; file = record f { eof = true }; process = pr' }
            else record rest { bytes = l ++ rest.bytes }
      ]

  -- The piped input is asked for once, and is empty where there is none.
  abbrev pub slurp : Process W → List ℕ × Process W
  slurp pr = elim pr.piped [
    | some l ↦ (l, pr)
    | none ↦
        (bytes_or_none (k.stdin_read pr.world).0, record pr { world = (k.stdin_read pr.world).1 })
  ]

  abbrev pub read_stdin : ℕ → File → Process W → Read W
  read_stdin want f pr =
      let (l, pr') = slurp pr in
      record {
        bytes = take want l;
        file = if ltb (length l) want then record f { eof = true } else f;
        process = record pr' { piped = some (drop want l) };
      }

  -- From the copy of the file, in memory.
  abbrev pub read_copy : ℕ → List ℕ → File → Process W → Read W
  read_copy want l f pr =
      let got = take want (drop f.rpos l) in
      let after = record f { rpos = f.rpos + length got } in
      record {
        bytes = got;
        file = if leb (length l) after.rpos then record after { eof = true } else after;
        process = pr;
      }

  unfoldable pub read_bytes : ℕ → File → Process W → Read W
  read_bytes want f pr = elim f.rbuf [
    | some l ↦ read_copy want l f pr
    | none ↦ if f.fd == 0 then read_stdin want f pr else read_loop want want f pr
  ]

  -- The byte that was pushed back, then the rest. The result is the number of whole items in the bytes.
  unfoldable pub fread : ℕ → ℕ → File → Process W → Read W
  fread size count f pr =
      let want = u32 (size * count) in
      if size == 0 || count == 0
      then record { bytes = []; file = f; process = pr }
      else elim f.ungot [
        | none ↦ read_bytes want f pr
        | some c ↦
            if want == 0
            then read_bytes want f pr
            else (let rest = read_bytes (want - 1) (record f { ungot = none }) pr in
                record rest { bytes = c ∷ rest.bytes })
      ]

  abbrev pub got_of : Read W → Got W
  got_of r = record { char = first_char r.bytes; file = r.file; process = r.process }

  unfoldable pub fgetc : File → Process W → Got W
  fgetc f pr = elim f.ungot [
    | some c ↦ record { char = some c; file = record f { ungot = none }; process = pr }
    | none ↦ got_of (fread 1 1 f pr)
  ]

  abbrev pub getc : File → Process W → Got W
  getc f pr = fgetc f pr

  abbrev pub getchar : File → Process W → Got W
  getchar stdin pr = fgetc stdin pr

  -- The bytes of a line that `fgets` has stored, with room for `room` more.
  unfoldable pub fgets_loop : ℕ → File → Process W → Read W
  fgets_loop zero f pr = record { bytes = []; file = f; process = pr }
  fgets_loop (suc room) f pr =
      let got = fgetc f pr in
      elim got.char [
        | none ↦ record { bytes = []; file = got.file; process = got.process }
        | some c ↦
            let rest = fgets_loop room got.file got.process in
            if c == 10
            then record { bytes = c ∷ []; file = got.file; process = got.process }
            else record rest { bytes = c ∷ rest.bytes }
      ]

  -- Null, and nothing stored, where no byte was read.
  unfoldable pub fgets : ℕ → File → Process W → Option (List ℕ) × Read W
  fgets size f pr =
      let r = fgets_loop (size - 1) f pr in
      if size == 0
      then (none, record { bytes = []; file = f; process = pr })
      else if length r.bytes == 0
      then (none, r)
      else (some r.bytes, r)

-- The end of the file cannot be pushed back.
unfoldable pub ungetc : Option ℕ → File → Option ℕ × File
ungetc none f = (none, f)
ungetc (some c) f = (some (u8 c), record f { ungot = some (u8 c); eof = false })

abbrev pub feof : File → Bool
feof f = f.eof

abbrev pub ferror : File → Bool
ferror f = f.error

abbrev pub clearerr : File → File
clearerr f = record f { eof = false; error = false }

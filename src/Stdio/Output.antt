-- ===== src/Stdio/Output.antt =====
-- c/rt/stdio.c: the two sinks of the formatter, a buffer and a stream, with the functions on top of it.
pub mod Laws
pub mod Stream
use mellivora_os.Stdio.Format.{format_loop}
use mellivora_os.Str.Memory.{Memory, store}
use mellivora_os.Base.Int.{ℤ, pos, negsuc}
use mellivora_os.Base.Signed.{to_i32}
use mellivora_os.Base.{
  add-one, ℕ, zero, suc, ◌+◌, ◌-◌, ◌*◌, ◌/◌, ◌%◌, ◌^◌, ◌≤◌, ◌<◌, min, bit_and, bit_or, ◌≡◌, refl,
  sym, ap, ◌∙◌, subst, fun_ext, ◌≢◌, ◌↔◌, ◌⊎◌, inl, inr, Bool, true, false, ◌&&◌, ◌||◌, not, Option,
  none, some, List, [], ◌∷◌, ◌++◌, map, append-nil, append_assoc, arith, dec_lt, ℕ_discrete, ltb,
  leb, ◌==◌, if◌then◌else◌, ltb→lt, lt→ltb, leb→le, ==_iff, tests, Bool-cases, Option-cases, length,
  get_elem?, set, length-append, get_or, take, drop, replicate, take-append-drop, length-take,
  length-drop, length-replicate, length-map, All, All-append, All-drop, drop-append_length, and_ten,
  u8, u16, u32, first, rest_of,
}

-- `out_t` with a buffer. `buf` is an address, and `len` counts what the format produced.
pub record Buffer : Type 0 where
  pub memory : Memory
  pub buf : ℕ
  pub cap : ℕ
  pub len : ℕ

unfoldable pub buffer_char : Buffer → ℕ → Buffer
buffer_char o c =
    if ltb (u32 (o.len + 1)) o.cap
    then record o { memory = store o.memory (u32 (o.buf + o.len)) c; len = u32 (o.len + 1) }
    else record o { len = u32 (o.len + 1) }

-- The terminator, and the result.
abbrev pub buffer_end : Buffer → Memory × ℤ
buffer_end o =
    let last = if ltb o.len o.cap then o.len else u32 (o.cap + 0xFFFFFFFF) in
    (store o.memory (u32 (o.buf + last)) 0, to_i32 o.len)

-- `vsnprintf` with a buffer.
unfoldable pub buffer_format : (ℕ → ℕ) → (ℕ → List ℕ) → Memory → ℕ → ℕ → List ℕ → Memory × ℤ
buffer_format args strings memory buf size fmt = buffer_end (
    format_loop args strings Buffer buffer_char 0 0 fmt
      (record { memory = memory; buf = buf; cap = size; len = 0 }))

-- `out_t` with a stream of any kind: `write` is `fwrite` to it, or `console_write` which never fails,
-- with whether all was written.
pub record Chunk (F : Type 0) : Type 0 where
  pub stream : F
  pub tmp : List ℕ
  pub failed : Bool

module _ {F : Type 0} (write : F → List ℕ → F × Bool) where
  unfoldable pub out_flush : Chunk F → Chunk F
  out_flush o = if length o.tmp == 0 then o else record {
    stream = (write o.stream o.tmp).0;
    tmp = [];
    failed = if (write o.stream o.tmp).1 then o.failed else true;
  }

  unfoldable pub stream_char : Chunk F → ℕ → Chunk F
  stream_char o c =
      let o' = record o { tmp = o.tmp ++ (c ∷ []) } in
      if length o'.tmp == 256 then out_flush o' else o'

  -- `len` stays 0 on this path.
  unfoldable pub vfprintf : (ℕ → ℕ) → (ℕ → List ℕ) → Option F → List ℕ → Option F × ℤ
  vfprintf args strings none fmt = (none, negsuc 0)
  vfprintf args strings (some stream) fmt =
      let o = out_flush (
        format_loop args strings (Chunk F) stream_char 0 0 fmt
          (record { stream = stream; tmp = []; failed = false })) in
      (some o.stream, if o.failed then negsuc 0 else pos 0)

  -- The functions with `...` hand their arguments over as a `va_list`; `stdout` is a stream.
  abbrev pub fprintf : Option F → List ℕ → (ℕ → ℕ) → (ℕ → List ℕ) → Option F × ℤ
  fprintf stream fmt args strings = vfprintf args strings stream fmt

  abbrev pub vprintf : (ℕ → ℕ) → (ℕ → List ℕ) → F → List ℕ → Option F × ℤ
  vprintf args strings stdout fmt = vfprintf args strings (some stdout) fmt

  abbrev pub printf : F → List ℕ → (ℕ → ℕ) → (ℕ → List ℕ) → Option F × ℤ
  printf stdout fmt args strings = vfprintf args strings (some stdout) fmt

-- The functions on a buffer, with the console: a null buffer is how `out_char` tells a stream.
module _ {F : Type 0} (console_write : F → List ℕ → F) where
  -- The chunks to the console, `memory` as it was; or the buffer, and the console as it was.
  unfoldable pub vsnprintf : (ℕ → ℕ) → (ℕ → List ℕ) → F → Memory → ℕ → ℕ → List ℕ → F × (Memory × ℤ)
  vsnprintf args strings console memory buf size fmt =
      let write : F → List ℕ → F × Bool = λ f l. (console_write f l, true) in
      let o = out_flush write (
        format_loop args strings (Chunk F) (stream_char write) 0 0 fmt
          (record { stream = console; tmp = []; failed = false })) in
      if buf == 0
      then (o.stream, (memory, if o.failed then negsuc 0 else pos 0))
      else (console, buffer_format args strings memory buf size fmt)

  unfoldable pub vsprintf : (ℕ → ℕ) → (ℕ → List ℕ) → F → Memory → ℕ → List ℕ → F × (Memory × ℤ)
  vsprintf args strings console memory buf fmt =
      vsnprintf args strings console memory buf 0xFFFFFFFF fmt

  abbrev pub snprintf : F → Memory → ℕ → ℕ → List ℕ → (ℕ → ℕ) → (ℕ → List ℕ) → F × (Memory × ℤ)
  snprintf console memory buf size fmt args strings =
      vsnprintf args strings console memory buf size fmt

  abbrev pub sprintf : F → Memory → ℕ → List ℕ → (ℕ → ℕ) → (ℕ → List ℕ) → F × (Memory × ℤ)
  sprintf console memory buf fmt args strings = vsprintf args strings console memory buf fmt

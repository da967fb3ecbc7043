-- ===== src/Stdio/Stream/Position.antt =====
-- c/rt/stdio.c: fseek, ftell and rewind.
use mellivora_os.Stdio.Stream.{File, Kernel, Process, einval}
use mellivora_os.Base.Int.{ℤ, pos, negsuc, ltb_ℤ, ◌+ℤ◌}
use mellivora_os.Base.Signed.{i32, to_u32}
use mellivora_os.Base.{
  ℕ, Bool, true, false, ◌||◌, none, some, List, ltb, ◌==◌, if◌then◌else◌, length,
}

abbrev pub seek_set : ℕ
seek_set = 0

abbrev pub seek_cur : ℕ
seek_cur = 1

abbrev pub target_of : List ℕ → ℕ → ℤ → ℕ → ℤ
target_of l rpos offset whence =
    if whence == seek_set
    then offset
    else if whence == seek_cur
    then i32 (pos rpos +ℤ offset)
    else i32 (pos (length l) +ℤ offset)

module _ {W : Type 0} (k : Kernel W) where
  -- Whether the position was set, with the stream and the process behind it.
  unfoldable pub fseek : ℤ → ℕ → File → Process W → Bool × (File × Process W)
  fseek offset whence f pr =
      let f' = record f { ungot = none; eof = false } in
      elim f.rbuf [
        | some l ↦
            let target = target_of l f.rpos offset whence in
            if ltb_ℤ target (pos 0) || ltb (length l) (to_u32 target)
            then (false, (f', record pr { errno = einval }))
            else (true, (record f' { rpos = to_u32 target }, pr))
        | none ↦
            let (at, pr') = k.seek f.fd offset whence pr in
            elim at [
              | none ↦ (false, (record f' { error = true }, pr'))
              | some n ↦ (true, (f', pr'))
            ]
      ]

  unfoldable pub ftell : File → Process W → ℤ × Process W
  ftell f pr = elim f.rbuf [
    | some l ↦ (pos f.rpos, pr)
    | none ↦
        let (at, pr') = k.seek f.fd (pos 0) seek_cur pr in
        (elim at [ none ↦ negsuc 0 | some n ↦ pos n ], pr')
  ]

  unfoldable pub rewind : File → Process W → File × Process W
  rewind f pr = (fseek (pos 0) seek_set f pr).1

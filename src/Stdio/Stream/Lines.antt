-- ===== src/Stdio/Stream/Lines.antt =====
-- c/rt/stdio.c: getdelim over a stream that is in memory.
use mellivora_os.Stdio.Stream.{File, Kernel, Process, Got, fread, read_bytes, fgetc}
use mellivora_os.Stdio.Stream.Line.{line, ended, LineRead, line_char, getdelim_loop, getdelim}
use mellivora_os.Base.{
  ℕ, zero, suc, ◌+◌, ◌*◌, ◌^◌, ◌<◌, ◌≡◌, refl, sym, ap, ◌∙◌, inl, inr, Bool, true, false, ◌&&◌, not,
  Option, none, some, List, [], ◌∷◌, ◌++◌, append-nil, append_assoc, arith, leb, ◌==◌,
  if◌then◌else◌, Bool-cases, length, length-append, All, drop-append_length, u8, u32,
}

-- The bytes through the first delimiter, and those behind it.
pub through : ℕ → List ℕ → List ℕ
through d [] = []
through d (c ∷ l) = if c == d then c ∷ [] else c ∷ through d l

-- The stream at the bytes `l` of its copy, behind `seen`.
abbrev pub at : File → List ℕ → List ℕ → File
at f seen l = record f { ungot = none; rbuf = some (seen ++ l); rpos = length seen }

-- What a call of `getdelim` has given: the bytes `text`, and none is the end of the file; the stream is
-- behind them, at `rpos` of the same copy.
pub record Delivers {W : Type 0} (r : LineRead W) (text copy : List ℕ) (rpos : ℕ) (pr : Process W)
    : Type 0 where
  pub capacity : ℕ
  pub result : r.result ≡ (if length text == 0 then ended else line text capacity)
  pub fits : length text < capacity
  pub same_copy : r.file.rbuf ≡ some copy
  pub position : r.file.rpos ≡ rpos
  pub process : r.process ≡ pr

module _ {W : Type 0} (k : Kernel W) where
  abbrev got : Option ℕ → File → Process W → Got W
  got c f pr = record { char = c; file = f; process = pr }

  mark_end :
      (b : Bool) (f : File)
      → (if b then record f { eof = true } else f) ≡ record f { eof = if b then true else f.eof }
  mark_end true f = refl
  mark_end false f = refl

  next_char :
      (f : File) (seen : List ℕ) (c : ℕ) (l : List ℕ) (pr : Process W)
      → fgetc k (at f seen (c ∷ l)) pr
        ≡ got
            (some (u8 c))
            (at (record f { eof = if length l == 0 then true else f.eof }) (seen ++ (c ∷ [])) l)
            pr
  unfolding fgetc fread read_bytes
  next_char f seen c l pr =
      let longer = length-append seen (c ∷ l) in
      let one_more = length-append seen (c ∷ []) in
      let here : ℕ → List ℕ → File = λ n b. record f { ungot = none; rbuf = some b; rpos = n } in
      let marked : File → Got W =
        λ g. got (some (u8 c)) (record g { eof = if length l == 0 then true else g.eof }) pr in
      let last : leb (length (seen ++ (c ∷ l))) (length seen + 1) ≡ (length l == 0) =
        ground (arith, longer) in
      rw (drop-append_length seen (c ∷ l), last)
        (ap (λ g. got (some (u8 c)) g pr)
            (mark_end (length l == 0) (here (length seen + 1) (seen ++ (c ∷ l))))
          ∙ ap (λ n. marked (here n (seen ++ (c ∷ l))))
              (let e : length seen + 1 ≡ length (seen ++ (c ∷ [])) = omega (arith, one_more) in e)
          ∙ ap (λ b. marked (here (length (seen ++ (c ∷ []))) b))
              (sym (append_assoc seen (c ∷ []) l)))

  no_char :
      (f : File) (seen : List ℕ) (pr : Process W)
      → fgetc k (at f seen []) pr ≡ got none (at (record f { eof = true }) seen []) pr
  unfolding fgetc fread read_bytes
  no_char f seen pr =
      let longer = length-append seen [] in
      let last : leb (length (seen ++ [])) (length seen + 0) ≡ true = ground (arith, longer) in
      rw (drop-append_length seen [], last)
        (ap
          (λ n.
            got none (record f { eof = true; ungot = none; rbuf = some (seen ++ []); rpos = n }) pr)
          (let e : length seen + 0 ≡ length seen = omega arith in e))

  module _ (granted : (n : ℕ) → k.grants n ≡ true) (d : ℕ) where
    never_full : (b : Bool) (n : ℕ) → (b && not (k.grants n)) ≡ false
    never_full true n = rw (granted n) refl
    never_full false n = refl

    loop_end :
        (used seen : List ℕ) (n : ℕ) (f : File) (pr : Process W) (fuel : ℕ)
        → getdelim_loop k d (suc fuel) used n (at f seen []) pr ≡ record {
          result = if length used == 0 then ended else line used n;
          file = at (record f { eof = true }) seen [];
          process = pr;
        }
    unfolding getdelim_loop line_char
    loop_end used seen n f pr fuel =
        ap (line_char k d (getdelim_loop k d fuel) used n) (no_char f seen pr)

    abbrev room_for : List ℕ → ℕ → ℕ
    room_for used n = if leb n (length used + 1) then u32 (n * 2) else n

    abbrev behind : File → List ℕ → ℕ → List ℕ → File
    behind f seen c l =
        at (record f { eof = if length l == 0 then true else f.eof }) (seen ++ (c ∷ [])) l

    loop_step :
        (used seen : List ℕ) (c : ℕ) (l : List ℕ) (n : ℕ) (f : File) (pr : Process W) (fuel : ℕ)
        → c < 256
        → getdelim_loop k d (suc fuel) used n (at f seen (c ∷ l)) pr ≡ (
            if c == d
            then record {
              result = line (used ++ (c ∷ [])) (room_for used n);
              file = behind f seen c l;
              process = pr;
            }
            else getdelim_loop k d fuel (used ++ (c ∷ [])) (room_for used n) (behind f seen c l) pr)
    unfolding getdelim_loop line_char
    loop_step used seen c l n f pr fuel h =
        let byte : u8 c ≡ c = ground arith in
        let never : (leb n (length used + 1) && not (k.grants (room_for used n))) ≡ false =
          never_full (leb n (length used + 1)) (room_for used n) in
        ap (line_char k d (getdelim_loop k d fuel) used n) (next_char f seen c l pr)
        ∙ rw (byte, never) refl

    room_lem :
        (used : List ℕ) (c n : ℕ)
        → length used < n
        → length used + 1 < 2 ^ 31
        → length (used ++ (c ∷ [])) < room_for used n
    room_lem used c n room small =
        let longer = length-append used (c ∷ []) in ground (arith, longer)

    line_loop :
        (l used seen : List ℕ) (n : ℕ) (f : File) (pr : Process W) (fuel : ℕ)
        → All (λ c. c < 256) l
        → length l < fuel
        → length used < n
        → length used + length l < 2 ^ 31
        → Delivers
            (getdelim_loop k d fuel used n (at f seen l) pr)
            (used ++ through d l)
            (seen ++ l)
            (length (seen ++ through d l))
            pr
    unfolding through
    line_loop l used seen n f pr zero bytes enough room small = absurd (omega arith)
    line_loop [] used seen n f pr (suc fuel) bytes enough room small =
        rw (loop_end used seen n f pr fuel, append-nil used)
          (record {
            capacity = n;
            result = refl;
            fits = room;
            same_copy = refl;
            position = ap length (sym (append-nil seen));
            process = refl;
          })
    line_loop (c ∷ l) used seen n f pr (suc fuel) bytes enough room small =
        let longer = length-append used (c ∷ []) in
        let more_room = room_lem used c n room (omega arith) in
        let some_bytes : (length (used ++ (c ∷ [])) == 0) ≡ false = ground (arith, longer) in
        rw (loop_step used seen c l n f pr fuel bytes.0) (elim (Bool-cases (c == d)) [
          | inl found ↦ rw found (record {
            capacity = room_for used n;
            result = rw some_bytes refl;
            fits = more_room;
            same_copy = ap some (append_assoc seen (c ∷ []) l);
            position = refl;
            process = refl;
          })
          | inr other ↦ rw other (
              rw
                (
                  sym (append_assoc used (c ∷ []) (through d l)),
                  sym (append_assoc seen (c ∷ []) l),
                  sym (append_assoc seen (c ∷ []) (through d l)),
                )
                (line_loop l (used ++ (c ∷ [])) (seen ++ (c ∷ [])) (room_for used n)
                  (record f { eof = if length l == 0 then true else f.eof }) pr fuel bytes.1
                  (omega arith) more_room (omega (arith, longer))))
        ])

    -- With memory for the buffer, over a stream that is at the bytes `l` of its copy, fewer than 2 ^ 31:
    -- `getdelim` ends within one round for each of them and one more. It gives them through the first
    -- delimiter, or all where there is none, and -1 only where there are none left; they fit the buffer with
    -- a terminator, and the stream is behind them.
    pub getdelim_lem :
        (f : File) (seen l : List ℕ) (pr : Process W) (fuel n : ℕ)
        → All (λ c. c < 256) l
        → length l < fuel
        → length l < 2 ^ 31
        → Delivers
            (getdelim k d fuel n (at f seen l) pr)
            (through d l)
            (seen ++ l)
            (length (seen ++ through d l))
            pr
    unfolding getdelim
    getdelim_lem f seen l pr fuel n bytes enough small =
        let never = never_full (n == 0) 64 in
        let room : 0 < (if n == 0 then 64 else n) = ground arith in
        rw never
          (line_loop l [] seen (if n == 0 then 64 else n) f pr fuel bytes enough room (omega arith))

-- ===== src/Stdio/Stream/Line.antt =====
-- c/rt/stdio.c: getdelim and getline.
use mellivora_os.Stdio.Stream.{File, Kernel, Process, Got, fgetc, enomem}
use mellivora_os.Base.{
  ℕ, zero, suc, ◌+◌, ◌*◌, ◌&&◌, not, none, some, List, [], ◌∷◌, ◌++◌, leb, ◌==◌, if◌then◌else◌,
  length, u32,
}

-- A line with the capacity of the buffer that holds it, the end of the file, no memory, or a model
-- loop that is out of fuel.
pub data Line : Type 0 where
  line : List ℕ → ℕ → Line
  ended : Line
  no_memory : Line
  waits : Line

pub record LineRead (W : Type 0) : Type 0 where
  pub result : Line
  pub file : File
  pub process : Process W

module _ {W : Type 0} (k : Kernel W) (delim : ℕ) where
  -- The body of the loop, with the rounds behind it, the bytes so far and the capacity `n` of the buffer.
  unfoldable pub line_char :
      (List ℕ → ℕ → File → Process W → LineRead W) → List ℕ → ℕ → Got W → LineRead W
  line_char later used n got =
      let full = leb n (length used + 1) in
      let larger = if full then u32 (n * 2) else n in
      elim got.char [
        | none ↦ record {
          result = if length used == 0 then ended else line used n;
          file = got.file;
          process = got.process;
        }
        | some c ↦
            let rest = later (used ++ (c ∷ [])) larger got.file got.process in
            if full && not (k.grants larger)
            then record {
              result = no_memory;
              file = got.file;
              process = record got.process { errno = enomem };
            }
            else if c == delim
            then record {
              result = line (used ++ (c ∷ [])) larger;
              file = got.file;
              process = got.process;
            }
            else rest
      ]

  unfoldable pub getdelim_loop : ℕ → List ℕ → ℕ → File → Process W → LineRead W
  getdelim_loop zero used n f pr = record { result = waits; file = f; process = pr }
  getdelim_loop (suc fuel) used n f pr = line_char (getdelim_loop fuel) used n (fgetc k f pr)

  -- `n` is 0 where the caller gives no buffer.
  unfoldable pub getdelim : ℕ → ℕ → File → Process W → LineRead W
  getdelim fuel n f pr =
      let r = getdelim_loop fuel [] (if n == 0 then 64 else n) f pr in
      if n == 0 && not (k.grants 64)
      then record { result = no_memory; file = f; process = record pr { errno = enomem } }
      else r

abbrev pub getline : {W : Type 0} → Kernel W → ℕ → ℕ → File → Process W → LineRead W
getline k fuel n f pr = getdelim k 10 fuel n f pr

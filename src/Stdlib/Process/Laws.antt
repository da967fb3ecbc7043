-- ===== src/Stdlib/Process/Laws.antt =====
-- c/rt/stdlib.c: in what order the functions of atexit run.
use mellivora_os.Stdlib.Process.{Exits, atexit, mv_run_atexit}
use mellivora_os.Base.{
  ℕ, zero, suc, ◌+◌, ◌≤◌, ◌<◌, ◌≡◌, refl, ap, ◌∙◌, false, ◌||◌, some, List, [], ◌∷◌, arith, leb,
  ◌==◌, length, All,
}

-- A caller that registers one function after the other.
pub register_all : {W : Type 0} → List ℕ → Exits W → Exits W
register_all [] x = x
register_all (fn ∷ l) x = register_all l (atexit fn x).1

module _ {W : Type 0} (call : ℕ → Exits W → Exits W) (act : ℕ → W → W) where
  -- The last of the list first.
  pub last_first : List ℕ → W → W
  last_first [] w = w
  last_first (fn ∷ l) w = act fn (last_first l w)

  in_order : List ℕ → W → W
  in_order [] w = w
  in_order (fn ∷ l) w = in_order l (act fn w)

  exits : W → List ℕ → Exits W
  exits w l = record { world = w; funcs = l }

  run_in_order :
      ((fn : ℕ) (x : Exits W) → call fn x ≡ record x { world = act fn x.world })
      → (l : List ℕ) (w : W) (fuel : ℕ) → length l < fuel
      → mv_run_atexit call fuel (exits w l) ≡ some (exits (in_order l w) [])
  unfolding mv_run_atexit in_order exits
  run_in_order acts l w zero h = absurd (omega arith)
  run_in_order acts [] w (suc fuel) h = refl
  run_in_order acts (fn ∷ l) w (suc fuel) h =
      ap (mv_run_atexit call fuel) (acts fn (exits w l))
      ∙ run_in_order acts l (act fn w) fuel (omega arith)

  register_lem :
      (l fs : List ℕ) (w : W)
      → All (λ fn. 0 < fn) l
      → length l + length fs ≤ 8
      → (rest : List ℕ) × (register_all l (exits w fs) ≡ exits w rest)
        × (length rest ≡ length l + length fs)
        × ((v : W) → in_order rest v ≡ in_order fs (last_first l v))
  unfolding atexit register_all in_order last_first exits
  register_lem [] fs w real room = (fs, refl, omega arith, λ v. refl)
  register_lem (fn ∷ l) fs w real room =
      let positive = real.0 in
      let taken : (fn == 0 || leb 8 (length fs)) ≡ false = ground arith in
      let later = register_lem l (fn ∷ fs) w real.1 (omega arith) in
      let count = later.2 in (later.0, rw taken later.1, omega (arith, count), later.3)

  -- Where the functions register no others, `mv_run_atexit` ends after a round for each function: up to
  -- 8 functions that were registered run each once, the last one first, and none is left.
  pub mv_run_atexit_lem :
      ((fn : ℕ) (x : Exits W) → call fn x ≡ record x { world = act fn x.world })
      → (l : List ℕ) (w : W) → All (λ fn. 0 < fn) l
      → length l ≤ 8
      → mv_run_atexit call (length l + 1) (register_all l (record { world = w; funcs = [] }))
        ≡ some (record { world = last_first l w; funcs = [] })
  unfolding exits in_order
  mv_run_atexit_lem acts l w real room =
      let table = register_lem l [] w real (omega arith) in
      let count = table.2 in
      ap (mv_run_atexit call (length l + 1)) table.1
      ∙ run_in_order acts table.0 w (length l + 1) (omega (arith, count))
      ∙ ap (λ v. some (exits v [])) (table.3 w)

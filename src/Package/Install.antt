-- ===== src/Package/Install.antt =====
-- tools/hbpkg.c: cmd_install and cmd_upgrade. What stat, the shell commands and the files in the cache do is a
-- parameter, with the state of the world that they act on. A result of none is a call that is not back within the fuel.
pub mod Laws
pub mod Finish
pub mod Cycle
mod Tests
use mellivora_os.Base.{
  take_zero, take_nil, take-take, add-one, ℕ, zero, suc, ◌+◌, ◌-◌, ◌*◌, ◌/◌, ◌%◌, ◌^◌, ◌≤◌, ◌<◌,
  min, bit_and, bit_or, ◌≡◌, refl, sym, ap, ◌∙◌, subst, fun_ext, ◌≢◌, ◌↔◌, ◌⊎◌, inl, inr, Bool,
  true, false, ◌&&◌, ◌||◌, not, Option, none, some, List, [], ◌∷◌, ◌++◌, map, append-nil,
  append_assoc, arith, dec_lt, ℕ_discrete, ltb, leb, ◌==◌, if◌then◌else◌, ltb→lt, lt→ltb, leb→le,
  ==_iff, tests, Bool-cases, Option-cases, length, get_elem?, set, length-append, get_or, take,
  drop, replicate, take-append-drop, length-take, length-drop, length-replicate, length-map, All,
  All-append, All-drop, drop-append_length, and_ten, u8, u16, u32, first, rest_of,
}
use mellivora_os.Package.Name.{sanitise_name}
use mellivora_os.Package.Database.{Meta, db_pkg_installed, db_pkg_add}
use mellivora_os.Package.Meta.{split, meta_parse_toml, empty_meta}

-- By the name of a package: whether its file is in the cache or curl brings it; whether tar unpacks it; its meta.toml
-- as unpacked; the pre- and the post-install script, whose status is dropped; `mkdir -p` and `cp` of one of its files.
-- Whether there is a trusted key, whether the database can be opened to append to, how many bytes of a record reach
-- it, and the date.
pub record Host (W : Type 0) : Type 0 where
  pub fetch : List ℕ → W → Bool × W
  pub extract : List ℕ → W → Bool × W
  pub meta_file : List ℕ → W → Option (List ℕ)
  pub pre_script : List ℕ → W → W
  pub post_script : List ℕ → W → W
  pub copy_file : List ℕ → List ℕ → W → Bool × W
  pub has_key : W → Bool
  pub opens_db : W → Bool
  pub db_written : W → ℕ
  pub date : W → List ℕ

pub record Machine (W : Type 0) : Type 0 where
  pub world : W
  pub db : Option (List ℕ)

-- The name and the version constraint of an argument, none where the name is too long.
unfoldable pub split_argument : List ℕ → Option (List ℕ × List ℕ)
split_argument arg = elim (split b'@' arg) [
  | none ↦ some (take 63 arg, [])
  | some (name, constraint) ↦ if leb 64 (length name) then none else some (name, take 31 constraint)
]

-- `safe_name`.
unfoldable pub name_argument : List ℕ → Option (List ℕ)
name_argument arg = elim (split_argument arg) [
  | none ↦ none
  | some (name, constraint) ↦ sanitise_name name 64
]

-- The stub's answer.
abbrev pub meta_verify_sig : Meta → Bool
meta_verify_sig meta = true

-- `strstr(f, "..") != NULL`.
unfoldable pub has_dots : List ℕ → Bool
has_dots [] = false
has_dots (x ∷ []) = false
has_dots (x ∷ (y ∷ l)) = (x == b'.' && y == b'.') || has_dots (y ∷ l)

-- A call that failed ends the caller with 1.
unfoldable pub and_then :
    {W : Type 0}
    → Option (ℕ × Machine W)
    → (Machine W → Option (ℕ × Machine W))
    → Option (ℕ × Machine W)
and_then none next = none
and_then (some (zero, m)) next = next m
and_then (some (suc code, m)) next = some (1, m)

module _ {W : Type 0} (host : Host W) where
  unfoldable pub install_files : List ℕ → List (List ℕ) → W → Bool × W
  install_files name [] w = (true, w)
  install_files name (f ∷ files) w =
      let (copied, w') = host.copy_file name f w in
      if first f == b'/' || has_dots f
      then (false, w)
      else elim copied [ false ↦ (false, w') | true ↦ install_files name files w' ]

  -- The dependencies that are not installed, one after another, by `install`.
  unfoldable pub install_deps :
      (List ℕ → Machine W → Option (ℕ × Machine W))
      → List (List ℕ)
      → Machine W
      → Option (ℕ × Machine W)
  install_deps install [] m = some (0, m)
  install_deps install (d ∷ deps) m =
      if db_pkg_installed d m.db
      then install_deps install deps m
      else and_then (install d m) (λ m'. install_deps install deps m')

  -- From the pre-install script on.
  unfoldable pub install_payload : List ℕ → Meta → Machine W → ℕ × Machine W
  install_payload name meta m =
      let (copied, w) = install_files name meta.files (host.pre_script name m.world) in
      let w' = host.post_script name w in
      let (added, db') =
        db_pkg_add (host.opens_db w') (host.db_written w') (host.date w') meta m.db in
      if copied
      then (if added then 0 else 1, record { world = w'; db = db' })
      else (1, record { world = w; db = m.db })

  -- A package that is unpacked, with what meta_parse_toml says of it.
  unfoldable pub install_meta :
      (List ℕ → Machine W → Option (ℕ × Machine W))
      → List ℕ
      → Bool × Meta
      → Machine W
      → Option (ℕ × Machine W)
  install_meta install name (false, meta) m = some (1, m)
  install_meta install name (true, meta) m =
      if host.has_key m.world && not (meta_verify_sig meta)
      then some (1, m)
      else and_then (install_deps install meta.deps m) (λ m'. some (install_payload name meta m'))

  -- A package that is not installed.
  unfoldable pub install_package :
      (List ℕ → Machine W → Option (ℕ × Machine W)) → List ℕ → Machine W → Option (ℕ × Machine W)
  install_package install name m =
      let (fetched, w) = host.fetch name m.world in
      let (extracted, w') = host.extract name w in
      elim fetched [
        | false ↦ some (1, record m { world = w })
        | true ↦ elim extracted [
          | false ↦ some (1, record m { world = w' })
          | true ↦
              install_meta install name (meta_parse_toml (host.meta_file name w') empty_meta)
                (record m { world = w' })
        ]
      ]

  unfoldable pub install_argument :
      (List ℕ → Machine W → Option (ℕ × Machine W)) → List ℕ → Machine W → Option (ℕ × Machine W)
  install_argument install arg m = elim (name_argument arg) [
    | none ↦ some (1, m)
    | some name ↦ if db_pkg_installed name m.db then some (0, m) else install_package install name m
  ]

  unfoldable pub install_arguments :
      (List ℕ → Machine W → Option (ℕ × Machine W))
      → List (List ℕ)
      → Machine W
      → Option (ℕ × Machine W)
  install_arguments install [] m = some (0, m)
  install_arguments install (arg ∷ argv) m =
      and_then (install_argument install arg m) (λ m'. install_arguments install argv m')

  -- A dependency is installed by a call with that name, one deeper.
  unfoldable pub cmd_install : ℕ → List (List ℕ) → Machine W → Option (ℕ × Machine W)
  cmd_install zero argv m = none
  cmd_install (suc depth) [] m = some (1, m)
  cmd_install (suc depth) (arg ∷ argv) m =
      install_arguments (λ d m'. cmd_install depth (d ∷ []) m') (arg ∷ argv) m

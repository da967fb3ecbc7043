-- ===== src/Package/Meta/Print.antt =====
-- A meta.toml file as the documentation writes it, and what its texts may hold. tools/hbpkg.c only reads such files.
use mellivora_os.Base.{ℕ, ◌≤◌, ◌<◌, ◌≡◌, false, List, [], ◌∷◌, ◌++◌, ◌==◌, length, All}
use mellivora_os.Base.Texts.{codes}
use mellivora_os.Package.Database.{Meta}
use mellivora_os.Package.Meta.Lines.{IsLine, joined_lines}

-- The text in quotes, and what stands behind it.
unfoldable pub quoted : List ℕ → List ℕ → List ℕ
quoted s r = b'"' ∷ (s ++ (b'"' ∷ r))

unfoldable pub more_items : List (List ℕ) → List ℕ
more_items [] = b']' ∷ []
more_items (d ∷ l) = b',' ∷ (b' ' ∷ quoted d (more_items l))

unfoldable pub array_items : List (List ℕ) → List ℕ
array_items [] = b']' ∷ []
array_items (d ∷ l) = quoted d (more_items l)

-- An item of an array that has `size` bytes.
pub record IsItem (size : ℕ) (d : List ℕ) : Type 0 where
  pub short : length d < size
  pub no_quote : All (λ c. (c == b'"') ≡ false) d
  pub line : IsLine d

abbrev pub pair : List ℕ → List ℕ → List ℕ
pair key val = key ++ (codes " = " ++ quoted val [])

abbrev pub array : List ℕ → List (List ℕ) → List ℕ
array key l = key ++ (codes " = [" ++ array_items l)

abbrev pub meta_lines : Meta → List (List ℕ)
meta_lines m =
    pair (codes "name") m.name
    ∷ (pair (codes "version") m.version
        ∷ (pair (codes "description") m.description
            ∷ (pair (codes "author") m.author
                ∷ (pair (codes "license") m.license
                    ∷ (pair (codes "arch") m.arch
                        ∷ (array (codes "deps") m.deps ∷ (array (codes "files") m.files ∷ [])))))))

unfoldable pub print_meta : Meta → List ℕ
print_meta m = joined_lines (meta_lines m)

-- A text of a field with `size` bytes.
pub record IsField (size : ℕ) (s : List ℕ) : Type 0 where
  pub short : length s < size
  pub line : IsLine s

-- The texts fit their fields, the arrays theirs, and a line the buffer; a name and a version are there.
pub record WellFormed (m : Meta) : Type 0 where
  pub name_fits : IsField 64 m.name
  pub name_there : 0 < length m.name
  pub version_fits : IsField 32 m.version
  pub version_there : 0 < length m.version
  pub description_fits : IsField 256 m.description
  pub author_fits : IsField 64 m.author
  pub license_fits : IsField 32 m.license
  pub arch_fits : IsField 16 m.arch
  pub deps_fit : All (IsItem 64) m.deps
  pub few_deps : length m.deps ≤ 32
  pub deps_line : length (array (codes "deps") m.deps) < 511
  pub files_fit : All (IsItem 256) m.files
  pub few_files : length m.files ≤ 1024
  pub files_line : length (array (codes "files") m.files) < 511
